-- ===== src/Base/Numerals.antt =====
-- `strconv.Atoi`, without its error: what the code reads of it.
use Prim.Native.Char.{Char, code}
use Prim.Native.String.{[], ◌∷◌}
use pixels_spike.Base.{
  ℕ, ◌+◌, ◌-◌, ◌*◌, ◌^◌, Option, none, some, Bool, ◌&&◌, String, ltb, leb, nat_eq, if◌then◌else◌,
}
use pixels_spike.Base.Int.{ℤ, pos, negsuc, sub_ℕ}

abbrev is_digit : Char → Bool
is_digit c = leb 48 (code c) && leb (code c) 57

-- The number of a text of digits; `none` for another text.
read_digits : String → ℕ → Option ℕ
read_digits [] n = some n
read_digits (c ∷ s) n =
    let rest = read_digits s (10 * n + (code c - 48)) in if is_digit c then rest else none

abbrev read_number : String → Option ℕ
unfolding read_digits
read_number [] = none
read_number (c ∷ s) = read_digits (c ∷ s) 0

-- A number out of range is cut to the range of int64, and another text reads as 0.
abbrev positive : Option ℕ → ℤ
positive none = pos 0
positive (some n) = if ltb n (2 ^ 63) then pos n else pos (2 ^ 63 - 1)

abbrev negative : Option ℕ → ℤ
negative none = pos 0
negative (some n) = if leb n (2 ^ 63) then sub_ℕ 0 n else negsuc (2 ^ 63 - 1)

unfoldable pub atoi : String → ℤ
unfolding read_digits
atoi [] = pos 0
atoi (c ∷ s) =
    if nat_eq (code c) 45
    then negative (read_number s)
    else if nat_eq (code c) 43
    then positive (read_number s)
    else positive (read_number (c ∷ s))
