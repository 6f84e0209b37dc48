-- ===== src/Base/Decimal.antt =====
-- The verb `%d` of `fmt.Sprintf`.
use Prim.Native.String.{◌++◌}
use pixels_spike.Base.{
  ℕ, zero, suc, ◌/◌, ◌%◌, ltb, true, false, String, List, [], ◌∷◌, Option, none, some, get_elem?,
}
use pixels_spike.Base.Int.{ℤ, pos, negsuc}

abbrev digit_names : List String
digit_names = "0" ∷ "1" ∷ "2" ∷ "3" ∷ "4" ∷ "5" ∷ "6" ∷ "7" ∷ "8" ∷ "9" ∷ []

-- A digit is below ten, so it has a name.
abbrev name_of : Option String → String
name_of none = ""
name_of (some name) = name

abbrev digit : ℕ → String
digit n = name_of (get_elem? digit_names n)

-- The fuel bounds the number of digits: a number has no more than it counts, plus one.
digits : ℕ → ℕ → String
digits zero n = ""
digits (suc fuel) n = elim (ltb n 10) [
  | true ↦ digit n
  | false ↦ digits fuel (n / 10) ++ digit (n % 10)
]

unfoldable pub decimal : ℤ → String
unfolding digits
decimal (pos n) = digits (suc n) n
decimal (negsuc n) = "-" ++ digits (suc (suc n)) (suc n)
