-- ===== src/Utils/Random.antt =====
-- pkg/utils/utils.go: what the random names look like.
use Prim.Native.Char.{Char}
use Prim.Native.String.{[], ◌∷◌}
use pixels_spike.Base.{ℕ, zero, suc, ◌<◌, ◌≡◌, refl, ap, some, String, arith}
use pixels_spike.Base.Exits.{Exit, returns}
use pixels_spike.Base.Int.{pos}
use pixels_spike.Utils.{charset, length, get_char?, draw, fill, generate_random_string}

-- Every character stands somewhere in the set.
abbrev pub IsFrom : String → String → Type 0
IsFrom set [] = Unit
IsFrom set (c ∷ s) = ((i : ℕ) × (get_char? set i ≡ some c)) × IsFrom set s

module _ {S : Type 0} (seed : S → S) (intn : ℕ → S → ℕ × S)
    (in_range : (n : ℕ) (s : S) → 0 < n → (intn n s).0 < n) where
  get_char?_in_range : (t : String) (i : ℕ) → i < length t → (c : Char) × (get_char? t i ≡ some c)
  unfolding length get_char?
  get_char?_in_range [] i h = absurd (omega arith)
  get_char?_in_range (c ∷ t) zero h = (c, refl)
  get_char?_in_range (c ∷ t) (suc i) h = get_char?_in_range t i (omega arith)

  abbrev Fills : ℕ → Exit String × S → Type 0
  Fills n r = (t : String) × (r.0 ≡ returns t) × (length t ≡ n) × IsFrom charset t

  charset_inhabited : 0 < length charset
  unfolding length
  charset_inhabited = omega arith

  fill-Fills : (n : ℕ) (s : S) → Fills n (fill seed intn n s)
  unfolding fill length draw get_char?_in_range
  fill-Fills zero s = ("", refl, refl, tt)
  fill-Fills (suc n) s =
      let (i, s') = intn (length charset) s in
      let (c, drawn) =
        get_char?_in_range charset i (in_range (length charset) s charset_inhabited) in
      let (t, filled, long, from) = fill-Fills n s' in
      let drew : draw seed intn s ≡ (returns c, s') = rw drawn refl in
      rw (drew, filled) (c ∷ t, refl, ap suc long, ((i, drawn), from))

  -- A random name of length `n` is always made, and has exactly `n` characters, all from the set.
  pub generate_random_string-Fills :
      (n : ℕ) (s : S)
      → (t : String) × ((generate_random_string seed intn (pos n) s).0 ≡ returns t)
        × (length t ≡ n)
        × IsFrom charset t
  unfolding generate_random_string
  generate_random_string-Fills n s = fill-Fills n (seed s)
