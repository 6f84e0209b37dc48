-- ===== src/Utils.antt =====
-- pkg/utils/utils.go: random names. The generator of random numbers is an argument. `GetJson` calls
-- the encoder of the standard library and drops its error.
pub mod Random
use Prim.Native.Char.{Char}
use Prim.Native.String.{[], ◌∷◌}
use pixels_spike.Base.{ℕ, zero, suc, Option, none, some, String}
use pixels_spike.Base.Exits.{Exit, returns, fails, panics, Step, pure, panic, ◌>>=◌, ◌>>◌}
use pixels_spike.Base.Int.{ℤ, pos, negsuc}

abbrev pub charset : String
charset = "abcdefghijklmnopqrstuvwxyzABCDEFGHIJKLMNOPQRSTUVWXYZ0123456789"

-- `len(s)` and `s[i]`, for a text of single bytes.
unfoldable pub length : String → ℕ
length [] = 0
length (c ∷ s) = suc (length s)

unfoldable pub get_char? : String → ℕ → Option Char
get_char? [] i = none
get_char? (c ∷ s) zero = some c
get_char? (c ∷ s) (suc i) = get_char? s i

-- `seed` is `rand.Seed(time.Now().UnixNano())`, and `intn n` draws a number below `n`.
module _ {S : Type 0} (seed : S → S) (intn : ℕ → S → ℕ × S) where
  abbrev pub at : Option Char → Step S Char
  at none = panic "runtime error: index out of range"
  at (some c) = pure c

  abbrev pub draw : Step S Char
  unfolding get_char? length
  draw s = let (i, s') = intn (length charset) s in at (get_char? charset i) s'

  -- The loop that fills `result`.
  pub fill : ℕ → Step S String
  fill zero = pure ""
  fill (suc n) = do c ← draw; rest ← fill n; pure (c ∷ rest)

  unfoldable pub generate_random_string : ℤ → Step S String
  unfolding fill
  generate_random_string (pos n) s = fill n (seed s)
  generate_random_string (negsuc n) s = panic "runtime error: makeslice: len out of range" (seed s)
