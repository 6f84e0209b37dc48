-- ===== src/Base/Effects.antt =====
-- Go's `(value, error)` results, and code that acts on an outside state `S`: a database, a cluster
-- or a clock. What was done before an error stays done, so the state comes back beside it.
use Prim.Native.String.{String}

-- An `error` is its message.
pub data Result {ℓ} (A : Type ℓ) : Type ℓ where
  ok : A → Result A
  err : String → Result A

abbrev pub Action {ℓ} : Type ℓ → Type ℓ → Type ℓ
Action S A = S → Result A × S

module _ {ℓ} {S : Type ℓ} where
  abbrev pub pure : {A : Type ℓ} → A → Action S A
  pure a s = (ok a, s)

  abbrev pub fail : {A : Type ℓ} → String → Action S A
  fail e s = (err e, s)

  abbrev pub continue : {A B : Type ℓ} → Result A → (A → Action S B) → Action S B
  continue (ok a) f s = f a s
  continue (err e) f s = (err e, s)

  -- `if err != nil { return err }` after a call.
  infixl 5 ◌>>=◌ ◌>>◌
  abbrev pub ◌>>=◌ : {A B : Type ℓ} → Action S A → (A → Action S B) → Action S B
  ◌>>=◌ m f s = let (r, s') = m s in continue r f s'

  abbrev pub ◌>>◌ : {A B : Type ℓ} → Action S A → Action S B → Action S B
  m >> n = m >>= λ _. n

  -- A call whose error is handled by the code that follows.
  abbrev pub attempt : {A : Type ℓ} → Action S A → Action S (Result A)
  attempt m s = let (r, s') = m s in (ok r, s')
