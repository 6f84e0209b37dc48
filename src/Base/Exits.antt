-- ===== src/Base/Exits.antt =====
-- Code that may panic, and acts on an outside state: a panic in any goroutine ends the process.
use pixels_spike.Base.{String, Result, ok, err, Action}

pub data Exit (A : Type 0) : Type 0 where
  returns : A → Exit A
  fails : String → Exit A
  panics : String → Exit A

abbrev pub Step : Type 0 → Type 0 → Type 0
Step S A = S → Exit A × S

abbrev pub to_exit : {A : Type 0} → Result A → Exit A
to_exit (ok a) = returns a
to_exit (err e) = fails e

abbrev outcome : {A : Type 0} → Exit A → Exit (Result A)
outcome (returns a) = returns (ok a)
outcome (fails e) = returns (err e)
outcome (panics message) = panics message

module _ {S : Type 0} where
  abbrev pub pure : {A : Type 0} → A → Step S A
  pure a s = (returns a, s)

  abbrev pub fail : {A : Type 0} → String → Step S A
  fail e s = (fails e, s)

  abbrev pub panic : {A : Type 0} → String → Step S A
  panic message s = (panics message, s)

  abbrev pub proceed : {A B : Type 0} → Exit A → (A → Step S B) → Step S B
  proceed (returns a) f s = f a s
  proceed (fails e) f s = (fails e, s)
  proceed (panics message) f s = (panics message, s)

  infixl 5 ◌>>=◌ ◌>>◌
  abbrev pub ◌>>=◌ : {A B : Type 0} → Step S A → (A → Step S B) → Step S B
  ◌>>=◌ m f s = let (r, s') = m s in proceed r f s'

  abbrev pub ◌>>◌ : {A B : Type 0} → Step S A → Step S B → Step S B
  m >> n = m >>= λ _. n

  -- A call that does not panic, and one whose error is handled by the code that follows.
  abbrev pub run : {A : Type 0} → Action S A → Step S A
  run m s = let (r, s') = m s in (to_exit r, s')

  abbrev pub try : {A : Type 0} → Action S A → Step S (Result A)
  try m s = let (r, s') = m s in (returns r, s')

  -- The same for a call that may panic.
  abbrev pub try_step : {A : Type 0} → Step S A → Step S (Result A)
  try_step m s = let (r, s') = m s in (outcome r, s')
