-- ===== src/Base/Lists.antt =====
-- Lists measured and indexed by native numbers, under the library's names, and predicates over
-- their entries.
use Prim.Native.Nat.{ℕ, zero, suc, ◌+◌, ◌<◌}
use mathlib.Core.List.Memᴰ
use mathlib.Core.Logic.{inl, inr}
use mathlib.Core.Path.{◌∙◌, ◌≡◌, refl, ap, sym, subst}
use mathlib.Core.Bool.{Bool, true}
use mathlib.Core.List.{List, [], ◌∷◌, ◌++◌, map, Memᴰ}
use mathlib.Core.Option.{Option, none, some}
use native.Mathlib.Omega.{arith}
use pixels_spike.Base.Tests.{if◌then◌else◌, Bool-cases}

module _ {ℓ} {A : Type ℓ} where
  abbrev pub length : List A → ℕ
  length [] = 0
  length (x ∷ xs) = suc (length xs)

  abbrev pub get_elem? : List A → ℕ → Option A
  get_elem? [] i = none
  get_elem? (x ∷ xs) zero = some x
  get_elem? (x ∷ xs) (suc i) = get_elem? xs i

  -- A write out of bounds changes nothing.
  abbrev pub set : List A → ℕ → A → List A
  set [] i v = []
  set (x ∷ xs) zero v = v ∷ xs
  set (x ∷ xs) (suc i) v = x ∷ set xs i v

  abbrev pub take : ℕ → List A → List A
  take zero xs = []
  take (suc n) [] = []
  take (suc n) (x ∷ xs) = x ∷ take n xs

  abbrev pub replicate : ℕ → A → List A
  replicate zero a = []
  replicate (suc n) a = a ∷ replicate n a

  -- The entries that a Boolean test accepts, in order.
  abbrev pub select : (A → Bool) → List A → List A
  select p [] = []
  select p (x ∷ xs) = if p x then x ∷ select p xs else select p xs

module _ {ℓ} {A : Type ℓ} where
  pub length-append : (xs ys : List A) → length (xs ++ ys) ≡ length xs + length ys
  length-append [] ys = omega arith
  length-append (x ∷ xs) ys = omega (arith, length-append xs ys)

  pub length-map {κ} : {B : Type κ} (f : A → B) (xs : List A) → length (map f xs) ≡ length xs
  length-map f [] = refl
  length-map f (x ∷ xs) = ap suc (length-map f xs)

  -- Every entry satisfies the predicate.
  abbrev pub All {κ} : (A → Type κ) → List A → Type κ
  All P [] = Unit
  All P (x ∷ xs) = P x × All P xs

module _ {ℓ} {A : Type ℓ} where
  pub mem-select :
      {x : A} (p : A → Bool) (xs : List A) → p x ≡ true → Memᴰ x xs → Memᴰ x (select p xs)
  mem-select p [] h m = elim m [ ]
  mem-select p (y ∷ ys) h (Memᴰ.head e) = rw (ap p (sym e) ∙ h) (Memᴰ.head e)
  mem-select p (y ∷ ys) h (Memᴰ.tail m) =
      let rest = mem-select p ys h m in
      elim (Bool-cases (p y)) [ inl e ↦ rw e (Memᴰ.tail rest) | inr e ↦ rw e rest ]

  pub mem_of_mem-select :
      {x : A} (p : A → Bool) (xs : List A) → Memᴰ x (select p xs) → Memᴰ x xs × (p x ≡ true)
  mem_of_mem-select p [] m = elim m [ ]
  mem_of_mem-select {x} p (y ∷ ys) m = elim (Bool-cases (p y)) [
    | inl e ↦
        let m' : Memᴰ x (y ∷ select p ys) = rw e at m in
        elim (Memᴰ.cases_cons m') [
          | inl same ↦ (Memᴰ.head same, ap p same ∙ e)
          | inr later ↦ let (there, h) = mem_of_mem-select p ys later in (Memᴰ.tail there, h)
        ]
    | inr e ↦
        let m' : Memᴰ x (select p ys) = rw e at m in
        let (there, h) = mem_of_mem-select p ys m' in (Memᴰ.tail there, h)
  ]

  pub get_elem?_in_range :
      (xs : List A) (i : ℕ) → i < length xs → (x : A) × (get_elem? xs i ≡ some x)
  get_elem?_in_range [] i h = absurd (omega arith)
  get_elem?_in_range (x ∷ xs) zero h = (x, refl)
  get_elem?_in_range (x ∷ xs) (suc i) h = get_elem?_in_range xs i (omega arith)

  pub mem_of_get_elem? : (xs : List A) (i : ℕ) {x : A} → get_elem? xs i ≡ some x → Memᴰ x xs
  mem_of_get_elem? [] i h = absurd (cc)
  mem_of_get_elem? (y ∷ ys) zero h = Memᴰ.head (cc)
  mem_of_get_elem? (y ∷ ys) (suc i) h = Memᴰ.tail (mem_of_get_elem? ys i h)

module _ {ℓ κ} {A : Type ℓ} (P : A → Type κ) where
  pub All-mem : {x : A} (xs : List A) → All P xs → Memᴰ x xs → P x
  All-mem [] h m = elim m [ ]
  All-mem (y ∷ ys) h (Memᴰ.head e) = subst P (sym e) h.0
  All-mem (y ∷ ys) h (Memᴰ.tail m) = All-mem ys h.1 m

  pub All-append : (xs ys : List A) → All P xs → All P ys → All P (xs ++ ys)
  All-append [] ys hx hy = hy
  All-append (x ∷ xs) ys hx hy = (hx.0, All-append xs ys hx.1 hy)

  pub All_of_mem : (xs : List A) → ((x : A) → Memᴰ x xs → P x) → All P xs
  All_of_mem [] h = tt
  All_of_mem (x ∷ xs) h = (h x (Memᴰ.head refl), All_of_mem xs (λ y m. h y (Memᴰ.tail m)))
