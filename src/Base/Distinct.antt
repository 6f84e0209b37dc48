-- ===== src/Base/Distinct.antt =====
-- Lists without repetitions, and the removal of one entry.
use mathlib.Core.List.Permᴰ
use mathlib.Core.List.{Permᴰ}
use pixels_spike.Base.{
  ◌≡◌, ◌≢◌, ◌∙◌, refl, sym, subst, ap, inl, inr, List, [], ◌∷◌, ◌++◌, map, Bool, true, All, select,
  Bool-cases,
}
use pixels_spike.Base.Perms.{All-perm}

module _ {A : Type 0} where
  abbrev pub IsDistinct : List A → Type 0
  IsDistinct [] = Unit
  IsDistinct (x ∷ xs) = All (λ y. y ≢ x) xs × IsDistinct xs

  pub IsDistinct-perm : {xs ys : List A} → Permᴰ xs ys → IsDistinct xs → IsDistinct ys
  IsDistinct-perm Permᴰ.nil h = tt
  IsDistinct-perm (Permᴰ.cons {l₂ = ys} e p) h =
      (subst (λ x. All (λ y. y ≢ x) ys) e (All-perm _ p h.0), IsDistinct-perm p h.1)
  IsDistinct-perm (Permᴰ.swap {l = l} e f) h = (
    (λ same. h.0.0 (f ∙ sym same ∙ sym e), subst (λ x. All (λ y. y ≢ x) l) f h.1.0),
    (subst (λ x. All (λ y. y ≢ x) l) e h.0.1, h.1.1),
  )
  IsDistinct-perm (Permᴰ.trans p q) h = IsDistinct-perm q (IsDistinct-perm p h)

  pub IsDistinct-drop : (xs ys : List A) → IsDistinct (xs ++ ys) → IsDistinct ys
  IsDistinct-drop [] ys h = h
  IsDistinct-drop (x ∷ xs) ys h = IsDistinct-drop xs ys h.1

  pub All-take : (P : A → Type 0) (xs ys : List A) → All P (xs ++ ys) → All P xs
  All-take P [] ys h = tt
  All-take P (x ∷ xs) ys h = (h.0, All-take P xs ys h.1)

  pub IsDistinct-take : (xs ys : List A) → IsDistinct (xs ++ ys) → IsDistinct xs
  IsDistinct-take [] ys h = tt
  IsDistinct-take (x ∷ xs) ys h = (All-take _ xs ys h.0, IsDistinct-take xs ys h.1)

  -- The other entries differ from one entry.
  pub others_differ :
      (xs : List A) (x : A) (ys : List A)
      → IsDistinct (xs ++ (x ∷ ys))
      → All (λ y. y ≢ x) (xs ++ ys)
  others_differ xs x ys h = (IsDistinct-perm (Permᴰ.middle x xs ys) h).0

module _ {ℓ} {A : Type ℓ} where
  pub select_all : (p : A → Bool) (xs : List A) → All (λ x. p x ≡ true) xs → select p xs ≡ xs
  select_all p [] h = refl
  select_all p (x ∷ xs) h = rw h.0 (ap (λ l. x ∷ l) (select_all p xs h.1))

  pub All-map {κ μ} :
      {B : Type κ} (P : B → Type μ) (f : A → B) (xs : List A)
      → All P (map f xs)
      → All (λ x. P (f x)) xs
  All-map P f [] h = tt
  All-map P f (x ∷ xs) h = (h.0, All-map P f xs h.1)

  -- A selection by a test that reads only the image.
  pub map-select {κ} :
      {B : Type κ} (f : A → B) (p : A → Bool) (q : B → Bool)
      → ((x : A) → p x ≡ q (f x))
      → (xs : List A) → map f (select p xs) ≡ select q (map f xs)
  map-select f p q same [] = refl
  map-select f p q same (x ∷ xs) = elim (Bool-cases (q (f x))) [
    | inl e ↦ rw (same x, e) (ap (λ l. f x ∷ l) (map-select f p q same xs))
    | inr e ↦ rw (same x, e) (map-select f p q same xs)
  ]
