-- ===== src/Base/Perms.antt =====
-- What rearranging a list keeps.
use mathlib.Core.List.Permᴰ
use mathlib.Core.List.{Permᴰ}
use mathlib.Core.Path.{subst₂}
use pixels_spike.Base.{
  ◌≡◌, ◌∙◌, Memᴰ, subst, Bool, true, false, ap, if◌then◌else◌, List, ◌∷◌, All, select,
}

module _ {A : Type 0} where
  pub All-perm : (P : A → Type 0) {xs ys : List A} → Permᴰ xs ys → All P xs → All P ys
  All-perm P Permᴰ.nil h = h
  All-perm P (Permᴰ.cons e p) h = (subst P e h.0, All-perm P p h.1)
  All-perm P (Permᴰ.swap e f) h = (subst P f h.1.0, (subst P e h.0, h.1.1))
  All-perm P (Permᴰ.trans p q) h = All-perm P q (All-perm P p h)

  pub mem-perm : {x : A} {xs ys : List A} → Permᴰ xs ys → Memᴰ x xs → Memᴰ x ys
  mem-perm Permᴰ.nil m = m
  mem-perm (Permᴰ.cons e p) (Memᴰ.head h) = Memᴰ.head (h ∙ e)
  mem-perm (Permᴰ.cons e p) (Memᴰ.tail m) = Memᴰ.tail (mem-perm p m)
  mem-perm (Permᴰ.swap e f) (Memᴰ.head h) = Memᴰ.tail (Memᴰ.head (h ∙ e))
  mem-perm (Permᴰ.swap e f) (Memᴰ.tail (Memᴰ.head h)) = Memᴰ.head (h ∙ f)
  mem-perm (Permᴰ.swap e f) (Memᴰ.tail (Memᴰ.tail m)) = Memᴰ.tail (Memᴰ.tail m)
  mem-perm (Permᴰ.trans p q) m = mem-perm q (mem-perm p m)

  keep_both :
      {a b : A} {xs ys : List A} (t : Bool)
      → a ≡ b
      → Permᴰ xs ys
      → Permᴰ (if t then a ∷ xs else xs) (if t then b ∷ ys else ys)
  keep_both true e r = Permᴰ.cons e r
  keep_both false e r = r

  swap_both :
      {a b a' b' : A} (l : List A) (t u : Bool)
      → a ≡ b'
      → b ≡ a'
      → Permᴰ
          (if t then a ∷ (if u then b ∷ l else l) else (if u then b ∷ l else l))
          (if u then a' ∷ (if t then b' ∷ l else l) else (if t then b' ∷ l else l))
  swap_both l true true e f = Permᴰ.swap e f
  swap_both l true false e f = Permᴰ.cons e (Permᴰ.refl l)
  swap_both l false true e f = Permᴰ.cons f (Permᴰ.refl l)
  swap_both l false false e f = Permᴰ.refl l

  pub select-perm :
      (p : A → Bool) {xs ys : List A} → Permᴰ xs ys → Permᴰ (select p xs) (select p ys)
  select-perm p Permᴰ.nil = Permᴰ.nil
  select-perm p (Permᴰ.cons {a = a} {b = b} {l₁ = xs} {l₂ = ys} e r) =
      subst (λ t. Permᴰ (select p (a ∷ xs)) (if t then b ∷ select p ys else select p ys)) (ap p e)
        (keep_both (p a) e (select-perm p r))
  select-perm p (Permᴰ.swap {a = a} {b = b} {a' = a'} {b' = b'} {l = l} e f) =
      let kept = select p l in
      subst₂
        (λ t u.
          Permᴰ (select p (a ∷ b ∷ l))
            (if u then a' ∷ (if t then b' ∷ kept else kept) else (if t then b' ∷ kept else kept)))
        (ap p e) (ap p f) (swap_both kept (p a) (p b) e f)
  select-perm p (Permᴰ.trans r q) = Permᴰ.trans (select-perm p r) (select-perm p q)
