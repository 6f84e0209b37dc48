-- ===== src/Scheduler/Sorting.antt =====
-- pkg/reqscheduler/schedule.go: what the sort of the instance list promises, for any comparison
-- that is a strict weak order on the entries at hand.
use mathlib.Core.List.Memᴰ
use pixels_spike.Base.{◌≡◌, refl, inl, inr, Bool, true, false, List, [], ◌∷◌, Memᴰ, All, Bool-cases}
use pixels_spike.Scheduler.{insert_last, sort_last, rev_onto, sort_slice}

-- The comparison is asymmetric, and what is not less stays so along a chain.
pub record IsWeakOrder {A : Type 0} (less : A → A → Bool) (Ok : A → Type 0) : Type 0 where
  pub asymmetric : (a b : A) → Ok a → Ok b → less a b ≡ true → less b a ≡ false
  pub chain :
      (a b c : A) → Ok a → Ok b → Ok c → less a b ≡ false → less b c ≡ false → less a c ≡ false

module _ {A : Type 0} (P : A → Type 0) where
  All-rev_onto : (xs acc : List A) → All P xs → All P acc → All P (rev_onto xs acc)
  All-rev_onto [] acc h k = k
  All-rev_onto (x ∷ xs) acc h k = All-rev_onto xs (x ∷ acc) h.1 (h.0, k)

  module _ (less : A → A → Bool) where
    All-insert_last : (x : A) (ys : List A) → P x → All P ys → All P (insert_last less x ys)
    unfolding insert_last
    All-insert_last x [] h k = (h, tt)
    All-insert_last x (y ∷ ys) h k = elim (Bool-cases (less x y)) [
      | inl e ↦ rw e (k.0, All-insert_last x ys h k.1)
      | inr e ↦ rw e (h, k)
    ]

    All-sort_last : (done xs : List A) → All P done → All P xs → All P (sort_last less done xs)
    unfolding sort_last
    All-sort_last done [] h k = h
    All-sort_last done (x ∷ xs) h k =
        All-sort_last (insert_last less x done) xs (All-insert_last x done k.0 h) k.1

    pub All-sort_slice : (xs : List A) → All P xs → All P (sort_slice less xs)
    unfolding sort_slice
    All-sort_slice xs h = All-rev_onto (sort_last less [] xs) [] (All-sort_last [] xs tt h) tt

module _ {A : Type 0} where
  mem-rev_onto_acc : {a : A} (xs acc : List A) → Memᴰ a acc → Memᴰ a (rev_onto xs acc)
  mem-rev_onto_acc [] acc m = m
  mem-rev_onto_acc (x ∷ xs) acc m = mem-rev_onto_acc xs (x ∷ acc) (Memᴰ.tail m)

  mem-rev_onto : {a : A} (xs acc : List A) → Memᴰ a xs → Memᴰ a (rev_onto xs acc)
  mem-rev_onto [] acc m = elim m [ ]
  mem-rev_onto (x ∷ xs) acc (Memᴰ.head e) = mem-rev_onto_acc xs (x ∷ acc) (Memᴰ.head e)
  mem-rev_onto (x ∷ xs) acc (Memᴰ.tail m) = mem-rev_onto xs (x ∷ acc) m

  module _ (less : A → A → Bool) where
    mem-insert_last_self : (x : A) (ys : List A) → Memᴰ x (insert_last less x ys)
    unfolding insert_last
    mem-insert_last_self x [] = Memᴰ.head refl
    mem-insert_last_self x (y ∷ ys) = elim (Bool-cases (less x y)) [
      | inl e ↦ rw e (Memᴰ.tail (mem-insert_last_self x ys))
      | inr e ↦ rw e (Memᴰ.head refl)
    ]

    mem-insert_last : {a : A} (x : A) (ys : List A) → Memᴰ a ys → Memᴰ a (insert_last less x ys)
    unfolding insert_last
    mem-insert_last x [] m = elim m [ ]
    mem-insert_last x (y ∷ ys) (Memᴰ.head h) = elim (Bool-cases (less x y)) [
      | inl e ↦ rw e (Memᴰ.head h)
      | inr e ↦ rw e (Memᴰ.tail (Memᴰ.head h))
    ]
    mem-insert_last x (y ∷ ys) (Memᴰ.tail m) =
        let rest = mem-insert_last x ys m in
        elim (Bool-cases (less x y)) [
          | inl e ↦ rw e (Memᴰ.tail rest)
          | inr e ↦ rw e (Memᴰ.tail (Memᴰ.tail m))
        ]

    mem-sort_last_done : {a : A} (done xs : List A) → Memᴰ a done → Memᴰ a (sort_last less done xs)
    unfolding sort_last
    mem-sort_last_done done [] m = m
    mem-sort_last_done done (x ∷ xs) m =
        mem-sort_last_done (insert_last less x done) xs (mem-insert_last x done m)

    mem-sort_last : {a : A} (done xs : List A) → Memᴰ a xs → Memᴰ a (sort_last less done xs)
    unfolding sort_last
    mem-sort_last done [] m = elim m [ ]
    mem-sort_last done (x ∷ xs) (Memᴰ.head e) =
        mem-sort_last_done (insert_last less x done) xs (Memᴰ.cast e (mem-insert_last_self x done))
    mem-sort_last done (x ∷ xs) (Memᴰ.tail m) = mem-sort_last (insert_last less x done) xs m

    -- The sort drops no entry.
    pub mem-sort_slice : {a : A} (xs : List A) → Memᴰ a xs → Memᴰ a (sort_slice less xs)
    unfolding sort_slice
    mem-sort_slice xs m = mem-rev_onto _ [] (mem-sort_last [] xs m)

module _ {A : Type 0} (less : A → A → Bool) where
  -- No later entry is less than an earlier one; and the same for a list that is read from its end.
  abbrev pub IsSorted : List A → Type 0
  IsSorted [] = Unit
  IsSorted (x ∷ xs) = All (λ y. less y x ≡ false) xs × IsSorted xs

  abbrev IsSortedLast : List A → Type 0
  IsSortedLast [] = Unit
  IsSortedLast (x ∷ xs) = All (λ y. less x y ≡ false) xs × IsSortedLast xs

module _ {A : Type 0} {less : A → A → Bool} {Ok : A → Type 0} (order : IsWeakOrder less Ok) where
  chain_all :
      (x y : A) (ys : List A)
      → Ok x
      → Ok y
      → All Ok ys
      → less x y ≡ false
      → All (λ z. less y z ≡ false) ys
      → All (λ z. less x z ≡ false) ys
  chain_all x y [] hx hy hs e h = tt
  chain_all x y (z ∷ ys) hx hy hs e h =
      (order.chain x y z hx hy hs.0 e h.0, chain_all x y ys hx hy hs.1 e h.1)

  insert_last-IsSortedLast :
      (x : A) (ys : List A)
      → Ok x
      → All Ok ys
      → IsSortedLast less ys
      → IsSortedLast less (insert_last less x ys)
  unfolding insert_last
  insert_last-IsSortedLast x [] hx hs h = (tt, tt)
  insert_last-IsSortedLast x (y ∷ ys) hx hs h = elim (Bool-cases (less x y)) [
    | inl e ↦ rw e (
      All-insert_last (λ z. less y z ≡ false) less x ys (order.asymmetric x y hx hs.0 e) h.0,
      insert_last-IsSortedLast x ys hx hs.1 h.1,
    )
    | inr e ↦ rw e ((e, chain_all x y ys hx hs.0 hs.1 e h.0), h)
  ]

  sort_last-IsSortedLast :
      (done xs : List A)
      → All Ok done
      → All Ok xs
      → IsSortedLast less done
      → IsSortedLast less (sort_last less done xs)
  unfolding sort_last
  sort_last-IsSortedLast done [] hd hs h = h
  sort_last-IsSortedLast done (x ∷ xs) hd hs h =
      sort_last-IsSortedLast (insert_last less x done) xs (All-insert_last Ok less x done hs.0 hd)
        hs.1 (insert_last-IsSortedLast x done hs.0 hd h)

  extend_all :
      (x : A) (xs acc : List A)
      → All (λ y. less x y ≡ false) xs
      → All (λ y. All (λ a. less a y ≡ false) acc) xs
      → All (λ y. All (λ a. less a y ≡ false) (x ∷ acc)) xs
  extend_all x [] acc h k = tt
  extend_all x (y ∷ xs) acc h k = ((h.0, k.0), extend_all x xs acc h.1 k.1)

  rev_onto-IsSorted :
      (xs acc : List A)
      → IsSortedLast less xs
      → IsSorted less acc
      → All (λ y. All (λ a. less a y ≡ false) acc) xs
      → IsSorted less (rev_onto xs acc)
  rev_onto-IsSorted [] acc h k l = k
  rev_onto-IsSorted (x ∷ xs) acc h k l =
      rev_onto-IsSorted xs (x ∷ acc) h.1 (l.0, k) (extend_all x xs acc h.0 l.1)

  nothing_all : (xs : List A) → All (λ y. All (λ a. less a y ≡ false) []) xs
  nothing_all [] = tt
  nothing_all (x ∷ xs) = (tt, nothing_all xs)

  -- The sort leaves no later entry less than an earlier one.
  pub sort_slice-IsSorted : (xs : List A) → All Ok xs → IsSorted less (sort_slice less xs)
  unfolding sort_slice
  sort_slice-IsSorted xs h =
      rev_onto-IsSorted (sort_last less [] xs) [] (sort_last-IsSortedLast [] xs tt h tt) tt
        (nothing_all (sort_last less [] xs))
