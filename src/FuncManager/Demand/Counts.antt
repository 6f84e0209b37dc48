-- ===== src/FuncManager/Demand/Counts.antt =====
-- pkg/funcmanager/funcmanager.go: how `CalResScale` counts the instances of each size.
use pixels_spike.Base.{
  ℕ, ◌+◌, ◌≡◌, ◌&&◌, refl, sym, ap, ◌∙◌, inl, inr, List, [], ◌∷◌, Option, none, some, Bool, String,
  Bool-cases, if◌then◌else◌,
}
use pixels_spike.Base.Exits.{Exit, returns, fails, panics}
use pixels_spike.Base.Int.{ℤ, pos, ◌+ℤ◌, add32, wrap32, int_laws, +ℤ_zero, add32-wrap32}
use pixels_spike.Base.Keys.{◌==◌, lookup, insert, lookup-insert, string_keys}
use pixels_spike.FuncManager.Demand.{
  Size, size_keys, same_size, or_else, modify, Counts, count_one, count_instances, and_then,
}
use pixels_spike.Model.{FuncInstance}

abbrev pub count_in : String → Size → Counts → ℤ
count_in name size counts = or_else (pos 0) (lookup size (or_else [] (lookup name counts)))

abbrev pub is_of : String → Size → FuncInstance → Bool
is_of name size ins = ins.function_name == name && same_size (ins.cpu, ins.memory) size

-- The number of instances of a function and a size.
abbrev pub matching : String → Size → List FuncInstance → ℕ
matching name size [] = 0
matching name size (ins ∷ rest) = (if is_of name size ins then 1 else 0) + matching name size rest

abbrev one_more : Size → List (Size × ℤ) → List (Size × ℤ)
one_more = modify (pos 0) (λ n. add32 n (pos 1))

abbrev count_of : Size → List (Size × ℤ) → ℤ
count_of size sizes = or_else (pos 0) (lookup size sizes)

count_of-one_more :
    (size k : Size) (sizes : List (Size × ℤ))
    → count_of size (one_more k sizes)
      ≡ (if same_size k size then add32 (count_of size sizes) (pos 1) else count_of size sizes)
count_of-one_more size k sizes =
    ap (or_else (pos 0)) (lookup-insert k size (add32 (count_of k sizes) (pos 1)) sizes)
    ∙ elim (Bool-cases (same_size k size)) [
      | inl e ↦
          let same = (size_keys.same_iff k size).0 e in
          rw e (ap (λ j. add32 (count_of j sizes) (pos 1)) same)
      | inr e ↦ rw e
    ]

count_in-insert :
    (name k : String) (size : Size) (v : List (Size × ℤ)) (counts : Counts)
    → count_in name size (insert k v counts)
      ≡ (if k == name then count_of size v else count_in name size counts)
count_in-insert name k size v counts =
    ap (λ o. count_of size (or_else [] o)) (lookup-insert k name v counts)
    ∙ elim (Bool-cases (k == name)) [ inl e ↦ rw e | inr e ↦ rw e ]

counted :
    (name : String) (size : Size) (ins : FuncInstance) (counts : Counts) (sizes : List (Size × ℤ))
    → lookup ins.function_name counts ≡ some sizes
    → (if ins.function_name == name
        then count_of size (one_more (ins.cpu, ins.memory) sizes)
        else count_in name size counts)
      ≡ (if is_of name size ins
          then add32 (count_in name size counts) (pos 1)
          else count_in name size counts)
counted name size ins counts sizes found = elim (Bool-cases (ins.function_name == name)) [
  | inr e ↦ rw e
  | inl e ↦
      let same = (string_keys.same_iff ins.function_name name).0 e in
      let here : lookup name counts ≡ some sizes = ap (λ n. lookup n counts) (sym same) ∙ found in
      rw (e, here) (count_of-one_more size (ins.cpu, ins.memory) sizes)
]

count_one-count_in :
    (name : String) (size : Size) (ins : FuncInstance) (counts c : Counts)
    (o : Option (List (Size × ℤ)))
    → lookup ins.function_name counts ≡ o
    → count_one ins counts o ≡ returns c
    → count_in name size c ≡ (
        if is_of name size ins
        then add32 (count_in name size counts) (pos 1)
        else count_in name size counts)
count_one-count_in name size ins counts c none found h = absurd (cc)
count_one-count_in name size ins counts c (some sizes) found h =
    let made : insert ins.function_name (one_more (ins.cpu, ins.memory) sizes) counts ≡ c = cc in
    ap (count_in name size) (sym made)
    ∙ count_in-insert name ins.function_name size (one_more (ins.cpu, ins.memory) sizes) counts
    ∙ counted name size ins counts sizes found

module _ (name : String) (size : Size) where
  -- Counting the instances `l` in 32 bits, from a count that stands for `z`.
  abbrev pub Adds : List FuncInstance → Counts → Type 0
  Adds l c =
      (d : Counts) (z : ℤ)
      → count_in name size d ≡ wrap32 z
      → count_instances l d ≡ returns c
      → count_in name size c ≡ wrap32 (z +ℤ pos (matching name size l))

  -- The count after one instance.
  abbrev grown : FuncInstance → Counts → ℤ
  grown ins counts =
      if is_of name size ins
      then add32 (count_in name size counts) (pos 1)
      else count_in name size counts

  sum_true : (z : ℤ) (n : ℕ) → z +ℤ pos 1 +ℤ pos n ≡ z +ℤ pos (1 + n)
  sum_true z n = omega int_laws

  sum_false : (z : ℤ) (n : ℕ) → z +ℤ pos n ≡ z +ℤ pos (0 + n)
  sum_false z n = omega int_laws

  step-Adds :
      (ins : FuncInstance) (l : List FuncInstance) (counts c d : Counts) (z : ℤ)
      → Adds l c
      → count_in name size counts ≡ wrap32 z
      → count_in name size d ≡ grown ins counts
      → count_instances l d ≡ returns c
      → count_in name size c ≡ wrap32 (z +ℤ pos (matching name size (ins ∷ l)))
  step-Adds ins l counts c d z ih start k rest = elim (Bool-cases (is_of name size ins)) [
    | inl e ↦
        let more : count_in name size d ≡ add32 (count_in name size counts) (pos 1) = k ∙ rw e in
        rw e (
          ih d (z +ℤ pos 1) (more ∙ ap (λ y. add32 y (pos 1)) start ∙ add32-wrap32 z (pos 1)) rest
          ∙ ap wrap32 (sum_true z (matching name size l)))
    | inr e ↦
        let kept : count_in name size d ≡ count_in name size counts = k ∙ rw e in
        rw e (ih d z (kept ∙ start) rest ∙ ap wrap32 (sum_false z (matching name size l)))
  ]

  next-Adds :
      (ins : FuncInstance) (l : List FuncInstance) (counts c : Counts) (z : ℤ) (r : Exit Counts)
      → Adds l c
      → count_in name size counts ≡ wrap32 z
      → count_one ins counts (lookup ins.function_name counts) ≡ r
      → and_then r (λ d. count_instances l d) ≡ returns c
      → count_in name size c ≡ wrap32 (z +ℤ pos (matching name size (ins ∷ l)))
  next-Adds ins l counts c z (returns d) ih start e rest =
      step-Adds ins l counts c d z ih start
        (count_one-count_in name size ins counts d (lookup ins.function_name counts) refl e) rest
  next-Adds ins l counts c z (fails m) ih start e rest = absurd (cc)
  next-Adds ins l counts c z (panics m) ih start e rest = absurd (cc)

  pub count_instances-Adds : (l : List FuncInstance) (c : Counts) → Adds l c
  unfolding count_instances
  count_instances-Adds [] c d z start h =
      ap (count_in name size) (sym (returned d c h)) ∙ start ∙ ap wrap32 (sym (+ℤ_zero z))
    where
      returned : (x y : Counts) → returns x ≡ returns y → x ≡ y
      returned x y e = cc
  count_instances-Adds (ins ∷ l) c d z start h =
      next-Adds ins l d c z (count_one ins d (lookup ins.function_name d))
        (count_instances-Adds l c) start refl h
