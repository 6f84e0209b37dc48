-- ===== src/FuncManager/Demand/Choice.antt =====
-- pkg/funcmanager/funcmanager.go: the size that a request counts for, and the bounds of what is
-- expected.
use pixels_spike.Base.{
  ◌≡◌, refl, sym, ap, ◌∙◌, subst, inl, inr, List, [], ◌∷◌, some, true, false, All, All-mem,
  All_of_mem, Memᴰ, arith, Bool-cases,
}
use pixels_spike.Base.Float.{FloatOps}
use pixels_spike.FuncManager.Demand.{
  less_spec, fits_spec, last_spec, choose_spec, spec_for, sort_specs,
}
use pixels_spike.Model.{ResourceSpec, FuncMetaData}
use pixels_spike.ReqQueue.{Request}
use pixels_spike.Scheduler.{sort_slice}
use pixels_spike.Scheduler.Sorting.{
  IsWeakOrder, IsSorted, sort_slice-IsSorted, All-sort_slice, mem-sort_slice,
}

less_spec-IsWeakOrder : IsWeakOrder less_spec (λ _. Unit {0})
less_spec-IsWeakOrder = record {
  asymmetric = λ a b _ _ h. ground arith;
  chain = λ a b c _ _ _ h k. ground arith;
}

module _ {F : Type 0} (float : FloatOps F) (req : Request) where
  -- The size that a request counts for, out of the specifications of its function: the smallest
  -- that it fits in, or else the largest.
  pub record IsChoice (specs : List ResourceSpec) (res : ResourceSpec) : Type 0 where
    pub listed : Memᴰ res specs
    pub smallest :
        fits_spec float req res ≡ true
        → (d : ResourceSpec) → Memᴰ d specs
        → fits_spec float req d ≡ true
        → less_spec d res ≡ false
    pub largest :
        fits_spec float req res ≡ false
        → (d : ResourceSpec) → Memᴰ d specs
        → (fits_spec float req d ≡ false) × (less_spec res d ≡ false)

  irreflexive : (s : ResourceSpec) → less_spec s s ≡ false
  irreflexive s = ground arith

  choose_spec-here :
      (last res : ResourceSpec) (rest : List ResourceSpec)
      → fits_spec float req res ≡ true
      → choose_spec float req last (res ∷ rest) ≡ res
  unfolding choose_spec
  choose_spec-here last res rest e = rw e

  choose_spec-later :
      (last res : ResourceSpec) (rest : List ResourceSpec)
      → fits_spec float req res ≡ false
      → choose_spec float req last (res ∷ rest) ≡ choose_spec float req last rest
  unfolding choose_spec
  choose_spec-later last res rest e = rw e

  -- Where the choice comes from.
  choose_spec-mem :
      (last : ResourceSpec) (all specs : List ResourceSpec)
      → Memᴰ last all
      → All (λ d. Memᴰ d all) specs
      → Memᴰ (choose_spec float req last specs) all
  unfolding choose_spec
  choose_spec-mem last all [] m h = m
  choose_spec-mem last all (res ∷ rest) m h = elim (Bool-cases (fits_spec float req res)) [
    | inl e ↦ rw e h.0
    | inr e ↦ rw e (choose_spec-mem last all rest m h.1)
  ]

  choose_spec-smallest :
      (last : ResourceSpec) (specs : List ResourceSpec)
      → IsSorted less_spec specs
      → (d : ResourceSpec) → Memᴰ d specs
      → fits_spec float req d ≡ true
      → less_spec d (choose_spec float req last specs) ≡ false
  choose_spec-smallest last [] sorted d m h = elim m [ ]
  choose_spec-smallest last (res ∷ rest) sorted d m h =
      elim (Bool-cases (fits_spec float req res)) [
        | inl e ↦
            subst (λ r. less_spec d r ≡ false) (sym (choose_spec-here last res rest e))
              (not_below d m)
        | inr e ↦
            subst (λ r. less_spec d r ≡ false) (sym (choose_spec-later last res rest e))
              (choose_spec-smallest last rest sorted.1 d (in_rest m e) h)
      ]
    where
      not_below : (x : ResourceSpec) → Memᴰ x (res ∷ rest) → less_spec x res ≡ false
      not_below x (Memᴰ.head e) = subst (λ y. less_spec y res ≡ false) (sym e) (irreflexive res)
      not_below x (Memᴰ.tail k) = All-mem (λ y. less_spec y res ≡ false) rest sorted.0 k

      in_rest : Memᴰ d (res ∷ rest) → fits_spec float req res ≡ false → Memᴰ d rest
      in_rest (Memᴰ.head e) unable = absurd (cc (ap (fits_spec float req) e))
      in_rest (Memᴰ.tail k) unable = k

  choose_spec-none :
      (last : ResourceSpec) (specs : List ResourceSpec)
      → fits_spec float req (choose_spec float req last specs) ≡ false
      → (choose_spec float req last specs ≡ last) × All (λ d. fits_spec float req d ≡ false) specs
  unfolding choose_spec
  choose_spec-none last [] h = (refl, tt)
  choose_spec-none last (res ∷ rest) h = elim (Bool-cases (fits_spec float req res)) [
    | inl e ↦ let same = ap (fits_spec float req) (choose_spec-here last res rest e) in absurd (cc)
    | inr e ↦
        let later = choose_spec-later last res rest e in
        let (same, others) =
          choose_spec-none last rest (sym (ap (fits_spec float req) later) ∙ h) in
        (later ∙ same, (e, others))
  ]

  last_spec-mem :
      (res : ResourceSpec) (rest : List ResourceSpec) → Memᴰ (last_spec float res rest) (res ∷ rest)
  last_spec-mem res [] = Memᴰ.head refl
  last_spec-mem res (next ∷ rest) = Memᴰ.tail (last_spec-mem next rest)

  last_spec-largest :
      (res : ResourceSpec) (rest : List ResourceSpec)
      → IsSorted less_spec (res ∷ rest)
      → All (λ d. less_spec (last_spec float res rest) d ≡ false) (res ∷ rest)
  last_spec-largest res [] sorted = (irreflexive res, tt)
  last_spec-largest res (next ∷ rest) sorted = (
    All-mem (λ y. less_spec y res ≡ false) (next ∷ rest) sorted.0 (last_spec-mem next rest),
    last_spec-largest next rest sorted.1,
  )

  sorted-IsChoice :
      (specs sorted_specs : List ResourceSpec)
      → IsSorted less_spec sorted_specs
      → ((d : ResourceSpec) → Memᴰ d specs → Memᴰ d sorted_specs)
      → All (λ d. Memᴰ d specs) sorted_specs
      → (x : ResourceSpec) → Memᴰ x specs
      → (res : ResourceSpec) × (spec_for float req sorted_specs ≡ some res) × IsChoice specs res
  unfolding spec_for
  sorted-IsChoice specs [] sorted there back x m = elim (there x m) [ ]
  sorted-IsChoice specs (res ∷ rest) sorted there back x m = (
    choose_spec float req (last_spec float res rest) (res ∷ rest),
    refl,
    record {
      listed =
          choose_spec-mem (last_spec float res rest) specs (res ∷ rest)
            (All-mem (λ d. Memᴰ d specs) (res ∷ rest) back (last_spec-mem res rest)) back;
      smallest = λ able d k h.
          choose_spec-smallest (last_spec float res rest) (res ∷ rest) sorted d (there d k) h;
      largest = λ unable d k.
          let (same, none_fits) = choose_spec-none (last_spec float res rest) (res ∷ rest) unable in
          (
            All-mem (λ y. fits_spec float req y ≡ false) (res ∷ rest) none_fits (there d k),
            subst (λ y. less_spec y d ≡ false) (sym same)
                (All-mem (λ y. less_spec (last_spec float res rest) y ≡ false) (res ∷ rest)
                  (last_spec-largest res rest sorted) (there d k)),
          );
    },
  )

  -- For a function with at least one specification, a request counts for one of them: the
  -- smallest that it fits in, by CPU and then memory, or else the largest of all.
  pub spec_for-IsChoice :
      (data_ : FuncMetaData) (x : ResourceSpec)
      → Memᴰ x data_.res_spec_list
      → (res : ResourceSpec) × (spec_for float req (sort_specs data_).res_spec_list ≡ some res)
        × IsChoice data_.res_spec_list res
  unfolding sort_specs
  spec_for-IsChoice data_ x m =
      let specs = data_.res_spec_list in
      sorted-IsChoice specs (sort_slice less_spec specs)
        (sort_slice-IsSorted less_spec-IsWeakOrder specs
          (All_of_mem (λ _. Unit {0}) specs (λ _ _. tt)))
        (λ d k. mem-sort_slice less_spec specs k)
        (All-sort_slice (λ d. Memᴰ d specs) less_spec specs
          (All_of_mem (λ d. Memᴰ d specs) specs (λ d k. k)))
        x m
