-- ===== src/Scheduler/FirstFit.antt =====
-- pkg/reqscheduler/schedule.go: the first entry of a list that fits a request.
use pixels_spike.Base.{
  ◌≡◌, refl, inl, inr, Bool, true, false, List, [], ◌∷◌, All, Memᴰ, none, some, Bool-cases,
}
use pixels_spike.ReqQueue.{Request}
use pixels_spike.Scheduler.{InstanceStat, ReqScheduleInfo, place, fits, first_fit}
use pixels_spike.Scheduler.Sorting.{IsSorted}

module _ {F : Type 0} (req : Request) where
  pub first_fit-none :
      (xs : List (InstanceStat F)) → first_fit req xs ≡ none → All (λ s. fits req s ≡ false) xs
  unfolding first_fit
  first_fit-none [] h = tt
  first_fit-none (s ∷ xs) h = elim (Bool-cases (fits req s)) [
    | inl e ↦ absurd (cc (rw (e, first_fit) at h))
    | inr e ↦ (e, first_fit-none xs (rw (e, first_fit) at h))
  ]

  pub first_fit-none_of :
      (xs : List (InstanceStat F)) → All (λ s. fits req s ≡ false) xs → first_fit req xs ≡ none
  unfolding first_fit
  first_fit-none_of [] h = refl
  first_fit-none_of (s ∷ xs) h = rw h.0 (first_fit-none_of xs h.1)

  pub first_fit-fits :
      (xs : List (InstanceStat F)) (info : ReqScheduleInfo)
      → first_fit req xs ≡ some info
      → (s : InstanceStat F) × Memᴰ s xs × (fits req s ≡ true) × (info ≡ place req s)
  unfolding first_fit
  first_fit-fits [] info h = absurd (cc)
  first_fit-fits (s ∷ xs) info h = elim (Bool-cases (fits req s)) [
    | inl e ↦ (s, Memᴰ.head refl, e, cc (rw (e, first_fit) at h))
    | inr e ↦
        let (t, listed, able, placed) = first_fit-fits xs info (rw (e, first_fit) at h) in
        (t, Memᴰ.tail listed, able, placed)
  ]

  module _ (less : InstanceStat F → InstanceStat F → Bool) where
    weaken :
        (s : InstanceStat F) (xs : List (InstanceStat F))
        → All (λ t. less t s ≡ false) xs
        → All (λ t. fits req t ≡ true → less t s ≡ false) xs
    weaken s [] h = tt
    weaken s (x ∷ xs) h = (λ _. h.0, weaken s xs h.1)

    -- The entry `s` is in the list, can take the request, and nothing that can is less than it.
    pub record IsLeastFit (xs : List (InstanceStat F)) (info : ReqScheduleInfo) (s : InstanceStat F)
        : Type 0 where
      pub listed : Memᴰ s xs
      pub able : fits req s ≡ true
      pub placed : info ≡ place req s
      pub least : All (λ t. fits req t ≡ true → less t s ≡ false) xs

    pub first_fit-some :
        (xs : List (InstanceStat F)) (info : ReqScheduleInfo)
        → first_fit req xs ≡ some info
        → IsSorted less xs
        → All (λ s. less s s ≡ false) xs
        → (s : InstanceStat F) × IsLeastFit xs info s
    unfolding first_fit
    first_fit-some [] info h sorted strict = absurd (cc)
    first_fit-some (s ∷ xs) info h sorted strict = elim (Bool-cases (fits req s)) [
      | inl e ↦ (
        s,
        record {
          listed = Memᴰ.head refl;
          able = e;
          placed = cc (rw (e, first_fit) at h);
          least = (λ _. strict.0, weaken s xs sorted.0);
        },
      )
      | inr e ↦
          let (t, r) = first_fit-some xs info (rw (e, first_fit) at h) sorted.1 strict.1 in
          (
            t,
            record {
              listed = Memᴰ.tail r.listed;
              able = r.able;
              placed = r.placed;
              least = (λ able. absurd (cc), r.least);
            },
          )
    ]
