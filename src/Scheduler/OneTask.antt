-- ===== src/Scheduler/OneTask.antt =====
-- pkg/reqscheduler/schedule.go: the instance that the one-task-per-node scheduler chooses.
use mathlib.Core.List.Memᴰ
use pixels_spike.Base.{
  ℕ, suc, ◌<◌, ◌≡◌, ◌≢◌, refl, sym, subst, ap, ◌∙◌, inl, inr, ◌↔◌, true, false, List, [], ◌∷◌, map,
  All, Memᴰ, mem-select, mem_of_mem-select, get_elem?_in_range, mem_of_get_elem?, Option, none,
  some, String, arith, Bool-cases, Option-cases, length,
}
use pixels_spike.Base.Int.{◌≤ℤ◌}
use pixels_spike.Base.Keys.{◌==◌, string_keys}
use pixels_spike.ReqQueue.{Request}
use pixels_spike.Scheduler.{
  InstanceStat, ReqScheduleInfo, StatMap, place, scheduled, is_available, available_nodes,
  one_task_schedule, select_node, choose,
}
use text.Mathlib.TextEquality.{eq_iff}

-- No placed request stands on the instance, and it is large enough.
pub record IsFree {F : Type 0} (req : Request) (infos : List ReqScheduleInfo) (s : InstanceStat F)
    : Type 0 where
  pub idle : All (λ i. i.placed_aws_service_name ≢ s.aws_service_name) infos
  pub cpu : req.required_cpu ≤ℤ s.cpu
  pub memory : req.required_memory ≤ℤ s.memory

scheduled-false :
    (name : String) (infos : List ReqScheduleInfo)
    → (scheduled name infos ≡ false) ↔ All (λ i. i.placed_aws_service_name ≢ name) infos
unfolding scheduled
scheduled-false name [] = (λ _. tt, λ _. refl)
scheduled-false name (i ∷ infos) =
    let (there, back) = scheduled-false name infos in
    elim (Bool-cases (i.placed_aws_service_name == name)) [
      | inl e ↦ rw e (λ h. absurd (cc), λ h. absurd (h.0 ((eq_iff _ name).0 e)))
      | inr e ↦ rw e (λ h. (λ same. absurd (cc ((eq_iff _ name).1 same)), there h), λ h. back h.1)
    ]

module _ {F : Type 0} (req : Request) (infos : List ReqScheduleInfo) where
  available_iff : (s : InstanceStat F) → (is_available req infos s ≡ true) ↔ IsFree req infos s
  available_iff s =
      let (there, back) = scheduled-false s.aws_service_name infos in
      (
        λ h.
            let unplaced : scheduled s.aws_service_name infos ≡ false = ground arith in
            record { idle = there unplaced; cpu = ground arith; memory = ground arith },
        λ h. let unplaced = back h.idle in ground arith,
      )

module _ {F : Type 0} (intn : ℕ → ℕ) (req : Request) (infos : List ReqScheduleInfo)
    (m : StatMap F) where
  -- A free entry of the map, and the placement on it.
  abbrev pub IsFreeChoice : ReqScheduleInfo → Type 0
  IsFreeChoice info =
      (e : String × InstanceStat F) × Memᴰ e m × (info ≡ place req e.1) × IsFree req infos e.1

  select_node-eq-some :
      (o : Option (InstanceStat F)) (info : ReqScheduleInfo)
      → select_node req o ≡ some info
      → (s : InstanceStat F) × (o ≡ some s) × (info ≡ place req s)
  select_node-eq-some none info h = absurd (cc)
  select_node-eq-some (some s) info h = (s, refl, cc)

  choose-eq-some :
      (xs : List (InstanceStat F)) (info : ReqScheduleInfo)
      → choose intn req xs ≡ some info
      → (s : InstanceStat F) × Memᴰ s xs × (info ≡ place req s)
  choose-eq-some [] info h = absurd (cc)
  choose-eq-some (x ∷ xs) info h =
      let (s, found, placed) = select_node-eq-some _ info h in
      (s, mem_of_get_elem? (x ∷ xs) (intn (length (x ∷ xs))) found, placed)

  -- What the one-task-per-node scheduler chooses is an instance of the map on which no request is
  -- placed and whose size is enough for the request.
  pub one_task_schedule-free :
      (info : ReqScheduleInfo) → one_task_schedule intn req infos m ≡ some info → IsFreeChoice info
  unfolding one_task_schedule
  one_task_schedule-free info h =
      let (s, chosen, placed) = choose-eq-some (available_nodes req infos m) info h in
      let (stat, able) = mem_of_mem-select (is_available req infos) (map (λ e. e.1) m) chosen in
      let (e, listed, eq) = Memᴰ.of_map (λ (d : String × InstanceStat F). d.1) m stat in
      (
        e,
        listed,
        placed ∙ ap (place req) (sym eq),
        subst (IsFree req infos) (sym eq) ((available_iff req infos s).0 able),
      )

  choose-ne-none :
      ((n : ℕ) → intn (suc n) < suc n)
      → (s : InstanceStat F) (xs : List (InstanceStat F)) → Memᴰ s xs
      → choose intn req xs ≢ none
  choose-ne-none range s [] k = λ h. elim k [ ]
  choose-ne-none range s (x ∷ xs) k = λ h.
      let (y, found) = get_elem?_in_range (x ∷ xs) (intn (length (x ∷ xs))) (range (length xs)) in
      let h' = rw found at h in cc

  -- With a random choice below its bound, that scheduler finds no instance exactly when none of
  -- the map is both free and large enough: the choice is never out of range.
  pub one_task_schedule-none :
      ((n : ℕ) → intn (suc n) < suc n)
      → (one_task_schedule intn req infos m ≡ none)
        ↔ ((e : String × InstanceStat F) → Memᴰ e m → ¬ IsFree req infos e.1)
  unfolding one_task_schedule
  one_task_schedule-none range = (
    λ h e listed free.
        choose-ne-none range e.1 (available_nodes req infos m)
          (mem-select (is_available req infos) (map (λ d. d.1) m)
            ((available_iff req infos e.1).1 free) (Memᴰ.map (λ d. d.1) listed))
          h,
    λ none_free. elim (Option-cases (one_task_schedule intn req infos m)) [
      | inl e ↦ e
      | inr (info, e) ↦
          let (d, listed, placed, free) = one_task_schedule-free info e in
          absurd (none_free d listed free)
    ],
  )
