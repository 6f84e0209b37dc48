-- ===== src/ReqScheduler/Capacity.antt =====
-- pkg/reqscheduler/reqscheduler.go with the base scheduler: no instance is given more than it has.
use mathlib.Core.List.Permᴰ
use mathlib.Core.List.{Permᴰ}
use pixels_spike.Base.{
  ◌≡◌, ◌≢◌, sym, subst, ap, ◌∙◌, inl, inr, true, List, [], ◌∷◌, select, All-mem, All_of_mem, Memᴰ,
  Option, some, String, Bool-cases,
}
use pixels_spike.Base.Perms.{All-perm, select-perm, mem-perm}
use pixels_spike.Base.Float.{FloatOps}
use pixels_spike.Base.Int.{ℤ, ◌+ℤ◌, ◌≤ℤ◌, IsInt32, +ℤ_comm}
use pixels_spike.Base.Keys.{◌==◌, string_keys, lookup}
use pixels_spike.Model.{FuncInstance}
use pixels_spike.ReqQueue.{Request, ReqQueue, peek}
use pixels_spike.Scheduler.{ReqScheduleInfo, StatMap, base_schedule, place}
use pixels_spike.Scheduler.Usage.{placed, placed_cpu, placed_memory}
use pixels_spike.Scheduler.BestFit.{CanHold, NoOverflow, base_schedule-CanHold}
use pixels_spike.Storage.{Gorm}
use pixels_spike.ReqScheduler.{fill_stats, instance_stat, new_req_schedule_info, schedule}
use pixels_spike.ReqScheduler.StatMaps.{
  IsMadeFrom, placed-perm, IsMap-perm, fill_stats-All, made-IsFresh,
}
use pixels_spike.ReqScheduler.Handover.{
  ScheduleStore, for_function, is_running, IsPlaced, schedule-IsHandover,
}
use text.Mathlib.TextEquality.{eq_iff}
use text.Mathlib.TextPositions.{eq_refl}

module _ {F S : Type 0} (float : FloatOps F) (db : Gorm S) (visit : StatMap F → StatMap F)
    (visits : (m : StatMap F) → Permᴰ (visit m) m) {requests : S → List ReqScheduleInfo}
    {machines : S → List FuncInstance} (store : ScheduleStore db requests machines) where
  -- The placements recorded for a function.
  abbrev pub recorded_for : String → S → List ReqScheduleInfo
  recorded_for name s = select (for_function name) (requests s)

  -- What the placements recorded for its function need of an instance is within its size.
  pub record IsWithin (i : FuncInstance) (name : String) (s : S) : Type 0 where
    pub cpu : placed_cpu i.aws_service_name (recorded_for name s) ≤ℤ i.cpu
    pub memory : placed_memory i.aws_service_name (recorded_for name s) ≤ℤ i.memory

  new_info-for_function :
      (req : Request) (chosen : ReqScheduleInfo)
      → for_function req.function_name (new_req_schedule_info float req chosen) ≡ true
  unfolding lookup
  new_info-for_function req chosen = rw (eq_refl req.function_name)

  recorded-perm :
      {req : Request} {s s' : S} {chosen : ReqScheduleInfo}
      → IsPlaced float db (base_schedule float) visit store req s chosen s'
      → Permᴰ
          (recorded_for req.function_name s')
          (new_req_schedule_info float req chosen ∷ recorded_for req.function_name s)
  recorded-perm {req} {s} {s'} {chosen} p =
      let added = select-perm (for_function req.function_name) p.recorded in
      rw (new_info-for_function req chosen) at added

  NoOverflow-perm :
      (req : Request) {xs ys : List ReqScheduleInfo}
      → Permᴰ xs ys
      → NoOverflow req ys
      → NoOverflow req xs
  NoOverflow-perm req p h = record {
    cpu = λ n. subst IsInt32 (sym (placed-perm (λ i. i.required_cpu) n p)) (h.cpu n);
    cpu_total = λ n.
        subst (λ z. IsInt32 (z +ℤ req.required_cpu)) (sym (placed-perm (λ i. i.required_cpu) n p))
          (h.cpu_total n);
    memory_total = λ n.
        subst (λ z. IsInt32 (z +ℤ req.required_memory))
          (sym (placed-perm (λ i. i.required_memory) n p)) (h.memory_total n);
  }

  -- The sum on the chosen instance grows by what the request needs.
  placed_after :
      (field : ReqScheduleInfo → ℤ) {req : Request} {s s' : S} {chosen : ReqScheduleInfo}
      → (p : IsPlaced float db (base_schedule float) visit store req s chosen s')
      → placed field chosen.placed_aws_service_name (recorded_for req.function_name s')
        ≡ placed field chosen.placed_aws_service_name p.infos
          +ℤ field (new_req_schedule_info float req chosen)
  placed_after field {req} {s} {s'} {chosen} p =
      let name = chosen.placed_aws_service_name in
      placed-perm field name (recorded-perm p)
      ∙ rw (eq_refl name) (
          +ℤ_comm (field (new_req_schedule_info float req chosen))
            (placed field name (recorded_for req.function_name s))
          ∙ ap (λ z. z +ℤ field (new_req_schedule_info float req chosen))
              (sym (placed-perm field name p.read_infos)))

  held-IsWithin :
      {req : Request} {s s' : S} {chosen : ReqScheduleInfo}
      → (p : IsPlaced float db (base_schedule float) visit store req s chosen s')
      → (i : FuncInstance) → chosen.placed_aws_service_name ≡ i.aws_service_name
      → CanHold req p.infos (i.aws_service_name, instance_stat float i)
      → IsWithin i req.function_name s'
  held-IsWithin {req} {s} {s'} {chosen} p i same held =
      let grown = λ (field : ReqScheduleInfo → ℤ).
        subst
          (λ n.
            placed field n (recorded_for req.function_name s')
            ≡ placed field n p.infos +ℤ field (new_req_schedule_info float req chosen))
          same (placed_after field p) in
      record {
        cpu = subst (λ z. z ≤ℤ i.cpu) (sym (grown (λ x. x.required_cpu))) held.cpu;
        memory = subst (λ z. z ≤ℤ i.memory) (sym (grown (λ x. x.required_memory))) held.memory;
      }

  Placed-IsWithin :
      {req : Request} {s s' : S} {chosen : ReqScheduleInfo}
      → NoOverflow req (recorded_for req.function_name s)
      → IsPlaced float db (base_schedule float) visit store req s chosen s'
      → (i : FuncInstance) × Memᴰ i (select (is_running req.function_name) (machines s))
        × (chosen.placed_ins_ipv4 ≡ i.ipv4)
        × (chosen.placed_aws_service_name ≡ i.aws_service_name)
        × IsWithin i req.function_name s'
  Placed-IsWithin {req} {s} {s'} {chosen} range p =
      let stats = fill_stats float p.instances [] in
      let (made, keyed) =
        fill_stats-All float p.instances p.instances []
          (All_of_mem (λ i. Memᴰ i p.instances) p.instances (λ i k. k)) tt tt in
      let made_visit = All-perm (IsMadeFrom float p.instances) (Permᴰ.symm (visits stats)) made in
      let (e, listed, eq, held) =
        base_schedule-CanHold float req p.infos (visit stats)
          (IsMap-perm (Permᴰ.symm (visits stats)) keyed)
          (made-IsFresh float p.instances (visit stats) made_visit)
          (NoOverflow-perm req p.read_infos range) chosen p.choice in
      let (i, k, from) = All-mem (IsMadeFrom float p.instances) (visit stats) made_visit listed in
      let at = eq ∙ ap (λ x. place req x.1) from in
      let same = ap (λ c. c.placed_aws_service_name) at in
      (
        i,
        mem-perm p.read_instances k,
        ap (λ c. c.placed_ins_ipv4) at,
        same,
        held-IsWithin p i same (subst (CanHold req p.infos) from held),
      )

  -- The sums of the other instances stay as they were.
  others_kept :
      (field : ReqScheduleInfo → ℤ) {req : Request} {s s' : S} {chosen : ReqScheduleInfo}
      → IsPlaced float db (base_schedule float) visit store req s chosen s'
      → (name : String) → name ≢ chosen.placed_aws_service_name
      → placed field name (recorded_for req.function_name s')
        ≡ placed field name (recorded_for req.function_name s)
  others_kept field {req} {s} {s'} {chosen} p name other =
      placed-perm field name (recorded-perm p)
      ∙ elim (Bool-cases (name == chosen.placed_aws_service_name)) [
        | inl e ↦ absurd (other ((eq_iff name chosen.placed_aws_service_name).0 e))
        | inr e ↦ rw e
      ]

  abbrev pub result : ReqQueue → S → Option (Request × String) × ReqQueue × S
  result q s = schedule float db (base_schedule float) visit q s

  -- With the base scheduler, whenever `Schedule` starts the call of an address for a request, the
  -- request was the front of the queue and the address is that of a running instance of the
  -- request's function; all the recorded placements of the function on that instance, the new one
  -- included, are within its CPU and its memory, and the sums for every other instance are
  -- unchanged. The sums are taken not to leave the range of int32.
  pub schedule-IsWithin_capacity :
      (q : ReqQueue) (s : S) (req : Request) (address : String)
      → NoOverflow req (recorded_for req.function_name s)
      → (result q s).0 ≡ some (req, address)
      → (i : FuncInstance) × (peek q ≡ some req)
        × (address ≡ i.ipv4)
        × Memᴰ i (select (is_running req.function_name) (machines s))
        × IsWithin i req.function_name (result q s).2
        × ((name : String)
            → name ≢ i.aws_service_name
            → (placed_cpu name (recorded_for req.function_name (result q s).2)
                ≡ placed_cpu name (recorded_for req.function_name s))
              × (placed_memory name (recorded_for req.function_name (result q s).2)
                  ≡ placed_memory name (recorded_for req.function_name s)))
  schedule-IsWithin_capacity q s req address range started =
      elim (schedule-IsHandover float db (base_schedule float) visit store q s) [
        | inl idle ↦ absurd (cc)
        | inr (front_req, chosen, front, launched, popped, placed_there) ↦
            let same : front_req ≡ req = cc in
            let p =
              subst
                (λ x. IsPlaced float db (base_schedule float) visit store x s chosen (result q s).2)
                same placed_there in
            let to_chosen : address ≡ chosen.placed_ins_ipv4 = cc in
            let (i, listed, ip, named, within) = Placed-IsWithin range p in
            (
              i,
              front ∙ ap some same,
              to_chosen ∙ ip,
              listed,
              within,
              λ name other.
                  let other' =
                    λ (same : name ≡ chosen.placed_aws_service_name). other (same ∙ named) in
                  (
                    others_kept (λ x. x.required_cpu) p name other',
                    others_kept (λ x. x.required_memory) p name other',
                  ),
            )
      ]
