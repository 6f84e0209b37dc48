-- ===== src/ReqScheduler/System/Safe.antt =====
-- pkg/reqscheduler/reqscheduler.go with the base scheduler: no step gives an instance more
-- than it has.
use mathlib.Core.List.{Permᴰ}
use mathlib.Core.List.Permᴰ
use mathlib.Core.Path.{subst₂}
use pixels_spike.Base.{
  ℕ, ◌≡◌, ◌≢◌, refl, sym, subst, ◌∙◌, inl, inr, List, [], ◌∷◌, select, All, All_of_mem,
  mem_of_mem-select, Memᴰ, Bool, true, some, String, Result, ok, err, not,
}
use pixels_spike.Base.Distinct.{select_all}
use pixels_spike.Model.{FuncInstance}
use pixels_spike.ReqQueue.{Request, ReqQueue, peek}
use pixels_spike.Scheduler.{ReqScheduleInfo, Scheduler, StatMap, base_schedule}
use pixels_spike.Scheduler.BestFit.{NoOverflow}
use pixels_spike.Scheduler.Usage.{placed_cpu, placed_memory}
use pixels_spike.Storage.{uint64, delete_req_schedule_info}
use pixels_spike.ReqScheduler.{
  CallFunctionRequest, to_request, schedule, call_instance_function, call_instance_function_routine,
  new_req_schedule_info,
}
use pixels_spike.ReqScheduler.Capacity.{IsWithin, schedule-IsWithin_capacity}
use pixels_spike.ReqScheduler.Handover.{for_function, is_running, schedule-IsHandover}
use pixels_spike.ReqScheduler.Release.{has_id}
use pixels_spike.ReqScheduler.System.{
  Deployment, System, Step, IsExclusive, after_submit, after_schedule,
}
use pixels_spike.ReqScheduler.System.Capped.{IsCapped, IsCapped-select, IsCapped-add}
use pixels_spike.ReqScheduler.System.Conservation.{peek-pop, submit_request-ok, submit_request-err}
use pixels_spike.ReqScheduler.System.Fleet.{IsModest, IsFleet, schedule-keeps, routine-keeps}
use pixels_spike.ReqScheduler.System.Rescale.{IsCapped-machines, IsCapped-NoOverflow}

-- The needs of a request are not negative, and below half of the range of int32.
abbrev pub NeedsModest : Request → Type 0
NeedsModest r = IsModest r.required_cpu × IsModest r.required_memory

module _ {F S : Type 0} (d : Deployment F S) (is_base : d.scheduler ≡ base_schedule d.float)
    (visits : (m : StatMap F) → Permᴰ (d.visit m) m) {Others : S → S → Type 0}
    {requests : S → List ReqScheduleInfo} {machines : S → List FuncInstance}
    (exclusive : IsExclusive d Others requests machines)
    (fleet : IsFleet d Others requests machines) where
  open exclusive use {store, others_keep, next_id_keeps, call_keeps}

  abbrev pub IsSafe : S → Type 0
  IsSafe s = IsCapped (machines s) (requests s)

  same-IsSafe :
      (s s' : S) → machines s' ≡ machines s → requests s' ≡ requests s → IsSafe s → IsSafe s'
  same-IsSafe s s' same same' h = subst₂ IsCapped (sym same) (sym same') h

  submit-IsSafe :
      (t : System S) (req : CallFunctionRequest) (resp_chan : ℕ) (l : List Request) (r : Result ℕ)
      → (d.next_id t.outside).0 ≡ r
      → IsSafe t.outside
      → IsSafe (after_submit d t req resp_chan l).outside
  submit-IsSafe t req resp_chan l (ok id) drawn h =
      rw (submit_request-ok d req resp_chan t.queue t.outside drawn, after_submit)
        (same-IsSafe t.outside (d.next_id t.outside).1 (fleet.keeps_id t.outside)
          (next_id_keeps t.outside) h)
  submit-IsSafe t req resp_chan l (err e) failed h =
      rw (submit_request-err d req resp_chan t.queue t.outside failed, after_submit)
        (same-IsSafe t.outside (d.next_id t.outside).1 (fleet.keeps_id t.outside)
          (next_id_keeps t.outside) h)

  -- The rows that the end of a call leaves, also if their deletion fails.
  routine-select :
      (req : Request) (address : String) (s : S)
      → (p : ReqScheduleInfo → Bool) × Permᴰ
          (requests
            (call_instance_function_routine d.worker d.request_timeout d.db req address s).1)
          (select p (requests s))
  unfolding call_instance_function_routine delete_req_schedule_info
  routine-select req address s = deleted _ refl
    where
      s' : S
      s' =
          (call_instance_function d.worker d.request_timeout req.req_payload req.request_id address
            s).1

      called : requests s' ≡ requests s
      called = call_keeps req.req_payload req.request_id address s

      deleted :
          (x : Result (Unit {0}))
          → (d.db.req_schedule_info.delete (("req_id", uint64 req.request_id) ∷ []) s').0 ≡ x
          → (p : ReqScheduleInfo → Bool) × Permᴰ
              (requests
                (d.db.req_schedule_info.delete (("req_id", uint64 req.request_id) ∷ []) s').1)
              (select p (requests s))
      deleted (ok u) e = (
        λ v. not (has_id req.request_id v),
        subst
            (λ l.
              Permᴰ
                (requests
                  (d.db.req_schedule_info.delete (("req_id", uint64 req.request_id) ∷ []) s').1)
                (select (λ v. not (has_id req.request_id v)) l))
            called (store.request_table.delete_ok _ s' e),
      )
      deleted (err m) e = (
        λ v. true,
        subst (λ l. Permᴰ l (select (λ v. true) (requests s)))
            (sym (store.request_table.delete_err _ s' m e ∙ called))
            (subst (Permᴰ (requests s))
              (sym (select_all (λ v. true) (requests s) (All_of_mem _ (requests s) (λ v k. refl))))
              (Permᴰ.refl (requests s))),
      )

  -- What a schedule that starts a call does, for the configured scheduler.
  abbrev Started : Scheduler F → ReqQueue → S → Request → String → Type 0
  Started scheduler q s req address =
      let t = (schedule d.float d.db scheduler d.visit q s).2 in
      (i : FuncInstance) × (peek q ≡ some req)
      × (address ≡ i.ipv4)
      × Memᴰ i (select (is_running req.function_name) (machines s))
      × IsWithin d.float d.db d.visit visits store i req.function_name t
      × ((name : String)
          → name ≢ i.aws_service_name
          → (placed_cpu name (select (for_function req.function_name) (requests t))
              ≡ placed_cpu name (select (for_function req.function_name) (requests s)))
            × (placed_memory name (select (for_function req.function_name) (requests t))
                ≡ placed_memory name (select (for_function req.function_name) (requests s))))

  started :
      (q : ReqQueue) (s : S) (req : Request) (address : String)
      → NoOverflow req (select (for_function req.function_name) (requests s))
      → (schedule d.float d.db d.scheduler d.visit q s).0 ≡ some (req, address)
      → Started d.scheduler q s req address
  started q s req address range =
      subst
        (λ scheduler.
          (schedule d.float d.db scheduler d.visit q s).0 ≡ some (req, address)
          → Started scheduler q s req address)
        (sym is_base)
        (schedule-IsWithin_capacity d.float d.db d.visit visits store q s req address range)

  front-NeedsModest :
      (q : ReqQueue) {req : Request} → peek q ≡ some req → All NeedsModest q.qu → NeedsModest req
  front-NeedsModest q front h = (subst (All NeedsModest) (peek-pop q front) h).0

  place-IsSafe :
      (t : System S)
      → All NeedsModest t.queue.qu
      → IsSafe t.outside
      → IsSafe (after_schedule d t).outside
  place-IsSafe t modest h =
      let s = t.outside in
      let s' = (schedule d.float d.db d.scheduler d.visit t.queue s).2 in
      let same = schedule-keeps d fleet t.queue s in
      elim (schedule-IsHandover d.float d.db d.scheduler d.visit store t.queue s) [
        | inl (none_started, same_queue, kept) ↦ same-IsSafe s s' same kept h
        | inr (req, chosen, front, launched, popped, placed) ↦
            let needs = front-NeedsModest t.queue front modest in
            let range = IsCapped-NoOverflow req h needs.0 needs.1 in
            let (i, front', at, listed, within, others) =
              started t.queue s req chosen.placed_ins_ipv4 range launched in
            let here = (mem_of_mem-select (is_running req.function_name) (machines s) listed).0 in
            subst (λ ms. IsCapped ms (requests s')) (sym same)
              (IsCapped-add (new_req_schedule_info d.float req chosen) placed.recorded i here
                within.cpu within.memory others needs.0.0 needs.1.0 h)
      ]

  pub Step-IsSafe :
      {t u : System S}
      → Step d Others t u
      → All NeedsModest t.queue.qu
      → IsSafe t.outside
      → IsSafe u.outside
  Step-IsSafe {t} (Step.submit req resp_chan id drawn fresh e) modest h =
      rw e
        (submit-IsSafe t req resp_chan (to_request req id resp_chan ∷ t.submitted) (ok id) drawn h)
  Step-IsSafe {t} (Step.refuse req resp_chan m failed e) modest h =
      rw e (submit-IsSafe t req resp_chan t.submitted (err m) failed h)
  Step-IsSafe {t} (Step.place e) modest h = rw e (place-IsSafe t modest h)
  Step-IsSafe {t} (Step.answer before req address later split e) modest h =
      let (p, removed) = routine-select req address t.outside in
      rw e (
        subst
          (λ ms. IsCapped ms (
            requests
              (call_instance_function_routine d.worker d.request_timeout d.db req address
                t.outside).1))
          (sym (routine-keeps d fleet req address t.outside))
          (IsCapped-select p (requests t.outside) removed h))
  Step-IsSafe {t} (Step.act s acted e) modest h = rw e (
      subst (IsCapped (machines s)) (sym (others_keep t.outside s acted)) (
        IsCapped-machines h (fleet.others_named t.outside s acted)
          (fleet.others_sized t.outside s acted) (fleet.others_add t.outside s acted)))
