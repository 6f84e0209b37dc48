-- ===== src/ReqScheduler/System/Placements.antt =====
-- pkg/reqscheduler/reqscheduler.go: the recorded placements are those of the calls in flight.
use mathlib.Core.List.Permᴰ
use mathlib.Core.List.{Permᴰ}
use pixels_spike.Base.{
  ℕ, ◌≡◌, ◌≢◌, refl, sym, ap, subst, inl, inr, List, [], ◌∷◌, ◌++◌, map, not, String, ok, err,
  arith, All, select, Bool-cases, true, Result,
}
use pixels_spike.Base.Distinct.{IsDistinct, IsDistinct-perm, select_all}
use pixels_spike.Base.Keys.{◌==◌, lookup, nat_keys}
use pixels_spike.Base.Perms.{select-perm}
use pixels_spike.Model.{FuncInstance}
use pixels_spike.ReqQueue.{Request}
use pixels_spike.Scheduler.{ReqScheduleInfo}
use pixels_spike.Storage.{uint64, delete_req_schedule_info}
use pixels_spike.ReqScheduler.{
  CallFunctionRequest, to_request, call_instance_function, call_instance_function_routine,
}
use pixels_spike.ReqScheduler.Handover.{schedule-IsHandover}
use pixels_spike.ReqScheduler.Release.{has_id}
use pixels_spike.ReqScheduler.System.{
  Deployment, System, Step, Reach, IsExclusive, start_of, after_submit, after_schedule,
  after_answer,
}
use pixels_spike.ReqScheduler.System.Conservation.{
  submit_request-ok, submit_request-err, running-IsDistinct,
}

-- A placement and a call, by the number of the request, its function and the address.
abbrev pub info_key : ReqScheduleInfo → ℕ × String × String
info_key v = (v.req_id, v.function_name, v.placed_ins_ipv4)

abbrev pub call_key : Request × String → ℕ × String × String
call_key e = (e.0.request_id, e.0.function_name, e.1)

-- Deleting by number, seen on the keys.
map-without :
    (id : ℕ) (infos : List ReqScheduleInfo)
    → map info_key (select (λ v. not (has_id id v)) infos)
      ≡ select (λ k. not (k.0 == id)) (map info_key infos)
unfolding lookup
map-without id [] = refl
map-without id (v ∷ infos) = elim (Bool-cases (v.req_id == id)) [
  | inl e ↦ rw e (map-without id infos)
  | inr e ↦ rw e (ap (λ l. info_key v ∷ l) (map-without id infos))
]

differs : (id n : ℕ) → n ≢ id → not (n == id) ≡ true
differs id n other = ground (arith, nat_keys.same_iff n id)

keys_differ :
    (id : ℕ) (calls : List (Request × String))
    → All (λ n. n ≢ id) (map (λ e. e.0.request_id) calls)
    → All (λ k. not (k.0 == id) ≡ true) (map call_key calls)
keys_differ id [] h = tt
keys_differ id (c ∷ calls) h = (differs id c.0.request_id h.0, keys_differ id calls h.1)

others_stay :
    (before : List (Request × String)) (req : Request) (address : String)
    (later calls : List (Request × String))
    → calls ≡ before ++ ((req, address) ∷ later)
    → IsDistinct (map (λ e. e.0.request_id) calls)
    → Permᴰ
        (select (λ k. not (k.0 == req.request_id)) (map call_key calls))
        (map call_key (before ++ later))
others_stay before req address later calls split distinct =
    let moved : Permᴰ calls ((req, address) ∷ (before ++ later)) =
      rw split (Permᴰ.middle (req, address) before later) in
    let apart =
      (IsDistinct-perm (Permᴰ.map (λ (e : Request × String). e.0.request_id) moved) distinct).0 in
    let kept =
      select-perm (λ (k : ℕ × String × String). not (k.0 == req.request_id))
        (Permᴰ.map call_key moved) in
    let stays =
      select_all (λ (k : ℕ × String × String). not (k.0 == req.request_id))
        (map call_key (before ++ later)) (keys_differ req.request_id (before ++ later) apart) in
    subst (Permᴰ (select (λ k. not (k.0 == req.request_id)) (map call_key calls)))
      (rw ((nat_keys.same_iff req.request_id req.request_id).1 refl) stays) kept

module _ {F S : Type 0} (d : Deployment F S) {Others : S → S → Type 0}
    {requests : S → List ReqScheduleInfo} {machines : S → List FuncInstance}
    (exclusive : IsExclusive d Others requests machines)
    (deletes : (id : ℕ) (s : S) → (delete_req_schedule_info d.db id s).0 ≡ ok tt) where
  open exclusive use {store, others_keep, next_id_keeps, call_keeps}

  abbrev pub IsMatched : System S → Type 0
  IsMatched t = Permᴰ (map info_key (requests t.outside)) (map call_key t.running)

  same_requests :
      (s s' : S) (calls : List (Request × String))
      → requests s' ≡ requests s
      → Permᴰ (map info_key (requests s)) (map call_key calls)
      → Permᴰ (map info_key (requests s')) (map call_key calls)
  same_requests s s' calls same h =
      subst (λ l. Permᴰ (map info_key l) (map call_key calls)) (sym same) h

  submit-IsMatched :
      (t : System S) (req : CallFunctionRequest) (resp_chan : ℕ) (l : List Request) (r : Result ℕ)
      → (d.next_id t.outside).0 ≡ r
      → IsMatched t
      → IsMatched (after_submit d t req resp_chan l)
  submit-IsMatched t req resp_chan l (ok id) drawn h =
      rw (submit_request-ok d req resp_chan t.queue t.outside drawn, after_submit)
        (same_requests t.outside (d.next_id t.outside).1 t.running (next_id_keeps t.outside) h)
  submit-IsMatched t req resp_chan l (err e) failed h =
      rw (submit_request-err d req resp_chan t.queue t.outside failed, after_submit)
        (same_requests t.outside (d.next_id t.outside).1 t.running (next_id_keeps t.outside) h)

  place-IsMatched : (t : System S) → IsMatched t → IsMatched (after_schedule d t)
  place-IsMatched t h =
      elim (schedule-IsHandover d.float d.db d.scheduler d.visit store t.queue t.outside) [
        | inl (none_started, same, kept) ↦
            rw none_started (same_requests t.outside _ t.running kept h)
        | inr (req, chosen, front, launched, popped, placed) ↦
            rw launched (Permᴰ.trans (Permᴰ.map info_key placed.recorded) (Permᴰ.cons refl h))
      ]

  -- The rows that the deletion leaves.
  routine-perm :
      (req : Request) (address : String) (s : S)
      → Permᴰ
          (requests
            (call_instance_function_routine d.worker d.request_timeout d.db req address s).1)
          (select (λ v. not (has_id req.request_id v)) (requests s))
  unfolding call_instance_function_routine delete_req_schedule_info
  routine-perm req address s =
      let s' =
        (call_instance_function d.worker d.request_timeout req.req_payload req.request_id address
          s).1 in
      subst
        (λ l.
          Permᴰ (requests (delete_req_schedule_info d.db req.request_id s').1)
            (select (λ v. not (has_id req.request_id v)) l))
        (call_keeps req.req_payload req.request_id address s)
        (store.request_table.delete_ok (("req_id", uint64 req.request_id) ∷ []) s'
          (deletes req.request_id s'))

  answer-IsMatched :
      (t : System S) (before : List (Request × String)) (req : Request) (address : String)
      (later : List (Request × String))
      → t.running ≡ before ++ ((req, address) ∷ later)
      → IsDistinct (map (λ e. e.0.request_id) t.running)
      → IsMatched t
      → IsMatched (after_answer d t before req address later)
  answer-IsMatched t before req address later split distinct h =
      let gone = Permᴰ.map info_key (routine-perm req address t.outside) in
      let kept = select-perm (λ (k : ℕ × String × String). not (k.0 == req.request_id)) h in
      Permᴰ.trans
        (subst
          (Permᴰ (
            map info_key (
              requests
                (call_instance_function_routine d.worker d.request_timeout d.db req address
                  t.outside).1)))
          (map-without req.request_id (requests t.outside)) gone)
        (Permᴰ.trans kept (others_stay before req address later t.running split distinct))

  Step-IsMatched :
      {t u : System S}
      → Step d Others t u
      → IsDistinct (map (λ e. e.0.request_id) t.running)
      → IsMatched t
      → IsMatched u
  Step-IsMatched {t} (Step.submit req resp_chan id drawn fresh e) distinct h =
      rw e (
        submit-IsMatched t req resp_chan (to_request req id resp_chan ∷ t.submitted) (ok id) drawn
          h)
  Step-IsMatched {t} (Step.refuse req resp_chan m failed e) distinct h =
      rw e (submit-IsMatched t req resp_chan t.submitted (err m) failed h)
  Step-IsMatched {t} (Step.place e) distinct h = rw e (place-IsMatched t h)
  Step-IsMatched {t} (Step.answer before req address later split e) distinct h =
      rw e (answer-IsMatched t before req address later split distinct h)
  Step-IsMatched {t} (Step.act s acted e) distinct h =
      rw e (same_requests t.outside s t.running (others_keep t.outside s acted) h)

  -- In every state that is reached from a start with no placement recorded, in any order of steps,
  -- the recorded placements are those of the calls in flight, each once, with the number of the
  -- request, its function and the address that is called: nothing stays charged to an instance after its call,
  -- and no call runs uncharged. The deletions of placements succeed, and only the scheduler changes
  -- the placements.
  pub Reach-IsMatched :
      {s : S} {t : System S}
      → requests s ≡ []
      → Reach d Others (start_of s) t
      → Permᴰ (map info_key (requests t.outside)) (map call_key t.running)
  Reach-IsMatched none_recorded Reach.here = rw none_recorded Permᴰ.nil
  Reach-IsMatched none_recorded (Reach.next r st) =
      Step-IsMatched st (running-IsDistinct d exclusive r) (Reach-IsMatched none_recorded r)
