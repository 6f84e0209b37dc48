-- ===== src/ReqScheduler/Release.antt =====
-- pkg/reqscheduler/reqscheduler.go: the end of a call takes its placement away.
use mathlib.Core.List.{Permᴰ}
use pixels_spike.Base.{
  ℕ, ◌≡◌, ◌≢◌, refl, sym, ap, subst, inl, inr, List, [], ◌∷◌, some, Bool, false, not, String, ok,
  All, select, Bool-cases,
}
use pixels_spike.Base.Float.{FloatOps}
use pixels_spike.Base.Perms.{select-perm}
use pixels_spike.Base.Keys.{◌==◌, lookup, nat_keys}
use pixels_spike.Model.{FuncInstance}
use pixels_spike.ReqQueue.{Request, ReqQueue}
use pixels_spike.Scheduler.{ReqScheduleInfo, Scheduler, StatMap}
use pixels_spike.Storage.{Gorm, uint64, delete_req_schedule_info}
use pixels_spike.Storage.Laws.{matches, req_columns}
use pixels_spike.ReqScheduler.{
  WorkerClient, new_req_schedule_info, schedule, call_instance_function,
  call_instance_function_routine,
}
use pixels_spike.ReqScheduler.Handover.{ScheduleStore, IsPlaced, schedule-IsHandover}

abbrev pub has_id : ℕ → ReqScheduleInfo → Bool
has_id id info = matches req_columns (("req_id", uint64 id) ∷ []) info

abbrev without : ℕ → List ReqScheduleInfo → List ReqScheduleInfo
without id infos = select (λ v. not (has_id id v)) infos

has_id_iff : (id : ℕ) (info : ReqScheduleInfo) → info.req_id ≢ id → has_id id info ≡ false
unfolding lookup
has_id_iff id info other = elim (Bool-cases (info.req_id == id)) [
  | inl e ↦ absurd (other ((nat_keys.same_iff info.req_id id).0 e))
  | inr e ↦ rw e
]

without_fresh :
    (id : ℕ) (infos : List ReqScheduleInfo)
    → All (λ v. v.req_id ≢ id) infos
    → without id infos ≡ infos
without_fresh id [] h = refl
without_fresh id (info ∷ infos) h =
    rw (has_id_iff id info h.0) (ap (λ l. info ∷ l) (without_fresh id infos h.1))

module _ {F S : Type 0} (float : FloatOps F) (db : Gorm S) (scheduler : Scheduler F)
    (visit : StatMap F → StatMap F) {requests : S → List ReqScheduleInfo}
    {machines : S → List FuncInstance} (store : ScheduleStore db requests machines)
    (worker : WorkerClient S) (request_timeout : ℕ) where
  without_new :
      (req : Request) (chosen : ReqScheduleInfo) (infos : List ReqScheduleInfo)
      → All (λ v. v.req_id ≢ req.request_id) infos
      → without req.request_id (new_req_schedule_info float req chosen ∷ infos) ≡ infos
  unfolding lookup
  without_new req chosen infos fresh =
      rw ((nat_keys.same_iff req.request_id req.request_id).1 refl)
        (without_fresh req.request_id infos fresh)

  -- The placement that `Schedule` records is given back at the end of the call that it starts:
  -- when the call is over, with a payload or with an error, the recorded placements are again
  -- those from before `Schedule`. No placement had the number of the request before, the call of
  -- the worker itself leaves the table alone, and the deletion succeeds.
  pub schedule-routine-perm :
      (q : ReqQueue) (s : S) (req : Request) (address : String)
      → (schedule float db scheduler visit q s).0 ≡ some (req, address)
      → All (λ v. v.req_id ≢ req.request_id) (requests s)
      → (let t = (schedule float db scheduler visit q s).2 in
          let called =
            call_instance_function worker request_timeout req.req_payload req.request_id address
              t in
          requests called.1 ≡ requests t)
      → (let t = (schedule float db scheduler visit q s).2 in
          let called =
            call_instance_function worker request_timeout req.req_payload req.request_id address
              t in
          (delete_req_schedule_info db req.request_id called.1).0 ≡ ok tt)
      → Permᴰ
          (requests
            (call_instance_function_routine worker request_timeout db req address
              (schedule float db scheduler visit q s).2).1)
          (requests s)
  unfolding call_instance_function_routine delete_req_schedule_info
  schedule-routine-perm q s req address started fresh keeps deleted =
      elim (schedule-IsHandover float db scheduler visit store q s) [
        | inl idle ↦ absurd (cc)
        | inr (front_req, chosen, front, launched, popped, placed_there) ↦
            let same : front_req ≡ req = cc in
            let t = (schedule float db scheduler visit q s).2 in
            let p =
              subst (λ x. IsPlaced float db scheduler visit store x s chosen t) same placed_there in
            let gone =
              store.request_table.delete_ok (("req_id", uint64 req.request_id) ∷ []) _ deleted in
            Permᴰ.trans gone (
              subst (λ l. Permᴰ (without req.request_id l) (requests s)) (sym keeps)
                (subst (λ l. Permᴰ (without req.request_id (requests t)) l)
                  (without_new req chosen (requests s) fresh)
                  (select-perm (λ v. not (has_id req.request_id v)) p.recorded)))
      ]
