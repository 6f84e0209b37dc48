-- ===== src/ReqScheduler/System/Respond.antt =====
-- pkg/reqscheduler/reqscheduler.go with the base scheduler and a database that answers:
-- one run of `Schedule` places the front request when nothing is placed.
use mathlib.Core.List.{Permᴰ}
use mathlib.Core.List.Permᴰ
use pixels_spike.Base.{
  ℕ, ◌≡◌, ◌≢◌, refl, sym, ap, ◌∙◌, List, [], ◌∷◌, map, select, Memᴰ, mem_of_mem-select, Option,
  none, some, String, Result, ok, err,
}
use pixels_spike.Base.Perms.{mem-perm}
use pixels_spike.Model
use pixels_spike.Model.{FuncInstance}
use pixels_spike.ReqQueue.{Request, ReqQueue, peek, pop}
use pixels_spike.Scheduler.{ReqScheduleInfo, StatMap, base_schedule}
use pixels_spike.Storage.{
  Condition, text, delete_req_schedule_info, get_func_instance_by_condition,
  get_req_schedule_info_by_function_name, update_req_schedule_info,
}
use pixels_spike.ReqScheduler.{
  fill_stats, finish, place_request, schedule, call_instance_function, to_req_schedule_info,
  convert_to_req_schedule_info, convert_to_storage_req_schedule_info, new_req_schedule_info,
}
use pixels_spike.ReqScheduler.Handover.{IsNewRecord, is_running, for_function}
use pixels_spike.ReqScheduler.System.{Deployment, IsExclusive}
use pixels_spike.ReqScheduler.System.Serve.{IsNamed, CanServe, base_schedule-serves}

-- The database answers, and the request path leaves the table of instances alone.
pub record IsResponsive {F S : Type 0} (d : Deployment F S) (machines : S → List FuncInstance)
    : Type 0 where
  pub finds_machines :
      (c : Condition) (s : S)
      → (found : List FuncInstance) × ((d.db.func_instance.find c s).0 ≡ ok found)
  pub finds_requests :
      (c : Condition) (s : S)
      → (found : List Model.ReqScheduleInfo) × ((d.db.req_schedule_info.find c s).0 ≡ ok found)
  pub saves :
      (r : Model.ReqScheduleInfo) (s : S)
      → IsNewRecord r
      → (d.db.req_schedule_info.save r s).0 ≡ ok tt
  pub deletes : (id : ℕ) (s : S) → (delete_req_schedule_info d.db id s).0 ≡ ok tt
  pub machines_find :
      (c : Condition) (s : S) → machines (d.db.func_instance.find c s).1 ≡ machines s
  pub machines_infos :
      (c : Condition) (s : S) → machines (d.db.req_schedule_info.find c s).1 ≡ machines s
  pub machines_save :
      (r : Model.ReqScheduleInfo) (s : S)
      → machines (d.db.req_schedule_info.save r s).1 ≡ machines s
  pub machines_delete :
      (id : ℕ) (s : S) → machines (delete_req_schedule_info d.db id s).1 ≡ machines s
  pub machines_call :
      (payload : String) (id : ℕ) (address : String) (s : S)
      → machines (call_instance_function d.worker d.request_timeout payload id address s).1
        ≡ machines s

-- A running instance of its function can serve the request.
abbrev pub HasHost : List FuncInstance → Request → Type 0
HasHost machines req =
    (i : FuncInstance) × Memᴰ i (select (is_running req.function_name) machines) × CanServe req i

pub perm-nil {ℓ} : {A : Type ℓ} {xs ys : List A} → Permᴰ xs ys → ys ≡ [] → xs ≡ []
perm-nil Permᴰ.nil e = refl
perm-nil (Permᴰ.cons same p) e = cc
perm-nil (Permᴰ.swap same same') e = cc
perm-nil (Permᴰ.trans p q) e = perm-nil p (perm-nil q e)

Option-cases {ℓ} : {A : Type ℓ} (o : Option A) → o ≢ none → (a : A) × (o ≡ some a)
Option-cases none h = absurd (h refl)
Option-cases (some a) h = (a, refl)

module _ {F S : Type 0} (d : Deployment F S) (is_base : d.scheduler ≡ base_schedule d.float)
    (visits : (m : StatMap F) → Permᴰ (d.visit m) m) {Others : S → S → Type 0}
    {requests : S → List ReqScheduleInfo} {machines : S → List FuncInstance}
    (exclusive : IsExclusive d Others requests machines)
    (responsive : IsResponsive d machines) where
  open exclusive use {store, others_keep, next_id_keeps, call_keeps}
  open responsive use {
    finds_machines, finds_requests, saves, deletes, machines_find, machines_infos, machines_save,
    machines_delete, machines_call,
  }

  choice-exists :
      (req : Request) (s : S) (found : List FuncInstance)
      → Permᴰ found (select (is_running req.function_name) (machines s))
      → IsNamed (machines s)
      → HasHost (machines s) req
      → (chosen : ReqScheduleInfo) × (d.scheduler req [] (d.visit (fill_stats d.float found []))
          ≡ some chosen)
  choice-exists req s found read named (i, listed, able) =
      let listed_in = λ (j : FuncInstance) (k : Memᴰ j found).
        (mem_of_mem-select (is_running req.function_name) (machines s) (mem-perm read k)).0 in
      Option-cases (d.scheduler req [] (d.visit (fill_stats d.float found []))) λ refused.
        base_schedule-serves d.float d.visit visits req found
          (λ j k at at' same. named j k (listed_in j at) (listed_in k at') same)
          (mem-perm (Permᴰ.symm read) listed) able
          (ap (λ f. f req [] (d.visit (fill_stats d.float found []))) (sym is_base) ∙ refused)

  -- The request is placed when nothing is.
  place_request-succeeds :
      (req : Request) (s : S)
      → requests s ≡ []
      → IsNamed (machines s)
      → HasHost (machines s) req
      → (chosen : ReqScheduleInfo) × ((place_request d.float d.db d.scheduler d.visit req s).0
          ≡ ok chosen)
        × (machines (place_request d.float d.db d.scheduler d.visit req s).1 ≡ machines s)
  unfolding place_request get_func_instance_by_condition get_req_schedule_info_by_function_name
      update_req_schedule_info convert_to_req_schedule_info convert_to_storage_req_schedule_info
  place_request-succeeds req s none_placed named host =
      let c : Condition =
        ("function_name", text req.function_name) ∷ ("last_status", text "RUNNING") ∷ [] in
      let c' : Condition = ("function_name", text req.function_name) ∷ [] in
      let (found, e) = finds_machines c s in
      let s1 = (d.db.func_instance.find c s).1 in
      let (rows, e') = finds_requests c' s1 in
      let s2 = (d.db.req_schedule_info.find c' s1).1 in
      let none_read : map to_req_schedule_info rows ≡ [] =
        perm-nil (store.request_table.find_ok c' s1 rows e') (
          ap (select (for_function req.function_name))
            (store.find_machines_keeps c s ∙ none_placed)) in
      let (chosen, choice) =
        choice-exists req s found (store.find_machines c s found e) named host in
      let row = convert_to_storage_req_schedule_info (new_req_schedule_info d.float req chosen) in
      rw (e, e', none_read, choice, saves row s2 refl)
        (chosen, refl, machines_save row s2 ∙ machines_infos c' s1 ∙ machines_find c s)

  finish-ok :
      (req : Request) (q : ReqQueue) (x : Result ReqScheduleInfo × S) {chosen : ReqScheduleInfo}
      → x.0 ≡ ok chosen
      → finish d.float d.db d.scheduler d.visit req q x
        ≡ (some (req, chosen.placed_ins_ipv4), pop q, x.1)
  finish-ok req q (ok chosen', s) {chosen} e = let same : chosen' ≡ chosen = cc in rw same refl
  finish-ok req q (err m, s) e = absurd (cc)

  -- So does one run of `Schedule`.
  pub schedule-serves :
      (q : ReqQueue) (s : S) {req : Request}
      → peek q ≡ some req
      → requests s ≡ []
      → IsNamed (machines s)
      → HasHost (machines s) req
      → let t = schedule d.float d.db d.scheduler d.visit q s in
        (address : String) × (t.0 ≡ some (req, address))
        × (t.1 ≡ pop q)
        × (machines t.2 ≡ machines s)
  unfolding schedule
  schedule-serves q s {req} front none_placed named host =
      let (chosen, placed, same) = place_request-succeeds req s none_placed named host in
      rw (front, finish-ok req q (place_request d.float d.db d.scheduler d.visit req s) placed)
        (chosen.placed_ins_ipv4, refl, refl, same)
