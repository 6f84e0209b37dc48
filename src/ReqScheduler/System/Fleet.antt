-- ===== src/ReqScheduler/System/Fleet.antt =====
-- pkg/reqscheduler/reqscheduler.go: the instances while requests are placed.
use pixels_spike.Base.{
  ◌^◌, ◌-◌, ◌≡◌, ◌≢◌, refl, ◌∙◌, ◌⊎◌, List, All, Memᴰ, Option, none, some, String, ℕ, Result, ok,
  err, Action, continue, ◌>>=◌,
}
use pixels_spike.Base.Int.{ℤ, pos, ◌≤ℤ◌}
use pixels_spike.Model
use pixels_spike.Model.{FuncInstance}
use pixels_spike.ReqQueue.{Request, ReqQueue, peek}
use pixels_spike.Scheduler.{ReqScheduleInfo}
use pixels_spike.Storage.{
  Condition, delete_req_schedule_info, get_func_instance_by_condition,
  get_req_schedule_info_by_function_name, update_req_schedule_info,
}
use pixels_spike.ReqScheduler.{
  finish, require, schedule_front, place_request, schedule, call_instance_function,
  call_instance_function_routine,
}
use pixels_spike.ReqScheduler.System.{Deployment}
use pixels_spike.ReqScheduler.System.Serve.{IsNamed}

-- Half of the range of int32 above zero: sums of two such values do not wrap around.
abbrev pub limit : ℤ
limit = pos (2 ^ 30 - 1)

abbrev pub IsModest : ℤ → Type 0
IsModest z = (pos 0 ≤ℤ z) × (z ≤ℤ limit)

-- The instance is one of these, or a smaller one of the same name and function is.
abbrev pub GrewFrom : FuncInstance → List FuncInstance → Type 0
GrewFrom i machines =
    (j : FuncInstance) × Memᴰ j machines
    × (j.aws_service_name ≡ i.aws_service_name)
    × (j.function_name ≡ i.function_name)
    × (j.cpu ≤ℤ i.cpu)
    × (j.memory ≤ℤ i.memory)

-- Sizes are below half of the range of int32.
abbrev pub IsSized : List FuncInstance → Type 0
IsSized machines = (i : FuncInstance) → Memᴰ i machines → IsModest i.cpu × IsModest i.memory

-- What is taken of the table of instances. The path of requests leaves it alone. What others do
-- keeps the names apart and the sizes modest, adds an instance only while nothing is placed under
-- its name, and does not shrink one.
pub record IsFleet {F S : Type 0} (d : Deployment F S) (Others : S → S → Type 0)
    (requests : S → List ReqScheduleInfo) (machines : S → List FuncInstance) : Type 0 where
  pub others_named : (s s' : S) → Others s s' → IsNamed (machines s')
  pub others_sized : (s s' : S) → Others s s' → IsSized (machines s')
  pub others_add :
      (s s' : S)
      → Others s s'
      → (i : FuncInstance) → Memᴰ i (machines s')
      → GrewFrom i (machines s)
        ⊎ All (λ v. v.placed_aws_service_name ≢ i.aws_service_name) (requests s)
  pub keeps_id : (s : S) → machines (d.next_id s).1 ≡ machines s
  pub keeps_find : (c : Condition) (s : S) → machines (d.db.func_instance.find c s).1 ≡ machines s
  pub keeps_infos :
      (c : Condition) (s : S) → machines (d.db.req_schedule_info.find c s).1 ≡ machines s
  pub keeps_save :
      (r : Model.ReqScheduleInfo) (s : S)
      → machines (d.db.req_schedule_info.save r s).1 ≡ machines s
  pub keeps_delete :
      (c : Condition) (s : S) → machines (d.db.req_schedule_info.delete c s).1 ≡ machines s
  pub keeps_call :
      (payload : String) (id : ℕ) (address : String) (s : S)
      → machines (call_instance_function d.worker d.request_timeout payload id address s).1
        ≡ machines s

-- An action leaves a view of the state alone.
record Leaves {S V A : Type 0} (view : S → V) (m : Action S A) : Type 0 where
  left : (s : S) → view (m s).1 ≡ view s

module _ {S V : Type 0} {view : S → V} where
  continue_left :
      {A B : Type 0} (x : Result A × S) (k : A → Action S B)
      → ((a : A) → Leaves view (k a))
      → view (continue x.0 k x.1).1 ≡ view x.1
  continue_left (ok a, s) k h = (h a).left s
  continue_left (err e, s) k h = refl

  >>=-Leaves :
      {A B : Type 0} {m : Action S A} {k : A → Action S B}
      → Leaves view m
      → ((a : A) → Leaves view (k a))
      → Leaves view (m >>= k)
  >>=-Leaves {m} {k} h h' = record { left = λ s. continue_left (m s) k h' ∙ h.left s }

module _ {F S : Type 0} (d : Deployment F S) {Others : S → S → Type 0}
    {requests : S → List ReqScheduleInfo} {machines : S → List FuncInstance}
    (fleet : IsFleet d Others requests machines) where
  open fleet use {keeps_find, keeps_infos, keeps_save, keeps_delete, keeps_call}

  find-Leaves : (c : Condition) → Leaves machines (get_func_instance_by_condition d.db c)
  unfolding get_func_instance_by_condition
  find-Leaves c = record { left = keeps_find c }

  infos-Leaves :
      (name : String) → Leaves machines (get_req_schedule_info_by_function_name d.db name)
  unfolding get_req_schedule_info_by_function_name
  infos-Leaves name = record { left = keeps_infos _ }

  require-Leaves :
      (o : Option ReqScheduleInfo)
      → Leaves {A = ReqScheduleInfo} machines (λ s. (require d.float o, s))
  require-Leaves o = record { left = λ s. refl }

  save-Leaves : (r : Model.ReqScheduleInfo) → Leaves machines (update_req_schedule_info d.db r)
  unfolding update_req_schedule_info
  save-Leaves r = record { left = keeps_save r }

  place_request-Leaves :
      (req : Request) → Leaves machines (place_request d.float d.db d.scheduler d.visit req)
  unfolding place_request
  place_request-Leaves req = >>=-Leaves (find-Leaves _) λ instances.
      >>=-Leaves (infos-Leaves req.function_name) λ infos.
        >>=-Leaves (require-Leaves _)
          λ chosen. >>=-Leaves (save-Leaves _) λ u. record { left = λ s. refl }

  pub schedule-keeps :
      (q : ReqQueue) (s : S)
      → machines (schedule d.float d.db d.scheduler d.visit q s).2 ≡ machines s
  unfolding schedule
  schedule-keeps q s = from_front (peek q)
    where
      ended :
          (req : Request) (x : Result ReqScheduleInfo × S)
          → machines (finish d.float d.db d.scheduler d.visit req q x).2 ≡ machines x.1
      ended req (ok chosen, t) = refl
      ended req (err e, t) = refl

      from_front :
          (o : Option Request)
          → machines (schedule_front d.float d.db d.scheduler d.visit o q s).2 ≡ machines s
      from_front none = refl
      from_front (some req) = ended req _ ∙ (place_request-Leaves req).left s

  pub routine-keeps :
      (req : Request) (address : String) (s : S)
      → machines (call_instance_function_routine d.worker d.request_timeout d.db req address s).1
        ≡ machines s
  unfolding call_instance_function_routine delete_req_schedule_info
  routine-keeps req address s =
      keeps_delete _ _ ∙ keeps_call req.req_payload req.request_id address s
