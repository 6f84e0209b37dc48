-- ===== src/ReqScheduler/System.antt =====
-- pkg/reqscheduler/reqscheduler.go: the request path as a step relation. Calls are submitted, the
-- scheduling loop runs, calls of workers end, and other parts of the process and of the outside act,
-- in any order. The goroutines that `Schedule` starts are kept until they end.
pub mod Conservation
pub mod Placements
pub mod Serve
pub mod Sums
pub mod Fleet
pub mod Capped
pub mod Rescale
pub mod Safe
pub mod Capacity
pub mod Respond
pub mod Drain
use pixels_spike.Base.{
  ℕ, ◌≡◌, ◌≢◌, List, [], ◌∷◌, ◌++◌, map, Option, none, some, Bool, String, Result, ok, err, Action,
  All,
}
use pixels_spike.Base.Float.{FloatOps}
use pixels_spike.Model.{FuncInstance}
use pixels_spike.ReqQueue.{Request, ReqQueue, new_req_queue}
use pixels_spike.Scheduler.{ReqScheduleInfo, Scheduler, StatMap}
use pixels_spike.Storage.{Gorm}
use pixels_spike.ReqScheduler.{
  Response, WorkerClient, CallFunctionRequest, to_request, submit_request, schedule,
  call_instance_function, call_instance_function_routine,
}
use pixels_spike.ReqScheduler.Handover.{ScheduleStore}

-- The configured fields of the scheduler, and what it runs on; `visit` is the order in which a map is
-- visited, one for a deployment.
pub record Deployment (F S : Type 0) : Type 1 where
  pub float : FloatOps F
  pub db : Gorm S
  pub scheduler : Scheduler F
  pub visit : StatMap F → StatMap F
  pub next_id : Action S ℕ
  pub worker : WorkerClient S
  pub request_timeout : ℕ

-- `running` are the calls in flight with their addresses, `answered` the responses that were sent,
-- and `submitted` all requests that were ever put on the queue.
pub record System (S : Type 0) : Type 0 where
  pub queue : ReqQueue
  pub running : List (Request × String)
  pub answered : List (Request × Response)
  pub submitted : List Request
  pub outside : S

abbrev pub start_of : {S : Type 0} → S → System S
start_of s = record {
  queue = new_req_queue;
  running = [];
  answered = [];
  submitted = [];
  outside = s;
}

-- `go r.CallInstanceFunctionRoutine(req, ip)`.
abbrev pub launch : Option (Request × String) → List (Request × String) → List (Request × String)
launch none running = running
launch (some call) running = call ∷ running

module _ {F S : Type 0} (d : Deployment F S) where
  abbrev pub after_submit : System S → CallFunctionRequest → ℕ → List Request → System S
  after_submit t req resp_chan submitted =
      let (r, w) = submit_request d.next_id req resp_chan (t.queue, t.outside) in
      record t { queue = w.0; submitted = submitted; outside = w.1 }

  abbrev pub after_schedule : System S → System S
  after_schedule t =
      let (started, q, s) = schedule d.float d.db d.scheduler d.visit t.queue t.outside in
      record t { queue = q; running = launch started t.running; outside = s }

  -- The end of a call: the response is sent and the placement is deleted, in one step.
  abbrev pub after_answer :
      System S → List (Request × String) → Request → String → List (Request × String) → System S
  after_answer t before req address later =
      let (resp, s) =
        call_instance_function_routine d.worker d.request_timeout d.db req address t.outside in
      record t { running = before ++ later; answered = (req, resp) ∷ t.answered; outside = s }

  -- `Others s s'` says that the rest of the process, the cluster or the clock may turn `s` into
  -- `s'`. A request number that is drawn is new.
  pub data Step (Others : S → S → Type 0) (t u : System S) : Type 0 where
    submit :
        (req : CallFunctionRequest) (resp_chan id : ℕ)
        → (d.next_id t.outside).0 ≡ ok id
        → All (λ r. r.request_id ≢ id) t.submitted
        → u ≡ after_submit t req resp_chan (to_request req id resp_chan ∷ t.submitted)
        → Step Others t u
    refuse :
        (req : CallFunctionRequest) (resp_chan : ℕ) (e : String)
        → (d.next_id t.outside).0 ≡ err e
        → u ≡ after_submit t req resp_chan t.submitted
        → Step Others t u
    place : u ≡ after_schedule t → Step Others t u
    answer :
        (before : List (Request × String)) (req : Request) (address : String)
        (later : List (Request × String))
        → t.running ≡ before ++ ((req, address) ∷ later)
        → u ≡ after_answer t before req address later
        → Step Others t u
    act : (s : S) → Others t.outside s → u ≡ record t { outside = s } → Step Others t u

  pub data Reach (Others : S → S → Type 0) (t : System S) : System S → Type 0 where
    here : Reach Others t t
    next : {u v : System S} → Reach Others t u → Step Others u v → Reach Others t v

  -- What else touches the table of placements: nothing. Only the scheduler has it, and the call of
  -- a worker, the drawing of a number and the others leave it alone.
  pub record IsExclusive (Others : S → S → Type 0) (requests : S → List ReqScheduleInfo)
      (machines : S → List FuncInstance) : Type 0 where
    pub store : ScheduleStore d.db requests machines
    pub others_keep : (s s' : S) → Others s s' → requests s' ≡ requests s
    pub next_id_keeps : (s : S) → requests (d.next_id s).1 ≡ requests s
    pub call_keeps :
        (payload : String) (id : ℕ) (address : String) (s : S)
        → requests (call_instance_function d.worker d.request_timeout payload id address s).1
          ≡ requests s
