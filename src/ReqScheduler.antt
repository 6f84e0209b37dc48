-- ===== src/ReqScheduler.antt =====
-- pkg/reqscheduler/reqscheduler.go: the scheduling loop, the submission of calls with retries, and
-- the call of a worker. The state `S` stands for the database and all else outside the process.
-- A goroutine that `Schedule` starts is returned to the caller. Logging is left out.
pub mod Handover
pub mod StatMaps
pub mod Capacity
pub mod Retry
pub mod Release
pub mod System
pub mod Interleaved
use Prim.Native.String.{◌++◌}
use pixels_spike.Base.{
  ℕ, suc, zero, ◌+◌, List, [], ◌∷◌, map, Option, none, some, Bool, true, false, String, Result, ok,
  err, Action, pure, fail, continue, ◌>>=◌, ◌>>◌, attempt, if◌then◌else◌,
}
use pixels_spike.Base.Float.{FloatOps}
use pixels_spike.Base.Int.{ℤ, pos, pos_part, ◌-ℤ◌, leb_ℤ}
use pixels_spike.Base.Keys.{Key, ◌==◌, insert, string_keys}
use pixels_spike.Model
use pixels_spike.Model.{FuncInstance, zero_model}
use pixels_spike.ReqQueue.{Request, ReqQueue, peek, pop, push}
use pixels_spike.Scheduler.{
  InstanceStat, ReqScheduleInfo, StatMap, Scheduler, base_schedule, one_task_schedule,
}
use pixels_spike.Storage.{
  Gorm, text, get_func_instance_by_condition, get_req_schedule_info_by_function_name,
  update_req_schedule_info, delete_req_schedule_info, delete_all_req_schedule_info,
}

pub record Response : Type 0 where
  pub response_payload : String
  pub error : Option String

-- `NewReqScheduler`: the placement algorithm that the configuration names.
unfoldable pub choose_scheduler : {F : Type 0} → FloatOps F → (ℕ → ℕ) → String → Scheduler F
choose_scheduler float intn scheduler_type =
    if scheduler_type == "one_task_per_node" then one_task_schedule intn else base_schedule float

abbrev pub to_req_schedule_info : Model.ReqScheduleInfo → ReqScheduleInfo
to_req_schedule_info info = record {
  req_id = info.req_id;
  req_payload = info.req_payload;
  function_name = info.function_name;
  placed_aws_service_name = info.placed_aws_service_name;
  placed_ins_ipv4 = info.placed_ins_ipv4;
  required_cpu = info.required_cpu;
  required_memory = info.required_memory;
}

unfoldable pub convert_to_req_schedule_info : List Model.ReqScheduleInfo → List ReqScheduleInfo
convert_to_req_schedule_info infos = map to_req_schedule_info infos

unfoldable pub convert_to_storage_req_schedule_info : ReqScheduleInfo → Model.ReqScheduleInfo
convert_to_storage_req_schedule_info info = record {
  model = zero_model;
  req_id = info.req_id;
  req_payload = info.req_payload;
  function_name = info.function_name;
  placed_aws_service_name = info.placed_aws_service_name;
  placed_ins_ipv4 = info.placed_ins_ipv4;
  required_cpu = info.required_cpu;
  required_memory = info.required_memory;
}

module _ {F : Type 0} (float : FloatOps F) where
  abbrev pub instance_stat : FuncInstance → InstanceStat F
  instance_stat i = record {
    aws_service_name = i.aws_service_name;
    ipv4 = i.ipv4;
    cpu = i.cpu;
    memory = i.memory;
    cpu_used = pos 0;
    memory_used = pos 0;
    cpu_usage_rate = float.of_int (pos 0);
    memory_usage_rate = float.of_int (pos 0);
    avg_usage_rate = float.of_int (pos 0);
  }

  -- Step 4 of `Schedule`: the loop that fills `insStatMap`.
  pub fill_stats : List FuncInstance → StatMap F → StatMap F
  fill_stats [] m = m
  fill_stats (i ∷ rest) m = fill_stats rest (insert i.aws_service_name (instance_stat i) m)

  abbrev require : Option ReqScheduleInfo → Result ReqScheduleInfo
  require none = err "no available instance to handle request"
  require (some chosen) = ok chosen

  -- Step 6: what is recorded of the placed request.
  abbrev pub new_req_schedule_info : Request → ReqScheduleInfo → ReqScheduleInfo
  new_req_schedule_info req chosen = record {
    req_id = req.request_id;
    req_payload = req.req_payload;
    function_name = req.function_name;
    placed_aws_service_name = chosen.placed_aws_service_name;
    placed_ins_ipv4 = chosen.placed_ins_ipv4;
    required_cpu = req.required_cpu;
    required_memory = req.required_memory;
  }

  -- `visit` is the order in which `range` meets the entries of the map.
  module _ {S : Type 0} (db : Gorm S) (scheduler : Scheduler F)
      (visit : StatMap F → StatMap F) where
    -- Steps 2 to 6 of `Schedule` up to the change of the queue; an error ends it early.
    pub place_request : Request → Action S ReqScheduleInfo
    unfolding get_func_instance_by_condition get_req_schedule_info_by_function_name
        update_req_schedule_info
    place_request req = do
      instances ←
          get_func_instance_by_condition db
            (("function_name", text req.function_name) ∷ ("last_status", text "RUNNING") ∷ [])
      infos ← get_req_schedule_info_by_function_name db req.function_name
      chosen ← (λ s. (
        require
            (scheduler req (convert_to_req_schedule_info infos) (visit (fill_stats instances []))),
        s,
      ))
      update_req_schedule_info db
          (convert_to_storage_req_schedule_info (new_req_schedule_info req chosen))
      pure chosen

    abbrev pub finish :
        Request → ReqQueue → Result ReqScheduleInfo × S → Option (Request × String) × ReqQueue × S
    finish req q (ok chosen, s) = (some (req, chosen.placed_ins_ipv4), pop q, s)
    finish req q (err e, s) = (none, q, s)

    abbrev pub schedule_front :
        Option Request → ReqQueue → S → Option (Request × String) × ReqQueue × S
    schedule_front none q s = (none, q, s)
    schedule_front (some req) q s = finish req q (place_request req s)

    -- `Schedule`: the request and the address for which it starts a goroutine, if it does.
    unfoldable pub schedule : ReqQueue → S → Option (Request × String) × ReqQueue × S
    unfolding place_request fill_stats
    schedule q s = schedule_front (peek q) q s

-- The message `api.CallFunctionRequest`, and the reply.
pub record CallFunctionRequest : Type 0 where
  pub function_name : String
  pub payload : String
  pub cpu : ℤ
  pub memory : ℤ

pub record CallFunctionResponse : Type 0 where
  pub error_code : ℤ
  pub payload : String

abbrev pub to_request : CallFunctionRequest → ℕ → ℕ → Request
to_request req req_id resp_chan = record {
  function_name = req.function_name;
  request_id = req_id;
  req_payload = req.payload;
  required_cpu = req.cpu;
  required_memory = req.memory;
  resp_payload_chan = some resp_chan;
}

-- The queue beside the outside state.
abbrev pub World : Type 0 → Type 0
World S = ReqQueue × S

-- `next_id` draws a request number.
module _ {S : Type 0} (next_id : Action S ℕ) where
  abbrev enqueue : CallFunctionRequest → ℕ → ReqQueue → Result ℕ × S → Result (Unit {0}) × World S
  enqueue req resp_chan q (ok req_id, s) = (ok tt, (push (to_request req req_id resp_chan) q, s))
  enqueue req resp_chan q (err e, s) = (err e, (q, s))

  -- `SubmitRequest`; the trigger on `triggerCh` lets the scheduling loop run.
  unfoldable pub submit_request : CallFunctionRequest → ℕ → Action (World S) (Unit {0})
  submit_request req resp_chan (q, s) = enqueue req resp_chan q (next_id s)

  -- `receive` is what happens until a response comes on the channel: the scheduling loop, the
  -- workers and the other calls run.
  module _ (receive : ℕ → World S → Response × World S) (max_retry : ℤ) (req : CallFunctionRequest)
      (resp_chan : ℕ) where
    abbrev is_last : ℕ → Bool
    is_last i = leb_ℤ (max_retry -ℤ pos 1) (pos i)

    -- Step 2 of the loop's body; `rest` is the next round.
    abbrev check_response :
        ℕ
        → (World S → Result CallFunctionResponse × World S)
        → Response × World S
        → Result CallFunctionResponse × World S
    check_response i rest (resp, w) = elim resp.error [
      | some e ↦ let next = rest w in if is_last i then (err e, w) else next
      | none ↦ (ok (record { error_code = pos 0; payload = resp.response_payload }), w)
    ]

    abbrev check_submit :
        ℕ
        → (World S → Result CallFunctionResponse × World S)
        → Result (Unit {0}) × World S
        → Result CallFunctionResponse × World S
    check_submit i rest (err e, w) = let next = rest w in if is_last i then (err e, w) else next
    check_submit i rest (ok u, w) = check_response i rest (receive resp_chan w)

    -- The loop over `i`, with the rounds that are left.
    pub call_loop : ℕ → ℕ → Action (World S) CallFunctionResponse
    call_loop zero i w = (err "call function failed", w)
    call_loop (suc rounds) i w =
        check_submit i (call_loop rounds (suc i)) (submit_request req resp_chan w)

    -- `CallFunction`; `resp_chan` is the channel that it makes.
    unfoldable pub call_function : Action (World S) CallFunctionResponse
    unfolding call_loop
    call_function = call_loop (pos_part max_retry) 0

-- What the code asks of gRPC: a connection, a call on it and its end. The call carries the time
-- limit, in seconds.
pub record WorkerClient (S : Type 0) : Type 1 where
  pub Conn : Type 0
  pub new_client : String → Action S Conn
  pub call_worker_function : Conn → ℕ → String → ℕ → Action S String
  pub close : Conn → S → S

module _ {S : Type 0} (worker : WorkerClient S) (request_timeout : ℕ) where
  open worker use {Conn, new_client, call_worker_function, close}

  abbrev closing : {A : Type 0} → Conn → Result A × S → Result A × S
  closing conn (r, s) = (r, close conn s)

  -- `CallInstanceFunction`.
  unfoldable pub call_instance_function : String → ℕ → String → Action S String
  call_instance_function req_payload req_id instance_ipv4 = do
    conn ← new_client (instance_ipv4 ++ ":50052")
    (λ s. closing conn (call_worker_function conn request_timeout req_payload req_id s))

  abbrev to_response : Result String → Response
  to_response (ok payload) = record { response_payload = payload; error = none }
  to_response (err e) = record { response_payload = ""; error = some e }

  -- `CallInstanceFunctionRoutine`: the response that it sends, and the state it leaves.
  unfoldable pub call_instance_function_routine : Gorm S → Request → String → S → Response × S
  unfolding call_instance_function delete_req_schedule_info
  call_instance_function_routine db req instance_ipv4 s =
      let (r, s') = call_instance_function req.req_payload req.request_id instance_ipv4 s in
      let (deleted, s'') = delete_req_schedule_info db req.request_id s' in (to_response r, s'')

module _ {S : Type 0} (db : Gorm S) where
  unfoldable pub get_req_schedule_info : String → Action S (List ReqScheduleInfo)
  unfolding get_req_schedule_info_by_function_name
  get_req_schedule_info function_name = do
    infos ← get_req_schedule_info_by_function_name db function_name
    pure (convert_to_req_schedule_info infos)

  unfoldable pub clean_req_schedule_info : Action S (Unit {0})
  unfolding delete_all_req_schedule_info
  clean_req_schedule_info = delete_all_req_schedule_info db
