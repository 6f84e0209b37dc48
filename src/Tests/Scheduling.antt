-- ===== src/Tests/Scheduling.antt =====
-- The scheduling loop and the calls with retries on a database in memory.
use mathlib.Core.List.Permᴰ
use mathlib.Core.List.{Permᴰ}
use pixels_spike.Base.{
  All, ℕ, suc, ◌≡◌, ◌≢◌, ◌⊎◌, refl, List, [], ◌∷◌, select, none, some, String, Result, ok, err,
  arith, Memᴰ, ltb, if◌then◌else◌,
}
use pixels_spike.Base.Int.{pos, ◌+ℤ◌, wrap32, add32}
use pixels_spike.Base.Keys.{lookup, insert, update}
use pixels_spike.Constants.{InstanceType}
use pixels_spike.Model.{FuncInstance, zero_model}
use pixels_spike.ReqQueue.{ReqQueue, peek, push, pop}
use pixels_spike.Scheduler.{ReqScheduleInfo, base_schedule, StatMap}
use pixels_spike.Scheduler.BestFit.{NoOverflow}
use pixels_spike.Scheduler.Usage.{placed_cpu, placed_memory}
use pixels_spike.ReqScheduler.{
  WorkerClient, call_instance_function, call_instance_function_routine, Response,
  CallFunctionRequest, World, schedule, call_function, submit_request, convert_to_req_schedule_info,
}
use pixels_spike.ReqScheduler.Handover.{IsIdle, IsHandover, schedule-IsHandover, is_running}
use pixels_spike.ReqScheduler.Capacity.{IsWithin, recorded_for, schedule-IsWithin_capacity}
use pixels_spike.ReqScheduler.Release.{schedule-routine-perm}
use pixels_spike.Storage.{delete_req_schedule_info}
use pixels_spike.ReqScheduler.Retry.{after, call_function-first_success, call_function-AllFail}
use pixels_spike.ReqScheduler.Interleaved.{push_all, schedule_while, schedule_while-push_all}
use pixels_spike.Tests.Floats.{Fraction, fractions}
use pixels_spike.Tests.Placement.{request, placement}
use pixels_spike.Tests.Store.{Memory, memory_db, memory-ScheduleStore}

abbrev pub machine : String → String → FuncInstance
machine name ipv4 = record {
  model = zero_model;
  aws_service_name = name;
  aws_task_arn = "arn";
  function_name = "f";
  ipv4 = ipv4;
  cpu = pos 8;
  memory = pos 8;
  aws_family = "family";
  aws_revision = pos 1;
  last_status = "RUNNING";
  desired_status = "RUNNING";
  launch_type = InstanceType.ec2;
}

-- One instance with a placement on it, and another that is idle.
abbrev memory : Memory
memory = record {
  requests = placement "one" 6 ∷ [];
  machines = machine "one" "10.0.0.1" ∷ machine "two" "10.0.0.2" ∷ [];
}

abbrev waiting : ReqQueue
waiting = record { qu = request "f" 1 4 ∷ request "f" 2 4 ∷ [] }

abbrev pub same_order : StatMap Fraction → StatMap Fraction
same_order m = m

pub same_order-perm : (m : StatMap Fraction) → Permᴰ (same_order m) m
same_order-perm m = Permᴰ.refl m

schedule-IsHandover_example :
    IsIdle fractions memory_db
      (base_schedule fractions)
      same_order
      memory-ScheduleStore
      waiting
      memory
      (schedule fractions memory_db (base_schedule fractions) same_order waiting memory)
    ⊎ IsHandover fractions memory_db
        (base_schedule fractions)
        same_order
        memory-ScheduleStore
        waiting
        memory
        (schedule fractions memory_db (base_schedule fractions) same_order waiting memory)
schedule-IsHandover_example =
    schedule-IsHandover fractions memory_db (base_schedule fractions) same_order
      memory-ScheduleStore waiting memory

-- A third request is submitted while the first one is placed.
schedule_while-push_all_example :
    schedule_while fractions memory_db
      (base_schedule fractions)
      same_order
      (request "f" 3 4 ∷ [])
      waiting
      memory
    ≡ (let (started, q, s) =
          schedule fractions memory_db (base_schedule fractions) same_order waiting memory in
        (started, push_all (request "f" 3 4 ∷ []) q, s))
schedule_while-push_all_example =
    schedule_while-push_all fractions memory_db (base_schedule fractions) same_order
      (request "f" 3 4 ∷ []) waiting memory

-- The first instance has too little left, so the second one is called.
calls_two :
    (schedule fractions memory_db (base_schedule fractions) same_order waiting memory).0
    ≡ some (request "f" 1 4, "10.0.0.2")
unfolding schedule base_schedule lookup insert update add32 wrap32 ◌+ℤ◌ peek
    convert_to_req_schedule_info
calls_two = refl

in_range :
    NoOverflow
      (request "f" 1 4)
      (recorded_for fractions memory_db same_order same_order-perm memory-ScheduleStore "f" memory)
unfolding ◌+ℤ◌ lookup
in_range = record {
  cpu = λ name. record { above = ground arith; below = ground arith };
  cpu_total = λ name. record { above = ground arith; below = ground arith };
  memory_total = λ name. record { above = ground arith; below = ground arith };
}

abbrev after_schedule : Memory
after_schedule =
    (schedule fractions memory_db (base_schedule fractions) same_order waiting memory).2

abbrev recorded : String → Memory → List ReqScheduleInfo
recorded name m =
    recorded_for fractions memory_db same_order same_order-perm memory-ScheduleStore name m

schedule-IsWithin_capacity_example :
    (i : FuncInstance) × (peek waiting ≡ some (request "f" 1 4))
    × ("10.0.0.2" ≡ i.ipv4)
    × Memᴰ i (select (is_running "f") memory.machines)
    × IsWithin fractions memory_db same_order same_order-perm memory-ScheduleStore i "f"
        after_schedule
    × ((name : String)
        → name ≢ i.aws_service_name
        → (placed_cpu name (recorded "f" after_schedule) ≡ placed_cpu name (recorded "f" memory))
          × (placed_memory name (recorded "f" after_schedule)
              ≡ placed_memory name (recorded "f" memory)))
schedule-IsWithin_capacity_example =
    schedule-IsWithin_capacity fractions memory_db same_order same_order-perm memory-ScheduleStore
      waiting memory (request "f" 1 4) "10.0.0.2" in_range calls_two

-- A clock in place of the outside: request numbers and responses follow it.
abbrev next_id : ℕ → Result ℕ × ℕ
next_id n = (ok n, suc n)

abbrev refuse : Response
refuse = record { response_payload = ""; error = some "worker is gone" }

abbrev reply : Response
reply = record { response_payload = "5"; error = none }

-- The worker fails before a given time.
abbrev receive : ℕ → ℕ → World ℕ → Response × World ℕ
receive start chan (q, t) = (if ltb t start then refuse else reply, (pop q, t))

abbrev pub message : CallFunctionRequest
message = record { function_name = "f"; payload = "3"; cpu = pos 1; memory = pos 1 }

abbrev idle : World ℕ
idle = (record { qu = [] }, 0)

-- The second of at most three tries succeeds.
call_function-first_success_example : call_function next_id (receive 2) (pos 3) message 7 idle ≡ (
  ok (record { error_code = pos 0; payload = "5" }),
  after next_id (receive 2) message 7 2 idle,
)
unfolding submit_request push pop
call_function-first_success_example =
    call_function-first_success next_id (receive 2) message 7 (pos 3) 1 idle "5" (omega arith)
      (("worker is gone", refl), tt) refl

call_function-AllFail_example :
    call_function next_id (receive 9) (pos 2) message 7 idle
    ≡ (err "worker is gone", after next_id (receive 9) message 7 2 idle)
unfolding submit_request push pop
call_function-AllFail_example =
    call_function-AllFail next_id (receive 9) message 7 (pos 2) 1 idle "worker is gone" refl
      (("worker is gone", refl), tt) refl

abbrev pub test_worker : WorkerClient Memory
test_worker = record {
  Conn = Unit {0};
  new_client = λ address s. (ok tt, s);
  call_worker_function = λ conn timeout payload id s. (ok "5", s);
  close = λ conn s. s;
}

recorded_is_new : All (λ v. v.req_id ≢ 1) memory.requests
recorded_is_new = (λ h. absurd (omega arith), tt)

schedule-routine-perm_example :
    Permᴰ
      (call_instance_function_routine test_worker 30 memory_db
        (request "f" 1 4)
        "10.0.0.2"
        after_schedule).1.requests
      memory.requests
unfolding call_instance_function delete_req_schedule_info
schedule-routine-perm_example =
    schedule-routine-perm fractions memory_db (base_schedule fractions) same_order
      memory-ScheduleStore test_worker 30 waiting memory (request "f" 1 4) "10.0.0.2" calls_two
      recorded_is_new refl refl
