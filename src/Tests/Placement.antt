-- ===== src/Tests/Placement.antt =====
-- The queue, the launch types and the placement algorithms on small inputs.
use pixels_spike.Base.{
  ℕ, ◌≡◌, ◌≢◌, ◌↔◌, refl, List, [], ◌∷◌, ◌++◌, map, none, some, String, Result, ok, err, arith, All,
  Memᴰ,
}
use pixels_spike.Base.Int.{pos, ◌+ℤ◌, wrap32, add32}
use pixels_spike.Base.Keys.{lookup, update, string_keys}
use pixels_spike.Constants.{InstanceType, DriverValue, scan, value, to_string, unmarshal_yaml}
use pixels_spike.Constants.RoundTrip.{scan-value, value-scan, un_know-unstorable}
use pixels_spike.ReqQueue.{Request, ReqQueue, get_stat}
use pixels_spike.ReqQueue.Fifo.{Op, run, taken, pushed, taken-append-run}
use pixels_spike.ReqQueue.Stats.{get_stat-stat_of}
use pixels_spike.Scheduler.{
  InstanceStat, ReqScheduleInfo, StatMap, place, account, base_schedule, one_task_schedule,
}
use pixels_spike.Scheduler.Usage.{IsMap, IsFresh, entry_usage, account-with_usage}
use pixels_spike.Scheduler.BestFit.{
  CanHold, NoOverflow, IsSized, IsBefore, base_schedule-none, base_schedule-best,
}
use pixels_spike.Scheduler.OneTask.{
  IsFree, IsFreeChoice, one_task_schedule-free, one_task_schedule-none,
}
use text.Mathlib.TextEquality.{eq_iff}
use pixels_spike.Tests.Floats.{Fraction, fractions, fractions-DivisionKeepsOrder}

abbrev pub request : String → ℕ → ℕ → Request
request name id cpu = record {
  function_name = name;
  request_id = id;
  req_payload = "3";
  required_cpu = pos cpu;
  required_memory = pos cpu;
  resp_payload_chan = some id;
}

abbrev two_waiting : ReqQueue
two_waiting = record { qu = request "f" 1 4 ∷ request "g" 2 6 ∷ [] }

scan-value_example :
    (scan (DriverValue.text "EC2") ≡ ok InstanceType.ec2)
    × (scan (DriverValue.bytes "EC2") ≡ ok InstanceType.ec2)
    × (to_string InstanceType.ec2 ≡ "EC2")
unfolding value
scan-value_example = scan-value InstanceType.ec2 "EC2" refl

value-scan_example :
    (value InstanceType.fargate ≡ ok (DriverValue.text "Fargate"))
    × (unmarshal_yaml (ok "Fargate") ≡ ok InstanceType.fargate)
unfolding scan lookup
value-scan_example = value-scan InstanceType.fargate "Fargate" refl

un_know-unstorable_example :
    ((value InstanceType.ec2 ≡ err "invalid InstanceType value")
      ↔ (InstanceType.ec2 ≡ InstanceType.un_know))
    × ((v : DriverValue) → scan v ≢ ok InstanceType.un_know)
    × ((r : Result String) → unmarshal_yaml r ≢ ok InstanceType.un_know)
un_know-unstorable_example = un_know-unstorable InstanceType.ec2

abbrev history : List Op
history = Op.pops ∷ Op.pushes (request "f" 3 1) ∷ Op.pops ∷ []

taken-append-run_example :
    taken history two_waiting ++ (run history two_waiting).qu
    ≡ request "f" 1 4 ∷ request "g" 2 6 ∷ request "f" 3 1 ∷ []
unfolding pushed
taken-append-run_example = taken-append-run history two_waiting

get_stat-stat_of_example :
    lookup "g" (get_stat two_waiting)
    ≡ some (record {
      function_name = "g";
      cpu_max = pos 6;
      memory_max = pos 6;
      cpu_sum = pos 6;
      memory_sum = pos 6;
    })
unfolding wrap32 ◌+ℤ◌
get_stat-stat_of_example = get_stat-stat_of two_waiting "g"

abbrev instance_of : String → ℕ → String × InstanceStat Fraction
instance_of name cpu = (
  name,
  record {
    aws_service_name = name;
    ipv4 = "10.0.0.1";
    cpu = pos cpu;
    memory = pos 100;
    cpu_used = pos 0;
    memory_used = pos 0;
    cpu_usage_rate = Fraction.frac (pos 0) 1;
    memory_usage_rate = Fraction.frac (pos 0) 1;
    avg_usage_rate = Fraction.frac (pos 0) 1;
  },
)

abbrev instances : StatMap Fraction
instances = instance_of "big" 10 ∷ instance_of "small" 5 ∷ []

abbrev pub placement : String → ℕ → ReqScheduleInfo
placement name cpu = record {
  req_id = 9;
  req_payload = "3";
  function_name = "f";
  placed_aws_service_name = name;
  placed_ins_ipv4 = "10.0.0.1";
  required_cpu = pos cpu;
  required_memory = pos 1;
}

abbrev placements : List ReqScheduleInfo
placements = placement "big" 2 ∷ placement "gone" 7 ∷ []

instances-IsMap : IsMap instances
instances-IsMap = (((λ same. absurd (cc ((eq_iff "small" "big").1 same))), tt), (tt, tt))

instances-IsFresh : All IsFresh instances
instances-IsFresh = (
  record { named = refl; no_cpu = refl; no_memory = refl },
  (record { named = refl; no_cpu = refl; no_memory = refl }, tt),
)

account-with_usage_example : account placements instances ≡ map (entry_usage placements) instances
account-with_usage_example =
    account-with_usage placements instances instances-IsMap instances-IsFresh

-- Both placements need CPU and memory that no sum of theirs takes out of range.
in_range : NoOverflow (request "f" 1 4) placements
unfolding ◌+ℤ◌
in_range = record {
  cpu = λ name. record { above = ground arith; below = ground arith };
  cpu_total = λ name. record { above = ground arith; below = ground arith };
  memory_total = λ name. record { above = ground arith; below = ground arith };
}

fractions-IsSized : All IsSized instances
fractions-IsSized = (
  record { positive = omega arith; int32 = record { above = omega arith; below = omega arith } },
  (
    record { positive = omega arith; int32 = record { above = omega arith; below = omega arith } },
    tt,
  ),
)

chosen_small :
    base_schedule fractions (request "f" 1 4) placements instances
    ≡ some (place (request "f" 1 4) (instance_of "small" 5).1)
unfolding base_schedule update add32 wrap32 ◌+ℤ◌
chosen_small = refl

base_schedule-best_example :
    (e : String × InstanceStat Fraction) × Memᴰ e instances
    × (place (request "f" 1 4) (instance_of "small" 5).1 ≡ place (request "f" 1 4) e.1)
    × CanHold (request "f" 1 4) placements e
    × ((d : String × InstanceStat Fraction)
        → Memᴰ d instances
        → CanHold (request "f" 1 4) placements d
        → ¬ IsBefore placements d e)
base_schedule-best_example =
    base_schedule-best fractions (request "f" 1 4) placements instances instances-IsMap
      instances-IsFresh in_range fractions-DivisionKeepsOrder fractions-IsSized
      (place (request "f" 1 4) (instance_of "small" 5).1) chosen_small

base_schedule-none_example :
    (base_schedule fractions (request "f" 1 4) placements instances ≡ none) ↔ (
      (e : String × InstanceStat Fraction)
      → Memᴰ e instances
      → ¬ CanHold (request "f" 1 4) placements e)
base_schedule-none_example =
    base_schedule-none fractions (request "f" 1 4) placements instances instances-IsMap
      instances-IsFresh in_range

-- The random choice takes the first of the free instances.
abbrev first_choice : ℕ → ℕ
first_choice n = 0

chosen_free :
    one_task_schedule first_choice (request "f" 1 4) placements instances
    ≡ some (place (request "f" 1 4) (instance_of "small" 5).1)
unfolding one_task_schedule
chosen_free = refl

one_task_schedule-free_example :
    IsFreeChoice first_choice
      (request "f" 1 4)
      placements
      instances
      (place (request "f" 1 4) (instance_of "small" 5).1)
one_task_schedule-free_example =
    one_task_schedule-free first_choice (request "f" 1 4) placements instances
      (place (request "f" 1 4) (instance_of "small" 5).1) chosen_free

one_task_schedule-none_example :
    (one_task_schedule first_choice (request "f" 1 4) placements instances ≡ none) ↔ (
      (e : String × InstanceStat Fraction)
      → Memᴰ e instances
      → ¬ IsFree (request "f" 1 4) placements e.1)
one_task_schedule-none_example =
    one_task_schedule-none first_choice (request "f" 1 4) placements instances (λ n. omega arith)
