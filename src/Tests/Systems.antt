-- ===== src/Tests/Systems.antt =====
-- The request path on a database in memory.
mod Growing
use mathlib.Core.List.{Permᴰ}
use pixels_spike.Base.{◌≡◌, refl, [], ◌∷◌, map, All, ok, arith, Memᴰ}
use pixels_spike.Base.Distinct.{IsDistinct}
use pixels_spike.Base.Int.{◌+ℤ◌, wrap32, add32}
use pixels_spike.Base.Keys.{lookup, insert, update}
use pixels_spike.ReqQueue.{push, pop, peek}
use pixels_spike.Scheduler.{base_schedule}
use pixels_spike.Storage.{delete_req_schedule_info, get_req_schedule_info_by_function_name}
use pixels_spike.ReqScheduler
use pixels_spike.ReqScheduler.{
  schedule, submit_request, to_request, call_instance_function, call_instance_function_routine,
  convert_to_req_schedule_info,
}
use pixels_spike.ReqScheduler.System.{
  Deployment, System, Step, Reach, IsExclusive, start_of, after_submit, after_schedule,
}
use pixels_spike.ReqScheduler.System.Conservation.{id_of, known, Reach-IsKept}
use pixels_spike.ReqScheduler.System.Placements.{info_key, call_key, Reach-IsMatched}
use pixels_spike.ReqScheduler.System.Respond.{IsResponsive, HasHost}
use pixels_spike.ReqScheduler.System.Drain.{Quiet, Reach-drains}
use pixels_spike.ReqScheduler.System.Serve.{IsNamed}
use pixels_spike.ReqScheduler.System.Capacity.{Reach-Fits}
use pixels_spike.ReqScheduler.System.Capped.{Fits}
use pixels_spike.ReqScheduler.System.Fleet.{IsFleet, IsSized}
use pixels_spike.ReqScheduler.System.Safe.{NeedsModest}
use pixels_spike.ApiServer
use pixels_spike.ApiServer.{to_api_info}
use pixels_spike.ApiServer.Listing.{api_key, calls_of, get_req_schedule_info-in_flight}
use pixels_spike.Tests.Floats.{Fraction, fractions}
use pixels_spike.Tests.Scheduling.{machine, same_order, same_order-perm, message, test_worker}
use pixels_spike.Tests.Store.{Memory, memory_db, memory-ScheduleStore}

abbrev deployment : Deployment Fraction Memory
deployment = record {
  float = fractions;
  db = memory_db;
  scheduler = base_schedule fractions;
  visit = same_order;
  next_id = λ s. (ok 5, s);
  worker = test_worker;
  request_timeout = 600;
}

abbrev Keeps : Memory → Memory → Type 0
Keeps s s' = s'.requests ≡ s.requests

deployment-IsExclusive : IsExclusive deployment Keeps (λ s. s.requests) (λ s. s.machines)
unfolding call_instance_function
deployment-IsExclusive = record {
  store = memory-ScheduleStore;
  others_keep = λ s s' h. h;
  next_id_keeps = λ s. refl;
  call_keeps = λ payload id address s. refl;
}

abbrev idle_memory : Memory
idle_memory = record { requests = []; machines = machine "one" "10.0.0.1" ∷ [] }

abbrev submitted : System Memory
submitted = after_submit deployment (start_of idle_memory) message 7 (to_request message 5 7 ∷ [])

abbrev pub placed : System Memory
placed = after_schedule deployment submitted

submitted-Reach : Reach deployment Keeps (start_of idle_memory) submitted
submitted-Reach = Reach.next Reach.here (Step.submit message 7 5 refl tt refl)

placed-Reach : Reach deployment Keeps (start_of idle_memory) placed
placed-Reach = Reach.next submitted-Reach (Step.place refl)

Reach-IsKept_example : Permᴰ placed.submitted (known placed) × IsDistinct (map id_of (known placed))
Reach-IsKept_example = Reach-IsKept deployment deployment-IsExclusive placed-Reach

Reach-IsMatched_example : Permᴰ (map info_key placed.outside.requests) (map call_key placed.running)
unfolding delete_req_schedule_info
Reach-IsMatched_example =
    Reach-IsMatched deployment deployment-IsExclusive (λ id s. refl) refl placed-Reach

-- One call is in flight, and charged to the instance.
placed_runs : map call_key placed.running ≡ (5, "f", "10.0.0.1") ∷ []
unfolding schedule submit_request base_schedule lookup insert update add32 wrap32 ◌+ℤ◌ peek push pop
    convert_to_req_schedule_info
placed_runs = refl

deployment-IsResponsive : IsResponsive deployment (λ s. s.machines)
unfolding call_instance_function delete_req_schedule_info
deployment-IsResponsive = record {
  finds_machines = λ c s. (_, refl);
  finds_requests = λ c s. (_, refl);
  saves = λ r s new. refl;
  deletes = λ id s. refl;
  machines_find = λ c s. refl;
  machines_infos = λ c s. refl;
  machines_save = λ r s. refl;
  machines_delete = λ id s. refl;
  machines_call = λ payload id address s. refl;
}

one-IsNamed : IsNamed submitted.outside.machines
unfolding submit_request
one-IsNamed i j (Memᴰ.head e) (Memᴰ.head e') same = cc
one-IsNamed i j (Memᴰ.head e) (Memᴰ.tail k) same = elim k [ ]
one-IsNamed i j (Memᴰ.tail k) listed same = elim k [ ]

one-hosts : All (HasHost submitted.outside.machines) submitted.queue.qu
unfolding submit_request push lookup
one-hosts = ((machine "one" "10.0.0.1", Memᴰ.head refl, omega arith), tt)

Reach-drains_example :
    (u : System Memory) × Reach deployment Quiet submitted u
    × (u.queue.qu ≡ [])
    × (u.running ≡ [])
    × Permᴰ u.submitted (map (λ e. e.0) u.answered)
    × (u.submitted ≡ submitted.submitted)
Reach-drains_example =
    Reach-drains deployment refl same_order-perm deployment-IsExclusive deployment-IsResponsive refl
      submitted-Reach one-IsNamed one-hosts

listed_one :
    (ApiServer.get_req_schedule_info memory_db "f" placed.outside).0
    ≡ ok (map to_api_info placed.outside.requests)
unfolding ApiServer.get_req_schedule_info ReqScheduler.get_req_schedule_info
    get_req_schedule_info_by_function_name schedule submit_request base_schedule lookup insert
    update add32 wrap32 ◌+ℤ◌ peek push pop convert_to_req_schedule_info
    ReqScheduler.convert_to_storage_req_schedule_info
listed_one = refl

get_req_schedule_info-in_flight_example :
    Permᴰ
      (map api_key (map to_api_info placed.outside.requests))
      (map call_key (calls_of "f" placed))
unfolding delete_req_schedule_info ApiServer.get_req_schedule_info
get_req_schedule_info-in_flight_example =
    get_req_schedule_info-in_flight deployment deployment-IsExclusive (λ id s. refl) "f" refl
      placed-Reach listed_one
