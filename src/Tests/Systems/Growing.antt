-- ===== src/Tests/Systems/Growing.antt =====
-- Requests on instances that grow, at small inputs.
use pixels_spike.Model.{FuncInstance}
use pixels_spike.Base.{inl, ◌≡◌, refl, [], ◌∷◌, All, arith, Memᴰ}
use pixels_spike.Base.Int.{pos, ◌+ℤ◌, wrap32, add32}
use pixels_spike.Base.Keys.{lookup, insert, update}
use pixels_spike.ReqQueue.{push, pop, peek}
use pixels_spike.Scheduler.{base_schedule}
use pixels_spike.ReqScheduler.{
  schedule, submit_request, to_request, call_instance_function, convert_to_req_schedule_info,
}
use pixels_spike.ReqScheduler.System.{
  System, Step, Reach, IsExclusive, start_of, after_submit, after_schedule,
}
use pixels_spike.ReqScheduler.System.Serve.{IsNamed}
use pixels_spike.ReqScheduler.System.Capacity.{Reach-Fits}
use pixels_spike.ReqScheduler.System.Capped.{Fits}
use pixels_spike.ReqScheduler.System.Fleet.{IsFleet, IsSized, GrewFrom}
use pixels_spike.ReqScheduler.System.Safe.{NeedsModest}
use pixels_spike.Tests.Scheduling.{machine, same_order-perm, message}
use pixels_spike.Tests.Store.{Memory, memory-ScheduleStore}
use pixels_spike.Tests.Systems.{deployment, idle_memory}

-- The instances may grow, and be fewer, while requests are placed.
abbrev Grows : Memory → Memory → Type 0
Grows s s' =
    (s'.requests ≡ s.requests)
    × IsNamed s'.machines
    × IsSized s'.machines
    × ((i : FuncInstance) → Memᴰ i s'.machines → GrewFrom i s.machines)

deployment-IsExclusive_growing : IsExclusive deployment Grows (λ s. s.requests) (λ s. s.machines)
unfolding call_instance_function
deployment-IsExclusive_growing = record {
  store = memory-ScheduleStore;
  others_keep = λ s s' h. h.0;
  next_id_keeps = λ s. refl;
  call_keeps = λ payload id address s. refl;
}

deployment-IsFleet : IsFleet deployment Grows (λ s. s.requests) (λ s. s.machines)
unfolding call_instance_function
deployment-IsFleet = record {
  others_named = λ s s' h. h.1;
  others_sized = λ s s' h. h.2;
  others_add = λ s s' h i m. inl (h.3 i m);
  keeps_id = λ s. refl;
  keeps_find = λ c s. refl;
  keeps_infos = λ c s. refl;
  keeps_save = λ r s. refl;
  keeps_delete = λ c s. refl;
  keeps_call = λ payload id address s. refl;
}

-- The same instance with more memory.
abbrev bigger : FuncInstance
bigger = record (machine "one" "10.0.0.1") { memory = pos 16 }

one-IsNamed : (m : FuncInstance) → IsNamed (m ∷ [])
one-IsNamed m i j (Memᴰ.head e) (Memᴰ.head e') same = cc
one-IsNamed m i j (Memᴰ.head e) (Memᴰ.tail k) same = elim k [ ]
one-IsNamed m i j (Memᴰ.tail k) listed same = elim k [ ]

idle-IsSized : IsSized idle_memory.machines
idle-IsSized i (Memᴰ.head e) = rw e ((omega arith, omega arith), (omega arith, omega arith))
idle-IsSized i (Memᴰ.tail k) = elim k [ ]

bigger-IsSized : IsSized (bigger ∷ [])
bigger-IsSized i (Memᴰ.head e) = rw e ((omega arith, omega arith), (omega arith, omega arith))
bigger-IsSized i (Memᴰ.tail k) = elim k [ ]

bigger-GrewFrom : (i : FuncInstance) → Memᴰ i (bigger ∷ []) → GrewFrom i idle_memory.machines
bigger-GrewFrom i (Memᴰ.head e) =
    rw e (machine "one" "10.0.0.1", Memᴰ.head refl, refl, refl, omega arith, omega arith)
bigger-GrewFrom i (Memᴰ.tail k) = elim k [ ]

abbrev resized : System Memory
resized = record (start_of idle_memory) { outside = record idle_memory { machines = bigger ∷ [] } }

abbrev asked : System Memory
asked = after_submit deployment resized message 7 (to_request message 5 7 ∷ [])

abbrev placed_on_bigger : System Memory
placed_on_bigger = after_schedule deployment asked

-- The instance grows, a call is submitted, and it is placed.
placed_on_bigger-Reach : Reach deployment Grows (start_of idle_memory) placed_on_bigger
placed_on_bigger-Reach =
    Reach.next
      (Reach.next
        (Reach.next Reach.here (
          Step.act (record idle_memory { machines = bigger ∷ [] })
            (refl, one-IsNamed bigger, bigger-IsSized, bigger-GrewFrom) refl))
        (Step.submit message 7 5 refl tt refl))
      (Step.place refl)

modest_requests : All NeedsModest placed_on_bigger.submitted
modest_requests = (((omega arith, omega arith), (omega arith, omega arith)), tt)

-- The machine is listed in the state that is reached.
bigger_listed : Memᴰ bigger placed_on_bigger.outside.machines
unfolding schedule submit_request base_schedule lookup insert update add32 wrap32 ◌+ℤ◌ peek push pop
    convert_to_req_schedule_info
bigger_listed = Memᴰ.head refl

Reach-Fits_example : Fits bigger placed_on_bigger.outside.requests
Reach-Fits_example =
    Reach-Fits deployment refl same_order-perm deployment-IsExclusive_growing deployment-IsFleet
      refl (one-IsNamed (machine "one" "10.0.0.1")) idle-IsSized placed_on_bigger-Reach
      modest_requests bigger bigger_listed
