-- ===== src/ReqScheduler/System/Capacity.antt =====
-- pkg/reqscheduler/reqscheduler.go with the base scheduler: in every reachable state no instance is
-- given more than it has.
use mathlib.Core.List.{Permᴰ}
use pixels_spike.Base.{◌≡◌, sym, subst, List, [], All, Memᴰ, arith}
use pixels_spike.Base.Distinct.{All-take}
use pixels_spike.Base.Perms.{All-perm}
use pixels_spike.Model.{FuncInstance}
use pixels_spike.Scheduler.{ReqScheduleInfo, StatMap, base_schedule}
use pixels_spike.ReqScheduler.System.{Deployment, System, Step, Reach, IsExclusive, start_of}
use pixels_spike.ReqScheduler.System.Capped.{Fits, IsCapped}
use pixels_spike.ReqScheduler.System.Conservation.{Reach-IsKept}
use pixels_spike.ReqScheduler.System.Fleet.{IsSized, IsFleet}
use pixels_spike.ReqScheduler.System.Serve.{IsNamed}
use pixels_spike.ReqScheduler.System.Safe.{NeedsModest, IsSafe, Step-IsSafe}

module _ {F S : Type 0} (d : Deployment F S) (is_base : d.scheduler ≡ base_schedule d.float)
    (visits : (m : StatMap F) → Permᴰ (d.visit m) m) {Others : S → S → Type 0}
    {requests : S → List ReqScheduleInfo} {machines : S → List FuncInstance}
    (exclusive : IsExclusive d Others requests machines)
    (fleet : IsFleet d Others requests machines) where
  -- The requests of an earlier state were submitted by then.
  Step-earlier :
      {t u : System S}
      → Step d Others t u
      → All NeedsModest u.submitted
      → All NeedsModest t.submitted
  Step-earlier (Step.submit req resp_chan id drawn fresh e) h =
      (subst (λ u. All NeedsModest u.submitted) e h).1
  Step-earlier (Step.refuse req resp_chan m failed e) h =
      subst (λ u. All NeedsModest u.submitted) e h
  Step-earlier (Step.place e) h = subst (λ u. All NeedsModest u.submitted) e h
  Step-earlier (Step.answer before req address later split e) h =
      subst (λ u. All NeedsModest u.submitted) e h
  Step-earlier (Step.act s acted e) h = subst (λ u. All NeedsModest u.submitted) e h

  start-IsSafe :
      {s : S}
      → requests s ≡ []
      → IsNamed (machines s)
      → IsSized (machines s)
      → IsSafe d is_base visits exclusive fleet s
  start-IsSafe {s} empty named sized = subst (IsCapped (machines s)) (sym empty) (record {
    named = named;
    sized = sized;
    adding_cpu = tt;
    adding_memory = tt;
    bounded_cpu = λ g name. omega arith;
    bounded_memory = λ g name. omega arith;
    fits = λ i k. record { cpu_fits = (sized i k).0.0; memory_fits = (sized i k).1.0 };
  })

  Reach-IsSafe :
      {s : S} {t : System S}
      → requests s ≡ []
      → IsNamed (machines s)
      → IsSized (machines s)
      → Reach d Others (start_of s) t
      → All NeedsModest t.submitted
      → IsSafe d is_base visits exclusive fleet t.outside
  Reach-IsSafe empty named sized Reach.here modest = start-IsSafe empty named sized
  Reach-IsSafe empty named sized (Reach.next {u = u} r st) modest =
      let earlier = Step-earlier st modest in
      let all = All-perm NeedsModest (Reach-IsKept d exclusive r).0 earlier in
      Step-IsSafe d is_base visits exclusive fleet st (All-take NeedsModest u.queue.qu _ all)
        (Reach-IsSafe empty named sized r earlier)

  -- With the base scheduler, in every state that is reached from a start with no placement
  -- recorded, in any order of submissions, schedules, ends of calls and actions of others, no
  -- instance is given more than it has: what all the recorded placements of its function need of an
  -- instance, in CPU and in memory, is within its size. The needs of all submitted requests and the
  -- sizes of the instances are not negative and below 2 ^ 30, no two instances share a service name,
  -- and others add an instance only while nothing is placed under its name, and shrink none; only the scheduler
  -- changes the placements.
  pub Reach-Fits :
      {s : S} {t : System S}
      → requests s ≡ []
      → IsNamed (machines s)
      → IsSized (machines s)
      → Reach d Others (start_of s) t
      → All NeedsModest t.submitted
      → (i : FuncInstance) → Memᴰ i (machines t.outside)
      → Fits i (requests t.outside)
  Reach-Fits empty named sized r modest = (Reach-IsSafe empty named sized r modest).fits
