-- ===== src/ReqScheduler/System/Serve.antt =====
-- pkg/reqscheduler/reqscheduler.go with the base scheduler: the front request is served when nothing
-- is placed and a running instance of its function is large enough.
use mathlib.Core.List.{Permᴰ}
use mathlib.Core.List.Permᴰ
use pixels_spike.Base.{
  ◌≡◌, ◌≢◌, refl, sym, ap, subst, ◌∙◌, inl, inr, List, [], ◌∷◌, All-mem, All_of_mem, Memᴰ, none,
  String, arith, Bool-cases,
}
use pixels_spike.Base.Float.{FloatOps}
use pixels_spike.Base.Int.{◌≤ℤ◌, IsInt32, zero-+ℤ}
use pixels_spike.Base.Keys.{◌==◌, insert, string_keys}
use pixels_spike.Base.Perms.{All-perm, mem-perm}
use pixels_spike.Model.{FuncInstance}
use pixels_spike.ReqQueue.{Request}
use pixels_spike.Scheduler.{InstanceStat, StatMap, base_schedule}
use pixels_spike.Scheduler.BestFit.{CanHold, NoOverflow, base_schedule-none}
use pixels_spike.ReqScheduler.{fill_stats, instance_stat}
use pixels_spike.ReqScheduler.StatMaps.{IsMadeFrom, IsMap-perm, fill_stats-All, made-IsFresh}
use text.Mathlib.TextEquality.{eq_iff}

-- No two instances share a service name.
abbrev pub IsNamed : List FuncInstance → Type 0
IsNamed machines =
    (i j : FuncInstance)
    → Memᴰ i machines
    → Memᴰ j machines
    → i.aws_service_name ≡ j.aws_service_name
    → i ≡ j

-- The instance is large enough for the request, whose needs are int32 values.
pub record CanServe (req : Request) (i : FuncInstance) : Type 0 where
  pub cpu : req.required_cpu ≤ℤ i.cpu
  pub memory : req.required_memory ≤ℤ i.memory
  pub cpu_int32 : IsInt32 req.required_cpu
  pub memory_int32 : IsInt32 req.required_memory

module _ {F : Type 0} (float : FloatOps F) where
  abbrev Has : String → StatMap F → Type 0
  Has name m = (v : InstanceStat F) × Memᴰ (name, v) m

  insert-Has :
      (k : String) (v : InstanceStat F) (m : StatMap F) (name : String)
      → Has name m
      → Has name (insert k v m)
  unfolding insert
  insert-Has k v [] name (w, there) = elim there [ ]
  insert-Has k v ((j, w) ∷ m) name (x, Memᴰ.head same) = elim (Bool-cases (j == k)) [
    | inl e ↦ rw e (v, Memᴰ.head (λ n. ((same n).0, v)))
    | inr e ↦ rw e (x, Memᴰ.head same)
  ]
  insert-Has k v ((j, w) ∷ m) name (x, Memᴰ.tail there) = elim (Bool-cases (j == k)) [
    | inl e ↦ rw e (x, Memᴰ.tail there)
    | inr e ↦ let (u, later) = insert-Has k v m name (x, there) in rw e (u, Memᴰ.tail later)
  ]

  insert-Has_self : (k : String) (v : InstanceStat F) (m : StatMap F) → Has k (insert k v m)
  unfolding insert
  insert-Has_self k v [] = (v, Memᴰ.head refl)
  insert-Has_self k v ((j, w) ∷ m) = elim (Bool-cases (j == k)) [
    | inl e ↦ rw e (v, Memᴰ.head (λ n. (sym ((eq_iff j k).0 e) n, v)))
    | inr e ↦ let (u, there) = insert-Has_self k v m in rw e (u, Memᴰ.tail there)
  ]

  fill_stats-keeps :
      (rest : List FuncInstance) (m : StatMap F) (name : String)
      → Has name m
      → Has name (fill_stats float rest m)
  unfolding fill_stats
  fill_stats-keeps [] m name h = h
  fill_stats-keeps (i ∷ rest) m name h =
      fill_stats-keeps rest (insert i.aws_service_name (instance_stat float i) m) name
        (insert-Has i.aws_service_name (instance_stat float i) m name h)

  fill_stats-Has :
      {i : FuncInstance} (rest : List FuncInstance) (m : StatMap F)
      → Memᴰ i rest
      → Has i.aws_service_name (fill_stats float rest m)
  unfolding fill_stats
  fill_stats-Has [] m k = elim k [ ]
  fill_stats-Has {i} (j ∷ rest) m (Memᴰ.head e) =
      let name = j.aws_service_name in
      fill_stats-keeps rest (insert name (instance_stat float j) m) i.aws_service_name (
        subst (λ n. Has n (insert name (instance_stat float j) m))
          (ap (λ x. x.aws_service_name) (sym e)) (insert-Has_self name (instance_stat float j) m))
  fill_stats-Has (j ∷ rest) m (Memᴰ.tail k) =
      fill_stats-Has rest (insert j.aws_service_name (instance_stat float j) m) k

  module _ (visit : StatMap F → StatMap F) (visits : (m : StatMap F) → Permᴰ (visit m) m)
      (req : Request) (instances : List FuncInstance) (named : IsNamed instances) where
    -- An idle instance can hold what it can serve.
    held :
        {i : FuncInstance}
        → CanServe req i
        → CanHold req [] (i.aws_service_name, instance_stat float i)
    held {i} h = record {
      cpu = subst (λ z. z ≤ℤ i.cpu) (sym (zero-+ℤ req.required_cpu)) h.cpu;
      memory = subst (λ z. z ≤ℤ i.memory) (sym (zero-+ℤ req.required_memory)) h.memory;
    }

    range : {i : FuncInstance} → CanServe req i → NoOverflow req []
    range h = record {
      cpu = λ name. record { above = omega arith; below = omega arith };
      cpu_total = λ name. subst IsInt32 (sym (zero-+ℤ req.required_cpu)) h.cpu_int32;
      memory_total = λ name. subst IsInt32 (sym (zero-+ℤ req.required_memory)) h.memory_int32;
    }

    pub base_schedule-serves :
        {i : FuncInstance}
        → Memᴰ i instances
        → CanServe req i
        → base_schedule float req [] (visit (fill_stats float instances [])) ≢ none
    base_schedule-serves {i} listed able refused =
        let stats = fill_stats float instances [] in
        let (made, keyed) =
          fill_stats-All float instances instances []
            (All_of_mem (λ j. Memᴰ j instances) instances (λ j k. k)) tt tt in
        let made_visit = All-perm (IsMadeFrom float instances) (Permᴰ.symm (visits stats)) made in
        let (v, there) = fill_stats-Has instances [] listed in
        let seen = mem-perm (Permᴰ.symm (visits stats)) there in
        let (j, k, from) = All-mem (IsMadeFrom float instances) (visit stats) made_visit seen in
        let same = named i j listed k (ap (λ e. e.0) from) in
        (base_schedule-none float req [] (visit stats)
            (IsMap-perm (Permᴰ.symm (visits stats)) keyed)
            (made-IsFresh float instances (visit stats) made_visit) (range able)).0
          refused (i.aws_service_name, v) seen
          (subst (CanHold req [])
            (ap (λ x. (x.aws_service_name, instance_stat float x)) same ∙ sym from) (held able))
