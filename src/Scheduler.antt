-- ===== src/Scheduler.antt =====
-- pkg/reqscheduler/schedule.go: the two placement algorithms. A map is the list of its entries in
-- the order in which `range` meets them, which Go leaves open; `rand.Intn` is an argument. The
-- float64 operations are an argument as well. The sort is the insertion sort that `sort.Slice`
-- runs on up to twelve entries.
pub mod Sorting
pub mod Usage
pub mod Ranking
pub mod FirstFit
pub mod BestFit
pub mod OneTask
use pixels_spike.Base.{
  ℕ, List, [], ◌∷◌, Option, none, some, String, Bool, true, false, not, ◌&&◌, length, get_elem?,
  select, map, if◌then◌else◌,
}
use pixels_spike.Base.Int.{ℤ, add32, ltb_ℤ, leb_ℤ, eq_ℤ}
use pixels_spike.Base.Float.{FloatOps}
use pixels_spike.Base.Keys.{◌==◌, update, string_keys}
use pixels_spike.ReqQueue.{Request}

-- The statistics of one instance, over the floats `F`.
pub record InstanceStat (F : Type 0) : Type 0 where
  pub aws_service_name : String
  pub ipv4 : String
  pub cpu : ℤ
  pub memory : ℤ
  pub cpu_used : ℤ
  pub memory_used : ℤ
  pub cpu_usage_rate : F
  pub memory_usage_rate : F
  pub avg_usage_rate : F

-- The scheduler's own record of a placed request.
pub record ReqScheduleInfo : Type 0 where
  pub req_id : ℕ
  pub req_payload : String
  pub function_name : String
  pub placed_aws_service_name : String
  pub placed_ins_ipv4 : String
  pub required_cpu : ℤ
  pub required_memory : ℤ

abbrev pub StatMap : Type 0 → Type 0
StatMap F = List (String × InstanceStat F)

-- The interface `Scheduler`.
abbrev pub Scheduler : Type 0 → Type 0
Scheduler F = Request → List ReqScheduleInfo → StatMap F → Option ReqScheduleInfo

module _ {F : Type 0} where
  abbrev pub place : Request → InstanceStat F → ReqScheduleInfo
  place req stat = record {
    req_id = req.request_id;
    req_payload = req.req_payload;
    function_name = req.function_name;
    placed_aws_service_name = stat.aws_service_name;
    placed_ins_ipv4 = stat.ipv4;
    required_cpu = req.required_cpu;
    required_memory = req.required_memory;
  }

  abbrev pub use_resources : ReqScheduleInfo → InstanceStat F → InstanceStat F
  use_resources info stat = record stat {
    cpu_used = add32 stat.cpu_used info.required_cpu;
    memory_used = add32 stat.memory_used info.required_memory;
  }

  -- The loop over `reqScheduleInfo`; a request on an instance that is not in the map is passed over.
  pub account : List ReqScheduleInfo → StatMap F → StatMap F
  account [] m = m
  account (info ∷ infos) m =
      account infos (update info.placed_aws_service_name (use_resources info) m)

  abbrev pub fits : Request → InstanceStat F → Bool
  fits req stat =
      leb_ℤ (add32 stat.cpu_used req.required_cpu) stat.cpu
      && leb_ℤ (add32 stat.memory_used req.required_memory) stat.memory

  -- The last loop of the base scheduler.
  pub first_fit : Request → List (InstanceStat F) → Option ReqScheduleInfo
  first_fit req [] = none
  first_fit req (stat ∷ stats) =
      if fits req stat then some (place req stat) else first_fit req stats

module _ {A : Type 0} where
  abbrev pub rev_onto : List A → List A → List A
  rev_onto [] acc = acc
  rev_onto (x ∷ xs) acc = rev_onto xs (x ∷ acc)

module _ {A : Type 0} (less : A → A → Bool) where
  -- Entry `x` moves towards the front while it is less than the entry before it. The sorted
  -- entries are listed from the last one to the first.
  pub insert_last : A → List A → List A
  insert_last x [] = x ∷ []
  insert_last x (y ∷ ys) = if less x y then y ∷ insert_last x ys else x ∷ y ∷ ys

  pub sort_last : List A → List A → List A
  sort_last done [] = done
  sort_last done (x ∷ xs) = sort_last (insert_last x done) xs

  unfoldable pub sort_slice : List A → List A
  unfolding insert_last sort_last
  sort_slice xs = rev_onto (sort_last [] xs) []

module _ {F : Type 0} (float : FloatOps F) where
  abbrev pub rate : InstanceStat F → InstanceStat F
  rate stat =
      let cpu_rate = float.div (float.of_int stat.cpu_used) (float.of_int stat.cpu) in
      record stat {
        cpu_usage_rate = cpu_rate;
        memory_usage_rate = float.div (float.of_int stat.memory_used) (float.of_int stat.memory);
        avg_usage_rate = cpu_rate;
      }

  -- The comparison that the sort is given.
  abbrev pub less : InstanceStat F → InstanceStat F → Bool
  less a b =
      if not (eq_ℤ a.cpu b.cpu)
      then ltb_ℤ a.cpu b.cpu
      else if not (eq_ℤ a.memory b.memory)
      then ltb_ℤ a.memory b.memory
      else float.lt b.avg_usage_rate a.avg_usage_rate

  abbrev pub rated : StatMap F → List (InstanceStat F)
  rated m = map (λ e. rate e.1) m

  -- `BaseScheduler.Schedule`.
  unfoldable pub base_schedule : Scheduler F
  unfolding account first_fit sort_slice
  base_schedule req infos m = first_fit req (sort_slice less (rated (account infos m)))

-- `scheduledNodes[name]`: the map holds the names of the placed requests.
pub scheduled : String → List ReqScheduleInfo → Bool
scheduled name [] = false
scheduled name (info ∷ infos) =
    if info.placed_aws_service_name == name then true else scheduled name infos

module _ {F : Type 0} where
  abbrev pub is_available : Request → List ReqScheduleInfo → InstanceStat F → Bool
  is_available req infos stat =
      not (scheduled stat.aws_service_name infos)
      && leb_ℤ req.required_cpu stat.cpu
      && leb_ℤ req.required_memory stat.memory

  abbrev pub available_nodes : Request → List ReqScheduleInfo → StatMap F → List (InstanceStat F)
  available_nodes req infos m = select (is_available req infos) (map (λ e. e.1) m)

  -- An index out of range would be a panic: the random choice below is in range.
  abbrev select_node : Request → Option (InstanceStat F) → Option ReqScheduleInfo
  select_node req none = none
  select_node req (some stat) = some (place req stat)

  abbrev choose : (ℕ → ℕ) → Request → List (InstanceStat F) → Option ReqScheduleInfo
  choose intn req [] = none
  choose intn req (stat ∷ stats) =
      select_node req (get_elem? (stat ∷ stats) (intn (length (stat ∷ stats))))

  -- `OneTaskPerNodeScheduler.Schedule`, for a random choice `intn n` below `n`.
  unfoldable pub one_task_schedule : (ℕ → ℕ) → Scheduler F
  unfolding scheduled
  one_task_schedule intn req infos m = choose intn req (available_nodes req infos m)
