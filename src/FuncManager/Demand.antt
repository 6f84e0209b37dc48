-- ===== src/FuncManager/Demand.antt =====
-- pkg/funcmanager/funcmanager.go: how the auto-scaling counts the instances that each function
-- needs. The float64 operations and the configured threshold are arguments. A map of maps is a
-- list of lists of entries; where the code visits a map, the order of the visits changes nothing.
pub mod Window
pub mod Choice
pub mod Counts
pub mod Expected
pub mod Orphans
use pixels_spike.Base.{
  ℕ, zero, suc, List, [], ◌∷◌, ◌++◌, Option, none, some, Bool, true, false, not, ◌&&◌, String,
  Result, map, length, take, if◌then◌else◌, arith, ◌≡◌, ◌↔◌,
}
use pixels_spike.Base.Exits.{
  Exit, returns, fails, panics, Step, pure, panic, ◌>>=◌, ◌>>◌, run, try, try_step,
}
use pixels_spike.Base.Float.{FloatOps}
use pixels_spike.Base.Int.{
  ℤ, pos, negsuc, add32, sub32, ltb_ℤ, leb_ℤ, eq_ℤ, eq_ℤ_iff, max_ℤ, min_ℤ, pos_part,
}
use pixels_spike.Base.Keys.{Key, ◌==◌, lookup, insert, string_keys, int_keys}
use pixels_spike.AwsClient.{Cloud}
use pixels_spike.FuncManager.{FuncManager}
use pixels_spike.FuncManager.Scaling.{ScaleFunctionRequest, scale_function}
use pixels_spike.Model
use pixels_spike.Model.{FuncInstance, FuncMetaData, ResourceSpec}
use pixels_spike.ReqQueue.{Request, ReqQueue, snapshot}
use pixels_spike.Scheduler.{sort_slice}
use pixels_spike.Storage.{
  Gorm, get_func_meta_data_by_condition, get_func_instance_by_condition,
  get_req_schedule_info_by_condition,
}

-- A size: CPU and memory.
abbrev pub Size : Type 0
Size = ℤ × ℤ

abbrev pub same_size : Size → Size → Bool
same_size (a, b) (c, d) = eq_ℤ a c && eq_ℤ b d

pub same_size_iff : (j k : Size) → (same_size j k ≡ true) ↔ (j ≡ k)
same_size_iff (a, b) (c, d) = ground (arith, eq_ℤ_iff a c, eq_ℤ_iff b d)

instance abbrev pub size_keys : Key Size
size_keys = record { same = same_size; same_iff = same_size_iff }

abbrev pub or_else {ℓ} : {A : Type ℓ} → A → Option A → A
or_else a none = a
or_else a (some b) = b

-- `m[k] = f(m[k])`, with a zero value for a missing key.
abbrev pub modify : {K V : Type 0} ⦃key : Key K⦄ → V → (V → V) → K → List (K × V) → List (K × V)
modify zero_value f k m = insert k (f (or_else zero_value (lookup k m))) m

-- A copy of a request that counts: the payload and the channel are left at their zero values.
abbrev pub queued_req : Request → Request
queued_req req = record req { req_payload = ""; resp_payload_chan = none }

abbrev pub scheduled_req : Model.ReqScheduleInfo → Request
scheduled_req req = record {
  function_name = req.function_name;
  request_id = req.req_id;
  req_payload = "";
  required_cpu = req.required_cpu;
  required_memory = req.required_memory;
  resp_payload_chan = none;
}

-- `GetAllReq`: what waits in the queue, then what is placed.
unfoldable pub get_all_req : {S : Type 0} → Gorm S → ReqQueue → Step S (List Request)
unfolding snapshot get_req_schedule_info_by_condition
get_all_req db q = do
  scheduled ← run (get_req_schedule_info_by_condition db [])
  pure (map queued_req (snapshot q) ++ map scheduled_req scheduled)

pub record ResScale : Type 0 where
  pub cpu : ℤ
  pub memory : ℤ
  pub scale_cnt : ℤ

-- The comparison that the specifications are sorted by.
abbrev pub less_spec : ResourceSpec → ResourceSpec → Bool
less_spec a b = if not (eq_ℤ a.cpu b.cpu) then ltb_ℤ a.cpu b.cpu else ltb_ℤ a.memory b.memory

abbrev pub sort_specs : FuncMetaData → FuncMetaData
unfolding sort_slice
sort_specs data_ = record data_ { res_spec_list = sort_slice less_spec data_.res_spec_list }

-- `funcMetaDataMap`.
pub meta_data_map : List FuncMetaData → List (String × FuncMetaData) → List (String × FuncMetaData)
unfolding sort_specs
meta_data_map [] m = m
meta_data_map (data_ ∷ rest) m =
    meta_data_map rest (insert data_.function_name (sort_specs data_) m)

-- `currentResMap`, with an empty map for each function.
abbrev pub Counts : Type 0
Counts = List (String × List (Size × ℤ))

abbrev pub empty_maps :
    {V : Type 0} → List (String × FuncMetaData) → List (String × List (Size × V))
empty_maps m = map (λ e. (e.0, [])) m

-- The loop over the instances; a write to the nil map of an unknown function is a panic.
abbrev pub count_one : FuncInstance → Counts → Option (List (Size × ℤ)) → Exit Counts
count_one ins counts none = panics "assignment to entry in nil map"
count_one ins counts (some sizes) = returns (
    insert ins.function_name (modify (pos 0) (λ n. add32 n (pos 1)) (ins.cpu, ins.memory) sizes)
      counts)

abbrev pub and_then : {A B : Type 0} → Exit A → (A → Exit B) → Exit B
and_then (returns a) k = k a
and_then (fails e) k = fails e
and_then (panics message) k = panics message

pub count_instances : List FuncInstance → Counts → Exit Counts
count_instances [] counts = returns counts
count_instances (ins ∷ rest) counts =
    and_then (count_one ins counts (lookup ins.function_name counts)) (λ c. count_instances rest c)

module _ {F : Type 0} (float : FloatOps F) where
  abbrev pub require_cnt : Request → ResourceSpec → F
  require_cnt req res =
      float.maximum (float.div (float.of_int req.required_cpu) (float.of_int res.cpu))
        (float.div (float.of_int req.required_memory) (float.of_int res.memory))

  abbrev pub fits_spec : Request → ResourceSpec → Bool
  fits_spec req res = leb_ℤ req.required_cpu res.cpu && leb_ℤ req.required_memory res.memory

  -- The last entry; the loop for the first one that fits; and the choice between them.
  abbrev pub last_spec : ResourceSpec → List ResourceSpec → ResourceSpec
  last_spec res [] = res
  last_spec res (next ∷ rest) = last_spec next rest

  pub choose_spec : Request → ResourceSpec → List ResourceSpec → ResourceSpec
  choose_spec req default_spec [] = default_spec
  choose_spec req default_spec (res ∷ rest) =
      if fits_spec req res then res else choose_spec req default_spec rest

  -- A specification for a request; the last entry of an empty list is an index out of range.
  unfoldable pub spec_for : Request → List ResourceSpec → Option ResourceSpec
  unfolding choose_spec
  spec_for req [] = none
  spec_for req (res ∷ rest) = some (choose_spec req (last_spec res rest) (res ∷ rest))

  abbrev pub Demands : Type 0
  Demands = List (String × List (Size × F))

  abbrev pub zero_float : F
  zero_float = float.of_int (pos 0)

  abbrev pub add_demand : String → Size → F → Demands → Demands
  add_demand name size demand demands =
      modify [] (λ sizes. modify zero_float (λ x. float.add x demand) size sizes) name demands

  abbrev pub demand_of : Request → Demands → Option ResourceSpec → Exit Demands
  demand_of req demands none = panics "runtime error: index out of range [-1]"
  demand_of req demands (some res) =
      returns (add_demand req.function_name (res.cpu, res.memory) (require_cnt req res) demands)

  -- A request of a function without metadata is passed over.
  abbrev pub demand_one : Request → Demands → Option FuncMetaData → Exit Demands
  unfolding spec_for
  demand_one req demands none = returns demands
  demand_one req demands (some data_) = demand_of req demands (spec_for req data_.res_spec_list)

  -- The loop over the requests of one moment.
  pub demands_at : List (String × FuncMetaData) → List Request → Demands → Exit Demands
  unfolding demand_one
  demands_at m [] demands = returns demands
  demands_at m (req ∷ rest) demands =
      and_then (demand_one req demands (lookup req.function_name m)) (λ d. demands_at m rest d)

  -- The loop over the moments.
  pub demands_over : List (String × FuncMetaData) → List (List Request) → Exit (List Demands)
  unfolding demands_at
  demands_over m [] = returns []
  demands_over m (reqs ∷ rest) =
      and_then (demands_at m reqs (empty_maps m))
        λ d. and_then (demands_over m rest) λ ds. returns (d ∷ ds)

  -- The share of one moment in the averages of a function, and the averages.
  pub add_shares : F → List (Size × F) → List (Size × F) → List (Size × F)
  add_shares weight [] averages = averages
  add_shares weight ((size, demand) ∷ rest) averages =
      add_shares weight rest
        (modify zero_float (λ x. float.add x (float.div demand weight)) size averages)

  pub averages_of : F → String → List Demands → List (Size × F) → List (Size × F)
  unfolding add_shares
  averages_of weight name [] averages = averages
  averages_of weight name (d ∷ ds) averages =
      averages_of weight name ds (add_shares weight (or_else [] (lookup name d)) averages)

  -- `expectResDemand`.
  abbrev pub expected : ResourceSpec → F → ℤ
  expected res average = min_ℤ res.max_replica (max_ℤ res.min_replica (float.round_int32 average))

  abbrev pub res_scale : List (Size × F) → List (Size × ℤ) → ResourceSpec → ResScale
  res_scale averages counts res = record {
    cpu = res.cpu;
    memory = res.memory;
    scale_cnt =
        sub32 (expected res (or_else zero_float (lookup (res.cpu, res.memory) averages)))
          (or_else (pos 0) (lookup (res.cpu, res.memory) counts));
  }

  module _ (threshold : F) where
    abbrev pub scales_of :
        List (List Request) → Counts → List Demands → String × FuncMetaData → String × List ResScale
    unfolding averages_of
    scales_of history counts ds (name, data_) =
        let weight = float.mul (float.of_int (pos (length history))) threshold in
        (
          name,
          map (res_scale (averages_of weight name ds []) (or_else [] (lookup name counts)))
              data_.res_spec_list,
        )

    -- What follows the two queries of `CalResScale`.
    unfoldable pub scales :
        List (List Request)
        → List FuncMetaData
        → List FuncInstance
        → Exit (List (String × List ResScale))
    unfolding scales_of meta_data_map count_instances demands_over
    scales history list instances =
        let m = meta_data_map list [] in
        and_then (count_instances instances (empty_maps m)) λ counts.
          and_then (demands_over m history) λ ds. returns (map (scales_of history counts ds) m)

    unfoldable pub cal_res_scale :
        {S : Type 0} → Gorm S → List (List Request) → Step S (List (String × List ResScale))
    unfolding scales get_func_meta_data_by_condition get_func_instance_by_condition
    cal_res_scale db history = do
      list ← run (get_func_meta_data_by_condition db [])
      instances ← run (get_func_instance_by_condition db [])
      (λ s. (scales history list instances, s))
