-- ===== src/FuncManager/Scaling.antt =====
-- pkg/funcmanager/funcmanager.go: `ScaleFunction` and the deletion that it leaves to a goroutine.
pub mod Bounds
pub mod Reductions
pub mod Deletion
pub mod Growth
use pixels_spike.Base.{
  ℕ, zero, suc, List, [], ◌∷◌, Bool, true, false, ◌&&◌, String, Result, ok, err, map, length,
  if◌then◌else◌,
}
use pixels_spike.Base.Exits.{Exit, returns, Step, pure, fail, ◌>>=◌, ◌>>◌, run, try}
use pixels_spike.Base.Int.{ℤ, pos, negsuc, add32, sub32, wrap32, ltb_ℤ, leb_ℤ, eq_ℤ}
use pixels_spike.AwsClient.{Cloud, batch_create_instance, delete_instance}
use pixels_spike.FuncManager.{FuncManager, new_instance, same_type}
use pixels_spike.Model.{FuncInstance, FuncMetaData, AwsTaskDef, ResourceSpec, ReqScheduleInfo}
use pixels_spike.Storage.{
  Gorm, text, int32, get_func_meta_data_by_function_name, get_func_instance_by_condition,
  get_aws_task_def_by_func_cpu_men_img, update_func_instance_batch,
  delete_func_instance_service_name, get_req_schedule_info_by_aws_service_name,
}

pub record ScaleFunctionRequest : Type 0 where
  pub function_name : String
  pub cpu : ℤ
  pub memory : ℤ
  pub scale_cnt : ℤ

-- `maxReplica` and `minReplica`.
abbrev pub Replicas : Type 0
Replicas = ℤ × ℤ

abbrev pub is_size : ℤ → ℤ → ResourceSpec → Bool
is_size cpu memory res = eq_ℤ res.cpu cpu && eq_ℤ res.memory memory

-- The loop over the specifications: the last one of the size counts.
unfoldable pub find_replicas : ℤ → ℤ → List ResourceSpec → Replicas → Replicas
find_replicas cpu memory [] found = found
find_replicas cpu memory (res ∷ rest) found =
    find_replicas cpu memory rest
      (if is_size cpu memory res then (res.max_replica, res.min_replica) else found)

abbrev pub replicas_of : ℤ → ℤ → List ResourceSpec → Replicas
replicas_of cpu memory specs = find_replicas cpu memory specs (negsuc 0, negsuc 0)

-- `int32(len(currentInsList))`.
abbrev pub len32 {ℓ} : {A : Type ℓ} → List A → ℤ
len32 xs = wrap32 (pos (length xs))

-- `realScaleCnt`, for a current count and the bounds.
unfoldable pub real_scale_cnt : ℤ → ℤ → Replicas → ℤ
real_scale_cnt scale_cnt current (max_replica, min_replica) =
    if ltb_ℤ (pos 0) scale_cnt
    then if ltb_ℤ max_replica (add32 current scale_cnt)
      then sub32 max_replica current
      else scale_cnt
    else if ltb_ℤ scale_cnt (pos 0)
    then if ltb_ℤ (add32 current scale_cnt) min_replica
      then sub32 min_replica current
      else scale_cnt
    else scale_cnt

module _ {S : Type 0} (db : Gorm S) (cloud : Cloud S) (f : FuncManager) where
  -- The loop over the instances, with a count below zero; it returns the services whose deletion
  -- it leaves to goroutines.
  pub delete_cold : List FuncInstance → ℤ → S → List String × S
  unfolding delete_func_instance_service_name
  delete_cold [] count s = ([], s)
  delete_cold (instance ∷ rest) count s = elim (leb_ℤ (pos 0) count) [
    | true ↦ ([], s)
    | false ↦ elim (same_type instance.launch_type f.cold_resource_pool) [
      | true ↦
          let (deleted, s') = delete_func_instance_service_name db instance.aws_service_name s in
          let (started, s'') = delete_cold rest (add32 count (pos 1)) s' in
          (instance.aws_service_name ∷ started, s'')
      | false ↦ delete_cold rest count s
    ]
  ]

  abbrev pub grow : List ℕ → ScaleFunctionRequest → AwsTaskDef → ℤ → Step S (List String)
  unfolding batch_create_instance update_func_instance_batch
  grow turns req task_def count = do
    names ←
        batch_create_instance cloud f.aws_client task_def.task_family task_def.task_revision
          f.cold_resource_pool turns count
    run (
        update_func_instance_batch db (
          map
            (new_instance req.function_name req.cpu req.memory task_def.task_family
              task_def.task_revision f.cold_resource_pool)
            names))
    pure []

  abbrev pub shrink : List FuncInstance → ℤ → Step S (List String)
  unfolding delete_cold
  shrink current count s = let (started, s') = delete_cold current count s in (returns started, s')

  -- Whether the count is above zero, and whether it is below.
  abbrev pub change_by :
      Bool
      → Bool
      → List ℕ
      → ScaleFunctionRequest
      → List FuncInstance
      → AwsTaskDef
      → ℤ
      → Step S (List String)
  change_by true down turns req current task_def count = grow turns req task_def count
  change_by false true turns req current task_def count = shrink current count
  change_by false false turns req current task_def count = pure []

  -- Whether the maximum is the value -1 of a size that is not declared.
  abbrev pub scale_checked :
      Bool
      → List ℕ
      → ScaleFunctionRequest
      → List FuncInstance
      → AwsTaskDef
      → ℤ
      → Step S (List String)
  scale_checked true turns req current task_def count = fail "no such resource spec"
  scale_checked false turns req current task_def count =
      change_by (ltb_ℤ (pos 0) count) (ltb_ℤ count (pos 0)) turns req current task_def count

  abbrev pub scale_replicas :
      List ℕ
      → ScaleFunctionRequest
      → List FuncInstance
      → AwsTaskDef
      → Replicas
      → Step S (List String)
  unfolding real_scale_cnt
  scale_replicas turns req current task_def replicas =
      scale_checked (eq_ℤ replicas.0 (negsuc 0)) turns req current task_def
        (real_scale_cnt req.scale_cnt (len32 current) replicas)

  -- `ScaleFunction`: it returns the services for which it starts `AsyncDeleteFuncInstance`. The
  -- goroutines of a batch take turns as `turns` lists them.
  unfoldable pub scale_function : List ℕ → ScaleFunctionRequest → Step S (List String)
  unfolding find_replicas get_func_meta_data_by_function_name get_func_instance_by_condition
      get_aws_task_def_by_func_cpu_men_img
  scale_function turns req = do
    meta_data ← run (get_func_meta_data_by_function_name db req.function_name)
    current ← run (
        get_func_instance_by_condition db (
          ("function_name", text req.function_name)
          ∷ ("cpu", int32 req.cpu)
          ∷ ("memory", int32 req.memory)
          ∷ []))
    task_def ← run (
        get_aws_task_def_by_func_cpu_men_img db req.function_name req.cpu req.memory
          meta_data.image_url)
    scale_replicas turns req current task_def
        (replicas_of req.cpu req.memory meta_data.res_spec_list)

  -- A round of the loop of `AsyncDeleteFuncInstance`: whether it was the last one. A round after
  -- an error follows at once, the others after five seconds.
  abbrev pub check_requests : String → Result (List ReqScheduleInfo) × S → Bool × S
  unfolding delete_instance
  check_requests aws_service_name (err e, s) = (false, s)
  check_requests aws_service_name (ok [], s) =
      let (deleted, s') = delete_instance cloud f.aws_client aws_service_name s in (true, s')
  check_requests aws_service_name (ok (info ∷ infos), s) = (false, s)

  unfoldable pub async_delete_round : String → S → Bool × S
  unfolding get_req_schedule_info_by_aws_service_name
  async_delete_round aws_service_name s =
      check_requests aws_service_name
        (get_req_schedule_info_by_aws_service_name db aws_service_name s)
