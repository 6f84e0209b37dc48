-- ===== src/Tests/Plants.antt =====
-- A database beside a cluster in memory: what the theorems ask of them, and batches of rows.
mod Services
mod Refreshes
use pixels_spike.Base.{
  map, subst, sym, All, ◌*◌, ◌^◌, ℕ, zero, suc, ◌<◌, ◌≡◌, ◌≢◌, refl, List, [], ◌∷◌, Bool, true,
  false, String, Result, ok, err, arith, ap, ◌∙◌, continue, select, some, none,
}
use pixels_spike.Base.Exits.{fails}
use pixels_spike.Base.Int.{pos, negsuc, ◌+ℤ◌, ◌-ℤ◌, add32, sub32, wrap32}
use pixels_spike.Base.Keys.{◌==◌, string_keys}
use pixels_spike.Constants.{InstanceType}
use Prim.Native.String.{◌++◌}
use pixels_spike.AwsClient.{Task, Cloud, delete_instance, reg_task_def}
use pixels_spike.AwsClient.Goroutines.{ServiceStore}
use pixels_spike.AwsClient.Keeps.{IsUntouched}
use pixels_spike.FuncManager.{FuncManager}
use pixels_spike.FuncManager.Functions.{CreateFunctionRequest, define_resources, create_function}
use pixels_spike.FuncManager.Functions.Creation.{IsFunctionTable, create_function-once}
use pixels_spike.FuncManager.Scaling.{
  ScaleFunctionRequest, find_replicas, real_scale_cnt, scale_function,
}
use pixels_spike.FuncManager.Scaling.Deletion.{
  at_round, async_delete, is_free, async_delete-first_free,
}
use pixels_spike.FuncManager.Scaling.Growth.{IsGrown, scale_function-IsGrown}
use pixels_spike.FuncManager.Scaling.Reductions.{Reads}
use pixels_spike.FuncManager.Status.{update_instances_status}
use pixels_spike.FuncManager.Status.Refresh.{IsRefresh}
use pixels_spike.Model.{
  FuncInstance, FuncMetaData, AwsTaskDef, ResourceSpec, ReqScheduleInfo, zero_model,
}
use pixels_spike.Storage.{
  Value, GormTable, Gorm, Condition, is_present, is_empty, end_batch,
  get_func_meta_data_by_function_name, get_func_instance_by_condition,
  get_aws_task_def_by_func_cpu_men_img, has_func_meta_data_by_function_name, create_func_meta_data,
  update_func_instance_batch, upsert_all, update_aws_task_def,
  get_req_schedule_info_by_aws_service_name,
}
use pixels_spike.Storage.Atomic.{IsTransactional, IsAtomic, update_func_instance_batch-IsAtomic}
use pixels_spike.Tests.Clusters.{
  Cluster, cluster, client, running, empty_cluster, cluster-ServiceStore,
}
use pixels_spike.Tests.Scheduling.{machine}

-- `saved` are the rows of instances from the begin of the transaction.
pub record Plant : Type 0 where
  pub cluster_part : Cluster
  pub rows : List FuncInstance
  pub saved : List FuncInstance
  pub functions : List FuncMetaData
  pub placed : List ReqScheduleInfo

abbrev lift : {A : Type 0} → Result A × Cluster → Plant → Result A × Plant
lift (r, c) s = (r, record s { cluster_part = c })

abbrev plant : Cloud Plant
plant = record {
  next_id = λ s. lift (cluster.next_id s.cluster_part) s;
  create_service = λ i s. lift (cluster.create_service i s.cluster_part) s;
  delete_service = λ c name s. lift (cluster.delete_service c name s.cluster_part) s;
  list_tasks = λ c name s. (ok [], s);
  describe_tasks = λ c tasks s. (ok [], s);
  register_task_definition = λ i s. (ok (i.family, pos 1), s);
  describe_network_interfaces = λ id s. (ok [], s);
}

plant-ServiceStore : ServiceStore plant client (λ x s. running x s.cluster_part)
plant-ServiceStore = record {
  create_ok = λ i s x h. cluster-ServiceStore.create_ok i s.cluster_part x h;
  create_err = λ i s x e h. cluster-ServiceStore.create_err i s.cluster_part x e h;
  next_id_keeps = λ s x. refl;
  delete_unnamed = λ s x. refl;
}

abbrev fixed_table : (R : Type 0) → List R → GormTable Plant R
fixed_table R found = record {
  create = λ r s. (ok tt, s);
  save = λ r s. (ok tt, s);
  upsert = λ r s. (ok tt, s);
  find = λ c s. (ok found, s);
  first = λ c s. (err "record not found", s);
  first_by_id = λ id s. (err "record not found", s);
  delete = λ c s. (ok tt, s);
  delete_by_id = λ id s. (ok tt, s);
  delete_all = λ s. (ok tt, s);
}

-- A row without a name is refused.
abbrev put_row : Bool → FuncInstance → Plant → Result (Unit {0}) × Plant
put_row true i s = (err "no name", s)
put_row false i s = (ok tt, record s { rows = i ∷ s.rows })

abbrev spec : ResourceSpec
spec = record {
  cpu = pos 1;
  memory = pos 2;
  min_replica = pos 1;
  max_replica = pos 5;
  family = "f";
  revision = pos 1;
}

abbrev function_row : FuncMetaData
function_row = record {
  model = zero_model;
  function_name = "f";
  image_url = "image";
  res_spec_list = spec ∷ [];
}

abbrev task_def : AwsTaskDef
task_def = record {
  model = zero_model;
  task_family = "f";
  task_revision = pos 1;
  function_name = "f";
  cpu = pos 1;
  memory = pos 2;
  image_url = "image";
}

abbrev name_of : Condition → String
name_of ((column, Value.text name) ∷ c) = name
name_of c = ""

abbrev rows_of : String → Plant → List FuncMetaData
rows_of name s = select (λ r. r.function_name == name) s.functions

abbrev rows_for : Condition → Plant → List FuncMetaData
rows_for [] s = s.functions
rows_for (e ∷ c) s = rows_of (name_of (e ∷ c)) s

abbrev plant_db : Gorm Plant
plant_db = record {
  func_meta_data = record (fixed_table FuncMetaData []) {
    find = λ c s. (ok (rows_for c s), s);
    create = λ r s. (ok tt, record s { functions = r ∷ s.functions });
    first = λ c s. (ok function_row, s);
  };
  func_instance = record (fixed_table FuncInstance []) {
    upsert = λ i s. put_row (i.aws_service_name == "") i s;
  };
  aws_task_def = record (fixed_table AwsTaskDef []) { first = λ c s. (ok task_def, s) };
  req_schedule_info = record (fixed_table ReqScheduleInfo []) { find = λ c s. (ok s.placed, s) };
  begin = λ s. record s { saved = s.rows };
  rollback = λ s. record s { rows = s.saved };
  commit = λ s. (ok tt, s);
}

plant-IsTransactional : IsTransactional plant_db (λ s. s.rows) (λ s. s.saved) ◌∷◌
plant-IsTransactional = record {
  begin_rows = λ s. refl;
  begin_saved = λ s. refl;
  upsert_ok = λ i s h. stored (i.aws_service_name == "") i s h;
  upsert_saved = λ i s. unsaved (i.aws_service_name == "") i s;
  rollback_rows = λ s. refl;
  commit_ok = λ s h. refl;
  commit_err = λ s e h. absurd (cc);
}
  where
    stored :
        (b : Bool) (i : FuncInstance) (s : Plant)
        → (put_row b i s).0 ≡ ok tt
        → (put_row b i s).1.rows ≡ i ∷ s.rows
    stored true i s h = absurd (cc)
    stored false i s h = refl

    unsaved : (b : Bool) (i : FuncInstance) (s : Plant) → (put_row b i s).1.saved ≡ s.saved
    unsaved true i s = refl
    unsaved false i s = refl

abbrev empty_plant : Plant
empty_plant = record {
  cluster_part = empty_cluster;
  rows = machine "old" "10.0.0.9" ∷ [];
  saved = [];
  functions = [];
  placed = [];
}

-- The second row is refused, and the first one is not kept.
refused_batch :
    update_func_instance_batch plant_db (machine "one" "10.0.0.1" ∷ machine "" "" ∷ []) empty_plant
    ≡ (err "no name", record empty_plant { saved = empty_plant.rows })
unfolding update_func_instance_batch
refused_batch = refl

update_func_instance_batch-IsAtomic_example :
    IsAtomic plant_db
      (λ s. s.rows)
      (λ s. s.saved)
      ◌∷◌
      plant-IsTransactional
      (machine "one" "10.0.0.1" ∷ machine "" "" ∷ [])
      empty_plant
      (update_func_instance_batch plant_db
        (machine "one" "10.0.0.1" ∷ machine "" "" ∷ [])
        empty_plant)
update_func_instance_batch-IsAtomic_example =
    update_func_instance_batch-IsAtomic plant_db (λ s. s.rows) (λ s. s.saved) ◌∷◌
      plant-IsTransactional (machine "one" "10.0.0.1" ∷ machine "" "" ∷ []) empty_plant

-- What a batch of rows leaves alone.
abbrev view : Plant → Cluster × List FuncMetaData
view s = (s.cluster_part, s.functions)

put_row-view :
    (b : Bool) (i : FuncInstance) (l : List FuncInstance) (s : Plant)
    → ((t : Plant) → view (upsert_all plant_db l t).1 ≡ view t)
    → view (continue (put_row b i s).0 (λ u. upsert_all plant_db l) (put_row b i s).1).1 ≡ view s
put_row-view true i l s later = refl
put_row-view false i l s later = later (record s { rows = i ∷ s.rows })

upsert_all-view : (l : List FuncInstance) (s : Plant) → view (upsert_all plant_db l s).1 ≡ view s
unfolding upsert_all
upsert_all-view [] s = refl
upsert_all-view (i ∷ l) s = put_row-view (i.aws_service_name == "") i l s (upsert_all-view l)

end_batch-view : (x : Result (Unit {0}) × Plant) → view (end_batch plant_db x.0 x.1).1 ≡ view x.1
end_batch-view (ok u, s) = refl
end_batch-view (err e, s) = refl

batch-view :
    (l : List FuncInstance) (s : Plant) → view (update_func_instance_batch plant_db l s).1 ≡ view s
unfolding update_func_instance_batch
batch-view l s =
    let begun : Plant = record s { saved = s.rows } in
    end_batch-view (upsert_all plant_db l begun) ∙ upsert_all-view l begun

abbrev has : String → Plant → Bool
has name s = is_present plant_db (is_empty (rows_of name s))

plant-IsFunctionTable : IsFunctionTable plant_db has
unfolding has_func_meta_data_by_function_name create_func_meta_data
plant-IsFunctionTable = record {
  query = λ name s b h. cc;
  create_ok = λ r s h. rw ((string_keys.same_iff r.function_name r.function_name).1 refl) refl;
  batch_keeps = λ name l s.
      ap (λ v. is_present plant_db (is_empty (select (λ r. r.function_name == name) v.1)))
        (batch-view l s);
}

plant-IsUntouched :
    {V : Type 0} (part : List FuncInstance × List FuncMetaData → V)
    → IsUntouched plant (λ s. part (s.rows, s.functions))
plant-IsUntouched part = record {
  next_id = λ s. refl;
  create_service = λ i s. refl;
  delete_service = λ c n s. refl;
}

abbrev manager : FuncManager
manager = record {
  aws_client = client;
  hot_resource_pool = InstanceType.ec2;
  cold_resource_pool = InstanceType.fargate;
  auto_scaling_step = pos 1;
  auto_scaling_window = pos 3;
  use_public_ipv4 = false;
}
