-- ===== src/FuncManager/Functions.antt =====
-- pkg/funcmanager/funcmanager.go: the creation, the deletion and the listing of functions.
pub mod Creation
pub mod Crash
pub mod Listing
use pixels_spike.Base.{ℕ, suc, List, [], ◌∷◌, ◌++◌, Bool, true, false, String, Result, ok, err, map}
use pixels_spike.Base.Exits.{Step, pure, fail, ◌>>=◌, ◌>>◌, run, try}
use pixels_spike.Base.Int.{ℤ}
use pixels_spike.AwsClient.{Cloud, batch_create_instance, delete_instance, reg_task_def}
use pixels_spike.Constants.{to_string}
use pixels_spike.FuncManager.{FuncManager, new_instance}
use pixels_spike.Model.{FuncInstance, FuncMetaData, AwsTaskDef, ResourceSpec, zero_model}
use pixels_spike.Storage.{
  Gorm, has_func_meta_data_by_function_name, get_func_meta_data_by_function_name,
  get_func_meta_data_by_condition, create_func_meta_data, delete_func_meta_data_by_function_name,
  get_func_instance_by_function_name, update_func_instance_batch,
  delete_func_instance_function_name, get_aws_task_def_by_func_cpu_men_img, update_aws_task_def,
}

-- The message `api.ResourceSpec`.
pub record ApiResourceSpec : Type 0 where
  pub cpu : ℤ
  pub memory : ℤ
  pub min_replica : ℤ
  pub max_replica : ℤ

pub record CreateFunctionRequest : Type 0 where
  pub function_name : String
  pub image_url : String
  pub resources : List ApiResourceSpec

-- The message `api.FunctionMetaData`.
pub record FunctionMetaData : Type 0 where
  pub function_name : String
  pub image_url : String
  pub resources : List ApiResourceSpec

-- The message `api.ResourceStatus`.
pub record ResourceStatus : Type 0 where
  pub ipv4 : String
  pub cpu : ℤ
  pub memory : ℤ
  pub launch_type : String
  pub last_status : String
  pub desired_status : String

module _ {S : Type 0} (db : Gorm S) (cloud : Cloud S) (f : FuncManager) where
  abbrev pub new_task_def : CreateFunctionRequest → ApiResourceSpec → String × ℤ → AwsTaskDef
  new_task_def req res (family, revision) = record {
    model = zero_model;
    task_family = family;
    task_revision = revision;
    function_name = req.function_name;
    cpu = res.cpu;
    memory = res.memory;
    image_url = req.image_url;
  }

  -- The task definition that is stored for the size, or a new one.
  abbrev pub task_def_of :
      CreateFunctionRequest → ApiResourceSpec → Result AwsTaskDef → Step S (String × ℤ)
  unfolding reg_task_def update_aws_task_def
  task_def_of req res (ok task_def) = pure (task_def.task_family, task_def.task_revision)
  task_def_of req res (err e) = do
    registered ←
        run (reg_task_def cloud f.aws_client req.function_name res.cpu res.memory req.image_url)
    stored ← try (update_aws_task_def db (new_task_def req res registered))
    pure registered

  abbrev pub resource_spec : ApiResourceSpec → String × ℤ → ResourceSpec
  resource_spec res (family, revision) = record {
    cpu = res.cpu;
    memory = res.memory;
    min_replica = res.min_replica;
    max_replica = res.max_replica;
    family = family;
    revision = revision;
  }

  -- Step 2 of `CreateFunction`: the loop over the resources.
  unfoldable pub define_resources :
      CreateFunctionRequest → List ApiResourceSpec → Step S (List ResourceSpec)
  unfolding get_aws_task_def_by_func_cpu_men_img
  define_resources req [] = pure []
  define_resources req (res ∷ rest) = do
    found ←
        try (
          get_aws_task_def_by_func_cpu_men_img db req.function_name res.cpu res.memory
            req.image_url)
    task_def ← task_def_of req res found
    specs ← define_resources req rest
    pure (resource_spec res task_def ∷ specs)

  -- Step 3: the loop over the specifications; `turns i` are the turns of the goroutines of the
  -- batch number `i`.
  unfoldable pub create_instances :
      (ℕ → List ℕ) → String → ℕ → List ResourceSpec → Step S (List FuncInstance)
  unfolding batch_create_instance
  create_instances turns function_name i [] = pure []
  create_instances turns function_name i (res ∷ rest) = do
    names ←
        batch_create_instance cloud f.aws_client res.family res.revision f.hot_resource_pool
          (turns i) res.min_replica
    more ← create_instances turns function_name (suc i) rest
    pure (
        map
          (new_instance function_name res.cpu res.memory res.family res.revision
            f.hot_resource_pool)
          names
        ++ more)

  abbrev pub create_new : (ℕ → List ℕ) → CreateFunctionRequest → Bool → Step S (Unit {0})
  unfolding define_resources create_instances create_func_meta_data update_func_instance_batch
  create_new turns req true = fail "function has been created"
  create_new turns req false = do
    specs ← define_resources req req.resources
    run (
        create_func_meta_data db (record {
          model = zero_model;
          function_name = req.function_name;
          image_url = req.image_url;
          res_spec_list = specs;
        }))
    instances ← create_instances turns req.function_name 0 specs
    run (update_func_instance_batch db instances)

  unfoldable pub create_function : (ℕ → List ℕ) → CreateFunctionRequest → Step S (Unit {0})
  unfolding create_new has_func_meta_data_by_function_name
  create_function turns req = do
    has_created ← run (has_func_meta_data_by_function_name db req.function_name)
    create_new turns req has_created

  -- Step 2 of `DeleteFunction`: a failed deletion is logged.
  pub delete_services : List FuncInstance → Step S (Unit {0})
  unfolding delete_instance
  delete_services [] = pure tt
  delete_services (instance ∷ rest) = do
    deleted ← try (delete_instance cloud f.aws_client instance.aws_service_name)
    delete_services rest

  -- `DeleteFunction`, of a request that names the function.
  unfoldable pub delete_function : String → Step S (Unit {0})
  unfolding delete_services get_func_meta_data_by_function_name get_func_instance_by_function_name
      delete_func_instance_function_name delete_func_meta_data_by_function_name
  delete_function function_name = do
    meta_data ← run (get_func_meta_data_by_function_name db function_name)
    instances ← run (get_func_instance_by_function_name db function_name)
    delete_services instances
    rows_deleted ← try (delete_func_instance_function_name db function_name)
    meta_data_deleted ← try (delete_func_meta_data_by_function_name db function_name)
    pure tt

  abbrev pub to_api_spec : ResourceSpec → ApiResourceSpec
  to_api_spec res = record {
    cpu = res.cpu;
    memory = res.memory;
    min_replica = res.min_replica;
    max_replica = res.max_replica;
  }

  abbrev pub to_api_function : FuncMetaData → FunctionMetaData
  to_api_function data_ = record {
    function_name = data_.function_name;
    image_url = data_.image_url;
    resources = map to_api_spec data_.res_spec_list;
  }

  unfoldable pub get_all_function : Step S (List FunctionMetaData)
  unfolding get_func_meta_data_by_condition
  get_all_function = do
    list ← run (get_func_meta_data_by_condition db [])
    pure (map to_api_function list)

  abbrev pub to_status : FuncInstance → ResourceStatus
  unfolding to_string
  to_status i = record {
    ipv4 = i.ipv4;
    cpu = i.cpu;
    memory = i.memory;
    launch_type = to_string i.launch_type;
    last_status = i.last_status;
    desired_status = i.desired_status;
  }

  -- `GetFunctionResources`, of a request that names the function; the reply repeats the name.
  unfoldable pub get_function_resources : String → Step S (String × List ResourceStatus)
  unfolding get_func_instance_by_function_name to_status
  get_function_resources function_name = do
    list ← run (get_func_instance_by_function_name db function_name)
    pure (function_name, map to_status list)
