-- ===== src/Tests/Demands.antt =====
-- The auto-scaling and the deletion of instances on small inputs.
use pixels_spike.Base.{
  ◌≢◌, ℕ, ◌≡◌, ◌↔◌, refl, List, [], ◌∷◌, some, true, false, String, ok, err, Memᴰ, arith, length,
}
use pixels_spike.Base.Exits.{returns}
use pixels_spike.Base.Int.{max_ℤ, pos, negsuc, ◌+ℤ◌, ◌-ℤ◌, add32, sub32, wrap32}
use pixels_spike.Base.Keys.{lookup, insert, string_keys}
use pixels_spike.Base.Numerals.{atoi}
use pixels_spike.AwsClient.{Cloud}
use pixels_spike.Constants.{InstanceType}
use pixels_spike.FuncManager.{FuncManager, new_instance}
use pixels_spike.FuncManager.Demand.{ResScale, spec_for, sort_specs, scales}
use pixels_spike.FuncManager.Demand.Choice.{IsChoice, spec_for-IsChoice}
use pixels_spike.FuncManager.Demand.Expected.{IsExpected, scales-IsExpected}
use pixels_spike.FuncManager.Demand.Window.{slide, slide_all, slide_all-newest}
use pixels_spike.FuncManager.Scaling.{ScaleFunctionRequest, scale_function, find_replicas}
use pixels_spike.FuncManager.Scaling.Bounds.{first_cold, NoWrap, minus, delete_rows}
use pixels_spike.FuncManager.Scaling.Reductions.{Reads, scale_function-first_cold}
use pixels_spike.Model.{AwsTaskDef, FuncInstance, FuncMetaData, ResourceSpec, zero_model}
use pixels_spike.Storage.{
  Gorm, get_func_meta_data_by_function_name, get_func_instance_by_condition,
  get_aws_task_def_by_func_cpu_men_img,
}
use pixels_spike.Tests.Clusters.{client}
use pixels_spike.Tests.Floats.{Fraction, fractions}
use pixels_spike.Tests.Placement.{request}
use pixels_spike.Tests.Store.{Memory, memory_db, empty_table}

atoi_1024 : atoi "1024" ≡ pos 1024
unfolding atoi
atoi_1024 = refl

abbrev manager : FuncManager
manager = record {
  aws_client = client;
  hot_resource_pool = InstanceType.ec2;
  cold_resource_pool = InstanceType.fargate;
  auto_scaling_step = pos 1;
  auto_scaling_window = pos 3;
  use_public_ipv4 = false;
}

abbrev hot : FuncInstance
hot = new_instance "f" (pos 2) (pos 2) "f" (pos 1) InstanceType.ec2 "hot"

abbrev cold : String → FuncInstance
cold name = new_instance "f" (pos 2) (pos 2) "f" (pos 1) InstanceType.fargate name

abbrev stored : Memory
stored = record { requests = []; machines = cold "a" ∷ hot ∷ cold "b" ∷ [] }

-- Nothing is asked of AWS here.
abbrev no_cloud : Cloud Memory
no_cloud = record {
  next_id = λ s. (err "", s);
  create_service = λ i s. (err "", s);
  delete_service = λ c name s. (err "", s);
  list_tasks = λ c name s. (err "", s);
  describe_tasks = λ c tasks s. (err "", s);
  register_task_definition = λ i s. (err "", s);
  describe_network_interfaces = λ id s. (err "", s);
}

slide_all-newest_example :
    (slide_all {A = ℕ} 2 (1 ∷ 2 ∷ 3 ∷ []) [] ≡ 3 ∷ 2 ∷ [])
    × ((x : ℕ) (window : List ℕ)
        → ((slide 2 x window).1 ≡ true) ↔ (length (slide 2 x window).0 ≡ 2))
slide_all-newest_example = slide_all-newest 2 (1 ∷ 2 ∷ 3 ∷ [])

abbrev spec : ℕ → ℕ → ResourceSpec
spec cpu memory = record {
  cpu = pos cpu;
  memory = pos memory;
  min_replica = pos 1;
  max_replica = pos 5;
  family = "f";
  revision = pos 1;
}

abbrev task_def : AwsTaskDef
task_def = record {
  model = zero_model;
  task_family = "f";
  task_revision = pos 1;
  function_name = "f";
  cpu = pos 2;
  memory = pos 2;
  image_url = "image";
}

abbrev meta_data : FuncMetaData
meta_data = record {
  model = zero_model;
  function_name = "f";
  image_url = "image";
  res_spec_list = spec 4 4 ∷ spec 2 2 ∷ [];
}

spec_for-IsChoice_example :
    (res : ResourceSpec) × (spec_for fractions
        (request "f" 1 2)
        (sort_specs meta_data).res_spec_list
      ≡ some res)
    × IsChoice fractions (request "f" 1 2) meta_data.res_spec_list res
spec_for-IsChoice_example =
    spec_for-IsChoice fractions (request "f" 1 2) meta_data (spec 4 4) (Memᴰ.head refl)

-- The function "f" is stored, with its task definitions.
abbrev stored_db : Gorm Memory
stored_db = record memory_db {
  func_meta_data = record (empty_table FuncMetaData) { first = λ c s. (ok meta_data, s) };
  aws_task_def = record (empty_table AwsTaskDef) { first = λ c s. (ok task_def, s) };
}

abbrev two_less : ScaleFunctionRequest
two_less = record { function_name = "f"; cpu = pos 2; memory = pos 2; scale_cnt = negsuc 1 }

abbrev reads : Reads stored_db no_cloud manager two_less stored
unfolding get_func_meta_data_by_function_name get_func_instance_by_condition
    get_aws_task_def_by_func_cpu_men_img lookup
reads = record {
  meta_data = meta_data;
  current = stored.machines;
  task_def = task_def;
  after_meta_data = stored;
  after_current = stored;
  after_all = stored;
  read_meta_data = refl;
  read_current = refl;
  read_task_def = refl;
}

declared : pos 5 ≢ negsuc 0
declared h = absurd (cc)

small_range : NoWrap (negsuc 1) (pos 3) (pos 5, pos 1)
unfolding ◌+ℤ◌ ◌-ℤ◌
small_range = record {
  total = record { above = omega arith; below = omega arith };
  up = record { above = omega arith; below = omega arith };
  down = record { above = omega arith; below = omega arith };
}

scale_function-first_cold_example :
    (k : ℕ) × (scale_function stored_db no_cloud manager [] two_less stored ≡ (
      returns (first_cold stored_db manager k stored.machines),
      delete_rows stored_db manager (first_cold stored_db manager k stored.machines) stored,
    ))
    × (pos 3 +ℤ minus k ≡ max_ℤ (pos 3 +ℤ two_less.scale_cnt) (pos 1))
unfolding find_replicas reads
scale_function-first_cold_example =
    scale_function-first_cold stored_db no_cloud manager [] two_less stored reads declared
      (omega arith) (record { above = omega arith; below = omega arith })
      (record { above = omega arith; below = omega arith }) small_range (omega arith)

-- Two requests of the smaller size against a threshold of one half: four instances are expected.
abbrev half : Fraction
half = Fraction.frac (pos 1) 2

abbrev demanded : List (String × List ResScale)
demanded =
    (
      "f",
      record { cpu = pos 2; memory = pos 2; scale_cnt = pos 1 }
          ∷ record { cpu = pos 4; memory = pos 4; scale_cnt = pos 1 }
          ∷ [],
    )
    ∷ []

demanded_ok :
    scales fractions half
      ((request "f" 1 2 ∷ request "f" 2 2 ∷ []) ∷ [])
      (meta_data ∷ [])
      stored.machines
    ≡ returns demanded
unfolding scales lookup insert add32 sub32 wrap32 ◌+ℤ◌ ◌-ℤ◌
demanded_ok = refl

scales-IsExpected_example :
    IsExpected fractions half
      ((request "f" 1 2 ∷ request "f" 2 2 ∷ []) ∷ [])
      (meta_data ∷ [])
      stored.machines
      "f"
      (record { cpu = pos 2; memory = pos 2; scale_cnt = pos 1 })
scales-IsExpected_example =
    scales-IsExpected fractions half ((request "f" 1 2 ∷ request "f" 2 2 ∷ []) ∷ [])
      (meta_data ∷ []) stored.machines demanded "f"
      (record { cpu = pos 2; memory = pos 2; scale_cnt = pos 1 }
        ∷ record { cpu = pos 4; memory = pos 4; scale_cnt = pos 1 }
        ∷ [])
      (record { cpu = pos 2; memory = pos 2; scale_cnt = pos 1 }) demanded_ok (Memᴰ.head refl)
      (Memᴰ.head refl)
