-- ===== src/Tests/Plants/Refreshes.antt =====
-- The refresh of the status, and a deletion that fails half-way, at small inputs.
use pixels_spike.Base.{
  map, subst, sym, ◌*◌, ◌^◌, ℕ, ◌≡◌, refl, List, [], ◌∷◌, String, ok, err, ap, some, none,
}
use pixels_spike.Base.Int.{pos}
use pixels_spike.Base.Keys.{string_keys}
use Prim.Native.String.{◌++◌}
use pixels_spike.AwsClient.{Task, Cloud}
use pixels_spike.FuncManager.Status.{
  update_instances_status, gather, refresh, store_updates, apply_all, apply_task, newest,
  apply_found, with_task, read_details, read_detail,
}
use pixels_spike.Model.{FuncInstance}
use pixels_spike.Storage.{Gorm, get_func_meta_data_by_function_name, get_func_instance_by_condition}
use pixels_spike.Tests.Scheduling.{machine}
use pixels_spike.Tests.Plants.{Plant, plant, function_row, plant_db, empty_plant, manager}
use pixels_spike.Base.{Memᴰ}
use pixels_spike.Base.Exits.{returns, panics}
use pixels_spike.FuncManager.Demand.{cal_res_scale}
use pixels_spike.AwsClient.{batch_create_instance, reg_task_def, get_all_tasks, describe_tasks}
use pixels_spike.Storage.{update_aws_task_def}
use pixels_spike.FuncManager.Functions.{create_instances}
use pixels_spike.Base.Int.{pos}
use pixels_spike.Base.Decimal.{decimal}
use pixels_spike.FuncManager.Functions.{
  CreateFunctionRequest, create_function, define_resources, get_all_function, to_api_function,
  delete_function,
}
use pixels_spike.FuncManager.Functions.Listing.{
  IsListedTable, content, described_by, create_function-get_all_function,
}
use pixels_spike.Tests.Plants.{plant-IsUntouched, batch-view}
use pixels_spike.Storage.{
  update_func_instance_batch, has_func_meta_data_by_function_name, create_func_meta_data,
  get_aws_task_def_by_func_cpu_men_img, get_func_meta_data_by_condition,
}
use pixels_spike.FuncManager.Functions.Crash.{IsFunctionStore, delete_function-panics}
use pixels_spike.Storage.{
  delete_func_instance_function_name, delete_func_meta_data_by_function_name,
  get_func_instance_by_function_name,
}
use pixels_spike.Tests.Floats.{Fraction, fractions}

ok_injective : {A : Type 0} (x y : A) → ok x ≡ ok y → x ≡ y
ok_injective x y h = cc

-- A cluster that runs one task for each service, at the private address 10.0.0.7.
abbrev task_name : String → String
task_name name = name ++ "-task"

abbrev task_of : String → Task
task_of arn = record {
  task_arn = some arn;
  created_at = some 3;
  cpu = some "1024";
  memory = some "2048";
  attachments = ((some "privateIPv4Address", some "10.0.0.7") ∷ []) ∷ [];
  last_status = some "RUNNING";
  desired_status = some "RUNNING";
}

abbrev telling : Cloud Plant
telling = record plant {
  list_tasks = λ c name s. (ok (task_name name ∷ []), s);
  describe_tasks = λ c arns s. (ok (map task_of arns), s);
}

abbrev later : Plant → ℕ × Plant
later s = (20 * 10 ^ 9, s)

abbrev two : List FuncInstance
two = machine "one" "10.0.0.1" ∷ machine "two" "10.0.0.2" ∷ []

refreshed_addresses :
    map
      (λ i. i.ipv4)
      (update_instances_status plant_db telling manager later two empty_plant).1.rows
    ≡ "10.0.0.7" ∷ "10.0.0.7" ∷ "10.0.0.9" ∷ []
unfolding update_instances_status gather get_all_tasks refresh describe_tasks store_updates
    apply_all apply_task newest apply_found with_task read_details read_detail
    update_func_instance_batch
refreshed_addresses = refl

-- AWS describes a task without its memory.
abbrev forgetful : Cloud Plant
forgetful = record telling {
  describe_tasks = λ c arns s. (ok (map (λ arn. record (task_of arn) { memory = none }) arns), s);
}

update_instances_status-forgetful :
    (update_instances_status plant_db forgetful manager later two empty_plant).0
    ≡ panics "runtime error: invalid memory address or nil pointer dereference"
unfolding update_instances_status gather get_all_tasks refresh describe_tasks store_updates
    apply_all apply_task newest apply_found with_task
update_instances_status-forgetful = refl

-- The instance rows cannot be deleted, and the next computation of the demand panics.
abbrev stuck_db : Gorm Plant
stuck_db = record plant_db {
  func_meta_data = record plant_db.func_meta_data {
    find = λ c s. (ok s.functions, s);
    first = λ c s. (ok function_row, s);
    delete = λ c s. (ok tt, record s { functions = [] });
  };
  func_instance = record plant_db.func_instance {
    find = λ c s. (ok s.rows, s);
    delete = λ c s. (err "lock wait timeout exceeded", s);
  };
}

stuck-IsFunctionStore : IsFunctionStore stuck_db plant (λ s. s.rows) (λ s. s.functions)
unfolding delete_func_instance_function_name delete_func_meta_data_by_function_name
stuck-IsFunctionStore = record {
  all_functions = λ s l h d m. subst (Memᴰ d) (sym (ok_injective s.functions l h)) m;
  all_instances = λ s l h i m. subst (Memᴰ i) (ok_injective s.rows l h) m;
  find_keeps = λ s. refl;
  delete_instances_err = λ name s e h. refl;
  delete_function_ok = λ name s h d m. elim m [ ];
  delete_function_keeps = λ name s. refl;
  delete_service_keeps = λ c n s. refl;
}

abbrev created : Plant
created = record empty_plant { functions = function_row ∷ [] }

delete_function-panics_example :
    ((delete_function stuck_db plant manager "f" created).0 ≡ returns tt)
    × ((cal_res_scale fractions
          (Fraction.frac (pos 1) 2)
          stuck_db
          []
          (delete_function stuck_db plant manager "f" created).1).0
        ≡ panics "assignment to entry in nil map")
unfolding delete_function get_func_meta_data_by_function_name get_func_instance_by_function_name
    get_func_instance_by_condition delete_func_instance_function_name
    delete_func_meta_data_by_function_name
delete_function-panics_example =
    delete_function-panics stuck_db plant manager stuck-IsFunctionStore "f" created created created
      function_row created.rows refl refl fractions (Fraction.frac (pos 1) 2) []
      (machine "old" "10.0.0.9") [] created.rows refl refl (Memᴰ.head refl) refl (refl, refl)

plant-IsListedTable : IsListedTable plant_db (λ s. map content s.functions)
plant-IsListedTable = record {
  create_ok = λ r s h. Memᴰ.head refl;
  find_all = λ s l h r m. subst (λ k. Memᴰ r (map content k)) (ok_injective s.functions l h) m;
  batch_keeps = λ l s. ap (λ v. map content v.1) (batch-view l s);
}

abbrev create_two : CreateFunctionRequest
create_two = record {
  function_name = "f";
  image_url = "image";
  resources = record { cpu = pos 1; memory = pos 2; min_replica = pos 2; max_replica = pos 5 } ∷ [];
}

abbrev two_created : Plant
two_created = (create_function plant_db plant manager (λ i. []) create_two empty_plant).1

create_function-get_all_function_example :
    Memᴰ
      (described_by plant_db plant manager plant-IsListedTable
        (plant-IsUntouched (λ p. map content p.1))
        create_two)
      (map (to_api_function plant_db plant manager) two_created.functions)
unfolding has_func_meta_data_by_function_name create_func_meta_data define_resources
    get_aws_task_def_by_func_cpu_men_img create_function get_all_function
    get_func_meta_data_by_condition update_func_instance_batch batch_create_instance decimal
    create_instances reg_task_def update_aws_task_def
create_function-get_all_function_example =
    create_function-get_all_function plant_db plant manager plant-IsListedTable
      (plant-IsUntouched (λ p. map content p.1)) (λ i. []) create_two empty_plant
      (map (to_api_function plant_db plant manager) two_created.functions) refl refl
