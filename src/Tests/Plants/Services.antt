-- ===== src/Tests/Plants/Services.antt =====
-- The creation and growth of functions, and the deletion of a service, at small inputs.
use pixels_spike.Base.{
  ℕ, zero, suc, ◌<◌, ◌≡◌, ◌≢◌, refl, [], ◌∷◌, true, false, arith, ap, select, some, none,
}
use pixels_spike.Base.Exits.{fails}
use pixels_spike.Base.Int.{pos, negsuc, ◌+ℤ◌, ◌-ℤ◌, add32, sub32, wrap32}
use pixels_spike.Base.Keys.{◌==◌, string_keys}
use pixels_spike.AwsClient.{delete_instance, reg_task_def}
use pixels_spike.FuncManager.Functions.{CreateFunctionRequest, define_resources, create_function}
use pixels_spike.FuncManager.Functions.Creation.{create_function-once}
use pixels_spike.FuncManager.Scaling.{
  ScaleFunctionRequest, find_replicas, real_scale_cnt, scale_function,
}
use pixels_spike.FuncManager.Scaling.Deletion.{
  at_round, async_delete, is_free, async_delete-first_free,
}
use pixels_spike.FuncManager.Scaling.Bounds.{NoWrap}
use pixels_spike.FuncManager.Scaling.Growth.{IsGrown, scale_function-IsGrown}
use pixels_spike.FuncManager.Scaling.Reductions.{Reads}
use pixels_spike.Model.{zero_model}
use pixels_spike.Storage.{
  is_present, is_empty, get_func_meta_data_by_function_name, get_func_instance_by_condition,
  get_aws_task_def_by_func_cpu_men_img, has_func_meta_data_by_function_name, create_func_meta_data,
  update_aws_task_def, get_req_schedule_info_by_aws_service_name,
}
use pixels_spike.Tests.Clusters.{client, running}
use pixels_spike.Tests.Plants.{
  Plant, plant, plant-ServiceStore, spec, function_row, task_def, plant_db, plant-IsTransactional,
  empty_plant, batch-view, has, plant-IsFunctionTable, plant-IsUntouched, manager,
}

-- There is room for two of the three services: the creation fails, and cannot be tried again.
abbrev create_three : CreateFunctionRequest
create_three = record {
  function_name = "f";
  image_url = "image";
  resources = record { cpu = pos 1; memory = pos 2; min_replica = pos 3; max_replica = pos 5 } ∷ [];
}

abbrev half_created : Plant
half_created = (create_function plant_db plant manager (λ i. []) create_three empty_plant).1

create_function-once_example :
    (has "f" half_created ≡ true)
    × ((create_function plant_db plant manager (λ i. []) create_three half_created).0
        ≡ fails "function has been created")
unfolding has_func_meta_data_by_function_name create_func_meta_data define_resources reg_task_def
    update_aws_task_def get_aws_task_def_by_func_cpu_men_img create_function
create_function-once_example =
    create_function-once plant_db plant manager plant-IsFunctionTable
      (λ name.
        plant-IsUntouched
          (λ p. is_present plant_db (is_empty (select (λ r. r.function_name == name) p.1))))
      (λ i. []) create_three empty_plant empty_plant empty_plant
      (record spec { min_replica = pos 3 } ∷ []) refl refl refl (λ i. []) create_three true refl
      refl

-- The maximum leaves room for five instances, and the cluster for two.
abbrev nine_more : ScaleFunctionRequest
nine_more = record { function_name = "f"; cpu = pos 1; memory = pos 2; scale_cnt = pos 9 }

abbrev reads : Reads plant_db plant manager nine_more empty_plant
unfolding get_func_meta_data_by_function_name get_func_instance_by_condition
    get_aws_task_def_by_func_cpu_men_img
reads = record {
  meta_data = function_row;
  current = [];
  task_def = task_def;
  after_meta_data = empty_plant;
  after_current = empty_plant;
  after_all = empty_plant;
  read_meta_data = refl;
  read_current = refl;
  read_task_def = refl;
}

declared : pos 5 ≢ negsuc 0
declared h = absurd (cc)

nine_range : NoWrap (pos 9) (pos 0) (pos 5, pos 1)
unfolding ◌+ℤ◌ ◌-ℤ◌
nine_range = record {
  total = record { above = omega arith; below = omega arith };
  up = record { above = omega arith; below = omega arith };
  down = record { above = omega arith; below = omega arith };
}

scale_function-IsGrown_example :
    IsGrown plant_db plant manager plant-ServiceStore plant-IsTransactional
      (plant-IsUntouched (λ p. p.0))
      (λ l s x. ap (λ v. running x v.0) (batch-view l s))
      nine_more
      task_def
      5
      empty_plant
      (scale_function plant_db plant manager [] nine_more empty_plant)
unfolding find_replicas real_scale_cnt add32 sub32 wrap32 ◌+ℤ◌ ◌-ℤ◌ reads
scale_function-IsGrown_example =
    scale_function-IsGrown plant_db plant manager plant-ServiceStore plant-IsTransactional
      (plant-IsUntouched (λ p. p.0)) (λ l s x. ap (λ v. running x v.0) (batch-view l s)) []
      nine_more empty_plant reads 4 declared (omega arith)
      (record { above = omega arith; below = omega arith }) nine_range refl

-- A request is placed on the service in the first round, and no longer in the second.
abbrev occupied : Plant
occupied = record empty_plant {
  placed =
      record {
        model = zero_model;
        req_id = 1;
        req_payload = "";
        function_name = "f";
        placed_aws_service_name = "one";
        placed_ins_ipv4 = "10.0.0.1";
        required_cpu = pos 1;
        required_memory = pos 1;
      }
      ∷ [];
}

abbrev released : ℕ → Plant → Plant
released i s = record s { placed = [] }

busy_once :
    (j : ℕ)
    → j < 1
    → is_free
        (get_req_schedule_info_by_aws_service_name plant_db "one"
          (at_round plant_db plant manager released "one" 0 j occupied)).0
      ≡ false
unfolding at_round get_req_schedule_info_by_aws_service_name
busy_once zero h = refl
busy_once (suc j) h = absurd (omega arith)

async_delete-first_free_example :
    (async_delete plant_db plant manager released "one" 3 0 occupied
      ≡ some (delete_instance plant client "one" empty_plant).1)
    × (async_delete plant_db plant manager released "one" 1 0 occupied ≡ none)
unfolding at_round get_req_schedule_info_by_aws_service_name
async_delete-first_free_example =
    async_delete-first_free plant_db plant manager released "one" 1 3 occupied busy_once refl
      (omega arith)
