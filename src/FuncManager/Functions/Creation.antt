-- ===== src/FuncManager/Functions/Creation.antt =====
-- pkg/funcmanager/funcmanager.go: what `CreateFunction` leaves when it fails half-way.
use pixels_spike.Base.{ℕ, suc, ◌≡◌, refl, ap, ◌∙◌, List, [], ◌∷◌, Bool, true, false, String, ok}
use pixels_spike.Base.Exits.{returns, fails, Step, run, ◌>>=◌}
use pixels_spike.AwsClient.{Cloud}
use pixels_spike.AwsClient.Keeps.{IsUntouched, Keeps, >>=-Keeps, batch_create_instance-Keeps}
use pixels_spike.FuncManager.{FuncManager}
use pixels_spike.FuncManager.Functions.{
  CreateFunctionRequest, define_resources, create_instances, create_new, create_function,
}
use pixels_spike.Model.{FuncInstance, FuncMetaData, ResourceSpec, zero_model}
use pixels_spike.Storage.{
  Gorm, has_func_meta_data_by_function_name, create_func_meta_data, update_func_instance_batch,
}

-- What the code relies on of the table of functions, where `has name s` says that a row has the
-- name: the query of the name tells, a new row is there, and the table of instances is another one.
pub record IsFunctionTable {S : Type 0} (db : Gorm S) (has : String → S → Bool) : Type 0 where
  pub query :
      (name : String) (s : S) (b : Bool)
      → (has_func_meta_data_by_function_name db name s).0 ≡ ok b
      → b ≡ has name s
  pub create_ok :
      (r : FuncMetaData) (s : S)
      → (create_func_meta_data db r s).0 ≡ ok tt
      → has r.function_name (create_func_meta_data db r s).1 ≡ true
  pub batch_keeps :
      (name : String) (l : List FuncInstance) (s : S)
      → has name (update_func_instance_batch db l s).1 ≡ has name s

-- A view of the state that neither the calls of AWS nor the batch of rows change.
module _ {S V : Type 0} (db : Gorm S) (cloud : Cloud S) (f : FuncManager) (view : S → V)
    (apart : IsUntouched cloud view)
    (batch_keeps : (l : List FuncInstance) (s : S)
      → view (update_func_instance_batch db l s).1 ≡ view s) where
  create_instances-Keeps :
      (turns : ℕ → List ℕ) (function_name : String) (i : ℕ) (specs : List ResourceSpec)
      → Keeps view (create_instances db cloud f turns function_name i specs)
  unfolding create_instances
  create_instances-Keeps turns function_name i [] = record { kept = λ s. refl }
  create_instances-Keeps turns function_name i (res ∷ rest) =
      >>=-Keeps
        (batch_create_instance-Keeps cloud f.aws_client view apart res.family res.revision
          f.hot_resource_pool (turns i) res.min_replica)
        λ names.
          >>=-Keeps (create_instances-Keeps turns function_name (suc i) rest)
            λ more. record { kept = λ s. refl }

  -- What follows the creation of the row.
  abbrev pub finish : (ℕ → List ℕ) → CreateFunctionRequest → List ResourceSpec → Step S (Unit {0})
  finish turns req specs = do
    instances ← create_instances db cloud f turns req.function_name 0 specs
    run (update_func_instance_batch db instances)

  pub finish-Keeps :
      (turns : ℕ → List ℕ) (req : CreateFunctionRequest) (specs : List ResourceSpec)
      → Keeps view (finish turns req specs)
  finish-Keeps turns req specs =
      >>=-Keeps (create_instances-Keeps turns req.function_name 0 specs)
        λ instances. record { kept = batch_keeps instances }

abbrev pub meta_data : CreateFunctionRequest → List ResourceSpec → FuncMetaData
meta_data req specs = record {
  model = zero_model;
  function_name = req.function_name;
  image_url = req.image_url;
  res_spec_list = specs;
}

module _ {S : Type 0} (db : Gorm S) (cloud : Cloud S) (f : FuncManager) {has : String → S → Bool}
    (table : IsFunctionTable db has) (apart : (name : String) → IsUntouched cloud (has name)) where
  refused :
      (turns : ℕ → List ℕ) (req : CreateFunctionRequest) (s : S) (b : Bool)
      → (has_func_meta_data_by_function_name db req.function_name s).0 ≡ ok b
      → has req.function_name s ≡ true
      → (create_function db cloud f turns req s).0 ≡ fails "function has been created"
  unfolding create_function create_new
  refused turns req s b read there =
      let yes_there : b ≡ true = table.query req.function_name s b read ∙ there in
      rw (read, yes_there) refl

  module _ (turns : ℕ → List ℕ) (req : CreateFunctionRequest) (s s' t : S)
      (specs : List ResourceSpec)
      (absent : has_func_meta_data_by_function_name db req.function_name s ≡ (ok false, s'))
      (defined : define_resources db cloud f req req.resources s' ≡ (returns specs, t))
      (made : (create_func_meta_data db (meta_data req specs) t).0 ≡ ok tt) where
    stays : has req.function_name (create_function db cloud f turns req s).1 ≡ true
    unfolding create_function create_new
    stays =
        let stored = (create_func_meta_data db (meta_data req specs) t).1 in
        rw (absent, defined, made)
          ((finish-Keeps db cloud f (has req.function_name) (apart req.function_name)
                (table.batch_keeps req.function_name) turns req specs).kept
              stored
            ∙ table.create_ok (meta_data req specs) t made)

    -- Once `CreateFunction` has stored the row of the function, the row stays, whatever becomes of
    -- the instances: also if a creation or the storing of the batch fails, or a panic ends the
    -- process. So after a failure every further call for the function, if its query succeeds, is
    -- refused as `function has been created`: the creation cannot be tried again.
    pub create_function-once :
        (turns' : ℕ → List ℕ) (req' : CreateFunctionRequest) (b : Bool)
        → req'.function_name ≡ req.function_name
        → (has_func_meta_data_by_function_name db req'.function_name
            (create_function db cloud f turns req s).1).0
          ≡ ok b
        → (has req.function_name (create_function db cloud f turns req s).1 ≡ true)
          × ((create_function db cloud f turns' req' (create_function db cloud f turns req s).1).0
              ≡ fails "function has been created")
    create_function-once turns' req' b same read =
        let there = ap (λ n. has n (create_function db cloud f turns req s).1) same ∙ stays in
        (stays, refused turns' req' _ b read there)
