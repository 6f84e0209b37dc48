-- ===== src/FuncManager/Functions/Crash.antt =====
-- pkg/funcmanager/funcmanager.go: a deletion of a function that fails half-way, and the auto-scaling
-- after it.
use pixels_spike.Base.{◌≡◌, ◌≢◌, refl, sym, ap, subst, ◌∙◌, List, [], ◌∷◌, String, ok, err, Memᴰ}
use pixels_spike.Base.Exits.{returns, panics}
use pixels_spike.Base.Float.{FloatOps}
use pixels_spike.AwsClient.{Cloud, delete_instance}
use pixels_spike.FuncManager.{FuncManager}
use pixels_spike.FuncManager.Demand.{cal_res_scale}
use pixels_spike.FuncManager.Demand.Orphans.{scales-orphan}
use pixels_spike.FuncManager.Functions.{delete_services, delete_function}
use pixels_spike.Model.{FuncInstance, FuncMetaData}
use pixels_spike.ReqQueue.{Request}
use pixels_spike.Storage.{
  Gorm, get_func_meta_data_by_condition, get_func_meta_data_by_function_name,
  get_func_instance_by_condition, get_func_instance_by_function_name,
  delete_func_instance_function_name, delete_func_meta_data_by_function_name,
}

-- What the code relies on of the two tables, with the rows `instances s` and `functions s`: a query
-- of all rows finds them all and changes none, the deletion of the name of a function leaves no row
-- of it, and one that fails leaves the instances as they were. The tables and the cluster are apart.
pub record IsFunctionStore {S : Type 0} (db : Gorm S) (cloud : Cloud S)
    (instances : S → List FuncInstance) (functions : S → List FuncMetaData) : Type 0 where
  pub all_functions :
      (s : S) (l : List FuncMetaData)
      → (db.func_meta_data.find [] s).0 ≡ ok l
      → (d : FuncMetaData) → Memᴰ d l
      → Memᴰ d (functions s)
  pub all_instances :
      (s : S) (l : List FuncInstance)
      → (db.func_instance.find [] s).0 ≡ ok l
      → (i : FuncInstance) → Memᴰ i (instances s)
      → Memᴰ i l
  pub find_keeps : (s : S) → instances (db.func_meta_data.find [] s).1 ≡ instances s
  pub delete_instances_err :
      (name : String) (s : S) (e : String)
      → (delete_func_instance_function_name db name s).0 ≡ err e
      → instances (delete_func_instance_function_name db name s).1 ≡ instances s
  pub delete_function_ok :
      (name : String) (s : S)
      → (delete_func_meta_data_by_function_name db name s).0 ≡ ok tt
      → (d : FuncMetaData) → Memᴰ d (functions (delete_func_meta_data_by_function_name db name s).1)
      → d.function_name ≢ name
  pub delete_function_keeps :
      (name : String) (s : S)
      → instances (delete_func_meta_data_by_function_name db name s).1 ≡ instances s
  pub delete_service_keeps :
      (c n : String) (s : S) → instances (cloud.delete_service c n s).1 ≡ instances s

module _ {S : Type 0} (db : Gorm S) (cloud : Cloud S) (f : FuncManager)
    {instances : S → List FuncInstance} {functions : S → List FuncMetaData}
    (store : IsFunctionStore db cloud instances functions) where
  open store use {
    all_functions, all_instances, find_keeps, delete_instances_err, delete_function_ok,
    delete_function_keeps, delete_service_keeps,
  }

  delete_services-returns :
      (l : List FuncInstance) (s : S)
      → ((delete_services db cloud f l s).0 ≡ returns tt)
        × (instances (delete_services db cloud f l s).1 ≡ instances s)
  unfolding delete_services delete_instance
  delete_services-returns [] s = (refl, refl)
  delete_services-returns (i ∷ l) s =
      let x = cloud.delete_service f.aws_client.cluster i.aws_service_name s in
      let (returned, kept) = delete_services-returns l x.1 in
      (returned, kept ∙ delete_service_keeps f.aws_client.cluster i.aws_service_name s)

  module _ (name : String) (s s' t : S) (meta_data : FuncMetaData) (listed : List FuncInstance)
      (found : get_func_meta_data_by_function_name db name s ≡ (ok meta_data, s'))
      (read : get_func_instance_by_function_name db name s' ≡ (ok listed, t)) where
    -- The states after the deletion of the services and of the rows of the instances.
    abbrev pub after_services : S
    after_services = (delete_services db cloud f listed t).1

    abbrev pub after_instances : S
    after_instances = (delete_func_instance_function_name db name after_services).1

    abbrev after_all : S
    after_all = (delete_func_meta_data_by_function_name db name after_instances).1

    deleted : delete_function db cloud f name s ≡ (returns tt, after_all)
    unfolding delete_function
    deleted = rw (found, read, (delete_services-returns listed t).0) refl

    left_over :
        {e : String}
        → (delete_func_instance_function_name db name after_services).0 ≡ err e
        → instances after_all ≡ instances t
    left_over {e} failed =
        delete_function_keeps name after_instances
        ∙ delete_instances_err name after_services e failed
        ∙ (delete_services-returns listed t).1

    -- If `DeleteFunction` fails to delete the rows of the instances of a function, it still reports
    -- success and deletes the metadata of the function. Then one stored instance of it is enough to
    -- make the next computation of the demand, whatever its history and if its queries succeed, end
    -- the process with a panic.
    pub delete_function-panics :
        {F : Type 0} (float : FloatOps F) (threshold : F) (history : List (List Request))
        {e : String} (orphan : FuncInstance) (l : List FuncMetaData) (is : List FuncInstance)
        → (delete_func_instance_function_name db name after_services).0 ≡ err e
        → (delete_func_meta_data_by_function_name db name after_instances).0 ≡ ok tt
        → Memᴰ orphan (instances t)
        → orphan.function_name ≡ name
        → (let after = (delete_function db cloud f name s).1 in
            ((db.func_meta_data.find [] after).0 ≡ ok l)
            × ((db.func_instance.find [] (db.func_meta_data.find [] after).1).0 ≡ ok is))
        → ((delete_function db cloud f name s).0 ≡ returns tt)
          × ((cal_res_scale float threshold db history (delete_function db cloud f name s).1).0
              ≡ panics "assignment to entry in nil map")
    unfolding cal_res_scale get_func_meta_data_by_condition get_func_instance_by_condition
    delete_function-panics float threshold history {e} orphan l is failed gone stored same
          (metas, rows) =
        let after = (delete_function db cloud f name s).1 in
        let now : after ≡ after_all = ap (λ x. x.1) deleted in
        let kept : instances (db.func_meta_data.find [] after).1 ≡ instances t =
          find_keeps after ∙ ap instances now ∙ left_over failed in
        let there =
          all_instances (db.func_meta_data.find [] after).1 is rows orphan
            (subst (Memᴰ orphan) (sym kept) stored) in
        let none_left =
          λ (d : FuncMetaData) (m : Memᴰ d l) (e : d.function_name ≡ orphan.function_name).
            delete_function_ok name after_instances gone d
              (subst (λ u. Memᴰ d (functions u)) now (all_functions after l metas d m))
              (e ∙ same) in
        let panicked = scales-orphan float threshold history l is orphan there none_left in
        (ap (λ x. x.0) deleted, rw (metas, rows, panicked) refl)
