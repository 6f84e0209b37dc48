-- ===== src/FuncManager/Functions/Listing.antt =====
-- pkg/funcmanager/funcmanager.go: a function that was created is listed.
use mathlib.Core.List.Memᴰ
use mathlib.Core.List.{map-map}
use pixels_spike.Base.{
  ℕ, ◌≡◌, refl, sym, ap, subst, ◌∙◌, List, [], ◌∷◌, map, Bool, true, false, String, Result, ok, err,
  Memᴰ,
}
use pixels_spike.Base.Exits.{Exit, returns, fails, panics, Step, proceed, run, to_exit, ◌>>=◌}
use pixels_spike.Base.Int.{ℤ}
use pixels_spike.AwsClient.{Cloud}
use pixels_spike.AwsClient.Keeps.{IsUntouched}
use pixels_spike.FuncManager.{FuncManager}
use pixels_spike.FuncManager.Functions.{
  ApiResourceSpec, CreateFunctionRequest, FunctionMetaData, resource_spec, define_resources,
  create_new, create_function, to_api_spec, to_api_function, get_all_function,
}
use pixels_spike.FuncManager.Functions.Creation.{meta_data, finish, finish-Keeps}
use pixels_spike.Model.{FuncInstance, FuncMetaData, ResourceSpec}
use pixels_spike.Storage.{
  Gorm, has_func_meta_data_by_function_name, create_func_meta_data, get_func_meta_data_by_condition,
  update_func_instance_batch,
}

-- What a row of a function is, without the fields that the mapper sets.
abbrev pub content : FuncMetaData → String × String × List ResourceSpec
content d = (d.function_name, d.image_url, d.res_spec_list)

-- What the code relies on of the table of functions, where `rows s` are the contents of its rows: a
-- new row is stored, a query of all finds every row, and a batch of instances changes none.
pub record IsListedTable {S : Type 0} (db : Gorm S)
    (rows : S → List (String × String × List ResourceSpec)) : Type 0 where
  pub create_ok :
      (r : FuncMetaData) (s : S)
      → (db.func_meta_data.create r s).0 ≡ ok tt
      → Memᴰ (content r) (rows (db.func_meta_data.create r s).1)
  pub find_all :
      (s : S) (l : List FuncMetaData)
      → (db.func_meta_data.find [] s).0 ≡ ok l
      → (r : String × String × List ResourceSpec) → Memᴰ r (rows s)
      → Memᴰ r (map content l)
  pub batch_keeps :
      (l : List FuncInstance) (s : S) → rows (update_func_instance_batch db l s).1 ≡ rows s

module _ {S : Type 0} (db : Gorm S) (cloud : Cloud S) (f : FuncManager)
    {rows : S → List (String × String × List ResourceSpec)} (table : IsListedTable db rows)
    (apart : IsUntouched cloud rows) where
  -- The specifications are those of the resources, with a task definition each.
  rest_returned :
      (res : ApiResourceSpec) (rest : List ApiResourceSpec) (task_def : String × ℤ)
      (x : Exit (List ResourceSpec) × S) (specs : List ResourceSpec)
      → ((l : List ResourceSpec) → x.0 ≡ returns l → map (to_api_spec db cloud f) l ≡ rest)
      → (proceed x.0 (λ l t. (returns (resource_spec db cloud f res task_def ∷ l), t)) x.1).0
        ≡ returns specs
      → map (to_api_spec db cloud f) specs ≡ res ∷ rest
  rest_returned res rest task_def (returns l, t) specs later h =
      let same : resource_spec db cloud f res task_def ∷ l ≡ specs = cc in
      ap (map (to_api_spec db cloud f)) (sym same) ∙ ap (◌∷◌ res) (later l refl)
  rest_returned res rest task_def (fails e, t) specs later h = absurd (cc)
  rest_returned res rest task_def (panics message, t) specs later h = absurd (cc)

  one_returned :
      (req : CreateFunctionRequest) (res : ApiResourceSpec) (rest : List ApiResourceSpec)
      (x : Exit (String × ℤ) × S) (specs : List ResourceSpec)
      → ((t : S) (l : List ResourceSpec)
          → (define_resources db cloud f req rest t).0 ≡ returns l
          → map (to_api_spec db cloud f) l ≡ rest)
      → (proceed x.0
          (λ task_def t.
            let y = define_resources db cloud f req rest t in
            proceed y.0 (λ l u. (returns (resource_spec db cloud f res task_def ∷ l), u)) y.1)
          x.1).0
        ≡ returns specs
      → map (to_api_spec db cloud f) specs ≡ res ∷ rest
  one_returned req res rest (returns task_def, t) specs later h =
      rest_returned res rest task_def (define_resources db cloud f req rest t) specs (later t) h
  one_returned req res rest (fails e, t) specs later h = absurd (cc)
  one_returned req res rest (panics message, t) specs later h = absurd (cc)

  define_resources-resources :
      (req : CreateFunctionRequest) (resources : List ApiResourceSpec) (s : S)
      (specs : List ResourceSpec)
      → (define_resources db cloud f req resources s).0 ≡ returns specs
      → map (to_api_spec db cloud f) specs ≡ resources
  unfolding define_resources
  define_resources-resources req [] s specs h =
      let same : [] ≡ specs = cc in ap (map (to_api_spec db cloud f)) (sym same)
  define_resources-resources req (res ∷ rest) s specs h =
      one_returned req res rest _ specs (define_resources-resources req rest) h

  -- A row of the function with the resources that were asked for.
  abbrev IsStored : CreateFunctionRequest → S → Type 0
  IsStored req s =
      (specs : List ResourceSpec) × (map (to_api_spec db cloud f) specs ≡ req.resources)
      × Memᴰ (req.function_name, req.image_url, specs) (rows s)

  stored_row :
      (turns : ℕ → List ℕ) (req : CreateFunctionRequest) (specs : List ResourceSpec) (t : S)
      (x : Result (Unit {0}) × S)
      → db.func_meta_data.create (meta_data req specs) t ≡ x
      → map (to_api_spec db cloud f) specs ≡ req.resources
      → (let y =
            proceed
              (to_exit x.0)
              (λ u. finish db cloud f rows apart table.batch_keeps turns req specs)
              x.1 in
          y.0 ≡ returns tt → IsStored req y.1)
  stored_row turns req specs t (ok u, t') e same h = (
    specs,
    same,
    subst (Memᴰ (req.function_name, req.image_url, specs))
        (ap (λ y. rows y.1) e
          ∙ sym ((finish-Keeps db cloud f rows apart table.batch_keeps turns req specs).kept t'))
        (table.create_ok (meta_data req specs) t (ap (λ y. y.0) e)),
  )
  stored_row turns req specs t (err m, t') e same h = absurd (cc)

  -- What follows the definition of the resources.
  abbrev store_and_finish :
      (ℕ → List ℕ) → CreateFunctionRequest → List ResourceSpec → Step S (Unit {0})
  store_and_finish turns req specs = run (db.func_meta_data.create (meta_data req specs)) >>= λ u.
      finish db cloud f rows apart table.batch_keeps turns req specs

  defined_row :
      (turns : ℕ → List ℕ) (req : CreateFunctionRequest) (x : Exit (List ResourceSpec) × S)
      → ((specs : List ResourceSpec)
          → x.0 ≡ returns specs
          → map (to_api_spec db cloud f) specs ≡ req.resources)
      → (proceed x.0 (store_and_finish turns req) x.1).0 ≡ returns tt
      → IsStored req (proceed x.0 (store_and_finish turns req) x.1).1
  defined_row turns req (returns specs, t) same h =
      stored_row turns req specs t (db.func_meta_data.create (meta_data req specs) t) refl
        (same specs refl) h
  defined_row turns req (fails e, t) same h = absurd (cc)
  defined_row turns req (panics message, t) same h = absurd (cc)

  queried_row :
      (turns : ℕ → List ℕ) (req : CreateFunctionRequest) (x : Result Bool × S)
      → (proceed (to_exit x.0) (create_new db cloud f turns req) x.1).0 ≡ returns tt
      → IsStored req (proceed (to_exit x.0) (create_new db cloud f turns req) x.1).1
  unfolding create_new create_func_meta_data
  queried_row turns req (ok true, t) h = absurd (cc)
  queried_row turns req (ok false, t) h =
      defined_row turns req (define_resources db cloud f req req.resources t)
        (define_resources-resources req req.resources t) h
  queried_row turns req (err e, t) h = absurd (cc)

  stored :
      (turns : ℕ → List ℕ) (req : CreateFunctionRequest) (s : S)
      → (create_function db cloud f turns req s).0 ≡ returns tt
      → IsStored req (create_function db cloud f turns req s).1
  unfolding create_function
  stored turns req s h =
      queried_row turns req (has_func_meta_data_by_function_name db req.function_name s) h

  -- The message that describes the function of a request.
  abbrev pub described_by : CreateFunctionRequest → FunctionMetaData
  described_by req = record {
    function_name = req.function_name;
    image_url = req.image_url;
    resources = req.resources;
  }

  abbrev message_of : String × String × List ResourceSpec → FunctionMetaData
  message_of (function_name, image_url, specs) = record {
    function_name = function_name;
    image_url = image_url;
    resources = map (to_api_spec db cloud f) specs;
  }

  listed :
      (req : CreateFunctionRequest) (t : S) (reply : List FunctionMetaData)
      (x : Result (List FuncMetaData))
      → IsStored req t
      → (db.func_meta_data.find [] t).0 ≡ x
      → (get_all_function db cloud f t).0 ≡ returns reply
      → Memᴰ (described_by req) reply
  unfolding get_all_function get_func_meta_data_by_condition
  listed req t reply (err e) st read h = let h' = rw read at h in absurd (cc)
  listed req t reply (ok l) (specs, same, there) read h =
      let h' : returns (map (to_api_function db cloud f) l) ≡ returns reply = rw read at h in
      let replied : map (to_api_function db cloud f) l ≡ reply = cc in
      let found = table.find_all t l read _ there in
      let messages = Memᴰ.map message_of found in
      let as_asked = ap (λ r. record (described_by req) { resources = r }) same in
      subst (Memᴰ (described_by req)) (map-map message_of content l ∙ replied)
        (subst (λ m. Memᴰ m (map message_of (map content l))) as_asked messages)

  -- After a `CreateFunction` that succeeds, `GetAllFunction`, if its query succeeds, lists the
  -- function with the image and exactly the resources that were asked for, in order.
  pub create_function-get_all_function :
      (turns : ℕ → List ℕ) (req : CreateFunctionRequest) (s : S) (reply : List FunctionMetaData)
      → (create_function db cloud f turns req s).0 ≡ returns tt
      → (get_all_function db cloud f (create_function db cloud f turns req s).1).0 ≡ returns reply
      → Memᴰ (described_by req) reply
  create_function-get_all_function turns req s reply created replied =
      listed req (create_function db cloud f turns req s).1 reply _ (stored turns req s created)
        refl replied
