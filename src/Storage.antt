-- ===== src/Storage.antt =====
-- pkg/storage/mysql.go: the queries and changes of the four tables. The object-relational mapper
-- and the database behind it are the argument `db`, with an opaque state `S`. `Fatal` at start-up
-- ends the process, and opening and closing a connection are left out. `return data, q.Error`
-- reads `data` after the query, as the compiler orders it.
pub mod Laws
pub mod Connect
pub mod Atomic
use pixels_spike.Base.{
  ℕ, List, [], ◌∷◌, Bool, true, false, String, Result, ok, err, Action, pure, fail, ◌>>=◌, ◌>>◌,
  attempt, arith, ◌≡◌, ◌↔◌,
}
use pixels_spike.Base.Int.{ℤ}
use pixels_spike.Model.{ReqScheduleInfo, AwsTaskDef, FuncInstance, FuncMetaData}

-- The value of a column in a condition.
pub data Value : Type 0 where
  text : String → Value
  int32 : ℤ → Value
  uint64 : ℕ → Value

-- A condition map: each named column has the given value.
abbrev pub Condition : Type 0
Condition = List (String × Value)

-- What the code asks of one table. `save` inserts a row whose key is zero and updates another;
-- `upsert` also updates the row that a unique key collides with. The deletions are of the rows
-- themselves, not the marking of rows as deleted.
pub record GormTable (S R : Type 0) : Type 0 where
  pub create : R → Action S (Unit {0})
  pub save : R → Action S (Unit {0})
  pub upsert : R → Action S (Unit {0})
  pub find : Condition → Action S (List R)
  pub first : Condition → Action S R
  pub first_by_id : ℕ → Action S R
  pub delete : Condition → Action S (Unit {0})
  pub delete_by_id : ℕ → Action S (Unit {0})
  pub delete_all : Action S (Unit {0})

pub record Gorm (S : Type 0) : Type 0 where
  pub func_meta_data : GormTable S FuncMetaData
  pub func_instance : GormTable S FuncInstance
  pub aws_task_def : GormTable S AwsTaskDef
  pub req_schedule_info : GormTable S ReqScheduleInfo
  -- A transaction.
  pub begin : S → S
  pub rollback : S → S
  pub commit : Action S (Unit {0})

abbrev by_function_name : String → Condition
by_function_name function_name = ("function_name", text function_name) ∷ []

abbrev pub is_empty {ℓ} : {A : Type ℓ} → List A → Bool
is_empty [] = true
is_empty (x ∷ xs) = false

module _ {S : Type 0} (db : Gorm S) where
  unfoldable pub create_func_meta_data : FuncMetaData → Action S (Unit {0})
  create_func_meta_data = db.func_meta_data.create

  abbrev pub is_present : Bool → Bool
  is_present true = false
  is_present false = true

  unfoldable pub has_func_meta_data_by_function_name : String → Action S Bool
  has_func_meta_data_by_function_name function_name = do
    rows ← db.func_meta_data.find (by_function_name function_name)
    pure (is_present (is_empty rows))

  unfoldable pub get_func_meta_data_by_function_name : String → Action S FuncMetaData
  get_func_meta_data_by_function_name function_name =
      db.func_meta_data.first (by_function_name function_name)

  unfoldable pub get_func_meta_data_by_condition : Condition → Action S (List FuncMetaData)
  get_func_meta_data_by_condition = db.func_meta_data.find

  unfoldable pub get_func_meta_data : ℕ → Action S FuncMetaData
  get_func_meta_data = db.func_meta_data.first_by_id

  unfoldable pub update_func_meta_data : FuncMetaData → Action S (Unit {0})
  update_func_meta_data = db.func_meta_data.save

  unfoldable pub delete_func_meta_data_by_function_name : String → Action S (Unit {0})
  delete_func_meta_data_by_function_name function_name =
      db.func_meta_data.delete (by_function_name function_name)

  unfoldable pub delete_func_meta_data : ℕ → Action S (Unit {0})
  delete_func_meta_data = db.func_meta_data.delete_by_id

  unfoldable pub create_func_instance : FuncInstance → Action S (Unit {0})
  create_func_instance = db.func_instance.create

  unfoldable pub get_func_instance_by_condition : Condition → Action S (List FuncInstance)
  get_func_instance_by_condition = db.func_instance.find

  unfoldable pub get_func_instance_by_function_name : String → Action S (List FuncInstance)
  unfolding get_func_instance_by_condition
  get_func_instance_by_function_name function_name =
      get_func_instance_by_condition (by_function_name function_name)

  unfoldable pub get_func_instance_by_service_name : String → Action S (List FuncInstance)
  unfolding get_func_instance_by_condition
  get_func_instance_by_service_name service_name =
      get_func_instance_by_condition (("service_name", text service_name) ∷ [])

  unfoldable pub get_func_instance_by_task_arn : String → Action S (List FuncInstance)
  unfolding get_func_instance_by_condition
  get_func_instance_by_task_arn task_arn =
      get_func_instance_by_condition (("task_arn", text task_arn) ∷ [])

  unfoldable pub update_func_instance : FuncInstance → Action S (Unit {0})
  update_func_instance = db.func_instance.save

  -- The loop of the batch, up to its first error.
  unfoldable pub upsert_all : List FuncInstance → Action S (Unit {0})
  upsert_all [] = pure tt
  upsert_all (instance ∷ rest) = do db.func_instance.upsert instance; upsert_all rest

  abbrev pub end_batch : Result (Unit {0}) → Action S (Unit {0})
  end_batch (ok u) s = db.commit s
  end_batch (err e) s = (err e, db.rollback s)

  unfoldable pub update_func_instance_batch : List FuncInstance → Action S (Unit {0})
  unfolding upsert_all
  update_func_instance_batch instances s =
      let (r, s') = upsert_all instances (db.begin s) in end_batch r s'

  unfoldable pub delete_func_instance_service_name : String → Action S (Unit {0})
  delete_func_instance_service_name service_name =
      db.func_instance.delete (("aws_service_name", text service_name) ∷ [])

  unfoldable pub delete_func_instance_function_name : String → Action S (Unit {0})
  delete_func_instance_function_name function_name =
      db.func_instance.delete (by_function_name function_name)

  unfoldable pub delete_func_instance_by_condition : Condition → Action S (Unit {0})
  delete_func_instance_by_condition = db.func_instance.delete

  unfoldable pub delete_func_instance : ℕ → Action S (Unit {0})
  delete_func_instance = db.func_instance.delete_by_id

  unfoldable pub get_aws_task_def_by_func_cpu_men_img :
      String → ℤ → ℤ → String → Action S AwsTaskDef
  get_aws_task_def_by_func_cpu_men_img function_name cpu memory image_url = db.aws_task_def.first (
      ("function_name", text function_name)
      ∷ ("cpu", int32 cpu)
      ∷ ("memory", int32 memory)
      ∷ ("image_url", text image_url)
      ∷ [])

  unfoldable pub update_aws_task_def : AwsTaskDef → Action S (Unit {0})
  update_aws_task_def = db.aws_task_def.save

  unfoldable pub get_req_schedule_info_by_function_name : String → Action S (List ReqScheduleInfo)
  get_req_schedule_info_by_function_name function_name =
      db.req_schedule_info.find (by_function_name function_name)

  unfoldable pub get_req_schedule_info_by_aws_service_name :
      String → Action S (List ReqScheduleInfo)
  get_req_schedule_info_by_aws_service_name service_name =
      db.req_schedule_info.find (("placed_aws_service_name", text service_name) ∷ [])

  unfoldable pub get_req_schedule_info_by_condition : Condition → Action S (List ReqScheduleInfo)
  get_req_schedule_info_by_condition = db.req_schedule_info.find

  unfoldable pub delete_req_schedule_info : ℕ → Action S (Unit {0})
  delete_req_schedule_info request_id =
      db.req_schedule_info.delete (("req_id", uint64 request_id) ∷ [])

  unfoldable pub delete_all_req_schedule_info : Action S (Unit {0})
  delete_all_req_schedule_info = db.req_schedule_info.delete_all

  unfoldable pub update_req_schedule_info : ReqScheduleInfo → Action S (Unit {0})
  update_req_schedule_info = db.req_schedule_info.save
