-- ===== src/Storage/Laws.antt =====
-- pkg/storage/mysql.go: what the code relies on of the mapper and the database, for one table.
use mathlib.Core.List.{Permᴰ}
use pixels_spike.Base.{
  ◌≡◌, Bool, true, false, not, ◌&&◌, List, [], ◌∷◌, map, select, Option, none, some, String, ok,
  err,
}
use pixels_spike.Base.Keys.{◌==◌, lookup, string_keys, nat_keys, int_keys}
use pixels_spike.Model.{FuncInstance}
use pixels_spike.Scheduler.{ReqScheduleInfo}
use pixels_spike.Storage.{Value, Condition, GormTable}

abbrev pub same_value : Value → Value → Bool
same_value (Value.text a) (Value.text b) = a == b
same_value (Value.int32 a) (Value.int32 b) = a == b
same_value (Value.uint64 a) (Value.uint64 b) = a == b
same_value a b = false

abbrev pub holds_value : Option Value → Value → Bool
holds_value none v = false
holds_value (some w) v = same_value w v

-- Which rows a condition selects, for the named columns of a row.
abbrev pub matches {ℓ} : {V : Type ℓ} → (V → String → Option Value) → Condition → V → Bool
matches columns [] row = true
matches columns ((name, v) ∷ c) row = holds_value (columns row name) v && matches columns c row

abbrev pub req_columns : ReqScheduleInfo → String → Option Value
req_columns info name = lookup name (
    ("req_id", Value.uint64 info.req_id)
    ∷ ("req_payload", Value.text info.req_payload)
    ∷ ("function_name", Value.text info.function_name)
    ∷ ("placed_aws_service_name", Value.text info.placed_aws_service_name)
    ∷ ("placed_ins_ipv4", Value.text info.placed_ins_ipv4)
    ∷ ("required_cpu", Value.int32 info.required_cpu)
    ∷ ("required_memory", Value.int32 info.required_memory)
    ∷ [])

abbrev pub instance_columns : FuncInstance → String → Option Value
instance_columns i name = lookup name (
    ("aws_service_name", Value.text i.aws_service_name)
    ∷ ("aws_task_arn", Value.text i.aws_task_arn)
    ∷ ("function_name", Value.text i.function_name)
    ∷ ("ipv4", Value.text i.ipv4)
    ∷ ("cpu", Value.int32 i.cpu)
    ∷ ("memory", Value.int32 i.memory)
    ∷ ("aws_family", Value.text i.aws_family)
    ∷ ("aws_revision", Value.int32 i.aws_revision)
    ∷ ("last_status", Value.text i.last_status)
    ∷ ("desired_status", Value.text i.desired_status)
    ∷ [])

-- A table whose rows in a state are `rows`, seen through `view`: a query returns the rows that
-- match, in some order, and changes none; saving a new row adds it; a deletion removes the rows
-- that match; what fails changes nothing.
pub record IsTable {S R V : Type 0} (t : GormTable S R) (view : R → V)
    (columns : V → String → Option Value) (is_new : R → Type 0) (rows : S → List V) : Type 0 where
  pub find_ok :
      (c : Condition) (s : S) (found : List R)
      → (t.find c s).0 ≡ ok found
      → Permᴰ (map view found) (select (matches columns c) (rows s))
  pub find_keeps : (c : Condition) (s : S) → rows (t.find c s).1 ≡ rows s
  pub save_ok :
      (r : R) (s : S)
      → is_new r
      → (t.save r s).0 ≡ ok tt
      → Permᴰ (rows (t.save r s).1) (view r ∷ rows s)
  pub save_err :
      (r : R) (s : S) (e : String) → (t.save r s).0 ≡ err e → rows (t.save r s).1 ≡ rows s
  pub delete_ok :
      (c : Condition) (s : S)
      → (t.delete c s).0 ≡ ok tt
      → Permᴰ (rows (t.delete c s).1) (select (λ v. not (matches columns c v)) (rows s))
  pub delete_err :
      (c : Condition) (s : S) (e : String)
      → (t.delete c s).0 ≡ err e
      → rows (t.delete c s).1 ≡ rows s
