-- ===== src/Tests/Store.antt =====
-- A database in memory: it meets what the theorems assume of the mapper.
use mathlib.Core.List.Permᴰ
use mathlib.Core.List.{Permᴰ}
use pixels_spike.Base.{
  ◌≡◌, refl, sym, ap, subst, ◌∙◌, not, List, [], ◌∷◌, map, select, Result, ok, err,
}
use pixels_spike.Model
use pixels_spike.Model.{FuncInstance, FuncMetaData, AwsTaskDef, zero_model}
use pixels_spike.Scheduler.{ReqScheduleInfo}
use pixels_spike.Storage.{GormTable, Gorm}
use pixels_spike.Storage.Laws.{IsTable, matches, req_columns, instance_columns}
use pixels_spike.ReqScheduler.{to_req_schedule_info}
use pixels_spike.ReqScheduler.Handover.{ScheduleStore, IsNewRecord}

pub record Memory : Type 0 where
  pub requests : List ReqScheduleInfo
  pub machines : List FuncInstance

abbrev pub to_row : ReqScheduleInfo → Model.ReqScheduleInfo
to_row info = record {
  model = zero_model;
  req_id = info.req_id;
  req_payload = info.req_payload;
  function_name = info.function_name;
  placed_aws_service_name = info.placed_aws_service_name;
  placed_ins_ipv4 = info.placed_ins_ipv4;
  required_cpu = info.required_cpu;
  required_memory = info.required_memory;
}

abbrev pub head_or {ℓ} : {A : Type ℓ} → List A → Result A
head_or [] = err "record not found"
head_or (x ∷ xs) = ok x

abbrev pub request_table : GormTable Memory Model.ReqScheduleInfo
request_table = record {
  create = λ r s. (ok tt, record s { requests = to_req_schedule_info r ∷ s.requests });
  save = λ r s. (ok tt, record s { requests = to_req_schedule_info r ∷ s.requests });
  upsert = λ r s. (ok tt, record s { requests = to_req_schedule_info r ∷ s.requests });
  find = λ c s. (ok (map to_row (select (matches req_columns c) s.requests)), s);
  first = λ c s. (head_or (map to_row (select (matches req_columns c) s.requests)), s);
  first_by_id = λ id s. (err "record not found", s);
  delete = λ c s.
      (ok tt, record s { requests = select (λ v. not (matches req_columns c v)) s.requests });
  delete_by_id = λ id s. (ok tt, s);
  delete_all = λ s. (ok tt, record s { requests = [] });
}

abbrev pub machine_table : GormTable Memory FuncInstance
machine_table = record {
  create = λ r s. (ok tt, record s { machines = r ∷ s.machines });
  save = λ r s. (ok tt, record s { machines = r ∷ s.machines });
  upsert = λ r s. (ok tt, record s { machines = r ∷ s.machines });
  find = λ c s. (ok (select (matches instance_columns c) s.machines), s);
  first = λ c s. (head_or (select (matches instance_columns c) s.machines), s);
  first_by_id = λ id s. (err "record not found", s);
  delete = λ c s.
      (ok tt, record s { machines = select (λ v. not (matches instance_columns c v)) s.machines });
  delete_by_id = λ id s. (ok tt, s);
  delete_all = λ s. (ok tt, record s { machines = [] });
}

-- A table without rows.
abbrev pub empty_table : (R : Type 0) → GormTable Memory R
empty_table R = record {
  create = λ r s. (ok tt, s);
  save = λ r s. (ok tt, s);
  upsert = λ r s. (ok tt, s);
  find = λ c s. (ok [], s);
  first = λ c s. (err "record not found", s);
  first_by_id = λ id s. (err "record not found", s);
  delete = λ c s. (ok tt, s);
  delete_by_id = λ id s. (ok tt, s);
  delete_all = λ s. (ok tt, s);
}

abbrev pub memory_db : Gorm Memory
memory_db = record {
  func_meta_data = empty_table FuncMetaData;
  func_instance = machine_table;
  aws_task_def = empty_table AwsTaskDef;
  req_schedule_info = request_table;
  begin = λ s. s;
  rollback = λ s. s;
  commit = λ s. (ok tt, s);
}

perm_of_eq {ℓ} : {A : Type ℓ} {xs ys : List A} → xs ≡ ys → Permᴰ xs ys
perm_of_eq {xs = xs} e = subst (Permᴰ xs) e (Permᴰ.refl xs)

map-to_row : (l : List ReqScheduleInfo) → map to_req_schedule_info (map to_row l) ≡ l
map-to_row [] = refl
map-to_row (i ∷ l) = ap (◌∷◌ i) (map-to_row l)

request_table-IsTable :
    IsTable request_table to_req_schedule_info req_columns IsNewRecord (λ s. s.requests)
request_table-IsTable = record {
  find_ok = λ c s found h. perm_of_eq (
      ap (map to_req_schedule_info) (sym (ok_injective _ _ h))
      ∙ map-to_row (select (matches req_columns c) s.requests));
  find_keeps = λ c s. refl;
  save_ok = λ r s new h. Permᴰ.refl _;
  save_err = λ r s e h. absurd (cc);
  delete_ok = λ c s h. Permᴰ.refl _;
  delete_err = λ c s e h. absurd (cc);
}
  where
    ok_injective : (xs ys : List Model.ReqScheduleInfo) → ok xs ≡ ok ys → xs ≡ ys
    ok_injective xs ys h = cc

pub memory-ScheduleStore : ScheduleStore memory_db (λ s. s.requests) (λ s. s.machines)
memory-ScheduleStore = record {
  request_table = request_table-IsTable;
  find_machines = λ c s found h. perm_of_eq (cc);
  find_machines_keeps = λ c s. refl;
}
