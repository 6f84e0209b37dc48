-- ===== src/FuncManager/Status.antt =====
-- pkg/funcmanager/funcmanager.go: the refresh of the status of instances from their tasks.
pub mod Newest
pub mod Gathered
pub mod Faults
pub mod Described
pub mod Rows
pub mod Applied
pub mod Refresh
use pixels_spike.Base.{
  ℕ, suc, ◌+◌, ◌*◌, ◌^◌, List, [], ◌∷◌, ◌++◌, Option, none, some, Bool, true, false, String, Result,
  ok, err, length, ltb, get_elem?, if◌then◌else◌,
}
use pixels_spike.Base.Exits.{
  Exit, returns, fails, panics, Step, pure, panic, proceed, ◌>>=◌, ◌>>◌, try,
}
use pixels_spike.Base.Int.{wrap32}
use pixels_spike.Base.Keys.{◌==◌, string_keys}
use pixels_spike.Base.Numerals.{atoi}
use pixels_spike.AwsClient.{Cloud, Task, get_all_tasks, describe_tasks, get_public_ipv4}
use pixels_spike.FuncManager.{FuncManager}
use pixels_spike.Model.{FuncInstance, FuncMetaData}
use pixels_spike.Storage.{
  Gorm, update_func_instance_batch, get_func_meta_data_by_condition,
  get_func_instance_by_function_name,
}

-- `updateIns` beside `taskMap`: an instance, and the positions of its tasks in the list of all.
abbrev pub Update : Type 0
Update = FuncInstance × List ℕ

-- `append` to `taskList` and to the entry of `taskMap`.
abbrev pub positions : ℕ → List String → List ℕ
positions n [] = []
positions n (task ∷ tasks) = n ∷ positions (suc n) tasks

abbrev pub mark_not_created : FuncInstance → FuncInstance
mark_not_created i = record i { last_status = "NOT_CREATED" }

-- One instance joins the updates, with the tasks of its service.
abbrev pub join_update : FuncInstance → List String → List String → Update
join_update instance [] task_list = (mark_not_created instance, [])
join_update instance (task ∷ tasks) task_list =
    (instance, positions (length task_list) (task ∷ tasks))

-- A nil pointer that is read.
abbrev pub nil_pointer : {A : Type 0} → Exit A
nil_pointer = panics "runtime error: invalid memory address or nil pointer dereference"

-- The newer of two tasks, by the times when they were created; the first stays when they are as old.
abbrev pub newer_at : Task → Task → Option ℕ → Option ℕ → Exit Task
newer_at best task (some b) (some t) = returns (if ltb b t then task else best)
newer_at best task b t = nil_pointer

abbrev pub newer : Option Task → Task → Exit Task
newer none task = returns task
newer (some best) task = newer_at best task best.created_at task.created_at

abbrev pub next_best : Exit Task → (Task → Exit (Option Task)) → Exit (Option Task)
next_best (returns task) k = k task
next_best (fails e) k = fails e
next_best (panics message) k = panics message

-- The loop over the positions of an instance; they index the reply.
unfoldable pub newest : List Task → List ℕ → Option Task → Exit (Option Task)
newest tasks [] best = returns best
newest tasks (i ∷ is) best = elim (get_elem? tasks i) [
  | none ↦ panics "runtime error: index out of range"
  | some task ↦ next_best (newer best task) (λ c. newest tasks is (some c))
]

module _ {S : Type 0} (db : Gorm S) (cloud : Cloud S) (f : FuncManager) (now : S → ℕ × S) where
  -- `UpdatedAt.Add(10*time.Second).Before(time.Now())`.
  abbrev pub is_old : FuncInstance → S → Bool × S
  is_old instance s =
      let (time, s') = now s in (ltb (instance.model.updated_at + 10 * 10 ^ 9) time, s')

  abbrev pub is_due : FuncInstance → S → Bool × S
  is_due instance s = elim (instance.last_status == instance.desired_status) [
    | true ↦ is_old instance s
    | false ↦ (true, s)
  ]

  -- The body of the loop of step 1 for an instance that is due, and the loop; `tasks` are those
  -- listed so far.
  abbrev pub gather_due :
      FuncInstance → Result (List String) → List String → Option Update × List String
  gather_due instance (err e) task_list = (none, task_list)
  gather_due instance (ok tasks) task_list =
      (some (join_update instance tasks task_list), task_list ++ tasks)

  abbrev pub keep_update : Option Update → List Update → List Update
  keep_update none updates = updates
  keep_update (some update) updates = update ∷ updates

  unfoldable pub gather : List FuncInstance → List String → S → (List Update × List String) × S
  unfolding get_all_tasks
  gather [] task_list s = (([], task_list), s)
  gather (instance ∷ rest) task_list s =
      let (due, s') = is_due instance s in
      elim due [
        | false ↦ gather rest task_list s'
        | true ↦
            let (r, s'') = get_all_tasks cloud f.aws_client instance.aws_service_name s' in
            let (update, task_list') = gather_due instance r task_list in
            let ((updates, all), t) = gather rest task_list' s'' in
            ((keep_update update updates, all), t)
      ]

  -- `publicIpv4` and `privateIpv4`: the loop over the details of the first attachment.
  abbrev pub ip_or_empty : Result String → String
  ip_or_empty (ok ip) = ip
  ip_or_empty (err e) = ""

  abbrev pub deref : {A : Type 0} → Option A → Step S A
  deref none s = (nil_pointer, s)
  deref (some a) s = (returns a, s)

  -- A detail sets one of the two addresses, or none, by whether its name is that of an interface and
  -- whether it is that of the private address.
  unfoldable pub read_detail :
      Bool → Bool → Option String → String × String → Step S (String × String)
  unfolding get_public_ipv4
  read_detail true b v (public_ipv4, private_ipv4) = do
    interface_id ← deref v
    ip ← try (get_public_ipv4 cloud f.aws_client interface_id)
    pure (ip_or_empty ip, private_ipv4)
  read_detail false true v (public_ipv4, private_ipv4) = do ip ← deref v; pure (public_ipv4, ip)
  read_detail false false v ips = pure ips

  unfoldable pub read_details :
      List (Option String × Option String) → String × String → Step S (String × String)
  unfolding read_detail
  read_details [] ips = pure ips
  read_details ((none, v) ∷ rest) ips = read_details rest ips
  read_details ((some name, v) ∷ rest) ips = do
    ips' ← read_detail (name == "networkInterfaceId") (name == "privateIPv4Address") v ips
    read_details rest ips'

  abbrev pub first_details :
      List (List (Option String × Option String)) → List (Option String × Option String)
  first_details [] = []
  first_details (details ∷ rest) = details

  abbrev pub ip_of : String × String → String
  ip_of (public_ipv4, private_ipv4) = if f.use_public_ipv4 then public_ipv4 else private_ipv4

  -- The branch for an instance with a task.
  unfoldable pub with_task : FuncInstance → Task → Step S FuncInstance
  unfolding atoi read_details
  with_task instance task = do
    cpu ← deref task.cpu
    memory ← deref task.memory
    ips ← read_details (first_details task.attachments) ("", "")
    task_arn ← deref task.task_arn
    last_status ← deref task.last_status
    desired_status ← deref task.desired_status
    pure (record instance {
      aws_task_arn = task_arn;
      ipv4 = ip_of ips;
      cpu = wrap32 (atoi cpu);
      memory = wrap32 (atoi memory);
      last_status = last_status;
      desired_status = desired_status;
    })

  -- The body of the loop of step 2, for the outcome of the search of the newest task.
  unfoldable pub apply_found : FuncInstance → Option Task → Step S FuncInstance
  unfolding with_task
  apply_found instance none = pure (mark_not_created instance)
  apply_found instance (some task) = with_task instance task

  unfoldable pub apply_task : FuncInstance → Exit (Option Task) → Step S FuncInstance
  unfolding apply_found
  apply_task instance found s = proceed found (apply_found instance) s

  unfoldable pub apply_all : List Task → List Update → Step S (List FuncInstance)
  unfolding apply_task newest
  apply_all tasks [] = pure []
  apply_all tasks ((instance, is) ∷ rest) = do
    instance' ← apply_task instance (newest tasks is none)
    more ← apply_all tasks rest
    pure (instance' ∷ more)

  unfoldable pub store_updates : List Update → Result (Option (List Task)) → Step S (Unit {0})
  unfolding apply_all update_func_instance_batch
  store_updates updates (err e) = pure tt
  store_updates updates (ok none) =
      panic "runtime error: invalid memory address or nil pointer dereference"
  store_updates updates (ok (some tasks)) = do
    instances ← apply_all tasks updates
    stored ← try (update_func_instance_batch db instances)
    pure tt

  -- Without tasks there is nothing to describe.
  unfoldable pub refresh : List Update × List String → Step S (Unit {0})
  unfolding store_updates describe_tasks
  refresh (updates, []) = pure tt
  refresh (updates, task ∷ task_list) = do
    output ← try (describe_tasks cloud f.aws_client (task ∷ task_list))
    store_updates updates output

  unfoldable pub update_instances_status : List FuncInstance → Step S (Unit {0})
  unfolding refresh gather
  update_instances_status instances s =
      let (gathered, s') = gather instances [] s in refresh gathered s'

  -- The loop over the functions in a round of `MonitorFunctionStatus`.
  abbrev pub refresh_function : Result (List FuncInstance) → Step S (Unit {0})
  unfolding update_instances_status
  refresh_function (err e) = pure tt
  refresh_function (ok instances) = update_instances_status instances

  pub refresh_functions : List FuncMetaData → Step S (Unit {0})
  unfolding refresh_function get_func_instance_by_function_name
  refresh_functions [] = pure tt
  refresh_functions (meta_data ∷ rest) = do
    instances ← try (get_func_instance_by_function_name db meta_data.function_name)
    refresh_function instances
    refresh_functions rest

  abbrev pub refresh_found : Result (List FuncMetaData) → Step S (Unit {0})
  unfolding refresh_functions
  refresh_found (err e) = pure tt
  refresh_found (ok list) = refresh_functions list

  -- A round of `MonitorFunctionStatus`; it repeats after a second, or at once after an error.
  unfoldable pub monitor_round : Step S (Unit {0})
  unfolding refresh_found get_func_meta_data_by_condition
  monitor_round = do found ← try (get_func_meta_data_by_condition db []); refresh_found found
