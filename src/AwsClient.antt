-- ===== src/AwsClient.antt =====
-- pkg/funcmanager/awsclient.go: the services that run the instances. The state `S` stands for the
-- cluster and all else outside the process; the calls of the AWS libraries are the argument
-- `cloud`.
pub mod Goroutines
pub mod Batch
pub mod Keeps
use Prim.Native.String.{◌++◌}
use pixels_spike.Base.{
  ℕ, zero, suc, ◌&&◌, List, [], ◌∷◌, Option, none, some, Bool, true, false, String, Result, ok, err,
  Action, if◌then◌else◌, length, get_elem?, set, replicate, map,
}
use pixels_spike.Base.Decimal.{decimal}
use pixels_spike.Base.Exits.{
  Exit, returns, fails, panics, Step, pure, fail, panic, ◌>>=◌, ◌>>◌, run, try,
}
use pixels_spike.Base.Int.{ℤ, pos, negsuc, pos_part, ltb_ℤ}
use pixels_spike.Constants.{InstanceType}

-- `ecs.CreateServiceInput`; the base of the provider is 0, its weight and the count are 1.
pub record CreateServiceInput : Type 0 where
  pub service_name : String
  pub capacity_provider : String
  pub cluster : String
  pub task_definition : String
  pub subnets : List String
  pub assign_public_ip : Bool
  pub security_groups : List String

-- `ecs.RegisterTaskDefinitionInput`, without its constants.
pub record RegisterTaskDefinitionInput : Type 0 where
  pub image : String
  pub container_cpu : ℤ
  pub container_memory : ℤ
  pub family : String
  pub cpu : String
  pub memory : String
  pub execution_role_arn : String
  pub task_role_arn : String

-- `types.Task`: what the code reads of it, where `none` is a nil pointer; the details of its
-- attachments are names and values.
pub record Task : Type 0 where
  pub task_arn : Option String
  pub created_at : Option ℕ
  pub cpu : Option String
  pub memory : Option String
  pub attachments : List (List (Option String × Option String))
  pub last_status : Option String
  pub desired_status : Option String

-- What the code asks of AWS, and of the generator of numbers. A service is named by its cluster
-- and its name. An interface is given by the public address of its association, if it has one.
pub record Cloud (S : Type 0) : Type 0 where
  pub next_id : Action S ℕ
  pub create_service : CreateServiceInput → Action S (Unit {0})
  pub delete_service : String → String → Action S (Unit {0})
  pub list_tasks : String → String → Action S (List String)
  pub describe_tasks : String → List String → Action S (List Task)
  pub register_task_definition : RegisterTaskDefinitionInput → Action S (String × ℤ)
  pub describe_network_interfaces : String → Action S (List (Option String))

pub record AwsClient : Type 0 where
  pub cluster : String
  pub subnets : List String
  pub security_groups : List String
  pub ec2_provider : String
  pub use_public_ipv4 : Bool
  pub task_role : String

-- The map `capacityProviders`, with the zero value of a missing key.
abbrev capacity_provider : AwsClient → InstanceType → String
capacity_provider a InstanceType.ec2 = a.ec2_provider
capacity_provider a InstanceType.fargate = "FARGATE"
capacity_provider a InstanceType.fargate_spot = "FARGATE_SPOT"
capacity_provider a InstanceType.un_know = ""

abbrev is_fargate : InstanceType → Bool
is_fargate InstanceType.fargate = true
is_fargate t = false

-- One goroutine of the batch: before its service has a name, before the call that creates it, and
-- at its end, with what it leaves in `awsServiceNames` and `errors`.
pub data Slot : Type 0 where
  starting : Slot
  named : String → Slot
  finished : String → Option String → Slot

module _ {S : Type 0} (cloud : Cloud S) (a : AwsClient) where
  abbrev generated : String → Result ℕ × S → Exit String × S
  generated aws_family_name (ok id, s) = (returns (aws_family_name ++ "_" ++ decimal (pos id)), s)
  generated aws_family_name (err e, s) = (panics ("Failed to generate ID: " ++ e), s)

  unfoldable pub gen_service_name : String → Step S String
  gen_service_name aws_family_name s = generated aws_family_name (cloud.next_id s)

  abbrev pub create_service_input : String → ℤ → InstanceType → String → CreateServiceInput
  create_service_input aws_family_name aws_revision instance_type aws_service_name = record {
    service_name = aws_service_name;
    capacity_provider = capacity_provider a instance_type;
    cluster = a.cluster;
    task_definition = aws_family_name ++ ":" ++ decimal aws_revision;
    subnets = a.subnets;
    assign_public_ip = is_fargate instance_type && a.use_public_ipv4;
    security_groups = a.security_groups;
  }

  unfoldable pub delete_instance : String → Action S (Unit {0})
  delete_instance aws_service_name = cloud.delete_service a.cluster aws_service_name

  unfoldable pub get_all_tasks : String → Action S (List String)
  get_all_tasks aws_service_name = cloud.list_tasks a.cluster aws_service_name

  abbrev pub described : Result (List Task) × S → Result (Option (List Task)) × S
  described (ok output, s) = (ok (some output), s)
  described (err e, s) = (err e, s)

  -- Without tasks, the reply and the error are nil; `none` is the nil reply.
  unfoldable pub describe_tasks : List String → Action S (Option (List Task))
  describe_tasks [] s = (ok none, s)
  describe_tasks (task ∷ tasks) s = described (cloud.describe_tasks a.cluster (task ∷ tasks) s)

  unfoldable pub reg_task_def : String → ℤ → ℤ → String → Action S (String × ℤ)
  reg_task_def function_name cpu memory image_url = cloud.register_task_definition (record {
    image = image_url;
    container_cpu = cpu;
    container_memory = memory;
    family = function_name;
    cpu = decimal cpu;
    memory = decimal memory;
    execution_role_arn = a.task_role;
    task_role_arn = a.task_role;
  })

  -- The address of the first interface.
  abbrev first_public : List (Option String) → String
  first_public [] = ""
  first_public (none ∷ rest) = ""
  first_public (some ip ∷ rest) = ip

  abbrev pub public_of : Result (List (Option String)) → Result String
  public_of (ok interfaces) = ok (first_public interfaces)
  public_of (err e) = err e

  unfoldable pub get_public_ipv4 : String → Action S String
  get_public_ipv4 interface_ids s =
      let (r, s') = cloud.describe_network_interfaces interface_ids s in (public_of r, s')

  module _ (aws_family_name : String) (aws_revision : ℤ) (instance_type : InstanceType) where
    abbrev pub created : String → Result (Unit {0}) × S → Result String × S
    created aws_service_name (ok u, s) = (ok aws_service_name, s)
    created aws_service_name (err e, s) = (err e, s)

    abbrev pub create_named : String → Action S String
    create_named aws_service_name s = created aws_service_name (
        cloud.create_service
          (create_service_input aws_family_name aws_revision instance_type aws_service_name) s)

    unfoldable pub create_instance : Step S String
    unfolding gen_service_name
    create_instance = do
      aws_service_name ← gen_service_name aws_family_name
      run (create_named aws_service_name)

    abbrev end_slot : Result String → Slot
    end_slot (ok name) = finished name none
    end_slot (err e) = finished "" (some e)

    -- The next of the two calls that a goroutine makes through `CreateInstance`.
    pub advance : Slot → Step S Slot
    unfolding gen_service_name
    advance starting = do name ← gen_service_name aws_family_name; pure (named name)
    advance (named name) = do r ← try (create_named name); pure (end_slot r)
    advance (finished name e) = pure (finished name e)

    abbrev advance_at : List Slot → ℕ → Option Slot → Step S (List Slot)
    unfolding advance
    advance_at slots i none = pure slots
    advance_at slots i (some slot) = do slot' ← advance slot; pure (set slots i slot')

    -- The goroutines take turns as `turns` lists them.
    pub run_turns : List ℕ → List Slot → Step S (List Slot)
    unfolding advance
    run_turns [] slots = pure slots
    run_turns (i ∷ turns) slots = do
      slots' ← advance_at slots i (get_elem? slots i)
      run_turns turns slots'

    -- `wg.Wait()`: what the turns left open ends.
    pub finish_all : List Slot → Step S (List Slot)
    unfolding advance
    finish_all [] = pure []
    finish_all (slot ∷ slots) = do
      slot' ← advance slot
      slot'' ← advance slot'
      rest ← finish_all slots
      pure (slot'' ∷ rest)

    abbrev has_error : List Slot → Bool
    has_error [] = false
    has_error (finished name (some e) ∷ slots) = true
    has_error (slot ∷ slots) = has_error slots

    -- The slice of errors, as `%v` prints it.
    abbrev show_error : Slot → String
    show_error (finished name (some e)) = e
    show_error slot = "<nil>"

    abbrev show_errors : List Slot → String
    show_errors [] = ""
    show_errors (slot ∷ []) = show_error slot
    show_errors (slot ∷ slots) = show_error slot ++ " " ++ show_errors slots

    abbrev service_names : List Slot → List String
    service_names [] = []
    service_names (finished name e ∷ slots) = name ∷ service_names slots
    service_names (slot ∷ slots) = "" ∷ service_names slots

    -- The last loop: a failed deletion is logged.
    pub delete_failed : List Slot → Step S (Unit {0})
    unfolding delete_instance
    delete_failed [] = pure tt
    delete_failed (finished name (some e) ∷ slots) = do
      deleted ← try (delete_instance name)
      delete_failed slots
    delete_failed (slot ∷ slots) = delete_failed slots

    -- What is returned, by whether some goroutine failed.
    abbrev pub report : Bool → List Slot → Step S (List String)
    unfolding delete_failed
    report true slots = do
      delete_failed slots
      fail ("failed to create some instances: [" ++ show_errors slots ++ "]")
    report false slots = pure (service_names slots)

    abbrev pub collect : List Slot → Step S (List String)
    collect slots = report (has_error slots) slots

    -- `BatchCreateInstance`; the size of a slice must not be negative.
    unfoldable pub batch_create_instance : List ℕ → ℤ → Step S (List String)
    unfolding run_turns finish_all report
    batch_create_instance turns (pos replicas) = do
      slots ← run_turns turns (replicate replicas starting)
      slots' ← finish_all slots
      collect slots'
    batch_create_instance turns (negsuc n) = panic "runtime error: makeslice: len out of range"
