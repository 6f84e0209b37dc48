-- ===== src/Tests/Clusters.antt =====
-- A cluster in memory with a limit of services, and the theorems on scaling at small inputs.
use pixels_spike.Base.{
  ℕ, suc, ◌+◌, ◌≡◌, refl, List, [], ◌∷◌, Bool, true, false, not, String, Result, ok, err, arith,
  length, select, ltb, if◌then◌else◌, some,
}
use pixels_spike.Base.Decimal.{decimal}
use pixels_spike.Base.Exits.{fails}
use pixels_spike.Base.Int.{pos, ◌+ℤ◌, ◌-ℤ◌}
use pixels_spike.Base.Keys.{◌==◌, string_keys}
use pixels_spike.Constants.{InstanceType}
use pixels_spike.AwsClient.{AwsClient, Task, Cloud, CreateServiceInput, batch_create_instance}
use pixels_spike.AwsClient.Batch.{Leaves, batch_create_instance-Leaves}
use pixels_spike.AwsClient.Goroutines.{ServiceStore, occurrences}
use pixels_spike.FuncManager.Scaling.{real_scale_cnt}
use pixels_spike.FuncManager.Scaling.Bounds.{
  NoWrap, real_scale_cnt-target, real_scale_cnt-above_int32,
}
use pixels_spike.FuncManager.Status.{newest}
use pixels_spike.FuncManager.Status.Newest.{IsNewest, newest-IsNewest}

pub record Cluster : Type 0 where
  pub next : ℕ
  pub services : List String

-- There is room for two services.
abbrev create : Bool → CreateServiceInput → Cluster → Result (Unit {0}) × Cluster
create true i s = (ok tt, record s { services = i.service_name ∷ s.services })
create false i s = (err "limit exceeded", s)

abbrev remove : Bool → String → Cluster → Result (Unit {0}) × Cluster
remove true name s = (err "no name", s)
remove false name s = (ok tt, record s { services = select (λ n. not (n == name)) s.services })

abbrev pub cluster : Cloud Cluster
cluster = record {
  next_id = λ s. (ok s.next, record s { next = suc s.next });
  create_service = λ i s. create (ltb (length s.services) 2) i s;
  delete_service = λ c name s. remove (name == "") name s;
  list_tasks = λ c name s. (ok [], s);
  describe_tasks = λ c tasks s. (ok [], s);
  register_task_definition = λ i s. (ok (i.family, pos 1), s);
  describe_network_interfaces = λ id s. (ok [], s);
}

abbrev pub client : AwsClient
client = record {
  cluster = "cluster";
  subnets = [];
  security_groups = [];
  ec2_provider = "provider";
  use_public_ipv4 = false;
  task_role = "role";
}

abbrev pub running : String → Cluster → ℕ
running x s = occurrences x s.services

create_ok :
    (b : Bool) (i : CreateServiceInput) (s : Cluster) (x : String)
    → (create b i s).0 ≡ ok tt
    → running x (create b i s).1 ≡ running x s + (if i.service_name == x then 1 else 0)
create_ok true i s x h = omega arith
create_ok false i s x h = absurd (cc)

create_err :
    (b : Bool) (i : CreateServiceInput) (s : Cluster) (x e : String)
    → (create b i s).0 ≡ err e
    → running x (create b i s).1 ≡ running x s
create_err true i s x e h = absurd (cc)
create_err false i s x e h = refl

pub cluster-ServiceStore : ServiceStore cluster client running
cluster-ServiceStore = record {
  create_ok = λ i s x h. create_ok (ltb (length s.services) 2) i s x h;
  create_err = λ i s x e h. create_err (ltb (length s.services) 2) i s x e h;
  next_id_keeps = λ s x. refl;
  delete_unnamed = λ s x. refl;
}

abbrev pub empty_cluster : Cluster
empty_cluster = record { next = 0; services = [] }

-- Three goroutines that take turns: the last one is refused, and two services stay.
batch_of_three :
    batch_create_instance cluster client "f"
      (pos 1)
      InstanceType.fargate
      (2 ∷ 0 ∷ 1 ∷ 2 ∷ [])
      (pos 3)
      empty_cluster
    ≡ (
      fails "failed to create some instances: [<nil> limit exceeded <nil>]",
      record { next = 3; services = "f_1" ∷ "f_0" ∷ [] },
    )
unfolding batch_create_instance decimal
batch_of_three = refl

batch_create_instance-Leaves_example :
    Leaves cluster client cluster-ServiceStore "f" (pos 1) InstanceType.fargate 3 empty_cluster (
      batch_create_instance cluster client "f"
        (pos 1)
        InstanceType.fargate
        (2 ∷ 0 ∷ 1 ∷ 2 ∷ [])
        (pos 3)
        empty_cluster)
batch_create_instance-Leaves_example =
    batch_create_instance-Leaves cluster client cluster-ServiceStore "f" (pos 1)
      InstanceType.fargate (2 ∷ 0 ∷ 1 ∷ 2 ∷ []) 3 empty_cluster

small_numbers : NoWrap (pos 9) (pos 2) (pos 5, pos 1)
unfolding ◌+ℤ◌ ◌-ℤ◌
small_numbers = record {
  total = record { above = omega arith; below = omega arith };
  up = record { above = omega arith; below = omega arith };
  down = record { above = omega arith; below = omega arith };
}

real_scale_cnt-target_example : pos 2 +ℤ real_scale_cnt (pos 9) (pos 2) (pos 5, pos 1) ≡ pos 5
unfolding ◌+ℤ◌
real_scale_cnt-target_example = real_scale_cnt-target (pos 9) (pos 2) (pos 5, pos 1) small_numbers

real_scale_cnt-above_int32_example :
    real_scale_cnt (pos 2147483647) (pos 1) (pos 5, pos 1) ≡ pos 2147483647
unfolding ◌+ℤ◌
real_scale_cnt-above_int32_example =
    real_scale_cnt-above_int32 (pos 2147483647) (pos 1) (pos 5, pos 1) (omega arith)
      (record { above = omega arith; below = omega arith })
      (record { above = omega arith; below = omega arith }) (omega arith) (omega arith)

abbrev task : String → ℕ → Task
task arn created_at = record {
  task_arn = some arn;
  created_at = some created_at;
  cpu = some "1024";
  memory = some "2048";
  attachments = [];
  last_status = some "RUNNING";
  desired_status = some "RUNNING";
}

newest-IsNewest_example :
    IsNewest (task "old" 3 ∷ task "new" 7 ∷ task "middle" 5 ∷ []) (0 ∷ 1 ∷ 2 ∷ []) (task "new" 7)
unfolding newest
newest-IsNewest_example =
    newest-IsNewest (task "old" 3 ∷ task "new" 7 ∷ task "middle" 5 ∷ []) (0 ∷ 1 ∷ 2 ∷ [])
      (task "new" 7) refl
