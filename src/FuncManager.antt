-- ===== src/FuncManager.antt =====
-- pkg/funcmanager/funcmanager.go: the functions and their instances. The state `S` stands for the
-- database, the cluster and all else outside the process. Logging is left out, and a goroutine
-- that a function starts is returned to the caller. `err` of a call whose error is only logged is
-- dropped by `try`.
pub mod Scaling
pub mod Functions
pub mod Status
pub mod Demand
use pixels_spike.Base.{Bool, true, false, String}
use pixels_spike.Base.Int.{ℤ}
use pixels_spike.AwsClient.{AwsClient}
use pixels_spike.Constants.{InstanceType}
use pixels_spike.Model.{FuncInstance, zero_model}

-- The configured fields of the manager.
pub record FuncManager : Type 0 where
  pub aws_client : AwsClient
  pub hot_resource_pool : InstanceType
  pub cold_resource_pool : InstanceType
  pub auto_scaling_step : ℤ
  pub auto_scaling_window : ℤ
  pub use_public_ipv4 : Bool

-- The rows of services that were just created; what is not set has its zero value.
abbrev pub new_instance : String → ℤ → ℤ → String → ℤ → InstanceType → String → FuncInstance
new_instance function_name cpu memory family revision launch_type aws_service_name = record {
  model = zero_model;
  aws_service_name = aws_service_name;
  aws_task_arn = "";
  function_name = function_name;
  ipv4 = "";
  cpu = cpu;
  memory = memory;
  aws_family = family;
  aws_revision = revision;
  last_status = "NOT_CREATE";
  desired_status = "";
  launch_type = launch_type;
}

abbrev pub same_type : InstanceType → InstanceType → Bool
same_type InstanceType.un_know InstanceType.un_know = true
same_type InstanceType.ec2 InstanceType.ec2 = true
same_type InstanceType.fargate InstanceType.fargate = true
same_type InstanceType.fargate_spot InstanceType.fargate_spot = true
same_type a b = false
