-- ===== src/Model.antt =====
-- pkg/storage/model: the rows of the four tables. The conversions of `ResourceSpecList` from and to
-- JSON are the standard library's.
use pixels_spike.Base.{ℕ, List, Option, none, String}
use pixels_spike.Base.Int.{ℤ}
use pixels_spike.Constants.{InstanceType}

-- `gorm.Model`, embedded in each row; times in nanoseconds.
pub record GormModel : Type 0 where
  pub id : ℕ
  pub created_at : ℕ
  pub updated_at : ℕ
  pub deleted_at : Option ℕ

-- Its zero value, which a new row has.
abbrev pub zero_model : GormModel
zero_model = record { id = 0; created_at = 0; updated_at = 0; deleted_at = none }

pub record ReqScheduleInfo : Type 0 where
  pub model : GormModel
  pub req_id : ℕ
  pub req_payload : String
  pub function_name : String
  pub placed_aws_service_name : String
  pub placed_ins_ipv4 : String
  pub required_cpu : ℤ
  pub required_memory : ℤ

pub record AwsTaskDef : Type 0 where
  pub model : GormModel
  pub task_family : String
  pub task_revision : ℤ
  pub function_name : String
  pub cpu : ℤ
  pub memory : ℤ
  pub image_url : String

pub record FuncInstance : Type 0 where
  pub model : GormModel
  pub aws_service_name : String
  pub aws_task_arn : String
  pub function_name : String
  pub ipv4 : String
  pub cpu : ℤ
  pub memory : ℤ
  pub aws_family : String
  pub aws_revision : ℤ
  pub last_status : String
  pub desired_status : String
  pub launch_type : InstanceType

pub record ResourceSpec : Type 0 where
  pub cpu : ℤ
  pub memory : ℤ
  pub min_replica : ℤ
  pub max_replica : ℤ
  pub family : String
  pub revision : ℤ

pub record FuncMetaData : Type 0 where
  pub model : GormModel
  pub function_name : String
  pub image_url : String
  pub res_spec_list : List ResourceSpec
