-- ===== src/Config.antt =====
-- cmd/server/config/config.go: the configuration, read once. `ReadFile` and the YAML decoder are
-- arguments; the decoder sets what the text names on top of the values that it is given. `Fatal`
-- ends the process, as a panic does.
pub mod Once
use pixels_spike.Base.{
  List, [], ◌∷◌, Option, none, some, Bool, true, false, String, Result, ok, err, Action,
}
use pixels_spike.Base.Exits.{Exit, returns, fails, panics, Step, pure, panic, ◌>>=◌, ◌>>◌}
use pixels_spike.Base.Float.{FloatOps}
use pixels_spike.Base.Int.{ℤ, pos}
use pixels_spike.Base.Keys.{◌==◌, string_keys}
use pixels_spike.Constants.{InstanceType}

pub record ServerConfig (F : Type 0) : Type 0 where
  pub grpc_port : ℤ
  pub http_port : ℤ
  pub request_timeout : ℤ
  pub max_retry : ℤ
  pub scheduler_type : String
  pub log_level : String
  pub log_to_file : Bool
  pub log_to_std : Bool
  pub hot_resource_pool : InstanceType
  pub cold_resource_pool : InstanceType
  pub mysql_dsn : String
  pub auto_scaling_step : ℤ
  pub auto_scaling_window : ℤ
  pub auto_scaling_threshold : F

pub record AwsConfig : Type 0 where
  pub aws_cluster : String
  pub aws_subnets : List String
  pub aws_security_groups : List String
  pub task_role : String
  pub use_public_ipv4 : Bool
  pub ec2_provider : String

pub record SpikeConfig (F : Type 0) : Type 0 where
  pub server_config : ServerConfig F
  pub aws_config : AwsConfig

-- `configPath` and `configInstance`; the instance is set exactly when `configOnce` is done.
pub record Settings (F : Type 0) : Type 0 where
  pub config_path : String
  pub config_instance : Option (SpikeConfig F)

abbrev pub fresh_settings : {F : Type 0} → Settings F
fresh_settings = record { config_path = ""; config_instance = none }

module _ {F : Type 0} (float : FloatOps F) where
  -- The threshold 0.8 is the float64 quotient of 4 and 5, which division rounds correctly.
  abbrev pub default_server_config : ServerConfig F
  default_server_config = record {
    grpc_port = pos 13306;
    http_port = pos 8080;
    request_timeout = pos 600;
    max_retry = pos 3;
    scheduler_type = "base";
    log_level = "debug";
    log_to_file = false;
    log_to_std = true;
    hot_resource_pool = InstanceType.fargate;
    cold_resource_pool = InstanceType.fargate;
    mysql_dsn =
        "root:spikepassword@tcp(127.0.0.1:3306)/spike?charset=utf8mb4&parseTime=True&loc=Local";
    auto_scaling_step = pos 5;
    auto_scaling_window = pos 60;
    auto_scaling_threshold = float.div (float.of_int (pos 4)) (float.of_int (pos 5));
  }

  abbrev pub default_aws_config : AwsConfig
  default_aws_config = record {
    aws_cluster = "spike_cluster_mini";
    aws_subnets =
        "subnet-01930cb57dbc12f7e" ∷ "subnet-0c77aae8c226d039c" ∷ "subnet-02bd39d1f8b337c22" ∷ [];
    aws_security_groups = "sg-02221dbcd555d5277" ∷ [];
    task_role = "PixelsFaaSRole";
    use_public_ipv4 = true;
    ec2_provider = "Infra-ECS-Cluster-spikeclustermini-d985e674-EC2CapacityProvider-FufGynLGFE0q";
  }

  abbrev pub default_config : SpikeConfig F
  default_config = record { server_config = default_server_config; aws_config = default_aws_config }

  module _ {S : Type 0} (read_file : String → Action S String)
      (unmarshal : String → SpikeConfig F → Result (SpikeConfig F)) where
    abbrev pub decoded : Result (SpikeConfig F) → Step S (SpikeConfig F)
    decoded (ok config) = pure config
    decoded (err e) = panic "Failed to unmarshal config file"

    abbrev pub decode_file : Result String × S → Exit (SpikeConfig F) × S
    decode_file (ok file_content, s) = decoded (unmarshal file_content default_config) s
    decode_file (err e, s) = (panics "Failed to read config file", s)

    -- The function that `configOnce` runs.
    unfoldable pub load : String → Step S (SpikeConfig F)
    load config_path s = elim (config_path == "") [
      | true ↦ (returns default_config, s)
      | false ↦ decode_file (read_file config_path s)
    ]

    abbrev pub store :
        Settings F → Exit (SpikeConfig F) × S → Exit (SpikeConfig F) × (Settings F × S)
    store settings (returns config, s) =
        (returns config, (record settings { config_instance = some config }, s))
    store settings (fails e, s) = (fails e, (settings, s))
    store settings (panics message, s) = (panics message, (settings, s))

    abbrev pub get_instance :
        Option (SpikeConfig F) → Settings F → S → Exit (SpikeConfig F) × (Settings F × S)
    get_instance (some config) settings s = (returns config, (settings, s))
    get_instance none settings s = store settings (load settings.config_path s)

    unfoldable pub get_config : Step (Settings F × S) (SpikeConfig F)
    unfolding load
    get_config (settings, s) = get_instance settings.config_instance settings s

    unfoldable pub set_config_path : String → Step (Settings F × S) (SpikeConfig F)
    unfolding get_config
    set_config_path path (settings, s) = get_config (record settings { config_path = path }, s)
