-- ===== src/ApiServer/Startup.antt =====
-- pkg/apiserver/apiserver.go, cmd/server/cmd/root.go and the constructors that they call: the start
-- of the process. The configuration and the connection to the database are the modelled functions
-- of `Config` and `Storage/Connect`, given as arguments over one outside state; the network and the
-- loading of the AWS configuration are arguments too. `Fatal` ends the process, as a panic does. The
-- loops and servers that run in goroutines start here and run afterwards.
pub mod Clean
use Prim.Native.String.{◌++◌}
use pixels_spike.Base.{ℕ, Option, none, some, Bool, String, Result, ok, err, Action}
use pixels_spike.Base.Decimal.{decimal}
use pixels_spike.Base.Exits.{Exit, returns, fails, panics, Step, pure, panic, ◌>>=◌, ◌>>◌, run, try}
use pixels_spike.Base.Float.{FloatOps}
use pixels_spike.Base.Int.{ℤ}
use pixels_spike.AwsClient.{AwsClient}
use pixels_spike.Config.{SpikeConfig, ServerConfig, AwsConfig}
use pixels_spike.FuncManager.{FuncManager}
use pixels_spike.ReqScheduler.{choose_scheduler, clean_req_schedule_info}
use pixels_spike.Scheduler.{Scheduler}
use pixels_spike.Storage.{Gorm}

-- What the server asks of the network: a listener for gRPC, the gateway that forwards HTTP calls to
-- it, and the HTTP server, which returns when it ends.
pub record Network (S : Type 0) : Type 0 where
  pub listen : String → Action S (Unit {0})
  pub register_handler : String → Action S (Unit {0})
  pub listen_and_serve : String → Action S (Unit {0})

-- The fields of `ReqScheduler` that the configuration sets, and its connection.
pub record ReqSchedulerFields (F S : Type 0) : Type 0 where
  pub mysql : Gorm S
  pub scheduler : Scheduler F
  pub request_timeout : ℤ

pub record Server (F S : Type 0) : Type 0 where
  pub func_manager : FuncManager
  pub func_manager_mysql : Gorm S
  pub func_scheduler : ReqSchedulerFields F S

module _ {F S : Type 0} (float : FloatOps F) (intn : ℕ → ℕ) (get_config : Step S (SpikeConfig F))
    (new_mysql : Step S (Gorm S)) where
  -- `log.Fatalf` on an error.
  abbrev pub fatal : {A : Type 0} → String → Result A → Step S A
  fatal message (ok a) = pure a
  fatal message (err e) = panic (message ++ e)

  abbrev pub client_of : SpikeConfig F → AwsClient
  client_of config = record {
    cluster = config.aws_config.aws_cluster;
    subnets = config.aws_config.aws_subnets;
    security_groups = config.aws_config.aws_security_groups;
    ec2_provider = config.aws_config.ec2_provider;
    use_public_ipv4 = config.aws_config.use_public_ipv4;
    task_role = config.aws_config.task_role;
  }

  unfoldable pub new_aws_client : Action S (Unit {0}) → Step S AwsClient
  new_aws_client load_default_config = do
    loaded ← try load_default_config
    checked ← fatal "" loaded
    config ← get_config
    pure (client_of config)

  abbrev pub manager_of : AwsClient → SpikeConfig F → FuncManager
  manager_of aws_client config = record {
    aws_client = aws_client;
    hot_resource_pool = config.server_config.hot_resource_pool;
    cold_resource_pool = config.server_config.cold_resource_pool;
    auto_scaling_step = config.server_config.auto_scaling_step;
    auto_scaling_window = config.server_config.auto_scaling_window;
    use_public_ipv4 = config.aws_config.use_public_ipv4;
  }

  -- `NewFuncManager`, on its first call.
  unfoldable pub new_func_manager : Action S (Unit {0}) → Step S (FuncManager × Gorm S)
  unfolding new_aws_client
  new_func_manager load_default_config = do
    aws_client ← new_aws_client load_default_config
    mysql ← new_mysql
    config ← get_config
    pure (manager_of aws_client config, mysql)

  -- `NewReqScheduler`; that the old placements could not be deleted is only logged.
  unfoldable pub new_req_scheduler : Step S (ReqSchedulerFields F S)
  new_req_scheduler = do
    mysql_client ← new_mysql
    config ← get_config
    cleaned ← try (clean_req_schedule_info mysql_client)
    pure (record {
      mysql = mysql_client;
      scheduler = choose_scheduler float intn config.server_config.scheduler_type;
      request_timeout = config.server_config.request_timeout;
    })

  module _ (network : Network S) (load_default_config : Action S (Unit {0})) where
    open network use {listen, register_handler, listen_and_serve}

    abbrev pub address : String → ℤ → String
    address host port = host ++ (":" ++ decimal port)

    -- `StartApiServer` up to the HTTP server; the gRPC server runs from here on.
    unfoldable pub prepare : Step S (Server F S)
    unfolding new_func_manager new_req_scheduler
    prepare = do
      config ← get_config
      lis ← try (listen (address "0.0.0.0" config.server_config.grpc_port))
      listening ← fatal "Failed to listen: " lis
      managed ← new_func_manager load_default_config
      func_scheduler ← new_req_scheduler
      registered ← try (register_handler (address "localhost" config.server_config.grpc_port))
      forwarding ← fatal "Failed to start HTTP server: " registered
      pure (record {
        func_manager = managed.0;
        func_manager_mysql = managed.1;
        func_scheduler = func_scheduler;
      })

    unfoldable pub start_api_server : Step S (Unit {0})
    unfolding prepare
    start_api_server = do
      server ← prepare
      config ← get_config
      served ← try (listen_and_serve (address "0.0.0.0" config.server_config.http_port))
      fatal "Failed to serve HTTP: " served

    -- The command: `Run` of `rootCmd`.
    unfoldable pub run_root : (String → Step S (SpikeConfig F)) → String → Step S (Unit {0})
    unfolding start_api_server
    run_root set_config_path config_path = do config ← set_config_path config_path; start_api_server
