-- ===== src/Storage/Connect.antt =====
-- pkg/storage/mysql.go: the connection. The driver of the database is an argument, and a connection
-- is what the queries run on. `mysqlInitOnce` is the Boolean beside the outside state; `Fatal` ends
-- the process, as a panic does.
pub mod Once
use pixels_spike.Base.{Bool, true, false, String, Result, ok, err, Action, pure, ◌>>=◌, ◌>>◌}
use pixels_spike.Base.Exits
use pixels_spike.Base.Exits.{Exit, returns, fails, panics, Step, proceed}
use pixels_spike.Config.{SpikeConfig, ServerConfig}
use pixels_spike.Storage.{Gorm}

-- What the code asks of the driver.
pub record Driver (S : Type 0) : Type 0 where
  pub open_dsn : String → Action S (Gorm S)
  pub migrate_func_meta_data : Gorm S → Action S (Unit {0})
  pub migrate_func_instance : Gorm S → Action S (Unit {0})
  pub migrate_aws_task_def : Gorm S → Action S (Unit {0})
  pub migrate_req_schedule_info : Gorm S → Action S (Unit {0})
  -- `DB` and the closing of the pool of connections.
  pub sql_db : Gorm S → Action S (Unit {0})
  pub close_db : Gorm S → Action S (Unit {0})

module _ {S : Type 0} (driver : Driver S) where
  open driver use {
    open_dsn, migrate_func_meta_data, migrate_func_instance, migrate_aws_task_def,
    migrate_req_schedule_info, sql_db, close_db,
  }

  unfoldable pub init_mysql : String → Action S (Unit {0})
  init_mysql dsn = do
    db ← open_dsn dsn
    migrate_func_meta_data db
    migrate_func_instance db
    migrate_aws_task_def db
    migrate_req_schedule_info db

  unfoldable pub close : Gorm S → Action S (Unit {0})
  close db = do sql_db db; close_db db

  -- `Fatal` on an error.
  abbrev pub or_fatal : {A : Type 0} → Result A × S → Exit A × S
  or_fatal (ok a, s) = (returns a, s)
  or_fatal (err e, s) = (panics e, s)

  module _ {F : Type 0} (get_config : Step S (SpikeConfig F)) where
    -- `config.GetConfig().ServerConfig.MysqlDsn`.
    abbrev pub mysql_dsn : Step S String
    mysql_dsn s =
        let (c, s') = get_config s in
        proceed c (λ config. Exits.pure config.server_config.mysql_dsn) s'

    -- The function that `mysqlInitOnce` runs, and the check of its error.
    abbrev pub first_init : Step S (Unit {0})
    unfolding init_mysql
    first_init = Exits.◌>>=◌ mysql_dsn (λ dsn s. or_fatal (init_mysql dsn s))

    abbrev pub init_once : Bool → Step S (Unit {0})
    init_once true = Exits.pure tt
    init_once false = first_init

    abbrev pub connect : Step S (Gorm S)
    connect = Exits.◌>>=◌ mysql_dsn (λ dsn s. or_fatal (open_dsn dsn s))

    abbrev pub with_flag : {A : Type 0} → Exit A × S → Exit A × (Bool × S)
    with_flag (r, s) = (r, (true, s))

    unfoldable pub new_mysql : Step (Bool × S) (Gorm S)
    new_mysql (initialised, s) = with_flag (Exits.◌>>◌ (init_once initialised) connect s)
