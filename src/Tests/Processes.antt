-- ===== src/Tests/Processes.antt =====
-- The start of a process: the configuration, the logger, random names, the connections and the
-- constructors, at small inputs.
use pixels_spike.Base.{
  ℕ, ◌-◌, ◌<◌, ◌≡◌, refl, List, map, none, some, true, false, not, ◌&&◌, ◌||◌, String, Result, ok,
  err, Action, arith,
}
use pixels_spike.Base.Exits.{returns, Step, ◌>>◌}
use pixels_spike.Base.Int.{pos}
use pixels_spike.Base.Keys.{string_keys}
use pixels_spike.Config.{
  SpikeConfig, default_config, fresh_settings, load, get_config, set_config_path,
}
use pixels_spike.Config.Once.{Call, run_calls, set_config_path-once}
use pixels_spike.Logger.{Logger, deliver, get_logger, level_of}
use pixels_spike.Logger.Writers.{reaches_std, get_logger-reaches_std}
use pixels_spike.Storage.Connect.{Driver, first_init, with_flag}
use pixels_spike.Storage.Connect.Once.{connections, opens, new_mysql-once}
use pixels_spike.Utils.{charset, length, generate_random_string}
use pixels_spike.Utils.Random.{IsFrom, generate_random_string-Fills}
use pixels_spike.Tests.Floats.{Fraction, fractions}
use pixels_spike.Tests.Store.{Memory, memory_db}
use pixels_spike.Tests.Systems.{placed}

-- A file holds its own name, and the decoder takes the text as the level of the log.
abbrev read_file : String → Action Memory String
read_file path s = (ok path, s)

abbrev unmarshal : String → SpikeConfig Fraction → Result (SpikeConfig Fraction)
unmarshal text config =
    ok (record config { server_config = record config.server_config { log_level = text } })

abbrev warn_config : SpikeConfig Fraction
warn_config = record (default_config fractions) {
  server_config = record (default_config fractions).server_config { log_level = "warn" };
}

abbrev memory : Memory
memory = placed.outside

set_config_path-once_example :
    ((load fractions read_file unmarshal "warn" memory).0 ≡ returns warn_config)
    × ((calls : List Call)
        → let r =
            run_calls fractions read_file unmarshal calls
              (set_config_path fractions read_file unmarshal "warn" (fresh_settings, memory)).1 in
          (r.0 ≡ returns (map (λ c. warn_config) calls))
          × (r.1.1 ≡ (load fractions read_file unmarshal "warn" memory).1))
unfolding set_config_path get_config load
set_config_path-once_example = set_config_path-once fractions read_file unmarshal "warn" memory refl

abbrev both_config : SpikeConfig Fraction
both_config = record warn_config {
  server_config = record warn_config.server_config { log_to_file = true };
}

abbrev configured : Step Memory (SpikeConfig Fraction)
configured s = (returns both_config, s)

abbrev now : Memory → String × Memory
now s = ("12-00-00", s)

abbrev no_file : String → Action Memory String
no_file name s = (err "permission denied", s)

-- The log file cannot be opened: the standard output is silent too.
get_logger-reaches_std_example :
    (l : Logger String) × ((get_logger configured now no_file (none, memory)).0 ≡ returns l)
    × (l.level ≡ level_of "warn")
    × (reaches_std (deliver (λ f. true) l.writers) ≡ (true && (not true || false)))
    × ((u : Memory)
        → get_logger configured now no_file
            ((get_logger configured now no_file (none, memory)).1.0, u)
          ≡ (returns l, (some l, u)))
get_logger-reaches_std_example =
    get_logger-reaches_std configured now no_file (λ f. true) memory memory both_config refl

abbrev last : ℕ → ℕ → ℕ × ℕ
last n s = (n - 1, s)

last_below : (n s : ℕ) → 0 < n → (last n s).0 < n
last_below n s h = omega arith

generate_random_string-Fills_example :
    (t : String) × ((generate_random_string (λ s. s) last (pos 3) 0).0 ≡ returns t)
    × (length t ≡ 3)
    × IsFrom charset t
generate_random_string-Fills_example = generate_random_string-Fills (λ s. s) last last_below 3 0

abbrev driver : Driver Memory
driver = record {
  open_dsn = λ dsn s. (ok memory_db, s);
  migrate_func_meta_data = λ db s. (ok tt, s);
  migrate_func_instance = λ db s. (ok tt, s);
  migrate_aws_task_def = λ db s. (ok tt, s);
  migrate_req_schedule_info = λ db s. (ok tt, s);
  sql_db = λ db s. (ok tt, s);
  close_db = λ db s. (ok tt, s);
}

new_mysql-once_example :
    connections driver configured 2 (false, memory)
    ≡ with_flag driver configured
        ((first_init driver configured >> opens driver configured 2) memory)
new_mysql-once_example = new_mysql-once driver configured 1 memory
