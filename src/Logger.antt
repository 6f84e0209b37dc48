-- ===== src/Logger.antt =====
-- pkg/logger/logger.go: the logger, made once, and where its messages go. The levels and the
-- formatting of messages are the logging library's; `File` stands for open files.
pub mod Writers
use Prim.Native.String.{◌++◌}
use pixels_spike.Base.{
  List, [], ◌∷◌, Option, none, some, Bool, true, false, String, Result, ok, err, Action,
  if◌then◌else◌,
}
use pixels_spike.Base.Exits.{Exit, returns, Step, pure, ◌>>=◌, ◌>>◌, try}
use pixels_spike.Base.Keys.{lookup, string_keys}
use pixels_spike.Config.{SpikeConfig, ServerConfig}

pub data Level : Type 0 where
  info_level debug_level warn_level error_level fatal_level panic_level : Level

abbrev pub log_string_map : List (String × Level)
log_string_map =
    ("info", Level.info_level)
    ∷ ("debug", Level.debug_level)
    ∷ ("warn", Level.warn_level)
    ∷ ("error", Level.error_level)
    ∷ ("fatal", Level.fatal_level)
    ∷ ("panic", Level.panic_level)
    ∷ []

abbrev pub or_info : Option Level → Level
or_info none = Level.info_level
or_info (some level) = level

unfoldable pub level_of : String → Level
unfolding lookup
level_of name = or_info (lookup name log_string_map)

-- A writer of the list; after an error of `OpenFile` the file is nil.
pub data Writer (File : Type 0) : Type 0 where
  file : Option File → Writer File
  std : Writer File

pub record Logger (File : Type 0) : Type 0 where
  pub level : Level
  pub writers : List (Writer File)

abbrev pub opened : {File : Type 0} → Result File → Option File
opened (ok f) = some f
opened (err e) = none

-- `io.MultiWriter`: the writers that get a message. It goes to one after the other, up to the
-- first that fails; a nil file fails always, and `works` says which open files take the message.
unfoldable pub deliver : {File : Type 0} → (File → Bool) → List (Writer File) → List (Writer File)
deliver works [] = []
deliver works (Writer.std ∷ rest) = Writer.std ∷ deliver works rest
deliver works (Writer.file none ∷ rest) = []
deliver works (Writer.file (some f) ∷ rest) =
    let more = deliver works rest in if works f then Writer.file (some f) ∷ more else []

module _ {F S File : Type 0} (get_config : Step S (SpikeConfig F)) (now : S → String × S)
    (open_file : String → Action S File) where
  -- `time.Now().Format(…)`.
  abbrev pub timestamp : Step S String
  timestamp s = let (text, s') = now s in (returns text, s')

  abbrev pub file_writer : Bool → Step S (List (Writer File))
  file_writer false = pure []
  file_writer true = do
    current_time ← timestamp
    log_file ← try (open_file (current_time ++ ".log"))
    pure (Writer.file (opened log_file) ∷ [])

  abbrev pub append_std : Bool → List (Writer File) → List (Writer File)
  append_std false writers = writers
  append_std true [] = Writer.std ∷ []
  append_std true (w ∷ writers) = w ∷ append_std true writers

  abbrev pub new_logger : Step S (Logger File)
  unfolding level_of
  new_logger = do
    config ← get_config
    writers ← file_writer config.server_config.log_to_file
    pure (record {
      level = level_of config.server_config.log_level;
      writers = append_std config.server_config.log_to_std writers;
    })

  abbrev pub keep_logger : Exit (Logger File) × S → Exit (Logger File) × (Option (Logger File) × S)
  keep_logger (returns l, s) = (returns l, (some l, s))
  keep_logger (e, s) = (e, (none, s))

  abbrev pub get_or_make :
      Option (Logger File) → S → Exit (Logger File) × (Option (Logger File) × S)
  get_or_make (some l) s = (returns l, (some l, s))
  get_or_make none s = keep_logger (new_logger s)

  -- `GetLogger`; the logger is there exactly when `logOnce` is done.
  unfoldable pub get_logger : Step (Option (Logger File) × S) (Logger File)
  get_logger (log, s) = get_or_make log s
