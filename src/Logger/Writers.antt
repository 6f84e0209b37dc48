-- ===== src/Logger/Writers.antt =====
-- pkg/logger/logger.go: which writers a message reaches.
use Prim.Native.String.{◌++◌}
use pixels_spike.Base.{
  ◌≡◌, refl, List, [], ◌∷◌, none, some, Bool, true, false, not, ◌&&◌, ◌||◌, String, Result, ok, err,
  Action, arith,
}
use pixels_spike.Base.Exits.{returns, Step}
use pixels_spike.Config.{SpikeConfig}
use pixels_spike.Logger.{
  Writer, Logger, deliver, get_logger, new_logger, level_of, opened, file_writer, append_std,
}

abbrev pub file_takes : {File : Type 0} → (File → Bool) → Result File → Bool
file_takes works (err e) = false
file_takes works (ok f) = works f

-- Whether a message reaches the standard output.
abbrev pub reaches_std : {File : Type 0} → List (Writer File) → Bool
reaches_std [] = false
reaches_std (Writer.std ∷ rest) = true
reaches_std (Writer.file f ∷ rest) = reaches_std rest

module _ {F S File : Type 0} (get_config : Step S (SpikeConfig F)) (now : S → String × S)
    (open_file : String → Action S File) (works : File → Bool) (s t : S) (c : SpikeConfig F)
    (configured : get_config s ≡ (returns c, t)) where
  abbrev log_file : Result File
  log_file = let (current_time, t') = now t in (open_file (current_time ++ ".log") t').0

  reached :
      (b : Bool) (r : Result File)
      → reaches_std
          (deliver works (append_std get_config now open_file b (Writer.file (opened r) ∷ [])))
        ≡ (b && file_takes works r)
  unfolding deliver
  reached false (err m) = refl
  reached false (ok f) = ground arith
  reached true (err m) = refl
  reached true (ok f) = ground arith

  made :
      (b b' : Bool)
      → (w : List (Writer File)) × ((file_writer get_config now open_file b t).0 ≡ returns w)
        × (reaches_std (deliver works (append_std get_config now open_file b' w))
            ≡ (b' && (not b || file_takes works log_file)))
  unfolding deliver
  made false false = ([], refl, refl)
  made false true = ([], refl, refl)
  made true b = (_, refl, reached b log_file)

  -- The first `GetLogger` makes a logger of the configured level, whatever happens to the log file,
  -- and all later calls return this logger. Its messages reach the standard output exactly when
  -- the configuration asks for it and, if a log file is asked for as well, this file was opened
  -- and takes the messages: a log file that fails silences the standard output.
  pub get_logger-reaches_std :
      (l : Logger File) × ((get_logger get_config now open_file (none, s)).0 ≡ returns l)
      × (l.level ≡ level_of c.server_config.log_level)
      × (reaches_std (deliver works l.writers) ≡ (
          c.server_config.log_to_std
          && (not c.server_config.log_to_file || file_takes works log_file)))
      × ((u : S)
          → get_logger get_config now open_file
              ((get_logger get_config now open_file (none, s)).1.0, u)
            ≡ (returns l, (some l, u)))
  unfolding get_logger new_logger level_of
  get_logger-reaches_std =
      let (w, first, reach) = made c.server_config.log_to_file c.server_config.log_to_std in
      rw (configured, first) (_, refl, refl, reach, λ u. refl)
