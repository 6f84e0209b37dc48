-- ===== src/Config/Once.antt =====
-- cmd/server/config/config.go: the first call decides the configuration for good.
use pixels_spike.Base.{
  ◌≡◌, refl, ap, ◌∙◌, List, [], ◌∷◌, map, Option, none, some, String, Result, Action,
}
use pixels_spike.Base.Exits.{Exit, returns, fails, panics, Step, pure, ◌>>=◌}
use pixels_spike.Base.Float.{FloatOps}
use pixels_spike.Config.{
  SpikeConfig, Settings, fresh_settings, load, get_config, set_config_path, get_instance, store,
}

-- A call of `GetConfig`, or of `SetConfigPath`.
pub data Call : Type 0 where
  gets : Call
  sets : String → Call

module _ {F : Type 0} (float : FloatOps F) {S : Type 0} (read_file : String → Action S String)
    (unmarshal : String → SpikeConfig F → Result (SpikeConfig F)) where
  abbrev pub call : Call → Step (Settings F × S) (SpikeConfig F)
  call gets = get_config float read_file unmarshal
  call (sets path) = set_config_path float read_file unmarshal path

  pub run_calls : List Call → Step (Settings F × S) (List (SpikeConfig F))
  run_calls [] = pure []
  run_calls (c ∷ calls) = do config ← call c; configs ← run_calls calls; pure (config ∷ configs)

  get_instance-some :
      (o : Option (SpikeConfig F)) (settings : Settings F) (s : S) {config : SpikeConfig F}
      → o ≡ some config
      → get_instance float read_file unmarshal o settings s ≡ (returns config, (settings, s))
  get_instance-some none settings s e = absurd (cc)
  get_instance-some (some c) settings s {config} e =
      let same : c ≡ config = cc in ap (λ x. (returns x, (settings, s))) same

  call-same :
      (c : Call) (settings : Settings F) (s : S) {config : SpikeConfig F}
      → settings.config_instance ≡ some config
      → (settings' : Settings F) × (call c (settings, s) ≡ (returns config, (settings', s)))
        × (settings'.config_instance ≡ some config)
  unfolding get_config set_config_path
  call-same gets settings s e =
      (settings, get_instance-some settings.config_instance settings s e, e)
  call-same (sets path) settings s e =
      let settings' = record settings { config_path = path } in
      (settings', get_instance-some settings.config_instance settings' s e, e)

  run_calls-same :
      (calls : List Call) (settings : Settings F) (s : S) {config : SpikeConfig F}
      → settings.config_instance ≡ some config
      → let r = run_calls calls (settings, s) in
        (r.0 ≡ returns (map (λ c. config) calls)) × (r.1.1 ≡ s)
  unfolding run_calls
  run_calls-same [] settings s e = (refl, refl)
  run_calls-same (c ∷ calls) settings s {config} e =
      let (settings', called, e') = call-same c settings s e in
      let (rest, same) = run_calls-same calls settings' s e' in rw (called, rest) (refl, same)

  first-loaded :
      (x : Exit (SpikeConfig F) × S) (settings : Settings F) {config : SpikeConfig F}
      → (store float read_file unmarshal settings x).0 ≡ returns config
      → (x.0 ≡ returns config)
        × ((store float read_file unmarshal settings x).1.0.config_instance ≡ some config)
        × ((store float read_file unmarshal settings x).1.1 ≡ x.1)
  first-loaded (returns c, s) settings e = (e, cc, refl)
  first-loaded (fails m, s) settings e = absurd (cc)
  first-loaded (panics m, s) settings e = absurd (cc)

  -- If the first call of all is `SetConfigPath path` and the process survives it, the configuration
  -- is the one that is loaded from `path`, and every later call, of `GetConfig` or of
  -- `SetConfigPath` with whatever path, returns this same configuration and reads nothing.
  pub set_config_path-once :
      (path : String) (s : S) {config : SpikeConfig F}
      → (set_config_path float read_file unmarshal path (fresh_settings, s)).0 ≡ returns config
      → ((load float read_file unmarshal path s).0 ≡ returns config)
        × ((calls : List Call)
            → let r =
                run_calls calls
                  (set_config_path float read_file unmarshal path (fresh_settings, s)).1 in
              (r.0 ≡ returns (map (λ c. config) calls))
              × (r.1.1 ≡ (load float read_file unmarshal path s).1))
  unfolding set_config_path get_config
  set_config_path-once path s {config} e =
      let settings : Settings F = record { config_path = path; config_instance = none } in
      let (loaded, set, same) = first-loaded (load float read_file unmarshal path s) settings e in
      let w =
        (store float read_file unmarshal settings (load float read_file unmarshal path s)).1 in
      (loaded, λ calls. let (all, kept) = run_calls-same calls w.0 w.1 set in (all, kept ∙ same))
