-- ===== src/Storage/Connect/Once.antt =====
-- pkg/storage/mysql.go: the tables are migrated by the first connection only.
use pixels_spike.Base.{ℕ, zero, suc, ◌≡◌, refl, ap, ◌∙◌, List, [], ◌∷◌, Bool, true, false}
use pixels_spike.Base.Exits.{Exit, returns, fails, panics, Step, pure, ◌>>=◌, ◌>>◌, proceed}
use pixels_spike.Config.{SpikeConfig}
use pixels_spike.Storage.{Gorm}
use pixels_spike.Storage.Connect.{Driver, connect, first_init, new_mysql, with_flag}

module _ {S : Type 0} (driver : Driver S) {F : Type 0} (get_config : Step S (SpikeConfig F)) where
  -- The components connect one after the other.
  pub connections : ℕ → Step (Bool × S) (List (Gorm S))
  connections zero = pure []
  connections (suc n) = do db ← new_mysql driver get_config; dbs ← connections n; pure (db ∷ dbs)

  -- The same without `mysqlInitOnce`.
  pub opens : ℕ → Step S (List (Gorm S))
  opens zero = pure []
  opens (suc n) = do db ← connect driver get_config; dbs ← opens n; pure (db ∷ dbs)

  abbrev flagged : {A : Type 0} → Exit A × S → Exit A × (Bool × S)
  flagged = with_flag driver get_config

  flagged->>= :
      {A B : Type 0} (x : Exit A × S) (f : A → Step S B) (g : A → Step (Bool × S) B)
      → ((a : A) (s : S) → g a (true, s) ≡ flagged (f a s))
      → proceed (flagged x).0 g (flagged x).1 ≡ flagged (proceed x.0 f x.1)
  flagged->>= (returns a, s) f g same = same a s
  flagged->>= (fails e, s) f g same = refl
  flagged->>= (panics message, s) f g same = refl

  -- What follows a connection.
  abbrev more : ℕ → Gorm S → Step (Bool × S) (List (Gorm S))
  more n db = connections n >>= λ dbs. pure (db ∷ dbs)

  connect-opens :
      (n : ℕ)
      → ((t : S) → connections n (true, t) ≡ flagged (opens n t))
      → (s : S)
      → proceed
          (flagged (connect driver get_config s)).0
          (more n)
          (flagged (connect driver get_config s)).1
        ≡ flagged (opens (suc n) s)
  unfolding opens
  connect-opens n later s = flagged->>= (connect driver get_config s) _ _ λ db t.
      ap (λ x. proceed x.0 (λ dbs. pure (db ∷ dbs)) x.1) (later t)
      ∙ flagged->>= (opens n t) _ _ λ dbs u. refl

  later-opens : (n : ℕ) (s : S) → connections n (true, s) ≡ flagged (opens n s)
  unfolding connections opens new_mysql
  later-opens zero s = refl
  later-opens (suc n) s = connect-opens n (later-opens n) s

  init-opens :
      (n : ℕ) (x : Exit (Unit {0}) × S)
      → (let y = flagged (proceed x.0 (λ u. connect driver get_config) x.1) in
          proceed y.0 (more n) y.1)
        ≡ flagged (proceed x.0 (λ u. opens (suc n)) x.1)
  init-opens n (returns u, s) = connect-opens n (later-opens n) s
  init-opens n (fails e, s) = refl
  init-opens n (panics message, s) = refl

  -- However many connections are made in a row, from the start of the process, the tables are
  -- migrated once, before the first of them: the whole run is that of one initialisation and then
  -- of as many plain connections, also where a step of it ends the process.
  pub new_mysql-once :
      (n : ℕ) (s : S)
      → connections (suc n) (false, s) ≡ flagged ((first_init driver get_config >> opens (suc n)) s)
  unfolding connections opens new_mysql
  new_mysql-once n s = init-opens n (first_init driver get_config s)
