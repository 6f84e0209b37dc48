-- ===== src/Storage/Atomic.antt =====
-- pkg/storage/mysql.go: a batch of instances is stored as a whole or not at all.
use pixels_spike.Base.{◌≡◌, refl, sym, ap, ◌∙◌, List, [], ◌∷◌, String, Result, ok, err, continue}
use pixels_spike.Model.{FuncInstance}
use pixels_spike.Storage.{Gorm, upsert_all, end_batch, update_func_instance_batch}

-- What the code relies on of a transaction. `rows s` are the stored instances as a query of the
-- transaction sees them, `saved s` those from its begin, and `put` is one upsert. A failed commit
-- rolls back.
pub record IsTransactional {S : Type 0} (db : Gorm S) (rows saved : S → List FuncInstance)
    (put : FuncInstance → List FuncInstance → List FuncInstance) : Type 0 where
  pub begin_rows : (s : S) → rows (db.begin s) ≡ rows s
  pub begin_saved : (s : S) → saved (db.begin s) ≡ rows s
  pub upsert_ok :
      (i : FuncInstance) (s : S)
      → (db.func_instance.upsert i s).0 ≡ ok tt
      → rows (db.func_instance.upsert i s).1 ≡ put i (rows s)
  pub upsert_saved : (i : FuncInstance) (s : S) → saved (db.func_instance.upsert i s).1 ≡ saved s
  pub rollback_rows : (s : S) → rows (db.rollback s) ≡ saved s
  pub commit_ok : (s : S) → (db.commit s).0 ≡ ok tt → rows (db.commit s).1 ≡ rows s
  pub commit_err : (s : S) (e : String) → (db.commit s).0 ≡ err e → rows (db.commit s).1 ≡ saved s

abbrev pub put_all :
    (FuncInstance → List FuncInstance → List FuncInstance)
    → List FuncInstance
    → List FuncInstance
    → List FuncInstance
put_all put [] rows = rows
put_all put (i ∷ is) rows = put_all put is (put i rows)

module _ {S : Type 0} (db : Gorm S) (rows saved : S → List FuncInstance)
    (put : FuncInstance → List FuncInstance → List FuncInstance)
    (store : IsTransactional db rows saved put) where
  open store use {
    begin_rows, begin_saved, upsert_ok, upsert_saved, rollback_rows, commit_ok, commit_err,
  }

  abbrev pub IsAtomic : List FuncInstance → S → Result (Unit {0}) × S → Type 0
  IsAtomic instances s (ok u, s') = rows s' ≡ put_all put instances (rows s)
  IsAtomic instances s (err e, s') = rows s' ≡ rows s

  -- The loop, from a state of the transaction.
  abbrev IsLooped : List FuncInstance → S → Result (Unit {0}) × S → Type 0
  IsLooped instances t (ok u, t') =
      (rows t' ≡ put_all put instances (rows t)) × (saved t' ≡ saved t)
  IsLooped instances t (err e, t') = saved t' ≡ saved t

  after_one :
      (i : FuncInstance) (is : List FuncInstance) (t t' : S) (y : Result (Unit {0}) × S)
      → rows t' ≡ put i (rows t)
      → saved t' ≡ saved t
      → IsLooped is t' y
      → IsLooped (i ∷ is) t y
  after_one i is t t' (ok u, v) e same (all, kept) = (all ∙ ap (put_all put is) e, kept ∙ same)
  after_one i is t t' (err m, v) e same kept = kept ∙ same

  upsert-IsLooped :
      (i : FuncInstance) (is : List FuncInstance) (t : S) (x : Result (Unit {0}) × S)
      → db.func_instance.upsert i t ≡ x
      → ((t' : S) → IsLooped is t' (upsert_all db is t'))
      → IsLooped (i ∷ is) t (continue x.0 (λ u. upsert_all db is) x.1)
  upsert-IsLooped i is t (ok u, t') e later =
      after_one i is t t' (upsert_all db is t')
        (ap (λ x. rows x.1) (sym e) ∙ upsert_ok i t (ap (λ x. x.0) e))
        (ap (λ x. saved x.1) (sym e) ∙ upsert_saved i t) (later t')
  upsert-IsLooped i is t (err m, t') e later = ap (λ x. saved x.1) (sym e) ∙ upsert_saved i t

  upsert_all-IsLooped :
      (instances : List FuncInstance) (t : S) → IsLooped instances t (upsert_all db instances t)
  unfolding upsert_all
  upsert_all-IsLooped [] t = (refl, refl)
  upsert_all-IsLooped (i ∷ is) t = upsert-IsLooped i is t _ refl (upsert_all-IsLooped is)

  end-IsAtomic :
      (instances : List FuncInstance) (s : S) (x : Result (Unit {0}) × S)
      → IsLooped instances (db.begin s) x
      → IsAtomic instances s (end_batch db x.0 x.1)
  end-IsAtomic instances s (err e, t) kept = rollback_rows t ∙ kept ∙ begin_saved s
  end-IsAtomic instances s (ok u, t) (all, kept) = committed _ refl
    where
      committed : (y : Result (Unit {0}) × S) → db.commit t ≡ y → IsAtomic instances s y
      committed (ok u', v) e =
          ap (λ y. rows y.1) (sym e)
          ∙ commit_ok t (ap (λ y. y.0) e)
          ∙ all
          ∙ ap (put_all put instances) (begin_rows s)
      committed (err m, v) e =
          ap (λ y. rows y.1) (sym e) ∙ commit_err t m (ap (λ y. y.0) e) ∙ kept ∙ begin_saved s

  -- `UpdateFuncInstanceBatch` is atomic: if it succeeds, every instance of the batch has been put
  -- into the table, one after the other; if any upsert or the commit fails, it returns an error and
  -- the stored instances are those from before.
  pub update_func_instance_batch-IsAtomic :
      (instances : List FuncInstance) (s : S)
      → IsAtomic instances s (update_func_instance_batch db instances s)
  unfolding update_func_instance_batch
  update_func_instance_batch-IsAtomic instances s =
      end-IsAtomic instances s (upsert_all db instances (db.begin s))
        (upsert_all-IsLooped instances (db.begin s))
