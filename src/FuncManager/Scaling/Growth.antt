-- ===== src/FuncManager/Scaling/Growth.antt =====
-- pkg/funcmanager/funcmanager.go: `ScaleFunction` with a count above zero, from the request to the
-- services and the rows that it leaves.
use pixels_spike.Base.{
  ℕ, suc, ◌+◌, ◌≤◌, ◌≡◌, ◌≢◌, refl, sym, ap, ◌∙◌, subst, List, [], map, Bool, true, false, String,
  Result, ok, err, arith, length,
}
use pixels_spike.Base.Exits.{Exit, returns, fails, panics, proceed, to_exit}
use pixels_spike.FuncManager.Scaling.{Replicas}
use pixels_spike.FuncManager.Scaling.Bounds.{NoWrap, target, real_scale_cnt-target}
use pixels_spike.Base.Int.{
  ◌<ℤ◌, ◌+ℤ◌, ◌-ℤ◌, IsInt32, min_ℤ, int_laws, wrap32_of_int32, ℤ, pos, negsuc, ltb_ℤ, eq_ℤ,
}
use pixels_spike.AwsClient.{Cloud}
use pixels_spike.AwsClient.Batch.{Leaves, batch_create_instance-Leaves}
use pixels_spike.AwsClient.Goroutines.{ServiceStore, occurrences}
use pixels_spike.AwsClient.Keeps.{IsUntouched, batch_create_instance-Keeps}
use pixels_spike.FuncManager.{FuncManager, new_instance}
use pixels_spike.FuncManager.Scaling.{
  ScaleFunctionRequest, grow, scale_checked, scale_replicas, scale_function, real_scale_cnt, len32,
}
use pixels_spike.FuncManager.Scaling.Reductions.{Reads, replicas, scale_function-checked}
use pixels_spike.Model.{FuncInstance, AwsTaskDef}
use pixels_spike.Storage.{Gorm, update_func_instance_batch}
use pixels_spike.Storage.Atomic.{
  IsTransactional, put_all, IsAtomic, update_func_instance_batch-IsAtomic,
}

-- A request above zero aims at the count that it leads to, but no more than the maximum.
target_up :
    (scale_cnt current : ℤ) (bounds : Replicas)
    → pos 0 <ℤ scale_cnt
    → target scale_cnt current bounds ≡ min_ℤ (current +ℤ scale_cnt) bounds.0
target_up scale_cnt current bounds up = ground arith

+ℤ_-ℤ_left : (a b : ℤ) → (a +ℤ b) -ℤ a ≡ b
+ℤ_-ℤ_left a b = omega int_laws

cancel_left : (a b c : ℤ) → a +ℤ b ≡ a +ℤ c → b ≡ c
cancel_left a b c h = sym (+ℤ_-ℤ_left a b) ∙ ap (λ z. z -ℤ a) h ∙ +ℤ_-ℤ_left a c

module _ {S : Type 0} (db : Gorm S) (cloud : Cloud S) (f : FuncManager) {running : String → S → ℕ}
    (services : ServiceStore cloud f.aws_client running) {rows saved : S → List FuncInstance}
    {put : FuncInstance → List FuncInstance → List FuncInstance}
    (store : IsTransactional db rows saved put) (apart : IsUntouched cloud rows)
    (table_only : (l : List FuncInstance) (s : S) (x : String)
      → running x (update_func_instance_batch db l s).1 ≡ running x s) where
  -- The services of these names, and no other, came up between the two states.
  abbrev pub CameUp : List String → S → S → Type 0
  CameUp names s t = (x : String) → running x t ≡ running x s + occurrences x names

  abbrev pub new_rows : ScaleFunctionRequest → AwsTaskDef → List String → List FuncInstance
  new_rows req task_def names =
      map
        (new_instance req.function_name req.cpu req.memory task_def.task_family
          task_def.task_revision f.cold_resource_pool)
        names

  -- What the growth by `n` leaves.
  abbrev pub IsGrown : ScaleFunctionRequest → AwsTaskDef → ℕ → S → Exit (List String) × S → Type 0
  IsGrown req task_def n s (returns deleted, t) =
      (deleted ≡ [])
      × (names : List String) × (length names ≡ n)
      × CameUp names s t
      × (rows t ≡ put_all put (new_rows req task_def names) (rows s))
  IsGrown req task_def n s (fails e, t) =
      (names : List String) × (length names ≤ n) × CameUp names s t × (rows t ≡ rows s)
  IsGrown req task_def n s (panics message, t) =
      (names : List String) × (length names ≤ n) × CameUp names s t × (rows t ≡ rows s)

  module _ (req : ScaleFunctionRequest) (task_def : AwsTaskDef) where
    stored-IsGrown :
        (n : ℕ) (s t : S) (names : List String) (y : Result (Unit {0}) × S)
        → length names ≡ n
        → CameUp names s t
        → rows t ≡ rows s
        → ((x : String) → running x y.1 ≡ running x t)
        → IsAtomic db rows saved put store (new_rows req task_def names) t y
        → IsGrown req task_def n s (proceed (to_exit y.0) (λ u v. (returns [], v)) y.1)
    stored-IsGrown n s t names (ok u, v) long up same cluster all = (
      refl,
      names,
      long,
      λ x. cluster x ∙ up x,
      all ∙ ap (put_all put (new_rows req task_def names)) same,
    )
    stored-IsGrown n s t names (err e, v) long up same cluster kept =
        (names, omega arith, λ x. cluster x ∙ up x, kept ∙ same)

    batch-IsGrown :
        (n : ℕ) (s : S) (x : Exit (List String) × S)
        → Leaves cloud f.aws_client services task_def.task_family task_def.task_revision
            f.cold_resource_pool n s x
        → rows x.1 ≡ rows s
        → IsGrown req task_def n s (
            proceed x.0
              (λ names t.
                let y = update_func_instance_batch db (new_rows req task_def names) t in
                proceed (to_exit y.0) (λ u v. (returns [], v)) y.1)
              x.1)
    batch-IsGrown n s (returns names, t) left same =
        stored-IsGrown n s t names (update_func_instance_batch db (new_rows req task_def names) t)
          left.0 left.1 same (table_only (new_rows req task_def names) t)
          (update_func_instance_batch-IsAtomic db rows saved put store (new_rows req task_def names)
            t)
    batch-IsGrown n s (fails e, t) (names, few, up) same = (names, omega arith, up, same)
    batch-IsGrown n s (panics message, t) (names, few, up) same = (names, few, up, same)

    grow-IsGrown :
        (turns : List ℕ) (n : ℕ) (s : S)
        → IsGrown req task_def n s (grow db cloud f turns req task_def (pos n) s)
    unfolding grow
    grow-IsGrown turns n s =
        batch-IsGrown n s _
          (batch_create_instance-Leaves cloud f.aws_client services task_def.task_family
            task_def.task_revision f.cold_resource_pool turns n s)
          ((batch_create_instance-Keeps cloud f.aws_client rows apart task_def.task_family
              task_def.task_revision f.cold_resource_pool turns (pos n)).kept
            s)

  -- A positive count passes the tests.
  checked-grow :
      (b : Bool) (turns : List ℕ) (req : ScaleFunctionRequest) (current : List FuncInstance)
      (task_def : AwsTaskDef) (n : ℕ) (z : ℤ) (s : S)
      → b ≡ false
      → z ≡ pos (suc n)
      → scale_checked db cloud f b turns req current task_def z s
        ≡ grow db cloud f turns req task_def (pos (suc n)) s
  checked-grow true turns req current task_def n z s undeclared e = absurd (cc)
  checked-grow false turns req current task_def n z s undeclared e =
      let up : ltb_ℤ (pos 0) (pos (suc n)) ≡ true = ground arith in
      subst
        (λ z.
          scale_checked db cloud f false turns req current task_def z s
          ≡ grow db cloud f turns req task_def (pos (suc n)) s)
        (sym e) (rw up refl)

  IsGrown-by :
      (turns : List ℕ) (req : ScaleFunctionRequest) (s : S) (reads : Reads db cloud f req s) (n : ℕ)
      → (replicas db cloud f turns req s reads).0 ≢ negsuc 0
      → real_scale_cnt req.scale_cnt (len32 reads.current) (replicas db cloud f turns req s reads)
        ≡ pos (suc n)
      → IsGrown req reads.task_def (suc n) reads.after_all (scale_function db cloud f turns req s)
  unfolding scale_replicas
  IsGrown-by turns req s reads n declared real =
      rw (scale_function-checked db cloud f turns req s reads) (
        subst (IsGrown req reads.task_def (suc n) reads.after_all)
          (sym (
            checked-grow (eq_ℤ (replicas db cloud f turns req s reads).0 (negsuc 0)) turns req
              reads.current reads.task_def n _ reads.after_all (ground arith) real))
          (grow-IsGrown req reads.task_def turns (suc n) reads.after_all))

  -- A request to scale a function up brings up exactly `n` new services and stores exactly their
  -- rows, where the current count of instances of the size and `n` are the count and the request, or
  -- the maximum of the size if that is less; `n` is above zero. Or it fails, or a panic ends the
  -- process, and then no row was stored, although up to `n` new services may have come up, which run
  -- on without a row. The queries succeed, the size is declared with a maximum, no sum leaves int32,
  -- and the goroutines take turns in any order.
  pub scale_function-IsGrown :
      (turns : List ℕ) (req : ScaleFunctionRequest) (s : S) (reads : Reads db cloud f req s) (n : ℕ)
      → (replicas db cloud f turns req s reads).0 ≢ negsuc 0
      → pos 0 <ℤ req.scale_cnt
      → IsInt32 (pos (length reads.current))
      → NoWrap req.scale_cnt (pos (length reads.current)) (replicas db cloud f turns req s reads)
      → pos (length reads.current) +ℤ pos (suc n)
        ≡ min_ℤ
            (pos (length reads.current) +ℤ req.scale_cnt)
            (replicas db cloud f turns req s reads).0
      → IsGrown req reads.task_def (suc n) reads.after_all (scale_function db cloud f turns req s)
  scale_function-IsGrown turns req s reads n declared up count_int32 range room =
      let count = pos (length reads.current) in
      let bounds = replicas db cloud f turns req s reads in
      let real : real_scale_cnt req.scale_cnt count bounds ≡ pos (suc n) =
        cancel_left count (real_scale_cnt req.scale_cnt count bounds) (pos (suc n)) (
          real_scale_cnt-target req.scale_cnt count bounds range
          ∙ target_up req.scale_cnt count bounds up
          ∙ sym room) in
      IsGrown-by turns req s reads n declared
        (ap (λ c. real_scale_cnt req.scale_cnt c bounds) (wrap32_of_int32 count count_int32) ∙ real)
