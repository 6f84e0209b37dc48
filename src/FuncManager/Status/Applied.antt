-- ===== src/FuncManager/Status/Applied.antt =====
-- pkg/funcmanager/funcmanager.go: the rows that a refresh makes of the tasks that AWS described.
use pixels_spike.Base.{
  ℕ, ◌≡◌, refl, sym, ap, subst, ◌∙◌, ◌⊎◌, inl, inr, List, [], ◌∷◌, map, Option, none, some, String,
  ok, All, Memᴰ, get_elem?,
}
use pixels_spike.Base.Exits.{Exit, returns, fails, panics, proceed}
use pixels_spike.AwsClient.{Cloud, Task}
use pixels_spike.FuncManager.{FuncManager}
use pixels_spike.FuncManager.Status.{
  Update, mark_not_created, newest, apply_found, apply_task, apply_all,
}
use pixels_spike.FuncManager.Status.Gathered.{IsOwned}
use pixels_spike.FuncManager.Status.Newest.{IsNewest, newest-IsNewest}
use pixels_spike.FuncManager.Status.Faults.{
  IsFaulty, IsFault, newest-IsFaulty, newest-fails, newest-none,
}
use pixels_spike.FuncManager.Status.Rows.{IsRowOf, MakesRow, with_task-MakesRow}
use pixels_spike.Model.{FuncInstance}
use pixels_spike.Storage.{Gorm}

-- Reading the clock and asking AWS leave a part of the state as it is.
pub record IsReading {S V : Type 0} (cloud : Cloud S) (now : S → ℕ × S) (view : S → V)
    : Type 0 where
  pub lists_keep : (c n : String) (s : S) → view (cloud.list_tasks c n s).1 ≡ view s
  pub describes_keep :
      (c : String) (l : List String) (s : S) → view (cloud.describe_tasks c l s).1 ≡ view s
  pub interfaces_keep :
      (id : String) (s : S) → view (cloud.describe_network_interfaces id s).1 ≡ view s
  pub now_keeps : (s : S) → view (now s).1 ≡ view s

module _ {S V : Type 0} (db : Gorm S) (cloud : Cloud S) (f : FuncManager) (now : S → ℕ × S)
    (view : S → V) (reading : IsReading cloud now view) where
  open reading use {lists_keep, describes_keep, interfaces_keep, now_keeps}

  -- The row of an update: of the tasks that AWS described, those at the positions where the
  -- instance's own tasks stand in the request are its tasks; the row is that of the newest of them,
  -- and not created only without one.
  pub record IsRefreshed (instances : List FuncInstance) (arns : List String) (reply : List Task)
      (u : Update) (row : FuncInstance) : Type 0 where
    pub instance : FuncInstance
    pub listed : Memᴰ instance instances
    pub same_instance : (u.0 ≡ instance) ⊎ (u.0 ≡ mark_not_created instance)
    pub own_tasks : List String
    pub asked_in : S
    pub own_listed :
        (cloud.list_tasks f.aws_client.cluster instance.aws_service_name asked_in).0 ≡ ok own_tasks
    pub at_own : map (get_elem? arns) u.1 ≡ map some own_tasks
    pub outcome :
        ((own_tasks ≡ []) × (row ≡ mark_not_created instance))
        ⊎ ((task : Task) × IsNewest reply u.1 task
            × IsRowOf db cloud f now view interfaces_keep instance task row)

  -- There is one row for each of the updates, in their order.
  abbrev pub AreRefreshed :
      List FuncInstance → List String → List Task → List Update → List FuncInstance → Type 0
  AreRefreshed instances arns reply [] [] = Unit {0}
  AreRefreshed instances arns reply (u ∷ us) (row ∷ rows) =
      IsRefreshed instances arns reply u row × AreRefreshed instances arns reply us rows
  AreRefreshed instances arns reply us rows = ⊥

  module _ (instances : List FuncInstance) (arns : List String) (reply : List Task) where
    -- One row is made, or AWS's reply is faulty at a position of the instance.
    abbrev Applies : Update → S → Exit FuncInstance × S → Type 0
    Applies u s (returns row, t) = IsRefreshed instances arns reply u row × (view t ≡ view s)
    Applies u s (fails e, t) = ⊥
    Applies u s (panics message, t) = IsFaulty reply u.1 × (view t ≡ view s)

    no_tasks : (own : List String) → [] ≡ map some own → own ≡ []
    no_tasks [] e = refl
    no_tasks (arn ∷ own) e = absurd (cc)

    IsRowOf-instance :
        (i instance : FuncInstance) (task : Task) (row : FuncInstance)
        → (i ≡ instance) ⊎ (i ≡ mark_not_created instance)
        → IsRowOf db cloud f now view interfaces_keep i task row
        → IsRowOf db cloud f now view interfaces_keep instance task row
    IsRowOf-instance i instance task row (inl same) h =
        subst (λ j. IsRowOf db cloud f now view interfaces_keep j task row) same h
    IsRowOf-instance i instance task row (inr same) h =
        let r : IsRowOf db cloud f now view interfaces_keep (mark_not_created instance) task row =
          subst (λ j. IsRowOf db cloud f now view interfaces_keep j task row) same h in
        record {
          task_arn = r.task_arn;
          last_status = r.last_status;
          desired_status = r.desired_status;
          cpu = r.cpu;
          memory = r.memory;
          address = r.address;
          same_else = r.same_else;
        }

    made-Applies :
        (u : Update) (task : Task) (s : S) (x : Exit FuncInstance × S)
        → IsOwned cloud f instances arns u
        → IsNewest reply u.1 task
        → MakesRow db cloud f now view interfaces_keep u.0 task s x
        → Applies u s x
    made-Applies u task s (returns row, t) h newest_one (is_row, kept) = (
      record {
        instance = h.instance;
        listed = h.listed;
        same_instance = h.same_instance;
        own_tasks = h.own_tasks;
        asked_in = h.asked_in;
        own_listed = h.own_listed;
        at_own = h.at_own;
        outcome =
            inr (task, newest_one, IsRowOf-instance u.0 h.instance task row h.same_instance is_row);
      },
      kept,
    )
    made-Applies u task s (fails e, t) h newest_one makes = absurd makes
    made-Applies u task s (panics message, t) h newest_one (incomplete, kept) = (
      (newest_one.position, newest_one.listed, subst IsFault (sym newest_one.found) incomplete),
      kept,
    )

    apply_task-Applies :
        (u : Update) (s : S) (found : Exit (Option Task))
        → IsOwned cloud f instances arns u
        → newest reply u.1 none ≡ found
        → Applies u s (apply_task db cloud f now u.0 found s)
    unfolding apply_found apply_task
    apply_task-Applies u s (returns none) h e =
        let empty : u.1 ≡ [] = newest-none reply u.1 e in
        (
          record {
            instance = h.instance;
            listed = h.listed;
            same_instance = h.same_instance;
            own_tasks = h.own_tasks;
            asked_in = h.asked_in;
            own_listed = h.own_listed;
            at_own = h.at_own;
            outcome = inl (
              no_tasks h.own_tasks (ap (map (get_elem? arns)) (sym empty) ∙ h.at_own),
              marked h.same_instance,
            );
          },
          refl,
        )
      where
        marked :
            (u.0 ≡ h.instance) ⊎ (u.0 ≡ mark_not_created h.instance)
            → mark_not_created u.0 ≡ mark_not_created h.instance
        marked (inl same) = ap mark_not_created same
        marked (inr same) = ap mark_not_created same
    apply_task-Applies u s (returns (some task)) h e =
        made-Applies u task s _ h (newest-IsNewest reply u.1 task e)
          (with_task-MakesRow db cloud f now view interfaces_keep u.0 task s)
    apply_task-Applies u s (fails m) h e = absurd (newest-fails reply u.1 none m e)
    apply_task-Applies u s (panics m) h e = (newest-IsFaulty reply u.1 m e, refl)

    -- All rows are made, one for each update, or the reply is faulty for one of them.
    abbrev pub MakesRows : List Update → S → Exit (List FuncInstance) × S → Type 0
    MakesRows us s (returns rows, t) = AreRefreshed instances arns reply us rows × (view t ≡ view s)
    MakesRows us s (fails e, t) = ⊥
    MakesRows us s (panics message, t) =
        ((u : Update) × Memᴰ u us × IsFaulty reply u.1) × (view t ≡ view s)

    abbrev join_rows : FuncInstance → Exit (List FuncInstance) × S → Exit (List FuncInstance) × S
    join_rows row x = proceed x.0 (λ more t. (returns (row ∷ more), t)) x.1

    joined-MakesRows :
        (u : Update) (us : List Update) (row : FuncInstance) (s t : S)
        (x : Exit (List FuncInstance) × S)
        → IsRefreshed instances arns reply u row
        → view t ≡ view s
        → MakesRows us t x
        → MakesRows (u ∷ us) s (join_rows row x)
    joined-MakesRows u us row s t (returns rows, v) h same (hs, kept) = ((h, hs), kept ∙ same)
    joined-MakesRows u us row s t (fails e, v) h same makes = absurd makes
    joined-MakesRows u us row s t (panics m, v) h same ((w, member, faulty), kept) =
        ((w, Memᴰ.tail member, faulty), kept ∙ same)

    first-MakesRows :
        (u : Update) (us : List Update) (s : S) (x : Exit FuncInstance × S)
        → Applies u s x
        → ((t : S) → MakesRows us t (apply_all db cloud f now reply us t))
        → MakesRows
            (u ∷ us)
            s
            (proceed x.0 (λ row t. join_rows row (apply_all db cloud f now reply us t)) x.1)
    first-MakesRows u us s (returns row, t) (h, same) rest =
        joined-MakesRows u us row s t _ h same (rest t)
    first-MakesRows u us s (fails e, t) applies rest = absurd applies
    first-MakesRows u us s (panics m, t) (faulty, kept) rest = ((u, Memᴰ.head refl, faulty), kept)

    pub apply_all-MakesRows :
        (us : List Update) (s : S)
        → All (IsOwned cloud f instances arns) us
        → MakesRows us s (apply_all db cloud f now reply us s)
    unfolding apply_all
    apply_all-MakesRows [] s h = (tt, refl)
    apply_all-MakesRows (u ∷ us) s (h, hs) =
        first-MakesRows u us s _ (apply_task-Applies u s (newest reply u.1 none) h refl)
          (λ t. apply_all-MakesRows us t hs)
