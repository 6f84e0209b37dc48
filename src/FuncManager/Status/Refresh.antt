-- ===== src/FuncManager/Status/Refresh.antt =====
-- pkg/funcmanager/funcmanager.go: a whole refresh of the status, whatever AWS replies.
use pixels_spike.Base.{ℕ, ◌≡◌, ◌⊎◌, List, [], String, Result, ok, err, All, Memᴰ}
use pixels_spike.Base.Exits.{Exit, returns, fails, panics, proceed, pure, try, ◌>>=◌}
use pixels_spike.AwsClient.{Cloud, Task, describe_tasks}
use pixels_spike.FuncManager.{FuncManager}
use pixels_spike.FuncManager.Status.{Update, gather}
use pixels_spike.FuncManager.Status.Gathered.{IsCovered}
use pixels_spike.FuncManager.Status.Faults.{IsFaulty}
use pixels_spike.FuncManager.Status.Applied.{IsReading, AreRefreshed}
use pixels_spike.Model.{FuncInstance}
use pixels_spike.Storage.{Gorm, update_func_instance_batch}

module _ {S V : Type 0} (db : Gorm S) (cloud : Cloud S) (f : FuncManager) (now : S → ℕ × S)
    (view : S → V) (reading : IsReading cloud now view) where
  open reading use {lists_keep, describes_keep, now_keeps}

  -- The description of the tasks that is asked for.
  abbrev pub asked : List String → S → Result (List Task) × S
  asked arns = cloud.describe_tasks f.aws_client.cluster arns

  -- What a refresh leads to, after the tasks `arns` of the updates were listed.
  abbrev pub IsDone :
      List FuncInstance → List Update → List String → S → S → Exit (Unit {0}) × S → Type 0
  IsDone instances us arns s t (returns r, u) =
      (((arns ≡ []) ⊎ ((e : String) × ((asked arns t).0 ≡ err e))) × (view u ≡ view s))
      ⊎ ((reply : List Task) × (rows : List FuncInstance) × (w : S) × ((asked arns t).0 ≡ ok reply)
          × AreRefreshed db cloud f now view reading instances arns reply us rows
          × (view w ≡ view s)
          × (u ≡ (update_func_instance_batch db rows w).1))
  IsDone instances us arns s t (fails e, u) = ⊥
  IsDone instances us arns s t (panics message, u) =
      (reply : List Task) × ((asked arns t).0 ≡ ok reply)
      × ((w : Update) × Memᴰ w us × IsFaulty reply w.1)
      × (view u ≡ view s)

  abbrev pub IsRefresh : List FuncInstance → S → Exit (Unit {0}) × S → Type 0
  IsRefresh instances s x =
      let ((us, arns), t) = gather db cloud f now instances [] s in
      All (IsCovered cloud f now us) instances × IsDone instances us arns s t x

  module _ (instances : List FuncInstance) (us : List Update) (arns : List String) (s t : S)
      (same : view t ≡ view s) where
    abbrev stored : Exit (List FuncInstance) × S → Exit (Unit {0}) × S
    unfolding update_func_instance_batch
    stored x = proceed x.0 (λ rows. try (update_func_instance_batch db rows) >>= λ r. pure tt) x.1
