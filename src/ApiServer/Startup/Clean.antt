-- ===== src/ApiServer/Startup/Clean.antt =====
-- pkg/reqscheduler/reqscheduler.go: `NewReqScheduler` starts from an empty table of placements.
use pixels_spike.Base.{
  ℕ, ◌≡◌, refl, ◌⊎◌, inl, inr, List, [], String, Result, ok, err, if◌then◌else◌,
}
use pixels_spike.Base.Exits.{returns, Step}
use pixels_spike.Base.Float.{FloatOps}
use pixels_spike.Base.Keys.{◌==◌, string_keys}
use pixels_spike.Config.{SpikeConfig}
use pixels_spike.ReqScheduler.{choose_scheduler, clean_req_schedule_info}
use pixels_spike.Scheduler.{ReqScheduleInfo, base_schedule, one_task_schedule}
use pixels_spike.Storage.{Gorm, delete_all_req_schedule_info}
use pixels_spike.ApiServer.Startup.{ReqSchedulerFields, new_req_scheduler}

module _ {F S : Type 0} (float : FloatOps F) (intn : ℕ → ℕ) (get_config : Step S (SpikeConfig F))
    (new_mysql : Step S (Gorm S)) (requests : S → List ReqScheduleInfo) (db : Gorm S) (s t u : S)
    (c : SpikeConfig F) (connected : new_mysql s ≡ (returns db, t))
    (configured : get_config t ≡ (returns c, u))
    (deletes_all : (db.req_schedule_info.delete_all u).0 ≡ ok tt
      → requests (db.req_schedule_info.delete_all u).1 ≡ [])
    (fails_clean : (e : String)
      → (db.req_schedule_info.delete_all u).0 ≡ err e
      → requests (db.req_schedule_info.delete_all u).1 ≡ requests u) where
  -- Once it is connected and configured, `NewReqScheduler` always returns a scheduler, with the
  -- algorithm that the configuration names: one task on a node for its name, and the base scheduler
  -- for any other text. It starts with no placement recorded, unless their deletion failed: then
  -- the error is only logged, and it starts with all the old ones.
  pub new_req_scheduler-cleans :
      (r : ReqSchedulerFields F S) × ((new_req_scheduler float intn get_config new_mysql s).0
        ≡ returns r)
      × (r.mysql ≡ db)
      × (r.request_timeout ≡ c.server_config.request_timeout)
      × (r.scheduler ≡ (
          if c.server_config.scheduler_type == "one_task_per_node"
          then one_task_schedule intn
          else base_schedule float))
      × ((requests (new_req_scheduler float intn get_config new_mysql s).1 ≡ [])
          ⊎ ((e : String) × ((db.req_schedule_info.delete_all u).0 ≡ err e)
              × (requests (new_req_scheduler float intn get_config new_mysql s).1 ≡ requests u)))
  unfolding new_req_scheduler choose_scheduler clean_req_schedule_info delete_all_req_schedule_info
  new_req_scheduler-cleans = rw (connected, configured) (_, refl, refl, refl, refl, outcome _ refl)
    where
      outcome :
          (x : Result (Unit {0}))
          → (db.req_schedule_info.delete_all u).0 ≡ x
          → (requests (db.req_schedule_info.delete_all u).1 ≡ [])
            ⊎ ((e : String) × ((db.req_schedule_info.delete_all u).0 ≡ err e)
                × (requests (db.req_schedule_info.delete_all u).1 ≡ requests u))
      outcome (ok tt) e = inl (deletes_all e)
      outcome (err m) e = inr (m, e, fails_clean m e)
