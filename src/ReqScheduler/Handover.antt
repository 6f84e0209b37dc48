-- ===== src/ReqScheduler/Handover.antt =====
-- pkg/reqscheduler/reqscheduler.go: how `Schedule` hands a request over from the queue to an
-- instance, with any placement algorithm.
use mathlib.Core.List.{Permᴰ}
use pixels_spike.Base.{
  ◌≡◌, refl, sym, ap, ◌∙◌, ◌⊎◌, inl, inr, List, [], ◌∷◌, map, select, Bool, subst, Option, none,
  some, String, Result, ok, err, Action, continue, pure,
}
use pixels_spike.Base.Keys.{string_keys}
use pixels_spike.Base.Float.{FloatOps}
use pixels_spike.Model
use pixels_spike.Model.{FuncInstance, zero_model}
use pixels_spike.ReqQueue.{Request, ReqQueue, peek, pop}
use pixels_spike.Scheduler.{ReqScheduleInfo, StatMap, Scheduler}
use pixels_spike.Storage.{Gorm, Condition, text}
use pixels_spike.Storage.Laws.{IsTable, matches, req_columns, instance_columns}
use pixels_spike.ReqScheduler.{
  fill_stats, to_req_schedule_info, convert_to_req_schedule_info,
  convert_to_storage_req_schedule_info, new_req_schedule_info, place_request, schedule, finish,
  require, schedule_front,
}

-- A record that has not been stored yet.
abbrev pub IsNewRecord : Model.ReqScheduleInfo → Type 0
IsNewRecord r = r.model ≡ zero_model

-- What scheduling relies on of the two tables that it uses; `requests s` are the recorded
-- placements and `machines s` the instances in a state.
pub record ScheduleStore {S : Type 0} (db : Gorm S) (requests : S → List ReqScheduleInfo)
    (machines : S → List FuncInstance) : Type 0 where
  pub request_table :
      IsTable db.req_schedule_info to_req_schedule_info req_columns IsNewRecord requests
  pub find_machines :
      (c : Condition) (s : S) (found : List FuncInstance)
      → (db.func_instance.find c s).0 ≡ ok found
      → Permᴰ found (select (matches instance_columns c) (machines s))
  pub find_machines_keeps :
      (c : Condition) (s : S) → requests (db.func_instance.find c s).1 ≡ requests s

abbrev pub for_function : String → ReqScheduleInfo → Bool
for_function name info = matches req_columns (("function_name", text name) ∷ []) info

abbrev pub is_running : String → FuncInstance → Bool
is_running name =
    matches instance_columns (("function_name", text name) ∷ ("last_status", text "RUNNING") ∷ [])

module _ {F S : Type 0} (float : FloatOps F) (db : Gorm S) (scheduler : Scheduler F)
    (visit : StatMap F → StatMap F) {requests : S → List ReqScheduleInfo}
    {machines : S → List FuncInstance} (store : ScheduleStore db requests machines) where
  -- The request was placed: the algorithm chose from the running instances of its function and
  -- the placements recorded for it, and the new placement was recorded.
  pub record IsPlaced (req : Request) (s : S) (chosen : ReqScheduleInfo) (s' : S) : Type 0 where
    pub instances : List FuncInstance
    pub infos : List ReqScheduleInfo
    pub read_instances : Permᴰ instances (select (is_running req.function_name) (machines s))
    pub read_infos : Permᴰ infos (select (for_function req.function_name) (requests s))
    pub choice : scheduler req infos (visit (fill_stats float instances [])) ≡ some chosen
    pub recorded : Permᴰ (requests s') (new_req_schedule_info float req chosen ∷ requests s)

  abbrev Outcome : Request → S → Result ReqScheduleInfo × S → Type 0
  Outcome req s (ok chosen, s') = IsPlaced req s chosen s'
  Outcome req s (err e, s') = requests s' ≡ requests s

  abbrev new_row : Request → ReqScheduleInfo → Model.ReqScheduleInfo
  new_row req chosen = convert_to_storage_req_schedule_info (new_req_schedule_info float req chosen)

  view-new_row :
      (req : Request) (chosen : ReqScheduleInfo)
      → to_req_schedule_info (new_row req chosen) ≡ new_req_schedule_info float req chosen
  unfolding convert_to_storage_req_schedule_info
  view-new_row req chosen = refl

  new_row-IsNewRecord :
      (req : Request) (chosen : ReqScheduleInfo) → IsNewRecord (new_row req chosen)
  unfolding convert_to_storage_req_schedule_info
  new_row-IsNewRecord req chosen = refl

  open store.request_table use {find_ok, find_keeps, save_ok, save_err}

  recorded_by_save :
      (req : Request) (chosen : ReqScheduleInfo) (s t : S)
      → requests t ≡ requests s
      → (db.req_schedule_info.save (new_row req chosen) t).0 ≡ ok tt
      → Permᴰ
          (requests (db.req_schedule_info.save (new_row req chosen) t).1)
          (new_req_schedule_info float req chosen ∷ requests s)
  recorded_by_save req chosen s t same saved =
      subst (λ rows. Permᴰ (requests (db.req_schedule_info.save (new_row req chosen) t).1) rows)
        (ap (λ v. v ∷ requests t) (view-new_row req chosen)
          ∙ ap (λ rows. new_req_schedule_info float req chosen ∷ rows) same)
        (save_ok (new_row req chosen) t (new_row-IsNewRecord req chosen) saved)

  -- The last step, from the outcome `x` of the insertion.
  save-Outcome :
      (req : Request) (s t : S) (chosen : ReqScheduleInfo) (x : Result (Unit {0}) × S)
      → x ≡ db.req_schedule_info.save (new_row req chosen) t
      → requests t ≡ requests s
      → ((s' : S)
          → Permᴰ (requests s') (new_req_schedule_info float req chosen ∷ requests s)
          → IsPlaced req s chosen s')
      → Outcome req s (continue x.0 (λ _. pure chosen) x.1)
  save-Outcome req s t chosen (ok u, s') e same placed = placed s' (
      subst (λ v. Permᴰ (requests v) (new_req_schedule_info float req chosen ∷ requests s))
        (ap (λ y. y.1) (sym e)) (recorded_by_save req chosen s t same (ap (λ y. y.0) (sym e))))
  save-Outcome req s t chosen (err m, s') e same placed =
      ap (λ y. requests y.1) e ∙ save_err (new_row req chosen) t m (ap (λ y. y.0) (sym e)) ∙ same

  abbrev store_choice : Request → ReqScheduleInfo → Action S ReqScheduleInfo
  store_choice req chosen t =
      let x = db.req_schedule_info.save (new_row req chosen) t in
      continue x.0 (λ _. pure chosen) x.1

  abbrev chosen_by :
      Request → List FuncInstance → List Model.ReqScheduleInfo → Option ReqScheduleInfo
  chosen_by req instances rows =
      scheduler req (convert_to_req_schedule_info rows) (visit (fill_stats float instances []))

  choice-Outcome :
      (req : Request) (s t : S) (instances : List FuncInstance) (rows : List Model.ReqScheduleInfo)
      (o : Option ReqScheduleInfo)
      → o ≡ chosen_by req instances rows
      → requests t ≡ requests s
      → Permᴰ instances (select (is_running req.function_name) (machines s))
      → Permᴰ
          (convert_to_req_schedule_info rows)
          (select (for_function req.function_name) (requests s))
      → Outcome req s (continue (require float o) (store_choice req) t)
  choice-Outcome req s t instances rows none e same fi fr = same
  choice-Outcome req s t instances rows (some chosen) e same fi fr =
      save-Outcome req s t chosen (db.req_schedule_info.save (new_row req chosen) t) refl same
        λ s' recorded. record {
          instances = instances;
          infos = convert_to_req_schedule_info rows;
          read_instances = fi;
          read_infos = fr;
          choice = sym e;
          recorded = recorded;
        }

  read_infos-Outcome :
      (req : Request) (s t : S) (instances : List FuncInstance)
      (x : Result (List Model.ReqScheduleInfo) × S)
      → x ≡ db.req_schedule_info.find (("function_name", text req.function_name) ∷ []) t
      → requests t ≡ requests s
      → Permᴰ instances (select (is_running req.function_name) (machines s))
      → Outcome req s (
          continue x.0
            (λ rows t'.
              continue (require float (chosen_by req instances rows)) (store_choice req) t')
            x.1)
  unfolding convert_to_req_schedule_info
  read_infos-Outcome req s t instances (err m, t') e same fi =
      ap (λ y. requests y.1) e ∙ find_keeps _ t ∙ same
  read_infos-Outcome req s t instances (ok rows, t') e same fi =
      choice-Outcome req s t' instances rows _ refl
        (ap (λ y. requests y.1) e ∙ find_keeps _ t ∙ same) fi
        (subst
          (λ l. Permᴰ (map to_req_schedule_info rows) (select (for_function req.function_name) l))
          same (find_ok _ t rows (ap (λ y. y.0) (sym e))))

  read_instances-Outcome :
      (req : Request) (s : S) (x : Result (List FuncInstance) × S)
      → x
        ≡ db.func_instance.find
            (("function_name", text req.function_name) ∷ ("last_status", text "RUNNING") ∷ [])
            s
      → Outcome req s (
          continue x.0
            (λ instances t.
              let y =
                db.req_schedule_info.find (("function_name", text req.function_name) ∷ []) t in
              continue y.0
                (λ rows t'.
                  continue (require float (chosen_by req instances rows)) (store_choice req) t')
                y.1)
            x.1)
  read_instances-Outcome req s (err m, t) e =
      ap (λ y. requests y.1) e ∙ store.find_machines_keeps _ s
  read_instances-Outcome req s (ok instances, t) e =
      read_infos-Outcome req s t instances _ refl
        (ap (λ y. requests y.1) e ∙ store.find_machines_keeps _ s)
        (store.find_machines _ s instances (ap (λ y. y.0) (sym e)))

  place_request-Outcome :
      (req : Request) (s : S) → Outcome req s (place_request float db scheduler visit req s)
  unfolding place_request
  place_request-Outcome req s = read_instances-Outcome req s _ refl

  -- What one run of `Schedule` does: nothing, or the hand-over of the front request.
  abbrev pub IsIdle : ReqQueue → S → Option (Request × String) × ReqQueue × S → Type 0
  IsIdle q s r = (r.0 ≡ none) × (r.1 ≡ q) × (requests r.2 ≡ requests s)

  abbrev pub IsHandover : ReqQueue → S → Option (Request × String) × ReqQueue × S → Type 0
  IsHandover q s r =
      (req : Request) × (chosen : ReqScheduleInfo) × (peek q ≡ some req)
      × (r.0 ≡ some (req, chosen.placed_ins_ipv4))
      × (r.1 ≡ pop q)
      × IsPlaced req s chosen r.2

  finish-Handover :
      (req : Request) (q : ReqQueue) (s : S) (x : Result ReqScheduleInfo × S)
      → peek q ≡ some req
      → Outcome req s x
      → IsIdle q s (finish float db scheduler visit req q x)
        ⊎ IsHandover q s (finish float db scheduler visit req q x)
  finish-Handover req q s (ok chosen, s') front placed =
      inr (req, chosen, front, refl, refl, placed)
  finish-Handover req q s (err e, s') front same = inl (refl, refl, same)

  front-Handover :
      (o : Option Request) (q : ReqQueue) (s : S)
      → peek q ≡ o
      → IsIdle q s (schedule_front float db scheduler visit o q s)
        ⊎ IsHandover q s (schedule_front float db scheduler visit o q s)
  front-Handover none q s e = inl (refl, refl, refl)
  front-Handover (some req) q s e = finish-Handover req q s _ e (place_request-Outcome req s)

  -- A run of `Schedule` either leaves the queue and the recorded placements as they were and
  -- starts nothing, also after an error half-way; or it takes exactly the front request off the
  -- queue, records exactly one new placement, for that request on the instance that the algorithm
  -- chose, and starts the call of that instance. So a request is never dropped unplaced, placed
  -- while still queued, or placed twice.
  pub schedule-IsHandover :
      (q : ReqQueue) (s : S)
      → IsIdle q s (schedule float db scheduler visit q s)
        ⊎ IsHandover q s (schedule float db scheduler visit q s)
  unfolding schedule
  schedule-IsHandover q s = front-Handover (peek q) q s refl
