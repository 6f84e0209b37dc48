-- ===== src/ApiServer/Listing.antt =====
-- pkg/apiserver/apiserver.go: what `GetReqScheduleInfo` lists.
use mathlib.Core.List.Permᴰ
use mathlib.Core.List.{Permᴰ, map-map}
use pixels_spike.Base.{
  ℕ, ◌≡◌, refl, sym, ap, subst, ◌∙◌, List, [], ◌∷◌, map, select, String, Result, ok, err, arith,
}
use pixels_spike.Base.Distinct.{map-select}
use pixels_spike.Base.Keys.{◌==◌, lookup, string_keys}
use pixels_spike.Base.Perms.{select-perm}
use pixels_spike.Model
use pixels_spike.Model.{FuncInstance}
use pixels_spike.ReqQueue.{Request}
use pixels_spike.Scheduler.{ReqScheduleInfo}
use pixels_spike.Storage.{text, delete_req_schedule_info, get_req_schedule_info_by_function_name}
use pixels_spike.ReqScheduler
use pixels_spike.ReqScheduler.{to_req_schedule_info, convert_to_req_schedule_info}
use pixels_spike.ReqScheduler.Handover.{for_function}
use pixels_spike.ReqScheduler.System.{Deployment, System, Reach, IsExclusive, start_of}
use pixels_spike.ReqScheduler.System.Placements.{info_key, call_key, Reach-IsMatched}
use pixels_spike.ApiServer.{ApiReqScheduleInfo, to_api_info, get_req_schedule_info}

-- An entry of the response, by the number of the request, its function and the address.
abbrev pub api_key : ApiReqScheduleInfo → ℕ × String × String
api_key v = (v.req_id, v.function_name, v.placed_ins_ipv4)

-- The calls in flight of a function.
abbrev pub calls_of : {S : Type 0} → String → System S → List (Request × String)
calls_of name t = select (λ e. e.0.function_name == name) t.running

for_function_key :
    (name : String) (v : ReqScheduleInfo) → for_function name v ≡ ((info_key v).1 == name)
unfolding lookup
for_function_key name v = ground arith

module _ {F S : Type 0} (d : Deployment F S) {Others : S → S → Type 0}
    {requests : S → List ReqScheduleInfo} {machines : S → List FuncInstance}
    (exclusive : IsExclusive d Others requests machines)
    (deletes : (id : ℕ) (s : S) → (delete_req_schedule_info d.db id s).0 ≡ ok tt) where
  open exclusive use {store}

  keys_found :
      (name : String) (s : S) (rows : List Model.ReqScheduleInfo)
      → (d.db.req_schedule_info.find (("function_name", text name) ∷ []) s).0 ≡ ok rows
      → Permᴰ
          (map info_key (map to_req_schedule_info rows))
          (select (λ k. k.1 == name) (map info_key (requests s)))
  keys_found name s rows e =
      subst (Permᴰ (map info_key (map to_req_schedule_info rows)))
        (map-select info_key (for_function name) (λ k. k.1 == name) (for_function_key name)
          (requests s))
        (Permᴰ.map info_key
          (store.request_table.find_ok (("function_name", text name) ∷ []) s rows e))

  read_rows :
      (name : String) (s : S) (infos : List ApiReqScheduleInfo)
      (x : Result (List Model.ReqScheduleInfo))
      → (d.db.req_schedule_info.find (("function_name", text name) ∷ []) s).0 ≡ x
      → (get_req_schedule_info d.db name s).0 ≡ ok infos
      → (rows : List Model.ReqScheduleInfo) × (x ≡ ok rows)
        × (infos ≡ map to_api_info (map to_req_schedule_info rows))
  unfolding get_req_schedule_info ReqScheduler.get_req_schedule_info
      get_req_schedule_info_by_function_name convert_to_req_schedule_info
  read_rows name s infos (ok rows) e h = let h' = rw e at h in (rows, refl, cc)
  read_rows name s infos (err m) e h = let h' = rw e at h in absurd (cc)

  api_keys :
      (infos : List ReqScheduleInfo) → map api_key (map to_api_info infos) ≡ map info_key infos
  api_keys infos = map-map api_key to_api_info infos

  -- In every state that is reached from a start with no placement recorded, `GetReqScheduleInfo`, if
  -- it does not fail, lists the calls in flight of the function and nothing else, each once, with
  -- the number of its request and the address that is called. The deletions of placements succeed,
  -- and only the scheduler changes the placements.
  pub get_req_schedule_info-in_flight :
      (name : String) {s : S} {t : System S} {infos : List ApiReqScheduleInfo}
      → requests s ≡ []
      → Reach d Others (start_of s) t
      → (get_req_schedule_info d.db name t.outside).0 ≡ ok infos
      → Permᴰ (map api_key infos) (map call_key (calls_of name t))
  get_req_schedule_info-in_flight name {s} {t} {infos} empty r e =
      let (rows, found, same) = read_rows name t.outside infos _ refl e in
      let matched = Reach-IsMatched d exclusive deletes empty r in
      let keys : map api_key infos ≡ map info_key (map to_req_schedule_info rows) =
        ap (map api_key) same ∙ api_keys (map to_req_schedule_info rows) in
      subst (λ l. Permᴰ l (map call_key (calls_of name t))) (sym keys)
        (Permᴰ.trans (keys_found name t.outside rows found) (
          subst (Permᴰ (select (λ k. k.1 == name) (map info_key (requests t.outside))))
            (sym (
              map-select call_key (λ (e : Request × String). e.0.function_name == name)
                (λ k. k.1 == name) (λ e. refl) t.running))
            (select-perm (λ (k : ℕ × String × String). k.1 == name) matched)))
