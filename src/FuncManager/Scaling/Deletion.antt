-- ===== src/FuncManager/Scaling/Deletion.antt =====
-- pkg/funcmanager/funcmanager.go: the loop of `AsyncDeleteFuncInstance`, and when it ends.
use pixels_spike.Base.{
  ℕ, zero, suc, ◌<◌, ◌≡◌, refl, ap, ◌∙◌, List, [], ◌∷◌, Option, none, some, Bool, true, false,
  String, Result, ok, err, arith,
}
use pixels_spike.AwsClient.{Cloud, delete_instance}
use pixels_spike.FuncManager.{FuncManager}
use pixels_spike.FuncManager.Scaling.{async_delete_round, check_requests}
use pixels_spike.Model.{ReqScheduleInfo}
use pixels_spike.Storage.{Gorm, get_req_schedule_info_by_aws_service_name}

-- The query shows that no request is placed on the service.
abbrev pub is_free : Result (List ReqScheduleInfo) → Bool
is_free (ok []) = true
is_free (ok (info ∷ infos)) = false
is_free (err e) = false

module _ {S : Type 0} (db : Gorm S) (cloud : Cloud S) (f : FuncManager) (between : ℕ → S → S)
    (aws_service_name : String) where
  abbrev go_on : Bool × S → (S → Option S) → Option S
  go_on (true, s) more = some s
  go_on (false, s) more = more s

  -- `AsyncDeleteFuncInstance`, for a number of rounds: the state at its end, or `none` while it goes
  -- on. `between i` is what else happens between the round `i` and the next one.
  pub async_delete : ℕ → ℕ → S → Option S
  unfolding async_delete_round
  async_delete zero i s = none
  async_delete (suc rounds) i s =
      go_on (async_delete_round db cloud f aws_service_name s)
        (λ s'. async_delete rounds (suc i) (between i s'))

  abbrev query : S → Result (List ReqScheduleInfo) × S
  query s = get_req_schedule_info_by_aws_service_name db aws_service_name s

  -- The state at the start of a later round, when only queries were made until then.
  unfoldable pub at_round : ℕ → ℕ → S → S
  at_round i zero s = s
  at_round i (suc k) s = at_round (suc i) k (between i (query s).1)

  round-free :
      (x : Result (List ReqScheduleInfo) × S)
      → is_free x.0 ≡ true
      → check_requests db cloud f aws_service_name x
        ≡ (true, (delete_instance cloud f.aws_client aws_service_name x.1).1)
  unfolding check_requests
  round-free (ok [], s) h = refl
  round-free (ok (info ∷ infos), s) h = absurd (cc)
  round-free (err e, s) h = absurd (cc)

  round-busy :
      (x : Result (List ReqScheduleInfo) × S)
      → is_free x.0 ≡ false
      → check_requests db cloud f aws_service_name x ≡ (false, x.1)
  unfolding check_requests
  round-busy (ok [], s) h = absurd (cc)
  round-busy (ok (info ∷ infos), s) h = refl
  round-busy (err e, s) h = refl

  ends :
      (k rounds i : ℕ) (s : S)
      → ((j : ℕ) → j < k → is_free (query (at_round i j s)).0 ≡ false)
      → k < rounds
      → is_free (query (at_round i k s)).0 ≡ true
      → async_delete rounds i s
        ≡ some (delete_instance cloud f.aws_client aws_service_name (query (at_round i k s)).1).1
  unfolding at_round async_delete_round async_delete
  ends k zero i s busy h free = absurd (omega arith)
  ends zero (suc rounds) i s busy h free =
      ap (λ x. go_on x (λ s'. async_delete rounds (suc i) (between i s')))
        (round-free (query s) free)
  ends (suc k) (suc rounds) i s busy h free =
      ap (λ x. go_on x (λ s'. async_delete rounds (suc i) (between i s')))
        (round-busy (query s) (busy 0 (omega arith)))
      ∙ (ends k rounds (suc i) (between i (query s).1) (λ j below. busy (suc j) (omega arith))
          (omega arith) free)

  waits :
      (k i : ℕ) (s : S)
      → ((j : ℕ) → j < k → is_free (query (at_round i j s)).0 ≡ false)
      → async_delete k i s ≡ none
  unfolding at_round async_delete_round async_delete
  waits zero i s busy = refl
  waits (suc k) i s busy =
      ap (λ x. go_on x (λ s'. async_delete k (suc i) (between i s')))
        (round-busy (query s) (busy 0 (omega arith)))
      ∙ (waits k (suc i) (between i (query s).1) (λ j below. busy (suc j) (omega arith)))

  -- The loop ends in the first round whose query shows that no request is placed on the service, be
  -- the earlier queries errors or not, and in no earlier round; only then, and once, does it ask for
  -- the deletion of the service. More rounds than needed change nothing.
  pub async_delete-first_free :
      (k rounds : ℕ) (s : S)
      → ((j : ℕ) → j < k → is_free (query (at_round 0 j s)).0 ≡ false)
      → is_free (query (at_round 0 k s)).0 ≡ true
      → k < rounds
      → (async_delete rounds 0 s
          ≡ some (delete_instance cloud f.aws_client aws_service_name (query (at_round 0 k s)).1).1)
        × (async_delete k 0 s ≡ none)
  async_delete-first_free k rounds s busy free h = (ends k rounds 0 s busy h free, waits k 0 s busy)
