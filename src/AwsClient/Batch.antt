-- ===== src/AwsClient/Batch.antt =====
-- pkg/funcmanager/awsclient.go: what a batch of creations leaves in the cluster.
use pixels_spike.Base.{
  ℕ, zero, suc, ◌+◌, ◌<◌, ◌≤◌, ◌≡◌, refl, sym, ap, ◌∙◌, List, [], ◌∷◌, none, some, Bool, true,
  false, String, All, arith, length, replicate,
}
use pixels_spike.Base.Exits.{Exit, returns, fails, panics, Step, proceed}
use pixels_spike.Base.Int.{ℤ, pos}
use pixels_spike.AwsClient.{
  AwsClient, Cloud, Slot, starting, named, finished, delete_failed, has_error, service_names,
  batch_create_instance, report, delete_instance,
}
use pixels_spike.AwsClient.Goroutines.{
  occurrences, ServiceStore, made_all, IsClean, remaining, IsMoved, Moves, run_turns-Moves,
}
use pixels_spike.AwsClient.Goroutines.Ending.{Ends, finish_all-Ends, after_move}
use pixels_spike.Constants.{InstanceType}

-- The services that the goroutines have created.
abbrev made_names : List Slot → List String
made_names [] = []
made_names (finished name none ∷ slots) = name ∷ made_names slots
made_names (slot ∷ slots) = made_names slots

occurrences-made_names :
    (x : String) (slots : List Slot) → occurrences x (made_names slots) ≡ made_all x slots
occurrences-made_names x [] = refl
occurrences-made_names x (finished name none ∷ slots) =
    omega (arith, occurrences-made_names x slots)
occurrences-made_names x (finished name (some e) ∷ slots) =
    omega (arith, occurrences-made_names x slots)
occurrences-made_names x (named name ∷ slots) = omega (arith, occurrences-made_names x slots)
occurrences-made_names x (starting ∷ slots) = omega (arith, occurrences-made_names x slots)

length-made_names : (slots : List Slot) → length (made_names slots) ≤ length slots
length-made_names [] = omega arith
length-made_names (finished name none ∷ slots) = omega (arith, length-made_names slots)
length-made_names (finished name (some e) ∷ slots) = omega (arith, length-made_names slots)
length-made_names (named name ∷ slots) = omega (arith, length-made_names slots)
length-made_names (starting ∷ slots) = omega (arith, length-made_names slots)

module _ {S : Type 0} (cloud : Cloud S) (a : AwsClient) {running : String → S → ℕ}
    (store : ServiceStore cloud a running) (family : String) (revision : ℤ)
    (instance_type : InstanceType) where
  abbrev failed : List Slot → Bool
  failed slots = has_error cloud a family revision instance_type slots

  abbrev names_of : List Slot → List String
  names_of slots = service_names cloud a family revision instance_type slots

  fewer_of_error :
      (slots : List Slot) → failed slots ≡ true → length (made_names slots) < length slots
  fewer_of_error [] h = absurd (cc)
  fewer_of_error (finished name none ∷ slots) h = omega (arith, fewer_of_error slots h)
  fewer_of_error (finished name (some e) ∷ slots) h = omega (arith, length-made_names slots)
  fewer_of_error (named name ∷ slots) h = omega (arith, fewer_of_error slots h)
  fewer_of_error (starting ∷ slots) h = omega (arith, fewer_of_error slots h)

  service_names-made_names :
      (slots : List Slot)
      → All (λ slot. remaining slot ≡ 0) slots
      → failed slots ≡ false
      → (names_of slots ≡ made_names slots) × (length (made_names slots) ≡ length slots)
  service_names-made_names [] ended h = (refl, refl)
  service_names-made_names (finished name none ∷ slots) ended h =
      let (same, long) = service_names-made_names slots ended.1 h in
      (ap (◌∷◌ name) same, ap suc long)
  service_names-made_names (finished name (some e) ∷ slots) ended h = absurd (cc)
  service_names-made_names (named name ∷ slots) ended h = absurd (omega arith)
  service_names-made_names (starting ∷ slots) ended h = absurd (omega arith)

  -- What a call that is to create `n` services has created when it ends, against the state before.
  abbrev pub Leaves : ℕ → S → Exit (List String) × S → Type 0
  Leaves n s (returns names, s') =
      (length names ≡ n) × ((x : String) → running x s' ≡ running x s + occurrences x names)
  Leaves n s (fails e, s') =
      (names : List String) × (length names < n)
      × ((x : String) → running x s' ≡ running x s + occurrences x names)
  Leaves n s (panics message, s') =
      (names : List String) × (length names ≤ n)
      × ((x : String) → running x s' ≡ running x s + occurrences x names)

  delete_failed-keeps :
      (slots : List Slot) (s : S)
      → All IsClean slots
      → let r = delete_failed cloud a family revision instance_type slots s in
        (r.0 ≡ returns tt) × ((x : String) → running x r.1 ≡ running x s)
  unfolding delete_failed delete_instance
  delete_failed-keeps [] s c = (refl, λ x. refl)
  delete_failed-keeps (finished name none ∷ slots) s c = delete_failed-keeps slots s c.1
  delete_failed-keeps (finished name (some e) ∷ slots) s c =
      let s' = (cloud.delete_service a.cluster name s).1 in
      let (done, kept) = delete_failed-keeps slots s' c.1 in
      (
        done,
        λ x.
            kept x
            ∙ ap (λ n. running x (cloud.delete_service a.cluster n s).1) c.0
            ∙ store.delete_unnamed s x,
      )
  delete_failed-keeps (named name ∷ slots) s c = delete_failed-keeps slots s c.1
  delete_failed-keeps (starting ∷ slots) s c = delete_failed-keeps slots s c.1

  IsMoved→counted :
      (n : ℕ) (s : S) (slots' : List Slot) (s' : S)
      → IsMoved cloud a store family revision instance_type (replicate n starting) s slots' s'
      → (length slots' ≡ n)
        × ((x : String) → running x s' ≡ running x s + occurrences x (made_names slots'))
  IsMoved→counted n s slots' s' p = (
    p.same_length ∙ length-replicate n,
    λ x. omega (arith, p.counted x, made_all-replicate x n, occurrences-made_names x slots'),
  )
    where
      length-replicate : (k : ℕ) → length (replicate k starting) ≡ k
      length-replicate zero = refl
      length-replicate (suc k) = ap suc (length-replicate k)

      made_all-replicate : (x : String) (k : ℕ) → made_all x (replicate k starting) ≡ 0
      made_all-replicate x zero = refl
      made_all-replicate x (suc k) = omega (arith, made_all-replicate x k)

  abbrev starts : ℕ → List Slot
  starts n = replicate n starting

  abbrev Moved : ℕ → S → List Slot → S → Type 0
  Moved n s slots t = IsMoved cloud a store family revision instance_type (starts n) s slots t

  failure-Leaves :
      (n : ℕ) (s : S) (slots : List Slot) (t : S) (message : String) (r : Exit (Unit {0}) × S)
      → Moved n s slots t
      → failed slots ≡ true
      → r.0 ≡ returns tt
      → ((x : String) → running x r.1 ≡ running x t)
      → Leaves n s (proceed r.0 (λ u v. (fails message, v)) r.1)
  failure-Leaves n s slots t message (returns u, v) p some_failed done kept =
      let (long, counted) = IsMoved→counted n s slots t p in
      (made_names slots, omega (arith, fewer_of_error slots some_failed), λ x. kept x ∙ counted x)
  failure-Leaves n s slots t message (fails e, v) p some_failed done kept = absurd (cc)
  failure-Leaves n s slots t message (panics e, v) p some_failed done kept = absurd (cc)

  report-Leaves :
      (n : ℕ) (s : S) (slots : List Slot) (t : S) (b : Bool)
      → Moved n s slots t
      → All (λ slot. remaining slot ≡ 0) slots
      → failed slots ≡ b
      → Leaves n s (report cloud a family revision instance_type b slots t)
  unfolding report
  report-Leaves n s slots t true p ended h =
      let (done, kept) = delete_failed-keeps slots t p.clean in
      failure-Leaves n s slots t _ _ p h done kept
  report-Leaves n s slots t false p ended h =
      let (long, counted) = IsMoved→counted n s slots t p in
      let (same, all_named) = service_names-made_names slots ended h in
      (
        ap length same ∙ all_named ∙ long,
        λ x. counted x ∙ ap (λ l. running x s + occurrences x l) (sym same),
      )

  Moves-Leaves :
      (n : ℕ) (s : S) (r : Exit (List Slot) × S) (k : List Slot → Step S (List String))
      → Moves cloud a store family revision instance_type (starts n) s r
      → ((m : List Slot) (t : S) → Moved n s m t → Leaves n s (k m t))
      → Leaves n s (proceed r.0 k r.1)
  Moves-Leaves n s (returns m, t) k p q = q m t p
  Moves-Leaves n s (fails e, t) k p q = absurd p
  Moves-Leaves n s (panics message, t) k (m, p) q =
      let (long, counted) = IsMoved→counted n s m t p in
      (made_names m, omega (arith, length-made_names m), counted)

  Ends-Leaves :
      (n : ℕ) (s : S) (r : Exit (List Slot) × S) (k : List Slot → Step S (List String))
      → Ends cloud a store family revision instance_type (starts n) s r
      → ((m : List Slot) (t : S)
          → Moved n s m t
          → All (λ slot. remaining slot ≡ 0) m
          → Leaves n s (k m t))
      → Leaves n s (proceed r.0 k r.1)
  Ends-Leaves n s (returns m, t) k p q = q m t p.0 p.1
  Ends-Leaves n s (fails e, t) k p q = absurd p
  Ends-Leaves n s (panics message, t) k (m, p) q =
      let (long, counted) = IsMoved→counted n s m t p in
      (made_names m, omega (arith, length-made_names m), counted)

  starts-IsClean : (n : ℕ) → All IsClean (starts n)
  starts-IsClean zero = tt
  starts-IsClean (suc n) = (tt, starts-IsClean n)

  -- A batch that is to create `n` services, in whatever order its goroutines take turns, either
  -- returns `n` names and has created exactly the services of these names; or fails after fewer
  -- creations, all of which it leaves in place although it returns no name; or a panic ends the
  -- process after at most `n` creations.
  pub batch_create_instance-Leaves :
      (turns : List ℕ) (n : ℕ) (s : S)
      → Leaves n s (batch_create_instance cloud a family revision instance_type turns (pos n) s)
  unfolding batch_create_instance
  batch_create_instance-Leaves turns n s =
      Moves-Leaves n s _ _
        (run_turns-Moves cloud a store family revision instance_type turns (starts n) s
          (starts-IsClean n))
        λ m t p.
          Ends-Leaves n s _ _
            (after_move cloud a store family revision instance_type _ p
              (finish_all-Ends cloud a store family revision instance_type m t p.clean))
            λ l u q ended. report-Leaves n s l u (failed l) q ended refl
