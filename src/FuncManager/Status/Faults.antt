-- ===== src/FuncManager/Status/Faults.antt =====
-- pkg/funcmanager/funcmanager.go: the replies of AWS on which a refresh panics.
use pixels_spike.Base.{
  ℕ, ◌≡◌, refl, ap, ◌∙◌, sym, ◌⊎◌, inl, inr, List, [], ◌∷◌, Option, none, some, String, Memᴰ,
  Option-cases, get_elem?, Bool-cases, ltb, if◌then◌else◌,
}
use pixels_spike.AwsClient.{Task}
use pixels_spike.Base.Exits.{Exit, returns, fails, panics}
use pixels_spike.FuncManager.Status.{newer, newer_at, next_best, newest}

-- A pointer of the task that is read is nil: of its details, the value of an interface or of a
-- private address.
pub data IsIncomplete (t : Task) : Type 0 where
  no_created_at : t.created_at ≡ none → IsIncomplete t
  no_cpu : t.cpu ≡ none → IsIncomplete t
  no_memory : t.memory ≡ none → IsIncomplete t
  no_value :
      (details : List (Option String × Option String))
      (rest : List (List (Option String × Option String))) (name : String)
      → t.attachments ≡ details ∷ rest
      → (name ≡ "networkInterfaceId") ⊎ (name ≡ "privateIPv4Address")
      → Memᴰ (some name, none) details
      → IsIncomplete t
  no_task_arn : t.task_arn ≡ none → IsIncomplete t
  no_last_status : t.last_status ≡ none → IsIncomplete t
  no_desired_status : t.desired_status ≡ none → IsIncomplete t

-- At one of the positions the reply has no task, or an incomplete one.
abbrev pub IsFault : Option Task → Type 0
IsFault none = Unit {0}
IsFault (some t) = IsIncomplete t

abbrev pub IsFaulty : List Task → List ℕ → Type 0
IsFaulty tasks positions = (i : ℕ) × Memᴰ i positions × IsFault (get_elem? tasks i)

module _ (tasks : List Task) where
  -- The same, or the task that the others are compared to has no time.
  abbrev IsFaultyFrom : List ℕ → Option Task → Type 0
  IsFaultyFrom positions best =
      ((b : Task) × (best ≡ some b) × (b.created_at ≡ none)) ⊎ IsFaulty tasks positions

  newer_at-panics :
      (b u : Task) (x y : Option ℕ) (message : String)
      → newer_at b u x y ≡ panics message
      → (x ≡ none) ⊎ (y ≡ none)
  newer_at-panics b u none y message h = inl refl
  newer_at-panics b u (some m) none message h = inr refl
  newer_at-panics b u (some m) (some n) message h = absurd (cc)

  newer-panics :
      (best : Option Task) (u : Task) (message : String)
      → newer best u ≡ panics message
      → ((b : Task) × (best ≡ some b) × (b.created_at ≡ none)) ⊎ (u.created_at ≡ none)
  newer-panics none u message h = absurd (cc)
  newer-panics (some b) u message h =
      elim (newer_at-panics b u b.created_at u.created_at message h) [
        | inl e ↦ inl (b, refl, e)
        | inr e ↦ inr e
      ]

  newer-compared :
      (best : Option Task) (u c : Task)
      → newer best u ≡ returns c
      → (c.created_at ≡ none)
      → (u.created_at ≡ none) ⊎ ((b : Task) × (best ≡ some b) × (b.created_at ≡ none))
  newer-compared none u c h e = let same : u ≡ c = cc in inl (ap (λ t. t.created_at) same ∙ e)
  newer-compared (some b) u c h e = by_times b.created_at u.created_at refl refl h
    where
      by_times :
          (x y : Option ℕ)
          → b.created_at ≡ x
          → u.created_at ≡ y
          → newer_at b u x y ≡ returns c
          → (u.created_at ≡ none) ⊎ ((d : Task) × (some b ≡ some d) × (d.created_at ≡ none))
      by_times none y p q k = inr (b, refl, p)
      by_times (some m) none p q k = inl q
      by_times (some m) (some n) p q k = elim (Bool-cases (ltb m n)) [
        | inl less ↦ let same : u ≡ c = cc (rw less at k) in inl (ap (λ t. t.created_at) same ∙ e)
        | inr more ↦
            let same : b ≡ c = cc (rw more at k) in inr (b, refl, ap (λ t. t.created_at) same ∙ e)
      ]

  step-IsFaultyFrom :
      (i : ℕ) (is : List ℕ) (best : Option Task) (u : Task) (message : String)
      → get_elem? tasks i ≡ some u
      → (x : Exit Task) → newer best u ≡ x
      → next_best x (λ c. newest tasks is (some c)) ≡ panics message
      → ((c : Task) → newest tasks is (some c) ≡ panics message → IsFaultyFrom is (some c))
      → IsFaultyFrom (i ∷ is) best
  step-IsFaultyFrom i is best u message found x e h later = elim (split x e h) [
    | inl without ↦ inr (i, Memᴰ.head refl, rw found (IsIncomplete.no_created_at without))
    | inr other ↦ other
  ]
    where
      split :
          (x : Exit Task)
          → newer best u ≡ x
          → next_best x (λ c. newest tasks is (some c)) ≡ panics message
          → (u.created_at ≡ none) ⊎ IsFaultyFrom (i ∷ is) best
      split (fails m) e h = absurd (cc)
      split (panics m) e h = elim (newer-panics best u m e) [
        | inl b ↦ inr (inl b)
        | inr without ↦ inl without
      ]
      split (returns c) e h = elim (later c h) [
        | inl (d, same, without) ↦
            let same_task : c ≡ d = cc in
            elim (newer-compared best u c e (ap (λ t. t.created_at) same_task ∙ without)) [
              | inl u_without ↦ inl u_without
              | inr b ↦ inr (inl b)
            ]
        | inr (j, m, fault) ↦ inr (inr (j, Memᴰ.tail m, fault))
      ]

  newest-IsFaultyFrom :
      (positions : List ℕ) (best : Option Task) (message : String)
      → newest tasks positions best ≡ panics message
      → IsFaultyFrom positions best
  unfolding newest
  newest-IsFaultyFrom [] best message h = absurd (cc)
  newest-IsFaultyFrom (i ∷ is) best message h = elim (Option-cases (get_elem? tasks i)) [
    | inl missing ↦ inr (i, Memᴰ.head refl, rw missing tt)
    | inr (u, found) ↦
        step-IsFaultyFrom i is best u message found (newer best u) refl (rw (found, newest) at h)
          (λ c. newest-IsFaultyFrom is (some c) message)
  ]

  pub newest-IsFaulty :
      (positions : List ℕ) (message : String)
      → newest tasks positions none ≡ panics message
      → IsFaulty tasks positions
  newest-IsFaulty positions message h = elim (newest-IsFaultyFrom positions none message h) [
    | inl (b, e, without) ↦ absurd (cc)
    | inr faulty ↦ faulty
  ]

  -- An outcome other than a panic is that of the loop for some task.
  next_best-inner :
      (best : Option Task) (u : Task) (k : Task → Exit (Option Task)) (x : Exit (Option Task))
      → next_best (newer best u) k ≡ x
      → ((message : String) → x ≡ panics message → ⊥)
      → (c : Task) × (k c ≡ x)
  next_best-inner none u k x h other = (u, h)
  next_best-inner (some b) u k x h other = by_times b.created_at u.created_at h
    where
      by_times : (m n : Option ℕ) → next_best (newer_at b u m n) k ≡ x → (c : Task) × (k c ≡ x)
      by_times none n h = absurd (other _ (sym h))
      by_times (some m) none h = absurd (other _ (sym h))
      by_times (some m) (some n) h = (if ltb m n then u else b, h)

  -- The search has no error, and it finds a task if there is a position.
  pub newest-fails :
      (positions : List ℕ) (best : Option Task) (e : String)
      → newest tasks positions best ≡ fails e
      → ⊥
  unfolding newest
  newest-fails [] best e h = cc
  newest-fails (i ∷ is) best e h = elim (Option-cases (get_elem? tasks i)) [
    | inl missing ↦ cc (rw (missing, newest) at h)
    | inr (u, found) ↦
        let (c, k) =
          next_best-inner best u (λ c. newest tasks is (some c)) (fails e) (rw (found, newest) at h)
            (λ m e. cc) in
        newest-fails is (some c) e k
  ]

  newest-some : (positions : List ℕ) (c : Task) → newest tasks positions (some c) ≡ returns none → ⊥
  unfolding newest
  newest-some [] c h = cc
  newest-some (i ∷ is) c h = elim (Option-cases (get_elem? tasks i)) [
    | inl missing ↦ cc (rw (missing, newest) at h)
    | inr (u, found) ↦
        let (d, k) =
          next_best-inner (some c) u (λ c. newest tasks is (some c)) (returns none)
            (rw (found, newest) at h) (λ m e. cc) in
        newest-some is d k
  ]

  pub newest-none :
      (positions : List ℕ) → newest tasks positions none ≡ returns none → positions ≡ []
  unfolding newest
  newest-none [] h = refl
  newest-none (i ∷ is) h = elim (Option-cases (get_elem? tasks i)) [
    | inl missing ↦ absurd (cc (rw (missing, newest) at h))
    | inr (u, found) ↦
        let (d, k) =
          next_best-inner none u (λ c. newest tasks is (some c)) (returns none)
            (rw (found, newest) at h) (λ m e. cc) in
        absurd (newest-some is d k)
  ]
