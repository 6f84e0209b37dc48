-- ===== src/FuncManager/Status/Newest.antt =====
-- pkg/funcmanager/funcmanager.go: which of the tasks of an instance its status is read from.
use pixels_spike.Base.{
  ℕ, ◌≤◌, ◌≡◌, refl, sym, ap, ◌∙◌, ◌⊎◌, inl, inr, List, [], ◌∷◌, Option, none, some, Memᴰ, arith,
  ltb, Bool-cases, Option-cases, get_elem?,
}
use pixels_spike.AwsClient.{Task}
use pixels_spike.FuncManager.Status.{newer, newer_at, next_best, newest}
use pixels_spike.Base.Exits.{Exit, returns, fails, panics}

-- When a task was created; without a time, nothing was compared to it.
abbrev pub time_of : Task → ℕ
time_of t = elim t.created_at [ none ↦ 0 | some n ↦ n ]

-- The newer one of two tasks, with what it is compared to.
record IsLater (best : Option Task) (u c : Task) : Type 0 where
  after_task : time_of u ≤ time_of c
  after_best : (b : Task) → best ≡ some b → time_of b ≤ time_of c
  one_of_both : (u ≡ c) ⊎ (best ≡ some c)

abbrev created_of : Option Task → ℕ
created_of none = 0
created_of (some t) = time_of t

newer_at-IsLater :
    (b u c : Task) (x y : Option ℕ)
    → b.created_at ≡ x
    → u.created_at ≡ y
    → newer_at b u x y ≡ returns c
    → IsLater (some b) u c
newer_at-IsLater b u c none y eb eu h = absurd (cc)
newer_at-IsLater b u c (some m) none eb eu h = absurd (cc)
newer_at-IsLater b u c (some m) (some n) eb eu h =
    let at_b : time_of b ≡ m = rw eb refl in
    let at_u : time_of u ≡ n = rw eu refl in
    elim (Bool-cases (ltb m n)) [
      | inl later ↦
          let same : u ≡ c = returns_injective u c (rw later at h) in
          let at_c : time_of u ≡ time_of c = ap time_of same in
          record {
            after_task = omega arith;
            after_best =
                λ d k. let same_time : time_of b ≡ time_of d = ap created_of k in ground arith;
            one_of_both = inl same;
          }
      | inr not_later ↦
          let same : b ≡ c = returns_injective b c (rw not_later at h) in
          let at_c : time_of b ≡ time_of c = ap time_of same in
          record {
            after_task = ground arith;
            after_best =
                λ d k. let same_time : time_of b ≡ time_of d = ap created_of k in omega arith;
            one_of_both = inr (ap some same);
          }
    ]
  where
    returns_injective : (v w : Task) → returns v ≡ returns w → v ≡ w
    returns_injective v w e = cc

newer-IsLater : (best : Option Task) (u c : Task) → newer best u ≡ returns c → IsLater best u c
newer-IsLater none u c h =
    let same : u ≡ c = cc in
    let at_c : time_of u ≡ time_of c = ap time_of same in
    record { after_task = omega arith; after_best = λ b k. absurd (cc); one_of_both = inl same }
newer-IsLater (some b) u c h = newer_at-IsLater b u c b.created_at u.created_at refl refl h

module _ (tasks : List Task) where
  -- The task stands at one of the positions, and none at the others is newer.
  pub record IsNewest (positions : List ℕ) (t : Task) : Type 0 where
    pub position : ℕ
    pub listed : Memᴰ position positions
    pub found : get_elem? tasks position ≡ some t
    pub newest_of_all :
        (i : ℕ) (u : Task) → Memᴰ i positions → get_elem? tasks i ≡ some u → time_of u ≤ time_of t

  -- The same from a task `best` that is compared to the others.
  record IsNewestFrom (positions : List ℕ) (best : Option Task) (t : Task) : Type 0 where
    after_best : (b : Task) → best ≡ some b → time_of b ≤ time_of t
    after_all :
        (i : ℕ) (u : Task) → Memᴰ i positions → get_elem? tasks i ≡ some u → time_of u ≤ time_of t
    origin : (best ≡ some t) ⊎ ((i : ℕ) × Memᴰ i positions × (get_elem? tasks i ≡ some t))

  one_more :
      (i : ℕ) (is : List ℕ) (t u c : Task)
      → get_elem? tasks i ≡ some u
      → time_of u ≤ time_of c
      → time_of c ≤ time_of t
      → ((j : ℕ) (v : Task) → Memᴰ j is → get_elem? tasks j ≡ some v → time_of v ≤ time_of t)
      → (j : ℕ) (v : Task) → Memᴰ j (i ∷ is)
      → get_elem? tasks j ≡ some v
      → time_of v ≤ time_of t
  one_more i is t u c found le kept rest j v (Memᴰ.head e) k =
      let same_time : time_of u ≡ time_of v =
        ap created_of (sym found ∙ ap (get_elem? tasks) (sym e) ∙ k) in
      omega arith
  one_more i is t u c found le kept rest j v (Memᴰ.tail m) k = rest j v m k

  from_rest :
      (i : ℕ) (is : List ℕ) (best : Option Task) (t u c : Task)
      → get_elem? tasks i ≡ some u
      → (u ≡ c) ⊎ (best ≡ some c)
      → (some c ≡ some t) ⊎ ((j : ℕ) × Memᴰ j is × (get_elem? tasks j ≡ some t))
      → (best ≡ some t) ⊎ ((j : ℕ) × Memᴰ j (i ∷ is) × (get_elem? tasks j ≡ some t))
  from_rest i is best t u c found one (inr (j, m, f)) = inr (j, Memᴰ.tail m, f)
  from_rest i is best t u c found (inl same) (inl e) =
      inr (i, Memᴰ.head refl, found ∙ ap some same ∙ e)
  from_rest i is best t u c found (inr same) (inl e) = inl (same ∙ e)

  step-IsNewestFrom :
      (i : ℕ) (is : List ℕ) (best : Option Task) (t u : Task)
      → get_elem? tasks i ≡ some u
      → (x : Exit Task) → newer best u ≡ x
      → next_best x (λ c. newest tasks is (some c)) ≡ returns (some t)
      → ((c : Task) → newest tasks is (some c) ≡ returns (some t) → IsNewestFrom is (some c) t)
      → IsNewestFrom (i ∷ is) best t
  step-IsNewestFrom i is best t u found (returns c) e h later =
      let p = newer-IsLater best u c e in
      let r = later c h in
      let kept = r.after_best c refl in
      record {
        after_best = λ b k. let older = p.after_best b k in omega arith;
        after_all = one_more i is t u c found p.after_task kept r.after_all;
        origin = from_rest i is best t u c found p.one_of_both r.origin;
      }
  step-IsNewestFrom i is best t u found (fails m) e h later = absurd (cc)
  step-IsNewestFrom i is best t u found (panics m) e h later = absurd (cc)

  newest-IsNewestFrom :
      (positions : List ℕ) (best : Option Task) (t : Task)
      → newest tasks positions best ≡ returns (some t)
      → IsNewestFrom positions best t
  unfolding newest
  newest-IsNewestFrom [] best t h =
      let same : best ≡ some t = cc in
      record {
        after_best = λ b k.
            let same_time : time_of b ≡ time_of t = ap created_of (sym k ∙ same) in omega arith;
        after_all = λ i u m k. elim m [ ];
        origin = inl same;
      }
  newest-IsNewestFrom (i ∷ is) best t h = elim (Option-cases (get_elem? tasks i)) [
    | inl missing ↦ absurd (cc (rw (missing, newest) at h))
    | inr (u, found) ↦
        step-IsNewestFrom i is best t u found (newer best u) refl (rw (found, newest) at h)
          (λ c. newest-IsNewestFrom is (some c) t)
  ]

  -- The task that the status of an instance is read from is the one at some of the positions of
  -- its tasks, and no task at them is newer.
  pub newest-IsNewest :
      (positions : List ℕ) (t : Task)
      → newest tasks positions none ≡ returns (some t)
      → IsNewest positions t
  newest-IsNewest positions t h =
      let r = newest-IsNewestFrom positions none t h in
      elim r.origin [
        | inl e ↦ absurd (cc)
        | inr (i, m, f) ↦ record {
          position = i;
          listed = m;
          found = f;
          newest_of_all = r.after_all;
        }
      ]
