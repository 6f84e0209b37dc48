-- ===== src/FuncManager/Status/Gathered.antt =====
-- pkg/funcmanager/funcmanager.go: the first step of a refresh, which lists the tasks of the instances
-- that are due and keeps the positions of the tasks of each of them.
use pixels_spike.Base.{
  ℕ, zero, suc, ◌+◌, ◌≡◌, refl, ap, subst, ◌∙◌, List, [], ◌∷◌, ◌++◌, some, String, Result, ok, err,
  All, Memᴰ, arith, map, ◌⊎◌, length, get_elem?, Bool-cases, inl, inr, ltb, false, ◌≤◌, ◌*◌, ◌^◌,
}
use pixels_spike.Base.Keys.{◌==◌, string_keys}
use pixels_spike.AwsClient.{Cloud, get_all_tasks}
use pixels_spike.FuncManager.{FuncManager}
use pixels_spike.FuncManager.Status.{
  Update, positions, join_update, mark_not_created, is_due, gather_due, keep_update, gather,
}
use pixels_spike.Model.{FuncInstance}
use pixels_spike.Storage.{Gorm}

-- The entries of `part` stand in `all` from the position `n` on.
abbrev pub Holds : List String → ℕ → List String → Type 0
Holds all n part =
    (k : ℕ) (arn : String) → get_elem? part k ≡ some arn → get_elem? all (n + k) ≡ some arn

-- The list starts with these entries.
abbrev pub Starts : List String → List String → Type 0
Starts all part = (k : ℕ) (arn : String) → get_elem? part k ≡ some arn → get_elem? all k ≡ some arn

Starts-left : (all xs ys : List String) → Starts all (xs ++ ys) → Starts all xs
Starts-left all xs ys h k arn e = h k arn (left xs k e)
  where
    left : (l : List String) (j : ℕ) → get_elem? l j ≡ some arn → get_elem? (l ++ ys) j ≡ some arn
    left [] j e = absurd (cc)
    left (x ∷ l) zero e = e
    left (x ∷ l) (suc j) e = left l j e

Starts-right : (all xs ys : List String) → Starts all (xs ++ ys) → Holds all (length xs) ys
Starts-right all xs ys h k arn e = h (length xs + k) arn (right xs ∙ e)
  where
    right : (l : List String) → get_elem? (l ++ ys) (length l + k) ≡ get_elem? ys k
    right [] = let at : 0 + k ≡ k = omega arith in ap (get_elem? ys) at
    right (x ∷ l) =
        let at : suc (length l) + k ≡ suc (length l + k) = omega arith in
        ap (get_elem? (x ∷ l ++ ys)) at ∙ right l

module _ {S : Type 0} (cloud : Cloud S) (f : FuncManager) (now : S → ℕ × S) where
  -- The instance is up to date, with a status of less than ten seconds ago; or AWS failed to list its
  -- tasks; or it is among the updates.
  pub data IsCovered (us : List Update) (instance : FuncInstance) : Type 0 where
    up_to_date :
        (t : S)
        → instance.last_status ≡ instance.desired_status
        → (now t).0 ≤ instance.model.updated_at + 10 * 10 ^ 9
        → IsCovered us instance
    not_listed :
        (t : S) (e : String)
        → (cloud.list_tasks f.aws_client.cluster instance.aws_service_name t).0 ≡ err e
        → IsCovered us instance
    joined :
        (u : Update)
        → Memᴰ u us
        → (u.0 ≡ instance) ⊎ (u.0 ≡ mark_not_created instance)
        → IsCovered us instance

  IsCovered-more :
      (u : Update) (us : List Update) (instances : List FuncInstance)
      → All (IsCovered us) instances
      → All (IsCovered (u ∷ us)) instances
  IsCovered-more u us [] h = tt
  IsCovered-more u us (instance ∷ rest) (h, hs) = (more h, IsCovered-more u us rest hs)
    where
      more : IsCovered us instance → IsCovered (u ∷ us) instance
      more (IsCovered.up_to_date t e le) = IsCovered.up_to_date t e le
      more (IsCovered.not_listed t e failed) = IsCovered.not_listed t e failed
      more (IsCovered.joined w m same) = IsCovered.joined w (Memᴰ.tail m) same

module _ {S : Type 0} (cloud : Cloud S) (f : FuncManager) where
  -- The instance is one of these, perhaps marked as not created, and the positions are those in the
  -- list of all tasks where the tasks stand that AWS listed for its service.
  pub record IsOwned (instances : List FuncInstance) (all : List String) (u : Update) : Type 0 where
    pub instance : FuncInstance
    pub listed : Memᴰ instance instances
    pub same_instance : (u.0 ≡ instance) ⊎ (u.0 ≡ mark_not_created instance)
    pub own_tasks : List String
    pub asked_in : S
    pub own_listed :
        (cloud.list_tasks f.aws_client.cluster instance.aws_service_name asked_in).0 ≡ ok own_tasks
    pub at_own : map (get_elem? all) u.1 ≡ map some own_tasks

  positions-own :
      (all : List String) (n : ℕ) (tasks : List String)
      → Holds all n tasks
      → map (get_elem? all) (positions n tasks) ≡ map some tasks
  positions-own all n [] h = refl
  positions-own all n (task ∷ tasks) h =
      let first : get_elem? all n ≡ some task =
        subst (λ i. get_elem? all i ≡ some task) (omega arith) (h 0 task refl) in
      let rest =
        positions-own all (suc n) tasks
          (λ k arn e. subst (λ i. get_elem? all i ≡ some arn) (omega arith) (h (suc k) arn e)) in
      rw (first, rest) refl

  join_update-IsOwned :
      (instance : FuncInstance) (rest : List FuncInstance) (tasks task_list all : List String)
      (t : S)
      → Starts all (task_list ++ tasks)
      → (cloud.list_tasks f.aws_client.cluster instance.aws_service_name t).0 ≡ ok tasks
      → IsOwned (instance ∷ rest) all (join_update instance tasks task_list)
  join_update-IsOwned instance rest [] task_list all t h own = record {
    instance = instance;
    listed = Memᴰ.head refl;
    same_instance = inr refl;
    own_tasks = [];
    asked_in = t;
    own_listed = own;
    at_own = refl;
  }
  join_update-IsOwned instance rest (task ∷ tasks) task_list all t h own = record {
    instance = instance;
    listed = Memᴰ.head refl;
    same_instance = inl refl;
    own_tasks = task ∷ tasks;
    asked_in = t;
    own_listed = own;
    at_own =
        positions-own all (length task_list) (task ∷ tasks)
          (Starts-right all task_list (task ∷ tasks) h);
  }

  IsOwned-later :
      (instance : FuncInstance) (rest : List FuncInstance) (all : List String) (us : List Update)
      → All (IsOwned rest all) us
      → All (IsOwned (instance ∷ rest) all) us
  IsOwned-later instance rest all [] h = tt
  IsOwned-later instance rest all (u ∷ us) (h, hs) = (
    record {
      instance = h.instance;
      listed = Memᴰ.tail h.listed;
      same_instance = h.same_instance;
      own_tasks = h.own_tasks;
      asked_in = h.asked_in;
      own_listed = h.own_listed;
      at_own = h.at_own;
    },
    IsOwned-later instance rest all us hs,
  )

  module _ {V : Type 0} (db : Gorm S) (now : S → ℕ × S) (view : S → V)
      (lists_keep : (c n : String) (s : S) → view (cloud.list_tasks c n s).1 ≡ view s)
      (now_keeps : (s : S) → view (now s).1 ≡ view s) where
    not_due-IsCovered :
        (instance : FuncInstance) (s : S) (us : List Update)
        → (is_due db cloud f now instance s).0 ≡ false
        → IsCovered cloud f now us instance
    not_due-IsCovered instance s us h =
        elim (Bool-cases (instance.last_status == instance.desired_status)) [
          | inl e ↦
              let current : ltb (instance.model.updated_at + 10 * 10 ^ 9) (now s).0 ≡ false =
                rw (e, is_due) at h in
              IsCovered.up_to_date s
                ((string_keys.same_iff instance.last_status instance.desired_status).0 e)
                (ground arith)
          | inr e ↦ absurd (cc (rw (e, is_due) at h))
        ]

    join_update-same :
        (instance : FuncInstance) (tasks task_list : List String)
        → ((join_update instance tasks task_list).0 ≡ instance)
          ⊎ ((join_update instance tasks task_list).0 ≡ mark_not_created instance)
    join_update-same instance [] task_list = inr refl
    join_update-same instance (task ∷ tasks) task_list = inl refl

    is_due-keeps :
        (instance : FuncInstance) (s : S) → view (is_due db cloud f now instance s).1 ≡ view s
    is_due-keeps instance s = elim (Bool-cases (instance.last_status == instance.desired_status)) [
      | inl e ↦ rw (e, is_due) (now_keeps s)
      | inr e ↦ rw (e, is_due) refl
    ]

    -- The updates are of given instances and of their own tasks, which the list has after those that
    -- were there before.
    pub record IsGathered (instances : List FuncInstance) (task_list : List String) (s : S)
        (r : (List Update × List String) × S) : Type 0 where
      pub prefix : Starts r.0.1 task_list
      pub owned : All (IsOwned instances r.0.1) r.0.0
      pub covered : All (IsCovered cloud f now r.0.0) instances
      pub kept : view r.1 ≡ view s

    abbrev gather_rest :
        FuncInstance
        → List FuncInstance
        → Result (List String)
        → List String
        → S
        → (List Update × List String) × S
    gather_rest instance rest r task_list s =
        let (update, task_list') = gather_due db cloud f now instance r task_list in
        let ((updates, all), t) = gather db cloud f now rest task_list' s in
        ((keep_update db cloud f now update updates, all), t)

    gather_rest-IsGathered :
        (instance : FuncInstance) (rest : List FuncInstance) (r : Result (List String))
        (task_list : List String) (s t u : S)
        → view t ≡ view s
        → (cloud.list_tasks f.aws_client.cluster instance.aws_service_name u).0 ≡ r
        → ((l : List String) → IsGathered rest l t (gather db cloud f now rest l t))
        → IsGathered (instance ∷ rest) task_list s (gather_rest instance rest r task_list t)
    gather_rest-IsGathered instance rest (err e) task_list s t u same own later =
        let h = later task_list in
        record {
          prefix = h.prefix;
          owned = IsOwned-later instance rest _ _ h.owned;
          covered = (IsCovered.not_listed u e own, h.covered);
          kept = h.kept ∙ same;
        }
    gather_rest-IsGathered instance rest (ok tasks) task_list s t u same own later =
        let h = later (task_list ++ tasks) in
        record {
          prefix = Starts-left _ task_list tasks h.prefix;
          owned = (
            join_update-IsOwned instance rest tasks task_list _ u h.prefix own,
            IsOwned-later instance rest _ _ h.owned,
          );
          covered = (
            IsCovered.joined _ (Memᴰ.head refl) (join_update-same instance tasks task_list),
            IsCovered-more cloud f now _ _ rest h.covered,
          );
          kept = h.kept ∙ same;
        }

    pub gather-IsGathered :
        (instances : List FuncInstance) (task_list : List String) (s : S)
        → IsGathered instances task_list s (gather db cloud f now instances task_list s)
    unfolding gather get_all_tasks
    gather-IsGathered [] task_list s = record {
      prefix = λ k arn e. e;
      owned = tt;
      covered = tt;
      kept = refl;
    }
    gather-IsGathered (instance ∷ rest) task_list s =
        let t = (is_due db cloud f now instance s).1 in
        let due_kept = is_due-keeps instance s in
        elim (Bool-cases (is_due db cloud f now instance s).0) [
          | inr not_due ↦
              let h = gather-IsGathered rest task_list t in
              rw (not_due, gather)
                (record {
                  prefix = h.prefix;
                  owned = IsOwned-later instance rest _ _ h.owned;
                  covered = (not_due-IsCovered instance s _ not_due, h.covered);
                  kept = h.kept ∙ due_kept;
                })
          | inl due ↦
              let x = cloud.list_tasks f.aws_client.cluster instance.aws_service_name t in
              rw (due, gather, get_all_tasks)
                (gather_rest-IsGathered instance rest x.0 task_list s x.1 t
                  (lists_keep f.aws_client.cluster instance.aws_service_name t ∙ due_kept) refl
                  (λ l. gather-IsGathered rest l x.1))
        ]
