-- ===== src/ReqScheduler/System/Drain.antt =====
-- pkg/reqscheduler/reqscheduler.go with the base scheduler: whatever waits can be served.
use mathlib.Core.List.{Permᴰ}
use pixels_spike.Base.{◌≡◌, refl, sym, ap, subst, ◌∙◌, List, [], ◌∷◌, map, All, some, String}
use pixels_spike.Model.{FuncInstance}
use pixels_spike.ReqQueue.{Request, ReqQueue, peek, pop}
use pixels_spike.Scheduler.{ReqScheduleInfo, StatMap, base_schedule}
use pixels_spike.ReqScheduler.{call_instance_function_routine}
use pixels_spike.ReqScheduler.System.{
  Deployment, System, Step, Reach, IsExclusive, start_of, after_schedule, after_answer,
}
use pixels_spike.ReqScheduler.System.Conservation.{Reach-IsKept}
use pixels_spike.ReqScheduler.System.Placements.{info_key, call_key, Reach-IsMatched}
use pixels_spike.ReqScheduler.System.Respond.{IsResponsive, HasHost, perm-nil, schedule-serves}
use pixels_spike.ReqScheduler.System.Serve.{IsNamed}

Reach-trans :
    {F S : Type 0} {d : Deployment F S} {Others : S → S → Type 0} {t u v : System S}
    → Reach d Others t u
    → Reach d Others u v
    → Reach d Others t v
Reach-trans r Reach.here = r
Reach-trans r (Reach.next r' st) = Reach.next (Reach-trans r r') st

-- Nothing else acts.
abbrev pub Quiet : {S : Type 0} → S → S → Type 0
Quiet s s' = ⊥

weaken :
    {F S : Type 0} {d : Deployment F S} {Others : S → S → Type 0} {t u : System S}
    → Reach d Quiet t u
    → Reach d Others t u
weaken Reach.here = Reach.here
weaken (Reach.next r (Step.submit req resp_chan id drawn fresh e)) =
    Reach.next (weaken r) (Step.submit req resp_chan id drawn fresh e)
weaken (Reach.next r (Step.refuse req resp_chan m failed e)) =
    Reach.next (weaken r) (Step.refuse req resp_chan m failed e)
weaken (Reach.next r (Step.place e)) = Reach.next (weaken r) (Step.place e)
weaken (Reach.next r (Step.answer before req address later split e)) =
    Reach.next (weaken r) (Step.answer before req address later split e)
weaken (Reach.next r (Step.act s acted e)) = elim acted [ ]

peek_of : (q : ReqQueue) (req : Request) (l : List Request) → q.qu ≡ req ∷ l → peek q ≡ some req
unfolding peek
peek_of q req l e = rw e

pop_of : (q : ReqQueue) (req : Request) (l : List Request) → q.qu ≡ req ∷ l → (pop q).qu ≡ l
unfolding pop
pop_of q req l e = rw e

map-eq-nil {ℓ} : {A B : Type ℓ} (f : A → B) (xs : List A) → map f xs ≡ [] → xs ≡ []
map-eq-nil f [] e = refl
map-eq-nil f (x ∷ xs) e = cc

module _ {F S : Type 0} (d : Deployment F S) (is_base : d.scheduler ≡ base_schedule d.float)
    (visits : (m : StatMap F) → Permᴰ (d.visit m) m) {Others : S → S → Type 0}
    {requests : S → List ReqScheduleInfo} {machines : S → List FuncInstance}
    (exclusive : IsExclusive d Others requests machines)
    (responsive : IsResponsive d machines) where
  routine-keeps :
      (req : Request) (address : String) (s : S)
      → machines (call_instance_function_routine d.worker d.request_timeout d.db req address s).1
        ≡ machines s
  unfolding call_instance_function_routine
  routine-keeps req address s =
      responsive.machines_delete req.request_id _
      ∙ responsive.machines_call req.req_payload req.request_id address s

  -- The calls in flight can end.
  finish_all :
      (calls : List (Request × String)) (t : System S)
      → t.running ≡ calls
      → (u : System S) × Reach d Quiet t u
        × (u.running ≡ [])
        × (u.queue.qu ≡ t.queue.qu)
        × (u.submitted ≡ t.submitted)
        × (machines u.outside ≡ machines t.outside)
  finish_all [] t e = (t, Reach.here, e, refl, refl, refl)
  finish_all ((req, address) ∷ calls) t e =
      let t' = after_answer d t [] req address calls in
      let (u, r, none_running, same, listed, kept) = finish_all calls t' refl in
      (
        u,
        Reach-trans (Reach.next Reach.here (Step.answer [] req address calls e refl)) r,
        none_running,
        same,
        listed,
        kept ∙ routine-keeps req address t.outside,
      )

  none_recorded :
      {s : S} {t : System S}
      → requests s ≡ []
      → Reach d Others (start_of s) t
      → t.running ≡ []
      → requests t.outside ≡ []
  none_recorded {t} empty r none_running = map-eq-nil info_key (requests t.outside) (
      perm-nil (Reach-IsMatched d exclusive responsive.deletes empty r)
        (ap (map call_key) none_running))

  -- One request after the other is placed, and its call ends.
  serve_all :
      {s : S} (l : List Request) (t : System S)
      → requests s ≡ []
      → Reach d Others (start_of s) t
      → t.running ≡ []
      → t.queue.qu ≡ l
      → IsNamed (machines t.outside)
      → All (HasHost (machines t.outside)) l
      → (u : System S) × Reach d Quiet t u
        × (u.running ≡ [])
        × (u.queue.qu ≡ [])
        × (u.submitted ≡ t.submitted)
  serve_all [] t empty r none_running e named hosts = (t, Reach.here, none_running, e, refl)
  serve_all (req ∷ l) t empty r none_running e named hosts =
      let (address, launched, popped, same) =
        schedule-serves d is_base visits exclusive responsive t.queue t.outside
          (peek_of t.queue req l e) (none_recorded empty r none_running) named hosts.0 in
      let t1 = after_schedule d t in
      let (t2, r2, ended, kept_queue, listed, kept) = finish_all t1.running t1 refl in
      let placed : Reach d Quiet t t2 = Reach-trans (Reach.next Reach.here (Step.place refl)) r2 in
      let queue : t2.queue.qu ≡ l = kept_queue ∙ ap (λ q. q.qu) popped ∙ pop_of t.queue req l e in
      let back : machines t.outside ≡ machines t2.outside = sym (kept ∙ same) in
      let (u, r3, none_left, empty_queue, all_listed) =
        serve_all l t2 empty (Reach-trans r (weaken placed)) ended queue (subst IsNamed back named)
          (subst (λ m. All (HasHost m) l) back hosts.1) in
      (u, Reach-trans placed r3, none_left, empty_queue, all_listed ∙ listed)

  -- With the base scheduler, from every state that is reached from a start with no placement
  -- recorded, if each waiting request has a running instance of its function that is large enough for
  -- it, then without a new submission and without an action of any other part the system can go on
  -- to a state where nothing waits, no call is in flight, and each submitted request has been answered
  -- exactly once. The database answers, worker calls end, no two instances share a service name, and
  -- only the scheduler changes the placements.
  pub Reach-drains :
      {s : S} {t : System S}
      → requests s ≡ []
      → Reach d Others (start_of s) t
      → IsNamed (machines t.outside)
      → All (HasHost (machines t.outside)) t.queue.qu
      → (u : System S) × Reach d Quiet t u
        × (u.queue.qu ≡ [])
        × (u.running ≡ [])
        × Permᴰ u.submitted (map (λ e. e.0) u.answered)
        × (u.submitted ≡ t.submitted)
  Reach-drains {t} empty r named hosts =
      let (t', r', ended, same, listed, kept) = finish_all t.running t refl in
      let (u, r'', none_left, empty_queue, all_listed) =
        serve_all t'.queue.qu t' empty (Reach-trans r (weaken r')) ended refl
          (subst IsNamed (sym kept) named)
          (subst (All (HasHost (machines t'.outside))) (sym same)
            (subst (λ m. All (HasHost m) t.queue.qu) (sym kept) hosts)) in
      let all = Reach-trans r (weaken (Reach-trans r' r'')) in
      (
        u,
        Reach-trans r' r'',
        empty_queue,
        none_left,
        rw (empty_queue, none_left) at (Reach-IsKept d exclusive all).0,
        all_listed ∙ listed,
      )
