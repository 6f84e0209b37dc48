-- ===== src/ReqScheduler/System/Conservation.antt =====
-- pkg/reqscheduler/reqscheduler.go: in every reachable state each submitted request is in one
-- place, and the recorded placements are the calls in flight.
use mathlib.Core.List.Permᴰ
use mathlib.Core.List.{Permᴰ, map-append, map-map, append_assoc}
use pixels_spike.Base.{
  ℕ, ◌≡◌, ◌≢◌, refl, sym, subst, inl, inr, List, [], ◌∷◌, ◌++◌, map, some, String, ok, err, arith,
  All,
}
use pixels_spike.Base.Distinct.{IsDistinct, IsDistinct-perm, IsDistinct-take, IsDistinct-drop}
use pixels_spike.Base.Keys.{nat_keys}
use pixels_spike.Model.{FuncInstance}
use pixels_spike.ReqQueue.{Request, ReqQueue, peek, pop, push}
use pixels_spike.Scheduler.{ReqScheduleInfo}
use pixels_spike.ReqScheduler.{CallFunctionRequest, Response, to_request, submit_request}
use pixels_spike.ReqScheduler.Handover.{schedule-IsHandover}
use pixels_spike.ReqScheduler.System.{
  Deployment, System, Step, Reach, IsExclusive, start_of, after_submit, after_schedule,
  after_answer,
}

abbrev pub id_of : Request → ℕ
id_of r = r.request_id

map-All :
    (id : ℕ) (l : List Request) → All (λ r. r.request_id ≢ id) l → All (λ n. n ≢ id) (map id_of l)
map-All id [] h = tt
map-All id (r ∷ l) h = (h.0, map-All id l h.1)

-- Where a request can be.
abbrev pub known : {S : Type 0} → System S → List Request
known t = t.queue.qu ++ (map (λ e. e.0) t.running ++ map (λ e. e.0) t.answered)

push-perm :
    (q : ReqQueue) (req : Request) (l : List Request)
    → Permᴰ ((push req q).qu ++ l) (req ∷ (q.qu ++ l))
unfolding push
push-perm q req l =
    subst (λ x. Permᴰ x (req ∷ (q.qu ++ l))) (sym (append_assoc q.qu (req ∷ []) l))
      (Permᴰ.middle req q.qu l)

pub peek-pop : (q : ReqQueue) {req : Request} → peek q ≡ some req → q.qu ≡ req ∷ (pop q).qu
unfolding peek pop
peek-pop q h = ground arith

pop-perm :
    (q : ReqQueue) {req : Request} (l : List Request)
    → peek q ≡ some req
    → Permᴰ (q.qu ++ l) ((pop q).qu ++ (req ∷ l))
pop-perm q {req} l front =
    subst (λ x. Permᴰ (x ++ l) ((pop q).qu ++ (req ∷ l))) (sym (peek-pop q front))
      (Permᴰ.symm (Permᴰ.middle req (pop q).qu l))

-- An entry moves from one list to the front of the next.
move_over :
    (xs : List Request) (x : Request) (ys zs : List Request)
    → Permᴰ ((xs ++ (x ∷ ys)) ++ zs) ((xs ++ ys) ++ (x ∷ zs))
move_over xs x ys zs =
    Permᴰ.trans (Permᴰ.append_right zs (Permᴰ.middle x xs ys))
      (Permᴰ.symm (Permᴰ.middle x (xs ++ ys) zs))

module _ {F S : Type 0} (d : Deployment F S) (req : CallFunctionRequest) (resp_chan : ℕ)
    (q : ReqQueue) (s : S) where
  pub submit_request-ok :
      {id : ℕ}
      → (d.next_id s).0 ≡ ok id
      → submit_request d.next_id req resp_chan (q, s)
        ≡ (ok tt, (push (to_request req id resp_chan) q, (d.next_id s).1))
  unfolding submit_request
  submit_request-ok drawn = ground arith

  pub submit_request-err :
      {e : String}
      → (d.next_id s).0 ≡ err e
      → submit_request d.next_id req resp_chan (q, s) ≡ (err e, (q, (d.next_id s).1))
  unfolding submit_request
  submit_request-err failed = ground arith

module _ {F S : Type 0} (d : Deployment F S) {Others : S → S → Type 0}
    {requests : S → List ReqScheduleInfo} {machines : S → List FuncInstance}
    (exclusive : IsExclusive d Others requests machines) where
  open exclusive use {store, others_keep, next_id_keeps, call_keeps}

  -- Nothing is lost and nothing is made up.
  abbrev pub IsKept : System S → Type 0
  IsKept t = Permᴰ t.submitted (known t)

  submit-IsKept :
      (t : System S) (req : CallFunctionRequest) (resp_chan id : ℕ)
      → (d.next_id t.outside).0 ≡ ok id
      → IsKept t
      → IsKept (after_submit d t req resp_chan (to_request req id resp_chan ∷ t.submitted))
  submit-IsKept t req resp_chan id drawn h =
      let request = to_request req id resp_chan in
      rw (submit_request-ok d req resp_chan t.queue t.outside drawn, after_submit)
        (Permᴰ.trans (Permᴰ.cons refl h) (
          Permᴰ.symm
            (push-perm t.queue request (map (λ e. e.0) t.running ++ map (λ e. e.0) t.answered))))

  refuse-IsKept :
      (t : System S) (req : CallFunctionRequest) (resp_chan : ℕ) (e : String)
      → (d.next_id t.outside).0 ≡ err e
      → IsKept t
      → IsKept (after_submit d t req resp_chan t.submitted)
  refuse-IsKept t req resp_chan e failed h =
      rw (submit_request-err d req resp_chan t.queue t.outside failed, after_submit) h

  place-IsKept : (t : System S) → IsKept t → IsKept (after_schedule d t)
  place-IsKept t h =
      elim (schedule-IsHandover d.float d.db d.scheduler d.visit store t.queue t.outside) [
        | inl (none_started, same, kept) ↦ rw (none_started, same) h
        | inr (req, chosen, front, launched, popped, placed) ↦
            rw (launched, popped) (Permᴰ.trans h (pop-perm t.queue _ front))
      ]

  answer-IsKept :
      (t : System S) (before : List (Request × String)) (req : Request) (address : String)
      (later : List (Request × String))
      → t.running ≡ before ++ ((req, address) ∷ later)
      → IsKept t
      → IsKept (after_answer d t before req address later)
  answer-IsKept t before req address later split h = Permᴰ.trans (rw split at h) (
      Permᴰ.append_left t.queue.qu (
        rw
          (
            map-append (λ (e : Request × String). e.0) before ((req, address) ∷ later),
            map-append (λ (e : Request × String). e.0) before later,
          )
          (move_over (map (λ e. e.0) before) req (map (λ e. e.0) later)
            (map (λ e. e.0) t.answered))))

  pub Step-IsKept : {t u : System S} → Step d Others t u → IsKept t → IsKept u
  Step-IsKept {t} (Step.submit req resp_chan id drawn fresh e) h =
      rw e (submit-IsKept t req resp_chan id drawn h)
  Step-IsKept {t} (Step.refuse req resp_chan m failed e) h =
      rw e (refuse-IsKept t req resp_chan m failed h)
  Step-IsKept (Step.place e) h = rw e (place-IsKept _ h)
  Step-IsKept {t} (Step.answer before req address later split e) h =
      rw e (answer-IsKept t before req address later split h)
  Step-IsKept (Step.act s acted e) h = rw e h

  Step-IsDistinct :
      {t u : System S}
      → Step d Others t u
      → IsDistinct (map id_of t.submitted)
      → IsDistinct (map id_of u.submitted)
  Step-IsDistinct {t} (Step.submit req resp_chan id drawn fresh e) h =
      rw e (map-All id t.submitted fresh, h)
  Step-IsDistinct (Step.refuse req resp_chan m failed e) h = rw e h
  Step-IsDistinct (Step.place e) h = rw e h
  Step-IsDistinct (Step.answer before req address later split e) h = rw e h
  Step-IsDistinct (Step.act s acted e) h = rw e h

  Reach-Kept :
      {s : S} {t : System S}
      → Reach d Others (start_of s) t
      → IsKept t × IsDistinct (map id_of t.submitted)
  Reach-Kept Reach.here = (Permᴰ.nil, tt)
  Reach-Kept (Reach.next r st) =
      let (kept, distinct) = Reach-Kept r in (Step-IsKept st kept, Step-IsDistinct st distinct)

  -- In every state that is reached from the start, in any order of steps, each request that was
  -- ever submitted is in exactly one place, once: it waits in the queue, its call is in flight, or
  -- its response was sent. The numbers of all these requests differ. Each number that is drawn is
  -- new, and only the scheduler changes the placements.
  pub Reach-IsKept :
      {s : S} {t : System S}
      → Reach d Others (start_of s) t
      → Permᴰ t.submitted (known t) × IsDistinct (map id_of (known t))
  Reach-IsKept r =
      let (kept, distinct) = Reach-Kept r in (kept, IsDistinct-perm (Permᴰ.map id_of kept) distinct)

  pub running-IsDistinct :
      {s : S} {t : System S}
      → Reach d Others (start_of s) t
      → IsDistinct (map (λ e. e.0.request_id) t.running)
  running-IsDistinct {t} r =
      let calls = map (λ (e : Request × String). e.0) t.running in
      let ended = map (λ (e : Request × Response). e.0) t.answered in
      let split = map-append id_of t.queue.qu (calls ++ ended) in
      let later =
        IsDistinct-drop (map id_of t.queue.qu) (map id_of (calls ++ ended))
          (subst IsDistinct split (Reach-IsKept r).1) in
      let first =
        IsDistinct-take (map id_of calls) (map id_of ended)
          (subst IsDistinct (map-append id_of calls ended) later) in
      subst IsDistinct (map-map id_of (λ (e : Request × String). e.0) t.running) first
