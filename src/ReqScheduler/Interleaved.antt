-- ===== src/ReqScheduler/Interleaved.antt =====
-- pkg/reqscheduler/reqscheduler.go: requests that are submitted while `Schedule` runs. It looks at the
-- front of the queue, places the request and takes it off in separate steps, and the lock of the
-- queue is free between them.
use pixels_spike.Base.{
  ◌≡◌, refl, ap, ◌∙◌, List, [], ◌∷◌, Option, none, some, String, Result, ok, err,
}
use pixels_spike.Base.Float.{FloatOps}
use pixels_spike.ReqQueue.{Request, ReqQueue, peek, pop, push}
use pixels_spike.Scheduler.{ReqScheduleInfo, Scheduler, StatMap}
use pixels_spike.Storage.{Gorm}
use pixels_spike.ReqScheduler.{finish, schedule_front, place_request, schedule}

-- The queue after other goroutines have pushed these requests, in order.
pub push_all : List Request → ReqQueue → ReqQueue
push_all [] q = q
push_all (req ∷ reqs) q = push_all reqs (push req q)

push-later :
    (req : Request) (l : List Request) (front : Request)
    → peek (record { qu = l }) ≡ some front
    → (peek (push req (record { qu = l })) ≡ some front)
      × (pop (push req (record { qu = l })) ≡ push req (pop (record { qu = l })))
unfolding peek pop push
push-later req [] front e = absurd (cc)
push-later req (r ∷ l) front e = (e, refl)

pop-push_all :
    (reqs : List Request) (q : ReqQueue) (front : Request)
    → peek q ≡ some front
    → pop (push_all reqs q) ≡ push_all reqs (pop q)
unfolding push_all
pop-push_all [] q front e = refl
pop-push_all (req ∷ reqs) q front e =
    let (still, popped) = push-later req q.qu front e in
    pop-push_all reqs (push req q) front still ∙ ap (push_all reqs) popped

module _ {F S : Type 0} (float : FloatOps F) (db : Gorm S) (scheduler : Scheduler F)
    (visit : StatMap F → StatMap F) where
  -- `Schedule` when the requests `reqs` are pushed while it places the front one, between its
  -- look at the queue and the removal.
  pub schedule_while : List Request → ReqQueue → S → Option (Request × String) × ReqQueue × S
  schedule_while reqs q s = schedule_front float db scheduler visit (peek q) (push_all reqs q) s

  front-push_all :
      (reqs : List Request) (q : ReqQueue) (s : S) (o : Option Request)
      → peek q ≡ o
      → schedule_front float db scheduler visit o (push_all reqs q) s ≡ (
          let (started, q', s') = schedule_front float db scheduler visit o q s in
          (started, push_all reqs q', s'))
  front-push_all reqs q s none e = refl
  front-push_all reqs q s (some req) e = placed (place_request float db scheduler visit req s)
    where
      placed :
          (x : Result ReqScheduleInfo × S)
          → finish float db scheduler visit req (push_all reqs q) x ≡ (
              let (started, q', s') = finish float db scheduler visit req q x in
              (started, push_all reqs q', s'))
      placed (ok chosen, t) =
          ap (λ q'. (some (req, chosen.placed_ins_ipv4), q', t)) (pop-push_all reqs q req e)
      placed (err m, t) = refl

  -- Whatever is submitted while `Schedule` runs, between its look at the front of the queue and the
  -- removal of the request, the outcome is that of `Schedule` alone with these requests pushed
  -- after it: what it removes is the request that it has placed, and none of the others is lost.
  pub schedule_while-push_all :
      (reqs : List Request) (q : ReqQueue) (s : S)
      → schedule_while reqs q s ≡ (
          let (started, q', s') = schedule float db scheduler visit q s in
          (started, push_all reqs q', s'))
  unfolding schedule_while schedule
  schedule_while-push_all reqs q s = front-push_all reqs q s (peek q) refl
