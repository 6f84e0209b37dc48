-- ===== src/ReqQueue/Fifo.antt =====
-- pkg/reqscheduler/reqqueue.go: the queue is first in, first out.
use mathlib.Core.List.{append-nil, append_assoc}
use pixels_spike.Base.{◌≡◌, refl, sym, ap, ◌∙◌, List, [], ◌∷◌, ◌++◌, Option, none, some}
use pixels_spike.ReqQueue.{Request, ReqQueue, peek, pop, push}

-- What the submitting calls and the scheduling loop do to the queue.
pub data Op : Type 0 where
  pushes : Request → Op
  pops : Op

abbrev apply : Op → ReqQueue → ReqQueue
apply (Op.pushes r) q = push r q
apply Op.pops q = pop q

unfoldable pub run : List Op → ReqQueue → ReqQueue
run [] q = q
run (o ∷ os) q = run os (apply o q)

abbrev to_list : Option Request → List Request
to_list none = []
to_list (some r) = r ∷ []

-- The requests that a history pushes, and those that it takes from the front, in order.
unfoldable pub pushed : List Op → List Request
pushed [] = []
pushed (Op.pushes r ∷ os) = r ∷ pushed os
pushed (Op.pops ∷ os) = pushed os

unfoldable pub taken : List Op → ReqQueue → List Request
taken [] q = []
taken (Op.pushes r ∷ os) q = taken os (push r q)
taken (Op.pops ∷ os) q = to_list (peek q) ++ taken os (pop q)

peek-pop : (q : ReqQueue) → to_list (peek q) ++ (pop q).qu ≡ q.qu
unfolding peek pop
peek-pop q = go q.qu
  where
    go : (l : List Request) → to_list (peek (record { qu = l })) ++ (pop (record { qu = l })).qu ≡ l
    go [] = refl
    go (r ∷ l) = refl

-- Whatever the order of pushes and pops, the requests taken from the queue, followed by those that
-- still wait in it, are those that waited at first, followed by the pushed ones: none is lost,
-- repeated or overtaken.
pub taken-append-run :
    (os : List Op) (q : ReqQueue) → taken os q ++ (run os q).qu ≡ q.qu ++ pushed os
unfolding taken run pushed push
taken-append-run [] q = sym (append-nil q.qu)
taken-append-run (Op.pushes r ∷ os) q =
    taken-append-run os (push r q) ∙ append_assoc q.qu (r ∷ []) (pushed os)
taken-append-run (Op.pops ∷ os) q =
    append_assoc (to_list (peek q)) (taken os (pop q)) (run os (pop q)).qu
    ∙ ap (◌++◌ (to_list (peek q))) (taken-append-run os (pop q))
    ∙ sym (append_assoc (to_list (peek q)) (pop q).qu (pushed os))
    ∙ ap (λ l. l ++ pushed os) (peek-pop q)
