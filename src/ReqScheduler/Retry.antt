-- ===== src/ReqScheduler/Retry.antt =====
-- pkg/reqscheduler/reqscheduler.go: how often `CallFunction` tries, and what it answers.
use pixels_spike.Base.{
  ℕ, suc, zero, ◌+◌, ◌<◌, ◌≡◌, refl, ap, ◌∙◌, none, some, Bool, true, false, String, Result, ok,
  err, Action, arith, if◌then◌else◌,
}
use pixels_spike.Base.Int.{ℤ, pos, ◌<ℤ◌, ◌-ℤ◌, leb_ℤ, pos_part}
use pixels_spike.ReqScheduler.{
  Response, CallFunctionRequest, CallFunctionResponse, World, submit_request, call_loop,
  call_function, check_response, check_submit,
}

module _ {S : Type 0} (next_id : Action S ℕ) (receive : ℕ → World S → Response × World S)
    (req : CallFunctionRequest) (resp_chan : ℕ) where
  abbrev answer : Response × World S → Result String × World S
  answer (resp, w) = elim resp.error [ some e ↦ (err e, w) | none ↦ (ok resp.response_payload, w) ]

  abbrev wait : Result (Unit {0}) × World S → Result String × World S
  wait (err e, w) = (err e, w)
  wait (ok u, w) = answer (receive resp_chan w)

  -- One try: a submission, and the response to it.
  abbrev pub one_try : Action (World S) String
  one_try w = wait (submit_request next_id req resp_chan w)

  -- The state after a number of tries.
  abbrev pub after : ℕ → World S → World S
  after zero w = w
  after (suc k) w = after k (one_try w).1

  abbrev pub Fails : Result String × World S → Type 0
  Fails r = (e : String) × (r.0 ≡ err e)

  abbrev pub AllFail : ℕ → World S → Type 0
  AllFail zero w = Unit
  AllFail (suc k) w = Fails (one_try w) × AllFail k (one_try w).1

  module _ (max_retry : ℤ) where
    abbrev loop : ℕ → ℕ → Action (World S) CallFunctionResponse
    loop = call_loop next_id receive max_retry req resp_chan

    abbrev last : ℕ → Bool
    last i = leb_ℤ (max_retry -ℤ pos 1) (pos i)

    abbrev reply : String → CallFunctionResponse
    reply payload = record { error_code = pos 0; payload = payload }

    -- What a round of the loop does with the outcome of its try.
    abbrev next_round :
        ℕ
        → (World S → Result CallFunctionResponse × World S)
        → Result String × World S
        → Result CallFunctionResponse × World S
    next_round i rest (ok payload, w) = (ok (reply payload), w)
    next_round i rest (err e, w) = if last i then (err e, w) else rest w

    check_response-next_round :
        (i : ℕ) (rest : World S → Result CallFunctionResponse × World S) (x : Response × World S)
        → check_response next_id receive max_retry req resp_chan i rest x
          ≡ next_round i rest (answer x)
    check_response-next_round i rest x = ground arith

    check_submit-next_round :
        (i : ℕ) (rest : World S → Result CallFunctionResponse × World S)
        (r : Result (Unit {0}) × World S)
        → check_submit next_id receive max_retry req resp_chan i rest r ≡ next_round i rest (wait r)
    check_submit-next_round i rest (err e, w) = refl
    check_submit-next_round i rest (ok u, w) =
        check_response-next_round i rest (receive resp_chan w)

    loop-next_round :
        (n i : ℕ) (w : World S) → loop (suc n) i w ≡ next_round i (loop n (suc i)) (one_try w)
    unfolding call_loop
    loop-next_round n i w =
        check_submit-next_round i (loop n (suc i)) (submit_request next_id req resp_chan w)

    next_round-ok :
        (i : ℕ) (rest : World S → Result CallFunctionResponse × World S)
        (x : Result String × World S) (payload : String)
        → x.0 ≡ ok payload
        → next_round i rest x ≡ (ok (reply payload), x.1)
    next_round-ok i rest x payload h = ground arith

    next_round-err :
        (i : ℕ) (rest : World S → Result CallFunctionResponse × World S)
        (x : Result String × World S) (e : String)
        → x.0 ≡ err e
        → next_round i rest x ≡ (if last i then (err e, x.1) else rest x.1)
    next_round-err i rest (ok payload, w) e h = absurd (cc)
    next_round-err i rest (err e', w) e h = ap (λ z. if last i then (err z, w) else rest w) (cc)

    last-false : (n i : ℕ) → max_retry ≡ pos (suc (suc n) + i) → last i ≡ false
    unfolding ◌-ℤ◌
    last-false n i m = rw m (ground arith)

    last-true : (i : ℕ) → max_retry ≡ pos (1 + i) → last i ≡ true
    unfolding ◌-ℤ◌
    last-true i m = rw m (ground arith)

    loop-ok :
        (k n i : ℕ) (w : World S) (payload : String)
        → k < n
        → max_retry ≡ pos (n + i)
        → AllFail k w
        → (one_try (after k w)).0 ≡ ok payload
        → loop n i w ≡ (ok (reply payload), after (suc k) w)
    loop-ok k zero i w payload lt m fails h = absurd (omega arith)
    loop-ok zero (suc n) i w payload lt m fails h =
        loop-next_round n i w ∙ next_round-ok i (loop n (suc i)) (one_try w) payload h
    loop-ok (suc k) (suc zero) i w payload lt m fails h = absurd (omega arith)
    loop-ok (suc k) (suc (suc n)) i w payload lt m ((e, failed), fails) h =
        loop-next_round (suc n) i w
        ∙ next_round-err i (loop (suc n) (suc i)) (one_try w) e failed
        ∙ rw (last-false n i m) (
            loop-ok k (suc n) (suc i) (one_try w).1 payload (omega arith) (m ∙ ap pos (omega arith))
              fails h)

    loop-err :
        (n i : ℕ) (w : World S) (e : String)
        → max_retry ≡ pos (suc n + i)
        → AllFail n w
        → (one_try (after n w)).0 ≡ err e
        → loop (suc n) i w ≡ (err e, after (suc n) w)
    loop-err zero i w e m fails h =
        loop-next_round zero i w
        ∙ next_round-err i (loop zero (suc i)) (one_try w) e h
        ∙ rw (last-true i (m ∙ ap pos (omega arith)))
    loop-err (suc n) i w e m ((e', failed), fails) h =
        loop-next_round (suc n) i w
        ∙ next_round-err i (loop (suc n) (suc i)) (one_try w) e' failed
        ∙ rw (last-false n i m)
            (loop-err n (suc i) (one_try w).1 e (m ∙ ap pos (omega arith)) fails h)

    -- A call answers with the payload of its first successful try, made as soon as the tries
    -- before it have failed and within the configured number; it tries no more after that.
    pub call_function-first_success :
        (k : ℕ) (w : World S) (payload : String)
        → pos k <ℤ max_retry
        → AllFail k w
        → (one_try (after k w)).0 ≡ ok payload
        → call_function next_id receive max_retry req resp_chan w
          ≡ (ok (record { error_code = pos 0; payload = payload }), after (suc k) w)
    unfolding call_function
    call_function-first_success k w payload lt fails h =
        loop-ok k (pos_part max_retry) 0 w payload (ground arith) (ground arith) fails h

    -- When every try fails, a call that may make one or more tries makes exactly the configured
    -- number of them and answers with the error of the last one.
    pub call_function-AllFail :
        (n : ℕ) (w : World S) (e : String)
        → max_retry ≡ pos (suc n)
        → AllFail n w
        → (one_try (after n w)).0 ≡ err e
        → call_function next_id receive max_retry req resp_chan w ≡ (err e, after (suc n) w)
    unfolding call_function
    call_function-AllFail n w e m fails h =
        ap (λ r. loop r 0 w) (ap pos_part m) ∙ loop-err n 0 w e (m ∙ ap pos (omega arith)) fails h
