-- ===== src/FuncManager/Demand/Window.antt =====
-- pkg/funcmanager/funcmanager.go: the window of moments and a round of the auto-scaling.
use pixels_spike.Base.{
  ℕ, zero, suc, ◌/◌, ◌≡◌, ◌↔◌, refl, sym, ap, ◌∙◌, inl, inr, List, [], ◌∷◌, ◌++◌, Option, none,
  some, Bool, true, false, String, Result, ok, err, length, take, ltb, if◌then◌else◌, arith, subst,
  ◌≤◌, Bool-cases,
}
use pixels_spike.Base.Exits.{Exit, returns, fails, panics, Step, pure, panic, ◌>>=◌, try_step}
use pixels_spike.Base.Float.{FloatOps}
use pixels_spike.Base.Int.{ℤ, pos, negsuc, sub_ℕ, eq_ℤ}
use pixels_spike.AwsClient.{Cloud}
use pixels_spike.FuncManager.{FuncManager}
use pixels_spike.FuncManager.Demand.{ResScale, cal_res_scale, get_all_req}
use pixels_spike.FuncManager.Scaling.{scale_function}
use pixels_spike.ReqQueue.{Request, ReqQueue}
use pixels_spike.Scheduler.{rev_onto}
use pixels_spike.Storage.{Gorm}

-- Go's division of integers, which cuts towards zero; `none` is the division by zero.
abbrev pub quotient : ℤ → ℤ → Option ℤ
quotient (pos a) (pos zero) = none
quotient (negsuc a) (pos zero) = none
quotient (pos a) (pos (suc b)) = some (pos (a / suc b))
quotient (pos a) (negsuc b) = some (sub_ℕ 0 (a / suc b))
quotient (negsuc a) (pos (suc b)) = some (sub_ℕ 0 (suc a / suc b))
quotient (negsuc a) (negsuc b) = some (pos (suc a / suc b))

module _ {A : Type 0} where
  -- `hisReqs.Remove(hisReqs.Back())`.
  abbrev pub remove_back : List A → List A
  remove_back [] = []
  remove_back (x ∷ []) = []
  remove_back (x ∷ y ∷ l) = x ∷ remove_back (y ∷ l)

  -- The loop that removes from the back; a round takes one entry, so as many rounds as there are
  -- entries are enough.
  abbrev pub trim_rounds : ℕ → ℕ → List A → List A
  trim_rounds zero n l = l
  trim_rounds (suc rounds) n l = elim (ltb n (length l)) [
    | true ↦ trim_rounds rounds n (remove_back l)
    | false ↦ l
  ]

  abbrev pub trim : ℕ → List A → List A
  trim n l = trim_rounds (length l) n l

  -- A moment joins the window; `full` tells whether the demand is computed.
  unfoldable pub slide : ℕ → A → List A → List A × Bool
  slide n x window =
      let pushed = x ∷ window in
      if ltb (length pushed) n then (pushed, false) else (trim n pushed, true)

  unfoldable pub slide_all : ℕ → List A → List A → List A
  unfolding slide
  slide_all n [] window = window
  slide_all n (x ∷ xs) window = slide_all n xs (slide n x window).0

  take_short : (n : ℕ) (l : List A) → ltb n (length l) ≡ false → take n l ≡ l
  take_short zero [] h = refl
  take_short zero (x ∷ l) h = absurd (ground arith)
  take_short (suc n) [] h = refl
  take_short (suc n) (x ∷ l) h = ap (◌∷◌ x) (take_short n l (ground arith))

  take-take-suc : (n : ℕ) (l : List A) → take n (take (suc n) l) ≡ take n l
  take-take-suc zero l = refl
  take-take-suc (suc n) [] = refl
  take-take-suc (suc n) (x ∷ l) = ap (◌∷◌ x) (take-take-suc n l)

  take-cons-take : (n : ℕ) (x : A) (l : List A) → take n (x ∷ take n l) ≡ take n (x ∷ l)
  take-cons-take zero x l = refl
  take-cons-take (suc n) x l = ap (◌∷◌ x) (take-take-suc n l)

  length-remove_back : (x : A) (l : List A) → length (remove_back (x ∷ l)) ≡ length l
  length-remove_back x [] = refl
  length-remove_back x (y ∷ l) = ap suc (length-remove_back y l)

  take-remove_back :
      (n : ℕ) (x : A) (l : List A)
      → ltb (length l) n ≡ false
      → take n (remove_back (x ∷ l)) ≡ take n (x ∷ l)
  take-remove_back zero x l h = refl
  take-remove_back (suc n) x [] h = absurd (ground arith)
  take-remove_back (suc n) x (y ∷ l) h = ap (◌∷◌ x) (take-remove_back n y l (ground arith))

  trim_rounds-take :
      (rounds n : ℕ) (l : List A) → length l ≤ rounds → trim_rounds rounds n l ≡ take n l
  trim_rounds-take zero n [] h = sym (take_short n [] (ground arith))
  trim_rounds-take zero n (x ∷ l) h = absurd (omega arith)
  trim_rounds-take (suc rounds) n [] h =
      let none_longer : ltb n (length {A = A} []) ≡ false = ground arith in
      rw (none_longer, trim_rounds) (sym (take_short n [] (ground arith)))
  trim_rounds-take (suc rounds) n (x ∷ l) h = elim (Bool-cases (ltb n (suc (length l)))) [
    | inr short ↦ rw (short, trim_rounds) (sym (take_short n (x ∷ l) short))
    | inl long ↦
        let shorter : length (remove_back (x ∷ l)) ≤ rounds =
          subst (λ k. k ≤ rounds) (sym (length-remove_back x l)) (omega arith) in
        rw (long, trim_rounds)
          (trim_rounds-take rounds n (remove_back (x ∷ l)) shorter
            ∙ take-remove_back n x l (ground arith))
  ]

  trim-take : (n : ℕ) (l : List A) → trim n l ≡ take n l
  trim-take n l = trim_rounds-take (length l) n l (omega arith)

  slide-take : (n : ℕ) (x : A) (window : List A) → (slide n x window).0 ≡ take n (x ∷ window)
  unfolding slide
  slide-take n x window = elim (Bool-cases (ltb (suc (length window)) n)) [
    | inl short ↦ rw short (sym (take_short n (x ∷ window) (ground arith)))
    | inr full ↦ rw full (trim-take n (x ∷ window))
  ]

  length-trim : (n : ℕ) (l : List A) → ltb (length l) n ≡ false → length (trim n l) ≡ n
  length-trim n l h = ap length (trim-take n l) ∙ length-take n l h
    where
      length-take : (k : ℕ) (m : List A) → ltb (length m) k ≡ false → length (take k m) ≡ k
      length-take zero m h = refl
      length-take (suc k) [] h = absurd (ground arith)
      length-take (suc k) (x ∷ m) h = ap suc (length-take k m (ground arith))

  slide-full :
      (n : ℕ) (x : A) (window : List A)
      → ((slide n x window).1 ≡ true) ↔ (length (slide n x window).0 ≡ n)
  unfolding slide
  slide-full n x window = elim (Bool-cases (ltb (suc (length window)) n)) [
    | inl short ↦ rw short (λ h. absurd (cc), λ h. absurd (ground arith))
    | inr full ↦ rw full (λ h. length-trim n (x ∷ window) full, λ h. refl)
  ]

  slide_all-take :
      (n : ℕ) (xs window : List A) → slide_all n xs (take n window) ≡ take n (rev_onto xs window)
  unfolding slide_all
  slide_all-take n [] window = refl
  slide_all-take n (x ∷ xs) window =
      ap (slide_all n xs) (slide-take n x (take n window) ∙ take-cons-take n x window)
      ∙ slide_all-take n xs (x ∷ window)

  -- After any sequence of moments the window holds the newest ones, the latest first, up to its
  -- size; and when a moment joins it, the demand is computed exactly if the window is then full.
  pub slide_all-newest :
      (n : ℕ) (xs : List A)
      → (slide_all n xs [] ≡ take n (rev_onto xs []))
        × ((x : A) (window : List A)
            → ((slide n x window).1 ≡ true) ↔ (length (slide n x window).0 ≡ n))
  unfolding slide
  slide_all-newest n xs = (
    ap (slide_all n xs) (sym (take-nil n)) ∙ slide_all-take n xs [],
    λ x window. slide-full n x window,
  )
    where
      take-nil : (k : ℕ) → take {A = A} k [] ≡ []
      take-nil zero = refl
      take-nil (suc k) = refl

module _ {F S : Type 0} (float : FloatOps F) (threshold : F) (db : Gorm S) (cloud : Cloud S)
    (f : FuncManager) (turns : List ℕ) where
  -- The loop over the sizes of a function; a failed change is logged. The result are the services
  -- whose deletion is left to goroutines.
  abbrev pub started_or_none : Result (List String) → List String
  started_or_none (ok started) = started
  started_or_none (err e) = []

  pub scale_sizes : String → List ResScale → Step S (List String)
  unfolding scale_function
  scale_sizes function_name [] = pure []
  scale_sizes function_name (res ∷ rest) = elim (eq_ℤ res.scale_cnt (pos 0)) [
    | true ↦ scale_sizes function_name rest
    | false ↦ do
      scaled ← try_step (
          scale_function db cloud f turns (record {
            function_name = function_name;
            cpu = res.cpu;
            memory = res.memory;
            scale_cnt = res.scale_cnt;
          }))
      more ← scale_sizes function_name rest
      pure (started_or_none scaled ++ more)
  ]

  pub scale_all : List (String × List ResScale) → Step S (List String)
  unfolding scale_sizes
  scale_all [] = pure []
  scale_all ((function_name, sizes) ∷ rest) = do
    started ← scale_sizes function_name sizes
    more ← scale_all rest
    pure (started ++ more)

  abbrev pub Window : Type 0
  Window = List (List Request)

  abbrev pub scale_demand :
      Window → Result (List (String × List ResScale)) → Step S (Window × List String)
  unfolding scale_all
  scale_demand window (err e) = pure (window, [])
  scale_demand window (ok demand) = do started ← scale_all demand; pure (window, started)

  abbrev pub slide_reqs : ℤ → List Request → Window → Exit (Window × Bool)
  unfolding slide
  slide_reqs (pos n) reqs window = returns (slide n reqs window)
  slide_reqs (negsuc n) reqs window =
      panics "runtime error: invalid memory address or nil pointer dereference"

  abbrev pub after_slide : Exit (Window × Bool) → Step S (Window × List String)
  unfolding scale_demand cal_res_scale
  after_slide (panics message) = panic message
  after_slide (fails e) = pure ([], [])
  after_slide (returns (window, false)) = pure (window, [])
  after_slide (returns (window, true)) = do
    demand ← try_step (cal_res_scale float threshold db window)
    scale_demand window demand

  abbrev pub after_reqs : ℤ → Window → Result (List Request) → Step S (Window × List String)
  unfolding after_slide
  after_reqs window_len window (err e) = pure (window, [])
  after_reqs window_len window (ok reqs) = after_slide (slide_reqs window_len reqs window)

  -- A round of the loop of `FunctionAutoScaling`, at a tick: the window that it leaves, and the
  -- services whose deletion is left to goroutines.
  unfoldable pub auto_scaling_round : ReqQueue → ℤ → Window → Step S (Window × List String)
  unfolding after_reqs get_all_req
  auto_scaling_round q window_len window = do
    reqs ← try_step (get_all_req db q)
    after_reqs window_len window reqs

  -- The size of the window, computed at the start; its step must not be zero.
  unfoldable pub window_len : Option ℤ
  window_len = quotient f.auto_scaling_window f.auto_scaling_step
