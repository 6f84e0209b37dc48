-- ===== src/AwsClient/Goroutines.antt =====
-- pkg/funcmanager/awsclient.go: what the goroutines of a batch of creations do, in any order.
pub mod Ending
use pixels_spike.Base.{
  ℕ, zero, suc, ◌+◌, ◌-◌, ◌≤◌, ◌≡◌, refl, sym, ap, ◌∙◌, List, [], ◌∷◌, Option, none, some, String,
  Result, ok, err, All, arith, length, get_elem?, set, All-mem, mem_of_get_elem?, if◌then◌else◌,
}
use pixels_spike.Base.Exits.{Exit, returns, fails, panics, Step, proceed}
use pixels_spike.Base.Int.{ℤ}
use pixels_spike.Base.Keys.{◌==◌, string_keys}
use pixels_spike.AwsClient.{
  AwsClient, Cloud, CreateServiceInput, Slot, starting, named, finished, create_service_input,
  advance, advance_at, run_turns, finish_all, gen_service_name, generated, created, end_slot,
}
use pixels_spike.Constants.{InstanceType}

-- How often a name stands in a list.
abbrev pub occurrences : String → List String → ℕ
occurrences x [] = 0
occurrences x (name ∷ names) = (if name == x then 1 else 0) + occurrences x names

-- What a batch relies on of the cluster, where `running x s` is the number of services named `x`
-- in a state: a creation adds the service, or nothing if it fails; drawing a number changes none;
-- and the deletion of a service without a name deletes none.
pub record ServiceStore {S : Type 0} (cloud : Cloud S) (a : AwsClient) (running : String → S → ℕ)
    : Type 0 where
  pub create_ok :
      (i : CreateServiceInput) (s : S) (x : String)
      → (cloud.create_service i s).0 ≡ ok tt
      → running x (cloud.create_service i s).1
        ≡ running x s + (if i.service_name == x then 1 else 0)
  pub create_err :
      (i : CreateServiceInput) (s : S) (x e : String)
      → (cloud.create_service i s).0 ≡ err e
      → running x (cloud.create_service i s).1 ≡ running x s
  pub next_id_keeps : (s : S) (x : String) → running x (cloud.next_id s).1 ≡ running x s
  pub delete_unnamed :
      (s : S) (x : String) → running x (cloud.delete_service a.cluster "" s).1 ≡ running x s

-- Whether a goroutine has created the service `x`.
abbrev pub made : String → Slot → ℕ
made x (finished name none) = if name == x then 1 else 0
made x slot = 0

abbrev pub made_all : String → List Slot → ℕ
made_all x [] = 0
made_all x (slot ∷ slots) = made x slot + made_all x slots

-- A goroutine that fails leaves no name.
abbrev pub IsClean : Slot → Type 0
IsClean (finished name (some e)) = name ≡ ""
IsClean slot = Unit

-- The calls that a goroutine still has to make.
abbrev pub remaining : Slot → ℕ
remaining starting = 2
remaining (named name) = 1
remaining (finished name e) = 0

remaining-bound : (slot : Slot) → remaining slot ≤ 2
remaining-bound starting = omega arith
remaining-bound (named name) = omega arith
remaining-bound (finished name e) = omega arith

made_all-set :
    (x : String) (slots : List Slot) (i : ℕ) (slot slot' : Slot)
    → get_elem? slots i ≡ some slot
    → made_all x (set slots i slot') + made x slot ≡ made_all x slots + made x slot'
made_all-set x [] i slot slot' h = absurd (cc)
made_all-set x (y ∷ slots) zero slot slot' h =
    let same : made x y ≡ made x slot = ap (made x) (cc) in omega arith
made_all-set x (y ∷ slots) (suc i) slot slot' h = omega (arith, made_all-set x slots i slot slot' h)

set-IsClean :
    (slots : List Slot) (i : ℕ) (slot' : Slot)
    → IsClean slot'
    → All IsClean slots
    → All IsClean (set slots i slot')
set-IsClean [] i slot' c h = tt
set-IsClean (y ∷ slots) zero slot' c h = (c, h.1)
set-IsClean (y ∷ slots) (suc i) slot' c h = (h.0, set-IsClean slots i slot' c h.1)

length-set : (slots : List Slot) (i : ℕ) (slot : Slot) → length (set slots i slot) ≡ length slots
length-set [] i slot = refl
length-set (y ∷ slots) zero slot = refl
length-set (y ∷ slots) (suc i) slot = ap suc (length-set slots i slot)

module _ {S : Type 0} (cloud : Cloud S) (a : AwsClient) {running : String → S → ℕ}
    (store : ServiceStore cloud a running) (family : String) (revision : ℤ)
    (instance_type : InstanceType) where
  abbrev Advanced : Slot → S → Exit Slot × S → Type 0
  Advanced slot s (returns slot', s') =
      ((x : String) → running x s' + made x slot ≡ running x s + made x slot')
      × IsClean slot'
      × (remaining slot' ≤ remaining slot - 1)
  Advanced slot s (fails e, s') = ⊥
  Advanced slot s (panics message, s') = (x : String) → running x s' ≡ running x s

  generated-Advanced :
      (s : S) (r : Result ℕ × S)
      → ((x : String) → running x r.1 ≡ running x s)
      → Advanced starting s (
          proceed
            (generated cloud a family r).0
            (λ name t. (returns (named name), t))
            (generated cloud a family r).1)
  generated-Advanced s (ok id, s') kept = (λ x. ap (λ n. n + 0) (kept x), tt, omega arith)
  generated-Advanced s (err e, s') kept = kept

  abbrev input : String → CreateServiceInput
  input = create_service_input cloud a family revision instance_type

  created-Advanced :
      (name : String) (s : S) (r : Result (Unit {0}) × S)
      → r ≡ cloud.create_service (input name) s
      → (let c = created cloud a family revision instance_type name r in
          Advanced
            (named name)
            s
            (returns (end_slot cloud a family revision instance_type c.0), c.1))
  created-Advanced name s (ok u, s') e = (
    λ x.
        let added = store.create_ok (input name) s x (ap (λ r. r.0) (sym e)) in
        let same = ap (λ r. running x r.1) e in omega arith,
    tt,
    omega arith,
  )
  created-Advanced name s (err m, s') e = (
    λ x.
        let kept = store.create_err (input name) s x m (ap (λ r. r.0) (sym e)) in
        let same = ap (λ r. running x r.1) e in omega arith,
    refl,
    omega arith,
  )

  advance-Advanced :
      (slot : Slot) (s : S)
      → IsClean slot
      → Advanced slot s (advance cloud a family revision instance_type slot s)
  unfolding advance gen_service_name
  advance-Advanced starting s c = generated-Advanced s (cloud.next_id s) (store.next_id_keeps s)
  advance-Advanced (named name) s c = created-Advanced name s _ refl
  advance-Advanced (finished name e) s c = (λ x. refl, c, omega arith)

  -- What the goroutines did between two states.
  pub record IsMoved (slots : List Slot) (s : S) (slots' : List Slot) (s' : S) : Type 0 where
    pub counted : (x : String) → running x s' + made_all x slots ≡ running x s + made_all x slots'
    pub clean : All IsClean slots'
    pub same_length : length slots' ≡ length slots

  IsMoved-trans :
      {l m n : List Slot} {s t u : S} → IsMoved l s m t → IsMoved m t n u → IsMoved l s n u
  IsMoved-trans p q = record {
    counted = λ x. omega (arith, p.counted x, q.counted x);
    clean = q.clean;
    same_length = q.same_length ∙ p.same_length;
  }

  abbrev pub Moves : List Slot → S → Exit (List Slot) × S → Type 0
  Moves slots s (returns slots', s') = IsMoved slots s slots' s'
  Moves slots s (fails e, s') = ⊥
  Moves slots s (panics message, s') = (slots' : List Slot) × IsMoved slots s slots' s'

  proceed-Moves :
      (slots : List Slot) (s : S) (r : Exit (List Slot) × S) (k : List Slot → Step S (List Slot))
      → Moves slots s r
      → ((m : List Slot) (t : S) → IsMoved slots s m t → Moves m t (k m t))
      → Moves slots s (proceed r.0 k r.1)
  proceed-Moves slots s (returns m, t) k p q = then_Moves (k m t) (q m t p)
    where
      then_Moves : (r' : Exit (List Slot) × S) → Moves m t r' → Moves slots s r'
      then_Moves (returns n, u) h = IsMoved-trans p h
      then_Moves (fails e, u) h = absurd h
      then_Moves (panics message, u) h = (h.0, IsMoved-trans p h.1)
  proceed-Moves slots s (fails e, t) k p q = absurd p
  proceed-Moves slots s (panics message, t) k p q = p

  set-Moves :
      (slots : List Slot) (i : ℕ) (slot : Slot) (s : S) (r : Exit Slot × S)
      → get_elem? slots i ≡ some slot
      → All IsClean slots
      → Advanced slot s r
      → Moves slots s (proceed r.0 (λ slot' t. (returns (set slots i slot'), t)) r.1)
  set-Moves slots i slot s (returns slot', t) found c (h, c', less) = record {
    counted = λ x. omega (arith, h x, made_all-set x slots i slot slot' found);
    clean = set-IsClean slots i slot' c' c;
    same_length = length-set slots i slot';
  }
  set-Moves slots i slot s (fails e, t) found c h = absurd h
  set-Moves slots i slot s (panics message, t) found c h =
      (slots, record { counted = λ x. omega (arith, h x); clean = c; same_length = refl })

  advance_at-Moves :
      (slots : List Slot) (i : ℕ) (o : Option Slot) (s : S)
      → get_elem? slots i ≡ o
      → All IsClean slots
      → Moves slots s (advance_at cloud a family revision instance_type slots i o s)
  unfolding advance_at
  advance_at-Moves slots i none s found c = record {
    counted = λ x. refl;
    clean = c;
    same_length = refl;
  }
  advance_at-Moves slots i (some slot) s found c =
      let clean_slot = All-mem IsClean slots c (mem_of_get_elem? slots i found) in
      set-Moves slots i slot s _ found c (advance-Advanced slot s clean_slot)

  pub run_turns-Moves :
      (turns : List ℕ) (slots : List Slot) (s : S)
      → All IsClean slots
      → Moves slots s (run_turns cloud a family revision instance_type turns slots s)
  unfolding run_turns
  run_turns-Moves [] slots s c = record { counted = λ x. refl; clean = c; same_length = refl }
  run_turns-Moves (i ∷ turns) slots s c =
      proceed-Moves slots s _ _ (advance_at-Moves slots i (get_elem? slots i) s refl c)
        (λ m t p. run_turns-Moves turns m t p.clean)
