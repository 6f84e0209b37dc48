-- ===== src/AwsClient/Goroutines/Ending.antt =====
-- pkg/funcmanager/awsclient.go: the goroutines of a batch of creations when all of them are done.
use pixels_spike.Base.{ℕ, suc, ◌-◌, ◌≤◌, ◌≡◌, refl, ap, List, [], ◌∷◌, String, All, arith}
use pixels_spike.Base.Exits.{Exit, returns, fails, panics, Step, proceed}
use pixels_spike.Base.Int.{ℤ}
use pixels_spike.Base.Keys.{string_keys}
use pixels_spike.AwsClient.{AwsClient, Cloud, Slot, finish_all}
use pixels_spike.Constants.{InstanceType}
use pixels_spike.AwsClient.Goroutines.{
  ServiceStore, IsClean, remaining, remaining-bound, Advanced, advance-Advanced, IsMoved,
  IsMoved-trans,
}

module _ {S : Type 0} (cloud : Cloud S) (a : AwsClient) {running : String → S → ℕ}
    (store : ServiceStore cloud a running) (family : String) (revision : ℤ)
    (instance_type : InstanceType) where
  abbrev pub IsEnded : Slot → Type 0
  IsEnded slot = remaining slot ≡ 0

  abbrev pub Ends : List Slot → S → Exit (List Slot) × S → Type 0
  Ends slots s (returns slots', s') =
      IsMoved cloud a store family revision instance_type slots s slots' s' × All IsEnded slots'
  Ends slots s (fails e, s') = ⊥
  Ends slots s (panics message, s') =
      (slots' : List Slot) × IsMoved cloud a store family revision instance_type slots s slots' s'

  pub after_move :
      {slots m : List Slot} {s t : S} (r : Exit (List Slot) × S)
      → IsMoved cloud a store family revision instance_type slots s m t
      → Ends m t r
      → Ends slots s r
  after_move (returns n, u) p h =
      (IsMoved-trans cloud a store family revision instance_type p h.0, h.1)
  after_move (fails e, u) p h = absurd h
  after_move (panics message, u) p h =
      (h.0, IsMoved-trans cloud a store family revision instance_type p h.1)

  -- The first goroutine moves, then the code goes on.
  first-Ends :
      (slot : Slot) (slots : List Slot) (s : S) (r : Exit Slot × S) (k : Slot → Step S (List Slot))
      → All IsClean (slot ∷ slots)
      → Advanced cloud a store family revision instance_type slot s r
      → ((slot' : Slot) (t : S)
          → All IsClean (slot' ∷ slots)
          → remaining slot' ≤ remaining slot - 1
          → Ends (slot' ∷ slots) t (k slot' t))
      → Ends (slot ∷ slots) s (proceed r.0 k r.1)
  first-Ends slot slots s (returns slot', t) k c (h, c', less) q =
      after_move (k slot' t)
        (record { counted = λ x. omega (arith, h x); clean = (c', c.1); same_length = refl })
        (q slot' t (c', c.1) less)
  first-Ends slot slots s (fails e, t) k c h q = absurd h
  first-Ends slot slots s (panics message, t) k c h q =
      (slot ∷ slots, record { counted = λ x. omega (arith, h x); clean = c; same_length = refl })

  -- An ended goroutine keeps its place before the others.
  rest-Ends :
      (slot : Slot) (slots : List Slot) (s : S) (r : Exit (List Slot) × S)
      → IsClean slot
      → IsEnded slot
      → Ends slots s r
      → Ends (slot ∷ slots) s (proceed r.0 (λ rest t. (returns (slot ∷ rest), t)) r.1)
  rest-Ends slot slots s (returns rest, t) c ended (p, all_ended) = (
    record {
      counted = λ x. omega (arith, p.counted x);
      clean = (c, p.clean);
      same_length = ap suc p.same_length;
    },
    (ended, all_ended),
  )
  rest-Ends slot slots s (fails e, t) c ended h = absurd h
  rest-Ends slot slots s (panics message, t) c ended (rest, p) = (
    slot ∷ rest,
    record {
      counted = λ x. omega (arith, p.counted x);
      clean = (c, p.clean);
      same_length = ap suc p.same_length;
    },
  )

  pub finish_all-Ends :
      (slots : List Slot) (s : S)
      → All IsClean slots
      → Ends slots s (finish_all cloud a family revision instance_type slots s)
  unfolding finish_all
  finish_all-Ends [] s c = (record { counted = λ x. refl; clean = tt; same_length = refl }, tt)
  finish_all-Ends (slot ∷ slots) s c =
      first-Ends slot slots s _ _ c
        (advance-Advanced cloud a store family revision instance_type slot s c.0)
        (λ slot' t c' less.
          first-Ends slot' slots t _ _ c'
            (advance-Advanced cloud a store family revision instance_type slot' t c'.0)
            (λ slot'' u c'' fewer.
              rest-Ends slot'' slots u _ c''.0 (ended_of slot slot' slot'' less fewer)
                (finish_all-Ends slots u c''.1)))
    where
      ended_of :
          (l m n : Slot) → remaining m ≤ remaining l - 1 → remaining n ≤ remaining m - 1 → IsEnded n
      ended_of l m n less fewer = let bound = remaining-bound l in omega arith
