-- ===== src/AwsClient/Keeps.antt =====
-- pkg/funcmanager/awsclient.go: a batch of creations changes nothing but what its calls change.
use pixels_spike.Base.{
  ℕ, ◌≡◌, refl, ◌∙◌, List, [], ◌∷◌, Bool, true, false, Option, none, some, String, Result, ok, err,
  get_elem?, replicate,
}
use pixels_spike.Base.Exits.{Exit, returns, fails, panics, Step, proceed, ◌>>=◌}
use pixels_spike.Base.Int.{ℤ, pos, negsuc}
use pixels_spike.AwsClient.{
  AwsClient, Cloud, CreateServiceInput, Slot, starting, named, finished, gen_service_name,
  create_named, delete_instance, advance, advance_at, run_turns, finish_all, delete_failed, report,
  batch_create_instance, generated, created,
}
use pixels_spike.Constants.{InstanceType}

-- A view of the state that the calls leave alone.
pub record IsUntouched {S V : Type 0} (cloud : Cloud S) (view : S → V) : Type 0 where
  pub next_id : (s : S) → view (cloud.next_id s).1 ≡ view s
  pub create_service : (i : CreateServiceInput) (s : S) → view (cloud.create_service i s).1 ≡ view s
  pub delete_service : (c n : String) (s : S) → view (cloud.delete_service c n s).1 ≡ view s

-- A step leaves the view alone, whatever it returns.
pub record Keeps {S V A : Type 0} (view : S → V) (m : Step S A) : Type 0 where
  pub kept : (s : S) → view (m s).1 ≡ view s

module _ {S V : Type 0} {view : S → V} where
  proceed_kept :
      {A B : Type 0} (x : Exit A × S) (k : A → Step S B)
      → ((a : A) → Keeps view (k a))
      → view (proceed x.0 k x.1).1 ≡ view x.1
  proceed_kept (returns a, s) k h = (h a).kept s
  proceed_kept (fails e, s) k h = refl
  proceed_kept (panics message, s) k h = refl

  pub >>=-Keeps :
      {A B : Type 0} {m : Step S A} {k : A → Step S B}
      → Keeps view m
      → ((a : A) → Keeps view (k a))
      → Keeps view (m >>= k)
  >>=-Keeps {m} {k} h h' = record { kept = λ s. proceed_kept (m s) k h' ∙ h.kept s }

module _ {S V : Type 0} (cloud : Cloud S) (a : AwsClient) (view : S → V)
    (untouched : IsUntouched cloud view) (family : String) (revision : ℤ)
    (type : InstanceType) where
  gen_service_name-Keeps : Keeps view (gen_service_name cloud a family)
  unfolding gen_service_name
  gen_service_name-Keeps = record { kept = λ s. drawn (cloud.next_id s) ∙ untouched.next_id s }
    where
      drawn : (x : Result ℕ × S) → view (generated cloud a family x).1 ≡ view x.1
      drawn (ok id, t) = refl
      drawn (err e, t) = refl

  create_named-Keeps :
      (name : String) (s : S) → view (create_named cloud a family revision type name s).1 ≡ view s
  create_named-Keeps name s = after _ ∙ untouched.create_service _ s
    where
      after :
          (x : Result (Unit {0}) × S)
          → view (created cloud a family revision type name x).1 ≡ view x.1
      after (ok u, t) = refl
      after (err e, t) = refl

  advance-Keeps : (slot : Slot) → Keeps view (advance cloud a family revision type slot)
  unfolding advance
  advance-Keeps starting = >>=-Keeps gen_service_name-Keeps (λ name. record { kept = λ s. refl })
  advance-Keeps (named name) = record { kept = create_named-Keeps name }
  advance-Keeps (finished name e) = record { kept = λ s. refl }

  run_turns-Keeps :
      (turns : List ℕ) (slots : List Slot)
      → Keeps view (run_turns cloud a family revision type turns slots)
  unfolding run_turns
  run_turns-Keeps [] slots = record { kept = λ s. refl }
  run_turns-Keeps (i ∷ turns) slots = >>=-Keeps (turn (get_elem? slots i)) (run_turns-Keeps turns)
    where
      turn : (o : Option Slot) → Keeps view (advance_at cloud a family revision type slots i o)
      turn none = record { kept = λ s. refl }
      turn (some slot) = >>=-Keeps (advance-Keeps slot) (λ slot'. record { kept = λ s. refl })

  finish_all-Keeps :
      (slots : List Slot) → Keeps view (finish_all cloud a family revision type slots)
  unfolding finish_all
  finish_all-Keeps [] = record { kept = λ s. refl }
  finish_all-Keeps (slot ∷ slots) = >>=-Keeps (advance-Keeps slot) λ slot'.
      >>=-Keeps (advance-Keeps slot')
        λ slot''. >>=-Keeps (finish_all-Keeps slots) (λ rest. record { kept = λ s. refl })

  delete_failed-Keeps :
      (slots : List Slot) → Keeps view (delete_failed cloud a family revision type slots)
  unfolding delete_failed delete_instance
  delete_failed-Keeps [] = record { kept = λ s. refl }
  delete_failed-Keeps (finished name (some e) ∷ slots) = record {
    kept = λ s.
        (delete_failed-Keeps slots).kept (cloud.delete_service a.cluster name s).1
        ∙ untouched.delete_service a.cluster name s;
  }
  delete_failed-Keeps (finished name none ∷ slots) = delete_failed-Keeps slots
  delete_failed-Keeps (starting ∷ slots) = delete_failed-Keeps slots
  delete_failed-Keeps (named name ∷ slots) = delete_failed-Keeps slots

  report-Keeps :
      (b : Bool) (slots : List Slot) → Keeps view (report cloud a family revision type b slots)
  unfolding report
  report-Keeps true slots = >>=-Keeps (delete_failed-Keeps slots) (λ u. record { kept = λ s. refl })
  report-Keeps false slots = record { kept = λ s. refl }

  pub batch_create_instance-Keeps :
      (turns : List ℕ) (n : ℤ)
      → Keeps view (batch_create_instance cloud a family revision type turns n)
  unfolding batch_create_instance report
  batch_create_instance-Keeps turns (pos n) =
      >>=-Keeps (run_turns-Keeps turns (replicate n starting))
        λ slots. >>=-Keeps (finish_all-Keeps slots) (λ slots'. report-Keeps _ slots')
  batch_create_instance-Keeps turns (negsuc n) = record { kept = λ s. refl }
