-- ===== src/ReqScheduler/System/Sums.antt =====
-- pkg/reqscheduler/reqscheduler.go: sums over the placements of one function on one instance.
use pixels_spike.Base.{
  ◌≡◌, ◌≢◌, refl, sym, ap, inl, inr, List, [], ◌∷◌, select, All, Bool, String, arith, Bool-cases,
}
use pixels_spike.Base.Int.{ℤ, pos, ◌≤ℤ◌, int_laws}
use pixels_spike.Base.Keys.{◌==◌, string_keys}
use pixels_spike.Scheduler.{ReqScheduleInfo}
use pixels_spike.Scheduler.Usage.{placed}
use text.Mathlib.TextEquality.{eq_iff}

-- The placements take nothing away.
abbrev pub IsAdding : (ReqScheduleInfo → ℤ) → List ReqScheduleInfo → Type 0
IsAdding field infos = All (λ v. pos 0 ≤ℤ field v) infos

module _ (field : ReqScheduleInfo → ℤ) (name : String) where
  pub placed-nonneg : (l : List ReqScheduleInfo) → IsAdding field l → pos 0 ≤ℤ placed field name l
  placed-nonneg [] h = omega arith
  placed-nonneg (v ∷ l) h = elim (Bool-cases (name == v.placed_aws_service_name)) [
    | inl e ↦ rw e (omega (int_laws, placed-nonneg l h.1, h.0))
    | inr e ↦ rw e (placed-nonneg l h.1)
  ]

  pub placed-select :
      (p : ReqScheduleInfo → Bool) (l : List ReqScheduleInfo)
      → IsAdding field l
      → placed field name (select p l) ≤ℤ placed field name l
  placed-select p [] h = omega arith
  placed-select p (v ∷ l) h =
      let less = placed-select p l h.1 in
      elim (Bool-cases (p v)) [
        | inl e ↦ elim (Bool-cases (name == v.placed_aws_service_name)) [
          | inl e' ↦ rw (e, e') (omega (int_laws, less))
          | inr e' ↦ rw (e, e') less
        ]
        | inr e ↦ elim (Bool-cases (name == v.placed_aws_service_name)) [
          | inl e' ↦ rw (e, e') (omega (int_laws, less, h.0))
          | inr e' ↦ rw (e, e') less
        ]
      ]

  pub placed_none :
      (l : List ReqScheduleInfo)
      → All (λ v. v.placed_aws_service_name ≢ name) l
      → placed field name l ≡ pos 0
  placed_none [] h = refl
  placed_none (v ∷ l) h = elim (Bool-cases (name == v.placed_aws_service_name)) [
    | inl e ↦ absurd (h.0 (sym ((eq_iff name v.placed_aws_service_name).0 e)))
    | inr e ↦ rw e (placed_none l h.1)
  ]

module _ {A : Type 0} where
  pub select_comm : (p q : A → Bool) (l : List A) → select p (select q l) ≡ select q (select p l)
  select_comm p q [] = refl
  select_comm p q (x ∷ l) = elim (Bool-cases (p x)) [
    | inl e ↦ elim (Bool-cases (q x)) [
      | inl e' ↦ rw (e, e', e) (ap (λ l. x ∷ l) (select_comm p q l))
      | inr e' ↦ rw (e, e') (select_comm p q l)
    ]
    | inr e ↦ elim (Bool-cases (q x)) [
      | inl e' ↦ rw (e, e', e) (select_comm p q l)
      | inr e' ↦ rw (e, e') (select_comm p q l)
    ]
  ]

  pub All-select : (P : A → Type 0) (p : A → Bool) (l : List A) → All P l → All P (select p l)
  All-select P p [] h = tt
  All-select P p (x ∷ l) h = elim (Bool-cases (p x)) [
    | inl e ↦ rw e (h.0, All-select P p l h.1)
    | inr e ↦ rw e (All-select P p l h.1)
  ]
