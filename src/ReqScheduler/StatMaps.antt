-- ===== src/ReqScheduler/StatMaps.antt =====
-- pkg/reqscheduler/reqscheduler.go: the statistics map that `Schedule` builds, and the sums
-- over placements in any order.
use mathlib.Core.List.{Permᴰ}
use mathlib.Core.Path.{ap₂}
use pixels_spike.Base.{
  ◌≡◌, ◌≢◌, refl, sym, subst, ap, ◌∙◌, inl, inr, Bool, true, false, List, [], ◌∷◌, All, Memᴰ,
  String, Bool-cases, if◌then◌else◌,
}
use pixels_spike.Base.Perms.{All-perm}
use pixels_spike.Base.Float.{FloatOps}
use pixels_spike.Base.Int.{ℤ, ◌+ℤ◌, int_laws}
use pixels_spike.Base.Keys.{◌==◌, insert, string_keys}
use pixels_spike.Model.{FuncInstance}
use pixels_spike.Scheduler.{InstanceStat, ReqScheduleInfo, StatMap}
use pixels_spike.Scheduler.Usage.{IsMap, IsFresh, placed}
use pixels_spike.ReqScheduler.{fill_stats, instance_stat}
use text.Mathlib.TextEquality.{eq_iff}

module _ (field : ReqScheduleInfo → ℤ) (name : String) where
  abbrev charge_placed : ReqScheduleInfo → ℤ → ℤ
  charge_placed i z = if name == i.placed_aws_service_name then field i +ℤ z else z

  swap_sum :
      (t u : Bool) (x y z : ℤ)
      → (if t then x +ℤ (if u then y +ℤ z else z) else (if u then y +ℤ z else z))
        ≡ (if u then y +ℤ (if t then x +ℤ z else z) else (if t then x +ℤ z else z))
  swap_sum true true x y z = omega int_laws
  swap_sum true false x y z = refl
  swap_sum false true x y z = refl
  swap_sum false false x y z = refl

  -- The sums do not depend on the order of the placements.
  pub placed-perm :
      {xs ys : List ReqScheduleInfo} → Permᴰ xs ys → placed field name xs ≡ placed field name ys
  placed-perm Permᴰ.nil = refl
  placed-perm (Permᴰ.cons {b = b} {l₁ = xs} e p) =
      ap (λ x. charge_placed x (placed field name xs)) e ∙ ap (charge_placed b) (placed-perm p)
  placed-perm (Permᴰ.swap {a = a} {b = b} {l = l} e f) =
      swap_sum (name == a.placed_aws_service_name) (name == b.placed_aws_service_name) (field a)
        (field b) (placed field name l)
      ∙ ap₂ (λ x y. charge_placed x (charge_placed y (placed field name l))) f e
  placed-perm (Permᴰ.trans p q) = placed-perm p ∙ placed-perm q

module _ {F : Type 0} where
  pub IsMap-perm : {m n : StatMap F} → Permᴰ m n → IsMap m → IsMap n
  IsMap-perm Permᴰ.nil h = tt
  IsMap-perm (Permᴰ.cons {l₂ = n} e p) h =
      (subst (λ x. All (λ d. d.0 ≢ x.0) n) e (All-perm _ p h.0), IsMap-perm p h.1)
  IsMap-perm (Permᴰ.swap {l = l} e f) h = (
    (
      λ same. h.0.0 (ap (λ x. x.0) f ∙ sym same ∙ sym (ap (λ x. x.0) e)),
      subst (λ x. All (λ d. d.0 ≢ x.0) l) f h.1.0,
    ),
    (subst (λ x. All (λ d. d.0 ≢ x.0) l) e h.0.1, h.1.1),
  )
  IsMap-perm (Permᴰ.trans p q) h = IsMap-perm q (IsMap-perm p h)

  insert_ne :
      (j k : String) (v : InstanceStat F) (m : StatMap F)
      → k ≢ j
      → All (λ d. d.0 ≢ j) m
      → All (λ d. d.0 ≢ j) (insert k v m)
  unfolding insert
  insert_ne j k v [] other h = (other, tt)
  insert_ne j k v ((i, w) ∷ m) other h = elim (Bool-cases (i == k)) [
    | inl e ↦ rw e h
    | inr e ↦ rw e (h.0, insert_ne j k v m other h.1)
  ]

  insert-IsMap : (k : String) (v : InstanceStat F) (m : StatMap F) → IsMap m → IsMap (insert k v m)
  unfolding insert
  insert-IsMap k v [] h = (tt, tt)
  insert-IsMap k v ((i, w) ∷ m) h = elim (Bool-cases (i == k)) [
    | inl e ↦ rw e h
    | inr e ↦
        let other : k ≢ i = λ same. absurd (cc ((eq_iff i k).1 (sym same))) in
        rw e (insert_ne i k v m other h.0, insert-IsMap k v m h.1)
  ]

  module _ (float : FloatOps F) (instances : List FuncInstance) where
    -- An entry made from one of the instances.
    abbrev pub IsMadeFrom : String × InstanceStat F → Type 0
    IsMadeFrom e =
        (i : FuncInstance) × Memᴰ i instances × (e ≡ (i.aws_service_name, instance_stat float i))

    insert-All :
        (i : FuncInstance) (m : StatMap F)
        → Memᴰ i instances
        → All IsMadeFrom m
        → All IsMadeFrom (insert i.aws_service_name (instance_stat float i) m)
    unfolding insert
    insert-All i [] k h = ((i, k, refl), tt)
    insert-All i ((j, w) ∷ m) k h = elim (Bool-cases (j == i.aws_service_name)) [
      | inl e ↦
          let same = (eq_iff j i.aws_service_name).0 e in
          rw e ((i, k, λ n. (same n, instance_stat float i)), h.1)
      | inr e ↦ rw e (h.0, insert-All i m k h.1)
    ]

    pub fill_stats-All :
        (rest : List FuncInstance) (m : StatMap F)
        → All (λ i. Memᴰ i instances) rest
        → All IsMadeFrom m
        → IsMap m
        → All IsMadeFrom (fill_stats float rest m) × IsMap (fill_stats float rest m)
    unfolding fill_stats
    fill_stats-All [] m k h keyed = (h, keyed)
    fill_stats-All (i ∷ rest) m k h keyed =
        fill_stats-All rest (insert i.aws_service_name (instance_stat float i) m) k.1
          (insert-All i m k.0 h) (insert-IsMap i.aws_service_name (instance_stat float i) m keyed)

    pub made-IsFresh : (m : StatMap F) → All IsMadeFrom m → All IsFresh m
    made-IsFresh [] h = tt
    made-IsFresh (e ∷ m) ((i, k, eq), h) = (
      record {
        named = ap (λ x. x.1.aws_service_name) eq ∙ sym (ap (λ x. x.0) eq);
        no_cpu = ap (λ x. x.1.cpu_used) eq;
        no_memory = ap (λ x. x.1.memory_used) eq;
      },
      made-IsFresh m h,
    )
