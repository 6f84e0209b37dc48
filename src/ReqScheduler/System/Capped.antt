-- ===== src/ReqScheduler/System/Capped.antt =====
-- pkg/reqscheduler/reqscheduler.go: tables of instances and placements in which no instance is given
-- more than it has, and the changes that keep them so.
use mathlib.Core.List.{Permᴰ}
use mathlib.Core.List.Permᴰ
use pixels_spike.Base.{
  ◌≡◌, ◌≢◌, refl, sym, ap, subst, ◌∙◌, ◌⊎◌, inl, inr, List, ◌∷◌, select, Memᴰ, Bool, false, String,
  arith, Bool-cases,
}
use pixels_spike.Base.Int.{ℤ, pos, ◌≤ℤ◌}
use pixels_spike.Base.Keys.{◌==◌, lookup, string_keys}
use pixels_spike.Base.Perms.{All-perm, select-perm}
use pixels_spike.Model.{FuncInstance}
use pixels_spike.Scheduler.{ReqScheduleInfo}
use pixels_spike.Scheduler.Usage.{placed}
use pixels_spike.ReqScheduler.Handover.{for_function}
use pixels_spike.ReqScheduler.StatMaps.{placed-perm}
use pixels_spike.ReqScheduler.System.Fleet.{limit, IsSized}
use pixels_spike.ReqScheduler.System.Serve.{IsNamed}
use pixels_spike.ReqScheduler.System.Sums.{IsAdding, placed-select, select_comm, All-select}
use text.Mathlib.TextEquality.{eq_iff}

abbrev pub cpu : ReqScheduleInfo → ℤ
cpu v = v.required_cpu

abbrev pub memory : ReqScheduleInfo → ℤ
memory v = v.required_memory

-- The sum over the placements of a function on an instance.
abbrev pub sum : (ReqScheduleInfo → ℤ) → String → String → List ReqScheduleInfo → ℤ
sum field function_name name rs = placed field name (select (for_function function_name) rs)

-- What the placements of its function need of an instance is within its size.
pub record Fits (i : FuncInstance) (rs : List ReqScheduleInfo) : Type 0 where
  pub cpu_fits : sum cpu i.function_name i.aws_service_name rs ≤ℤ i.cpu
  pub memory_fits : sum memory i.function_name i.aws_service_name rs ≤ℤ i.memory

pub record IsCapped (ms : List FuncInstance) (rs : List ReqScheduleInfo) : Type 0 where
  pub named : IsNamed ms
  pub sized : IsSized ms
  pub adding_cpu : IsAdding cpu rs
  pub adding_memory : IsAdding memory rs
  pub bounded_cpu : (g name : String) → sum cpu g name rs ≤ℤ limit
  pub bounded_memory : (g name : String) → sum memory g name rs ≤ℤ limit
  pub fits : (i : FuncInstance) → Memᴰ i ms → Fits i rs

-- Placements that are taken away.
sum-select :
    (field : ReqScheduleInfo → ℤ) (g name : String) (p : ReqScheduleInfo → Bool)
    (rs : List ReqScheduleInfo) {rs' : List ReqScheduleInfo}
    → Permᴰ rs' (select p rs)
    → IsAdding field rs
    → sum field g name rs' ≤ℤ sum field g name rs
sum-select field g name p rs {rs'} removed adding =
    let for_g = for_function g in
    let same = placed-perm field name (select-perm for_g removed) in
    let swapped = ap (placed field name) (select_comm for_g p rs) in
    let less =
      placed-select field name p (select for_g rs)
        (All-select (λ v. pos 0 ≤ℤ field v) for_g rs adding) in
    subst (λ z. z ≤ℤ sum field g name rs) (sym (same ∙ swapped)) less

pub IsCapped-select :
    {ms : List FuncInstance} (p : ReqScheduleInfo → Bool) (rs : List ReqScheduleInfo)
    {rs' : List ReqScheduleInfo}
    → Permᴰ rs' (select p rs)
    → IsCapped ms rs
    → IsCapped ms rs'
IsCapped-select p rs removed h = record {
  named = h.named;
  sized = h.sized;
  adding_cpu = All-perm _ (Permᴰ.symm removed) (All-select _ p rs h.adding_cpu);
  adding_memory = All-perm _ (Permᴰ.symm removed) (All-select _ p rs h.adding_memory);
  bounded_cpu = λ g name.
      omega (arith, sum-select cpu g name p rs removed h.adding_cpu, h.bounded_cpu g name);
  bounded_memory = λ g name.
      omega (arith, sum-select memory g name p rs removed h.adding_memory, h.bounded_memory g name);
  fits = λ i k.
      let old = h.fits i k in
      record {
        cpu_fits = omega (
          arith,
          sum-select cpu i.function_name i.aws_service_name p rs removed h.adding_cpu,
          old,
        );
        memory_fits = omega (
          arith,
          sum-select memory i.function_name i.aws_service_name p rs removed h.adding_memory,
          old,
        );
      };
}

-- A placement of another function changes no sum.
for_other : (g : String) (v : ReqScheduleInfo) → v.function_name ≢ g → for_function g v ≡ false
unfolding lookup
for_other g v other = ground (arith, eq_iff v.function_name g)

-- One placement more, on the instance `i`, whose sums and those of the others are known.
module _ {ms : List FuncInstance} {rs rs' : List ReqScheduleInfo} (v : ReqScheduleInfo)
    (added : Permᴰ rs' (v ∷ rs)) (i : FuncInstance) (listed : Memᴰ i ms)
    (cpu_fits : sum cpu v.function_name i.aws_service_name rs' ≤ℤ i.cpu)
    (memory_fits : sum memory v.function_name i.aws_service_name rs' ≤ℤ i.memory)
    (others : (name : String)
      → name ≢ i.aws_service_name
      → (sum cpu v.function_name name rs' ≡ sum cpu v.function_name name rs)
        × (sum memory v.function_name name rs' ≡ sum memory v.function_name name rs)) where
  sum_elsewhere :
      (field : ReqScheduleInfo → ℤ) (g name : String)
      → v.function_name ≢ g
      → sum field g name rs' ≡ sum field g name rs
  sum_elsewhere field g name other =
      placed-perm field name (select-perm (for_function g) added) ∙ rw (for_other g v other) refl

  abbrev SameSums : String → String → Type 0
  SameSums g name =
      (sum cpu g name rs' ≡ sum cpu g name rs) × (sum memory g name rs' ≡ sum memory g name rs)

  -- The sums that change are those of the function on the instance.
  sums_cases :
      (g name : String) → SameSums g name ⊎ ((v.function_name ≡ g) × (name ≡ i.aws_service_name))
  sums_cases g name = elim (Bool-cases (v.function_name == g)) [
    | inr e ↦
        let other =
          λ (same : v.function_name ≡ g). absurd (cc ((eq_iff v.function_name g).1 same)) in
        inl (sum_elsewhere cpu g name other, sum_elsewhere memory g name other)
    | inl e ↦ elim (Bool-cases (name == i.aws_service_name)) [
      | inl e' ↦ inr ((eq_iff v.function_name g).0 e, (eq_iff name i.aws_service_name).0 e')
      | inr e' ↦
          let other = λ (same : name ≡ i.aws_service_name).
            absurd (cc ((eq_iff name i.aws_service_name).1 same)) in
          inl (subst (λ n. SameSums n name) ((eq_iff v.function_name g).0 e) (others name other))
    ]
  ]

  sum_here :
      (field : ReqScheduleInfo → ℤ) (g name : String)
      → v.function_name ≡ g
      → name ≡ i.aws_service_name
      → sum field v.function_name i.aws_service_name rs' ≤ℤ limit
      → sum field g name rs' ≤ℤ limit
  sum_here field g name e e' h =
      subst (λ n. sum field n name rs' ≤ℤ limit) e
        (subst (λ n. sum field v.function_name n rs' ≤ℤ limit) (sym e') h)

  fits_here : (j : FuncInstance) → v.function_name ≡ j.function_name → j ≡ i → Fits j rs'
  fits_here j e same = record {
    cpu_fits =
        subst (λ x. sum cpu j.function_name x.aws_service_name rs' ≤ℤ x.cpu) (sym same)
          (subst (λ n. sum cpu n i.aws_service_name rs' ≤ℤ i.cpu) e cpu_fits);
    memory_fits =
        subst (λ x. sum memory j.function_name x.aws_service_name rs' ≤ℤ x.memory) (sym same)
          (subst (λ n. sum memory n i.aws_service_name rs' ≤ℤ i.memory) e memory_fits);
  }

  pub IsCapped-add : pos 0 ≤ℤ cpu v → pos 0 ≤ℤ memory v → IsCapped ms rs → IsCapped ms rs'
  IsCapped-add cpu_adds memory_adds h = record {
    named = h.named;
    sized = h.sized;
    adding_cpu = All-perm _ (Permᴰ.symm added) (cpu_adds, h.adding_cpu);
    adding_memory = All-perm _ (Permᴰ.symm added) (memory_adds, h.adding_memory);
    bounded_cpu = λ g name. elim (sums_cases g name) [
      | inl same ↦ subst (λ z. z ≤ℤ limit) (sym same.0) (h.bounded_cpu g name)
      | inr (e, e') ↦ sum_here cpu g name e e' (omega (arith, (h.sized i listed).0, cpu_fits))
    ];
    bounded_memory = λ g name. elim (sums_cases g name) [
      | inl same ↦ subst (λ z. z ≤ℤ limit) (sym same.1) (h.bounded_memory g name)
      | inr (e, e') ↦ sum_here memory g name e e' (omega (arith, (h.sized i listed).1, memory_fits))
    ];
    fits = λ j k. elim (sums_cases j.function_name j.aws_service_name) [
      | inl same ↦
          let old = h.fits j k in
          record {
            cpu_fits = subst (λ z. z ≤ℤ j.cpu) (sym same.0) old.cpu_fits;
            memory_fits = subst (λ z. z ≤ℤ j.memory) (sym same.1) old.memory_fits;
          }
      | inr (e, e') ↦ fits_here j e (h.named j i k listed e')
    ];
  }
