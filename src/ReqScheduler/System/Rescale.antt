-- ===== src/ReqScheduler/System/Rescale.antt =====
-- pkg/reqscheduler/reqscheduler.go: instances that come, go and grow while requests are placed.
use pixels_spike.Base.{◌≢◌, sym, subst, ◌⊎◌, inl, inr, List, select, All, Memᴰ, String, arith}
use pixels_spike.Base.Int.{ℤ, pos, ◌≤ℤ◌, IsInt32, ◌+ℤ◌, int_laws}
use pixels_spike.Base.Keys.{string_keys}
use pixels_spike.Model.{FuncInstance}
use pixels_spike.ReqQueue.{Request}
use pixels_spike.Scheduler.{ReqScheduleInfo}
use pixels_spike.Scheduler.BestFit.{NoOverflow}
use pixels_spike.ReqScheduler.Handover.{for_function}
use pixels_spike.ReqScheduler.System.Fleet.{limit, IsModest, IsSized, GrewFrom}
use pixels_spike.ReqScheduler.System.Serve.{IsNamed}
use pixels_spike.ReqScheduler.System.Sums.{IsAdding, placed-nonneg, placed_none, All-select}
use pixels_spike.ReqScheduler.System.Capped.{cpu, memory, sum, Fits, IsCapped}

-- The instances change, and the placements do not.
module _ {ms ms' : List FuncInstance} {rs : List ReqScheduleInfo} (h : IsCapped ms rs)
    (named' : IsNamed ms') (sized' : IsSized ms') where
  fits_grown : (i : FuncInstance) → GrewFrom i ms → Fits i rs
  fits_grown i (j, k, same, of_function, more_cpu, more_memory) =
      let old = h.fits j k in
      record {
        cpu_fits =
            subst (λ n. sum cpu i.function_name n rs ≤ℤ i.cpu) same
              (subst (λ g. sum cpu g j.aws_service_name rs ≤ℤ i.cpu) of_function
                (omega (arith, old, more_cpu)));
        memory_fits =
            subst (λ n. sum memory i.function_name n rs ≤ℤ i.memory) same
              (subst (λ g. sum memory g j.aws_service_name rs ≤ℤ i.memory) of_function
                (omega (arith, old, more_memory)));
      }

  fits_new :
      (i : FuncInstance)
      → Memᴰ i ms'
      → All (λ v. v.placed_aws_service_name ≢ i.aws_service_name) rs
      → Fits i rs
  fits_new i k none_placed =
      let none_for = All-select _ (for_function i.function_name) rs none_placed in
      record {
        cpu_fits =
            subst (λ z. z ≤ℤ i.cpu) (sym (placed_none cpu i.aws_service_name _ none_for))
              (sized' i k).0.0;
        memory_fits =
            subst (λ z. z ≤ℤ i.memory) (sym (placed_none memory i.aws_service_name _ none_for))
              (sized' i k).1.0;
      }

  pub IsCapped-machines :
      ((i : FuncInstance)
        → Memᴰ i ms'
        → GrewFrom i ms ⊎ All (λ v. v.placed_aws_service_name ≢ i.aws_service_name) rs)
      → IsCapped ms' rs
  IsCapped-machines from = record {
    named = named';
    sized = sized';
    adding_cpu = h.adding_cpu;
    adding_memory = h.adding_memory;
    bounded_cpu = h.bounded_cpu;
    bounded_memory = h.bounded_memory;
    fits = λ i k. elim (from i k) [
      | inl grew ↦ fits_grown i grew
      | inr none_placed ↦ fits_new i k none_placed
    ];
  }

IsInt32_of_bounds : (a : ℤ) → pos 0 ≤ℤ a → a ≤ℤ limit → IsInt32 a
IsInt32_of_bounds a low high = record { above = omega arith; below = omega arith }

IsInt32_of_sum : (a b : ℤ) → pos 0 ≤ℤ a → a ≤ℤ limit → IsModest b → IsInt32 (a +ℤ b)
IsInt32_of_sum a b low high modest = record { above = omega int_laws; below = omega int_laws }

-- No sum that the scheduler forms for a modest request leaves the range of int32.
pub IsCapped-NoOverflow :
    {ms : List FuncInstance} {rs : List ReqScheduleInfo} (req : Request)
    → IsCapped ms rs
    → IsModest req.required_cpu
    → IsModest req.required_memory
    → NoOverflow req (select (for_function req.function_name) rs)
IsCapped-NoOverflow {rs} req h modest_cpu modest_memory =
    let low = λ (field : ReqScheduleInfo → ℤ) (name : String) (adding : IsAdding field rs).
      placed-nonneg field name (select (for_function req.function_name) rs)
        (All-select (λ v. pos 0 ≤ℤ field v) (for_function req.function_name) rs adding) in
    record {
      cpu = λ name.
          IsInt32_of_bounds _ (low cpu name h.adding_cpu) (h.bounded_cpu req.function_name name);
      cpu_total = λ name.
          IsInt32_of_sum _ req.required_cpu (low cpu name h.adding_cpu)
            (h.bounded_cpu req.function_name name) modest_cpu;
      memory_total = λ name.
          IsInt32_of_sum _ req.required_memory (low memory name h.adding_memory)
            (h.bounded_memory req.function_name name) modest_memory;
    }
