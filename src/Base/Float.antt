-- ===== src/Base/Float.antt =====
-- Go's float64, as its operations: the language of the proofs has no floats, so a definition that
-- uses them takes the operations as an argument, and a theorem names the laws that it needs.
use pixels_spike.Base.{◌≡◌, Bool}
use pixels_spike.Base.Int.{ℤ, pos, ◌<ℤ◌, ltb_ℤ, IsInt32}

pub record FloatOps (F : Type 0) : Type 0 where
  -- `float64(n)` for an integer `n`, and `int32(math.Round(x))`.
  pub of_int : ℤ → F
  pub round_int32 : F → ℤ
  pub add : F → F → F
  pub mul : F → F → F
  pub div : F → F → F
  pub lt : F → F → Bool
  -- The built-in `max`.
  pub maximum : F → F → F

-- Division of int32 values by the same positive one keeps their order: two different quotients
-- differ by more than the rounding of a float64.
pub record DivisionKeepsOrder {F : Type 0} (float : FloatOps F) : Type 0 where
  pub lt-div :
      (a b c : ℤ)
      → IsInt32 a
      → IsInt32 b
      → IsInt32 c
      → pos 0 <ℤ c
      → float.lt
          (float.div (float.of_int a) (float.of_int c))
          (float.div (float.of_int b) (float.of_int c))
        ≡ ltb_ℤ a b
