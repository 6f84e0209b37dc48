-- ===== src/FuncManager/Scaling/Bounds.antt =====
-- pkg/funcmanager/funcmanager.go: the count that `ScaleFunction` aims at, and which instances it
-- takes down.
use pixels_spike.Base.{
  ℕ, zero, suc, ◌≡◌, refl, ap, ◌∙◌, inl, inr, List, [], ◌∷◌, Bool, true, false, String, arith,
  Bool-cases, map, take, select, if◌then◌else◌,
}
use mathlib.Core.Path.{ap₂}
use pixels_spike.Base.Int.{
  ℤ, pos, negsuc, ◌+ℤ◌, ◌-ℤ◌, ◌≤ℤ◌, ◌<ℤ◌, add32, wrap32, ltb_ℤ, leb_ℤ, min_ℤ, max_ℤ, IsInt32,
  max_int32, add32_of_int32, sub32_of_int32, int_laws, +ℤ_parts, eq_of_parts,
}
use pixels_spike.AwsClient.{Cloud}
use pixels_spike.FuncManager.{FuncManager, same_type}
use pixels_spike.FuncManager.Scaling.{Replicas, real_scale_cnt, delete_cold}
use pixels_spike.Model.{FuncInstance}
use pixels_spike.Storage.{Gorm, delete_func_instance_service_name}

-- No sum that the clamping forms leaves the range of int32.
pub record NoWrap (scale_cnt current : ℤ) (replicas : Replicas) : Type 0 where
  pub total : IsInt32 (current +ℤ scale_cnt)
  pub up : IsInt32 (replicas.0 -ℤ current)
  pub down : IsInt32 (replicas.1 -ℤ current)

-- The count after the request: the maximum limits a growth, the minimum a reduction.
abbrev pub target : ℤ → ℤ → Replicas → ℤ
target scale_cnt current replicas =
    if ltb_ℤ (pos 0) scale_cnt
    then min_ℤ (current +ℤ scale_cnt) replicas.0
    else if ltb_ℤ scale_cnt (pos 0)
    then max_ℤ (current +ℤ scale_cnt) replicas.1
    else current

+ℤ_-ℤ : (a b : ℤ) → a +ℤ (b -ℤ a) ≡ b
+ℤ_-ℤ a b = omega int_laws

-- The count that `ScaleFunction` aims at is the current one and the request, but no more than the
-- maximum if it grows and no less than the minimum if it shrinks, as long as no sum leaves int32.
pub real_scale_cnt-target :
    (scale_cnt current : ℤ) (replicas : Replicas)
    → NoWrap scale_cnt current replicas
    → current +ℤ real_scale_cnt scale_cnt current replicas ≡ target scale_cnt current replicas
unfolding real_scale_cnt
real_scale_cnt-target scale_cnt current replicas range =
    rw
      (
        add32_of_int32 current scale_cnt range.total,
        sub32_of_int32 replicas.0 current range.up,
        sub32_of_int32 replicas.1 current range.down,
      )
      (ground (
        arith,
        +ℤ_-ℤ current replicas.0,
        +ℤ_-ℤ current replicas.1,
        +ℤ_parts current scale_cnt,
        eq_of_parts (current +ℤ scale_cnt) current,
      ))

add32-above : (a b : ℤ) → IsInt32 a → IsInt32 b → max_int32 <ℤ a +ℤ b → add32 a b <ℤ pos 0
unfolding add32 wrap32 ◌+ℤ◌
add32-above a b ha hb h = ground arith

-- A growth that is so large that its sum with the current count leaves int32 is not limited at
-- all: the count that is aimed at is the whole request, whatever the maximum, as long as that is
-- not negative.
pub real_scale_cnt-above_int32 :
    (scale_cnt current : ℤ) (replicas : Replicas)
    → pos 0 <ℤ scale_cnt
    → IsInt32 scale_cnt
    → IsInt32 current
    → pos 0 ≤ℤ replicas.0
    → max_int32 <ℤ current +ℤ scale_cnt
    → real_scale_cnt scale_cnt current replicas ≡ scale_cnt
unfolding real_scale_cnt
real_scale_cnt-above_int32 scale_cnt current replicas up scale_int32 current_int32 limit above =
    let wrapped = add32-above current scale_cnt current_int32 scale_int32 above in ground arith

-- The number -k.
abbrev pub minus : ℕ → ℤ
minus zero = pos 0
minus (suc n) = negsuc n

negative : (n : ℕ) → leb_ℤ (pos 0) (negsuc n) ≡ false
negative n = ground arith

minus-IsInt32 : (n : ℕ) → IsInt32 (negsuc n) → IsInt32 (minus n)
minus-IsInt32 zero h = record { above = omega arith; below = omega arith }
minus-IsInt32 (suc n) h = record { above = omega arith; below = omega arith }

add32_one : (n : ℕ) → IsInt32 (negsuc n) → add32 (negsuc n) (pos 1) ≡ minus n
unfolding add32 wrap32 ◌+ℤ◌
add32_one zero h = refl
add32_one (suc n) h = ground arith

module _ {S : Type 0} (db : Gorm S) (f : FuncManager) where
  abbrev pub is_cold : FuncInstance → Bool
  is_cold i = same_type i.launch_type f.cold_resource_pool

  abbrev pub first_cold : ℕ → List FuncInstance → List String
  first_cold k instances = map (λ i. i.aws_service_name) (take k (select is_cold instances))

  -- The rows of services are deleted one after the other.
  abbrev pub delete_rows : List String → S → S
  delete_rows [] s = s
  delete_rows (name ∷ names) s = delete_rows names (delete_func_instance_service_name db name s).1

  module _ (cloud : Cloud S) where
    delete_cold-cons :
        (i : FuncInstance) (l : List FuncInstance) (n : ℕ) (s : S)
        → is_cold i ≡ true
        → delete_cold db cloud f (i ∷ l) (negsuc n) s ≡ (
            let s' = (delete_func_instance_service_name db i.aws_service_name s).1 in
            let r = delete_cold db cloud f l (add32 (negsuc n) (pos 1)) s' in
            (i.aws_service_name ∷ r.0, r.1))
    unfolding delete_cold
    delete_cold-cons i l n s cold = ground arith

    delete_cold-skip :
        (i : FuncInstance) (l : List FuncInstance) (n : ℕ) (s : S)
        → is_cold i ≡ false
        → delete_cold db cloud f (i ∷ l) (negsuc n) s ≡ delete_cold db cloud f l (negsuc n) s
    unfolding delete_cold
    delete_cold-skip i l n s hot = ground arith

    -- The loop over the instances takes down the first cold ones, as many as the count says, or
    -- all of them if they are fewer, and never a hot one: it deletes exactly their rows.
    pub delete_cold-first_cold :
        (l : List FuncInstance) (k : ℕ) (s : S)
        → IsInt32 (minus k)
        → delete_cold db cloud f l (minus k) s ≡ (first_cold k l, delete_rows (first_cold k l) s)
    unfolding delete_cold
    delete_cold-first_cold [] zero s h = refl
    delete_cold-first_cold [] (suc n) s h = refl
    delete_cold-first_cold (i ∷ l) zero s h = refl
    delete_cold-first_cold (i ∷ l) (suc n) s h = elim (Bool-cases (is_cold i)) [
      | inr hot ↦ delete_cold-skip i l n s hot ∙ delete_cold-first_cold l (suc n) s h ∙ rw hot
      | inl cold ↦
          let s' = (delete_func_instance_service_name db i.aws_service_name s).1 in
          let rest = delete_cold-first_cold l n s' (minus-IsInt32 n h) in
          delete_cold-cons i l n s cold
          ∙ rw (cold, add32_one n h)
              (ap₂ (λ names t. (i.aws_service_name ∷ names, t)) (ap (λ r. r.0) rest)
                (ap (λ r. r.1) rest))
    ]
