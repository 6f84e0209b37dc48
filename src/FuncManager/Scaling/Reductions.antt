-- ===== src/FuncManager/Scaling/Reductions.antt =====
-- pkg/funcmanager/funcmanager.go: `ScaleFunction` with a count below zero, from the request to the
-- rows that are left.
use pixels_spike.Base.{
  ℕ, zero, suc, ◌≡◌, ◌≢◌, refl, sym, ap, ◌∙◌, subst, List, [], ◌∷◌, Bool, true, false, ok, arith,
  length, if◌then◌else◌,
}
use pixels_spike.Base.Exits.{returns}
use pixels_spike.Base.Int.{
  ℤ, pos, negsuc, neg_part, add32, sub32, wrap32-IsInt32, ◌+ℤ◌, ◌-ℤ◌, ◌≤ℤ◌, ◌<ℤ◌, ltb_ℤ, eq_ℤ,
  max_ℤ, IsInt32, wrap32_of_int32, +ℤ_parts,
}
use pixels_spike.AwsClient.{Cloud}
use pixels_spike.FuncManager.{FuncManager}
use pixels_spike.FuncManager.Scaling.{
  Replicas, ScaleFunctionRequest, real_scale_cnt, replicas_of, change_by, scale_replicas, shrink,
  scale_function,
}
use pixels_spike.FuncManager.Scaling.Bounds.{
  NoWrap, target, real_scale_cnt-target, minus, first_cold, delete_rows, delete_cold-first_cold,
}
use pixels_spike.Model.{FuncInstance, FuncMetaData, AwsTaskDef}
use pixels_spike.Storage.{
  Gorm, Condition, text, int32, get_func_meta_data_by_function_name, get_func_instance_by_condition,
  get_aws_task_def_by_func_cpu_men_img,
}

IsInt32-if : (b : Bool) (x y : ℤ) → IsInt32 x → IsInt32 y → IsInt32 (if b then x else y)
IsInt32-if true x y h k = h
IsInt32-if false x y h k = k

real_scale_cnt-IsInt32 :
    (scale_cnt current : ℤ) (replicas : Replicas)
    → IsInt32 scale_cnt
    → IsInt32 (real_scale_cnt scale_cnt current replicas)
unfolding real_scale_cnt sub32
real_scale_cnt-IsInt32 scale_cnt current replicas h =
    IsInt32-if (ltb_ℤ (pos 0) scale_cnt) _ _
      (IsInt32-if (ltb_ℤ replicas.0 (add32 current scale_cnt)) _ _
        (wrap32-IsInt32 (replicas.0 -ℤ current)) h)
      (IsInt32-if (ltb_ℤ scale_cnt (pos 0)) _ _
        (IsInt32-if (ltb_ℤ (add32 current scale_cnt) replicas.1) _ _
          (wrap32-IsInt32 (replicas.1 -ℤ current)) h)
        h)

-- A request below zero aims at the count that it leaves, but no less than the minimum.
target_down :
    (scale_cnt current : ℤ) (replicas : Replicas)
    → scale_cnt <ℤ pos 0
    → target scale_cnt current replicas ≡ max_ℤ (current +ℤ scale_cnt) replicas.1
target_down scale_cnt current replicas down = ground arith

target-between :
    (scale_cnt current : ℤ) (replicas : Replicas)
    → scale_cnt <ℤ pos 0
    → replicas.1 ≤ℤ current
    → (target scale_cnt current replicas ≤ℤ current)
      × (replicas.1 ≤ℤ target scale_cnt current replicas)
target-between scale_cnt current replicas down enough =
    (ground (arith, +ℤ_parts current scale_cnt), ground (arith, +ℤ_parts current scale_cnt))

nonpositive : (c z : ℤ) → c +ℤ z ≤ℤ c → z ≤ℤ pos 0
nonpositive c z h = ground (arith, +ℤ_parts c z)

minus_of_nonpositive : (z : ℤ) → z ≤ℤ pos 0 → z ≡ minus (neg_part z)
minus_of_nonpositive (pos zero) h = refl
minus_of_nonpositive (pos (suc n)) h = absurd (omega arith)
minus_of_nonpositive (negsuc n) h = refl

negative_test : (n : ℕ) → (ltb_ℤ (pos 0) (negsuc n) ≡ false) × (ltb_ℤ (negsuc n) (pos 0) ≡ true)
negative_test n = (ground arith, ground arith)

module _ {S : Type 0} (db : Gorm S) (cloud : Cloud S) (f : FuncManager) where
  abbrev size_condition : ScaleFunctionRequest → Condition
  size_condition req =
      ("function_name", text req.function_name)
      ∷ ("cpu", int32 req.cpu)
      ∷ ("memory", int32 req.memory)
      ∷ []

  -- What the three queries of the request return, one after the other.
  pub record Reads (req : ScaleFunctionRequest) (s : S) : Type 0 where
    pub meta_data : FuncMetaData
    pub current : List FuncInstance
    pub task_def : AwsTaskDef
    pub after_meta_data : S
    pub after_current : S
    pub after_all : S
    pub read_meta_data :
        get_func_meta_data_by_function_name db req.function_name s ≡ (ok meta_data, after_meta_data)
    pub read_current :
        get_func_instance_by_condition db (size_condition req) after_meta_data
        ≡ (ok current, after_current)
    pub read_task_def :
        get_aws_task_def_by_func_cpu_men_img db req.function_name req.cpu req.memory
          meta_data.image_url after_current
        ≡ (ok task_def, after_all)

  module _ (turns : List ℕ) (req : ScaleFunctionRequest) (s : S) (reads : Reads req s) where
    abbrev pub replicas : Replicas
    replicas = replicas_of req.cpu req.memory reads.meta_data.res_spec_list

    pub scale_function-checked :
        scale_function db cloud f turns req s
        ≡ scale_replicas db cloud f turns req reads.current reads.task_def replicas reads.after_all
    unfolding scale_function
    scale_function-checked = rw (reads.read_meta_data, reads.read_current, reads.read_task_def)

    abbrev count : ℕ
    count = length reads.current

    abbrev real : ℤ
    real = real_scale_cnt req.scale_cnt (pos count) replicas

    change_by-minus :
        (k : ℕ) (t : S)
        → IsInt32 (minus k)
        → change_by db cloud f
            (ltb_ℤ (pos 0) (minus k))
            (ltb_ℤ (minus k) (pos 0))
            turns
            req
            reads.current
            reads.task_def
            (minus k)
            t
          ≡ (
            returns (first_cold db f k reads.current),
            delete_rows db f (first_cold db f k reads.current) t,
          )
    unfolding shrink
    change_by-minus zero t h = refl
    change_by-minus (suc n) t h =
        let (not_up, down) = negative_test n in
        rw (not_up, down)
          (ap (λ r. (returns r.0, r.1))
            (delete_cold-first_cold db f cloud reads.current (suc n) t h))

    module _ (declared : replicas.0 ≢ negsuc 0) (down : req.scale_cnt <ℤ pos 0)
        (scale_int32 : IsInt32 req.scale_cnt) (count_int32 : IsInt32 (pos count))
        (range : NoWrap req.scale_cnt (pos count) replicas) (enough : replicas.1 ≤ℤ pos count) where
      real_bounds :
          (real ≡ minus (neg_part real))
          × (pos count +ℤ real ≡ max_ℤ (pos count +ℤ req.scale_cnt) replicas.1)
      real_bounds =
          let same = real_scale_cnt-target req.scale_cnt (pos count) replicas range in
          let (below, above) = target-between req.scale_cnt (pos count) replicas down enough in
          (
            minus_of_nonpositive real
                (nonpositive (pos count) real (subst (λ z. z ≤ℤ pos count) (sym same) below)),
            same ∙ target_down req.scale_cnt (pos count) replicas down,
          )

      -- A request to shrink a function leaves exactly the instances that it asks for, but no fewer
      -- than the minimum, if enough instances of the size are of the cold pool: it takes down the
      -- first `k` of these, or all if they are fewer, where the count less `k` is the count and the
      -- request, or the minimum if that is more. An instance that has not the launch type of the cold
      -- pool stays. It deletes exactly the rows of those it takes down and returns their names for
      -- the deletion of their services. There are as many instances as the minimum, the queries
      -- succeed, the size is declared with a maximum, and no sum leaves int32.
      pub scale_function-first_cold :
          (k : ℕ) × (scale_function db cloud f turns req s ≡ (
            returns (first_cold db f k reads.current),
            delete_rows db f (first_cold db f k reads.current) reads.after_all,
          ))
          × (pos count +ℤ minus k ≡ max_ℤ (pos count +ℤ req.scale_cnt) replicas.1)
      unfolding scale_replicas real_scale_cnt
      scale_function-first_cold =
          let (is_minus, above) = real_bounds in
          let in_range = real_scale_cnt-IsInt32 req.scale_cnt (pos count) replicas scale_int32 in
          let declared_test : eq_ℤ replicas.0 (negsuc 0) ≡ false = ground arith in
          (
            neg_part real,
            scale_function-checked
                ∙ rw (declared_test, wrap32_of_int32 (pos count) count_int32)
                    (subst
                      (λ z.
                        change_by db cloud f (ltb_ℤ (pos 0) z) (ltb_ℤ z (pos 0)) turns req
                          reads.current reads.task_def z reads.after_all
                        ≡ (
                          returns (first_cold db f (neg_part real) reads.current),
                          delete_rows db f (first_cold db f (neg_part real) reads.current)
                              reads.after_all,
                        ))
                      (sym is_minus)
                      (change_by-minus (neg_part real) reads.after_all
                        (subst IsInt32 is_minus in_range))),
            subst (λ z. pos count +ℤ z ≡ max_ℤ (pos count +ℤ req.scale_cnt) replicas.1) is_minus
                above,
          )
