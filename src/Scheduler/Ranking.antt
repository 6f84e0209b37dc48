-- ===== src/Scheduler/Ranking.antt =====
-- pkg/reqscheduler/schedule.go: the order in which the base scheduler prefers the
-- instances, with its floats gone.
use pixels_spike.Base.{
  ◌≡◌, sym, ◌∙◌, ◌⊎◌, inl, inr, Bool, true, false, not, arith, Bool-cases, if◌then◌else◌,
}
use pixels_spike.Base.Float.{FloatOps, DivisionKeepsOrder}
use pixels_spike.Base.Int.{ℤ, pos, ◌≤ℤ◌, ◌<ℤ◌, ltb_ℤ, eq_ℤ, eq_ℤ_iff, IsInt32}
use pixels_spike.Scheduler.{InstanceStat, less}
use pixels_spike.Scheduler.Sorting.{IsWeakOrder}

module _ {F : Type 0} (float : FloatOps F) where
  pub record IsRated (s : InstanceStat F) : Type 0 where
    pub positive : pos 0 <ℤ s.cpu
    pub int32 : IsInt32 s.cpu
    pub used_int32 : IsInt32 s.cpu_used
    pub average : s.avg_usage_rate ≡ float.div (float.of_int s.cpu_used) (float.of_int s.cpu)

  -- The comparison with its floats gone.
  abbrev pub less_used : InstanceStat F → InstanceStat F → Bool
  less_used a b =
      if not (eq_ℤ a.cpu b.cpu)
      then ltb_ℤ a.cpu b.cpu
      else if not (eq_ℤ a.memory b.memory)
      then ltb_ℤ a.memory b.memory
      else ltb_ℤ b.cpu_used a.cpu_used

  abbrev SameSize : ℤ → ℤ → Type 0
  SameSize x y = (x ≤ℤ y) × (y ≤ℤ x)

  abbrev NotLess : InstanceStat F → InstanceStat F → Type 0
  NotLess a b =
      (b.cpu <ℤ a.cpu)
      ⊎ (SameSize a.cpu b.cpu × (b.memory <ℤ a.memory))
      ⊎ (SameSize a.cpu b.cpu × SameSize a.memory b.memory × (a.cpu_used ≤ℤ b.cpu_used))

  false→NotLess : (a b : InstanceStat F) → less_used a b ≡ false → NotLess a b
  false→NotLess a b h = ground arith

  NotLess→false : (a b : InstanceStat F) → NotLess a b → less_used a b ≡ false
  NotLess→false a b h = ground arith

  NotLess-chain : (a b c : InstanceStat F) → NotLess a b → NotLess b c → NotLess a c
  NotLess-chain a b c h k = grind arith

  module _ (law : DivisionKeepsOrder float) where
    lt-rates :
        (a b : InstanceStat F)
        → IsRated a
        → IsRated b
        → a.cpu ≡ b.cpu
        → float.lt b.avg_usage_rate a.avg_usage_rate ≡ ltb_ℤ b.cpu_used a.cpu_used
    lt-rates a b ha hb e =
        rw (ha.average, hb.average, e)
          (law.lt-div b.cpu_used a.cpu_used b.cpu hb.used_int32 ha.used_int32 hb.int32 hb.positive)

    pub less-less_used :
        (a b : InstanceStat F) → IsRated a → IsRated b → less float a b ≡ less_used a b
    less-less_used a b ha hb = elim (Bool-cases (eq_ℤ a.cpu b.cpu)) [
      | inl e ↦ rw (e, lt-rates a b ha hb ((eq_ℤ_iff a.cpu b.cpu).0 e))
      | inr e ↦ rw e
    ]

    less_used-asymmetric : (a b : InstanceStat F) → less_used a b ≡ true → less_used b a ≡ false
    less_used-asymmetric a b h = ground arith

    less_used-chain :
        (a b c : InstanceStat F)
        → less_used a b ≡ false
        → less_used b c ≡ false
        → less_used a c ≡ false
    less_used-chain a b c h k =
        NotLess→false a c (NotLess-chain a b c (false→NotLess a b h) (false→NotLess b c k))

    pub less-IsWeakOrder : IsWeakOrder (less float) IsRated
    less-IsWeakOrder = record {
      asymmetric = λ a b ha hb h.
          less-less_used b a hb ha ∙ less_used-asymmetric a b (sym (less-less_used a b ha hb) ∙ h);
      chain = λ a b c ha hb hc h k.
          less-less_used a c ha hc
          ∙ less_used-chain a b c (sym (less-less_used a b ha hb) ∙ h)
              (sym (less-less_used b c hb hc) ∙ k);
    }

    pub irreflexive : (a : InstanceStat F) → IsRated a → less float a a ≡ false
    irreflexive a h = elim (Bool-cases (less float a a)) [
      | inl e ↦ less-IsWeakOrder.asymmetric a a h h e
      | inr e ↦ e
    ]
