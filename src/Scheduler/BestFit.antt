-- ===== src/Scheduler/BestFit.antt =====
-- pkg/reqscheduler/schedule.go: the instance that the base scheduler chooses.
use mathlib.Core.List.Memᴰ
use mathlib.Core.List.{map-map}
use pixels_spike.Base.{
  ◌≡◌, ◌&&◌, refl, sym, subst, ap, ◌∙◌, ◌⊎◌, inl, inr, ◌↔◌, Bool, true, false, List, map, All,
  All-mem, All_of_mem, Memᴰ, none, some, String, arith, Bool-cases,
}
use pixels_spike.Base.Float.{FloatOps, DivisionKeepsOrder}
use pixels_spike.Base.Int.{
  ℤ, pos, ◌+ℤ◌, ◌≤ℤ◌, ◌<ℤ◌, wrap32, add32, IsInt32, add32-wrap32, wrap32_of_int32, leb_ℤ,
  wrap32-IsInt32,
}
use pixels_spike.ReqQueue.{Request}
use pixels_spike.Scheduler.{
  InstanceStat, ReqScheduleInfo, StatMap, place, account, fits, first_fit, sort_slice, rate, less,
  rated, base_schedule,
}
use pixels_spike.Scheduler.FirstFit.{
  first_fit-none, first_fit-none_of, first_fit-fits, first_fit-some, IsLeastFit,
}
use pixels_spike.Scheduler.Ranking.{
  IsRated, less_used, less-less_used, less-IsWeakOrder, irreflexive,
}
use pixels_spike.Scheduler.Sorting.{All-sort_slice, mem-sort_slice, sort_slice-IsSorted}
use pixels_spike.Scheduler.Usage.{
  IsMap, IsFresh, placed_cpu, placed_memory, with_usage, entry_usage, account-with_usage,
}

module _ {F : Type 0} where
  -- An instance with a positive int32 capacity of CPU, as every task definition has.
  pub record IsSized (e : String × InstanceStat F) : Type 0 where
    pub positive : pos 0 <ℤ e.1.cpu
    pub int32 : IsInt32 e.1.cpu

  -- What is placed on the instance and the request together stay within its capacity.
  pub record CanHold (req : Request) (infos : List ReqScheduleInfo) (e : String × InstanceStat F)
      : Type 0 where
    pub cpu : placed_cpu e.0 infos +ℤ req.required_cpu ≤ℤ e.1.cpu
    pub memory : placed_memory e.0 infos +ℤ req.required_memory ≤ℤ e.1.memory

  -- `d` is preferred to `e`: less CPU, or as much and less memory, or the same size and more CPU
  -- in use.
  abbrev pub IsBefore :
      List ReqScheduleInfo → String × InstanceStat F → String × InstanceStat F → Type 0
  IsBefore infos d e =
      (d.1.cpu <ℤ e.1.cpu)
      ⊎ ((d.1.cpu ≡ e.1.cpu) × (d.1.memory <ℤ e.1.memory))
      ⊎ ((d.1.cpu ≡ e.1.cpu)
          × (d.1.memory ≡ e.1.memory)
          × (placed_cpu e.0 infos <ℤ placed_cpu d.0 infos))

-- No sum that the scheduler forms leaves the range of int32.
pub record NoOverflow (req : Request) (infos : List ReqScheduleInfo) : Type 0 where
  pub cpu : (name : String) → IsInt32 (placed_cpu name infos)
  pub cpu_total : (name : String) → IsInt32 (placed_cpu name infos +ℤ req.required_cpu)
  pub memory_total : (name : String) → IsInt32 (placed_memory name infos +ℤ req.required_memory)

module _ {F : Type 0} (float : FloatOps F) where
  -- The entry as the sort sees it.
  abbrev final : List ReqScheduleInfo → String × InstanceStat F → InstanceStat F
  final infos e = rate float (with_usage infos e)

  module _ (req : Request) (infos : List ReqScheduleInfo) (range : NoOverflow req infos) where
    final-IsRated : (e : String × InstanceStat F) → IsSized e → IsRated float (final infos e)
    final-IsRated e h = record {
      positive = h.positive;
      int32 = h.int32;
      used_int32 = wrap32-IsInt32 (placed_cpu e.0 infos);
      average = refl;
    }

    sum_in_range : (p r : ℤ) → IsInt32 (p +ℤ r) → add32 (wrap32 p) r ≡ p +ℤ r
    sum_in_range p r h = add32-wrap32 p r ∙ wrap32_of_int32 (p +ℤ r) h

    abbrev holds : String × InstanceStat F → Bool
    holds e =
        leb_ℤ (placed_cpu e.0 infos +ℤ req.required_cpu) e.1.cpu
        && leb_ℤ (placed_memory e.0 infos +ℤ req.required_memory) e.1.memory

    fits-holds : (e : String × InstanceStat F) → fits req (final infos e) ≡ holds e
    fits-holds e = rw (
      sum_in_range (placed_cpu e.0 infos) req.required_cpu (range.cpu_total e.0),
      sum_in_range (placed_memory e.0 infos) req.required_memory (range.memory_total e.0),
    )

    fits→CanHold :
        (e : String × InstanceStat F) → fits req (final infos e) ≡ true → CanHold req infos e
    fits→CanHold e h = let held : holds e ≡ true = sym (fits-holds e) ∙ h in ground arith

    CanHold→fits :
        (e : String × InstanceStat F) → CanHold req infos e → fits req (final infos e) ≡ true
    CanHold→fits e h = fits-holds e ∙ ground arith

    IsBefore→less :
        (d e : String × InstanceStat F)
        → IsBefore infos d e
        → less_used float (final infos d) (final infos e) ≡ true
    IsBefore→less d e h =
        rw
          (
            wrap32_of_int32 (placed_cpu d.0 infos) (range.cpu d.0),
            wrap32_of_int32 (placed_cpu e.0 infos) (range.cpu e.0),
          )
          (ground arith)

module _ {F : Type 0} (float : FloatOps F) (req : Request) (infos : List ReqScheduleInfo)
    (m : StatMap F) (keyed : IsMap m) (fresh : All IsFresh m) (range : NoOverflow req infos) where
  stats-final : rated float (account infos m) ≡ map (final float infos) m
  stats-final =
      ap (rated float) (account-with_usage infos m keyed fresh)
      ∙ map-map (λ e. rate float e.1) (entry_usage infos) m

  abbrev stats : List (InstanceStat F)
  stats = sort_slice (less float) (map (final float infos) m)

  base_schedule-stats : base_schedule float req infos m ≡ first_fit req stats
  unfolding base_schedule
  base_schedule-stats = ap (λ l. first_fit req (sort_slice (less float) l)) stats-final

  -- A sorted entry comes from an entry of the map.
  abbrev ComesFromMap : InstanceStat F → Type 0
  ComesFromMap s = (e : String × InstanceStat F) × Memᴰ e m × (s ≡ final float infos e)

  stats-ComesFromMap : All ComesFromMap stats
  stats-ComesFromMap = All-sort_slice ComesFromMap (less float) (map (final float infos) m) (
      All_of_mem ComesFromMap (map (final float infos) m)
        λ s k. let (e, listed, eq) = Memᴰ.of_map (final float infos) m k in (e, listed, sym eq))

  mem-stats : (e : String × InstanceStat F) → Memᴰ e m → Memᴰ (final float infos e) stats
  mem-stats e k = mem-sort_slice (less float) _ (Memᴰ.map (final float infos) k)

  -- Whatever the floats are, the chosen instance can hold the request.
  pub base_schedule-CanHold :
      (info : ReqScheduleInfo)
      → base_schedule float req infos m ≡ some info
      → (e : String × InstanceStat F) × Memᴰ e m × (info ≡ place req e.1) × CanHold req infos e
  base_schedule-CanHold info h =
      let (s, listed, able, placed) = first_fit-fits req stats info (sym base_schedule-stats ∙ h) in
      let (e, e_listed, eq) = All-mem ComesFromMap stats stats-ComesFromMap listed in
      (
        e,
        e_listed,
        subst (λ t. info ≡ place req t) eq placed,
        fits→CanHold float req infos range e (subst (λ t. fits req t ≡ true) eq able),
      )

  -- The base scheduler finds no instance exactly when no listed instance can hold the request
  -- beside what is already placed on it; the map has distinct keys, its entries start unused and
  -- no sum leaves int32.
  pub base_schedule-none :
      (base_schedule float req infos m ≡ none)
      ↔ ((e : String × InstanceStat F) → Memᴰ e m → ¬ CanHold req infos e)
  base_schedule-none = (
    λ h e k held.
        let refused =
          All-mem (λ s. fits req s ≡ false) stats
            (first_fit-none req stats (sym base_schedule-stats ∙ h)) (mem-stats e k) in
        let able = CanHold→fits float req infos range e held in cc,
    λ h.
        base_schedule-stats
        ∙ first_fit-none_of req stats (
            All_of_mem (λ s. fits req s ≡ false) stats
              λ s k.
                let (e, listed, eq) = All-mem ComesFromMap stats stats-ComesFromMap k in
                elim (Bool-cases (fits req s)) [
                  | inl able ↦
                      let able_e = subst (λ t. fits req t ≡ true) eq able in
                      absurd (h e listed (fits→CanHold float req infos range e able_e))
                  | inr unable ↦ unable
                ]),
  )

  module _ (law : DivisionKeepsOrder float) (sized : All IsSized m) where
    all-IsRated : All (IsRated float) (map (final float infos) m)
    all-IsRated = All_of_mem (IsRated float) (map (final float infos) m) λ s k.
        let (e, listed, eq) = Memᴰ.of_map (final float infos) m k in
        subst (IsRated float) eq
          (final-IsRated float req infos range e (All-mem IsSized m sized listed))

    not-IsBefore :
        {info : ReqScheduleInfo} (s : InstanceStat F) (e : String × InstanceStat F)
        → s ≡ final float infos e
        → IsLeastFit req (less float) stats info s
        → Memᴰ e m
        → (d : String × InstanceStat F) → Memᴰ d m
        → CanHold req infos d
        → ¬ IsBefore infos d e
    not-IsBefore s e eq fit e_listed d listed held before =
        let able = CanHold→fits float req infos range d held in
        let kept =
          All-mem (λ t. fits req t ≡ true → less float t s ≡ false) stats fit.least
            (mem-stats d listed) able in
        let kept_e : less float (final float infos d) (final float infos e) ≡ false =
          subst (λ t. less float (final float infos d) t ≡ false) eq kept in
        let ints =
          less-less_used float law (final float infos d) (final float infos e)
            (final-IsRated float req infos range d (All-mem IsSized m sized listed))
            (final-IsRated float req infos range e (All-mem IsSized m sized e_listed)) in
        let ahead = IsBefore→less float req infos range d e before in cc

    -- What the base scheduler chooses is an instance of the map that can hold the request beside
    -- what is already placed on it, and no other such instance is preferred to it: none has less
    -- CPU, or as much and less memory, or the same size and more CPU in use. The map has distinct
    -- keys, its entries start unused, the instances have a positive CPU, no sum leaves int32, and
    -- float division by the same integer keeps the order.
    pub base_schedule-best :
        (info : ReqScheduleInfo)
        → base_schedule float req infos m ≡ some info
        → (e : String × InstanceStat F) × Memᴰ e m
          × (info ≡ place req e.1)
          × CanHold req infos e
          × ((d : String × InstanceStat F) → Memᴰ d m → CanHold req infos d → ¬ IsBefore infos d e)
    base_schedule-best info h =
        let order = less-IsWeakOrder float law in
        let rated_stats =
          All-sort_slice (IsRated float) (less float) (map (final float infos) m) all-IsRated in
        let (s, fit) =
          first_fit-some req (less float) stats info (sym base_schedule-stats ∙ h)
            (sort_slice-IsSorted order (map (final float infos) m) all-IsRated)
            (All_of_mem (λ t. less float t t ≡ false) stats
              λ t k. irreflexive float law t (All-mem (IsRated float) stats rated_stats k)) in
        let (e, listed, eq) = All-mem ComesFromMap stats stats-ComesFromMap fit.listed in
        (
          e,
          listed,
          subst (λ t. info ≡ place req t) eq fit.placed,
          fits→CanHold float req infos range e (subst (λ t. fits req t ≡ true) eq fit.able),
          λ d d_listed held before. not-IsBefore s e eq fit listed d d_listed held before,
        )
