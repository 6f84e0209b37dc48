-- ===== src/Scheduler/Usage.antt =====
-- pkg/reqscheduler/schedule.go: what the base scheduler charges to each instance.
use mathlib.Core.List.{map-map}
use mathlib.Core.Path.{ap₂}
use pixels_spike.Base.{
  ◌≡◌, ◌≢◌, refl, sym, subst, ap, ◌∙◌, inl, inr, List, [], ◌∷◌, map, All, String, arith, Bool-cases,
  if◌then◌else◌,
}
use pixels_spike.Base.Int.{ℤ, pos, ◌+ℤ◌, wrap32, add32-wrap32, +ℤ_zero, +ℤ_assoc, zero-+ℤ}
use pixels_spike.Base.Keys.{◌==◌, update, string_keys}
use pixels_spike.Scheduler.{InstanceStat, ReqScheduleInfo, StatMap, use_resources, account}
use text.Mathlib.TextEquality.{eq_iff}

-- No key stands twice.
abbrev pub IsMap : {F : Type 0} → StatMap F → Type 0
IsMap [] = Unit
IsMap (e ∷ m) = All (λ d. d.0 ≢ e.0) m × IsMap m

-- The true sum of a field over the requests placed on an instance.
abbrev pub placed : (ReqScheduleInfo → ℤ) → String → List ReqScheduleInfo → ℤ
placed field name [] = pos 0
placed field name (i ∷ is) =
    if name == i.placed_aws_service_name
    then field i +ℤ placed field name is
    else placed field name is

abbrev pub placed_cpu : String → List ReqScheduleInfo → ℤ
placed_cpu = placed (λ i. i.required_cpu)

abbrev pub placed_memory : String → List ReqScheduleInfo → ℤ
placed_memory = placed (λ i. i.required_memory)

module _ {F : Type 0} where
  -- An instance with the sums charged to it, wrapped around to 32 bits.
  abbrev pub with_usage : List ReqScheduleInfo → String × InstanceStat F → InstanceStat F
  with_usage infos e = record e.1 {
    cpu_used = wrap32 (placed_cpu e.0 infos);
    memory_used = wrap32 (placed_memory e.0 infos);
  }

  abbrev change :
      String → (InstanceStat F → InstanceStat F) → String × InstanceStat F → String × InstanceStat F
  change k f e = (e.0, if e.0 == k then f e.1 else e.1)

  abbrev pub entry_usage : List ReqScheduleInfo → String × InstanceStat F → String × InstanceStat F
  entry_usage infos e = (e.0, with_usage infos e)

  change_absent :
      (k : String) (f : InstanceStat F → InstanceStat F) (m : StatMap F)
      → All (λ d. d.0 ≢ k) m
      → map (change k f) m ≡ m
  change_absent k f [] h = refl
  change_absent k f ((j, v) ∷ m) h = ground (arith, eq_iff j k, change_absent k f m h.1)

  update-change :
      (k : String) (f : InstanceStat F → InstanceStat F) (m : StatMap F)
      → IsMap m
      → update k f m ≡ map (change k f) m
  unfolding update
  update-change k f [] h = refl
  update-change k f ((j, v) ∷ m) h = elim (Bool-cases (j == k)) [
    | inl e ↦
        let absent = subst (λ x. All (λ d. d.0 ≢ x) m) ((eq_iff j k).0 e) h.0 in
        rw e (ap (◌∷◌ (j, f v)) (sym (change_absent k f m absent)))
    | inr e ↦ rw e (ap (◌∷◌ (j, v)) (update-change k f m h.1))
  ]

  change-All :
      (j k : String) (f : InstanceStat F → InstanceStat F) (m : StatMap F)
      → All (λ d. d.0 ≢ j) m
      → All (λ d. d.0 ≢ j) (map (change k f) m)
  change-All j k f [] h = tt
  change-All j k f (e ∷ m) h = (h.0, change-All j k f m h.1)

  change-IsMap :
      (k : String) (f : InstanceStat F → InstanceStat F) (m : StatMap F)
      → IsMap m
      → IsMap (map (change k f) m)
  change-IsMap k f [] h = tt
  change-IsMap k f (e ∷ m) h = (change-All e.0 k f m h.0, change-IsMap k f m h.1)

  -- One instance, charged with the placed requests one after the other.
  used : List ReqScheduleInfo → String × InstanceStat F → InstanceStat F
  used [] e = e.1
  used (i ∷ is) e = used is (change i.placed_aws_service_name (use_resources i) e)

  abbrev entry_used : List ReqScheduleInfo → String × InstanceStat F → String × InstanceStat F
  entry_used infos e = (e.0, used infos e)

  map_self : (m : StatMap F) → m ≡ map (λ e. (e.0, e.1)) m
  map_self [] = refl
  map_self (e ∷ m) = ap (◌∷◌ e) (map_self m)

  account-used :
      (infos : List ReqScheduleInfo) (m : StatMap F)
      → IsMap m
      → account infos m ≡ map (entry_used infos) m
  unfolding account used
  account-used [] m h = map_self m
  account-used (i ∷ is) m h =
      let k = i.placed_aws_service_name in
      ap (account is) (update-change k (use_resources i) m h)
      ∙ account-used is (map (change k (use_resources i)) m) (change-IsMap k (use_resources i) m h)
      ∙ map-map (entry_used is) (change k (use_resources i)) m

  used_lem :
      (infos : List ReqScheduleInfo) (k : String) (s : InstanceStat F) (c d : ℤ)
      → used infos (k, record s { cpu_used = wrap32 c; memory_used = wrap32 d }) ≡ record s {
        cpu_used = wrap32 (c +ℤ placed_cpu k infos);
        memory_used = wrap32 (d +ℤ placed_memory k infos);
      }
  unfolding used
  used_lem [] k s c d = rw (+ℤ_zero c, +ℤ_zero d)
  used_lem (i ∷ is) k s c d = elim (Bool-cases (k == i.placed_aws_service_name)) [
    | inl e ↦ rw (
      e,
      add32-wrap32 c i.required_cpu,
      add32-wrap32 d i.required_memory,
      used_lem is k s (c +ℤ i.required_cpu) (d +ℤ i.required_memory),
      +ℤ_assoc c i.required_cpu (placed_cpu k is),
      +ℤ_assoc d i.required_memory (placed_memory k is),
    )
    | inr e ↦ rw e (used_lem is k s c d)
  ]

  -- As the scheduling loop builds the map: named by its key, and with nothing charged yet.
  pub record IsFresh (e : String × InstanceStat F) : Type 0 where
    pub named : e.1.aws_service_name ≡ e.0
    pub no_cpu : e.1.cpu_used ≡ pos 0
    pub no_memory : e.1.memory_used ≡ pos 0

  used-with_usage :
      (infos : List ReqScheduleInfo) (e : String × InstanceStat F)
      → IsFresh e
      → used infos e ≡ with_usage infos e
  unfolding wrap32
  used-with_usage infos e h =
      let zeroed : e.1 ≡ record (e.1) { cpu_used = pos 0; memory_used = pos 0 } =
        λ i. record (e.1) { cpu_used = h.no_cpu i; memory_used = h.no_memory i } in
      ap (λ s. used infos (e.0, s)) zeroed
      ∙ used_lem infos e.0 e.1 (pos 0) (pos 0)
      ∙ rw (zero-+ℤ (placed_cpu e.0 infos), zero-+ℤ (placed_memory e.0 infos))

  used-with_usage_all :
      (infos : List ReqScheduleInfo) (m : StatMap F)
      → All IsFresh m
      → map (entry_used infos) m ≡ map (entry_usage infos) m
  used-with_usage_all infos [] h = refl
  used-with_usage_all infos (e ∷ m) h =
      ap₂ ◌∷◌ (ap (λ s. (e.0, s)) (used-with_usage infos e h.0)) (used-with_usage_all infos m h.1)

  -- The loop over the placements charges each instance of the map exactly the sum, wrapped around
  -- to 32 bits once, of what is placed on it: no request is counted twice, and placements on
  -- instances that are not in the map change nothing. The map has distinct keys and its entries
  -- start unused.
  pub account-with_usage :
      (infos : List ReqScheduleInfo) (m : StatMap F)
      → IsMap m
      → All IsFresh m
      → account infos m ≡ map (entry_usage infos) m
  account-with_usage infos m h k = account-used infos m h ∙ used-with_usage_all infos m k
