-- ===== src/FuncManager/Demand/Orphans.antt =====
-- pkg/funcmanager/funcmanager.go: instances of a function whose metadata is gone.
use pixels_spike.Base.{
  ◌≡◌, ◌≢◌, refl, sym, ap, ◌∙◌, subst, inl, inr, List, [], ◌∷◌, none, some, String, All, All-mem,
  All_of_mem, Memᴰ, Bool-cases, Option-cases,
}
use pixels_spike.Base.Exits.{Exit, panics}
use pixels_spike.Base.Float.{FloatOps}
use pixels_spike.Base.Int.{ℤ}
use pixels_spike.Base.Keys.{◌==◌, lookup, insert, lookup-insert, string_keys}
use pixels_spike.FuncManager.Demand.{
  Size, Counts, count_instances, empty_maps, meta_data_map, scales,
}
use pixels_spike.FuncManager.Demand.Expected.{IsEntryOf, meta_data_map-IsEntryOf}
use pixels_spike.Model.{FuncInstance, FuncMetaData}
use pixels_spike.ReqQueue.{Request}

abbrev nil_map : {A : Type 0} → Exit A
nil_map = panics "assignment to entry in nil map"

-- A function that is present is another one than a function that is not.
lookup-insert-none :
    (name k : String) (v w : List (Size × ℤ)) (counts : Counts)
    → lookup name counts ≡ none
    → lookup k counts ≡ some v
    → lookup name (insert k w counts) ≡ none
lookup-insert-none name k v w counts absent present =
    lookup-insert k name w counts ∙ elim (Bool-cases (k == name)) [
      | inl e ↦
          let same = ap (λ n. lookup n counts) ((string_keys.same_iff k name).0 e) in absurd (cc)
      | inr e ↦ rw e absent
    ]

count_instances-orphan :
    (orphan : FuncInstance) (l : List FuncInstance) (counts : Counts)
    → Memᴰ orphan l
    → lookup orphan.function_name counts ≡ none
    → count_instances l counts ≡ nil_map
unfolding count_instances
count_instances-orphan orphan [] counts m h = elim m [ ]
count_instances-orphan orphan (ins ∷ l) counts (Memᴰ.head e) h =
    let absent : lookup ins.function_name counts ≡ none =
      subst (λ i. lookup i.function_name counts ≡ none) e h in
    rw absent
count_instances-orphan orphan (ins ∷ l) counts (Memᴰ.tail m) h =
    elim (Option-cases (lookup ins.function_name counts)) [
      | inl absent ↦ rw absent
      | inr (sizes, present) ↦ rw present (
          count_instances-orphan orphan l _ m
            (lookup-insert-none orphan.function_name ins.function_name sizes _ counts h present))
    ]

empty_maps-absent :
    (name : String) (m : List (String × FuncMetaData))
    → All (λ e. e.0 ≢ name) m
    → lookup name (empty_maps {V = ℤ} m) ≡ none
unfolding lookup
empty_maps-absent name [] h = refl
empty_maps-absent name (e ∷ m) h = elim (Bool-cases (e.0 == name)) [
  | inl same ↦ absurd (h.0 ((string_keys.same_iff e.0 name).0 same))
  | inr other ↦ rw other (empty_maps-absent name m h.1)
]

-- One stored instance whose function has no metadata is enough to make the computation of the
-- demand panic, whatever else is stored: it writes to the nil map of that function.
pub scales-orphan :
    {F : Type 0} (float : FloatOps F) (threshold : F) (history : List (List Request))
    (list : List FuncMetaData) (instances : List FuncInstance) (orphan : FuncInstance)
    → Memᴰ orphan instances
    → ((d : FuncMetaData) → Memᴰ d list → d.function_name ≢ orphan.function_name)
    → scales float threshold history list instances ≡ panics "assignment to entry in nil map"
unfolding scales
scales-orphan float threshold history list instances orphan m gone =
    let entries =
      meta_data_map-IsEntryOf list list [] (All_of_mem (λ d. Memᴰ d list) list (λ d q. q)) tt in
    let absent =
      All_of_mem (λ e. e.0 ≢ orphan.function_name) (meta_data_map list [])
        λ e k same.
          let (d, stored, from) = All-mem (IsEntryOf list) _ entries k in
          gone d stored (sym (ap (λ p. p.0) from) ∙ same) in
    rw (
      count_instances-orphan orphan instances (empty_maps (meta_data_map list [])) m
        (empty_maps-absent orphan.function_name (meta_data_map list []) absent))
