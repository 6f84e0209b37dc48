-- ===== src/FuncManager/Demand/Expected.antt =====
-- pkg/funcmanager/funcmanager.go: the changes that `CalResScale` asks for.
use mathlib.Core.List.Memᴰ
use pixels_spike.Base.{
  length, ◌≡◌, refl, sym, ap, ◌∙◌, subst, inl, inr, List, [], ◌∷◌, map, String, All, All-mem,
  All_of_mem, Memᴰ, arith, Bool-cases,
}
use pixels_spike.Base.Exits.{Exit, returns, fails, panics}
use pixels_spike.Base.Float.{FloatOps}
use pixels_spike.Base.Int.{zero-+ℤ, pos, ◌≤ℤ◌, sub32, wrap32}
use pixels_spike.Base.Keys.{◌==◌, lookup, insert, string_keys}
use pixels_spike.FuncManager.Demand.{
  Size, size_keys, or_else, Counts, count_instances, and_then, empty_maps, meta_data_map,
  sort_specs, expected, res_scale, ResScale, scales, averages_of, demands_over, scales_of, Demands,
  less_spec,
}
use pixels_spike.FuncManager.Demand.Counts.{count_in, matching, count_instances-Adds}
use pixels_spike.Model.{FuncInstance, FuncMetaData, ResourceSpec}
use pixels_spike.ReqQueue.{Request}
use pixels_spike.Scheduler.{sort_slice}
use pixels_spike.Scheduler.Sorting.{All-sort_slice}

-- What each entry of the map of metadata comes from.
abbrev pub IsEntryOf : List FuncMetaData → String × FuncMetaData → Type 0
IsEntryOf list e =
    (data_ : FuncMetaData) × Memᴰ data_ list × (e ≡ (data_.function_name, sort_specs data_))

insert-IsEntryOf :
    (list : List FuncMetaData) (data_ : FuncMetaData) (m : List (String × FuncMetaData))
    → Memᴰ data_ list
    → All (IsEntryOf list) m
    → All (IsEntryOf list) (insert data_.function_name (sort_specs data_) m)
unfolding insert
insert-IsEntryOf list data_ [] k h = ((data_, k, refl), tt)
insert-IsEntryOf list data_ (e ∷ m) k h = elim (Bool-cases (e.0 == data_.function_name)) [
  | inl same ↦
      let named = (string_keys.same_iff e.0 data_.function_name).0 same in
      rw same ((data_, k, ap (λ n. (n, sort_specs data_)) named), h.1)
  | inr other ↦ rw other (h.0, insert-IsEntryOf list data_ m k h.1)
]

pub meta_data_map-IsEntryOf :
    (list rest : List FuncMetaData) (m : List (String × FuncMetaData))
    → All (λ d. Memᴰ d list) rest
    → All (IsEntryOf list) m
    → All (IsEntryOf list) (meta_data_map rest m)
unfolding meta_data_map
meta_data_map-IsEntryOf list [] m k h = h
meta_data_map-IsEntryOf list (data_ ∷ rest) m k h =
    meta_data_map-IsEntryOf list rest (insert data_.function_name (sort_specs data_) m) k.1
      (insert-IsEntryOf list data_ m k.0 h)

empty_maps-count_in :
    (name : String) (size : Size) (m : List (String × FuncMetaData))
    → count_in name size (empty_maps m) ≡ pos 0
unfolding lookup
empty_maps-count_in name size [] = refl
empty_maps-count_in name size (e ∷ m) = elim (Bool-cases (e.0 == name)) [
  | inl same ↦ rw same
  | inr other ↦ rw other (empty_maps-count_in name size m)
]

and_then-returns :
    {A B : Type 0} (r : Exit A) (k : A → Exit B) (b : B)
    → and_then r k ≡ returns b
    → (a : A) × (r ≡ returns a) × (k a ≡ returns b)
and_then-returns (returns a) k b h = (a, refl, h)
and_then-returns (fails e) k b h = absurd (cc)
and_then-returns (panics e) k b h = absurd (cc)

module _ {F : Type 0} (float : FloatOps F) (threshold : F) (history : List (List Request))
    (list : List FuncMetaData) (instances : List FuncInstance) where
  -- A change that is asked for: it is for a specification of the function, and leads from the
  -- number of its instances to the expected one.
  pub record IsExpected (name : String) (x : ResScale) : Type 0 where
    pub data_ : FuncMetaData
    pub stored : Memᴰ data_ list
    pub named : data_.function_name ≡ name
    pub res : ResourceSpec
    pub of_function : Memᴰ res data_.res_spec_list
    pub cpu : x.cpu ≡ res.cpu
    pub memory : x.memory ≡ res.memory
    pub average : F
    pub change :
        x.scale_cnt
        ≡ sub32
            (expected float res average)
            (wrap32 (pos (matching name (res.cpu, res.memory) instances)))
    pub bounds :
        res.min_replica ≤ℤ res.max_replica
        → (res.min_replica ≤ℤ expected float res average)
          × (expected float res average ≤ℤ res.max_replica)

  abbrev averages : List (Demands float) → String × FuncMetaData → List (Size × F)
  averages ds e =
      averages_of float (float.mul (float.of_int (pos (length history))) threshold) e.0 ds []

  abbrev average_of : List (Demands float) → String × FuncMetaData → ResourceSpec → F
  average_of ds e res =
      or_else (float.of_int (pos 0)) (lookup (res.cpu, res.memory) (averages ds e))

  abbrev scale_of : Counts → List (Demands float) → String × FuncMetaData → ResourceSpec → ResScale
  scale_of counts ds e = res_scale float (averages ds e) (or_else [] (lookup e.0 counts))

  unsorted :
      (data_ : FuncMetaData) (res : ResourceSpec)
      → Memᴰ res (sort_specs data_).res_spec_list
      → Memᴰ res data_.res_spec_list
  unfolding sort_specs
  unsorted data_ res m =
      All-mem (λ d. Memᴰ d data_.res_spec_list) (sort_slice less_spec data_.res_spec_list)
        (All-sort_slice (λ d. Memᴰ d data_.res_spec_list) less_spec data_.res_spec_list
          (All_of_mem (λ d. Memᴰ d data_.res_spec_list) data_.res_spec_list (λ d k. k)))
        m

  expected-bounds :
      (res : ResourceSpec) (average : F)
      → res.min_replica ≤ℤ res.max_replica
      → (res.min_replica ≤ℤ expected float res average)
        × (expected float res average ≤ℤ res.max_replica)
  expected-bounds res average h = (ground arith, ground arith)

  entry-IsExpected :
      (counts : Counts) (ds : List (Demands float)) (e : String × FuncMetaData) (name : String)
      (sizes : List ResScale) (x : ResScale)
      → ((n : String) (size : Size)
          → count_in n size counts ≡ wrap32 (pos (matching n size instances)))
      → IsEntryOf list e
      → scales_of float threshold history counts ds e ≡ (name, sizes)
      → Memᴰ x sizes
      → IsExpected name x
  unfolding scales_of
  entry-IsExpected counts ds e name sizes x counted (data_, stored, from) eq j =
      let named : e.0 ≡ name = ap (λ p. p.0) eq in
      let (res, res_listed, res_eq) =
        Memᴰ.of_map (scale_of counts ds e) e.1.res_spec_list
          (subst (λ l. Memᴰ x l) (sym (ap (λ p. p.1) eq)) j) in
      record {
        data_ = data_;
        stored = stored;
        named = sym (ap (λ p. p.0) from) ∙ named;
        res = res;
        of_function = unsorted data_ res (subst (λ p. Memᴰ res p.1.res_spec_list) from res_listed);
        cpu = sym (ap (λ y. y.cpu) res_eq);
        memory = sym (ap (λ y. y.memory) res_eq);
        average = average_of ds e res;
        change =
            sym (ap (λ y. y.scale_cnt) res_eq)
            ∙ ap (sub32 (expected float res (average_of ds e res))) (
                ap (λ n. count_in n (res.cpu, res.memory) counts) named
                ∙ counted name (res.cpu, res.memory));
        bounds = expected-bounds res (average_of ds e res);
      }

  wrap32_zero : wrap32 (pos 0) ≡ pos 0
  unfolding wrap32
  wrap32_zero = refl

  -- When the demand is computed, every change that it asks for is for a specification that is
  -- stored for the function; it is the difference, in 32 bits, between an expected count and the
  -- number of instances of the function that have this size; and the expected count is within the
  -- replica bounds of the specification, if these are in order.
  pub scales-IsExpected :
      (out : List (String × List ResScale)) (name : String) (sizes : List ResScale) (x : ResScale)
      → scales float threshold history list instances ≡ returns out
      → Memᴰ (name, sizes) out
      → Memᴰ x sizes
      → IsExpected name x
  unfolding scales
  scales-IsExpected out name sizes x h k j =
      let m = meta_data_map list [] in
      let (counts, counted_ok, h') =
        and_then-returns (count_instances instances (empty_maps m)) _ out h in
      let (ds, demands_ok, h'') = and_then-returns (demands_over float m history) _ out h' in
      let made : map (scales_of float threshold history counts ds) m ≡ out = cc in
      let (e, listed, eq) =
        Memᴰ.of_map (scales_of float threshold history counts ds) m
          (subst (λ l. Memᴰ (name, sizes) l) (sym made) k) in
      entry-IsExpected counts ds e name sizes x
        (λ n size.
          count_instances-Adds n size instances counts (empty_maps m) (pos 0)
            (empty_maps-count_in n size m ∙ sym wrap32_zero) counted_ok
          ∙ ap wrap32 (zero-+ℤ (pos (matching n size instances))))
        (All-mem (IsEntryOf list) m
          (meta_data_map-IsEntryOf list list [] (All_of_mem (λ d. Memᴰ d list) list (λ d q. q)) tt)
          listed)
        eq j
