-- ===== src/Base/Keys.antt =====
-- Comparable key types, and Go maps as association lists in the order in which a `range` loop
-- meets the entries.
use text.Mathlib.Text.{◌==◌ as str_eq}
use text.Mathlib.TextEquality.{eq_iff}
use pixels_spike.Base.{
  ℕ, ◌≡◌, refl, ◌↔◌, Bool, true, Option, none, some, List, [], ◌∷◌, String, arith, if◌then◌else◌,
  nat_eq, nat_eq_iff,
}
use pixels_spike.Base.Int.{ℤ, eq_ℤ, eq_ℤ_iff}

pub record Key {ℓ} (K : Type ℓ) : Type ℓ where
  pub same : K → K → Bool
  pub same_iff : (j k : K) → (same j k ≡ true) ↔ (j ≡ k)

infix 50 ◌==◌
abbrev pub ◌==◌ {ℓ} : {K : Type ℓ} ⦃key : Key K⦄ → K → K → Bool
◌==◌ ⦃key⦄ j k = key.same j k

instance abbrev pub nat_keys : Key ℕ
nat_keys = record { same = nat_eq; same_iff = nat_eq_iff }

instance abbrev pub int_keys : Key ℤ
int_keys = record { same = eq_ℤ; same_iff = eq_ℤ_iff }

instance abbrev pub string_keys : Key String
string_keys = record { same = str_eq; same_iff = eq_iff }

module _ {ℓ κ} {K : Type ℓ} {V : Type κ} ⦃key : Key K⦄ where
  -- `m[k]`, with its `ok`.
  unfoldable pub lookup : K → List (K × V) → Option V
  lookup k [] = none
  lookup k (e ∷ rest) = if e.0 == k then some e.1 else lookup k rest

  -- `m[k] = v`.
  unfoldable pub insert : K → V → List (K × V) → List (K × V)
  insert k v [] = (k, v) ∷ []
  insert k v (e ∷ rest) = if e.0 == k then (e.0, v) ∷ rest else e ∷ insert k v rest

  -- `m[k]` changed in place, where it is present.
  unfoldable pub update : K → (V → V) → List (K × V) → List (K × V)
  update k f [] = []
  update k f (e ∷ rest) = if e.0 == k then (e.0, f e.1) ∷ rest else e ∷ update k f rest

  pub lookup-insert :
      (k j : K) (v : V) (m : List (K × V))
      → lookup j (insert k v m) ≡ (if k == j then some v else lookup j m)
  unfolding lookup insert
  lookup-insert k j v [] = refl
  lookup-insert k j v (e ∷ rest) =
      ground
        (arith, key.same_iff k j, key.same_iff e.0 k, key.same_iff e.0 j, lookup-insert k j v rest)
