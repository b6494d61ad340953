-- ===== src/BTreeMap.antt =====
-- What the buses use of `std::collections::BTreeMap`: a list of entries in the order of their keys.
-- A key that compares as equal is the same key: `insert` then replaces the value and keeps the key.
pub mod Laws
use vm_device.Prelude.{ℕ, Ordering, Option, none, some, List, [], ◌∷◌, map, reverse, get_elem?}

module _ {κ ℓ} {K : Type κ} {V : Type ℓ} (cmp : K → K → Ordering) where
  unfoldable pub insert : K → V → List (K × V) → List (K × V)
  insert k v [] = (k, v) ∷ []
  insert k v ((j, w) ∷ m) = elim (cmp k j) [
    | Ordering.lt ↦ (k, v) ∷ (j, w) ∷ m
    | Ordering.eq ↦ (j, v) ∷ m
    | Ordering.gt ↦ (j, w) ∷ insert k v m
  ]

  -- The removed value, and the map without it.
  unfoldable pub remove : K → List (K × V) → Option V × List (K × V)
  remove k [] = (none, [])
  remove k ((j, w) ∷ m) =
      let rest = remove k m in
      elim (cmp k j) [
        | Ordering.lt ↦ (none, (j, w) ∷ m)
        | Ordering.eq ↦ (some w, m)
        | Ordering.gt ↦ (rest.0, (j, w) ∷ rest.1)
      ]

  -- `range(..=k)`: the entries up to the key.
  unfoldable pub range_to_inclusive : K → List (K × V) → List (K × V)
  range_to_inclusive k [] = []
  range_to_inclusive k ((j, w) ∷ m) = elim (cmp j k) [
    | Ordering.gt ↦ []
    | _ ↦ (j, w) ∷ range_to_inclusive k m
  ]

abbrev pub keys {κ ℓ} : {K : Type κ} {V : Type ℓ} → List (K × V) → List K
keys = map (λ e. e.0)

-- `nth_back` of an iterator over the list.
unfoldable pub nth_back {ℓ} : {A : Type ℓ} → List A → ℕ → Option A
nth_back l n = get_elem? (reverse l) n
