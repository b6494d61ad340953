-- ===== src/BTreeMap/Laws.antt =====
-- The last entry of a range of a map.
use mathlib.Core.List.{reverse-cons}
use vm_device.Prelude.{◌≡◌, refl, List, [], ◌∷◌, ◌++◌, reverse, Option, none, some, get_elem?}
use vm_device.BTreeMap.{nth_back}

module _ {ℓ} {A : Type ℓ} where
  abbrev pub or_else : Option A → A → Option A
  or_else none d = some d
  or_else (some a) d = some a

  get_elem?-append_one :
      (l : List A) (x : A) → get_elem? (l ++ x ∷ []) 0 ≡ or_else (get_elem? l 0) x
  get_elem?-append_one [] x = refl
  get_elem?-append_one (y ∷ l) x = refl

  -- The last of a list is the last of its tail, or its head if the tail is empty.
  pub nth_back-cons : (x : A) (l : List A) → nth_back (x ∷ l) 0 ≡ or_else (nth_back l 0) x
  unfolding nth_back
  nth_back-cons x l = rw reverse-cons (get_elem?-append_one (reverse l) x)

  pub nth_back-nil : nth_back {A = A} [] 0 ≡ none
  unfolding nth_back
  nth_back-nil = refl
