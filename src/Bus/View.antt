-- ===== src/Bus/View.antt =====
-- src/bus/mod.rs: the invariant of a bus, and what a bus promises: a function from addresses to
-- entries.
use vm_device.Prelude.{
  ℕ, ◌≤◌, ◌<◌, ◌≡◌, refl, Bool, ◌&&◌, List, [], ◌∷◌, Option, none, some, ltb, leb, arith,
  if◌then◌else◌,
}
use vm_device.Address.{BusAddress}
use vm_device.Range
use vm_device.Range.{BusRange, start, end, Contains}
use vm_device.Bus.{Bus}

abbrev pub contains : {A : Type 0} ⦃o : BusAddress A⦄ → BusRange A → ℕ → Bool
contains r n = leb (start r) n && ltb n (end r)

module _ {A D : Type 0} ⦃o : BusAddress A⦄ where
  -- The first entry whose range contains the address, by a search from the front.
  unfoldable pub find : ℕ → List (BusRange A × D) → Option (BusRange A × D)
  find n [] = none
  find n ((r, d) ∷ m) = if contains r n then some (r, d) else find n m

  -- The function with the addresses of a range set to one entry, or to none.
  abbrev pub set_range :
      (ℕ → Option (BusRange A × D))
      → BusRange A
      → Option (BusRange A × D)
      → ℕ
      → Option (BusRange A × D)
  set_range f r e n = if contains r n then e else f n

  -- The ranges are valid, lie behind one another, and begin at `low` at the earliest.
  abbrev pub Chain : ℕ → List (BusRange A × D) → Type 0
  Chain low [] = Unit
  Chain low ((r, d) ∷ m) = (low ≤ start r) × Range.IsValid r × Chain (end r) m

  -- The invariant of a bus: its ranges are valid and disjoint, in the order of their addresses.
  pub record IsValid (b : Bus A D) : Type 0 where
    pub chain : Chain 0 b.devices

  -- The bus as a function from addresses to entries.
  unfoldable pub view : Bus A D → ℕ → Option (BusRange A × D)
  unfolding find
  view b n = find n b.devices

  pub find_below : (n low : ℕ) (m : List (BusRange A × D)) → n < low → Chain low m → find n m ≡ none
  unfolding find
  find_below n low [] h c = refl
  find_below n low ((r, d) ∷ m) h c = ground (arith, find_below n (end r) m, c.1.nonempty)

  pub Chain-le :
      (low high : ℕ) (m : List (BusRange A × D)) → low ≤ high → Chain high m → Chain low m
  Chain-le low high [] h c = tt
  Chain-le low high ((r, d) ∷ m) h c = ground arith

  -- What a search finds is a valid range that contains the address.
  pub find-bounds :
      (n low : ℕ) (m : List (BusRange A × D)) (r : BusRange A) (d : D)
      → Chain low m
      → find n m ≡ some (r, d)
      → (low ≤ start r) × Range.IsValid r × Contains r n
  unfolding find
  find-bounds n low [] r d c e = cc
  find-bounds n low ((s, f) ∷ m) r d c e = ground (arith, find-bounds n (end s) m r d c.2)

  -- Every address of a range that a search finds is found in it.
  pub find_whole :
      (n k low : ℕ) (m : List (BusRange A × D)) (r : BusRange A) (d : D)
      → Chain low m
      → find n m ≡ some (r, d)
      → Contains r k
      → find k m ≡ some (r, d)
  unfolding find
  find_whole n k low [] r d c e h = cc
  find_whole n k low ((s, f) ∷ m) r d c e h =
      ground (arith, find-bounds n (end s) m r d c.2, find_whole n k (end s) m r d c.2)
