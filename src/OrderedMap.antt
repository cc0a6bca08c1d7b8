-- ===== src/OrderedMap.antt =====
-- `std::map` with integer keys, as the code uses it: the list of events (time stamps to events) and
-- the progress statuses (event types to statuses). The entries stand in the order of their keys.
pub mod Order
pub mod Insertion
pub mod Extension
use sevmgr.Prelude.{
  ℕ, Bool, true, false, Option, none, some, List, [], ◌∷◌, ltb, ◌==◌, if◌then◌else◌,
}

module _ {V : Type 0} where
  -- `map::find`.
  unfoldable pub find : ℕ → List (ℕ × V) → Option V
  find k [] = none
  find k ((j, v) ∷ m) = if j == k then some v else find k m

  -- An entry in front of what the rest of an insertion gives.
  abbrev pub keep_first : ℕ × V → List (ℕ × V) × Bool → List (ℕ × V) × Bool
  keep_first e (m, inserted) = (e ∷ m, inserted)

  -- `map::insert`: an entry that is there already stays, and the flag is false.
  unfoldable pub insert : ℕ → V → List (ℕ × V) → List (ℕ × V) × Bool
  insert k v [] = ((k, v) ∷ [], true)
  insert k v ((j, w) ∷ m) =
      if ltb k j
      then ((k, v) ∷ (j, w) ∷ m, true)
      else if j == k
      then ((j, w) ∷ m, false)
      else keep_first (j, w) (insert k v m)

  -- A write through the iterator of an entry that was found; nothing if there is none.
  unfoldable pub update : ℕ → V → List (ℕ × V) → List (ℕ × V)
  update k v [] = []
  update k v ((j, w) ∷ m) = if j == k then (j, v) ∷ m else (j, w) ∷ update k v m

  -- A loop over the map that changes each value in place.
  unfoldable pub map_values : (V → V) → List (ℕ × V) → List (ℕ × V)
  map_values f [] = []
  map_values f ((j, w) ∷ m) = (j, f w) ∷ map_values f m
