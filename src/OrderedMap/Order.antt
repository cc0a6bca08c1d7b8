-- ===== src/OrderedMap/Order.antt =====
-- The order of the keys of a map, and what can be found after each operation.
use sevmgr.Prelude.{
  ℕ, ◌≤◌, ◌<◌, ◌≡◌, refl, none, some, List, [], ◌∷◌, arith, ◌&&◌, ◌==◌, if◌then◌else◌, is_some,
  length,
}
use sevmgr.OrderedMap.{find, insert, update, map_values}

module _ {V : Type 0} where
  -- Every key is above `n`, and the keys rise.
  abbrev pub Above : ℕ → List (ℕ × V) → Type 0
  Above n [] = Unit {0}
  Above n ((k, v) ∷ m) = (n < k) × Above k m

  abbrev pub IsOrdered : List (ℕ × V) → Type 0
  IsOrdered [] = Unit {0}
  IsOrdered ((k, v) ∷ m) = Above k m

  pub Above-weaken : (n k : ℕ) (m : List (ℕ × V)) → n ≤ k → Above k m → Above n m
  Above-weaken n k [] h o = tt
  Above-weaken n k ((j, w) ∷ m) h o = (omega arith, o.1)

  pub Above-IsOrdered : (n : ℕ) (m : List (ℕ × V)) → Above n m → IsOrdered m
  Above-IsOrdered n [] o = tt
  Above-IsOrdered n ((j, w) ∷ m) o = o.1

  pub find_below : (k n : ℕ) (m : List (ℕ × V)) → Above n m → k ≤ n → find k m ≡ none
  unfolding find
  find_below k n [] o h = refl
  find_below k n ((j, w) ∷ m) o h = ground (arith, find_below k j m o.1)

  insert-Above : (k n : ℕ) (v : V) (m : List (ℕ × V)) → Above n m → n < k → Above n (insert k v m).0
  unfolding insert
  insert-Above k n v [] o h = (h, tt)
  insert-Above k n v ((j, w) ∷ m) o h = ground (arith, insert-Above k j v m o.1)

  pub insert-IsOrdered :
      (k : ℕ) (v : V) (m : List (ℕ × V)) → IsOrdered m → IsOrdered (insert k v m).0
  unfolding insert
  insert-IsOrdered k v [] o = tt
  insert-IsOrdered k v ((j, w) ∷ m) o = ground (arith, insert-Above k j v m o)

  update-Above : (k n : ℕ) (v : V) (m : List (ℕ × V)) → Above n m → Above n (update k v m)
  unfolding update
  update-Above k n v [] o = tt
  update-Above k n v ((j, w) ∷ m) o = ground (arith, update-Above k j v m o.1)

  pub update-IsOrdered : (k : ℕ) (v : V) (m : List (ℕ × V)) → IsOrdered m → IsOrdered (update k v m)
  unfolding update
  update-IsOrdered k v [] o = tt
  update-IsOrdered k v ((j, w) ∷ m) o = ground (arith, update-Above k j v m o)

  map_values-Above : (f : V → V) (n : ℕ) (m : List (ℕ × V)) → Above n m → Above n (map_values f m)
  unfolding map_values
  map_values-Above f n [] o = tt
  map_values-Above f n ((j, w) ∷ m) o = (o.0, map_values-Above f j m o.1)

  pub map_values-IsOrdered :
      (f : V → V) (m : List (ℕ × V)) → IsOrdered m → IsOrdered (map_values f m)
  unfolding map_values
  map_values-IsOrdered f [] o = tt
  map_values-IsOrdered f ((j, w) ∷ m) o = map_values-Above f j m o

  -- Reads after writes.
  pub find-update :
      (k q : ℕ) (v : V) (m : List (ℕ × V))
      → find q (update k v m) ≡ (if k == q && is_some (find k m) then some v else find q m)
  unfolding find update
  find-update k q v [] = ground arith
  find-update k q v ((j, w) ∷ m) = ground (arith, find-update k q v m)

  pub is_some-find-update :
      (k q : ℕ) (v : V) (m : List (ℕ × V)) → is_some (find q (update k v m)) ≡ is_some (find q m)
  unfolding find update
  is_some-find-update k q v [] = refl
  is_some-find-update k q v ((j, w) ∷ m) = ground (arith, is_some-find-update k q v m)

  pub is_some-find-map_values :
      (f : V → V) (q : ℕ) (m : List (ℕ × V))
      → is_some (find q (map_values f m)) ≡ is_some (find q m)
  unfolding find map_values
  is_some-find-map_values f q [] = refl
  is_some-find-map_values f q ((j, w) ∷ m) = ground (arith, is_some-find-map_values f q m)

  pub length-update : (k : ℕ) (v : V) (m : List (ℕ × V)) → length (update k v m) ≡ length m
  unfolding update
  length-update k v [] = refl
  length-update k v ((j, w) ∷ m) = ground (arith, length-update k v m)
