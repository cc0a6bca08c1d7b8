-- ===== src/OrderedMap/Insertion.antt =====
-- `map::insert` on an ordered map, by whether the key is free.
use sevmgr.Prelude.{
  ℕ, ◌≡◌, refl, true, false, not, some, List, [], ◌∷◌, arith, ◌==◌, if◌then◌else◌, is_some, length,
  ◌+◌,
}
use sevmgr.OrderedMap.{find, insert}
use sevmgr.OrderedMap.Order.{Above, IsOrdered, find_below}

module _ {V : Type 0} where
  insert_flag_Above :
      (k n : ℕ) (v : V) (m : List (ℕ × V)) → Above n m → (insert k v m).1 ≡ not (is_some (find k m))
  unfolding insert find
  insert_flag_Above k n v [] o = refl
  insert_flag_Above k n v ((j, w) ∷ m) o =
      ground (arith, insert_flag_Above k j v m o.1, find_below k j m o.1)

  pub insert_flag :
      (k : ℕ) (v : V) (m : List (ℕ × V)) → IsOrdered m → (insert k v m).1 ≡ not (is_some (find k m))
  unfolding insert find
  insert_flag k v [] o = refl
  insert_flag k v ((j, w) ∷ m) o = ground (arith, insert_flag_Above k j v m o, find_below k j m o)

  -- An insertion that fails changes nothing.
  pub insert_taken :
      (k : ℕ) (v : V) (m : List (ℕ × V)) → (insert k v m).1 ≡ false → (insert k v m).0 ≡ m
  unfolding insert
  insert_taken k v [] h = cc
  insert_taken k v ((j, w) ∷ m) h = ground (arith, insert_taken k v m)

  pub length-insert :
      (k : ℕ) (v : V) (m : List (ℕ × V))
      → (insert k v m).1 ≡ true
      → length (insert k v m).0 ≡ length m + 1
  unfolding insert
  length-insert k v [] h = omega arith
  length-insert k v ((j, w) ∷ m) h = ground (arith, length-insert k v m)

  -- After an insertion that succeeds the key is found with its value, and all others as before.
  find-insert-Above :
      (k q n : ℕ) (v : V) (m : List (ℕ × V))
      → Above n m
      → (insert k v m).1 ≡ true
      → find q (insert k v m).0 ≡ (if k == q then some v else find q m)
  unfolding insert find
  find-insert-Above k q n v [] o h = refl
  find-insert-Above k q n v ((j, w) ∷ m) o h =
      ground (arith, find-insert-Above k q j v m o.1, find_below q j m o.1)

  pub find-insert :
      (k q : ℕ) (v : V) (m : List (ℕ × V))
      → IsOrdered m
      → (insert k v m).1 ≡ true
      → find q (insert k v m).0 ≡ (if k == q then some v else find q m)
  unfolding insert find
  find-insert k q v [] o h = refl
  find-insert k q v ((j, w) ∷ m) o h =
      ground (arith, find-insert-Above k q j v m o, find_below q j m o)
