-- ===== src/Prelude/Entries.antt =====
-- A predicate of every entry of a list.
use mathlib.Core.List.{List, [], ◌∷◌, ◌++◌}

abbrev pub All {ℓ κ} : {A : Type ℓ} → (A → Type κ) → List A → Type κ
All P [] = Unit
All P (x ∷ xs) = P x × All P xs

module _ {A : Type 0} where
  pub All-map :
      (P Q R : A → Type 0) (xs : List A)
      → ((x : A) → P x → Q x → R x)
      → All P xs
      → All Q xs
      → All R xs
  All-map P Q R [] f p q = tt
  All-map P Q R (x ∷ xs) f p q = (f x p.0 q.0, All-map P Q R xs f p.1 q.1)

  -- An entry in the middle.
  pub All-split :
      (P : A → Type 0) (xs ys : List A) (y : A) → All P (xs ++ y ∷ ys) → P y × All P (xs ++ ys)
  All-split P [] ys y h = h
  All-split P (x ∷ xs) ys y h = let (here, rest) = All-split P xs ys y h.1 in (here, (h.0, rest))

  pub All-join :
      (P : A → Type 0) (xs ys : List A) (y : A) → P y → All P (xs ++ ys) → All P (xs ++ y ∷ ys)
  All-join P [] ys y p h = (p, h)
  All-join P (x ∷ xs) ys y p h = (h.0, All-join P xs ys y p h.1)
