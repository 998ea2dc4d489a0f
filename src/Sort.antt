-- ===== src/Sort.antt =====
-- Python's `sorted` and `list.sort` with a key, as insertion into a sorted list. `lt` compares the
-- keys. The sort is stable: elements whose keys are equal keep their order.
pub mod Laws
use iterative_context.Prelude.{Bool, List, [], ◌∷◌, if◌then◌else◌}

module _ {ℓ} {A : Type ℓ} (lt : A → A → Bool) where
  unfoldable pub insert_sorted : A → List A → List A
  insert_sorted x [] = x ∷ []
  insert_sorted x (y ∷ ys) = if lt y x then y ∷ insert_sorted x ys else x ∷ y ∷ ys

  unfoldable pub sort : List A → List A
  unfolding insert_sorted
  sort [] = []
  sort (x ∷ xs) = insert_sorted x (sort xs)
