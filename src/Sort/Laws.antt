-- ===== src/Sort/Laws.antt =====
-- A sorted list has the elements of the list, and is in order where the comparison is a strict weak
-- order on them.
use mathlib.Core.List.Perm
use mathlib.Core.List.{Perm}
use iterative_context.Prelude.{
  suc, ◌≡◌, refl, inl, inr, Bool, true, false, ◌||◌, List, [], ◌∷◌, arith, Bool-cases, length, any,
  All, All-map₂,
}
use iterative_context.Sort.{insert_sorted, sort}

module _ {ℓ} {A : Type ℓ} (lt : A → A → Bool) where
  -- no element is less than one before it
  abbrev pub IsSorted : List A → Type ℓ
  IsSorted [] = Unit
  IsSorted (x ∷ xs) = All (λ y. lt y x ≡ false) xs × IsSorted xs

  insert_sorted-perm : (x : A) (xs : List A) → Perm (insert_sorted lt x xs) (x ∷ xs)
  unfolding insert_sorted
  insert_sorted-perm x [] = Perm.refl (x ∷ [])
  insert_sorted-perm x (y ∷ ys) = elim (Bool-cases (lt y x)) [
    | inl e ↦ rw e (Perm.trans (Perm.cons y (insert_sorted-perm x ys)) (Perm.swap x y ys))
    | inr n ↦ rw n (Perm.refl (x ∷ y ∷ ys))
  ]

  pub sort-perm : (xs : List A) → Perm (sort lt xs) xs
  unfolding sort
  sort-perm [] = Perm.refl []
  sort-perm (x ∷ xs) = Perm.trans (insert_sorted-perm x (sort lt xs)) (Perm.cons x (sort-perm xs))

  any-insert_sorted :
      (p : A → Bool) (x : A) (xs : List A) → any p (insert_sorted lt x xs) ≡ (p x || any p xs)
  unfolding insert_sorted
  any-insert_sorted p x [] = refl
  any-insert_sorted p x (y ∷ ys) = ground (arith, any-insert_sorted p x ys)

  pub any-sort : (p : A → Bool) (xs : List A) → any p (sort lt xs) ≡ any p xs
  unfolding sort
  any-sort p [] = refl
  any-sort p (x ∷ xs) = ground (arith, any-insert_sorted p x (sort lt xs), any-sort p xs)

  length-insert_sorted : (x : A) (xs : List A) → length (insert_sorted lt x xs) ≡ suc (length xs)
  unfolding insert_sorted
  length-insert_sorted x [] = refl
  length-insert_sorted x (y ∷ ys) = ground (arith, length-insert_sorted x ys)

  pub length-sort : (xs : List A) → length (sort lt xs) ≡ length xs
  unfolding sort
  length-sort [] = refl
  length-sort (x ∷ xs) = omega (arith, length-insert_sorted x (sort lt xs), length-sort xs)

  module _ {κ} (P : A → Type κ) where
    pub All-insert_sorted : (x : A) (xs : List A) → P x → All P xs → All P (insert_sorted lt x xs)
    unfolding insert_sorted
    All-insert_sorted x [] p h = (p, tt)
    All-insert_sorted x (y ∷ ys) p (q, h) = elim (Bool-cases (lt y x)) [
      | inl e ↦ rw e (q, All-insert_sorted x ys p h)
      | inr n ↦ rw n (p, (q, h))
    ]

    pub All-sort : (xs : List A) → All P xs → All P (sort lt xs)
    unfolding sort
    All-sort [] h = tt
    All-sort (x ∷ xs) (p, h) = All-insert_sorted x (sort lt xs) p (All-sort xs h)

-- A comparison that is a strict weak order on the elements with `P`.
module _ {ℓ κ} {A : Type ℓ} (lt : A → A → Bool) (P : A → Type κ)
    (asymm : (x y : A) → P x → P y → lt x y ≡ true → lt y x ≡ false)
    (not_trans : (x y z : A)
      → P x
      → P y
      → P z
      → lt y x ≡ false
      → lt z y ≡ false
      → lt z x ≡ false) where
  insert_sorted-IsSorted :
      (x : A) (xs : List A) → P x → All P xs → IsSorted lt xs → IsSorted lt (insert_sorted lt x xs)
  unfolding insert_sorted
  insert_sorted-IsSorted x [] p h s = (tt, tt)
  insert_sorted-IsSorted x (y ∷ ys) p (q, h) (least, s) = elim (Bool-cases (lt y x)) [
    | inl e ↦ rw e (
      All-insert_sorted lt (λ z. lt z y ≡ false) x ys (asymm y x q p e) least,
      insert_sorted-IsSorted x ys p h s,
    )
    | inr n ↦ rw n (
      (
        n,
        All-map₂ P (λ z. lt z y ≡ false) (λ z. lt z x ≡ false) (λ z r l. not_trans x y z p q r n l)
            ys h least,
      ),
      (least, s),
    )
  ]

  pub sort-IsSorted : (xs : List A) → All P xs → IsSorted lt (sort lt xs)
  unfolding sort
  sort-IsSorted [] h = tt
  sort-IsSorted (x ∷ xs) (p, h) =
      insert_sorted-IsSorted x (sort lt xs) p (All-sort lt P xs h) (sort-IsSorted xs h)
