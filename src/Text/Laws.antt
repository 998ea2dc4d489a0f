-- ===== src/Text/Laws.antt =====
-- Equality and membership of texts.
use iterative_context.Prelude.{
  ◌≡◌, refl, ◌↔◌, ◌≢◌, true, false, ◌||◌, List, [], ◌∷◌, ◌++◌, arith, Bool-cases, inl, inr, ◌⊎◌,
}
use iterative_context.Text.{Str, str_eq, mem, starts_with, drop_prefix}

str_eq→eq : (a b : Str) → str_eq a b ≡ true → a ≡ b
unfolding str_eq
str_eq→eq [] [] h = refl
str_eq→eq [] (d ∷ t) h = cc
str_eq→eq (c ∷ s) [] h = cc
str_eq→eq (c ∷ s) (d ∷ t) h = ground (arith, str_eq→eq s t)

pub str_eq_refl : (a : Str) → str_eq a a ≡ true
unfolding str_eq
str_eq_refl [] = refl
str_eq_refl (c ∷ s) = ground (arith, str_eq_refl s)

pub str_eq_iff : (a b : Str) → (str_eq a b ≡ true) ↔ (a ≡ b)
str_eq_iff a b = (str_eq→eq a b, λ e. rw e (str_eq_refl b))

pub str_eq-cases : (a b : Str) → (a ≡ b) × (str_eq a b ≡ true) ⊎ (a ≢ b) × (str_eq a b ≡ false)
str_eq-cases a b = elim (Bool-cases (str_eq a b)) [
  | inl e ↦ inl (str_eq→eq a b e, e)
  | inr n ↦ inr (λ e. cc ((str_eq_iff a b).1 e), n)
]

pub str_eq_comm : (a b : Str) → str_eq a b ≡ str_eq b a
str_eq_comm a b = ground (arith, str_eq_iff a b, str_eq_iff b a)

pub mem-append : (x : Str) (xs ys : List Str) → mem x (xs ++ ys) ≡ (mem x xs || mem x ys)
unfolding mem
mem-append x [] ys = refl
mem-append x (y ∷ xs) ys = ground (arith, mem-append x xs ys)

pub starts_with-append : (p s : Str) → starts_with p (p ++ s) ≡ true
unfolding starts_with
starts_with-append [] s = refl
starts_with-append (c ∷ p) s = ground (arith, starts_with-append p s)

pub drop_prefix-append : (p s : Str) → drop_prefix p (p ++ s) ≡ s
unfolding drop_prefix
drop_prefix-append [] s = refl
drop_prefix-append (c ∷ p) s = drop_prefix-append p s

-- a prefix is cut off without loss
pub append-drop_prefix : (p s : Str) → starts_with p s ≡ true → p ++ drop_prefix p s ≡ s
unfolding starts_with drop_prefix
append-drop_prefix [] s h = refl
append-drop_prefix (c ∷ p) [] h = cc
append-drop_prefix (c ∷ p) (d ∷ s) h = ground (arith, append-drop_prefix p s)
