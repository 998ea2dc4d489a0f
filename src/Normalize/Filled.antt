-- ===== src/Normalize/Filled.antt =====
-- The attributes that normalisation gives a node, and names that are distinct.
use iterative_context.Prelude.{
  ◌≡◌, refl, subst, inl, inr, Bool, true, false, not, ◌&&◌, Option, none, some, List, [], ◌∷◌, ◌++◌,
  arith, Bool-cases, Option-cases, All,
}
use iterative_context.Text.{Str, str_eq, mem}
use iterative_context.Text.Laws.{str_eq_iff, mem-append}
use iterative_context.Dict.{Dict, get}
use iterative_context.PathIds.{file_for_node_id}
use iterative_context.Normalize.{RawAttrs, setdefault, new_attrs, backfill}

-- the three keys are there
pub data IsFilled : RawAttrs → Type 0 where
  filled :
      (t s : Str) (f : Option Str)
      → IsFilled (record { type_key = some t; symbol_key = some s; file_key = some f })

abbrev pub FilledEntry : Str × RawAttrs → Type 0
FilledEntry (i, a) = IsFilled a

abbrev pub distinct : List Str → Bool
distinct [] = true
distinct (x ∷ xs) = let rest = distinct xs in not (mem x xs) && rest

pub new_attrs-IsFilled : (i t s : Str) (f : Option Str) → IsFilled (new_attrs i t s f)
unfolding new_attrs
new_attrs-IsFilled i t s f = filled _ _ _

-- nothing is missing, and nothing is written
pub backfill_filled :
    (i t s : Str) (f : Option Str) (a : RawAttrs) → IsFilled a → backfill i t s f a ≡ a
unfolding backfill setdefault
backfill_filled i t s none _ (filled t' s' f') = elim (Option-cases (file_for_node_id i)) [
  | inl e ↦ rw e refl
  | inr (f, e) ↦ rw e refl
]
backfill_filled i t s (some x) _ (filled t' s' f') = refl

pub distinct-append :
    (xs : List Str) (y : Str)
    → distinct xs ≡ true
    → mem y xs ≡ false
    → distinct (xs ++ y ∷ []) ≡ true
unfolding mem
distinct-append [] y h k = refl
distinct-append (x ∷ xs) y h k =
    ground (arith, distinct-append xs y, mem-append x xs (y ∷ []), str_eq_iff x y, str_eq_iff y x)

pub IsFilled-get :
    (i : Str) (a : RawAttrs) (d : Dict RawAttrs) → All FilledEntry d → get i d ≡ some a → IsFilled a
unfolding get
IsFilled-get i a [] h e = cc
IsFilled-get i a ((j, b) ∷ d) (p, h) e = elim (Bool-cases (str_eq j i)) [
  | inl t ↦ subst IsFilled (ground arith) p
  | inr n ↦ IsFilled-get i a d h (ground arith)
]
