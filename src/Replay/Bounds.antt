-- ===== src/Replay/Bounds.antt =====
-- How many candidates of an anchor decision are shown, and which ones always are.
use iterative_context.Prelude.{
  ℕ, zero, suc, ◌≤◌, max, ◌≡◌, refl, Bool, true, ◌||◌, Option, none, some, List, [], ◌∷◌, arith,
  length, take, drop, any, length-take,
}
use iterative_context.Text.{Str, str_eq}
use iterative_context.Anchor.{AnchorCandidate}
use iterative_context.Replay.Visible.{any_anchor, set_last, swap_in, bounded_anchor_candidates}

length-set_last :
    (c : AnchorCandidate) (xs : List AnchorCandidate) → length (set_last c xs) ≤ max 1 (length xs)
unfolding set_last
length-set_last c [] = omega arith
length-set_last c (x ∷ []) = omega arith
length-set_last c (x ∷ y ∷ xs) = omega (arith, length-set_last c (y ∷ xs))

any-set_last :
    (p : AnchorCandidate → Bool) (c : AnchorCandidate) (xs : List AnchorCandidate)
    → p c ≡ true
    → any p (set_last c xs) ≡ true
unfolding set_last
any-set_last p c [] h = ground arith
any-set_last p c (x ∷ []) h = ground arith
any-set_last p c (x ∷ y ∷ xs) h = ground (arith, any-set_last p c (y ∷ xs) h)

any_of_set_last :
    (p : AnchorCandidate → Bool) (c : AnchorCandidate) (xs : List AnchorCandidate)
    → any p (set_last c xs) ≡ true
    → (p c || any p xs) ≡ true
unfolding set_last
any_of_set_last p c [] h = ground arith
any_of_set_last p c (x ∷ []) h = ground arith
any_of_set_last p c (x ∷ y ∷ xs) h = ground (arith, any_of_set_last p c (y ∷ xs))

module _ (selected : Str) where
  length-swap_in :
      (visible cs : List AnchorCandidate)
      → length (swap_in selected visible cs) ≤ max 1 (length visible)
  unfolding swap_in
  length-swap_in visible [] = omega arith
  length-swap_in visible (c ∷ cs) =
      ground (arith, length-set_last c visible, length-swap_in visible cs)

  any-swap_in :
      (visible cs : List AnchorCandidate)
      → (any_anchor selected visible || any_anchor selected cs) ≡ true
      → any_anchor selected (swap_in selected visible cs) ≡ true
  unfolding swap_in
  any-swap_in visible [] h = ground arith
  any-swap_in visible (c ∷ cs) h =
      ground
        (arith, any-set_last (λ c. str_eq c.node_id selected) c visible, any-swap_in visible cs)

  any_of_swap_in :
      (p : AnchorCandidate → Bool) (visible cs : List AnchorCandidate)
      → any p (swap_in selected visible cs) ≡ true
      → (any p visible || any p cs) ≡ true
  unfolding swap_in
  any_of_swap_in p visible [] h = ground arith
  any_of_swap_in p visible (c ∷ cs) h =
      ground (arith, any_of_set_last p c visible, any_of_swap_in p visible cs)

any-take-drop {ℓ} :
    {A : Type ℓ} (p : A → Bool) (n : ℕ) (xs : List A)
    → (any p (take n xs) || any p (drop n xs)) ≡ any p xs
any-take-drop p zero xs = refl
any-take-drop p (suc n) [] = refl
any-take-drop p (suc n) (x ∷ xs) = ground (arith, any-take-drop p n xs)

-- With a limit of at least 1: at most that many candidates of an anchor decision are shown, and
-- whatever holds of a shown candidate holds of a candidate of the decision.
pub bounded_anchor_candidates_bounds :
    (limit : ℕ) (cs : List AnchorCandidate) (selected : Option Str)
    → 1 ≤ limit
    → (length (bounded_anchor_candidates limit cs selected) ≤ limit)
      × ((p : AnchorCandidate → Bool)
          → (any p (bounded_anchor_candidates limit cs selected) || any p cs) ≡ any p cs)
unfolding bounded_anchor_candidates
bounded_anchor_candidates_bounds limit cs none h =
    (omega (arith, length-take limit cs), λ p. ground (arith, any-take-drop p limit cs))
bounded_anchor_candidates_bounds limit cs (some sel) h = (
  ground (arith, length-take limit cs, length-swap_in sel (take limit cs) (drop limit cs)),
  λ p.
      ground
        (arith, any-take-drop p limit cs, any_of_swap_in sel p (take limit cs) (drop limit cs)),
)

-- With a limit of at least 1, an anchor decision shows the selected candidate, if it is one of its
-- candidates.
pub bounded_anchor_candidates_selected :
    (limit : ℕ) (cs : List AnchorCandidate) (s : Str)
    → 1 ≤ limit
    → any_anchor s cs ≡ true
    → any_anchor s (bounded_anchor_candidates limit cs (some s)) ≡ true
unfolding bounded_anchor_candidates
bounded_anchor_candidates_selected limit cs s h a = ground (
  arith,
  any-take-drop (λ (c : AnchorCandidate). str_eq c.node_id s) limit cs,
  any-swap_in s (take limit cs) (drop limit cs),
)
