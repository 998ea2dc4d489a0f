-- ===== src/FuzzyRank/Laws.antt =====
-- What the pick of a symbol gives.
use iterative_context.Prelude.{
  ◌≤◌, ◌≡◌, refl, ◌≢◌, inl, inr, Bool, true, Option, none, some, List, [], ◌∷◌, arith, Bool-cases,
  length, filter, All, length-take, All-take,
}
use iterative_context.Text.{Str}
use iterative_context.Float.{Float, float_ge}
use iterative_context.FuzzyRank.{
  RankedCandidate, rank_symbol_candidates, pick, pick_unique_or_ambiguous,
}

All-filter :
    (p : RankedCandidate → Bool) (cs : List RankedCandidate) → All (λ c. p c ≡ true) (filter p cs)
All-filter p [] = tt
All-filter p (c ∷ cs) = elim (Bool-cases (p c)) [
  | inl e ↦ rw e (e, All-filter p cs)
  | inr e ↦ rw e (All-filter p cs)
]

-- A winner leaves no candidates; without one there are none, or from two to eight of them. All of
-- them have the least score.
abbrev pub IsPick : Float → Option RankedCandidate × List RankedCandidate → Type 0
IsPick min_score (some c, left) = (float_ge c.score min_score ≡ true) × (left ≡ [])
IsPick min_score (none, left) =
    All (λ c. float_ge c.score min_score ≡ true) left × (length left ≤ 8) × (length left ≢ 1)

module _ (lower : Str → Str) (ratio : Option (Str → Str → Float)) (sub : Float → Float → Float)
    (min_score gap : Float) where
  pick-IsPick :
      (cs : List RankedCandidate)
      → All (λ c. float_ge c.score min_score ≡ true) cs
      → IsPick min_score (pick lower ratio sub min_score gap cs)
  unfolding pick
  pick-IsPick [] h = (tt, omega arith, omega arith)
  pick-IsPick (a ∷ []) (p, h) = (p, refl)
  pick-IsPick (a ∷ b ∷ rest) (p, (q, h)) = elim (Bool-cases (float_ge (sub a.score b.score) gap)) [
    | inl e ↦ rw e (p, refl)
    | inr e ↦ rw e (
      All-take _ 8 (a ∷ b ∷ rest) (p, (q, h)),
      omega (arith, length-take 8 (a ∷ b ∷ rest)),
      omega (arith, length-take 6 rest),
    )
  ]

  -- The pick for any query and symbols gives a winner alone, whose score is at least the least one; or
  -- no winner, and no candidate or from two to eight candidates, with such scores.
  pub pick_unique_or_ambiguous-IsPick :
      (query : Str) (symbols : List (Str × Str))
      → IsPick min_score (pick_unique_or_ambiguous lower ratio sub min_score gap query symbols)
  unfolding pick_unique_or_ambiguous
  pick_unique_or_ambiguous-IsPick query symbols =
      pick-IsPick _ (All-filter _ (rank_symbol_candidates lower ratio query symbols))
