-- ===== src/FuzzyRank.antt =====
-- fuzzy_rank.py: symbols ranked for a query, and the pick of one. `lower` is `str.lower`, `ratio` is
-- rapidfuzz's `token_set_ratio` where rapidfuzz is installed, `sub` is float subtraction.
pub mod Laws
use iterative_context.Prelude.{
  sym, Bool, Option, none, some, List, [], ◌∷◌, if◌then◌else◌, take, filter,
}
use iterative_context.Text.{Str, codes, str_eq, str_lt, contains, strip, is_empty}
use iterative_context.Float.{Float, literal, float_lt, float_eq, float_ge, float_neg}
use iterative_context.Sort.{sort}

pub record RankedCandidate : Type 0 where
  pub node_id : Str
  pub symbol : Str
  pub score : Float
  pub reason : Str

-- the literals 100.0, 80.0, 60.0, 0.0, 70.0 and 5.0
abbrev pub hundred : Float
hundred = literal 0x4059_0000_0000_0000

abbrev pub eighty : Float
eighty = literal 0x4054_0000_0000_0000

abbrev pub sixty : Float
sixty = literal 0x404E_0000_0000_0000

abbrev pub seventy : Float
seventy = literal 0x4051_8000_0000_0000

abbrev pub five : Float
five = literal 0x4014_0000_0000_0000

-- the key `(-score, symbol, node_id)` compared
unfoldable pub ranked_lt : RankedCandidate → RankedCandidate → Bool
ranked_lt a b =
    if float_eq (float_neg a.score) (float_neg b.score)
    then (if str_eq a.symbol b.symbol then str_lt a.node_id b.node_id else str_lt a.symbol b.symbol)
    else float_lt (float_neg a.score) (float_neg b.score)

module _ (lower : Str → Str) (ratio : Option (Str → Str → Float)) where
  unfoldable pub fallback_score : Str → Str → Float
  fallback_score query symbol =
      let q = lower query in
      let s = lower symbol in
      if str_eq q s
      then hundred
      else (if contains q s then eighty else (if contains s q then sixty else literal 0))

  -- the score of a symbol and how it was found
  unfoldable pub score_symbol : Str → Str → Float × Str
  score_symbol q sym = elim ratio [
    | some f ↦ (f q sym, codes "rapidfuzz_token_set_ratio")
    | none ↦ (fallback_score q sym, codes "substring_tier")
  ]

  unfoldable pub score_symbols : Str → List (Str × Str) → List RankedCandidate
  score_symbols q [] = []
  score_symbols q ((i, symbol) ∷ rest) =
      let others = score_symbols q rest in
      let sym = strip symbol in
      let scored = score_symbol q sym in
      if is_empty sym
      then others
      else record { node_id = i; symbol = sym; score = scored.0; reason = scored.1 } ∷ others

  unfoldable pub rank_symbol_candidates : Str → List (Str × Str) → List RankedCandidate
  rank_symbol_candidates query symbols =
      let q = strip query in if is_empty q then [] else sort ranked_lt (score_symbols q symbols)

  module _ (sub : Float → Float → Float) (min_score gap : Float) where
    unfoldable pub pick : List RankedCandidate → Option RankedCandidate × List RankedCandidate
    pick [] = (none, [])
    pick (a ∷ []) = (some a, [])
    pick (a ∷ b ∷ rest) =
        if float_ge (sub a.score b.score) gap then (some a, []) else (none, take 8 (a ∷ b ∷ rest))

    unfoldable pub pick_unique_or_ambiguous :
        Str → List (Str × Str) → Option RankedCandidate × List RankedCandidate
    pick_unique_or_ambiguous query symbols =
        pick (filter (λ c. float_ge c.score min_score) (rank_symbol_candidates query symbols))
