-- ===== src/Traversal/Order.antt =====
-- The candidates of a round in order.
use iterative_context.Prelude.{
  ok_inj, Result-cases, ok, ◌>>=◌, >>=-eq-ok, ℕ, suc, ◌≡◌, refl, ap, ◌∙◌, inl, inr, Bool, true,
  false, List, [], ◌∷◌, map, arith, Bool-cases, length, any, All,
}
use iterative_context.Text.{Str, str_lt}
use iterative_context.Text.Order.{str_lt_irrefl, str_lt_trans, str_lt-total, str_lt-asymm}
use iterative_context.Float.{Float, is_nan, float_lt}
use iterative_context.Float.Order.{
  float_lt_irrefl, float_lt_trans, float_eq_iff, float_lt_not_trans,
}
use iterative_context.Sort.{sort}
use iterative_context.Sort.Laws.{IsSorted, sort-IsSorted, any-sort, All-sort, length-sort}
use iterative_context.Models.{Node}
use iterative_context.DiGraph.{DiGraph}
use iterative_context.Events.{NodeAttrs, EdgeAttrs}
use iterative_context.Scoring.{FloatOps, numeric_score}
use iterative_context.Scoring.Laws.{numeric_score_finite}
use iterative_context.Traversal.Candidates.{Scored, scored_lt, scored_gt}
use iterative_context.Traversal.{ScorePolicy, score_candidate, score_candidates, rank_frontier}

float_lt-asymm : (x y : Float) → float_lt x y ≡ true → float_lt y x ≡ false
float_lt-asymm x y h = ground (arith, float_lt_trans x y x h, float_lt_irrefl x)

abbrev pub HasNumber : Scored → Type 0
HasNumber c = is_nan c.score ≡ false

scored_gt-asymm :
    (a b : Scored) → HasNumber a → HasNumber b → scored_gt a b ≡ true → scored_gt b a ≡ false
unfolding scored_lt
scored_gt-asymm a b p q h = ground (
  arith,
  float_eq_iff a.score b.score,
  float_eq_iff b.score a.score,
  float_lt-asymm a.score b.score,
  float_lt-asymm b.score a.score,
  str_lt-asymm a.node.id b.node.id,
  str_lt-asymm b.node.id a.node.id,
)

str_lt_not_trans : (a b c : Str) → str_lt a b ≡ false → str_lt b c ≡ false → str_lt a c ≡ false
str_lt_not_trans a b c h k = elim (Bool-cases (str_lt b a)) [
  | inl e ↦
      ground (arith, str_lt-asymm b a, str_lt_trans b a c, str_lt_irrefl b, str_lt_trans c b a)
  | inr n ↦ rw (str_lt-total a b h n) k
]

scored_gt_not_trans :
    (a b c : Scored)
    → HasNumber a
    → HasNumber b
    → HasNumber c
    → scored_gt b a ≡ false
    → scored_gt c b ≡ false
    → scored_gt c a ≡ false
unfolding scored_lt
scored_gt_not_trans a b c p q r h k = ground (
  arith,
  float_eq_iff a.score b.score,
  float_eq_iff b.score c.score,
  float_eq_iff a.score c.score,
  float_lt-asymm a.score b.score,
  float_lt-asymm b.score c.score,
  float_lt-asymm a.score c.score,
  float_lt_not_trans a.score b.score c.score,
  float_lt_not_trans c.score b.score a.score,
  float_lt_not_trans b.score a.score c.score,
  float_lt_not_trans b.score c.score a.score,
  float_lt_not_trans c.score a.score b.score,
  float_lt_not_trans a.score c.score b.score,
  str_lt_not_trans a.node.id b.node.id c.node.id,
)

length-nodes : (cs : List Scored) → length cs ≡ length (map (λ c. c.node) cs)
length-nodes [] = refl
length-nodes (c ∷ cs) = ap suc (length-nodes cs)

any-nodes :
    (p : Node → Bool) (cs : List Scored) → any (λ c. p c.node) cs ≡ any p (map (λ c. c.node) cs)
any-nodes p [] = refl
any-nodes p (c ∷ cs) = rw (any-nodes p cs)

module _ (nx : DiGraph NodeAttrs EdgeAttrs) (ops : FloatOps) (policy : ScorePolicy nx ops) where
  score_candidate-lem :
      (g : nx.Graph) (step : ℕ) (n : Node) (c : Scored)
      → score_candidate nx ops policy g step n ≡ ok c
      → HasNumber c × (c.node ≡ n)
  unfolding score_candidate
  score_candidate-lem g step n c h = elim (Result-cases (numeric_score ops (policy n g step))) [
    | inl (x, e) ↦
        let finite = numeric_score_finite ops (policy n g step) x e in
        let made = rw (e, score_candidate) at h in ground (arith, made, finite)
    | inr (x, e) ↦ cc (rw (e, score_candidate) at h)
  ]

  score_candidates-lem :
      (g : nx.Graph) (step : ℕ) (ns : List Node) (cs : List Scored)
      → score_candidates nx ops policy g step ns ≡ ok cs
      → All HasNumber cs × (map (λ c. c.node) cs ≡ ns)
  unfolding score_candidates
  score_candidates-lem g step [] cs h = rw (← ok_inj h) (tt, refl)
  score_candidates-lem g step (n ∷ ns) cs h =
      let (c, first, more) =
        >>=-eq-ok (score_candidate nx ops policy g step n)
          (λ c. score_candidates nx ops policy g step ns >>= λ cs. ok (c ∷ cs)) h in
      let (rest, others, made) =
        >>=-eq-ok (score_candidates nx ops policy g step ns) (λ cs. ok (c ∷ cs)) more in
      let (number, same) = score_candidate-lem g step n c first in
      let (numbers, sames) = score_candidates-lem g step ns rest others in
      rw (← ok_inj made) ((number, numbers), rw (same, sames))

  -- A round's candidates, once ranked, are the nodes of the frontier, each with a score that is a
  -- number; and none stands before another with a greater pair of score and identifier.
  pub rank_frontier_lem :
      (g : nx.Graph) (step : ℕ) (ns : List Node) (ranked : List Scored)
      → rank_frontier nx ops policy g step ns ≡ ok ranked
      → All HasNumber ranked
        × IsSorted scored_gt ranked
        × (length ranked ≡ length ns)
        × ((p : Node → Bool) → any (λ c. p c.node) ranked ≡ any p ns)
  unfolding rank_frontier
  rank_frontier_lem g step ns ranked h =
      let (cs, scored, made) =
        >>=-eq-ok (score_candidates nx ops policy g step ns) (λ cs. ok (sort scored_gt cs)) h in
      let (numbers, same) = score_candidates-lem g step ns cs scored in
      rw (← ok_inj made) (
        All-sort scored_gt HasNumber cs numbers,
        sort-IsSorted scored_gt HasNumber scored_gt-asymm scored_gt_not_trans cs numbers,
        length-sort scored_gt cs ∙ (length-nodes cs ∙ ap length same),
        λ p. any-sort scored_gt (λ c. p c.node) cs ∙ (any-nodes p cs ∙ ap (any p) same),
      )
