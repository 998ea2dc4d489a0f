-- ===== src/Scoring.antt =====
-- scoring.py and selection_policy.py: scores of nodes, and the checks on what a policy returns.
-- Float arithmetic and md5 are parameters.
pub mod Laws
use iterative_context.Prelude.{
  Result, ok, err, ℕ, ◌+◌, ◌||◌, Option, none, some, List, [], ◌∷◌, ◌++◌, if◌then◌else◌, ℤ, pos,
  int_lt,
}
use Prim.Native.Nat.{◌%◌}
use iterative_context.Text.{Str, codes, str_eq}
use iterative_context.Text.Decimal.{decimal}
use iterative_context.Float.{Float, literal, is_nan, is_inf}
use iterative_context.Value.{Value, bool, int, float}
use iterative_context.Models.{Node, NodeState}
use iterative_context.DiGraph.{DiGraph, EdgeEntry}
use iterative_context.Events.{NodeAttrs, EdgeAttrs}

-- `of_int` is `none` where Python raises `OverflowError`.
pub record FloatOps : Type 0 where
  pub add : Float → Float → Float
  pub sub : Float → Float → Float
  pub mul : Float → Float → Float
  pub of_int : ℤ → Option Float
  pub of_nat : ℕ → Float

abbrev pub zero_float : Float
zero_float = literal 0

abbrev pub one_float : Float
one_float = literal 0x3FF0_0000_0000_0000

abbrev pub five_float : Float
five_float = literal 0x4014_0000_0000_0000

abbrev pub ten_float : Float
ten_float = literal 0x4024_0000_0000_0000

abbrev pub half_float : Float
half_float = literal 0x3FE0_0000_0000_0000

abbrev pub tenth_float : Float
tenth_float = literal 0x3FB9_9999_9999_999A

unfoldable pub in_degree : {E : Type 0} → Str → List (EdgeEntry E) → ℕ
in_degree i [] = 0
in_degree i (e ∷ es) = (if str_eq e.target i then 1 else 0) + in_degree i es

unfoldable pub out_degree : {E : Type 0} → Str → List (EdgeEntry E) → ℕ
out_degree i [] = 0
out_degree i (e ∷ es) = (if str_eq e.source i then 1 else 0) + out_degree i es

-- `min(tokens, 50)`
abbrev pub min_fifty : ℤ → ℤ
min_fifty n = if int_lt (pos 50) n then pos 50 else n

module _ (nx : DiGraph NodeAttrs EdgeAttrs) (ops : FloatOps) where
  open nx use {Graph, edges}
  open ops use {add, mul, of_int, of_nat}

  unfoldable pub degree : Str → Graph → ℕ
  degree i g = in_degree i (edges g) + out_degree i (edges g)

  -- `5.0` for a pending node, `10.0` for an anchor
  abbrev pub state_score : NodeState → Float
  state_score NodeState.pending = add zero_float five_float
  state_score NodeState.anchor = add zero_float ten_float
  state_score _ = zero_float

  -- a number of tokens that is too large for a float is at most 50 here; of one that is too small
  -- the conversion raises
  abbrev pub tokens_score : Option ℤ → Float → Option Float
  tokens_score none score = some score
  tokens_score (some n) score = elim (of_int (min_fifty n)) [
    | none ↦ none
    | some x ↦ some (add score (mul x tenth_float))
  ]

  unfoldable pub score_v1 : Node → Graph → ℕ → Option Value
  score_v1 node g step =
      let score = add (state_score node.state) (mul (of_nat (degree node.id g)) half_float) in
      elim (tokens_score node.tokens score) [ none ↦ none | some x ↦ some (float x) ]

  unfoldable pub score_degree : Node → Graph → ℕ → Option Value
  score_degree node g step = some (int (pos (degree node.id g)))

  unfoldable pub default_score_fn : Node → Graph → ℕ → Option Value
  default_score_fn node g step = score_v1 node g step

  -- `md5` is the digest read as a number
  unfoldable pub score_random : (Str → ℕ) → Node → Graph → ℕ → Option Value
  score_random md5 node g step =
      some (int (pos (md5 (node.id ++ (codes "-" ++ decimal step)) % 1000)))

-- the exceptions of `CallableSelectionPolicy.score`
pub data ScoreError : Type 0 where
  policy_crashed : ScoreError
  not_numeric : ScoreError
  too_large_for_float : ScoreError
  invalid_score : ScoreError

unfoldable pub check_finite : Float → Result ScoreError Float
check_finite x = if is_nan x || is_inf x then err invalid_score else ok x

-- What the policy returned, `none` where it raised; a bool is a number.
unfoldable pub numeric_score : FloatOps → Option Value → Result ScoreError Float
numeric_score ops none = err policy_crashed
numeric_score ops (some (float x)) = check_finite x
numeric_score ops (some (int n)) = elim (ops.of_int n) [
  | none ↦ err too_large_for_float
  | some x ↦ check_finite x
]
numeric_score ops (some (bool b)) = check_finite (if b then one_float else zero_float)
numeric_score ops (some _) = err not_numeric
