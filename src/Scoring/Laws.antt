-- ===== src/Scoring/Laws.antt =====
-- Scores that pass the checks are finite.
use iterative_context.Prelude.{ok, ◌≡◌, inl, inr, false, Option, none, some, arith, Option-cases}
use iterative_context.Float.{Float, is_nan, is_inf}
use iterative_context.Value.{Value, bool, int, float}
use iterative_context.Scoring.{FloatOps, check_finite, numeric_score}

check_finite_finite :
    (x y : Float) → check_finite x ≡ ok y → (is_nan y ≡ false) × (is_inf y ≡ false)
unfolding check_finite
check_finite_finite x y h = ground arith

-- Whatever a policy returns, a score that is accepted is neither a NaN nor infinite.
pub numeric_score_finite :
    (ops : FloatOps) (v : Option Value) (y : Float)
    → numeric_score ops v ≡ ok y
    → (is_nan y ≡ false) × (is_inf y ≡ false)
unfolding numeric_score
numeric_score_finite ops none y h = cc
numeric_score_finite ops (some (float x)) y h = check_finite_finite x y h
numeric_score_finite ops (some (int n)) y h = elim (Option-cases (ops.of_int n)) [
  | inl e ↦ cc (rw (e, numeric_score) at h)
  | inr (x, e) ↦ check_finite_finite x y (rw (e, numeric_score) at h)
]
numeric_score_finite ops (some (bool b)) y h = check_finite_finite _ y h
numeric_score_finite ops (some _) y h = cc
