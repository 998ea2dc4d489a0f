-- ===== src/Server/Arguments/Laws.antt =====
-- The depth and the symbol that the tools take.
use iterative_context.Prelude.{
  ok_inj, ok, ℕ, ◌≡◌, sym, inl, inr, Bool, ◌||◌, Bool-cases, Option-cases, ℤ, pos, negsuc,
}
use iterative_context.Text.{codes}
use iterative_context.Float.{Float, is_nan, is_inf}
use iterative_context.Value.{Value, Fields, null, bool, int, float, str, dict}
use iterative_context.Anchor.{lookup}
use iterative_context.Server.Arguments.{nonnegative, float_depth, depth_value, take_depth}

nonnegative-pos : (z y : ℤ) → nonnegative z ≡ ok y → (n : ℕ) × (y ≡ pos n)
unfolding nonnegative
nonnegative-pos (pos n) y h = (n, sym (ok_inj h))
nonnegative-pos (negsuc n) y h = cc

module _ (nearest : Float → ℤ) (is_far : Float → ℤ → Bool) where
  float_depth-pos :
      (x : Float) (y : ℤ) → float_depth nearest is_far x ≡ ok y → (n : ℕ) × (y ≡ pos n)
  unfolding float_depth
  float_depth-pos x y h = elim (Bool-cases (is_nan x || is_inf x)) [
    | inl e ↦ cc (rw (e, float_depth) at h)
    | inr e ↦ elim (Bool-cases (is_far x (nearest x))) [
      | inl f ↦ cc (rw (f, float_depth) at (rw (e, float_depth) at h))
      | inr f ↦ nonnegative-pos (nearest x) y (rw (f, float_depth) at (rw (e, float_depth) at h))
    ]
  ]

  depth_value-pos :
      (v : Value) (default : ℕ) (y : ℤ)
      → depth_value nearest is_far v (pos default) ≡ ok y
      → (n : ℕ) × (y ≡ pos n)
  unfolding depth_value
  depth_value-pos null default y h = (default, sym (ok_inj h))
  depth_value-pos (bool b) default y h = cc
  depth_value-pos (int n) default y h = nonnegative-pos n y h
  depth_value-pos (float x) default y h = float_depth-pos x y h
  depth_value-pos (str s) default y h = cc
  depth_value-pos (Value.list vs) default y h = cc
  depth_value-pos (dict fs) default y h = cc
  depth_value-pos Value.other default y h = cc

  -- Where the default is not negative, the depth that is taken is not negative.
  pub take_depth-pos :
      (arguments : Fields) (default : ℕ) (y : ℤ)
      → take_depth nearest is_far arguments (pos default) ≡ ok y
      → (n : ℕ) × (y ≡ pos n)
  unfolding take_depth
  take_depth-pos arguments default y h = elim (Option-cases (lookup (codes "depth") arguments)) [
    | inl e ↦ (default, sym (ok_inj (rw (e, take_depth) at h)))
    | inr (v, e) ↦ depth_value-pos v default y (rw (e, take_depth) at h)
  ]
