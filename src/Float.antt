-- ===== src/Float.antt =====
-- Python's `float`, an IEEE-754 binary64 value: its sign bit and its other 63 bits as a number.
-- Comparisons are those of the standard. Arithmetic is not defined here.
pub mod Order
use iterative_context.Prelude.{ℕ, ◌+◌, Bool, true, false, not, ◌&&◌, ◌||◌, ltb, ◌==◌}

pub record Float : Type 0 where
  pub negative : Bool
  pub magnitude : ℕ

abbrev pub inf_bits : ℕ
inf_bits = 0x7FF0_0000_0000_0000

-- `math.isnan`
unfoldable pub is_nan : Float → Bool
is_nan x = ltb inf_bits x.magnitude

-- `math.isinf`
unfoldable pub is_inf : Float → Bool
is_inf x = x.magnitude == inf_bits

abbrev pub lt_bits : Bool → ℕ → Bool → ℕ → Bool
lt_bits false m false n = ltb m n
lt_bits false m true n = false
lt_bits true m false n = ltb 0 (m + n)
lt_bits true m true n = ltb n m

-- `x < y`: false where either is a NaN, and -0.0 is not less than 0.0
unfoldable pub float_lt : Float → Float → Bool
unfolding is_nan
float_lt x y =
    not (is_nan x) && (not (is_nan y) && lt_bits x.negative x.magnitude y.negative y.magnitude)

abbrev pub eq_bits : Bool → ℕ → Bool → ℕ → Bool
eq_bits false m false n = m == n
eq_bits false m true n = m + n == 0
eq_bits true m false n = m + n == 0
eq_bits true m true n = m == n

-- `x == y`
unfoldable pub float_eq : Float → Float → Bool
unfolding is_nan
float_eq x y =
    not (is_nan x) && (not (is_nan y) && eq_bits x.negative x.magnitude y.negative y.magnitude)

-- `x >= y`
unfoldable pub float_ge : Float → Float → Bool
unfolding float_lt float_eq
float_ge x y = float_lt y x || float_eq x y

-- `-x`
unfoldable pub float_neg : Float → Float
float_neg x = record x { negative = not x.negative }

abbrev pub neg_inf : Float
neg_inf = record { negative = true; magnitude = inf_bits }

-- a literal that is not negative, by its bits
abbrev pub literal : ℕ → Float
literal m = record { negative = false; magnitude = m }
