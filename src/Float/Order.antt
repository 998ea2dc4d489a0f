-- ===== src/Float/Order.antt =====
-- `<` and `==` on the floats that are not NaN, as an order.
use iterative_context.Prelude.{◌≡◌, true, false, not, ◌||◌, arith}
use iterative_context.Float.{Float, is_nan, float_lt, float_eq}

pub float_lt_irrefl : (x : Float) → float_lt x x ≡ false
unfolding float_lt
float_lt_irrefl x = ground arith

pub float_lt_trans :
    (x y z : Float) → float_lt x y ≡ true → float_lt y z ≡ true → float_lt x z ≡ true
unfolding float_lt
float_lt_trans x y z h k = ground arith

pub float_eq_iff :
    (x y : Float)
    → is_nan x ≡ false
    → is_nan y ≡ false
    → float_eq x y ≡ not (float_lt x y || float_lt y x)
unfolding float_lt float_eq
float_eq_iff x y h k = ground arith

pub float_lt_not_trans :
    (x y z : Float)
    → is_nan x ≡ false
    → is_nan y ≡ false
    → is_nan z ≡ false
    → float_lt x y ≡ false
    → float_lt y z ≡ false
    → float_lt x z ≡ false
unfolding float_lt
float_lt_not_trans x y z a b c h k = ground arith
