-- ===== src/Text/Order.antt =====
-- `<` on texts, as an order.
use iterative_context.Prelude.{◌≡◌, refl, true, false, [], ◌∷◌, arith}
use iterative_context.Text.{Str, str_lt}

pub str_lt_irrefl : (a : Str) → str_lt a a ≡ false
unfolding str_lt
str_lt_irrefl [] = refl
str_lt_irrefl (c ∷ s) = ground (arith, str_lt_irrefl s)

pub str_lt_trans : (a b c : Str) → str_lt a b ≡ true → str_lt b c ≡ true → str_lt a c ≡ true
unfolding str_lt
str_lt_trans [] [] c h k = cc
str_lt_trans [] (y ∷ b) [] h k = cc
str_lt_trans [] (y ∷ b) (z ∷ c) h k = refl
str_lt_trans (x ∷ a) [] c h k = cc
str_lt_trans (x ∷ a) (y ∷ b) [] h k = cc
str_lt_trans (x ∷ a) (y ∷ b) (z ∷ c) h k = ground (arith, str_lt_trans a b c)

-- of two texts neither of which is less than the other, both are one
pub str_lt-total : (a b : Str) → str_lt a b ≡ false → str_lt b a ≡ false → a ≡ b
unfolding str_lt
str_lt-total [] [] h k = refl
str_lt-total [] (y ∷ b) h k = cc
str_lt-total (x ∷ a) [] h k = cc
str_lt-total (x ∷ a) (y ∷ b) h k = ground (arith, str_lt-total a b)

pub str_lt-asymm : (a b : Str) → str_lt a b ≡ true → str_lt b a ≡ false
unfolding str_lt
str_lt-asymm [] [] h = refl
str_lt-asymm [] (y ∷ b) h = refl
str_lt-asymm (x ∷ a) [] h = cc
str_lt-asymm (x ∷ a) (y ∷ b) h = ground (arith, str_lt-asymm a b)
