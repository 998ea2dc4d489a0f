-- ===== src/Text/Decimal.antt =====
-- `str(n)` of a natural number.
use Prim.Native.Nat.{◌/◌, ◌%◌}
use iterative_context.Prelude.{ℕ, zero, suc, ◌+◌, true, false, [], ◌∷◌, ltb}
use iterative_context.Text.{Str}

-- the digits of `n` before `acc`; `fuel` above `n` is enough
unfoldable pub digits_before : ℕ → ℕ → Str → Str
digits_before zero n acc = acc
digits_before (suc fuel) n acc = elim (ltb n 10) [
  | true ↦ (b'0' + n) ∷ acc
  | false ↦ digits_before fuel (n / 10) ((b'0' + n % 10) ∷ acc)
]

unfoldable pub decimal : ℕ → Str
unfolding digits_before
decimal n = digits_before (suc n) n []
