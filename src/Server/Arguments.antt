-- ===== src/Server/Arguments.antt =====
-- server.py: the arguments of a tool. `nearest` is Python's `round` of a finite float, and `is_far`
-- tells whether the float is more than `_DEPTH_FLOAT_TOLERANCE` from a number.
pub mod Laws
use iterative_context.Prelude.{
  Result, ok, err, ◌>>=◌, Bool, ◌||◌, Option, none, some, if◌then◌else◌, ℤ, pos, negsuc,
}
use iterative_context.Text.{Str, codes, strip, is_empty}
use iterative_context.Float.{Float, is_nan, is_inf}
use iterative_context.Value.{Value, Fields, null, bool, int, float, str}
use iterative_context.PathIds.{or_none}
use iterative_context.Anchor.{lookup}

-- the `ValueError`s, with the key
pub data ArgumentError : Type 0 where
  no_symbol_or_query : ArgumentError
  not_string : Str → ArgumentError
  empty_string : Str → ArgumentError
  not_boolean : Str → ArgumentError
  not_integer : Str → ArgumentError
  negative_depth : ArgumentError

-- `isinstance(value, str) and value.strip()`, with the stripped text
unfoldable pub stripped_text : Option Value → Option Str
stripped_text (some (str s)) = or_none (strip s)
stripped_text _ = none

unfoldable pub take_anchor_symbol : Fields → Result ArgumentError Str
take_anchor_symbol arguments = elim (stripped_text (lookup (codes "symbol") arguments)) [
  | some s ↦ ok s
  | none ↦ elim (stripped_text (lookup (codes "query") arguments)) [
    | some s ↦ ok s
    | none ↦ err no_symbol_or_query
  ]
]

-- a depth that is a number
unfoldable pub nonnegative : ℤ → Result ArgumentError ℤ
nonnegative (pos n) = ok (pos n)
nonnegative (negsuc n) = err negative_depth

module _ (nearest : Float → ℤ) (is_far : Float → ℤ → Bool) where
  unfoldable pub float_depth : Float → Result ArgumentError ℤ
  float_depth x =
      if is_nan x || is_inf x
      then err (not_integer (codes "depth"))
      else if is_far x (nearest x)
      then err (not_integer (codes "depth"))
      else nonnegative (nearest x)

  unfoldable pub depth_value : Value → ℤ → Result ArgumentError ℤ
  depth_value null default = ok default
  depth_value (bool b) default = err (not_integer (codes "depth"))
  depth_value (int n) default = nonnegative n
  depth_value (float x) default = float_depth x
  depth_value _ default = err (not_integer (codes "depth"))

  unfoldable pub take_depth : Fields → ℤ → Result ArgumentError ℤ
  take_depth arguments default = elim (lookup (codes "depth") arguments) [
    | none ↦ ok default
    | some v ↦ depth_value v default
  ]

unfoldable pub string_value : Str → Option Value → Result ArgumentError Str
string_value key (some (str s)) = ok s
string_value key _ = err (not_string key)

unfoldable pub require_str : Fields → Str → Result ArgumentError Str
require_str arguments key = string_value key (lookup key arguments)

unfoldable pub require_non_empty_str : Fields → Str → Result ArgumentError Str
require_non_empty_str arguments key = require_str arguments key >>= λ s.
    if is_empty (strip s) then err (empty_string key) else ok (strip s)

unfoldable pub optional_value : Str → Value → Result ArgumentError (Option Str)
optional_value key null = ok none
optional_value key (str s) = ok (or_none (strip s))
optional_value key _ = err (not_string key)

-- a default is a text
unfoldable pub optional_str : Fields → Str → Option Str → Result ArgumentError (Option Str)
optional_str arguments key default = elim (lookup key arguments) [
  | some v ↦ optional_value key v
  | none ↦ elim default [ none ↦ ok none | some s ↦ ok (or_none (strip s)) ]
]

unfoldable pub bool_value : Str → Value → Result ArgumentError Bool
bool_value key (bool b) = ok b
bool_value key _ = err (not_boolean key)

unfoldable pub optional_bool : Fields → Str → Bool → Result ArgumentError Bool
optional_bool arguments key default = elim (lookup key arguments) [
  | none ↦ ok default
  | some v ↦ bool_value key v
]

-- a bool is an `int`
unfoldable pub int_value : Str → Option Value → Result ArgumentError ℤ
int_value key (some (int n)) = ok n
int_value key (some (bool b)) = ok (pos (if b then 1 else 0))
int_value key _ = err (not_integer key)

unfoldable pub require_int : Fields → Str → Result ArgumentError ℤ
require_int arguments key = int_value key (lookup key arguments)
