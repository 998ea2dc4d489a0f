-- ===== src/Value.antt =====
-- The values of Python that the program passes around untyped: those of JSON, and `other` for a
-- value of any other class. The key of a dict is `none` where it is no text.
use iterative_context.Prelude.{Bool, true, false, Option, none, some, ℤ}
use iterative_context.Text.{Str, str_eq}
use iterative_context.Float.{Float}

mutual
  pub data Value : Type 0 where
    null : Value
    bool : Bool → Value
    int : ℤ → Value
    float : Float → Value
    str : Str → Value
    list : Items → Value
    dict : Fields → Value
    other : Value

  pub data Items : Type 0 where
    nil : Items
    cons : Value → Items → Items

  pub data Fields : Type 0 where
    end : Fields
    field : Option Str → Value → Fields → Fields

-- `value is not None`
abbrev pub is_some : Value → Bool
is_some null = false
is_some _ = true

-- `value if isinstance(value, str) else None`
abbrev pub as_str : Option Value → Option Str
as_str (some (str s)) = some s
as_str _ = none

-- `value == s`, for a text `s`
unfoldable pub is_text : Str → Option Value → Bool
is_text s (some (str t)) = str_eq t s
is_text s _ = false

-- a field that may be `None`
abbrev pub of_option_str : Option Str → Value
of_option_str none = null
of_option_str (some s) = str s
