-- ===== src/Text.antt =====
-- Python's `str` as the list of its code points, with the methods that the program calls:
-- `==`, `<`, `startswith`, `in`, `strip`, `partition` and concatenation.
pub mod Decimal
pub mod Laws
pub mod Order
pub mod Partition
use Prim.Native.Char.{code}
use Prim.Native.String.{String}
use mathlib.Core.List.{reverse}
use iterative_context.Prelude.{
  ℕ, Bool, true, false, ◌&&◌, ◌||◌, List, [], ◌∷◌, Option, none, some, ltb, leb, ◌==◌,
  if◌then◌else◌,
}

abbrev pub Str : Type 0
Str = List ℕ

-- the code points of a literal
abbrev pub codes : String → Str
codes String.[] = []
codes (String.◌∷◌ c s) = code c ∷ codes s

-- `a == b`
unfoldable pub str_eq : Str → Str → Bool
str_eq [] [] = true
str_eq [] (d ∷ t) = false
str_eq (c ∷ s) [] = false
str_eq (c ∷ s) (d ∷ t) = (c == d) && str_eq s t

-- `a < b`: by the first code point that differs
unfoldable pub str_lt : Str → Str → Bool
str_lt [] [] = false
str_lt [] (d ∷ t) = true
str_lt (c ∷ s) [] = false
str_lt (c ∷ s) (d ∷ t) = ltb c d || ((c == d) && str_lt s t)

-- `x in xs`, for a list or a set of texts
unfoldable pub mem : Str → List Str → Bool
mem x [] = false
mem x (y ∷ ys) = str_eq x y || mem x ys

-- `s.startswith(p)`
unfoldable pub starts_with : Str → Str → Bool
starts_with [] s = true
starts_with (c ∷ p) [] = false
starts_with (c ∷ p) (d ∷ s) = (c == d) && starts_with p s

-- `s[len(p):]`, for a prefix `p`
unfoldable pub drop_prefix : Str → Str → Str
drop_prefix [] s = s
drop_prefix (c ∷ p) [] = []
drop_prefix (c ∷ p) (d ∷ s) = drop_prefix p s

-- `p in s`
unfoldable pub contains : Str → Str → Bool
unfolding starts_with
contains p [] = starts_with p []
contains p (d ∷ s) = starts_with p (d ∷ s) || contains p s

-- `s.partition(sep)`: what stands before the first `sep`, and after it if there is one
unfoldable pub partition : Str → Str → Str × Option Str
unfolding starts_with drop_prefix
partition sep [] = if starts_with sep [] then ([], some []) else ([], none)
partition sep (c ∷ s) =
    let (before, after) = partition sep s in
    if starts_with sep (c ∷ s) then ([], some (drop_prefix sep (c ∷ s))) else (c ∷ before, after)

-- what `_, _, after = s.partition(sep)` binds
abbrev pub or_empty : Option Str → Str
or_empty none = []
or_empty (some s) = s

-- `str.isspace`
unfoldable pub is_space : ℕ → Bool
is_space c =
    (leb 9 c && leb c 13)
    || (leb 28 c && leb c 32)
    || c == 0x85
    || c == 0xA0
    || c == 0x1680
    || (leb 0x2000 c && leb c 0x200A)
    || c == 0x2028
    || c == 0x2029
    || c == 0x202F
    || c == 0x205F
    || c == 0x3000

unfoldable pub lstrip : Str → Str
unfolding is_space
lstrip [] = []
lstrip (c ∷ s) = if is_space c then lstrip s else c ∷ s

-- `s.strip()`
unfoldable pub strip : Str → Str
unfolding lstrip
strip s = reverse (lstrip (reverse (lstrip s)))

-- `not s`
abbrev pub is_empty : Str → Bool
is_empty [] = true
is_empty (c ∷ s) = false
