-- ===== src/PathIds.antt =====
-- path_ids.py: the identifiers of graph nodes, and what is read back from them. The methods of
-- `pathlib.Path` that the module calls are the parameter `PathLib`.
pub mod RoundTrip
use mathlib.Core.Option
use iterative_context.Prelude.{
  Bool, ◌||◌, Option, none, some, List, [], ◌∷◌, ◌++◌, map, if◌then◌else◌,
}
use iterative_context.Text.{
  Str, codes, starts_with, drop_prefix, partition, or_empty, strip, is_empty,
}

-- `Literal["symbol", "function", "file", "type"]`
pub data NodeKind : Type 0 where
  symbol function file type : NodeKind

abbrev pub file_prefix : Str
file_prefix = codes "file:"

abbrev pub function_prefix : Str
function_prefix = codes "function:"

abbrev pub module_prefix : Str
module_prefix = codes "module:"

abbrev pub symbol_prefix : Str
symbol_prefix = codes "symbol:"

abbrev pub type_prefix : Str
type_prefix = codes "type:"

-- A path is its text. `relative_to` is `none` where pathlib raises `ValueError`.
pub record PathLib : Type 0 where
  pub resolve : Str → Str
  pub is_absolute : Str → Bool
  pub join : Str → Str → Str
  pub relative_to : Str → Str → Option Str
  pub as_posix : Str → Str

module _ (p : PathLib) where
  open p use {resolve, is_absolute, join, relative_to, as_posix}

  unfoldable pub repo_relative_path : Str → Str → Option Str
  repo_relative_path path repo_root =
      let root = resolve repo_root in
      let candidate = if is_absolute path then path else resolve (join root path) in
      Option.map as_posix (relative_to candidate root)

  unfoldable pub file_node_id : Str → Str → Option Str
  file_node_id path repo_root =
      Option.map (λ rel. file_prefix ++ rel) (repo_relative_path path repo_root)

  unfoldable pub function_node_id : Str → Str → Str → Option Str
  function_node_id path function_name repo_root =
      Option.map (λ rel. function_prefix ++ (rel ++ (codes "::" ++ strip function_name)))
        (repo_relative_path path repo_root)

  -- with `path` and `repo_root` both given, or with either of them left out
  unfoldable pub symbol_node_id : Str → Option (Str × Str) → Option Str
  symbol_node_id name none = some (symbol_prefix ++ strip name)
  symbol_node_id name (some (path, repo_root)) =
      Option.map (λ rel. symbol_prefix ++ (strip name ++ (codes "@" ++ rel)))
        (repo_relative_path path repo_root)

unfoldable pub module_node_id : Str → Str
module_node_id m = module_prefix ++ strip m

unfoldable pub type_node_id : Str → Str
type_node_id name = type_prefix ++ strip name

unfoldable pub node_kind_for_id : Str → NodeKind
node_kind_for_id node_id =
    if starts_with function_prefix node_id
    then function
    else if starts_with file_prefix node_id
    then file
    else if starts_with type_prefix node_id || starts_with module_prefix node_id
    then type
    else symbol

-- `a or b`, on texts
abbrev pub or_text : Str → Str → Str
or_text a b = if is_empty a then b else a

-- `for prefix in (…): if node_id.startswith(prefix): return node_id[len(prefix):]`
unfoldable pub first_prefix_label : List Str → Str → Str
first_prefix_label [] node_id = node_id
first_prefix_label (prefix ∷ rest) node_id =
    if starts_with prefix node_id
    then drop_prefix prefix node_id
    else first_prefix_label rest node_id

unfoldable pub node_label_for_id : Str → Str
unfolding first_prefix_label
node_label_for_id node_id =
    if starts_with function_prefix node_id
    then or_text (or_empty (partition (codes "::") (drop_prefix function_prefix node_id)).1) node_id
    else if starts_with symbol_prefix node_id
    then or_text (partition (codes "@") (drop_prefix symbol_prefix node_id)).0 node_id
    else first_prefix_label (file_prefix ∷ module_prefix ∷ symbol_prefix ∷ type_prefix ∷ []) node_id

-- `s or None`
abbrev pub or_none : Str → Option Str
or_none s = if is_empty s then none else some s

unfoldable pub file_for_node_id : Str → Option Str
file_for_node_id node_id =
    if starts_with file_prefix node_id
    then some (drop_prefix file_prefix node_id)
    else if starts_with function_prefix node_id
    then or_none (partition (codes "::") (drop_prefix function_prefix node_id)).0
    else if starts_with symbol_prefix node_id
    then or_none (or_empty (partition (codes "@") (drop_prefix symbol_prefix node_id)).1)
    else none
