-- ===== src/PathIds/RoundTrip.antt =====
-- What is read from an identifier.
use iterative_context.Prelude.{◌≡◌, false, Option, none, some, ◌++◌, arith}
use iterative_context.Text.{Str, codes, starts_with, drop_prefix, contains, strip, is_empty}
use mathlib.Core.Option
use iterative_context.Text.Partition.{partition_colons, partition_at, partition-none}
use iterative_context.PathIds.{
  PathLib, NodeKind, repo_relative_path, file_node_id, function_node_id, symbol_node_id,
  module_node_id, type_node_id, node_kind_for_id, node_label_for_id, file_for_node_id, or_none,
  function, file, type, symbol,
}

-- kind, label and file that the module reads back from an identifier
pub record Fields : Type 0 where
  pub kind : NodeKind
  pub label : Str
  pub file : Option Str

abbrev pub fields_of : Str → Fields
fields_of node_id = record {
  kind = node_kind_for_id node_id;
  label = node_label_for_id node_id;
  file = file_for_node_id node_id;
}

-- The identifier of a function, made from a path whose relative form has no "::" (nor ends in a
-- ":") and a name that is not blank, reads back as kind function, the stripped name, and the
-- relative path (no file where that is empty).
pub fields_of-function_node_id :
    (p : PathLib) (path name root rel node_id : Str)
    → repo_relative_path p path root ≡ some rel
    → contains (codes "::") (rel ++ codes ":") ≡ false
    → is_empty (strip name) ≡ false
    → function_node_id p path name root ≡ some node_id
    → fields_of node_id ≡ record { kind = function; label = strip name; file = or_none rel }
unfolding function_node_id node_kind_for_id node_label_for_id file_for_node_id starts_with
    drop_prefix
fields_of-function_node_id p path name root rel node_id r no_sep named h =
    ground (arith, partition_colons rel (strip name))

-- The identifier of a symbol in a file, made from a name that is not blank and holds no "@", reads
-- back as kind symbol, the stripped name, and the relative path (no file where that is empty).
-- Without a path it reads back with no file.
pub fields_of-symbol_node_id :
    (p : PathLib) (path name root rel : Str)
    → repo_relative_path p path root ≡ some rel
    → contains (codes "@") (strip name) ≡ false
    → is_empty (strip name) ≡ false
    → (Option.map fields_of (symbol_node_id p name (some (path, root)))
        ≡ some (record { kind = symbol; label = strip name; file = or_none rel }))
      × (Option.map fields_of (symbol_node_id p name none)
          ≡ some (record { kind = symbol; label = strip name; file = none }))
unfolding symbol_node_id node_kind_for_id node_label_for_id file_for_node_id starts_with drop_prefix
fields_of-symbol_node_id p path name root rel r no_sep named =
    ground (arith, partition_at (strip name) rel, partition-none (codes "@") (strip name))

-- The identifiers of files, types and modules read back with their kind (a module has kind type) and
-- with the text that they were made from; only that of a file names a file.
pub fields_of_plain_ids :
    (p : PathLib) (path root rel name : Str)
    → repo_relative_path p path root ≡ some rel
    → (Option.map fields_of (file_node_id p path root)
        ≡ some (record { kind = file; label = rel; file = some rel }))
      × (fields_of (type_node_id name) ≡ record { kind = type; label = strip name; file = none })
      × (fields_of (module_node_id name) ≡ record { kind = type; label = strip name; file = none })
unfolding file_node_id type_node_id module_node_id node_kind_for_id node_label_for_id
    file_for_node_id starts_with drop_prefix
fields_of_plain_ids p path root rel name r = ground arith
