-- ===== src/Tests/Ids.antt =====
-- Identifiers of the file "src/a.py".
use mathlib.Core.Option
use iterative_context.Prelude.{◌≡◌, refl, false, none, some, []}
use iterative_context.Text.{Str, codes, strip, lstrip, is_space, contains, starts_with}
use iterative_context.PathIds.{
  PathLib, file, function, type, symbol, repo_relative_path, file_node_id, function_node_id,
  symbol_node_id, type_node_id, module_node_id,
}
use iterative_context.PathIds.RoundTrip.{
  fields_of, fields_of-function_node_id, fields_of-symbol_node_id, fields_of_plain_ids,
}

-- a `pathlib` whose paths are all relative to the root
abbrev path_lib : PathLib
path_lib = record {
  resolve = λ p. p;
  is_absolute = λ p. false;
  join = λ root p. p;
  relative_to = λ p root. some p;
  as_posix = λ p. p;
}

abbrev path : Str
path = codes "src/a.py"

fields_of-function_node_id_example :
    fields_of (codes "function:src/a.py::main")
    ≡ record { kind = function; label = codes "main"; file = some path }
unfolding repo_relative_path contains starts_with strip lstrip is_space function_node_id
fields_of-function_node_id_example =
    fields_of-function_node_id path_lib path (codes " main") [] path
      (codes "function:src/a.py::main") refl refl refl refl

fields_of-symbol_node_id_example :
    (Option.map fields_of (symbol_node_id path_lib (codes "main") (some (path, [])))
      ≡ some (record { kind = symbol; label = codes "main"; file = some path }))
    × (Option.map fields_of (symbol_node_id path_lib (codes "main") none)
        ≡ some (record { kind = symbol; label = codes "main"; file = none }))
unfolding repo_relative_path contains starts_with strip lstrip is_space
fields_of-symbol_node_id_example =
    fields_of-symbol_node_id path_lib path (codes "main") [] path refl refl refl

fields_of_plain_ids_example :
    (Option.map fields_of (file_node_id path_lib path [])
      ≡ some (record { kind = file; label = path; file = some path }))
    × (fields_of (type_node_id (codes "T"))
        ≡ record { kind = type; label = codes "T"; file = none })
    × (fields_of (module_node_id (codes "T"))
        ≡ record { kind = type; label = codes "T"; file = none })
unfolding repo_relative_path strip lstrip is_space
fields_of_plain_ids_example = fields_of_plain_ids path_lib path [] path (codes "T") refl
