-- ===== src/Serialization/Summary.antt =====
-- serialization.py: the digest of a whole graph.
pub mod Laws
use iterative_context.Prelude.{
  ℕ, suc, Bool, true, false, Option, none, some, List, [], ◌∷◌, map, ltb, ◌==◌, if◌then◌else◌,
  length, take, ℤ, pos, int_lt, max_zero,
}
use iterative_context.Text.{Str, str_eq, str_lt, strip, is_empty}
use iterative_context.Dict.{Dict, get, put}
use iterative_context.Sort.{sort}
use iterative_context.PathIds.{NodeKind, file, file_for_node_id}
use iterative_context.Models.{Node}
use iterative_context.DiGraph.{DiGraph, EdgeEntry}
use iterative_context.Events.{NodeAttrs, EdgeAttrs}
use iterative_context.Replay.Payload.{Payload, kind_text, state_text}
use iterative_context.Store.{set_add}
use iterative_context.Serialization.{edge_type}

-- `d[k] = d.get(k, 0) + 1`
unfoldable pub bump : Str → Dict ℕ → Dict ℕ
bump k d = put k (elim (get k d) [ none ↦ 1 | some n ↦ suc n ]) d

-- `s.replace("\\", "/")`
abbrev pub slashes : Str → Str
slashes s = map (λ c. if c == 92 then 47 else c) s

-- `isinstance(value, str) and value.strip()`, with the stripped text
abbrev pub stripped : Option Str → Option Str
stripped none = none
stripped (some v) = if is_empty (strip v) then none else some (strip v)

unfoldable pub summary_file : Node → NodeAttrs → Option Str
summary_file n a = elim (stripped a.file_text) [
  | some f ↦ some (slashes f)
  | none ↦ elim (file_for_node_id n.id) [ none ↦ none | some f ↦ some (slashes f) ]
]

-- `kind in {"symbol", "function", "type"}`
abbrev pub is_symbol_kind : NodeKind → Bool
is_symbol_kind file = false
is_symbol_kind _ = true

unfoldable pub summary_symbol : Node → NodeAttrs → Option Str
summary_symbol n a = elim (stripped a.symbol_text) [
  | some x ↦ some x
  | none ↦ if is_symbol_kind n.kind then some n.id else none
]

-- `s.add(x)`, where there is one
unfoldable pub add_some : Option Str → List Str → List Str
add_some none s = s
add_some (some x) s = set_add x s

-- what the loop over the nodes collects
pub record Tally : Type 0 where
  pub nodes_by_kind : Dict ℕ
  pub nodes_by_state : Dict ℕ
  pub files : List Str
  pub symbols : List Str

unfoldable pub tally_node : Node → NodeAttrs → Tally → Tally
tally_node n a t = record {
  nodes_by_kind = bump (kind_text n.kind) t.nodes_by_kind;
  nodes_by_state = bump (state_text n.state) t.nodes_by_state;
  files = add_some (summary_file n a) t.files;
  symbols = add_some (summary_symbol n a) t.symbols;
}

unfoldable pub tally_nodes : List (Str × NodeAttrs) → Tally → Option Tally
tally_nodes [] t = some t
tally_nodes ((i, a) ∷ ns) t = elim a.data_node [
  | none ↦ none
  | some n ↦ tally_nodes ns (tally_node n a t)
]

unfoldable pub tally_edges : List (EdgeEntry EdgeAttrs) → Dict ℕ → Dict ℕ
tally_edges [] d = d
tally_edges (e ∷ es) d = tally_edges es (bump (edge_type e.attrs) d)

-- the items of a dict of counts, compared
abbrev pub count_lt : Str × ℕ → Str × ℕ → Bool
count_lt a b = if str_eq a.0 b.0 then ltb a.1 b.1 else str_lt a.0 b.0

pub record GraphSummary : Type 0 where
  pub node_count : ℕ
  pub edge_count : ℕ
  pub nodes_by_kind : Dict ℕ
  pub nodes_by_state : Dict ℕ
  pub edges_by_kind : Dict ℕ
  pub files_sample : List Str
  pub files_total : ℕ
  pub symbols_sample : List Str
  pub symbols_total : ℕ
  pub files_truncated : Bool
  pub symbols_truncated : Bool
  pub metadata : Payload

abbrev pub no_tally : Tally
no_tally = record { nodes_by_kind = []; nodes_by_state = []; files = []; symbols = [] }

abbrev pub no_graph : Payload → GraphSummary
no_graph metadata = record {
  node_count = 0;
  edge_count = 0;
  nodes_by_kind = [];
  nodes_by_state = [];
  edges_by_kind = [];
  files_sample = [];
  files_total = 0;
  symbols_sample = [];
  symbols_total = 0;
  files_truncated = false;
  symbols_truncated = false;
  metadata = metadata;
}

module _ (nx : DiGraph NodeAttrs EdgeAttrs) where
  open nx use {Graph, nodes, edges}

  unfoldable pub summary_of : Graph → Payload → ℤ → ℤ → Tally → GraphSummary
  summary_of g metadata max_files max_symbols t = record {
    node_count = length (nodes g);
    edge_count = length (edges g);
    nodes_by_kind = sort count_lt t.nodes_by_kind;
    nodes_by_state = sort count_lt t.nodes_by_state;
    edges_by_kind = sort count_lt (tally_edges (edges g) []);
    files_sample = take (max_zero max_files) (sort str_lt t.files);
    files_total = length (sort str_lt t.files);
    symbols_sample = take (max_zero max_symbols) (sort str_lt t.symbols);
    symbols_total = length (sort str_lt t.symbols);
    files_truncated = int_lt max_files (pos (length (sort str_lt t.files)));
    symbols_truncated = int_lt max_symbols (pos (length (sort str_lt t.symbols)));
    metadata = metadata;
  }

  unfoldable pub serialize_graph_summary : Option Graph → Payload → ℤ → ℤ → Option GraphSummary
  serialize_graph_summary none metadata max_files max_symbols = some (no_graph metadata)
  serialize_graph_summary (some g) metadata max_files max_symbols =
      elim (tally_nodes (nodes g) no_tally) [
        | none ↦ none
        | some t ↦ some (summary_of g metadata max_files max_symbols t)
      ]
