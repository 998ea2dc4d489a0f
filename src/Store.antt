-- ===== src/Store.antt =====
-- store.py: the indexes of a graph, and the questions that they answer. `lower` is `str.lower`, `ratio`
-- rapidfuzz's `token_set_ratio` where it is installed, `sub` float subtraction.
pub mod Resolve
pub mod Neighbors
pub mod Neighborhood
pub mod Laws
use iterative_context.Prelude.{Bool, true, Option, none, some, List, [], ◌∷◌, ◌++◌, if◌then◌else◌}
use iterative_context.Text.{Str, codes, str_eq, str_lt, mem}
use iterative_context.Dict.{Dict, get, put}
use iterative_context.Sort.{sort}
use iterative_context.Models.{Node, Edge, EdgeKind}
use iterative_context.DiGraph.{DiGraph, EdgeEntry}
use iterative_context.Events.{NodeAttrs, EdgeAttrs}
use iterative_context.Replay.Payload.{kind_text, edge_kind_text}

-- `d.get(k, [])`
unfoldable pub listed {ℓ} : {A : Type ℓ} → Str → Dict (List A) → List A
listed k d = elim (get k d) [ none ↦ [] | some xs ↦ xs ]

-- `d.setdefault(k, []).append(x)`
unfoldable pub push {ℓ} : {A : Type ℓ} → Str → A → Dict (List A) → Dict (List A)
push k x d = put k (listed k d ++ x ∷ []) d

-- `sorted(d.items(), key=lambda item: item[0])`
abbrev pub key_lt {ℓ} : {A : Type ℓ} → Str × A → Str × A → Bool
key_lt a b = str_lt a.0 b.0

unfoldable pub push_some : Option Str → Str → Dict (List Str) → Dict (List Str)
push_some none i d = d
push_some (some k) i d = push k i d

-- `mapping[key] = sorted(mapping[key])` for every key
unfoldable pub sort_values : Dict (List Str) → Dict (List Str)
sort_values [] = []
sort_values ((k, ids) ∷ d) = (k, sort str_lt ids) ∷ sort_values d

-- `index_by_symbol` and `index_by_file` hold what `nodes_by_symbol` and `nodes_by_file` hold
unfoldable pub index_symbols : List (Str × NodeAttrs) → Dict (List Str) → Dict (List Str)
index_symbols [] d = d
index_symbols ((i, a) ∷ ns) d = index_symbols ns (push_some a.symbol_text i d)

unfoldable pub index_files : List (Str × NodeAttrs) → Dict (List Str) → Dict (List Str)
index_files [] d = d
index_files ((i, a) ∷ ns) d = index_files ns (push_some a.file_text i d)

unfoldable pub edge_kind_of_text : Str → Option EdgeKind
edge_kind_of_text s =
    if str_eq s (codes "calls")
    then some EdgeKind.calls
    else (if str_eq s (codes "imports")
        then some EdgeKind.imports
        else (if str_eq s (codes "references") then some EdgeKind.references else none))

-- the kind of the embedded edge where the attribute is none of the three
abbrev pub embedded_kind : EdgeAttrs → Option EdgeKind
embedded_kind a = elim a.data_edge [
  | some e ↦ some e.kind
  | none ↦ elim a.kind_text [ none ↦ some EdgeKind.references | some _ ↦ none ]
]

unfoldable pub listed_kind : Option Str → Option EdgeKind
listed_kind none = none
listed_kind (some s) = edge_kind_of_text s

-- The kind of a stored edge; `none` where `GraphEdge` rejects the text.
unfoldable pub stored_kind : EdgeAttrs → Option EdgeKind
stored_kind a = elim (listed_kind a.kind_text) [ some k ↦ some k | none ↦ embedded_kind a ]

unfoldable pub stored_edge : EdgeEntry EdgeAttrs → Option Edge
stored_edge e = elim (stored_kind e.attrs) [
  | none ↦ none
  | some k ↦ some (record {
    id = e.attrs.id_text;
    source = e.source;
    target = e.target;
    kind = k;
    primary = e.attrs.primary_flag;
  })
]

unfoldable pub stored_edges : List (EdgeEntry EdgeAttrs) → Option (List Edge)
stored_edges [] = some []
stored_edges (e ∷ es) =
    let rest = stored_edges es in
    elim (stored_edge e) [
      | none ↦ none
      | some x ↦ elim rest [ none ↦ none | some xs ↦ some (x ∷ xs) ]
    ]

-- the key `(item[0], item[1])` compared
abbrev pub entry_lt : EdgeEntry EdgeAttrs → EdgeEntry EdgeAttrs → Bool
entry_lt a b =
    if str_eq a.source b.source then str_lt a.target b.target else str_lt a.source b.source

unfoldable pub index_out : List Edge → Dict (List Edge) → Dict (List Edge)
index_out [] d = d
index_out (e ∷ es) d = index_out es (push e.source e d)

unfoldable pub index_in : List Edge → Dict (List Edge) → Dict (List Edge)
index_in [] d = d
index_in (e ∷ es) d = index_in es (push e.target e d)

-- `kinds is None or edge.kind in kinds`
abbrev pub in_kinds : Option (List Str) → Edge → Bool
in_kinds none e = true
in_kinds (some ks) e = mem (edge_kind_text e.kind) ks

-- a set of texts, as a list that holds each once
unfoldable pub set_add : Str → List Str → List Str
set_add i s = if mem i s then s else i ∷ s

unfoldable pub add_targets : Option (List Str) → List Edge → List Str → List Str
add_targets ks [] s = s
add_targets ks (e ∷ es) s = add_targets ks es (if in_kinds ks e then set_add e.target s else s)

unfoldable pub add_sources : Option (List Str) → List Edge → List Str → List Str
add_sources ks [] s = s
add_sources ks (e ∷ es) s = add_sources ks es (if in_kinds ks e then set_add e.source s else s)

-- the first identifier of every symbol_textbol
unfoldable pub first_ids : Dict (List Str) → List (Str × Str)
first_ids [] = []
first_ids ((symbol_text, ids) ∷ d) =
    let rest = first_ids d in elim (sort str_lt ids) [ [] ↦ rest | i ∷ _ ↦ (i, symbol_text) ∷ rest ]

-- the attributes of a `GraphStore`
pub record Store (G : Type 0) : Type 0 where
  pub graph : G
  pub nodes_by_id : Dict NodeAttrs
  pub index_by_symbol : Dict (List Str)
  pub index_by_file : Dict (List Str)
  pub out_edges : Dict (List Edge)
  pub in_edges : Dict (List Edge)

module _ {G : Type 0} where
  unfoldable pub find_symbol : Str → Store G → List Str
  find_symbol symbol s = listed symbol s.index_by_symbol

  unfoldable pub symbol_index : Store G → List (Str × Str)
  symbol_index s = first_ids s.index_by_symbol

  unfoldable pub get_neighbors : Str → Option (List Str) → Store G → List Str
  get_neighbors i kinds s =
      sort str_lt
        (add_sources kinds (listed i s.in_edges) (add_targets kinds (listed i s.out_edges) []))

module _ (nx : DiGraph NodeAttrs EdgeAttrs) where
  open nx use {Graph, nodes, edges}

  -- the indexes, from the edges that `GraphEdge` accepted
  abbrev pub indexes : Graph → List Edge → Store Graph
  indexes g es =
      let ns = sort key_lt (nodes g) in
      record {
        graph = g;
        nodes_by_id = ns;
        index_by_symbol = sort_values (index_symbols ns []);
        index_by_file = sort_values (index_files ns []);
        out_edges = index_out es [];
        in_edges = index_in es [];
      }

  -- `GraphStore(graph)`: `none` where an edge is rejected
  unfoldable pub build_indexes : Graph → Option (Store Graph)
  build_indexes g = elim (stored_edges (sort entry_lt (edges g))) [
    | none ↦ none
    | some es ↦ some (indexes g es)
  ]

  unfoldable pub node_for_id : Str → Store Graph → Option Node
  node_for_id i s = elim (get i (nodes s.graph)) [ none ↦ none | some a ↦ a.data_node ]
