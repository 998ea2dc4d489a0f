-- ===== src/Session/Build.antt =====
-- graph_session.py: the graph of a session, made from the normalised graph of a repository. The
-- normalised graph holds no embedded edges, so the kind of an edge is its `kind` text.
pub mod Laws
pub mod Nodes
use iterative_context.Prelude.{◌||◌, Option, none, some, List, [], ◌∷◌, if◌then◌else◌}
use iterative_context.Text.{Str, codes, str_eq}
use iterative_context.PathIds.{NodeKind, function, file, type, node_kind_for_id}
use iterative_context.Models.{Edge, EdgeKind, pending_node}
use iterative_context.DiGraph.{DiGraph, EdgeEntry}
use iterative_context.Events.{NodeAttrs, EdgeAttrs, edge_attrs}
use iterative_context.Normalize.{RawAttrs, RawTree, raw_tree_to_graph}

unfoldable pub normalize_node_kind : Option Str → Str → NodeKind
normalize_node_kind none node_id = node_kind_for_id node_id
normalize_node_kind (some raw) node_id =
    if str_eq raw (codes "function")
    then function
    else if str_eq raw (codes "file")
    then file
    else if str_eq raw (codes "type") || str_eq raw (codes "module")
    then type
    else node_kind_for_id node_id

unfoldable pub normalize_edge_kind : Option Str → EdgeKind
normalize_edge_kind none = EdgeKind.references
normalize_edge_kind (some raw) =
    if str_eq raw (codes "imports")
    then EdgeKind.imports
    else if str_eq raw (codes "calls")
    then EdgeKind.calls
    else EdgeKind.references

-- the text at `file`, where it is one
abbrev pub file_text : Option (Option Str) → Option Str
file_text none = none
file_text (some f) = f

unfoldable pub built_attrs : Str → RawAttrs → NodeAttrs
built_attrs node_id a = record {
  data_node = some (pending_node node_id (normalize_node_kind a.type_key node_id));
  symbol_text = a.symbol_key;
  file_text = file_text a.file_key;
}

unfoldable pub built_edge : EdgeEntry Str → Edge
built_edge e = record {
  id = none;
  source = e.source;
  target = e.target;
  kind = normalize_edge_kind (some e.attrs);
  primary = none;
}

module _ (raw : DiGraph RawAttrs Str) (nx : DiGraph NodeAttrs EdgeAttrs) where
  open nx use {Graph, empty, add_node, add_edge}

  unfoldable pub copy_nodes : List (Str × RawAttrs) → Graph → Graph
  copy_nodes [] g = g
  copy_nodes ((i, a) ∷ ns) g = copy_nodes ns (add_node i (built_attrs i a) g)

  unfoldable pub copy_edges : List (EdgeEntry Str) → Graph → Graph
  copy_edges [] g = g
  copy_edges (e ∷ es) g = copy_edges es (add_edge e.source e.target (edge_attrs (built_edge e)) g)

  -- `_build_graph_from_repo`, on the tree that the ingestion returns
  unfoldable pub build_graph : RawTree → Graph
  build_graph tree =
      let base = raw_tree_to_graph raw tree in
      copy_edges (raw.edges base) (copy_nodes (raw.nodes base) empty)
