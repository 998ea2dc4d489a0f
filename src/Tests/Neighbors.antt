-- ===== src/Tests/Neighbors.antt =====
-- The neighbours in a graph of two nodes and one edge.
use mathlib.Core.Option
use iterative_context.Prelude.{◌≡◌, refl, none, some, [], ◌∷◌, any}
use iterative_context.Text.{codes, mem}
use iterative_context.Sort.{sort, insert_sorted}
use iterative_context.Models.{Edge, EdgeKind}
use iterative_context.DiGraph.{DiGraph}
use iterative_context.DiGraph.Lists.{list_graph}
use iterative_context.Events.{NodeAttrs, EdgeAttrs, node_attrs, edge_attrs}
use iterative_context.PathIds.{symbol}
use iterative_context.Models.{pending_node}
use iterative_context.Store.{
  stored_edges, stored_edge, stored_kind, listed_kind, get_neighbors, build_indexes,
}
use iterative_context.Store.Neighbors.{connects, get_neighbors-build_indexes}

abbrev nx : DiGraph NodeAttrs EdgeAttrs
nx = list_graph NodeAttrs EdgeAttrs

abbrev edge : Edge
edge = record {
  id = none;
  source = codes "1";
  target = codes "2";
  kind = EdgeKind.imports;
  primary = none;
}

abbrev graph : nx.Graph
graph = record {
  node_list =
      (codes "1", node_attrs (pending_node (codes "1") symbol))
      ∷ (codes "2", node_attrs (pending_node (codes "2") symbol))
      ∷ [];
  edge_list = record { source = codes "1"; target = codes "2"; attrs = edge_attrs edge } ∷ [];
}

get_neighbors-build_indexes_example :
    Option.map
      (λ s. mem (codes "1") (get_neighbors (codes "2") (some (codes "imports" ∷ [])) s))
      (build_indexes nx graph)
    ≡ some (any (connects (some (codes "imports" ∷ [])) (codes "2") (codes "1")) (edge ∷ []))
unfolding stored_edges stored_edge stored_kind listed_kind sort insert_sorted
get_neighbors-build_indexes_example =
    get_neighbors-build_indexes nx graph (edge ∷ []) (some (codes "imports" ∷ [])) (codes "2")
      (codes "1") refl
