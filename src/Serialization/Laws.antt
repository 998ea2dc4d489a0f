-- ===== src/Serialization/Laws.antt =====
-- What a serialised graph lists.
use iterative_context.Prelude.{◌≡◌, refl, ◌∙◌, Bool, some, List, [], ◌∷◌, map, any, All}
use iterative_context.Text.{Str, str_eq}
use iterative_context.Dict.{has}
use iterative_context.Sort.{sort}
use iterative_context.Sort.Laws.{any-sort, All-sort}
use iterative_context.DiGraph.{DiGraph, EdgeEntry}
use iterative_context.Events.{NodeAttrs, EdgeAttrs}
use iterative_context.Replay.Payload.{Payload}
use iterative_context.Traversal.Soundness.{IsSound}
use iterative_context.Serialization.{
  SerialNode, GraphSnapshot, serialize_node, serialize_nodes, serialize_edge, serial_node_lt,
  serial_edge_lt, serialize_graph,
}

-- whether a node of the identifier is listed
abbrev pub lists : Str → List SerialNode → Bool
lists z ns = any (λ n. str_eq n.id z) ns

serialize_nodes_sound :
    (ns : List (Str × NodeAttrs))
    → IsSound ns
    → (out : List SerialNode) × (serialize_nodes ns ≡ some out)
      × ((z : Str) → lists z out ≡ has z ns)
unfolding serialize_nodes serialize_node has
serialize_nodes_sound [] h = ([], refl, λ z. refl)
serialize_nodes_sound ((i, a) ∷ ns) ((n, e, k), h) =
    let (out, q, same) = serialize_nodes_sound ns h in
    (
      serialize_node n a.symbol_text a.file_text ∷ out,
      rw (e, serialize_nodes) (rw (q, serialize_nodes) refl),
      λ z. rw (k, same z) refl,
    )

All-serialize_edges :
    (P : Str → Str → Type 0) (es : List (EdgeEntry EdgeAttrs))
    → All (λ e. P e.source e.target) es
    → All (λ x. P x.source x.target) (map serialize_edge es)
unfolding serialize_edge
All-serialize_edges P [] h = tt
All-serialize_edges P (e ∷ es) (p, h) = (p, All-serialize_edges P es h)

module _ (nx : DiGraph NodeAttrs EdgeAttrs) where
  open nx use {Graph, nodes, edges}

  -- A graph whose every node is stored with its data under its own identifier is serialised: the
  -- nodes listed are its nodes, and its edges are listed with their ends.
  pub serialize_graph_sound :
      (g : Graph) (metadata : Payload) (P : Str → Str → Type 0)
      → IsSound (nodes g)
      → All (λ e. P e.source e.target) (edges g)
      → (s : GraphSnapshot) × (serialize_graph nx g metadata ≡ some s)
        × ((z : Str) → lists z s.nodes ≡ has z (nodes g))
        × All (λ e. P e.source e.target) s.edges
  unfolding serialize_graph
  serialize_graph_sound g metadata P h k =
      let (out, q, same) = serialize_nodes_sound (nodes g) h in
      (
        record {
          nodes = sort serial_node_lt out;
          edges = sort serial_edge_lt (map serialize_edge (edges g));
          metadata = metadata;
        },
        rw (q, serialize_graph) refl,
        λ z. any-sort serial_node_lt (λ n. str_eq n.id z) out ∙ same z,
        All-sort serial_edge_lt (λ e. P e.source e.target) _ (All-serialize_edges P (edges g) k),
      )
