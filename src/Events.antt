-- ===== src/Events.antt =====
-- test_helpers/graph_dsl.py: events applied to a graph. The traversal calls `apply_events`.
pub mod Laws
pub mod Closed
pub mod Snapshots
pub mod Patched
pub mod Nodes
use iterative_context.Prelude.{
  Result, ok, err, ◌>>=◌, Bool, not, ◌||◌, Option, none, some, List, [], ◌∷◌, map, if◌then◌else◌, ℤ,
}
use iterative_context.Text.{Str}
use iterative_context.Dict.{get, has}
use iterative_context.PathIds.{symbol}
use iterative_context.Models.{Node, Edge, EdgeKind, Patch, GraphEvent, model_copy, pending_node}
use iterative_context.DiGraph.{DiGraph}

-- the attributes of a node and of an edge that the program reads
pub record NodeAttrs : Type 0 where
  pub data_node : Option Node
  pub symbol_text : Option Str
  pub file_text : Option Str

pub record EdgeAttrs : Type 0 where
  pub data_edge : Option Edge
  pub kind_text : Option Str
  pub id_text : Option Str
  pub primary_flag : Option Bool

abbrev pub node_attrs : Node → NodeAttrs
node_attrs n = record { data_node = some n; symbol_text = none; file_text = none }

abbrev pub edge_attrs : Edge → EdgeAttrs
edge_attrs e = record { data_edge = some e; kind_text = none; id_text = none; primary_flag = none }

-- the exceptions of `apply_events`
pub data GraphError : Type 0 where
  edge_of_unknown_nodes : Str → Str → GraphError
  update_of_unknown_node : Str → GraphError
  node_without_data : Str → GraphError

-- the event dicts of the test DSL
pub record EdgeSpec : Type 0 where
  pub source : Str
  pub target : Str
  pub kind : EdgeKind

pub data EventSpec : Type 0 where
  spec_add_nodes : List Str → EventSpec
  spec_add_edges : List EdgeSpec → EventSpec
  spec_update_node : Str → Patch → EventSpec
  spec_iteration : ℤ → EventSpec

abbrev pub edge_of_spec : EdgeSpec → Edge
edge_of_spec e = record {
  id = none;
  source = e.source;
  target = e.target;
  kind = e.kind;
  primary = none;
}

unfoldable pub to_graph_event : EventSpec → GraphEvent
to_graph_event (spec_add_nodes ids) =
    GraphEvent.add_nodes (map (λ i. pending_node i symbol) ids) none
to_graph_event (spec_add_edges es) = GraphEvent.add_edges (map edge_of_spec es) none
to_graph_event (spec_update_node i patch) = GraphEvent.update_node i patch
to_graph_event (spec_iteration step) = GraphEvent.iteration step none

module _ (nx : DiGraph NodeAttrs EdgeAttrs) where
  open nx use {Graph, nodes, edges, add_node, set_node, add_edge}

  unfoldable pub add_missing_nodes : List Node → Graph → Graph
  add_missing_nodes [] g = g
  add_missing_nodes (n ∷ ns) g =
      add_missing_nodes ns (if has n.id (nodes g) then g else add_node n.id (node_attrs n) g)

  -- the first loop over the edges of an event: both ends must be known
  unfoldable pub first_unknown_edge : List Edge → Graph → Option Edge
  first_unknown_edge [] g = none
  first_unknown_edge (e ∷ es) g =
      if not (has e.source (nodes g)) || not (has e.target (nodes g))
      then some e
      else first_unknown_edge es g

  unfoldable pub add_all_edges : List Edge → Graph → Graph
  add_all_edges [] g = g
  add_all_edges (e ∷ es) g = add_all_edges es (add_edge e.source e.target (edge_attrs e) g)

  -- one round of the loop; an event that raises changes nothing
  unfoldable pub apply_event : GraphEvent → Graph → Result GraphError Graph
  apply_event (GraphEvent.add_nodes ns reason) g = ok (add_missing_nodes ns g)
  apply_event (GraphEvent.add_edges es reason) g = elim (first_unknown_edge es g) [
    | some e ↦ err (edge_of_unknown_nodes e.source e.target)
    | none ↦ ok (add_all_edges es g)
  ]
  apply_event (GraphEvent.update_node i patch) g = elim (get i (nodes g)) [
    | none ↦ err (update_of_unknown_node i)
    | some a ↦ elim a.data_node [
      | none ↦ err (node_without_data i)
      | some n ↦ ok (set_node i (record a { data_node = some (model_copy patch n) }) g)
    ]
  ]
  apply_event (GraphEvent.iteration step description) g = ok g

  -- The graph as it is left, and the exception where one was raised.
  unfoldable pub apply_events : List GraphEvent → Graph → Graph × Option GraphError
  apply_events [] g = (g, none)
  apply_events (e ∷ es) g = elim (apply_event e g) [
    | ok g' ↦ apply_events es g'
    | err x ↦ (g, some x)
  ]

  -- the loop of `replay_with_snapshots`: the graph as it is left, and the snapshots of the events
  unfoldable pub replay_rest : List GraphEvent → Graph → Graph × Result GraphError (List Graph)
  replay_rest [] g = (g, ok [])
  replay_rest (e ∷ es) g =
      let applied = apply_events (e ∷ []) g in
      let rest = replay_rest es applied.0 in
      elim applied.1 [
        | some x ↦ (applied.0, err x)
        | none ↦ (rest.0, rest.1 >>= λ gs. ok (applied.0 ∷ gs))
      ]

  -- The graph as it is left, and the snapshots, the first included: none where an event raises.
  unfoldable pub replay_with_snapshots :
      List GraphEvent → Graph → Graph × Result GraphError (List Graph)
  replay_with_snapshots es g = let rest = replay_rest es g in (rest.0, rest.1 >>= λ gs. ok (g ∷ gs))
