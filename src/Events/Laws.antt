-- ===== src/Events/Laws.antt =====
-- Events applied one by one.
use iterative_context.Prelude.{
  Result-cases, ok, ◌≡◌, refl, ◌∙◌, inl, inr, true, Option, none, some, List, [], ◌∷◌, arith,
  Bool-cases, Option-cases,
}
use iterative_context.Text.{Str}
use iterative_context.Dict.{get, has}
use iterative_context.Dict.Laws.{has_eq-get, has-append, has-put}
use iterative_context.Models.{Node, Edge, Patch, GraphEvent, model_copy}
use iterative_context.DiGraph.{DiGraph}
use iterative_context.Events.{
  NodeAttrs, EdgeAttrs, node_attrs, edge_attrs, add_missing_nodes, first_unknown_edge,
  add_all_edges, apply_event, apply_events,
}

module _ (nx : DiGraph NodeAttrs EdgeAttrs) where
  open nx use {
    Graph, nodes, edges, add_node, set_node, add_edge, nodes_add_node, edges_add_node,
    nodes_set_node, edges_set_node, nodes_add_edge, edge_add_edge,
  }

  pub apply_events-cons_ok :
      (e : GraphEvent) (es : List GraphEvent) (g g' : Graph)
      → apply_event nx e g ≡ ok g'
      → apply_events nx (e ∷ es) g ≡ apply_events nx es g'
  unfolding apply_events
  apply_events-cons_ok e es g g' h = rw (h, apply_events)

  pub apply_events-nil : (g : Graph) → apply_events nx [] g ≡ (g, none)
  unfolding apply_events
  apply_events-nil g = refl

  pub apply-update_node :
      (i : Str) (patch : Patch) (g : Graph) (a : NodeAttrs) (n : Node)
      → get i (nodes g) ≡ some a
      → a.data_node ≡ some n
      → apply_event nx (GraphEvent.update_node i patch) g
        ≡ ok (set_node i (record a { data_node = some (model_copy patch n) }) g)
  unfolding apply_event
  apply-update_node i patch g a n e d = rw (e, apply_event) (rw (d, apply_event))

  -- adding nodes and edges keeps the nodes that are there
  pub has-add_missing_nodes :
      (i : Str) (ns : List Node) (g : Graph)
      → has i (nodes g) ≡ true
      → has i (nodes (add_missing_nodes nx ns g)) ≡ true
  unfolding add_missing_nodes
  has-add_missing_nodes i [] g h = h
  has-add_missing_nodes i (n ∷ ns) g h = elim (Bool-cases (has n.id (nodes g))) [
    | inl e ↦ rw e (has-add_missing_nodes i ns g h)
    | inr f ↦ rw f (
        has-add_missing_nodes i ns (add_node n.id (node_attrs n) g)
          (rw (nodes_add_node n.id (node_attrs n) g f) (has-append i (nodes g) _ ∙ rw h)))
  ]

  first_unknown_edge-congr :
      (es : List Edge) (g g' : Graph)
      → nodes g' ≡ nodes g
      → first_unknown_edge nx es g' ≡ first_unknown_edge nx es g
  unfolding first_unknown_edge
  first_unknown_edge-congr [] g g' h = refl
  first_unknown_edge-congr (e ∷ es) g g' h = rw (h, first_unknown_edge-congr es g g' h)

  pub known_ends :
      (e : Edge) (es : List Edge) (g : Graph)
      → first_unknown_edge nx (e ∷ es) g ≡ none
      → (has e.source (nodes g) ≡ true)
        × (has e.target (nodes g) ≡ true)
        × (first_unknown_edge nx es g ≡ none)
  unfolding first_unknown_edge
  known_ends e es g h = ground arith

  pub nodes-add_all_edges :
      (es : List Edge) (g : Graph)
      → first_unknown_edge nx es g ≡ none
      → nodes (add_all_edges nx es g) ≡ nodes g
  unfolding add_all_edges
  nodes-add_all_edges [] g h = refl
  nodes-add_all_edges (e ∷ es) g h =
      let (s, t, rest) = known_ends e es g h in
      let same = nodes_add_edge e.source e.target (edge_attrs e) g s t in
      nodes-add_all_edges es (add_edge e.source e.target (edge_attrs e) g)
        (first_unknown_edge-congr es g _ same ∙ rest)
      ∙ same

  has-set_node :
      (i j : Str) (a : NodeAttrs) (g : Graph)
      → has i (nodes g) ≡ true
      → has j (nodes g) ≡ true
      → has i (nodes (set_node j a g)) ≡ true
  has-set_node i j a g h k = rw (nodes_set_node j a g k) (ground (arith, has-put j i a (nodes g)))

  pub update_node_inv :
      (j : Str) (patch : Patch) (g g' : Graph)
      → apply_event nx (GraphEvent.update_node j patch) g ≡ ok g'
      → (a : NodeAttrs) × (n : Node) × (get j (nodes g) ≡ some a)
        × (a.data_node ≡ some n)
        × (g' ≡ set_node j (record a { data_node = some (model_copy patch n) }) g)
  unfolding apply_event
  update_node_inv j patch g g' e = elim (Option-cases (get j (nodes g))) [
    | inl f ↦ cc (rw (f, apply_event) at e)
    | inr (a, f) ↦ elim (Option-cases a.data_node) [
      | inl d ↦ cc (rw (d, apply_event) at (rw (f, apply_event) at e))
      | inr (n, d) ↦ (a, n, f, d, ground arith)
    ]
  ]

  pub apply-add_edge :
      (e : Edge) (reason : Option Str) (g : Graph)
      → has e.source (nodes g) ≡ true
      → has e.target (nodes g) ≡ true
      → apply_event nx (GraphEvent.add_edges (e ∷ []) reason) g
        ≡ ok (add_edge e.source e.target (edge_attrs e) g)
  unfolding apply_event add_all_edges
  apply-add_edge e reason g s t =
      let known : first_unknown_edge nx (e ∷ []) g ≡ none =
        (unfold first_unknown_edge in rw (s, t)) in
      rw (known, apply_event)

  pub has-apply_event :
      (i : Str) (e : GraphEvent) (g g' : Graph)
      → apply_event nx e g ≡ ok g'
      → has i (nodes g) ≡ true
      → has i (nodes g') ≡ true
  unfolding apply_event
  has-apply_event i (GraphEvent.add_nodes ns reason) g g' e h =
      ground (arith, has-add_missing_nodes i ns g h)
  has-apply_event i (GraphEvent.add_edges es reason) g g' e h =
      ground (arith, nodes-add_all_edges es g)
  has-apply_event i (GraphEvent.update_node j patch) g g' e h =
      let (a, n, at_j, _, same) = update_node_inv j patch g g' e in
      rw same (has-set_node i j _ g h (ground (arith, has_eq-get j (nodes g))))
  has-apply_event i (GraphEvent.iteration step description) g g' e h = ground arith

  -- No event removes a node, whether or not one of them raises.
  pub has-apply_events :
      (i : Str) (es : List GraphEvent) (g : Graph)
      → has i (nodes g) ≡ true
      → has i (nodes (apply_events nx es g).0) ≡ true
  unfolding apply_events
  has-apply_events i [] g h = h
  has-apply_events i (e ∷ es) g h = elim (Result-cases (apply_event nx e g)) [
    | inl (g', f) ↦ rw (f, apply_events) (has-apply_events i es g' (has-apply_event i e g g' f h))
    | inr (x, f) ↦ rw (f, apply_events) h
  ]
