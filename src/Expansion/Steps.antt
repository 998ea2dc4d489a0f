-- ===== src/Expansion/Steps.antt =====
-- The events of one expansion, applied one by one.
use iterative_context.Prelude.{
  ok, ◌≡◌, ◌∙◌, true, false, Option, none, some, [], ◌∷◌, ◌++◌, arith, if◌then◌else◌, pos,
}
use iterative_context.Text.{Str}
use iterative_context.Dict.{Dict, get, has, put}
use iterative_context.Dict.Laws.{has_eq-get, has-cons_self, has-append, get-append_left}
use iterative_context.PathIds.{symbol}
use iterative_context.Models.{Node, NodeState, GraphEvent, pending_node, model_copy}
use iterative_context.DiGraph.{DiGraph}
use iterative_context.Events.{
  NodeAttrs, EdgeAttrs, GraphError, node_attrs, edge_attrs, add_missing_nodes, apply_event,
  apply_events,
}
use iterative_context.Events.Laws.{
  apply_events-cons_ok, apply_events-nil, apply-update_node, apply-add_edge,
}
use iterative_context.Expansion.{child_id_of, call_edge, resolved_patch, expand_node}

-- the node as it is after its expansion
abbrev pub resolved_node : Node → Node
resolved_node n = record n { state = NodeState.resolved; tokens = some (pos 1) }

abbrev pub child_attrs : Str → NodeAttrs
child_attrs p = node_attrs (pending_node (child_id_of p) symbol)

-- The nodes of the graph, the child behind them if it was missing, and the node resolved.
abbrev pub expanded_nodes : Str → NodeAttrs → Node → Dict NodeAttrs → Dict NodeAttrs
expanded_nodes p a n d =
    put p (record a { data_node = some (resolved_node n) })
      (if has (child_id_of p) d then d else d ++ (child_id_of p, child_attrs p) ∷ [])

module _ (nx : DiGraph NodeAttrs EdgeAttrs) where
  open nx use {
    Graph, nodes, edges, add_node, set_node, add_edge, nodes_add_node, edges_add_node,
    nodes_set_node, edges_set_node, nodes_add_edge, edge_add_edge,
  }

  abbrev pub after : Str → Graph → Graph × Option GraphError
  after p g = apply_events nx (expand_node nx p g) g

  module _ (p : Str) (g : Graph) (a : NodeAttrs) (n : Node) (at_p : get p (nodes g) ≡ some a)
      (with_data : a.data_node ≡ some n) where
    abbrev pub attrs' : NodeAttrs
    attrs' = record a { data_node = some (resolved_node n) }

    abbrev pub child : Str
    child = child_id_of p

    pub has_parent : has p (nodes g) ≡ true
    has_parent = ground (arith, has_eq-get p (nodes g))

    update_lem :
        (h : Graph)
        → get p (nodes h) ≡ some a
        → apply_events nx (GraphEvent.update_node p resolved_patch ∷ []) h
          ≡ (set_node p attrs' h, none)
    unfolding model_copy
    update_lem h e =
        apply_events-cons_ok nx _ [] h _ (apply-update_node nx p resolved_patch h a n e with_data)
        ∙ apply_events-nil nx (set_node p attrs' h)

    abbrev pub grown : Graph
    grown = add_edge p child (edge_attrs (call_edge p child)) (add_node child (child_attrs p) g)

    pub after_old : has child (nodes g) ≡ true → after p g ≡ (set_node p attrs' g, none)
    unfolding expand_node
    after_old h = rw (h, expand_node) (update_lem g at_p)

    add_child :
        has child (nodes g) ≡ false
        → apply_event nx (GraphEvent.add_nodes (pending_node child symbol ∷ []) none) g
          ≡ ok (add_node child (child_attrs p) g)
    unfolding apply_event add_missing_nodes
    add_child h = rw h

    nodes_with_child :
        has child (nodes g) ≡ false
        → nodes (add_node child (child_attrs p) g) ≡ nodes g ++ (child, child_attrs p) ∷ []
    nodes_with_child h = nodes_add_node child (child_attrs p) g h

    ends_known :
        has child (nodes g) ≡ false
        → (has p (nodes (add_node child (child_attrs p) g)) ≡ true)
          × (has child (nodes (add_node child (child_attrs p) g)) ≡ true)
    ends_known h = (
      rw (nodes_with_child h) (has-append p (nodes g) _ ∙ rw has_parent),
      rw (nodes_with_child h) (has-append child (nodes g) _ ∙ rw (h, has-cons_self)),
    )

    add_call :
        has child (nodes g) ≡ false
        → apply_event nx
            (GraphEvent.add_edges (call_edge p child ∷ []) none)
            (add_node child (child_attrs p) g)
          ≡ ok grown
    add_call h = let (s, t) = ends_known h in apply-add_edge nx (call_edge p child) none _ s t

    pub nodes_grown :
        has child (nodes g) ≡ false → nodes grown ≡ nodes g ++ (child, child_attrs p) ∷ []
    nodes_grown h =
        let (s, t) = ends_known h in
        nodes_add_edge p child (edge_attrs (call_edge p child)) _ s t ∙ nodes_with_child h

    pub get-grown : has child (nodes g) ≡ false → get p (nodes grown) ≡ some a
    get-grown h = rw (nodes_grown h) (get-append_left p (nodes g) _ has_parent ∙ at_p)

    pub after_new : has child (nodes g) ≡ false → after p g ≡ (set_node p attrs' grown, none)
    unfolding expand_node
    after_new h =
        rw (h, expand_node)
          (apply_events-cons_ok nx _ _ g _ (add_child h)
            ∙ (apply_events-cons_ok nx _ _ _ grown (add_call h) ∙ update_lem grown (get-grown h)))
