-- ===== src/Events/Nodes.antt =====
-- Which nodes a graph has after events.
use iterative_context.Prelude.{
  Result-cases, ok, ok_inj, ◌≡◌, refl, sym, ap, ◌∙◌, inl, inr, Bool, true, false, ◌||◌, none, List,
  [], ◌∷◌, arith, Bool-cases,
}
use iterative_context.Text.{Str, str_eq}
use iterative_context.Text.Laws.{str_eq_iff}
use iterative_context.Dict.{has}
use iterative_context.Dict.Laws.{has_eq-get, has-append, has-put}
use iterative_context.Models.{Node, GraphEvent}
use iterative_context.DiGraph.{DiGraph}
use iterative_context.Events.{
  NodeAttrs, EdgeAttrs, node_attrs, add_missing_nodes, apply_event, apply_events,
}
use iterative_context.Events.Laws.{update_node_inv, nodes-add_all_edges}

-- a node of the list has the identifier
unfoldable pub named : Str → List Node → Bool
named i [] = false
named i (n ∷ ns) = str_eq n.id i || named i ns

-- an event adds a node with the identifier
unfoldable pub added : Str → List GraphEvent → Bool
added i [] = false
added i (GraphEvent.add_nodes ns reason ∷ es) = named i ns || added i es
added i (_ ∷ es) = added i es

module _ (nx : DiGraph NodeAttrs EdgeAttrs) where
  open nx use {Graph, nodes, add_node, nodes_add_node, nodes_set_node}

  has_added :
      (i : Str) (ns : List Node) (g : Graph)
      → has i (nodes (add_missing_nodes nx ns g)) ≡ (has i (nodes g) || named i ns)
  unfolding add_missing_nodes named has
  has_added i [] g = ground arith
  has_added i (n ∷ ns) g = elim (Bool-cases (has n.id (nodes g))) [
    | inl e ↦ rw (e, has_added i ns g) (ground (arith, str_eq_iff n.id i))
    | inr f ↦
        rw (f, has_added i ns (add_node n.id (node_attrs n) g))
          (rw (nodes_add_node n.id (node_attrs n) g f, has-append i (nodes g)) (ground arith))
  ]

  has_after_event :
      (i : Str) (e : GraphEvent) (es : List GraphEvent) (g g' : Graph)
      → apply_event nx e g ≡ ok g'
      → (has i (nodes g') || added i es) ≡ (has i (nodes g) || added i (e ∷ es))
  unfolding apply_event added
  has_after_event i (GraphEvent.add_nodes ns reason) es g g' e =
      rw (sym (ok_inj e), has_added i ns g) (ground arith)
  has_after_event i (GraphEvent.add_edges xs reason) es g g' e =
      ground (arith, nodes-add_all_edges nx xs g)
  has_after_event i (GraphEvent.iteration step description) es g g' e = rw (sym (ok_inj e)) refl
  has_after_event i (GraphEvent.update_node j patch) es g g' e =
      let (a, n, at_j, _, same) = update_node_inv nx j patch g g' e in
      let there : has j (nodes g) ≡ true = (ground (arith, has_eq-get j (nodes g))) in
      rw (same, nodes_set_node j _ g there, has-put j i _ (nodes g))
        (ground (arith, str_eq_iff j i))

  -- After events that raise nothing, the nodes of a graph are those that it had and those that the events
  -- add.
  pub has-apply_events_ok :
      (i : Str) (es : List GraphEvent) (g g' : Graph)
      → apply_events nx es g ≡ (g', none)
      → has i (nodes g') ≡ (has i (nodes g) || added i es)
  unfolding apply_events added
  has-apply_events_ok i [] g g' e = rw (ap (λ r. r.0) (sym e)) (ground arith)
  has-apply_events_ok i (e ∷ es) g g' r = elim (Result-cases (apply_event nx e g)) [
    | inr (x, f) ↦ cc (rw (f, apply_events) at r)
    | inl (g'', f) ↦
        has-apply_events_ok i es g'' g' (rw (f, apply_events) at r) ∙ has_after_event i e es g g'' f
  ]
