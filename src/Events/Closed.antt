-- ===== src/Events/Closed.antt =====
-- Every edge joins two nodes of the graph, and events keep it so.
use iterative_context.Prelude.{
  ok_inj, Result-cases, ok, All-map, ◌≡◌, refl, sym, ap, ◌∙◌, subst, inl, inr, Bool, true, ◌&&◌,
  none, List, [], ◌∷◌, arith, Bool-cases, Option-cases, All,
}
use iterative_context.Text.{Str}
use iterative_context.Dict.{has}
use iterative_context.Models.{Node, Edge, GraphEvent}
use iterative_context.DiGraph.{DiGraph, EdgeEntry}
use iterative_context.Events.{
  NodeAttrs, EdgeAttrs, edge_attrs, add_missing_nodes, first_unknown_edge, add_all_edges,
  apply_event, apply_events,
}
use iterative_context.Events.Laws.{
  update_node_inv, nodes-add_all_edges, has-apply_event, known_ends,
}

module _ (nx : DiGraph NodeAttrs EdgeAttrs) where
  open nx use {
    Graph, nodes, edges, add_node, set_node, add_edge, edges_add_node, edges_set_node,
    edges_add_edge,
  }

  -- the ends of an edge are nodes
  abbrev pub joins : Graph → EdgeEntry EdgeAttrs → Bool
  joins g e = has e.source (nodes g) && has e.target (nodes g)

  abbrev pub IsClosed : Graph → Type 0
  IsClosed g = All (λ e. joins g e ≡ true) (edges g)

  -- more nodes, and the same edges
  grown-IsClosed :
      (g g' : Graph)
      → ((i : Str) → has i (nodes g) ≡ true → has i (nodes g') ≡ true)
      → (es : List (EdgeEntry EdgeAttrs)) → All (λ e. joins g e ≡ true) es
      → All (λ e. joins g' e ≡ true) es
  grown-IsClosed g g' w = All-map _ _ (λ e h. ground (arith, w e.source, w e.target))

  same_edges :
      (g g' : Graph)
      → edges g' ≡ edges g
      → ((i : Str) → has i (nodes g) ≡ true → has i (nodes g') ≡ true)
      → IsClosed g
      → IsClosed g'
  same_edges g g' e w h =
      subst (λ es. All (λ x. joins g' x ≡ true) es) (sym e) (grown-IsClosed g g' w (edges g) h)

  edges-add_missing_nodes :
      (ns : List Node) (g : Graph) → edges (add_missing_nodes nx ns g) ≡ edges g
  unfolding add_missing_nodes
  edges-add_missing_nodes [] g = refl
  edges-add_missing_nodes (n ∷ ns) g = elim (Bool-cases (has n.id (nodes g))) [
    | inl e ↦ rw e (edges-add_missing_nodes ns g)
    | inr f ↦ rw f (edges-add_missing_nodes ns _ ∙ edges_add_node n.id _ g)
  ]

  -- a predicate of edges that the new edges have
  edges-add_all_edges :
      (P : EdgeEntry EdgeAttrs → Type 0) (es : List Edge) (g : Graph)
      → All (λ e. P (record { source = e.source; target = e.target; attrs = edge_attrs e })) es
      → All P (edges g)
      → All P (edges (add_all_edges nx es g))
  unfolding add_all_edges
  edges-add_all_edges P [] g h k = k
  edges-add_all_edges P (e ∷ es) g (p, h) k =
      edges-add_all_edges P es _ h (edges_add_edge P e.source e.target _ g p k)

  ends_known :
      (es : List Edge) (g : Graph)
      → first_unknown_edge nx es g ≡ none
      → All (λ e. (has e.source (nodes g) && has e.target (nodes g)) ≡ true) es
  ends_known [] g h = tt
  ends_known (e ∷ es) g h =
      let (s, t, rest) = known_ends nx e es g h in (ground arith, ends_known es g rest)

  edges_added :
      (es : List Edge) (g : Graph)
      → first_unknown_edge nx es g ≡ none
      → IsClosed g
      → IsClosed (add_all_edges nx es g)
  edges_added es g f h =
      let e = nodes-add_all_edges nx es g f in
      edges-add_all_edges (λ x. joins (add_all_edges nx es g) x ≡ true) es g
        (rw e (ends_known es g f))
        (grown-IsClosed g (add_all_edges nx es g) (λ i k. rw e k) (edges g) h)

  apply_event-IsClosed :
      (e : GraphEvent) (g g' : Graph) → apply_event nx e g ≡ ok g' → IsClosed g → IsClosed g'
  unfolding apply_event
  apply_event-IsClosed (GraphEvent.add_nodes ns reason) g g' e h =
      same_edges g g' (ap edges (sym (ok_inj e)) ∙ edges-add_missing_nodes ns g)
        (λ i. has-apply_event nx i (GraphEvent.add_nodes ns reason) g g' e) h
  apply_event-IsClosed (GraphEvent.add_edges es reason) g g' e h =
      elim (Option-cases (first_unknown_edge nx es g)) [
        | inl f ↦ subst IsClosed (ok_inj (rw (f, apply_event) at e)) (edges_added es g f h)
        | inr (x, f) ↦ cc (rw (f, apply_event) at e)
      ]
  apply_event-IsClosed (GraphEvent.update_node j patch) g g' e h =
      let (a, n, at_j, _, same) = update_node_inv nx j patch g g' e in
      same_edges g g' (ap edges same ∙ edges_set_node j _ g)
        (λ i. has-apply_event nx i (GraphEvent.update_node j patch) g g' e) h
  apply_event-IsClosed (GraphEvent.iteration step description) g g' e h =
      subst IsClosed (ok_inj e) h

  -- Events keep every edge of a graph between two of its nodes, whether or not one of them raises.
  pub apply_events-IsClosed :
      (es : List GraphEvent) (g : Graph) → IsClosed g → IsClosed (apply_events nx es g).0
  unfolding apply_events
  apply_events-IsClosed [] g h = h
  apply_events-IsClosed (e ∷ es) g h = elim (Result-cases (apply_event nx e g)) [
    | inl (g', f) ↦
        rw (f, apply_events) (apply_events-IsClosed es g' (apply_event-IsClosed e g g' f h))
    | inr (x, f) ↦ rw (f, apply_events) h
  ]
