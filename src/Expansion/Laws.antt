-- ===== src/Expansion/Laws.antt =====
-- What an expansion does to the graph.
use iterative_context.Prelude.{
  ◌≡◌, refl, ap, ◌∙◌, ◌⊎◌, inl, inr, true, false, not, ◌&&◌, ◌||◌, none, some, [], ◌∷◌, ◌++◌, arith,
  if◌then◌else◌, Bool-cases,
}
use iterative_context.Text.{Str, str_eq}
use iterative_context.Text.Laws.{str_eq_refl}
use iterative_context.Dict.{Dict, get, has}
use iterative_context.Dict.Laws.{get-put, has-put, has-append, has-cons_self, put_same}
use iterative_context.Models.{Node}
use iterative_context.DiGraph.{DiGraph, edge_between}
use iterative_context.Events.{NodeAttrs, EdgeAttrs, edge_attrs}
use iterative_context.Expansion.{child_id_of, call_edge}
use iterative_context.Expansion.Steps.{
  resolved_node, child_attrs, expanded_nodes, after, grown, has_parent, after_old, after_new,
  nodes_grown,
}

get-expanded :
    (p : Str) (a : NodeAttrs) (n : Node) (d : Dict NodeAttrs)
    → get p (expanded_nodes p a n d) ≡ some (record a { data_node = some (resolved_node n) })
get-expanded p a n d = get-put p p _ _ ∙ rw (str_eq_refl p)

has-child-expanded :
    (p : Str) (a : NodeAttrs) (n : Node) (d : Dict NodeAttrs)
    → has (child_id_of p) (expanded_nodes p a n d) ≡ true
has-child-expanded p a n d =
    has-put p (child_id_of p) _ _ ∙ grown_child (Bool-cases (has (child_id_of p) d))
  where
    grown_child :
        (has (child_id_of p) d ≡ true) ⊎ (has (child_id_of p) d ≡ false)
        → (str_eq p (child_id_of p)
            || has
                (child_id_of p)
                (if has (child_id_of p) d then d else d ++ (child_id_of p, child_attrs p) ∷ []))
          ≡ true
    grown_child (inl old) = rw old (ground (arith, old))
    grown_child (inr new) = rw new (
        ground (
          arith,
          has-append (child_id_of p) d ((child_id_of p, child_attrs p) ∷ []),
          has-cons_self (child_id_of p) (child_attrs p) [],
        ))

module _ (nx : DiGraph NodeAttrs EdgeAttrs) (p : Str) (g : nx.Graph) (a : NodeAttrs) (n : Node)
    (at_p : get p (nx.nodes g) ≡ some a) (with_data : a.data_node ≡ some n) where
  open nx use {
    nodes, edges, add_node, nodes_set_node, edges_set_node, edges_add_node, edge_add_edge,
  }

  has-grown :
      has (child_id_of p) (nodes g) ≡ false → has p (nodes (grown nx p g a n at_p with_data)) ≡ true
  has-grown h =
      rw (nodes_grown nx p g a n at_p with_data h)
        (has-append p (nodes g) _ ∙ rw (has_parent nx p g a n at_p with_data))

  -- The expansion of a node that the graph holds, with its data, raises nothing. Afterwards the node
  -- is resolved with one token; its child stands behind the other nodes as a pending symbol, if it was
  -- missing; every other node is as before. An edge of kind calls from the node to its child is added
  -- if the child was missing, and no other edge changes.
  pub expand_lem :
      ((after nx p g).1 ≡ none)
      × (nodes (after nx p g).0 ≡ expanded_nodes p a n (nodes g))
      × ((u v : Str)
          → edge_between u v (edges (after nx p g).0) ≡ (
              if not (has (child_id_of p) (nodes g)) && (str_eq p u && str_eq (child_id_of p) v)
              then some (edge_attrs (call_edge p (child_id_of p)))
              else edge_between u v (edges g)))
  expand_lem = elim (Bool-cases (has (child_id_of p) (nodes g))) [
    | inl old ↦
        rw (after_old nx p g a n at_p with_data old, old)
          (
            refl,
            nodes_set_node p _ g (has_parent nx p g a n at_p with_data),
            λ u v. ap (edge_between u v) (edges_set_node p _ g),
          )
    | inr new ↦
        rw (after_new nx p g a n at_p with_data new, new)
          (
            refl,
            nodes_set_node p _ _ (has-grown new) ∙ rw (nodes_grown nx p g a n at_p with_data new),
            λ u v.
                ap (edge_between u v) (edges_set_node p _ _)
                ∙ (edge_add_edge p _ _ _ u v ∙ rw edges_add_node),
          )
  ]

-- The second expansion of a node that the graph holds, with its data, changes no node and raises
-- nothing.
pub expand_twice :
    (nx : DiGraph NodeAttrs EdgeAttrs) (p : Str) (g : nx.Graph) (a : NodeAttrs) (n : Node)
    → get p (nx.nodes g) ≡ some a
    → a.data_node ≡ some n
    → (nx.nodes (after nx p (after nx p g).0).0 ≡ nx.nodes (after nx p g).0)
      × ((after nx p (after nx p g).0).1 ≡ none)
expand_twice nx p g a n at_p with_data =
    let once = (expand_lem nx p g a n at_p with_data).1 in
    let a' : NodeAttrs = record a { data_node = some (resolved_node n) } in
    let at_p' = ap (get p) once ∙ get-expanded p a n (nx.nodes g) in
    let child = ap (has (child_id_of p)) once ∙ has-child-expanded p a n (nx.nodes g) in
    let (quiet, again, _) = expand_lem nx p (after nx p g).0 a' (resolved_node n) at_p' refl in
    (again ∙ rw child (put_same p a' (nx.nodes (after nx p g).0) at_p'), quiet)
