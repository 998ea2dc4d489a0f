-- ===== src/Events/Patched.antt =====
-- A node under events: what was there is kept, and only the patches of its own updates are applied.
use iterative_context.Prelude.{
  Result-cases, ok, ok_inj, ◌≡◌, refl, sym, ap, ◌∙◌, inl, inr, true, Option, none, some, List, [],
  ◌∷◌, arith, Bool-cases, if◌then◌else◌,
}
use iterative_context.Text.{Str, str_eq}
use iterative_context.Text.Laws.{str_eq_iff}
use iterative_context.Dict.{get, has}
use iterative_context.Dict.Laws.{has_eq-get, get-append_left, get-put}
use iterative_context.Models.{Node, Patch, GraphEvent, model_copy}
use iterative_context.DiGraph.{DiGraph}
use iterative_context.Events.{
  NodeAttrs, EdgeAttrs, node_attrs, add_missing_nodes, apply_event, apply_events,
}
use iterative_context.Events.Laws.{update_node_inv, nodes-add_all_edges}

-- the node under a patch, where there is one
abbrev pub patched_node : Patch → Option Node → Option Node
patched_node patch none = none
patched_node patch (some n) = some (model_copy patch n)

-- the attributes of a node under the updates of it among the events
unfoldable pub patched : Str → List GraphEvent → NodeAttrs → NodeAttrs
patched i [] a = a
patched i (GraphEvent.update_node j patch ∷ es) a =
    patched i es (if str_eq j i then record a { data_node = patched_node patch a.data_node } else a)
patched i (_ ∷ es) a = patched i es a

module _ (nx : DiGraph NodeAttrs EdgeAttrs) where
  open nx use {Graph, nodes, add_node, set_node, nodes_add_node, nodes_set_node}

  get-add_missing_nodes :
      (i : Str) (ns : List Node) (g : Graph) (a : NodeAttrs)
      → get i (nodes g) ≡ some a
      → get i (nodes (add_missing_nodes nx ns g)) ≡ some a
  unfolding add_missing_nodes
  get-add_missing_nodes i [] g a h = h
  get-add_missing_nodes i (n ∷ ns) g a h = elim (Bool-cases (has n.id (nodes g))) [
    | inl e ↦ rw e (get-add_missing_nodes i ns g a h)
    | inr f ↦ rw f (
        get-add_missing_nodes i ns (add_node n.id (node_attrs n) g) a (
          rw (nodes_add_node n.id (node_attrs n) g f)
            (get-append_left i (nodes g) _ (ground (arith, has_eq-get i (nodes g))) ∙ h)))
  ]

  get-apply_event :
      (i : Str) (e : GraphEvent) (es : List GraphEvent) (g g' : Graph) (a : NodeAttrs)
      → apply_event nx e g ≡ ok g'
      → get i (nodes g) ≡ some a
      → (b : NodeAttrs) × (get i (nodes g') ≡ some b) × (patched i (e ∷ es) a ≡ patched i es b)
  unfolding apply_event patched
  get-apply_event i (GraphEvent.add_nodes ns reason) es g g' a e h =
      (a, rw (sym (ok_inj e)) (get-add_missing_nodes i ns g a h), refl)
  get-apply_event i (GraphEvent.add_edges xs reason) es g g' a e h =
      (a, ground (arith, nodes-add_all_edges nx xs g), refl)
  get-apply_event i (GraphEvent.iteration step description) es g g' a e h =
      (a, rw (sym (ok_inj e)) h, refl)
  get-apply_event i (GraphEvent.update_node j patch) es g g' a e h =
      let (a', n, at_j, d, same) = update_node_inv nx j patch g g' e in
      let there : has j (nodes g) ≡ true = (ground (arith, has_eq-get j (nodes g))) in
      let written =
        nodes_set_node j (record a' { data_node = some (model_copy patch n) }) g there in
      elim (Bool-cases (str_eq j i)) [
        | inr f ↦ (a, rw (same, written, get-put j i _ (nodes g), f) h, rw f refl)
        | inl t ↦
            let found : some a' ≡ some a =
              (sym at_j ∙ ap (λ k. get k (nodes g)) ((str_eq_iff j i).0 t) ∙ h) in
            let own : a' ≡ a = cc in
            let current : a.data_node ≡ some n = (rw own at d) in
            (
              record a { data_node = some (model_copy patch n) },
              rw (same, written, get-put j i _ (nodes g), t, own) refl,
              rw (t, current) refl,
            )
      ]

  -- Events that raise nothing keep every node that was there, with its attributes, and apply to its data
  -- the patches of the updates of that node, in their order, and nothing else.
  pub get-apply_events :
      (i : Str) (es : List GraphEvent) (g g' : Graph) (a : NodeAttrs)
      → apply_events nx es g ≡ (g', none)
      → get i (nodes g) ≡ some a
      → get i (nodes g') ≡ some (patched i es a)
  unfolding apply_events patched
  get-apply_events i [] g g' a e h = rw (ap (λ r. r.0) (sym e)) h
  get-apply_events i (e ∷ es) g g' a r h = elim (Result-cases (apply_event nx e g)) [
    | inr (x, f) ↦ cc (rw (f, apply_events) at r)
    | inl (g'', f) ↦
        let (b, at_b, same) = get-apply_event i e es g g'' a f h in
        get-apply_events i es g'' g' b (rw (f, apply_events) at r) at_b ∙ ap some (sym same)
  ]
