-- ===== src/Traversal/Growth.antt =====
-- The traversal with the default expansion: its exceptions, and how the graph grows.
use iterative_context.Prelude.{
  >>=-eq-err, err_inj, Result-cases, ok, err, ◌>>=◌, ℕ, ◌+◌, ◌≤◌, ◌≡◌, sym, ap, ◌∙◌, inl, inr, Bool,
  true, Option, none, some, List, [], ◌∷◌, ◌++◌, arith, Bool-cases, length, any, all, length-append,
}
use iterative_context.Text.{Str, str_eq}
use iterative_context.Text.Laws.{str_eq_refl}
use iterative_context.Dict.{Dict, has}
use iterative_context.Dict.Laws.{length-put_old, has-append}
use iterative_context.Models.{Node}
use iterative_context.DiGraph.{DiGraph}
use iterative_context.Events.{NodeAttrs, EdgeAttrs, GraphError, apply_events}
use iterative_context.Expansion.{child_id_of}
use iterative_context.Expansion.Steps.{expanded_nodes, child_attrs}
use iterative_context.Expansion.Laws.{expand_lem}
use iterative_context.Scoring.{FloatOps, ScoreError, numeric_score}
use iterative_context.Traversal.Candidates.{Scored, find_node}
use iterative_context.Traversal.{
  TraversalError, Progress, ScorePolicy, score_error, default_expansion, score_candidate,
  score_candidates, rank_frontier, expand_selected, expand_best, traverse_step,
}
use iterative_context.Traversal.Order.{rank_frontier_lem}
use iterative_context.Traversal.Rounds.{find_node-candidate, traverse_step-Advances}
use iterative_context.Traversal.Soundness.{IsSound, IsSound-get, IsSound-expanded}

length-expanded :
    (p : Str) (a : NodeAttrs) (n : Node) (d : Dict NodeAttrs)
    → has p d ≡ true
    → length (expanded_nodes p a n d) ≤ length d + 1
length-expanded p a n d h = elim (Bool-cases (has (child_id_of p) d)) [
  | inl e ↦ rw e (omega (arith, length-put_old p _ d h))
  | inr e ↦ rw e (
      omega (
        arith,
        length-put_old p _ (d ++ (child_id_of p, child_attrs p) ∷ []) (has-append p d _ ∙ rw h),
        length-append d ((child_id_of p, child_attrs p) ∷ []),
      ))
]

abbrev pub IsScoreError : TraversalError → Type 0
IsScoreError e = (x : ScoreError) × (e ≡ score_error x)

module _ (nx : DiGraph NodeAttrs EdgeAttrs) (ops : FloatOps) (policy : ScorePolicy nx ops) where
  abbrev expanded : Node → nx.Graph → nx.Graph × Option GraphError
  expanded node g = apply_events nx (default_expansion nx ops node g) g

  -- the expansion of a node of a sound graph
  expansion_of :
      (node : Node) (g : nx.Graph)
      → IsSound (nx.nodes g)
      → has node.id (nx.nodes g) ≡ true
      → ((expanded node g).1 ≡ none)
        × IsSound (nx.nodes (expanded node g).0)
        × (length (nx.nodes (expanded node g).0) ≤ length (nx.nodes g) + 1)
  unfolding default_expansion
  expansion_of node g s h =
      let (a, n, at_i, with_data, same) = IsSound-get node.id (nx.nodes g) s h in
      let (quiet, grown, _) = expand_lem nx node.id g a n at_i with_data in
      (
        quiet,
        rw grown (IsSound-expanded node.id a n (nx.nodes g) same s),
        rw grown (length-expanded node.id a n (nx.nodes g) h),
      )

  score_candidate-err :
      (g : nx.Graph) (step : ℕ) (n : Node) (e : TraversalError)
      → score_candidate nx ops policy g step n ≡ err e
      → IsScoreError e
  unfolding score_candidate
  score_candidate-err g step n e h = elim (Result-cases (numeric_score ops (policy n g step))) [
    | inl (x, f) ↦ cc (rw (f, score_candidate) at h)
    | inr (x, f) ↦ (x, sym (err_inj (rw (f, score_candidate) at h)))
  ]

  score_candidates-err :
      (g : nx.Graph) (step : ℕ) (ns : List Node) (e : TraversalError)
      → score_candidates nx ops policy g step ns ≡ err e
      → IsScoreError e
  unfolding score_candidates
  score_candidates-err g step [] e h = cc
  score_candidates-err g step (n ∷ ns) e h =
      elim (>>=-eq-err (score_candidate nx ops policy g step n)
        (λ c. score_candidates nx ops policy g step ns >>= λ cs. ok (c ∷ cs)) h) [
          | inl f ↦ score_candidate-err g step n e f
          | inr (c, _, more) ↦
              elim (>>=-eq-err (score_candidates nx ops policy g step ns) (λ cs. ok (c ∷ cs))
                more) [ inl f ↦ score_candidates-err g step ns e f | inr (cs, _, last) ↦ cc ]
        ]

  rank_frontier-err :
      (g : nx.Graph) (step : ℕ) (ns : List Node) (e : TraversalError)
      → rank_frontier nx ops policy g step ns ≡ err e
      → IsScoreError e
  unfolding rank_frontier
  rank_frontier-err g step ns e h =
      elim (>>=-eq-err (score_candidates nx ops policy g step ns) _ h) [
        | inl f ↦ score_candidates-err g step ns e f
        | inr (cs, _, last) ↦ cc
      ]

  -- the best candidate is found among the candidates, and its expansion raises nothing
  find_node-of_any :
      (i : Str) (ns : List Node)
      → any (λ n. str_eq n.id i) ns ≡ true
      → (n : Node) × (find_node i ns ≡ some n)
  unfolding find_node
  find_node-of_any i [] h = cc
  find_node-of_any i (n ∷ ns) h = elim (Bool-cases (str_eq n.id i)) [
    | inl f ↦ (n, rw f)
    | inr f ↦ rw f (find_node-of_any i ns (rw f at h))
  ]

  expand_selected-quiet :
      (step : ℕ) (ranked : List Scored) (node : Node) (s : Progress nx ops) (e : TraversalError)
      → IsSound (nx.nodes s.graph)
      → has node.id (nx.nodes s.graph) ≡ true
      → expand_selected nx ops (default_expansion nx ops) step ranked node s ≡ err e
      → IsScoreError e
  unfolding expand_selected
  expand_selected-quiet step ranked node s e sound h f =
      let (quiet, _, _) = expansion_of node s.graph sound h in cc (rw (quiet, expand_selected) at f)

  expand_best-err :
      (step : ℕ) (ns : List Node) (s : Progress nx ops) (ranked : List Scored) (e : TraversalError)
      → IsSound (nx.nodes s.graph)
      → all (λ n. has n.id (nx.nodes s.graph)) ns ≡ true
      → (length ranked ≡ length ns)
      → ((p : Node → Bool) → any (λ c. p c.node) ranked ≡ any p ns)
      → 1 ≤ length ns
      → expand_best nx ops (default_expansion nx ops) step ns s ranked ≡ err e
      → IsScoreError e
  unfolding expand_best
  expand_best-err step ns s [] e sound h same found some_left f = ground arith
  expand_best-err step ns s (best ∷ rest) e sound h same found some_left f =
      let (n, at_n) =
        find_node-of_any best.node.id ns
          (sym (found (λ n. str_eq n.id best.node.id)) ∙ rw (str_eq_refl best.node.id)) in
      expand_selected-quiet step (best ∷ rest) n s e sound
        (find_node-candidate best.node.id ns n at_n (λ n. has n.id (nx.nodes s.graph)) h)
        (rw (at_n, expand_best) at f)

  pub traverse_step-err :
      (step : ℕ) (n : Node) (ns : List Node) (s : Progress nx ops) (e : TraversalError)
      → IsSound (nx.nodes s.graph)
      → all (λ n. has n.id (nx.nodes s.graph)) (n ∷ ns) ≡ true
      → traverse_step nx ops (default_expansion nx ops) policy step (n ∷ ns) s ≡ err e
      → IsScoreError e
  unfolding traverse_step
  traverse_step-err step n ns s e sound h f =
      elim (>>=-eq-err (rank_frontier nx ops policy s.graph step (n ∷ ns))
        (expand_best nx ops (default_expansion nx ops) step (n ∷ ns) s) f) [
          | inl x ↦ rank_frontier-err s.graph step (n ∷ ns) e x
          | inr (ranked, x, y) ↦
              let (_, _, same, found) =
                rank_frontier_lem nx ops policy s.graph step (n ∷ ns) ranked x in
              expand_best-err step (n ∷ ns) s ranked e sound h same found (omega arith) y
        ]

  pub traverse_step-grown :
      (step : ℕ) (ns : List Node) (s t : Progress nx ops)
      → IsSound (nx.nodes s.graph)
      → all (λ n. has n.id (nx.nodes s.graph)) ns ≡ true
      → traverse_step nx ops (default_expansion nx ops) policy step ns s ≡ ok t
      → IsSound (nx.nodes t.graph) × (length (nx.nodes t.graph) ≤ length (nx.nodes s.graph) + 1)
  traverse_step-grown step ns s t sound h f =
      let one = traverse_step-Advances nx ops (default_expansion nx ops) policy step ns s t f in
      let (_, sound', grown) =
        expansion_of one.node s.graph sound (one.candidate (λ n. has n.id (nx.nodes s.graph)) h) in
      let same = ap (λ r. r.0) one.applied in (rw same at sound', rw same at grown)
