-- ===== src/Session/Expand/Laws.antt =====
-- The expansion of a session: the nodes it searches, and that it ends.
use iterative_context.Prelude.{
  Result-cases, Result, ok, err, All-map, ℕ, ◌+◌, ◌≡◌, refl, ◌∙◌, subst, inl, inr, true, ◌&&◌,
  Option, none, some, [], arith, All, ℤ, max_zero,
}
use iterative_context.Text.{Str, mem}
use iterative_context.Dict.{has}
use iterative_context.DiGraph.{DiGraph}
use iterative_context.Events.{NodeAttrs, EdgeAttrs}
use iterative_context.Events.Closed.{IsClosed, apply_events-IsClosed}
use iterative_context.Events.Laws.{has-apply_events}
use iterative_context.Scoring.{FloatOps, ScoreError}
use iterative_context.Replay.Recorder.{Recorder}
use iterative_context.Traversal.{
  TraversalError, score_error, Progress, ScorePolicy, default_expansion, run_traversal,
}
use iterative_context.Traversal.Default.{run_traversal-EndsWell}
use iterative_context.Traversal.Keeps.{run_traversal-Keeps}
use iterative_context.Traversal.Soundness.{IsSound}
use iterative_context.Serialization.{GraphSnapshot}
use iterative_context.Serialization.Laws.{lists, serialize_graph_sound}
use iterative_context.Reach.{near_self}
use iterative_context.Session.Expand.Search.{has-subgraph, subgraph-IsClosed, reachable-near}
use iterative_context.Session.{Session, Stamped}
use iterative_context.Normalize.{RawAttrs, RawTree}
use iterative_context.Session.Build.{build_graph}
use iterative_context.Session.Build.Laws.{build_graph-IsSound, build_graph-IsClosed}
use iterative_context.Session.Expand.{
  ExpandError, traversal_error, beside, reachable, snapshot_of, chosen, expand_graph, expand,
  expand_metadata,
}

-- the fuel of two searches is enough for each of them
left_fuel : (a b c : ℕ) → a + (b + c) ≡ a + b + c
left_fuel a b c = omega arith

right_fuel : (a b c : ℕ) → b + (a + c) ≡ a + b + c
right_fuel a b c = omega arith

module _ (nx : DiGraph NodeAttrs EdgeAttrs) (ops : FloatOps) where
  open nx use {Graph, nodes, edges, subgraph}

  -- a snapshot that lists the node asked for, and no edge to a node that is not listed
  pub record IsAnswer (i : Str) (s : GraphSnapshot) : Type 0 where
    pub lists_start : lists i s.nodes ≡ true
    pub edges_joined : All (λ e. (lists e.source s.nodes && lists e.target s.nodes) ≡ true) s.edges

  -- An expansion ends with such a snapshot, or with the exception of a score.
  pub data EndsExpanded (i : Str)
      : Result ExpandError (GraphSnapshot × Option Recorder) → Type 0 where
    answered :
        (s : GraphSnapshot) (observer : Option Recorder)
        → IsAnswer i s
        → EndsExpanded i (ok (s, observer))
    bad_score : (e : ScoreError) → EndsExpanded i (err (traversal_error (score_error e)))

  -- the part behind the traversal
  snapshot_ends :
      (depth : ℤ) (i : Str) (t : Progress nx ops)
      → IsSound (nodes t.graph)
      → IsClosed nx t.graph
      → has i (nodes t.graph) ≡ true
      → (enough : ℕ) × (s : GraphSnapshot) × ((fuel : ℕ)
          → snapshot_of nx ops (enough + fuel) i depth t ≡ some (ok (s, t.observer)))
        × IsAnswer i s
  unfolding snapshot_of
  snapshot_ends depth i t sound closed h =
      let (enough, visited, ends, within) =
        reachable-near nx ops (max_zero depth) i t.graph closed h in
      let sub = subgraph (λ x. mem x visited) t.graph in
      let (s, q, same, joined) =
        serialize_graph_sound nx sub (expand_metadata depth i)
          (λ a b. (has a (nodes sub) && has b (nodes sub)) ≡ true)
          (nx.nodes_subgraph _ _ t.graph sound) (subgraph-IsClosed nx _ t.graph closed) in
      (
        enough,
        s,
        λ fuel. rw (ends fuel, snapshot_of) (rw (q, snapshot_of) refl),
        record {
          lists_start =
              same i
              ∙ has-subgraph nx _ t.graph i
              ∙ rw (within i, near_self (beside nx ops t.graph) (max_zero depth) i) h;
          edges_joined = All-map _ _ (λ e k. rw (same e.source, same e.target) k) s.edges joined;
        },
      )

  -- the traversal of the nodes that the first search found
  after_traversal :
      (depth : ℤ) (i : Str) (policy : ScorePolicy nx ops) (observer : Option Recorder) (g : Graph)
      → IsSound (nodes g)
      → IsClosed nx g
      → has i (nodes g) ≡ true
      → (t : Progress nx ops)
      → run_traversal nx ops (default_expansion nx ops) policy (max_zero depth) g none [] observer
        ≡ ok t
      → IsSound (nodes t.graph) × IsClosed nx t.graph × (has i (nodes t.graph) ≡ true)
  after_traversal depth i policy observer g sound closed h t e =
      let well = rw e at (run_traversal-EndsWell nx ops policy (max_zero depth) g observer sound) in
      let kept =
        run_traversal-Keeps nx ops (default_expansion nx ops) policy
          (λ g. IsClosed nx g × (has i (nodes g) ≡ true))
          (λ es g (c, k). (apply_events-IsClosed nx es g c, has-apply_events nx i es g k))
          (max_zero depth) g observer t e (closed, h) in
      (well.0, kept.0, kept.1)

  score_failed :
      (depth : ℤ) (i : Str) (policy : ScorePolicy nx ops) (observer : Option Recorder) (g : Graph)
      → IsSound (nodes g)
      → (e : TraversalError)
      → run_traversal nx ops (default_expansion nx ops) policy (max_zero depth) g none [] observer
        ≡ err e
      → EndsExpanded i (err (traversal_error e))
  score_failed depth i policy observer g sound e f =
      let (x, q) =
        rw f at (run_traversal-EndsWell nx ops policy (max_zero depth) g observer sound) in
      rw q (bad_score x)

  -- The expansion of a node of a graph ends: there is a result that every call with enough fuel
  -- returns. It is a snapshot that lists the node and joins only nodes that it lists, or the exception
  -- of a score. The graph is one whose every node is stored with its data under its own identifier and
  -- whose every edge joins two of its nodes.
  pub expand_graph_ends :
      (depth : ℤ) (i : Str) (score_fn : Option (ScorePolicy nx ops)) (observer : Option Recorder)
      (g : Graph)
      → IsSound (nodes g)
      → IsClosed nx g
      → has i (nodes g) ≡ true
      → (enough : ℕ) × (r : Result ExpandError (GraphSnapshot × Option Recorder)) × ((fuel : ℕ)
          → expand_graph nx ops (enough + fuel) i depth score_fn observer g ≡ some r)
        × EndsExpanded i r
  unfolding expand_graph
  expand_graph_ends depth i score_fn observer g sound closed h =
      let (enough, base, found, within) = reachable-near nx ops (max_zero depth) i g closed h in
      let sub = subgraph (λ x. mem x base) g in
      let sub_sound = nx.nodes_subgraph _ _ g sound in
      elim (Result-cases (
        run_traversal nx ops (default_expansion nx ops) (chosen nx ops score_fn) (max_zero depth)
          sub none [] observer)) [
            | inl (t, f) ↦
                let (sound', closed', h') =
                  after_traversal depth i (chosen nx ops score_fn) observer sub sub_sound
                    (subgraph-IsClosed nx _ g closed)
                    (has-subgraph nx _ g i
                      ∙ rw (within i, near_self (beside nx ops g) (max_zero depth) i) h)
                    t f in
                let (more, s, ends, answer) = snapshot_ends depth i t sound' closed' h' in
                (
                  enough + more,
                  ok (s, t.observer),
                  λ fuel.
                      rw
                        (
                          subst (λ n. reachable nx ops n (max_zero depth) i g ≡ some (ok base))
                              (left_fuel enough more fuel) (found (more + fuel)),
                          expand_graph,
                        )
                        (rw (f, expand_graph)
                          (subst (λ n. snapshot_of nx ops n i depth t ≡ some (ok (s, t.observer)))
                            (right_fuel enough more fuel) (ends (enough + fuel)))),
                  answered s t.observer answer,
                )
            | inr (e, f) ↦ (
              enough,
              err (traversal_error e),
              λ fuel. rw (found fuel, expand_graph) (rw (f, expand_graph) refl),
              score_failed depth i (chosen nx ops score_fn) observer sub sub_sound e f,
            )
          ]

  module _ (raw : DiGraph RawAttrs Str) where
    -- The expansion of a node of a session whose graph was built from a repository ends: there is a
    -- result that every call with enough fuel returns. It is a snapshot that lists the node and joins
    -- only nodes that it lists, or the exception of a score.
    pub expand_ends :
        (tree : RawTree) (s : Session Graph) (g : Stamped Graph) (depth : ℤ) (i : Str)
        (score_fn : Option (ScorePolicy nx ops)) (observer : Option Recorder)
        → s.graph ≡ some g
        → g.graph ≡ build_graph raw nx tree
        → has i (nodes g.graph) ≡ true
        → (enough : ℕ) × (r : Result ExpandError (GraphSnapshot × Option Recorder)) × ((fuel : ℕ)
            → expand nx ops (enough + fuel) i depth score_fn observer s ≡ some r)
          × EndsExpanded i r
    unfolding expand
    expand_ends tree s g depth i score_fn observer at_g built h =
        let (enough, r, ends, well) =
          expand_graph_ends depth i score_fn observer g.graph
            (rw built (build_graph-IsSound raw nx tree))
            (rw built (build_graph-IsClosed raw nx tree)) h in
        (enough, r, λ fuel. rw (at_g, expand) (ends fuel), well)

    -- Without a graph, an expansion is an empty snapshot.
    pub expand_unloaded :
        (fuel : ℕ) (i : Str) (depth : ℤ) (score_fn : Option (ScorePolicy nx ops))
        (observer : Option Recorder) (s : Session Graph)
        → s.graph ≡ none
        → expand nx ops fuel i depth score_fn observer s
          ≡ some
              (ok (record { nodes = []; edges = []; metadata = expand_metadata depth i }, observer))
    unfolding expand
    expand_unloaded fuel i depth score_fn observer s e = rw (e, expand) refl
