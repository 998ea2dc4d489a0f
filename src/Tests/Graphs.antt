-- ===== src/Tests/Graphs.antt =====
-- A graph of two pending nodes, expanded and traversed.
use iterative_context.Prelude.{
  Result, ok, err, ℕ, zero, suc, ◌+◌, ◌≤◌, ◌≡◌, refl, ◌⊎◌, Bool, false, not, ◌&&◌, ◌||◌, none, some,
  List, [], ◌∷◌, if◌then◌else◌, length, any, All, pos, negsuc,
}
use iterative_context.Text.{Str, codes, str_eq, str_lt}
use iterative_context.Float.{Float, literal, is_nan, is_inf, float_lt, float_eq}
use iterative_context.Dict.{get, has, put}
use iterative_context.Sort.{sort, insert_sorted}
use iterative_context.Sort.Laws.{IsSorted}
use iterative_context.Value.{int}
use iterative_context.PathIds.{symbol}
use iterative_context.Models.{Node, GraphEvent, set_state, pruned, pending_node, model_copy}
use iterative_context.DiGraph.{DiGraph, edge_between}
use iterative_context.DiGraph.Lists.{list_graph}
use iterative_context.Events.{
  NodeAttrs, EdgeAttrs, node_attrs, edge_attrs, add_missing_nodes, first_unknown_edge,
  add_all_edges, apply_event, apply_events,
}
use iterative_context.Events.{GraphError, replay_with_snapshots}
use iterative_context.Events.Snapshots.{last_of, replay_with_snapshots-apply_events}
use iterative_context.Events.Closed.{IsClosed, apply_events-IsClosed}
use iterative_context.Events.Nodes.{added, has-apply_events_ok}
use iterative_context.Events.Patched.{patched, get-apply_events}
use iterative_context.Expansion.{child_id_of, call_edge, expand_node}
use iterative_context.Expansion.Steps.{after, expanded_nodes}
use iterative_context.Expansion.Laws.{expand_lem, expand_twice}
use iterative_context.Scoring.{
  FloatOps, one_float, numeric_score, check_finite, degree, in_degree, out_degree, score_degree,
}
use iterative_context.Scoring.Laws.{numeric_score_finite}
use iterative_context.Traversal.Candidates.{
  Scored, scored_gt, scored_lt, source_edges, least_source, source_lt, find_node, pending_nodes,
  is_pending,
}
use iterative_context.Traversal.{
  ScorePolicy, Progress, score_candidate, score_candidates, traverse_step, expand_best,
  expand_selected, run_from, default_expansion, get_frontier, rank_frontier, run_traversal,
}
use iterative_context.Traversal.Order.{HasNumber, rank_frontier_lem}
use iterative_context.Traversal.Rounds.{run_traversal-Rounds}
use iterative_context.Traversal.Default.{EndsWell, run_traversal-EndsWell}

abbrev pub nx : DiGraph NodeAttrs EdgeAttrs
nx = list_graph NodeAttrs EdgeAttrs

-- numbers up to 2, which are all that the tests need
abbrev pub small_float : ℕ → Float
small_float zero = literal 0
small_float (suc zero) = one_float
small_float (suc (suc _)) = literal 0x4000_0000_0000_0000

abbrev pub ops : FloatOps
ops = record {
  add = λ x y. x;
  sub = λ x y. x;
  mul = λ x y. y;
  of_int = λ z. elim z [ pos n ↦ some (small_float n) | negsuc n ↦ none ];
  of_nat = small_float;
}

abbrev node_a : Node
node_a = pending_node (codes "a") symbol

abbrev node_b : Node
node_b = pending_node (codes "b") symbol

abbrev node_c : Node
node_c = pending_node (codes "c") symbol

abbrev graph : nx.Graph
graph = record {
  node_list = (codes "a", node_attrs node_a) ∷ (codes "b", node_attrs node_b) ∷ [];
  edge_list =
      record {
        source = codes "a";
        target = codes "b";
        attrs = edge_attrs (call_edge (codes "a") (codes "b"));
      }
      ∷ [];
}

abbrev policy : ScorePolicy nx ops
policy = score_degree nx ops

expand_lem_example :
    ((after nx (codes "a") graph).1 ≡ none)
    × (nx.nodes (after nx (codes "a") graph).0
        ≡ expanded_nodes (codes "a") (node_attrs node_a) node_a (nx.nodes graph))
    × ((u v : Str)
        → edge_between u v (nx.edges (after nx (codes "a") graph).0) ≡ (
            if not (has (child_id_of (codes "a")) (nx.nodes graph))
              && (str_eq (codes "a") u && str_eq (child_id_of (codes "a")) v)
            then some (edge_attrs (call_edge (codes "a") (child_id_of (codes "a"))))
            else edge_between u v (nx.edges graph)))
unfolding get str_eq
expand_lem_example = expand_lem nx (codes "a") graph (node_attrs node_a) node_a refl refl

expand_twice_example :
    (nx.nodes (after nx (codes "a") (after nx (codes "a") graph).0).0
      ≡ nx.nodes (after nx (codes "a") graph).0)
    × ((after nx (codes "a") (after nx (codes "a") graph).0).1 ≡ none)
unfolding get str_eq
expand_twice_example = expand_twice nx (codes "a") graph (node_attrs node_a) node_a refl refl

abbrev events : List GraphEvent
events =
    GraphEvent.update_node (codes "a") (set_state pruned ∷ [])
    ∷ GraphEvent.update_node (codes "z") (set_state pruned ∷ [])
    ∷ []

-- an update, a new node and an edge to it
abbrev growing : List GraphEvent
growing =
    GraphEvent.update_node (codes "a") (set_state pruned ∷ [])
    ∷ GraphEvent.add_nodes (node_b ∷ node_c ∷ []) none
    ∷ GraphEvent.add_edges (call_edge (codes "b") (codes "c") ∷ []) none
    ∷ []

get-apply_events_example :
    get (codes "a") (nx.nodes (apply_events nx growing graph).0)
    ≡ some (patched (codes "a") growing (node_attrs node_a))
unfolding apply_events apply_event get has put str_eq add_missing_nodes first_unknown_edge
    add_all_edges
get-apply_events_example =
    get-apply_events nx (codes "a") growing graph (apply_events nx growing graph).0
      (node_attrs node_a) refl refl

has-apply_events_ok_example :
    has (codes "c") (nx.nodes (apply_events nx growing graph).0)
    ≡ (has (codes "c") (nx.nodes graph) || added (codes "c") growing)
unfolding apply_events apply_event get has put str_eq add_missing_nodes first_unknown_edge
    add_all_edges
has-apply_events_ok_example =
    has-apply_events_ok nx (codes "c") growing graph (apply_events nx growing graph).0 refl

apply_events-IsClosed_example : IsClosed nx (apply_events nx growing graph).0
unfolding has str_eq
apply_events-IsClosed_example = apply_events-IsClosed nx growing graph (refl, tt)

replay_with_snapshots-apply_events_example :
    ((replay_with_snapshots nx events graph).0 ≡ (apply_events nx events graph).0)
    × (((x : GraphError) × ((replay_with_snapshots nx events graph).1 ≡ err x)
          × ((apply_events nx events graph).1 ≡ some x))
        ⊎ ((gs : List nx.Graph) × ((replay_with_snapshots nx events graph).1 ≡ ok gs)
            × ((apply_events nx events graph).1 ≡ none)
            × (last_of graph gs ≡ (apply_events nx events graph).0)
            × (length gs ≡ 2 + 1)))
replay_with_snapshots-apply_events_example = replay_with_snapshots-apply_events nx events graph

numeric_score_finite_example : (is_nan one_float ≡ false) × (is_inf one_float ≡ false)
unfolding numeric_score check_finite is_nan is_inf
numeric_score_finite_example = numeric_score_finite ops (some (int (pos 1))) one_float refl

run_traversal-EndsWell_example :
    EndsWell nx ops policy 5
      (run_traversal nx ops (default_expansion nx ops) policy 3 graph none [] none)
run_traversal-EndsWell_example =
    run_traversal-EndsWell nx ops policy 3 graph none
      ((node_a, refl, refl), ((node_b, refl, refl), tt))

abbrev or_else : {A E : Type 0} → A → Result E A → A
or_else a (ok b) = b
or_else a (err e) = a

abbrev ranked : List Scored
ranked = or_else [] (rank_frontier nx ops policy graph 0 (node_a ∷ node_b ∷ []))

rank_frontier_lem_example :
    All HasNumber ranked
    × IsSorted scored_gt ranked
    × (length ranked ≡ 2)
    × ((p : Node → Bool) → any (λ c. p c.node) ranked ≡ any p (node_a ∷ node_b ∷ []))
unfolding rank_frontier score_candidates score_candidate numeric_score check_finite is_nan is_inf
    score_degree degree in_degree out_degree str_eq
rank_frontier_lem_example =
    rank_frontier_lem nx ops policy graph 0 (node_a ∷ node_b ∷ []) ranked refl

abbrev start : Progress nx ops
start = record { graph = graph; graph_steps = []; score_history = []; observer = none }

abbrev traversed : Progress nx ops
traversed =
    or_else start (run_traversal nx ops (default_expansion nx ops) policy 2 graph none [] none)

run_traversal-Rounds_example :
    (made : ℕ) × (made ≤ 2)
    × (length traversed.graph_steps ≡ made + 1)
    × (length traversed.score_history ≡ made)
    × ((made ≡ 2) ⊎ (get_frontier nx ops traversed.graph ≡ []))
unfolding run_traversal run_from get_frontier sort insert_sorted pending_nodes is_pending str_lt
    traverse_step rank_frontier score_candidates score_candidate numeric_score check_finite is_nan
    is_inf score_degree degree in_degree out_degree str_eq source_edges least_source source_lt
    scored_lt float_lt float_eq expand_best find_node expand_selected default_expansion expand_node
    apply_events apply_event add_missing_nodes first_unknown_edge add_all_edges model_copy get has
    put
run_traversal-Rounds_example =
    run_traversal-Rounds nx ops (default_expansion nx ops) policy 2 graph none traversed refl
