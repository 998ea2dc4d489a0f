-- ===== src/Traversal.antt =====
-- traversal.py: the loop that picks pending nodes by score and expands them.
pub mod Candidates
pub mod Order
pub mod Rounds
pub mod Soundness
pub mod Growth
pub mod Default
pub mod Keeps
use iterative_context.Prelude.{
  Result, ok, err, ◌>>=◌, ℕ, zero, suc, Option, none, some, List, [], ◌∷◌, ◌++◌, length,
}
use iterative_context.Text.{Str}
use iterative_context.Float.{Float}
use iterative_context.Dict.{get}
use iterative_context.Sort.{sort}
use iterative_context.Value.{Value}
use iterative_context.Models.{Node, GraphEvent}
use iterative_context.DiGraph.{DiGraph}
use iterative_context.Events.{NodeAttrs, EdgeAttrs, GraphError, apply_events}
use iterative_context.Expansion.{expand_node}
use iterative_context.Scoring.{FloatOps, ScoreError, numeric_score}
use iterative_context.Replay.Payload.{FrontierCandidate}
use iterative_context.Replay.Visible.{FrontierDecision}
use iterative_context.Replay.Recorder.{Recorder}
use iterative_context.Replay.Observe.{observe_frontier_decision, observe_expansion}
use iterative_context.Traversal.Candidates.{
  pending_nodes, by_id, node_of, source_edges, source_fields, Scored, scored_gt, number_candidates,
  find_node,
}

-- the exceptions of the loop; `no_candidate` stands for an `IndexError` or a `StopIteration`
pub data TraversalError : Type 0 where
  score_error : ScoreError → TraversalError
  graph_error : GraphError → TraversalError
  no_candidate : TraversalError

pub record ScoreEntry : Type 0 where
  pub id : Str
  pub score : Float
  pub rank : ℕ

unfoldable pub score_entries : ℕ → List Scored → List ScoreEntry
score_entries rank [] = []
score_entries rank (c ∷ cs) =
    record { id = c.node.id; score = c.score; rank = rank } ∷ score_entries (suc rank) cs

abbrev pub decision_of : ℕ → List FrontierCandidate → Str → FrontierDecision
decision_of step ranked selected = record {
  step = step;
  source_id = none;
  candidates = ranked;
  visible_candidate_ids = [];
  selected_id = some selected;
  pruned_ids = [];
  frontier_count = length ranked;
  hidden_count = 0;
  reason = none;
}

module _ (nx : DiGraph NodeAttrs EdgeAttrs) (ops : FloatOps) where
  open nx use {Graph, nodes, edges}

  unfoldable pub get_frontier : Graph → List Node
  get_frontier g = sort by_id (pending_nodes (nodes g))

  -- `graph.graph` holds the steps and the score history; the observer is a recorder.
  pub record Progress : Type 0 where
    pub graph : Graph
    pub graph_steps : List Graph
    pub score_history : List (List ScoreEntry)
    pub observer : Option Recorder

  -- A policy's answer is `none` where it raises.
  abbrev pub ScorePolicy : Type 0
  ScorePolicy = Node → Graph → ℕ → Option Value

  abbrev pub ExpansionPolicy : Type 0
  ExpansionPolicy = Node → Graph → List GraphEvent

  unfoldable pub default_expansion : ExpansionPolicy
  default_expansion node g = expand_node nx node.id g

  unfoldable pub score_candidate : ScorePolicy → Graph → ℕ → Node → Result TraversalError Scored
  score_candidate policy g step node = elim (numeric_score ops (policy node g step)) [
    | err e ↦ err (score_error e)
    | ok score ↦
        let sources = source_fields (source_edges node.id (nodes g) (edges g)) in
        ok (record {
          node = node;
          score = score;
          symbol_text = elim (get node.id (nodes g)) [ none ↦ none | some a ↦ a.symbol_text ];
          source_id = sources.0;
          edge_kind = sources.1;
        })
  ]

  unfoldable pub score_candidates :
      ScorePolicy → Graph → ℕ → List Node → Result TraversalError (List Scored)
  score_candidates policy g step [] = ok []
  score_candidates policy g step (n ∷ ns) = score_candidate policy g step n >>= λ c.
      score_candidates policy g step ns >>= λ cs. ok (c ∷ cs)

  -- `_rank_frontier_candidates`, with the nodes beside the candidates
  unfoldable pub rank_frontier :
      ScorePolicy → Graph → ℕ → List Node → Result TraversalError (List Scored)
  rank_frontier policy g step ns =
      score_candidates policy g step ns >>= λ cs. ok (sort scored_gt cs)

  abbrev pub map_observer : (Recorder → Recorder) → Option Recorder → Option Recorder
  map_observer f none = none
  map_observer f (some r) = some (f r)

  abbrev pub node_data_of : Graph → Str → Option Node
  node_data_of g i = node_of (get i (nodes g))

  -- the part of a round behind the choice of the node
  unfoldable pub expand_selected :
      ExpansionPolicy → ℕ → List Scored → Node → Progress → Result TraversalError Progress
  expand_selected expand step ranked node s =
      let decided =
        map_observer
          (observe_frontier_decision (decision_of step (number_candidates 1 ranked) node.id))
          s.observer in
      let events = expand node s.graph in
      let (g, raised) = apply_events nx events s.graph in
      elim raised [
        | some e ↦ err (graph_error e)
        | none ↦ ok (record {
          graph = g;
          graph_steps = s.graph_steps ++ g ∷ [];
          score_history = s.score_history ++ score_entries 1 ranked ∷ [];
          observer = map_observer (observe_expansion (node_data_of s.graph) node.id events) decided;
        })
      ]

  -- the node of the first ranked candidate, expanded
  unfoldable pub expand_best :
      ExpansionPolicy → ℕ → List Node → Progress → List Scored → Result TraversalError Progress
  expand_best expand step candidates s [] = err no_candidate
  expand_best expand step candidates s (best ∷ rest) = elim (find_node best.node.id candidates) [
    | none ↦ err no_candidate
    | some node ↦ expand_selected expand step (best ∷ rest) node s
  ]

  -- one round of the loop, with candidates
  unfoldable pub traverse_step :
      ExpansionPolicy → ScorePolicy → ℕ → List Node → Progress → Result TraversalError Progress
  traverse_step expand policy step candidates s =
      rank_frontier policy s.graph step candidates >>= expand_best expand step candidates s

  unfoldable pub run_from :
      ExpansionPolicy → ScorePolicy → ℕ → ℕ → Progress → Result TraversalError Progress
  run_from expand policy zero step s = ok s
  run_from expand policy (suc k) step s = elim (get_frontier s.graph) [
    | [] ↦ ok s
    | c ∷ cs ↦ traverse_step expand policy step (c ∷ cs) s >>= run_from expand policy k (suc step)
  ]

  -- `run_traversal` on a graph whose `graph_steps` and `score_history` are those given, `none` and `[]`
  -- where they are not set
  unfoldable pub run_traversal :
      ExpansionPolicy
      → ScorePolicy
      → ℕ
      → Graph
      → Option (List Graph)
      → List (List ScoreEntry)
      → Option Recorder
      → Result TraversalError Progress
  run_traversal expand policy steps g earlier history observer =
      run_from expand policy steps 0 (record {
        graph = g;
        graph_steps = elim earlier [ none ↦ g ∷ [] | some gs ↦ gs ];
        score_history = history;
        observer = observer;
      })
