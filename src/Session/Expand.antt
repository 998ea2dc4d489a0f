-- ===== src/Session/Expand.antt =====
-- graph_session.py: `GraphSession.expand`. The two loops over a queue are `walk`, on the fuel given. An
-- exception of the traversal keeps the recorder from the caller.
pub mod Search
pub mod Laws
use iterative_context.Prelude.{
  Result, ok, err, ℕ, Option, none, some, List, [], ◌∷◌, ◌++◌, if◌then◌else◌, ℤ, max_zero,
}
use iterative_context.Text.{Str, codes, str_eq, mem}
use iterative_context.Dict.{has}
use iterative_context.Value.{str, int}
use iterative_context.DiGraph.{DiGraph, EdgeEntry}
use iterative_context.Events.{NodeAttrs, EdgeAttrs}
use iterative_context.Scoring.{FloatOps, default_score_fn}
use iterative_context.Replay.Payload.{Payload}
use iterative_context.Replay.Recorder.{Recorder}
use iterative_context.Reach.Popped.{walk}
use iterative_context.Traversal.{
  TraversalError, Progress, ScorePolicy, default_expansion, run_traversal,
}
use iterative_context.Serialization.{GraphSnapshot, serialize_graph}
use iterative_context.Session.{Session}

-- what `expand` raises: `networkx` for an unknown node, the traversal, or the serialisation
pub data ExpandError : Type 0 where
  unknown_node : Str → ExpandError
  traversal_error : TraversalError → ExpandError
  node_without_data : ExpandError

-- the targets of the edges from a node, and the sources of those to it
unfoldable pub successors : Str → List (EdgeEntry EdgeAttrs) → List Str
successors x [] = []
successors x (e ∷ es) =
    let rest = successors x es in if str_eq e.source x then e.target ∷ rest else rest

unfoldable pub predecessors : Str → List (EdgeEntry EdgeAttrs) → List Str
predecessors x [] = []
predecessors x (e ∷ es) =
    let rest = predecessors x es in if str_eq e.target x then e.source ∷ rest else rest

abbrev pub expand_metadata : ℤ → Str → Payload
expand_metadata depth node_id =
    (codes "depth", int depth) ∷ (codes "expanded_from", str node_id) ∷ []

module _ (nx : DiGraph NodeAttrs EdgeAttrs) (ops : FloatOps) where
  open nx use {Graph, nodes, edges, subgraph}

  unfoldable pub beside : Graph → Str → List Str
  beside g x = successors x (edges g) ++ predecessors x (edges g)

  -- the calls of `successors` and `predecessors`, which raise for an unknown node
  unfoldable pub neighbors_of : Graph → Str → Option (List Str)
  neighbors_of g x = if has x (nodes g) then some (beside g x) else none

  -- the nodes that the loop from `node_id` visits
  abbrev pub reachable : ℕ → ℕ → Str → Graph → Option (Result Str (List Str))
  reachable fuel depth node_id g = walk (neighbors_of g) fuel depth [] ((node_id, 0) ∷ [])

  abbrev pub Expanded : Type 0
  Expanded = Option (Result ExpandError (GraphSnapshot × Option Recorder))

  -- the part behind the traversal
  unfoldable pub snapshot_of : ℕ → Str → ℤ → Progress nx ops → Expanded
  snapshot_of fuel node_id depth t = elim (reachable fuel (max_zero depth) node_id t.graph) [
    | none ↦ none
    | some (err x) ↦ some (err (unknown_node x))
    | some (ok visited) ↦
        elim (serialize_graph nx (subgraph (λ x. mem x visited) t.graph)
          (expand_metadata depth node_id)) [
            | none ↦ some (err node_without_data)
            | some snapshot ↦ some (ok (snapshot, t.observer))
          ]
  ]

  -- `score_fn or default_score_fn`
  unfoldable pub chosen : Option (ScorePolicy nx ops) → ScorePolicy nx ops
  chosen none = default_score_fn nx ops
  chosen (some f) = f

  -- `dist >= depth`, for a distance that is never negative, tests `max(depth, 0)`
  unfoldable pub expand_graph :
      ℕ → Str → ℤ → Option (ScorePolicy nx ops) → Option Recorder → Graph → Expanded
  expand_graph fuel node_id depth score_fn observer g =
      elim (reachable fuel (max_zero depth) node_id g) [
        | none ↦ none
        | some (err x) ↦ some (err (unknown_node x))
        | some (ok base) ↦
            elim (run_traversal nx ops (default_expansion nx ops) (chosen score_fn) (max_zero depth)
              (subgraph (λ x. mem x base) g) none [] observer) [
                | err e ↦ some (err (traversal_error e))
                | ok t ↦ snapshot_of fuel node_id depth t
              ]
      ]

  unfoldable pub expand :
      ℕ → Str → ℤ → Option (ScorePolicy nx ops) → Option Recorder → Session Graph → Expanded
  expand fuel node_id depth score_fn observer s = elim s.graph [
    | none ↦
        some (
          ok
            (record { nodes = []; edges = []; metadata = expand_metadata depth node_id }, observer))
    | some g ↦ expand_graph fuel node_id depth score_fn observer g.graph
  ]
