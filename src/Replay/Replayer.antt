-- ===== src/Replay/Replayer.antt =====
-- A consumer of a recorded trace: it keeps the nodes and edges that the events announce, and rejects
-- an event that announces a node or an edge again, or updates a node that was not announced.
use mathlib.Core.Option
use iterative_context.Prelude.{◌≡◌, refl, true, false, Option, none, some, List, [], ◌∷◌, ◌++◌}
use iterative_context.Text.{codes}
use iterative_context.Dict.{Dict, get, has, put, update}
use iterative_context.Value.{as_str}
use iterative_context.Replay.Payload.{Payload}
use iterative_context.Replay.Recorder.{
  ReplayEvent, EdgeKey, iteration_event, add_nodes_event, add_edges_event, update_node_event,
  set_context_event, token_add_event, edge_key, has_edge,
}

pub record View : Type 0 where
  pub nodes : Dict Payload
  pub edges : List EdgeKey

abbrev pub empty_view : View
empty_view = record { nodes = []; edges = [] }

-- the nodes of one event, under their identifiers
unfoldable pub announce_nodes : List Payload → Dict Payload → Option (Dict Payload)
announce_nodes [] known = some known
announce_nodes (node ∷ nodes) known = elim (as_str (get (codes "id") node)) [
  | none ↦ none
  | some i ↦ elim (has i known) [
    | true ↦ none
    | false ↦ announce_nodes nodes (known ++ (i, node) ∷ [])
  ]
]

unfoldable pub announce_edges : List Payload → List EdgeKey → Option (List EdgeKey)
announce_edges [] known = some known
announce_edges (edge ∷ edges) known = elim (edge_key edge) [
  | none ↦ none
  | some key ↦ elim (has_edge key known) [
    | true ↦ none
    | false ↦ announce_edges edges (known ++ key ∷ [])
  ]
]

unfoldable pub consume : ReplayEvent → View → Option View
unfolding announce_nodes announce_edges
consume (add_nodes_event nodes reason) v =
    Option.map (λ known. record v { nodes = known }) (announce_nodes nodes v.nodes)
consume (add_edges_event edges reason) v =
    Option.map (λ known. record v { edges = known }) (announce_edges edges v.edges)
consume (update_node_event i patch reason) v = elim (get i v.nodes) [
  | none ↦ none
  | some node ↦ some (record v { nodes = put i (update node patch) v.nodes })
]
consume (iteration_event step description) v = some v
consume (set_context_event nodes tokens reason) v = some v
consume (token_add_event source tokens) v = some v

abbrev pub continue : ReplayEvent → Option View → Option View
continue e none = none
continue e (some v) = consume e v

unfoldable pub replay_from : List ReplayEvent → Option View → Option View
unfolding consume
replay_from [] v = v
replay_from (e ∷ es) v = replay_from es (continue e v)

abbrev pub replay : List ReplayEvent → Option View
replay es = replay_from es (some empty_view)

pub replay_from-append :
    (es : List ReplayEvent) (e : ReplayEvent) (v : Option View)
    → replay_from (es ++ e ∷ []) v ≡ continue e (replay_from es v)
unfolding replay_from
replay_from-append [] e v = refl
replay_from-append (d ∷ es) e v = replay_from-append es e (continue d v)
