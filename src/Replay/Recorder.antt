-- ===== src/Replay/Recorder.antt =====
-- graph_replay.py: the recorder's state and the operations that append events.
use iterative_context.Prelude.{
  ℕ, ◌+◌, max, Bool, true, false, not, ◌&&◌, ◌||◌, Option, none, some, List, [], ◌∷◌, ◌++◌,
  if◌then◌else◌, filter, ℤ, pos, max_zero,
}
use iterative_context.Text.{Str, codes, str_eq, mem}
use iterative_context.Dict.{Dict, get, has, put, update}
use iterative_context.Value.{Value, str, as_str, is_text}
use iterative_context.Replay.Payload.{Payload, compact}

-- The dicts of the event list, told apart by their `type`. An optional field is one that the dict
-- has only where it is not `None`.
pub data ReplayEvent : Type 0 where
  iteration_event : ℤ → Option Str → ReplayEvent
  add_nodes_event : List Payload → Option Str → ReplayEvent
  add_edges_event : List Payload → Option Str → ReplayEvent
  update_node_event : Str → Payload → Option Str → ReplayEvent
  set_context_event : List Str → Option ℤ → Option Str → ReplayEvent
  token_add_event : Str → ℤ → ReplayEvent

pub record Summary : Type 0 where
  pub event_count : ℕ
  pub resolve_calls : ℕ
  pub expand_calls : ℕ
  pub lookahead_steps : ℕ
  pub anchor_resolved : ℕ
  pub anchor_ambiguous : ℕ
  pub anchor_not_found : ℕ
  pub visible_frontier_limit : ℕ
  pub frontier_candidate_count : ℕ
  pub hidden_candidate_count : ℕ
  pub max_frontier_candidate_count : ℕ
  pub max_hidden_candidate_count : ℕ

-- (source, target, kind)
pub record EdgeKey : Type 0 where
  pub source : Str
  pub target : Str
  pub kind : Str

unfoldable pub key_eq : EdgeKey → EdgeKey → Bool
key_eq a b = str_eq a.source b.source && (str_eq a.target b.target && str_eq a.kind b.kind)

unfoldable pub has_edge : EdgeKey → List EdgeKey → Bool
has_edge k [] = false
has_edge k (j ∷ ks) = key_eq k j || has_edge k ks

-- `known_edges` lists a set.
pub record Recorder : Type 0 where
  pub max_visible_pending : ℕ
  pub events : List ReplayEvent
  pub known_nodes : Dict Payload
  pub known_edges : List EdgeKey
  pub summary : Summary
  pub iteration : ℕ
  pub visible_pending_ids : List Str

abbrev pub initial_summary : ℕ → Summary
initial_summary limit = record {
  event_count = 0;
  resolve_calls = 0;
  expand_calls = 0;
  lookahead_steps = 0;
  anchor_resolved = 0;
  anchor_ambiguous = 0;
  anchor_not_found = 0;
  visible_frontier_limit = limit;
  frontier_candidate_count = 0;
  hidden_candidate_count = 0;
  max_frontier_candidate_count = 0;
  max_hidden_candidate_count = 0;
}

-- the state that `reset` leaves, whatever it was before
abbrev pub blank : ℕ → Recorder
blank limit = record {
  max_visible_pending = limit;
  events = [];
  known_nodes = [];
  known_edges = [];
  summary = initial_summary limit;
  iteration = 0;
  visible_pending_ids = [];
}

unfoldable pub reset : Recorder → Recorder
reset r = blank r.max_visible_pending

-- `GraphReplayRecorder(max_visible_pending=limit)`
unfoldable pub new_recorder : ℤ → Recorder
new_recorder limit = blank (max 1 (max_zero limit))

abbrev pub append : Recorder → ReplayEvent → Recorder
append r e = record r { events = r.events ++ e ∷ [] }

unfoldable pub note_expand_call : Recorder → Recorder
note_expand_call r = record r {
  summary = record (r.summary) { expand_calls = r.summary.expand_calls + 1 };
}

-- the loop of `add_nodes`: the new nodes of the batch, and all nodes known after it
unfoldable pub fresh_nodes : List Payload → Dict Payload → List Payload × Dict Payload
fresh_nodes [] known = ([], known)
fresh_nodes (node ∷ nodes) known = elim (as_str (get (codes "id") node)) [
  | none ↦ fresh_nodes nodes known
  | some node_id ↦ elim (has node_id known) [
    | true ↦ fresh_nodes nodes known
    | false ↦
        let cleaned = compact node in
        let (fresh, known') = fresh_nodes nodes (put node_id cleaned known) in
        (cleaned ∷ fresh, known')
  ]
]

-- an event is appended only for a batch that is not empty
abbrev pub append_batch : Recorder → List Payload → ReplayEvent → Recorder
append_batch r [] e = r
append_batch r (_ ∷ _) e = append r e

unfoldable pub add_nodes : List Payload → Option Str → Recorder → Recorder
add_nodes nodes reason r =
    let (fresh, known) = fresh_nodes nodes r.known_nodes in
    append_batch (record r { known_nodes = known }) fresh (add_nodes_event fresh reason)

-- the key of an edge dict, where it has all three texts
unfoldable pub edge_key : Payload → Option EdgeKey
edge_key edge = elim (as_str (get (codes "source") edge)) [
  | none ↦ none
  | some source ↦ elim (as_str (get (codes "target") edge)) [
    | none ↦ none
    | some target ↦ elim (as_str (get (codes "kind") edge)) [
      | none ↦ none
      | some kind ↦ some (record { source = source; target = target; kind = kind })
    ]
  ]
]

unfoldable pub fresh_edges : List Payload → List EdgeKey → List Payload × List EdgeKey
fresh_edges [] known = ([], known)
fresh_edges (edge ∷ edges) known = elim (edge_key edge) [
  | none ↦ fresh_edges edges known
  | some key ↦ elim (has_edge key known) [
    | true ↦ fresh_edges edges known
    | false ↦
        let (fresh, known') = fresh_edges edges (known ++ key ∷ []) in
        (compact edge ∷ fresh, known')
  ]
]

unfoldable pub add_edges : List Payload → Option Str → Recorder → Recorder
add_edges edges reason r =
    let (fresh, known) = fresh_edges edges r.known_edges in
    append_batch (record r { known_edges = known }) fresh (add_edges_event fresh reason)

-- `state in {"resolved", "anchor", "pruned"}`
unfoldable pub is_terminal : Option Value → Bool
is_terminal v =
    is_text (codes "resolved") v || (is_text (codes "anchor") v || is_text (codes "pruned") v)

abbrev pub without : Str → List Str → List Str
without node_id = filter (λ visible_id. not (str_eq visible_id node_id))

-- the part of `update_node` behind its two early returns
unfoldable pub apply_update : Str → Payload → Payload → Option Str → Recorder → Recorder
apply_update node_id current patch reason r =
    append
      (record r {
        known_nodes = put node_id (update current patch) r.known_nodes;
        visible_pending_ids =
            if is_terminal (get (codes "state") patch)
            then without node_id r.visible_pending_ids
            else r.visible_pending_ids;
      })
      (update_node_event node_id patch reason)

unfoldable pub update_node : Str → Payload → Option Str → Recorder → Recorder
update_node node_id patch reason r = elim (get node_id r.known_nodes) [
  | none ↦ r
  | some current ↦ elim (compact patch) [
    | [] ↦ r
    | e ∷ rest ↦ apply_update node_id current (e ∷ rest) reason r
  ]
]

abbrev pub state_patch : Str → Payload
state_patch state = (codes "state", str state) ∷ []

unfoldable pub prune_node : Str → Str → Recorder → Recorder
prune_node node_id reason = update_node node_id (state_patch (codes "pruned")) (some reason)

-- `list(dict.fromkeys(nodes))`
unfoldable pub distinct : List Str → List Str → List Str
distinct seen [] = seen
distinct seen (x ∷ xs) = distinct (if mem x seen then seen else seen ++ x ∷ []) xs

unfoldable pub set_context : List Str → Option Str → Option ℤ → Recorder → Recorder
set_context nodes reason tokens r = append r (set_context_event (distinct [] nodes) tokens reason)

unfoldable pub token_add : Str → ℤ → Recorder → Recorder
token_add source tokens r = append r (token_add_event source tokens)

unfoldable pub append_iteration : Str → Recorder → Recorder
append_iteration description r =
    append (record r { iteration = r.iteration + 1 })
      (iteration_event (pos (r.iteration + 1)) (some description))
