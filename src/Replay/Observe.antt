-- ===== src/Replay/Observe.antt =====
-- graph_replay.py: the handlers of decisions and expansions.
use iterative_context.Prelude.{
  ℕ, ◌+◌, ◌-◌, max, true, false, not, ◌&&◌, ◌||◌, Option, none, some, List, [], ◌∷◌, ◌++◌, map,
  if◌then◌else◌, length,
}
use iterative_context.Text.{Str, codes, str_eq, mem}
use iterative_context.Text.Decimal.{decimal}
use iterative_context.Dict.{Dict, get, has}
use iterative_context.Value.{Value, float, int, is_text, as_str}
use iterative_context.Models.{Node, GraphEvent}
use iterative_context.Anchor.{AnchorCandidate, AnchorDecision, Status}
use iterative_context.Replay.Payload.{
  Payload, FrontierCandidate, normalize_node, node_from_anchor_candidate,
  node_from_frontier_candidate, frontier_edge_payload, edge_payload, patch_payload,
}
use iterative_context.Replay.Recorder.{
  Recorder, add_nodes, add_edges, update_node, prune_node, append_iteration, append,
  iteration_event, is_terminal, state_patch,
}
use iterative_context.Replay.Visible.{
  FrontierDecision, any_frontier, bounded_anchor_candidates, bounded_frontier_candidates,
}

-- `for candidate in visible: …` behind a resolved anchor
unfoldable pub prune_others : Str → List AnchorCandidate → Recorder → Recorder
prune_others selected [] r = r
prune_others selected (c ∷ cs) r = prune_others selected cs (
    if str_eq c.node_id selected
    then r
    else prune_node c.node_id (codes "anchor_candidate_pruned") r)

-- the branch of a resolved decision that selects an anchor
unfoldable pub select_anchor : Str → List AnchorCandidate → Recorder → Recorder
select_anchor selected visible r =
    prune_others selected visible
      (update_node selected (state_patch (codes "anchor")) (some (codes "selected_anchor")) r)

abbrev pub count_not_found : Recorder → Recorder
count_not_found r = record r {
  summary = record (r.summary) { anchor_not_found = r.summary.anchor_not_found + 1 };
}

abbrev pub count_ambiguous : Recorder → Recorder
count_ambiguous r = record r {
  summary = record (r.summary) { anchor_ambiguous = r.summary.anchor_ambiguous + 1 };
}

abbrev pub count_resolved : Recorder → Recorder
count_resolved r = record r {
  summary = record (r.summary) { anchor_resolved = r.summary.anchor_resolved + 1 };
}

abbrev pub count_resolve_call : Recorder → Recorder
count_resolve_call r = record r {
  summary = record (r.summary) { resolve_calls = r.summary.resolve_calls + 1 };
}

-- the candidates that a decision shows are added as pending nodes
unfoldable pub show_anchors : List AnchorCandidate → Recorder → Recorder
show_anchors visible =
    add_nodes (map (λ c. node_from_anchor_candidate c (codes "pending")) visible)
      (some (codes "anchor_candidates"))

-- what follows the iteration event, by the decision's status
unfoldable pub record_status : AnchorDecision → List AnchorCandidate → Status → Recorder → Recorder
record_status d visible Status.not_found r = count_not_found r
record_status d visible Status.ambiguous r = count_ambiguous (show_anchors visible r)
record_status d visible Status.resolved r = elim d.selected_anchor_id [
  | none ↦ count_resolved (show_anchors visible r)
  | some selected ↦ select_anchor selected visible (count_resolved (show_anchors visible r))
]

unfoldable pub observe_anchor_decision : AnchorDecision → Recorder → Recorder
observe_anchor_decision d r =
    record_status d
      (bounded_anchor_candidates r.max_visible_pending d.candidates d.selected_anchor_id) d.status
      (append_iteration (codes "resolve_query") (count_resolve_call r))

-- `_record_candidate_score`
abbrev pub score_patch : FrontierCandidate → Payload
score_patch c =
    (elim c.score [ none ↦ [] | some s ↦ (codes "score", float s) ∷ [] ])
    ++ (elim c.rank [ none ↦ [] | some n ↦ (codes "rank", int n) ∷ [] ])

unfoldable pub record_candidate_score : FrontierCandidate → Recorder → Recorder
record_candidate_score c r = elim (score_patch c) [
  | [] ↦ r
  | e ∷ p ↦ update_node c.node_id (e ∷ p) (some (codes "candidate_scored")) r
]

unfoldable pub record_scores : List FrontierCandidate → Recorder → Recorder
record_scores [] r = r
record_scores (c ∷ cs) r = record_scores cs (record_candidate_score c r)

-- `for node_id in decision.pruned_ids: …`
unfoldable pub prune_listed : List FrontierCandidate → List Str → Recorder → Recorder
prune_listed visible [] r = r
prune_listed visible (i ∷ ids) r = prune_listed visible ids (
    if has i r.known_nodes || any_frontier i visible
    then prune_node i (codes "frontier_pruned") r
    else r)

-- the edges of the visible candidates whose source is known
unfoldable pub known_source_edges : Dict Payload → List FrontierCandidate → List Payload
known_source_edges known [] = []
known_source_edges known (c ∷ cs) =
    let rest = known_source_edges known cs in
    elim (frontier_edge_payload c) [
      | none ↦ rest
      | some edge ↦ elim (as_str (get (codes "source") edge)) [
        | none ↦ rest
        | some source ↦ if has source known then edge ∷ rest else rest
      ]
    ]

-- the value at `state` of a known node, `{}` standing for an unknown one
abbrev pub known_state : Str → Dict Payload → Option Value
known_state i known = elim (get i known) [ none ↦ none | some node ↦ get (codes "state") node ]

unfoldable pub still_pending : List Str → Dict Payload → List FrontierCandidate → List Str
still_pending pruned known [] = []
still_pending pruned known (c ∷ cs) =
    let rest = still_pending pruned known cs in
    if not (mem c.node_id pruned) && not (is_terminal (known_state c.node_id known))
    then c.node_id ∷ rest
    else rest

abbrev pub lookahead_text : ℕ → Str
lookahead_text step = codes "lookahead_step_" ++ decimal (step + 1)

abbrev pub count_frontier : ℕ → ℕ → Recorder → Recorder
count_frontier frontier hidden r = record r {
  summary = record (r.summary) {
    frontier_candidate_count = frontier;
    hidden_candidate_count = hidden;
    max_frontier_candidate_count = max r.summary.max_frontier_candidate_count frontier;
    max_hidden_candidate_count = max r.summary.max_hidden_candidate_count hidden;
  };
}

abbrev pub count_lookahead : Recorder → Recorder
count_lookahead r = record r {
  summary = record (r.summary) { lookahead_steps = r.summary.lookahead_steps + 1 };
}

-- the visible candidates as nodes, then their edges
unfoldable pub show_frontier : List FrontierCandidate → Recorder → Recorder
show_frontier visible r =
    let shown =
      add_nodes (map (λ c. node_from_frontier_candidate c (codes "pending")) visible)
        (some (codes "frontier_visible")) r in
    add_edges (known_source_edges shown.known_nodes visible) (some (codes "frontier_visible")) shown

abbrev pub keep_pending : FrontierDecision → List FrontierCandidate → Recorder → Recorder
keep_pending d visible r = record r {
  visible_pending_ids = still_pending d.pruned_ids r.known_nodes visible;
}

-- what follows the choice of the visible candidates
unfoldable pub record_frontier : FrontierDecision → List FrontierCandidate → Recorder → Recorder
record_frontier d visible r =
    let hidden = max d.hidden_count (d.frontier_count - length visible) in
    keep_pending d visible (
      prune_listed visible d.pruned_ids
        (record_scores visible (show_frontier visible (count_frontier d.frontier_count hidden r))))

unfoldable pub observe_frontier_decision : FrontierDecision → Recorder → Recorder
observe_frontier_decision d r =
    record_frontier d (bounded_frontier_candidates r.max_visible_pending r.visible_pending_ids d)
      (append_iteration (lookahead_text d.step) (count_lookahead r))

-- `event.reason or default`
abbrev pub reason_or : Option Str → Str → Option Str
reason_or none d = some d
reason_or (some []) d = some d
reason_or (some (c ∷ s)) d = some (c ∷ s)

-- A graph gives the node that it stores under an identifier.
module _ (node_data : Str → Option Node) where
  unfoldable pub ensure_node_known : Str → Recorder → Recorder
  ensure_node_known node_id r = elim (has node_id r.known_nodes) [
    | true ↦ r
    | false ↦ elim (node_data node_id) [
      | none ↦ r
      | some node ↦ add_nodes (normalize_node node ∷ []) (some (codes "frontier_visible")) r
    ]
  ]

  abbrev pub update_reason : Str → Str → Payload → Str
  update_reason source_id node_id patch =
      if str_eq node_id source_id && is_text (codes "resolved") (get (codes "state") patch)
      then codes "frontier_selected"
      else codes "frontier_updated"

  unfoldable pub observe_event : Str → GraphEvent → Recorder → Recorder
  observe_event source_id (GraphEvent.add_nodes nodes reason) r =
      add_nodes (map normalize_node nodes) (reason_or reason (codes "frontier_discovered")) r
  observe_event source_id (GraphEvent.add_edges edges reason) r =
      add_edges (map edge_payload edges) (reason_or reason (codes "frontier_discovered")) r
  observe_event source_id (GraphEvent.update_node node_id patch) r =
      let p = patch_payload patch [] in
      update_node node_id p (some (update_reason source_id node_id p)) (ensure_node_known node_id r)
  observe_event source_id (GraphEvent.iteration step description) r =
      append r (iteration_event step description)

  unfoldable pub observe_expansion : Str → List GraphEvent → Recorder → Recorder
  observe_expansion source_id [] r = r
  observe_expansion source_id (e ∷ es) r =
      observe_expansion source_id es (observe_event source_id e r)
