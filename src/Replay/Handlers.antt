-- ===== src/Replay/Handlers.antt =====
-- The handlers of decisions and expansions against the consumer.
use iterative_context.Prelude.{
  ℕ, refl, inl, inr, ◌||◌, Option, some, List, [], ◌∷◌, Bool-cases, Option-cases, List-cases,
}
use iterative_context.Text.{Str, codes, str_eq}
use iterative_context.Dict.{has}
use iterative_context.Models.{Node, GraphEvent}
use iterative_context.Anchor.{AnchorCandidate, AnchorDecision, Status}
use iterative_context.Replay.Payload.{FrontierCandidate, normalize_node}
use iterative_context.Replay.Visible.{FrontierDecision, any_frontier, bounded_frontier_candidates}
use iterative_context.Replay.Recorder.{
  Recorder, blank, prune_node, append_iteration, state_patch, iteration_event,
}
use iterative_context.Replay.Observe.{
  prune_others, select_anchor, show_anchors, record_status, observe_anchor_decision,
  record_candidate_score, record_scores, prune_listed, show_frontier, record_frontier,
  observe_frontier_decision, ensure_node_known, observe_event, observe_expansion, score_patch,
  lookahead_text, count_lookahead,
}
use iterative_context.Replay.Collect.{CollectArgs, collect, count_events, collect_state}
use iterative_context.Replay.Replayer.{consume, replay_from}
use iterative_context.Replay.Rebuild.{
  IsReplayable, add_nodes-IsReplayable, add_edges-IsReplayable, update_node-IsReplayable,
  append_iteration-IsReplayable, same-IsReplayable, append-IsReplayable,
}

pub prune_node-IsReplayable :
    (i reason : Str) (r : Recorder) → IsReplayable r → IsReplayable (prune_node i reason r)
unfolding prune_node
prune_node-IsReplayable i reason r h =
    update_node-IsReplayable i (state_patch (codes "pruned")) (some reason) r h

prune_others-IsReplayable :
    (selected : Str) (cs : List AnchorCandidate) (r : Recorder)
    → IsReplayable r
    → IsReplayable (prune_others selected cs r)
unfolding prune_others
prune_others-IsReplayable selected [] r h = h
prune_others-IsReplayable selected (c ∷ cs) r h =
    prune_others-IsReplayable selected cs _ (elim (Bool-cases (str_eq c.node_id selected)) [
      | inl e ↦ rw e h
      | inr n ↦ rw n (prune_node-IsReplayable c.node_id _ r h)
    ])

show_anchors-IsReplayable :
    (visible : List AnchorCandidate) (r : Recorder)
    → IsReplayable r
    → IsReplayable (show_anchors visible r)
unfolding show_anchors
show_anchors-IsReplayable visible r h = add_nodes-IsReplayable _ _ r h

record_status-IsReplayable :
    (d : AnchorDecision) (visible : List AnchorCandidate) (s : Status) (r : Recorder)
    → IsReplayable r
    → IsReplayable (record_status d visible s r)
unfolding record_status select_anchor
record_status-IsReplayable d visible Status.not_found r h = same-IsReplayable r _ refl refl h
record_status-IsReplayable d visible Status.ambiguous r h =
    same-IsReplayable (show_anchors visible r) _ refl refl (show_anchors-IsReplayable visible r h)
record_status-IsReplayable d visible Status.resolved r h =
    let shown =
      same-IsReplayable (show_anchors visible r) _ refl refl
        (show_anchors-IsReplayable visible r h) in
    elim (Option-cases d.selected_anchor_id) [
      | inl e ↦ rw (e, record_status) shown
      | inr (selected, e) ↦
          rw (e, record_status)
            (prune_others-IsReplayable selected visible _ (update_node-IsReplayable _ _ _ _ shown))
    ]

pub observe_anchor_decision-IsReplayable :
    (d : AnchorDecision) (r : Recorder)
    → IsReplayable r
    → IsReplayable (observe_anchor_decision d r)
unfolding observe_anchor_decision
observe_anchor_decision-IsReplayable d r h =
    record_status-IsReplayable d _ d.status _
      (append_iteration-IsReplayable _ _ (same-IsReplayable r _ refl refl h))

record_candidate_score-IsReplayable :
    (c : FrontierCandidate) (r : Recorder)
    → IsReplayable r
    → IsReplayable (record_candidate_score c r)
unfolding record_candidate_score
record_candidate_score-IsReplayable c r h = elim (List-cases (score_patch c)) [
  | inl e ↦ rw (e, record_candidate_score) h
  | inr (x, xs, e) ↦
      rw (e, record_candidate_score)
        (update_node-IsReplayable c.node_id (x ∷ xs) (some (codes "candidate_scored")) r h)
]

record_scores-IsReplayable :
    (cs : List FrontierCandidate) (r : Recorder)
    → IsReplayable r
    → IsReplayable (record_scores cs r)
unfolding record_scores
record_scores-IsReplayable [] r h = h
record_scores-IsReplayable (c ∷ cs) r h =
    record_scores-IsReplayable cs (record_candidate_score c r)
      (record_candidate_score-IsReplayable c r h)

prune_listed-IsReplayable :
    (visible : List FrontierCandidate) (ids : List Str) (r : Recorder)
    → IsReplayable r
    → IsReplayable (prune_listed visible ids r)
unfolding prune_listed
prune_listed-IsReplayable visible [] r h = h
prune_listed-IsReplayable visible (i ∷ ids) r h =
    prune_listed-IsReplayable visible ids _
      (elim (Bool-cases (has i r.known_nodes || any_frontier i visible)) [
        | inl e ↦ rw e (prune_node-IsReplayable i (codes "frontier_pruned") r h)
        | inr n ↦ rw n h
      ])

show_frontier-IsReplayable :
    (visible : List FrontierCandidate) (r : Recorder)
    → IsReplayable r
    → IsReplayable (show_frontier visible r)
unfolding show_frontier
show_frontier-IsReplayable visible r h =
    add_edges-IsReplayable _ _ _ (add_nodes-IsReplayable _ _ r h)

pub observe_frontier_decision-IsReplayable :
    (d : FrontierDecision) (r : Recorder)
    → IsReplayable r
    → IsReplayable (observe_frontier_decision d r)
unfolding observe_frontier_decision record_frontier
observe_frontier_decision-IsReplayable d r h =
    let visible = bounded_frontier_candidates r.max_visible_pending r.visible_pending_ids d in
    let counted = append_iteration (lookahead_text d.step) (count_lookahead r) in
    same-IsReplayable _ _ refl refl (
      prune_listed-IsReplayable visible d.pruned_ids _ (
        record_scores-IsReplayable visible _ (
          show_frontier-IsReplayable visible _ (
            same-IsReplayable counted _ refl refl (
              append_iteration-IsReplayable (lookahead_text d.step) (count_lookahead r)
                (same-IsReplayable r _ refl refl h))))))

module _ (node_data : Str → Option Node) where
  ensure_node_known-IsReplayable :
      (i : Str) (r : Recorder) → IsReplayable r → IsReplayable (ensure_node_known node_data i r)
  unfolding ensure_node_known
  ensure_node_known-IsReplayable i r h = elim (Bool-cases (has i r.known_nodes)) [
    | inl e ↦ rw (e, ensure_node_known) h
    | inr n ↦ elim (Option-cases (node_data i)) [
      | inl e ↦ rw (n, e, ensure_node_known) h
      | inr (node, e) ↦
          rw (n, e, ensure_node_known)
            (add_nodes-IsReplayable (normalize_node node ∷ []) (some (codes "frontier_visible")) r
              h)
    ]
  ]

  observe_event-IsReplayable :
      (source_id : Str) (e : GraphEvent) (r : Recorder)
      → IsReplayable r
      → IsReplayable (observe_event node_data source_id e r)
  unfolding observe_event
  observe_event-IsReplayable source_id (GraphEvent.add_nodes nodes reason) r h =
      add_nodes-IsReplayable _ _ r h
  observe_event-IsReplayable source_id (GraphEvent.add_edges edges reason) r h =
      add_edges-IsReplayable _ _ r h
  observe_event-IsReplayable source_id (GraphEvent.update_node i patch) r h =
      update_node-IsReplayable _ _ _ _ (ensure_node_known-IsReplayable i r h)
  observe_event-IsReplayable source_id (GraphEvent.iteration step description) r h =
      append-IsReplayable r r (iteration_event step description) h refl (unfold consume in refl)

  pub observe_expansion-IsReplayable :
      (source_id : Str) (es : List GraphEvent) (r : Recorder)
      → IsReplayable r
      → IsReplayable (observe_expansion node_data source_id es r)
  unfolding observe_expansion
  observe_expansion-IsReplayable source_id [] r h = h
  observe_expansion-IsReplayable source_id (e ∷ es) r h =
      observe_expansion-IsReplayable source_id es _ (observe_event-IsReplayable source_id e r h)

pub blank-IsReplayable : (limit : ℕ) → IsReplayable (blank limit)
unfolding replay_from
blank-IsReplayable limit = record { replays = refl }

pub collect-IsReplayable :
    (lower : Str → Str) (a : CollectArgs) (r : Recorder)
    → IsReplayable r
    → IsReplayable (collect lower a r).1
collect-IsReplayable lower a r h = elim (collect_state lower a r) [
  | inl e ↦ rw e h
  | inr (inl e) ↦ rw e (same-IsReplayable r (count_events r) refl refl h)
  | inr (inr e) ↦ rw e (blank-IsReplayable r.max_visible_pending)
]
