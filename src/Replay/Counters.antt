-- ===== src/Replay/Counters.antt =====
-- The counters of the summary.
use iterative_context.Prelude.{
  ◌+◌, ◌-◌, ◌≤◌, max, ◌≡◌, inl, inr, List, [], ◌∷◌, arith, Option-cases, length, ℤ, max_zero,
}
use iterative_context.Text.{codes}
use iterative_context.Anchor.{AnchorDecision, AnchorCandidate, Status}
use iterative_context.Replay.Payload.{FrontierCandidate}
use iterative_context.Replay.Visible.{
  FrontierDecision, bounded_frontier_candidates, bounded_anchor_candidates,
}
use iterative_context.Replay.Recorder.{
  Recorder, blank, new_recorder, reset, note_expand_call, set_context, token_add, append_iteration,
}
use iterative_context.Replay.Observe.{
  record_status, observe_anchor_decision, record_frontier, observe_frontier_decision, show_anchors,
  count_resolved, count_resolve_call, count_lookahead, count_frontier, show_frontier, record_scores,
  lookahead_text,
}
use iterative_context.Replay.Frame.{
  SameCounts, SameCounts-trans, add_nodes-SameCounts, add_edges-SameCounts, update_node-SameCounts,
  prune_node-SameCounts, show_anchors-SameCounts, select_anchor-SameCounts,
  record_scores-SameCounts, prune_listed-SameCounts, show_frontier-SameCounts,
  observe_expansion-SameCounts,
}
use iterative_context.Replay.Collect.{collect_state}
use iterative_context.Replay.Calls.{
  Call, call, run, call_reset, call_note_expand, call_add_nodes, call_add_edges, call_update_node,
  call_prune_node, call_set_context, call_token_add, call_anchor, call_frontier, call_expansion,
  call_collect,
}

-- The summary accounts for every decision; the limit shown in it is the one in use, and is positive.
pub record IsCounted (r : Recorder) : Type 0 where
  pub outcomes :
      r.summary.resolve_calls
      ≡ r.summary.anchor_resolved + r.summary.anchor_ambiguous + r.summary.anchor_not_found
  pub steps : r.iteration ≡ r.summary.resolve_calls + r.summary.lookahead_steps
  pub frontier : r.summary.frontier_candidate_count ≤ r.summary.max_frontier_candidate_count
  pub hidden : r.summary.hidden_candidate_count ≤ r.summary.max_hidden_candidate_count
  pub limit : r.summary.visible_frontier_limit ≡ r.max_visible_pending
  pub positive : 1 ≤ r.max_visible_pending

same-IsCounted : (r t : Recorder) → SameCounts r t → IsCounted r → IsCounted t
same-IsCounted r t f h = ground arith

-- a counter of outcomes is raised after the call was counted
status-IsCounted :
    (d : AnchorDecision) (visible : List AnchorCandidate) (s : Status) (r : Recorder)
    → IsCounted r
    → IsCounted (
        record_status d visible s (append_iteration (codes "resolve_query") (count_resolve_call r)))
unfolding record_status append_iteration
status-IsCounted d visible Status.not_found r h = ground arith
status-IsCounted d visible Status.ambiguous r h = ground (
  arith,
  show_anchors-SameCounts visible (append_iteration (codes "resolve_query") (count_resolve_call r)),
)
status-IsCounted d visible Status.resolved r h =
    let before = append_iteration (codes "resolve_query") (count_resolve_call r) in
    let shown = show_anchors visible before in
    let counted : IsCounted (count_resolved shown) =
      ground (arith, show_anchors-SameCounts visible before) in
    elim (Option-cases d.selected_anchor_id) [
      | inl e ↦ rw (e, record_status) counted
      | inr (selected, e) ↦
          rw (e, record_status)
            (same-IsCounted _ _ (select_anchor-SameCounts selected visible (count_resolved shown))
              counted)
    ]

frontier-IsCounted :
    (d : FrontierDecision) (visible : List FrontierCandidate) (r : Recorder)
    → IsCounted r
    → IsCounted
        (record_frontier d visible (append_iteration (lookahead_text d.step) (count_lookahead r)))
unfolding record_frontier append_iteration
frontier-IsCounted d visible r h =
    let hidden = max d.hidden_count (d.frontier_count - length visible) in
    let counted =
      count_frontier d.frontier_count hidden
        (append_iteration (lookahead_text d.step) (count_lookahead r)) in
    let start : IsCounted counted = ground arith in
    let shown = show_frontier visible counted in
    let scored = record_scores visible shown in
    let kept =
      same-IsCounted _ _
        (SameCounts-trans counted _ _ (show_frontier-SameCounts visible counted) (
          SameCounts-trans shown _ _ (record_scores-SameCounts visible shown)
            (prune_listed-SameCounts visible d.pruned_ids scored)))
        start in
    record {
      outcomes = kept.outcomes;
      steps = kept.steps;
      frontier = kept.frontier;
      hidden = kept.hidden;
      limit = kept.limit;
      positive = kept.positive;
    }

call-IsCounted : (c : Call) (r : Recorder) → IsCounted r → IsCounted (call c r)
unfolding call reset note_expand_call set_context token_add
call-IsCounted call_reset r h = ground arith
call-IsCounted call_note_expand r h = ground arith
call-IsCounted (call_add_nodes nodes reason) r h =
    same-IsCounted r _ (add_nodes-SameCounts nodes reason r) h
call-IsCounted (call_add_edges edges reason) r h =
    same-IsCounted r _ (add_edges-SameCounts edges reason r) h
call-IsCounted (call_update_node i patch reason) r h =
    same-IsCounted r _ (update_node-SameCounts i patch reason r) h
call-IsCounted (call_prune_node i reason) r h =
    same-IsCounted r _ (prune_node-SameCounts i reason r) h
call-IsCounted (call_set_context nodes reason tokens) r h = ground arith
call-IsCounted (call_token_add source tokens) r h = ground arith
call-IsCounted (call_anchor d) r h =
    unfold observe_anchor_decision in
    status-IsCounted d
      (bounded_anchor_candidates r.max_visible_pending d.candidates d.selected_anchor_id) d.status r
      h
call-IsCounted (call_frontier d) r h =
    unfold observe_frontier_decision in
    frontier-IsCounted d (bounded_frontier_candidates r.max_visible_pending r.visible_pending_ids d)
      r h
call-IsCounted (call_expansion node_data source_id es) r h =
    same-IsCounted r _ (observe_expansion-SameCounts node_data source_id es r) h
call-IsCounted (call_collect lower a) r h = elim (collect_state lower a r) [
  | inl e ↦ rw e h
  | inr (inl e) ↦ rw e (ground arith)
  | inr (inr e) ↦ rw e (ground arith)
]

calls-IsCounted : (cs : List Call) (r : Recorder) → IsCounted r → IsCounted (run cs r)
unfolding run
calls-IsCounted [] r h = h
calls-IsCounted (c ∷ cs) r h = calls-IsCounted cs (call c r) (call-IsCounted c r h)

-- After any calls of a new recorder: each anchor decision was counted as resolved, ambiguous or not
-- found; the number of iterations is that of anchor decisions and lookahead steps; the current counts
-- of the frontier are at most their maxima; and the limit in the summary is the one in use, at least
-- 1 whatever was asked for.
pub run-IsCounted : (limit : ℤ) (cs : List Call) → IsCounted (run cs (new_recorder limit))
unfolding new_recorder
run-IsCounted limit cs = calls-IsCounted cs (blank (max 1 (max_zero limit))) (ground arith)
