-- ===== src/Tests/Replay.antt =====
-- A short session of the recorder: an anchor decision, two frontier decisions and a collected trace.
use iterative_context.Prelude.{
  ◌≤◌, ◌≡◌, refl, Bool, true, ◌||◌, none, some, List, [], ◌∷◌, arith, length, any, pos, negsuc,
}
use iterative_context.Text.{Str, codes, str_eq, strip, lstrip, is_space}
use iterative_context.Float.{literal}
use iterative_context.Anchor.{AnchorCandidate, AnchorDecision, Status}
use iterative_context.Replay.Payload.{FrontierCandidate}
use iterative_context.Replay.Visible.{
  FrontierDecision, any_anchor, any_frontier, bounded_anchor_candidates,
  bounded_frontier_candidates,
}
use iterative_context.Replay.Recorder.{new_recorder}
use iterative_context.Replay.Replayer.{replay}
use iterative_context.Replay.Rebuild.{view_of}
use iterative_context.Replay.Calls.{
  Call, run, call_note_expand, call_anchor, call_frontier, call_prune_node, call_token_add,
}
use iterative_context.Replay.Trace.{replay-run}
use iterative_context.Replay.Counters.{IsCounted, run-IsCounted}
use iterative_context.Replay.Bounds.{
  bounded_anchor_candidates_bounds, bounded_anchor_candidates_selected,
}
use iterative_context.Replay.Shown.{
  bounded_frontier_candidates_bounds, bounded_frontier_candidates_selected,
}

abbrev anchor_candidate : Str → AnchorCandidate
anchor_candidate i = record {
  node_id = i;
  label = some i;
  kind = some (codes "function");
  score = some (literal 0);
  rank = none;
  reason = none;
  metadata = none;
}

abbrev anchors : List AnchorCandidate
anchors =
    anchor_candidate (codes "a") ∷ anchor_candidate (codes "b") ∷ anchor_candidate (codes "c") ∷ []

abbrev anchor_decision : AnchorDecision
anchor_decision = record {
  status = Status.resolved;
  query_id = codes "symbol:c";
  query_label = none;
  candidates = anchors;
  selected_anchor_id = some (codes "c");
  reason = none;
  shallow_expand = true;
  metadata = none;
}

abbrev frontier_candidate : Str → FrontierCandidate
frontier_candidate i = record {
  node_id = i;
  label = none;
  kind = none;
  score = some (literal 0);
  rank = some (pos 1);
  edge_kind = some (codes "calls");
  source_id = some (codes "c");
  metadata = none;
}

abbrev frontier_decision : FrontierDecision
frontier_decision = record {
  step = 0;
  source_id = some (codes "c");
  candidates =
      frontier_candidate (codes "d")
      ∷ frontier_candidate (codes "e")
      ∷ frontier_candidate (codes "f")
      ∷ [];
  visible_candidate_ids = [];
  selected_id = some (codes "f");
  pruned_ids = codes "e" ∷ [];
  frontier_count = 3;
  hidden_count = 0;
  reason = none;
}

abbrev calls : List Call
calls =
    call_anchor anchor_decision
    ∷ call_note_expand
    ∷ call_frontier frontier_decision
    ∷ call_token_add (codes "c") (pos 3)
    ∷ call_frontier frontier_decision
    ∷ call_prune_node (codes "d") (codes "done")
    ∷ []

replay-run_example :
    replay (run calls (new_recorder (pos 2))).events
    ≡ some (view_of (run calls (new_recorder (pos 2))))
replay-run_example = replay-run (pos 2) calls

run-IsCounted_example : IsCounted (run calls (new_recorder (negsuc 3)))
run-IsCounted_example = run-IsCounted (negsuc 3) calls

bounded_frontier_candidates_bounds_example :
    (length (bounded_frontier_candidates 2 [] frontier_decision) ≤ 2)
    × ((p : FrontierCandidate → Bool)
        → (any p (bounded_frontier_candidates 2 [] frontier_decision)
            || any p frontier_decision.candidates)
          ≡ any p frontier_decision.candidates)
bounded_frontier_candidates_bounds_example =
    bounded_frontier_candidates_bounds 2 [] frontier_decision

bounded_frontier_candidates_selected_example :
    any_frontier (codes "f") (bounded_frontier_candidates 1 [] frontier_decision) ≡ true
unfolding strip lstrip is_space str_eq
bounded_frontier_candidates_selected_example =
    bounded_frontier_candidates_selected 1 [] frontier_decision (codes "f") refl refl refl refl

bounded_anchor_candidates_bounds_example :
    (length (bounded_anchor_candidates 2 anchors (some (codes "c"))) ≤ 2)
    × ((p : AnchorCandidate → Bool)
        → (any p (bounded_anchor_candidates 2 anchors (some (codes "c"))) || any p anchors)
          ≡ any p anchors)
bounded_anchor_candidates_bounds_example =
    bounded_anchor_candidates_bounds 2 anchors (some (codes "c")) (omega arith)

bounded_anchor_candidates_selected_example :
    any_anchor (codes "c") (bounded_anchor_candidates 2 anchors (some (codes "c"))) ≡ true
unfolding str_eq
bounded_anchor_candidates_selected_example =
    bounded_anchor_candidates_selected 2 anchors (codes "c") (omega arith) refl
