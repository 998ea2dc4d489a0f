-- ===== src/Replay/Trace.antt =====
-- Traces of any sequence of calls.
use iterative_context.Prelude.{max, ◌≡◌, refl, some, List, [], ◌∷◌, ℤ, max_zero}
use iterative_context.Replay.Recorder.{
  Recorder, new_recorder, reset, note_expand_call, set_context, token_add,
}
use iterative_context.Replay.Replayer.{consume, replay}
use iterative_context.Replay.Rebuild.{
  IsReplayable, view_of, add_nodes-IsReplayable, add_edges-IsReplayable, update_node-IsReplayable,
  same-IsReplayable, append-IsReplayable,
}
use iterative_context.Replay.Calls.{
  Call, call, run, call_reset, call_note_expand, call_add_nodes, call_add_edges, call_update_node,
  call_prune_node, call_set_context, call_token_add, call_anchor, call_frontier, call_expansion,
  call_collect,
}
use iterative_context.Replay.Handlers.{
  prune_node-IsReplayable, observe_anchor_decision-IsReplayable,
  observe_frontier_decision-IsReplayable, observe_expansion-IsReplayable, blank-IsReplayable,
  collect-IsReplayable,
}

call-IsReplayable : (c : Call) (r : Recorder) → IsReplayable r → IsReplayable (call c r)
unfolding call reset note_expand_call set_context token_add
call-IsReplayable call_reset r h = blank-IsReplayable r.max_visible_pending
call-IsReplayable call_note_expand r h = same-IsReplayable r _ refl refl h
call-IsReplayable (call_add_nodes nodes reason) r h = add_nodes-IsReplayable nodes reason r h
call-IsReplayable (call_add_edges edges reason) r h = add_edges-IsReplayable edges reason r h
call-IsReplayable (call_update_node i patch reason) r h =
    update_node-IsReplayable i patch reason r h
call-IsReplayable (call_prune_node i reason) r h = prune_node-IsReplayable i reason r h
call-IsReplayable (call_set_context nodes reason tokens) r h =
    append-IsReplayable r r _ h refl (unfold consume in refl)
call-IsReplayable (call_token_add source tokens) r h =
    append-IsReplayable r r _ h refl (unfold consume in refl)
call-IsReplayable (call_anchor d) r h = observe_anchor_decision-IsReplayable d r h
call-IsReplayable (call_frontier d) r h = observe_frontier_decision-IsReplayable d r h
call-IsReplayable (call_expansion node_data source_id es) r h =
    observe_expansion-IsReplayable node_data source_id es r h
call-IsReplayable (call_collect lower a) r h = collect-IsReplayable lower a r h

run-IsReplayable : (cs : List Call) (r : Recorder) → IsReplayable r → IsReplayable (run cs r)
unfolding run
run-IsReplayable [] r h = h
run-IsReplayable (c ∷ cs) r h = run-IsReplayable cs (call c r) (call-IsReplayable c r h)

-- After any calls of a new recorder, in any order, its events are accepted by the consumer, which
-- takes no node and no edge twice and no update of an unknown node; and what the consumer ends with
-- is the recorder's own nodes, each with all of its updates, and its edges.
pub replay-run :
    (limit : ℤ) (cs : List Call)
    → replay (run cs (new_recorder limit)).events ≡ some (view_of (run cs (new_recorder limit)))
unfolding new_recorder
replay-run limit cs = (run-IsReplayable cs _ (blank-IsReplayable (max 1 (max_zero limit)))).replays
