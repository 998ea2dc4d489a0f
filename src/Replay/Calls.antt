-- ===== src/Replay/Calls.antt =====
-- Sequences of calls of the recorder's methods.
use iterative_context.Prelude.{Option, List, [], ◌∷◌, ℤ}
use iterative_context.Text.{Str}
use iterative_context.Models.{Node, GraphEvent}
use iterative_context.Anchor.{AnchorDecision}
use iterative_context.Replay.Payload.{Payload}
use iterative_context.Replay.Visible.{FrontierDecision}
use iterative_context.Replay.Recorder.{
  Recorder, reset, note_expand_call, add_nodes, add_edges, update_node, prune_node, set_context,
  token_add,
}
use iterative_context.Replay.Observe.{
  observe_anchor_decision, observe_frontier_decision, observe_expansion,
}
use iterative_context.Replay.Collect.{CollectArgs, collect}

-- one call of a method of the recorder
pub data Call : Type 0 where
  call_reset : Call
  call_note_expand : Call
  call_add_nodes : List Payload → Option Str → Call
  call_add_edges : List Payload → Option Str → Call
  call_update_node : Str → Payload → Option Str → Call
  call_prune_node : Str → Str → Call
  call_set_context : List Str → Option Str → Option ℤ → Call
  call_token_add : Str → ℤ → Call
  call_anchor : AnchorDecision → Call
  call_frontier : FrontierDecision → Call
  call_expansion : (Str → Option Node) → Str → List GraphEvent → Call
  call_collect : (Str → Str) → CollectArgs → Call

unfoldable pub call : Call → Recorder → Recorder
call call_reset r = reset r
call call_note_expand r = note_expand_call r
call (call_add_nodes nodes reason) r = add_nodes nodes reason r
call (call_add_edges edges reason) r = add_edges edges reason r
call (call_update_node i patch reason) r = update_node i patch reason r
call (call_prune_node i reason) r = prune_node i reason r
call (call_set_context nodes reason tokens) r = set_context nodes reason tokens r
call (call_token_add source tokens) r = token_add source tokens r
call (call_anchor d) r = observe_anchor_decision d r
call (call_frontier d) r = observe_frontier_decision d r
call (call_expansion node_data source_id es) r = observe_expansion node_data source_id es r
call (call_collect lower a) r = (collect lower a r).1

unfoldable pub run : List Call → Recorder → Recorder
run [] r = r
run (c ∷ cs) r = run cs (call c r)
