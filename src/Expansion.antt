-- ===== src/Expansion.antt =====
-- expansion.py: the events that expand one node.
pub mod Steps
pub mod Laws
use iterative_context.Prelude.{none, some, List, [], ◌∷◌, ◌++◌, if◌then◌else◌, pos}
use iterative_context.Text.{Str, codes}
use iterative_context.Dict.{has}
use iterative_context.PathIds.{symbol}
use iterative_context.Models.{
  Edge, EdgeKind, Patch, GraphEvent, set_state, set_tokens, NodeState, pending_node,
}
use iterative_context.DiGraph.{DiGraph}
use iterative_context.Events.{NodeAttrs, EdgeAttrs}

-- `f"{parent_id}_child"`
abbrev pub child_id_of : Str → Str
child_id_of parent_id = parent_id ++ codes "_child"

abbrev pub resolved_patch : Patch
resolved_patch = set_state NodeState.resolved ∷ set_tokens (some (pos 1)) ∷ []

abbrev pub call_edge : Str → Str → Edge
call_edge parent_id child_id = record {
  id = none;
  source = parent_id;
  target = child_id;
  kind = EdgeKind.calls;
  primary = none;
}

module _ (nx : DiGraph NodeAttrs EdgeAttrs) where
  open nx use {Graph, nodes}

  unfoldable pub expand_node : Str → Graph → List GraphEvent
  expand_node parent_id g =
      if has (child_id_of parent_id) (nodes g)
      then GraphEvent.update_node parent_id resolved_patch ∷ []
      else GraphEvent.add_nodes (pending_node (child_id_of parent_id) symbol ∷ []) none
        ∷ GraphEvent.add_edges (call_edge parent_id (child_id_of parent_id) ∷ []) none
        ∷ GraphEvent.update_node parent_id resolved_patch
        ∷ []
