-- ===== src/Models.antt =====
-- graph_models.py: nodes, edges and events. Every node class has the fields of `Node`: `tokens` and
-- `evidence` are what `getattr(node, …, None)` reads. `model_copy(update=patch)` writes fields
-- without a check, so a patch may change the state alone.
use iterative_context.Prelude.{Bool, Option, none, List, [], ◌∷◌, ℤ}
use iterative_context.Text.{Str}
use iterative_context.PathIds.{NodeKind}

pub data NodeState : Type 0 where
  pending pruned anchor resolved : NodeState

pub data EdgeKind : Type 0 where
  calls imports references : EdgeKind

pub record Evidence : Type 0 where
  pub snippet : Str
  pub file : Option Str
  pub start_line : Option ℤ

pub record Node : Type 0 where
  pub id : Str
  pub label : Option Str
  pub kind : NodeKind
  pub state : NodeState
  pub tokens : Option ℤ
  pub evidence : Option Evidence

-- `PendingNode(id=id, kind=kind)`
abbrev pub pending_node : Str → NodeKind → Node
pending_node i k = record {
  id = i;
  label = none;
  kind = k;
  state = pending;
  tokens = none;
  evidence = none;
}

pub record Edge : Type 0 where
  pub id : Option Str
  pub source : Str
  pub target : Str
  pub kind : EdgeKind
  pub primary : Option Bool

-- one entry of a patch, a partial node
pub data FieldPatch : Type 0 where
  set_id : Str → FieldPatch
  set_label : Option Str → FieldPatch
  set_kind : NodeKind → FieldPatch
  set_state : NodeState → FieldPatch
  set_tokens : Option ℤ → FieldPatch
  set_evidence : Option Evidence → FieldPatch

abbrev pub Patch : Type 0
Patch = List FieldPatch

unfoldable pub patch_field : FieldPatch → Node → Node
patch_field (set_id i) n = record n { id = i }
patch_field (set_label l) n = record n { label = l }
patch_field (set_kind k) n = record n { kind = k }
patch_field (set_state s) n = record n { state = s }
patch_field (set_tokens t) n = record n { tokens = t }
patch_field (set_evidence e) n = record n { evidence = e }

-- `node.model_copy(update=patch)`
unfoldable pub model_copy : Patch → Node → Node
unfolding patch_field
model_copy [] n = n
model_copy (f ∷ p) n = model_copy p (patch_field f n)

pub data GraphEvent : Type 0 where
  add_nodes : List Node → Option Str → GraphEvent
  add_edges : List Edge → Option Str → GraphEvent
  update_node : Str → Patch → GraphEvent
  iteration : ℤ → Option Str → GraphEvent
