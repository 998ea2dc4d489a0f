-- ===== src/Replay/Payload.antt =====
-- graph_replay.py: the dicts that nodes, edges and candidates are recorded as.
use iterative_context.Prelude.{Bool, Option, none, some, [], ◌∷◌, ◌++◌, if◌then◌else◌, ℤ}
use iterative_context.Text.{Str, codes, mem}
use iterative_context.Float.{Float}
use iterative_context.Dict.{Dict, put}
use iterative_context.Value.{
  Value, Fields, null, int, str, dict, other, bool, end, field, is_some, of_option_str,
}
use iterative_context.PathIds.{NodeKind, function, file, type, symbol}
use iterative_context.Models.{
  NodeState, EdgeKind, Node, Edge, Evidence, FieldPatch, Patch, set_id, set_label, set_kind,
  set_state, set_tokens, set_evidence,
}
use iterative_context.Anchor.{AnchorCandidate}

abbrev pub Payload : Type 0
Payload = Dict Value

pub record FrontierCandidate : Type 0 where
  pub node_id : Str
  pub label : Option Str
  pub kind : Option Str
  pub score : Option Float
  pub rank : Option ℤ
  pub edge_kind : Option Str
  pub source_id : Option Str
  pub metadata : Option Fields

-- the literals of `NodeKind`, of the states and of the edge kinds
unfoldable pub kind_text : NodeKind → Str
kind_text function = codes "function"
kind_text file = codes "file"
kind_text type = codes "type"
kind_text symbol = codes "symbol"

unfoldable pub state_text : NodeState → Str
state_text NodeState.pending = codes "pending"
state_text NodeState.pruned = codes "pruned"
state_text NodeState.anchor = codes "anchor"
state_text NodeState.resolved = codes "resolved"

unfoldable pub edge_kind_text : EdgeKind → Str
edge_kind_text EdgeKind.calls = codes "calls"
edge_kind_text EdgeKind.imports = codes "imports"
edge_kind_text EdgeKind.references = codes "references"

-- `_compact_dict`: the entries whose value is not `None`
unfoldable pub compact : Payload → Payload
compact [] = []
compact ((k, v) ∷ d) = let rest = compact d in if is_some v then (k, v) ∷ rest else rest

unfoldable pub normalize_kind : Option Str → Str
normalize_kind none = codes "symbol"
normalize_kind (some raw) =
    if mem raw (codes "symbol" ∷ codes "function" ∷ codes "file" ∷ codes "type" ∷ [])
    then raw
    else codes "symbol"

abbrev pub of_option_int : Option ℤ → Value
of_option_int none = null
of_option_int (some n) = int n

abbrev pub of_option_bool : Option Bool → Value
of_option_bool none = null
of_option_bool (some b) = bool b

-- `{key: value}` without its entry where the value is `None`
abbrev pub optional_field : Str → Value → Fields → Fields
optional_field k null fs = fs
optional_field k v fs = field (some k) v fs

-- the evidence of a node is recorded where it has a snippet
unfoldable pub evidence_entry : Option Evidence → Payload
evidence_entry none = []
evidence_entry (some e) = elim e.snippet [
  | [] ↦ []
  | _ ∷ _ ↦
      (
        codes "evidence",
        dict (
            field (some (codes "snippet")) (str e.snippet) (
              optional_field (codes "file") (of_option_str e.file)
                (optional_field (codes "startLine") (of_option_int e.start_line) end))),
      )
      ∷ []
]

abbrev pub tokens_entry : Option ℤ → Payload
tokens_entry none = []
tokens_entry (some n) = (codes "tokens", int n) ∷ []

-- `_normalize_node_dict`
unfoldable pub normalize_node : Node → Payload
unfolding compact kind_text state_text evidence_entry
normalize_node node = compact (
    (codes "id", str node.id)
    ∷ (codes "kind", str (kind_text node.kind))
    ∷ (codes "state", str (state_text node.state))
    ∷ (codes "label", of_option_str node.label)
    ∷ (tokens_entry node.tokens ++ evidence_entry node.evidence))

-- the dict that both kinds of candidates are recorded as
abbrev pub candidate_payload : Str → Option Str → Option Str → Str → Payload
candidate_payload node_id label kind state =
    (codes "id", str node_id)
    ∷ (codes "label", of_option_str label)
    ∷ (codes "kind", str (normalize_kind kind))
    ∷ (codes "state", str state)
    ∷ []

unfoldable pub node_from_anchor_candidate : AnchorCandidate → Str → Payload
unfolding compact normalize_kind
node_from_anchor_candidate c state = compact (candidate_payload c.node_id c.label c.kind state)

unfoldable pub node_from_frontier_candidate : FrontierCandidate → Str → Payload
unfolding compact normalize_kind
node_from_frontier_candidate c state = compact (candidate_payload c.node_id c.label c.kind state)

abbrev pub edge_entries : Str → Str → Str → Payload
edge_entries source target kind =
    (codes "source", str source) ∷ (codes "target", str target) ∷ (codes "kind", str kind) ∷ []

unfoldable pub frontier_edge_payload : FrontierCandidate → Option Payload
frontier_edge_payload c = elim c.source_id [
  | none ↦ none
  | some source ↦ elim c.edge_kind [
    | none ↦ none
    | some kind ↦ some (edge_entries source c.node_id kind)
  ]
]

unfoldable pub edge_payload : Edge → Payload
unfolding compact edge_kind_text
edge_payload e = compact (
    (codes "id", of_option_str e.id)
    ∷ (codes "source", str e.source)
    ∷ (codes "target", str e.target)
    ∷ (codes "kind", str (edge_kind_text e.kind))
    ∷ (codes "primary", of_option_bool e.primary)
    ∷ [])

-- an evidence object in a patch is no value of JSON
unfoldable pub patch_entry : FieldPatch → Str × Value
unfolding kind_text state_text
patch_entry (set_id i) = (codes "id", str i)
patch_entry (set_label l) = (codes "label", of_option_str l)
patch_entry (set_kind k) = (codes "kind", str (kind_text k))
patch_entry (set_state s) = (codes "state", str (state_text s))
patch_entry (set_tokens t) = (codes "tokens", of_option_int t)
patch_entry (set_evidence none) = (codes "evidence", null)
patch_entry (set_evidence (some e)) = (codes "evidence", other)

-- `dict(event.patch)`
unfoldable pub patch_payload : Patch → Payload → Payload
unfolding patch_entry
patch_payload [] d = d
patch_payload (f ∷ p) d = let (k, v) = patch_entry f in patch_payload p (put k v d)
