-- ===== src/Server/Resolve.antt =====
-- server.py: the `resolve` tool of a runtime. `default` is the session of exploration.py. The handlers
-- return the state as it is left, also where they raise.
pub mod Laws
use iterative_context.Prelude.{
  Result, ok, err, ℕ, ◌+◌, Bool, true, false, Option, none, some, List, [], ◌∷◌, map, if◌then◌else◌,
  length, ℤ, pos,
}
use iterative_context.Text.{Str, codes, str_eq}
use iterative_context.Float.{Float}
use iterative_context.Dict.{get}
use iterative_context.Value.{Value, Fields, end, field, as_str, is_text, str}
use iterative_context.DiGraph.{DiGraph}
use iterative_context.Events.{NodeAttrs, EdgeAttrs}
use iterative_context.Normalize.{RawAttrs}
use iterative_context.Anchor.{
  AnchorCandidate, AnchorDecision, AnchorError, DecisionValue, Status, lookup, score_too_large,
  anchor_decision_from_value, anchor_decision_to_dict, anchor_candidate_to_dict,
}
use iterative_context.FuzzyRank.{seventy, five}
use iterative_context.Replay.Payload.{Payload}
use iterative_context.Replay.Recorder.{Recorder}
use iterative_context.Replay.Observe.{observe_anchor_decision}
use iterative_context.Store.Resolve.{collect_anchor_candidates}
use iterative_context.Serialization.{SerialNode, serialize_node}
use iterative_context.Serialization.Summary.{GraphSummary, serialize_graph_summary}
use iterative_context.Session.{
  Session, no_root, ensure_loaded, copy_loaded_state_from, repo_metadata, node_extras,
  session_node_for_id,
}
use iterative_context.Session.Signature.{Platform, SessionError}
use iterative_context.Server.Arguments.{take_anchor_symbol}
use iterative_context.Server.History.{History, QueryHistory, note_query_history}
use iterative_context.Server.Policy.{
  InstalledPolicy, ToolError, bad_argument, policy_install_required, policy_interface_version,
  policy_payload_fields,
}

pub record ResolveCandidateCounts : Type 0 where
  pub total : ℕ
  pub exact_symbol : ℕ
  pub fuzzy_symbol : ℕ
  pub file_substring : ℕ

pub record ResolvePolicyState : Type 0 where
  pub query_label : Str
  pub repo_metadata : Payload
  pub candidate_limit : ℕ
  pub fuzzy_min_score : Float
  pub fuzzy_gap : Float
  pub candidate_counts : ResolveCandidateCounts
  pub active_policy_id : Option Str
  pub policy_interface_version : Str

-- the exceptions of the tool: those of the arguments and of the session, a policy that has no
-- `resolve_policy`, one that raises, and an answer of it that is no decision
pub data ResolveError : Type 0 where
  tool_error : ToolError → ResolveError
  session_error : SessionError → ResolveError
  no_resolve_policy : Option Str → ResolveError
  policy_raised : ResolveError
  policy_behavior_error : Option Str → AnchorError → ResolveError
  uncaught : ResolveError

-- the payload of a decision; `candidates` is left out where it is empty
pub record ResolveAnswer : Type 0 where
  pub query : Str
  pub node : Option SerialNode
  pub anchor_decision : DecisionValue
  pub full_graph : GraphSummary
  pub policy_fields : Payload
  pub query_history : QueryHistory
  pub candidates : List Fields

-- `(candidate.metadata or {}).get("match_source") == source`
abbrev pub has_source : Str → AnchorCandidate → Bool
has_source source c = elim c.metadata [
  | none ↦ false
  | some m ↦ is_text source (lookup (codes "match_source") m)
]

unfoldable pub count_source : Str → List AnchorCandidate → ℕ
count_source source [] = 0
count_source source (c ∷ cs) = (if has_source source c then 1 else 0) + count_source source cs

abbrev pub counts_of : List AnchorCandidate → ResolveCandidateCounts
counts_of cs = record {
  total = length cs;
  exact_symbol = count_source (codes "exact_symbol") cs;
  fuzzy_symbol = count_source (codes "fuzzy_symbol") cs;
  file_substring = count_source (codes "file_substring") cs;
}

-- `payload[key] = value`
unfoldable pub put_field : Str → Value → Fields → Fields
put_field key v end = field (some key) v end
put_field key v (field none w fs) = let rest = put_field key v fs in field none w rest
put_field key v (field (some j) w fs) =
    let rest = put_field key v fs in
    if str_eq j key then field (some j) v fs else field (some j) w rest

-- an entry of the metadata that is a text, written into the payload
abbrev pub copy_text : Str → Option Fields → Fields → Fields
copy_text key none payload = payload
copy_text key (some m) payload = elim (as_str (lookup key m)) [
  | none ↦ payload
  | some s ↦ put_field key (str s) payload
]

unfoldable pub serialize_candidate : AnchorCandidate → Fields
serialize_candidate c =
    copy_text (codes "file") c.metadata
      (copy_text (codes "symbol") c.metadata (anchor_candidate_to_dict c))

-- an `OverflowError` is no `ValueError`
unfoldable pub decision_error : Option Str → AnchorError → ResolveError
decision_error policy_id score_too_large = uncaught
decision_error policy_id e = policy_behavior_error policy_id e

pub record Runtime (G Callable : Type 0) : Type 0 where
  pub installed_policy : Option (InstalledPolicy Callable)
  pub graph_replay : Recorder
  pub graph_session : Session G
  pub history : History
  -- the default session, which all runtimes share
  pub default_session : Session G

module _ {Callable : Type 0} where
  abbrev pub policy_id_of : Option (InstalledPolicy Callable) → Option Str
  policy_id_of none = none
  policy_id_of (some i) = some i.policy_id

  abbrev pub resolver_of : Option (InstalledPolicy Callable) → Option Callable
  resolver_of none = none
  resolver_of (some i) = i.resolve_policy

module _ {G Callable : Type 0} where
  unfoldable pub resolve_policy_state :
      Str → List AnchorCandidate → Runtime G Callable → ResolvePolicyState
  resolve_policy_state query candidates r = record {
    query_label = query;
    repo_metadata = repo_metadata r.graph_session;
    candidate_limit = 8;
    fuzzy_min_score = seventy;
    fuzzy_gap = five;
    candidate_counts = counts_of candidates;
    active_policy_id = elim r.installed_policy [ none ↦ none | some i ↦ some i.policy_id ];
    policy_interface_version = elim r.installed_policy [
      | none ↦ policy_interface_version
      | some i ↦ i.interface_version
    ];
  }

-- no graph and no root of its own, and a graph in the default session
unfoldable pub borrows : {G : Type 0} → Session G → Session G → Bool
borrows own default = elim own.graph [
  | some _ ↦ false
  | none ↦ elim own.repo_root [
    | some _ ↦ false
    | none ↦ elim default.graph [ none ↦ false | some _ ↦ true ]
  ]
]

-- the store's parameters, those of `anchor_decision_from_value`, and the call of a policy, `none` where
-- it raises
pub record ResolveCalls (Callable : Type 0) : Type 0 where
  pub lower : Str → Str
  pub ratio : Option (Str → Str → Float)
  pub sub : Float → Float → Float
  pub float_of : ℤ → Option Float
  pub sha256 : Str → Str
  pub call : Callable → Str → List AnchorCandidate → ResolvePolicyState → Option DecisionValue

module _ {Callable : Type 0} (p : Platform) (nx : DiGraph NodeAttrs EdgeAttrs)
    (raw : DiGraph RawAttrs Str) (c : ResolveCalls Callable) where
  open nx use {Graph}

  -- the sessions as they are left, and the exception where one was raised
  unfoldable pub ensure_graph_ready :
      Runtime Graph Callable → Runtime Graph Callable × Option SessionError
  ensure_graph_ready r =
      let copied = copy_loaded_state_from p nx r.default_session r.graph_session in
      let filled = ensure_loaded p nx raw no_root r.graph_session in
      elim (borrows r.graph_session r.default_session) [
        | true ↦ (record r { default_session = copied.0; graph_session = copied.1.0 }, copied.1.1)
        | false ↦ (record r { graph_session = filled.0 }, filled.1)
      ]

  unfoldable pub session_candidates : Str → Session Graph → List AnchorCandidate
  session_candidates symbol s = elim s.store [
    | none ↦ []
    | some t ↦ collect_anchor_candidates nx c.lower c.ratio c.sub symbol 8 t
  ]

  -- the answer of the policy, read as a decision
  unfoldable pub policy_decision : Str → Runtime Graph Callable → Result ResolveError AnchorDecision
  policy_decision symbol r =
      let candidates = session_candidates symbol r.graph_session in
      elim (resolver_of r.installed_policy) [
        | none ↦ err (no_resolve_policy (policy_id_of r.installed_policy))
        | some f ↦ elim (c.call f symbol candidates (resolve_policy_state symbol candidates r)) [
          | none ↦ err policy_raised
          | some v ↦ elim (anchor_decision_from_value c.float_of c.sha256 symbol candidates v) [
            | err e ↦ err (decision_error (policy_id_of r.installed_policy) e)
            | ok d ↦ ok d
          ]
        ]
      ]

  unfoldable pub resolve_anchor_decision :
      Str → Runtime Graph Callable → Result ResolveError AnchorDecision × Runtime Graph Callable
  resolve_anchor_decision symbol r =
      let ready = ensure_graph_ready r in
      elim ready.1 [
        | some e ↦ (err (session_error e), ready.0)
        | none ↦ (policy_decision symbol ready.0, ready.0)
      ]

  -- the node of a resolved decision
  unfoldable pub decision_node : AnchorDecision → Session Graph → Option SerialNode
  decision_node d s = elim d.status [
    | Status.resolved ↦ elim d.selected_anchor_id [
      | none ↦ none
      | some i ↦ elim (session_node_for_id p nx i s) [
        | none ↦ none
        | some n ↦
            let extras = node_extras p nx n.id s in
            some (
              serialize_node n (as_str (get (codes "symbol") extras))
                (as_str (get (codes "file") extras)))
      ]
    ]
    | _ ↦ none
  ]

  -- `_resolve_payload_from_decision` without a graph
  unfoldable pub resolve_payload :
      Str
      → AnchorDecision
      → QueryHistory
      → Runtime Graph Callable
      → Result ResolveError ResolveAnswer
  resolve_payload symbol d told r =
      let s = r.graph_session in
      let shown : Option Graph = elim s.graph [ none ↦ none | some g ↦ some g.graph ] in
      elim (serialize_graph_summary nx shown (repo_metadata s) (pos 48) (pos 64)) [
        | none ↦ err uncaught
        | some full ↦ ok (record {
          query = symbol;
          node = decision_node d s;
          anchor_decision = anchor_decision_to_dict d;
          full_graph = full;
          policy_fields = policy_payload_fields r.installed_policy;
          query_history = told;
          candidates = map serialize_candidate d.candidates;
        })
      ]

  -- the part of `_resolve_tool` behind the decision
  unfoldable pub answer_decision :
      Str
      → QueryHistory
      → Result ResolveError AnchorDecision
      → Runtime Graph Callable
      → Result ResolveError ResolveAnswer × Runtime Graph Callable
  answer_decision symbol told (err e) r = (err e, r)
  answer_decision symbol told (ok d) r =
      let observed : Runtime Graph Callable = record r {
        graph_replay = observe_anchor_decision d r.graph_replay;
      } in
      (resolve_payload symbol d told observed, observed)

  unfoldable pub resolve_symbol_tool :
      Str → Runtime Graph Callable → Result ResolveError ResolveAnswer × Runtime Graph Callable
  resolve_symbol_tool symbol r =
      let ready = ensure_graph_ready r in
      elim ready.1 [
        | some e ↦ (err (session_error e), ready.0)
        | none ↦
            let noted = note_query_history symbol ready.0.history in
            let decided = resolve_anchor_decision symbol (record ready.0 { history = noted.1 }) in
            answer_decision symbol noted.0 decided.0 decided.1
      ]

  -- the `resolve` branch of `_dispatch`
  unfoldable pub resolve_tool :
      Fields → Runtime Graph Callable → Result ResolveError ResolveAnswer × Runtime Graph Callable
  resolve_tool arguments r = elim r.installed_policy [
    | none ↦ (err (tool_error policy_install_required), r)
    | some _ ↦ elim (take_anchor_symbol arguments) [
      | err e ↦ (err (tool_error (bad_argument e)), r)
      | ok symbol ↦ resolve_symbol_tool symbol r
    ]
  ]
