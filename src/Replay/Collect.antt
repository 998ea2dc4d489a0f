-- ===== src/Replay/Collect.antt =====
-- graph_replay.py: the payload that `collect` returns.
use iterative_context.Prelude.{
  ◌≡◌, ◌⊎◌, arith, Result, ok, err, Bool, true, false, Option, none, some, List, [], ◌∷◌,
  if◌then◌else◌, length,
}
use iterative_context.Text.{Str, codes, str_eq, strip, is_empty, mem}
use iterative_context.Value.{Value, Fields, end, field, as_str}
use iterative_context.Replay.Metadata.{CollectError, blank_trace_id, sanitize_metadata}
use iterative_context.Replay.Recorder.{ReplayEvent, Recorder, Summary, reset, blank}

-- `GraphReplayPayload`, without its constant `kind` and `source`
pub record ReplayPayload : Type 0 where
  pub trace_id : Str
  pub events : List ReplayEvent
  pub summary : Summary
  pub match_id : Option Str
  pub role : Option Str
  pub attempt_id : Option Str
  pub policy_id : Option Str
  pub source_signature : Option Str
  pub graph_signature : Option Str
  pub graph_builder : Option Fields
  pub metadata : Option Fields

pub record CollectArgs : Type 0 where
  pub trace_id : Str
  pub metadata : Value
  pub policy_id : Option Str
  pub source_signature : Option Str
  pub graph_signature : Option Str
  pub graph_builder : Option Fields
  pub clear_after_collect : Bool

unfoldable pub get_field : Str → Fields → Option Value
get_field k end = none
get_field k (field none v fs) = get_field k fs
get_field k (field (some j) v fs) = if str_eq j k then some v else get_field k fs

abbrev pub not_blank : Str → Option Str
not_blank s = if is_empty (strip s) then none else some (strip s)

-- `_optional_string`
abbrev pub optional_text : Option Str → Option Str
optional_text none = none
optional_text (some s) = not_blank s

unfoldable pub optional_string : Fields → Str → Option Str
optional_string fs k = optional_text (as_str (get_field k fs))

-- `policy_id.strip() if policy_id else None`
abbrev pub stripped_policy : Option Str → Option Str
stripped_policy none = none
stripped_policy (some s) = if is_empty s then none else some (strip s)

unfoldable pub without_keys : List Str → Fields → Fields
without_keys ks end = end
without_keys ks (field k v fs) =
    let rest = without_keys ks fs in
    if (elim k [ none ↦ false | some j ↦ mem j ks ]) then rest else field k v rest

-- `_extension_metadata`: `extra or None`
abbrev pub or_none_fields : Fields → Option Fields
or_none_fields end = none
or_none_fields (field k v fs) = some (field k v fs)

unfoldable pub extension_metadata : Fields → Option Fields
extension_metadata fs =
    or_none_fields (without_keys (codes "match_id" ∷ codes "role" ∷ codes "attempt_id" ∷ []) fs)

unfoldable pub build_payload : CollectArgs → Str → Fields → Recorder → ReplayPayload
build_payload a trace clean r = record {
  trace_id = trace;
  events = r.events;
  summary = r.summary;
  match_id = optional_string clean (codes "match_id");
  role = optional_string clean (codes "role");
  attempt_id = optional_string clean (codes "attempt_id");
  policy_id = stripped_policy a.policy_id;
  source_signature = optional_text a.source_signature;
  graph_signature = optional_text a.graph_signature;
  graph_builder = a.graph_builder;
  metadata = extension_metadata clean;
}

abbrev pub count_events : Recorder → Recorder
count_events r = record r { summary = record (r.summary) { event_count = length r.events } }

-- the part of `collect` behind its checks
unfoldable pub finish : CollectArgs → Str → Fields → Recorder → ReplayPayload × Recorder
finish a trace clean r =
    let counted = count_events r in
    (build_payload a trace clean counted, if a.clear_after_collect then reset counted else counted)

-- A `ValueError` leaves the recorder as it is.
unfoldable pub collect :
    (Str → Str) → CollectArgs → Recorder → Result CollectError ReplayPayload × Recorder
collect lower a r =
    let trace = strip a.trace_id in
    elim (is_empty trace) [
      | true ↦ (err blank_trace_id, r)
      | false ↦ elim (sanitize_metadata lower a.metadata) [
        | err e ↦ (err e, r)
        | ok clean ↦ let done = finish a trace clean r in (ok done.0, done.1)
      ]
    ]

-- `collect` leaves the recorder as it was, or counts its events, or clears it.
pub collect_state :
    (lower : Str → Str) (a : CollectArgs) (r : Recorder)
    → ((collect lower a r).1 ≡ r)
      ⊎ (((collect lower a r).1 ≡ count_events r)
          ⊎ ((collect lower a r).1 ≡ blank r.max_visible_pending))
unfolding collect finish reset
collect_state lower a r = ground arith
