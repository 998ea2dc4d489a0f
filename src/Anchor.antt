-- ===== src/Anchor.antt =====
-- anchor_policy.py: candidates for the node that a query means, the decision between them, and how
-- both are read from what a policy returns.
pub mod Laws
use iterative_context.Prelude.{
  Result, ok, err, ◌>>=◌, Bool, false, Option, none, some, List, [], ◌∷◌, ◌++◌, if◌then◌else◌, take,
  ℤ, pos,
}
use iterative_context.Text.{Str, codes, str_eq, strip, is_empty, or_empty}
use iterative_context.Float.{Float}
use iterative_context.Value.{
  Value, Fields, null, bool, int, float, str, dict, end, field, as_str, of_option_str,
}

pub record AnchorCandidate : Type 0 where
  pub node_id : Str
  pub label : Option Str
  pub kind : Option Str
  pub score : Option Float
  pub rank : Option ℤ
  pub reason : Option Str
  pub metadata : Option Fields

pub data Status : Type 0 where
  resolved ambiguous not_found : Status

pub record AnchorDecision : Type 0 where
  pub status : Status
  pub query_id : Str
  pub query_label : Option Str
  pub candidates : List AnchorCandidate
  pub selected_anchor_id : Option Str
  pub reason : Option Str
  pub shallow_expand : Bool
  pub metadata : Option Fields

-- the `ValueError`s, and the `OverflowError` of `float(score)`
pub data AnchorError : Type 0 where
  metadata_not_mapping : AnchorError
  candidate_not_mapping : AnchorError
  no_node_id : AnchorError
  score_too_large : AnchorError
  bad_status : AnchorError
  selected_not_text : AnchorError
  candidates_not_list : AnchorError
  shallow_not_bool : AnchorError
  decision_not_mapping : AnchorError
  resolved_without_selected : AnchorError
  selected_without_resolved : AnchorError

-- the value of a key in a dict
unfoldable pub lookup : Str → Fields → Option Value
lookup k end = none
lookup k (field none v fs) = lookup k fs
lookup k (field (some j) v fs) = if str_eq j k then some v else lookup k fs

unfoldable pub status_text : Status → Str
status_text resolved = codes "resolved"
status_text ambiguous = codes "ambiguous"
status_text not_found = codes "not_found"

-- `status in {…}`
unfoldable pub status_of : Option Value → Option Status
status_of (some (str s)) =
    if str_eq s (codes "resolved")
    then some resolved
    else (if str_eq s (codes "ambiguous")
        then some ambiguous
        else (if str_eq s (codes "not_found") then some not_found else none))
status_of _ = none

unfoldable pub coerce_metadata : Option Value → Result AnchorError (Option Fields)
coerce_metadata none = ok none
coerce_metadata (some null) = ok none
coerce_metadata (some (dict fs)) = ok (some fs)
coerce_metadata (some _) = err metadata_not_mapping

-- `int(rank) if isinstance(rank, int) else None`; a bool is an int
unfoldable pub rank_value : Option Value → Option ℤ
rank_value (some (int n)) = some n
rank_value (some (bool b)) = some (if b then pos 1 else pos 0)
rank_value _ = none

-- a text that is not blank
unfoldable pub text_value : Option Value → Option Str
text_value (some (str s)) = if is_empty (strip s) then none else some s
text_value _ = none

-- what a policy returns for a candidate, or for a decision: an object of the class, or another value
pub data CandidateValue : Type 0 where
  candidate_object : AnchorCandidate → CandidateValue
  candidate_value : Value → CandidateValue

-- `candidates` in the dict of a decision
pub data CandidatesValue : Type 0 where
  candidate_list : List CandidateValue → CandidatesValue
  no_list : CandidatesValue

-- The dict of a decision: its `candidates`, where the key is there, and the other keys.
pub data DecisionValue : Type 0 where
  decision_object : AnchorDecision → DecisionValue
  decision_dict : Option CandidatesValue → Fields → DecisionValue
  no_decision : DecisionValue

-- `decision.status == "resolved"` with a selected identifier, or no selected identifier
unfoldable pub check_selected : AnchorDecision → Result AnchorError AnchorDecision
check_selected d = elim d.status [
  | resolved ↦
      if is_empty (or_empty d.selected_anchor_id) then err resolved_without_selected else ok d
  | _ ↦ elim d.selected_anchor_id [ none ↦ ok d | some _ ↦ err selected_without_resolved ]
]

-- `selected_anchor_id`, stripped
unfoldable pub selected_value : Option Value → Result AnchorError (Option Str)
selected_value none = ok none
selected_value (some null) = ok none
selected_value (some (str s)) = ok (some (strip s))
selected_value (some _) = err selected_not_text

-- `shallow_expand`, `False` where the key is missing
unfoldable pub shallow_value : Option Value → Result AnchorError Bool
shallow_value none = ok false
shallow_value (some (bool b)) = ok b
shallow_value (some _) = err shallow_not_bool

unfoldable pub required_status : Option Value → Result AnchorError Status
required_status v = elim (status_of v) [ none ↦ err bad_status | some s ↦ ok s ]

-- `float_of` is `float` of an int, `none` where it raises; `sha256` is the hexadecimal digest of a text.
module _ (float_of : ℤ → Option Float) (sha256 : Str → Str) where
  -- `float(score) if isinstance(score, int | float) else None`
  unfoldable pub score_value : Option Value → Result AnchorError (Option Float)
  score_value (some (float x)) = ok (some x)
  score_value (some (int n)) = elim (float_of n) [
    | none ↦ err score_too_large
    | some x ↦ ok (some x)
  ]
  score_value (some (bool b)) = elim (float_of (if b then pos 1 else pos 0)) [
    | none ↦ err score_too_large
    | some x ↦ ok (some x)
  ]
  score_value _ = ok none

  unfoldable pub query_id_for_label : Str → Str
  query_id_for_label query = codes "anchor-query:" ++ take 16 (sha256 (strip query))

  unfoldable pub candidate_from_fields : Fields → Result AnchorError AnchorCandidate
  candidate_from_fields fs = elim (text_value (lookup (codes "node_id") fs)) [
    | none ↦ err no_node_id
    | some i ↦ score_value (lookup (codes "score") fs) >>= λ score.
        coerce_metadata (lookup (codes "metadata") fs) >>= λ metadata. ok (record {
          node_id = strip i;
          label = as_str (lookup (codes "label") fs);
          kind = as_str (lookup (codes "kind") fs);
          score = score;
          rank = rank_value (lookup (codes "rank") fs);
          reason = as_str (lookup (codes "reason") fs);
          metadata = metadata;
        })
  ]

  unfoldable pub anchor_candidate_from_value : CandidateValue → Result AnchorError AnchorCandidate
  anchor_candidate_from_value (candidate_object c) = ok c
  anchor_candidate_from_value (candidate_value (dict fs)) = candidate_from_fields fs
  anchor_candidate_from_value (candidate_value _) = err candidate_not_mapping

  unfoldable pub candidates_from_values :
      List CandidateValue → Result AnchorError (List AnchorCandidate)
  candidates_from_values [] = ok []
  candidates_from_values (v ∷ vs) =
      anchor_candidate_from_value v >>= λ c. candidates_from_values vs >>= λ cs. ok (c ∷ cs)

  -- `candidates`, or the fallback where the key is missing
  unfoldable pub listed_candidates :
      List AnchorCandidate → Option CandidatesValue → Result AnchorError (List AnchorCandidate)
  listed_candidates fallback none = ok fallback
  listed_candidates fallback (some (candidate_list vs)) = candidates_from_values vs
  listed_candidates fallback (some no_list) = err candidates_not_list

  -- `query_id`, or the identifier of the query where it is no text or blank
  abbrev pub query_id_or : Option Str → Str → Str
  query_id_or none query = query_id_for_label query
  query_id_or (some i) query = i

  abbrev pub label_or_query : Option Str → Str → Option Str
  label_or_query none query = some query
  label_or_query (some l) query = some l

  unfoldable pub decision_from_fields :
      Str
      → List AnchorCandidate
      → Option CandidatesValue
      → Fields
      → Result AnchorError AnchorDecision
  decision_from_fields query fallback listed fs =
      required_status (lookup (codes "status") fs) >>= λ status.
      selected_value (lookup (codes "selected_anchor_id") fs) >>= λ selected.
      listed_candidates fallback listed >>= λ candidates.
      shallow_value (lookup (codes "shallow_expand") fs) >>= λ shallow.
      coerce_metadata (lookup (codes "metadata") fs) >>= λ metadata. ok (record {
        status = status;
        query_id = query_id_or (text_value (lookup (codes "query_id") fs)) query;
        query_label = label_or_query (as_str (lookup (codes "query_label") fs)) query;
        candidates = candidates;
        selected_anchor_id = selected;
        reason = as_str (lookup (codes "reason") fs);
        shallow_expand = shallow;
        metadata = metadata;
      })

  unfoldable pub anchor_decision_from_value :
      Str → List AnchorCandidate → DecisionValue → Result AnchorError AnchorDecision
  anchor_decision_from_value query fallback (decision_object d) = check_selected d
  anchor_decision_from_value query fallback (decision_dict listed fs) =
      decision_from_fields query fallback listed fs >>= check_selected
  anchor_decision_from_value query fallback no_decision = err decision_not_mapping

-- a field that `anchor_candidate_to_dict` leaves out where it is `None`
unfoldable pub metadata_fields : Option Fields → Fields
metadata_fields none = end
metadata_fields (some m) = field (some (codes "metadata")) (dict m) end

abbrev pub of_score : Option Float → Value
of_score none = null
of_score (some x) = float x

abbrev pub of_rank : Option ℤ → Value
of_rank none = null
of_rank (some n) = int n

unfoldable pub anchor_candidate_to_dict : AnchorCandidate → Fields
anchor_candidate_to_dict c = field (some (codes "node_id")) (str c.node_id) (
    field (some (codes "label")) (of_option_str c.label) (
      field (some (codes "kind")) (of_option_str c.kind) (
        field (some (codes "score")) (of_score c.score) (
          field (some (codes "rank")) (of_rank c.rank) (
            field (some (codes "reason")) (of_option_str c.reason) (metadata_fields c.metadata))))))

-- the keys of `anchor_decision_to_dict` but `candidates`
unfoldable pub decision_fields : AnchorDecision → Fields
decision_fields d = field (some (codes "status")) (str (status_text d.status)) (
    field (some (codes "query_id")) (str d.query_id) (
      field (some (codes "query_label")) (of_option_str d.query_label) (
        field (some (codes "selected_anchor_id")) (of_option_str d.selected_anchor_id) (
          field (some (codes "reason")) (of_option_str d.reason) (
            field (some (codes "shallow_expand")) (bool d.shallow_expand)
              (metadata_fields d.metadata))))))

unfoldable pub candidate_dicts : List AnchorCandidate → List CandidateValue
candidate_dicts [] = []
candidate_dicts (c ∷ cs) = candidate_value (dict (anchor_candidate_to_dict c)) ∷ candidate_dicts cs

unfoldable pub anchor_decision_to_dict : AnchorDecision → DecisionValue
anchor_decision_to_dict d =
    decision_dict (some (candidate_list (candidate_dicts d.candidates))) (decision_fields d)
