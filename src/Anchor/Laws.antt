-- ===== src/Anchor/Laws.antt =====
-- Decisions that were read, and decisions written and read again.
use mathlib.Core.Option
use iterative_context.Prelude.{
  ok_inj, ok, >>=-eq-ok, ◌≡◌, refl, ◌⊎◌, inl, inr, false, Option, none, some, List, [], ◌∷◌, arith,
  Bool-cases, Option-cases, All, ℤ,
}
use iterative_context.Text.{Str, str_eq, strip, is_empty, or_empty}
use iterative_context.Float.{Float}
use iterative_context.Value.{str}
use iterative_context.Anchor.{
  AnchorCandidate, AnchorDecision, Status, resolved, ambiguous, not_found, check_selected,
  decision_from_fields, anchor_decision_from_value, candidate_list, DecisionValue, decision_object,
  decision_dict, no_decision, lookup, text_value, metadata_fields, coerce_metadata, score_value,
  rank_value, anchor_candidate_to_dict, candidate_from_fields, anchor_candidate_from_value,
  candidates_from_values, candidate_dicts, decision_fields, anchor_decision_to_dict, status_of,
  status_text, required_status, selected_value, shallow_value, listed_candidates,
}

-- a selected identifier exactly where the status is resolved
abbrev pub IsConsistent : AnchorDecision → Type 0
IsConsistent d = elim d.status [
  | resolved ↦ is_empty (or_empty d.selected_anchor_id) ≡ false
  | _ ↦ d.selected_anchor_id ≡ none
]

check_selected-IsConsistent :
    (d e : AnchorDecision) → check_selected d ≡ ok e → IsConsistent e × (e ≡ d)
unfolding check_selected
check_selected-IsConsistent d e h = elim (Status-cases d.status) [
  | inl f ↦ elim (Bool-cases (is_empty (or_empty d.selected_anchor_id))) [
    | inl x ↦ cc (rw (f, x, check_selected) at h)
    | inr x ↦ rw (← ok_inj (rw (f, x, check_selected) at h)) (rw f x, refl)
  ]
  | inr (inl f) ↦ elim (Option-cases d.selected_anchor_id) [
    | inl x ↦ rw (← ok_inj (rw (f, x, check_selected) at h)) (rw f x, refl)
    | inr (s, x) ↦ cc (rw (f, x, check_selected) at h)
  ]
  | inr (inr f) ↦ elim (Option-cases d.selected_anchor_id) [
    | inl x ↦ rw (← ok_inj (rw (f, x, check_selected) at h)) (rw f x, refl)
    | inr (s, x) ↦ cc (rw (f, x, check_selected) at h)
  ]
]
  where
    Status-cases : (s : Status) → (s ≡ resolved) ⊎ ((s ≡ ambiguous) ⊎ (s ≡ not_found))
    Status-cases resolved = inl refl
    Status-cases ambiguous = inr (inl refl)
    Status-cases not_found = inr (inr refl)

module _ (float_of : ℤ → Option Float) (sha256 : Str → Str) where
  -- Whatever a policy returns for a decision, the decision that is read from it has a selected
  -- identifier that is not empty, if its status is resolved, and none otherwise.
  pub anchor_decision_from_value-IsConsistent :
      (query : Str) (fallback : List AnchorCandidate) (v : DecisionValue) (d : AnchorDecision)
      → anchor_decision_from_value float_of sha256 query fallback v ≡ ok d
      → IsConsistent d
  unfolding anchor_decision_from_value
  anchor_decision_from_value-IsConsistent query fallback (decision_object x) d h =
      (check_selected-IsConsistent x d h).0
  anchor_decision_from_value-IsConsistent query fallback (decision_dict listed fs) d h =
      let (x, _, checked) =
        >>=-eq-ok (decision_from_fields float_of sha256 query fallback listed fs) check_selected
          h in
      (check_selected-IsConsistent x d checked).0
  anchor_decision_from_value-IsConsistent query fallback no_decision d h = cc

  -- a candidate whose identifier is stripped and not empty
  abbrev pub IsNamed : AnchorCandidate → Type 0
  IsNamed c = (strip c.node_id ≡ c.node_id) × (is_empty c.node_id ≡ false)

  candidate-read :
      (c : AnchorCandidate)
      → IsNamed c
      → candidate_from_fields float_of sha256 (anchor_candidate_to_dict c) ≡ ok c
  unfolding candidate_from_fields anchor_candidate_to_dict lookup str_eq text_value score_value
      rank_value coerce_metadata metadata_fields
  candidate-read c (stripped, named) = ground (arith, stripped, named)

  candidates-read :
      (cs : List AnchorCandidate)
      → All IsNamed cs
      → candidates_from_values float_of sha256 (candidate_dicts cs) ≡ ok cs
  unfolding candidates_from_values candidate_dicts anchor_candidate_from_value
  candidates-read [] h = refl
  candidates-read (c ∷ cs) (named, h) = rw (candidate-read c named, candidates-read cs h) refl

  status-read : (s : Status) → status_of (some (str (status_text s))) ≡ some s
  unfolding status_of status_text str_eq
  status-read resolved = refl
  status-read ambiguous = refl
  status-read not_found = refl

  fields-read :
      (query l : Str) (fallback : List AnchorCandidate) (d : AnchorDecision)
      → All IsNamed d.candidates
      → is_empty (strip d.query_id) ≡ false
      → d.query_label ≡ some l
      → Option.map strip d.selected_anchor_id ≡ d.selected_anchor_id
      → decision_from_fields float_of sha256 query fallback
          (some (candidate_list (candidate_dicts d.candidates)))
          (decision_fields d)
        ≡ ok d
  unfolding decision_from_fields decision_fields lookup str_eq text_value coerce_metadata
      metadata_fields required_status selected_value shallow_value listed_candidates
  fields-read query l fallback d named asked label stripped =
      ground
        (arith, candidates-read d.candidates named, status-read d.status, asked, label, stripped)

  consistent-checked : (d : AnchorDecision) → IsConsistent d → check_selected d ≡ ok d
  unfolding check_selected
  consistent-checked d h = ground (arith, h)

  -- A decision that is consistent, with a label of its query, a query identifier that is not blank, a
  -- stripped selected identifier, and candidates whose identifiers are stripped and not empty, is read
  -- back from its dict as it was, whatever the query and the fallback candidates.
  pub anchor_decision_from_value-anchor_decision_to_dict :
      (query l : Str) (fallback : List AnchorCandidate) (d : AnchorDecision)
      → IsConsistent d
      → All IsNamed d.candidates
      → is_empty (strip d.query_id) ≡ false
      → d.query_label ≡ some l
      → Option.map strip d.selected_anchor_id ≡ d.selected_anchor_id
      → anchor_decision_from_value float_of sha256 query fallback (anchor_decision_to_dict d) ≡ ok d
  unfolding anchor_decision_from_value anchor_decision_to_dict
  anchor_decision_from_value-anchor_decision_to_dict query l fallback d consistent named asked label
        stripped =
      rw (fields-read query l fallback d named asked label stripped)
        (consistent-checked d consistent)
