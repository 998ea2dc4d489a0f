-- ===== src/Tests/Store.antt =====
-- Decisions read from values, and a store of two nodes.
use iterative_context.Prelude.{
  ok, err, ◌≤◌, ◌≡◌, refl, true, false, Option, none, some, List, [], ◌∷◌, length, ℤ, pos,
}
use iterative_context.Text.{Str, codes, str_eq, strip, lstrip, is_space}
use iterative_context.Float.{Float, literal}
use iterative_context.Value.{bool, str, end, field}
use iterative_context.PathIds.{symbol}
use iterative_context.Models.{pending_node}
use iterative_context.DiGraph.{DiGraph}
use iterative_context.DiGraph.Lists.{list_graph}
use iterative_context.Events.{NodeAttrs, EdgeAttrs}
use iterative_context.Anchor.{
  AnchorDecision, Status, DecisionValue, decision_dict, anchor_decision_to_dict,
  anchor_decision_from_value, decision_from_fields, check_selected, lookup, text_value,
  selected_value, shallow_value, required_status, status_of, listed_candidates, coerce_metadata,
}
use iterative_context.Anchor.Laws.{
  IsConsistent, anchor_decision_from_value-IsConsistent,
  anchor_decision_from_value-anchor_decision_to_dict,
}
use iterative_context.FuzzyRank.{seventy, five, pick_unique_or_ambiguous}
use iterative_context.FuzzyRank.Laws.{IsPick, pick_unique_or_ambiguous-IsPick}
use iterative_context.Store.{Store}
use iterative_context.Store.Resolve.{collect_anchor_candidates}
use iterative_context.Store.Laws.{IsDistinct, collect_anchor_candidates-IsDistinct}

abbrev no_float : ℤ → Option Float
no_float z = none

abbrev same_text : Str → Str
same_text s = s

abbrev read : DecisionValue → Str → AnchorDecision
read v query = elim (anchor_decision_from_value no_float same_text query [] v) [
  | ok d ↦ d
  | err e ↦ record {
    status = Status.not_found;
    query_id = [];
    query_label = none;
    candidates = [];
    selected_anchor_id = none;
    reason = none;
    shallow_expand = false;
    metadata = none;
  }
]

abbrev answer : DecisionValue
answer = decision_dict none (
    field (some (codes "status")) (str (codes "resolved")) (
      field (some (codes "selected_anchor_id")) (str (codes " a "))
        (field (some (codes "shallow_expand")) (bool true) end)))

anchor_decision_from_value-IsConsistent_example : IsConsistent (read answer (codes "q"))
unfolding anchor_decision_from_value decision_from_fields check_selected lookup text_value
    selected_value shallow_value required_status status_of listed_candidates coerce_metadata str_eq
    strip lstrip is_space
anchor_decision_from_value-IsConsistent_example =
    anchor_decision_from_value-IsConsistent no_float same_text (codes "q") [] answer
      (read answer (codes "q")) refl

abbrev decision : AnchorDecision
decision = record {
  status = Status.resolved;
  query_id = codes "anchor-query:1";
  query_label = some (codes "a");
  candidates =
      record {
        node_id = codes "function:a";
        label = none;
        kind = some (codes "function");
        score = some (literal 0);
        rank = some (pos 1);
        reason = none;
        metadata = some end;
      }
      ∷ [];
  selected_anchor_id = some (codes "function:a");
  reason = none;
  shallow_expand = false;
  metadata = none;
}

anchor_decision_from_value-anchor_decision_to_dict_example :
    anchor_decision_from_value no_float same_text
      (codes "other")
      []
      (anchor_decision_to_dict decision)
    ≡ ok decision
unfolding strip lstrip is_space
anchor_decision_from_value-anchor_decision_to_dict_example =
    anchor_decision_from_value-anchor_decision_to_dict no_float same_text (codes "other")
      (codes "a") [] decision refl ((refl, refl), tt) refl refl refl

-- the first of two scores stands for their difference
abbrev first_score : Float → Float → Float
first_score x y = x

pick_unique_or_ambiguous-IsPick_example : IsPick seventy (
    pick_unique_or_ambiguous same_text none first_score seventy five
      (codes "a")
      ((codes "1", codes "a") ∷ (codes "2", codes "ab") ∷ []))
pick_unique_or_ambiguous-IsPick_example =
    pick_unique_or_ambiguous-IsPick same_text none first_score seventy five (codes "a")
      ((codes "1", codes "a") ∷ (codes "2", codes "ab") ∷ [])

abbrev nx : DiGraph NodeAttrs EdgeAttrs
nx = list_graph NodeAttrs EdgeAttrs

abbrev attrs : Str → NodeAttrs
attrs i = record {
  data_node = some (pending_node i symbol);
  symbol_text = some (codes "main");
  file_text = some (codes "main.py");
}

abbrev entries : List (Str × NodeAttrs)
entries = (codes "1", attrs (codes "1")) ∷ (codes "2", attrs (codes "2")) ∷ []

abbrev store : Store nx.Graph
store = record {
  graph = record { node_list = entries; edge_list = [] };
  nodes_by_id = entries;
  index_by_symbol = (codes "main", codes "1" ∷ codes "2" ∷ []) ∷ [];
  index_by_file = (codes "main.py", codes "1" ∷ codes "2" ∷ []) ∷ [];
  out_edges = [];
  in_edges = [];
}

collect_anchor_candidates-IsDistinct_example :
    IsDistinct (collect_anchor_candidates nx same_text none first_score (codes "main") 8 store)
    × (length (collect_anchor_candidates nx same_text none first_score (codes "main") 8 store) ≤ 8)
collect_anchor_candidates-IsDistinct_example =
    collect_anchor_candidates-IsDistinct nx same_text none first_score store (codes "main") 8
