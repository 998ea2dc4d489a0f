-- ===== src/Store/Resolve.antt =====
-- store.py: the node that a query means, and the candidates for it.
use iterative_context.Prelude.{
  ℕ, suc, Bool, not, Option, none, some, List, [], ◌∷◌, ◌++◌, map, if◌then◌else◌, take, any, pos,
}
use iterative_context.Text.{Str, codes, str_eq, str_lt, contains, strip, is_empty}
use iterative_context.Float.{Float}
use iterative_context.Dict.{Dict, get}
use iterative_context.Sort.{sort}
use iterative_context.Value.{Fields, str, field, end, as_str}
use iterative_context.Models.{Node}
use iterative_context.DiGraph.{DiGraph}
use iterative_context.Events.{NodeAttrs, EdgeAttrs}
use iterative_context.Anchor.{AnchorCandidate, lookup, anchor_candidate_to_dict}
use iterative_context.FuzzyRank.{
  RankedCandidate, hundred, seventy, five, rank_symbol_candidates, pick_unique_or_ambiguous,
}
use iterative_context.Replay.Payload.{kind_text}
use iterative_context.Store.{Store, listed, key_lt, symbol_index, node_for_id}

-- `d.setdefault(k, v)` and `d[k] = v` for a new key
unfoldable pub set_default : Str → Option Str → Fields → Fields
set_default k none fs = fs
set_default k (some v) fs = elim (lookup k fs) [ some _ ↦ fs | none ↦ append_field fs ]
  where
    append_field : Fields → Fields
    append_field end = field (some k) (str v) end
    append_field (field j w gs) = field j w (append_field gs)

-- `candidate is not None and candidate.node_id not in seen`, where `seen` holds the identifiers of
-- `out`: the longer list, or `out`
unfoldable pub is_new : AnchorCandidate → List AnchorCandidate → Bool
is_new c out = not (any (λ d. str_eq d.node_id c.node_id) out)

unfoldable pub add_candidate : Option AnchorCandidate → List AnchorCandidate → List AnchorCandidate
add_candidate none out = out
add_candidate (some c) out = if is_new c out then out ++ c ∷ [] else out

-- the rank of the next file: one more if the candidate was added
unfoldable pub next_rank : Option AnchorCandidate → List AnchorCandidate → ℕ → ℕ
next_rank none out rank = rank
next_rank (some c) out rank = if is_new c out then suc rank else rank

abbrev pub label_or_symbol : Str → Option Str → Option Str
label_or_symbol label symbol = if is_empty label then symbol else some label

abbrev pub match_source : Str → Fields → Fields
match_source source fs = field (some (codes "match_source")) (str source) fs

abbrev pub symbol_of : Option NodeAttrs → Option Str
symbol_of none = none
symbol_of (some a) = a.symbol_text

abbrev pub file_of : Option NodeAttrs → Option Str
file_of none = none
file_of (some a) = a.file_text

abbrev pub metadata_symbol : Option Fields → Option Str
metadata_symbol none = none
metadata_symbol (some m) = as_str (lookup (codes "symbol") m)

module _ (nx : DiGraph NodeAttrs EdgeAttrs) (lower : Str → Str) (ratio : Option (Str → Str → Float))
    (sub : Float → Float → Float) where
  open nx use {Graph}

  -- the first file whose path holds the text and whose first node is a node of the graph
  unfoldable pub resolve_file : Str → Store Graph → Dict (List Str) → Option Node
  resolve_file lowered s [] = none
  resolve_file lowered s ((path, ids) ∷ rest) =
      let later = resolve_file lowered s rest in
      if contains lowered (lower path)
      then elim ids [
        | [] ↦ later
        | i ∷ _ ↦ elim (node_for_id nx i s) [ some n ↦ some n | none ↦ later ]
      ]
      else later

  -- what `resolve` gives behind the exact matches
  unfoldable pub resolve_ranked : Str → Store Graph → Option Node
  resolve_ranked query s =
      elim (pick_unique_or_ambiguous lower ratio sub seventy five query (symbol_index s)).0 [
        | some winner ↦ node_for_id nx winner.node_id s
        | none ↦ resolve_file (lower query) s (sort key_lt s.index_by_file)
      ]

  unfoldable pub resolve : Str → Store Graph → Option Node
  resolve query s = elim (sort str_lt (listed query s.index_by_symbol)) [
    | [] ↦ resolve_ranked query s
    | i ∷ _ ↦ elim (node_for_id nx i s) [ some n ↦ some n | none ↦ resolve_ranked query s ]
  ]

  unfoldable pub candidate_for_id :
      Str → Str → Option Float → ℕ → Str → Fields → Store Graph → Option AnchorCandidate
  candidate_for_id i label score rank reason metadata s =
      let attrs = get i s.nodes_by_id in
      elim (node_for_id nx i s) [
        | none ↦ none
        | some n ↦ some (record {
          node_id = n.id;
          label = label_or_symbol label (symbol_of attrs);
          kind = some (kind_text n.kind);
          score = score;
          rank = some (pos rank);
          reason = some reason;
          metadata = some (
              set_default (codes "file") (file_of attrs)
                (set_default (codes "symbol") (symbol_of attrs) metadata));
        })
      ]

  unfoldable pub collect_exact :
      Str → Store Graph → ℕ → List Str → List AnchorCandidate → List AnchorCandidate
  collect_exact q s rank [] out = out
  collect_exact q s rank (i ∷ ids) out = collect_exact q s (suc rank) ids (
      add_candidate
        (candidate_for_id i q (some hundred) rank (codes "exact_symbol_match")
          (match_source (codes "exact_symbol") end) s)
        out)

  unfoldable pub collect_fuzzy :
      Store Graph → ℕ → List RankedCandidate → List AnchorCandidate → List AnchorCandidate
  collect_fuzzy s rank [] out = out
  collect_fuzzy s rank (c ∷ cs) out = collect_fuzzy s (suc rank) cs (
      add_candidate
        (candidate_for_id c.node_id c.symbol (some c.score) rank c.reason
          (match_source (codes "fuzzy_symbol") (field (some (codes "symbol")) (str c.symbol) end))
          s)
        out)

  -- the candidates and the rank of the next one
  unfoldable pub collect_file :
      Str → Store Graph → List Str → List AnchorCandidate × ℕ → List AnchorCandidate × ℕ
  collect_file path s [] (out, rank) = (out, rank)
  collect_file path s (i ∷ ids) (out, rank) =
      let c =
        candidate_for_id i path none rank (codes "file_substring_match")
          (match_source (codes "file_substring") (field (some (codes "file")) (str path) end)) s in
      collect_file path s ids (add_candidate c out, next_rank c out rank)

  unfoldable pub collect_files :
      Str → Store Graph → Dict (List Str) → List AnchorCandidate × ℕ → List AnchorCandidate × ℕ
  collect_files lowered s [] found = found
  collect_files lowered s ((path, ids) ∷ rest) found =
      collect_files lowered s rest (
        if contains lowered (lower path)
        then collect_file path s (sort str_lt ids) found
        else found)

  -- the candidates before the cut to the limit
  unfoldable pub all_candidates : Str → Store Graph → List AnchorCandidate
  all_candidates q s =
      (collect_files (lower q) s (sort key_lt s.index_by_file) (
        collect_fuzzy s 1 (rank_symbol_candidates lower ratio q (symbol_index s))
            (collect_exact q s 1 (sort str_lt (listed q s.index_by_symbol)) []),
        1,
      )).0

  -- for a limit that is not negative
  unfoldable pub collect_anchor_candidates : Str → ℕ → Store Graph → List AnchorCandidate
  collect_anchor_candidates query limit s =
      let q = strip query in if is_empty q then [] else take limit (all_candidates q s)

  abbrev pub candidate_entry : AnchorCandidate → Fields
  candidate_entry c =
      set_default (codes "symbol") (metadata_symbol c.metadata) (anchor_candidate_to_dict c)

  unfoldable pub resolve_candidates : Str → ℕ → Store Graph → List Fields
  resolve_candidates query limit s = elim (resolve query s) [
    | some _ ↦ []
    | none ↦ map candidate_entry (collect_anchor_candidates query limit s)
  ]
