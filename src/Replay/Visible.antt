-- ===== src/Replay/Visible.antt =====
-- graph_replay.py: which candidates of a decision are shown.
use iterative_context.Prelude.{
  ℕ, Bool, true, false, not, ◌&&◌, ◌||◌, Option, none, some, List, [], ◌∷◌, ◌++◌, map, leb,
  if◌then◌else◌, length, take, drop, any, filter, ℤ, pos, int_lt,
}
use iterative_context.Text.{Str, str_eq, str_lt, mem, strip, is_empty}
use iterative_context.Float.{Float, float_eq, float_lt, float_neg, neg_inf}
use iterative_context.Dict.{Dict, get, has, put}
use iterative_context.Sort.{sort}
use iterative_context.Anchor.{AnchorCandidate}
use iterative_context.Replay.Payload.{FrontierCandidate}

-- `FrontierDecision`; steps and counts are natural numbers.
pub record FrontierDecision : Type 0 where
  pub step : ℕ
  pub source_id : Option Str
  pub candidates : List FrontierCandidate
  pub visible_candidate_ids : List Str
  pub selected_id : Option Str
  pub pruned_ids : List Str
  pub frontier_count : ℕ
  pub hidden_count : ℕ
  pub reason : Option Str

-- `any(candidate.node_id == node_id for candidate in …)`
abbrev pub any_anchor : Str → List AnchorCandidate → Bool
any_anchor node_id = any (λ c. str_eq c.node_id node_id)

abbrev pub any_frontier : Str → List FrontierCandidate → Bool
any_frontier node_id = any (λ c. str_eq c.node_id node_id)

-- `visible[-1] = candidate`, or the append where there is no last element
unfoldable pub set_last : AnchorCandidate → List AnchorCandidate → List AnchorCandidate
set_last c [] = c ∷ []
set_last c (x ∷ []) = c ∷ []
set_last c (x ∷ y ∷ xs) = x ∷ set_last c (y ∷ xs)

-- the loop over the candidates behind the visible ones, which stops at the selected one
unfoldable pub swap_in : Str → List AnchorCandidate → List AnchorCandidate → List AnchorCandidate
swap_in selected visible [] = visible
swap_in selected visible (c ∷ cs) =
    if str_eq c.node_id selected then set_last c visible else swap_in selected visible cs

unfoldable pub bounded_anchor_candidates :
    ℕ → List AnchorCandidate → Option Str → List AnchorCandidate
bounded_anchor_candidates limit candidates none = take limit candidates
bounded_anchor_candidates limit candidates (some selected) =
    let visible = take limit candidates in
    if any_anchor selected visible
    then visible
    else swap_in selected visible (drop limit candidates)

-- the loop of `_dedupe_ids`: `none` and blank texts are skipped, the others stripped
unfoldable pub dedupe_loop : List Str → List (Option Str) → List Str
dedupe_loop seen [] = []
dedupe_loop seen (none ∷ raws) = dedupe_loop seen raws
dedupe_loop seen (some raw ∷ raws) =
    let node_id = strip raw in
    elim (is_empty node_id || mem node_id seen) [
      | true ↦ dedupe_loop seen raws
      | false ↦ node_id ∷ dedupe_loop (node_id ∷ seen) raws
    ]

unfoldable pub dedupe_ids : List Str → List Str
dedupe_ids ids = dedupe_loop [] (map some ids)

abbrev pub int_eq : ℤ → ℤ → Bool
int_eq a b = not (int_lt a b || int_lt b a)

abbrev pub rank_or_default : Option ℤ → ℤ
rank_or_default none = pos 10_000
rank_or_default (some n) = n

abbrev pub score_or_default : Option Float → Float
score_or_default none = neg_inf
score_or_default (some s) = s

-- the tuples `(rank, -score, node_id)` compared
unfoldable pub frontier_lt : FrontierCandidate → FrontierCandidate → Bool
frontier_lt a b =
    let i = rank_or_default a.rank in
    let j = rank_or_default b.rank in
    let x = float_neg (score_or_default a.score) in
    let y = float_neg (score_or_default b.score) in
    if int_eq i j
    then (if float_eq x y then str_lt a.node_id b.node_id else float_lt x y)
    else int_lt i j

unfoldable pub ordered_frontier_candidates : List FrontierCandidate → List FrontierCandidate
ordered_frontier_candidates = sort frontier_lt

-- `{candidate.node_id: candidate for candidate in ordered}`: the last of several stays
unfoldable pub candidates_by_id :
    List FrontierCandidate → Dict FrontierCandidate → Dict FrontierCandidate
candidates_by_id [] d = d
candidates_by_id (c ∷ cs) d = candidates_by_id cs (put c.node_id c d)

-- `for node_id in …: if len(visible_ids) >= limit: break; visible_ids.append(node_id)`
unfoldable pub fill : ℕ → List Str → List Str → List Str
fill limit visible [] = visible
fill limit visible (x ∷ xs) =
    if leb limit (length visible) then visible else fill limit (visible ++ x ∷ []) xs

-- `[candidates_by_id[i] for i in ids if i in candidates_by_id]`
unfoldable pub select : Dict FrontierCandidate → List Str → List FrontierCandidate
select by_id [] = []
select by_id (x ∷ xs) = elim (get x by_id) [ none ↦ select by_id xs | some c ↦ c ∷ select by_id xs ]

abbrev pub of_option : Option Str → List Str
of_option none = []
of_option (some s) = s ∷ []

-- the lists of identifiers that `_bounded_frontier_candidates` builds
pub record Choice : Type 0 where
  pub by_id : Dict FrontierCandidate
  pub selected_ids : List Str
  pub pruned_ids : List Str
  pub sticky_ids : List Str
  pub requested_ids : List Str
  pub ranked_ids : List Str

unfoldable pub choose : List Str → FrontierDecision → Choice
choose visible_pending_ids d =
    let ordered = ordered_frontier_candidates d.candidates in
    let by_id = candidates_by_id ordered [] in
    let selected = dedupe_ids (of_option d.selected_id) in
    let pruned = dedupe_ids (filter (λ i. has i by_id && not (mem i selected)) d.pruned_ids) in
    let open_ids = λ (ids : List Str).
      dedupe_ids (filter (λ i. has i by_id && (not (mem i selected) && not (mem i pruned))) ids) in
    let sticky = open_ids visible_pending_ids in
    let requested = open_ids d.visible_candidate_ids in
    record {
      by_id = by_id;
      selected_ids = selected;
      pruned_ids = pruned;
      sticky_ids = sticky;
      requested_ids = requested;
      ranked_ids =
          filter
            (λ i.
              not (mem i selected)
              && (not (mem i pruned) && (not (mem i sticky) && not (mem i requested))))
            (map (λ c. c.node_id) ordered);
    }

-- `visible_ids` at the end of the loop
unfoldable pub visible_ids : ℕ → Choice → List Str
visible_ids limit c =
    fill limit (dedupe_ids (c.selected_ids ++ (c.pruned_ids ++ c.sticky_ids)))
      (c.requested_ids ++ c.ranked_ids)

unfoldable pub bounded_frontier_candidates :
    ℕ → List Str → FrontierDecision → List FrontierCandidate
bounded_frontier_candidates limit visible_pending_ids d =
    let c = choose visible_pending_ids d in select c.by_id (visible_ids limit c)
