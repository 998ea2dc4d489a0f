-- ===== src/Replay/Shown.antt =====
-- How many candidates of a frontier decision are shown, and which ones always are.
use iterative_context.Prelude.{
  ℕ, suc, ◌+◌, ◌≤◌, max, ◌≡◌, refl, sym, ap, ◌∙◌, ◌⊎◌, inl, inr, Bool, true, false, ◌||◌, Option,
  none, some, List, [], ◌∷◌, ◌++◌, map, arith, Bool-cases, Option-cases, length, any, filter,
  length-append, length-filter-le,
}
use iterative_context.Text.{Str, str_eq, mem, strip, is_empty}
use iterative_context.Text.Laws.{str_eq_iff, mem-append}
use iterative_context.Dict.{Dict, get, has, put}
use iterative_context.Dict.Laws.{get-put, has-put, get_of_has}
use iterative_context.Sort.Laws.{any-sort}
use iterative_context.Replay.Payload.{FrontierCandidate}
use iterative_context.Replay.Visible.{
  FrontierDecision, Choice, any_frontier, dedupe_loop, dedupe_ids, frontier_lt,
  ordered_frontier_candidates, candidates_by_id, fill, select, of_option, choose, visible_ids,
  bounded_frontier_candidates,
}

length-dedupe_loop :
    (seen : List Str) (raws : List (Option Str)) → length (dedupe_loop seen raws) ≤ length raws
unfolding dedupe_loop
length-dedupe_loop seen [] = omega arith
length-dedupe_loop seen (none ∷ raws) = omega (arith, length-dedupe_loop seen raws)
length-dedupe_loop seen (some raw ∷ raws) =
    ground (arith, length-dedupe_loop seen raws, length-dedupe_loop (strip raw ∷ seen) raws)

length-map-some : (ids : List Str) → length (map {B = Option Str} some ids) ≡ length ids
length-map-some [] = refl
length-map-some (i ∷ ids) = ap suc (length-map-some ids)

length-dedupe_ids : (ids : List Str) → length (dedupe_ids ids) ≤ length ids
unfolding dedupe_ids
length-dedupe_ids ids = omega (arith, length-dedupe_loop [] (map some ids), length-map-some ids)

length-fill :
    (limit : ℕ) (visible xs : List Str)
    → length (fill limit visible xs) ≤ max limit (length visible)
unfolding fill
length-fill limit visible [] = omega arith
length-fill limit visible (x ∷ xs) =
    ground (arith, length-fill limit (visible ++ x ∷ []) xs, length-append visible (x ∷ []))

mem-fill :
    (limit : ℕ) (i : Str) (visible xs : List Str)
    → mem i visible ≡ true
    → mem i (fill limit visible xs) ≡ true
unfolding fill
mem-fill limit i visible [] h = h
mem-fill limit i visible (x ∷ xs) h =
    ground (arith, mem-fill limit i (visible ++ x ∷ []) xs, mem-append i visible (x ∷ []))

length-select :
    (by_id : Dict FrontierCandidate) (ids : List Str) → length (select by_id ids) ≤ length ids
unfolding select
length-select by_id [] = omega arith
length-select by_id (i ∷ ids) = ground (arith, length-select by_id ids)

-- each candidate is stored under its own identifier
abbrev IsKeyed : Dict FrontierCandidate → Type 0
IsKeyed d = (i : Str) (c : FrontierCandidate) → get i d ≡ some c → c.node_id ≡ i

candidates_by_id-IsKeyed :
    (cs : List FrontierCandidate) (d : Dict FrontierCandidate)
    → IsKeyed d
    → IsKeyed (candidates_by_id cs d)
unfolding candidates_by_id
candidates_by_id-IsKeyed [] d h = h
candidates_by_id-IsKeyed (c ∷ cs) d h =
    candidates_by_id-IsKeyed cs (put c.node_id c d)
      (λ i x e. ground (arith, get-put c.node_id i c d, str_eq_iff c.node_id i, h i x))

has-candidates_by_id :
    (i : Str) (cs : List FrontierCandidate) (d : Dict FrontierCandidate)
    → has i (candidates_by_id cs d) ≡ (any_frontier i cs || has i d)
unfolding candidates_by_id
has-candidates_by_id i [] d = refl
has-candidates_by_id i (c ∷ cs) d =
    ground (arith, has-candidates_by_id i cs (put c.node_id c d), has-put c.node_id i c d)

-- what is stored is one of the candidates
get-candidates_by_id :
    (p : FrontierCandidate → Bool) (i : Str) (x : FrontierCandidate) (cs : List FrontierCandidate)
    (d : Dict FrontierCandidate)
    → get i (candidates_by_id cs d) ≡ some x
    → p x ≡ true
    → (any p cs ≡ true) ⊎ (get i d ≡ some x)
unfolding candidates_by_id
get-candidates_by_id p i x [] d e h = inr e
get-candidates_by_id p i x (c ∷ cs) d e h =
    elim (get-candidates_by_id p i x cs (put c.node_id c d) e h) [
      | inl a ↦ inl (ground arith)
      | inr g ↦ ground (arith, get-put c.node_id i c d)
    ]

any-select :
    (by_id : Dict FrontierCandidate) (i : Str) (c : FrontierCandidate) (ids : List Str)
    → IsKeyed by_id
    → get i by_id ≡ some c
    → mem i ids ≡ true
    → any_frontier i (select by_id ids) ≡ true
unfolding select mem
any-select by_id i c [] k e h = cc
any-select by_id i c (j ∷ ids) k e h =
    ground (arith, any-select by_id i c ids k e, str_eq_iff i j, str_eq_iff c.node_id i, k i c)

any_of_select :
    (p : FrontierCandidate → Bool) (cs : List FrontierCandidate) (ids : List Str)
    → any p (select (candidates_by_id cs []) ids) ≡ true
    → any p cs ≡ true
unfolding select
any_of_select p cs [] h = cc
any_of_select p cs (i ∷ ids) h = elim (Option-cases (get i (candidates_by_id cs []))) [
  | inl e ↦ any_of_select p cs ids (rw (e, select) at h)
  | inr (x, e) ↦ elim (Bool-cases (p x)) [
    | inl px ↦ unfold get in ground (arith, get-candidates_by_id p i x cs [] e px)
    | inr npx ↦ any_of_select p cs ids (ground arith)
  ]
]

-- An identifier that is stripped and not empty stays when it comes first.
mem-dedupe_first :
    (s : Str) (ids : List Str)
    → strip s ≡ s
    → is_empty s ≡ false
    → mem s (dedupe_ids (s ∷ ids)) ≡ true
unfolding dedupe_ids dedupe_loop mem
mem-dedupe_first s ids e n = ground (arith, str_eq_iff s s)

dedupe_single : (s : Str) → strip s ≡ s → is_empty s ≡ false → dedupe_ids (s ∷ []) ≡ s ∷ []
unfolding dedupe_ids dedupe_loop mem
dedupe_single s e n = ground arith

length-visible_ids :
    (limit : ℕ) (c : Choice)
    → length (visible_ids limit c)
      ≤ max limit (length c.selected_ids + length c.pruned_ids + length c.sticky_ids)
unfolding visible_ids
length-visible_ids limit c =
    let fixed = c.selected_ids ++ (c.pruned_ids ++ c.sticky_ids) in
    omega (
      arith,
      length-fill limit (dedupe_ids fixed) (c.requested_ids ++ c.ranked_ids),
      length-dedupe_ids fixed,
      length-append c.selected_ids (c.pruned_ids ++ c.sticky_ids),
      length-append c.pruned_ids c.sticky_ids,
    )

length-dedupe-filter :
    (p : Str → Bool) (ids : List Str) → length (dedupe_ids (filter p ids)) ≤ length ids
length-dedupe-filter p ids = omega (arith, length-dedupe_ids (filter p ids), length-filter-le p ids)

any-ordered :
    (p : FrontierCandidate → Bool) (cs : List FrontierCandidate)
    → any p (ordered_frontier_candidates cs) ≡ any p cs
unfolding ordered_frontier_candidates
any-ordered p cs = any-sort frontier_lt p cs

-- Of the candidates in order, each stored under its identifier, a shown one is a candidate.
any_of_shown :
    (p : FrontierCandidate → Bool) (cs : List FrontierCandidate) (c : Choice) (ids : List Str)
    → c.by_id ≡ candidates_by_id (ordered_frontier_candidates cs) []
    → any p (select c.by_id ids) ≡ true
    → any p cs ≡ true
any_of_shown p cs c ids e h =
    sym (any-ordered p cs) ∙ any_of_select p (ordered_frontier_candidates cs) ids (rw e at h)

any-shown :
    (s : Str) (cs : List FrontierCandidate) (c : Choice) (ids : List Str)
    → c.by_id ≡ candidates_by_id (ordered_frontier_candidates cs) []
    → any_frontier s cs ≡ true
    → mem s ids ≡ true
    → any_frontier s (select c.by_id ids) ≡ true
unfolding has get
any-shown s cs c ids e a m =
    let ordered = ordered_frontier_candidates cs in
    let stored : has s (candidates_by_id ordered []) ≡ true = ground (
      arith,
      has-candidates_by_id s ordered [],
      any-ordered (λ (c : FrontierCandidate). str_eq c.node_id s) cs,
    ) in
    let (x, found) = get_of_has s (candidates_by_id ordered []) stored in
    rw e (
      any-select (candidates_by_id ordered []) s x ids
        (candidates_by_id-IsKeyed ordered [] (λ i y g. cc g)) found m)

module _ (pending : List Str) (d : FrontierDecision) where
  length-choose :
      length (choose pending d).selected_ids
        + length (choose pending d).pruned_ids
        + length (choose pending d).sticky_ids
      ≤ length (of_option d.selected_id) + length d.pruned_ids + length pending
  unfolding choose
  length-choose = omega (arith, length-dedupe_ids, length-dedupe-filter)

  choose_by_id :
      (choose pending d).by_id ≡ candidates_by_id (ordered_frontier_candidates d.candidates) []
  unfolding choose
  choose_by_id = refl

  choose_selected : (choose pending d).selected_ids ≡ dedupe_ids (of_option d.selected_id)
  unfolding choose
  choose_selected = refl

mem-visible_ids :
    (limit : ℕ) (c : Choice) (s : Str)
    → c.selected_ids ≡ s ∷ []
    → strip s ≡ s
    → is_empty s ≡ false
    → mem s (visible_ids limit c) ≡ true
unfolding visible_ids
mem-visible_ids limit c s e stripped named =
    mem-fill limit s _ (c.requested_ids ++ c.ranked_ids)
      (rw e (mem-dedupe_first s (c.pruned_ids ++ c.sticky_ids) stripped named))

absorbs : (a b : Bool) → (a ≡ true → b ≡ true) → (a || b) ≡ b
absorbs true b h = sym (h refl)
absorbs false b h = refl

-- A frontier decision shows at most the limit, or one for the selected, the pruned and the pending
-- identifiers if these are more; and whatever holds of a shown candidate holds of a candidate of the
-- decision.
pub bounded_frontier_candidates_bounds :
    (limit : ℕ) (pending : List Str) (d : FrontierDecision)
    → (length (bounded_frontier_candidates limit pending d)
        ≤ max limit (length (of_option d.selected_id) + length d.pruned_ids + length pending))
      × ((p : FrontierCandidate → Bool)
          → (any p (bounded_frontier_candidates limit pending d) || any p d.candidates)
            ≡ any p d.candidates)
unfolding bounded_frontier_candidates
bounded_frontier_candidates_bounds limit pending d =
    let c = choose pending d in
    (
      omega (
        arith,
        length-select c.by_id (visible_ids limit c),
        length-visible_ids limit c,
        length-choose pending d,
      ),
      λ p.
          absorbs _ _
            (any_of_shown p d.candidates c (visible_ids limit c) (choose_by_id pending d)),
    )

-- A frontier decision shows the selected candidate, if it is one of its candidates and its identifier
-- is stripped and not empty.
pub bounded_frontier_candidates_selected :
    (limit : ℕ) (pending : List Str) (d : FrontierDecision) (s : Str)
    → d.selected_id ≡ some s
    → strip s ≡ s
    → is_empty s ≡ false
    → any_frontier s d.candidates ≡ true
    → any_frontier s (bounded_frontier_candidates limit pending d) ≡ true
unfolding bounded_frontier_candidates
bounded_frontier_candidates_selected limit pending d s e stripped named a =
    let c = choose pending d in
    any-shown s d.candidates c (visible_ids limit c) (choose_by_id pending d) a (
      mem-visible_ids limit c s (choose_selected pending d ∙ rw e (dedupe_single s stripped named))
        stripped named)
