-- ===== src/Store/Laws.antt =====
-- The candidates that the store collects.
use iterative_context.Prelude.{
  ℕ, zero, suc, ◌≤◌, ◌≡◌, refl, ◌∙◌, inl, inr, Bool, true, false, Option, none, some, List, [], ◌∷◌,
  ◌++◌, arith, Bool-cases, length, take, any, length-take, any-append,
}
use iterative_context.Text.{Str, str_eq, str_lt, contains, strip, is_empty}
use iterative_context.Text.Laws.{str_eq_iff}
use iterative_context.Float.{Float}
use iterative_context.Dict.{Dict}
use iterative_context.Sort.{sort}
use iterative_context.Anchor.{AnchorCandidate}
use iterative_context.DiGraph.{DiGraph}
use iterative_context.Events.{NodeAttrs, EdgeAttrs}
use iterative_context.FuzzyRank.{RankedCandidate}
use iterative_context.Store.{Store}
use iterative_context.Store.Resolve.{
  is_new, add_candidate, collect_exact, collect_fuzzy, collect_file, collect_files, all_candidates,
  collect_anchor_candidates,
}

-- no candidate has the identifier of an earlier one
abbrev pub IsDistinct : List AnchorCandidate → Type 0
IsDistinct [] = Unit
IsDistinct (c ∷ cs) = (any (λ d. str_eq d.node_id c.node_id) cs ≡ false) × IsDistinct cs

str_eq_comm : (a b : Str) → str_eq a b ≡ str_eq b a
str_eq_comm a b = ground (arith, str_eq_iff a b, str_eq_iff b a)

IsDistinct-append :
    (c : AnchorCandidate) (cs : List AnchorCandidate)
    → is_new c cs ≡ true
    → IsDistinct cs
    → IsDistinct (cs ++ c ∷ [])
unfolding is_new
IsDistinct-append c [] n h = (refl, tt)
IsDistinct-append c (d ∷ cs) n (p, h) = (
  any-append _ cs (c ∷ []) ∙ ground (arith, p, str_eq_comm c.node_id d.node_id),
  IsDistinct-append c cs (ground arith) h,
)

add_candidate-IsDistinct :
    (c : Option AnchorCandidate) (out : List AnchorCandidate)
    → IsDistinct out
    → IsDistinct (add_candidate c out)
unfolding add_candidate
add_candidate-IsDistinct none out h = h
add_candidate-IsDistinct (some c) out h = elim (Bool-cases (is_new c out)) [
  | inl e ↦ rw e (IsDistinct-append c out e h)
  | inr e ↦ rw e h
]

any-take :
    (p : AnchorCandidate → Bool) (n : ℕ) (cs : List AnchorCandidate)
    → any p cs ≡ false
    → any p (take n cs) ≡ false
any-take p zero cs h = refl
any-take p (suc n) [] h = refl
any-take p (suc n) (c ∷ cs) h = ground (arith, any-take p n cs)

take-IsDistinct : (n : ℕ) (cs : List AnchorCandidate) → IsDistinct cs → IsDistinct (take n cs)
take-IsDistinct zero cs h = tt
take-IsDistinct (suc n) [] h = tt
take-IsDistinct (suc n) (c ∷ cs) (p, h) = (any-take _ n cs p, take-IsDistinct n cs h)

module _ (nx : DiGraph NodeAttrs EdgeAttrs) (lower : Str → Str) (ratio : Option (Str → Str → Float))
    (sub : Float → Float → Float) (s : Store nx.Graph) where
  collect_exact-IsDistinct :
      (q : Str) (rank : ℕ) (ids : List Str) (out : List AnchorCandidate)
      → IsDistinct out
      → IsDistinct (collect_exact nx lower ratio sub q s rank ids out)
  unfolding collect_exact
  collect_exact-IsDistinct q rank [] out h = h
  collect_exact-IsDistinct q rank (i ∷ ids) out h =
      collect_exact-IsDistinct q (suc rank) ids _ (add_candidate-IsDistinct _ out h)

  collect_fuzzy-IsDistinct :
      (rank : ℕ) (cs : List RankedCandidate) (out : List AnchorCandidate)
      → IsDistinct out
      → IsDistinct (collect_fuzzy nx lower ratio sub s rank cs out)
  unfolding collect_fuzzy
  collect_fuzzy-IsDistinct rank [] out h = h
  collect_fuzzy-IsDistinct rank (c ∷ cs) out h =
      collect_fuzzy-IsDistinct (suc rank) cs _ (add_candidate-IsDistinct _ out h)

  collect_file-IsDistinct :
      (path : Str) (ids : List Str) (out : List AnchorCandidate) (rank : ℕ)
      → IsDistinct out
      → IsDistinct (collect_file nx lower ratio sub path s ids (out, rank)).0
  unfolding collect_file
  collect_file-IsDistinct path [] out rank h = h
  collect_file-IsDistinct path (i ∷ ids) out rank h =
      collect_file-IsDistinct path ids _ _ (add_candidate-IsDistinct _ out h)

  collect_files-IsDistinct :
      (lowered : Str) (d : Dict (List Str)) (found : List AnchorCandidate × ℕ)
      → IsDistinct found.0
      → IsDistinct (collect_files nx lower ratio sub lowered s d found).0
  unfolding collect_files
  collect_files-IsDistinct lowered [] found h = h
  collect_files-IsDistinct lowered ((path, ids) ∷ d) found h =
      collect_files-IsDistinct lowered d _ (elim (Bool-cases (contains lowered (lower path))) [
        | inl e ↦ rw e (collect_file-IsDistinct path (sort str_lt ids) found.0 found.1 h)
        | inr e ↦ rw e h
      ])

  -- For any query, at most the limit of candidates is collected, and no two have the same identifier.
  pub collect_anchor_candidates-IsDistinct :
      (query : Str) (limit : ℕ)
      → IsDistinct (collect_anchor_candidates nx lower ratio sub query limit s)
        × (length (collect_anchor_candidates nx lower ratio sub query limit s) ≤ limit)
  unfolding collect_anchor_candidates all_candidates
  collect_anchor_candidates-IsDistinct query limit = elim (Bool-cases (is_empty (strip query))) [
    | inl e ↦ rw e (tt, omega arith)
    | inr e ↦ rw e (
      take-IsDistinct limit _ (
          collect_files-IsDistinct _ _ _
            (collect_fuzzy-IsDistinct 1 _ _ (collect_exact-IsDistinct (strip query) 1 _ [] tt))),
      omega (arith, length-take limit (all_candidates nx lower ratio sub (strip query) s)),
    )
  ]
