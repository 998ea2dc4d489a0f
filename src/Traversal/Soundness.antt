-- ===== src/Traversal/Soundness.antt =====
-- Graphs whose nodes hold their data under their own identifiers.
use iterative_context.Prelude.{
  ◌≡◌, refl, sym, ◌∙◌, ◌⊎◌, inl, inr, Bool, true, false, some, List, [], ◌∷◌, ◌++◌, arith,
  if◌then◌else◌, Bool-cases, all, All, All-append,
}
use iterative_context.Text.{Str, str_eq}
use iterative_context.Text.Laws.{str_eq_iff}
use iterative_context.Dict.{Dict, get, has, put}
use iterative_context.Models.{Node}
use iterative_context.PathIds.{symbol}
use iterative_context.Models.{pending_node}
use iterative_context.Events.{NodeAttrs}
use iterative_context.Sort.{sort}
use iterative_context.Sort.Laws.{All-sort}
use iterative_context.Expansion.{child_id_of}
use iterative_context.Expansion.Steps.{resolved_node, child_attrs, expanded_nodes}
use iterative_context.Traversal.Candidates.{is_pending, pending_nodes, by_id}

-- an entry stores a node under its own identifier
abbrev pub Holds : Str × NodeAttrs → Type 0
Holds e = (n : Node) × (e.1.data_node ≡ some n) × (n.id ≡ e.0)

abbrev pub IsSound : Dict NodeAttrs → Type 0
IsSound = All Holds

pub IsSound-get :
    (i : Str) (d : Dict NodeAttrs)
    → IsSound d
    → has i d ≡ true
    → (a : NodeAttrs) × (n : Node) × (get i d ≡ some a) × (a.data_node ≡ some n) × (n.id ≡ i)
unfolding get has
IsSound-get i [] s h = cc
IsSound-get i ((j, a) ∷ d) ((n, e, k), s) h = elim (Bool-cases (str_eq j i)) [
  | inl f ↦ (a, n, rw f, e, k ∙ (str_eq_iff j i).0 f)
  | inr f ↦ rw f (IsSound-get i d s (rw f at h))
]

pub IsSound-put :
    (i : Str) (a : NodeAttrs) (n : Node) (d : Dict NodeAttrs)
    → a.data_node ≡ some n
    → n.id ≡ i
    → IsSound d
    → IsSound (put i a d)
unfolding put
IsSound-put i a n [] e k s = ((n, e, k), tt)
IsSound-put i a n ((j, b) ∷ d) e k (h, s) = elim (Bool-cases (str_eq j i)) [
  | inl f ↦ rw f ((n, e, k ∙ sym ((str_eq_iff j i).0 f)), s)
  | inr f ↦ rw f (h, IsSound-put i a n d e k s)
]

-- The pending nodes of a sound graph are nodes of the graph.
pending_nodes-All :
    (d whole : Dict NodeAttrs)
    → IsSound d
    → ((i : Str) → has i d ≡ true → has i whole ≡ true)
    → All (λ n. has n.id whole ≡ true) (pending_nodes d)
unfolding pending_nodes has
pending_nodes-All [] whole s h = tt
pending_nodes-All ((j, a) ∷ d) whole ((n, e, k), s) h =
    let rest = pending_nodes-All d whole s (λ i m. h i (ground arith)) in
    elim (Bool-cases (is_pending n.state)) [
      | inl f ↦ rw (e, f, pending_nodes) (rw k (h j (ground (arith, str_eq_iff j j))), rest)
      | inr f ↦ rw (e, f, pending_nodes) rest
    ]

all_of_All : (p : Node → Bool) (ns : List Node) → All (λ n. p n ≡ true) ns → all p ns ≡ true
all_of_All p [] h = refl
all_of_All p (n ∷ ns) (q, h) = rw (q, all_of_All p ns h)

pub frontier-all :
    (d : Dict NodeAttrs) → IsSound d → all (λ n. has n.id d) (sort by_id (pending_nodes d)) ≡ true
frontier-all d s =
    all_of_All (λ n. has n.id d) _
      (All-sort by_id (λ n. has n.id d ≡ true) (pending_nodes d)
        (pending_nodes-All d d s (λ i m. m)))

pub IsSound-expanded :
    (p : Str) (a : NodeAttrs) (n : Node) (d : Dict NodeAttrs)
    → n.id ≡ p
    → IsSound d
    → IsSound (expanded_nodes p a n d)
IsSound-expanded p a n d k s =
    IsSound-put p _ (resolved_node n) _ refl k (grown (Bool-cases (has (child_id_of p) d)))
  where
    grown :
        (has (child_id_of p) d ≡ true) ⊎ (has (child_id_of p) d ≡ false)
        → IsSound (if has (child_id_of p) d then d else d ++ (child_id_of p, child_attrs p) ∷ [])
    grown (inl e) = rw e s
    grown (inr e) =
        rw e (All-append Holds d _ s ((pending_node (child_id_of p) symbol, refl, refl), tt))
