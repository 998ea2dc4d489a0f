-- ===== src/Store/Neighbors.antt =====
-- The neighbours that the store gives, against its edges.
use mathlib.Core.Option
use iterative_context.Prelude.{
  ◌≡◌, refl, sym, ap, ◌∙◌, inl, inr, Bool, ◌&&◌, ◌||◌, Option, some, List, [], ◌∷◌, ◌++◌, arith,
  if◌then◌else◌, Bool-cases, any, any-append,
}
use iterative_context.Text.{Str, str_eq, str_lt, mem}
use iterative_context.Text.Laws.{str_eq_iff, str_eq_comm}
use iterative_context.Dict.{Dict, get}
use iterative_context.Dict.Laws.{get-put}
use iterative_context.Sort.{sort}
use iterative_context.Sort.Laws.{any-sort}
use iterative_context.Models.{Edge}
use iterative_context.DiGraph.{DiGraph}
use iterative_context.Events.{NodeAttrs, EdgeAttrs}
use iterative_context.Store.{
  stored_edges, entry_lt, build_indexes, listed, push, index_out, index_in, in_kinds, set_add,
  add_targets, add_sources, get_neighbors,
}

mem-any : (x : Str) (xs : List Str) → mem x xs ≡ any (λ y. str_eq y x) xs
unfolding mem
mem-any x [] = refl
mem-any x (y ∷ ys) = ground (arith, str_eq_comm x y, mem-any x ys)

listed-push :
    (k i : Str) (e : Edge) (d : Dict (List Edge))
    → listed i (push k e d) ≡ (if str_eq k i then listed k d ++ e ∷ [] else listed i d)
unfolding listed push
listed-push k i e d = ground (arith, get-put k i (listed k d ++ e ∷ []) d)

any-push :
    (p : Edge → Bool) (k i : Str) (e : Edge) (d : Dict (List Edge))
    → any p (listed i (push k e d)) ≡ (any p (listed i d) || (str_eq k i && p e))
any-push p k i e d = elim (Bool-cases (str_eq k i)) [
  | inl f ↦
      rw (listed-push k i e d, f, (str_eq_iff k i).0 f)
        (any-append p (listed i d) (e ∷ []) ∙ ground arith)
  | inr f ↦ rw (listed-push k i e d, f) (ground arith)
]

any-listed-index_out :
    (p : Edge → Bool) (i : Str) (es : List Edge) (d : Dict (List Edge))
    → any p (listed i (index_out es d))
      ≡ (any p (listed i d) || any (λ e. str_eq e.source i && p e) es)
unfolding index_out
any-listed-index_out p i [] d = ground arith
any-listed-index_out p i (e ∷ es) d =
    any-listed-index_out p i es (push e.source e d) ∙ ground (arith, any-push p e.source i e d)

any-listed-index_in :
    (p : Edge → Bool) (i : Str) (es : List Edge) (d : Dict (List Edge))
    → any p (listed i (index_in es d))
      ≡ (any p (listed i d) || any (λ e. str_eq e.target i && p e) es)
unfolding index_in
any-listed-index_in p i [] d = ground arith
any-listed-index_in p i (e ∷ es) d =
    any-listed-index_in p i es (push e.target e d) ∙ ground (arith, any-push p e.target i e d)

mem-set_add : (x i : Str) (s : List Str) → mem x (set_add i s) ≡ (str_eq i x || mem x s)
unfolding set_add mem
mem-set_add x i s = elim (Bool-cases (mem i s)) [
  | inl f ↦ rw f (elim (Bool-cases (str_eq i x)) [
    | inl same ↦ rw (same, ← (str_eq_iff i x).0 same, f) refl
    | inr other ↦ rw other refl
  ])
  | inr f ↦ rw f (ground (arith, str_eq_comm x i))
]

mem-add_targets :
    (ks : Option (List Str)) (x : Str) (es : List Edge) (s : List Str)
    → mem x (add_targets ks es s) ≡ (mem x s || any (λ e. in_kinds ks e && str_eq e.target x) es)
unfolding add_targets
mem-add_targets ks x [] s = ground arith
mem-add_targets ks x (e ∷ es) s = elim (Bool-cases (in_kinds ks e)) [
  | inl f ↦
      rw f (mem-add_targets ks x es (set_add e.target s) ∙ ground (arith, mem-set_add x e.target s))
  | inr f ↦ rw f (mem-add_targets ks x es s)
]

mem-add_sources :
    (ks : Option (List Str)) (x : Str) (es : List Edge) (s : List Str)
    → mem x (add_sources ks es s) ≡ (mem x s || any (λ e. in_kinds ks e && str_eq e.source x) es)
unfolding add_sources
mem-add_sources ks x [] s = ground arith
mem-add_sources ks x (e ∷ es) s = elim (Bool-cases (in_kinds ks e)) [
  | inl f ↦
      rw f (mem-add_sources ks x es (set_add e.source s) ∙ ground (arith, mem-set_add x e.source s))
  | inr f ↦ rw f (mem-add_sources ks x es s)
]

mem-sort : (x : Str) (s : List Str) → mem x (sort str_lt s) ≡ mem x s
mem-sort x s = mem-any x (sort str_lt s) ∙ (any-sort str_lt (λ y. str_eq y x) s ∙ sym (mem-any x s))

listed-nil : (i : Str) → ◌≡◌ {A = List Edge} (listed i []) []
unfolding listed get
listed-nil i = refl

-- the node is at one end of an edge of a listed kind, and the other node at the other
abbrev pub connects : Option (List Str) → Str → Str → Edge → Bool
connects kinds i x e =
    in_kinds kinds e
    && ((str_eq e.source i && str_eq e.target x) || (str_eq e.target i && str_eq e.source x))

any-connects :
    (kinds : Option (List Str)) (i x : Str) (es : List Edge)
    → (any (λ e. str_eq e.source i && (in_kinds kinds e && str_eq e.target x)) es
        || any (λ e. str_eq e.target i && (in_kinds kinds e && str_eq e.source x)) es)
      ≡ any (connects kinds i x) es
any-connects kinds i x [] = refl
any-connects kinds i x (e ∷ es) = ground (arith, any-connects kinds i x es)

module _ (nx : DiGraph NodeAttrs EdgeAttrs) where
  -- A node is among the neighbours that the store of a graph gives for another, with or without a list
  -- of kinds, exactly if an edge that the store keeps connects them, in one direction or the other, and
  -- its kind is listed.
  pub get_neighbors-build_indexes :
      (g : nx.Graph) (es : List Edge) (kinds : Option (List Str)) (i x : Str)
      → stored_edges (sort entry_lt (nx.edges g)) ≡ some es
      → Option.map (λ s. mem x (get_neighbors i kinds s)) (build_indexes nx g)
        ≡ some (any (connects kinds i x) es)
  unfolding build_indexes get_neighbors mem
  get_neighbors-build_indexes g es kinds i x h =
      rw (h, Option.map, build_indexes)
        (ap some (
          mem-sort x _
          ∙ (mem-add_sources kinds x (listed i (index_in es [])) _
              ∙ rw
                  (
                    mem-add_targets kinds x (listed i (index_out es [])) [],
                    any-listed-index_in (λ e. in_kinds kinds e && str_eq e.source x) i es [],
                    any-listed-index_out (λ e. in_kinds kinds e && str_eq e.target x) i es [],
                    listed-nil i,
                  )
                  (any-connects kinds i x es))))
