-- ===== src/Normalize/Laws.antt =====
-- The graphs that normalisation makes: every node is filled, and every edge joins nodes.
use iterative_context.Prelude.{
  All-map, ◌≡◌, refl, ◌∙◌, inl, inr, Bool, true, false, ◌&&◌, Option, List, [], ◌∷◌, arith,
  Bool-cases, Option-cases, All, All-append,
}
use iterative_context.Text.{Str, codes, str_eq, mem}
use iterative_context.Dict.{get, has, keys}
use iterative_context.Dict.Laws.{
  has_eq-get, get_of_has, has-append, keys-append, mem-keys, put_same, has-cons_self,
}
use iterative_context.Sort.{sort}
use iterative_context.DiGraph.{DiGraph, EdgeEntry}
use iterative_context.Normalize.{
  RawAttrs, RawFunction, RawFile, RawEdge, RawTree, new_attrs, ensure_node, ensure_functions,
  ensure_all_functions, add_raw_edge, add_raw_edges, add_all_raw_edges, path_lt, raw_edge_lt,
  raw_tree_to_graph,
}
use iterative_context.Normalize.Filled.{
  FilledEntry, distinct, new_attrs-IsFilled, backfill_filled, distinct-append, IsFilled-get,
}

module _ (nx : DiGraph RawAttrs Str) where
  open nx use {
    Graph, nodes, edges, empty, add_node, set_node, add_edge, nodes_empty, edges_empty,
    nodes_add_node, edges_add_node, nodes_set_node, edges_set_node, nodes_add_edge, edges_add_edge,
  }

  -- a known kind, between two nodes of the graph
  abbrev pub known_edge : Graph → EdgeEntry Str → Bool
  known_edge g e =
      has e.source (nodes g)
      && has e.target (nodes g)
      && mem e.attrs (codes "imports" ∷ codes "calls" ∷ [])

  -- Filled nodes under distinct names, and edges of the two kinds between them.
  pub record IsNormal (g : Graph) : Type 0 where
    pub all_filled : All FilledEntry (nodes g)
    pub all_distinct : distinct (keys (nodes g)) ≡ true
    pub all_known : All (λ e. known_edge g e ≡ true) (edges g)

  -- `g'` has the nodes of `g`
  abbrev Grows : Graph → Graph → Type 0
  Grows g g' = (j : Str) → has j (nodes g) ≡ true → has j (nodes g') ≡ true

  known_edge-Grows :
      (g g' : Graph)
      → Grows g g'
      → (es : List (EdgeEntry Str)) → All (λ e. known_edge g e ≡ true) es
      → All (λ e. known_edge g' e ≡ true) es
  known_edge-Grows g g' w = All-map _ _ (λ e h. ground (arith, w e.source, w e.target))

  abbrev Ensured : Str → Graph → Graph → Type 0
  Ensured i g g' = IsNormal g' × (has i (nodes g') ≡ true) × Grows g g'

  added :
      (i t s : Str) (f : Option Str) (g : Graph)
      → has i (nodes g) ≡ false
      → IsNormal g
      → Ensured i g (add_node i (new_attrs i t s f) g)
  unfolding keys
  added i t s f g n h =
      let a = new_attrs i t s f in
      let e = nodes_add_node i a g n in
      let w : Grows g (add_node i a g) = (λ j k. rw e (has-append j (nodes g) _ ∙ rw k)) in
      (
        record {
          all_filled =
              rw e (All-append _ (nodes g) _ h.all_filled (new_attrs-IsFilled i t s f, tt));
          all_distinct =
              rw (e, keys-append (nodes g))
                (distinct-append (keys (nodes g)) i h.all_distinct (mem-keys i (nodes g) ∙ n));
          all_known =
              rw (edges_add_node i a g)
                (known_edge-Grows g (add_node i a g) w (edges g) h.all_known);
        },
        rw e (has-append i (nodes g) _ ∙ ground (arith, has-cons_self i a [])),
        w,
      )

  -- A node that is there, filled, is left as it is: `setdefault` finds every key.
  pub nodes-ensure_node :
      (i t s : Str) (f : Option Str) (g : Graph)
      → IsNormal g
      → has i (nodes g) ≡ true
      → nodes (ensure_node nx i t s f g) ≡ nodes g
  unfolding ensure_node
  nodes-ensure_node i t s f g h k =
      let (a, e) = get_of_has i (nodes g) k in
      rw (e, ensure_node)
        (rw (backfill_filled i t s f a (IsFilled-get i a (nodes g) h.all_filled e))
          (nodes_set_node i _ g k ∙ put_same i _ (nodes g) e))

  edges-ensure_node :
      (i t s : Str) (f : Option Str) (g : Graph) → edges (ensure_node nx i t s f g) ≡ edges g
  unfolding ensure_node
  edges-ensure_node i t s f g = elim (Option-cases (get i (nodes g))) [
    | inl e ↦ rw (e, ensure_node) (edges_add_node i _ g)
    | inr (a, e) ↦ rw (e, ensure_node) (edges_set_node i _ g)
  ]

  ensured :
      (i t s : Str) (f : Option Str) (g : Graph)
      → IsNormal g
      → Ensured i g (ensure_node nx i t s f g)
  unfolding ensure_node
  ensured i t s f g h = elim (Bool-cases (has i (nodes g))) [
    | inl k ↦
        let e = nodes-ensure_node i t s f g h k in
        (
          record {
            all_filled = rw e h.all_filled;
            all_distinct = rw e h.all_distinct;
            all_known =
                rw (edges-ensure_node i t s f g)
                  (known_edge-Grows g _ (λ j k'. rw e k') (edges g) h.all_known);
          },
          rw e k,
          λ j k'. rw e k',
        )
    | inr n ↦ rw ((has_eq-get i (nodes g)).0 n, ensure_node) (added i t s f g n h)
  ]

  ensure_functions-IsNormal :
      (fns : List RawFunction) (g : Graph) → IsNormal g → IsNormal (ensure_functions nx fns g)
  unfolding ensure_functions
  ensure_functions-IsNormal [] g h = h
  ensure_functions-IsNormal (fn ∷ fns) g h = ensure_functions-IsNormal fns _ (ensured _ _ _ _ g h).0

  ensure_all_functions-IsNormal :
      (fs : List RawFile) (g : Graph) → IsNormal g → IsNormal (ensure_all_functions nx fs g)
  unfolding ensure_all_functions
  ensure_all_functions-IsNormal [] g h = h
  ensure_all_functions-IsNormal (f ∷ fs) g h =
      ensure_all_functions-IsNormal fs _ (ensure_functions-IsNormal f.functions g h)

  -- an edge of a known kind, after both its ends
  joined :
      (s t kind t1 s1 t2 s2 : Str) (f1 f2 : Option Str) (g : Graph)
      → mem kind (codes "imports" ∷ codes "calls" ∷ []) ≡ true
      → IsNormal g
      → IsNormal (add_edge s t kind (ensure_node nx t t2 s2 f2 (ensure_node nx s t1 s1 f1 g)))
  joined s t kind t1 s1 t2 s2 f1 f2 g m h =
      let g1 = ensure_node nx s t1 s1 f1 g in
      let g2 = ensure_node nx t t2 s2 f2 g1 in
      let (h1, k1, w1) = ensured s t1 s1 f1 g h in
      let (h2, k2, w2) = ensured t t2 s2 f2 g1 h1 in
      let e = nodes_add_edge s t kind g2 (w2 s k1) k2 in
      record {
        all_filled = rw e h2.all_filled;
        all_distinct = rw e h2.all_distinct;
        all_known =
            edges_add_edge (λ x. known_edge (add_edge s t kind g2) x ≡ true) s t kind g2
              (rw e (ground (arith, w2 s k1)))
              (known_edge-Grows g2 _ (λ j k. rw e k) (edges g2) h2.all_known);
      }

  add_raw_edge-IsNormal :
      (p : Str) (x : RawEdge) (g : Graph) → IsNormal g → IsNormal (add_raw_edge nx p x g)
  unfolding add_raw_edge mem str_eq
  add_raw_edge-IsNormal p x g h = elim (Bool-cases (str_eq x.kind (codes "import"))) [
    | inl e ↦ rw (e, add_raw_edge) (joined x.source x.target (codes "imports") _ _ _ _ _ _ g refl h)
    | inr n ↦ elim (Bool-cases (str_eq x.kind (codes "call"))) [
      | inl e ↦
          rw (n, add_raw_edge)
            (rw (e, add_raw_edge) (joined x.source x.target (codes "calls") _ _ _ _ _ _ g refl h))
      | inr m ↦ rw (n, add_raw_edge) (rw (m, add_raw_edge) h)
    ]
  ]

  add_raw_edges-IsNormal :
      (p : Str) (es : List RawEdge) (g : Graph) → IsNormal g → IsNormal (add_raw_edges nx p es g)
  unfolding add_raw_edges
  add_raw_edges-IsNormal p [] g h = h
  add_raw_edges-IsNormal p (e ∷ es) g h =
      add_raw_edges-IsNormal p es _ (add_raw_edge-IsNormal p e g h)

  add_all_raw_edges-IsNormal :
      (fs : List RawFile) (g : Graph) → IsNormal g → IsNormal (add_all_raw_edges nx fs g)
  unfolding add_all_raw_edges
  add_all_raw_edges-IsNormal [] g h = h
  add_all_raw_edges-IsNormal (f ∷ fs) g h =
      add_all_raw_edges-IsNormal fs _ (add_raw_edges-IsNormal f.path (sort raw_edge_lt f.edges) g h)

  -- The graph made from a tree of files has distinct nodes, each with the keys `type`, `symbol` and
  -- `file`, and each of its edges joins two of its nodes and is an import or a call.
  pub raw_tree_to_graph-IsNormal : (tree : RawTree) → IsNormal (raw_tree_to_graph nx tree)
  unfolding raw_tree_to_graph keys
  raw_tree_to_graph-IsNormal tree =
      let files = sort path_lt tree.files in
      add_all_raw_edges-IsNormal files _ (
        ensure_all_functions-IsNormal files empty (record {
          all_filled = rw nodes_empty tt;
          all_distinct = rw nodes_empty refl;
          all_known = rw edges_empty tt;
        }))
