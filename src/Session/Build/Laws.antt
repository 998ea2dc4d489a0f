-- ===== src/Session/Build/Laws.antt =====
-- The graphs that a session builds: their nodes carry their own identifiers, and a store accepts
-- their edges.
use iterative_context.Prelude.{
  All-map, ◌≡◌, refl, sym, ◌∙◌, subst, Bool, true, false, ◌&&◌, Option, none, some, List, [], ◌∷◌,
  ◌++◌, append-nil, append_assoc, arith, &&-eq-true, All,
}
use iterative_context.Text.{Str, mem}
use iterative_context.Text.Laws.{str_eq_iff, mem-append}
use iterative_context.Dict.Laws.{mem-keys, keys-append}
use iterative_context.Dict.{Dict, has, keys}
use iterative_context.DiGraph.{DiGraph, EdgeEntry}
use iterative_context.Sort.{sort}
use iterative_context.Events.Closed.{IsClosed}
use iterative_context.Traversal.Soundness.{IsSound}
use iterative_context.Sort.Laws.{All-sort}
use iterative_context.Models.{Edge}
use iterative_context.Events.{NodeAttrs, EdgeAttrs}
use iterative_context.Normalize.{RawAttrs, RawTree, raw_tree_to_graph}
use iterative_context.Normalize.Laws.{raw_tree_to_graph-IsNormal}
use iterative_context.Normalize.Filled.{distinct}
use iterative_context.Store.{
  Store, stored_edges, stored_edge, stored_kind, listed_kind, entry_lt, indexes, build_indexes,
}
use iterative_context.Session.Build.{built_attrs, copy_nodes, copy_edges, build_graph}

-- an embedded edge and no `kind` text, as every edge of a session's graph has
pub data EmbeddedEntry : EdgeEntry EdgeAttrs → Type 0 where
  embedded :
      (s t : Str) (e : Edge) (i : Option Str) (p : Option Bool)
      → EmbeddedEntry (record {
        source = s;
        target = t;
        attrs = record { data_edge = some e; kind_text = none; id_text = i; primary_flag = p };
      })

stored_edge_embedded :
    (e : EdgeEntry EdgeAttrs) → EmbeddedEntry e → (x : Edge) × (stored_edge e ≡ some x)
unfolding stored_edge stored_kind listed_kind
stored_edge_embedded _ (embedded s t d i p) = (_, refl)

-- A store accepts edges that are all embedded.
pub stored_edges_embedded :
    (es : List (EdgeEntry EdgeAttrs))
    → All EmbeddedEntry es
    → (xs : List Edge) × (stored_edges es ≡ some xs)
unfolding stored_edges
stored_edges_embedded [] h = ([], refl)
stored_edges_embedded (e ∷ es) (p, h) =
    let (xs, q) = stored_edges_embedded es h in
    let (x, r) = stored_edge_embedded e p in
    (x ∷ xs, rw (r, stored_edges) (rw (q, stored_edges) refl))

-- the nodes of a built graph
unfoldable pub built_nodes : Dict RawAttrs → Dict NodeAttrs
built_nodes [] = []
built_nodes ((i, a) ∷ d) = (i, built_attrs i a) ∷ built_nodes d

has-built_nodes : (i : Str) (d : Dict RawAttrs) → has i (built_nodes d) ≡ has i d
unfolding has built_nodes
has-built_nodes i [] = refl
has-built_nodes i ((j, a) ∷ d) = rw (has-built_nodes i d) refl

IsSound-built_nodes : (d : Dict RawAttrs) → IsSound (built_nodes d)
unfolding built_nodes built_attrs
IsSound-built_nodes [] = tt
IsSound-built_nodes ((i, a) ∷ d) = ((_, refl, refl), IsSound-built_nodes d)

distinct-middle :
    (xs : List Str) (y : Str) (ys : List Str) → distinct (xs ++ y ∷ ys) ≡ true → mem y xs ≡ false
unfolding mem
distinct-middle [] y ys h = refl
distinct-middle (x ∷ xs) y ys h =
    ground
      (arith, distinct-middle xs y ys, mem-append x xs (y ∷ ys), str_eq_iff x y, str_eq_iff y x)

module _ (raw : DiGraph RawAttrs Str) (nx : DiGraph NodeAttrs EdgeAttrs) where
  open nx use {
    Graph, nodes, edges, empty, add_node, add_edge, nodes_empty, edges_empty, nodes_add_node,
    edges_add_node, nodes_add_edge, edges_add_edge,
  }

  nodes-copy_nodes :
      (ns : Dict RawAttrs) (g : Graph)
      → distinct (keys (nodes g) ++ keys ns) ≡ true
      → nodes (copy_nodes raw nx ns g) ≡ nodes g ++ built_nodes ns
  unfolding copy_nodes built_nodes keys
  nodes-copy_nodes [] g h = sym (append-nil (nodes g))
  nodes-copy_nodes ((i, a) ∷ ns) g h =
      let e =
        nodes_add_node i (built_attrs i a) g
          (sym (mem-keys i (nodes g)) ∙ distinct-middle (keys (nodes g)) i (keys ns) h) in
      nodes-copy_nodes ns _ (rw (e, keys-append (nodes g), append_assoc (keys (nodes g))) h)
      ∙ rw e (append_assoc (nodes g) _ _)

  edges-copy_nodes : (ns : Dict RawAttrs) (g : Graph) → edges (copy_nodes raw nx ns g) ≡ edges g
  unfolding copy_nodes
  edges-copy_nodes [] g = refl
  edges-copy_nodes ((i, a) ∷ ns) g = edges-copy_nodes ns _ ∙ edges_add_node i _ g

  -- the two ends of an edge
  abbrev joins : Dict NodeAttrs → EdgeEntry Str → Bool
  joins d e = has e.source d && has e.target d

  -- an embedded edge between two nodes
  abbrev BuiltEntry : Dict NodeAttrs → EdgeEntry EdgeAttrs → Type 0
  BuiltEntry d e = EmbeddedEntry e × ((has e.source d && has e.target d) ≡ true)

  copy_edges_lem :
      (d : Dict NodeAttrs) (es : List (EdgeEntry Str)) (g : Graph)
      → nodes g ≡ d
      → All (λ e. joins d e ≡ true) es
      → All (BuiltEntry d) (edges g)
      → (nodes (copy_edges raw nx es g) ≡ d) × All (BuiltEntry d) (edges (copy_edges raw nx es g))
  unfolding copy_edges
  copy_edges_lem d [] g n h k = (n, k)
  copy_edges_lem d (e ∷ es) g n (p, h) k =
      let (s, t) = &&-eq-true (has e.source d) (has e.target d) p in
      copy_edges_lem d es _ (nodes_add_edge e.source e.target _ g (rw n s) (rw n t) ∙ n) h
        (edges_add_edge (BuiltEntry d) e.source e.target _ g (embedded _ _ _ _ _, p) k)

  -- its nodes, and its edges between them
  build_graph_lem :
      (tree : RawTree)
      → (nodes (build_graph raw nx tree) ≡ built_nodes (raw.nodes (raw_tree_to_graph raw tree)))
        × All
            (BuiltEntry (built_nodes (raw.nodes (raw_tree_to_graph raw tree))))
            (edges (build_graph raw nx tree))
  unfolding build_graph keys built_nodes
  build_graph_lem tree =
      let base = raw_tree_to_graph raw tree in
      let h = raw_tree_to_graph-IsNormal raw tree in
      copy_edges_lem (built_nodes (raw.nodes base)) (raw.edges base)
        (copy_nodes raw nx (raw.nodes base) empty)
        (nodes-copy_nodes (raw.nodes base) empty (rw nodes_empty h.all_distinct)
          ∙ rw nodes_empty refl)
        (All-map _ _
          (λ e k.
            rw
              (has-built_nodes e.source (raw.nodes base), has-built_nodes e.target (raw.nodes base))
              (ground arith))
          (raw.edges base) h.all_known)
        (rw (edges-copy_nodes (raw.nodes base) empty, edges_empty) tt)

  -- A store accepts every graph that a session builds.
  pub build_indexes-build_graph :
      (tree : RawTree) → (s : Store Graph) × (build_indexes nx (build_graph raw nx tree) ≡ some s)
  unfolding build_indexes
  build_indexes-build_graph tree =
      let g = build_graph raw nx tree in
      let all_embedded =
        All-map (BuiltEntry _) EmbeddedEntry (λ e h. h.0) (edges g) (build_graph_lem tree).1 in
      let (xs, q) =
        stored_edges_embedded (sort entry_lt (edges g))
          (All-sort entry_lt EmbeddedEntry (edges g) all_embedded) in
      (indexes nx g xs, rw (q, build_indexes) refl)

  pub nodes-build_graph :
      (tree : RawTree)
      → nodes (build_graph raw nx tree) ≡ built_nodes (raw.nodes (raw_tree_to_graph raw tree))
  nodes-build_graph tree = (build_graph_lem tree).0

  pub build_graph-IsSound : (tree : RawTree) → IsSound (nodes (build_graph raw nx tree))
  build_graph-IsSound tree = rw (nodes-build_graph tree) (IsSound-built_nodes _)

  pub build_graph-IsClosed : (tree : RawTree) → IsClosed nx (build_graph raw nx tree)
  build_graph-IsClosed tree =
      subst
        (λ d.
          All (λ e. (has e.source d && has e.target d) ≡ true) (edges (build_graph raw nx tree)))
        (sym (nodes-build_graph tree))
        (All-map (BuiltEntry _) _ (λ e h. h.1) _ (build_graph_lem tree).1)
