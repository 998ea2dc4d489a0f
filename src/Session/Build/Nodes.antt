-- ===== src/Session/Build/Nodes.antt =====
-- The nodes of a built graph against the nodes of the normalised graph, read independently.
use iterative_context.Prelude.{◌≡◌, ◌≢◌, refl, sym, subst, inl, inr, some, [], ◌∷◌, All}
use iterative_context.Text.{Str, codes}
use iterative_context.Text.Laws.{str_eq-cases}
use iterative_context.PathIds.{NodeKind, function, file, type, node_kind_for_id}
use iterative_context.Models.{Node, NodeState}
use iterative_context.Dict.{Dict}
use iterative_context.DiGraph.{DiGraph}
use iterative_context.Events.{NodeAttrs, EdgeAttrs}
use iterative_context.Normalize.{RawAttrs, RawTree, raw_tree_to_graph}
use iterative_context.Normalize.Filled.{IsFilled, FilledEntry, filled}
use iterative_context.Normalize.Laws.{raw_tree_to_graph-IsNormal}
use iterative_context.Session.Build.{normalize_node_kind, built_attrs, build_graph}
use iterative_context.Session.Build.Laws.{built_nodes, nodes-build_graph}

-- the kind of a node with a given `type` text: the three kinds by their names, a module as a type, and
-- else the kind that the identifier tells
pub data KindOf (node_id : Str) : Str → NodeKind → Type 0 where
  of_function : KindOf node_id (codes "function") NodeKind.function
  of_file : KindOf node_id (codes "file") NodeKind.file
  of_type : KindOf node_id (codes "type") NodeKind.type
  of_module : KindOf node_id (codes "module") NodeKind.type
  of_other :
      (t : Str)
      → t ≢ codes "function"
      → t ≢ codes "file"
      → t ≢ codes "type"
      → t ≢ codes "module"
      → KindOf node_id t (node_kind_for_id node_id)

-- the node that is built for a node of the normalised graph: pending, under the same identifier, with
-- the symbol, the file and the kind of its `symbol`, `file` and `type`, which are there
pub record IsBuilt (from : Str × RawAttrs) (built : Str × NodeAttrs) : Type 0 where
  pub same_id : built.0 ≡ from.0
  pub with_node :
      (n : Node) × (t : Str) × (built.1.data_node ≡ some n)
      × (n.id ≡ from.0)
      × (n.state ≡ NodeState.pending)
      × (from.1.type_key ≡ some t)
      × KindOf from.0 t n.kind
  pub with_symbol : (s : Str) × (from.1.symbol_key ≡ some s) × (built.1.symbol_text ≡ some s)
  pub with_file : from.1.file_key ≡ some built.1.file_text

-- two dicts of the same length, entry by entry
abbrev pub AllBuilt : Dict RawAttrs → Dict NodeAttrs → Type 0
AllBuilt [] [] = Unit
AllBuilt [] (_ ∷ _) = ⊥
AllBuilt (_ ∷ _) [] = ⊥
AllBuilt (a ∷ rest) (b ∷ built) = IsBuilt a b × AllBuilt rest built

normalize_node_kind-KindOf :
    (t node_id : Str) → KindOf node_id t (normalize_node_kind (some t) node_id)
unfolding normalize_node_kind
normalize_node_kind-KindOf t node_id = elim (str_eq-cases t (codes "function")) [
  | inl (e, b) ↦ rw b (subst (λ t. KindOf node_id t function) (sym e) of_function)
  | inr (n1, b1) ↦ elim (str_eq-cases t (codes "file")) [
    | inl (e, b) ↦ rw (b1, b) (subst (λ t. KindOf node_id t file) (sym e) of_file)
    | inr (n2, b2) ↦ elim (str_eq-cases t (codes "type")) [
      | inl (e, b) ↦ rw (b1, b2, b) (subst (λ t. KindOf node_id t type) (sym e) of_type)
      | inr (n3, b3) ↦ elim (str_eq-cases t (codes "module")) [
        | inl (e, b) ↦ rw (b1, b2, b3, b) (subst (λ t. KindOf node_id t type) (sym e) of_module)
        | inr (n4, b4) ↦ rw (b1, b2, b3, b4) (of_other t n1 n2 n3 n4)
      ]
    ]
  ]
]

built_attrs-IsBuilt : (i : Str) (a : RawAttrs) → IsFilled a → IsBuilt (i, a) (i, built_attrs i a)
unfolding built_attrs
built_attrs-IsBuilt i _ (filled t s f) = record {
  same_id = refl;
  with_node = (_, t, refl, refl, refl, refl, normalize_node_kind-KindOf t i);
  with_symbol = (s, refl, refl);
  with_file = refl;
}

built_nodes-AllBuilt : (d : Dict RawAttrs) → All FilledEntry d → AllBuilt d (built_nodes d)
unfolding built_nodes
built_nodes-AllBuilt [] h = tt
built_nodes-AllBuilt ((i, a) ∷ d) (p, h) = (built_attrs-IsBuilt i a p, built_nodes-AllBuilt d h)

-- A session builds one node for each node of the normalised graph of a repository, in its order. It is
-- pending and has the same identifier; its symbol and its file are those of the normalised node, and its
-- kind is the one that the `type` of the normalised node names, else the one that its identifier tells.
pub build_graph-AllBuilt :
    (raw : DiGraph RawAttrs Str) (nx : DiGraph NodeAttrs EdgeAttrs) (tree : RawTree)
    → AllBuilt (raw.nodes (raw_tree_to_graph raw tree)) (nx.nodes (build_graph raw nx tree))
build_graph-AllBuilt raw nx tree =
    rw (nodes-build_graph raw nx tree)
      (built_nodes-AllBuilt _ (raw_tree_to_graph-IsNormal raw tree).all_filled)
