-- ===== src/DiGraph/Lists.antt =====
-- An instance of the interface to `networkx.DiGraph`: a list of nodes and a list of edges.
use iterative_context.Prelude.{
  ◌≡◌, refl, inl, inr, Bool, true, ◌&&◌, none, some, List, [], ◌∷◌, arith, if◌then◌else◌,
  Bool-cases, All,
}
use iterative_context.Text.{Str, str_eq}
use iterative_context.Text.Laws.{str_eq_iff}
use iterative_context.Dict.{Dict, get, put}
use iterative_context.Dict.Laws.{put_new}
use iterative_context.DiGraph.{DiGraph, EdgeEntry, edge_between}

pub record ListGraph (A E : Type 0) : Type 0 where
  pub node_list : Dict A
  pub edge_list : List (EdgeEntry E)

module _ {A : Type 0} where
  -- the nodes that satisfy `p`
  unfoldable pub keep_nodes : (Str → Bool) → Dict A → Dict A
  keep_nodes p [] = []
  keep_nodes p ((i, a) ∷ d) = let rest = keep_nodes p d in if p i then (i, a) ∷ rest else rest

  pub get-keep_nodes :
      (p : Str → Bool) (d : Dict A) (i : Str)
      → get i (keep_nodes p d) ≡ (if p i then get i d else none)
  unfolding keep_nodes get
  get-keep_nodes p [] i = ground arith
  get-keep_nodes p ((j, a) ∷ d) i = ground (arith, get-keep_nodes p d i, str_eq_iff j i)

  pub All-keep_nodes :
      (P : Str × A → Type 0) (p : Str → Bool) (d : Dict A) → All P d → All P (keep_nodes p d)
  unfolding keep_nodes
  All-keep_nodes P p [] h = tt
  All-keep_nodes P p ((i, a) ∷ d) (q, h) = elim (Bool-cases (p i)) [
    | inl e ↦ rw e (q, All-keep_nodes P p d h)
    | inr e ↦ rw e (All-keep_nodes P p d h)
  ]

module _ {E : Type 0} where
  unfoldable pub keep_edges : (Str → Bool) → List (EdgeEntry E) → List (EdgeEntry E)
  keep_edges p [] = []
  keep_edges p (e ∷ es) =
      let rest = keep_edges p es in if p e.source && p e.target then e ∷ rest else rest

  pub edge_between-keep_edges :
      (p : Str → Bool) (es : List (EdgeEntry E)) (u v : Str)
      → edge_between u v (keep_edges p es) ≡ (if p u && p v then edge_between u v es else none)
  unfolding keep_edges edge_between
  edge_between-keep_edges p [] u v = ground arith
  edge_between-keep_edges p (e ∷ es) u v =
      ground (arith, edge_between-keep_edges p es u v, str_eq_iff e.source u, str_eq_iff e.target v)

  pub All-keep_edges :
      (P : EdgeEntry E → Type 0) (p : Str → Bool) (es : List (EdgeEntry E))
      → All P es
      → All (λ e. P e × ((p e.source && p e.target) ≡ true)) (keep_edges p es)
  unfolding keep_edges
  All-keep_edges P p [] h = tt
  All-keep_edges P p (e ∷ es) (q, h) = elim (Bool-cases (p e.source && p e.target)) [
    | inl k ↦ rw (k, keep_edges) ((q, k), All-keep_edges P p es h)
    | inr k ↦ rw (k, keep_edges) (All-keep_edges P p es h)
  ]

  pub edge_between-cons :
      (s t : Str) (e : E) (es : List (EdgeEntry E)) (u v : Str)
      → edge_between u v (record { source = s; target = t; attrs = e } ∷ es)
        ≡ (if str_eq s u && str_eq t v then some e else edge_between u v es)
  unfolding edge_between
  edge_between-cons s t e es u v = refl

-- a new edge goes to the front, before an older one between the same nodes
abbrev pub list_graph : (A E : Type 0) → DiGraph A E
list_graph A E = record {
  Graph = ListGraph A E;
  empty = record { node_list = []; edge_list = [] };
  nodes = λ g. g.node_list;
  edges = λ g. g.edge_list;
  add_node = λ i a g. record g { node_list = put i a g.node_list };
  set_node = λ i a g. record g { node_list = put i a g.node_list };
  add_edge = λ s t e g. record g {
    edge_list = record { source = s; target = t; attrs = e } ∷ g.edge_list;
  };
  subgraph = λ p g. record g {
    node_list = keep_nodes p g.node_list;
    edge_list = keep_edges p g.edge_list;
  };
  nodes_empty = refl;
  edges_empty = refl;
  nodes_add_node = λ i a g h. put_new i a g.node_list h;
  edges_add_node = λ i a g. refl;
  nodes_set_node = λ i a g h. refl;
  edges_set_node = λ i a g. refl;
  nodes_add_edge = λ s t e g h k. refl;
  edge_add_edge = λ s t e g u v. edge_between-cons s t e g.edge_list u v;
  edges_add_edge = λ P s t e g h k. (h, k);
  node_subgraph = λ p g i. get-keep_nodes p g.node_list i;
  edge_subgraph = λ p g u v. edge_between-keep_edges p g.edge_list u v;
  nodes_subgraph = λ P p g h. All-keep_nodes P p g.node_list h;
  edges_subgraph = λ P p g h. All-keep_edges P p g.edge_list h;
}
