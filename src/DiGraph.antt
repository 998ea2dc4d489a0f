-- ===== src/DiGraph.antt =====
-- `networkx.DiGraph`, which the program calls and does not implement: its operations and what the
-- program relies on. `A` and `E` are the attribute dicts of nodes and edges.
pub mod Lists
use iterative_context.Prelude.{
  All, ◌≡◌, Bool, true, false, ◌&&◌, Option, none, some, List, [], ◌∷◌, ◌++◌, if◌then◌else◌,
}
use iterative_context.Text.{Str, str_eq}
use iterative_context.Dict.{Dict, get, has, put}

-- an entry of `graph.edges(data=True)`
pub record EdgeEntry (E : Type 0) : Type 0 where
  pub source : Str
  pub target : Str
  pub attrs : E

-- the attributes of the edge between two nodes, where there is one
unfoldable pub edge_between : {E : Type 0} → Str → Str → List (EdgeEntry E) → Option E
edge_between s t [] = none
edge_between s t (e ∷ es) =
    if str_eq e.source s && str_eq e.target t then some e.attrs else edge_between s t es

pub record DiGraph (A E : Type 0) : Type 1 where
  pub Graph : Type 0
  pub empty : Graph
  -- `graph.nodes(data=True)`, in order of insertion
  pub nodes : Graph → Dict A
  -- `graph.edges(data=True)`
  pub edges : Graph → List (EdgeEntry E)
  -- `graph.add_node(i, **a)`
  pub add_node : Str → A → Graph → Graph
  -- a write into the dict `graph.nodes[i]`
  pub set_node : Str → A → Graph → Graph
  -- `graph.add_edge(s, t, **e)`, where an edge that is there has the keys of `e` or fewer
  pub add_edge : Str → Str → E → Graph → Graph
  -- `graph.subgraph(visited).copy()`
  pub subgraph : (Str → Bool) → Graph → Graph
  pub nodes_empty : nodes empty ≡ []
  pub edges_empty : edges empty ≡ []
  pub nodes_add_node :
      (i : Str) (a : A) (g : Graph)
      → has i (nodes g) ≡ false
      → nodes (add_node i a g) ≡ nodes g ++ (i, a) ∷ []
  pub edges_add_node : (i : Str) (a : A) (g : Graph) → edges (add_node i a g) ≡ edges g
  pub nodes_set_node :
      (i : Str) (a : A) (g : Graph)
      → has i (nodes g) ≡ true
      → nodes (set_node i a g) ≡ put i a (nodes g)
  pub edges_set_node : (i : Str) (a : A) (g : Graph) → edges (set_node i a g) ≡ edges g
  pub nodes_add_edge :
      (s t : Str) (e : E) (g : Graph)
      → has s (nodes g) ≡ true
      → has t (nodes g) ≡ true
      → nodes (add_edge s t e g) ≡ nodes g
  pub edge_add_edge :
      (s t : Str) (e : E) (g : Graph) (u v : Str)
      → edge_between u v (edges (add_edge s t e g))
        ≡ (if str_eq s u && str_eq t v then some e else edge_between u v (edges g))
  -- an edge is listed once, and another edge keeps its attributes
  pub edges_add_edge :
      (P : EdgeEntry E → Type 0) (s t : Str) (e : E) (g : Graph)
      → P (record { source = s; target = t; attrs = e })
      → All P (edges g)
      → All P (edges (add_edge s t e g))
  pub node_subgraph :
      (p : Str → Bool) (g : Graph) (i : Str)
      → get i (nodes (subgraph p g)) ≡ (if p i then get i (nodes g) else none)
  pub edge_subgraph :
      (p : Str → Bool) (g : Graph) (u v : Str)
      → edge_between u v (edges (subgraph p g))
        ≡ (if p u && p v then edge_between u v (edges g) else none)
  -- a subgraph lists nodes of the graph, and its edges between the nodes that are kept
  pub nodes_subgraph :
      (P : Str × A → Type 0) (p : Str → Bool) (g : Graph)
      → All P (nodes g)
      → All P (nodes (subgraph p g))
  pub edges_subgraph :
      (P : EdgeEntry E → Type 0) (p : Str → Bool) (g : Graph)
      → All P (edges g)
      → All (λ e. P e × ((p e.source && p e.target) ≡ true)) (edges (subgraph p g))
