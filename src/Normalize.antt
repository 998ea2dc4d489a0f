-- ===== src/Normalize.antt =====
-- normalize.py and raw_tree.py: a tree of parsed files made into a graph. A node has the keys
-- `type`, `symbol` and `file`, each of which may be absent; an edge has the key `kind`.
pub mod Filled
pub mod Laws
use iterative_context.Prelude.{Bool, Option, none, some, List, [], ◌∷◌, if◌then◌else◌}
use iterative_context.Text.{Str, codes, str_eq, str_lt}
use iterative_context.Dict.{get}
use iterative_context.Sort.{sort}
use iterative_context.PathIds.{or_text, node_kind_for_id, node_label_for_id, file_for_node_id}
use iterative_context.DiGraph.{DiGraph}
use iterative_context.Replay.Payload.{kind_text}

pub record RawFunction : Type 0 where
  pub id : Str
  pub name : Str
  pub file : Str

pub record RawEdge : Type 0 where
  pub source : Str
  pub target : Str
  pub kind : Str

pub record RawFile : Type 0 where
  pub path : Str
  pub functions : List RawFunction
  pub imports : List Str
  pub edges : List RawEdge

pub record RawTree : Type 0 where
  pub files : List RawFile

-- the dict of a node: `none` where the key is absent, and `file` may hold `None`
pub record RawAttrs : Type 0 where
  pub type_key : Option Str
  pub symbol_key : Option Str
  pub file_key : Option (Option Str)

-- `d.setdefault(key, value)`, on the value at the key
unfoldable pub setdefault {ℓ} : {A : Type ℓ} → A → Option A → Option A
setdefault v none = some v
setdefault v (some w) = some w

-- `node_type if node_type != "unknown" else inferred_kind`
abbrev pub type_or_inferred : Str → Str → Str
type_or_inferred node_type node_id =
    if str_eq node_type (codes "unknown") then kind_text (node_kind_for_id node_id) else node_type

-- `file if file is not None else inferred_file`
abbrev pub or_inferred : Option Str → Option Str → Option Str
or_inferred (some f) inferred = some f
or_inferred none inferred = inferred

unfoldable pub new_attrs : Str → Str → Str → Option Str → RawAttrs
new_attrs node_id node_type symbol file = record {
  type_key = some (type_or_inferred node_type node_id);
  symbol_key = some (or_text symbol (node_label_for_id node_id));
  file_key = some (or_inferred file (file_for_node_id node_id));
}

-- the branch for a node that is there
unfoldable pub backfill : Str → Str → Str → Option Str → RawAttrs → RawAttrs
backfill node_id node_type symbol file a = record {
  type_key = setdefault (type_or_inferred node_type node_id) a.type_key;
  symbol_key = setdefault (or_text symbol (node_label_for_id node_id)) a.symbol_key;
  file_key = elim (or_inferred file (file_for_node_id node_id)) [
    | some f ↦ setdefault (some f) a.file_key
    | none ↦ a.file_key
  ];
}

abbrev pub path_lt : RawFile → RawFile → Bool
path_lt a b = str_lt a.path b.path

-- the keys `(e.kind, e.source, e.target)` compared
abbrev pub raw_edge_lt : RawEdge → RawEdge → Bool
raw_edge_lt a b =
    if str_eq a.kind b.kind
    then (if str_eq a.source b.source then str_lt a.target b.target else str_lt a.source b.source)
    else str_lt a.kind b.kind

module _ (nx : DiGraph RawAttrs Str) where
  open nx use {Graph, nodes, empty, add_node, set_node, add_edge}

  unfoldable pub ensure_node : Str → Str → Str → Option Str → Graph → Graph
  ensure_node node_id node_type symbol file g = elim (get node_id (nodes g)) [
    | none ↦ add_node node_id (new_attrs node_id node_type symbol file) g
    | some a ↦ set_node node_id (backfill node_id node_type symbol file a) g
  ]

  unfoldable pub ensure_functions : List RawFunction → Graph → Graph
  ensure_functions [] g = g
  ensure_functions (fn ∷ fns) g =
      ensure_functions fns (ensure_node fn.id (codes "function") fn.name (some fn.file) g)

  unfoldable pub ensure_all_functions : List RawFile → Graph → Graph
  ensure_all_functions [] g = g
  ensure_all_functions (f ∷ fs) g = ensure_all_functions fs (ensure_functions f.functions g)

  -- one round of the loop over the edges
  unfoldable pub add_raw_edge : Str → RawEdge → Graph → Graph
  add_raw_edge file_path e g =
      if str_eq e.kind (codes "import")
      then add_edge e.source e.target (codes "imports") (
          ensure_node e.target (codes "type") (node_label_for_id e.target) none
            (ensure_node e.source (codes "file") file_path (some file_path) g))
      else if str_eq e.kind (codes "call")
      then add_edge e.source e.target (codes "calls") (
          ensure_node e.target (codes "symbol") (node_label_for_id e.target) none (
            ensure_node e.source (codes "function") (node_label_for_id e.source) (some file_path)
              g))
      else g

  unfoldable pub add_raw_edges : Str → List RawEdge → Graph → Graph
  add_raw_edges file_path [] g = g
  add_raw_edges file_path (e ∷ es) g = add_raw_edges file_path es (add_raw_edge file_path e g)

  unfoldable pub add_all_raw_edges : List RawFile → Graph → Graph
  add_all_raw_edges [] g = g
  add_all_raw_edges (f ∷ fs) g =
      add_all_raw_edges fs (add_raw_edges f.path (sort raw_edge_lt f.edges) g)

  unfoldable pub raw_tree_to_graph : RawTree → Graph
  raw_tree_to_graph tree =
      let files = sort path_lt tree.files in
      add_all_raw_edges files (ensure_all_functions files empty)
