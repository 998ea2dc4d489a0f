-- ===== src/Traversal/Candidates.antt =====
-- traversal.py: the pending nodes, the edge that leads to one, and its dict in a decision.
use iterative_context.Prelude.{
  ℕ, suc, Bool, true, false, ◌&&◌, ◌||◌, Option, none, some, List, [], ◌∷◌, ltb, ◌==◌,
  if◌then◌else◌, pos,
}
use iterative_context.Text.{Str, codes, str_eq, str_lt}
use iterative_context.Float.{Float, float_lt, float_eq}
use iterative_context.Dict.{Dict, get}
use iterative_context.Value.{Fields, str, field, end}
use iterative_context.Models.{Node, NodeState}
use iterative_context.DiGraph.{EdgeEntry}
use iterative_context.Events.{NodeAttrs, EdgeAttrs}
use iterative_context.Replay.Payload.{FrontierCandidate, kind_text, edge_kind_text}

unfoldable pub is_pending : NodeState → Bool
is_pending NodeState.pending = true
is_pending _ = false

unfoldable pub pending_nodes : Dict NodeAttrs → List Node
pending_nodes [] = []
pending_nodes ((i, a) ∷ d) =
    let rest = pending_nodes d in
    elim a.data_node [ none ↦ rest | some n ↦ if is_pending n.state then n ∷ rest else rest ]

abbrev pub by_id : Node → Node → Bool
by_id m n = str_lt m.id n.id

-- an edge into the candidate: (source, kind, rank of the source's state)
pub record SourceEdge : Type 0 where
  pub source : Str
  pub kind : Option Str
  pub state_rank : ℕ

abbrev pub rank_of_state : Option Node → ℕ
rank_of_state none = 2
rank_of_state (some n) = elim n.state [ NodeState.resolved ↦ 0 | NodeState.anchor ↦ 1 | _ ↦ 2 ]

-- the kind of the embedded edge, or the `kind` attribute
abbrev pub kind_of_edge : EdgeAttrs → Option Str
kind_of_edge e = elim e.data_edge [ none ↦ e.kind_text | some d ↦ some (edge_kind_text d.kind) ]

abbrev pub node_of : Option NodeAttrs → Option Node
node_of none = none
node_of (some a) = a.data_node

unfoldable pub source_edges : Str → Dict NodeAttrs → List (EdgeEntry EdgeAttrs) → List SourceEdge
source_edges i nodes [] = []
source_edges i nodes (e ∷ es) =
    let rest = source_edges i nodes es in
    if str_eq e.target i
    then record {
      source = e.source;
      kind = kind_of_edge e.attrs;
      state_rank = rank_of_state (node_of (get e.source nodes));
    }
      ∷ rest
    else rest

unfoldable pub source_lt : SourceEdge → SourceEdge → Bool
source_lt a b =
    ltb a.state_rank b.state_rank || (a.state_rank == b.state_rank && str_lt a.source b.source)

-- `min(…, key=…)`: the first of the least
unfoldable pub least_source : SourceEdge → List SourceEdge → SourceEdge
least_source best [] = best
least_source best (e ∷ es) = least_source (if source_lt e best then e else best) es

abbrev pub source_fields : List SourceEdge → Option Str × Option Str
source_fields [] = (none, none)
source_fields (e ∷ es) = let best = least_source e es in (some best.source, best.kind)

-- the candidate's label, or its symbol where the label is missing or empty
abbrev pub label_or : Option Str → Option Str → Option Str
label_or (some (c ∷ s)) symbol = some (c ∷ s)
label_or label none = label
label_or label (some symbol) = some symbol

abbrev pub symbol_metadata : Option Str → Option Fields
symbol_metadata none = none
symbol_metadata (some s) = some (field (some (codes "symbol")) (str s) end)

-- every candidate of `_rank_frontier_candidates` has a score
pub record Scored : Type 0 where
  pub node : Node
  pub score : Float
  pub symbol_text : Option Str
  pub source_id : Option Str
  pub edge_kind : Option Str

-- `(score, node_id)` compared
unfoldable pub scored_lt : Scored → Scored → Bool
scored_lt a b =
    if float_eq a.score b.score then str_lt a.node.id b.node.id else float_lt a.score b.score

-- `sorted(…, reverse=True)`: the order is turned round, and equal keys keep theirs
abbrev pub scored_gt : Scored → Scored → Bool
scored_gt a b = scored_lt b a

abbrev pub candidate_of : Scored → ℕ → FrontierCandidate
candidate_of c rank = record {
  node_id = c.node.id;
  label = label_or c.node.label c.symbol_text;
  kind = some (kind_text c.node.kind);
  score = some c.score;
  rank = some (pos rank);
  edge_kind = c.edge_kind;
  source_id = c.source_id;
  metadata = symbol_metadata c.symbol_text;
}

-- `enumerate(ordered, start=rank)`
unfoldable pub number_candidates : ℕ → List Scored → List FrontierCandidate
number_candidates rank [] = []
number_candidates rank (c ∷ cs) = candidate_of c rank ∷ number_candidates (suc rank) cs

unfoldable pub find_node : Str → List Node → Option Node
find_node i [] = none
find_node i (n ∷ ns) = if str_eq n.id i then some n else find_node i ns
