-- ===== src/Serialization.antt =====
-- serialization.py: graphs as the data that is handed out. A key that a dict may lack is a field that
-- may be `none`. A node whose attributes hold no node has no `id`, which raises: the result is `none`.
pub mod Summary
pub mod Laws
use iterative_context.Prelude.{Bool, Option, none, some, List, [], ◌∷◌, map, if◌then◌else◌, ℤ}
use iterative_context.Text.{Str, codes, str_eq, str_lt}
use iterative_context.Sort.{sort}
use iterative_context.PathIds.{node_label_for_id, file_for_node_id}
use iterative_context.Models.{Node}
use iterative_context.DiGraph.{DiGraph, EdgeEntry}
use iterative_context.Events.{NodeAttrs, EdgeAttrs}
use iterative_context.Replay.Payload.{Payload, kind_text, state_text, edge_kind_text}

pub record SerialNode : Type 0 where
  pub id : Str
  pub symbol : Str
  pub kind : Str
  pub state : Str
  pub file : Option Str
  pub tokens : Option ℤ

pub record SerialEdge : Type 0 where
  pub source : Str
  pub target : Str
  pub kind : Str

pub record GraphSnapshot : Type 0 where
  pub nodes : List SerialNode
  pub edges : List SerialEdge
  pub metadata : Payload

-- `value if isinstance(value, str) else …`
unfoldable pub text_or : Option Str → Str → Str
text_or none s = s
text_or (some v) s = v

unfoldable pub first_text : Option Str → Option Str → Option Str
first_text none b = b
first_text (some a) b = some a

-- the extras are the texts at `symbol` and `file`
unfoldable pub serialize_node : Node → Option Str → Option Str → SerialNode
serialize_node n symbol_value file_value = record {
  id = n.id;
  symbol = text_or symbol_value (node_label_for_id n.id);
  kind = kind_text n.kind;
  state = state_text n.state;
  file = first_text file_value (file_for_node_id n.id);
  tokens = n.tokens;
}

unfoldable pub serialize_nodes : List (Str × NodeAttrs) → Option (List SerialNode)
serialize_nodes [] = some []
serialize_nodes ((i, a) ∷ ns) =
    let rest = serialize_nodes ns in
    elim a.data_node [
      | none ↦ none
      | some n ↦ elim rest [
        | none ↦ none
        | some out ↦ some (serialize_node n a.symbol_text a.file_text ∷ out)
      ]
    ]

-- the kind of the embedded edge, else the text at `kind`
unfoldable pub edge_type : EdgeAttrs → Str
edge_type a = elim a.data_edge [
  | none ↦ text_or a.kind_text (codes "references")
  | some e ↦ edge_kind_text e.kind
]

unfoldable pub serialize_edge : EdgeEntry EdgeAttrs → SerialEdge
serialize_edge e = record { source = e.source; target = e.target; kind = edge_type e.attrs }

abbrev pub serial_node_lt : SerialNode → SerialNode → Bool
serial_node_lt a b = str_lt a.id b.id

abbrev pub serial_edge_lt : SerialEdge → SerialEdge → Bool
serial_edge_lt a b =
    if str_eq a.source b.source
    then (if str_eq a.target b.target then str_lt a.kind b.kind else str_lt a.target b.target)
    else str_lt a.source b.source

module _ (nx : DiGraph NodeAttrs EdgeAttrs) where
  open nx use {Graph, nodes, edges}

  unfoldable pub serialize_graph : Graph → Payload → Option GraphSnapshot
  serialize_graph g metadata = elim (serialize_nodes (nodes g)) [
    | none ↦ none
    | some ns ↦ some (record {
      nodes = sort serial_node_lt ns;
      edges = sort serial_edge_lt (map serialize_edge (edges g));
      metadata = metadata;
    })
  ]
