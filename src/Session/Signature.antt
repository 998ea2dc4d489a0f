-- ===== src/Session/Signature.antt =====
-- graph_session.py: the signatures of the sources and of a graph. What the functions ask of the
-- machine they run on is the parameter `Platform`; the bytes of a text are `utf8` of it.
use iterative_context.Prelude.{
  Result, ok, err, ◌>>=◌, ℕ, Bool, not, ◌||◌, Option, none, some, List, [], ◌∷◌, ◌++◌, map, filter,
}
use iterative_context.Text.{Str, codes, mem}
use iterative_context.Sort.{sort}
use iterative_context.Dict.{Dict}
use iterative_context.Value.{
  Value, Items, Fields, str, list, dict, nil, cons, end, field, of_option_str,
}
use iterative_context.DiGraph.{DiGraph, EdgeEntry}
use iterative_context.Events.{NodeAttrs, EdgeAttrs}
use iterative_context.Replay.Payload.{kind_text, state_text, edge_kind_text}
use iterative_context.Normalize.{RawTree}
use iterative_context.Store.{key_lt, entry_lt}
use iterative_context.Session.Build.{normalize_edge_kind}

abbrev pub Bytes : Type 0
Bytes = List ℕ

-- what a session raises: the store rejects an edge, a source cannot be read, the ingestion raises, or
-- git cannot be run
pub data SessionError : Type 0 where
  edge_rejected source_unreadable ingestion_failed git_failed : SessionError

-- what `read_bytes` returns or raises: another exception than `FileNotFoundError` is not caught
pub data Contents : Type 0 where
  bytes : Bytes → Contents
  file_not_found other_exception : Contents

-- a file that `rglob` finds: the parts of its path, its path below the root in UTF-8, `none` where it
-- cannot be encoded, and what is read from it
pub record Source : Type 0 where
  pub parts : List Str
  pub relative : Option Bytes
  pub contents : Contents

-- pathlib, hashlib, json and git, and the ingestion of a repository; `utf8` is asked for ASCII texts
pub record Platform : Type 0 where
  pub resolve : Str → Str
  -- `Path.cwd().resolve()`
  pub cwd : Str
  -- `root.rglob("*.py")`
  pub rglob : Str → List Source
  -- the order of paths
  pub path_lt : Source → Source → Bool
  pub utf8 : Str → Bytes
  pub sha256 : Bytes → Bytes
  pub hex : Bytes → Str
  -- `json.dumps(payload, sort_keys=True, separators=(",", ":"))`
  pub dumps : Value → Str
  -- `none` where git cannot be run or its output not be read, else the output where the exit code is 0
  pub git : Str → List Str → Option (Option Str)
  -- `none` where it raises, as it does for a file that resolves to a path outside the root
  pub ingest_repo : Str → Option RawTree

-- a call that may raise
unfoldable pub or_raise {ℓ} : {A : Type ℓ} → SessionError → Option A → Result SessionError A
or_raise e none = err e
or_raise e (some a) = ok a

-- a dict from its entries, and a list from its members
unfoldable pub object : Dict Value → Value
object d = dict (fields_of d)
  where
    fields_of : Dict Value → Fields
    fields_of [] = end
    fields_of ((k, v) ∷ d) = field (some k) v (fields_of d)

unfoldable pub array : List Value → Value
array vs = list (items_of vs)
  where
    items_of : List Value → Items
    items_of [] = nil
    items_of (v ∷ vs) = cons v (items_of vs)

abbrev pub is_skipped : Source → Bool
is_skipped s = mem (codes ".venv") s.parts || mem (codes "__pycache__") s.parts

-- the node of the payload of `compute_graph_signature`
unfoldable pub node_record : Str × NodeAttrs → Value
node_record (i, a) = object (
    (codes "id", str i)
    ∷ (codes "kind", str (elim a.data_node [ none ↦ codes "symbol" | some n ↦ kind_text n.kind ]))
    ∷ (codes "symbol", of_option_str a.symbol_text)
    ∷ (codes "file", of_option_str a.file_text)
    ∷ (
      codes "state",
      str (elim a.data_node [ none ↦ codes "pending" | some n ↦ state_text n.state ]),
    )
    ∷ [])

-- the kind of an edge as a text: that of the embedded edge, else `kind`
abbrev pub edge_kind_value : EdgeAttrs → Option Str
edge_kind_value a = elim a.data_edge [ none ↦ a.kind_text | some e ↦ some (edge_kind_text e.kind) ]

unfoldable pub edge_record : EdgeEntry EdgeAttrs → Value
edge_record e = object (
    (codes "source", str e.source)
    ∷ (codes "target", str e.target)
    ∷ (codes "kind", str (edge_kind_text (normalize_edge_kind (edge_kind_value e.attrs))))
    ∷ [])

module _ (p : Platform) where
  open p use {rglob, path_lt, utf8, sha256, hex, dumps}

  unfoldable pub iter_python_sources : Str → List Source
  iter_python_sources root = filter (λ s. not (is_skipped s)) (sort path_lt (rglob root))

  abbrev hashed_contents : Contents → Result SessionError Bytes
  hashed_contents (bytes c) = ok (sha256 c)
  hashed_contents file_not_found = ok []
  hashed_contents other_exception = err source_unreadable

  -- what the loop feeds to the hash
  unfoldable pub hashed_sources : List Source → Result SessionError Bytes
  hashed_sources [] = ok []
  hashed_sources (s ∷ ss) = or_raise source_unreadable s.relative >>= λ name.
      hashed_contents s.contents >>= λ digest.
      hashed_sources ss >>= λ rest. ok (name ++ digest ++ rest)

  unfoldable pub compute_source_signature : Str → Result SessionError Str
  compute_source_signature root = hashed_sources (iter_python_sources root) >>= λ hashed. ok (
      codes "sha256:"
      ++ hex (sha256 (utf8 (codes "iterative-context.source-signature.v1") ++ hashed)))

  module _ (nx : DiGraph NodeAttrs EdgeAttrs) where
    open nx use {Graph, nodes, edges}

    unfoldable pub signature_payload : Str → Str → Graph → Value
    signature_payload graph_builder_id normalization_version g = object (
        (codes "graphBuilderId", str graph_builder_id)
        ∷ (codes "normalizationVersion", str normalization_version)
        ∷ (codes "nodes", array (map node_record (sort key_lt (nodes g))))
        ∷ (codes "edges", array (map edge_record (sort entry_lt (edges g))))
        ∷ [])

    unfoldable pub compute_graph_signature : Str → Str → Graph → Str
    compute_graph_signature graph_builder_id normalization_version g =
        codes "sha256:"
        ++ hex (sha256 (utf8 (dumps (signature_payload graph_builder_id normalization_version g))))
