-- ===== src/Session.antt =====
-- graph_session.py: the graph of a repository with its store, its identity and its signatures. An
-- operation is a function on the state of a session. The attributes of the graph object itself,
-- which `set_graph` writes, stand with the graph.
pub mod Build
pub mod Signature
pub mod Invariant
pub mod Loading
pub mod Expand
use iterative_context.Prelude.{
  Result, ok, err, ◌>>=◌, Bool, true, false, ◌&&◌, Option, none, some, List, [], ◌∷◌, ◌++◌,
  if◌then◌else◌,
}
use iterative_context.Text.{Str, codes, str_eq, is_empty, strip}
use iterative_context.PathIds.{or_none}
use iterative_context.Dict.{get}
use iterative_context.Value.{str}
use iterative_context.Models.{Node}
use iterative_context.DiGraph.{DiGraph}
use iterative_context.Events.{NodeAttrs, EdgeAttrs}
use iterative_context.Replay.Payload.{Payload}
use iterative_context.Normalize.{RawAttrs, RawTree}
use iterative_context.Store.{Store, build_indexes, node_for_id}
use iterative_context.Session.Build.{build_graph}
use iterative_context.Session.Signature.{
  Platform, SessionError, edge_rejected, ingestion_failed, git_failed, or_raise,
  compute_source_signature, compute_graph_signature, object,
}

pub record RepoIdentity : Type 0 where
  pub repo_root : Str
  pub repo_url : Option Str
  pub commit : Option Str
  pub workspace_kind : Option Str

-- `a or b`, on optional texts: an empty text counts as none
unfoldable pub or_else : Option Str → Option Str → Option Str
or_else none b = b
or_else (some a) b = if is_empty a then b else some a

-- an entry of a dict, where it is there
unfoldable pub text_entry : Str → Option Str → Payload
text_entry k none = []
text_entry k (some v) = (k, str v) ∷ []

-- an entry that is written where its text is there and not empty
unfoldable pub entry_if : Str → Option Str → Payload
entry_if k none = []
entry_if k (some v) = if is_empty v then [] else (k, str v) ∷ []

unfoldable pub workspace_kind_or : Option Str → Str
workspace_kind_or none = codes "filesystem"
workspace_kind_or (some k) = if is_empty k then codes "filesystem" else k

unfoldable pub to_payload : RepoIdentity → Payload
to_payload i =
    (codes "workspaceKind", str (workspace_kind_or i.workspace_kind))
      ∷ entry_if (codes "repoUrl") i.repo_url
    ++ entry_if (codes "commit") i.commit

-- a root as it is passed: a text, which may be empty, or a path
pub data RootArgument : Type 0 where
  no_root : RootArgument
  text_root : Str → RootArgument
  path_root : Str → RootArgument

-- `repo_root or self.repo_root`: a path counts as true
unfoldable pub or_own_root : RootArgument → Option Str → Option Str
or_own_root no_root own = own
or_own_root (text_root r) own = if is_empty r then own else some r
or_own_root (path_root r) own = some r

-- a graph with what is written into `graph.graph`
pub record Stamped (G : Type 0) : Type 0 where
  pub graph : G
  pub source_stamp : Option Str
  pub graph_stamp : Option Str

pub record Session (G : Type 0) : Type 0 where
  pub repo_root : Option Str
  pub repo_identity : Option RepoIdentity
  pub graph : Option (Stamped G)
  pub store : Option (Store G)
  pub source_signature : Option Str
  pub graph_signature : Option Str
  pub graph_builder_id : Str
  pub normalization_version : Str
  pub session_id : Str

-- `GraphSession(session_id=…)`
abbrev pub new_session : {G : Type 0} → Str → Session G
new_session session_id = record {
  repo_root = none;
  repo_identity = none;
  graph = none;
  store = none;
  source_signature = none;
  graph_signature = none;
  graph_builder_id = codes "iterative-context.graph-builder.v1";
  normalization_version = codes "iterative-context.normalize.v1";
  session_id = session_id;
}

module _ {G : Type 0} where
  unfoldable pub reset_session : Bool → Session G → Session G
  reset_session clear_repo_root s = record s {
    repo_identity = none;
    graph = none;
    store = none;
    source_signature = none;
    graph_signature = none;
    repo_root = if clear_repo_root then none else s.repo_root;
  }

  unfoldable pub graph_identity_payload : Session G → Payload
  graph_identity_payload s =
      (
        codes "graphBuilder",
        object (
            (codes "name", str (codes "iterative-context"))
            ∷ (codes "version", str s.graph_builder_id)
            ∷ (codes "normalizationVersion", str s.normalization_version)
            ∷ []),
      )
        ∷ (codes "sessionId", str s.session_id)
        ∷ entry_if (codes "sourceSignature") s.source_signature
      ++ entry_if (codes "graphSignature") s.graph_signature

  unfoldable pub repo_metadata : Session G → Payload
  repo_metadata s =
      graph_identity_payload s
      ++ elim s.repo_identity [
        | none ↦ []
        | some i ↦ (codes "repoIdentity", object (to_payload i)) ∷ []
      ]
      ++ entry_if (codes "repo_signature") s.graph_signature

module _ (p : Platform) where
  open p use {resolve, cwd, git, ingest_repo}

  unfoldable pub normalize_repo_root : Option Str → Str
  normalize_repo_root none = cwd
  normalize_repo_root (some r) = resolve r

  unfoldable pub git_output : Str → List Str → Result SessionError (Option Str)
  git_output root args = or_raise git_failed (git root args) >>= λ ran.
      ok (elim ran [ none ↦ none | some out ↦ or_none (strip out) ])

  unfoldable pub derive_repo_identity : Str → Result SessionError RepoIdentity
  derive_repo_identity root = git_output root (codes "rev-parse" ∷ codes "HEAD" ∷ []) >>= λ commit.
      git_output root (codes "config" ∷ codes "--get" ∷ codes "remote.origin.url" ∷ [])
      >>= λ repo_url. ok (record {
        repo_root = root;
        repo_url = repo_url;
        commit = commit;
        workspace_kind = elim (or_else commit repo_url) [
          | none ↦ some (codes "filesystem")
          | some _ ↦ some (codes "git")
        ];
      })

  -- `repo_identity or _derive_repo_identity(root)`
  unfoldable pub identity_or_derived : Str → Option RepoIdentity → Result SessionError RepoIdentity
  identity_or_derived root none = derive_repo_identity root
  identity_or_derived root (some i) = ok i

  -- what a load reads beside the sources: the tree of the ingestion, then the identity
  unfoldable pub read_repository : Str → Result SessionError (RawTree × RepoIdentity)
  read_repository root = or_raise ingestion_failed (ingest_repo root) >>= λ tree.
      derive_repo_identity root >>= λ i. ok (tree, i)

  module _ (nx : DiGraph NodeAttrs EdgeAttrs) where
    open nx use {Graph}

    -- the writes of `set_graph` before it builds the store
    unfoldable pub write_graph :
        Graph → Str → Option Str → Option Str → RepoIdentity → Session Graph → Session Graph
    write_graph g root source_signature graph_signature repo_identity s =
        let source_sig = or_else source_signature s.source_signature in
        let graph_sig =
          or_else graph_signature
            (some (compute_graph_signature p nx s.graph_builder_id s.normalization_version g)) in
        record s {
          repo_root = some root;
          repo_identity = some repo_identity;
          source_signature = source_sig;
          graph_signature = graph_sig;
          graph = some (record { graph = g; source_stamp = source_sig; graph_stamp = graph_sig });
        }

    -- `self.store = GraphStore(graph)`
    abbrev pub with_store :
        Option (Store Graph) → Session Graph → Session Graph × Option SessionError
    with_store none s = (s, some edge_rejected)
    with_store (some store) s = (record s { store = some store }, none)

    -- The session as it is left, and the exception where one was raised: where the store rejects an
    -- edge, the store is the old one, and where git cannot be run, nothing is written.
    unfoldable pub set_graph :
        Graph
        → RootArgument
        → Option Str
        → Option Str
        → Option RepoIdentity
        → Session Graph
        → Session Graph × Option SessionError
    set_graph g repo_root source_signature graph_signature repo_identity s =
        let root = normalize_repo_root (or_own_root repo_root s.repo_root) in
        elim (identity_or_derived root repo_identity) [
          | err e ↦ (s, some e)
          | ok i ↦
              with_store (build_indexes nx g)
                (write_graph g root source_signature graph_signature i s)
        ]

    -- the guard of `ensure_loaded`
    unfoldable pub is_current : Str → Str → Session Graph → Bool
    is_current root source_sig s = elim s.graph [
      | none ↦ false
      | some _ ↦ elim s.store [
        | none ↦ false
        | some _ ↦ elim s.repo_identity [
          | none ↦ false
          | some i ↦
              str_eq i.repo_root root
              && elim s.source_signature [ none ↦ false | some x ↦ str_eq x source_sig ]
        ]
      ]
    ]

    -- The two sessions then share the graph object, and what `set_graph` writes into it.
    unfoldable pub copy_loaded_state_from :
        Session Graph → Session Graph → Session Graph × (Session Graph × Option SessionError)
    copy_loaded_state_from other s = elim other.graph [
      | none ↦ (other, (s, none))
      | some g ↦
          let set =
            set_graph g.graph (elim other.repo_root [ none ↦ no_root | some r ↦ path_root r ])
              other.source_signature other.graph_signature other.repo_identity s in
          (record other { graph = set.0.graph }, set)
    ]

    unfoldable pub session_node_for_id : Str → Session Graph → Option Node
    session_node_for_id i s = elim s.store [ none ↦ none | some t ↦ node_for_id nx i t ]

    -- the entries but `data`
    unfoldable pub node_extras : Str → Session Graph → Payload
    node_extras i s = elim s.graph [
      | none ↦ []
      | some g ↦ elim (get i (nx.nodes g.graph)) [
        | none ↦ []
        | some a ↦
            text_entry (codes "symbol") a.symbol_text ++ text_entry (codes "file") a.file_text
      ]
    ]

    module _ (raw : DiGraph RawAttrs Str) where
      -- the part of `ensure_loaded` behind the guard
      unfoldable pub reload : Str → Str → Session Graph → Session Graph × Option SessionError
      reload root source_sig s = elim (read_repository root) [
        | err e ↦ (s, some e)
        | ok x ↦
            let g = build_graph raw nx x.0 in
            let graph_sig =
              compute_graph_signature p nx s.graph_builder_id s.normalization_version g in
            set_graph g (path_root root) (some source_sig) (some graph_sig) (some x.1) s
      ]

      unfoldable pub ensure_loaded :
          RootArgument → Session Graph → Session Graph × Option SessionError
      ensure_loaded repo_root s =
          let root = normalize_repo_root (or_own_root repo_root s.repo_root) in
          elim (compute_source_signature p root) [
            | err e ↦ (s, some e)
            | ok source_sig ↦ elim (is_current root source_sig s) [
              | true ↦ (s, none)
              | false ↦ reload root source_sig s
            ]
          ]
