-- ===== src/Session/Invariant.antt =====
-- The state of a session: its store is always the index of its graph.
use iterative_context.Prelude.{◌≡◌, ◌≢◌, refl, ◌⊎◌, inl, inr, Bool, Option, none, some, Bool-cases}
use iterative_context.Text.{Str, is_empty}
use iterative_context.DiGraph.{DiGraph}
use iterative_context.Events.{NodeAttrs, EdgeAttrs}
use iterative_context.Store.{Store, build_indexes}
use iterative_context.Session.{
  RepoIdentity, RootArgument, path_root, or_own_root, or_else, Session, Stamped, reset_session,
  set_graph, write_graph, copy_loaded_state_from, normalize_repo_root, identity_or_derived,
}
use iterative_context.Session.Signature.{Platform, compute_graph_signature}

-- a root that is resolved again
unfoldable pub resolved : Platform → Option Str → Option Str
resolved p none = none
resolved p (some r) = some (p.resolve r)

module _ (nx : DiGraph NodeAttrs EdgeAttrs) where
  open nx use {Graph}

  -- A session without a graph has no store, identity or signature. One with a graph has the store that
  -- is built from it, an identity and a root, and the graph carries the session's signatures.
  pub data IsConsistent : Session Graph → Type 0 where
    unloaded :
        (root : Option Str) (builder version session_id : Str)
        → IsConsistent (record {
          repo_root = root;
          repo_identity = none;
          graph = none;
          store = none;
          source_signature = none;
          graph_signature = none;
          graph_builder_id = builder;
          normalization_version = version;
          session_id = session_id;
        })
    loaded :
        (g : Graph) (store : Store Graph) (root : Str) (identity : RepoIdentity)
        (source : Option Str) (graph builder version session_id : Str)
        → build_indexes nx g ≡ some store
        → IsConsistent (record {
          repo_root = some root;
          repo_identity = some identity;
          graph = some (record { graph = g; source_stamp = source; graph_stamp = some graph });
          store = some store;
          source_signature = source;
          graph_signature = some graph;
          graph_builder_id = builder;
          normalization_version = version;
          session_id = session_id;
        })

  -- A reset forgets what was loaded.
  pub reset-IsConsistent : (clear : Bool) (s : Session Graph) → IsConsistent (reset_session clear s)
  unfolding reset_session
  reset-IsConsistent clear s = unloaded _ _ _ _

  -- the graph without what is written into it
  unfoldable pub bare : Option (Stamped Graph) → Option Graph
  bare none = none
  bare (some g) = some g.graph

  or_else-some : (a : Option Str) (b : Str) → (c : Str) × (or_else a (some b) ≡ some c)
  unfolding or_else
  or_else-some none b = (b, refl)
  or_else-some (some a) b = elim (Bool-cases (is_empty a)) [
    | inl e ↦ (b, rw e refl)
    | inr e ↦ (a, rw e refl)
  ]

  module _ (p : Platform) where
    -- A graph that the store accepts is taken up.
    pub set_graph_accepted :
        (g : Graph) (store : Store Graph) (root : RootArgument) (source graph : Option Str)
        (i : RepoIdentity) (s : Session Graph)
        → build_indexes nx g ≡ some store
        → set_graph p nx g root source graph (some i) s ≡ (
          record (write_graph p nx g
              (normalize_repo_root p (or_own_root root s.repo_root))
              source
              graph
              i
              s) { store = some store },
          none,
        )
    unfolding set_graph identity_or_derived
    set_graph_accepted g store root source graph i s e = rw (e, set_graph) refl

    pub write_graph-IsConsistent :
        (g : Graph) (store : Store Graph) (root : Str) (source graph : Option Str)
        (i : RepoIdentity) (s : Session Graph)
        → build_indexes nx g ≡ some store
        → IsConsistent (record (write_graph p nx g root source graph i s) { store = some store })
    unfolding write_graph
    write_graph-IsConsistent g store root source graph i s e =
        let (sig, e1) =
          or_else-some graph
            (compute_graph_signature p nx s.graph_builder_id s.normalization_version g) in
        rw e1 (loaded g store root i _ sig _ _ _ e)

    -- what a session has taken over from another one
    pub record IsCopy (other s : Session Graph) : Type 0 where
      pub same_graph : bare other.graph ≡ bare s.graph
      pub same_store : s.store ≡ other.store
      pub same_identity : s.repo_identity ≡ other.repo_identity
      pub same_root : s.repo_root ≡ resolved p other.repo_root

    -- Copying from a consistent session into a consistent session raises nothing and leaves it consistent.
    -- It is as it was where the other session has no graph; else it has the graph, the store and the
    -- identity of the other session, and its root, resolved.
    pub copy_loaded_state_from-IsCopy :
        (other s : Session Graph)
        → IsConsistent other
        → IsConsistent s
        → IsConsistent (copy_loaded_state_from p nx other s).1.0
          × ((copy_loaded_state_from p nx other s).1.1 ≡ none)
          × (((other.graph ≡ none) × ((copy_loaded_state_from p nx other s).1.0 ≡ s))
              ⊎ ((other.graph ≢ none) × IsCopy other (copy_loaded_state_from p nx other s).1.0))
    unfolding copy_loaded_state_from write_graph bare or_own_root normalize_repo_root resolved
    copy_loaded_state_from-IsCopy _ s (unloaded _ _ _ _) k = (k, refl, inl (refl, refl))
    copy_loaded_state_from-IsCopy _ s (loaded g store root i source graph _ _ _ e) k =
        rw (set_graph_accepted g store (path_root root) source (some graph) i s e) (
          write_graph-IsConsistent g store (p.resolve root) source (some graph) i s e,
          refl,
          inr (
            λ n. cc,
            record { same_graph = refl; same_store = refl; same_identity = refl; same_root = refl },
          ),
        )
