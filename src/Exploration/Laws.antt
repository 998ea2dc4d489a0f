-- ===== src/Exploration/Laws.antt =====
-- The default session beside a session of one's own.
use iterative_context.Prelude.{
  Result-cases, ok, err, ◌≡◌, refl, ap, inl, inr, Option, none, some, Bool-cases,
}
use iterative_context.Text.{Str}
use iterative_context.DiGraph.{DiGraph}
use iterative_context.Events.{NodeAttrs, EdgeAttrs}
use iterative_context.Normalize.{RawAttrs}
use iterative_context.Store.{build_indexes}
use iterative_context.Session.{
  RepoIdentity, Session, path_root, or_own_root, or_else, set_graph, with_store, write_graph,
  is_current, ensure_loaded, reload, read_repository, normalize_repo_root, derive_repo_identity,
  identity_or_derived,
}
use iterative_context.Session.Build.{build_graph}
use iterative_context.Session.Invariant.{IsConsistent, unloaded, loaded}
use iterative_context.Session.Signature.{
  Platform, SessionError, ingestion_failed, or_raise, compute_source_signature,
  compute_graph_signature,
}
use iterative_context.Exploration.{is_active, ensure_graph_loaded}

module _ (p : Platform) (nx : DiGraph NodeAttrs EdgeAttrs) (raw : DiGraph RawAttrs Str) where
  open nx use {Graph}

  is_active-is_current :
      (root sig : Str) (s : Session Graph)
      → IsConsistent nx s
      → is_active root sig s ≡ is_current p nx root sig s
  unfolding is_active is_current
  is_active-is_current root sig _ (unloaded _ _ _ _) = refl
  is_active-is_current root sig _ (loaded _ _ _ _ _ _ _ _ _ _) = refl

  -- the signature that is left out is the one that `ensure_loaded` gives
  write_graph_defaults :
      (g : Graph) (root : Str) (signature : Option Str) (i : RepoIdentity) (s : Session Graph)
      → write_graph p nx g root signature none i s
        ≡ write_graph p nx g root signature
            (some (compute_graph_signature p nx s.graph_builder_id s.normalization_version g))
            i
            s
  unfolding write_graph or_else compute_graph_signature
  write_graph_defaults g root signature i s = refl

  -- so is the identity, which `set_graph` then derives
  set_graph_defaults :
      (g : Graph) (root : Str) (signature : Option Str) (i : RepoIdentity) (s : Session Graph)
      → p.resolve root ≡ root
      → derive_repo_identity p root ≡ ok i
      → set_graph p nx g (path_root root) signature none none s
        ≡ set_graph p nx g
            (path_root root)
            signature
            (some (compute_graph_signature p nx s.graph_builder_id s.normalization_version g))
            (some i)
            s
  unfolding set_graph identity_or_derived or_own_root normalize_repo_root
  set_graph_defaults g root signature i s e d =
      rw (e, set_graph)
        (rw (d, set_graph)
          (rw e (
            ap (with_store p nx (build_indexes nx g)) (write_graph_defaults g root signature i s))))

  -- where git cannot be run, nothing is written
  set_graph_raises :
      (g : Graph) (root : Str) (signature : Option Str) (e : SessionError) (s : Session Graph)
      → p.resolve root ≡ root
      → derive_repo_identity p root ≡ err e
      → set_graph p nx g (path_root root) signature none none s ≡ (s, some e)
  unfolding set_graph identity_or_derived or_own_root normalize_repo_root
  set_graph_raises g root signature e s same d = rw (same, set_graph) (rw (d, set_graph) refl)

  -- what the two calls do behind their guards
  behind_the_guards :
      (root signature : Str) (s : Session Graph)
      → p.resolve root ≡ root
      → (elim (or_raise ingestion_failed (p.ingest_repo root))
          as (λ x. Session Graph × Option SessionError) [
            | err e ↦ (s, some e)
            | ok tree ↦
                set_graph p nx
                  (build_graph raw nx tree)
                  (path_root root)
                  (some signature)
                  none
                  none
                  s
          ])
        ≡ reload p nx raw root signature s
  unfolding reload read_repository
  behind_the_guards root signature s same =
      elim (Result-cases (or_raise ingestion_failed (p.ingest_repo root))) [
        | inr (e, f) ↦ rw (f, reload) refl
        | inl (tree, f) ↦ elim (Result-cases (derive_repo_identity p root)) [
          | inr (e, d) ↦ rw (f, reload) (rw (d, reload) (set_graph_raises _ root _ e s same d))
          | inl (i, d) ↦ rw (f, reload) (rw (d, reload) (set_graph_defaults _ root _ i s same d))
        ]
      ]

  -- On a consistent session the default session is loaded as a session is that is asked for the same
  -- path, where resolving a path twice is resolving it once.
  pub ensure_graph_loaded-ensure_loaded :
      (root : Str) (s : Session Graph)
      → IsConsistent nx s
      → p.resolve (p.resolve root) ≡ p.resolve root
      → ensure_graph_loaded p nx raw (some root) s ≡ ensure_loaded p nx raw (path_root root) s
  unfolding ensure_graph_loaded ensure_loaded or_own_root normalize_repo_root
  ensure_graph_loaded-ensure_loaded root s h idem =
      elim (Result-cases (compute_source_signature p (p.resolve root))) [
        | inr (e, f) ↦ rw (f, ensure_graph_loaded, ensure_loaded) refl
        | inl (sig, f) ↦
            let same = is_active-is_current (p.resolve root) sig s h in
            elim (Bool-cases (is_current p nx (p.resolve root) sig s)) [
              | inl c ↦
                  rw (f, ensure_graph_loaded, ensure_loaded)
                    (rw (same, c, ensure_graph_loaded) refl)
              | inr n ↦
                  rw (f, ensure_graph_loaded, ensure_loaded)
                    (rw (same, n, ensure_graph_loaded)
                      (behind_the_guards (p.resolve root) sig s idem))
            ]
      ]
