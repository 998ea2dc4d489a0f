-- ===== src/Session/Loading.antt =====
-- graph_session.py: what `ensure_loaded` raises or leaves behind.
pub mod Again
use iterative_context.Prelude.{
  Result-cases, ok_inj, >>=-eq-ok, ok, err, ◌≡◌, refl, sym, ◌⊎◌, inl, inr, true, false, Option,
  none, some, [], ◌∷◌, Bool-cases, &&-eq-true,
}
use iterative_context.Text.{Str, codes, str_eq, is_empty}
use iterative_context.Text.Laws.{str_eq_refl, str_eq_iff}
use iterative_context.DiGraph.{DiGraph}
use iterative_context.Events.{NodeAttrs, EdgeAttrs}
use iterative_context.Normalize.{RawAttrs, RawTree}
use iterative_context.Store.{Store, build_indexes}
use iterative_context.Session.{
  RepoIdentity, RootArgument, path_root, or_own_root, or_else, Session, Stamped, write_graph,
  is_current, reload, ensure_loaded, normalize_repo_root, git_output, derive_repo_identity,
  read_repository,
}
use iterative_context.Session.Build.{build_graph}
use iterative_context.Session.Build.Laws.{build_indexes-build_graph}
use iterative_context.Session.Invariant.{IsConsistent, set_graph_accepted, write_graph-IsConsistent}
use iterative_context.Session.Signature.{
  Platform, SessionError, ingestion_failed, or_raise, compute_source_signature, hashed_sources,
  iter_python_sources, compute_graph_signature,
}

-- the root that a call asks for
abbrev pub wanted_root : {G : Type 0} → Platform → RootArgument → Session G → Str
wanted_root p r s = normalize_repo_root p (or_own_root r s.repo_root)

-- a graph and a store, the identity of the root, and the signature of the sources
pub record IsLoaded {G : Type 0} (root sig : Str) (s : Session G) : Type 0 where
  pub with_graph : (g : Stamped G) × (s.graph ≡ some g)
  pub with_index : (t : Store G) × (s.store ≡ some t)
  pub with_identity : (i : RepoIdentity) × (s.repo_identity ≡ some i) × (i.repo_root ≡ root)
  pub with_signature : s.source_signature ≡ some sig

pub signature_nonempty :
    (p : Platform) (root sig : Str)
    → compute_source_signature p root ≡ ok sig
    → is_empty sig ≡ false
unfolding compute_source_signature
signature_nonempty p root sig h =
    let (hashed, _, e) = >>=-eq-ok (hashed_sources p (iter_python_sources p root)) _ h in
    rw (sym (ok_inj e)) refl

root-derive_repo_identity :
    (p : Platform) (root : Str) (i : RepoIdentity)
    → derive_repo_identity p root ≡ ok i
    → i.repo_root ≡ root
unfolding derive_repo_identity
root-derive_repo_identity p root i h =
    let (commit, _, h1) =
      >>=-eq-ok (git_output p root (codes "rev-parse" ∷ codes "HEAD" ∷ [])) _ h in
    let (url, _, h2) =
      >>=-eq-ok
        (git_output p root (codes "config" ∷ codes "--get" ∷ codes "remote.origin.url" ∷ [])) _
        h1 in
    rw (sym (ok_inj h2)) refl

root-read_repository :
    (p : Platform) (root : Str) (x : RawTree × RepoIdentity)
    → read_repository p root ≡ ok x
    → x.1.repo_root ≡ root
unfolding read_repository
root-read_repository p root x h =
    let (tree, _, h1) = >>=-eq-ok (or_raise ingestion_failed (p.ingest_repo root)) _ h in
    let (i, e, h2) = >>=-eq-ok (derive_repo_identity p root) _ h1 in
    rw (sym (ok_inj h2)) (root-derive_repo_identity p root i e)

module _ (nx : DiGraph NodeAttrs EdgeAttrs) (raw : DiGraph RawAttrs Str) where
  open nx use {Graph}

  -- the four fields that the guard reads
  abbrev with_fields :
      Session Graph
      → Option (Stamped Graph)
      → Option (Store Graph)
      → Option RepoIdentity
      → Option Str
      → Session Graph
  with_fields s g t i x = record s { graph = g; store = t; repo_identity = i; source_signature = x }

  current_fields :
      (p : Platform) (root sig : Str) (s : Session Graph) (g : Option (Stamped Graph))
      (t : Option (Store Graph)) (i : Option RepoIdentity) (x : Option Str)
      → is_current p nx root sig (with_fields s g t i x) ≡ true
      → IsLoaded root sig (with_fields s g t i x)
  unfolding is_current
  current_fields p root sig s none t i x h = cc
  current_fields p root sig s (some g) none i x h = cc
  current_fields p root sig s (some g) (some t) none x h = cc
  current_fields p root sig s (some g) (some t) (some i) none h =
      cc (&&-eq-true (str_eq i.repo_root root) false h).1
  current_fields p root sig s (some g) (some t) (some i) (some x) h =
      let (a, b) = &&-eq-true (str_eq i.repo_root root) (str_eq x sig) h in
      record {
        with_graph = (g, refl);
        with_index = (t, refl);
        with_identity = (i, refl, (str_eq_iff i.repo_root root).0 a);
        with_signature = rw ((str_eq_iff x sig).0 b) refl;
      }

  is_current-IsLoaded :
      (p : Platform) (root sig : Str) (s : Session Graph)
      → is_current p nx root sig s ≡ true
      → IsLoaded root sig s
  is_current-IsLoaded p root sig s h =
      current_fields p root sig s s.graph s.store s.repo_identity s.source_signature h

  pub IsLoaded-is_current :
      (p : Platform) (root sig sig' : Str) (s : Session Graph)
      → IsLoaded root sig s
      → is_current p nx root sig' s ≡ str_eq sig sig'
  unfolding is_current
  IsLoaded-is_current p root sig sig' s h =
      let (g, eg) = h.with_graph in
      let (t, et) = h.with_index in
      let (i, ei, er) = h.with_identity in
      rw (eg, is_current)
        (rw (et, is_current)
          (rw (ei, is_current) (rw (h.with_signature, er, str_eq_refl root) refl)))

  -- the session behind a load that got past the guard, and read the repository
  abbrev pub reloaded :
      Platform → Str → Str → RawTree × RepoIdentity → Store Graph → Session Graph → Session Graph
  reloaded p root sig x store s =
      let g = build_graph raw nx x.0 in
      record (write_graph p nx g (p.resolve root) (some sig)
        (some (compute_graph_signature p nx s.graph_builder_id s.normalization_version g)) x.1 s) {
          store = some store;
        }

  pub reload_lem :
      (p : Platform) (root sig : Str) (s : Session Graph) (x : RawTree × RepoIdentity)
      (store : Store Graph)
      → read_repository p root ≡ ok x
      → build_indexes nx (build_graph raw nx x.0) ≡ some store
      → reload p nx raw root sig s ≡ (reloaded p root sig x store s, none)
  unfolding reload or_own_root normalize_repo_root
  reload_lem p root sig s x store e f =
      rw (e, reload)
        (set_graph_accepted nx p (build_graph raw nx x.0) store (path_root root) (some sig)
          (some (
            compute_graph_signature p nx s.graph_builder_id s.normalization_version
              (build_graph raw nx x.0)))
          x.1 s f)

  -- why a load raises, or what it leaves
  abbrev pub Raises : Platform → Str → SessionError → Type 0
  Raises p root e = (compute_source_signature p root ≡ err e) ⊎ (read_repository p root ≡ err e)

  -- the state behind a load that raises nothing
  abbrev pub Loads : Platform → RootArgument → Session Graph → Session Graph → Type 0
  Loads p r s s' =
      (sig : Str) × (compute_source_signature p (wanted_root p r s) ≡ ok sig)
      × IsLoaded (wanted_root p r s) sig s'
      × ((s' ≡ s) ⊎ (s'.repo_root ≡ some (p.resolve (wanted_root p r s))))
      × (IsConsistent nx s → IsConsistent nx s')

  pub load_cases :
      (p : Platform) (r : RootArgument) (s : Session Graph)
      → ((e : SessionError) × (ensure_loaded p nx raw r s ≡ (s, some e))
          × Raises p (wanted_root p r s) e)
        ⊎ ((s' : Session Graph) × (ensure_loaded p nx raw r s ≡ (s', none)) × Loads p r s s')
  unfolding ensure_loaded write_graph or_else
  load_cases p r s = elim (Result-cases (compute_source_signature p (wanted_root p r s))) [
    | inr (e, f) ↦ inl (e, rw (f, ensure_loaded) refl, inl f)
    | inl (sig, f) ↦ elim (Bool-cases (is_current p nx (wanted_root p r s) sig s)) [
      | inl c ↦ inr (
        s,
        rw (f, ensure_loaded) (rw (c, ensure_loaded) refl),
        (sig, f, is_current-IsLoaded p (wanted_root p r s) sig s c, inl refl, λ h. h),
      )
      | inr n ↦ elim (Result-cases (read_repository p (wanted_root p r s))) [
        | inr (e, q) ↦ inl (
          e,
          rw (f, ensure_loaded) (rw (n, ensure_loaded) (unfold reload in rw (q, reload) refl)),
          inr q,
        )
        | inl (x, q) ↦
            let empty = signature_nonempty p (wanted_root p r s) sig f in
            let (store, built) = build_indexes-build_graph raw nx x.0 in
            inr (
              reloaded p (wanted_root p r s) sig x store s,
              rw (f, ensure_loaded)
                  (rw (n, ensure_loaded) (reload_lem p (wanted_root p r s) sig s x store q built)),
              (
                sig,
                f,
                record {
                  with_graph = (_, refl);
                  with_index = (_, refl);
                  with_identity = (_, refl, root-read_repository p (wanted_root p r s) x q);
                  with_signature = rw empty refl;
                },
                inr refl,
                λ h.
                    write_graph-IsConsistent nx p (build_graph raw nx x.0) store
                      (p.resolve (wanted_root p r s)) (some sig)
                      (some (
                        compute_graph_signature p nx s.graph_builder_id s.normalization_version
                          (build_graph raw nx x.0)))
                      x.1 s built,
              ),
            )
      ]
    ]
  ]

  -- A load of a consistent session either raises, and then the session is as it was, and reading the
  -- sources, the ingestion or git raised that exception; or it leaves a consistent session with a graph
  -- and a store, with the identity of the root that was asked for, and with the signature that its
  -- sources have.
  pub ensure_loaded-IsLoaded :
      (p : Platform) (r : RootArgument) (s : Session Graph)
      → IsConsistent nx s
      → ((e : SessionError) × (ensure_loaded p nx raw r s ≡ (s, some e))
          × ((compute_source_signature p (wanted_root p r s) ≡ err e)
              ⊎ (read_repository p (wanted_root p r s) ≡ err e)))
        ⊎ ((s' : Session Graph) × (sig : Str) × (ensure_loaded p nx raw r s ≡ (s', none))
            × IsConsistent nx s'
            × (compute_source_signature p (wanted_root p r s) ≡ ok sig)
            × IsLoaded (wanted_root p r s) sig s')
  ensure_loaded-IsLoaded p r s h = elim (load_cases p r s) [
    | inl raised ↦ inl raised
    | inr (s', e, (sig, f, l, _, k)) ↦ inr (s', sig, e, k h, f, l)
  ]
