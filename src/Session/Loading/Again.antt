-- ===== src/Session/Loading/Again.antt =====
-- graph_session.py: when `ensure_loaded` builds the graph of a loaded session anew.
use iterative_context.Prelude.{
  Result-cases, ok_inj, ok, ◌≡◌, ◌≢◌, refl, sym, ◌∙◌, ◌⊎◌, inl, inr, Bool, true, false, Option,
  none, some, List, Bool-cases, if◌then◌else◌,
}
use iterative_context.Text.{Str, str_eq, is_empty}
use iterative_context.Text.Laws.{str_eq-cases}
use iterative_context.DiGraph.{DiGraph}
use iterative_context.Events.{NodeAttrs, EdgeAttrs}
use iterative_context.Normalize.{RawAttrs, RawTree}
use iterative_context.Session.{
  RootArgument, no_root, text_root, path_root, or_own_root, or_else, Session, reset_session,
  write_graph, is_current, reload, ensure_loaded, normalize_repo_root, read_repository,
}
use iterative_context.Session.Build.Laws.{build_indexes-build_graph}
use iterative_context.Session.Signature.{Platform, Source, SessionError, compute_source_signature}
use iterative_context.Session.Loading.{
  wanted_root, IsLoaded, signature_nonempty, IsLoaded-is_current, reload_lem, load_cases,
}

-- an exception leaves the session as it was before
abbrev pub or_before :
    {G : Type 0} → Session G → Session G × Option SessionError → Session G × Option SessionError
or_before s (s', none) = (s', none)
or_before s (s', some e) = (s, some e)

-- a machine whose files and git have changed
abbrev pub changed :
    (Str → List Source)
    → (Str → List Str → Option (Option Str))
    → (Str → Option RawTree)
    → Platform
    → Platform
changed rglob git ingest_repo p = record p { rglob = rglob; git = git; ingest_repo = ingest_repo }

module _ (nx : DiGraph NodeAttrs EdgeAttrs) (raw : DiGraph RawAttrs Str) where
  open nx use {Graph}

  own_again :
      (p : Platform) (own own' : Option Str)
      → ((x : Str) → p.resolve (p.resolve x) ≡ p.resolve x)
      → p.resolve p.cwd ≡ p.cwd
      → own' ≡ some (p.resolve (normalize_repo_root p own))
      → normalize_repo_root p own' ≡ normalize_repo_root p own
  unfolding normalize_repo_root
  own_again p none own' idem here e = rw (e, here) here
  own_again p (some x) own' idem here e = rw (e, idem x) (idem x)

  -- a session that has taken up a root wants the same one again
  wanted_again :
      (p : Platform) (r : RootArgument) (s s' : Session Graph)
      → ((x : Str) → p.resolve (p.resolve x) ≡ p.resolve x)
      → p.resolve p.cwd ≡ p.cwd
      → (s' ≡ s) ⊎ (s'.repo_root ≡ some (p.resolve (wanted_root p r s)))
      → wanted_root p r s' ≡ wanted_root p r s
  unfolding or_own_root
  wanted_again p r s s' idem here (inl e) = rw e refl
  wanted_again p no_root s s' idem here (inr e) = own_again p s.repo_root s'.repo_root idem here e
  wanted_again p (path_root x) s s' idem here (inr e) = refl
  wanted_again p (text_root x) s s' idem here (inr e) = elim (Bool-cases (is_empty x)) [
    | inl t ↦ rw t (own_again p s.repo_root s'.repo_root idem here (rw t at e))
    | inr n ↦ rw n refl
  ]

  -- what the guard lets through
  ensure_loaded_guard :
      (p : Platform) (r : RootArgument) (s : Session Graph) (sig : Str) (b : Bool)
      → compute_source_signature p (wanted_root p r s) ≡ ok sig
      → is_current p nx (wanted_root p r s) sig s ≡ b
      → ensure_loaded p nx raw r s
        ≡ (if b then (s, none) else reload p nx raw (wanted_root p r s) sig s)
  unfolding ensure_loaded
  ensure_loaded_guard p r s sig true f g = rw (f, ensure_loaded) (rw (g, ensure_loaded) refl)
  ensure_loaded_guard p r s sig false f g = rw (f, ensure_loaded) (rw (g, ensure_loaded) refl)

  -- a load from the start writes what a later one writes
  reload-reset :
      (p : Platform) (root sig : Str) (s : Session Graph)
      → is_empty sig ≡ false
      → reload p nx raw root sig s ≡ or_before s (reload p nx raw root sig (reset_session false s))
  unfolding reset_session write_graph or_else
  reload-reset p root sig s n = elim (Result-cases (read_repository p root)) [
    | inr (e, q) ↦ (unfold reload in rw (q, reload) refl)
    | inl (x, q) ↦
        let (store, f) = build_indexes-build_graph raw nx x.0 in
        rw
          (
            reload_lem nx raw p root sig s x store q f,
            reload_lem nx raw p root sig (reset_session false s) x store q f,
            n,
          )
          refl
  ]

  -- the root does not depend on what changed
  wanted-changed :
      (p : Platform) (rglob : Str → List Source) (git : Str → List Str → Option (Option Str))
      (ingest_repo : Str → Option RawTree) (own : Option Str)
      → normalize_repo_root (changed rglob git ingest_repo p) own ≡ normalize_repo_root p own
  unfolding normalize_repo_root
  wanted-changed p rglob git ingest_repo none = refl
  wanted-changed p rglob git ingest_repo (some x) = refl

  -- a loaded session is asked for its root
  loaded_guard :
      (q : Platform) (r : RootArgument) (s : Session Graph) (root sig sig' : Str)
      → wanted_root q r s ≡ root
      → IsLoaded root sig s
      → compute_source_signature q root ≡ ok sig'
      → ((sig' ≡ sig) × (ensure_loaded q nx raw r s ≡ (s, none)))
        ⊎ ((sig' ≢ sig)
            × (ensure_loaded q nx raw r s
                ≡ or_before s (ensure_loaded q nx raw r (reset_session false s))))
  unfolding reset_session is_current
  loaded_guard q r s root sig sig' w l f =
      let f' : compute_source_signature q (wanted_root q r s) ≡ ok sig' = (rw w f) in
      let current : is_current q nx (wanted_root q r s) sig' s ≡ str_eq sig sig' =
        (rw w (IsLoaded-is_current nx raw q root sig sig' s l)) in
      elim (str_eq-cases sig sig') [
        | inl (e, t) ↦ inl (sym e, ensure_loaded_guard q r s sig' true f' (current ∙ t))
        | inr (n, t) ↦ inr (
          λ e. n (sym e),
          rw
              (
                ensure_loaded_guard q r s sig' false f' (current ∙ t),
                ensure_loaded_guard q r (reset_session false s) sig' false f' refl,
              )
              (reload-reset q (wanted_root q r s) sig' s
                (signature_nonempty q (wanted_root q r s) sig' f')),
        )
      ]

  -- A session that was loaded without an exception is asked for the same root again, on a machine whose
  -- files and git may have changed, and whose sources can be read. If their signature is the same, it is
  -- left as it is, whatever the ingestion and git would now do. If it is another one, the load leaves
  -- what a load after a reset leaves, or raises the same exception and leaves the session as it is.
  -- Resolving a path twice must be resolving it once, and the working directory must be resolved.
  pub ensure_loaded_again :
      (p : Platform) (rglob : Str → List Source) (git : Str → List Str → Option (Option Str))
      (ingest_repo : Str → Option RawTree) (r : RootArgument) (s s' : Session Graph)
      (sig sig' : Str)
      → ((x : Str) → p.resolve (p.resolve x) ≡ p.resolve x)
      → p.resolve p.cwd ≡ p.cwd
      → ensure_loaded p nx raw r s ≡ (s', none)
      → compute_source_signature p (wanted_root p r s) ≡ ok sig
      → compute_source_signature (changed rglob git ingest_repo p) (wanted_root p r s) ≡ ok sig'
      → ((sig' ≡ sig) × (ensure_loaded (changed rglob git ingest_repo p) nx raw r s' ≡ (s', none)))
        ⊎ ((sig' ≢ sig)
            × (ensure_loaded (changed rglob git ingest_repo p) nx raw r s'
                ≡ or_before s' (
                    ensure_loaded
                      (changed rglob git ingest_repo p)
                      nx
                      raw
                      r
                      (reset_session false s'))))
  ensure_loaded_again p rglob git ingest_repo r s s' sig sig' idem here e f f' =
      let q = changed rglob git ingest_repo p in
      elim (load_cases nx raw p r s) [
        | inl (x, e', _) ↦ cc
        | inr (s'', e', (sig'', f'', l, root, _)) ↦
            let same_session : s'' ≡ s' = cc in
            let same_signature : sig'' ≡ sig = (ok_inj (sym f'' ∙ f)) in
            let root' : (s' ≡ s) ⊎ (s'.repo_root ≡ some (p.resolve (wanted_root p r s))) =
              (rw same_session at root) in
            let l' : IsLoaded (wanted_root p r s) sig s' =
              (rw (same_session, same_signature) at l) in
            loaded_guard q r s' (wanted_root p r s) sig sig'
              (wanted-changed p rglob git ingest_repo (or_own_root r s'.repo_root)
                ∙ wanted_again p r s s' idem here root')
              l' f'
      ]
