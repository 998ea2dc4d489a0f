-- ===== src/Server/Resolve/Laws.antt =====
-- The session of a runtime under the `resolve` tool.
use iterative_context.Prelude.{
  Result-cases, Result, ok, err, ◌≡◌, refl, ◌∙◌, ◌⊎◌, inl, inr, true, false, none, some, Bool-cases,
  Option-cases,
}
use iterative_context.Text.{Str}
use iterative_context.Value.{Fields}
use iterative_context.DiGraph.{DiGraph}
use iterative_context.Events.{NodeAttrs, EdgeAttrs}
use iterative_context.Normalize.{RawAttrs}
use iterative_context.Anchor.{AnchorDecision}
use iterative_context.Session.{
  Session, Stamped, no_root, path_root, copy_loaded_state_from, set_graph, write_graph,
}
use iterative_context.Session.Invariant.{
  IsConsistent, unloaded, loaded, set_graph_accepted, copy_loaded_state_from-IsCopy,
}
use iterative_context.Session.Loading.{ensure_loaded-IsLoaded}
use iterative_context.Session.Signature.{Platform}
use iterative_context.Server.Arguments.{take_anchor_symbol}
use iterative_context.Server.History.{QueryHistory, note_query_history}
use iterative_context.Server.Resolve.{
  Runtime, ResolveCalls, ResolveError, borrows, ensure_graph_ready, resolve_anchor_decision,
  answer_decision, resolve_symbol_tool, resolve_tool,
}

module _ {G : Type 0} where
  borrows_loaded :
      (own default : Session G) (g : Stamped G) → own.graph ≡ some g → borrows own default ≡ false
  unfolding borrows
  borrows_loaded own default g e = rw (e, borrows) refl

  borrows_empty : (own default : Session G) → default.graph ≡ none → borrows own default ≡ false
  unfolding borrows
  borrows_empty own default e = elim (Option-cases own.graph) [
    | inr (g, f) ↦ rw (f, borrows) refl
    | inl f ↦ elim (Option-cases own.repo_root) [
      | inr (x, h) ↦ rw (f, borrows) (rw (h, borrows) refl)
      | inl h ↦ rw (f, borrows) (rw (h, borrows) (rw (e, borrows) refl))
    ]
  ]

module _ {Callable : Type 0} (p : Platform) (nx : DiGraph NodeAttrs EdgeAttrs)
    (raw : DiGraph RawAttrs Str) (c : ResolveCalls Callable) where
  open nx use {Graph}

  -- a copied graph
  graph_of_copied :
      (own default : Session Graph)
      → IsConsistent nx default
      → borrows own default ≡ true
      → (g : Stamped Graph) × ((copy_loaded_state_from p nx default own).1.0.graph ≡ some g)
  unfolding copy_loaded_state_from write_graph
  graph_of_copied own _ (unloaded a b d e) h =
      let empty : Session Graph = record {
        repo_root = a;
        repo_identity = none;
        graph = none;
        store = none;
        source_signature = none;
        graph_signature = none;
        graph_builder_id = b;
        normalization_version = d;
        session_id = e;
      } in
      let n = borrows_empty own empty refl in cc
  graph_of_copied own _ (loaded g store root i source graph _ _ _ e) h =
      elim (Option-cases
        (set_graph p nx g (path_root root) source (some graph) (some i) own).0.graph) [
          | inr x ↦ x
          | inl n ↦ cc (
              rw (set_graph_accepted nx p g store (path_root root) source (some graph) i own e) at
                n)
        ]

  -- A runtime whose session is consistent, and which borrows from a consistent default session.
  abbrev pub IsSettled : Runtime Graph Callable → Type 0
  IsSettled r =
      IsConsistent nx r.graph_session
      × (IsConsistent nx r.default_session ⊎ (borrows r.graph_session r.default_session ≡ false))

  ready-IsSettled :
      (r : Runtime Graph Callable)
      → IsSettled r
      → IsSettled (ensure_graph_ready p nx raw c r).0
        × ((ensure_graph_ready p nx raw c r).0.installed_policy ≡ r.installed_policy)
  unfolding ensure_graph_ready
  ready-IsSettled r (own, other) = elim (Bool-cases (borrows r.graph_session r.default_session)) [
    | inl b ↦ elim other [
      | inr n ↦ cc
      | inl d ↦
          let (g, e) = graph_of_copied r.graph_session r.default_session d b in
          rw (b, ensure_graph_ready)
            (
              (
                (copy_loaded_state_from-IsCopy nx p r.default_session r.graph_session d own).0,
                inr (borrows_loaded _ _ g e),
              ),
              refl,
            )
    ]
    | inr n ↦ elim (ensure_loaded-IsLoaded nx raw p no_root r.graph_session own) [
      | inl (x, e, _) ↦ rw (n, ensure_graph_ready) (rw e ((own, inr n), refl))
      | inr (s', sig, e, k, _, l) ↦
          let (g, f) = l.with_graph in
          rw (n, ensure_graph_ready)
            (rw e ((k, inr (borrows_loaded s' r.default_session g f)), refl))
    ]
  ]

  -- The runtime's session stays consistent, and its policy is the same.
  abbrev pub KeepsSession : Runtime Graph Callable → Runtime Graph Callable → Type 0
  KeepsSession r r' = IsConsistent nx r'.graph_session × (r'.installed_policy ≡ r.installed_policy)

  decision-KeepsSession :
      (symbol : Str) (r : Runtime Graph Callable)
      → IsSettled r
      → KeepsSession r (resolve_anchor_decision p nx raw c symbol r).1
  unfolding resolve_anchor_decision
  decision-KeepsSession symbol r h =
      let (settled, same) = ready-IsSettled r h in
      elim (Option-cases (ensure_graph_ready p nx raw c r).1) [
        | inl e ↦ rw (e, resolve_anchor_decision) (settled.0, same)
        | inr (x, e) ↦ rw (e, resolve_anchor_decision) (settled.0, same)
      ]

  answer-KeepsSession :
      (symbol : Str) (told : QueryHistory) (d : Result ResolveError AnchorDecision)
      (r r' : Runtime Graph Callable)
      → KeepsSession r r'
      → KeepsSession r (answer_decision p nx raw c symbol told d r').1
  unfolding answer_decision
  answer-KeepsSession symbol told (err e) r r' h = h
  answer-KeepsSession symbol told (ok d) r r' h = h

  symbol-KeepsSession :
      (symbol : Str) (r : Runtime Graph Callable)
      → IsSettled r
      → KeepsSession r (resolve_symbol_tool p nx raw c symbol r).1
  unfolding resolve_symbol_tool
  symbol-KeepsSession symbol r h =
      let ready = ensure_graph_ready p nx raw c r in
      let (settled, same) = ready-IsSettled r h in
      elim (Option-cases ready.1) [
        | inr (x, e) ↦ rw (e, resolve_symbol_tool) (settled.0, same)
        | inl e ↦
            let noted = note_query_history symbol ready.0.history in
            let (kept, policy) =
              decision-KeepsSession symbol (record ready.0 { history = noted.1 }) settled in
            rw (e, resolve_symbol_tool)
              (answer-KeepsSession symbol noted.0 _ r _ (kept, policy ∙ same))
      ]

  -- Whatever the `resolve` tool answers or raises, the session of the runtime is consistent and the
  -- installed policy is the same, where both the session and the default session are consistent.
  pub resolve_tool-KeepsSession :
      (arguments : Fields) (r : Runtime Graph Callable)
      → IsConsistent nx r.graph_session
      → IsConsistent nx r.default_session
      → KeepsSession r (resolve_tool p nx raw c arguments r).1
  unfolding resolve_tool
  resolve_tool-KeepsSession arguments r own default = elim (Option-cases r.installed_policy) [
    | inl n ↦ rw (n, resolve_tool) (own, n)
    | inr (i, e) ↦ elim (Result-cases (take_anchor_symbol arguments)) [
      | inr (x, f) ↦ rw (e, resolve_tool) (rw (f, resolve_tool) (own, e))
      | inl (symbol, f) ↦
          rw (e, resolve_tool)
            (rw (f, resolve_tool)
              (let (k, q) = symbol-KeepsSession symbol r (own, inl default) in (k, q ∙ e)))
    ]
  ]
