-- ===== src/Exploration.antt =====
-- exploration.py, scoring_eval.py: the calls on the default session, and a traversal with a given
-- scoring. The default session is the state that the functions take and return.
pub mod Laws
use iterative_context.Prelude.{
  Result, ok, err, ℕ, Bool, true, false, ◌&&◌, Option, none, some, [], ℤ,
}
use iterative_context.Text.{Str, codes, str_eq}
use iterative_context.Float.{Float}
use iterative_context.Models.{Node}
use iterative_context.DiGraph.{DiGraph}
use iterative_context.Events.{NodeAttrs, EdgeAttrs}
use iterative_context.Scoring.{FloatOps}
use iterative_context.Normalize.{RawAttrs}
use iterative_context.Replay.Payload.{Payload}
use iterative_context.Replay.Recorder.{Recorder}
use iterative_context.Store.Resolve.{resolve}
use iterative_context.Traversal.{
  TraversalError, Progress, ScorePolicy, default_expansion, run_traversal,
}
use iterative_context.Session.{Session, path_root, reset_session, set_graph, repo_metadata}
use iterative_context.Session.Build.{build_graph}
use iterative_context.Session.Signature.{
  Platform, SessionError, ingestion_failed, or_raise, compute_source_signature,
}
use iterative_context.Session.Expand.{Expanded, expand, chosen}

-- the guard of `ensure_graph_loaded`, which does not look at the store
unfoldable pub is_active : {G : Type 0} → Str → Str → Session G → Bool
is_active root signature s = elim s.graph [
  | none ↦ false
  | some _ ↦ elim s.repo_identity [
    | none ↦ false
    | some i ↦
        str_eq i.repo_root root
        && elim s.source_signature [ none ↦ false | some x ↦ str_eq x signature ]
  ]
]

unfoldable pub clear_active_graph : {G : Type 0} → Session G → Session G
clear_active_graph s = reset_session true s

unfoldable pub get_active_repo_root : {G : Type 0} → Session G → Option Str
get_active_repo_root s = elim s.repo_identity [ none ↦ none | some i ↦ some i.repo_root ]

unfoldable pub get_active_repo_metadata : {G : Type 0} → Session G → Payload
get_active_repo_metadata s = repo_metadata s

module _ (p : Platform) (nx : DiGraph NodeAttrs EdgeAttrs) where
  open nx use {Graph}

  unfoldable pub set_active_graph :
      Graph → Option Str → Option Str → Session Graph → Session Graph × Option SessionError
  set_active_graph g repo_root signature s =
      let root = elim repo_root as (λ x. Str) [ none ↦ p.cwd | some r ↦ r ] in
      set_graph p nx g (path_root root) signature none
        (some (record {
          repo_root = root;
          repo_url = none;
          commit = none;
          workspace_kind = some (codes "test");
        }))
        s

  unfoldable pub ensure_graph_loaded :
      DiGraph RawAttrs Str → Option Str → Session Graph → Session Graph × Option SessionError
  ensure_graph_loaded raw repo_root s =
      let root = elim repo_root as (λ x. Str) [ none ↦ p.cwd | some r ↦ p.resolve r ] in
      elim (compute_source_signature p root) [
        | err e ↦ (s, some e)
        | ok signature ↦ elim (is_active root signature s) [
          | true ↦ (s, none)
          | false ↦ elim (or_raise ingestion_failed (p.ingest_repo root)) [
            | err e ↦ (s, some e)
            | ok tree ↦
                set_graph p nx (build_graph raw nx tree) (path_root root) (some signature) none none
                  s
          ]
        ]
      ]

module _ (nx : DiGraph NodeAttrs EdgeAttrs) (ops : FloatOps) (lower : Str → Str)
    (ratio : Option (Str → Str → Float)) (sub : Float → Float → Float) where
  open nx use {Graph}

  unfoldable pub resolve_symbol : Str → Session Graph → Option Node
  resolve_symbol symbol s = elim s.store [
    | none ↦ none
    | some t ↦ resolve nx lower ratio sub symbol t
  ]

  unfoldable pub resolve_and_expand :
      ℕ → Str → ℤ → Option (ScorePolicy nx ops) → Option Recorder → Session Graph → Expanded nx ops
  resolve_and_expand fuel symbol depth score_fn observer s = elim (resolve_symbol symbol s) [
    | none ↦ some (ok (record { nodes = []; edges = []; metadata = [] }, observer))
    | some n ↦ expand nx ops fuel n.id depth score_fn observer s
  ]

-- a traversal of the graph that `graph_factory` returns
unfoldable pub run_with_scoring :
    (nx : DiGraph NodeAttrs EdgeAttrs) (ops : FloatOps)
    → nx.Graph
    → Option (ScorePolicy nx ops)
    → ℕ
    → Result TraversalError (Progress nx ops)
run_with_scoring nx ops g score_fn steps =
    run_traversal nx ops (default_expansion nx ops) (chosen nx ops score_fn) steps g none [] none
