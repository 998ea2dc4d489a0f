-- ===== src/Traversal/Keeps.antt =====
-- What events keep, a traversal keeps.
use iterative_context.Prelude.{
  ok_inj, ok, >>=-eq-ok, ℕ, zero, suc, ◌≡◌, ap, subst, inl, inr, Option, none, List, [], ◌∷◌,
  List-cases,
}
use iterative_context.Models.{GraphEvent}
use iterative_context.DiGraph.{DiGraph}
use iterative_context.Events.{NodeAttrs, EdgeAttrs, apply_events}
use iterative_context.Scoring.{FloatOps}
use iterative_context.Replay.Recorder.{Recorder}
use iterative_context.Traversal.{
  Progress, ScorePolicy, ExpansionPolicy, get_frontier, traverse_step, run_from, run_traversal,
}
use iterative_context.Traversal.Rounds.{traverse_step-Advances}

module _ (nx : DiGraph NodeAttrs EdgeAttrs) (ops : FloatOps) (expand : ExpansionPolicy nx ops)
    (policy : ScorePolicy nx ops) (P : nx.Graph → Type 0)
    (keeps : (es : List GraphEvent) (g : nx.Graph) → P g → P (apply_events nx es g).0) where
  run_from-Keeps :
      (k step : ℕ) (s t : Progress nx ops)
      → run_from nx ops expand policy k step s ≡ ok t
      → P s.graph
      → P t.graph
  unfolding run_from
  run_from-Keeps zero step s t e h = subst (λ u. P u.graph) (ok_inj e) h
  run_from-Keeps (suc k) step s t e h = elim (List-cases (get_frontier nx ops s.graph)) [
    | inl x ↦ subst (λ u. P u.graph) (ok_inj (rw (x, run_from) at e)) h
    | inr (c, cs, x) ↦
        let (u, first, rest) =
          >>=-eq-ok (traverse_step nx ops expand policy step (c ∷ cs) s)
            (run_from nx ops expand policy k (suc step)) (rw (x, run_from) at e) in
        let one = traverse_step-Advances nx ops expand policy step (c ∷ cs) s u first in
        run_from-Keeps k (suc step) u t rest
          (subst P (ap (λ r. r.0) one.applied) (keeps (expand one.node s.graph) s.graph h))
  ]

  -- A property of graphs that events keep, whether or not one of them raises, holds after a traversal
  -- that ends normally.
  pub run_traversal-Keeps :
      (steps : ℕ) (g : nx.Graph) (observer : Option Recorder) (t : Progress nx ops)
      → run_traversal nx ops expand policy steps g none [] observer ≡ ok t
      → P g
      → P t.graph
  unfolding run_traversal
  run_traversal-Keeps steps g observer t e h = run_from-Keeps steps 0 _ t e h
