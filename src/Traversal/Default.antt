-- ===== src/Traversal/Default.antt =====
-- run_traversal of traversal.py with the expansion that it takes by default.
use iterative_context.Prelude.{
  >>=-eq-err, ok_inj, Result-cases, Result, ok, err, >>=-eq-ok, ℕ, zero, suc, ◌+◌, ◌≤◌, ◌≡◌, inl,
  inr, true, Option, none, [], ◌∷◌, arith, List-cases, length, all,
}
use iterative_context.Dict.{has}
use iterative_context.DiGraph.{DiGraph}
use iterative_context.Events.{NodeAttrs, EdgeAttrs}
use iterative_context.Scoring.{FloatOps}
use iterative_context.Replay.Recorder.{Recorder}
use iterative_context.Traversal.{
  TraversalError, Progress, ScorePolicy, default_expansion, get_frontier, traverse_step, run_from,
  run_traversal,
}
use iterative_context.Traversal.Soundness.{IsSound, frontier-all}
use iterative_context.Traversal.Growth.{IsScoreError, traverse_step-err, traverse_step-grown}

module _ (nx : DiGraph NodeAttrs EdgeAttrs) (ops : FloatOps) (policy : ScorePolicy nx ops) where
  frontier_known :
      (g : nx.Graph)
      → IsSound (nx.nodes g)
      → all (λ n. has n.id (nx.nodes g)) (get_frontier nx ops g) ≡ true
  unfolding get_frontier
  frontier_known g s = frontier-all (nx.nodes g) s

  run_from-err :
      (k step : ℕ) (s : Progress nx ops) (e : TraversalError)
      → IsSound (nx.nodes s.graph)
      → run_from nx ops (default_expansion nx ops) policy k step s ≡ err e
      → IsScoreError e
  unfolding run_from
  run_from-err zero step s e sound f = cc
  run_from-err (suc k) step s e sound f = elim (List-cases (get_frontier nx ops s.graph)) [
    | inl x ↦ cc (rw (x, run_from) at f)
    | inr (c, cs, x) ↦
        let known = rw x at (frontier_known s.graph sound) in
        elim (>>=-eq-err (traverse_step nx ops (default_expansion nx ops) policy step (c ∷ cs) s)
          (run_from nx ops (default_expansion nx ops) policy k (suc step))
          (rw (x, run_from) at f)) [
            | inl y ↦ traverse_step-err nx ops policy step c cs s e sound known y
            | inr (t, y, z) ↦
                run_from-err k (suc step) t e
                  (traverse_step-grown nx ops policy step (c ∷ cs) s t sound known y).0 z
          ]
  ]

  run_from-grown :
      (k step : ℕ) (s t : Progress nx ops)
      → IsSound (nx.nodes s.graph)
      → run_from nx ops (default_expansion nx ops) policy k step s ≡ ok t
      → IsSound (nx.nodes t.graph) × (length (nx.nodes t.graph) ≤ length (nx.nodes s.graph) + k)
  unfolding run_from
  run_from-grown zero step s t sound f = rw (← ok_inj f) (sound, omega arith)
  run_from-grown (suc k) step s t sound f = elim (List-cases (get_frontier nx ops s.graph)) [
    | inl x ↦ rw (← ok_inj (rw (x, run_from) at f)) (sound, omega arith)
    | inr (c, cs, x) ↦
        let known = rw x at (frontier_known s.graph sound) in
        let (u, first, rest) =
          >>=-eq-ok (traverse_step nx ops (default_expansion nx ops) policy step (c ∷ cs) s)
            (run_from nx ops (default_expansion nx ops) policy k (suc step))
            (rw (x, run_from) at f) in
        let (sound', one) = traverse_step-grown nx ops policy step (c ∷ cs) s u sound known first in
        let (sound'', more) = run_from-grown k (suc step) u t sound' rest in (sound'', omega arith)
  ]

  -- A traversal ends normally with a sound graph of at most the given size, or with the exception of a
  -- score.
  abbrev pub EndsWell : ℕ → Result TraversalError (Progress nx ops) → Type 0
  EndsWell size (ok t) = IsSound (nx.nodes t.graph) × (length (nx.nodes t.graph) ≤ size)
  EndsWell size (err e) = IsScoreError e

-- The traversal of a graph whose every node is stored with its data under its own identifier, with
-- the default expansion, either ends normally, with a graph that is again such a graph and holds at
-- most as many nodes more as rounds were asked for, or raises the exception of a score of the scoring
-- policy.
pub run_traversal-EndsWell :
    (nx : DiGraph NodeAttrs EdgeAttrs) (ops : FloatOps) (policy : ScorePolicy nx ops) (steps : ℕ)
    (g : nx.Graph) (observer : Option Recorder)
    → IsSound (nx.nodes g)
    → EndsWell nx ops policy
        (length (nx.nodes g) + steps)
        (run_traversal nx ops (default_expansion nx ops) policy steps g none [] observer)
unfolding run_traversal
run_traversal-EndsWell nx ops policy steps g observer s =
    elim (Result-cases
      (run_traversal nx ops (default_expansion nx ops) policy steps g none [] observer)) [
        | inl (t, f) ↦ rw f (run_from-grown nx ops policy steps 0 _ t s f)
        | inr (e, f) ↦ rw f (run_from-err nx ops policy steps 0 _ e s f)
      ]
