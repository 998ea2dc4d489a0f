-- ===== src/Traversal/Rounds.antt =====
-- How many rounds the traversal makes.
use iterative_context.Prelude.{
  ok_inj, ok, >>=-eq-ok, ℕ, zero, suc, ◌+◌, ◌≤◌, ◌≡◌, refl, ◌⊎◌, inl, inr, Bool, true, Option, none,
  some, List, [], ◌∷◌, arith, Bool-cases, Option-cases, List-cases, &&-eq-true, length, all,
  length-append,
}
use iterative_context.Text.{Str, str_eq}
use iterative_context.Models.{Node}
use iterative_context.DiGraph.{DiGraph}
use iterative_context.Events.{NodeAttrs, EdgeAttrs, apply_events}
use iterative_context.Scoring.{FloatOps}
use iterative_context.Replay.Recorder.{Recorder}
use iterative_context.Traversal.Candidates.{Scored, find_node}
use iterative_context.Traversal.{
  Progress, ScorePolicy, ExpansionPolicy, get_frontier, rank_frontier, expand_selected, expand_best,
  traverse_step, run_from, run_traversal,
}

some_inj : {a b : Node} → ◌≡◌ {A = Option Node} (some a) (some b) → a ≡ b
some_inj h = cc

pub find_node-candidate :
    (i : Str) (ns : List Node) (n : Node)
    → find_node i ns ≡ some n
    → (p : Node → Bool) → all p ns ≡ true
    → p n ≡ true
unfolding find_node
find_node-candidate i [] n e p h = cc
find_node-candidate i (m ∷ ns) n e p h = elim (Bool-cases (str_eq m.id i)) [
  | inl f ↦ rw (← some_inj (rw f at e)) (&&-eq-true (p m) (all p ns) h).0
  | inr f ↦ find_node-candidate i ns n (rw f at e) p (&&-eq-true (p m) (all p ns) h).1
]

module _ (nx : DiGraph NodeAttrs EdgeAttrs) (ops : FloatOps) (expand : ExpansionPolicy nx ops)
    (policy : ScorePolicy nx ops) where
  -- A round that ends normally applied the policy's events to the graph, for one node of the
  -- frontier, and recorded one step and one ranking.
  pub record Advances (candidates : List Node) (s t : Progress nx ops) : Type 0 where
    pub node : Node
    pub applied : apply_events nx (expand node s.graph) s.graph ≡ (t.graph, none)
    pub steps : length t.graph_steps ≡ length s.graph_steps + 1
    pub history : length t.score_history ≡ length s.score_history + 1
    pub candidate : (p : Node → Bool) → all p candidates ≡ true → p node ≡ true

  expand_selected-Advances :
      (step : ℕ) (ranked : List Scored) (node : Node) (candidates : List Node)
      (s t : Progress nx ops)
      → ((p : Node → Bool) → all p candidates ≡ true → p node ≡ true)
      → expand_selected nx ops expand step ranked node s ≡ ok t
      → Advances candidates s t
  unfolding expand_selected
  expand_selected-Advances step ranked node candidates s t h e =
      let done = apply_events nx (expand node s.graph) s.graph in
      elim (Option-cases done.1) [
        | inl f ↦ rw (← ok_inj (rw (f, expand_selected) at e)) (record {
          node = node;
          applied = λ i. (done.0, f i);
          steps = length-append s.graph_steps _;
          history = length-append s.score_history _;
          candidate = h;
        })
        | inr (x, f) ↦ cc (rw (f, expand_selected) at e)
      ]

  expand_best-Advances :
      (step : ℕ) (candidates : List Node) (s t : Progress nx ops) (ranked : List Scored)
      → expand_best nx ops expand step candidates s ranked ≡ ok t
      → Advances candidates s t
  unfolding expand_best
  expand_best-Advances step candidates s t [] e = cc
  expand_best-Advances step candidates s t (best ∷ rest) e =
      elim (Option-cases (find_node best.node.id candidates)) [
        | inl f ↦ cc (rw (f, expand_best) at e)
        | inr (n, f) ↦
            expand_selected-Advances step (best ∷ rest) n candidates s t
              (find_node-candidate best.node.id candidates n f) (rw (f, expand_best) at e)
      ]

  pub traverse_step-Advances :
      (step : ℕ) (candidates : List Node) (s t : Progress nx ops)
      → traverse_step nx ops expand policy step candidates s ≡ ok t
      → Advances candidates s t
  unfolding traverse_step
  traverse_step-Advances step candidates s t e =
      let (ranked, _, rest) =
        >>=-eq-ok (rank_frontier nx ops policy s.graph step candidates)
          (expand_best nx ops expand step candidates s) e in
      expand_best-Advances step candidates s t ranked rest

  -- A traversal that ends normally made some number of rounds, at most the number asked for; it
  -- recorded one graph and one ranking for each; and if it made fewer, no node was left to expand.
  pub record Rounds (limit : ℕ) (s t : Progress nx ops) : Type 0 where
    pub made : ℕ
    pub within : made ≤ limit
    pub steps : length t.graph_steps ≡ length s.graph_steps + made
    pub history : length t.score_history ≡ length s.score_history + made
    pub ended : (made ≡ limit) ⊎ (get_frontier nx ops t.graph ≡ [])

  run_from-Rounds :
      (k step : ℕ) (s t : Progress nx ops)
      → run_from nx ops expand policy k step s ≡ ok t
      → Rounds k s t
  unfolding run_from
  run_from-Rounds zero step s t e = rw (← ok_inj e) (record {
    made = 0;
    within = omega arith;
    steps = omega arith;
    history = omega arith;
    ended = inl refl;
  })
  run_from-Rounds (suc k) step s t e = elim (List-cases (get_frontier nx ops s.graph)) [
    | inl f ↦ rw (← ok_inj (rw (f, run_from) at e)) (record {
      made = 0;
      within = omega arith;
      steps = omega arith;
      history = omega arith;
      ended = inr f;
    })
    | inr (c, cs, f) ↦
        let (u, first, rest) =
          >>=-eq-ok (traverse_step nx ops expand policy step (c ∷ cs) s)
            (run_from nx ops expand policy k (suc step)) (rw (f, run_from) at e) in
        let one = traverse_step-Advances step (c ∷ cs) s u first in
        let more = run_from-Rounds k (suc step) u t rest in
        record {
          made = suc more.made;
          within = omega arith;
          steps = omega arith;
          history = omega arith;
          ended = ground (arith, more.ended);
        }
  ]

-- The traversal of a graph, with no earlier steps or rankings, that ends normally: it made at most as
-- many rounds as asked for, recorded the first graph and one more for each round, and one ranking for
-- each round; and if it made fewer rounds than asked for, no pending node was left.
pub run_traversal-Rounds :
    (nx : DiGraph NodeAttrs EdgeAttrs) (ops : FloatOps) (expand : ExpansionPolicy nx ops)
    (policy : ScorePolicy nx ops) (steps : ℕ) (g : nx.Graph) (observer : Option Recorder)
    (t : Progress nx ops)
    → run_traversal nx ops expand policy steps g none [] observer ≡ ok t
    → (made : ℕ) × (made ≤ steps)
      × (length t.graph_steps ≡ made + 1)
      × (length t.score_history ≡ made)
      × ((made ≡ steps) ⊎ (get_frontier nx ops t.graph ≡ []))
unfolding run_traversal
run_traversal-Rounds nx ops expand policy steps g observer t e =
    let rounds = run_from-Rounds nx ops expand policy steps 0 _ t e in
    (rounds.made, rounds.within, omega arith, omega arith, rounds.ended)
