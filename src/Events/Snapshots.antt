-- ===== src/Events/Snapshots.antt =====
-- The snapshots of a replay against the events applied at once.
use iterative_context.Prelude.{
  Result-cases, Result, ok, err, ◌>>=◌, ℕ, suc, ◌+◌, ◌≡◌, refl, ap, ◌∙◌, ◌⊎◌, inl, inr, Option,
  none, some, List, [], ◌∷◌, arith, length,
}
use iterative_context.Models.{GraphEvent}
use iterative_context.DiGraph.{DiGraph}
use iterative_context.Events.{
  NodeAttrs, EdgeAttrs, GraphError, apply_event, apply_events, replay_rest, replay_with_snapshots,
}
use iterative_context.Events.Laws.{apply_events-cons_ok, apply_events-nil}

-- the last snapshot, `g` where there is none
unfoldable pub last_of {ℓ} : {A : Type ℓ} → A → List A → A
last_of g [] = g
last_of g (h ∷ hs) = last_of h hs

module _ (nx : DiGraph NodeAttrs EdgeAttrs) where
  -- how a replay and an application of `n` events end, `extra` being the snapshots that are there
  abbrev pub SameEnd :
      ℕ
      → nx.Graph
      → nx.Graph × Result GraphError (List nx.Graph)
      → nx.Graph × Option GraphError
      → Type 0
  SameEnd n h (left, replayed) (g, raised) =
      (left ≡ g)
      × (((x : GraphError) × (replayed ≡ err x) × (raised ≡ some x))
          ⊎ ((gs : List nx.Graph) × (replayed ≡ ok gs)
              × (raised ≡ none)
              × (last_of h gs ≡ g)
              × (length gs ≡ n)))

  -- one event that raises nothing
  rest-cons_ok :
      (e : GraphEvent) (es : List GraphEvent) (g g' : nx.Graph)
      → apply_event nx e g ≡ ok g'
      → replay_rest nx (e ∷ es) g
        ≡ ((replay_rest nx es g').0, (replay_rest nx es g').1 >>= λ gs. ok (g' ∷ gs))
  unfolding replay_rest
  rest-cons_ok e es g g' f =
      let one : apply_events nx (e ∷ []) g ≡ (g', none) =
        (apply_events-cons_ok nx e [] g g' f ∙ apply_events-nil nx g') in
      rw (one, replay_rest) (rw (ap (λ r. r.0) one) refl)

  -- one that raises
  rest-cons_err :
      (e : GraphEvent) (es : List GraphEvent) (g : nx.Graph) (x : GraphError)
      → apply_event nx e g ≡ err x
      → replay_rest nx (e ∷ es) g ≡ (g, err x)
  unfolding replay_rest
  rest-cons_err e es g x f =
      let one : apply_events nx (e ∷ []) g ≡ (g, some x) =
        (unfold apply_events in rw (f, apply_events) refl) in
      rw (one, replay_rest) (rw (ap (λ r. r.0) one) refl)

  rest_lem :
      (es : List GraphEvent) (g : nx.Graph)
      → SameEnd (length es) g (replay_rest nx es g) (apply_events nx es g)
  unfolding apply_events last_of
  rest_lem [] g = (unfold replay_rest in (refl, inr ([], refl, refl, refl, refl)))
  rest_lem (e ∷ es) g = elim (Result-cases (apply_event nx e g)) [
    | inr (x, f) ↦ rw (rest-cons_err e es g x f, f, apply_events) (refl, inl (x, refl, refl))
    | inl (g', f) ↦
        let (left, ends) = rest_lem es g' in
        rw (rest-cons_ok e es g g' f, apply_events-cons_ok nx e es g g' f)
          (elim ends [
            | inl (x, p, q) ↦ (left, inl (x, rw p refl, q))
            | inr (gs, p, q, last, count) ↦ (left, inr (g' ∷ gs, rw p refl, q, last, ap suc count))
          ])
  ]

  -- The replay of events leaves the graph that their application leaves, and raises what it raises. If
  -- neither raises, there is one snapshot more than events, and the last one is that graph.
  pub replay_with_snapshots-apply_events :
      (es : List GraphEvent) (g : nx.Graph)
      → ((replay_with_snapshots nx es g).0 ≡ (apply_events nx es g).0)
        × (((x : GraphError) × ((replay_with_snapshots nx es g).1 ≡ err x)
              × ((apply_events nx es g).1 ≡ some x))
            ⊎ ((gs : List nx.Graph) × ((replay_with_snapshots nx es g).1 ≡ ok gs)
                × ((apply_events nx es g).1 ≡ none)
                × (last_of g gs ≡ (apply_events nx es g).0)
                × (length gs ≡ length es + 1)))
  unfolding replay_with_snapshots last_of
  replay_with_snapshots-apply_events es g =
      let (left, ends) = rest_lem es g in
      elim ends [
        | inl (x, p, q) ↦ (left, inl (x, rw p refl, q))
        | inr (gs, p, q, last, count) ↦ (left, inr (g ∷ gs, rw p refl, q, last, omega arith))
      ]
