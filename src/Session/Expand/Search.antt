-- ===== src/Session/Expand/Search.antt =====
-- The nodes that an expansion searches.
use iterative_context.Prelude.{
  ok, All-map, ℕ, ◌+◌, ◌≡◌, refl, Bool, true, ◌&&◌, some, List, [], ◌∷◌, arith, All,
}
use iterative_context.Text.{Str, mem}
use iterative_context.Text.Laws.{str_eq_iff, mem-append}
use iterative_context.Dict.{has}
use iterative_context.DiGraph.{DiGraph, EdgeEntry}
use iterative_context.Events.{NodeAttrs, EdgeAttrs}
use iterative_context.Events.Closed.{IsClosed, joins}
use iterative_context.Scoring.{FloatOps}
use iterative_context.Reach.{near}
use iterative_context.Reach.Popped.Near.{walk-near}
use iterative_context.Dict.Laws.{has_eq-get}
use iterative_context.Session.Expand.{successors, predecessors, beside, neighbors_of, reachable}

module _ (nx : DiGraph NodeAttrs EdgeAttrs) where
  open nx use {Graph, nodes, edges, subgraph}

  pub has-subgraph :
      (p : Str → Bool) (g : Graph) (i : Str)
      → has i (nodes (subgraph p g)) ≡ (p i && has i (nodes g))
  has-subgraph p g i =
      ground
        (arith, has_eq-get i (nodes g), has_eq-get i (nodes (subgraph p g)), nx.node_subgraph p g i)

  pub subgraph-IsClosed : (p : Str → Bool) (g : Graph) → IsClosed nx g → IsClosed nx (subgraph p g)
  subgraph-IsClosed p g h =
      All-map _ _
        (λ e (k, l). rw (has-subgraph p g e.source, has-subgraph p g e.target) (ground arith))
        (edges (subgraph p g)) (nx.edges_subgraph (λ e. joins nx g e ≡ true) p g h)

module _ (nx : DiGraph NodeAttrs EdgeAttrs) (ops : FloatOps) where
  open nx use {Graph, nodes, edges}

  knows :
      (g : Graph) (x : Str)
      → has x (nodes g) ≡ true
      → neighbors_of nx ops g x ≡ some (beside nx ops g x)
  unfolding neighbors_of
  knows g x h = rw (h, neighbors_of) refl

  mem-successors :
      (g : Graph) (x b : Str) (es : List (EdgeEntry EdgeAttrs))
      → All (λ e. joins nx g e ≡ true) es
      → mem b (successors x es) ≡ true
      → has b (nodes g) ≡ true
  unfolding successors mem
  mem-successors g x b [] h m = cc
  mem-successors g x b (e ∷ es) (p, h) m =
      ground (arith, mem-successors g x b es h, str_eq_iff e.target b, str_eq_iff b e.target)

  mem-predecessors :
      (g : Graph) (x b : Str) (es : List (EdgeEntry EdgeAttrs))
      → All (λ e. joins nx g e ≡ true) es
      → mem b (predecessors x es) ≡ true
      → has b (nodes g) ≡ true
  unfolding predecessors mem
  mem-predecessors g x b [] h m = cc
  mem-predecessors g x b (e ∷ es) (p, h) m =
      ground (arith, mem-predecessors g x b es h, str_eq_iff e.source b, str_eq_iff b e.source)

  stays :
      (g : Graph)
      → IsClosed nx g
      → (x b : Str) → has x (nodes g) ≡ true
      → mem b (beside nx ops g x) ≡ true
      → has b (nodes g) ≡ true
  unfolding beside
  stays g h x b k m = ground (
    arith,
    mem-append b (successors x (edges g)) (predecessors x (edges g)),
    mem-successors g x b (edges g) h,
    mem-predecessors g x b (edges g) h,
  )

  -- Given enough fuel, the search visits the nodes within the depth, where every edge joins nodes.
  pub reachable-near :
      (depth : ℕ) (i : Str) (g : Graph)
      → IsClosed nx g
      → has i (nodes g) ≡ true
      → (enough : ℕ) × (visited : List Str) × ((fuel : ℕ)
          → reachable nx ops (enough + fuel) depth i g ≡ some (ok visited))
        × ((z : Str) → mem z visited ≡ near (beside nx ops g) depth i z)
  reachable-near depth i g c h =
      walk-near (neighbors_of nx ops g) (beside nx ops g) (λ x. has x (nodes g)) (knows g)
        (stays g c) depth i h
