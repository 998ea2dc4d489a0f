-- ===== src/Reach/Popped.antt =====
-- The search of graph_session.py, which marks a node as visited when it leaves the queue. `nbrs` is
-- `none` for a node that the graph does not know, for which `networkx` raises.
pub mod Layers
pub mod Near
use iterative_context.Prelude.{
  Result, ok, err, ℕ, zero, suc, ◌+◌, ◌≡◌, refl, true, false, Option, none, some, List, [], ◌∷◌,
  ◌++◌, map, leb, length,
}
use iterative_context.Text.{Str, mem}

abbrev pub tag : ℕ → List Str → List (Str × ℕ)
tag d xs = map (λ x. (x, d)) xs

module _ (nbrs : Str → Option (List Str)) where
  -- The loop over the queue, on fuel: `none` where the fuel runs out, and the unknown node where one
  -- is asked for its neighbours.
  unfoldable pub walk : ℕ → ℕ → List Str → List (Str × ℕ) → Option (Result Str (List Str))
  walk fuel depth visited [] = some (ok visited)
  walk zero depth visited (_ ∷ _) = none
  walk (suc fuel) depth visited ((current, dist) ∷ queue) = elim (mem current visited) [
    | true ↦ walk fuel depth visited queue
    | false ↦ elim (leb depth dist) [
      | true ↦ walk fuel depth (current ∷ visited) queue
      | false ↦ elim (nbrs current) [
        | none ↦ some (err current)
        | some bs ↦ walk fuel depth (current ∷ visited) (queue ++ tag (suc dist) bs)
      ]
    ]
  ]

-- The search by layers.
module _ (all_nbrs : Str → List Str) where
  unfoldable pub sweep : List Str → List Str × List Str → List Str × List Str
  sweep [] (visited, found) = (visited, found)
  sweep (x ∷ xs) (visited, found) = elim (mem x visited) [
    | true ↦ sweep xs (visited, found)
    | false ↦ sweep xs (x ∷ visited, found ++ all_nbrs x)
  ]

  unfoldable pub layers : ℕ → List Str → List Str → List Str
  layers zero visited xs = (sweep xs (visited, [])).0
  layers (suc r) visited xs = let next = sweep xs (visited, []) in layers r next.0 next.1

  -- how many nodes leave the queue
  unfoldable pub pops : ℕ → List Str → List Str → ℕ
  pops zero visited xs = length xs
  pops (suc r) visited xs = let next = sweep xs (visited, []) in length xs + pops r next.0 next.1

  pub sweep-nil : (known : List Str × List Str) → sweep [] known ≡ known
  unfolding sweep
  sweep-nil known = refl

  pub sweep-seen :
      (x : Str) (xs v ys : List Str) → mem x v ≡ true → sweep (x ∷ xs) (v, ys) ≡ sweep xs (v, ys)
  unfolding sweep
  sweep-seen x xs v ys m = rw (m, sweep) refl

  pub sweep-new :
      (x : Str) (xs v ys : List Str)
      → mem x v ≡ false
      → sweep (x ∷ xs) (v, ys) ≡ sweep xs (x ∷ v, ys ++ all_nbrs x)
  unfolding sweep
  sweep-new x xs v ys m = rw (m, sweep) refl
