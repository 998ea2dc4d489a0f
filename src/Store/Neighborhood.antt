-- ===== src/Store/Neighborhood.antt =====
-- store.py: the nodes within a radius.
use iterative_context.Prelude.{ℕ, ◌+◌, ◌≡◌, Option, none, some, List, [], ◌∷◌, ℤ, pos, negsuc}
use iterative_context.Text.{Str, mem}
use iterative_context.Reach.{near}
use iterative_context.Reach.Marked.{search}
use iterative_context.Reach.Marked.Near.{search-near}
use iterative_context.Store.{Store, get_neighbors}

module _ {G : Type 0} (s : Store G) where
  abbrev pub neighbors : Str → List Str
  neighbors i = get_neighbors i none s

  -- The loop has the fuel given.
  unfoldable pub get_neighborhood : ℕ → Str → ℤ → Option (List Str)
  get_neighborhood fuel i (negsuc _) = some []
  get_neighborhood fuel i (pos radius) = search neighbors fuel radius (i ∷ []) ((i, 0) ∷ [])

  -- The search for a neighbourhood ends: there is a number such that with that much fuel or more the
  -- nodes that it returns are exactly those that at most the radius of steps between neighbours reach.
  pub get_neighborhood-near :
      (i : Str) (radius : ℕ)
      → (enough : ℕ) × (visited : List Str) × ((fuel : ℕ)
          → get_neighborhood (enough + fuel) i (pos radius) ≡ some visited)
        × ((z : Str) → mem z visited ≡ near neighbors radius i z)
  unfolding get_neighborhood
  get_neighborhood-near i radius = search-near neighbors radius i
