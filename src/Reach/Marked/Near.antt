-- ===== src/Reach/Marked/Near.antt =====
-- The search visits the nodes within the radius.
use iterative_context.Prelude.{
  ℕ, zero, suc, ◌+◌, ◌≡◌, refl, sym, ◌⊎◌, inl, inr, Bool, true, false, not, ◌&&◌, ◌||◌, some, List,
  [], ◌∷◌, arith, Bool-cases, any,
}
use iterative_context.Text.{Str, str_eq, mem}
use iterative_context.Text.Laws.{str_eq_iff, str_eq_refl}
use iterative_context.Reach.{near, any_of_mem, mem_of_any, near_self, near_next, mem_same, bool_iff}
use iterative_context.Reach.Marked.{
  search, discover, discover_all, layers, pops, mem-discover, search-layers,
}

module _ (nbrs : Str → List Str) where
  -- a neighbour of one of the nodes
  abbrev next_to : List Str → Str → Bool
  next_to xs z = any (λ x. mem z (nbrs x)) xs

  mem-discover_all :
      (z : Str) (xs v ys : List Str)
      → (mem z (discover_all nbrs xs (v, ys)).0 ≡ (mem z v || next_to xs z))
        × (mem z (discover_all nbrs xs (v, ys)).1 ≡ (mem z ys || (next_to xs z && not (mem z v))))
  unfolding discover_all
  mem-discover_all z [] v ys = ground arith
  mem-discover_all z (x ∷ xs) v ys =
      let here = mem-discover z (nbrs x) v ys in
      let rest =
        mem-discover_all z xs (discover (nbrs x) (v, ys)).0 (discover (nbrs x) (v, ys)).1 in
      ground (arith, here, rest)

  -- The neighbours of a visited node are visited, unless it waits in the layer.
  abbrev IsClosed : List Str → List Str → Type 0
  IsClosed v xs =
      (y b : Str) → mem y v ≡ true → mem y xs ≡ false → mem b (nbrs y) ≡ true → mem b v ≡ true

  discover_all-IsClosed :
      (v xs : List Str)
      → IsClosed v xs
      → IsClosed (discover_all nbrs xs (v, [])).0 (discover_all nbrs xs (v, [])).1
  unfolding mem
  discover_all-IsClosed v xs h y b seen waits m =
      let at_y = mem-discover_all y xs v [] in
      let at_b = mem-discover_all b xs v [] in
      elim (Bool-cases (mem y xs)) [
        | inl e ↦ ground (arith, at_b, any_of_mem (λ x. mem b (nbrs x)) y xs e m)
        | inr e ↦ ground (arith, at_b, at_y, h y b)
      ]

  visited_next :
      (v xs : List Str) (y b : Str)
      → IsClosed v xs
      → mem y v ≡ true
      → mem b (nbrs y) ≡ true
      → mem b (discover_all nbrs xs (v, [])).0 ≡ true
  visited_next v xs y b h seen m =
      let at_b = mem-discover_all b xs v [] in
      elim (Bool-cases (mem y xs)) [
        | inl e ↦ ground (arith, at_b, any_of_mem (λ x. mem b (nbrs x)) y xs e m)
        | inr e ↦ ground (arith, at_b, h y b)
      ]

  layers-grow :
      (r : ℕ) (v xs : List Str) (z : Str) → mem z v ≡ true → mem z (layers nbrs r v xs) ≡ true
  unfolding layers
  layers-grow zero v xs z h = h
  layers-grow (suc r) v xs z h = layers-grow r _ _ z (ground (arith, mem-discover_all z xs v []))

  layers_complete :
      (r : ℕ) (v xs : List Str) (y z : Str)
      → IsClosed v xs
      → mem y v ≡ true
      → near nbrs r y z ≡ true
      → mem z (layers nbrs r v xs) ≡ true
  unfolding layers near
  layers_complete zero v xs y z h m n = rw (← (str_eq_iff y z).0 n) m
  layers_complete (suc r) v xs y z h m n =
      let next = discover_all nbrs xs (v, []) in
      elim (Bool-cases (str_eq y z)) [
        | inl same ↦
            layers-grow r next.0 next.1 z
              (ground (arith, mem-discover_all z xs v [], mem_same y z v same))
        | inr other ↦
            let (b, at_b, close) = mem_of_any (λ b. near nbrs r b z) (nbrs y) (rw other at n) in
            layers_complete r next.0 next.1 b z (discover_all-IsClosed v xs h)
              (visited_next v xs y b h m at_b) close
      ]

  layers_sound :
      (r : ℕ) (v xs : List Str) (z : Str)
      → mem z (layers nbrs r v xs) ≡ true
      → (mem z v ≡ true) ⊎ (any (λ x. near nbrs r x z) xs ≡ true)
  unfolding layers mem
  layers_sound zero v xs z h = inl h
  layers_sound (suc r) v xs z h =
      let next = discover_all nbrs xs (v, []) in
      elim (layers_sound r next.0 next.1 z h) [
        | inl m ↦ elim (Bool-cases (mem z v)) [
          | inl old ↦ inl old
          | inr new ↦ inr (
              near_next nbrs r xs z z (ground (arith, mem-discover_all z xs v []))
                (near_self nbrs r z))
        ]
        | inr m ↦
            let (y, at_y, close) = mem_of_any (λ x. near nbrs r x z) next.1 m in
            inr (near_next nbrs r xs y z (ground (arith, mem-discover_all y xs v [], at_y)) close)
      ]

  start : (a : Str) → IsClosed (a ∷ []) (a ∷ [])
  start a y b seen waits m = cc

  at_start : (a : Str) → mem a (a ∷ []) ≡ true
  unfolding mem
  at_start a = rw (str_eq_refl a) refl

  only_start : (a z : Str) → mem z (a ∷ []) ≡ true → a ≡ z
  unfolding mem
  only_start a z h = sym ((str_eq_iff z a).0 (ground arith))

  layers-near :
      (radius : ℕ) (a z : Str) → mem z (layers nbrs radius (a ∷ []) (a ∷ [])) ≡ near nbrs radius a z
  layers-near radius a z =
      bool_iff _ _
        (λ m. elim (layers_sound radius (a ∷ []) (a ∷ []) z m) [
          | inl h ↦ rw (only_start a z h) (near_self nbrs radius z)
          | inr h ↦ ground arith
        ])
        (λ n. layers_complete radius (a ∷ []) (a ∷ []) a z (start a) (at_start a) n)

-- Given enough fuel, the search from a node ends, and visits the nodes within the radius.
pub search-near :
    (nbrs : Str → List Str) (radius : ℕ) (a : Str)
    → (enough : ℕ) × (visited : List Str) × ((fuel : ℕ)
        → search nbrs (enough + fuel) radius (a ∷ []) ((a, 0) ∷ []) ≡ some visited)
      × ((z : Str) → mem z visited ≡ near nbrs radius a z)
search-near nbrs radius a = (
  pops nbrs radius (a ∷ []) (a ∷ []),
  layers nbrs radius (a ∷ []) (a ∷ []),
  λ fuel. search-layers nbrs radius _ fuel radius 0 (a ∷ []) (a ∷ []) refl (omega arith),
  layers-near nbrs radius a,
)
