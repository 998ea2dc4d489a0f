-- ===== src/Reach/Popped/Layers.antt =====
-- The layers of the search: the nodes that it visits.
use iterative_context.Prelude.{
  ℕ, zero, suc, ◌≡◌, refl, ◌∙◌, ◌⊎◌, inl, inr, true, false, ◌||◌, List, [], ◌∷◌, ◌++◌, arith,
  Bool-cases, any,
}
use iterative_context.Text.{Str, str_eq, mem}
use iterative_context.Text.Laws.{str_eq_iff, str_eq_refl, mem-append}
use iterative_context.Reach.{near, any_of_mem, mem_of_any, near_self, near_next, mem_same, bool_iff}
use iterative_context.Reach.Popped.{sweep, layers, sweep-nil, sweep-seen, sweep-new}

module _ (all_nbrs : Str → List Str) where
  mem-sweep :
      (z : Str) (xs v ys : List Str) → mem z (sweep all_nbrs xs (v, ys)).0 ≡ (mem z v || mem z xs)
  unfolding mem
  mem-sweep z [] v ys = rw (sweep-nil all_nbrs (v, ys)) (ground arith)
  mem-sweep z (x ∷ xs) v ys = elim (Bool-cases (mem x v)) [
    | inl m ↦
        rw (sweep-seen all_nbrs x xs v ys m) (ground (arith, mem-sweep z xs v ys, mem_same z x v))
    | inr m ↦
        rw (sweep-new all_nbrs x xs v ys m)
          (ground (arith, mem-sweep z xs (x ∷ v) (ys ++ all_nbrs x)))
  ]

  -- what is found is a neighbour of a node of the layer
  found_sound :
      (z : Str) (xs v ys : List Str)
      → mem z (sweep all_nbrs xs (v, ys)).1 ≡ true
      → (mem z ys ≡ true) ⊎ (any (λ x. mem z (all_nbrs x)) xs ≡ true)
  found_sound z [] v ys h = inl (rw (sweep-nil all_nbrs (v, ys)) at h)
  found_sound z (x ∷ xs) v ys h = elim (Bool-cases (mem x v)) [
    | inl m ↦ ground (arith, found_sound z xs v ys (rw (sweep-seen all_nbrs x xs v ys m) at h))
    | inr m ↦ ground (
      arith,
      found_sound z xs (x ∷ v) (ys ++ all_nbrs x) (rw (sweep-new all_nbrs x xs v ys m) at h),
      mem-append z ys (all_nbrs x),
    )
  ]

  found-grow :
      (z : Str) (xs v ys : List Str) → mem z ys ≡ true → mem z (sweep all_nbrs xs (v, ys)).1 ≡ true
  found-grow z [] v ys h = rw (sweep-nil all_nbrs (v, ys)) h
  found-grow z (x ∷ xs) v ys h = elim (Bool-cases (mem x v)) [
    | inl m ↦ rw (sweep-seen all_nbrs x xs v ys m) (found-grow z xs v ys h)
    | inr m ↦
        rw (sweep-new all_nbrs x xs v ys m) (
          found-grow z xs (x ∷ v) (ys ++ all_nbrs x) (ground (arith, mem-append z ys (all_nbrs x))))
  ]

  -- the neighbours of a new node of the layer are found
  found_complete :
      (y z : Str) (xs v ys : List Str)
      → mem y xs ≡ true
      → mem y v ≡ false
      → mem z (all_nbrs y) ≡ true
      → mem z (sweep all_nbrs xs (v, ys)).1 ≡ true
  unfolding mem
  found_complete y z [] v ys at_y new h = cc
  found_complete y z (x ∷ xs) v ys at_y new h = elim (Bool-cases (mem x v)) [
    | inl m ↦
        rw (sweep-seen all_nbrs x xs v ys m)
          (found_complete y z xs v ys (ground (arith, at_y, mem_same y x v)) new h)
    | inr m ↦ elim (Bool-cases (str_eq y x)) [
      | inl same ↦ rw (sweep-new all_nbrs x xs v ys m) (
          found-grow z xs (x ∷ v) (ys ++ all_nbrs x)
            (ground (arith, mem-append z ys (all_nbrs x), (rw ((str_eq_iff y x).0 same) at h))))
      | inr other ↦
          rw (sweep-new all_nbrs x xs v ys m)
            (found_complete y z xs (x ∷ v) (ys ++ all_nbrs x) (ground arith) (ground arith) h)
    ]
  ]

  -- The neighbours of a visited node are visited or wait in the layer.
  abbrev IsClosed : List Str → List Str → Type 0
  IsClosed v xs =
      (y b : Str) → mem y v ≡ true → mem b (all_nbrs y) ≡ true → (mem b v || mem b xs) ≡ true

  sweep-IsClosed :
      (v xs : List Str)
      → IsClosed v xs
      → IsClosed (sweep all_nbrs xs (v, [])).0 (sweep all_nbrs xs (v, [])).1
  sweep-IsClosed v xs h y b seen m =
      let at_y = mem-sweep y xs v [] in
      let at_b = mem-sweep b xs v [] in
      elim (Bool-cases (mem y v)) [
        | inl e ↦ ground (arith, at_b, h y b e m)
        | inr e ↦ ground (arith, at_y, found_complete y b xs v [])
      ]

  layers-grow :
      (r : ℕ) (v xs : List Str) (z : Str)
      → (mem z v || mem z xs) ≡ true
      → mem z (layers all_nbrs r v xs) ≡ true
  unfolding layers
  layers-grow zero v xs z h = mem-sweep z xs v [] ∙ h
  layers-grow (suc r) v xs z h = layers-grow r _ _ z (ground (arith, mem-sweep z xs v []))

  layers_complete :
      (r : ℕ) (v xs : List Str) (y z : Str)
      → IsClosed v xs
      → (mem y v || mem y xs) ≡ true
      → near all_nbrs r y z ≡ true
      → mem z (layers all_nbrs r v xs) ≡ true
  unfolding near layers
  layers_complete zero v xs y z h m n = layers-grow zero v xs z (rw ((str_eq_iff y z).0 n) at m)
  layers_complete (suc r) v xs y z h m n = elim (Bool-cases (str_eq y z)) [
    | inl same ↦ layers-grow (suc r) v xs z (rw ((str_eq_iff y z).0 same) at m)
    | inr other ↦
        let (b, at_b, close) = mem_of_any (λ b. near all_nbrs r b z) (all_nbrs y) (rw other at n) in
        layers_complete r (sweep all_nbrs xs (v, [])).0 (sweep all_nbrs xs (v, [])).1 b z
          (sweep-IsClosed v xs h) (sweep-IsClosed v xs h y b (mem-sweep y xs v [] ∙ m) at_b) close
  ]

  layers_sound :
      (r : ℕ) (v xs : List Str) (z : Str)
      → mem z (layers all_nbrs r v xs) ≡ true
      → (mem z v ≡ true) ⊎ (any (λ x. near all_nbrs r x z) xs ≡ true)
  unfolding layers mem
  layers_sound zero v xs z h = elim (Bool-cases (mem z v)) [
    | inl old ↦ inl old
    | inr new ↦
        inr (any_of_mem _ z xs (ground (arith, mem-sweep z xs v [])) (near_self all_nbrs zero z))
  ]
  layers_sound (suc r) v xs z h =
      let next = sweep all_nbrs xs (v, []) in
      elim (layers_sound r next.0 next.1 z h) [
        | inl m ↦ elim (Bool-cases (mem z v)) [
          | inl old ↦ inl old
          | inr new ↦ inr (
              any_of_mem _ z xs (ground (arith, mem-sweep z xs v []))
                (near_self all_nbrs (suc r) z))
        ]
        | inr m ↦
            let (y, at_y, close) = mem_of_any (λ x. near all_nbrs r x z) next.1 m in
            elim (found_sound y xs v [] at_y) [
              | inl nowhere ↦ cc
              | inr next_to ↦ inr (near_next all_nbrs r xs y z next_to close)
            ]
      ]

  -- The layers hold the nodes within the depth.
  pub layers-near :
      (depth : ℕ) (a z : Str) → mem z (layers all_nbrs depth [] (a ∷ [])) ≡ near all_nbrs depth a z
  unfolding mem
  layers-near depth a z =
      bool_iff _ _
        (λ m. elim (layers_sound depth [] (a ∷ []) z m) [ inl h ↦ cc | inr h ↦ ground arith ])
        (λ n. layers_complete depth [] (a ∷ []) a z (λ y b h m. cc) (rw (str_eq_refl a) refl) n)
