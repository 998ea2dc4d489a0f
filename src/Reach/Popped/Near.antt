-- ===== src/Reach/Popped/Near.antt =====
-- The search over the queue goes through the layers.
use iterative_context.Prelude.{
  Result, ok, ℕ, zero, suc, ◌+◌, ◌≤◌, ◌≡◌, refl, sym, ap, ◌∙◌, inl, inr, Bool, true, false, Option,
  some, List, [], ◌∷◌, ◌++◌, append-nil, append_assoc, map-append, arith, leb, Bool-cases, length,
  All, All-append,
}
use iterative_context.Text.{Str, mem}
use iterative_context.Text.Laws.{str_eq_refl}
use iterative_context.Reach.{near, leb_of_lt}
use iterative_context.Reach.Popped.{
  tag, walk, sweep, layers, pops, sweep-nil, sweep-seen, sweep-new,
}
use iterative_context.Reach.Popped.Layers.{layers-near}

-- The neighbours of a node of the graph are known, and are nodes of the graph.
module _ (nbrs : Str → Option (List Str)) (all_nbrs : Str → List Str) (known : Str → Bool)
    (knows : (x : Str) → known x ≡ true → nbrs x ≡ some (all_nbrs x))
    (stays : (x b : Str) → known x ≡ true → mem b (all_nbrs x) ≡ true → known b ≡ true) where
  walk_last :
      (k n depth d : ℕ) (v xs ys : List Str)
      → k ≡ length xs + n
      → depth ≤ d
      → walk nbrs k depth v (tag d xs) ≡ some (ok (sweep all_nbrs xs (v, ys)).0)
  unfolding walk sweep
  walk_last zero n depth d v [] ys e h = refl
  walk_last (suc k) n depth d v [] ys e h = refl
  walk_last zero n depth d v (x ∷ xs) ys e h = absurd (omega arith)
  walk_last (suc k) n depth d v (x ∷ xs) ys e h = elim (Bool-cases (mem x v)) [
    | inl m ↦ rw (m, walk, sweep) (walk_last k n depth d v xs ys (omega arith) h)
    | inr m ↦
        rw (m, leb_of_le depth d h, walk, sweep)
          (walk_last k n depth d (x ∷ v) xs (ys ++ all_nbrs x) (omega arith) h)
  ]
    where
      leb_of_le : (a b : ℕ) → a ≤ b → leb a b ≡ true
      leb_of_le a b l = ground arith

  walk-seen :
      (k depth d : ℕ) (x : Str) (v : List Str) (q : List (Str × ℕ))
      → mem x v ≡ true
      → walk nbrs (suc k) depth v ((x, d) ∷ q) ≡ walk nbrs k depth v q
  unfolding walk
  walk-seen k depth d x v q m = rw (m, walk) refl

  walk-new :
      (k depth d : ℕ) (x : Str) (v : List Str) (q : List (Str × ℕ))
      → mem x v ≡ false
      → leb depth d ≡ false
      → known x ≡ true
      → walk nbrs (suc k) depth v ((x, d) ∷ q)
        ≡ walk nbrs k depth (x ∷ v) (q ++ tag (suc d) (all_nbrs x))
  unfolding walk
  walk-new k depth d x v q m l h = rw (m, l, knows x h, walk) refl

  -- a layer's queue, given what a sweep of the layer leaves
  abbrev swept : ℕ → ℕ → ℕ → List Str × List Str → Option (Result Str (List Str))
  swept n depth d found = walk nbrs n depth found.0 (tag (suc d) found.1)

  tag_found :
      (d : ℕ) (xs ys bs : List Str)
      → (tag d xs ++ tag (suc d) ys) ++ tag (suc d) bs ≡ tag d xs ++ tag (suc d) (ys ++ bs)
  tag_found d xs ys bs =
      append_assoc (tag d xs) (tag (suc d) ys) (tag (suc d) bs)
      ∙ ap (λ t. tag d xs ++ t) (sym (map-append {B = Str × ℕ} (λ x. (x, suc d)) ys bs))

  walk_layer :
      (k n depth d : ℕ) (v xs ys : List Str)
      → k ≡ length xs + n
      → leb depth d ≡ false
      → All (λ x. known x ≡ true) xs
      → walk nbrs k depth v (tag d xs ++ tag (suc d) ys)
        ≡ swept n depth d (sweep all_nbrs xs (v, ys))
  walk_layer k n depth d v [] ys e h all_known =
      let e' : k ≡ n = omega arith in rw (e', sweep-nil all_nbrs (v, ys)) refl
  walk_layer zero n depth d v (x ∷ xs) ys e h all_known = absurd (omega arith)
  walk_layer (suc k) n depth d v (x ∷ xs) ys e h (here, rest) = elim (Bool-cases (mem x v)) [
    | inl m ↦
        walk-seen k depth d x v _ m
        ∙ (walk_layer k n depth d v xs ys (omega arith) h rest
            ∙ ap (swept n depth d) (sym (sweep-seen all_nbrs x xs v ys m)))
    | inr m ↦
        walk-new k depth d x v _ m h here
        ∙ (ap (walk nbrs k depth (x ∷ v)) (tag_found d xs ys (all_nbrs x))
            ∙ (walk_layer k n depth d (x ∷ v) xs (ys ++ all_nbrs x) (omega arith) h rest
                ∙ ap (swept n depth d) (sym (sweep-new all_nbrs x xs v ys m))))
  ]

  holds_at :
      (x : Str) (bs : List Str)
      → known x ≡ true
      → ((b : Str) → mem b bs ≡ true → mem b (all_nbrs x) ≡ true)
      → All (λ b. known b ≡ true) bs
  unfolding mem
  holds_at x [] h f = tt
  holds_at x (b ∷ bs) h f =
      (stays x b h (f b (rw (str_eq_refl b) refl)), holds_at x bs h (λ c m. f c (ground arith)))

  sweep-known :
      (xs v ys : List Str)
      → All (λ x. known x ≡ true) xs
      → All (λ x. known x ≡ true) ys
      → All (λ x. known x ≡ true) (sweep all_nbrs xs (v, ys)).1
  unfolding sweep
  sweep-known [] v ys h k = k
  sweep-known (x ∷ xs) v ys (here, h) k = elim (Bool-cases (mem x v)) [
    | inl m ↦ rw (sweep-seen all_nbrs x xs v ys m) (sweep-known xs v ys h k)
    | inr m ↦ rw (sweep-new all_nbrs x xs v ys m) (
        sweep-known xs (x ∷ v) (ys ++ all_nbrs x) h
          (All-append _ ys (all_nbrs x) k (holds_at x (all_nbrs x) here (λ b m. m))))
  ]

  -- enough fuel
  walk-layers :
      (r k n depth d : ℕ) (v xs : List Str)
      → k ≡ pops all_nbrs r v xs + n
      → d + r ≡ depth
      → All (λ x. known x ≡ true) xs
      → walk nbrs k depth v (tag d xs) ≡ some (ok (layers all_nbrs r v xs))
  unfolding pops layers
  walk-layers zero k n depth d v xs e h all_known = walk_last k n depth d v xs [] e (omega arith)
  walk-layers (suc r) k n depth d v xs e h all_known =
      let next = sweep all_nbrs xs (v, []) in
      ap (walk nbrs k depth v) (sym (append-nil (tag d xs)))
      ∙ (walk_layer k (pops all_nbrs r next.0 next.1 + n) depth d v xs [] (omega arith)
            (leb_of_lt depth d (omega arith)) all_known
          ∙ walk-layers r _ n depth (suc d) next.0 next.1 refl (omega arith)
              (sweep-known xs v [] all_known tt))

  -- Given enough fuel, the search from a node of the graph ends without an exception, and visits the
  -- nodes within the depth.
  pub walk-near :
      (depth : ℕ) (a : Str)
      → known a ≡ true
      → (enough : ℕ) × (visited : List Str) × ((fuel : ℕ)
          → walk nbrs (enough + fuel) depth [] ((a, 0) ∷ []) ≡ some (ok visited))
        × ((z : Str) → mem z visited ≡ near all_nbrs depth a z)
  walk-near depth a h = (
    pops all_nbrs depth [] (a ∷ []),
    layers all_nbrs depth [] (a ∷ []),
    λ fuel. walk-layers depth _ fuel depth 0 [] (a ∷ []) refl (omega arith) (h, tt),
    layers-near all_nbrs depth a,
  )
