-- ===== src/Reach/Marked.antt =====
-- The search of store.py, which marks a node as visited when it enters the queue.
pub mod Near
use iterative_context.Prelude.{
  ℕ, zero, suc, ◌+◌, ◌≤◌, ◌<◌, ◌≡◌, refl, sym, ap, ◌∙◌, inl, inr, true, false, not, ◌&&◌, ◌||◌,
  Option, none, some, List, [], ◌∷◌, ◌++◌, map, append-nil, append_assoc, map-append, arith, leb,
  Bool-cases, length,
}
use iterative_context.Text.{Str, mem}
use iterative_context.Text.Laws.{mem-append}
use iterative_context.Reach.{mem_same, leb_of_lt}

-- the neighbours that are not visited are, and enter the queue
unfoldable pub visit : List Str → ℕ → List Str × List (Str × ℕ) → List Str × List (Str × ℕ)
visit [] dist (visited, queue) = (visited, queue)
visit (b ∷ bs) dist (visited, queue) = elim (mem b visited) [
  | true ↦ visit bs dist (visited, queue)
  | false ↦ visit bs dist (b ∷ visited, queue ++ (b, dist) ∷ [])
]

module _ (nbrs : Str → List Str) where
  -- the loop over the queue, on fuel; `none` where the fuel runs out
  unfoldable pub search : ℕ → ℕ → List Str → List (Str × ℕ) → Option (List Str)
  search fuel radius visited [] = some visited
  search zero radius visited (_ ∷ _) = none
  search (suc fuel) radius visited ((current, dist) ∷ queue) = elim (leb radius dist) [
    | true ↦ search fuel radius visited queue
    | false ↦
        let next = visit (nbrs current) (suc dist) (visited, queue) in
        search fuel radius next.0 next.1
  ]

-- The same search by layers: the nodes of one distance, in order, with the visited ones.
unfoldable pub discover : List Str → List Str × List Str → List Str × List Str
discover [] (visited, found) = (visited, found)
discover (b ∷ bs) (visited, found) = elim (mem b visited) [
  | true ↦ discover bs (visited, found)
  | false ↦ discover bs (b ∷ visited, found ++ b ∷ [])
]

abbrev pub tag : ℕ → List Str → List (Str × ℕ)
tag d xs = map (λ x. (x, d)) xs

visit-tag :
    (bs : List Str) (d : ℕ) (pre : List (Str × ℕ)) (v ys : List Str)
    → visit bs d (v, pre ++ tag d ys)
      ≡ ((discover bs (v, ys)).0, pre ++ tag d (discover bs (v, ys)).1)
unfolding visit discover
visit-tag [] d pre v ys = refl
visit-tag (b ∷ bs) d pre v ys = elim (Bool-cases (mem b v)) [
  | inl e ↦ rw (e, visit, discover) (visit-tag bs d pre v ys)
  | inr e ↦
      rw
        (
          e,
          visit,
          discover,
          append_assoc pre (tag d ys) ((b, d) ∷ []),
          ← map-append {B = Str × ℕ} (λ x. (x, d)) ys (b ∷ []),
        )
        (visit-tag bs d pre (b ∷ v) (ys ++ b ∷ []))
]

pub mem-discover :
    (z : Str) (bs v ys : List Str)
    → (mem z (discover bs (v, ys)).0 ≡ (mem z v || mem z bs))
      × (mem z (discover bs (v, ys)).1 ≡ (mem z ys || (mem z bs && not (mem z v))))
unfolding discover mem
mem-discover z [] v ys = ground arith
mem-discover z (b ∷ bs) v ys = elim (Bool-cases (mem b v)) [
  | inl e ↦ rw (e, discover) (ground (arith, mem-discover z bs v ys, mem_same z b v))
  | inr e ↦
      rw (e, discover)
        (ground (
          arith,
          mem-discover z bs (b ∷ v) (ys ++ b ∷ []),
          mem-append z ys (b ∷ []),
          mem_same z b v,
        ))
]

module _ (nbrs : Str → List Str) where
  unfoldable pub discover_all : List Str → List Str × List Str → List Str × List Str
  discover_all [] known = known
  discover_all (x ∷ xs) known = discover_all xs (discover (nbrs x) known)

  unfoldable pub layers : ℕ → List Str → List Str → List Str
  layers zero visited xs = visited
  layers (suc r) visited xs = let next = discover_all xs (visited, []) in layers r next.0 next.1

  -- how many nodes leave the queue
  unfoldable pub pops : ℕ → List Str → List Str → ℕ
  pops zero visited xs = length xs
  pops (suc r) visited xs =
      let next = discover_all xs (visited, []) in length xs + pops r next.0 next.1

  search_last :
      (k n radius d : ℕ) (v xs : List Str)
      → k ≡ length xs + n
      → radius ≤ d
      → search nbrs k radius v (tag d xs) ≡ some v
  unfolding search
  search_last zero n radius d v [] e h = refl
  search_last (suc k) n radius d v [] e h = refl
  search_last zero n radius d v (x ∷ xs) e h = ground arith
  search_last (suc k) n radius d v (x ∷ xs) e h =
      let last : search nbrs k radius v (tag d xs) ≡ some v =
        search_last k n radius d v xs (omega arith) h in
      ground arith

  search_layer :
      (k n radius d : ℕ) (v xs ys : List Str)
      → k ≡ length xs + n
      → d < radius
      → search nbrs k radius v (tag d xs ++ tag (suc d) ys)
        ≡ search nbrs n radius (discover_all xs (v, ys)).0 (tag (suc d) (discover_all xs (v, ys)).1)
  unfolding search discover_all
  search_layer k n radius d v [] ys e h = let e' : k ≡ n = omega arith in rw e' refl
  search_layer zero n radius d v (x ∷ xs) ys e h = absurd (omega arith)
  search_layer (suc k) n radius d v (x ∷ xs) ys e h =
      rw (leb_of_lt radius d h, search, visit-tag (nbrs x) (suc d) (tag d xs) v ys)
        (search_layer k n radius d _ xs _ (omega arith) h)

  -- enough fuel
  pub search-layers :
      (r k n radius d : ℕ) (v xs : List Str)
      → k ≡ pops r v xs + n
      → d + r ≡ radius
      → search nbrs k radius v (tag d xs) ≡ some (layers r v xs)
  unfolding pops layers
  search-layers zero k n radius d v xs e h = search_last k n radius d v xs e (omega arith)
  search-layers (suc r) k n radius d v xs e h =
      let next = discover_all xs (v, []) in
      ap (search nbrs k radius v) (sym (append-nil (tag d xs)))
      ∙ (search_layer k (pops r next.0 next.1 + n) radius d v xs [] (omega arith) (omega arith)
          ∙ search-layers r _ n radius (suc d) next.0 next.1 refl (omega arith))
