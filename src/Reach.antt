-- ===== src/Reach.antt =====
-- Breadth-first searches within a radius: the specification, and lemmas on membership. `nbrs` gives the
-- neighbours of a node.
pub mod Marked
pub mod Popped
use iterative_context.Prelude.{
  ℕ, zero, suc, ◌<◌, ◌≡◌, refl, sym, inl, inr, Bool, true, false, ◌||◌, List, [], ◌∷◌, arith, leb,
  Bool-cases, any,
}
use iterative_context.Text.{Str, str_eq, mem}
use iterative_context.Text.Laws.{str_eq_iff, str_eq_refl}

-- The second node is at most so many steps from the first.
unfoldable pub near : (Str → List Str) → ℕ → Str → Str → Bool
near nbrs zero a x = str_eq a x
near nbrs (suc r) a x = str_eq a x || any (λ b. near nbrs r b x) (nbrs a)

pub any_of_mem :
    (p : Str → Bool) (y : Str) (xs : List Str) → mem y xs ≡ true → p y ≡ true → any p xs ≡ true
unfolding mem
any_of_mem p y [] m h = cc
any_of_mem p y (x ∷ xs) m h = elim (Bool-cases (str_eq y x)) [
  | inl e ↦ rw (← (str_eq_iff y x).0 e, h) refl
  | inr e ↦ ground (arith, any_of_mem p y xs)
]

pub mem_of_any :
    (p : Str → Bool) (xs : List Str)
    → any p xs ≡ true
    → (y : Str) × (mem y xs ≡ true) × (p y ≡ true)
unfolding mem
mem_of_any p [] h = cc
mem_of_any p (x ∷ xs) h = elim (Bool-cases (p x)) [
  | inl e ↦ (x, rw (str_eq_refl x) refl, e)
  | inr e ↦ let (y, m, f) = mem_of_any p xs (rw e at h) in (y, ground arith, f)
]

pub near_self : (nbrs : Str → List Str) (r : ℕ) (x : Str) → near nbrs r x x ≡ true
unfolding near
near_self nbrs zero x = str_eq_refl x
near_self nbrs (suc r) x = rw (str_eq_refl x) refl

pub near_step :
    (nbrs : Str → List Str) (r : ℕ) (a b x : Str)
    → mem b (nbrs a) ≡ true
    → near nbrs r b x ≡ true
    → near nbrs (suc r) a x ≡ true
unfolding near
near_step nbrs r a b x m h = ground (arith, any_of_mem (λ c. near nbrs r c x) b (nbrs a) m h)

pub bool_iff : (a b : Bool) → (a ≡ true → b ≡ true) → (b ≡ true → a ≡ true) → a ≡ b
bool_iff true b f g = sym (f refl)
bool_iff false true f g = g refl
bool_iff false false f g = refl

pub near_next :
    (nbrs : Str → List Str) (r : ℕ) (xs : List Str) (y z : Str)
    → any (λ x. mem y (nbrs x)) xs ≡ true
    → near nbrs r y z ≡ true
    → any (λ x. near nbrs (suc r) x z) xs ≡ true
near_next nbrs r xs y z m close =
    let (x, at_x, next) = mem_of_any (λ x. mem y (nbrs x)) xs m in
    any_of_mem (λ x. near nbrs (suc r) x z) x xs at_x (near_step nbrs r x y z next close)

pub mem_same : (z b : Str) (v : List Str) → str_eq z b ≡ true → mem z v ≡ mem b v
mem_same z b v e = rw ((str_eq_iff z b).0 e) refl

pub leb_of_lt : (a b : ℕ) → b < a → leb a b ≡ false
leb_of_lt a b h = ground arith
