-- ===== src/Dict/Laws.antt =====
-- Lookup after the operations on a dict.
use iterative_context.Prelude.{
  ◌≡◌, refl, ◌↔◌, inl, inr, true, false, ◌||◌, none, some, [], ◌∷◌, ◌++◌, arith, if◌then◌else◌,
  Bool-cases, length,
}
use iterative_context.Text.{Str, str_eq, mem}
use iterative_context.Text.Laws.{str_eq_iff, str_eq_refl}
use iterative_context.Dict.{Dict, get, has, put, keys}

module _ {ℓ} {V : Type ℓ} where
  pub get-put :
      (k j : Str) (v : V) (d : Dict V)
      → get j (put k v d) ≡ (if str_eq k j then some v else get j d)
  unfolding get put
  get-put k j v [] = refl
  get-put k j v ((i, w) ∷ d) =
      ground (arith, str_eq_iff k j, str_eq_iff i k, str_eq_iff i j, get-put k j v d)

  pub has-put : (k j : Str) (v : V) (d : Dict V) → has j (put k v d) ≡ (str_eq k j || has j d)
  unfolding has put
  has-put k j v [] = refl
  has-put k j v ((i, w) ∷ d) =
      ground (arith, str_eq_iff k j, str_eq_iff i k, str_eq_iff i j, has-put k j v d)

  pub has_eq-get : (k : Str) (d : Dict V) → (has k d ≡ false) ↔ (get k d ≡ none)
  unfolding has get
  has_eq-get k [] = (λ _. refl, λ _. refl)
  has_eq-get k ((j, v) ∷ d) = ground (arith, has_eq-get k d)

  pub get_of_has : (k : Str) (d : Dict V) → has k d ≡ true → (v : V) × (get k d ≡ some v)
  unfolding has get
  get_of_has k [] h = cc
  get_of_has k ((j, v) ∷ d) h = elim (Bool-cases (str_eq j k)) [
    | inl e ↦ (v, rw e)
    | inr n ↦ rw n (get_of_has k d (ground arith))
  ]

  pub has-append : (k : Str) (d e : Dict V) → has k (d ++ e) ≡ (has k d || has k e)
  unfolding has
  has-append k [] e = refl
  has-append k ((j, v) ∷ d) e = ground (arith, has-append k d e)

  pub get-append : (k : Str) (d e : Dict V) → has k d ≡ false → get k (d ++ e) ≡ get k e
  unfolding has get
  get-append k [] e h = refl
  get-append k ((j, v) ∷ d) e h = ground (arith, get-append k d e)

  pub get-append_left : (k : Str) (d e : Dict V) → has k d ≡ true → get k (d ++ e) ≡ get k d
  unfolding has get
  get-append_left k [] e h = cc
  get-append_left k ((j, v) ∷ d) e h = ground (arith, get-append_left k d e)

  -- a new key goes to the end
  pub put_new : (k : Str) (v : V) (d : Dict V) → has k d ≡ false → put k v d ≡ d ++ (k, v) ∷ []
  unfolding has put
  put_new k v [] h = refl
  put_new k v ((j, w) ∷ d) h = ground (arith, put_new k v d)

  -- an old key keeps its place
  pub length-put_old :
      (k : Str) (v : V) (d : Dict V) → has k d ≡ true → length (put k v d) ≡ length d
  unfolding has put
  length-put_old k v [] h = cc
  length-put_old k v ((j, w) ∷ d) h = ground (arith, length-put_old k v d)

  pub keys-put_old : (k : Str) (v : V) (d : Dict V) → has k d ≡ true → keys (put k v d) ≡ keys d
  unfolding has put keys
  keys-put_old k v [] h = cc
  keys-put_old k v ((j, w) ∷ d) h = ground (arith, keys-put_old k v d)

  pub mem-keys : (k : Str) (d : Dict V) → mem k (keys d) ≡ has k d
  unfolding has mem keys
  mem-keys k [] = refl
  mem-keys k ((j, v) ∷ d) = ground (arith, mem-keys k d, str_eq_iff k j, str_eq_iff j k)

  pub keys-append : (d e : Dict V) → keys (d ++ e) ≡ keys d ++ keys e
  unfolding keys
  keys-append [] e = refl
  keys-append ((j, v) ∷ d) e = rw (keys-append d e)

  pub has-cons_self : (k : Str) (v : V) (d : Dict V) → has k ((k, v) ∷ d) ≡ true
  unfolding has
  has-cons_self k v d = rw (str_eq_refl k)

  -- to store what is there changes nothing
  pub put_same : (k : Str) (v : V) (d : Dict V) → get k d ≡ some v → put k v d ≡ d
  unfolding get put
  put_same k v [] h = cc
  put_same k v ((j, w) ∷ d) h = ground (arith, put_same k v d)
