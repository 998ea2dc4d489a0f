-- ===== src/Dict.antt =====
-- Python's `dict` with text keys: its entries in order of insertion.
pub mod Laws
use iterative_context.Prelude.{Bool, false, ◌||◌, Option, none, some, List, [], ◌∷◌, if◌then◌else◌}
use iterative_context.Text.{Str, str_eq}

abbrev pub Dict {ℓ} : Type ℓ → Type ℓ
Dict V = List (Str × V)

module _ {ℓ} {V : Type ℓ} where
  -- `d.get(k)`
  unfoldable pub get : Str → Dict V → Option V
  get k [] = none
  get k ((j, v) ∷ d) = if str_eq j k then some v else get k d

  -- `k in d`
  unfoldable pub has : Str → Dict V → Bool
  has k [] = false
  has k ((j, v) ∷ d) = str_eq j k || has k d

  -- `d[k] = v`: a new key goes to the end
  unfoldable pub put : Str → V → Dict V → Dict V
  put k v [] = (k, v) ∷ []
  put k v ((j, w) ∷ d) = if str_eq j k then (j, v) ∷ d else (j, w) ∷ put k v d

  -- `d.update(p)`
  unfoldable pub update : Dict V → Dict V → Dict V
  update d [] = d
  update d ((k, v) ∷ p) = update (put k v d) p

  unfoldable pub keys : Dict V → List Str
  keys [] = []
  keys ((k, v) ∷ d) = k ∷ keys d
