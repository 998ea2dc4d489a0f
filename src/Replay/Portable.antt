-- ===== src/Replay/Portable.antt =====
-- The metadata that `collect` accepts.
use iterative_context.Prelude.{
  ok_inj, ok, ◌>>=◌, >>=-eq-ok, ℕ, ◌+◌, ◌≡◌, refl, inl, inr, Bool, true, false, not, ◌&&◌, ◌||◌,
  none, some, arith, leb, Bool-cases, length,
}
use iterative_context.Text.{Str, mem, strip, is_empty}
use iterative_context.Value.{
  Value, Items, Fields, null, bool, int, float, str, list, dict, other, nil, cons, end, field,
}
use iterative_context.Replay.Metadata.{
  max_metadata_string_length, has_line_break, is_home_path, is_bundle_path, is_secret_like,
  check_text, sanitize_text, sanitize_value, sanitize_items, sanitize_fields, forbidden_keys,
  sanitize_entries, sanitize_metadata,
}

-- one line of at most 200 characters, no path of a home, of /tmp or of a bundle, and no secret
abbrev pub is_portable : Str → Bool
is_portable s =
    is_empty s
    || (not (has_line_break s)
        && (leb (length s) max_metadata_string_length
            && (not (is_home_path s) && (not (is_bundle_path s) && not (is_secret_like s)))))

-- Every text in the value is portable, and every key of a dict is a text.
abbrev mutual
  pub IsPortable : Value → Type 0
  IsPortable (str s) = is_portable s ≡ true
  IsPortable (list xs) = ArePortable xs
  IsPortable (dict fs) = HasPortable fs
  IsPortable other = ⊥
  IsPortable _ = Unit

  pub ArePortable : Items → Type 0
  ArePortable nil = Unit
  ArePortable (cons x xs) = IsPortable x × ArePortable xs

  pub HasPortable : Fields → Type 0
  HasPortable end = Unit
  HasPortable (field none v fs) = ⊥
  HasPortable (field (some k) v fs) = IsPortable v × HasPortable fs

-- Such a dict, none of whose keys is forbidden in lower case.
abbrev pub IsPortableMetadata : (Str → Str) → Fields → Type 0
IsPortableMetadata lower end = Unit
IsPortableMetadata lower (field none v fs) = ⊥
IsPortableMetadata lower (field (some k) v fs) =
    (mem (lower k) forbidden_keys ≡ false) × IsPortable v × IsPortableMetadata lower fs

check_text-is_portable : (path s t : Str) → check_text path s ≡ ok t → is_portable t ≡ true
unfolding check_text
check_text-is_portable path s t h = ground arith

sanitize_text-is_portable : (path s t : Str) → sanitize_text path s ≡ ok t → is_portable t ≡ true
unfolding sanitize_text
sanitize_text-is_portable path s t h = elim (Bool-cases (is_empty (strip s))) [
  | inl e ↦ rw (← ok_inj (rw (e, sanitize_text) at h)) refl
  | inr e ↦ check_text-is_portable path (strip s) t (rw (e, sanitize_text) at h)
]

mutual
  unfolding sanitize_value sanitize_items sanitize_fields

  sanitize_value-IsPortable :
      (v : Value) (path : Str) (w : Value) → sanitize_value v path ≡ ok w → IsPortable w
  sanitize_value-IsPortable null path w h = rw (← ok_inj h) tt
  sanitize_value-IsPortable (bool b) path w h = rw (← ok_inj h) tt
  sanitize_value-IsPortable (int n) path w h = rw (← ok_inj h) tt
  sanitize_value-IsPortable (float x) path w h = rw (← ok_inj h) tt
  sanitize_value-IsPortable (str s) path w h =
      let (t, e, last) = >>=-eq-ok (sanitize_text path s) (λ t. ok (str t)) h in
      rw (← ok_inj last) (sanitize_text-is_portable path s t e)
  sanitize_value-IsPortable (list xs) path w h =
      let (ys, e, last) = >>=-eq-ok (sanitize_items xs path 0) (λ ys. ok (list ys)) h in
      rw (← ok_inj last) (sanitize_items-ArePortable xs path 0 ys e)
  sanitize_value-IsPortable (dict fs) path w h =
      let (gs, e, last) = >>=-eq-ok (sanitize_fields fs path) (λ gs. ok (dict gs)) h in
      rw (← ok_inj last) (sanitize_fields-HasPortable fs path gs e)
  sanitize_value-IsPortable other path w h = cc

  sanitize_items-ArePortable :
      (xs : Items) (path : Str) (index : ℕ) (ys : Items)
      → sanitize_items xs path index ≡ ok ys
      → ArePortable ys
  sanitize_items-ArePortable nil path index ys h = rw (← ok_inj h) tt
  sanitize_items-ArePortable (cons x xs) path index ys h =
      let (y, e, more) = >>=-eq-ok _ _ h in
      let (zs, f, last) =
        >>=-eq-ok (sanitize_items xs path (index + 1)) (λ zs. ok (cons y zs)) more in
      rw (← ok_inj last)
        (sanitize_value-IsPortable x _ y e, sanitize_items-ArePortable xs path (index + 1) zs f)

  sanitize_fields-HasPortable :
      (fs : Fields) (path : Str) (gs : Fields) → sanitize_fields fs path ≡ ok gs → HasPortable gs
  sanitize_fields-HasPortable end path gs h = rw (← ok_inj h) tt
  sanitize_fields-HasPortable (field none v fs) path gs h = sanitize_fields-HasPortable fs path gs h
  sanitize_fields-HasPortable (field (some k) v fs) path gs h =
      let (w, e, more) = >>=-eq-ok _ _ h in
      let (rest, f, last) =
        >>=-eq-ok (sanitize_fields fs path) (λ gs. ok (field (some k) w gs)) more in
      rw (← ok_inj last)
        (sanitize_value-IsPortable v _ w e, sanitize_fields-HasPortable fs path rest f)

sanitize_entries-IsPortableMetadata :
    (lower : Str → Str) (fs gs : Fields)
    → sanitize_entries lower fs ≡ ok gs
    → IsPortableMetadata lower gs
unfolding sanitize_entries
sanitize_entries-IsPortableMetadata lower end gs h = rw (← ok_inj h) tt
sanitize_entries-IsPortableMetadata lower (field none v fs) gs h =
    sanitize_entries-IsPortableMetadata lower fs gs h
sanitize_entries-IsPortableMetadata lower (field (some k) v fs) gs h =
    elim (Bool-cases (mem (lower k) forbidden_keys)) [
      | inl e ↦ cc (rw (e, sanitize_entries) at h)
      | inr e ↦
          let (w, x, more) =
            >>=-eq-ok (sanitize_value v k)
              (λ w. sanitize_entries lower fs >>= λ gs. ok (field (some k) w gs))
              (rw (e, sanitize_entries) at h) in
          let (rest, y, last) =
            >>=-eq-ok (sanitize_entries lower fs) (λ gs. ok (field (some k) w gs)) more in
          rw (← ok_inj last) (
            e,
            sanitize_value-IsPortable v k w x,
            sanitize_entries-IsPortableMetadata lower fs rest y,
          )
    ]

-- Metadata that `collect` accepts holds, at every depth, only portable texts (one line, at most 200
-- characters, and none of the rejected paths and secrets) and only keys that are texts; and none of
-- its own keys is forbidden in lower case.
pub sanitize_metadata-IsPortableMetadata :
    (lower : Str → Str) (v : Value) (fs : Fields)
    → sanitize_metadata lower v ≡ ok fs
    → IsPortableMetadata lower fs
unfolding sanitize_metadata
sanitize_metadata-IsPortableMetadata lower null fs h = rw (← ok_inj h) tt
sanitize_metadata-IsPortableMetadata lower (dict gs) fs h =
    sanitize_entries-IsPortableMetadata lower gs fs h
sanitize_metadata-IsPortableMetadata lower (bool b) fs h = cc
sanitize_metadata-IsPortableMetadata lower (int n) fs h = cc
sanitize_metadata-IsPortableMetadata lower (float x) fs h = cc
sanitize_metadata-IsPortableMetadata lower (str s) fs h = cc
sanitize_metadata-IsPortableMetadata lower (list xs) fs h = cc
sanitize_metadata-IsPortableMetadata lower other fs h = cc
