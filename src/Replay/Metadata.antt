-- ===== src/Replay/Metadata.antt =====
-- graph_replay.py: the checks on the metadata of a trace. `lower` is Python's `str.lower`.
use iterative_context.Prelude.{
  Result, ok, err, ◌>>=◌, ℕ, ◌+◌, Bool, true, false, ◌&&◌, ◌||◌, none, some, List, [], ◌∷◌, ◌++◌,
  map, ltb, leb, ◌==◌, if◌then◌else◌, length,
}
use iterative_context.Text.{Str, codes, mem, strip, is_empty, starts_with, contains}
use iterative_context.Text.Decimal.{decimal}
use iterative_context.Value.{
  Value, Items, Fields, null, bool, int, float, str, list, dict, other, nil, cons, end, field,
}

-- The `ValueError`s, with the path or key that their messages name.
pub data CollectError : Type 0 where
  blank_trace_id : CollectError
  not_a_mapping : CollectError
  key_not_portable : Str → CollectError
  not_single_line : Str → CollectError
  too_large : Str → CollectError
  path_not_portable : Str → CollectError
  bundle_path : Str → CollectError
  secret_like : Str → CollectError
  unsupported_type : Str → CollectError

abbrev pub max_metadata_string_length : ℕ
max_metadata_string_length = 200

abbrev pub is_upper_or_underscore : ℕ → Bool
is_upper_or_underscore c = (leb b'A' c && leb c b'Z') || c == b'_'

-- what follows the first character of `^[A-Z_][A-Z0-9_]*=.*`
unfoldable pub assignment_rest : Str → Bool
assignment_rest [] = false
assignment_rest (c ∷ s) =
    c == b'=' || ((is_upper_or_underscore c || (leb b'0' c && leb c b'9')) && assignment_rest s)

-- `re.match(r"^[A-Z_][A-Z0-9_]*=.*", s)`
unfoldable pub is_assignment : Str → Bool
unfolding assignment_rest
is_assignment [] = false
is_assignment (c ∷ s) = is_upper_or_underscore c && assignment_rest s

-- `s.replace("\\", "/")`
abbrev pub forward_slashes : Str → Str
forward_slashes = map (λ c. if c == 92 then b'/' else c)

abbrev pub has_line_break : Str → Bool
has_line_break s = contains (10 ∷ []) s || contains (13 ∷ []) s

abbrev pub is_home_path : Str → Bool
is_home_path s =
    starts_with (codes "/home/") s
    || (starts_with (codes "/Users/") s || starts_with (codes "/tmp/") s)

abbrev pub is_bundle_path : Str → Bool
is_bundle_path s =
    contains (codes "evidence/bundle/") (forward_slashes s)
    || contains (codes "/projection/") (forward_slashes s)

abbrev pub is_secret_like : Str → Bool
is_secret_like s = starts_with (codes "sk-") s || is_assignment s

-- the checks on a text that is stripped and not empty
unfoldable pub check_text : Str → Str → Result CollectError Str
unfolding is_assignment
check_text path s =
    if has_line_break s
    then err (not_single_line path)
    else if ltb max_metadata_string_length (length s)
    then err (too_large path)
    else if is_home_path s
    then err (path_not_portable path)
    else if is_bundle_path s
    then err (bundle_path path)
    else if is_secret_like s
    then err (secret_like path)
    else ok s

unfoldable pub sanitize_text : Str → Str → Result CollectError Str
unfolding check_text
sanitize_text path s =
    let stripped = strip s in if is_empty stripped then ok [] else check_text path stripped

unfoldable mutual
  pub sanitize_value : Value → Str → Result CollectError Value
  sanitize_value null path = ok null
  sanitize_value (bool b) path = ok (bool b)
  sanitize_value (int n) path = ok (int n)
  sanitize_value (float x) path = ok (float x)
  sanitize_value (str s) path = sanitize_text path s >>= λ t. ok (str t)
  sanitize_value (list xs) path = sanitize_items xs path 0 >>= λ ys. ok (list ys)
  sanitize_value (dict fs) path = sanitize_fields fs path >>= λ gs. ok (dict gs)
  sanitize_value other path = err (unsupported_type path)

  pub sanitize_items : Items → Str → ℕ → Result CollectError Items
  sanitize_items nil path index = ok nil
  sanitize_items (cons x xs) path index =
      sanitize_value x (path ++ (codes "[" ++ (decimal index ++ codes "]"))) >>= λ y.
      sanitize_items xs path (index + 1) >>= λ ys. ok (cons y ys)

  pub sanitize_fields : Fields → Str → Result CollectError Fields
  sanitize_fields end path = ok end
  sanitize_fields (field none v fs) path = sanitize_fields fs path
  sanitize_fields (field (some k) v fs) path = sanitize_value v (path ++ (codes "." ++ k)) >>= λ w.
      sanitize_fields fs path >>= λ gs. ok (field (some k) w gs)

abbrev pub forbidden_keys : List Str
forbidden_keys =
    codes "api_key"
    ∷ codes "provider_key"
    ∷ codes "secret"
    ∷ codes "private_prompt"
    ∷ codes "raw_prompt"
    ∷ codes "source_snippet"
    ∷ codes "env_vars"
    ∷ codes "sourcesignature"
    ∷ codes "graphsignature"
    ∷ codes "graphbuilder"
    ∷ codes "repoidentity"
    ∷ codes "sessionid"
    ∷ []

module _ (lower : Str → Str) where
  -- the entries of the metadata, their keys checked too
  unfoldable pub sanitize_entries : Fields → Result CollectError Fields
  unfolding sanitize_value
  sanitize_entries end = ok end
  sanitize_entries (field none v fs) = sanitize_entries fs
  sanitize_entries (field (some k) v fs) = elim (mem (lower k) forbidden_keys) [
    | true ↦ err (key_not_portable k)
    | false ↦ sanitize_value v k >>= λ w. sanitize_entries fs >>= λ gs. ok (field (some k) w gs)
  ]

  -- `_sanitize_metadata`
  unfoldable pub sanitize_metadata : Value → Result CollectError Fields
  unfolding sanitize_entries
  sanitize_metadata null = ok end
  sanitize_metadata (dict fs) = sanitize_entries fs
  sanitize_metadata _ = err not_a_mapping
