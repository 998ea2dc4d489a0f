-- ===== src/Tests/Metadata.antt =====
-- Metadata with a text, a list and a key that is no text.
use iterative_context.Prelude.{refl, none, some, pos}
use iterative_context.Text.{Str, codes, str_eq, mem, strip, lstrip, is_space, contains, starts_with}
use iterative_context.Value.{Value, Fields, int, str, list, dict, nil, cons, end, field}
use iterative_context.Replay.Metadata.{
  check_text, is_assignment, assignment_rest, sanitize_text, sanitize_value, sanitize_entries,
  sanitize_metadata,
}
use iterative_context.Replay.Portable.{IsPortableMetadata, sanitize_metadata-IsPortableMetadata}

abbrev same_text : Str → Str
same_text s = s

abbrev metadata : Value
metadata = dict (
    field (some (codes "match_id")) (str (codes " m1 "))
      (field none (int (pos 1)) (field (some (codes "runs")) (list (cons (int (pos 1)) nil)) end)))

abbrev clean : Fields
clean =
    field (some (codes "match_id")) (str (codes "m1"))
      (field (some (codes "runs")) (list (cons (int (pos 1)) nil)) end)

sanitize_metadata-IsPortableMetadata_example : IsPortableMetadata same_text clean
unfolding sanitize_metadata sanitize_entries sanitize_value sanitize_text check_text is_assignment
    assignment_rest str_eq mem strip lstrip is_space contains starts_with
sanitize_metadata-IsPortableMetadata_example =
    sanitize_metadata-IsPortableMetadata same_text metadata clean refl
