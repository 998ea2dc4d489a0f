-- ===== src/Server/History/Laws.antt =====
-- The counts of a runtime beside the list of the calls that it received.
use iterative_context.Prelude.{
  ℕ, suc, ◌+◌, ◌≡◌, refl, ◌∙◌, inl, inr, Bool, true, false, not, ◌&&◌, ◌||◌, Option, none, some,
  List, [], ◌∷◌, arith, if◌then◌else◌, Bool-cases, any, ℤ, pos, negsuc, int_lt,
}
use iterative_context.Text.{Str, str_eq}
use iterative_context.Text.Laws.{str_eq_iff, str_eq_refl}
use iterative_context.Dict.{Dict, get, put}
use iterative_context.Dict.Laws.{get-put}
use iterative_context.Server.History.{
  History, count_of, clear_runtime_history, note_expand_history, is_within,
}

-- a history after calls of `expand`, oldest first
unfoldable pub after_calls : List (Str × ℤ) → History → History
after_calls [] h = h
after_calls ((i, d) ∷ cs) h = after_calls cs (note_expand_history i d h).1

-- how many calls were for the node
unfoldable pub calls_for : Str → List (Str × ℤ) → ℕ
calls_for i [] = 0
calls_for i ((j, d) ∷ cs) = (if str_eq j i then 1 else 0) + calls_for i cs

-- a call for the node that went at least as deep
abbrev pub covers : Str → ℤ → Str × ℤ → Bool
covers i d c = str_eq c.0 i && not (int_lt c.1 d)

count_of-put :
    (k j : Str) (n : ℕ) (d : Dict ℕ)
    → count_of j (put k n d) ≡ (if str_eq k j then n else count_of j d)
unfolding count_of
count_of-put k j n d =
    rw (get-put k j n d, count_of)
      (elim (Bool-cases (str_eq k j)) [ inl e ↦ rw e refl | inr e ↦ rw e refl ])

counted-note :
    (i j : Str) (d : ℤ) (h : History)
    → count_of i (note_expand_history j d h).1.expand_call_counts
      ≡ (if str_eq j i then 1 else 0) + count_of i h.expand_call_counts
unfolding note_expand_history
counted-note i j d h =
    rw (count_of-put j i (suc (count_of j h.expand_call_counts)) h.expand_call_counts)
      (ground (arith, str_eq_iff j i))

counted-after_calls :
    (i : Str) (cs : List (Str × ℤ)) (h : History)
    → count_of i (after_calls cs h).expand_call_counts
      ≡ count_of i h.expand_call_counts + calls_for i cs
unfolding after_calls calls_for
counted-after_calls i [] h = omega arith
counted-after_calls i ((j, d) ∷ cs) h =
    omega (arith, counted-after_calls i cs (note_expand_history j d h).1, counted-note i j d h)

-- a depth within a lesser one is within the greater one
int_le_trans : (d e m : ℤ) → int_lt m e ≡ false → int_lt e d ≡ false → int_lt m d ≡ false
int_le_trans (pos d) (pos e) (pos m) h k = ground arith
int_le_trans (pos d) (pos e) (negsuc m) h k = cc
int_le_trans (pos d) (negsuc e) m h k = cc
int_le_trans (negsuc d) (pos e) (pos m) h k = refl
int_le_trans (negsuc d) (pos e) (negsuc m) h k = cc
int_le_trans (negsuc d) (negsuc e) (pos m) h k = refl
int_le_trans (negsuc d) (negsuc e) (negsuc m) h k = ground arith

int_lt_le : (d e m : ℤ) → int_lt m e ≡ true → int_lt m d ≡ false → int_lt e d ≡ false
int_lt_le (pos d) (pos e) (pos m) h k = ground arith
int_lt_le (pos d) (pos e) (negsuc m) h k = cc
int_lt_le (pos d) (negsuc e) (pos m) h k = cc
int_lt_le (pos d) (negsuc e) (negsuc m) h k = cc
int_lt_le (negsuc d) (pos e) m h k = refl
int_lt_le (negsuc d) (negsuc e) (pos m) h k = cc
int_lt_le (negsuc d) (negsuc e) (negsuc m) h k = ground arith

deeper :
    (d e : ℤ) (o : Option ℤ)
    → is_within d (if is_within e o then o else some e) ≡ (is_within d o || not (int_lt e d))
deeper d e none = refl
deeper d e (some m) = elim (Bool-cases (int_lt m e)) [
  | inl s ↦ rw s (ground (arith, int_lt_le d e m s))
  | inr n ↦ rw n (ground (arith, int_le_trans d e m n))
]

deepest-same :
    (j : Str) (d e : ℤ) (depths : Dict ℤ)
    → is_within d (get j (if is_within e (get j depths) then depths else put j e depths))
      ≡ (is_within d (get j depths) || not (int_lt e d))
deepest-same j d e depths =
    let known = deeper d e (get j depths) in
    elim (Bool-cases (is_within e (get j depths))) [
      | inl w ↦ rw w (rw w at known)
      | inr n ↦ rw n (rw (get-put j j e depths) (rw (str_eq_refl j) (rw n at known)))
    ]

deepest-other :
    (i j : Str) (d e : ℤ) (depths : Dict ℤ)
    → str_eq j i ≡ false
    → is_within d (get i (if is_within e (get j depths) then depths else put j e depths))
      ≡ is_within d (get i depths)
deepest-other i j d e depths f = elim (Bool-cases (is_within e (get j depths))) [
  | inl w ↦ rw w refl
  | inr n ↦ rw n (rw (get-put j i e depths) (rw f refl))
]

deepest-note :
    (i j : Str) (d e : ℤ) (h : History)
    → is_within d (get i (note_expand_history j e h).1.expand_max_depth)
      ≡ (is_within d (get i h.expand_max_depth) || covers i d (j, e))
unfolding note_expand_history
deepest-note i j d e h = elim (Bool-cases (str_eq j i)) [
  | inl s ↦ rw (s, ← (str_eq_iff j i).0 s) (deepest-same j d e h.expand_max_depth)
  | inr n ↦ rw n (deepest-other i j d e h.expand_max_depth n ∙ ground arith)
]

deepest-after_calls :
    (i : Str) (d : ℤ) (cs : List (Str × ℤ)) (h : History)
    → is_within d (get i (after_calls cs h).expand_max_depth)
      ≡ (is_within d (get i h.expand_max_depth) || any (covers i d) cs)
unfolding after_calls
deepest-after_calls i d [] h = ground arith
deepest-after_calls i d ((j, e) ∷ cs) h =
    deepest-after_calls i d cs (note_expand_history j e h).1
    ∙ rw (deepest-note i j d e h) (ground arith)

-- A call of `expand` is told how many of the calls before it, on a runtime that started without any,
-- were for its node, and whether one of those went at least as deep.
pub note_expand_history-after_calls :
    (cs : List (Str × ℤ)) (i : Str) (d : ℤ)
    → let told = (note_expand_history i d (after_calls cs clear_runtime_history)).0 in
      (told.prior_calls ≡ calls_for i cs) × (told.repeated_same_or_shallower ≡ any (covers i d) cs)
unfolding note_expand_history count_of get
note_expand_history-after_calls cs i d = (
  omega (arith, counted-after_calls i cs clear_runtime_history),
  deepest-after_calls i d cs clear_runtime_history,
)
