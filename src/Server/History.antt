-- ===== src/Server/History.antt =====
-- server.py: how often the tools of a runtime were called. `history` is what a call is told of the
-- calls before it.
pub mod Laws
use iterative_context.Prelude.{
  ℕ, suc, Bool, false, not, Option, none, some, [], ltb, if◌then◌else◌, ℤ, int_lt,
}
use iterative_context.Text.{Str, codes}
use iterative_context.Dict.{Dict, get, put}

-- the dicts `_resolve_query_counts`, `_expand_call_counts` and `_expand_max_depth`
pub record History : Type 0 where
  pub resolve_query_counts : Dict ℕ
  pub expand_call_counts : Dict ℕ
  pub expand_max_depth : Dict ℤ

-- `_clear_runtime_history`
abbrev pub clear_runtime_history : History
clear_runtime_history = record {
  resolve_query_counts = [];
  expand_call_counts = [];
  expand_max_depth = [];
}

pub record QueryHistory : Type 0 where
  pub seen_before : Bool
  pub prior_calls : ℕ
  pub call_index : ℕ
  pub recommended_action : Str

pub record ExpandHistory : Type 0 where
  pub seen_before : Bool
  pub prior_calls : ℕ
  pub call_index : ℕ
  pub requested_depth : ℤ
  pub prior_max_depth : Option ℤ
  pub repeated_same_or_shallower : Bool
  pub recommended_action : Str

-- `d.get(key, 0)`
unfoldable pub count_of : Str → Dict ℕ → ℕ
count_of k d = elim (get k d) [ none ↦ 0 | some n ↦ n ]

unfoldable pub note_query_history : Str → History → QueryHistory × History
note_query_history symbol h =
    let prior_calls = count_of symbol h.resolve_query_counts in
    let seen_before = ltb 0 prior_calls in
    (
      record {
        seen_before = seen_before;
        prior_calls = prior_calls;
        call_index = suc prior_calls;
        recommended_action =
            if seen_before then codes "reuse_existing_anchor_or_finalize" else codes "fresh_query";
      },
      record h { resolve_query_counts = put symbol (suc prior_calls) h.resolve_query_counts },
    )

-- `prior_max_depth is not None and depth <= prior_max_depth`
abbrev pub is_within : ℤ → Option ℤ → Bool
is_within depth none = false
is_within depth (some m) = not (int_lt m depth)

unfoldable pub note_expand_history : Str → ℤ → History → ExpandHistory × History
note_expand_history node_id depth h =
    let prior_calls = count_of node_id h.expand_call_counts in
    let prior_max_depth = get node_id h.expand_max_depth in
    let seen_before = ltb 0 prior_calls in
    let repeated = is_within depth prior_max_depth in
    (
      record {
        seen_before = seen_before;
        prior_calls = prior_calls;
        call_index = suc prior_calls;
        requested_depth = depth;
        prior_max_depth = prior_max_depth;
        repeated_same_or_shallower = repeated;
        recommended_action =
            if repeated
            then codes "do_not_repeat_same_or_shallower_expand"
            else if seen_before
            then codes "only_continue_if_new_symbol_requires_deeper_context"
            else codes "fresh_expand";
      },
      record h {
        expand_call_counts = put node_id (suc prior_calls) h.expand_call_counts;
        expand_max_depth =
            if is_within depth prior_max_depth
            then h.expand_max_depth
            else put node_id depth h.expand_max_depth;
      },
    )
