-- ===== src/Tests/Server.antt =====
-- A policy installed in a runtime, and calls of `expand`.
use iterative_context.Prelude.{
  err, true, ◌⊎◌, ok, ℕ, ◌≡◌, refl, true, false, Option, none, some, List, [], ◌∷◌, any, ℤ, pos,
}
use iterative_context.Text.{Str, codes, str_eq, strip}
use iterative_context.Value.{Fields, field, end, str, int}
use iterative_context.Anchor.{lookup}
use iterative_context.Server.History.{clear_runtime_history, note_expand_history}
use iterative_context.Server.History.Laws.{
  after_calls, calls_for, covers, note_expand_history-after_calls,
}
use iterative_context.Server.Arguments.{
  take_depth, depth_value, nonnegative, require_str, string_value, require_non_empty_str,
  optional_str,
}
use iterative_context.Server.Arguments.Laws.{take_depth-pos}
use iterative_context.Server.Policy.{
  PolicyFiles, ToolError, of_callable, Member, InstalledPolicy, callable, positional_or_keyword,
  install_policy, verify_policy, installed_payload, read_policy, argument, loaded, load_policies,
  load_required_callable, load_optional_callable, load_member, validate_callable_signature,
}
use iterative_context.Server.Policy.Laws.{install_policy-cases, verify_policy-install_policy}

abbrev earlier : List (Str × ℤ)
earlier = (codes "a", pos 2) ∷ (codes "b", pos 1) ∷ []

note_expand_history-after_calls_example :
    ((note_expand_history
        (codes "a")
        (pos 1)
        (after_calls earlier clear_runtime_history)).0.prior_calls
      ≡ calls_for (codes "a") earlier)
    × ((note_expand_history
          (codes "a")
          (pos 1)
          (after_calls earlier clear_runtime_history)).0.repeated_same_or_shallower
        ≡ any (covers (codes "a") (pos 1)) earlier)
note_expand_history-after_calls_example =
    note_expand_history-after_calls earlier (codes "a") (pos 1)

abbrev depth_two : Fields
depth_two = field (some (codes "depth")) (int (pos 2)) end

take_depth-pos_example : (n : ℕ) × (pos 2 ≡ pos n)
unfolding take_depth lookup str_eq depth_value nonnegative
take_depth-pos_example = take_depth-pos (λ x. pos 0) (λ x z. false) depth_two 1 (pos 2) refl

abbrev three : Member Unit
three =
    callable (some (positional_or_keyword ∷ positional_or_keyword ∷ positional_or_keyword ∷ [])) tt

abbrev files : PolicyFiles Unit
files = record {
  absolute = λ s. s;
  is_file = λ s. true;
  exec_module = λ s. some (λ name. some three);
  sha256_file = λ s. codes "0";
}

abbrev arguments : Fields
arguments =
    field (some (codes "policy_path")) (str (codes "p.py"))
      (field (some (codes "policy_id")) (str (codes "p")) end)

abbrev no_policy : Option (InstalledPolicy Unit)
no_policy = none

abbrev pub installed : InstalledPolicy Unit
installed = record {
  policy_id = codes "p";
  policy_path = codes "p.py";
  policy_sha = codes "0";
  interface_version = codes "iterative_context.behavior_policy.v1";
  resolve_policy_symbol = some (codes "resolve_policy");
  lookahead_policy_symbol = some (codes "lookahead_policy");
  resolve_policy = some tt;
  lookahead_policy = some tt;
  install_mode = codes "policy";
}

install_policy-cases_example :
    ((x : ToolError) × ((install_policy files arguments no_policy).0 ≡ err x)
      × ((install_policy files arguments no_policy).1 ≡ no_policy))
    ⊎ ((i : InstalledPolicy Unit) × ((install_policy files arguments no_policy).0
          ≡ ok (installed_payload i))
        × ((install_policy files arguments no_policy).1 ≡ some i)
        × (require_non_empty_str arguments (codes "policy_id") ≡ ok i.policy_id)
        × (of_callable i.resolve_policy ≡ true)
        × (of_callable i.lookahead_policy ≡ true))
install_policy-cases_example = install_policy-cases files arguments no_policy

verify_policy-install_policy_example :
    verify_policy arguments (install_policy files arguments no_policy).1
    ≡ ok (installed_payload installed)
unfolding install_policy lookup str_eq read_policy argument require_str string_value
    require_non_empty_str strip optional_str loaded load_policies load_required_callable
    load_optional_callable load_member validate_callable_signature
verify_policy-install_policy_example =
    verify_policy-install_policy files arguments no_policy (installed_payload installed) refl refl
