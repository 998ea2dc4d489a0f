-- ===== src/Server/Policy.antt =====
-- server.py: the policy that is installed in a runtime. The files and the modules that Python loads
-- from them are the parameter `PolicyFiles`; a callable is a value of `Callable`.
pub mod Laws
use iterative_context.Prelude.{
  Result, ok, err, ◌>>=◌, ℕ, Bool, true, false, not, ◌||◌, Option, none, some, List, [], ◌∷◌, ◌++◌,
  ◌==◌, if◌then◌else◌, length, any, filter,
}
use iterative_context.Text.{Str, codes, str_eq}
use iterative_context.Value.{Fields, str, bool, null, of_option_str}
use iterative_context.Replay.Payload.{Payload}
use iterative_context.Server.Arguments.{
  ArgumentError, require_str, require_non_empty_str, optional_str,
}

abbrev pub policy_interface_version : Str
policy_interface_version = codes "iterative_context.behavior_policy.v1"

-- `inspect.Parameter.kind`
pub data ParameterKind : Type 0 where
  positional_only positional_or_keyword var_positional keyword_only var_keyword : ParameterKind

-- what a module holds under a name: a value that is no callable, or a callable with the kinds of its
-- parameters, `none` where the signature cannot be read
pub data Member (Callable : Type 0) : Type 0 where
  not_callable : Member Callable
  callable : Option (List ParameterKind) → Callable → Member Callable

pub record PolicyFiles (Callable : Type 0) : Type 0 where
  -- `Path(…).expanduser().resolve()`
  pub absolute : Str → Str
  pub is_file : Str → Bool
  -- the attributes of the module at a path; `none` where it cannot be loaded
  pub exec_module : Str → Option (Str → Option (Member Callable))
  -- `_sha256_file`
  pub sha256_file : Str → Str

pub record InstalledPolicy (Callable : Type 0) : Type 0 where
  pub policy_id : Str
  pub policy_path : Str
  pub policy_sha : Str
  pub interface_version : Str
  pub resolve_policy_symbol : Option Str
  pub lookahead_policy_symbol : Option Str
  pub resolve_policy : Option Callable
  pub lookahead_policy : Option Callable
  pub install_mode : Str

-- why a policy is not loaded
pub data LoadError : Type 0 where
  module_not_found : LoadError
  import_error : LoadError
  non_callable : Str → LoadError
  unreadable_signature : Str → LoadError
  wrong_arity : Str → LoadError
  not_defined : Option Str → LoadError

-- a `ToolPayloadError`, or the `ValueError` of an argument
pub data ToolError : Type 0 where
  bad_argument : ArgumentError → ToolError
  policy_install_required : ToolError
  -- the path, and the policy's id where it is reported
  policy_load_error : Str → Option Str → LoadError → ToolError
  no_active_policy : Str → ToolError
  -- what was expected, and what is active
  id_mismatch : Str → Str → ToolError
  sha_mismatch : Str → Str → ToolError
  version_mismatch : Str → Str → ToolError

abbrev pub is_positional : ParameterKind → Bool
is_positional positional_only = true
is_positional positional_or_keyword = true
is_positional _ = false

abbrev pub is_varargs : ParameterKind → Bool
is_varargs var_positional = true
is_varargs _ = false

-- the exception, where the signature is not accepted
unfoldable pub validate_callable_signature :
    Option (List ParameterKind) → ℕ → Str → Option LoadError
validate_callable_signature none expected_arity symbol = some (unreadable_signature symbol)
validate_callable_signature (some kinds) expected_arity symbol =
    if any is_varargs kinds || not (length (filter is_positional kinds) == expected_arity)
    then some (wrong_arity symbol)
    else none

-- the comparison of an optional argument
abbrev pub differs : Option Str → Str → Bool
differs none active = false
differs (some expected) active = not (str_eq active expected)

abbrev pub text_of : Option Str → Str
text_of none = []
text_of (some s) = s

-- `version or POLICY_INTERFACE_VERSION`
abbrev pub version_or : Option Str → Str
version_or none = policy_interface_version
version_or (some v) = v

-- an argument that is read, or the error of the tool
unfoldable pub argument {ℓ} : {A : Type ℓ} → Result ArgumentError A → Result ToolError A
argument (ok a) = ok a
argument (err e) = err (bad_argument e)

module _ {Callable : Type 0} where
  abbrev pub of_callable : Option Callable → Bool
  of_callable none = false
  of_callable (some _) = true

  unfoldable pub policy_payload : InstalledPolicy Callable → Payload
  policy_payload i =
      (codes "policy_id", str i.policy_id)
      ∷ (codes "policy_path", str i.policy_path)
      ∷ (codes "policy_sha", str i.policy_sha)
      ∷ (codes "interface_version", str i.interface_version)
      ∷ (codes "install_mode", str i.install_mode)
      ∷ (codes "resolve_policy_symbol", of_option_str i.resolve_policy_symbol)
      ∷ (codes "lookahead_policy_symbol", of_option_str i.lookahead_policy_symbol)
      ∷ (codes "has_resolve_policy", bool (of_callable i.resolve_policy))
      ∷ (codes "has_lookahead_policy", bool (of_callable i.lookahead_policy))
      ∷ []

  -- `_load_optional_behavior_callable` and `_load_optional_selection_callable`, whose bodies agree
  unfoldable pub load_member : Str → Member Callable → Result LoadError (Option Callable)
  load_member symbol not_callable = err (non_callable symbol)
  load_member symbol (callable kinds f) = elim (validate_callable_signature kinds 3 symbol) [
    | none ↦ ok (some f)
    | some e ↦ err e
  ]

  unfoldable pub load_optional_callable :
      (Str → Option (Member Callable)) → Option Str → Result LoadError (Option Callable)
  load_optional_callable attributes none = ok none
  load_optional_callable attributes (some symbol) = elim (attributes symbol) [
    | none ↦ ok none
    | some m ↦ load_member symbol m
  ]

  abbrev pub defined : Option Str → Option Callable → Result LoadError Callable
  defined symbol none = err (not_defined symbol)
  defined symbol (some f) = ok f

  unfoldable pub load_required_callable :
      (Str → Option (Member Callable)) → Option Str → Result LoadError Callable
  load_required_callable attributes symbol =
      load_optional_callable attributes symbol >>= defined symbol

  abbrev pub installed_payload : InstalledPolicy Callable → Payload
  installed_payload i =
      (codes "ok", bool true) ∷ policy_payload i
      ++ (codes "policy_source", str (codes "installed")) ∷ []

  -- the checks of `verify_policy`, on the arguments that were read
  unfoldable pub check_policy :
      Str → Option Str → Option Str → Option (InstalledPolicy Callable) → Result ToolError Payload
  check_policy expected_id expected_sha expected_version none = err (no_active_policy expected_id)
  check_policy expected_id expected_sha expected_version (some i) =
      if not (str_eq i.policy_id expected_id)
      then err (id_mismatch expected_id i.policy_id)
      else if differs expected_sha i.policy_sha
      then err (sha_mismatch (text_of expected_sha) i.policy_sha)
      else if differs expected_version i.interface_version
      then err (version_mismatch (text_of expected_version) i.interface_version)
      else ok (installed_payload i)

  unfoldable pub verify_policy :
      Fields → Option (InstalledPolicy Callable) → Result ToolError Payload
  verify_policy arguments installed =
      argument (require_non_empty_str arguments (codes "policy_id")) >>= λ expected_id.
      argument (optional_str arguments (codes "policy_sha") none) >>= λ expected_sha.
      argument (optional_str arguments (codes "interface_version") none) >>= λ expected_version.
      check_policy expected_id expected_sha expected_version installed

  unfoldable pub describe_policy : Option (InstalledPolicy Callable) → Payload
  describe_policy none =
      (codes "ok", bool true)
      ∷ (codes "active", bool false)
      ∷ (codes "policy_source", null)
      ∷ (codes "policy_interface_version", str policy_interface_version)
      ∷ []
  describe_policy (some i) =
      (codes "ok", bool true)
      ∷ (codes "active", bool true)
      ∷ (codes "policy_source", str (codes "installed"))
      ∷ policy_payload i

  unfoldable pub policy_payload_fields : Option (InstalledPolicy Callable) → Payload
  policy_payload_fields none =
      (codes "active_behavior_policy_id", null)
      ∷ (codes "active_policy_id", null)
      ∷ (codes "policy_interface_version", str policy_interface_version)
      ∷ []
  policy_payload_fields (some i) =
      (codes "active_behavior_policy_id", str i.policy_id)
      ∷ (codes "active_policy_id", str i.policy_id)
      ∷ (codes "policy_interface_version", str i.interface_version)
      ∷ (codes "policy_path", str i.policy_path)
      ∷ (codes "policy_sha", str i.policy_sha)
      ∷ []

  -- `_load_policy_module`, and the two callables of the module
  unfoldable pub load_policies :
      PolicyFiles Callable → Str → Option Str → Option Str → Result LoadError (Callable × Callable)
  load_policies p path resolve_symbol lookahead_symbol =
      if not (p.is_file path) then err module_not_found else elim (p.exec_module path) [
        | none ↦ err import_error
        | some attributes ↦ load_required_callable attributes resolve_symbol >>= λ resolve_policy.
            load_required_callable attributes lookahead_symbol >>= λ lookahead_policy.
            ok (resolve_policy, lookahead_policy)
      ]

  -- the handlers of `_install_policy`: a missing file is reported without the policy's id
  unfoldable pub loaded :
      Str → Str → Result LoadError (Callable × Callable) → Result ToolError (Callable × Callable)
  loaded path policy_id (ok fs) = ok fs
  loaded path policy_id (err module_not_found) = err (policy_load_error path none module_not_found)
  loaded path policy_id (err e) = err (policy_load_error path (some policy_id) e)

  -- the policy that `_install_policy` makes
  unfoldable pub read_policy :
      PolicyFiles Callable → Fields → Result ToolError (InstalledPolicy Callable)
  read_policy p arguments = argument (require_str arguments (codes "policy_path")) >>= λ raw_path.
      argument (require_non_empty_str arguments (codes "policy_id")) >>= λ policy_id.
      argument (optional_str arguments (codes "interface_version") none) >>= λ version.
      argument
        (optional_str arguments (codes "resolve_policy_symbol") (some (codes "resolve_policy")))
      >>= λ resolve_symbol.
          argument (
            optional_str arguments (codes "lookahead_policy_symbol")
              (some (codes "lookahead_policy")))
          >>= λ lookahead_symbol.
              loaded (p.absolute raw_path) policy_id
                (load_policies p (p.absolute raw_path) resolve_symbol lookahead_symbol)
              >>= λ fs. ok (record {
                policy_id = policy_id;
                policy_path = p.absolute raw_path;
                policy_sha = p.sha256_file (p.absolute raw_path);
                interface_version = version_or version;
                resolve_policy_symbol = resolve_symbol;
                lookahead_policy_symbol = lookahead_symbol;
                resolve_policy = some fs.0;
                lookahead_policy = some fs.1;
                install_mode = codes "policy";
              })

  -- the answer, and the policy that is then installed
  unfoldable pub install_policy :
      PolicyFiles Callable
      → Fields
      → Option (InstalledPolicy Callable)
      → Result ToolError Payload × Option (InstalledPolicy Callable)
  install_policy p arguments installed = elim (read_policy p arguments) [
    | err e ↦ (err e, installed)
    | ok i ↦ (ok (installed_payload i), some i)
  ]
