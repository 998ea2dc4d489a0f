-- ===== src/Server/Policy/Laws.antt =====
-- What installing a policy leaves behind.
use iterative_context.Prelude.{
  ok_inj, Result-cases, Result, ok, err, ◌⊎◌, >>=-eq-ok, ◌≡◌, refl, ◌∙◌, inl, inr, true, false,
  Option, none, some,
}
use iterative_context.Text.{Str, codes}
use iterative_context.Text.Laws.{str_eq_refl}
use iterative_context.Value.{Fields}
use iterative_context.Replay.Payload.{Payload}
use iterative_context.Anchor.{lookup}
use iterative_context.Server.Arguments.{
  ArgumentError, require_str, require_non_empty_str, optional_str,
}
use iterative_context.Server.Policy.{
  PolicyFiles, InstalledPolicy, ToolError, argument, load_policies, loaded, read_policy,
  install_policy, installed_payload, check_policy, verify_policy, version_or, differs, of_callable,
}

-- an argument that is left out
absent :
    (key : Str) (arguments : Fields)
    → lookup key arguments ≡ none
    → argument (optional_str arguments key none) ≡ ok none
unfolding optional_str argument
absent key arguments n = rw (n, optional_str) refl

same_version : (v : Option Str) → differs v (version_or v) ≡ false
same_version none = refl
same_version (some v) = rw (str_eq_refl v) refl

argument_ok {ℓ} : {A : Type ℓ} (r : Result ArgumentError A) {a : A} → argument r ≡ ok a → r ≡ ok a
unfolding argument
argument_ok (ok b) h = rw (ok_inj h) refl
argument_ok (err x) h = cc

module _ {Callable : Type 0} where
  -- what was read from the arguments of an installation
  record IsRead (p : PolicyFiles Callable) (arguments : Fields) (i : InstalledPolicy Callable)
      : Type 0 where
    version : Option Str
    id_read : argument (require_non_empty_str arguments (codes "policy_id")) ≡ ok i.policy_id
    version_read : argument (optional_str arguments (codes "interface_version") none) ≡ ok version
    version_kept : i.interface_version ≡ version_or version
    ready : (of_callable i.resolve_policy ≡ true) × (of_callable i.lookahead_policy ≡ true)

  read_policy-IsRead :
      (p : PolicyFiles Callable) (arguments : Fields) (i : InstalledPolicy Callable)
      → read_policy p arguments ≡ ok i
      → IsRead p arguments i
  unfolding read_policy
  read_policy-IsRead p arguments i h =
      let (raw_path, e1, h1) =
        >>=-eq-ok (argument (require_str arguments (codes "policy_path"))) _ h in
      let (policy_id, e2, h2) =
        >>=-eq-ok (argument (require_non_empty_str arguments (codes "policy_id"))) _ h1 in
      let (version, e3, h3) =
        >>=-eq-ok (argument (optional_str arguments (codes "interface_version") none)) _ h2 in
      let (resolve_symbol, e4, h4) =
        >>=-eq-ok
          (argument (
            optional_str arguments (codes "resolve_policy_symbol") (some (codes "resolve_policy"))))
          _ h3 in
      let (lookahead_symbol, e5, h5) =
        >>=-eq-ok
          (argument (
            optional_str arguments (codes "lookahead_policy_symbol")
              (some (codes "lookahead_policy"))))
          _ h4 in
      let (fs, e6, h6) =
        >>=-eq-ok
          (loaded (p.absolute raw_path) policy_id
            (load_policies p (p.absolute raw_path) resolve_symbol lookahead_symbol))
          _ h5 in
      rw (← ok_inj h6) (record {
        version = version;
        id_read = e2;
        version_read = e3;
        version_kept = refl;
        ready = (refl, refl);
      })

  checked :
      (i : InstalledPolicy Callable) (v : Option Str)
      → i.interface_version ≡ version_or v
      → check_policy i.policy_id none v (some i) ≡ ok (installed_payload i)
  unfolding check_policy
  checked i v e = rw (str_eq_refl i.policy_id, e, same_version v) refl

  verified :
      (p : PolicyFiles Callable) (arguments : Fields) (i : InstalledPolicy Callable)
      → IsRead p arguments i
      → lookup (codes "policy_sha") arguments ≡ none
      → verify_policy arguments (some i) ≡ ok (installed_payload i)
  unfolding verify_policy
  verified p arguments i r n =
      rw (r.id_read, verify_policy)
        (rw (absent (codes "policy_sha") arguments n)
          (rw r.version_read (checked i r.version r.version_kept)))

  -- An installation either raises, and then the policy is as it was, or answers with the policy that
  -- is then installed: it has the identifier of the arguments and both its callables.
  pub install_policy-cases :
      (p : PolicyFiles Callable) (arguments : Fields) (old : Option (InstalledPolicy Callable))
      → ((x : ToolError) × ((install_policy p arguments old).0 ≡ err x)
          × ((install_policy p arguments old).1 ≡ old))
        ⊎ ((i : InstalledPolicy Callable) × ((install_policy p arguments old).0
              ≡ ok (installed_payload i))
            × ((install_policy p arguments old).1 ≡ some i)
            × (require_non_empty_str arguments (codes "policy_id") ≡ ok i.policy_id)
            × (of_callable i.resolve_policy ≡ true)
            × (of_callable i.lookahead_policy ≡ true))
  unfolding install_policy
  install_policy-cases p arguments old = elim (Result-cases (read_policy p arguments)) [
    | inr (x, e) ↦ inl (x, rw (e, install_policy) refl, rw (e, install_policy) refl)
    | inl (i, e) ↦
        let r = read_policy-IsRead p arguments i e in
        inr (
          i,
          rw (e, install_policy) refl,
          rw (e, install_policy) refl,
          argument_ok (require_non_empty_str arguments (codes "policy_id")) r.id_read,
          r.ready.0,
          r.ready.1,
        )
  ]

  -- To verify with the arguments of an installation that succeeded, which give no hash, answers what
  -- the installation answered.
  pub verify_policy-install_policy :
      (p : PolicyFiles Callable) (arguments : Fields) (old : Option (InstalledPolicy Callable))
      (answer : Payload)
      → lookup (codes "policy_sha") arguments ≡ none
      → (install_policy p arguments old).0 ≡ ok answer
      → verify_policy arguments (install_policy p arguments old).1 ≡ ok answer
  unfolding install_policy
  verify_policy-install_policy p arguments old answer n h =
      elim (Result-cases (read_policy p arguments)) [
        | inl (i, e) ↦
            rw (e, install_policy)
              (verified p arguments i (read_policy-IsRead p arguments i e) n
                ∙ rw (e, install_policy) at h)
        | inr (x, e) ↦ cc (rw (e, install_policy) at h)
      ]
