-- ===== src/Core/Invoke/Policy/Gate.antt =====
-- What a plan that passes the policy, and the call on the wire that it becomes, can rely on.
use sofarpc_cli.Prelude.Entries.{Has, any-Has, or_cases}
use sofarpc_cli.Core.Errcode.{Error}
use sofarpc_cli.Core.InvocationProps
use sofarpc_cli.Core.Invoke.Direct.{DirectCall, prepare, prepare_direct, handled, direct_call}
use sofarpc_cli.Core.Invoke.Plan.{Plan, validate_replay_plan, validate_executable_plan}
use sofarpc_cli.Core.Target.{mode_direct, normalize_config, normalize_resolved_target}
use sofarpc_cli.Prelude.TrimSpace.{trim_space}
use sofarpc_cli.Prelude.TrimSpace.Idempotent.{trim_space_idem}
use sofarpc_cli.Prelude.Result.{
  ok, guard, map_err, ok_injective, >>=-eq-ok, map_err_ok, guard_passed, >>_passed, Result,
}
use sofarpc_cli.Core.Invoke.Policy.{
  ExecutionPolicy, ambient_config, service_allowed, service_allowlist_configured,
  validate_real_invoke, direct_target_host_allowed, validate_override, same_direct_target,
  host_listed, split_target, normalize_policy_phase, validate_project_config, validate_host,
  validate_config, validate_direct, validate_target, validate,
}
use sofarpc_cli.Core.Target.Address.{Net, parse_direct_dial_address}
use sofarpc_cli.Core.Target.Policy.{supports_direct_bolt}
use sofarpc_cli.Prelude.{
  Bool-cases, Bytes, arith, bytes_eq, codes, inl, inr, refl, some, true, ℕ, ◌||◌, ◌≡◌, ◌⊎◌, ◌==◌,
  bytes_eq_iff, is_empty, length, ==_iff, ap, ◌∙◌, not, ◌&&◌, Option, sym, none,
}

-- The list of allowed services names the service, or all of them.
abbrev pub IsServiceOpen : ExecutionPolicy → Bytes → Type 0
IsServiceOpen p service =
    Has (λ allowed. (allowed ≡ codes "*") ⊎ (allowed ≡ service)) p.allowed_services

-- The address is the one that the configuration dials, in the sense of EqualFold.
abbrev pub IsAmbient : Net → ExecutionPolicy → Bytes → Type 0
IsAmbient net p addr =
    (dial : Bytes) × (parse_direct_dial_address net (ambient_config p.sources).direct_url ≡ ok dial)
    × (net.equal_fold addr dial ≡ true)

-- The list of allowed hosts names the host of the address, the address as it is, or with its parts
-- joined again, or all of them.
abbrev pub IsHostOpen : Net → ExecutionPolicy → Bytes → Type 0
IsHostOpen net p addr =
    (host : Bytes) × (port : Bytes) × (net.split_host_port addr ≡ some (host, port))
    × Has
        (λ allowed.
          (allowed ≡ codes "*")
          ⊎ ((net.equal_fold allowed host ≡ true)
              ⊎ ((net.equal_fold allowed addr ≡ true)
                  ⊎ (net.equal_fold allowed (net.join_host_port host port) ≡ true))))
        p.allowed_target_hosts

open_name :
    (a service : Bytes)
    → (bytes_eq a (codes "*") || bytes_eq a service) ≡ true
    → (a ≡ codes "*") ⊎ (a ≡ service)
open_name a service h = elim (or_cases (bytes_eq a (codes "*")) (bytes_eq a service) h) [
  | inl e ↦ inl ((bytes_eq_iff a (codes "*")).0 e)
  | inr e ↦ inr ((bytes_eq_iff a service).0 e)
]

validate_real_invoke_passed :
    (p : ExecutionPolicy) (service phase : Bytes)
    → validate_real_invoke p service phase ≡ ok tt
    → (p.allow_invoke ≡ true) × IsServiceOpen p service
unfolding validate_real_invoke service_allowed
validate_real_invoke_passed p service phase h =
    let (allow, h1) = >>_passed (guard p.allow_invoke _) _ h in
    let (configured, h2) = >>_passed (guard (service_allowlist_configured p) _) _ h1 in
    let open_test = guard_passed (service_allowed p service) _ h2 in
    let (a, i, found, holds) =
      any-Has (λ allowed. bytes_eq allowed (codes "*") || bytes_eq allowed service)
        p.allowed_services (ground arith) in
    (guard_passed p.allow_invoke _ allow, (a, i, found, open_name a service holds))

same_direct_target_passed :
    (net : Net) (left right addr : Bytes)
    → same_direct_target net left right ≡ ok true
    → parse_direct_dial_address net left ≡ ok addr
    → (dial : Bytes) × (parse_direct_dial_address net right ≡ ok dial)
      × (net.equal_fold addr dial ≡ true)
unfolding same_direct_target
same_direct_target_passed net left right addr h parsed =
    let h1 = rw parsed at h in
    let (dial, found, same) = >>=-eq-ok (parse_direct_dial_address net right) _ h1 in
    (dial, found, ok_injective same)

split_target_ok :
    (net : Net) (addr : Bytes) (q : Bytes × Bytes)
    → split_target net addr ≡ ok q
    → net.split_host_port addr ≡ some q
unfolding split_target
split_target_ok net addr q h = ground arith

validate_override_passed :
    (net : Net) (p : ExecutionPolicy) (url phase addr : Bytes)
    → validate_override net p url phase ≡ ok tt
    → parse_direct_dial_address net url ≡ ok addr
    → (p.allow_target_override ≡ true) ⊎ IsAmbient net p addr
unfolding validate_override
validate_override_passed net p url phase addr h parsed = elim (Bool-cases p.allow_target_override) [
  | inl allowed ↦ inl allowed
  | inr closed ↦ elim (Bool-cases (is_empty (ambient_config p.sources).direct_url)) [
    | inl missing ↦ absurd (let h' = rw (closed, missing) at h in cc)
    | inr found ↦
        let h1 = rw (closed, found) at h in
        let (same, matched, passed) =
          >>=-eq-ok (map_err _ (same_direct_target net url (ambient_config p.sources).direct_url)) _
            h1 in
        inr (
          same_direct_target_passed net url (ambient_config p.sources).direct_url addr
            (map_err_ok _ _ matched ∙ ap ok (guard_passed same _ passed)) parsed)
  ]
]

listed_name :
    (net : Net) (a host addr joined : Bytes)
    → (bytes_eq a (codes "*")
        || net.equal_fold a host
        || net.equal_fold a addr
        || net.equal_fold a joined)
      ≡ true
    → (a ≡ codes "*")
      ⊎ ((net.equal_fold a host ≡ true)
          ⊎ ((net.equal_fold a addr ≡ true) ⊎ (net.equal_fold a joined ≡ true)))
listed_name net a host addr joined h = ground (arith, bytes_eq_iff a (codes "*"))

direct_target_host_passed :
    (net : Net) (p : ExecutionPolicy) (url addr : Bytes)
    → direct_target_host_allowed net p url ≡ ok true
    → parse_direct_dial_address net url ≡ ok addr
    → (length p.allowed_target_hosts ≡ 0) ⊎ IsHostOpen net p addr
unfolding direct_target_host_allowed host_listed
direct_target_host_passed net p url addr h parsed =
    elim (Bool-cases (length p.allowed_target_hosts == 0)) [
      | inl none_set ↦ inl (ground arith)
      | inr some_set ↦
          let h1 = rw (some_set, parsed) at h in
          let ((host, port), split, listed) = >>=-eq-ok (split_target net addr) _ h1 in
          let (a, i, found, holds) = any-Has _ p.allowed_target_hosts (ok_injective listed) in
          inr (
            host,
            port,
            split_target_ok net addr (host, port) split,
            (a, i, found, listed_name net a host addr (net.join_host_port host port) holds),
          )
    ]

validate_host_passed :
    (net : Net) (p : ExecutionPolicy) (url phase addr : Bytes)
    → validate_host net p url phase ≡ ok tt
    → parse_direct_dial_address net url ≡ ok addr
    → (length p.allowed_target_hosts ≡ 0) ⊎ IsHostOpen net p addr
unfolding validate_host
validate_host_passed net p url phase addr h parsed =
    let (open_host, matched, passed) =
      >>=-eq-ok (map_err _ (direct_target_host_allowed net p url)) _ h in
    direct_target_host_passed net p url addr
      (map_err_ok _ _ matched ∙ ap ok (guard_passed open_host _ passed)) parsed

-- the address does not depend on white space around the URL
parse_trimmed :
    (net : Net) (url : Bytes)
    → parse_direct_dial_address net (trim_space url) ≡ parse_direct_dial_address net url
unfolding parse_direct_dial_address
parse_trimmed net url = rw (trim_space_idem url) refl

validate_target_passed :
    (net : Net) (p : ExecutionPolicy) {Arg : Type 0} (plan : Plan Arg) (phase addr : Bytes)
    → validate_target net p plan phase ≡ ok tt
    → supports_direct_bolt plan.target ≡ true
    → parse_direct_dial_address net plan.target.direct_url ≡ ok addr
    → (length p.sources.config_errors ≡ 0)
      × ((p.allow_target_override ≡ true) ⊎ IsAmbient net p addr)
      × ((length p.allowed_target_hosts ≡ 0) ⊎ IsHostOpen net p addr)
unfolding validate_target validate_config validate_direct supports_direct_bolt
    validate_project_config normalize_resolved_target normalize_config
validate_target_passed net p plan phase addr h direct parsed =
    let (config, h1) = >>_passed (validate_project_config p (normalize_policy_phase phase)) _ h in
    let cfg = normalize_resolved_target plan.target in
    let is_direct : (bytes_eq cfg.mode mode_direct && not (is_empty cfg.direct_url)) ≡ true =
      ground arith in
    let h2 = rw is_direct at h1 in
    let (override, host) =
      >>_passed (validate_override net p cfg.direct_url (normalize_policy_phase phase)) _ h2 in
    let parsed' = parse_trimmed net plan.target.direct_url ∙ parsed in
    (
      (==_iff (length p.sources.config_errors) 0).0 (guard_passed _ _ config),
      validate_override_passed net p cfg.direct_url (normalize_policy_phase phase) addr override
          parsed',
      validate_host_passed net p cfg.direct_url (normalize_policy_phase phase) addr host parsed',
    )

executable_direct :
    {Arg : Type 0} (plan : Plan Arg) (phase : Bytes)
    → validate_executable_plan plan phase ≡ ok tt
    → supports_direct_bolt plan.target ≡ true
unfolding validate_executable_plan
executable_direct plan phase h =
    guard_passed (supports_direct_bolt plan.target) _
      (>>_passed (validate_replay_plan plan phase) _ h).1

handled_same :
    (net : Net) (look : Bytes → Option Bytes) (id : ℕ) {Arg : Type 0} (phase : Bytes)
    (o : Option (DirectCall Arg)) (made call : DirectCall Arg)
    → (let r : Result Error (Option (DirectCall Arg)) = ok (some made) in r) ≡ ok o
    → handled net look id phase o ≡ ok call
    → made ≡ call
unfolding handled
handled_same net look id phase none made call e h = absurd (cc)
handled_same net look id phase (some c) made call e h = cc

-- what the call on the wire takes from its plan
prepare_direct_parts :
    (net : Net) (look : Bytes → Option Bytes) (id : ℕ) {Arg : Type 0} (plan : Plan Arg)
    (phase : Bytes) (call : DirectCall Arg)
    → prepare net look id plan phase ≡ ok call
    → (supports_direct_bolt plan.target ≡ true)
      × (parse_direct_dial_address net plan.target.direct_url ≡ ok call.addr)
      × (call.service ≡ plan.service)
unfolding prepare prepare_direct direct_call handled
prepare_direct_parts net look id plan phase call h =
    let (valid, h1) = >>_passed (validate_executable_plan plan phase) _ h in
    let (o, made, handed) = >>=-eq-ok (prepare_direct net look id plan phase) _ h1 in
    let direct = executable_direct plan phase valid in
    let made' = rw direct at made in
    let (baggage, resolved, made'') =
      >>=-eq-ok (map_err _ (InvocationProps.resolve look plan.invocation_properties)) _ made' in
    let (addr, parsed, built) =
      >>=-eq-ok (map_err _ (parse_direct_dial_address net plan.target.direct_url)) _ made'' in
    let same : direct_call net look id plan baggage addr ≡ call =
      handled_same net look id phase o _ call built handed in
    (
      direct,
      map_err_ok _ _ parsed ∙ ap (λ c. ok (DirectCall.addr c)) same,
      ap DirectCall.service (sym same),
    )

-- A plan that passes the policy, and that Execute then turns into a call, makes a call for which
-- these hold: real calls are enabled; no project file has an error; the list of allowed services
-- names the called service or all; the address that is dialled is the configured one, unless
-- overrides are allowed; and the list of allowed hosts is empty or names that address.
pub validate_call :
    (net : Net) (look : Bytes → Option Bytes) (id : ℕ) (p : ExecutionPolicy) {Arg : Type 0}
    (plan : Plan Arg) (phase : Bytes) (call : DirectCall Arg)
    → validate net p plan phase ≡ ok tt
    → prepare net look id plan phase ≡ ok call
    → (p.allow_invoke ≡ true)
      × (length p.sources.config_errors ≡ 0)
      × IsServiceOpen p call.service
      × ((p.allow_target_override ≡ true) ⊎ IsAmbient net p call.addr)
      × ((length p.allowed_target_hosts ≡ 0) ⊎ IsHostOpen net p call.addr)
unfolding validate
validate_call net look id p plan phase call h made =
    let (direct, parsed, same_service) = prepare_direct_parts net look id plan phase call made in
    let (config, h1) = >>_passed (validate_project_config p phase) _ h in
    let (real, target_check) = >>_passed (validate_real_invoke p plan.service phase) _ h1 in
    let (allow, services) = validate_real_invoke_passed p plan.service phase real in
    let (no_errors, override, host) =
      validate_target_passed net p plan phase call.addr target_check direct parsed in
    (allow, no_errors, rw same_service services, override, host)
