-- ===== src/Tests/Policy.antt =====
-- The policy, the plan and the invocation properties at concrete inputs.
use sofarpc_cli.Mcp.Execution.{
  after_policy, env_flag, env_list, execute, execute_plan_with_policy, execution_policy_from_env,
  finished, in_slot, invoke_limit_target_key, key_of_url, split_at, trimmed_items, true_words,
  again, acquire,
}
use sofarpc_cli.Mcp.Execution.Slots.{
  execute_plan_with_policy_keeps, execute_plan_with_policy_safe, met_after,
}
use sofarpc_cli.Mcp.InvokeLimiter.{
  InvokeLimiter, attempt, can_acquire_locked, enabled, in_use_at, release_func, take_slot,
}
use sofarpc_cli.Core.Errcode.{new_error, with_hint, Error}
use sofarpc_cli.Core.Target.Policy.{supports_direct_bolt, service_allowlist_for_sources}
use sofarpc_cli.Core.Target.{
  resolve, profile_defined, normalize_config, resolve_endpoint, default_config, build_layer_stack,
  config_from_input, normalize_resolved_target, resolve_active_profile, resolve_number,
  resolve_text,
}
use sofarpc_cli.Core.Target
use sofarpc_cli.Core.InvocationProps.{normalize, merge, keys_of, Source}
use sofarpc_cli.Core.Target.{Config, Sources}
use sofarpc_cli.Prelude.Result.{ok, Result}
use sofarpc_cli.Core.InvocationProps
use sofarpc_cli.Core.InvocationProps.{
  Declaration, Declarations, merge_declaration, merge_key, merge_keys, merge_sources,
  normalize_declaration, normalize_input, normalize_into, normalize_plan, redact, redact_as,
  redact_declaration, resolve_declaration, resolve_env, resolve_keys, sorted_keys,
}
use sofarpc_cli.Core.InvocationProps.Precedence.{effective, lookup-merge}
use sofarpc_cli.Core.InvocationProps.Replay.{normalize_plan-merge}
use sofarpc_cli.Core.InvocationProps.Resolve.{lookup-resolve, value_of}
use sofarpc_cli.Core.Invoke.Direct.{
  DirectCall, prepare, fails_with, prepare_direct, handled, direct_call, timeout_or_default,
}
use sofarpc_cli.Core.Invoke.Plan.{
  Plan, validate_executable_plan, plan_schema_version, validate_plan_schema, validate_replay_plan,
}
use sofarpc_cli.Core.Invoke.Policy.{
  validate, validate_real_invoke, normalize_policy_phase, split_target, validate_host,
  validate_direct, service_allowed, host_listed, direct_target_host_allowed, ambient_config,
  same_direct_target, service_allowlist_configured, validate_project_config, validate_config,
  validate_override, validate_target,
}
use sofarpc_cli.Core.Invoke.Policy.Gate.{IsAmbient, IsHostOpen, IsServiceOpen}
use sofarpc_cli.Core.Target.Address.{
  Net, has_text, starts_with, default_bolt_port, ensure_port, parse_direct_dial_address,
}
use sofarpc_cli.Prelude.{
  Bytes, List, Option, [], bytes_eq, bytes_eq_refl, codes, false, if◌then◌else◌, length, none, refl,
  some, true, ℕ, ◌++◌, ◌∷◌, ◌≡◌, ◌⊎◌,
}
use sofarpc_cli.Prelude.Int.{pos}
use sofarpc_cli.Prelude.Map.{Map, insert, lookup}
use sofarpc_cli.Prelude.Sort.{bytes_le, contains, insert_sorted, sort_strings}
use sofarpc_cli.Prelude.TrimSpace.{trim_space, drop_spaces, leading_space, trailing_space}

abbrev no_config : Config
no_config = record {
  mode = [];
  direct_url = [];
  protocol = [];
  serialization = [];
  unique_id = [];
  timeout_ms = pos 0;
  connect_timeout_ms = pos 0;
}

abbrev token : Declaration
token = record { value = none; env = codes " TOKEN "; unset = false; redacted = false }

abbrev tenant : Declaration
tenant = record { value = some (codes "a"); env = []; unset = false; redacted = false }

abbrev hidden : Declaration
hidden = record { value = none; env = []; unset = true; redacted = false }

-- the local source hides the tenant of the shared one
abbrev two_sources : List Source
two_sources =
    record {
      name = codes "project-local";
      declarations = (codes "tenant", hidden) ∷ (codes "token", token) ∷ [];
    }
    ∷ record { name = codes "project"; declarations = (codes "tenant", tenant) ∷ [] }
    ∷ []

abbrev merged : Declarations
merged =
    (codes "token", record { value = none; env = codes "TOKEN"; unset = false; redacted = true })
    ∷ []

merge_two : merge two_sources ≡ ok merged
unfolding merge merge_sources normalize_input normalize normalize_into normalize_declaration
    redact_as trim_space lookup insert bytes_eq sorted_keys keys_of sort_strings insert_sorted
    bytes_le merge_keys merge_key merge_declaration contains redact redact_declaration
merge_two = refl

lookup-merge_example : lookup (codes "tenant") merged ≡ effective (codes "tenant") two_sources
lookup-merge_example = lookup-merge two_sources merged (codes "tenant") merge_two

abbrev token_environment : Bytes → Option Bytes
token_environment name = if bytes_eq name (codes "TOKEN") then some (codes "x") else none

normalize_merged : normalize_plan merged ≡ ok merged
unfolding normalize_plan normalize normalize_into normalize_declaration redact_as trim_space lookup
    insert bytes_eq
normalize_merged = refl

abbrev baggage : Map Bytes
baggage = (codes "token", codes "x") ∷ []

resolve-merged : InvocationProps.resolve token_environment merged ≡ ok baggage
unfolding InvocationProps.resolve normalize_plan normalize normalize_into normalize_declaration
    redact_as trim_space lookup insert bytes_eq sorted_keys keys_of sort_strings insert_sorted
    bytes_le resolve_keys resolve_declaration resolve_env
resolve-merged = refl

lookup-resolve_example :
    lookup (codes "token") baggage ≡ value_of token_environment (lookup (codes "token") merged)
lookup-resolve_example =
    lookup-resolve token_environment merged merged baggage (codes "token") normalize_merged
      resolve-merged

-- addresses without a scheme, with one host that has a port
abbrev small_net : Net
small_net = record {
  url_host = λ s. none;
  split_host_port = λ s. if bytes_eq s (codes "h:1") then some (codes "h", codes "1") else none;
  join_host_port = λ h p. h ++ codes ":" ++ p;
  equal_fold = bytes_eq;
  equal_fold_refl = bytes_eq_refl;
}

abbrev small_sources : Sources
small_sources = record {
  env = no_config;
  project = record no_config { direct_url = codes "h:1" };
  project_local = no_config;
  project_policy = record { allowed_services = codes "a.S" ∷ []; allowed_services_set = true };
  project_local_policy = record { allowed_services = []; allowed_services_set = false };
  project_invocation_properties = [];
  project_local_invocation_properties = [];
  project_root = [];
  config_errors = [];
  project_profiles = [];
  project_local_profiles = [];
  default_profile = [];
  project_profile_invocation_properties = [];
  project_local_profile_invocation_properties = [];
}

abbrev small_plan : Plan ℕ
small_plan = record {
  schema_version = codes "sofarpc.invoke.plan/v2";
  service = codes "a.S";
  method = codes "m";
  param_types = codes "int" ∷ [];
  return_type = [];
  args = 7 ∷ [];
  version = [];
  target_app_name = [];
  target = record no_config { mode = codes "direct"; direct_url = codes " h:1 " };
  invocation_properties = merged;
  contract_source = codes "trusted";
  arg_source = codes "user";
  profile = [];
}

abbrev small_environment : Bytes → Bytes
small_environment name =
    if bytes_eq name (codes "SOFARPC_ALLOW_INVOKE")
    then codes " true"
    else if bytes_eq name (codes "SOFARPC_ALLOWED_TARGET_HOSTS")
    then codes "x, h"
    else []

abbrev one_slot : InvokeLimiter
one_slot = record {
  cfg = record { global_limit = pos 1; per_target_limit = pos 1; queue_timeout = pos 0 };
  global_in_use = 0;
  per_target = [];
  notify = 0;
}

abbrev answers : DirectCall ℕ → Result Error ℕ
answers call = ok 42

-- one slot, which another call holds
abbrev full_slot : InvokeLimiter
full_slot = record one_slot { global_in_use = 1 }

small_execution :
    (execute_plan_with_policy small_net
      (λ s. s)
      small_environment
      token_environment
      5
      answers
      small_plan
      (codes "invoke")
      small_sources
      one_slot
      []).1
    ≡ finished (ok 42)
unfolding execute_plan_with_policy after_policy in_slot execute execution_policy_from_env
    service_allowlist_for_sources env_flag true_words env_list split_at trimmed_items contains
    invoke_limit_target_key key_of_url acquire again attempt enabled can_acquire_locked take_slot
    release_func validate prepare validate_project_config validate_real_invoke
    service_allowlist_configured service_allowed validate_target validate_config validate_direct
    validate_override validate_host ambient_config resolve resolve_active_profile
    normalize_resolved_target Target.merge resolve_endpoint resolve_text resolve_number
    build_layer_stack config_from_input default_config profile_defined direct_target_host_allowed
    host_listed normalize_policy_phase same_direct_target split_target bytes_eq trim_space
    drop_spaces leading_space trailing_space lookup new_error with_hint normalize_config has_text
    starts_with parse_direct_dial_address ensure_port default_bolt_port validate_executable_plan
    validate_replay_plan validate_plan_schema plan_schema_version normalize_plan normalize
    normalize_into normalize_declaration redact_as supports_direct_bolt prepare_direct direct_call
    handled fails_with timeout_or_default InvocationProps.resolve resolve_keys resolve_declaration
    resolve_env sorted_keys sort_strings keys_of insert insert_sorted bytes_le
small_execution = refl

execute_plan_with_policy_safe_example :
    let p = execution_policy_from_env small_environment small_sources in
    (call : DirectCall ℕ) × (answers call ≡ ok 42)
    × (p.allow_invoke ≡ true)
    × (length small_sources.config_errors ≡ 0)
    × IsServiceOpen p call.service
    × ((p.allow_target_override ≡ true) ⊎ IsAmbient small_net p call.addr)
    × ((length p.allowed_target_hosts ≡ 0) ⊎ IsHostOpen small_net p call.addr)
execute_plan_with_policy_safe_example =
    execute_plan_with_policy_safe small_net (λ s. s) small_environment token_environment 5 answers
      small_plan (codes "invoke") small_sources one_slot [] 42 small_execution

execute_plan_with_policy_keeps_example :
    let l' =
      (execute_plan_with_policy small_net
        (λ s. s)
        small_environment
        token_environment
        5
        answers
        small_plan
        (codes "invoke")
        small_sources
        full_slot
        (one_slot ∷ [])).0 in
    let seen =
      met_after
        (validate small_net
          (execution_policy_from_env small_environment small_sources)
          small_plan
          (codes "invoke"))
        (invoke_limit_target_key small_net (λ s. s) small_plan)
        full_slot
        (one_slot ∷ []) in
    (l'.global_in_use ≡ seen.global_in_use)
    × (in_use_at (codes "h:1") l' ≡ in_use_at (codes "h:1") seen)
execute_plan_with_policy_keeps_example =
    execute_plan_with_policy_keeps small_net (λ s. s) small_environment token_environment 5 answers
      small_plan (codes "invoke") small_sources full_slot (one_slot ∷ []) (codes "h:1")

normalize_plan-merge_example : normalize_plan merged ≡ ok merged
normalize_plan-merge_example = normalize_plan-merge two_sources merged merge_two
