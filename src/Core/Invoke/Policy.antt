-- ===== src/Core/Invoke/Policy.antt =====
-- internal/core/invoke/policy.go: what a real call must pass. `Net` is what the code uses of the
-- network libraries.
pub mod Gate
use sofarpc_cli.Wire.Encoder.{Arg}
use sofarpc_cli.Core.Errcode.{Code, Error}
use sofarpc_cli.Core.Target.{resolve, empty_input}
use sofarpc_cli.Prelude.Result.{Result, ok, err, guard, ◌>>=◌, ◌>>◌, map_err}
use sofarpc_cli.Core.Errcode.{invocation_rejected, new_error, target_invalid, with_hint}
use sofarpc_cli.Core.Invoke.Plan.{Plan}
use sofarpc_cli.Core.Target.{Config, Sources, mode_direct, normalize_resolved_target, Input}
use sofarpc_cli.Core.Target.Address.{AddressError, Net, host_invalid, parse_direct_dial_address}
use sofarpc_cli.Prelude.{
  Bool, Bytes, List, any, bytes_eq, codes, if◌then◌else◌, is_empty, length, ltb, none, not, some,
  true, ◌&&◌, ◌==◌, ◌||◌,
}
use sofarpc_cli.Prelude.TrimSpace.{trim_space}

pub record ExecutionPolicy : Type 0 where
  pub allow_invoke : Bool
  pub allowed_services : List Bytes
  pub allowed_services_configured : Bool
  pub allowed_services_source : Bytes
  pub allow_target_override : Bool
  pub allowed_target_hosts : List Bytes
  pub sources : Sources

rejected : Code → Bytes → Bytes → Error
unfolding new_error with_hint
rejected code phase tool = with_hint tool (new_error code phase)

unfoldable pub normalize_policy_phase : Bytes → Bytes
normalize_policy_phase phase = if is_empty (trim_space phase) then codes "invoke" else phase

unfoldable pub service_allowlist_configured : ExecutionPolicy → Bool
service_allowlist_configured p = p.allowed_services_configured || ltb 0 (length p.allowed_services)

unfoldable pub service_allowed : ExecutionPolicy → Bytes → Bool
service_allowed p service =
    service_allowlist_configured p
    && any (λ allowed. bytes_eq allowed (codes "*") || bytes_eq allowed service) p.allowed_services

unfoldable pub validate_project_config : ExecutionPolicy → Bytes → Result Error (Unit {0})
unfolding rejected normalize_policy_phase
validate_project_config p phase =
    guard (length p.sources.config_errors == 0)
      (rejected invocation_rejected (normalize_policy_phase phase) (codes "sofarpc_target"))

unfoldable pub validate_real_invoke : ExecutionPolicy → Bytes → Bytes → Result Error (Unit {0})
unfolding rejected normalize_policy_phase
validate_real_invoke p service phase = do
  guard p.allow_invoke
      (rejected invocation_rejected (normalize_policy_phase phase) (codes "sofarpc_invoke"))
  guard (service_allowlist_configured p)
      (rejected invocation_rejected (normalize_policy_phase phase) (codes "sofarpc_init_project"))
  guard (service_allowed p service)
      (rejected invocation_rejected (normalize_policy_phase phase) (codes "sofarpc_doctor"))

-- what a call with no fields of its own resolves to
unfoldable pub ambient_config : Sources → Config
unfolding normalize_resolved_target
ambient_config sources = normalize_resolved_target (resolve empty_input sources).target

-- the list that is open to one of these names
unfoldable pub host_listed : Net → List Bytes → Bytes → Bytes → Bytes → Bool
host_listed net hosts host dial_target normalized_dial =
    any
      (λ allowed.
        bytes_eq allowed (codes "*")
        || net.equal_fold allowed host
        || net.equal_fold allowed dial_target
        || net.equal_fold allowed normalized_dial)
      hosts

module _ (net : Net) where
  unfoldable pub same_direct_target : Bytes → Bytes → Result AddressError Bool
  same_direct_target left right = do
    left_dial ← parse_direct_dial_address net left
    right_dial ← parse_direct_dial_address net right
    ok (net.equal_fold left_dial right_dial)

  -- none stands for an address that SplitHostPort refuses
  unfoldable pub split_target : Bytes → Result AddressError (Bytes × Bytes)
  split_target dial = elim (net.split_host_port dial) [ none ↦ err host_invalid | some p ↦ ok p ]

  unfoldable pub direct_target_host_allowed : ExecutionPolicy → Bytes → Result AddressError Bool
  unfolding split_target
  direct_target_host_allowed p url = if length p.allowed_target_hosts == 0 then ok true else do
    dial ← parse_direct_dial_address net url
    (host, port) ← split_target dial
    ok (host_listed net p.allowed_target_hosts host dial (net.join_host_port host port))

  -- the target against the one that the configuration gives
  unfoldable pub validate_override : ExecutionPolicy → Bytes → Bytes → Result Error (Unit {0})
  unfolding rejected
  validate_override p url phase =
      let ambient = ambient_config p.sources in
      if p.allow_target_override
      then ok tt
      else if is_empty ambient.direct_url
      then err (rejected invocation_rejected phase (codes "sofarpc_target"))
      else do
        same ←
            map_err (λ e. rejected target_invalid phase (codes "sofarpc_target"))
              (same_direct_target url ambient.direct_url)
        guard same (rejected invocation_rejected phase (codes "sofarpc_target"))

  unfoldable pub validate_host : ExecutionPolicy → Bytes → Bytes → Result Error (Unit {0})
  unfolding rejected
  validate_host p url phase = do
    allowed ←
        map_err (λ e. rejected target_invalid phase (codes "sofarpc_target"))
          (direct_target_host_allowed p url)
    guard allowed (rejected invocation_rejected phase (codes "sofarpc_doctor"))

  unfoldable pub validate_direct : ExecutionPolicy → Bytes → Bytes → Result Error (Unit {0})
  validate_direct p url phase = validate_override p url phase >> validate_host p url phase

  unfoldable pub validate_config : ExecutionPolicy → Config → Bytes → Result Error (Unit {0})
  validate_config p cfg phase =
      if bytes_eq cfg.mode mode_direct && not (is_empty cfg.direct_url)
      then validate_direct p cfg.direct_url phase
      else ok tt

  module _ {Arg : Type 0} where
    unfoldable pub validate_target : ExecutionPolicy → Plan Arg → Bytes → Result Error (Unit {0})
    validate_target p plan phase = do
      validate_project_config p (normalize_policy_phase phase)
      validate_config p (normalize_resolved_target plan.target) (normalize_policy_phase phase)

    unfoldable pub validate : ExecutionPolicy → Plan Arg → Bytes → Result Error (Unit {0})
    validate p plan phase = do
      validate_project_config p phase
      validate_real_invoke p plan.service phase
      validate_target p plan phase
