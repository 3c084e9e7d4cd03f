-- ===== src/Core/Invoke/Plan.antt =====
-- internal/core/invoke/plan.go: the plan of a call and its validation. `Arg` is the type of an
-- argument, Go's any.
use sofarpc_cli.Core.Errcode.{Code, Error}
use sofarpc_cli.Prelude.Result.{Result, ok, guard, ◌>>=◌, ◌>>◌, map_err}
use sofarpc_cli.Core.Errcode.{
  args_invalid, invocation_rejected, new_error, plan_version_unsupported, target_missing, with_hint,
}
use sofarpc_cli.Core.InvocationProps.{Declarations, normalize_plan}
use sofarpc_cli.Core.Target.{Config}
use sofarpc_cli.Core.Target.Policy.{supports_direct_bolt}
use sofarpc_cli.Prelude.{Bytes, List, bytes_eq, codes, is_empty, length, not, ◌==◌, ◌||◌}
use sofarpc_cli.Prelude.TrimSpace.{trim_space}

pub record Plan (Arg : Type 0) : Type 0 where
  pub schema_version : Bytes
  pub service : Bytes
  pub method : Bytes
  pub param_types : List Bytes
  pub return_type : Bytes
  pub args : List Arg
  pub version : Bytes
  pub target_app_name : Bytes
  pub target : Config
  pub invocation_properties : Declarations
  pub contract_source : Bytes
  pub arg_source : Bytes
  pub profile : Bytes

unfoldable pub plan_schema_version : Bytes
plan_schema_version = codes "sofarpc.invoke.plan/v2"

refuse : Code → Bytes → Bytes → Error
unfolding new_error with_hint
refuse code phase tool = with_hint tool (new_error code phase)

module _ {Arg : Type 0} where
  unfoldable pub validate_plan_schema : Plan Arg → Bytes → Result Error (Unit {0})
  unfolding refuse plan_schema_version
  validate_plan_schema plan phase =
      guard (bytes_eq (trim_space plan.schema_version) plan_schema_version)
        (refuse plan_version_unsupported phase (codes "sofarpc_invoke"))

  unfoldable pub validate_replay_plan : Plan Arg → Bytes → Result Error (Unit {0})
  unfolding refuse
  validate_replay_plan plan phase = do
    validate_plan_schema plan phase
    guard (not (is_empty (trim_space plan.service) || is_empty (trim_space plan.method)))
        (refuse args_invalid phase (codes "sofarpc_invoke"))
    guard (length plan.args == length plan.param_types)
        (refuse args_invalid phase (codes "sofarpc_invoke"))
    guard (not (is_empty (trim_space plan.target.mode)))
        (refuse target_missing phase (codes "sofarpc_target"))
    properties ←
        map_err (λ e. refuse args_invalid phase (codes "sofarpc_doctor"))
          (normalize_plan plan.invocation_properties)
    ok tt

  unfoldable pub validate_executable_plan : Plan Arg → Bytes → Result Error (Unit {0})
  unfolding refuse
  validate_executable_plan plan phase = do
    validate_replay_plan plan phase
    guard (supports_direct_bolt plan.target)
        (refuse invocation_rejected phase (codes "sofarpc_doctor"))
