-- ===== src/Core/Errcode.antt =====
-- internal/errcode/errcode.go: the structured errors. Of a hint the next tool is kept; the text of a
-- message and of a reason is left out.
use sofarpc_cli.Prelude.{Bytes, Option, none, some}

pub data Code : Type 0 where
  target_missing target_invalid target_unreachable target_connect_failed : Code
  service_missing method_missing args_invalid profile_not_defined : Code
  method_ambiguous method_not_found contract_unresolvable facade_not_configured : Code
  plan_version_unsupported serialize_failed deserialize_failed invocation_timeout : Code
  protocol_failed invocation_rejected invocation_busy internal_failure : Code

pub record Error : Type 0 where
  pub code : Code
  pub phase : Bytes
  pub next_tool : Option Bytes

-- New
unfoldable pub new_error : Code → Bytes → Error
new_error code phase = record { code = code; phase = phase; next_tool = none }

unfoldable pub with_hint : Bytes → Error → Error
with_hint next_tool e = record e { next_tool = some next_tool }
