-- ===== src/Core/Invoke/Direct.antt =====
-- internal/core/invoke/direct.go and execute.go: how a plan becomes a call on the wire, and what a
-- decoded reply becomes. The network and the codec stand between the two.
use sofarpc_cli.Wire.Writer.{word}
use sofarpc_cli.Core.Errcode.{Code, Error}
use sofarpc_cli.Prelude.Result.{Result, ok, err, ◌>>=◌, ◌>>◌, map_err}
use sofarpc_cli.Core.InvocationProps
use sofarpc_cli.Core.Errcode.{
  args_invalid, deserialize_failed, invocation_rejected, invocation_timeout, new_error,
  protocol_failed, serialize_failed, target_connect_failed, target_invalid, with_hint,
}
use sofarpc_cli.Core.Invoke.Plan.{Plan, validate_executable_plan}
use sofarpc_cli.Core.Target.Address.{Net, has_text, parse_direct_dial_address}
use sofarpc_cli.Core.Target.Policy.{supports_direct_bolt}
use sofarpc_cli.Prelude.{
  Bool, Bytes, List, Option, codes, if◌then◌else◌, is_empty, none, not, some, ℕ, ◌%◌, ◌+◌, ◌==◌,
  ◌^◌, ◌||◌, ltb, ◌-◌,
}
use sofarpc_cli.Prelude.Int.{ltb_ℤ, pos, ℤ, negsuc, ◌*ℤ◌}
use sofarpc_cli.Prelude.Map.{Map}
use sofarpc_cli.Prelude.TrimSpace.{trim_space}

-- the RequestSpec and the DirectInvokeOptions of a call
pub record DirectCall (Arg : Type 0) : Type 0 where
  pub service : Bytes
  pub method : Bytes
  pub param_types : List Bytes
  pub args : List Arg
  pub version : Bytes
  pub unique_id : Bytes
  pub target_app_name : Bytes
  pub request_baggage : Map Bytes
  pub addr : Bytes
  pub timeout : ℤ
  pub request_id : ℕ

-- DecodedResponse, as far as the outcome depends on it
pub record DecodedResponse (Value : Type 0) : Type 0 where
  pub is_error : Bool
  pub error_msg : Bytes
  pub app_response : Value

unfoldable pub fails_with : Code → Bytes → Bytes → Error
unfolding new_error with_hint
fails_with code phase tool = with_hint tool (new_error code phase)

-- One round of nextRequestID on the uint32 counter, and the second that a 0 calls for.
unfoldable pub next_request_id : ℕ → ℕ
next_request_id counter =
    let id = (counter + 1) % 2 ^ 32 in if id == 0 then (id + 1) % 2 ^ 32 else id

-- time.Duration(ms) * time.Millisecond, which wraps to an int64
unfoldable pub duration_of_ms : ℤ → ℤ
unfolding word ◌*ℤ◌
duration_of_ms ms =
    let bits = word (2 ^ 64) (ms *ℤ pos 1000000) in
    if ltb bits (2 ^ 63) then pos bits else negsuc (2 ^ 64 - 1 - bits)

unfoldable pub timeout_or_default : ℤ → ℤ
unfolding duration_of_ms
timeout_or_default ms =
    let timeout = duration_of_ms ms in if ltb_ℤ (pos 0) timeout then timeout else pos 3000000000

-- `look` is os.LookupEnv, and `id` the request id that has been drawn.
module _ (net : Net) (look : Bytes → Option Bytes) (id : ℕ) {Arg : Type 0} where
  unfoldable pub direct_call : Plan Arg → Map Bytes → Bytes → DirectCall Arg
  direct_call plan baggage addr = record {
    service = plan.service;
    method = plan.method;
    param_types = plan.param_types;
    args = plan.args;
    version = plan.version;
    unique_id = plan.target.unique_id;
    target_app_name = plan.target_app_name;
    request_baggage = baggage;
    addr = addr;
    timeout = timeout_or_default plan.target.timeout_ms;
    request_id = id;
  }

  -- ExecuteDirectIfPossible up to its call of InvokeDirect, none where it does not handle the plan
  unfoldable pub prepare_direct : Plan Arg → Bytes → Result Error (Option (DirectCall Arg))
  unfolding direct_call timeout_or_default
  prepare_direct plan phase = if not (supports_direct_bolt plan.target) then ok none else do
    baggage ←
        map_err (λ e. fails_with args_invalid phase (codes "sofarpc_doctor"))
          (InvocationProps.resolve look plan.invocation_properties)
    addr ←
        map_err (λ e. fails_with target_invalid phase (codes "sofarpc_target"))
          (parse_direct_dial_address net plan.target.direct_url)
    ok (some (direct_call plan baggage addr))

  unfoldable pub handled : Bytes → Option (DirectCall Arg) → Result Error (DirectCall Arg)
  handled phase none = err (fails_with invocation_rejected phase (codes "sofarpc_doctor"))
  handled phase (some call) = ok call

  -- Execute up to the call on the wire
  unfoldable pub prepare : Plan Arg → Bytes → Result Error (DirectCall Arg)
  unfolding handled
  prepare plan phase = do
    validate_executable_plan plan phase
    call ← prepare_direct plan phase
    handled phase call

-- what a reply on the wire becomes, none standing for one with no payload
unfoldable pub check_reply :
    {Value : Type 0} → Option (DecodedResponse Value) → Bytes → Result Error Value
unfolding new_error
check_reply none phase = err (new_error deserialize_failed phase)
check_reply (some r) phase =
    if r.is_error || not (is_empty (trim_space r.error_msg))
    then err (new_error invocation_rejected phase)
    else ok r.app_response

-- `lower` is strings.ToLower.
unfoldable pub classify_direct_invoke_error : (Bytes → Bytes) → Bytes → Bytes → Error
unfolding fails_with
classify_direct_invoke_error lower phase words =
    let msg = lower words in
    let says = λ (part : Bytes). has_text part msg in
    if says (codes "context deadline exceeded")
      || says (codes "timeout")
      || says (codes "i/o timeout")
    then fails_with invocation_timeout phase (codes "sofarpc_doctor")
    else if says (codes "dial")
        || says (codes "connection refused")
        || says (codes "no such host")
        || says (codes "network is unreachable")
        || says (codes "cannot assign requested address")
    then fails_with target_connect_failed phase (codes "sofarpc_target")
    else if says (codes "hessian")
        || says (codes "encode")
        || says (codes "serialize")
        || says (codes "marshal")
    then fails_with serialize_failed phase (codes "sofarpc_describe")
    else fails_with protocol_failed phase (codes "sofarpc_doctor")
