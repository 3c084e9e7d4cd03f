-- ===== src/Mcp/Execution.antt =====
-- internal/mcp/execution.go, with the reading of the environment of core/invoke/policy.go and the key
-- of invoke_limiter.go: a plan passes the policy, takes a slot, is called, and gives the slot back.
pub mod Slots
use sofarpc_cli.Mcp.InvokeLimiter.{unlimited, granted, waits_on, Attempt}
use sofarpc_cli.Core.Errcode.{Error}
use sofarpc_cli.Prelude.Result.{Result, ok, err, ◌>>=◌}
use sofarpc_cli.Core.Errcode.{invocation_busy, new_error, with_hint}
use sofarpc_cli.Core.Invoke.Direct.{DirectCall, prepare}
use sofarpc_cli.Core.Invoke.Plan.{Plan}
use sofarpc_cli.Core.Invoke.Policy.{ExecutionPolicy, validate}
use sofarpc_cli.Core.Target.{Sources, normalize_resolved_target}
use sofarpc_cli.Core.Target.Address.{Net, parse_direct_dial_address}
use sofarpc_cli.Core.Target.Policy.{allowed_services, service_allowlist_for_sources}
use sofarpc_cli.Mcp.InvokeLimiter.{InvokeLimiter, attempt, release_func}
use sofarpc_cli.Prelude.{
  Bool, Bytes, List, Option, [], codes, false, if◌then◌else◌, is_empty, not, reverse, ℕ, ◌++◌, ◌==◌,
  ◌∷◌,
}
use sofarpc_cli.Prelude.Sort.{contains}
use sofarpc_cli.Prelude.TrimSpace.{trim_space}

-- strconv.ParseBool, for the values that it takes for true
unfoldable pub true_words : List Bytes
true_words = codes "1" ∷ codes "t" ∷ codes "T" ∷ codes "true" ∷ codes "TRUE" ∷ codes "True" ∷ []

-- `raw` is what os.Getenv returns.
unfoldable pub env_flag : Bytes → Bool
unfolding true_words
env_flag raw = contains (trim_space raw) true_words

-- strings.Split at a byte, `part` being the part that is being read, turned round
unfoldable pub split_at : ℕ → Bytes → Bytes → List Bytes
split_at sep part [] = reverse part ∷ []
split_at sep part (c ∷ cs) =
    if c == sep then reverse part ∷ split_at sep [] cs else split_at sep (c ∷ part) cs

unfoldable pub trimmed_items : List Bytes → List Bytes
trimmed_items [] = []
trimmed_items (part ∷ items) =
    let rest = trimmed_items items in
    if is_empty (trim_space part) then rest else trim_space part ∷ rest

unfoldable pub env_list : Bytes → List Bytes
env_list raw = trimmed_items (split_at b',' [] (trim_space raw))

-- `get_env` is os.Getenv.
unfoldable pub execution_policy_from_env : (Bytes → Bytes) → Sources → ExecutionPolicy
execution_policy_from_env get_env sources =
    let allowlist = service_allowlist_for_sources sources in
    record {
      allow_invoke = env_flag (get_env (codes "SOFARPC_ALLOW_INVOKE"));
      allowed_services = if allowlist.configured then allowlist.services else [];
      allowed_services_configured = allowlist.configured;
      allowed_services_source = if allowlist.configured then allowlist.source else [];
      allow_target_override = env_flag (get_env (codes "SOFARPC_ALLOW_TARGET_OVERRIDE"));
      allowed_target_hosts = env_list (get_env (codes "SOFARPC_ALLOWED_TARGET_HOSTS"));
      sources = sources;
    }

-- `lower` is strings.ToLower.
module _ (net : Net) (lower : Bytes → Bytes) where
  unfoldable pub key_of_url : Bytes → Bytes
  key_of_url url = elim (parse_direct_dial_address net url) [
    | ok dial ↦ lower dial
    | err e ↦ lower (trim_space url)
  ]

  unfoldable pub invoke_limit_target_key : {Arg : Type 0} → Plan Arg → Bytes
  unfolding key_of_url
  invoke_limit_target_key plan =
      let cfg = normalize_resolved_target plan.target in
      if not (is_empty cfg.direct_url)
      then key_of_url cfg.direct_url
      else if not (is_empty cfg.mode)
      then codes "mode:" ++ lower (trim_space cfg.mode)
      else codes "service:" ++ lower (trim_space plan.service)

-- another round of Acquire, where the one before has found no slot
unfoldable pub again : InvokeLimiter × Attempt → InvokeLimiter × Attempt → InvokeLimiter × Attempt
again (l, unlimited) round = (l, unlimited)
again (l, granted) round = (l, granted)
again (l, waits_on channel) round = round

-- The rounds of Acquire: `later` are the states in which a waiting call finds the limiter, each
-- when its channel is closed, until the time of the queue is over.
unfoldable pub acquire : Bytes → InvokeLimiter → List InvokeLimiter → InvokeLimiter × Attempt
unfolding again
acquire key l [] = attempt key l
acquire key l (woken ∷ later) = again (attempt key l) (acquire key woken later)

-- what the tool returns: an error that `Rejected` marks, or the outcome of Execute
pub data Execution (A : Type 0) : Type 0 where
  rejected : Error → Execution A
  finished : Result Error A → Execution A

-- The arguments of one execution: `send` is InvokeDirect with the reading of its reply.
module _ (net : Net) (lower get_env : Bytes → Bytes) (look : Bytes → Option Bytes) (id : ℕ)
    {Arg Value : Type 0} (send : DirectCall Arg → Result Error Value) where
  unfoldable pub execute : Plan Arg → Bytes → Result Error Value
  execute plan phase = prepare net look id plan phase >>= send

  unfoldable pub in_slot :
      Bytes → Plan Arg → Bytes → InvokeLimiter × Attempt → InvokeLimiter × Execution Value
  unfolding new_error with_hint
  in_slot key plan phase (l, unlimited) = (l, finished (execute plan phase))
  in_slot key plan phase (l, granted) = (release_func key false l, finished (execute plan phase))
  in_slot key plan phase (l, waits_on channel) =
      (l, rejected (with_hint (codes "sofarpc_doctor") (new_error invocation_busy phase)))

  unfoldable pub after_policy :
      Bytes
      → Plan Arg
      → Bytes
      → InvokeLimiter
      → List InvokeLimiter
      → Result Error (Unit {0})
      → InvokeLimiter × Execution Value
  after_policy key plan phase l later (err e) = (l, rejected e)
  after_policy key plan phase l later (ok u) = in_slot key plan phase (acquire key l later)

  -- No other call is taken to change the limiter while this one is on the wire.
  unfoldable pub execute_plan_with_policy :
      Plan Arg
      → Bytes
      → Sources
      → InvokeLimiter
      → List InvokeLimiter
      → InvokeLimiter × Execution Value
  unfolding after_policy
  execute_plan_with_policy plan phase sources l later =
      after_policy (invoke_limit_target_key net lower plan) plan phase l later
        (validate net (execution_policy_from_env get_env sources) plan phase)
