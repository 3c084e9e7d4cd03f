-- ===== src/Mcp/Execution/Slots.antt =====
-- An execution keeps no slot of the limiter, and what was finished has passed the policy.
use sofarpc_cli.Prelude.Result.{Result, ok, err, >>=-eq-ok, Result-cases}
use sofarpc_cli.Core.Invoke.Policy.Gate.{IsAmbient, IsHostOpen, IsServiceOpen, validate_call}
use sofarpc_cli.Core.Errcode.{Error}
use sofarpc_cli.Core.Invoke.Direct.{DirectCall, prepare}
use sofarpc_cli.Core.Invoke.Plan.{Plan}
use sofarpc_cli.Core.Target.{Sources}
use sofarpc_cli.Core.Target.Address.{Net}
use sofarpc_cli.Mcp.Execution.{
  in_slot, execution_policy_from_env, invoke_limit_target_key, execute, after_policy, finished,
  execute_plan_with_policy, validate, again, acquire,
}
use sofarpc_cli.Mcp.InvokeLimiter.{
  InvokeLimiter, give_back, in_use_at, release_target, take_slot, attempt, Attempt, release_func,
  unlimited, can_acquire_locked, granted, enabled, waits_on,
}
use sofarpc_cli.Prelude.{
  Bytes, arith, bytes_eq_iff, bytes_eq_refl, ◌+◌, ◌≡◌, ℕ, Option, Bool-cases, length, refl, ◌⊎◌,
  inl, inr, true, List, [], ◌∷◌,
}
use sofarpc_cli.Prelude.Map.{insert, lookup-delete, lookup-insert}

slot_returned :
    (key k : Bytes) (l : InvokeLimiter)
    → ((give_back key (take_slot key l)).global_in_use ≡ l.global_in_use)
      × (in_use_at k (give_back key (take_slot key l)) ≡ in_use_at k l)
unfolding give_back take_slot release_target
slot_returned key k l = ground (
  arith,
  lookup-insert key key (in_use_at key l + 1) l.per_target,
  lookup-insert key k (in_use_at key l + 1) l.per_target,
  bytes_eq_refl key,
  bytes_eq_iff key k,
  lookup-delete key k (insert key (in_use_at key l + 1) l.per_target),
  lookup-insert key k (in_use_at key l) (insert key (in_use_at key l + 1) l.per_target),
)

-- the state in which a call last looked for a slot
abbrev met_by : InvokeLimiter × Attempt → InvokeLimiter → InvokeLimiter → InvokeLimiter
met_by (l', unlimited) l woken = l
met_by (l', granted) l woken = l
met_by (l', waits_on channel) l woken = woken

abbrev pub met : Bytes → InvokeLimiter → List InvokeLimiter → InvokeLimiter
met key l [] = l
met key l (woken ∷ later) = met_by (attempt key l) l (met key woken later)

abbrev pub met_after :
    Result Error (Unit {0}) → Bytes → InvokeLimiter → List InvokeLimiter → InvokeLimiter
met_after (err e) key l later = l
met_after (ok u) key l later = met key l later

module _ (net : Net) (lower get_env : Bytes → Bytes) (look : Bytes → Option Bytes) (id : ℕ)
    {Arg Value : Type 0} (send : DirectCall Arg → Result Error Value) (plan : Plan Arg)
    (phase : Bytes) (sources : Sources) where
  in_slot_keeps :
      (key k : Bytes) (l : InvokeLimiter)
      → let l' = (in_slot net lower get_env look id send key plan phase (attempt key l)).0 in
        (l'.global_in_use ≡ l.global_in_use) × (in_use_at k l' ≡ in_use_at k l)
  unfolding in_slot attempt release_func
  in_slot_keeps key k l = elim (Bool-cases (enabled l)) [
    | inr off ↦ rw (off, attempt) (refl, refl)
    | inl on ↦ elim (Bool-cases (can_acquire_locked key l)) [
      | inl room ↦ rw (on, room, attempt) (slot_returned key k l)
      | inr full ↦ rw (on, full, attempt) (refl, refl)
    ]
  ]

  again_keeps :
      (key k : Bytes) (a round : InvokeLimiter × Attempt) (l woken : InvokeLimiter)
      → (let l' = (in_slot net lower get_env look id send key plan phase a).0 in
          (l'.global_in_use ≡ l.global_in_use) × (in_use_at k l' ≡ in_use_at k l))
      → (let l' = (in_slot net lower get_env look id send key plan phase round).0 in
          (l'.global_in_use ≡ woken.global_in_use) × (in_use_at k l' ≡ in_use_at k woken))
      → let l' = (in_slot net lower get_env look id send key plan phase (again a round)).0 in
        (l'.global_in_use ≡ (met_by a l woken).global_in_use)
        × (in_use_at k l' ≡ in_use_at k (met_by a l woken))
  unfolding again
  again_keeps key k (l', unlimited) round l woken kept kept_later = kept
  again_keeps key k (l', granted) round l woken kept kept_later = kept
  again_keeps key k (l', waits_on channel) round l woken kept kept_later = kept_later

  acquire_keeps :
      (key k : Bytes) (l : InvokeLimiter) (later : List InvokeLimiter)
      → let l' = (in_slot net lower get_env look id send key plan phase (acquire key l later)).0 in
        (l'.global_in_use ≡ (met key l later).global_in_use)
        × (in_use_at k l' ≡ in_use_at k (met key l later))
  unfolding acquire
  acquire_keeps key k l [] = in_slot_keeps key k l
  acquire_keeps key k l (woken ∷ later) =
      again_keeps key k (attempt key l) (acquire key woken later) l (met key woken later)
        (in_slot_keeps key k l) (acquire_keeps key k woken later)

  -- Whatever becomes of a plan, busy, failed or answered, the limiter counts afterwards what it
  -- counted when the call last looked for a slot, be that at once or after it has waited: the global
  -- number of calls, and that of every target. A plan that the policy rejects leaves what was there.
  -- No other call changes the limiter while this one is on the wire.
  pub execute_plan_with_policy_keeps :
      (l : InvokeLimiter) (later : List InvokeLimiter) (k : Bytes)
      → let l' =
          (execute_plan_with_policy net lower get_env look id send plan phase sources l later).0 in
        let seen =
          met_after
            (validate net (execution_policy_from_env get_env sources) plan phase)
            (invoke_limit_target_key net lower plan)
            l
            later in
        (l'.global_in_use ≡ seen.global_in_use) × (in_use_at k l' ≡ in_use_at k seen)
  unfolding execute_plan_with_policy after_policy
  execute_plan_with_policy_keeps l later k =
      elim (Result-cases (validate net (execution_policy_from_env get_env sources) plan phase)) [
        | inr (e, stopped) ↦ rw (stopped, execute_plan_with_policy) (refl, refl)
        | inl (u, passed) ↦
            rw (passed, execute_plan_with_policy)
              (acquire_keeps (invoke_limit_target_key net lower plan) k l later)
      ]

  in_slot_finished :
      (key : Bytes) (v : Value) (r : InvokeLimiter × Attempt)
      → (in_slot net lower get_env look id send key plan phase r).1 ≡ finished (ok v)
      → execute net lower get_env look id send plan phase ≡ ok v
  unfolding in_slot
  in_slot_finished key v (l', unlimited) h = cc
  in_slot_finished key v (l', granted) h = cc
  in_slot_finished key v (l', waits_on c) h = absurd (cc)

  -- A value comes back only from a call that was sent, and for that call these hold: real calls are
  -- enabled in the environment; no project file has an error; the project's list of allowed services
  -- names the called service or all; the address that is dialled is the configured one, unless the
  -- environment allows overrides; and the environment's list of hosts is empty or names that address.
  pub execute_plan_with_policy_safe :
      (l : InvokeLimiter) (later : List InvokeLimiter) (v : Value)
      → (execute_plan_with_policy net lower get_env look id send plan phase sources l later).1
        ≡ finished (ok v)
      → let p = execution_policy_from_env get_env sources in
        (call : DirectCall Arg) × (send call ≡ ok v)
        × (p.allow_invoke ≡ true)
        × (length sources.config_errors ≡ 0)
        × IsServiceOpen p call.service
        × ((p.allow_target_override ≡ true) ⊎ IsAmbient net p call.addr)
        × ((length p.allowed_target_hosts ≡ 0) ⊎ IsHostOpen net p call.addr)
  unfolding execute_plan_with_policy after_policy execute execution_policy_from_env
  execute_plan_with_policy_safe l later v h =
      let p = execution_policy_from_env get_env sources in
      elim (Result-cases (validate net p plan phase)) [
        | inr (e, stopped) ↦ absurd (let h' = rw (stopped, execute_plan_with_policy) at h in cc)
        | inl (u, passed) ↦
            let key = invoke_limit_target_key net lower plan in
            let h' = rw (passed, execute_plan_with_policy) at h in
            let (call, made, answered) =
              >>=-eq-ok (prepare net look id plan phase) send
                (in_slot_finished key v (acquire key l later) h') in
            let (allow, no_errors, services, override, host) =
              validate_call net look id p plan phase call passed made in
            (call, answered, allow, no_errors, services, override, host)
      ]
