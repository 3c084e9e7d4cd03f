-- ===== src/Mcp/InvokeLimiter.antt =====
-- internal/mcp/invoke_limiter.go: the admission of real invokes. Each definition here is what runs
-- under the limiter's mutex in one piece; the channel `notify` is the number of channels closed
-- before it, so that closing it and making a new one adds one.
pub mod System
pub mod Invariant
pub mod Progress
use sofarpc_cli.Prelude.{
  ℕ, ◌+◌, ◌-◌, ◌/◌, Bool, true, false, not, ◌&&◌, ◌||◌, Option, none, some, [], ltb, leb,
  if◌then◌else◌, Bytes, is_empty,
}
use sofarpc_cli.Prelude.Int.{ℤ, pos, pos_part, ltb_ℤ}
use sofarpc_cli.Prelude.Map.{Map, lookup, insert, delete}

pub record InvokeLimiterConfig : Type 0 where
  pub global_limit : ℤ
  pub per_target_limit : ℤ
  pub queue_timeout : ℤ

pub record InvokeLimiter : Type 0 where
  pub cfg : InvokeLimiterConfig
  pub global_in_use : ℕ
  pub per_target : Map ℕ
  pub notify : ℕ

-- a negative limit becomes 0
abbrev clamp : ℤ → ℤ
clamp n = if ltb_ℤ n (pos 0) then pos 0 else n

unfoldable pub new_invoke_limiter : InvokeLimiterConfig → InvokeLimiter
new_invoke_limiter cfg = record {
  cfg = record {
    global_limit = clamp cfg.global_limit;
    per_target_limit = clamp cfg.per_target_limit;
    queue_timeout = clamp cfg.queue_timeout;
  };
  global_in_use = 0;
  per_target = [];
  notify = 0;
}

-- `l.perTarget[key]`: a missing key reads as 0
abbrev pub or_zero : Option ℕ → ℕ
or_zero none = 0
or_zero (some n) = n

abbrev pub in_use_at : Bytes → InvokeLimiter → ℕ
in_use_at key l = or_zero (lookup key l.per_target)

unfoldable pub enabled : InvokeLimiter → Bool
enabled l = ltb_ℤ (pos 0) l.cfg.global_limit || ltb_ℤ (pos 0) l.cfg.per_target_limit

-- `limit > 0 && used >= limit`
abbrev pub is_full : ℤ → ℕ → Bool
is_full limit used = ltb_ℤ (pos 0) limit && not (ltb_ℤ (pos used) limit)

unfoldable pub can_acquire_locked : Bytes → InvokeLimiter → Bool
can_acquire_locked key l =
    if is_full l.cfg.global_limit l.global_in_use
    then false
    else if not (is_empty key) && is_full l.cfg.per_target_limit (in_use_at key l)
    then false
    else true

-- `l.globalInUse++` and `l.perTarget[targetKey]++`
unfoldable pub take_slot : Bytes → InvokeLimiter → InvokeLimiter
take_slot key l = record l {
  global_in_use = l.global_in_use + 1;
  per_target = if is_empty key then l.per_target else insert key (in_use_at key l + 1) l.per_target;
}

pub data Attempt : Type 0 where
  unlimited granted : Attempt
  waits_on : ℕ → Attempt

-- One round of the loop of `Acquire`: the limiter afterwards, and whether the call returns or
-- goes to the select with the channel it has read.
unfoldable pub attempt : Bytes → InvokeLimiter → InvokeLimiter × Attempt
attempt key l =
    if not (enabled l)
    then (l, unlimited)
    else if can_acquire_locked key l
    then (take_slot key l, granted)
    else (l, waits_on l.notify)

-- what a release does to `l.perTarget`
unfoldable pub release_target : Bytes → InvokeLimiter → Map ℕ
release_target key l =
    if is_empty key
    then l.per_target
    else if leb (in_use_at key l) 1
    then delete key l.per_target
    else insert key (in_use_at key l - 1) l.per_target

unfoldable pub give_back : Bytes → InvokeLimiter → InvokeLimiter
give_back key l = record l {
  global_in_use = if ltb 0 l.global_in_use then l.global_in_use - 1 else l.global_in_use;
  per_target = release_target key l;
  notify = l.notify + 1;
}

-- What `releaseFunc` returns, called with its `sync.Once`: the flag says whether it has run.
unfoldable pub release_func : Bytes → Bool → InvokeLimiter → InvokeLimiter
unfolding give_back
release_func key done l = if done then l else give_back key l

pub record InvokeLimiterDiagnostics : Type 0 where
  pub is_enabled : Bool
  pub global_limit : ℤ
  pub global_in_use : ℕ
  pub per_target_limit : ℤ
  pub target : Bytes
  pub target_in_use : ℕ
  pub queue_timeout_ms : ℕ
  pub waiting_for_release : Bool

-- `QueueTimeout` counts nanoseconds.
unfoldable pub diagnostics_locked : Bytes → Bool → InvokeLimiter → InvokeLimiterDiagnostics
diagnostics_locked key waiting l = record {
  is_enabled = enabled l;
  global_limit = l.cfg.global_limit;
  global_in_use = l.global_in_use;
  per_target_limit = l.cfg.per_target_limit;
  target = key;
  target_in_use = if is_empty key then 0 else in_use_at key l;
  queue_timeout_ms = pos_part l.cfg.queue_timeout / 1000000;
  waiting_for_release = waiting;
}
