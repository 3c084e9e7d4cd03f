-- ===== src/Mcp/InvokeLimiter/System.antt =====
-- The limiter with the calls that use it: the permits that `Acquire` has handed out, and the calls
-- that stand at the select of `Acquire`. A step is one piece of work under the mutex, and any call
-- may be next.
use sofarpc_cli.Prelude.{
  ℕ, ◌+◌, ◌≡◌, ◌≢◌, Bool, true, false, not, ◌&&◌, List, [], ◌∷◌, ◌++◌, if◌then◌else◌, Bytes,
  bytes_eq,
}
use sofarpc_cli.Mcp.InvokeLimiter.{
  InvokeLimiterConfig, InvokeLimiter, new_invoke_limiter, attempt, granted, waits_on, release_func,
}

-- The function that `Acquire` returned: its target key, and its `sync.Once`.
pub record Permit : Type 0 where
  pub key : Bytes
  pub done : Bool

-- A call of `Acquire` at its select, with the channel that it has read.
pub record Waiter : Type 0 where
  pub key : Bytes
  pub channel : ℕ

pub record System : Type 0 where
  pub limiter : InvokeLimiter
  pub permits : List Permit
  pub waiters : List Waiter

abbrev pub start : InvokeLimiterConfig → System
start cfg = record { limiter = new_invoke_limiter cfg; permits = []; waiters = [] }

-- the permits handed out and not yet given back
abbrev pub live : List Permit → ℕ
live [] = 0
live (p ∷ ps) = (if p.done then 0 else 1) + live ps

-- those of one target
abbrev pub live_at : Bytes → List Permit → ℕ
live_at k [] = 0
live_at k (p ∷ ps) = (if not p.done && bytes_eq p.key k then 1 else 0) + live_at k ps

pub data Step : System → System → Type 0 where
  -- a call gets a slot at once, or after a wait
  acquire :
      {s : System} (key : Bytes)
      → (attempt key s.limiter).1 ≡ granted
      → Step s (record s {
        limiter = (attempt key s.limiter).0;
        permits = record { key = key; done = false } ∷ s.permits;
      })
  -- a call reads the channel and goes to its select
  park :
      {s : System} (key : Bytes) (channel : ℕ)
      → (attempt key s.limiter).1 ≡ waits_on channel
      → Step s (record s {
        limiter = (attempt key s.limiter).0;
        waiters = record { key = key; channel = channel } ∷ s.waiters;
      })
  -- a call leaves its select: its channel is closed and it tries again
  wake :
      {s : System} (before after : List Waiter) (w : Waiter)
      → s.waiters ≡ before ++ (w ∷ after)
      → w.channel ≢ s.limiter.notify
      → Step s (record s { waiters = before ++ after })
  -- a call leaves its select: its context is done, and it returns the busy error
  time_out :
      {s : System} (before after : List Waiter) (w : Waiter)
      → s.waiters ≡ before ++ (w ∷ after)
      → Step s (record s { waiters = before ++ after })
  -- a permit is given back, perhaps not for the first time
  release :
      {s : System} (before after : List Permit) (p : Permit)
      → s.permits ≡ before ++ (p ∷ after)
      → Step s (record s {
        limiter = release_func p.key p.done s.limiter;
        permits = before ++ (record p { done = true } ∷ after);
      })

pub data Reach (s : System) : System → Type 0 where
  here : Reach s s
  next : {t u : System} → Reach s t → Step t u → Reach s u
