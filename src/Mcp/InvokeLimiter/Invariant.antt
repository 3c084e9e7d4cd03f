-- ===== src/Mcp/InvokeLimiter/Invariant.antt =====
-- The counters of the limiter against the permits in circulation, over every sequence of steps.
use sofarpc_cli.Prelude.{
  ℕ, ◌+◌, ◌-◌, ◌≤◌, ◌<◌, ◌≡◌, ◌≢◌, refl, sym, true, false, none, some, List, [], ◌∷◌, ◌++◌, arith,
  if◌then◌else◌, Bytes, bytes_eq, bytes_eq_iff, ◌∙◌, subst,
}
use sofarpc_cli.Prelude.Int.{pos_part}
use sofarpc_cli.Prelude.Map.{lookup, lookup-insert, lookup-delete}
use sofarpc_cli.Mcp.InvokeLimiter.{
  InvokeLimiterConfig, InvokeLimiter, new_invoke_limiter, in_use_at, can_acquire_locked, take_slot,
  granted, attempt, release_target, give_back, release_func, waits_on, Bool,
}
use sofarpc_cli.Mcp.InvokeLimiter.System.{
  Permit, System, start, live, live_at, Step, acquire, park, wake, time_out, release, Reach, here,
  next, Waiter,
}

pub record IsConsistent (s : System) : Type 0 where
  -- the global counter is the number of permits in circulation
  pub counted : s.limiter.global_in_use ≡ live s.permits
  -- so is the counter of each target
  pub counted_at : (k : Bytes) → k ≢ [] → in_use_at k s.limiter ≡ live_at k s.permits
  -- a limit that is set is never passed
  pub global_bound :
      0 < pos_part s.limiter.cfg.global_limit
      → s.limiter.global_in_use ≤ pos_part s.limiter.cfg.global_limit
  pub target_bound :
      (k : Bytes)
      → k ≢ []
      → 0 < pos_part s.limiter.cfg.per_target_limit
      → in_use_at k s.limiter ≤ pos_part s.limiter.cfg.per_target_limit
  -- a target with no permit in circulation has no entry
  pub no_idle_entry : (k : Bytes) → lookup k s.limiter.per_target ≢ some 0

pub in_use_at-take_slot :
    (key k : Bytes) (l : InvokeLimiter)
    → k ≢ []
    → in_use_at k (take_slot key l) ≡ (if bytes_eq key k then 1 else 0) + in_use_at k l
unfolding take_slot bytes_eq
in_use_at-take_slot [] [] l h = absurd (h refl)
in_use_at-take_slot [] (x ∷ k) l h = omega arith
in_use_at-take_slot (y ∷ key) k l h = ground (
  arith,
  bytes_eq_iff (y ∷ key) k,
  lookup-insert (y ∷ key) k (in_use_at (y ∷ key) l + 1) l.per_target,
)

pub in_use_at-give_back :
    (key k : Bytes) (l : InvokeLimiter)
    → k ≢ []
    → in_use_at k (give_back key l) ≡ in_use_at k l - (if bytes_eq key k then 1 else 0)
unfolding give_back release_target bytes_eq
in_use_at-give_back [] [] l h = absurd (h refl)
in_use_at-give_back [] (x ∷ k) l h = omega arith
in_use_at-give_back (y ∷ key) k l h = ground (
  arith,
  bytes_eq_iff (y ∷ key) k,
  lookup-insert (y ∷ key) k (in_use_at (y ∷ key) l - 1) l.per_target,
  lookup-delete (y ∷ key) k l.per_target,
)

no_idle-take_slot :
    (key k : Bytes) (l : InvokeLimiter)
    → lookup k l.per_target ≢ some 0
    → lookup k (take_slot key l).per_target ≢ some 0
unfolding take_slot
no_idle-take_slot [] k l h = h
no_idle-take_slot (y ∷ key) k l h =
    ground (arith, lookup-insert (y ∷ key) k (in_use_at (y ∷ key) l + 1) l.per_target)

no_idle-give_back :
    (key k : Bytes) (l : InvokeLimiter)
    → lookup k l.per_target ≢ some 0
    → lookup k (give_back key l).per_target ≢ some 0
unfolding give_back release_target
no_idle-give_back [] k l h = h
no_idle-give_back (y ∷ key) k l h = ground (
  arith,
  lookup-insert (y ∷ key) k (in_use_at (y ∷ key) l - 1) l.per_target,
  lookup-delete (y ∷ key) k l.per_target,
)

-- A grant finds room at both limits.
pub granted-room :
    (key : Bytes) (l : InvokeLimiter)
    → (attempt key l).1 ≡ granted
    → ((attempt key l).0 ≡ take_slot key l)
      × (0 < pos_part l.cfg.global_limit → l.global_in_use < pos_part l.cfg.global_limit)
      × (key ≢ []
          → 0 < pos_part l.cfg.per_target_limit
          → in_use_at key l < pos_part l.cfg.per_target_limit)
unfolding attempt can_acquire_locked
granted-room [] l h = (ground arith, ground arith, λ k. absurd (k refl))
granted-room (y ∷ key) l h = (ground arith, ground arith, λ _. ground arith)

cfg-take_slot : (key : Bytes) (l : InvokeLimiter) → (take_slot key l).cfg ≡ l.cfg
unfolding take_slot
cfg-take_slot key l = refl

live-append : (ps qs : List Permit) → live (ps ++ qs) ≡ live ps + live qs
live-append [] qs = omega arith
live-append (p ∷ ps) qs = omega (arith, live-append ps qs)

live_at-append :
    (k : Bytes) (ps qs : List Permit) → live_at k (ps ++ qs) ≡ live_at k ps + live_at k qs
live_at-append k [] qs = omega arith
live_at-append k (p ∷ ps) qs = omega (arith, live_at-append k ps qs)

pub waits_on-same :
    (key : Bytes) (l : InvokeLimiter) (channel : ℕ)
    → (attempt key l).1 ≡ waits_on channel
    → ((attempt key l).0 ≡ l) × (channel ≡ l.notify) × (can_acquire_locked key l ≡ false)
unfolding attempt
waits_on-same key l channel h = ground arith

granted-IsConsistent :
    {s : System} (key : Bytes)
    → IsConsistent s
    → (attempt key s.limiter).1 ≡ granted
    → IsConsistent (record s {
      limiter = take_slot key s.limiter;
      permits = record { key = key; done = false } ∷ s.permits;
    })
granted-IsConsistent {s} key c h = record {
  counted = unfold take_slot in omega (arith, c.counted);
  counted_at = λ k ne. in_use_at-take_slot key k s.limiter ne ∙ ground (arith, c.counted_at k ne);
  global_bound = unfold take_slot in ground (arith, (granted-room key s.limiter h).1);
  target_bound = λ k ne lim. target k ne lim;
  no_idle_entry = λ k. no_idle-take_slot key k s.limiter (c.no_idle_entry k);
}
  where
    target :
        (k : Bytes)
        → k ≢ []
        → 0 < pos_part (take_slot key s.limiter).cfg.per_target_limit
        → in_use_at k (take_slot key s.limiter)
          ≤ pos_part (take_slot key s.limiter).cfg.per_target_limit
    target k ne lim = rw cfg-take_slot (
        ground (
          arith,
          rw cfg-take_slot at lim,
          in_use_at-take_slot key k s.limiter ne,
          bytes_eq_iff key k,
          c.target_bound k ne,
          (granted-room key s.limiter h).2,
        ))

give_back-IsConsistent :
    (l : InvokeLimiter) (ps qs : List Permit) (ws : List Waiter) (key : Bytes)
    → IsConsistent (record {
      limiter = l;
      permits = ps ++ (record { key = key; done = false } ∷ qs);
      waiters = ws;
    })
    → IsConsistent (record {
      limiter = give_back key l;
      permits = ps ++ (record { key = key; done = true } ∷ qs);
      waiters = ws;
    })
give_back-IsConsistent l ps qs ws key c =
    let old : Permit = record { key = key; done = false } in
    let new : Permit = record { key = key; done = true } in
    record {
      counted =
          unfold give_back in
          ground (arith, c.counted, live-append ps (old ∷ qs), live-append ps (new ∷ qs));
      counted_at = λ k ne. ground (
        arith,
        in_use_at-give_back key k l ne,
        c.counted_at k ne,
        live_at-append k ps (old ∷ qs),
        live_at-append k ps (new ∷ qs),
      );
      global_bound = unfold give_back in ground (arith, c.global_bound);
      target_bound = λ k ne lim. bound k ne (unfold give_back in lim);
      no_idle_entry = λ k. no_idle-give_back key k l (c.no_idle_entry k);
    }
  where
    bound :
        (k : Bytes)
        → k ≢ []
        → 0 < pos_part l.cfg.per_target_limit
        → in_use_at k (give_back key l) ≤ pos_part (give_back key l).cfg.per_target_limit
    bound k ne lim =
        unfold give_back in omega (arith, in_use_at-give_back key k l ne, c.target_bound k ne lim)

-- The waiters play no part in the counters.
with_waiters :
    {s : System} (ws : List Waiter) → IsConsistent s → IsConsistent (record s { waiters = ws })
with_waiters ws c = record {
  counted = c.counted;
  counted_at = c.counted_at;
  global_bound = c.global_bound;
  target_bound = c.target_bound;
  no_idle_entry = c.no_idle_entry;
}

release-IsConsistent :
    (s : System) (before after : List Permit) (p : Permit)
    → s.permits ≡ before ++ (p ∷ after)
    → IsConsistent s
    → IsConsistent (record s {
      limiter = release_func p.key p.done s.limiter;
      permits = before ++ (record p { done = true } ∷ after);
    })
release-IsConsistent s before after p e c = by_once p.done refl
  where
    by_once :
        (b : Bool)
        → p.done ≡ b
        → IsConsistent (record s {
          limiter = release_func p.key p.done s.limiter;
          permits = before ++ (record p { done = true } ∷ after);
        })
    by_once true d =
        let same : record p { done = true } ≡ p = λ i. record { key = p.key; done = sym d i } in
        rw (d, same) (unfold release_func in rw (← e) c)
    by_once false d =
        let same : p ≡ record p { done = false } = λ i. record { key = p.key; done = d i } in
        rw d (
          unfold release_func in
          give_back-IsConsistent s.limiter before after s.waiters p.key (
            subst (λ q. IsConsistent (record s { permits = before ++ (q ∷ after) })) same
              (subst (λ ps. IsConsistent (record s { permits = ps })) e c)))

pub Step-IsConsistent : {s t : System} → Step s t → IsConsistent s → IsConsistent t
Step-IsConsistent (acquire {s} key h) c =
    rw (granted-room key s.limiter h).0 (granted-IsConsistent key c h)
Step-IsConsistent (park {s} key channel h) c =
    rw (waits_on-same key s.limiter channel h).0 (with_waiters _ c)
Step-IsConsistent (wake before after w e ne) c = with_waiters _ c
Step-IsConsistent (time_out before after w e) c = with_waiters _ c
Step-IsConsistent (release {s} before after p e) c = release-IsConsistent s before after p e c

start-IsConsistent : (cfg : InvokeLimiterConfig) → IsConsistent (start cfg)
unfolding new_invoke_limiter lookup
start-IsConsistent cfg = record {
  counted = refl;
  counted_at = λ k ne. refl;
  global_bound = λ _. omega arith;
  target_bound = λ k ne _. omega arith;
  no_idle_entry = λ k e. cc;
}

-- In every state that the limiter's calls reach from a new limiter, in any order and with permits
-- given back any number of times: the global counter is the number of permits in circulation, the
-- counter of each non-empty target key is the number of those permits with that key, neither
-- counter passes a limit that is set, and no target has an entry that holds 0.
pub Reach-IsConsistent :
    (cfg : InvokeLimiterConfig) {s : System} → Reach (start cfg) s → IsConsistent s
Reach-IsConsistent cfg here = start-IsConsistent cfg
Reach-IsConsistent cfg (next r st) = Step-IsConsistent st (Reach-IsConsistent cfg r)

live_at-le-live : (k : Bytes) (ps : List Permit) → live_at k ps ≤ live ps
live_at-le-live k [] = omega arith
live_at-le-live k (p ∷ ps) = ground (arith, live_at-le-live k ps)

-- Once every permit has been given back, the global counter is 0 and no target key is left in
-- the table.
pub Reach-drained :
    (cfg : InvokeLimiterConfig) {s : System}
    → Reach (start cfg) s
    → live s.permits ≡ 0
    → (s.limiter.global_in_use ≡ 0) × ((k : Bytes) → k ≢ [] → lookup k s.limiter.per_target ≡ none)
Reach-drained cfg {s} r h =
    let c = Reach-IsConsistent cfg r in
    (
      omega (arith, c.counted),
      λ k ne. ground (arith, c.counted_at k ne, live_at-le-live k s.permits, c.no_idle_entry k),
    )
