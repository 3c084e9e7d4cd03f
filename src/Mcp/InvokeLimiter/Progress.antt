-- ===== src/Mcp/InvokeLimiter/Progress.antt =====
-- No call waits in vain: what a call at its select can count on.
use sofarpc_cli.Mcp.InvokeLimiter.Invariant.{
  Reach-IsConsistent, granted-room, in_use_at-give_back, in_use_at-take_slot, waits_on-same,
}
use sofarpc_cli.Mcp.InvokeLimiter.System.{
  Permit, Reach, Step, System, Waiter, acquire, here, live, live_at, next, park, release, start,
  time_out, wake,
}
use sofarpc_cli.Prelude.{
  All, List, [], ap, arith, bytes_eq_refl, false, subst, suc, true, ◌++◌, ◌<◌, ◌∷◌, ◌≡◌, ◌≢◌, ◌≤◌,
  sym,
}
use sofarpc_cli.Prelude.Int.{pos_part}
use sofarpc_cli.Mcp.InvokeLimiter.{
  InvokeLimiterConfig, InvokeLimiter, in_use_at, can_acquire_locked, take_slot, give_back,
  release_func, Bytes, Bool,
}

-- A call that waits for a channel not yet closed cannot get a slot as things stand.
abbrev pub IsBlocked : InvokeLimiter → Waiter → Type 0
IsBlocked l w = (w.channel ≤ l.notify) × (w.channel ≡ l.notify → can_acquire_locked w.key l ≡ false)

can_acquire-take_slot :
    (k key : Bytes) (l : InvokeLimiter)
    → can_acquire_locked k l ≡ false
    → can_acquire_locked k (take_slot key l) ≡ false
unfolding can_acquire_locked take_slot
can_acquire-take_slot [] key l h = ground arith
can_acquire-take_slot (x ∷ k) key l h = ground (arith, in_use_at-take_slot key (x ∷ k) l (λ e. cc))

take_slot-IsBlocked :
    (key : Bytes) (l : InvokeLimiter) (ws : List Waiter)
    → All (IsBlocked l) ws
    → All (IsBlocked (take_slot key l)) ws
take_slot-IsBlocked key l [] h = h
take_slot-IsBlocked key l (w ∷ ws) ((le, no_room), h) = (
  (
    unfold take_slot in le,
    λ e. can_acquire-take_slot w.key key l (no_room (unfold take_slot in e)),
  ),
  take_slot-IsBlocked key l ws h,
)

give_back-IsBlocked :
    (key : Bytes) (l : InvokeLimiter) (ws : List Waiter)
    → All (IsBlocked l) ws
    → All (IsBlocked (give_back key l)) ws
give_back-IsBlocked key l [] h = h
give_back-IsBlocked key l (w ∷ ws) ((le, no_room), h) = (
  (unfold give_back in omega arith, λ e. absurd (unfold give_back in omega arith)),
  give_back-IsBlocked key l ws h,
)

All-drop_middle :
    (P : Waiter → Type 0) (xs : List Waiter) (w : Waiter) (ys : List Waiter)
    → All P (xs ++ (w ∷ ys))
    → All P (xs ++ ys)
All-drop_middle P [] w ys h = h.1
All-drop_middle P (x ∷ xs) w ys h = (h.0, All-drop_middle P xs w ys h.1)

release-IsBlocked :
    (key : Bytes) (done : Bool) (l : InvokeLimiter) (ws : List Waiter)
    → All (IsBlocked l) ws
    → All (IsBlocked (release_func key done l)) ws
unfolding release_func
release-IsBlocked key true l ws h = h
release-IsBlocked key false l ws h = give_back-IsBlocked key l ws h

Step-IsBlocked :
    {s t : System}
    → Step s t
    → All (IsBlocked s.limiter) s.waiters
    → All (IsBlocked t.limiter) t.waiters
Step-IsBlocked (acquire {s} key h) b =
    rw (granted-room key s.limiter h).0 (take_slot-IsBlocked key s.limiter s.waiters b)
Step-IsBlocked (park {s} key channel h) b =
    let (same, reads, full) = waits_on-same key s.limiter channel h in
    let w : Waiter = record { key = key; channel = channel } in
    subst (λ l. All (IsBlocked l) (w ∷ s.waiters)) (sym same) ((omega arith, λ _. full), b)
Step-IsBlocked (wake {s} before after w e ne) b =
    All-drop_middle (IsBlocked s.limiter) before w after (subst (All (IsBlocked s.limiter)) e b)
Step-IsBlocked (time_out {s} before after w e) b =
    All-drop_middle (IsBlocked s.limiter) before w after (subst (All (IsBlocked s.limiter)) e b)
Step-IsBlocked (release {s} before after p e) b =
    release-IsBlocked p.key p.done s.limiter s.waiters b

-- No wake-up is lost: in every reachable state a call at its select either has a channel that is
-- already closed, or it holds the current channel and finds no slot if it tries again now.
pub Reach-IsBlocked :
    (cfg : InvokeLimiterConfig) {s : System}
    → Reach (start cfg) s
    → All (IsBlocked s.limiter) s.waiters
Reach-IsBlocked cfg here = tt
Reach-IsBlocked cfg (next r st) = Step-IsBlocked st (Reach-IsBlocked cfg r)

live-middle :
    (before after : List Permit) (p : Permit)
    → p.done ≡ false
    → live (before ++ (p ∷ after)) ≡ suc (live (before ++ after))
live-middle [] after p h = ground arith
live-middle (q ∷ before) after p h = omega (arith, live-middle before after p h)

live_at-middle :
    (before after : List Permit) (p : Permit)
    → p.done ≡ false
    → live_at p.key (before ++ (p ∷ after)) ≡ suc (live_at p.key (before ++ after))
live_at-middle [] after p h = ground (arith, bytes_eq_refl p.key)
live_at-middle (q ∷ before) after p h = omega (arith, live_at-middle before after p h)

room_after :
    (key : Bytes) (l : InvokeLimiter)
    → (0 < pos_part l.cfg.global_limit → l.global_in_use ≤ pos_part l.cfg.global_limit)
    → 0 < l.global_in_use
    → (key ≢ [] → 0 < in_use_at key l)
    → (key ≢ []
        → 0 < pos_part l.cfg.per_target_limit
        → in_use_at key l ≤ pos_part l.cfg.per_target_limit)
    → can_acquire_locked key (give_back key l) ≡ true
unfolding can_acquire_locked give_back
room_after [] l g u a t = ground arith
room_after (x ∷ key) l g u a t = ground (
  arith,
  in_use_at-give_back (x ∷ key) (x ∷ key) l (λ e. cc),
  bytes_eq_refl (x ∷ key),
  a (λ e. cc),
  t (λ e. cc),
)

-- In a reachable state, giving back a permit for the first time makes room for a call with the
-- same target key, and closes the channel of every call at its select.
pub release_makes_room :
    (cfg : InvokeLimiterConfig) {s : System} (before after : List Permit) (p : Permit)
    → Reach (start cfg) s
    → s.permits ≡ before ++ (p ∷ after)
    → p.done ≡ false
    → (can_acquire_locked p.key (release_func p.key p.done s.limiter) ≡ true)
      × All (λ w. w.channel < (release_func p.key p.done s.limiter).notify) s.waiters
release_makes_room cfg {s} before after p r e d =
    let c = Reach-IsConsistent cfg r in
    rw d (
      unfold release_func in
      (
        room_after p.key s.limiter c.global_bound
            (omega (arith, c.counted, ap live e, live-middle before after p d))
            (λ ne.
              omega (
                arith,
                c.counted_at p.key ne,
                ap (live_at p.key) e,
                live_at-middle before after p d,
              ))
            (c.target_bound p.key),
        all_closed s.waiters (Reach-IsBlocked cfg r),
      ))
  where
    all_closed :
        (ws : List Waiter)
        → All (IsBlocked s.limiter) ws
        → All (λ w. w.channel < (give_back p.key s.limiter).notify) ws
    all_closed [] h = tt
    all_closed (w ∷ ws) (h, hs) = (unfold give_back in omega (arith, h.0), all_closed ws hs)
