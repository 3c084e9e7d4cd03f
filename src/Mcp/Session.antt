-- ===== src/Mcp/Session.antt =====
-- internal/mcp/session.go: the sessions of the server and their captured plans. A time is a number
-- of nanoseconds. What the store takes from outside is an argument: the clock's reading, the ids
-- drawn, and the size of a plan's JSON (none where marshalling fails).
pub mod Capacity
pub mod Capture
use sofarpc_cli.Core.Target.{Config}
use sofarpc_cli.Prelude.{
  Bool, Bytes, List, Option, [], bytes_eq, false, if◌then◌else◌, is_empty, leb, length, ltb, none,
  some, suc, take, true, zero, ℕ, ◌&&◌, ◌+◌, ◌||◌, ◌∷◌,
}
use sofarpc_cli.Prelude.Int.{ltb_ℤ, pos, pos_part, ℤ}
use sofarpc_cli.Prelude.Map.{Map, delete, insert, lookup}

module _ (Plan : Type 0) where
  pub record PlanEntry : Type 0 where
    pub id : Bytes
    pub captured_at : ℕ
    pub plan : Plan

  pub record Session : Type 0 where
    pub id : Bytes
    pub project_root : Bytes
    pub target : Config
    pub profile : Bytes
    pub created_at : ℕ
    pub last_plan : Option Plan
    pub plans : List PlanEntry
    pub last_used : ℕ

  pub record SessionStore : Type 0 where
    pub ttl : ℤ
    pub cap : ℤ
    pub max_plan_bytes : ℤ
    pub sessions : Map Session

pub data CaptureReason : Type 0 where
  empty_session_id session_not_found plan_size_unavailable plan_too_large captured : CaptureReason

pub record PlanCaptureResult : Type 0 where
  pub is_captured : Bool
  pub reason : CaptureReason
  pub plan_id : Bytes
  pub plan_bytes : ℕ
  pub max_bytes : ℤ

abbrev pub refused : CaptureReason → PlanCaptureResult
refused why = record {
  is_captured = false;
  reason = why;
  plan_id = [];
  plan_bytes = 0;
  max_bytes = pos 0;
}

abbrev pub default_session_plan_history : ℕ
default_session_plan_history = 10

module _ {Plan : Type 0} where
  -- `lastUsed.Before(now.Add(-ttl))`
  abbrev pub is_expired : ℕ → ℕ → Session Plan → Bool
  is_expired ttl now s = ltb (s.last_used + ttl) now

  unfoldable pub sweep : ℕ → ℕ → Map (Session Plan) → Map (Session Plan)
  sweep ttl now [] = []
  sweep ttl now ((id, s) ∷ m) =
      if is_expired ttl now s then sweep ttl now m else (id, s) ∷ sweep ttl now m

  unfoldable pub sweep_expired_locked : ℕ → SessionStore Plan → SessionStore Plan
  sweep_expired_locked now st =
      if ltb_ℤ (pos 0) st.ttl
      then record st { sessions = sweep (pos_part st.ttl) now st.sessions }
      else st

  -- the inner loop of enforceCapLocked: the id and the time found so far
  unfoldable pub lru_scan : Map (Session Plan) → Bytes × ℕ → Bytes × ℕ
  lru_scan [] best = best
  lru_scan ((id, s) ∷ m) (best_id, best_time) = lru_scan m (
      if is_empty best_id || ltb s.last_used best_time
      then (id, s.last_used)
      else (best_id, best_time))

  -- Each round takes an entry away, so as many rounds as there are entries are enough.
  unfoldable pub evict : ℕ → ℕ → Map (Session Plan) → Map (Session Plan)
  evict zero cap m = m
  evict (suc fuel) cap m =
      let lru_id = (lru_scan m ([], 0)).0 in
      let rest = evict fuel cap (delete lru_id m) in
      if leb cap (length m) then (if is_empty lru_id then m else rest) else m

  unfoldable pub enforce_cap_locked : SessionStore Plan → SessionStore Plan
  enforce_cap_locked st =
      if ltb_ℤ (pos 0) st.cap
      then record st { sessions = evict (length st.sessions) (pos_part st.cap) st.sessions }
      else st

  unfoldable pub create :
      ℕ → Bytes → Session Plan → SessionStore Plan → SessionStore Plan × Session Plan
  create now new_id session st =
      let room = enforce_cap_locked (sweep_expired_locked now st) in
      let made = record session { id = new_id; created_at = now; last_used = now } in
      (record room { sessions = insert new_id made room.sessions }, made)

  unfoldable pub get : ℕ → Bytes → SessionStore Plan → SessionStore Plan × Option (Session Plan)
  get now id st = elim (lookup id st.sessions) [
    | none ↦ (st, none)
    | some s ↦
        let used = record s { last_used = now } in
        (record st { sessions = insert id used st.sessions }, some used)
  ]

  -- the part of CapturePlan behind the look-up of the session
  unfoldable pub capture_in :
      ℕ
      → Bytes
      → Bytes
      → Plan
      → Option ℕ
      → Session Plan
      → SessionStore Plan
      → SessionStore Plan × PlanCaptureResult
  capture_in now plan_id id plan none s st = (
    record st { sessions = insert id (record s { last_used = now }) st.sessions },
    refused plan_size_unavailable,
  )
  capture_in now plan_id id plan (some size) s st =
      if ltb_ℤ (pos 0) st.max_plan_bytes && ltb_ℤ st.max_plan_bytes (pos size)
      then (
        record st {
          sessions = insert id (record s { last_plan = none; last_used = now }) st.sessions;
        },
        record (refused plan_too_large) { plan_bytes = size; max_bytes = st.max_plan_bytes },
      )
      else (
        record st {
          sessions =
              insert id
                (record s {
                  last_plan = some plan;
                  plans =
                      take default_session_plan_history
                        (record { id = plan_id; captured_at = now; plan = plan } ∷ s.plans);
                  last_used = now;
                })
                st.sessions;
        },
        record {
          is_captured = true;
          reason = captured;
          plan_id = plan_id;
          plan_bytes = size;
          max_bytes = st.max_plan_bytes;
        },
      )

  unfoldable pub capture_plan :
      (Plan → Option ℕ)
      → ℕ
      → Bytes
      → Bytes
      → Plan
      → SessionStore Plan
      → SessionStore Plan × PlanCaptureResult
  unfolding capture_in
  capture_plan size now plan_id id plan st =
      if is_empty id then (st, refused empty_session_id) else elim (lookup id st.sessions) [
        | none ↦ (st, refused session_not_found)
        | some s ↦ capture_in now plan_id id plan (size plan) s st
      ]

  unfoldable pub find_plan : Bytes → List (PlanEntry Plan) → Option (PlanEntry Plan)
  find_plan plan_id [] = none
  find_plan plan_id (e ∷ es) = if bytes_eq e.id plan_id then some e else find_plan plan_id es

  unfoldable pub plan_by_id : Bytes → Bytes → SessionStore Plan → Option (PlanEntry Plan)
  unfolding find_plan
  plan_by_id session_id plan_id st = elim (lookup session_id st.sessions) [
    | none ↦ none
    | some s ↦ find_plan plan_id s.plans
  ]
