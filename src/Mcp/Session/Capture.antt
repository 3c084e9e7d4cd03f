-- ===== src/Mcp/Session/Capture.antt =====
-- The history of captured plans.
use sofarpc_cli.Mcp.Session.{
  Session, SessionStore, capture_in, capture_plan, default_session_plan_history, plan_by_id,
  PlanEntry,
}
use sofarpc_cli.Prelude.{
  Bool-cases, Bytes, Option, [], arith, bytes_eq, inl, inr, length, length-take_le, none, refl,
  some, subst, true, ℕ, ◌&&◌, ◌∷◌, ◌≡◌, ◌≤◌, ◌⊎◌, bytes_eq_refl, take, some-injective, List, sym,
  ◌∙◌,
}
use sofarpc_cli.Prelude.Int.{ltb_ℤ, pos}
use sofarpc_cli.Prelude.Map.{Map, insert, lookup, lookup-insert}

module _ {Plan : Type 0} where
  abbrev pub newest : List (PlanEntry Plan) → Option Plan
  newest [] = none
  newest (e ∷ es) = some e.plan

  abbrev pub last_plan_of : Option (Session Plan) → Option Plan
  last_plan_of none = none
  last_plan_of (some s) = s.last_plan

  -- What every session of the store keeps to: at most ten captured plans, and the last plan, where
  -- there is one, is the newest of them.
  pub record IsBounded (s : Session Plan) : Type 0 where
    pub within_history : length s.plans ≤ default_session_plan_history
    pub mirrors : (s.last_plan ≡ none) ⊎ (s.last_plan ≡ newest s.plans)

  abbrev pub AreBounded : Map (Session Plan) → Type 0
  AreBounded m = (k : Bytes) (s : Session Plan) → lookup k m ≡ some s → IsBounded s

  AreBounded-insert :
      (k : Bytes) (s : Session Plan) (m : Map (Session Plan))
      → IsBounded s
      → AreBounded m
      → AreBounded (insert k s m)
  AreBounded-insert k s m b h j t e = elim (Bool-cases (bytes_eq k j)) [
    | inl same ↦
        let here : lookup j (insert k s m) ≡ some s = rw (lookup-insert, same) in
        subst IsBounded (some-injective s t (sym here ∙ e)) b
    | inr other ↦
        let there : lookup j (insert k s m) ≡ lookup j m = rw (lookup-insert, other) in
        h j t (sym there ∙ e)
  ]

  capture_in-AreBounded :
      (now : ℕ) (plan_id id : Bytes) (plan : Plan) (size : Option ℕ) (s : Session Plan)
      (st : SessionStore Plan)
      → IsBounded s
      → AreBounded st.sessions
      → AreBounded (capture_in now plan_id id plan size s st).0.sessions
  unfolding capture_in
  capture_in-AreBounded now plan_id id plan none s st b h =
      AreBounded-insert id _ st.sessions
        (record { within_history = b.within_history; mirrors = b.mirrors }) h
  capture_in-AreBounded now plan_id id plan (some size) s st b h =
      elim (Bool-cases (ltb_ℤ (pos 0) st.max_plan_bytes && ltb_ℤ st.max_plan_bytes (pos size))) [
        | inl large ↦ rw large (
            AreBounded-insert id _ st.sessions
              (record { within_history = b.within_history; mirrors = inl refl }) h)
        | inr fits ↦ rw fits (
            AreBounded-insert id _ st.sessions
              (record {
                within_history = omega (arith, length-take_le 9 s.plans);
                mirrors = inr refl;
              })
              h)
      ]

  -- CapturePlan keeps every session of the store within ten plans, and its last plan none or the
  -- newest of them, on all of its branches.
  pub capture_plan-AreBounded :
      (size : Plan → Option ℕ) (now : ℕ) (plan_id id : Bytes) (plan : Plan) (st : SessionStore Plan)
      → AreBounded st.sessions
      → AreBounded (capture_plan size now plan_id id plan st).0.sessions
  unfolding capture_plan
  capture_plan-AreBounded size now plan_id [] plan st h = h
  capture_plan-AreBounded size now plan_id (x ∷ id) plan st h =
      found (lookup (x ∷ id) st.sessions) refl
    where
      found :
          (o : Option (Session Plan))
          → lookup (x ∷ id) st.sessions ≡ o
          → AreBounded (capture_plan size now plan_id (x ∷ id) plan st).0.sessions
      found none e = rw (e, capture_plan) h
      found (some s) e =
          rw (e, capture_plan)
            (capture_in-AreBounded now plan_id (x ∷ id) plan (size plan) s st (h (x ∷ id) s e) h)

  captured_in :
      (now : ℕ) (plan_id id : Bytes) (plan : Plan) (size : Option ℕ) (s : Session Plan)
      (st : SessionStore Plan)
      → (capture_in now plan_id id plan size s st).1.is_captured ≡ true
      → lookup id (capture_in now plan_id id plan size s st).0.sessions
        ≡ some (record s {
          last_plan = some plan;
          plans =
              take default_session_plan_history
                (record { id = plan_id; captured_at = now; plan = plan } ∷ s.plans);
          last_used = now;
        })
  unfolding capture_in
  captured_in now plan_id id plan none s st h = cc
  captured_in now plan_id id plan (some size) s st h =
      elim (Bool-cases (ltb_ℤ (pos 0) st.max_plan_bytes && ltb_ℤ st.max_plan_bytes (pos size))) [
        | inl large ↦ absurd (cc (rw large at h))
        | inr fits ↦ rw (fits, lookup-insert, bytes_eq_refl id)
      ]

  -- A plan that is reported as captured is found again by the session's id and its plan id, and is
  -- the session's last plan.
  pub plan_by_id-capture_plan :
      (size : Plan → Option ℕ) (now : ℕ) (plan_id id : Bytes) (plan : Plan) (st : SessionStore Plan)
      → (capture_plan size now plan_id id plan st).1.is_captured ≡ true
      → (plan_by_id id plan_id (capture_plan size now plan_id id plan st).0
          ≡ some (record { id = plan_id; captured_at = now; plan = plan }))
        × (last_plan_of (lookup id (capture_plan size now plan_id id plan st).0.sessions)
            ≡ some plan)
  unfolding capture_plan plan_by_id
  plan_by_id-capture_plan size now plan_id [] plan st h = cc
  plan_by_id-capture_plan size now plan_id (x ∷ id) plan st h =
      found (lookup (x ∷ id) st.sessions) refl
    where
      found :
          (o : Option (Session Plan))
          → lookup (x ∷ id) st.sessions ≡ o
          → (plan_by_id (x ∷ id) plan_id (capture_plan size now plan_id (x ∷ id) plan st).0
              ≡ some (record { id = plan_id; captured_at = now; plan = plan }))
            × (last_plan_of
                  (lookup (x ∷ id) (capture_plan size now plan_id (x ∷ id) plan st).0.sessions)
                ≡ some plan)
      found none e = absurd (cc (rw (e, capture_plan) at h))
      found (some s) e =
          let kept =
            captured_in now plan_id (x ∷ id) plan (size plan) s st (rw (e, capture_plan) at h) in
          rw (e, capture_plan) (rw (plan_by_id, kept, bytes_eq_refl plan_id), rw kept)
