-- ===== src/Mcp/Session/Capacity.antt =====
-- The store stays within its capacity, and drops the session that was used least recently.
use sofarpc_cli.Prelude.Int.{pos_part, ltb_ℤ, pos}
use sofarpc_cli.Mcp.Session.{
  Session, lru_scan, sweep_expired_locked, sweep, enforce_cap_locked, create, SessionStore, evict,
}
use sofarpc_cli.Prelude.{
  Bool-cases, Bytes, [], arith, bytes_eq_refl, inl, inr, length, ltb, refl, subst, sym, ℕ, ◌<◌, ◌∙◌,
  ◌∷◌, ◌≡◌, ◌≢◌, ◌≤◌, ◌⊎◌, leb, is_empty, zero, suc, false, some, ap,
}
use sofarpc_cli.Prelude.Map.{Map, delete, length-delete_le, lookup, length-insert_le, lookup-insert}

module _ {Plan : Type 0} where
  -- No entry has the empty id, on which enforceCapLocked gives up.
  abbrev pub HasIds : Map (Session Plan) → Type 0
  HasIds [] = Unit {0}
  HasIds ((id, s) ∷ m) = (id ≢ []) × HasIds m

  abbrev UsedFrom : ℕ → Map (Session Plan) → Type 0
  UsedFrom t [] = Unit {0}
  UsedFrom t ((id, s) ∷ m) = (t ≤ s.last_used) × UsedFrom t m

  abbrev IsKey : Bytes → Map (Session Plan) → Type 0
  IsKey k m = length (delete k m) < length m

  IsKey-head : (k : Bytes) (s : Session Plan) (m : Map (Session Plan)) → IsKey k ((k, s) ∷ m)
  unfolding delete
  IsKey-head k s m = rw (bytes_eq_refl k) (omega (arith, length-delete_le k m))

  IsKey-tail :
      (k j : Bytes) (s : Session Plan) (m : Map (Session Plan)) → IsKey k m → IsKey k ((j, s) ∷ m)
  unfolding delete
  IsKey-tail k j s m h = ground (arith, length-delete_le k m)

  abbrev Found : Map (Session Plan) → Bytes → Bytes → Type 0
  Found m base r = (r ≢ []) × ((r ≡ base) ⊎ IsKey r m)

  Found-cons :
      (m : Map (Session Plan)) (j base best r : Bytes) (s : Session Plan)
      → Found m best r
      → ((best ≡ base) ⊎ (best ≡ j))
      → Found ((j, s) ∷ m) base r
  Found-cons m j base best r s (ne, inr k) w = (ne, inr (IsKey-tail r j s m k))
  Found-cons m j base best r s (ne, inl e) (inl w) = (ne, inl (e ∙ w))
  Found-cons m j base best r s (ne, inl e) (inr w) =
      (ne, inr (subst (λ k. IsKey k ((j, s) ∷ m)) (sym (e ∙ w)) (IsKey-head j s m)))

  -- Once an entry has been seen, the scan keeps a non-empty id, which is the first or a key.
  scan-Found :
      (m : Map (Session Plan)) (id : Bytes) (t : ℕ)
      → id ≢ []
      → HasIds m
      → Found m id (lru_scan m (id, t)).0
  unfolding lru_scan
  scan-Found [] id t ne h = (ne, inl refl)
  scan-Found ((j, s) ∷ m) [] t ne h = absurd (ne refl)
  scan-Found ((j, s) ∷ m) (x ∷ id) t ne (hj, h) = elim (Bool-cases (ltb s.last_used t)) [
    | inl older ↦
        rw (older, lru_scan)
          (Found-cons m j (x ∷ id) j _ s (scan-Found m j s.last_used hj h) (inr refl))
    | inr newer ↦
        rw (newer, lru_scan)
          (Found-cons m j (x ∷ id) (x ∷ id) _ s (scan-Found m (x ∷ id) t ne h) (inl refl))
  ]

  HasIds-delete : (k : Bytes) (m : Map (Session Plan)) → HasIds m → HasIds (delete k m)
  unfolding delete
  HasIds-delete k [] h = h
  HasIds-delete k ((j, s) ∷ m) (hj, h) = ground (arith, HasIds-delete k m h)

  HasIds-sweep : (ttl now : ℕ) (m : Map (Session Plan)) → HasIds m → HasIds (sweep ttl now m)
  unfolding sweep
  HasIds-sweep ttl now [] h = h
  HasIds-sweep ttl now ((j, s) ∷ m) (hj, h) = ground (arith, HasIds-sweep ttl now m h)

  lru-IsKey :
      (e : Bytes × Session Plan) (m : Map (Session Plan))
      → HasIds (e ∷ m)
      → (is_empty (lru_scan (e ∷ m) ([], 0)).0 ≡ false) × IsKey (lru_scan (e ∷ m) ([], 0)).0 (e ∷ m)
  unfolding lru_scan
  lru-IsKey (j, s) m (hj, h) =
      let (ne, from) = Found-cons m j j j _ s (scan-Found m j s.last_used hj h) (inl refl) in
      (ground arith, at_key from)
    where
      at_key :
          (((lru_scan m (j, s.last_used)).0 ≡ j)
            ⊎ IsKey (lru_scan m (j, s.last_used)).0 ((j, s) ∷ m))
          → IsKey (lru_scan m (j, s.last_used)).0 ((j, s) ∷ m)
      at_key (inl e) = subst (λ k. IsKey k ((j, s) ∷ m)) (sym e) (IsKey-head j s m)
      at_key (inr k) = k

  length-evict :
      (fuel cap : ℕ) (m : Map (Session Plan))
      → 0 < cap
      → length m ≤ fuel
      → HasIds m
      → length (evict fuel cap m) < cap
  unfolding evict
  length-evict zero cap [] c l h = c
  length-evict zero cap (e ∷ m) c l h = absurd (omega arith)
  length-evict (suc fuel) cap [] c l h = ground arith
  length-evict (suc fuel) cap (e ∷ m) c l h =
      let id = (lru_scan (e ∷ m) ([], 0)).0 in
      let (ne, key) = lru-IsKey e m h in
      elim (Bool-cases (leb cap (length (e ∷ m)))) [
        | inl full ↦
            rw (full, ne)
              (length-evict fuel cap (delete id (e ∷ m)) c (omega (arith, key))
                (HasIds-delete id (e ∷ m) h))
        | inr room ↦ rw room (ground arith)
      ]

  enforce_room :
      (st : SessionStore Plan)
      → 0 < pos_part st.cap
      → HasIds st.sessions
      → length (enforce_cap_locked st).sessions < pos_part st.cap
  unfolding enforce_cap_locked
  enforce_room st c h =
      ground
        (arith, length-evict (length st.sessions) (pos_part st.cap) st.sessions c (omega arith) h)

  swept_cap : (now : ℕ) (st : SessionStore Plan) → (sweep_expired_locked now st).cap ≡ st.cap
  unfolding sweep_expired_locked
  swept_cap now st = ground arith

  HasIds-swept :
      (now : ℕ) (st : SessionStore Plan)
      → HasIds st.sessions
      → HasIds (sweep_expired_locked now st).sessions
  unfolding sweep_expired_locked
  HasIds-swept now st h = elim (Bool-cases (ltb_ℤ (pos 0) st.ttl)) [
    | inl on ↦ rw on (HasIds-sweep (pos_part st.ttl) now st.sessions h)
    | inr off ↦ rw off h
  ]

  -- With a positive capacity, and no entry under the empty id, the store holds at most that many
  -- sessions after Create, whatever it held before, and finds the new session under its id.
  pub create-within_cap :
      (now : ℕ) (new_id : Bytes) (s : Session Plan) (st : SessionStore Plan)
      → 0 < pos_part st.cap
      → HasIds st.sessions
      → (length (create now new_id s st).0.sessions ≤ pos_part st.cap)
        × (lookup new_id (create now new_id s st).0.sessions ≡ some (create now new_id s st).1)
  unfolding create
  create-within_cap now new_id s st c h =
      let swept = sweep_expired_locked now st in
      let room = enforce_cap_locked swept in
      let made = record s { id = new_id; created_at = now; last_used = now } in
      let fits = enforce_room swept (rw (swept_cap now st) c) (HasIds-swept now st h) in
      (
        omega (
          arith,
          length-insert_le new_id made room.sessions,
          fits,
          ap pos_part (swept_cap now st),
        ),
        rw (lookup-insert new_id new_id made room.sessions, bytes_eq_refl new_id),
      )

  -- No entry of the table was used before the one that the scan picks.
  scan_least :
      (m : Map (Session Plan)) (id : Bytes) (t : ℕ)
      → id ≢ []
      → HasIds m
      → ((lru_scan m (id, t)).1 ≤ t) × UsedFrom (lru_scan m (id, t)).1 m
  unfolding lru_scan
  scan_least [] id t ne h = (omega arith, tt)
  scan_least ((j, s) ∷ m) [] t ne h = absurd (ne refl)
  scan_least ((j, s) ∷ m) (x ∷ id) t ne (hj, h) =
      ground (arith, scan_least m j s.last_used hj h, scan_least m (x ∷ id) t ne h)
