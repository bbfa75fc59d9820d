-- ===== src/Gateway/Access.antt =====
-- What a connection that has not logged in can do.
use flux_trade.Prelude.{
  ℕ, zero, suc, ◌+◌, ◌-◌, ◌≤◌, false, some, ◌≡◌, refl, ap, ◌∙◌, arith, ltb, Bool-cases,
  Option-cases, inl, inr,
}
use flux_trade.Prelude.Int.{ℤ}
use flux_trade.Gateway.Protocol.{MessageHeader, header_size, header_at}
use flux_trade.Gateway.Sessions.{ClientConnection, buffer_size, get_connection}
use flux_trade.Gateway.Inbound.{Gateway, reject_unauthenticated, request_of, is_login}
use flux_trade.Gateway.Framing.{decode, Outcome, parse_frames}
use flux_trade.Gateway.Frames.{
  next, parse_over, parse_incomplete, parse_next, unauthenticated_packet, reject_keeps,
}

-- A run that has ended has left the sessions, the queue and the sequence numbers as they were, and no
-- run is undefined.
abbrev pub LeavesState : Gateway → Outcome (ℕ × Gateway) → Type 0
LeavesState g (Outcome.done (j, g')) =
    (g'.sessions ≡ g.sessions) × (g'.inbound_queue ≡ g.inbound_queue) × (g'.sequence ≡ g.sequence)
LeavesState g Outcome.undefined = ⊥
LeavesState g Outcome.out_of_fuel = Unit

LeavesState-trans :
    (g g' : Gateway) (r : Outcome (ℕ × Gateway))
    → LeavesState g (Outcome.done (0, g'))
    → LeavesState g' r
    → LeavesState g r
LeavesState-trans g g' (Outcome.done (j, g'')) (s, q, n) (s', q', n') = (s' ∙ s, q' ∙ q, n' ∙ n)
LeavesState-trans g g' Outcome.undefined h k = k
LeavesState-trans g g' Outcome.out_of_fuel h k = tt

module _ (clock : ℕ → ℕ) (conn_id : ℤ) (bytes : ℕ → ℕ) (len : ℕ) (conn : ClientConnection)
    (no_login : (i : ℕ)
      → i + header_size ≤ len
      → is_login (request_of (header_at bytes i).type) ≡ false)
    (out : conn.authenticated ≡ false) where
  decode-header_at :
      (i : ℕ) (header : MessageHeader)
      → decode bytes i (len - i) ≡ some header
      → (i + header_size ≤ len) × (header ≡ header_at bytes i)
  unfolding decode
  decode-header_at i header e = (ground arith, ground arith)

  LeavesState-parse_frames-zero :
      (i : ℕ) (g : Gateway) → LeavesState g (parse_frames zero clock conn_id bytes len i g)
  unfolding parse_frames
  LeavesState-parse_frames-zero i g = tt

  -- On a connection of the table that has not logged in, the parser never reads past the buffer,
  -- and where it ends it has changed no session, queued no command and drawn no sequence number,
  -- whatever the bytes, if no header at any place in them has the type of a login.
  pub no_orders_before_login :
      (fuel i : ℕ) (g : Gateway)
      → get_connection conn_id g.sessions ≡ some conn
      → LeavesState g (parse_frames fuel clock conn_id bytes len i g)
  no_orders_before_login zero i g found = LeavesState-parse_frames-zero i g
  no_orders_before_login (suc fuel) i g found = elim (Bool-cases (ltb i len)) [
    | inr over ↦ rw (parse_over clock conn_id bytes len fuel i g over) (refl, refl, refl)
    | inl more ↦ elim (Option-cases (decode bytes i (len - i))) [
      | inl nothing ↦
          rw (parse_incomplete clock conn_id bytes len fuel i g nothing) (refl, refl, refl)
      | inr (header, decoded) ↦
          let g' = reject_unauthenticated clock conn_id g in
          let (inside, same) = decode-header_at i header decoded in
          let type_out : is_login (request_of header.type) ≡ false =
            ap (λ (h : MessageHeader). is_login (request_of h.type)) same ∙ no_login i inside in
          let step =
            parse_next clock conn_id bytes len fuel i g header more decoded
            ∙ ap (next clock conn_id bytes len fuel header i) (
                unauthenticated_packet clock buffer_size conn_id header bytes i g conn found out
                  type_out) in
          let kept = reject_keeps clock conn_id g in
          rw step (
            LeavesState-trans g g' _ kept (
              no_orders_before_login fuel (i + header.length) g'
                (ap (get_connection conn_id) kept.0 ∙ found)))
    ]
  ]
