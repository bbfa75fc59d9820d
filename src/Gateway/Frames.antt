-- ===== src/Gateway/Frames.antt =====
-- What the frame parser makes of the bytes of a connection.
use flux_trade.Prelude.{
  ℕ, zero, suc, ◌+◌, ◌-◌, ◌≤◌, ◌<◌, true, false, Option, none, some, List, [], ◌∷◌, ◌≡◌, refl, ap,
  sym, ◌∙◌, subst, arith, ltb, lt→ltb, length, Bool-cases, Option-cases, inl, inr, ◌==◌, ==_iff,
}
use flux_trade.Prelude.Int.{ℤ}
use flux_trade.Gateway.Protocol.{MessageHeader, header_size, header_at, encode}
use flux_trade.Gateway.Sessions.{ClientConnection, buffer_size, get_connection}
use flux_trade.Gateway.Inbound.{
  Gateway, handle_packet, reject_unauthenticated, send_packet, request_of, is_login,
}
use flux_trade.Gateway.Framing.{decode, Outcome, parse_frames}

-- The bytes from an index on start with frames of these lengths, each with its length in its header.
abbrev pub Framed : (ℕ → ℕ) → ℕ → List ℕ → Type 0
Framed bytes i [] = Unit {0}
Framed bytes i (l ∷ ls) =
    (header_size ≤ l) × ((header_at bytes i).length ≡ l) × Framed bytes (i + l) ls

abbrev pub end_of : ℕ → List ℕ → ℕ
end_of i [] = i
end_of i (l ∷ ls) = end_of (i + l) ls

-- The frames' packets in turn.
abbrev pub handle_frames : (ℕ → ℕ) → ℤ → (ℕ → ℕ) → ℕ → List ℕ → Gateway → Outcome (ℕ × Gateway)
handle_frames clock conn_id bytes i [] g = Outcome.done (i, g)
handle_frames clock conn_id bytes i (l ∷ ls) g =
    elim (handle_packet clock buffer_size conn_id (header_at bytes i) bytes i g) [
      | none ↦ Outcome.undefined
      | some g' ↦ handle_frames clock conn_id bytes (i + l) ls g'
    ]

end_of_le : (i : ℕ) (ls : List ℕ) → i ≤ end_of i ls
end_of_le i [] = omega arith
end_of_le i (l ∷ ls) = omega (arith, end_of_le (i + l) ls)

-- The parser comes from one index to another over whole frames, each of the length in its header.
pub data Reaches (bytes : ℕ → ℕ) (len : ℕ) : ℕ → ℕ → Type 0 where
  arrived : (i : ℕ) → Reaches bytes len i i
  over_frame :
      (i j : ℕ)
      → header_size ≤ len - i
      → (header_at bytes i).length ≤ len - i
      → Reaches bytes len (i + (header_at bytes i).length) j
      → Reaches bytes len i j

-- An index that the parser comes to, with a whole header whose length is 0.
abbrev pub MeetsEmpty : (ℕ → ℕ) → ℕ → ℕ → Type 0
MeetsEmpty bytes len i =
    (j : ℕ) × Reaches bytes len i j × (j + header_size ≤ len) × ((header_at bytes j).length ≡ 0)

module _ (clock : ℕ → ℕ) (conn_id : ℤ) (bytes : ℕ → ℕ) (len : ℕ) where
  decode_frame :
      (i l : ℕ)
      → header_size ≤ l
      → (header_at bytes i).length ≡ l
      → l ≤ len - i
      → decode bytes i (len - i) ≡ some (header_at bytes i)
  unfolding decode
  decode_frame i l h e k = ground arith

  -- One round of the parser, by what it finds.
  pub parse_over :
      (fuel i : ℕ) (g : Gateway)
      → ltb i len ≡ false
      → parse_frames (suc fuel) clock conn_id bytes len i g ≡ Outcome.done (i, g)
  unfolding parse_frames
  parse_over fuel i g e = ground arith

  pub parse_incomplete :
      (fuel i : ℕ) (g : Gateway)
      → decode bytes i (len - i) ≡ none
      → parse_frames (suc fuel) clock conn_id bytes len i g ≡ Outcome.done (i, g)
  unfolding parse_frames
  parse_incomplete fuel i g e = ground arith

  abbrev pub next : ℕ → MessageHeader → ℕ → Option Gateway → Outcome (ℕ × Gateway)
  next fuel header i none = Outcome.undefined
  next fuel header i (some g') = parse_frames fuel clock conn_id bytes len (i + header.length) g'

  pub parse_next :
      (fuel i : ℕ) (g : Gateway) (header : MessageHeader)
      → ltb i len ≡ true
      → decode bytes i (len - i) ≡ some header
      → parse_frames (suc fuel) clock conn_id bytes len i g
        ≡ next fuel header i (handle_packet clock buffer_size conn_id header bytes i g)
  unfolding parse_frames
  parse_next fuel i g header e d = ground arith

  next_frames :
      (fuel i l : ℕ) (ls : List ℕ) (header : MessageHeader) (p : Option Gateway)
      → header.length ≡ l
      → ((g' : Gateway)
          → parse_frames fuel clock conn_id bytes len (i + l) g'
            ≡ handle_frames clock conn_id bytes (i + l) ls g')
      → next fuel header i p ≡ elim p [
        | none ↦ Outcome.undefined
        | some g' ↦ handle_frames clock conn_id bytes (i + l) ls g'
      ]
  next_frames fuel i l ls header none e h = refl
  next_frames fuel i l ls header (some g') e h =
      ap (λ k. parse_frames fuel clock conn_id bytes len (i + k) g') e ∙ h g'

  -- Where the bytes are whole frames followed by an incomplete one or by nothing, the parser handles the
  -- frames' packets in order, each once, and stops at the incomplete one; one round more than there are
  -- frames is enough.
  pub parse_frames_in_order :
      (fuel i : ℕ) (ls : List ℕ) (g : Gateway)
      → length ls < fuel
      → Framed bytes i ls
      → end_of i ls ≤ len
      → decode bytes (end_of i ls) (len - end_of i ls) ≡ none
      → parse_frames fuel clock conn_id bytes len i g ≡ handle_frames clock conn_id bytes i ls g
  parse_frames_in_order zero i ls g h f fits stops = absurd (omega arith)
  parse_frames_in_order (suc fuel) i [] g h f fits stops = parse_incomplete fuel i g stops
  parse_frames_in_order (suc fuel) i (l ∷ ls) g h (big, here, rest) fits stops =
      let inside : i + l ≤ len = omega (arith, end_of_le (i + l) ls) in
      parse_next fuel i g (header_at bytes i) (lt→ltb i len (omega arith))
        (decode_frame i l big here (omega arith))
      ∙ next_frames fuel i l ls (header_at bytes i) _ here
          (λ g'. parse_frames_in_order fuel (i + l) ls g' (omega arith) rest fits stops)

  decode_says :
      (i : ℕ) (header : MessageHeader)
      → decode bytes i (len - i) ≡ some header
      → (header_size ≤ len - i) × (header.length ≤ len - i) × (header ≡ header_at bytes i)
  unfolding decode
  decode_says i header e = (ground arith, ground arith, ground arith)

  ends_from :
      (fuel i : ℕ) (header : MessageHeader) (p : Option Gateway)
      → ((g' : Gateway)
          → parse_frames fuel clock conn_id bytes len (i + header.length) g' ≡ Outcome.out_of_fuel
          → MeetsEmpty bytes len (i + header.length))
      → next fuel header i p ≡ Outcome.out_of_fuel
      → MeetsEmpty bytes len (i + header.length)
  ends_from fuel i header none h e = cc
  ends_from fuel i header (some g') h e = h g' e

  meets_over :
      (i : ℕ) (header : MessageHeader)
      → header ≡ header_at bytes i
      → header_size ≤ len - i
      → header.length ≤ len - i
      → MeetsEmpty bytes len (i + header.length)
      → MeetsEmpty bytes len i
  meets_over i header same whole fits later =
      let length_at = ap (λ (h : MessageHeader). h.length) same in
      let (j, reached, inside, empty) = subst (λ k. MeetsEmpty bytes len (i + k)) length_at later in
      (j, Reaches.over_frame i j whole (omega (arith, length_at, fits)) reached, inside, empty)

  -- With a round for each byte left and one more, the parser ends, unless it comes, over whole frames
  -- from where it starts, to a whole header whose length is 0.
  pub parse_frames_ends :
      (fuel i : ℕ) (g : Gateway)
      → i ≤ len
      → len < fuel + i
      → parse_frames fuel clock conn_id bytes len i g ≡ Outcome.out_of_fuel
      → MeetsEmpty bytes len i
  parse_frames_ends zero i g k h e = absurd (omega arith)
  parse_frames_ends (suc fuel) i g k h e = elim (Bool-cases (ltb i len)) [
    | inr over ↦ let ends = sym (parse_over fuel i g over) ∙ e in cc
    | inl more ↦ elim (Option-cases (decode bytes i (len - i))) [
      | inl nothing ↦ let ends = sym (parse_incomplete fuel i g nothing) ∙ e in cc
      | inr (header, found) ↦
          let (whole, fits, same) = decode_says i header found in
          elim (Bool-cases (header.length == 0)) [
            | inl empty ↦
                let none_long : header.length ≡ 0 = (==_iff header.length 0).0 empty in
                (
                  i,
                  Reaches.arrived i,
                  omega arith,
                  ap (λ (h : MessageHeader). h.length) (sym same) ∙ none_long,
                )
            | inr long ↦
                let some_long : 0 < header.length = ground arith in
                meets_over i header same whole fits (
                  ends_from fuel i header _
                    (λ g' e'.
                      parse_frames_ends fuel (i + header.length) g' (omega arith) (omega arith) e')
                    (sym (parse_next fuel i g header more found) ∙ e))
          ]
    ]
  ]

pub reject_keeps :
    (clock : ℕ → ℕ) (conn_id : ℤ) (g : Gateway)
    → let g' = reject_unauthenticated clock conn_id g in
      (g'.sessions ≡ g.sessions) × (g'.inbound_queue ≡ g.inbound_queue) × (g'.sequence ≡ g.sequence)
unfolding reject_unauthenticated send_packet encode
reject_keeps clock conn_id g = (refl, refl, refl)

pub unauthenticated_packet :
    (clock : ℕ → ℕ) (limit : ℕ) (conn_id : ℤ) (header : MessageHeader) (bytes : ℕ → ℕ) (i : ℕ)
    (g : Gateway) (conn : ClientConnection)
    → get_connection conn_id g.sessions ≡ some conn
    → conn.authenticated ≡ false
    → is_login (request_of header.type) ≡ false
    → handle_packet clock limit conn_id header bytes i g
      ≡ some (reject_unauthenticated clock conn_id g)
unfolding handle_packet
unauthenticated_packet clock limit conn_id header bytes i g conn found out other = ground arith

decode_empty :
    (bytes : ℕ → ℕ) (len i : ℕ)
    → i + header_size ≤ len
    → (header_at bytes i).length ≡ 0
    → decode bytes i (len - i) ≡ some (header_at bytes i)
unfolding decode
decode_empty bytes len i h z = ground arith

-- On a connection that has not logged in, a whole header whose length is 0 and whose type is not that of
-- a login holds the parser for ever: with no fuel does it end.
pub zero_length_frame_never_ends :
    (clock : ℕ → ℕ) (conn_id : ℤ) (bytes : ℕ → ℕ) (len i : ℕ) (conn : ClientConnection) (fuel : ℕ)
    (g : Gateway)
    → i + header_size ≤ len
    → (header_at bytes i).length ≡ 0
    → is_login (request_of (header_at bytes i).type) ≡ false
    → get_connection conn_id g.sessions ≡ some conn
    → conn.authenticated ≡ false
    → parse_frames fuel clock conn_id bytes len i g ≡ Outcome.out_of_fuel
unfolding parse_frames
zero_length_frame_never_ends clock conn_id bytes len i conn zero g h z other found out = refl
zero_length_frame_never_ends clock conn_id bytes len i conn (suc fuel) g h z other found out =
    let g' = reject_unauthenticated clock conn_id g in
    let kept = (reject_keeps clock conn_id g).0 in
    parse_next clock conn_id bytes len fuel i g (header_at bytes i) (lt→ltb i len (omega arith))
      (decode_empty bytes len i h z)
    ∙ ap (next clock conn_id bytes len fuel (header_at bytes i) i) (
        unauthenticated_packet clock buffer_size conn_id (header_at bytes i) bytes i g conn found
          out other)
    ∙ ap (λ k. parse_frames fuel clock conn_id bytes len k g') (omega (arith, z))
    ∙ zero_length_frame_never_ends clock conn_id bytes len i conn fuel g' h z other
        (ap (get_connection conn_id) kept ∙ found) out
