-- ===== src/Exchange/Responses.antt =====
-- From the outbound queue to the transport: run_response_loop.
use flux_trade.Prelude.{
  ℕ, zero, suc, ◌≤◌, none, some, List, [], ◌∷◌, ◌++◌, ◌≡◌, refl, ap, sym, ◌∙◌, subst, arith, All,
  length, append_assoc, append-nil, map, Option-cases, inl, inr,
}
use flux_trade.Prelude.Int.{ℤ}
use flux_trade.Domain.{Side, RejectReason}
use flux_trade.Matching.Context.{ExecutionReport}
use flux_trade.Common.Ring.{Ring, pop}
use flux_trade.Common.Queue.{IsRing, contents, pop-some, pop-none}
use flux_trade.Gateway.Protocol.{MessageHeader, MessageType, type_code, Packet, size_of, encode}
use flux_trade.Gateway.Commands.{OrderCommand}
use flux_trade.Gateway.Inbound.{Action, Gateway, send_packet, write_buffer_size}
use flux_trade.Exchange.Reports.{OutboundReport, execution_report, reject_report}
use flux_trade.Exchange.Venue.{report_type, send_report, response_round, response_rounds}

-- The report of a matching engine or of a refusal, as a message with its own header.
pub record IsReport (r : OutboundReport) : Type 0 where
  pub type : MessageType
  pub sent_as : report_type r.packet ≡ some type
  pub coded : r.header.type ≡ type_code type
  pub sized : r.header.length ≡ size_of r.packet

pub execution_report-IsReport :
    (conn_id : ℤ) (side : Side) (r : ExecutionReport) → IsReport (execution_report conn_id side r)
unfolding execution_report
execution_report-IsReport conn_id side r = record {
  type = MessageType.execution_report;
  sent_as = refl;
  coded = refl;
  sized = refl;
}

pub reject_report-IsReport :
    (reason : RejectReason) (now : ℕ) (cmd : OrderCommand) → IsReport (reject_report reason now cmd)
unfolding reject_report
reject_report-IsReport reason now cmd = record {
  type = MessageType.reject;
  sent_as = refl;
  coded = refl;
  sized = refl;
}

-- What a report is sent as.
abbrev pub sent : OutboundReport → Action
sent r = Action.send r.conn_id (record { header = r.header; packet = r.packet })

abbrev with_header : MessageType → ℕ → ℕ → Packet → MessageHeader
with_header type seq ts packet = record {
  length = size_of packet;
  type = type_code type;
  sequence = seq;
  timestamp = ts;
}

encode_fits :
    (type : MessageType) (seq ts : ℕ) (packet : Packet)
    → encode write_buffer_size type seq ts packet
      ≡ some (record { header = with_header type seq ts packet; packet = packet })
unfolding encode
encode_fits type seq ts (Packet.login_response p) = refl
encode_fits type seq ts (Packet.rejection p) = refl
encode_fits type seq ts (Packet.execution p) = refl
encode_fits type seq ts Packet.echo = refl

send_packet_fits :
    (conn_id : ℤ) (type : MessageType) (seq ts : ℕ) (packet : Packet) (g : Gateway)
    → send_packet conn_id type seq ts packet g ≡ record g {
      actions =
          g.actions
          ++ Action.send conn_id
              (record { header = with_header type seq ts packet; packet = packet })
            ∷ [];
    }
unfolding send_packet
send_packet_fits conn_id type seq ts packet g = ground (arith, encode_fits type seq ts packet)

same_header :
    (r : OutboundReport) (v : IsReport r)
    → with_header v.type r.header.sequence r.header.timestamp r.packet ≡ r.header
same_header r v = ground arith

send_report_typed :
    (type : MessageType) (r : OutboundReport) (g : Gateway)
    → report_type r.packet ≡ some type
    → send_report r g ≡ send_packet r.conn_id type r.header.sequence r.header.timestamp r.packet g
unfolding send_report
send_report_typed type r g h = ground arith

send_report_lem :
    (r : OutboundReport) (g : Gateway)
    → IsReport r
    → send_report r g ≡ record g { actions = g.actions ++ sent r ∷ [] }
send_report_lem r g v =
    send_report_typed v.type r g v.sent_as
    ∙ send_packet_fits r.conn_id v.type r.header.sequence r.header.timestamp r.packet g
    ∙ ap
        (λ (h : MessageHeader). record g {
          actions =
              g.actions ++ Action.send r.conn_id (record { header = h; packet = r.packet }) ∷ [];
        })
        (same_header r v)

response_idle :
    (outbound : Ring OutboundReport) (g : Gateway)
    → pop outbound ≡ none
    → response_round (outbound, g) ≡ (outbound, g)
unfolding response_round
response_idle outbound g h = ground arith

response_sends :
    (outbound rest : Ring OutboundReport) (r : OutboundReport) (g : Gateway)
    → pop outbound ≡ some (r, rest)
    → response_round (outbound, g) ≡ (rest, send_report r g)
unfolding response_round
response_sends outbound rest r g h = ground arith

idle_rounds :
    (n : ℕ) (outbound : Ring OutboundReport) (g : Gateway)
    → pop outbound ≡ none
    → response_rounds n (outbound, g) ≡ (outbound, g)
idle_rounds zero outbound g h = refl
idle_rounds (suc n) outbound g h =
    ap (response_rounds n) (response_idle outbound g h) ∙ idle_rounds n outbound g h

-- The gateway, with these reports given to the transport.
abbrev pub all_sent : List OutboundReport → Gateway → Gateway
all_sent rs g = record g { actions = g.actions ++ map sent rs }

nothing_sent : (rs : List OutboundReport) (g : Gateway) → rs ≡ [] → g ≡ all_sent rs g
nothing_sent rs g h =
    ap (λ (acts : List Action). record g { actions = acts })
      (sym (append-nil g.actions) ∙ ap (λ xs. g.actions ++ map sent xs) (sym h))

nothing_of : (rs : List OutboundReport) → length rs ≤ 0 → rs ≡ []
nothing_of [] h = refl
nothing_of (r ∷ rs) h = absurd (omega (arith, h))

-- With a round for each report of the outbound queue, a valid ring whose reports carry the type and
-- the length of their packets, the response loop has sent them all, each once to its own connection
-- and in the queue's order, with the header that it was filled with.
pub responses_in_order :
    (n : ℕ) (outbound : Ring OutboundReport) (g : Gateway)
    → IsRing outbound
    → All IsReport (contents outbound)
    → length (contents outbound) ≤ n
    → (outbound' : Ring OutboundReport) × (response_rounds n (outbound, g)
        ≡ (outbound', all_sent (contents outbound) g))
      × (contents outbound' ≡ [])
responses_in_order zero outbound g v reports h =
    let empty = nothing_of (contents outbound) h in
    (outbound, ap (λ u. (outbound, u)) (nothing_sent (contents outbound) g empty), empty)
responses_in_order (suc n) outbound g v reports h = elim (Option-cases (pop outbound)) [
  | inl nothing ↦
      let empty = pop-none outbound v nothing in
      (
        outbound,
        idle_rounds (suc n) outbound g nothing
            ∙ ap (λ u. (outbound, u)) (nothing_sent (contents outbound) g empty),
        empty,
      )
  | inr ((r, rest), found) ↦
      let (v', shown) = pop-some outbound r rest v found in
      let (first, others) = subst (All IsReport) shown reports in
      let sent_one = send_report_lem r g first in
      let (outbound', runs, empty) =
        responses_in_order n rest (send_report r g) v' others (omega (arith, h, ap length shown)) in
      (
        outbound',
        ap (response_rounds n) (response_sends outbound rest r g found)
            ∙ runs
            ∙ ap (λ u. (outbound', all_sent (contents rest) u)) sent_one
            ∙ ap (λ (acts : List Action). (outbound', record g { actions = acts }))
                (append_assoc g.actions (sent r ∷ []) (map sent (contents rest))
                  ∙ ap (λ xs. g.actions ++ map sent xs) (sym shown)),
        empty,
      )
]
