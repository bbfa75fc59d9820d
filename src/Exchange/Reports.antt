-- ===== src/Exchange/Reports.antt =====
-- exchange/include/exchange/outbound_report.hpp, and the reports that engine_manager.hpp fills.
use flux_trade.Prelude.{ℕ}
use flux_trade.Prelude.Int.{ℤ}
use flux_trade.Prelude.Words.{add64, to_u64}
use flux_trade.Domain.{Side, buy, sell, RejectReason, reason_code, execution_code}
use flux_trade.Matching.Context.{ExecutionReport}
use flux_trade.Gateway.Protocol.{MessageHeader, MessageType, type_code, Packet, size_of}
use flux_trade.Gateway.Commands.{OrderCommand}

-- The type of the report is the constructor of its packet.
pub record OutboundReport : Type 0 where
  pub conn_id : ℤ
  pub header : MessageHeader
  pub packet : Packet

abbrev pub packet_side : Side → ℕ
packet_side buy = 0
packet_side sell = 1

-- The report of dispatch_reports for a report of the matching engine.
unfoldable pub execution_report : ℤ → Side → ExecutionReport → OutboundReport
execution_report conn_id side r =
    let packet = Packet.execution (record {
      order_id = r.order_id;
      client_order_id = r.order_id;
      symbol_id = r.symbol_id;
      account_id = r.account_id;
      price_ticks = to_u64 r.price;
      qty_units = add64 r.last_qty r.remaining_qty;
      filled_qty = r.last_qty;
      remaining_qty = r.remaining_qty;
      side = packet_side side;
      status = execution_code r.exec_type;
    }) in
    record {
      conn_id = conn_id;
      header = record {
        length = size_of packet;
        type = type_code MessageType.execution_report;
        sequence = r.exec_id;
        timestamp = r.timestamp;
      };
      packet = packet;
    }

-- The report of a command that the risk checks refuse.
unfoldable pub reject_report : RejectReason → ℕ → OrderCommand → OutboundReport
reject_report reason now cmd =
    let packet = Packet.rejection (record {
      client_order_id = cmd.client_order_id;
      account_id = cmd.account_id;
      reason = reason_code reason;
    }) in
    record {
      conn_id = cmd.conn_id;
      header = record {
        length = size_of packet;
        type = type_code MessageType.reject;
        sequence = cmd.sequence;
        timestamp = now;
      };
      packet = packet;
    }
