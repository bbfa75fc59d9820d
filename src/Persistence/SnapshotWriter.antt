-- ===== src/Persistence/SnapshotWriter.antt =====
-- persistence/include/persistence/snapshot_writer.hpp: the bytes of a snapshot. `gap` is what the padding
-- of an order's key holds. write_levels starts a level's orders from curr->head_order, a member that
-- PriceLevelNode does not declare: `head_order`, the list that such a pointer would lead along, is an
-- argument here.
use flux_trade.Prelude.{ℕ, ◌%◌, List, [], ◌∷◌, ◌++◌, length}
use flux_trade.Prelude.Words.{u32_mod, to_u64}
use flux_trade.Domain.{LiveOrder}
use flux_trade.Book.Level.{PriceLevelNode}
use flux_trade.Book.State.{LimitOrderBook}
use flux_trade.Persistence.Bytes.{bytes_of}
use flux_trade.Persistence.Checksum.{crc32c, complement}

abbrev pub snapshot_magic : ℕ
snapshot_magic = 0x534E4150

abbrev pub snapshot_version : ℕ
snapshot_version = 1

-- The bytes of a SnapshotHeader, with its flags and its padding.
unfoldable pub snapshot_header : ℕ → ℕ → ℕ → ℕ → ℕ → List ℕ
snapshot_header sequence timestamp bid_count ask_count checksum =
    bytes_of 4 snapshot_magic
    ++ (bytes_of 2 snapshot_version
        ++ (bytes_of 2 0
            ++ (bytes_of 8 sequence
                ++ (bytes_of 8 timestamp
                    ++ (bytes_of 4 bid_count
                        ++ (bytes_of 4 ask_count ++ (bytes_of 4 checksum ++ bytes_of 4 0)))))))

-- The counts of the linked lists, in a uint32_t.
abbrev pub count_levels : List PriceLevelNode → ℕ
count_levels ls = length ls % u32_mod

abbrev pub count_orders : List LiveOrder → ℕ
count_orders os = length os % u32_mod

unfoldable pub level_snapshot : (PriceLevelNode → List LiveOrder) → PriceLevelNode → List ℕ
level_snapshot head_order l =
    bytes_of 8 (to_u64 l.price)
    ++ (bytes_of 8 l.total_qty ++ (bytes_of 4 (count_orders (head_order l)) ++ bytes_of 4 0))

unfoldable pub order_snapshot : ℕ → LiveOrder → List ℕ
order_snapshot gap o =
    bytes_of 4 o.key.symbol_id
    ++ (bytes_of 4 gap
        ++ (bytes_of 8 o.key.order_id ++ (bytes_of 8 o.remaining_qty ++ bytes_of 8 o.priority_seq)))

-- The checksum of one piece more.
abbrev pub chain_crc : List ℕ → ℕ → ℕ
chain_crc piece crc = crc32c piece (complement crc)

-- The loop over the orders of a level, with what it writes and the checksum.
unfoldable pub write_orders : ℕ → List LiveOrder → ℕ → List ℕ × ℕ
write_orders gap [] crc = ([], crc)
write_orders gap (o ∷ os) crc =
    let piece = order_snapshot gap o in
    let (bytes, crc') = write_orders gap os (chain_crc piece crc) in (piece ++ bytes, crc')

unfoldable pub write_levels :
    (PriceLevelNode → List LiveOrder) → ℕ → List PriceLevelNode → ℕ → List ℕ × ℕ
write_levels head_order gap [] crc = ([], crc)
write_levels head_order gap (l ∷ ls) crc =
    let piece = level_snapshot head_order l in
    let (orders, crc1) = write_orders gap (head_order l) (chain_crc piece crc) in
    let (bytes, crc2) = write_levels head_order gap ls crc1 in (piece ++ (orders ++ bytes), crc2)

abbrev pub initial : ℕ
initial = 0xFFFFFFFF

-- What `save` leaves in the file: the header is written twice, at last with the checksum.
unfoldable pub save_snapshot :
    (PriceLevelNode → List LiveOrder) → ℕ → LimitOrderBook → ℕ → ℕ → List ℕ
save_snapshot head_order gap book sequence timestamp =
    let (bids, crc1) = write_levels head_order gap book.bids initial in
    let (asks, crc2) = write_levels head_order gap book.asks crc1 in
    snapshot_header sequence timestamp (count_levels book.bids) (count_levels book.asks)
      (complement crc2)
    ++ (bids ++ asks)
