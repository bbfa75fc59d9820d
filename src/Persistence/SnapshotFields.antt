-- ===== src/Persistence/SnapshotFields.antt =====
-- The parts of a snapshot, each written and read back, and the book that its orders restore.
use flux_trade.Prelude.{
  ℕ, ◌<◌, Option, none, some, List, [], ◌∷◌, ◌++◌, ◌≡◌, refl, ap, arith, All, length,
}
use flux_trade.Prelude.Int.{ℤ, pos, negsuc}
use flux_trade.Prelude.Words.{u32_mod, u64_mod, to_u64, to_i64}
use flux_trade.Domain.{Side, Price, LiveOrder}
use flux_trade.Book.Level.{PriceLevelNode}
use flux_trade.Book.State.{LimitOrderBook}
use flux_trade.Book.Ops
use flux_trade.Persistence.Bytes.{bytes_of, take_word-bytes_of}
use flux_trade.Persistence.SnapshotWriter.{
  snapshot_magic, snapshot_version, snapshot_header, count_orders, level_snapshot, order_snapshot,
}
use flux_trade.Persistence.SnapshotReader.{
  SnapshotHeader, snapshot_header_at, level_snapshot_at, OrderSnapshot, order_snapshot_at, dummy,
  snapshot_header_size, level_snapshot_size, order_snapshot_size,
}

-- What a snapshot keeps of an order.
abbrev pub kept : LiveOrder → OrderSnapshot
kept o = record {
  symbol_id = o.key.symbol_id;
  order_id = o.key.order_id;
  remaining_qty = o.remaining_qty;
  priority_seq = o.priority_seq;
}

-- The orders of a level inserted in their order, each with what is kept of it.
abbrev pub restore_orders : Side → Price → List LiveOrder → LimitOrderBook → Option LimitOrderBook
restore_orders side price [] b = some b
restore_orders side price (o ∷ os) b =
    elim (Ops.insert (dummy side price (kept o)) o.priority_seq b) [
      | none ↦ none
      | some b' ↦ restore_orders side price os b'
    ]

abbrev pub restore_levels : Side → List PriceLevelNode → LimitOrderBook → Option LimitOrderBook
restore_levels side [] b = some b
restore_levels side (l ∷ ls) b = elim (restore_orders side l.price l.orders b) [
  | none ↦ none
  | some b' ↦ restore_levels side ls b'
]

-- The orders of a level, as its list has them.
abbrev pub own_orders : PriceLevelNode → List LiveOrder
own_orders l = l.orders

-- The numbers of an order and of a level fit their fields.
abbrev pub FitsOrder : LiveOrder → Type 0
FitsOrder o =
    (o.key.symbol_id < u32_mod)
    × (o.key.order_id < u64_mod)
    × (o.remaining_qty < u64_mod)
    × (o.priority_seq < u64_mod)

abbrev pub FitsLevel : PriceLevelNode → Type 0
FitsLevel l =
    (to_i64 (to_u64 l.price) ≡ l.price)
    × (l.total_qty < u64_mod)
    × (length l.orders < u32_mod)
    × All FitsOrder l.orders

order_snapshot_assoc :
    (gap : ℕ) (o : LiveOrder)
    → order_snapshot gap o
      ≡ bytes_of 4 o.key.symbol_id
        ++ (bytes_of 4 gap
            ++ (bytes_of 8 o.key.order_id
                ++ (bytes_of 8 o.remaining_qty ++ (bytes_of 8 o.priority_seq ++ []))))
unfolding order_snapshot bytes_of
order_snapshot_assoc gap o = refl

pub length-order_snapshot :
    (gap : ℕ) (o : LiveOrder) → length (order_snapshot gap o) ≡ order_snapshot_size
unfolding order_snapshot bytes_of
length-order_snapshot gap o = refl

pub length-level_snapshot :
    (l : PriceLevelNode) → length (level_snapshot own_orders l) ≡ level_snapshot_size
unfolding level_snapshot bytes_of
length-level_snapshot l = refl

pub order_read :
    (gap : ℕ) (o : LiveOrder)
    → gap < u32_mod
    → FitsOrder o
    → order_snapshot_at (order_snapshot gap o) ≡ kept o
unfolding order_snapshot_at
order_read gap o g (symbol, id, qty, seq) =
    rw
      (
        order_snapshot_assoc gap o,
        take_word-bytes_of 4 o.key.symbol_id _ symbol,
        take_word-bytes_of 4 gap _ g,
        take_word-bytes_of 8 o.key.order_id _ id,
        take_word-bytes_of 8 o.remaining_qty _ qty,
        take_word-bytes_of 8 o.priority_seq _ seq,
      )
      refl

to_u64_below : (z : ℤ) → to_u64 z < u64_mod
to_u64_below (pos n) = omega arith
to_u64_below (negsuc n) = omega arith

pub level_read :
    (l : PriceLevelNode)
    → FitsLevel l
    → level_snapshot_at (level_snapshot own_orders l) ≡ (l.price, length l.orders)
unfolding level_snapshot_at level_snapshot
level_read l (price, total, count, orders) =
    let few : count_orders l.orders ≡ length l.orders = omega (arith, count) in
    rw
      (
        take_word-bytes_of 8 (to_u64 l.price) _ (to_u64_below l.price),
        take_word-bytes_of 8 l.total_qty _ total,
        take_word-bytes_of 4 (count_orders l.orders) _ (omega (arith, few, count)),
        price,
      )
      (ap (λ n. (l.price, n)) few)

abbrev pub header_of : ℕ → ℕ → ℕ → ℕ → ℕ → SnapshotHeader
header_of sequence timestamp bids asks checksum = record {
  magic = snapshot_magic;
  version = snapshot_version;
  sequence = sequence;
  timestamp = timestamp;
  bid_level_count = bids;
  ask_level_count = asks;
  checksum = checksum;
}

pub length-snapshot_header :
    (sequence timestamp bids asks checksum : ℕ)
    → length (snapshot_header sequence timestamp bids asks checksum) ≡ snapshot_header_size
unfolding snapshot_header bytes_of
length-snapshot_header sequence timestamp bids asks checksum = refl

pub header_read :
    (sequence timestamp bids asks checksum : ℕ)
    → sequence < u64_mod
    → timestamp < u64_mod
    → bids < u32_mod
    → asks < u32_mod
    → checksum < u32_mod
    → snapshot_header_at (snapshot_header sequence timestamp bids asks checksum)
      ≡ header_of sequence timestamp bids asks checksum
unfolding snapshot_header_at snapshot_header
header_read sequence timestamp bids asks checksum hs ht hb ha hc =
    rw
      (
        take_word-bytes_of 4 snapshot_magic _ (omega arith),
        take_word-bytes_of 2 snapshot_version _ (omega arith),
        take_word-bytes_of 2 0 _ (omega arith),
        take_word-bytes_of 8 sequence _ hs,
        take_word-bytes_of 8 timestamp _ ht,
        take_word-bytes_of 4 bids _ hb,
        take_word-bytes_of 4 asks _ ha,
        take_word-bytes_of 4 checksum _ hc,
      )
      refl
