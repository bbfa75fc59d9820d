-- ===== src/Persistence/Snapshots.antt =====
-- A snapshot written and read back.
use flux_trade.Prelude.{
  ℕ, zero, suc, ◌<◌, true, Option, none, some, List, [], ◌∷◌, ◌++◌, ◌≡◌, refl, ap, ap₂, sym, ◌∙◌,
  arith, All, length, append_assoc, append-nil, ==_iff,
}
use flux_trade.Prelude.Words.{u32_mod, u64_mod}
use flux_trade.Domain.{Side, buy, sell, Price, LiveOrder}
use flux_trade.Book.Level.{PriceLevelNode}
use flux_trade.Book.State.{LimitOrderBook}
use flux_trade.Book.Ops
use flux_trade.Persistence.Bytes.{read_bytes, read_bytes-append}
use flux_trade.Persistence.Checksum.{complement}
use flux_trade.Persistence.SnapshotWriter.{
  snapshot_magic, snapshot_version, snapshot_header, count_levels, level_snapshot, order_snapshot,
  chain_crc, write_orders, write_levels, initial, save_snapshot,
}
use flux_trade.Persistence.SnapshotReader.{
  SnapshotHeader, snapshot_header_at, level_snapshot_at, OrderSnapshot, order_snapshot_at, dummy,
  snapshot_header_size, level_snapshot_size, order_snapshot_size, Read, and_then, read_orders,
  read_levels, Loaded, checked, load_sides, load_snapshot,
}
use flux_trade.Persistence.SnapshotFields.{
  kept, restore_orders, restore_levels, FitsOrder, FitsLevel, own_orders, length-order_snapshot,
  order_read, length-level_snapshot, level_read, header_of, length-snapshot_header, header_read,
}

-- What is read, by what is restored.
abbrev went_on : List ℕ → ℕ → Option LimitOrderBook → Read
went_on rest crc none = Read.undefined
went_on rest crc (some b) = Read.went rest crc b

abbrev on_inserted : Option LimitOrderBook → (LimitOrderBook → Read) → Read
on_inserted none f = Read.undefined
on_inserted (some b) f = f b

next_order :
    (n : ℕ) (side : Side) (price : Price) (bytes piece rest : List ℕ) (crc : ℕ) (b : LimitOrderBook)
    (o : OrderSnapshot)
    → read_bytes order_snapshot_size bytes ≡ some (piece, rest)
    → order_snapshot_at piece ≡ o
    → read_orders (suc n) side price bytes crc b
      ≡ on_inserted
          (Ops.insert (dummy side price o) o.priority_seq b)
          (λ b'. read_orders n side price rest (chain_crc piece crc) b')
unfolding read_orders
next_order n side price bytes piece rest crc b o read same = ground arith

inserted_went_on :
    (side : Side) (price : Price) (os : List LiveOrder) (rest : List ℕ) (crc : ℕ)
    (f : LimitOrderBook → Read) (p : Option LimitOrderBook)
    → ((b : LimitOrderBook) → f b ≡ went_on rest crc (restore_orders side price os b))
    → on_inserted p f
      ≡ went_on rest crc (elim p [ none ↦ none | some b ↦ restore_orders side price os b ])
inserted_went_on side price os rest crc f none h = refl
inserted_went_on side price os rest crc f (some b) h = h b

no_orders :
    (side : Side) (price : Price) (bytes : List ℕ) (crc : ℕ) (b : LimitOrderBook)
    → read_orders zero side price bytes crc b ≡ Read.went bytes crc b
unfolding read_orders
no_orders side price bytes crc b = refl

orders_read :
    (gap : ℕ) (side : Side) (price : Price) (os : List LiveOrder) (rest : List ℕ) (crc : ℕ)
    (b : LimitOrderBook)
    → gap < u32_mod
    → All FitsOrder os
    → read_orders (length os) side price ((write_orders gap os crc).0 ++ rest) crc b
      ≡ went_on rest (write_orders gap os crc).1 (restore_orders side price os b)
unfolding write_orders
orders_read gap side price [] rest crc b g v = no_orders side price rest crc b
orders_read gap side price (o ∷ os) rest crc b g (v, vs) =
    let piece = order_snapshot gap o in
    let crc' = chain_crc piece crc in
    let behind = (write_orders gap os crc').0 ++ rest in
    next_order (length os) side price ((piece ++ (write_orders gap os crc').0) ++ rest) piece behind
      crc b (kept o)
      (ap (read_bytes order_snapshot_size) (append_assoc piece (write_orders gap os crc').0 rest)
        ∙ read_bytes-append order_snapshot_size piece behind (length-order_snapshot gap o))
      (order_read gap o g v)
    ∙ inserted_went_on side price os rest (write_orders gap os crc').1
        (λ b'. read_orders (length os) side price behind crc' b')
        (Ops.insert (dummy side price (kept o)) o.priority_seq b)
        (λ b'. orders_read gap side price os rest crc' b' g vs)

no_levels :
    (side : Side) (bytes : List ℕ) (crc : ℕ) (b : LimitOrderBook)
    → read_levels zero side bytes crc b ≡ Read.went bytes crc b
unfolding read_levels
no_levels side bytes crc b = refl

-- A round on what is read of a level.
abbrev opened : ℕ → Side → ℕ → LimitOrderBook → Option (List ℕ × List ℕ) → Read
opened n side crc b none = Read.broke b
opened n side crc b (some (piece, rest)) =
    and_then
      (read_orders (level_snapshot_at piece).1 side (level_snapshot_at piece).0 rest
        (chain_crc piece crc) b)
      (λ bytes' crc' b'. read_levels n side bytes' crc' b')

round_level :
    (n : ℕ) (side : Side) (bytes : List ℕ) (crc : ℕ) (b : LimitOrderBook)
    → read_levels (suc n) side bytes crc b
      ≡ opened n side crc b (read_bytes level_snapshot_size bytes)
unfolding read_levels
round_level n side bytes crc b = ground arith

next_level :
    (n : ℕ) (side : Side) (bytes piece rest : List ℕ) (crc : ℕ) (b : LimitOrderBook)
    (level : Price × ℕ)
    → read_bytes level_snapshot_size bytes ≡ some (piece, rest)
    → level_snapshot_at piece ≡ level
    → read_levels (suc n) side bytes crc b
      ≡ and_then
          (read_orders level.1 side level.0 rest (chain_crc piece crc) b)
          (λ bytes' crc' b'. read_levels n side bytes' crc' b')
unfolding read_levels
next_level n side bytes piece rest crc b level read same =
    let onward : List ℕ → ℕ → LimitOrderBook → Read =
      λ bytes' crc' b'. read_levels n side bytes' crc' b' in
    round_level n side bytes crc b
    ∙ ap (opened n side crc b) read
    ∙ ap
        (λ (lv : Price × ℕ).
          and_then (read_orders lv.1 side lv.0 rest (chain_crc piece crc) b) onward)
        same

then_went_on :
    (side : Side) (ls : List PriceLevelNode) (bytes rest : List ℕ) (crc crc' : ℕ)
    (f : List ℕ → ℕ → LimitOrderBook → Read) (p : Option LimitOrderBook)
    → ((b : LimitOrderBook) → f bytes crc b ≡ went_on rest crc' (restore_levels side ls b))
    → and_then (went_on bytes crc p) f
      ≡ went_on rest crc' (elim p [ none ↦ none | some b ↦ restore_levels side ls b ])
then_went_on side ls bytes rest crc crc' f none h = refl
then_went_on side ls bytes rest crc crc' f (some b) h = h b

levels_read :
    (gap : ℕ) (side : Side) (ls : List PriceLevelNode) (rest : List ℕ) (crc : ℕ)
    (b : LimitOrderBook)
    → gap < u32_mod
    → All FitsLevel ls
    → read_levels (length ls) side ((write_levels own_orders gap ls crc).0 ++ rest) crc b
      ≡ went_on rest (write_levels own_orders gap ls crc).1 (restore_levels side ls b)
unfolding write_levels
levels_read gap side [] rest crc b g v = no_levels side rest crc b
levels_read gap side (l ∷ ls) rest crc b g (v, vs) =
    let piece = level_snapshot own_orders l in
    let crc1 = chain_crc piece crc in
    let orders = (write_orders gap l.orders crc1).0 in
    let crc2 = (write_orders gap l.orders crc1).1 in
    let levels = (write_levels own_orders gap ls crc2).0 in
    let behind = levels ++ rest in
    next_level (length ls) side ((piece ++ (orders ++ levels)) ++ rest) piece (orders ++ behind) crc
      b (l.price, length l.orders)
      (ap (read_bytes level_snapshot_size) (
          append_assoc piece (orders ++ levels) rest
          ∙ ap (λ bs. piece ++ bs) (append_assoc orders levels rest))
        ∙ read_bytes-append level_snapshot_size piece (orders ++ behind) (length-level_snapshot l))
      (level_read l v)
    ∙ ap (λ r. and_then r (λ bytes' crc' b'. read_levels (length ls) side bytes' crc' b'))
        (orders_read gap side l.price l.orders behind crc1 b g v.3)
    ∙ then_went_on side ls behind rest crc2 (write_levels own_orders gap ls crc2).1
        (λ bytes' crc' b'. read_levels (length ls) side bytes' crc' b')
        (restore_orders side l.price l.orders b) (λ b'. levels_read gap side ls rest crc2 b' g vs)

load_round :
    (file bytes rest : List ℕ) (book : LimitOrderBook) (sequence timestamp : ℕ)
    (header : SnapshotHeader)
    → read_bytes snapshot_header_size file ≡ some (bytes, rest)
    → snapshot_header_at bytes ≡ header
    → header.magic ≡ snapshot_magic
    → header.version ≡ snapshot_version
    → load_snapshot file book sequence timestamp ≡ load_sides header rest book
unfolding load_snapshot
load_round file bytes rest book sequence timestamp header read same magic version = ground arith

-- The book of a snapshot, restored into another one.
abbrev pub restore : LimitOrderBook → LimitOrderBook → Option LimitOrderBook
restore saved book = elim (restore_levels buy saved.bids (Ops.clear book)) [
  | none ↦ none
  | some b ↦ restore_levels sell saved.asks b
]

abbrev pub restored : ℕ → ℕ → Option LimitOrderBook → Loaded
restored sequence timestamp none = Loaded.undefined
restored sequence timestamp (some b) = Loaded.finished true b sequence timestamp

checked-went_on :
    (expected sequence timestamp crc : ℕ) (rest : List ℕ) (p : Option LimitOrderBook)
    → expected ≡ complement crc
    → checked expected sequence timestamp (went_on rest crc p) ≡ restored sequence timestamp p
checked-went_on expected sequence timestamp crc rest none h = refl
checked-went_on expected sequence timestamp crc rest (some b) h =
    ap (λ ok. Loaded.finished ok b sequence timestamp) ((==_iff expected (complement crc)).1 h)

saved_and_loaded :
    (gap sequence timestamp : ℕ) (saved book : LimitOrderBook) (old_sequence old_timestamp : ℕ)
    → gap < u32_mod
    → sequence < u64_mod
    → timestamp < u64_mod
    → length saved.bids < u32_mod
    → length saved.asks < u32_mod
    → All FitsLevel saved.bids
    → All FitsLevel saved.asks
    → load_snapshot
        (save_snapshot own_orders gap saved sequence timestamp)
        book
        old_sequence
        old_timestamp
      ≡ restored sequence timestamp (restore saved book)
unfolding save_snapshot
saved_and_loaded gap sequence timestamp saved book old_sequence old_timestamp g hs ht hb ha vb va =
    let bids = (write_levels own_orders gap saved.bids initial).0 in
    let crc1 = (write_levels own_orders gap saved.bids initial).1 in
    let asks = (write_levels own_orders gap saved.asks crc1).0 in
    let crc2 = (write_levels own_orders gap saved.asks crc1).1 in
    let nb : count_levels saved.bids ≡ length saved.bids = omega (arith, hb) in
    let na : count_levels saved.asks ≡ length saved.asks = omega (arith, ha) in
    let header =
      header_of sequence timestamp (count_levels saved.bids) (count_levels saved.asks)
        (complement crc2) in
    let bytes =
      snapshot_header sequence timestamp (count_levels saved.bids) (count_levels saved.asks)
        (complement crc2) in
    let onward : ℕ → List ℕ → ℕ → LimitOrderBook → Read =
      λ n bytes' crc' b'. read_levels n sell bytes' crc' b' in
    load_round (bytes ++ (bids ++ asks)) bytes (bids ++ asks) book old_sequence old_timestamp header
      (read_bytes-append snapshot_header_size bytes (bids ++ asks) (
        length-snapshot_header sequence timestamp (count_levels saved.bids)
          (count_levels saved.asks) (complement crc2)))
      (header_read sequence timestamp (count_levels saved.bids) (count_levels saved.asks)
        (complement crc2) hs ht (omega (arith, nb, hb)) (omega (arith, na, ha)) (omega arith))
      refl refl
    ∙ ap₂
        (λ n k.
          checked (complement crc2) sequence timestamp
            (and_then (read_levels n buy (bids ++ asks) initial (Ops.clear book)) (onward k)))
        nb na
    ∙ ap
        (λ r.
          checked (complement crc2) sequence timestamp (and_then r (onward (length saved.asks))))
        (levels_read gap buy saved.bids asks initial (Ops.clear book) g vb)
    ∙ ap (checked (complement crc2) sequence timestamp) (
        then_went_on sell saved.asks asks [] crc1 crc2 (onward (length saved.asks))
          (restore_levels buy saved.bids (Ops.clear book))
          (λ b.
            ap (λ bs. read_levels (length saved.asks) sell bs crc1 b) (sym (append-nil asks))
            ∙ levels_read gap sell saved.asks [] crc1 b g va))
    ∙ checked-went_on (complement crc2) sequence timestamp crc2 [] (restore saved book) refl

pub load-save_snapshot :
    (head_order : PriceLevelNode → List LiveOrder) (gap sequence timestamp : ℕ)
    (saved book : LimitOrderBook) (old_sequence old_timestamp : ℕ)
    → ((l : PriceLevelNode) → head_order l ≡ l.orders)
    → gap < u32_mod
    → sequence < u64_mod
    → timestamp < u64_mod
    → length saved.bids < u32_mod
    → length saved.asks < u32_mod
    → All FitsLevel saved.bids
    → All FitsLevel saved.asks
    → load_snapshot
        (save_snapshot head_order gap saved sequence timestamp)
        book
        old_sequence
        old_timestamp
      ≡ restored sequence timestamp (restore saved book)
load-save_snapshot head_order gap sequence timestamp saved book old_sequence old_timestamp leads g
      hs ht hb ha vb va =
    let same : head_order ≡ own_orders = λ i l. leads l i in
    ap
      (λ orders.
        load_snapshot (save_snapshot orders gap saved sequence timestamp) book old_sequence
          old_timestamp)
      same
    ∙ saved_and_loaded gap sequence timestamp saved book old_sequence old_timestamp g hs ht hb ha vb
        va
