-- ===== src/Book/Insert.antt =====
-- LimitOrderBook::insert: the order joins the tail of the level of its price, which is created in its
-- place if there is none.
use flux_trade.Prelude.{
  ℕ, ◌<◌, Option, none, some, [], ◌≡◌, refl, ap, sym, ◌∙◌, subst, arith, if◌then◌else◌,
}
use flux_trade.Prelude.Words.{u64_mod}
use flux_trade.Domain.{Side, buy, sell, opposite, Price, price_eq, Order, LiveOrder}
use flux_trade.Common.ObjectPool.{ObjectPool, allocate}
use flux_trade.Book.Level
use flux_trade.Book.Level.{PriceLevelNode}
use flux_trade.Book.Levels.{find_level, link, write_level}
use flux_trade.Book.Lookup
use flux_trade.Book.State.{LimitOrderBook, BookEvent, notify, levels_of, set_levels, create_level}
use flux_trade.Book.Front.{notify_levels}
use flux_trade.Book.Ops.{insert, find_or_create, live_of}
use flux_trade.Book.Sorted.{Ordered-link, All-link, prices-write_level}
use flux_trade.Book.Sums.{LevelOk, join-LevelOk}
use flux_trade.Book.Valid.{
  SideOk, IsValid, side-ok, All-find_level, price-find_level, All-write_level,
}
use flux_trade.Book.Keep.{levels_set}
use flux_trade.Book.Link.{write-link, All-levels-link, find_level-write, find_level-link}
use flux_trade.Book.Opens.{Clear, Opens, Opens-levels, Opens-IsValid}

-- The level that an order at the price joins: the one of that price, or a new one at `slot`.
abbrev pub target : ℕ → Price → Option PriceLevelNode → PriceLevelNode
target slot p (some l) = l
target slot p none = record { slot = slot; price = p; total_qty = 0; order_count = 0; orders = [] }

module _ (order : Order) (seq slot lslot : ℕ) (pool lpool : ObjectPool) (b : LimitOrderBook) where
  abbrev live : LiveOrder
  live = live_of order slot seq

  -- The book once the order has been allocated and indexed.
  abbrev started : LimitOrderBook
  started = record b { order_pool = pool; lookup = Lookup.insert order.order_id slot b.lookup }

  abbrev fresh : PriceLevelNode
  fresh = record { slot = lslot; price = order.price; total_qty = 0; order_count = 0; orders = [] }

  -- That book with a new level for the order.
  abbrev opened : LimitOrderBook
  opened =
      notify (BookEvent.price_level_created order.price order.side)
        (record (set_levels order.side (link order.side fresh (levels_of order.side started))
          started) { level_pool = lpool })

  abbrev joined : PriceLevelNode → LimitOrderBook → LimitOrderBook
  joined l c =
      notify (BookEvent.order_inserted live)
        (set_levels order.side (write_level (Level.join live l) (levels_of order.side c)) c)

  started_levels : (s : Side) → levels_of s started ≡ levels_of s b
  started_levels buy = refl
  started_levels sell = refl

  insert_by :
      (l : PriceLevelNode) (c : LimitOrderBook)
      → allocate b.order_pool ≡ some (slot, pool)
      → find_or_create order.side order.price started ≡ some (l, c)
      → insert order seq b ≡ some (joined l c)
  unfolding insert
  insert_by l c free_order e = ground arith

  found_started :
      (f : Option PriceLevelNode)
      → find_level order.price (levels_of order.side b) ≡ f
      → find_level order.price (levels_of order.side started) ≡ f
  found_started f e = ap (find_level order.price) (started_levels order.side) ∙ e

  existing_level :
      (l : PriceLevelNode)
      → find_level order.price (levels_of order.side b) ≡ some l
      → find_or_create order.side order.price started ≡ some (l, started)
  unfolding find_or_create
  existing_level l e = let e' = found_started (some l) e in ground arith

  new_level :
      find_level order.price (levels_of order.side b) ≡ none
      → allocate b.level_pool ≡ some (lslot, lpool)
      → find_or_create order.side order.price started ≡ some (fresh, opened)
  unfolding find_or_create create_level
  new_level e free_level = let e' = found_started none e in ground arith

  joined_levels :
      (l : PriceLevelNode) (c : LimitOrderBook)
      → (levels_of order.side (joined l c)
          ≡ write_level (Level.join live l) (levels_of order.side c))
        × (levels_of (opposite order.side) (joined l c) ≡ levels_of (opposite order.side) c)
  joined_levels l c =
      let n = λ (s : Side).
        notify_levels s (BookEvent.order_inserted live)
          (set_levels order.side (write_level (Level.join live l) (levels_of order.side c)) c) in
      let e = levels_set order.side (write_level (Level.join live l) (levels_of order.side c)) c in
      (n order.side ∙ e.0, n (opposite order.side) ∙ e.1)

  opened_levels :
      (s : Side)
      → order.side ≡ s
      → (levels_of order.side opened ≡ link order.side fresh (levels_of order.side b))
        × (levels_of (opposite order.side) opened ≡ levels_of (opposite order.side) b)
  opened_levels buy e = ground arith
  opened_levels sell e = ground arith

  -- What a reader of the order's side finds at a price afterwards.
  abbrev Found : PriceLevelNode → LimitOrderBook → Type 0
  Found l b' =
      (q : Price)
      → find_level q (levels_of order.side b') ≡ (
          if price_eq order.price q
          then some (Level.join live l)
          else find_level q (levels_of order.side b))

  joins_existing :
      (l : PriceLevelNode)
      → find_level order.price (levels_of order.side b) ≡ some l
      → order.qty < u64_mod
      → SideOk order.side (levels_of order.side b)
      → Opens order.side order.price b (joined l started) × Found l (joined l started)
  unfolding Level.join live_of
  joins_existing l found small ok =
      let ls = levels_of order.side b in
      let priced : l.price ≡ order.price = price-find_level order.price ls l found in
      let sound : LevelOk l = All-find_level LevelOk order.price ls l found ok.levels in
      let here : levels_of order.side (joined l started) ≡ write_level (Level.join live l) ls =
        (joined_levels l started).0
        ∙ ap (write_level (Level.join live l)) (started_levels order.side) in
      (
        Opens-levels order.side order.price b (joined l started) _ here
            ((joined_levels l started).1 ∙ started_levels (opposite order.side))
            (λ h. record {
              ordered = rw (prices-write_level (Level.join live l) ls) h.ordered;
              levels =
                  All-write_level LevelOk (Level.join live l) ls
                    (join-LevelOk live l sound.sums sound.resting (sym priced) small) h.levels;
            })
            (λ P h k. rw (prices-write_level (Level.join live l) ls) k),
        λ q.
            ap (find_level q) here
            ∙ subst
                (λ (p : Price).
                  find_level q (write_level (Level.join live l) ls)
                  ≡ (if price_eq p q then some (Level.join live l) else find_level q ls))
                priced
                (find_level-write q l (Level.join live l) ls
                  (subst (λ (p : Price). find_level p ls ≡ some l) (sym priced) found)),
      )

  joins_fresh :
      find_level order.price (levels_of order.side b) ≡ none
      → order.qty < u64_mod
      → Opens order.side order.price b (joined fresh opened) × Found fresh (joined fresh opened)
  unfolding Level.join live_of
  joins_fresh found small =
      let ls = levels_of order.side b in
      let here : levels_of order.side (joined fresh opened)
          ≡ link order.side (Level.join live fresh) ls =
        (joined_levels fresh opened).0
        ∙ ap (write_level (Level.join live fresh)) (opened_levels order.side refl).0
        ∙ write-link order.side fresh (Level.join live fresh) refl ls found in
      (
        Opens-levels order.side order.price b (joined fresh opened) _ here
            ((joined_levels fresh opened).1 ∙ (opened_levels order.side refl).1)
            (λ h. record {
              ordered = Ordered-link order.side (Level.join live fresh) ls found h.ordered;
              levels =
                  All-levels-link order.side (Level.join live fresh) LevelOk ls
                    (join-LevelOk live fresh (record { quantity = refl; count = refl }) tt refl
                      small)
                    h.levels;
            })
            (λ P h k. All-link order.side (Level.join live fresh) P ls h k),
        λ q. ap (find_level q) here ∙ find_level-link order.side q (Level.join live fresh) ls found,
      )

  abbrev Inserts : Option PriceLevelNode → Type 0
  Inserts f =
      (b' : LimitOrderBook) × (insert order seq b ≡ some b')
      × IsValid b'
      × Found (target lslot order.price f) b'
      × (levels_of (opposite order.side) b' ≡ levels_of (opposite order.side) b)

  insert_cases :
      (f : Option PriceLevelNode)
      → find_level order.price (levels_of order.side b) ≡ f
      → allocate b.order_pool ≡ some (slot, pool)
      → allocate b.level_pool ≡ some (lslot, lpool)
      → order.qty < u64_mod
      → Clear order.side order.price b
      → IsValid b
      → Inserts f
  insert_cases (some l) found free_order free_level small clear v =
      let (opens, reads) = joins_existing l found small (side-ok order.side b v) in
      (
        joined l started,
        insert_by l started free_order (existing_level l found),
        Opens-IsValid order.side order.price b _ opens clear v,
        reads,
        opens.others,
      )
  insert_cases none found free_order free_level small clear v =
      let (opens, reads) = joins_fresh found small in
      (
        joined fresh opened,
        insert_by fresh opened free_order (new_level found free_level),
        Opens-IsValid order.side order.price b _ opens clear v,
        reads,
        opens.others,
      )

-- On a valid book with an object left in both pools, inserting an order of a quantity below 2 ^ 64
-- that does not cross the other side goes through. The book is valid afterwards; the order joins
-- the tail of its price's level, or opens the level; every other price of its side, and the other
-- side, are as they were.
pub insert-IsValid :
    (order : Order) (seq slot lslot : ℕ) (pool lpool : ObjectPool) (b : LimitOrderBook)
    → allocate b.order_pool ≡ some (slot, pool)
    → allocate b.level_pool ≡ some (lslot, lpool)
    → order.qty < u64_mod
    → Clear order.side order.price b
    → IsValid b
    → (b' : LimitOrderBook) × (insert order seq b ≡ some b')
      × IsValid b'
      × ((q : Price)
          → find_level q (levels_of order.side b') ≡ (
              if price_eq order.price q
              then some (
                  Level.join
                    (live_of order slot seq)
                    (target lslot order.price (find_level order.price (levels_of order.side b))))
              else find_level q (levels_of order.side b)))
      × (levels_of (opposite order.side) b' ≡ levels_of (opposite order.side) b)
insert-IsValid order seq slot lslot pool lpool b free_order free_level small clear v =
    insert_cases order seq slot lslot pool lpool b (find_level order.price (levels_of order.side b))
      refl free_order free_level small clear v
