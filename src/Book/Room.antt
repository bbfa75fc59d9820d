-- ===== src/Book/Room.antt =====
-- Room in the book's pools: a fill only gives objects back.
use flux_trade.Prelude.{
  ℕ, Bool, true, false, some, List, [], ◌∷◌, ◌≡◌, refl, arith, Bool-cases, inl, inr, ◌==◌,
}
use flux_trade.Domain.{Side, buy, sell, Price, Quantity, LiveOrder, qty_sub}
use flux_trade.Common.ObjectPool.{ObjectPool, allocate, deallocate}
use flux_trade.Book.Level.{PriceLevelNode, is_empty}
use flux_trade.Book.State.{
  LimitOrderBook, BookEvent, notify, set_levels, settle, remove_level, release,
}
use flux_trade.Book.Ops.{fill_at, complete, shrink}

abbrev pub has_free : ObjectPool → Bool
has_free pool = elim pool.free_list [ [] ↦ false | _ ∷ _ ↦ true ]

pub allocate_of_has_free :
    (pool : ObjectPool)
    → has_free pool ≡ true
    → (index : ℕ) × (pool' : ObjectPool) × (allocate pool ≡ some (index, pool'))
unfolding allocate
allocate_of_has_free pool h = go pool.free_list refl
  where
    go :
        (free : List ℕ)
        → pool.free_list ≡ free
        → (index : ℕ) × (pool' : ObjectPool) × (allocate pool ≡ some (index, pool'))
    go [] e = absurd (ground arith)
    go (i ∷ rest) e = (i, record pool { free_list = rest }, ground arith)

has_free-deallocate :
    (index : ℕ) (pool : ObjectPool) → has_free pool ≡ true → has_free (deallocate index pool) ≡ true
unfolding deallocate
has_free-deallocate index pool h = ground arith

-- An order and a level can still be allocated.
pub record Room (b : LimitOrderBook) : Type 0 where
  pub orders : has_free b.order_pool ≡ true
  pub levels : has_free b.level_pool ≡ true

Room-set_levels :
    (s : Side) (ls : List PriceLevelNode) (b : LimitOrderBook) → Room b → Room (set_levels s ls b)
Room-set_levels buy ls b r = record { orders = r.orders; levels = r.levels }
Room-set_levels sell ls b r = record { orders = r.orders; levels = r.levels }

Room-notify : (e : BookEvent) (b : LimitOrderBook) → Room b → Room (notify e b)
Room-notify e b r = record { orders = r.orders; levels = r.levels }

Room-remove_level :
    (s : Side) (l : PriceLevelNode) (b : LimitOrderBook) → Room b → Room (remove_level s l b)
unfolding remove_level
Room-remove_level buy l b r = record {
  orders = r.orders;
  levels = has_free-deallocate l.slot b.level_pool r.levels;
}
Room-remove_level sell l b r = record {
  orders = r.orders;
  levels = has_free-deallocate l.slot b.level_pool r.levels;
}

Room-settle :
    (s : Side) (p : Price) (l : PriceLevelNode) (b : LimitOrderBook)
    → Room b
    → Room (settle s p l b)
unfolding settle
Room-settle s p l b r = elim (Bool-cases (is_empty l.orders)) [
  | inl e ↦ rw e (Room-notify _ _ (Room-remove_level s l b r))
  | inr e ↦ rw e (Room-set_levels s _ b r)
]

Room-release : (id slot : ℕ) (b : LimitOrderBook) → Room b → Room (release id slot b)
unfolding release
Room-release id slot b r = record {
  orders = has_free-deallocate slot b.order_pool r.orders;
  levels = r.levels;
}

pub Room-fill_at :
    (o : LiveOrder) (q : Quantity) (s : Side) (l : PriceLevelNode) (b : LimitOrderBook)
    → Room b
    → Room (fill_at o q s l b)
unfolding fill_at complete shrink
Room-fill_at o q s l b r = elim (Bool-cases (qty_sub o.remaining_qty q == 0)) [
  | inl e ↦ rw e (Room-release _ _ _ (Room-settle s o.price _ _ (Room-notify _ b r)))
  | inr e ↦ rw e (Room-set_levels s _ _ (Room-notify _ b r))
]
