-- ===== src/Book/Fill.antt =====
-- A fill keeps the book valid.
use flux_trade.Prelude.{
  ℕ, ◌+◌, ◌≤◌, ◌<◌, some, List, [], ◌∷◌, ◌≡◌, refl, ◌∙◌, arith, Bool-cases, inl, inr, ◌==◌, ==_iff,
}
use flux_trade.Prelude.Words.{u64_mod}
use flux_trade.Domain.{Side, buy, sell, opposite, Price, Quantity, LiveOrder, qty_sub}
use flux_trade.Book.Level
use flux_trade.Book.Level.{PriceLevelNode, is_empty}
use flux_trade.Book.Levels.{find_level}
use flux_trade.Book.State.{LimitOrderBook, BookEvent, notify, levels_of, locate, settle, release}
use flux_trade.Book.Ops.{fill_at, fill_order, complete, shrink}
use flux_trade.Book.Front.{release_levels, notify_levels}
use flux_trade.Book.Sums.{
  LevelOk, All-remove, All-store, All-find_slot, leave-LevelSums, shrink-LevelSums,
}
use flux_trade.Book.Valid.{
  IsValid, side-ok, Narrows, Narrows-refl, Narrows-trans, Narrows-IsValid, All-find_level,
}
use flux_trade.Book.Keep.{Narrows-like, Narrows-settle, Narrows-write}

pub is_empty-store :
    (o : LiveOrder) (os : List LiveOrder) → is_empty (Level.store o os) ≡ is_empty os
unfolding Level.store
is_empty-store o [] = refl
is_empty-store o (x ∷ os) = ground arith

pub Narrows-notify : (s : Side) (e : BookEvent) (b : LimitOrderBook) → Narrows s b (notify e b)
Narrows-notify s e b =
    Narrows-like s b b (notify e b) (notify_levels s e b) (notify_levels (opposite s) e b)
      (Narrows-refl s b)

-- An order leaves its level, the level is settled, and the order is released.
pub Narrows-leave :
    (s : Side) (p : Price) (o o' : LiveOrder) (q : Quantity) (l : PriceLevelNode) (e : BookEvent)
    (id slot : ℕ) (b : LimitOrderBook)
    → LevelOk l
    → Level.find_slot o'.slot l.orders ≡ some o
    → q ≡ o.remaining_qty
    → Narrows s b (release id slot (settle s p (Level.leave o' q l) (notify e b)))
unfolding Level.leave
Narrows-leave s p o o' q l e id slot b ok found whole =
    Narrows-like s b _ _ (release_levels s id slot _) (release_levels (opposite s) id slot _) (
      Narrows-trans s b (notify e b) _ (Narrows-notify s e b) (
        Narrows-settle s p (Level.leave o' q l) (notify e b)
          (leave-LevelSums o o' q l found whole ok.resting ok.sums)
          (All-remove o'.slot _ l.orders ok.resting)))

pub shrunk-LevelOk :
    (o o' : LiveOrder) (q : Quantity) (l : PriceLevelNode)
    → LevelOk l
    → Level.find_slot o'.slot l.orders ≡ some o
    → o'.price ≡ o.price
    → o'.remaining_qty + q ≡ o.remaining_qty
    → LevelOk (record l { orders = Level.store o' l.orders; total_qty = qty_sub l.total_qty q })
shrunk-LevelOk o o' q l ok found priced part =
    let held : (o.price ≡ l.price) × (o.remaining_qty < u64_mod) =
      All-find_slot o'.slot (λ k. (k.price ≡ l.price) × (k.remaining_qty < u64_mod)) l.orders o
        found ok.resting in
    record {
      sums = shrink-LevelSums o o' q l found part ok.resting ok.sums;
      filled = is_empty-store o' l.orders ∙ ok.filled;
      resting =
          All-store (λ k. (k.price ≡ l.price) × (k.remaining_qty < u64_mod)) l.orders o'
            (priced ∙ held.0, omega arith) ok.resting;
    }

pub Narrows-fill_at :
    (s : Side) (l : PriceLevelNode) (o : LiveOrder) (q : Quantity) (b : LimitOrderBook)
    → LevelOk l
    → Level.find_slot o.slot l.orders ≡ some o
    → q ≤ o.remaining_qty
    → Narrows s b (fill_at o q s l b)
unfolding fill_at complete shrink
Narrows-fill_at s l o q b ok found fits =
    let small : o.remaining_qty < u64_mod =
      (All-find_slot o.slot _ l.orders o found ok.resting).1 in
    elim (Bool-cases (qty_sub o.remaining_qty q == 0)) [
      | inl e ↦ rw e (
          Narrows-leave s o.price o _ q l _ o.key.order_id o.slot b ok found
            (omega (arith, (==_iff (qty_sub o.remaining_qty q) 0).0 e)))
      | inr e ↦ rw e (
          Narrows-trans s b _ _ (Narrows-notify s _ b)
            (Narrows-write s _ _ (shrunk-LevelOk o _ q l ok found refl (omega arith))))
    ]

pub find_level_of_locate :
    (p : Price) (b : LimitOrderBook) (s : Side) (l : PriceLevelNode)
    → locate p b ≡ some (s, l)
    → find_level p (levels_of s b) ≡ some l
unfolding locate
find_level_of_locate p b buy l e = ground arith
find_level_of_locate p b sell l e = ground arith

-- The order stands in the level that its price leads to.
abbrev pub Stands : LiveOrder → Side → PriceLevelNode → LimitOrderBook → Type 0
Stands o s l b = (locate o.price b ≡ some (s, l)) × (Level.find_slot o.slot l.orders ≡ some o)

pub level-ok :
    (o : LiveOrder) (s : Side) (l : PriceLevelNode) (b : LimitOrderBook)
    → IsValid b
    → Stands o s l b
    → LevelOk l
level-ok o s l b v st =
    All-find_level LevelOk o.price (levels_of s b) l (find_level_of_locate o.price b s l st.0)
      (side-ok s b v).levels

-- On a valid book, a fill of an order that stands in the level of its price goes through, if it is of
-- at most what the order has left, and the book is valid afterwards.
pub fill_order-IsValid :
    (o : LiveOrder) (q : Quantity) (s : Side) (l : PriceLevelNode) (b : LimitOrderBook)
    → IsValid b
    → Stands o s l b
    → q ≤ o.remaining_qty
    → (b' : LimitOrderBook) × (fill_order o q b ≡ some b') × IsValid b'
unfolding fill_order
fill_order-IsValid o q s l b v st fits = (
  fill_at o q s l b,
  rw st.0 refl,
  Narrows-IsValid s b (fill_at o q s l b)
      (Narrows-fill_at s l o q b (level-ok o s l b v st) st.1 fits) v,
)
