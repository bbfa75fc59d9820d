-- ===== src/Book/Front.antt =====
-- LimitOrderBook::fill_order at the front of a side: the oldest order of the best level.
use flux_trade.Prelude.{
  ℕ, none, some, List, ◌∷◌, ◌≡◌, refl, ap, ◌∙◌, inl, inr, arith, ◌==◌, ==_refl, if◌then◌else◌,
  Bool-cases,
}
use flux_trade.Prelude.Int.{eqb_ℤ_refl}
use flux_trade.Prelude.Words.{sub32}
use flux_trade.Domain.{Side, buy, sell, opposite, Price, Quantity, LiveOrder, qty_sub}
use flux_trade.Book.Level
use flux_trade.Book.Level.{PriceLevelNode, is_empty}
use flux_trade.Book.Levels.{find_level, write_level, unlink}
use flux_trade.Book.State.{
  LimitOrderBook, BookEvent, notify, levels_of, set_levels, locate, remove_level, settle, release,
}
use flux_trade.Book.Ops.{fill_at, fill_order, complete, shrink}

-- A level as it stands in the book once its orders are gone: not at all.
abbrev pub settled : PriceLevelNode → List PriceLevelNode → List PriceLevelNode
settled l ls = if is_empty l.orders then ls else l ∷ ls

-- An ask is looked for after the bids, so no bid level may have its price.
abbrev pub Unshadowed : Side → Price → LimitOrderBook → Type 0
Unshadowed buy p b = Unit {0}
Unshadowed sell p b = find_level p b.bids ≡ none

-- The level once its front order has been filled by `q`, with its other orders `os`.
abbrev pub fill_front : Quantity → LiveOrder → List LiveOrder → PriceLevelNode → PriceLevelNode
fill_front q o os l =
    let left = qty_sub o.remaining_qty q in
    if left == 0
    then record l {
      orders = os;
      total_qty = qty_sub l.total_qty q;
      order_count = sub32 l.order_count 1;
    }
    else record l {
      orders = record o { remaining_qty = left } ∷ os;
      total_qty = qty_sub l.total_qty q;
    }

find_level_front :
    (l : PriceLevelNode) (ls : List PriceLevelNode) → find_level l.price (l ∷ ls) ≡ some l
unfolding find_level
find_level_front l ls = rw (eqb_ℤ_refl l.price)

locate_front :
    (s : Side) (l : PriceLevelNode) (ls : List PriceLevelNode) (b : LimitOrderBook)
    → levels_of s b ≡ l ∷ ls
    → Unshadowed s l.price b
    → locate l.price b ≡ some (s, l)
unfolding locate
locate_front buy l ls b e u = ground (arith, find_level_front l ls)
locate_front sell l ls b e u = ground (arith, find_level_front l ls)

pub remove_front : (o : LiveOrder) (os : List LiveOrder) → Level.remove o.slot (o ∷ os) ≡ os
unfolding Level.remove
remove_front o os = rw (==_refl o.slot)

store_front :
    (o o' : LiveOrder) (os : List LiveOrder) → o.slot ≡ o'.slot → Level.store o' (o ∷ os) ≡ o' ∷ os
unfolding Level.store
store_front o o' os e = ground arith

settle_front :
    (s : Side) (l l' : PriceLevelNode) (ls : List PriceLevelNode) (b : LimitOrderBook) (p : Price)
    → levels_of s b ≡ l ∷ ls
    → l'.price ≡ l.price
    → (levels_of s (settle s p l' b) ≡ settled l' ls)
      × (levels_of (opposite s) (settle s p l' b) ≡ levels_of (opposite s) b)
unfolding settle remove_level unlink write_level
settle_front buy l l' ls b p e pr = ground (arith, eqb_ℤ_refl l.price)
settle_front sell l l' ls b p e pr = ground (arith, eqb_ℤ_refl l.price)

write_front :
    (s : Side) (l l' : PriceLevelNode) (ls : List PriceLevelNode) (b : LimitOrderBook)
    → levels_of s b ≡ l ∷ ls
    → l'.price ≡ l.price
    → (levels_of s (set_levels s (write_level l' (levels_of s b)) b) ≡ l' ∷ ls)
      × (levels_of (opposite s) (set_levels s (write_level l' (levels_of s b)) b)
          ≡ levels_of (opposite s) b)
unfolding write_level
write_front buy l l' ls b e pr = ground (arith, eqb_ℤ_refl l.price)
write_front sell l l' ls b e pr = ground (arith, eqb_ℤ_refl l.price)

pub release_levels :
    (s : Side) (id slot : ℕ) (b : LimitOrderBook) → levels_of s (release id slot b) ≡ levels_of s b
unfolding release
release_levels buy id slot b = refl
release_levels sell id slot b = refl

pub notify_levels :
    (s : Side) (e : BookEvent) (b : LimitOrderBook) → levels_of s (notify e b) ≡ levels_of s b
notify_levels buy e b = refl
notify_levels sell e b = refl

leave_front :
    (l : PriceLevelNode) (o o' : LiveOrder) (os : List LiveOrder) (q : Quantity)
    → l.orders ≡ o ∷ os
    → o.slot ≡ o'.slot
    → Level.leave o' q l ≡ record l {
      orders = os;
      total_qty = qty_sub l.total_qty q;
      order_count = sub32 l.order_count 1;
    }
unfolding Level.leave
leave_front l o o' os q e h = ground (arith, remove_front o os)

complete_front :
    (s : Side) (l : PriceLevelNode) (ls : List PriceLevelNode) (o o' : LiveOrder)
    (os : List LiveOrder) (b : LimitOrderBook) (q : Quantity)
    → levels_of s b ≡ l ∷ ls
    → l.orders ≡ o ∷ os
    → o.slot ≡ o'.slot
    → (levels_of s (complete o' q s l b)
        ≡ settled
            (record l {
              orders = os;
              total_qty = qty_sub l.total_qty q;
              order_count = sub32 l.order_count 1;
            })
            ls)
      × (levels_of (opposite s) (complete o' q s l b) ≡ levels_of (opposite s) b)
unfolding complete
complete_front s l ls o o' os b q here front same =
    rw (release_levels s, release_levels (opposite s), leave_front l o o' os q front same)
      (settle_front s l
        (record l {
          orders = os;
          total_qty = qty_sub l.total_qty q;
          order_count = sub32 l.order_count 1;
        })
        ls b o'.price here refl)

shrink_front :
    (s : Side) (l : PriceLevelNode) (ls : List PriceLevelNode) (o o' : LiveOrder)
    (os : List LiveOrder) (b : LimitOrderBook) (q : Quantity)
    → levels_of s b ≡ l ∷ ls
    → l.orders ≡ o ∷ os
    → o.slot ≡ o'.slot
    → (levels_of s (shrink o' q s l b)
        ≡ record l { orders = o' ∷ os; total_qty = qty_sub l.total_qty q } ∷ ls)
      × (levels_of (opposite s) (shrink o' q s l b) ≡ levels_of (opposite s) b)
unfolding shrink
shrink_front s l ls o o' os b q here front same =
    let stored : Level.store o' l.orders ≡ o' ∷ os =
      ap (Level.store o') front ∙ store_front o o' os same in
    rw stored (
      write_front s l (record l { orders = o' ∷ os; total_qty = qty_sub l.total_qty q }) ls b here
        refl)

-- Filling the front order of the front level changes that level and nothing else of the sides.
pub fill_at_front :
    (s : Side) (l : PriceLevelNode) (ls : List PriceLevelNode) (o : LiveOrder) (os : List LiveOrder)
    (b : LimitOrderBook) (q : Quantity)
    → levels_of s b ≡ l ∷ ls
    → l.orders ≡ o ∷ os
    → (levels_of s (fill_at o q s l b) ≡ settled (fill_front q o os l) ls)
      × (levels_of (opposite s) (fill_at o q s l b) ≡ levels_of (opposite s) b)
unfolding fill_at
fill_at_front s l ls o os b q here front = elim (Bool-cases (qty_sub o.remaining_qty q == 0)) [
  | inl e ↦ rw e (done.0, done.1 ∙ notify_levels (opposite s) told b)
  | inr e ↦ rw e (kept.0, kept.1 ∙ notify_levels (opposite s) told b)
]
  where
    o' : LiveOrder
    o' = record o { remaining_qty = qty_sub o.remaining_qty q }

    told : BookEvent
    told = BookEvent.order_filled o' q

    here' : levels_of s (notify told b) ≡ l ∷ ls
    here' = notify_levels s told b ∙ here

    done :
        (levels_of s (complete o' q s l (notify told b))
          ≡ settled
              (record l {
                orders = os;
                total_qty = qty_sub l.total_qty q;
                order_count = sub32 l.order_count 1;
              })
              ls)
        × (levels_of (opposite s) (complete o' q s l (notify told b))
            ≡ levels_of (opposite s) (notify told b))
    done = complete_front s l ls o o' os (notify told b) q here' front refl

    kept :
        (levels_of s (shrink o' q s l (notify told b))
          ≡ record l { orders = o' ∷ os; total_qty = qty_sub l.total_qty q } ∷ ls)
        × (levels_of (opposite s) (shrink o' q s l (notify told b))
            ≡ levels_of (opposite s) (notify told b))
    kept = shrink_front s l ls o o' os (notify told b) q here' front refl

-- `fill_order` finds that level, and so it does just that.
pub fill_order_front :
    (s : Side) (l : PriceLevelNode) (ls : List PriceLevelNode) (o : LiveOrder) (b : LimitOrderBook)
    (q : Quantity)
    → levels_of s b ≡ l ∷ ls
    → o.price ≡ l.price
    → Unshadowed s l.price b
    → fill_order o q b ≡ some (fill_at o q s l b)
unfolding fill_order
fill_order_front s l ls o b q here priced free = rw (priced, locate_front s l ls b here free)
