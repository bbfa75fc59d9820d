-- ===== src/Book/Keep.antt =====
-- The steps that cancel, modify and fill share keep a book valid.
use flux_trade.Prelude.{List, ◌≡◌, refl, sym, ◌∙◌, subst, All, Bool-cases, inl, inr}
use flux_trade.Domain.{Side, buy, sell, opposite, Price}
use flux_trade.Book.Level.{PriceLevelNode, is_empty}
use flux_trade.Book.Levels.{write_level, unlink}
use flux_trade.Book.State.{
  LimitOrderBook, BookEvent, notify, levels_of, set_levels, remove_level, settle,
}
use flux_trade.Book.Sorted.{prices, prices-write_level, All-unlink, Ordered-unlink}
use flux_trade.Book.Sums.{LevelOk, LevelSums, Resting}
use flux_trade.Book.Valid.{SideOk, Narrows, All-write_level, All-levels-unlink}

pub levels_set :
    (s : Side) (ls : List PriceLevelNode) (b : LimitOrderBook)
    → (levels_of s (set_levels s ls b) ≡ ls)
      × (levels_of (opposite s) (set_levels s ls b) ≡ levels_of (opposite s) b)
levels_set buy ls b = (refl, refl)
levels_set sell ls b = (refl, refl)

-- A change of the level list of a side, given on the lists.
Narrows-set :
    (s : Side) (b : LimitOrderBook) (ls : List PriceLevelNode)
    → (SideOk s (levels_of s b) → SideOk s ls)
    → ((P : Price → Type 0) → All P (prices (levels_of s b)) → All P (prices ls))
    → Narrows s b (set_levels s ls b)
Narrows-set s b ls ok within = record {
  ok = λ h. subst (SideOk s) (sym (levels_set s ls b).0) (ok h);
  within = λ P h. subst (λ k. All P (prices k)) (sym (levels_set s ls b).0) (within P h);
  others = (levels_set s ls b).1;
}

pub Narrows-write :
    (s : Side) (l : PriceLevelNode) (b : LimitOrderBook)
    → LevelOk l
    → Narrows s b (set_levels s (write_level l (levels_of s b)) b)
Narrows-write s l b ok =
    Narrows-set s b _
      (λ h. record {
        ordered = rw (prices-write_level l (levels_of s b)) h.ordered;
        levels = All-write_level LevelOk l (levels_of s b) ok h.levels;
      })
      (λ P h. rw (prices-write_level l (levels_of s b)) h)

-- Fields beside the two sides do not matter.
pub Narrows-like :
    (s : Side) (a b c : LimitOrderBook)
    → levels_of s c ≡ levels_of s b
    → levels_of (opposite s) c ≡ levels_of (opposite s) b
    → Narrows s a b
    → Narrows s a c
Narrows-like s a b c e f n = record {
  ok = λ h. rw e (n.ok h);
  within = λ P h. rw e (n.within P h);
  others = f ∙ n.others;
}

removed_levels :
    (s : Side) (p : Price) (l : PriceLevelNode) (b : LimitOrderBook)
    → (levels_of s (notify (BookEvent.price_level_removed p s) (remove_level s l b))
        ≡ levels_of s (set_levels s (unlink l.price (levels_of s b)) b))
      × (levels_of (opposite s) (notify (BookEvent.price_level_removed p s) (remove_level s l b))
          ≡ levels_of (opposite s) (set_levels s (unlink l.price (levels_of s b)) b))
unfolding remove_level
removed_levels buy p l b = (refl, refl)
removed_levels sell p l b = (refl, refl)

-- An order has left the level `l`, which is in order but for being empty perhaps.
pub Narrows-settle :
    (s : Side) (p : Price) (l : PriceLevelNode) (b : LimitOrderBook)
    → LevelSums l
    → Resting l.price l.orders
    → Narrows s b (settle s p l b)
unfolding settle
Narrows-settle s p l b sums resting = elim (Bool-cases (is_empty l.orders)) [
  | inl e ↦ rw e (
      Narrows-like s b _ _ (removed_levels s p l b).0 (removed_levels s p l b).1 (
        Narrows-set s b (unlink l.price (levels_of s b))
          (λ h. record {
            ordered = Ordered-unlink s l.price (levels_of s b) h.ordered;
            levels = All-levels-unlink LevelOk l.price (levels_of s b) h.levels;
          })
          (λ P h. All-unlink P l.price (levels_of s b) h)))
  | inr e ↦ rw e (Narrows-write s l b (record { sums = sums; filled = e; resting = resting }))
]
