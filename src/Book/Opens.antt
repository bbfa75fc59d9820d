-- ===== src/Book/Opens.antt =====
-- When a change that may open a price keeps the book valid.
use flux_trade.Prelude.{List, [], ◌∷◌, ◌≡◌, sym, subst, All}
use flux_trade.Prelude.Int.{◌<ℤ◌}
use flux_trade.Domain.{Side, buy, sell, opposite, Price}
use flux_trade.Book.Level.{PriceLevelNode}
use flux_trade.Book.State.{LimitOrderBook, levels_of}
use flux_trade.Book.Sorted.{prices}
use flux_trade.Book.Valid.{SideOk, IsValid}

-- An order at the price would not trade with the other side.
abbrev pub Clear : Side → Price → LimitOrderBook → Type 0
Clear buy p b = All (λ ask. p <ℤ ask) (prices b.asks)
Clear sell p b = All (λ bid. bid <ℤ p) (prices b.bids)

-- A change of one side that may open the price `p`.
pub record Opens (s : Side) (p : Price) (b b' : LimitOrderBook) : Type 1 where
  pub ok : SideOk s (levels_of s b) → SideOk s (levels_of s b')
  pub within :
      (P : Price → Type 0) → P p → All P (prices (levels_of s b)) → All P (prices (levels_of s b'))
  pub others : levels_of (opposite s) b' ≡ levels_of (opposite s) b

All-zip :
    (P Q R : Price → Type 0) (ps : List Price)
    → ((p : Price) → P p → Q p → R p)
    → All P ps
    → All Q ps
    → All R ps
All-zip P Q R [] f h k = tt
All-zip P Q R (p ∷ ps) f h k = (f p h.0 k.0, All-zip P Q R ps f h.1 k.1)

pub Opens-IsValid :
    (s : Side) (p : Price) (b b' : LimitOrderBook)
    → Opens s p b b'
    → Clear s p b
    → IsValid b
    → IsValid b'
Opens-IsValid buy p b b' o clear v = record {
  bids = o.ok v.bids;
  asks = subst (SideOk sell) (sym o.others) v.asks;
  uncrossed =
      subst (λ asks. All (λ bid. All (λ ask. bid <ℤ ask) (prices asks)) (prices b'.bids))
        (sym o.others) (o.within _ clear v.uncrossed);
}
Opens-IsValid sell p b b' o clear v = record {
  bids = subst (SideOk buy) (sym o.others) v.bids;
  asks = o.ok v.asks;
  uncrossed =
      subst (λ bids. All (λ bid. All (λ ask. bid <ℤ ask) (prices b'.asks)) (prices bids))
        (sym o.others)
        (All-zip _ _ _ (prices b.bids) (λ bid h k. o.within (λ ask. bid <ℤ ask) h k) clear
          v.uncrossed);
}

-- Such a change, given by the list of levels that it makes.
pub Opens-levels :
    (s : Side) (p : Price) (b b' : LimitOrderBook) (ls : List PriceLevelNode)
    → levels_of s b' ≡ ls
    → levels_of (opposite s) b' ≡ levels_of (opposite s) b
    → (SideOk s (levels_of s b) → SideOk s ls)
    → ((P : Price → Type 0) → P p → All P (prices (levels_of s b)) → All P (prices ls))
    → Opens s p b b'
Opens-levels s p b b' ls here others ok within = record {
  ok = λ h. subst (SideOk s) (sym here) (ok h);
  within = λ P h k. subst (λ x. All P (prices x)) (sym here) (within P h k);
  others = others;
}
