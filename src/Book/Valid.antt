-- ===== src/Book/Valid.antt =====
-- The representation invariant of LimitOrderBook, and what it takes to keep it.
use flux_trade.Prelude.{
  some, List, [], ◌∷◌, ◌≡◌, refl, sym, ◌∙◌, subst, arith, All, Bool-cases, inl, inr,
}
use flux_trade.Prelude.Int.{◌<ℤ◌, eqb_ℤ→eq}
use flux_trade.Domain.{Side, buy, sell, opposite, Price, price_eq}
use flux_trade.Book.Level.{PriceLevelNode}
use flux_trade.Book.Levels.{find_level, write_level, unlink}
use flux_trade.Book.State.{LimitOrderBook, levels_of}
use flux_trade.Book.Sorted.{prices, Ordered}
use flux_trade.Book.Sums.{LevelOk}

pub record SideOk (s : Side) (ls : List PriceLevelNode) : Type 0 where
  pub ordered : Ordered s (prices ls)
  pub levels : All LevelOk ls

-- Every bid is below every ask.
abbrev pub Uncrossed : LimitOrderBook → Type 0
Uncrossed b = All (λ bid. All (λ ask. bid <ℤ ask) (prices b.asks)) (prices b.bids)

pub record IsValid (b : LimitOrderBook) : Type 0 where
  pub bids : SideOk buy b.bids
  pub asks : SideOk sell b.asks
  pub uncrossed : Uncrossed b

pub side-ok : (s : Side) (b : LimitOrderBook) → IsValid b → SideOk s (levels_of s b)
side-ok buy b v = v.bids
side-ok sell b v = v.asks

pub All-find_level :
    (P : PriceLevelNode → Type 0) (p : Price) (ls : List PriceLevelNode) (l : PriceLevelNode)
    → find_level p ls ≡ some l
    → All P ls
    → P l
unfolding find_level
All-find_level P p [] l e h = cc
All-find_level P p (k ∷ ls) l e h = elim (Bool-cases (price_eq k.price p)) [
  | inl t ↦ let same : k ≡ l = ground arith in subst P same h.0
  | inr t ↦ All-find_level P p ls l (ground arith) h.1
]

pub price-find_level :
    (p : Price) (ls : List PriceLevelNode) (l : PriceLevelNode)
    → find_level p ls ≡ some l
    → l.price ≡ p
unfolding find_level
price-find_level p [] l e = cc
price-find_level p (k ∷ ls) l e = ground (arith, eqb_ℤ→eq k.price p, price-find_level p ls l)

pub All-write_level :
    (P : PriceLevelNode → Type 0) (l : PriceLevelNode) (ls : List PriceLevelNode)
    → P l
    → All P ls
    → All P (write_level l ls)
unfolding write_level
All-write_level P l [] h k = tt
All-write_level P l (x ∷ ls) h k = elim (Bool-cases (price_eq x.price l.price)) [
  | inl e ↦ rw e (h, k.1)
  | inr e ↦ rw e (k.0, All-write_level P l ls h k.1)
]

pub All-levels-unlink :
    (P : PriceLevelNode → Type 0) (p : Price) (ls : List PriceLevelNode)
    → All P ls
    → All P (unlink p ls)
unfolding unlink
All-levels-unlink P p [] k = tt
All-levels-unlink P p (x ∷ ls) k = elim (Bool-cases (price_eq x.price p)) [
  | inl e ↦ rw e k.1
  | inr e ↦ rw e (k.0, All-levels-unlink P p ls k.1)
]

-- A change of one side that opens no price: a valid book stays valid under it.
pub record Narrows (s : Side) (b b' : LimitOrderBook) : Type 1 where
  pub ok : SideOk s (levels_of s b) → SideOk s (levels_of s b')
  pub within :
      (P : Price → Type 0) → All P (prices (levels_of s b)) → All P (prices (levels_of s b'))
  pub others : levels_of (opposite s) b' ≡ levels_of (opposite s) b

All-map : (P Q : Price → Type 0) (ps : List Price) → ((p : Price) → P p → Q p) → All P ps → All Q ps
All-map P Q [] f h = tt
All-map P Q (p ∷ ps) f h = (f p h.0, All-map P Q ps f h.1)

pub Narrows-IsValid : (s : Side) (b b' : LimitOrderBook) → Narrows s b b' → IsValid b → IsValid b'
Narrows-IsValid buy b b' n v = record {
  bids = n.ok v.bids;
  asks = subst (SideOk sell) (sym n.others) v.asks;
  uncrossed =
      subst (λ asks. All (λ bid. All (λ ask. bid <ℤ ask) (prices asks)) (prices b'.bids))
        (sym n.others) (n.within _ v.uncrossed);
}
Narrows-IsValid sell b b' n v = record {
  bids = subst (SideOk buy) (sym n.others) v.bids;
  asks = n.ok v.asks;
  uncrossed =
      subst (λ bids. All (λ bid. All (λ ask. bid <ℤ ask) (prices b'.asks)) (prices bids))
        (sym n.others)
        (All-map _ _ (prices b.bids) (λ bid h. n.within (λ ask. bid <ℤ ask) h) v.uncrossed);
}

pub Narrows-refl : (s : Side) (b : LimitOrderBook) → Narrows s b b
Narrows-refl s b = record { ok = λ h. h; within = λ P h. h; others = refl }

pub Narrows-trans :
    (s : Side) (a b c : LimitOrderBook) → Narrows s a b → Narrows s b c → Narrows s a c
Narrows-trans s a b c n m = record {
  ok = λ h. m.ok (n.ok h);
  within = λ P h. m.within P (n.within P h);
  others = m.others ∙ n.others;
}
