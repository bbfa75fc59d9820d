-- ===== src/Matching/Ready.antt =====
-- A valid book meets what the loops of submit_order ask of it.
use flux_trade.Prelude.{none, List, [], ◌∷◌, ◌≡◌, refl, All}
use flux_trade.Prelude.Int.{◌<ℤ◌, eqb_ℤ_of_lt}
use flux_trade.Domain.{Side, buy, sell, Price}
use flux_trade.Book.Level.{PriceLevelNode}
use flux_trade.Book.Levels.{find_level}
use flux_trade.Book.State.{LimitOrderBook, levels_of}
use flux_trade.Book.Sorted.{prices}
use flux_trade.Book.Sums.{LevelOk}
use flux_trade.Book.Valid.{IsValid, side-ok}
use flux_trade.Matching.AllLevels.{Ready, AllUnshadowed}

Ready-levels : (ls : List PriceLevelNode) → All LevelOk ls → All Ready ls
Ready-levels [] h = tt
Ready-levels (l ∷ ls) h = ((h.0.filled, h.0.resting), Ready-levels ls h.1)

pub Ready-side : (s : Side) (b : LimitOrderBook) → IsValid b → All Ready (levels_of s b)
Ready-side s b v = Ready-levels (levels_of s b) (side-ok s b v).levels

find_level_above :
    (p : Price) (ls : List PriceLevelNode) → All (λ q. q <ℤ p) (prices ls) → find_level p ls ≡ none
unfolding find_level
find_level_above p [] h = refl
find_level_above p (l ∷ ls) h = rw (eqb_ℤ_of_lt l.price p h.0) (find_level_above p ls h.1)

All-first :
    (p : Price) (ps qs : List Price)
    → All (λ bid. All (λ ask. bid <ℤ ask) (p ∷ ps)) qs
    → All (λ bid. bid <ℤ p) qs × All (λ bid. All (λ ask. bid <ℤ ask) ps) qs
All-first p ps [] h = (tt, tt)
All-first p ps (q ∷ qs) h = let rest = All-first p ps qs h.1 in ((h.0.0, rest.0), (h.0.1, rest.1))

unshadowed_asks :
    (asks : List PriceLevelNode) (b : LimitOrderBook)
    → All (λ bid. All (λ ask. bid <ℤ ask) (prices asks)) (prices b.bids)
    → AllUnshadowed sell asks b
unshadowed_asks [] b h = tt
unshadowed_asks (l ∷ ls) b h =
    let split = All-first l.price (prices ls) (prices b.bids) h in
    (find_level_above l.price b.bids split.0, unshadowed_asks ls b split.1)

unshadowed_bids : (bids : List PriceLevelNode) (b : LimitOrderBook) → AllUnshadowed buy bids b
unshadowed_bids [] b = tt
unshadowed_bids (l ∷ ls) b = (tt, unshadowed_bids ls b)

pub unshadowed_side :
    (s : Side) (b : LimitOrderBook) → IsValid b → AllUnshadowed s (levels_of s b) b
unshadowed_side buy b v = unshadowed_bids b.bids b
unshadowed_side sell b v = unshadowed_asks b.asks b v.uncrossed
