-- ===== src/Book/Levels.antt =====
-- matching/order_book/bid_book.hpp, ask_book.hpp and price_level_index.hpp: the levels of one side,
-- best first. The two books differ in the comparison alone. A level is created and removed in the
-- linked list and in `index_` together, so one list stands for both: its order is that of the links,
-- and `index_.find` reads it by price.
use flux_trade.Prelude.{Bool, Option, none, some, List, [], ◌∷◌, if◌then◌else◌}
use flux_trade.Domain.{Side, buy, sell, Price, price_eq, price_lt, price_gt}
use flux_trade.Book.Level.{PriceLevelNode}

-- Whether a level at `p` stands before one at `q`: BidBook descends, AskBook ascends.
abbrev pub better : Side → Price → Price → Bool
better buy p q = price_gt p q
better sell p q = price_lt p q

unfoldable pub find_level : Price → List PriceLevelNode → Option PriceLevelNode
find_level p [] = none
find_level p (l ∷ ls) = if price_eq l.price p then some l else find_level p ls

module _ (side : Side) where
  -- The walk from `curr`, whose successors are given, to the insertion slot.
  unfoldable pub link_after : PriceLevelNode → List PriceLevelNode → List PriceLevelNode
  link_after node [] = node ∷ []
  link_after node (l ∷ ls) =
      if better side l.price node.price then l ∷ link_after node ls else node ∷ l ∷ ls

  unfoldable pub link : PriceLevelNode → List PriceLevelNode → List PriceLevelNode
  link node [] = node ∷ []
  link node (best ∷ ls) =
      if better side node.price best.price then node ∷ best ∷ ls else best ∷ link_after node ls

-- Writes a node that stands in the list, by its price.
unfoldable pub write_level : PriceLevelNode → List PriceLevelNode → List PriceLevelNode
write_level level [] = []
write_level level (l ∷ ls) =
    if price_eq l.price level.price then level ∷ ls else l ∷ write_level level ls

unfoldable pub unlink : Price → List PriceLevelNode → List PriceLevelNode
unlink p [] = []
unlink p (l ∷ ls) = if price_eq l.price p then ls else l ∷ unlink p ls
