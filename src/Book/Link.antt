-- ===== src/Book/Link.antt =====
-- Linking a new level into a side, and writing a level of it, as its readers see them.
use flux_trade.Prelude.{
  none, some, List, [], ◌∷◌, ◌≡◌, refl, arith, All, Bool-cases, inl, inr, if◌then◌else◌,
}
use flux_trade.Prelude.Int.{eqb_ℤ_refl}
use flux_trade.Domain.{Side, Price, price_eq}
use flux_trade.Book.Level.{PriceLevelNode}
use flux_trade.Book.Levels.{better, find_level, link, link_after, write_level}

module _ (s : Side) (node l' : PriceLevelNode) (same : l'.price ≡ node.price) where
  write-link_after :
      (ls : List PriceLevelNode)
      → find_level node.price ls ≡ none
      → write_level l' (link_after s node ls) ≡ link_after s l' ls
  unfolding write_level link_after find_level
  write-link_after [] new = rw (same, eqb_ℤ_refl node.price) refl
  write-link_after (l ∷ ls) new = ground (arith, write-link_after ls, eqb_ℤ_refl node.price)

  -- Writing the node that has just been linked is linking what is written.
  pub write-link :
      (ls : List PriceLevelNode)
      → find_level node.price ls ≡ none
      → write_level l' (link s node ls) ≡ link s l' ls
  unfolding write_level link find_level
  write-link [] new = rw (same, eqb_ℤ_refl node.price) refl
  write-link (l ∷ ls) new = ground (arith, write-link_after ls, eqb_ℤ_refl node.price)

module _ (s : Side) (node : PriceLevelNode) (P : PriceLevelNode → Type 0) where
  All-levels-link_after :
      (ls : List PriceLevelNode) → P node → All P ls → All P (link_after s node ls)
  unfolding link_after
  All-levels-link_after [] h k = (h, tt)
  All-levels-link_after (l ∷ ls) h k = elim (Bool-cases (better s l.price node.price)) [
    | inl e ↦ rw e (k.0, All-levels-link_after ls h k.1)
    | inr e ↦ rw e (h, k)
  ]

  pub All-levels-link : (ls : List PriceLevelNode) → P node → All P ls → All P (link s node ls)
  unfolding link
  All-levels-link [] h k = (h, tt)
  All-levels-link (l ∷ ls) h k = elim (Bool-cases (better s node.price l.price)) [
    | inl e ↦ rw e (h, k)
    | inr e ↦ rw e (k.0, All-levels-link_after ls h k.1)
  ]

-- A written or linked level is what its price leads to; every other price leads where it did.
pub find_level-write :
    (q : Price) (l l' : PriceLevelNode) (ls : List PriceLevelNode)
    → find_level l'.price ls ≡ some l
    → find_level q (write_level l' ls) ≡ (if price_eq l'.price q then some l' else find_level q ls)
unfolding find_level write_level
find_level-write q l l' [] e = cc
find_level-write q l l' (x ∷ ls) e = ground (arith, find_level-write q l l' ls)

find_level-link_after :
    (s : Side) (q : Price) (node : PriceLevelNode) (ls : List PriceLevelNode)
    → find_level node.price ls ≡ none
    → find_level q (link_after s node ls)
      ≡ (if price_eq node.price q then some node else find_level q ls)
unfolding find_level link_after
find_level-link_after s q node [] e = refl
find_level-link_after s q node (x ∷ ls) e = ground (arith, find_level-link_after s q node ls)

pub find_level-link :
    (s : Side) (q : Price) (node : PriceLevelNode) (ls : List PriceLevelNode)
    → find_level node.price ls ≡ none
    → find_level q (link s node ls) ≡ (if price_eq node.price q then some node else find_level q ls)
unfolding find_level link
find_level-link s q node [] e = refl
find_level-link s q node (x ∷ ls) e = ground (arith, find_level-link_after s q node ls)
