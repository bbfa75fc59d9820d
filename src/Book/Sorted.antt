-- ===== src/Book/Sorted.antt =====
-- The order of the levels of a side: strictly from better to worse, so that a price has one level.
use flux_trade.Prelude.{
  true, false, none, List, [], ◌∷◌, ◌≡◌, refl, arith, All, map, Bool-cases, inl, inr,
}
use flux_trade.Prelude.Int.{eqb_ℤ→eq}
use flux_trade.Domain.{Side, buy, sell, Price, price_eq}
use flux_trade.Book.Level.{PriceLevelNode}
use flux_trade.Book.Levels.{better, find_level, link, link_after, write_level, unlink}

abbrev pub Better : Side → Price → Price → Type 0
Better s p q = better s p q ≡ true

pub Better-trans : (s : Side) (p q r : Price) → Better s p q → Better s q r → Better s p r
Better-trans buy p q r h k = ground arith
Better-trans sell p q r h k = ground arith

pub better_total :
    (s : Side) (p q : Price) → better s p q ≡ false → price_eq p q ≡ false → Better s q p
better_total buy p q h k = ground arith
better_total sell p q h k = ground arith

pub Better-ne : (s : Side) (p q : Price) → Better s p q → price_eq p q ≡ false
Better-ne buy p q h = ground arith
Better-ne sell p q h = ground arith

abbrev pub prices : List PriceLevelNode → List Price
prices = map λ l. l.price

abbrev pub Ordered : Side → List Price → Type 0
Ordered s [] = Unit {0}
Ordered s (p ∷ ps) = All (Better s p) ps × Ordered s ps

pub All-Better_trans :
    (s : Side) (p q : Price) (ps : List Price)
    → Better s p q
    → All (Better s q) ps
    → All (Better s p) ps
All-Better_trans s p q [] h k = tt
All-Better_trans s p q (r ∷ ps) h k = (Better-trans s p q r h k.0, All-Better_trans s p q ps h k.1)

module _ (s : Side) (node : PriceLevelNode) where
  All-link_after :
      (P : Price → Type 0) (ls : List PriceLevelNode)
      → P node.price
      → All P (prices ls)
      → All P (prices (link_after s node ls))
  unfolding link_after
  All-link_after P [] h k = (h, tt)
  All-link_after P (l ∷ ls) h k = elim (Bool-cases (better s l.price node.price)) [
    | inl e ↦ rw e (k.0, All-link_after P ls h k.1)
    | inr e ↦ rw e (h, k)
  ]

  pub All-link :
      (P : Price → Type 0) (ls : List PriceLevelNode)
      → P node.price
      → All P (prices ls)
      → All P (prices (link s node ls))
  unfolding link
  All-link P [] h k = (h, tt)
  All-link P (l ∷ ls) h k = elim (Bool-cases (better s node.price l.price)) [
    | inl e ↦ rw e (h, k)
    | inr e ↦ rw e (k.0, All-link_after P ls h k.1)
  ]

  Ordered-link_after :
      (ls : List PriceLevelNode)
      → find_level node.price ls ≡ none
      → Ordered s (prices ls)
      → Ordered s (prices (link_after s node ls))
  unfolding link_after find_level
  Ordered-link_after [] new h = (tt, tt)
  Ordered-link_after (l ∷ ls) new h = elim (Bool-cases (better s l.price node.price)) [
    | inl e ↦
        rw e (All-link_after (Better s l.price) ls e h.0, Ordered-link_after ls (ground arith) h.1)
    | inr e ↦
        let first : Better s node.price l.price =
          better_total s l.price node.price e (ground arith) in
        rw e ((first, All-Better_trans s node.price l.price (prices ls) first h.0), h)
  ]

  -- `create_level` puts a new price where it belongs.
  pub Ordered-link :
      (ls : List PriceLevelNode)
      → find_level node.price ls ≡ none
      → Ordered s (prices ls)
      → Ordered s (prices (link s node ls))
  unfolding link find_level
  Ordered-link [] new h = (tt, tt)
  Ordered-link (l ∷ ls) new h = elim (Bool-cases (better s node.price l.price)) [
    | inl e ↦ rw e ((e, All-Better_trans s node.price l.price (prices ls) e h.0), h)
    | inr e ↦
        let second : Better s l.price node.price =
          better_total s node.price l.price e (ground arith) in
        rw e (
          All-link_after (Better s l.price) ls second h.0,
          Ordered-link_after ls (ground arith) h.1,
        )
  ]

pub prices-write_level :
    (l : PriceLevelNode) (ls : List PriceLevelNode) → prices (write_level l ls) ≡ prices ls
unfolding write_level
prices-write_level l [] = refl
prices-write_level l (k ∷ ls) = ground (arith, eqb_ℤ→eq k.price l.price, prices-write_level l ls)

pub All-unlink :
    (P : Price → Type 0) (p : Price) (ls : List PriceLevelNode)
    → All P (prices ls)
    → All P (prices (unlink p ls))
unfolding unlink
All-unlink P p [] h = tt
All-unlink P p (l ∷ ls) h = elim (Bool-cases (price_eq l.price p)) [
  | inl e ↦ rw e h.1
  | inr e ↦ rw e (h.0, All-unlink P p ls h.1)
]

pub Ordered-unlink :
    (s : Side) (p : Price) (ls : List PriceLevelNode)
    → Ordered s (prices ls)
    → Ordered s (prices (unlink p ls))
unfolding unlink
Ordered-unlink s p [] h = tt
Ordered-unlink s p (l ∷ ls) h = elim (Bool-cases (price_eq l.price p)) [
  | inl e ↦ rw e h.1
  | inr e ↦ rw e (All-unlink (Better s l.price) p ls h.0, Ordered-unlink s p ls h.1)
]
