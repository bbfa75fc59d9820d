-- ===== src/Book/Sums.antt =====
-- The accounts of a level: its total quantity and its order count are those of its orders.
use flux_trade.Prelude.{
  ℕ, suc, ◌+◌, ◌%◌, ◌<◌, false, some, List, [], ◌∷◌, ◌++◌, ◌≡◌, refl, arith, All, All-append,
  length, length-append, ◌==◌, Bool-cases, inl, inr, subst,
}
use flux_trade.Prelude.Words.{u64_mod, u32_mod}
use flux_trade.Domain.{Price, Quantity, LiveOrder, qty_sub}
use flux_trade.Book.Level
use flux_trade.Book.Level.{PriceLevelNode, is_empty}

abbrev pub total : List LiveOrder → ℕ
total [] = 0
total (o ∷ os) = o.remaining_qty + total os

abbrev pub Resting : Price → List LiveOrder → Type 0
Resting p os = All (λ o. (o.price ≡ p) × (o.remaining_qty < u64_mod)) os

pub record LevelSums (l : PriceLevelNode) : Type 0 where
  pub quantity : l.total_qty ≡ total l.orders % u64_mod
  pub count : l.order_count ≡ length l.orders % u32_mod

pub record LevelOk (l : PriceLevelNode) : Type 0 where
  pub sums : LevelSums l
  pub filled : is_empty l.orders ≡ false
  pub resting : Resting l.price l.orders

pub total-append : (os qs : List LiveOrder) → total (os ++ qs) ≡ total os + total qs
total-append [] qs = omega arith
total-append (o ∷ os) qs = omega (arith, total-append os qs)

module _ (slot : ℕ) where
  pub total-remove :
      (os : List LiveOrder) (o : LiveOrder)
      → Level.find_slot slot os ≡ some o
      → (o.remaining_qty + total (Level.remove slot os) ≡ total os)
        × (suc (length (Level.remove slot os)) ≡ length os)
  unfolding Level.find_slot Level.remove
  total-remove [] o e = cc
  total-remove (x ∷ os) o e = ground (arith, total-remove os o)

  pub All-remove {ℓ} :
      (P : LiveOrder → Type ℓ) (os : List LiveOrder) → All P os → All P (Level.remove slot os)
  unfolding Level.remove
  All-remove P [] h = tt
  All-remove P (x ∷ os) h = elim (Bool-cases (x.slot == slot)) [
    | inl e ↦ rw e h.1
    | inr e ↦ rw e (h.0, All-remove P os h.1)
  ]

  pub All-find_slot {ℓ} :
      (P : LiveOrder → Type ℓ) (os : List LiveOrder) (o : LiveOrder)
      → Level.find_slot slot os ≡ some o
      → All P os
      → P o
  unfolding Level.find_slot
  All-find_slot P [] o e h = cc
  All-find_slot P (x ∷ os) o e h = elim (Bool-cases (x.slot == slot)) [
    | inl t ↦ let same : x ≡ o = ground arith in subst P same h.0
    | inr t ↦ All-find_slot P os o (ground arith) h.1
  ]

pub total-store :
    (os : List LiveOrder) (o o' : LiveOrder)
    → Level.find_slot o'.slot os ≡ some o
    → (total (Level.store o' os) + o.remaining_qty ≡ total os + o'.remaining_qty)
      × (length (Level.store o' os) ≡ length os)
unfolding Level.find_slot Level.store
total-store [] o o' e = cc
total-store (x ∷ os) o o' e = ground (arith, total-store os o o')

pub All-store {ℓ} :
    (P : LiveOrder → Type ℓ) (os : List LiveOrder) (o' : LiveOrder)
    → P o'
    → All P os
    → All P (Level.store o' os)
unfolding Level.store
All-store P [] o' h k = tt
All-store P (x ∷ os) o' h k = elim (Bool-cases (x.slot == o'.slot)) [
  | inl e ↦ rw e (h, k.1)
  | inr e ↦ rw e (k.0, All-store P os o' h k.1)
]

pub is_empty-append : (o : LiveOrder) (os : List LiveOrder) → is_empty (Level.append o os) ≡ false
is_empty-append o [] = refl
is_empty-append o (x ∷ os) = refl

-- Joining the tail keeps the accounts of a level, a fresh one included.
pub join-LevelOk :
    (o : LiveOrder) (l : PriceLevelNode)
    → LevelSums l
    → Resting l.price l.orders
    → o.price ≡ l.price
    → o.remaining_qty < u64_mod
    → LevelOk (Level.join o l)
unfolding Level.join
join-LevelOk o l s r p small = record {
  sums = record {
    quantity = omega (arith, s.quantity, total-append l.orders (o ∷ []));
    count = omega (arith, s.count, length-append {0} l.orders (o ∷ []));
  };
  filled = is_empty-append o l.orders;
  resting =
      All-append (λ k. (k.price ≡ l.price) × (k.remaining_qty < u64_mod)) l.orders (o ∷ []) r
        ((p, small), tt);
}

-- So does leaving it with the quantity that the order stood with.
pub leave-LevelSums :
    (o o' : LiveOrder) (q : Quantity) (l : PriceLevelNode)
    → Level.find_slot o'.slot l.orders ≡ some o
    → q ≡ o.remaining_qty
    → Resting l.price l.orders
    → LevelSums l
    → LevelSums (Level.leave o' q l)
unfolding Level.leave
leave-LevelSums o o' q l found e r s =
    let small : o.remaining_qty < u64_mod = (All-find_slot o'.slot _ l.orders o found r).1 in
    record {
      quantity = omega (arith, s.quantity, total-remove o'.slot l.orders o found);
      count = omega (arith, s.count, total-remove o'.slot l.orders o found);
    }

-- And so does writing a smaller quantity, when the level's total falls by as much.
pub shrink-LevelSums :
    (o o' : LiveOrder) (q : Quantity) (l : PriceLevelNode)
    → Level.find_slot o'.slot l.orders ≡ some o
    → o'.remaining_qty + q ≡ o.remaining_qty
    → Resting l.price l.orders
    → LevelSums l
    → LevelSums (record l { orders = Level.store o' l.orders; total_qty = qty_sub l.total_qty q })
shrink-LevelSums o o' q l found e r s =
    let small : o.remaining_qty < u64_mod = (All-find_slot o'.slot _ l.orders o found r).1 in
    record {
      quantity = omega (arith, s.quantity, total-store l.orders o o' found);
      count = omega (arith, s.count, total-store l.orders o o' found);
    }
