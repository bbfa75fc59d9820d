-- ===== src/Book/Modify.antt =====
-- Modifying the quantity of an order that the lookup points to.
use flux_trade.Prelude.{
  ℕ, ◌+◌, ◌<◌, true, false, some, List, [], ◌∷◌, ◌++◌, ◌≡◌, refl, ap, sym, ◌∙◌, subst, arith,
  All-append, Bool-cases, inl, inr, ltb, ltb→lt, length-append, append_assoc, if◌then◌else◌, ◌==◌,
}
use flux_trade.Prelude.Words.{u64_mod}
use flux_trade.Domain.{Side, Quantity, LiveOrder, qty_sub, qty_add, opposite, Price, price_eq}
use flux_trade.Book.Level
use flux_trade.Book.Level.{PriceLevelNode, is_empty}
use flux_trade.Book.Levels.{find_level, write_level}
use flux_trade.Book.State.{LimitOrderBook, levels_of, set_levels}
use flux_trade.Book.Ops.{modify_at, modify_qty, resize}
use flux_trade.Book.Sums.{
  LevelOk, All-remove, All-find_slot, total-append, total-remove, is_empty-append,
}
use flux_trade.Book.Valid.{IsValid, Narrows-IsValid, price-find_level}
use flux_trade.Book.Keep.{Narrows-write, levels_set}
use flux_trade.Book.Link.{find_level-write}
use flux_trade.Book.Fill.{level-ok, shrunk-LevelOk, find_level_of_locate}
use flux_trade.Book.Cancel.{Points}

grown-LevelOk :
    (o o' : LiveOrder) (q : Quantity) (l : PriceLevelNode)
    → LevelOk l
    → Level.find_slot o.slot l.orders ≡ some o
    → o'.price ≡ o.price
    → o'.remaining_qty ≡ o.remaining_qty + q
    → o'.remaining_qty < u64_mod
    → LevelOk (record l {
      orders = Level.append o' (Level.remove o.slot l.orders);
      total_qty = qty_add l.total_qty q;
    })
grown-LevelOk o o' q l ok found priced more small =
    let held : (o.price ≡ l.price) × (o.remaining_qty < u64_mod) =
      All-find_slot o.slot (λ k. (k.price ≡ l.price) × (k.remaining_qty < u64_mod)) l.orders o found
        ok.resting in
    let sizes = total-remove o.slot l.orders o found in
    record {
      sums = record {
        quantity =
            omega (
              arith,
              ok.sums.quantity,
              sizes,
              total-append (Level.remove o.slot l.orders) (o' ∷ []),
            );
        count = omega (
          arith,
          ok.sums.count,
          sizes,
          length-append {0} (Level.remove o.slot l.orders) (o' ∷ []),
        );
      };
      filled = is_empty-append o' (Level.remove o.slot l.orders);
      resting =
          All-append (λ k. (k.price ≡ l.price) × (k.remaining_qty < u64_mod))
            (Level.remove o.slot l.orders) (o' ∷ []) (All-remove o.slot _ l.orders ok.resting)
            ((priced ∙ held.0, small), tt);
    }

resize-LevelOk :
    (o : LiveOrder) (new_qty : Quantity) (seq : ℕ) (l : PriceLevelNode)
    → LevelOk l
    → Level.find_slot o.slot l.orders ≡ some o
    → new_qty < u64_mod
    → LevelOk (resize o new_qty seq l)
unfolding resize
resize-LevelOk o new_qty seq l ok found small =
    let held : o.remaining_qty < u64_mod = (All-find_slot o.slot _ l.orders o found ok.resting).1 in
    elim (Bool-cases (ltb new_qty o.remaining_qty)) [
      | inl e ↦
          let less : new_qty < o.remaining_qty = ltb→lt _ _ e in
          rw e (
            shrunk-LevelOk o (record o { remaining_qty = new_qty })
              (qty_sub o.remaining_qty new_qty) l ok found refl (omega arith))
      | inr e ↦ elim (Bool-cases (ltb o.remaining_qty new_qty)) [
        | inl d ↦
            let more : o.remaining_qty < new_qty = ltb→lt _ _ d in
            rw (e, d)
              (grown-LevelOk o (record o { remaining_qty = new_qty; priority_seq = seq })
                (qty_sub new_qty o.remaining_qty) l ok found refl (omega arith) small)
        | inr d ↦ rw (e, d) ok
      ]
    ]

-- The order at a slot splits its queue: writing it leaves it in its place, removing it joins the rest.
split_at_slot :
    (o : LiveOrder) (os : List LiveOrder)
    → Level.find_slot o.slot os ≡ some o
    → (before : List LiveOrder) × (after : List LiveOrder) × (os ≡ before ++ o ∷ after)
      × (Level.remove o.slot os ≡ before ++ after)
      × ((o' : LiveOrder) → o'.slot ≡ o.slot → Level.store o' os ≡ before ++ o' ∷ after)
unfolding Level.find_slot Level.remove Level.store
split_at_slot o [] e = cc
split_at_slot o (x ∷ os) e = elim (Bool-cases (x.slot == o.slot)) [
  | inl here ↦
      let same : x ≡ o = ground arith in
      ([], os, ap (λ k. k ∷ os) same, ground arith, λ o' at. ground (arith, at, here))
  | inr later ↦
      let (before, after, split, removed, stored) = split_at_slot o os (ground arith) in
      (
        x ∷ before,
        after,
        ap (λ xs. x ∷ xs) split,
        ground (arith, removed),
        λ o' at. ground (arith, at, later, stored o' at),
      )
]

-- A queue in which an order gets a new quantity. It keeps its place, unless the quantity is larger than
-- what it has left: then it goes to the tail, with a new priority.
abbrev pub resized : List LiveOrder → LiveOrder → List LiveOrder → Quantity → ℕ → List LiveOrder
resized before o after new_qty seq =
    if ltb o.remaining_qty new_qty
    then before ++ (after ++ record o { remaining_qty = new_qty; priority_seq = seq } ∷ [])
    else before ++ record o { remaining_qty = new_qty } ∷ after

resize-resized :
    (o : LiveOrder) (new_qty : Quantity) (seq : ℕ) (l : PriceLevelNode)
    → Level.find_slot o.slot l.orders ≡ some o
    → (before : List LiveOrder) × (after : List LiveOrder) × (l.orders ≡ before ++ o ∷ after)
      × ((resize o new_qty seq l).orders ≡ resized before o after new_qty seq)
unfolding resize
resize-resized o new_qty seq l found =
    let (before, after, split, removed, stored) = split_at_slot o l.orders found in
    (
      before,
      after,
      split,
      elim (Bool-cases (ltb new_qty o.remaining_qty)) [
        | inl e ↦
            let less : new_qty < o.remaining_qty = ltb→lt _ _ e in
            let other : ltb o.remaining_qty new_qty ≡ false = ground arith in
            rw (e, other) (stored (record o { remaining_qty = new_qty }) refl)
        | inr e ↦ elim (Bool-cases (ltb o.remaining_qty new_qty)) [
          | inl d ↦
              rw (e, d)
                (ap (λ xs. xs ++ record o { remaining_qty = new_qty; priority_seq = seq } ∷ [])
                    removed
                  ∙ append_assoc before after _)
          | inr d ↦
              let same : o.remaining_qty ≡ new_qty = ground arith in
              rw (e, d)
                (split
                  ∙ ap (λ (q : Quantity). before ++ record o { remaining_qty = q } ∷ after) same)
        ]
      ],
    )

resize-price :
    (o : LiveOrder) (new_qty : Quantity) (seq : ℕ) (l : PriceLevelNode)
    → (resize o new_qty seq l).price ≡ l.price
unfolding resize
resize-price o new_qty seq l = ground arith

modified_at :
    (id : ℕ) (new_qty : Quantity) (seq : ℕ) (o : LiveOrder) (s : Side) (l : PriceLevelNode)
    (b : LimitOrderBook)
    → Points id o s l b
    → modify_qty id new_qty seq b
      ≡ some (true, set_levels s (write_level (resize o new_qty seq l) (levels_of s b)) b)
unfolding modify_qty modify_at
modified_at id new_qty seq o s l b (found, here, st) = ground arith

-- On a valid book, modifying the quantity of an id that the lookup leads to a standing order succeeds,
-- for any new quantity below 2 ^ 64, and the book is valid afterwards. The order's level has the same
-- queue but for that order, which has the new quantity: in its place where the quantity is not larger
-- than what it had left, at the tail with the new priority where it is. Every other level is as it was,
-- on both sides. A new quantity of 0 is no exception: the order stays, with nothing left.
pub modify_qty-resizes :
    (id : ℕ) (new_qty : Quantity) (seq : ℕ) (o : LiveOrder) (s : Side) (l : PriceLevelNode)
    (b : LimitOrderBook)
    → IsValid b
    → Points id o s l b
    → new_qty < u64_mod
    → (b' : LimitOrderBook) × (l' : PriceLevelNode) × (before : List LiveOrder) × (after : List
        LiveOrder)
      × (modify_qty id new_qty seq b ≡ some (true, b'))
      × IsValid b'
      × (l.orders ≡ before ++ o ∷ after)
      × (l'.orders ≡ resized before o after new_qty seq)
      × ((q : Price)
          → find_level q (levels_of s b')
            ≡ (if price_eq o.price q then some l' else find_level q (levels_of s b)))
      × (levels_of (opposite s) b' ≡ levels_of (opposite s) b)
modify_qty-resizes id new_qty seq o s l b v (found, here, st) small =
    let l' = resize o new_qty seq l in
    let ls = levels_of s b in
    let at : find_level o.price ls ≡ some l = find_level_of_locate o.price b s l st.0 in
    let priced : l'.price ≡ o.price =
      resize-price o new_qty seq l ∙ price-find_level o.price ls l at in
    let (before, after, split, queue) = resize-resized o new_qty seq l st.1 in
    let (side, others) = levels_set s (write_level l' ls) b in
    (
      set_levels s (write_level l' ls) b,
      l',
      before,
      after,
      modified_at id new_qty seq o s l b (found, here, st),
      Narrows-IsValid s b _
          (Narrows-write s l' b (resize-LevelOk o new_qty seq l (level-ok o s l b v st) st.1 small))
          v,
      split,
      queue,
      λ q.
          ap (find_level q) side
          ∙ subst
              (λ (p : Price).
                find_level q (write_level l' ls)
                ≡ (if price_eq p q then some l' else find_level q ls))
              priced
              (find_level-write q l l' ls
                (subst (λ (p : Price). find_level p ls ≡ some l) (sym priced) at)),
      others,
    )
