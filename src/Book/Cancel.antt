-- ===== src/Book/Cancel.antt =====
-- Cancelling an order that the lookup points to.
use flux_trade.Prelude.{◌∙◌, ℕ, true, false, none, some, ◌≡◌, refl, arith}
use flux_trade.Domain.{Side, LiveOrder}
use flux_trade.Book.Level
use flux_trade.Book.Level.{PriceLevelNode, is_empty}
use flux_trade.Book.Lookup
use flux_trade.Book.State.{LimitOrderBook, BookEvent, notify, settle, release, deref}
use flux_trade.Book.Ops.{cancel_at, cancel}
use flux_trade.Book.Valid.{IsValid, Narrows-IsValid}
use flux_trade.Book.Fill.{Stands, level-ok, Narrows-leave}

-- The lookup's pointer for an id is to an order that stands in the book.
abbrev pub Points : ℕ → LiveOrder → Side → PriceLevelNode → LimitOrderBook → Type 0
Points id o s l b =
    (Lookup.find id b.lookup ≡ some o.slot) × (deref o.slot b ≡ some o) × Stands o s l b

forgotten : (id slot : ℕ) (b : LimitOrderBook) → Lookup.find id (release id slot b).lookup ≡ none
unfolding release
forgotten id slot b = Lookup.find-erase id id b.lookup ∙ ground arith

-- Cancelling succeeds, and the lookup leads nowhere from the id any more.
pub cancel-forgets :
    (id : ℕ) (o : LiveOrder) (s : Side) (l : PriceLevelNode) (b : LimitOrderBook)
    → IsValid b
    → Points id o s l b
    → (b' : LimitOrderBook) × (cancel id b ≡ some (true, b'))
      × IsValid b'
      × (Lookup.find id b'.lookup ≡ none)
unfolding cancel cancel_at
cancel-forgets id o s l b v (found, here, st) =
    let left =
      settle s o.price (Level.leave o o.remaining_qty l) (notify (BookEvent.order_cancelled o) b) in
    (
      release id o.slot left,
      ground arith,
      Narrows-IsValid s b _
          (Narrows-leave s o.price o o o.remaining_qty l _ id o.slot b (level-ok o s l b v st) st.1
            refl)
          v,
      forgotten id o.slot left,
    )

-- On a valid book, cancelling an id that the lookup leads to a standing order succeeds, and the
-- book is valid afterwards.
pub cancel-IsValid :
    (id : ℕ) (o : LiveOrder) (s : Side) (l : PriceLevelNode) (b : LimitOrderBook)
    → IsValid b
    → Points id o s l b
    → (b' : LimitOrderBook) × (cancel id b ≡ some (true, b')) × IsValid b'
cancel-IsValid id o s l b v p =
    let (b', done, v', gone) = cancel-forgets id o s l b v p in (b', done, v')

-- An unknown id changes nothing.
pub cancel_unknown :
    (id : ℕ) (b : LimitOrderBook) → Lookup.find id b.lookup ≡ none → cancel id b ≡ some (false, b)
unfolding cancel
cancel_unknown id b e = ground arith
