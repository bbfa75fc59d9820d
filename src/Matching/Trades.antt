-- ===== src/Matching/Trades.antt =====
-- What is written of a list of fills: the trades of the context, cut at its capacity, and the
-- counters.
use flux_trade.Prelude.{
  ℕ, zero, suc, ◌≤◌, List, [], ◌∷◌, ◌++◌, ◌≡◌, refl, ap, sym, ◌∙◌, arith, leb, length,
  length-append, take, append-nil, append_assoc, Bool-cases, inl, inr, ◌<◌,
}
use flux_trade.Prelude.Words.{u32_mod, u64_mod, add32, add64}
use flux_trade.Domain.{Order, Trade}
use flux_trade.Matching.Context.{push, max_trades}
use flux_trade.Matching.TradeBuilder.{trade_of, build_match}
use flux_trade.Matching.Sweep.{Fill}
use flux_trade.Matching.SweepLaws.{shares}
use flux_trade.Matching.Tape.{Tape, note_fill, play}

-- An array that takes the elements of a list until it is full.
module _ {ℓ} {A : Type ℓ} (n : ℕ) where
  take_append : (xs ys : List A) → length xs ≡ n → take n (xs ++ ys) ≡ xs
  take_append xs ys e = go n xs e
    where
      go : (k : ℕ) (zs : List A) → length zs ≡ k → take k (zs ++ ys) ≡ zs
      go zero [] h = refl
      go zero (z ∷ zs) h = absurd (omega arith)
      go (suc k) [] h = absurd (omega arith)
      go (suc k) (z ∷ zs) h = ap (λ r. z ∷ r) (go k zs (omega arith))

  take_all : (k : ℕ) (xs : List A) → length xs ≤ k → take k xs ≡ xs
  take_all zero [] h = refl
  take_all zero (x ∷ xs) h = absurd (omega arith)
  take_all (suc k) [] h = refl
  take_all (suc k) (x ∷ xs) h = ap (λ r. x ∷ r) (take_all k xs (omega arith))

  push-full : (a : A) (xs : List A) → length xs ≡ n → push n a xs ≡ xs
  unfolding push
  push-full a xs e = ground arith

  push-room : (a : A) (xs : List A) → length xs < n → push n a xs ≡ xs ++ a ∷ []
  unfolding push
  push-room a xs h = ground arith

-- The trades of a list of fills, numbered on.
abbrev pub trades_of : Order → ℕ → ℕ → List Fill → List Trade
trades_of order timestamp seq [] = []
trades_of order timestamp seq (f ∷ fs) =
    trade_of seq order f.resting f.qty f.resting.price timestamp
    ∷ trades_of order timestamp (add64 seq 1) fs

module _ (order : Order) (timestamp : ℕ) where
  trades_full :
      (fs : List Fill) (t : Tape)
      → length t.ctx.trades ≡ max_trades
      → (play order timestamp fs t).ctx.trades ≡ t.ctx.trades
  unfolding play note_fill build_match
  trades_full [] t h = refl
  trades_full (f ∷ fs) t h =
      let kept = push-full max_trades _ t.ctx.trades h in
      trades_full fs (note_fill order timestamp f t) (ap length kept ∙ h) ∙ kept

  -- The context's trades, with those of the fills behind them, as far as there is room.
  pub trades-play :
      (fs : List Fill) (t : Tape)
      → length t.ctx.trades ≤ max_trades
      → (play order timestamp fs t).ctx.trades
        ≡ take max_trades (t.ctx.trades ++ trades_of order timestamp t.trade_seq fs)
  unfolding play note_fill build_match
  trades-play [] t h =
      sym (ap (take max_trades) (append-nil t.ctx.trades) ∙ take_all 0 max_trades t.ctx.trades h)
  trades-play (f ∷ fs) t h = elim (Bool-cases (leb max_trades (length t.ctx.trades))) [
    | inl e ↦
        let full : length t.ctx.trades ≡ max_trades = ground arith in
        trades_full (f ∷ fs) t full ∙ sym (take_append max_trades t.ctx.trades _ full)
    | inr e ↦
        let less : length t.ctx.trades < max_trades = ground arith in
        let more = push-room max_trades _ t.ctx.trades less in
        trades-play fs (note_fill order timestamp f t)
          (omega (arith, ap length more, length-append t.ctx.trades (_ ∷ [])))
        ∙ ap (λ ts. take max_trades (ts ++ trades_of order timestamp (add64 t.trade_seq 1) fs)) more
        ∙ ap (take max_trades) (append_assoc t.ctx.trades _ _)
  ]

  pub shares-play :
      (fs : List Fill) (t : Tape)
      → t.stats.shares_executed < u64_mod
      → (play order timestamp fs t).stats.shares_executed
        ≡ add64 t.stats.shares_executed (shares fs)
  unfolding play note_fill
  shares-play [] t h = omega arith
  shares-play (f ∷ fs) t h =
      omega (arith, shares-play fs (note_fill order timestamp f t) (omega arith))

  pub counts-play :
      (fs : List Fill) (t : Tape)
      → t.trade_seq < u64_mod
      → t.trades_generated < u32_mod
      → ((play order timestamp fs t).trade_seq ≡ add64 t.trade_seq (length fs))
        × ((play order timestamp fs t).trades_generated ≡ add32 t.trades_generated (length fs))
  unfolding play note_fill
  counts-play [] t h k = omega arith
  counts-play (f ∷ fs) t h k =
      omega (arith, counts-play fs (note_fill order timestamp f t) (omega arith) (omega arith))
