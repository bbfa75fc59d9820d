-- ===== src/Matching/Tape.antt =====
-- What a matching writes beside the book: the context's trades and reports, the counters and the
-- sequence numbers. `note_fill` is the entry of one fill.
use flux_trade.Prelude.{ℕ, ◌-◌, List, [], ◌∷◌, ◌++◌, ◌≡◌, refl}
use flux_trade.Prelude.Words.{add32, add64}
use flux_trade.Domain.{Order}
use flux_trade.Matching.Context.{ExecutionContext}
use flux_trade.Matching.TradeBuilder.{build_match}
use flux_trade.Matching.Statistics.{MatchingStatistics}
use flux_trade.Matching.Engine.{Matching, count_trade}
use flux_trade.Matching.Sweep.{Fill}

pub record Tape : Type 0 where
  pub ctx : ExecutionContext
  pub stats : MatchingStatistics
  pub trade_seq : ℕ
  pub exec_seq : ℕ
  pub trades_generated : ℕ

abbrev pub tape_of : Matching → Tape
tape_of m = record {
  ctx = m.ctx;
  stats = m.engine.stats;
  trade_seq = m.engine.trade_seq;
  exec_seq = m.engine.exec_seq;
  trades_generated = m.trades_generated;
}

-- One trade at the resting order's price: a trade, a taker's and a maker's report.
unfoldable pub note_fill : Order → ℕ → Fill → Tape → Tape
note_fill order timestamp f t = record {
  ctx =
      build_match t.trade_seq t.exec_seq (add64 t.exec_seq 1) order f.resting f.qty f.resting.price
        f.left (f.resting.remaining_qty - f.qty) timestamp t.ctx;
  stats = count_trade f.qty f.resting.price t.stats;
  trade_seq = add64 t.trade_seq 1;
  exec_seq = add64 (add64 t.exec_seq 1) 1;
  trades_generated = add32 t.trades_generated 1;
}

unfoldable pub play : Order → ℕ → List Fill → Tape → Tape
play order timestamp [] t = t
play order timestamp (f ∷ fs) t = play order timestamp fs (note_fill order timestamp f t)

pub play-append :
    (order : Order) (timestamp : ℕ) (fs gs : List Fill) (t : Tape)
    → play order timestamp (fs ++ gs) t ≡ play order timestamp gs (play order timestamp fs t)
unfolding play
play-append order timestamp [] gs t = refl
play-append order timestamp (f ∷ fs) gs t =
    play-append order timestamp fs gs (note_fill order timestamp f t)
