-- ===== src/Matching/Statistics.antt =====
-- matching/include/matching/matching_statistics.hpp: counters that wrap at 64 bits.
use flux_trade.Prelude.{ℕ, ltb, if◌then◌else◌}
use flux_trade.Prelude.Words.{add64}

pub record MatchingStatistics : Type 0 where
  pub orders_received : ℕ
  pub orders_matched : ℕ
  pub orders_cancelled : ℕ
  pub orders_rejected : ℕ
  pub trades_executed : ℕ
  pub shares_executed : ℕ
  pub total_traded_volume : ℕ
  pub total_latency_ns : ℕ
  pub max_latency_ns : ℕ
  pub bucket_under_100ns : ℕ
  pub bucket_100_250ns : ℕ
  pub bucket_250_500ns : ℕ
  pub bucket_500ns_1us : ℕ
  pub bucket_1us_5us : ℕ
  pub bucket_over_5us : ℕ

abbrev pub zeros : MatchingStatistics
zeros = record {
  orders_received = 0;
  orders_matched = 0;
  orders_cancelled = 0;
  orders_rejected = 0;
  trades_executed = 0;
  shares_executed = 0;
  total_traded_volume = 0;
  total_latency_ns = 0;
  max_latency_ns = 0;
  bucket_under_100ns = 0;
  bucket_100_250ns = 0;
  bucket_250_500ns = 0;
  bucket_500ns_1us = 0;
  bucket_1us_5us = 0;
  bucket_over_5us = 0;
}

-- The histogram's increment.
unfoldable pub count_bucket : ℕ → MatchingStatistics → MatchingStatistics
count_bucket ns s =
    if ltb ns 100
    then record s { bucket_under_100ns = add64 s.bucket_under_100ns 1 }
    else if ltb ns 250
    then record s { bucket_100_250ns = add64 s.bucket_100_250ns 1 }
    else if ltb ns 500
    then record s { bucket_250_500ns = add64 s.bucket_250_500ns 1 }
    else if ltb ns 1000
    then record s { bucket_500ns_1us = add64 s.bucket_500ns_1us 1 }
    else if ltb ns 5000
    then record s { bucket_1us_5us = add64 s.bucket_1us_5us 1 }
    else record s { bucket_over_5us = add64 s.bucket_over_5us 1 }

unfoldable pub record_latency : ℕ → MatchingStatistics → MatchingStatistics
record_latency ns s = count_bucket ns (record s {
  total_latency_ns = add64 s.total_latency_ns ns;
  max_latency_ns = if ltb s.max_latency_ns ns then ns else s.max_latency_ns;
})
