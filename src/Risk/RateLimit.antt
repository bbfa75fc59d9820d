-- ===== src/Risk/RateLimit.antt =====
-- risk/include/risk/rate_limit_validator.hpp. `trackers_` is a function of the index, and so are the 100
-- time stamps of a tracker.
use flux_trade.Prelude.{ℕ, ◌+◌, ◌%◌, Bool, true, false, ltb, ◌==◌, if◌then◌else◌}
use flux_trade.Prelude.Words.{sub64}
use flux_trade.Common.Table.{put}

pub record Tracker : Type 0 where
  pub timestamps : ℕ → ℕ
  pub index : ℕ
  pub count : ℕ

abbrev pub window_size : ℕ
window_size = 100

unfoldable pub fresh : Tracker
fresh = record { timestamps = λ i. 0; index = 0; count = 0 }

-- Writes the time of a message that passes.
unfoldable pub stamp : ℕ → Tracker → Tracker
stamp now tr = record tr {
  timestamps = put tr.index now tr.timestamps;
  index = (tr.index + 1) % window_size;
}

-- The time of the oldest of the last `limit` messages.
unfoldable pub oldest_of : ℕ → Tracker → ℕ
oldest_of limit tr = tr.timestamps (sub64 (tr.index + window_size) limit % window_size)

unfoldable pub check_tracker : ℕ → ℕ → Tracker → Bool × Tracker
check_tracker now limit tr =
    if limit == 0
    then (true, tr)
    else if ltb tr.count limit
    then (true, record (stamp now tr) { count = tr.count + 1 })
    else if ltb (sub64 now (oldest_of limit tr)) 1000000000
    then (false, tr)
    else (true, stamp now tr)

unfoldable pub check_rate : ℕ → ℕ → ℕ → (ℕ → Tracker) → Bool × (ℕ → Tracker)
check_rate account_id now limit trackers =
    let (passes, tr) = check_tracker now limit (trackers (account_id % 1024)) in
    (passes, if limit == 0 then trackers else put (account_id % 1024) tr trackers)

unfoldable pub reset : ℕ → Tracker
reset a = fresh
