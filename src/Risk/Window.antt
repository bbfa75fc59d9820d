-- ===== src/Risk/Window.antt =====
-- The rate check against a sliding window over the times of the messages that have passed.
use flux_trade.Prelude.{
  ℕ, zero, suc, ◌+◌, ◌-◌, ◌≤◌, ◌<◌, ◌%◌, min, Bool, true, false, List, [], ◌∷◌, ◌≡◌, ◌≢◌, refl, ap,
  ap₂, lt→ltb, ltb→lt, ◌∙◌, arith, ltb, length, ◌==◌, if◌then◌else◌, Bool-cases, inl, inr,
}
use flux_trade.Prelude.Words.{sub64}
use flux_trade.Common.Table.{put, put_same, put_other}
use flux_trade.Risk.RateLimit.{Tracker, window_size, fresh, stamp, oldest_of, check_tracker}

-- The k-th time of a list of times, newest first.
abbrev pub nth : ℕ → List ℕ → ℕ
nth k [] = 0
nth zero (t ∷ ts) = t
nth (suc k) (t ∷ ts) = nth k ts

-- A message may pass unless the `limit` messages that passed last did so within the last second.
abbrev pub may_pass : ℕ → ℕ → List ℕ → Bool
may_pass limit now passed =
    if ltb (length passed) limit
    then true
    else if ltb (sub64 now (nth (limit - 1) passed)) 1000000000
    then false
    else true

-- The decisions over a run of times, by that rule and by the tracker.
abbrev pub by_window : ℕ → List ℕ → List ℕ → List Bool
by_window limit [] passed = []
by_window limit (now ∷ nows) passed =
    may_pass limit now passed
    ∷ by_window limit nows (if may_pass limit now passed then now ∷ passed else passed)

abbrev pub by_tracker : ℕ → List ℕ → Tracker → List Bool
by_tracker limit [] tr = []
by_tracker limit (now ∷ nows) tr =
    (check_tracker now limit tr).0 ∷ by_tracker limit nows (check_tracker now limit tr).1

-- The slot of the k-th time back from the index.
abbrev back : ℕ → ℕ → ℕ
back index k = (index + 99 - k) % 100

record Tracks (limit : ℕ) (passed : List ℕ) (tr : Tracker) : Type 0 where
  pub index : tr.index < 100
  pub count : tr.count ≡ min limit (length passed)
  pub times : (k : ℕ) → k < 100 → k < length passed → tr.timestamps (back tr.index k) ≡ nth k passed

stamp-times :
    (now k : ℕ) (limit : ℕ) (passed : List ℕ) (tr : Tracker)
    → Tracks limit passed tr
    → k < 100
    → k < suc (length passed)
    → put tr.index now tr.timestamps (back ((tr.index + 1) % 100) k) ≡ nth k (now ∷ passed)
stamp-times now zero limit passed tr t h l =
    let here : back ((tr.index + 1) % 100) 0 ≡ tr.index = omega (arith, t.index) in
    rw here (put_same tr.index now tr.timestamps)
stamp-times now (suc k) limit passed tr t h l =
    let there : back ((tr.index + 1) % 100) (suc k) ≡ back tr.index k = omega (arith, t.index) in
    let apart : back tr.index k ≢ tr.index = omega (arith, t.index) in
    rw there (
      put_other tr.index now tr.timestamps (back tr.index k) apart
      ∙ t.times k (omega arith) (omega arith))

oldest :
    (limit : ℕ) (passed : List ℕ) (tr : Tracker)
    → Tracks limit passed tr
    → 0 < limit
    → limit ≤ 100
    → limit ≤ length passed
    → oldest_of limit tr ≡ nth (limit - 1) passed
unfolding oldest_of
oldest limit passed tr t low high full =
    let slot : sub64 (tr.index + window_size) limit % window_size ≡ back tr.index (limit - 1) =
      omega (arith, t.index) in
    ap tr.timestamps slot ∙ t.times (limit - 1) (omega arith) (omega arith)

abbrev Steps : ℕ → ℕ → List ℕ → Tracker → Bool → Type 0
Steps limit now passed tr pass =
    ((check_tracker now limit tr).0 ≡ pass)
    × Tracks limit (if pass then now ∷ passed else passed) (check_tracker now limit tr).1

module _ (limit now : ℕ) (passed : List ℕ) (tr : Tracker) where
  step_room :
      Tracks limit passed tr → 0 < limit → length passed < limit → Steps limit now passed tr true
  unfolding check_tracker stamp
  step_room t low room =
      let nonzero : (limit == 0) ≡ false = ground arith in
      let fewer : ltb tr.count limit ≡ true = lt→ltb _ _ (omega (arith, t.count)) in
      rw (nonzero, fewer)
        (
          refl,
          record {
            index = omega (arith, t.index);
            count = omega (arith, t.count);
            times = λ k h l. stamp-times now k limit passed tr t h l;
          },
        )

  step_full :
      (old : Bool)
      → ltb (sub64 now (nth (limit - 1) passed)) 1000000000 ≡ old
      → Tracks limit passed tr
      → 0 < limit
      → limit ≤ 100
      → limit ≤ length passed
      → Steps limit now passed tr (if old then false else true)
  unfolding check_tracker stamp
  step_full true old t low high full =
      let nonzero : (limit == 0) ≡ false = ground arith in
      let many : ltb tr.count limit ≡ false = ground (arith, t.count) in
      rw (nonzero, many, oldest limit passed tr t low high full, old) (refl, t)
  step_full false old t low high full =
      let nonzero : (limit == 0) ≡ false = ground arith in
      let many : ltb tr.count limit ≡ false = ground (arith, t.count) in
      rw (nonzero, many, oldest limit passed tr t low high full, old)
        (
          refl,
          record {
            index = omega (arith, t.index);
            count = omega (arith, t.count);
            times = λ k h l. stamp-times now k limit passed tr t h l;
          },
        )

  step :
      Tracks limit passed tr
      → 0 < limit
      → limit ≤ 100
      → Steps limit now passed tr (may_pass limit now passed)
  step t low high = elim (Bool-cases (ltb (length passed) limit)) [
    | inl room ↦ rw room (step_room t low (ltb→lt _ _ room))
    | inr full ↦
        let last = ltb (sub64 now (nth (limit - 1) passed)) 1000000000 in
        rw full (step_full last refl t low high (ground arith))
  ]

windowed :
    (limit : ℕ) (nows passed : List ℕ) (tr : Tracker)
    → Tracks limit passed tr
    → 0 < limit
    → limit ≤ 100
    → by_tracker limit nows tr ≡ by_window limit nows passed
windowed limit [] passed tr t low high = refl
windowed limit (now ∷ nows) passed tr t low high =
    let (same, t') = step limit now passed tr t low high in
    ap₂ (λ b bs. b ∷ bs) same (windowed limit nows _ (check_tracker now limit tr).1 t' low high)

-- For a limit from 1 to 100, the rate check of a fresh tracker decides over any run of times as a
-- sliding window does: a message passes unless the `limit` messages that passed last did so within the
-- last second. The 100 time stamps and the counter of the tracker are enough to know them.
pub tracker-refines-window :
    (limit : ℕ) (nows : List ℕ)
    → 0 < limit
    → limit ≤ 100
    → by_tracker limit nows fresh ≡ by_window limit nows []
unfolding fresh
tracker-refines-window limit nows low high =
    windowed limit nows [] fresh
      (record { index = omega arith; count = omega arith; times = λ k h l. absurd (omega arith) })
      low high
