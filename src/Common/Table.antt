-- ===== src/Common/Table.antt =====
-- The arrays that the code indexes by an id modulo their size, as functions of the index.
use flux_trade.Prelude.{ℕ, ◌≡◌, ◌≢◌, arith, ◌==◌, if◌then◌else◌}

abbrev pub put {ℓ} : {A : Type ℓ} → ℕ → A → (ℕ → A) → ℕ → A
put i a f j = if j == i then a else f j

pub put_same {ℓ} : {A : Type ℓ} (i : ℕ) (a : A) (f : ℕ → A) → put i a f i ≡ a
put_same i a f = ground arith

pub put_other {ℓ} : {A : Type ℓ} (i : ℕ) (a : A) (f : ℕ → A) (j : ℕ) → j ≢ i → put i a f j ≡ f j
put_other i a f j h = ground arith
