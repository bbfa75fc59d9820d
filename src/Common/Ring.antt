-- ===== src/Common/Ring.antt =====
-- SPSCQueue of common/include/common/ring_buffer.hpp, one whole call at a time. The source asserts that
-- the capacity is a power of 2, so its `& (Capacity - 1)` is a remainder.
use flux_trade.Prelude.{
  ℕ, ◌%◌, ◌-◌, Bool, true, false, Option, none, some, leb, ◌==◌, if◌then◌else◌,
}
use flux_trade.Prelude.Words.{add64, sub64}
use flux_trade.Common.Table.{put}

pub record Ring {ℓ} (A : Type ℓ) : Type ℓ where
  pub buffer : ℕ → A
  pub capacity : ℕ
  pub write_idx : ℕ
  pub read_idx : ℕ

module _ {ℓ} {A : Type ℓ} where
  -- Every slot holds a value of the type's default constructor.
  abbrev pub empty_ring : A → ℕ → Ring A
  empty_ring default capacity = record {
    buffer = λ i. default;
    capacity = capacity;
    write_idx = 0;
    read_idx = 0;
  }

  -- The slot of an index.
  abbrev pub slot_of : ℕ → Ring A → ℕ
  slot_of i r = i % r.capacity

  unfoldable pub push : A → Ring A → Bool × Ring A
  push value r = if leb r.capacity (sub64 r.write_idx r.read_idx) then (false, r) else (
    true,
    record r {
      buffer = put (slot_of r.write_idx r) value r.buffer;
      write_idx = add64 r.write_idx 1;
    },
  )

  unfoldable pub pop : Ring A → Option (A × Ring A)
  pop r =
      if r.read_idx == r.write_idx
      then none
      else some (r.buffer (slot_of r.read_idx r), record r { read_idx = add64 r.read_idx 1 })

  unfoldable pub size : Ring A → ℕ
  size r = if leb r.read_idx r.write_idx then r.write_idx - r.read_idx else 0

  unfoldable pub is_empty : Ring A → Bool
  is_empty r = size r == 0
