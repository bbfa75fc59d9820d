-- ===== src/Common/ObjectPool.antt =====
-- common/include/common/object_pool.hpp. An object's address is its index in `storage_`; what is
-- stored there is the business of the pool's users. The head of `free_list` is the back of the vector.
use flux_trade.Prelude.{ℕ, zero, suc, List, [], ◌∷◌, Option, none, some, ltb, if◌then◌else◌}

pub record ObjectPool : Type 0 where
  pub capacity : ℕ
  pub free_list : List ℕ

abbrev pub countdown : ℕ → List ℕ
countdown zero = []
countdown (suc n) = n ∷ countdown n

-- The constructor pushes 0, 1, ..., capacity - 1.
unfoldable pub init : ℕ → ObjectPool
init capacity = record { capacity = capacity; free_list = countdown capacity }

-- `none` is the std::bad_alloc of an exhausted pool.
unfoldable pub allocate : ObjectPool → Option (ℕ × ObjectPool)
allocate pool = elim pool.free_list [
  | [] ↦ none
  | index ∷ rest ↦ some (index, record pool { free_list = rest })
]

unfoldable pub deallocate : ℕ → ObjectPool → ObjectPool
deallocate index pool =
    if ltb index pool.capacity then record pool { free_list = index ∷ pool.free_list } else pool
