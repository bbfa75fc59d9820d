-- ===== src/Common/Threads.antt =====
-- SPSCQueue of common/include/common/ring_buffer.hpp under one producer and one consumer thread, a shared
-- access at a time. The interleaving is sequentially consistent: the release stores and acquire loads
-- of the source order what one thread reads of the other's.
use flux_trade.Prelude.{ℕ, true, false, List, [], ◌∷◌, ◌++◌, ◌≡◌, leb, ◌==◌}
use flux_trade.Prelude.Words.{add64, sub64}
use flux_trade.Common.Table.{put}
use flux_trade.Common.Ring.{Ring, slot_of, empty_ring}

-- Where the producer stands in `push`: before it, with the write index, before the store of the value,
-- and before the store of the write index.
pub data Producer {ℓ} (A : Type ℓ) : Type ℓ where
  idle : Producer A
  loaded : A → ℕ → Producer A
  free stored : A → ℕ → Producer A

-- Where the consumer stands in `pop`.
pub data Consumer {ℓ} (A : Type ℓ) : Type ℓ where
  idle : Consumer A
  loaded : ℕ → Consumer A
  ready : ℕ → Consumer A
  taken : A → ℕ → Consumer A

pub record System {ℓ} (A : Type ℓ) : Type ℓ where
  pub ring : Ring A
  pub producer : Producer A
  pub consumer : Consumer A

module _ {ℓ} {A : Type ℓ} where
  -- One access of one thread. The lists are the value that the step publishes and the value that it
  -- gives up the slot of, if any.
  pub data Step (s : System A) : List A → List A → System A → Type ℓ where
    load_write :
        (a : A)
        → s.producer ≡ Producer.idle
        → Step s [] [] (record s { producer = Producer.loaded a s.ring.write_idx })
    refuse_push :
        (a : A) (w : ℕ)
        → s.producer ≡ Producer.loaded a w
        → leb s.ring.capacity (sub64 w s.ring.read_idx) ≡ true
        → Step s [] [] (record s { producer = Producer.idle })
    pass_push :
        (a : A) (w : ℕ)
        → s.producer ≡ Producer.loaded a w
        → leb s.ring.capacity (sub64 w s.ring.read_idx) ≡ false
        → Step s [] [] (record s { producer = Producer.free a w })
    store_value :
        (a : A) (w : ℕ)
        → s.producer ≡ Producer.free a w
        → Step s [] [] (record s {
          ring = record s.ring { buffer = put (slot_of w s.ring) a s.ring.buffer };
          producer = Producer.stored a w;
        })
    publish :
        (a : A) (w : ℕ)
        → s.producer ≡ Producer.stored a w
        → Step s
            (a ∷ [])
            []
            (record s { ring = record s.ring { write_idx = add64 w 1 }; producer = Producer.idle })
    load_read :
        s.consumer ≡ Consumer.idle
        → Step s [] [] (record s { consumer = Consumer.loaded s.ring.read_idx })
    refuse_pop :
        (r : ℕ)
        → s.consumer ≡ Consumer.loaded r
        → (r == s.ring.write_idx) ≡ true
        → Step s [] [] (record s { consumer = Consumer.idle })
    pass_pop :
        (r : ℕ)
        → s.consumer ≡ Consumer.loaded r
        → (r == s.ring.write_idx) ≡ false
        → Step s [] [] (record s { consumer = Consumer.ready r })
    take_value :
        (r : ℕ)
        → s.consumer ≡ Consumer.ready r
        → Step s [] [] (record s { consumer = Consumer.taken (s.ring.buffer (slot_of r s.ring)) r })
    release :
        (a : A) (r : ℕ)
        → s.consumer ≡ Consumer.taken a r
        → Step s []
            (a ∷ [])
            (record s { ring = record s.ring { read_idx = add64 r 1 }; consumer = Consumer.idle })

  abbrev pub start : A → ℕ → System A
  start default capacity = record {
    ring = empty_ring default capacity;
    producer = Producer.idle;
    consumer = Consumer.idle;
  }

  -- The states that a fresh queue can reach, with the values published and taken so far.
  pub data Reach (default : A) (capacity : ℕ) : List A → List A → System A → Type ℓ where
    fresh : Reach default capacity [] [] (start default capacity)
    later :
        {ins outs i o : List A} {s t : System A}
        → Reach default capacity ins outs s
        → Step s i o t
        → Reach default capacity (ins ++ i) (outs ++ o) t
