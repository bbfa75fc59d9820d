-- ===== src/Common/Tests.antt =====
-- The ring buffer's properties at small rings.
use Prim.Native.Nat.{◌∣◌}
use native.Mathlib.Nat.{dvd_of_mod-eq-zero}
use flux_trade.Prelude.{ℕ, ◌+◌, ◌≤◌, ◌-◌, List, [], ◌∷◌, ◌++◌, ◌≡◌, ◌≢◌, refl, arith, length}
use flux_trade.Prelude.Words.{u64_mod}
use flux_trade.Common.Ring.{Ring, slot_of}
use flux_trade.Common.Queue.{IsRing, contents, QueueOp, run_ring, run_queue, run-refines}
use flux_trade.Common.Threads.{System, Step, Reach}
use flux_trade.Common.Fifo.{threads_first_in_first_out, threads_never_share_a_slot}

four : 4 ∣ u64_mod
four = dvd_of_mod-eq-zero 4 refl

-- Two values held across the wrap of the indices.
abbrev wrapped : Ring ℕ
wrapped = record { buffer = λ i. i + 10; capacity = 4; write_idx = 1; read_idx = u64_mod - 1 }

wrapped-IsRing : IsRing wrapped
wrapped-IsRing = record {
  divides = four;
  some_room = omega arith;
  below_mod = omega arith;
  write_word = omega arith;
  read_word = omega arith;
  fits = omega arith;
}

contents-wrapped : contents wrapped ≡ 13 ∷ 10 ∷ []
contents-wrapped = refl

abbrev script : List (QueueOp ℕ)
script =
    QueueOp.put_in 1
    ∷ QueueOp.put_in 2
    ∷ QueueOp.put_in 3
    ∷ QueueOp.take_out
    ∷ QueueOp.put_in 3
    ∷ []

run-refines_example : run_ring script wrapped ≡ run_queue 4 script (contents wrapped)
run-refines_example = run-refines script wrapped wrapped-IsRing

-- 7 has been published, 8 is about to be stored and 7 about to be taken.
abbrev both_inside : (s : System ℕ) × Reach 0 4 (7 ∷ []) [] s
both_inside = (
  _,
  Reach.later
      (Reach.later
        (Reach.later
          (Reach.later
            (Reach.later
              (Reach.later
                (Reach.later (Reach.later Reach.fresh (Step.load_write 7 refl))
                  (Step.pass_push 7 0 refl refl))
                (Step.store_value 7 0 refl))
              (Step.publish 7 0 refl))
            (Step.load_write 8 refl))
          (Step.pass_push 8 1 refl refl))
        (Step.load_read refl))
      (Step.pass_pop 0 refl refl),
)

threads_first_in_first_out_example :
    (7 ∷ [] ≡ [] ++ contents both_inside.0.ring) × (length (contents both_inside.0.ring) ≤ 4)
threads_first_in_first_out_example =
    threads_first_in_first_out four (omega arith) (omega arith) both_inside.1

threads_never_share_a_slot_example : slot_of 0 both_inside.0.ring ≢ slot_of 1 both_inside.0.ring
threads_never_share_a_slot_example =
    threads_never_share_a_slot 8 1 0 four (omega arith) (omega arith) both_inside.1 refl refl
