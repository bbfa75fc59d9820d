-- ===== src/Common/Fifo.antt =====
-- What the two threads of a ring buffer keep: nothing is lost, repeated or reordered, and they never
-- touch the same slot at once.
use Prim.Native.Nat.{◌∣◌}
use flux_trade.Prelude.{
  ℕ, suc, ◌≤◌, ◌<◌, List, [], ◌∷◌, ◌++◌, ◌≡◌, ◌≢◌, refl, ap, sym, ◌∙◌, subst, arith, length,
  append-nil, append_assoc,
}
use flux_trade.Prelude.Words.{u64_mod, add64, sub64}
use flux_trade.Common.Table.{put, put_same, put_other}
use flux_trade.Common.Ring.{Ring, slot_of, empty_ring}
use flux_trade.Common.Window.{window, window_snoc, window-put, slots_differ}
use flux_trade.Common.Queue.{
  IsRing, length-contents, held, contents, write_slot, popped-contents, popped-IsRing,
  published-IsRing,
}
use flux_trade.Common.Threads.{Producer, Consumer, System, Step, Reach}

module _ {ℓ} {A : Type ℓ} where
  -- What a thread's locals say of the ring.
  abbrev ProducerOk : Producer A → Ring A → Type ℓ
  ProducerOk Producer.idle r = Unit {ℓ}
  ProducerOk (Producer.loaded a w) r = (w ≡ r.write_idx) × Unit {ℓ}
  ProducerOk (Producer.free a w) r = (w ≡ r.write_idx) × (held r < r.capacity) × Unit {ℓ}
  ProducerOk (Producer.stored a w) r =
      (w ≡ r.write_idx) × (held r < r.capacity) × (r.buffer (slot_of w r) ≡ a)

  abbrev ConsumerOk : Consumer A → Ring A → Type ℓ
  ConsumerOk Consumer.idle r = Unit {ℓ}
  ConsumerOk (Consumer.loaded k) r = (k ≡ r.read_idx) × Unit {ℓ}
  ConsumerOk (Consumer.ready k) r = (k ≡ r.read_idx) × (0 < held r) × Unit {ℓ}
  ConsumerOk (Consumer.taken a k) r = (k ≡ r.read_idx) × (0 < held r) × (r.buffer (slot_of k r) ≡ a)

  record Inv (s : System A) : Type ℓ where
    pub ring : IsRing s.ring
    pub producer : ProducerOk s.producer s.ring
    pub consumer : ConsumerOk s.consumer s.ring

  -- The slot that the producer writes is not the one that the consumer reads.
  apart :
      (r : Ring A)
      → IsRing r
      → held r < r.capacity
      → 0 < held r
      → slot_of r.read_idx r ≢ slot_of r.write_idx r
  apart r v h k e = slots_differ r.read_idx (held r) r.capacity k h (e ∙ write_slot r v)

  contents-stored :
      (a : A) (r : Ring A)
      → IsRing r
      → held r < r.capacity
      → contents (record r { buffer = put (slot_of r.write_idx r) a r.buffer }) ≡ contents r
  contents-stored a r v h =
      ap (λ k. window r.capacity (put k a r.buffer) (held r) r.read_idx) (write_slot r v)
      ∙ window-put r.capacity r.buffer a (held r) (held r) r.read_idx (omega arith) h

  grown :
      (r : Ring A)
      → IsRing r
      → held r < r.capacity
      → sub64 (add64 r.write_idx 1) r.read_idx ≡ suc (held r)
  grown r v h = omega (arith, v.write_word, v.read_word, v.below_mod, h)

  fewer :
      (r : Ring A) → IsRing r → 0 < held r → held r ≡ suc (sub64 r.write_idx (add64 r.read_idx 1))
  fewer r v h = omega (arith, v.write_word, v.read_word, h)

  contents-published :
      (r : Ring A)
      → IsRing r
      → held r < r.capacity
      → contents (record r { write_idx = add64 r.write_idx 1 })
        ≡ contents r ++ r.buffer (slot_of r.write_idx r) ∷ []
  contents-published r v h =
      ap (λ k. window r.capacity r.buffer k r.read_idx) (grown r v h)
      ∙ window_snoc r.capacity r.buffer (held r) r.read_idx
      ∙ ap (λ k. contents r ++ r.buffer k ∷ []) (sym (write_slot r v))

  consumer_after_store :
      (c : Consumer A) (a : A) (r : Ring A)
      → IsRing r
      → held r < r.capacity
      → ConsumerOk c r
      → ConsumerOk c (record r { buffer = put (slot_of r.write_idx r) a r.buffer })
  consumer_after_store Consumer.idle a r v h k = tt
  consumer_after_store (Consumer.loaded i) a r v h k = k
  consumer_after_store (Consumer.ready i) a r v h k = k
  consumer_after_store (Consumer.taken b i) a r v h (e, some_left, here) =
      let differ : slot_of i r ≢ slot_of r.write_idx r =
        subst (λ j. slot_of j r ≢ slot_of r.write_idx r) (sym e) (apart r v h some_left) in
      (e, some_left, put_other (slot_of r.write_idx r) a r.buffer (slot_of i r) differ ∙ here)

  consumer_after_publish :
      (c : Consumer A) (r : Ring A)
      → IsRing r
      → held r < r.capacity
      → ConsumerOk c r
      → ConsumerOk c (record r { write_idx = add64 r.write_idx 1 })
  consumer_after_publish Consumer.idle r v h k = tt
  consumer_after_publish (Consumer.loaded i) r v h k = k
  consumer_after_publish (Consumer.ready i) r v h (e, some_left, u) =
      (e, omega (arith, grown r v h), tt)
  consumer_after_publish (Consumer.taken b i) r v h (e, some_left, here) =
      (e, omega (arith, grown r v h), here)

  producer_after_release :
      (p : Producer A) (r : Ring A)
      → IsRing r
      → 0 < held r
      → ProducerOk p r
      → ProducerOk p (record r { read_idx = add64 r.read_idx 1 })
  producer_after_release Producer.idle r v h k = tt
  producer_after_release (Producer.loaded a w) r v h k = k
  producer_after_release (Producer.free a w) r v h (e, room, u) =
      (e, omega (arith, fewer r v h, room), tt)
  producer_after_release (Producer.stored a w) r v h (e, room, here) =
      (e, omega (arith, fewer r v h, room), here)

  -- A step keeps the invariant; what was held, with what is published, is what is taken and then held.
  abbrev Keeps : System A → List A → List A → System A → Type ℓ
  Keeps s i o t =
      Inv t × (contents s.ring ++ i ≡ o ++ contents t.ring) × (t.ring.capacity ≡ s.ring.capacity)

  store-Keeps :
      (s : System A) (a : A)
      → Inv s
      → held s.ring < s.ring.capacity
      → Keeps s [] [] (record s {
        ring = record s.ring { buffer = put (slot_of s.ring.write_idx s.ring) a s.ring.buffer };
        producer = Producer.stored a s.ring.write_idx;
      })
  store-Keeps s a v less = (
    record {
      ring = record {
        divides = v.ring.divides;
        some_room = v.ring.some_room;
        below_mod = v.ring.below_mod;
        write_word = v.ring.write_word;
        read_word = v.ring.read_word;
        fits = v.ring.fits;
      };
      producer = (refl, less, put_same (slot_of s.ring.write_idx s.ring) a s.ring.buffer);
      consumer = consumer_after_store s.consumer a s.ring v.ring less v.consumer;
    },
    append-nil (contents s.ring) ∙ sym (contents-stored a s.ring v.ring less),
    refl,
  )

  publish-Keeps :
      (s : System A) (a : A)
      → Inv s
      → held s.ring < s.ring.capacity
      → s.ring.buffer (slot_of s.ring.write_idx s.ring) ≡ a
      → Keeps s (a ∷ []) [] (record s {
        ring = record s.ring { write_idx = add64 s.ring.write_idx 1 };
        producer = Producer.idle;
      })
  publish-Keeps s a v less here = (
    record {
      ring = published-IsRing s.ring v.ring less;
      producer = tt;
      consumer = consumer_after_publish s.consumer s.ring v.ring less v.consumer;
    },
    ap (λ b. contents s.ring ++ b ∷ []) (sym here) ∙ sym (contents-published s.ring v.ring less),
    refl,
  )

  release-Keeps :
      (s : System A) (a : A)
      → Inv s
      → 0 < held s.ring
      → s.ring.buffer (slot_of s.ring.read_idx s.ring) ≡ a
      → Keeps s [] (a ∷ []) (record s {
        ring = record s.ring { read_idx = add64 s.ring.read_idx 1 };
        consumer = Consumer.idle;
      })
  release-Keeps s a v something here = (
    record {
      ring = popped-IsRing s.ring v.ring something;
      producer = producer_after_release s.producer s.ring v.ring something v.producer;
      consumer = tt;
    },
    append-nil (contents s.ring)
        ∙ popped-contents s.ring v.ring something
        ∙ ap (λ b. b ∷ contents (record s.ring { read_idx = add64 s.ring.read_idx 1 })) here,
    refl,
  )

  step-Keeps : {s t : System A} {i o : List A} → Step s i o t → Inv s → Keeps s i o t
  step-Keeps {s} (Step.load_write a e) v =
      (record { ring = v.ring; producer = (refl, tt); consumer = v.consumer }, append-nil _, refl)
  step-Keeps {s} (Step.refuse_push a w e full) v =
      (record { ring = v.ring; producer = tt; consumer = v.consumer }, append-nil _, refl)
  step-Keeps {s} (Step.pass_push a w e room) v =
      let (same, u) = subst (λ p. ProducerOk p s.ring) e v.producer in
      let less : held s.ring < s.ring.capacity = ground arith in
      (
        record { ring = v.ring; producer = (same, less, tt); consumer = v.consumer },
        append-nil _,
        refl,
      )
  step-Keeps {s} (Step.store_value a w e) v =
      let (same, less, u) = subst (λ p. ProducerOk p s.ring) e v.producer in
      subst
        (λ k. Keeps s [] [] (record s {
          ring = record s.ring { buffer = put (slot_of k s.ring) a s.ring.buffer };
          producer = Producer.stored a k;
        }))
        (sym same) (store-Keeps s a v less)
  step-Keeps {s} (Step.publish a w e) v =
      let (same, less, here) = subst (λ p. ProducerOk p s.ring) e v.producer in
      subst
        (λ k.
          Keeps s (a ∷ []) []
            (record s { ring = record s.ring { write_idx = add64 k 1 }; producer = Producer.idle }))
        (sym same)
        (publish-Keeps s a v less (subst (λ k. s.ring.buffer (slot_of k s.ring) ≡ a) same here))
  step-Keeps {s} (Step.load_read e) v =
      (record { ring = v.ring; producer = v.producer; consumer = (refl, tt) }, append-nil _, refl)
  step-Keeps {s} (Step.refuse_pop r e none_left) v =
      (record { ring = v.ring; producer = v.producer; consumer = tt }, append-nil _, refl)
  step-Keeps {s} (Step.pass_pop r e some_left) v =
      let (same, u) = subst (λ c. ConsumerOk c s.ring) e v.consumer in
      let something : 0 < held s.ring = ground (arith, v.ring.write_word, v.ring.read_word) in
      (
        record { ring = v.ring; producer = v.producer; consumer = (same, something, tt) },
        append-nil _,
        refl,
      )
  step-Keeps {s} (Step.take_value r e) v =
      let (same, something, u) = subst (λ c. ConsumerOk c s.ring) e v.consumer in
      (
        record { ring = v.ring; producer = v.producer; consumer = (same, something, refl) },
        append-nil _,
        refl,
      )
  step-Keeps {s} (Step.release a r e) v =
      let (same, something, here) = subst (λ c. ConsumerOk c s.ring) e v.consumer in
      subst
        (λ k.
          Keeps s [] (a ∷ [])
            (record s { ring = record s.ring { read_idx = add64 k 1 }; consumer = Consumer.idle }))
        (sym same)
        (release-Keeps s a v something
          (subst (λ k. s.ring.buffer (slot_of k s.ring) ≡ a) same here))

  start-IsRing :
      (default : A) (capacity : ℕ)
      → capacity ∣ u64_mod
      → 0 < capacity
      → capacity < u64_mod
      → IsRing (empty_ring default capacity)
  start-IsRing default capacity d low high = record {
    divides = d;
    some_room = low;
    below_mod = high;
    write_word = omega arith;
    read_word = omega arith;
    fits = omega arith;
  }

  reached :
      {default : A} {capacity : ℕ} {ins outs : List A} {s : System A}
      → capacity ∣ u64_mod
      → 0 < capacity
      → capacity < u64_mod
      → Reach default capacity ins outs s
      → Inv s × (ins ≡ outs ++ contents s.ring) × (s.ring.capacity ≡ capacity)
  reached {default} {capacity} d low high Reach.fresh = (
    record { ring = start-IsRing default capacity d low high; producer = tt; consumer = tt },
    refl,
    refl,
  )
  reached d low high (Reach.later {ins} {outs} {i} {o} {s} {t} r st) =
      let (v, all, same) = reached d low high r in
      let (v', moved, kept) = step-Keeps st v in
      (
        v',
        ap (λ xs. xs ++ i) all
            ∙ append_assoc outs (contents s.ring) i
            ∙ ap (λ xs. outs ++ xs) moved
            ∙ sym (append_assoc outs o (contents t.ring)),
        kept ∙ same,
      )

  -- Under any interleaving of the accesses of one producer and one consumer, for a capacity that divides
  -- 2 ^ 64 and is neither 0 nor 2 ^ 64, the values published are those taken followed by those that the
  -- queue holds, in order, and it never holds more than the capacity.
  pub threads_first_in_first_out :
      {default : A} {capacity : ℕ} {ins outs : List A} {s : System A}
      → capacity ∣ u64_mod
      → 0 < capacity
      → capacity < u64_mod
      → Reach default capacity ins outs s
      → (ins ≡ outs ++ contents s.ring) × (length (contents s.ring) ≤ capacity)
  threads_first_in_first_out {s = s} d low high r =
      let (v, all, same) = reached d low high r in
      (all, omega (arith, length-contents s.ring, v.ring.fits, same))

  -- Under the same conditions, whenever the producer is about to store a value and the consumer about to
  -- take one, they are at different slots.
  pub threads_never_share_a_slot :
      {default : A} {capacity : ℕ} {ins outs : List A} {s : System A} (a : A) (w k : ℕ)
      → capacity ∣ u64_mod
      → 0 < capacity
      → capacity < u64_mod
      → Reach default capacity ins outs s
      → s.producer ≡ Producer.free a w
      → s.consumer ≡ Consumer.ready k
      → slot_of k s.ring ≢ slot_of w s.ring
  threads_never_share_a_slot {s = s} a w k d low high r p c e =
      let (v, all, same) = reached d low high r in
      let (write, less, u) = subst (λ p. ProducerOk p s.ring) p v.producer in
      let (read, something, u') = subst (λ c. ConsumerOk c s.ring) c v.consumer in
      apart s.ring v.ring less something
        (ap (λ i. slot_of i s.ring) (sym read) ∙ e ∙ ap (λ i. slot_of i s.ring) write)
