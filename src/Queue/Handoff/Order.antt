-- ===== src/Queue/Handoff/Order.antt =====
-- src/ConcurrentQueue.h: what comes out is what went in, in order.
use Prim.Native.Nat.{bit_and}
use yardstick.Base.{
  update, update_self, ℕ, suc, ◌+◌, ◌≤◌, ◌≡◌, refl, sym, ap, ◌∙◌, some, List, [], ◌∷◌, ◌++◌,
  append_assoc, length, length-append, get_elem?, arith,
}
use yardstick.Base.Words.{u32}
use yardstick.Queue.{buffer_size, buffer_mask, empty_queue}
use yardstick.Queue.Ring.{Holds, empty_queue-Holds, deque_some, got, got-Holds}
use yardstick.Queue.Handoff.{
  Producer, Consumer, System, EnqueStep, DequeStep, Reach, start, enque, deque,
}
use yardstick.Queue.Handoff.Knowledge.{
  no_value, ConsumerAt-append, ConsumerAt-other, ProducerAt-other, ProducerAt-sequence, producer_at,
  consumer_at, move_producer, move_consumer,
}
use yardstick.Queue.Handoff.Ties.{
  settled, ProducerAt, Tied, room_if_free, some_if_full, Holds-scratch, Holds-publish,
}

module _ {A : Type 0} where
  enque-Tied : {s t : System A} → Tied s → EnqueStep s t → Tied t
  enque-Tied o (EnqueStep.begin value at) =
      move_producer (Producer.begun value) o (producer_at o at)
  enque-Tied o (EnqueStep.load_enque {value} at) =
      let k = producer_at o at in move_producer (Producer.loaded value _) o (k, k)
  enque-Tied {s} o (EnqueStep.load_sequence {value} {target} at) =
      let (k, same) = producer_at o at in
      move_producer (Producer.compared value target _) o (
        k,
        same,
        λ z. room_if_free s.queue o.e o.d (length s.received) o.held o.holds (rw (← same) z),
      )
  enque-Tied {s} o (EnqueStep.claim {value} {target} at zero_delta current) =
      let (k, same, room) = producer_at o at in
      record {
        held = o.held;
        e = o.e;
        d = o.d;
        whole = o.whole;
        holds = o.holds;
        producer = (ap (λ n. u32 (n + 1)) same, same, room zero_delta);
        consumer =
            ConsumerAt-other s.queue o.d o.held s.consumer s.queue.buffer (u32 (target + 1))
              o.consumer;
      }
  enque-Tied o (EnqueStep.refuse at negative) = move_producer Producer.idle o (producer_at o at).0
  enque-Tied o (EnqueStep.again {value} at positive) =
      move_producer (Producer.begun value) o (producer_at o at).0
  enque-Tied {s} o (EnqueStep.write {value} {target} at) =
      let (k, same, room) = producer_at o at in
      record {
        held = o.held;
        e = o.e;
        d = o.d;
        whole = o.whole;
        holds =
            rw same (
              Holds-scratch (settled s.queue o.e o.d) (length s.received) o.held value room
                o.holds);
        producer = (k, same, room, update_self s.queue.buffer (bit_and target buffer_mask) value);
        consumer =
            ConsumerAt-other s.queue o.d o.held s.consumer
              (update s.queue.buffer (bit_and target buffer_mask) value) s.queue.enque o.consumer;
      }
  enque-Tied {s} o (EnqueStep.publish {value} {target} at) =
      let (k, same, room, there) = producer_at o at in
      record {
        held = o.held ++ (value ∷ []);
        e = u32 (o.e + 1);
        d = o.d;
        whole = ap (λ l. l ++ (value ∷ [])) o.whole ∙ append_assoc s.received o.held (value ∷ []);
        holds = rw same (
            Holds-publish s.queue o.e o.d (length s.received) o.held value room (rw (← same) there)
              o.holds);
        producer = k;
        consumer =
            ConsumerAt-append s.queue o.d o.held value s.consumer
              (update s.queue.sequence (bit_and target buffer_mask) (u32 (target + 1)))
              s.queue.enque o.consumer;
      }

  -- The number's store gives the slot back, and the value has come out.
  release-Tied :
      (s : System A) (target e d : ℕ) (value : A) (held : List A)
      → target ≡ d
      → s.queue.deque ≡ u32 (d + 1)
      → get_elem? held 0 ≡ some value
      → s.pushed ≡ s.received ++ held
      → Holds (settled s.queue e d) (length s.received) held
      → ProducerAt s.queue e (length held) s.producer
      → Tied (record s {
        consumer = Consumer.idle;
        queue = record s.queue {
          sequence =
              update s.queue.sequence (bit_and target buffer_mask) (u32 (target + buffer_mask + 1));
        };
        received = s.received ++ (value ∷ []);
      })
  unfolding got
  release-Tied s target e d value [] same k first whole h p = absurd (no_value first)
  release-Tied s target e d value (x ∷ rest) same k first whole h p =
      let one : x ≡ value = cc in
      let grown : length (s.received ++ (value ∷ [])) ≡ length s.received + 1 =
        length-append s.received (value ∷ []) in
      record {
        held = rest;
        e = e;
        d = u32 (d + 1);
        whole =
            whole
            ∙ ap (λ v. s.received ++ (v ∷ rest)) one
            ∙ sym (append_assoc s.received (value ∷ []) rest);
        holds = rw (same, grown) (got-Holds (settled s.queue e d) (length s.received) x rest h);
        producer =
            ProducerAt-sequence s.queue e (length rest) s.producer
              (update s.queue.sequence (bit_and target buffer_mask)
                (u32 (target + buffer_mask + 1)))
              (ProducerAt-other s.queue e (suc (length rest)) (length rest) s.producer s.queue.deque
                (omega arith) p);
        consumer = k;
      }

  deque-Tied : {s t : System A} → Tied s → DequeStep s t → Tied t
  deque-Tied o (DequeStep.begin at) = move_consumer Consumer.begun o (consumer_at o at)
  deque-Tied o (DequeStep.load_deque at) =
      let k = consumer_at o at in move_consumer (Consumer.loaded _) o (k, k)
  deque-Tied {s} o (DequeStep.load_sequence {target} at) =
      let (k, same) = consumer_at o at in
      move_consumer (Consumer.compared target _) o (
        k,
        same,
        λ z. some_if_full s.queue o.e o.d (length s.received) o.held o.holds (rw (← same) z),
      )
  deque-Tied {s} o (DequeStep.claim {target} at zero_delta current) =
      let (k, same, nonempty) = consumer_at o at in
      record {
        held = o.held;
        e = o.e;
        d = o.d;
        whole = o.whole;
        holds = o.holds;
        producer =
            ProducerAt-other s.queue o.e (length o.held) (length o.held) s.producer
              (u32 (target + 1)) (omega arith) o.producer;
        consumer = (ap (λ n. u32 (n + 1)) same, same, nonempty zero_delta);
      }
  deque-Tied o (DequeStep.refuse at negative) = move_consumer Consumer.idle o (consumer_at o at).0
  deque-Tied o (DequeStep.again at positive) = move_consumer Consumer.begun o (consumer_at o at).0
  deque-Tied {s} o (DequeStep.copy {target} at) =
      let (k, same, nonempty) = consumer_at o at in
      move_consumer (Consumer.copied target _) o (
        k,
        same,
        (deque_some (settled s.queue o.e o.d) (length s.received) o.held o.holds nonempty).1
            ∙ ap (λ n. some (s.queue.buffer (bit_and n buffer_mask))) (sym same),
      )
  deque-Tied {s} o (DequeStep.release {target} {value} at) =
      let (k, same, first) = consumer_at o at in
      release-Tied s target o.e o.d value o.held same k first o.whole o.holds o.producer

  Reach-Tied : {memory : ℕ → A} {s : System A} → Reach memory s → Tied s
  unfolding empty_queue
  Reach-Tied {memory} start = record {
    held = [];
    e = 0;
    d = 0;
    whole = refl;
    holds = empty_queue-Holds memory;
    producer = refl;
    consumer = refl;
  }
  Reach-Tied (enque r step) = enque-Tied (Reach-Tied r) step
  Reach-Tied (deque r step) = deque-Tied (Reach-Tied r) step

  -- However the accesses of one thread in TryEnque and one in TryDeque interleave, from a new queue
  -- on, the values that have come out are the oldest of those that have gone in, each once and in
  -- order, and at most 512 are in between; this holds at any position of the 32-bit counters and
  -- however often the exchanges fail.
  pub received-prefix :
      {memory : ℕ → A} {s : System A}
      → Reach memory s
      → (held : List A) × (s.pushed ≡ s.received ++ held) × (length held ≤ buffer_size)
  received-prefix r = let o = Reach-Tied r in (o.held, o.whole, o.holds.bounded)
