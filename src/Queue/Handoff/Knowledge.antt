-- ===== src/Queue/Handoff/Knowledge.antt =====
-- src/ConcurrentQueue.h: what one thread knows, over the steps of the other.
use mathlib.Core.Path.{subst}
use yardstick.Base.{
  ℕ, ◌≤◌, ◌≡◌, ◌≢◌, Option, none, some, List, [], ◌∷◌, ◌++◌, length, length-append, arith,
}
use yardstick.Queue.{Queue}
use yardstick.Queue.Handoff.{Producer, Consumer, System}
use yardstick.Queue.Handoff.Ties.{ProducerAt, ConsumerAt, Tied}

module _ {A : Type 0} where
  pub no_value : {v : A} → ◌≢◌ {A = Option A} none (some v)
  no_value e = cc

  -- What the consumer knows stays true when a value is put in behind the others.
  pub ConsumerAt-append :
      (q : Queue A) (d : ℕ) (held : List A) (value : A) (c : Consumer A) (sequence : ℕ → ℕ) (e : ℕ)
      → ConsumerAt q d held c
      → ConsumerAt (record q { sequence = sequence; enque = e }) d (held ++ (value ∷ [])) c
  ConsumerAt-append q d held value Consumer.idle sequence e k = k
  ConsumerAt-append q d held value Consumer.begun sequence e k = k
  ConsumerAt-append q d held value (Consumer.loaded target) sequence e k = k
  ConsumerAt-append q d held value (Consumer.compared target id) sequence e (k, t, f) =
      (k, t, λ z. omega (arith, length-append held (value ∷ []), f z))
  ConsumerAt-append q d held value (Consumer.claimed target) sequence e (k, t, f) =
      (k, t, omega (arith, length-append held (value ∷ [])))
  ConsumerAt-append q d [] value (Consumer.copied target v) sequence e (k, t, f) =
      absurd (no_value f)
  ConsumerAt-append q d (x ∷ held) value (Consumer.copied target v) sequence e k = k

  -- The counters and the buffer do not concern the consumer's knowledge but for its own counter.
  pub ConsumerAt-other :
      (q : Queue A) (d : ℕ) (held : List A) (c : Consumer A) (buffer : ℕ → A) (e : ℕ)
      → ConsumerAt q d held c
      → ConsumerAt (record q { buffer = buffer; enque = e }) d held c
  ConsumerAt-other q d held Consumer.idle buffer e k = k
  ConsumerAt-other q d held Consumer.begun buffer e k = k
  ConsumerAt-other q d held (Consumer.loaded target) buffer e k = k
  ConsumerAt-other q d held (Consumer.compared target id) buffer e k = k
  ConsumerAt-other q d held (Consumer.claimed target) buffer e k = k
  ConsumerAt-other q d held (Consumer.copied target v) buffer e k = k

  -- And the other way round.
  pub ProducerAt-other :
      (q : Queue A) (e n n' : ℕ) (p : Producer A) (taken : ℕ)
      → n' ≤ n
      → ProducerAt q e n p
      → ProducerAt (record q { deque = taken }) e n' p
  ProducerAt-other q e n n' Producer.idle taken le k = k
  ProducerAt-other q e n n' (Producer.begun v) taken le k = k
  ProducerAt-other q e n n' (Producer.loaded v target) taken le k = k
  ProducerAt-other q e n n' (Producer.compared v target id) taken le (k, t, f) =
      (k, t, λ z. omega (arith, f z))
  ProducerAt-other q e n n' (Producer.claimed v target) taken le (k, t, f) = (k, t, omega arith)
  ProducerAt-other q e n n' (Producer.written v target) taken le (k, t, f, b) =
      (k, t, omega arith, b)

  pub ProducerAt-sequence :
      (q : Queue A) (e n : ℕ) (p : Producer A) (sequence : ℕ → ℕ)
      → ProducerAt q e n p
      → ProducerAt (record q { sequence = sequence }) e n p
  ProducerAt-sequence q e n Producer.idle sequence k = k
  ProducerAt-sequence q e n (Producer.begun v) sequence k = k
  ProducerAt-sequence q e n (Producer.loaded v target) sequence k = k
  ProducerAt-sequence q e n (Producer.compared v target id) sequence k = k
  ProducerAt-sequence q e n (Producer.claimed v target) sequence k = k
  ProducerAt-sequence q e n (Producer.written v target) sequence k = k

  -- What a thread knows where it stands.
  pub producer_at :
      {s : System A} {p : Producer A} (o : Tied s)
      → s.producer ≡ p
      → ProducerAt s.queue o.e (length o.held) p
  producer_at {s} o at = subst (ProducerAt s.queue o.e (length o.held)) at o.producer

  pub consumer_at :
      {s : System A} {c : Consumer A} (o : Tied s)
      → s.consumer ≡ c
      → ConsumerAt s.queue o.d o.held c
  consumer_at {s} o at = subst (ConsumerAt s.queue o.d o.held) at o.consumer

  -- A step that changes nothing but where the thread stands.
  pub move_producer :
      {s : System A} (p : Producer A) (o : Tied s)
      → ProducerAt s.queue o.e (length o.held) p
      → Tied (record s { producer = p })
  move_producer p o k = record {
    held = o.held;
    e = o.e;
    d = o.d;
    whole = o.whole;
    holds = o.holds;
    producer = k;
    consumer = o.consumer;
  }

  pub move_consumer :
      {s : System A} (c : Consumer A) (o : Tied s)
      → ConsumerAt s.queue o.d o.held c
      → Tied (record s { consumer = c })
  move_consumer c o k = record {
    held = o.held;
    e = o.e;
    d = o.d;
    whole = o.whole;
    holds = o.holds;
    producer = o.producer;
    consumer = k;
  }
