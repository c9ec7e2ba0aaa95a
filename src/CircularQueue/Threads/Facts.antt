-- ===== src/CircularQueue/Threads/Facts.antt =====
-- What the locals of each thread say about the shared queue, and that a store of the other thread
-- does not disturb it.
use h2_server.Prelude.{
  ℕ, ◌+◌, ◌%◌, ◌≡◌, ◌≢◌, sym, subst, ap, ◌∙◌, [], ◌∷◌, ◌++◌, map, arith, set, length-set,
  get_or-set_ne,
}
use mathlib.Core.List.{map-append}
use h2_server.CircularQueue.{CircularQueue}
use h2_server.CircularQueue.Count.{count, count-lt, tail_slot, count_push, next_cases}
use h2_server.CircularQueue.Slots.{slots, slots_concat, slots_miss_tail, read, map-read-set}
use h2_server.CircularQueue.Refine.{IsValid, contents}
use h2_server.CircularQueue.Threads.{
  Producer, idle, loaded, writing, storing, Consumer, waiting, testing, asserting, asserting_tail,
  reading, popping, popping_tail, advancing, aborted, System,
}

module _ {A : Type 0} (blank : A) where
  abbrev pub ProducerKnows : CircularQueue A → Producer A → Type 0
  ProducerKnows q idle = Unit {0}
  ProducerKnows q (loaded t x) = t ≡ q.tail
  ProducerKnows q (writing t n x) = (t ≡ q.tail) × (n ≡ (q.tail + 1) % q.capacity) × (n ≢ q.head)
  ProducerKnows q (storing n x) =
      (n ≡ (q.tail + 1) % q.capacity) × (n ≢ q.head) × (read blank q.buffer q.tail ≡ x)

  abbrev pub ConsumerKnows : CircularQueue A → Consumer A → Type 0
  ConsumerKnows q waiting = Unit {0}
  ConsumerKnows q (testing h) = h ≡ q.head
  ConsumerKnows q asserting = q.head ≢ q.tail
  ConsumerKnows q (asserting_tail h) = (h ≡ q.head) × (q.head ≢ q.tail)
  ConsumerKnows q reading = q.head ≢ q.tail
  ConsumerKnows q (popping v) = (q.head ≢ q.tail) × (read blank q.buffer q.head ≡ v)
  ConsumerKnows q (popping_tail h v) =
      (h ≡ q.head) × (q.head ≢ q.tail) × (read blank q.buffer q.head ≡ v)
  ConsumerKnows q (advancing n v) =
      (n ≡ (q.head + 1) % q.capacity) × (q.head ≢ q.tail) × (read blank q.buffer q.head ≡ v)
  ConsumerKnows q aborted = ⊥

  pub record Inv (s : System A) : Type 0 where
    pub valid : IsValid s.queue
    pub ledger : s.sent ≡ s.received ++ contents blank s.queue
    pub producer_knows : ProducerKnows s.queue s.producer
    pub consumer_knows : ConsumerKnows s.queue s.consumer

  module _ {q : CircularQueue A} (v : IsValid q) where
    pub write-IsValid : (x : A) → IsValid (record q { buffer = set q.buffer q.tail x })
    write-IsValid x = record {
      exponent = v.exponent;
      small = v.small;
      power = v.power;
      storage = length-set q.buffer q.tail x ∙ v.storage;
      head_in = v.head_in;
      tail_in = v.tail_in;
    }

    pub tail-IsValid : (n : ℕ) → n ≡ (q.tail + 1) % q.capacity → IsValid (record q { tail = n })
    tail-IsValid n e = record {
      exponent = v.exponent;
      small = v.small;
      power = v.power;
      storage = v.storage;
      head_in = v.head_in;
      tail_in = omega (arith, v.tail_in);
    }

    pub head-IsValid : (n : ℕ) → n ≡ (q.head + 1) % q.capacity → IsValid (record q { head = n })
    head-IsValid n e = record {
      exponent = v.exponent;
      small = v.small;
      power = v.power;
      storage = v.storage;
      head_in = omega (arith, v.head_in);
      tail_in = v.tail_in;
    }

    -- A write to the free slot behind the tail is not seen.
    pub contents-hidden_write :
        (x : A) → contents blank (record q { buffer = set q.buffer q.tail x }) ≡ contents blank q
    contents-hidden_write x =
        subst
          (λ t.
            map (read blank (set q.buffer t x))
              (slots q.capacity q.head (count q.capacity q.head q.tail))
            ≡ contents blank q)
          (tail_slot q.capacity q.head q.tail v.head_in v.tail_in)
          (map-read-set blank q.buffer ((q.head + count q.capacity q.head q.tail) % q.capacity) x
            (slots q.capacity q.head (count q.capacity q.head q.tail))
            (slots_miss_tail q.capacity q.head (count q.capacity q.head q.tail) v.head_in
              (count-lt q.capacity q.head q.tail v.head_in v.tail_in)))

    -- The store of the tail publishes the element in that slot.
    pub contents-publish :
        (n : ℕ)
        → n ≡ (q.tail + 1) % q.capacity
        → n ≢ q.head
        → contents blank (record q { tail = n })
          ≡ contents blank q ++ read blank q.buffer q.tail ∷ []
    contents-publish n e ne =
        rw
          (
            e,
            count_push q.capacity q.head q.tail v.head_in v.tail_in (subst (λ k. k ≢ q.head) e ne),
          )
          (ap (map (read blank q.buffer))
              (slots_concat q.capacity q.head (count q.capacity q.head q.tail) v.head_in)
            ∙ map-append (read blank q.buffer)
                (slots q.capacity q.head (count q.capacity q.head q.tail))
                ((q.head + count q.capacity q.head q.tail) % q.capacity ∷ [])
            ∙ ap (λ t. contents blank q ++ read blank q.buffer t ∷ [])
                (tail_slot q.capacity q.head q.tail v.head_in v.tail_in))

    -- The indices of one thread stay apart from those of the other.
    next_ne : q.head ≢ q.tail → (q.tail + 1) % q.capacity ≢ (q.head + 1) % q.capacity
    next_ne ne = omega (
      arith,
      next_cases q.capacity q.tail v.tail_in,
      next_cases q.capacity q.head v.head_in,
      v.head_in,
      v.tail_in,
    )

    read-hidden_write :
        (x : A)
        → q.head ≢ q.tail
        → read blank (set q.buffer q.tail x) q.head ≡ read blank q.buffer q.head
    read-hidden_write x ne = get_or-set_ne q.buffer q.tail q.head x blank (λ e. ne (sym e))

    -- What the worker knows is not disturbed by the acceptor's two stores,
    pub consumer-hidden_write :
        (c : Consumer A) (x : A)
        → ConsumerKnows q c
        → ConsumerKnows (record q { buffer = set q.buffer q.tail x }) c
    consumer-hidden_write (popping w) x k = (k.0, read-hidden_write x k.0 ∙ k.1)
    consumer-hidden_write (popping_tail h w) x k = (k.0, k.1, read-hidden_write x k.1 ∙ k.2)
    consumer-hidden_write (advancing n w) x k = (k.0, k.1, read-hidden_write x k.1 ∙ k.2)
    consumer-hidden_write waiting x k = k
    consumer-hidden_write (testing h) x k = k
    consumer-hidden_write asserting x k = k
    consumer-hidden_write (asserting_tail h) x k = k
    consumer-hidden_write reading x k = k
    consumer-hidden_write aborted x k = k

    pub consumer-publish :
        (c : Consumer A) (n : ℕ)
        → n ≢ q.head
        → ConsumerKnows q c
        → ConsumerKnows (record q { tail = n }) c
    consumer-publish waiting n ne k = k
    consumer-publish (testing h) n ne k = k
    consumer-publish asserting n ne k = λ e. ne (sym e)
    consumer-publish (asserting_tail h) n ne k = (k.0, λ e. ne (sym e))
    consumer-publish reading n ne k = λ e. ne (sym e)
    consumer-publish (popping w) n ne k = ((λ e. ne (sym e)), k.1)
    consumer-publish (popping_tail h w) n ne k = (k.0, (λ e. ne (sym e)), k.2)
    consumer-publish (advancing m w) n ne k = (k.0, (λ e. ne (sym e)), k.2)
    consumer-publish aborted n ne k = k

    -- nor what the acceptor knows by the worker's one.
    pub producer-advance :
        (p : Producer A) (n : ℕ)
        → n ≡ (q.head + 1) % q.capacity
        → q.head ≢ q.tail
        → ProducerKnows q p
        → ProducerKnows (record q { head = n }) p
    producer-advance idle n e ne k = tt
    producer-advance (loaded t x) n e ne k = k
    producer-advance (writing t m x) n e ne k = (k.0, k.1, λ same. next_ne ne (sym k.1 ∙ same ∙ e))
    producer-advance (storing m x) n e ne k = (k.0, (λ same. next_ne ne (sym k.0 ∙ same ∙ e)), k.2)
