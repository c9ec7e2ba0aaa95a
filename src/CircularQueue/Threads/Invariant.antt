-- ===== src/CircularQueue/Threads/Invariant.antt =====
-- Every turn of either thread keeps what the locals say, and so does every schedule.
use h2_server.Prelude.{
  ℕ, ◌+◌, ◌%◌, ◌^◌, ◌≡◌, ◌≢◌, refl, sym, subst, ap, ap₂, ==_iff, Bool-cases, inl, inr, ◌==◌, ◌∙◌,
  List, [], ◌∷◌, ◌++◌, map, arith, get_or-set_self, append_assoc,
}
use h2_server.CircularQueue.{CircularQueue, next}
use h2_server.CircularQueue.Count.{count}
use h2_server.CircularQueue.Slots.{slots, read}
use h2_server.CircularQueue.Refine.{
  IsValid, contents, advance-word, contents-advance, contents-empty,
}
use h2_server.CircularQueue.Threads.{
  Producer, idle, loaded, writing, storing, Consumer, waiting, testing, asserting, asserting_tail,
  reading, popping, popping_tail, advancing, aborted, System, Turn, produce, consume, produce_step,
  consume_step, step, run, start,
}
use h2_server.CircularQueue.Threads.Facts.{
  ProducerKnows, ConsumerKnows, Inv, write-IsValid, tail-IsValid, head-IsValid,
  contents-hidden_write, contents-publish, consumer-hidden_write, consumer-publish,
  producer-advance,
}

module _ {A : Type 0} (blank : A) where
  loaded-Inv :
      (t : ℕ) (x : A) (s : System A)
      → Inv blank s
      → t ≡ s.queue.tail
      → Inv blank (produce_step blank x (loaded t x) s)
  unfolding produce_step
  loaded-Inv t x s inv e =
      let v = inv.valid in
      let n = next s.queue.capacity t % 2 ^ 32 in
      let en : n ≡ (s.queue.tail + 1) % s.queue.capacity =
        rw e (advance-word blank v s.queue.tail v.tail_in) in
      record {
        valid = v;
        ledger = inv.ledger;
        producer_knows = elim (Bool-cases (n == s.queue.head)) [
          | inl full ↦ rw full tt
          | inr free ↦ rw free (e, en, λ same. cc (free, (==_iff n s.queue.head).1 same))
        ];
        consumer_knows = inv.consumer_knows;
      }

  -- A turn of the acceptor keeps the invariant.
  produce-Inv :
      (item : A) (p : Producer A) (s : System A)
      → Inv blank s
      → ProducerKnows blank s.queue p
      → Inv blank (produce_step blank item p s)
  unfolding produce_step loaded-Inv
  produce-Inv item idle s inv k = record {
    valid = inv.valid;
    ledger = inv.ledger;
    producer_knows = refl;
    consumer_knows = inv.consumer_knows;
  }
  produce-Inv item (loaded t x) s inv k = loaded-Inv t x s inv k
  produce-Inv item (writing t n x) s inv (et, en, ne) = rw et (record {
    valid = write-IsValid blank inv.valid x;
    ledger = inv.ledger ∙ ap (◌++◌ s.received) (sym (contents-hidden_write blank inv.valid x));
    producer_knows = (
      en,
      ne,
      get_or-set_self s.queue.buffer s.queue.tail x blank
          (omega (arith, inv.valid.storage, inv.valid.tail_in)),
    );
    consumer_knows = consumer-hidden_write blank inv.valid s.consumer x inv.consumer_knows;
  })
  produce-Inv item (storing n x) s inv (en, ne, ex) = record {
    valid = tail-IsValid blank inv.valid n en;
    ledger =
        ap (λ l. l ++ x ∷ []) inv.ledger
        ∙ append_assoc s.received (contents blank s.queue) (x ∷ [])
        ∙ ap (λ l. s.received ++ l)
            (ap (λ y. contents blank s.queue ++ y ∷ []) (sym ex)
              ∙ sym (contents-publish blank inv.valid n en ne));
    producer_knows = tt;
    consumer_knows = consumer-publish blank inv.valid s.consumer n ne inv.consumer_knows;
  }

  -- The invariant does not speak of the consumer's position but through what it knows.
  move_consumer :
      (s : System A) (c : Consumer A)
      → Inv blank s
      → ConsumerKnows blank s.queue c
      → Inv blank (record s { consumer = c })
  move_consumer s c inv k = record {
    valid = inv.valid;
    ledger = inv.ledger;
    producer_knows = inv.producer_knows;
    consumer_knows = k;
  }

  -- A turn of the worker keeps the invariant.
  consume-Inv :
      (c : Consumer A) (s : System A)
      → Inv blank s
      → ConsumerKnows blank s.queue c
      → Inv blank (consume_step blank c s)
  unfolding consume_step
  consume-Inv waiting s inv k = move_consumer s (testing s.queue.head) inv refl
  consume-Inv (testing h) s inv k = elim (Bool-cases (h == s.queue.tail)) [
    | inl same ↦ rw same (move_consumer s waiting inv tt)
    | inr apart ↦
        rw apart
          (move_consumer s asserting inv (λ e. cc (apart, (==_iff h s.queue.tail).1 (k ∙ e))))
  ]
  consume-Inv asserting s inv k = move_consumer s (asserting_tail s.queue.head) inv (refl, k)
  consume-Inv (asserting_tail h) s inv k = elim (Bool-cases (h == s.queue.tail)) [
    | inl same ↦ absurd (k.1 (sym k.0 ∙ (==_iff h s.queue.tail).0 same))
    | inr apart ↦ rw apart (move_consumer s reading inv k.1)
  ]
  consume-Inv reading s inv k =
      move_consumer s (popping (read blank s.queue.buffer s.queue.head)) inv (k, refl)
  consume-Inv (popping w) s inv k =
      move_consumer s (popping_tail s.queue.head w) inv (refl, k.0, k.1)
  consume-Inv (popping_tail h w) s inv k = elim (Bool-cases (h == s.queue.tail)) [
    | inl same ↦ absurd (k.1 (sym k.0 ∙ (==_iff h s.queue.tail).0 same))
    | inr apart ↦ rw apart (
        move_consumer s (advancing (next s.queue.capacity h % 2 ^ 32) w) inv
          (rw k.0 (advance-word blank inv.valid s.queue.head inv.valid.head_in), k.1, k.2))
  ]
  consume-Inv (advancing n w) s inv (en, ne, ew) = record {
    valid = head-IsValid blank inv.valid n en;
    ledger =
        inv.ledger
        ∙ ap (◌++◌ s.received) (
            contents-advance blank inv.valid ne
            ∙ ap₂
                (λ y (h : ℕ).
                  y
                  ∷ map (read blank s.queue.buffer)
                      (slots s.queue.capacity h (count s.queue.capacity h s.queue.tail)))
                ew (sym en))
        ∙ sym (append_assoc s.received (w ∷ []) (contents blank (record (s.queue) { head = n })));
    producer_knows = producer-advance blank inv.valid s.producer n en ne inv.producer_knows;
    consumer_knows = tt;
  }
  consume-Inv aborted s inv k = elim k [ ]

  step-Inv : (turn : Turn A) (s : System A) → Inv blank s → Inv blank (step blank turn s)
  unfolding step
  step-Inv (produce item) s inv = produce-Inv item s.producer s inv inv.producer_knows
  step-Inv consume s inv = consume-Inv s.consumer s inv inv.consumer_knows

  run-Inv : (turns : List (Turn A)) (s : System A) → Inv blank s → Inv blank (run blank turns s)
  unfolding run
  run-Inv [] s inv = inv
  run-Inv (turn ∷ turns) s inv = run-Inv turns (step blank turn s) (step-Inv turn s inv)

  start-Inv : (q : CircularQueue A) → IsValid q → q.head ≡ q.tail → Inv blank (start blank q)
  start-Inv q v e = record {
    valid = v;
    ledger = sym (contents-empty blank v e);
    producer_knows = tt;
    consumer_knows = tt;
  }

  not_aborted : (s : System A) → Inv blank s → s.consumer ≢ aborted
  not_aborted s inv e = subst (ConsumerKnows blank s.queue) e inv.consumer_knows

  -- Under every interleaving of the two threads, started at a valid empty queue: what the worker
  -- has received, followed by what the ring holds, is what the acceptor has sent, in order. The
  -- assertion of `front` does not fail, and the ring stays valid.
  pub run_in_order :
      (q : CircularQueue A) (turns : List (Turn A))
      → IsValid q
      → q.head ≡ q.tail
      → let s = run blank turns (start blank q) in
        (s.sent ≡ s.received ++ contents blank s.queue) × (s.consumer ≢ aborted) × IsValid s.queue
  run_in_order q turns v e =
      let inv = run-Inv turns (start blank q) (start-Inv q v e) in
      (inv.ledger, not_aborted (run blank turns (start blank q)) inv, inv.valid)
