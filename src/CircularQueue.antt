-- ===== src/CircularQueue.antt =====
-- src/circular_queue.h: the ring of client sockets between the acceptor and a worker. An operation
-- that changes the queue returns the new queue; here each runs alone, and `Threads` interleaves
-- `push` with the consumer. `uint32_t` and `size_t` wrap as written out.
pub mod Capacity
pub mod Slots
pub mod Count
pub mod Fifo
pub mod Refine
pub mod Abstract
pub mod Threads
mod Tests
use h2_server.Prelude.{
  ℕ, zero, suc, ◌+◌, ◌-◌, ◌*◌, ◌/◌, ◌%◌, ◌^◌, bit_and, bit_or, Bool, true, false, Option, none,
  List, [], if◌then◌else◌, leb, ltb, ◌==◌, set, replicate, get_elem?,
}

pub record CircularQueue {ℓ} (A : Type ℓ) : Type ℓ where
  pub buffer : List A
  pub capacity : ℕ
  pub head : ℕ
  pub tail : ℕ

-- `(index + 1) & (capacity - 1)`
unfoldable pub next : ℕ → ℕ → ℕ
next capacity index = bit_and ((index + 1) % 2 ^ 32) ((capacity + 2 ^ 64 - 1) % 2 ^ 64)

-- The loop of `round_to_pow2` that copies the highest set bit downwards.
pub fill_from : ℕ → ℕ → ℕ → ℕ
fill_from zero shift value = value
fill_from (suc fuel) shift value = elim (ltb shift 32) [
  | true ↦ fill_from fuel (shift * 2 % 2 ^ 32) (bit_or value (value / 2 ^ shift))
  | false ↦ value
]

-- The shift takes the values 1, 2, 4, 8 and 16, so the loop ends in its sixth test.
unfoldable pub round_to_pow2 : ℕ → ℕ
unfolding fill_from
round_to_pow2 size =
    let value = fill_from 6 1 ((size + 2 ^ 64 - 1) % 2 ^ 64 % 2 ^ 32) in
    let upper = (value + 1) % 2 ^ 32 in
    let lower = upper / 2 in
    if leb ((size + 2 ^ 64 - lower) % 2 ^ 64) ((upper + 2 ^ 64 - size) % 2 ^ 64)
    then lower
    else upper

module _ {ℓ} {A : Type ℓ} where
  -- The constructor; `blank` is the value-initialised element that `resize` fills in.
  unfoldable pub make : A → ℕ → CircularQueue A
  make blank capacity = record {
    buffer = replicate (round_to_pow2 capacity) blank;
    capacity = round_to_pow2 capacity;
    head = 0;
    tail = 0;
  }

  -- The move constructor: the new queue, and what is left of the old one.
  unfoldable pub move_from : CircularQueue A → CircularQueue A × CircularQueue A
  move_from other = (other, record other { buffer = []; head = 0; tail = 0 })

  unfoldable pub swap : CircularQueue A → CircularQueue A → CircularQueue A × CircularQueue A
  swap this other = (
    record this {
      buffer = other.buffer;
      capacity = other.capacity;
      head = other.head;
      tail = other.tail;
    },
    record other {
      buffer = this.buffer;
      capacity = this.capacity;
      head = this.head;
      tail = this.tail;
    },
  )

  unfoldable pub is_full : CircularQueue A → Bool
  is_full q = next q.capacity q.tail == q.head

  unfoldable pub is_empty : CircularQueue A → Bool
  is_empty q = q.head == q.tail

  -- `none` is the failed assertion, or a read outside the buffer.
  unfoldable pub front : CircularQueue A → Option A
  unfolding is_empty
  front q = if is_empty q then none else get_elem? q.buffer q.head

  unfoldable pub push : CircularQueue A → A → CircularQueue A × Bool
  push q item =
      let next_t = next q.capacity q.tail % 2 ^ 32 in
      if next_t == q.head
      then (q, false)
      else (record q { buffer = set q.buffer q.tail item; tail = next_t }, true)

  unfoldable pub pop : CircularQueue A → CircularQueue A × Bool
  pop q =
      if q.head == q.tail
      then (q, false)
      else (record q { head = next q.capacity q.head % 2 ^ 32 }, true)
