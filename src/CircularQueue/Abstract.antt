-- ===== src/CircularQueue/Abstract.antt =====
-- The queues of one capacity, up to their contents, are the bounded lists.
use h2_server.Prelude.{
  ℕ, ◌+◌, ◌-◌, ◌^◌, ◌≤◌, ◌<◌, ◌≡◌, refl, sym, ap, ◌∙◌, Bool, true, false, List, [], ◌∷◌, ◌++◌,
  length, arith, replicate, length-replicate, append-nil, append_assoc, if◌then◌else◌, ◌==◌,
}
use h2_server.Prelude.Bits.{pow_pos}
use mathlib.Core.HLevel.{Σ_prop_path, prop→set}
use mathlib.Core.Quot
use mathlib.Core.Quot.{Quot, Quot-set}
use native.Mathlib.Bridge.{le_prop}
use h2_server.CircularQueue.{CircularQueue, push}
use h2_server.CircularQueue.Count.{count-lt}
use h2_server.CircularQueue.Fifo.{Reply, flag}
use h2_server.CircularQueue.Refine.{
  IsValid, contents, contents-empty, push-IsValid, push_refines, length-contents,
}

-- With room for one more, the pushed element stands at the end.
contents-push_room :
    (q : CircularQueue ℕ) (x : ℕ)
    → IsValid q
    → length (contents 0 q) + 1 < q.capacity
    → contents 0 (push q x).0 ≡ contents 0 q ++ x ∷ []
contents-push_room q x v room =
    by_length (length (contents 0 q) == q.capacity - 1) (ground arith) (push_refines 0 v x)
  where
    by_length :
        (b : Bool)
        → b ≡ false
        → ◌≡◌ {A = List ℕ × Reply ℕ}
            (contents 0 (push q x).0, flag (push q x).1)
            (if b then (contents 0 q, flag false) else (contents 0 q ++ x ∷ [], flag true))
        → contents 0 (push q x).0 ≡ contents 0 q ++ x ∷ []
    by_length true f e = absurd cc
    by_length false f e = ap (λ r. r.0) e

capacity-push : (q : CircularQueue ℕ) (x : ℕ) → (push q x).0.capacity ≡ q.capacity
unfolding push
capacity-push q x = ground arith

length-snoc : (xs : List ℕ) (x : ℕ) → length (xs ++ x ∷ []) ≡ length xs + 1
length-snoc [] x = refl
length-snoc (y ∷ ys) x = omega (arith, length-snoc ys x)

module _ (k : ℕ) where
  abbrev pub Ring : Type 0
  Ring = (q : CircularQueue ℕ) × IsValid q × (q.capacity ≡ 2 ^ k)

  abbrev pub items : Ring → List ℕ
  items r = contents 0 r.0

  abbrev pub SameItems : Ring → Ring → Type 0
  SameItems r s = items r ≡ items s

  -- The queues, up to what no caller sees.
  abbrev pub AbstractQueue : Type 0
  AbstractQueue = Quot SameItems

  -- The lists that fit.
  abbrev pub BoundedList : Type 0
  BoundedList = (xs : List ℕ) × (length xs < 2 ^ k)

  short_prop : (xs : List ℕ) → IsProp (length xs < 2 ^ k)
  short_prop xs = le_prop

  pub BoundedList-set : IsSet BoundedList
  BoundedList-set = hlevel (λ (xs : List ℕ). prop→set (short_prop xs))

  -- Pushing all of a list, where it fits.
  filled :
      (xs : List ℕ) (r : Ring)
      → length (items r) + length xs < 2 ^ k
      → (r' : Ring) × (items r' ≡ items r ++ xs)
  filled [] r fits = (r, sym (append-nil (items r)))
  filled (x ∷ xs) (q, v, c) fits =
      let pushed = contents-push_room q x v (omega (arith, c)) in
      let r1 : Ring = ((push q x).0, push-IsValid x v, capacity-push q x ∙ c) in
      let (r2, e) = filled xs r1 (omega (arith, ap length pushed, length-snoc (contents 0 q) x)) in
      (r2, e ∙ ap (λ l. l ++ xs) pushed ∙ append_assoc (contents 0 q) (x ∷ []) xs)

  pub fits : (r : Ring) → length (items r) < 2 ^ k
  fits (q, v, c) =
      omega (arith, c, length-contents 0 v, count-lt q.capacity q.head q.tail v.head_in v.tail_in)

  unfoldable pub view : AbstractQueue → BoundedList
  view = Quot.lift BoundedList-set (λ r. (items r, fits r)) (λ r s e. Σ_prop_path (λ xs. le_prop) e)

  module _ (small : k ≤ 31) where
    empty_queue : CircularQueue ℕ
    empty_queue = record { buffer = replicate (2 ^ k) 0; capacity = 2 ^ k; head = 0; tail = 0 }

    empty_queue-IsValid : IsValid empty_queue
    unfolding empty_queue
    empty_queue-IsValid = record {
      exponent = k;
      small = small;
      power = refl;
      storage = length-replicate (2 ^ k) 0;
      head_in = pow_pos k;
      tail_in = pow_pos k;
    }

    pub empty_ring : Ring
    unfolding empty_queue
    empty_ring = (empty_queue, empty_queue-IsValid, refl)

    no_items : items empty_ring ≡ []
    unfolding empty_queue empty_ring
    no_items = contents-empty 0 empty_queue-IsValid refl

    -- A queue into which the list has been pushed.
    pub holding : (b : BoundedList) → (r : Ring) × (items r ≡ b.0)
    holding (xs, short) =
        let (r, e) = filled xs empty_ring (omega (arith, ap length no_items)) in
        (r, e ∙ ap (λ l. l ++ xs) no_items)

    unfoldable pub queue_of : BoundedList → AbstractQueue
    queue_of b = Quot.mk (holding b).0

    -- Up to their contents, the valid queues of capacity 2^k, for k up to 31, are the lists of less than
    -- 2^k elements: reading the contents off a queue and pushing the elements of a list into an empty
    -- queue are inverse to each other.
    pub view-queue_of :
        ((a : AbstractQueue) → queue_of (view a) ≡ a) × ((b : BoundedList) → view (queue_of b) ≡ b)
    unfolding view queue_of
    view-queue_of = (
      Quot.ind (λ a. Quot-set _ _) (λ r. Quot.sound (holding (items r, fits r)).1),
      λ b. Σ_prop_path (λ xs. le_prop) (holding b).1,
    )
