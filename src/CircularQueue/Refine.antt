-- ===== src/CircularQueue/Refine.antt =====
-- A queue made with any sensible capacity behaves as a first-in first-out list with one place less.
use h2_server.Prelude.{
  ℕ, suc, ◌+◌, ◌-◌, ◌%◌, ◌^◌, ◌≤◌, ◌<◌, ◌≡◌, ◌≢◌, refl, subst, ap, ap₂, ◌∙◌, List, [], ◌∷◌, ◌++◌,
  map, arith, length, set, length-set, length-replicate, get_elem?-eq-get_or, length-map, ◌==◌,
}
use h2_server.Prelude.Bits.{bit_and_mask, pow_pos}
use native.Mathlib.Nat.{pow-le-pow_right}
use h2_server.CircularQueue.{
  CircularQueue, next, make, is_full, is_empty, front, push, pop, round_to_pow2,
}
use h2_server.CircularQueue.Capacity.{round_to_pow2_nearest}
use h2_server.CircularQueue.Count.{
  count, count-lt, tail_slot, count_push, count_full, count_not_full, count_pop, count_empty,
}
use h2_server.CircularQueue.Fifo.{
  Op, push as pushes, pop as pops, front as fronts, is_empty as asks_empty, is_full as asks_full,
  Reply, flag, item, none_left, answer, answers,
}
use h2_server.CircularQueue.Slots.{slots, length-slots, read, read-slots-set}

-- On a power of two the mask is a remainder.
pub next-mod : (k index : ℕ) → k ≤ 31 → index < 2 ^ k → next (2 ^ k) index ≡ (index + 1) % 2 ^ k
unfolding next
next-mod k index h lt =
    let small : 2 ^ k ≤ 2 ^ 31 = pow-le-pow_right (omega arith) h in
    let masked : (2 ^ k + 2 ^ 64 - 1) % 2 ^ 64 ≡ 2 ^ k - 1 = omega (arith, pow_pos k) in
    let word : (index + 1) % 2 ^ 32 ≡ index + 1 = omega arith in
    rw (masked, word) (bit_and_mask k (index + 1))

module _ {A : Type 0} where
  pub record IsValid (q : CircularQueue A) : Type 0 where
    pub exponent : ℕ
    pub small : exponent ≤ 31
    pub power : q.capacity ≡ 2 ^ exponent
    pub storage : length q.buffer ≡ q.capacity
    pub head_in : q.head < q.capacity
    pub tail_in : q.tail < q.capacity

  -- The elements held, oldest first.
  abbrev pub contents : A → CircularQueue A → List A
  contents blank q =
      map (read blank q.buffer) (slots q.capacity q.head (count q.capacity q.head q.tail))

  pub next-valid :
      {q : CircularQueue A}
      → IsValid q
      → (index : ℕ) → index < q.capacity
      → (next q.capacity index ≡ (index + 1) % q.capacity) × (q.capacity ≤ 2 ^ 31)
  next-valid {q} v index lt = rw v.power (
    next-mod v.exponent index v.small (subst (λ (c : ℕ). index < c) v.power lt),
    pow-le-pow_right (omega arith) v.small,
  )

  -- One call, with what the caller sees.
  unfoldable pub perform : CircularQueue A → Op A → CircularQueue A × Reply A
  perform q (pushes x) = let (q', b) = push q x in (q', flag b)
  perform q pops = let (q', b) = pop q in (q', flag b)
  perform q fronts = (q, item (front q))
  perform q asks_empty = (q, flag (is_empty q))
  perform q asks_full = (q, flag (is_full q))

  unfoldable pub run : CircularQueue A → List (Op A) → List (Reply A)
  run q [] = []
  run q (op ∷ ops) = let (q', reply) = perform q op in reply ∷ run q' ops

  pub push-IsValid : {q : CircularQueue A} (x : A) → IsValid q → IsValid (push q x).0
  unfolding push
  push-IsValid {q} x v = ground (arith, next-valid v q.tail v.tail_in, length-set q.buffer q.tail x)

  pub pop-IsValid : {q : CircularQueue A} → IsValid q → IsValid (pop q).0
  unfolding pop
  pop-IsValid {q} v = ground (arith, next-valid v q.head v.head_in)

  pub perform-IsValid : {q : CircularQueue A} (op : Op A) → IsValid q → IsValid (perform q op).0
  unfolding perform
  perform-IsValid (pushes x) v = push-IsValid x v
  perform-IsValid pops v = pop-IsValid v
  perform-IsValid fronts v = v
  perform-IsValid asks_empty v = v
  perform-IsValid asks_full v = v

  capacity-perform : (q : CircularQueue A) (op : Op A) → (perform q op).0.capacity ≡ q.capacity
  unfolding perform push pop
  capacity-perform q (pushes x) = ground arith
  capacity-perform q pops = ground arith
  capacity-perform q _ = refl

  module _ (blank : A) {q : CircularQueue A} (v : IsValid q) where
    pub length-contents : length (contents blank q) ≡ count q.capacity q.head q.tail
    length-contents =
        length-map (read blank q.buffer) (slots q.capacity q.head (count q.capacity q.head q.tail))
        ∙ length-slots q.capacity q.head (count q.capacity q.head q.tail)

    -- What the stored element and the advanced tail make of the contents.
    contents-write :
        (x : A)
        → (q.tail + 1) % q.capacity ≢ q.head
        → map
            (read blank (set q.buffer q.tail x))
            (slots q.capacity q.head (count q.capacity q.head ((q.tail + 1) % q.capacity)))
          ≡ contents blank q ++ x ∷ []
    contents-write x ne = rw (count_push q.capacity q.head q.tail v.head_in v.tail_in ne) (
        subst
          (λ t.
            map (read blank (set q.buffer t x))
              (slots q.capacity q.head (suc (count q.capacity q.head q.tail)))
            ≡ contents blank q ++ x ∷ [])
          (tail_slot q.capacity q.head q.tail v.head_in v.tail_in)
          (read-slots-set blank q.buffer q.capacity q.head (count q.capacity q.head q.tail) x
            (omega arith) v.head_in
            (omega (arith, count-lt q.capacity q.head q.tail v.head_in v.tail_in))))

    -- What the advanced head leaves.
    pub contents-advance :
        q.head ≢ q.tail
        → contents blank q
          ≡ read blank q.buffer q.head
            ∷ map (read blank q.buffer) (
                slots q.capacity
                  ((q.head + 1) % q.capacity)
                  (count q.capacity ((q.head + 1) % q.capacity) q.tail))
    contents-advance ne = rw (count_pop q.capacity q.head q.tail v.head_in v.tail_in ne)

    pub contents-empty : q.head ≡ q.tail → contents blank q ≡ []
    contents-empty e = rw (count_empty q.capacity q.head q.tail v.head_in v.tail_in e)

    pub advance-word :
        (index : ℕ) → index < q.capacity → next q.capacity index % 2 ^ 32 ≡ (index + 1) % q.capacity
    advance-word index lt = omega (arith, next-valid v index lt)

    pub push_refines :
        (x : A)
        → (contents blank (push q x).0, flag (push q x).1)
          ≡ answer (q.capacity - 1) (contents blank q) (pushes x)
    unfolding push
    push_refines x =
        rw (advance-word q.tail v.tail_in, length-contents)
          (ground (
            arith,
            contents-write x,
            count_full q.capacity q.head q.tail v.head_in v.tail_in,
            count_not_full q.capacity q.head q.tail v.head_in v.tail_in,
          ))

    pub pop_refines :
        (contents blank (pop q).0, flag (pop q).1) ≡ answer (q.capacity - 1) (contents blank q) pops
    unfolding pop
    pop_refines =
        rw (advance-word q.head v.head_in) (ground (arith, contents-advance, contents-empty))

    pub front_refines : item (front q) ≡ (answer (q.capacity - 1) (contents blank q) fronts).1
    unfolding front
    front_refines = ground (
      arith,
      contents-advance,
      contents-empty,
      get_elem?-eq-get_or q.buffer q.head blank (omega arith),
    )

    pub is_empty_refines : is_empty q ≡ none_left (contents blank q)
    unfolding is_empty
    is_empty_refines = ground (arith, contents-advance, contents-empty)

    is_full_refines : is_full q ≡ (length (contents blank q) == q.capacity - 1)
    unfolding is_full
    is_full_refines = rw length-contents (
        ground (
          arith,
          next-valid v q.tail v.tail_in,
          count_full q.capacity q.head q.tail v.head_in v.tail_in,
          count_not_full q.capacity q.head q.tail v.head_in v.tail_in,
        ))

    -- Every call of a valid queue changes its contents and answers as the bounded list does.
    pub perform_refines :
        (op : Op A)
        → (contents blank (perform q op).0, (perform q op).1)
          ≡ answer (q.capacity - 1) (contents blank q) op
    unfolding perform
    perform_refines (pushes x) = push_refines x
    perform_refines pops = pop_refines
    perform_refines fronts = ap (λ r. (contents blank q, r)) front_refines
    perform_refines asks_empty = ap (λ b. (contents blank q, flag b)) is_empty_refines
    perform_refines asks_full = ap (λ b. (contents blank q, flag b)) is_full_refines

  -- No sequence of calls tells a valid queue from the bounded list of its contents.
  pub run_refines :
      (blank : A) (ops : List (Op A)) {q : CircularQueue A}
      → IsValid q
      → run q ops ≡ answers (q.capacity - 1) (contents blank q) ops
  unfolding run
  run_refines blank [] v = refl
  run_refines blank (op ∷ ops) {q} v = rw (
    run_refines blank ops (perform-IsValid op v),
    ← perform_refines blank v op,
    capacity-perform q op,
  )

  pub make-IsValid :
      (blank : A) (size k : ℕ) → k ≤ 31 → round_to_pow2 size ≡ 2 ^ k → IsValid (make blank size)
  unfolding make
  make-IsValid blank size k small e = record {
    exponent = k;
    small = small;
    power = e;
    storage = length-replicate (round_to_pow2 size) blank;
    head_in = omega (arith, pow_pos k);
    tail_in = omega (arith, pow_pos k);
  }

  capacity-make : (blank : A) (size : ℕ) → (make blank size).capacity ≡ round_to_pow2 size
  unfolding make
  capacity-make blank size = refl

  pub make-empty :
      (blank : A) (size : ℕ) (v : IsValid (make blank size)) → contents blank (make blank size) ≡ []
  unfolding make
  make-empty blank size v = contents-empty blank v refl

  -- A queue made for a requested size from 1 to 2^31 answers every sequence of calls as an empty
  -- first-in first-out list does that holds one element less than the rounded size.
  pub run-make_refines :
      (blank : A) (size : ℕ) (ops : List (Op A))
      → 1 ≤ size
      → size ≤ 2 ^ 31
      → run (make blank size) ops ≡ answers (round_to_pow2 size - 1) [] ops
  run-make_refines blank size ops pos small =
      let (k, le, e, _) = round_to_pow2_nearest size pos small in
      let v = make-IsValid blank size k le e in
      run_refines blank ops v
      ∙ ap₂ (λ c xs. answers (c - 1) xs ops) (capacity-make blank size) (make-empty blank size v)
