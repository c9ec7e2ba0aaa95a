-- ===== src/LoadBalancer/Round.antt =====
-- The loop of `find_available_worker` visits each other worker once.
use h2_server.Prelude.{
  ◌∙◌, ap, ℕ, zero, suc, ◌+◌, ◌-◌, ◌%◌, ◌^◌, ◌<◌, ◌≡◌, ◌≢◌, inl, inr, refl, Bool, true, false,
  Option, none, some, List, [], ◌∷◌, length, leb, ◌==◌, if◌then◌else◌, arith, ℕ_discrete,
  Bool-cases,
}
use h2_server.CircularQueue.{CircularQueue}
use h2_server.CircularQueue.Count.{next_cases}
use h2_server.CircularQueue as Queue
use h2_server.LoadBalancer.{
  Found, found, all_full, negative, to_int-found, is_full, search_from, find_available_worker,
}

-- How many workers the round still visits before it is back at `start`.
abbrev pub ahead : ℕ → ℕ → ℕ → ℕ
ahead size start index = if leb index start then start - index else size - index + start

pub is_full_defined :
    (workers : List (CircularQueue ℕ)) (index : ℕ)
    → index < length workers
    → (b : Bool) × (is_full workers index ≡ some b)
unfolding is_full
is_full_defined [] index h = elim h [ ]
is_full_defined (q ∷ workers) zero h = (Queue.is_full q, refl)
is_full_defined (q ∷ workers) (suc index) h = is_full_defined workers index (omega arith)

module _ (workers : List (CircularQueue ℕ)) (start : ℕ) where
  -- The worker found is the first of the round that has room; no worker is found when only the
  -- worker at `start` may have room.
  abbrev pub Nearest : Option Found → Type 0
  Nearest none = ⊥
  Nearest (some all_full) = (j : ℕ) → j < length workers → j ≢ start → is_full workers j ≡ some true
  Nearest (some (negative n)) = ⊥
  Nearest (some (found i)) =
      (i < length workers)
      × (i ≢ start)
      × (is_full workers i ≡ some false)
      × ((j : ℕ)
          → j < length workers
          → ahead (length workers) start i < ahead (length workers) start j
          → is_full workers j ≡ some true)

  Passed : ℕ → Type 0
  Passed index =
      (j : ℕ)
      → j < length workers
      → ahead (length workers) start index < ahead (length workers) start j
      → is_full workers j ≡ some true

  module _ (start_in : start < length workers) (few : length workers < 2 ^ 31) where
    ahead-advance :
        (index : ℕ)
        → index < length workers
        → index ≢ start
        → ahead (length workers) start index
          ≡ suc (ahead (length workers) start ((index + 1) % length workers))
    ahead-advance index lt ne = ground (arith, next_cases (length workers) index lt)

    pass :
        (index : ℕ)
        → index < length workers
        → index ≢ start
        → is_full workers index ≡ some true
        → Passed index
        → Passed ((index + 1) % length workers)
    unfolding Passed
    pass index lt ne full passed j j_in less =
        let e = ahead-advance index lt ne in
        elim (ℕ_discrete j index) [
          | yes same_place ↦ rw same_place full
          | no other ↦ passed j j_in (ground (arith, e))
        ]

    search_from-Nearest :
        (fuel index : ℕ)
        → index < length workers
        → ahead (length workers) start index < fuel
        → Passed index
        → Nearest (search_from workers fuel start index)
    unfolding search_from Passed
    search_from-Nearest zero index lt enough passed = absurd (omega arith)
    search_from-Nearest (suc fuel) index lt enough passed = elim (ℕ_discrete index start) [
      | yes arrived ↦
          let e : (index == start) ≡ true = ground arith in
          rw e (λ j j_in ne. passed j j_in (ground arith))
      | no away ↦
          let e : (index == start) ≡ false = ground arith in
          let (b, defined) = is_full_defined workers index lt in
          elim (Bool-cases b) [
            | inl full ↦
                rw (e, defined, full)
                  (search_from-Nearest fuel ((index + 1) % length workers) (omega arith)
                    (omega (arith, ahead-advance index lt away))
                    (pass index lt away (defined ∙ ap some full) passed))
            | inr room ↦
                rw (e, defined, room, to_int-found index (omega arith))
                  (lt, away, defined ∙ ap some room, passed)
          ]
    ]

  -- From a worker in range, with fewer than 2 ^ 31 workers, `find_available_worker` ends, and it
  -- returns the first worker of the round after `start` whose queue has room, or -1 only when every
  -- worker but `start` is full.
  pub find_available_worker-Nearest :
      start < length workers
      → length workers < 2 ^ 31
      → Nearest (find_available_worker workers start)
  unfolding find_available_worker Passed
  find_available_worker-Nearest start_in few =
      let word : (start + 1) % 2 ^ 32 ≡ start + 1 = omega arith in
      rw word (
        search_from-Nearest start_in few (length workers) ((start + 1) % length workers)
          (omega arith) (ground (arith, next_cases (length workers) start start_in))
          (λ j j_in less. absurd (ground (arith, next_cases (length workers) start start_in))))
