-- ===== src/LoadBalancer/Acquire.antt =====
-- `acquire_worker_index` and `reset`: the table names workers only, and the choice of a worker.
use h2_server.Prelude.{
  ◌-◌, ◌∙◌, ap, ℕ, zero, suc, ◌+◌, ◌%◌, ◌^◌, ◌<◌, ◌≤◌, ◌≡◌, ◌≢◌, ◌⊎◌, inl, inr, refl, true, false,
  Option, none, some, List, [], ◌∷◌, length, get_elem?, set, ◌==◌, arith, ℕ_discrete, Bool-cases,
  All, All-set, All-get_or, get_or, get_elem?-eq-get_or, length-set,
}
use h2_server.CircularQueue.{CircularQueue}
use h2_server.LoadBalancer.{
  Found, found, all_full, negative, to_int-found, is_full, find_available_worker,
  acquire_worker_index, fill_table, init_indirect_table, reset,
}
use h2_server.LoadBalancer.Round.{is_full_defined, Nearest, find_available_worker-Nearest}

fill_table-entry :
    (n i : ℕ) (entries : List ℕ) (k : ℕ)
    → i + length entries ≤ 2 ^ 32
    → k < length entries
    → get_elem? (fill_table n i entries) k ≡ some ((i + k) % n)
unfolding fill_table
fill_table-entry n i [] k fits lt = elim lt [ ]
fill_table-entry n i (e ∷ es) zero fits lt = let z : i + 0 ≡ i = omega arith in rw z refl
fill_table-entry n i (e ∷ es) (suc k) fits lt =
    let word : (i + 1) % 2 ^ 32 ≡ i + 1 = omega arith in
    let sum : i + 1 + k ≡ i + suc k = omega arith in
    rw word (
      fill_table-entry n (i + 1) es k (omega arith) (omega arith)
      ∙ ap (λ (m : ℕ). some (m % n)) sum)

length-fill_table : (n i : ℕ) (entries : List ℕ) → length (fill_table n i entries) ≡ length entries
unfolding fill_table
length-fill_table n i [] = refl
length-fill_table n i (e ∷ es) = ap suc (length-fill_table n ((i + 1) % 2 ^ 32) es)

fill_table-All : (n i : ℕ) (entries : List ℕ) → n ≢ 0 → All (λ w. w < n) (fill_table n i entries)
unfolding fill_table
fill_table-All n i [] ne = tt
fill_table-All n i (e ∷ es) ne = (omega arith, fill_table-All n ((i + 1) % 2 ^ 32) es ne)

-- `reset` with at least one worker, on a table of at most 2 ^ 32 entries, deals the entries out to
-- the workers in turn, and every entry is the index of a worker.
pub reset-round_robin :
    (n : ℕ) (table : List ℕ)
    → n ≢ 0
    → length table ≤ 2 ^ 32
    → (t : List ℕ) × (reset n table ≡ some t)
      × (length t ≡ length table)
      × All (λ w. w < n) t
      × ((k : ℕ) → k < length table → get_elem? t k ≡ some (k % n))
unfolding reset init_indirect_table
reset-round_robin n table ne fits =
    let e : (n == 0) ≡ false = ground arith in
    rw e (
      fill_table n 0 table,
      refl,
      length-fill_table n 0 table,
      fill_table-All n 0 table ne,
      λ k lt.
          fill_table-entry n 0 table k (omega arith) lt
          ∙ ap (λ (m : ℕ). some (m % n)) (omega arith),
    )

module _ (workers : List (CircularQueue ℕ)) (table : List ℕ) (key : ℕ) where
  -- The two outcomes of a call: -1, the table as it was and every worker full; or a worker with
  -- room, now in the key's slot, which is the worker that was there when that one has room, and no
  -- slot names a worker that does not exist.
  abbrev pub Acquired : Option (List ℕ × Found) → Type 0
  Acquired none = ⊥
  Acquired (some (t, all_full)) =
      (t ≡ table) × ((j : ℕ) → j < length workers → is_full workers j ≡ some true)
  Acquired (some (t, negative n)) = ⊥
  Acquired (some (t, found w)) =
      (w < length workers)
      × (is_full workers w ≡ some false)
      × ((t ≡ table) × (get_elem? table (key % length table) ≡ some w)
          ⊎ ((t ≡ set table (key % length table) w)
              × ((v : ℕ)
                  → get_elem? table (key % length table) ≡ some v
                  → is_full workers v ≡ some true)))
      × All (λ v. v < length workers) t
      × (length t ≡ length table)

  pub acquire_worker_index-Acquired :
      length table ≢ 0
      → length workers < 2 ^ 31
      → All (λ v. v < length workers) table
      → Acquired (acquire_worker_index workers table key)
  unfolding acquire_worker_index
  acquire_worker_index-Acquired ne few valid =
      let slot_in : key % length table < length table = omega arith in
      let w = get_or table (key % length table) 0 in
      let slot : get_elem? table (key % length table) ≡ some w =
        get_elem?-eq-get_or table (key % length table) 0 slot_in in
      let w_in : w < length workers =
        All-get_or (λ v. v < length workers) table (key % length table) 0 valid slot_in in
      let (b, defined) = is_full_defined workers w w_in in
      elim (Bool-cases b) [
        | inr room ↦
            rw (slot, defined, room, to_int-found w (omega arith), acquire_worker_index)
              (w_in, defined ∙ ap some room, inl (refl, slot), valid, refl)
        | inl full ↦
            rw (slot, defined, full, acquire_worker_index)
              (around w w_in (find_available_worker workers w) slot (defined ∙ ap some full)
                (find_available_worker-Nearest workers w w_in few))
      ]
    where
      around :
          (w : ℕ)
          → w < length workers
          → (o : Option Found) → get_elem? table (key % length table) ≡ some w
          → is_full workers w ≡ some true
          → Nearest workers w o
          → Acquired (elim o [
            | none ↦ none
            | some all_full ↦ some (table, all_full)
            | some (found new_index) ↦
                some (set table (key % length table) new_index, found new_index)
            | some (negative n) ↦ some (set table (key % length table) (2 ^ 32 - n), negative n)
          ])
      around w w_in none slot full near = elim near [ ]
      around w w_in (some (negative n)) slot full near = elim near [ ]
      around w w_in (some all_full) slot full near =
          (refl, λ j j_in. elim (ℕ_discrete j w) [ yes e ↦ rw e full | no ne ↦ near j j_in ne ])
      around w w_in (some (found i)) slot full near = (
        near.0,
        near.2,
        inr (refl, λ v e. let same_place : v ≡ w = cc in rw same_place full),
        All-set (λ v. v < length workers) table (key % length table) i valid near.0,
        length-set table (key % length table) i,
      )
