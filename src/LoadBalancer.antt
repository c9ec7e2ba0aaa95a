-- ===== src/LoadBalancer.antt =====
-- `LoadBalancer` of src/server.h: a table that sends a socket to a worker by the socket's number,
-- and the round over the workers when that worker's queue is full. `none` is an access out of
-- range.
pub mod Round
pub mod Acquire
pub mod Accept
mod Tests
use h2_server.Prelude.{
  ℕ, zero, suc, ◌+◌, ◌-◌, ◌%◌, ◌^◌, ◌<◌, ◌≡◌, refl, ltb, arith, Bool, true, false, Option, none,
  some, List, [], ◌∷◌, length, get_elem?, replicate, set, ◌==◌, if◌then◌else◌,
}
use h2_server.CircularQueue.{CircularQueue}
use h2_server.CircularQueue as Queue

-- An `int`: an index, -1, or minus another number.
pub data Found : Type 0 where
  found : ℕ → Found
  all_full : Found
  negative : ℕ → Found

-- The conversion of an index to `int`.
unfoldable pub to_int : ℕ → Found
to_int index =
    let word = index % 2 ^ 32 in
    if ltb word (2 ^ 31)
    then found word
    else if word == 2 ^ 32 - 1
    then all_full
    else negative (2 ^ 32 - word)

pub to_int-found : (index : ℕ) → index < 2 ^ 31 → to_int index ≡ found index
unfolding to_int
to_int-found index small =
    let word : index % 2 ^ 32 ≡ index = omega arith in
    let positive : ltb index (2 ^ 31) ≡ true = ground arith in rw (word, positive) refl

fill_table : ℕ → ℕ → List ℕ → List ℕ
fill_table worker_num i [] = []
fill_table worker_num i (entry ∷ entries) =
    i % worker_num ∷ fill_table worker_num ((i + 1) % 2 ^ 32) entries

-- `none` is the division by zero; the table has entries.
unfoldable pub init_indirect_table : ℕ → List ℕ → Option (List ℕ)
unfolding fill_table
init_indirect_table worker_num indirect_table =
    if worker_num == 0 then none else some (fill_table worker_num 0 indirect_table)

-- The constructor.
unfoldable pub make : ℕ → ℕ → Option (List ℕ)
unfolding init_indirect_table
make worker_num table_size = init_indirect_table worker_num (replicate table_size 0)

unfoldable pub reset : ℕ → List ℕ → Option (List ℕ)
unfolding init_indirect_table
reset worker_num indirect_table = init_indirect_table worker_num indirect_table

module _ (workers : List (CircularQueue ℕ)) where
  unfoldable pub is_full : ℕ → Option Bool
  is_full index = elim (get_elem? workers index) [
    | none ↦ none
    | some queue ↦ some (Queue.is_full queue)
  ]

  -- The loop of `find_available_worker`; `none` is also the end of the fuel.
  unfoldable pub search_from : ℕ → ℕ → ℕ → Option Found
  unfolding is_full to_int
  search_from zero start index = none
  search_from (suc fuel) start index =
      let rest = search_from fuel start ((index + 1) % length workers) in
      if index == start then some all_full else elim (is_full index) [
        | none ↦ none
        | some true ↦ rest
        | some false ↦ some (to_int index)
      ]

  unfoldable pub find_available_worker : ℕ → Option Found
  unfolding search_from
  find_available_worker start =
      search_from (length workers) start ((start + 1) % 2 ^ 32 % length workers)

  -- The table after the call, and the index.
  unfoldable pub acquire_worker_index : List ℕ → ℕ → Option (List ℕ × Found)
  unfolding is_full find_available_worker to_int
  acquire_worker_index indirect_table key =
      let table_index = key % length indirect_table in
      elim (get_elem? indirect_table table_index) [
        | none ↦ none
        | some worker_index ↦ elim (is_full worker_index) [
          | none ↦ none
          | some false ↦ some (indirect_table, to_int worker_index)
          | some true ↦ elim (find_available_worker worker_index) [
            | none ↦ none
            | some all_full ↦ some (indirect_table, all_full)
            | some (found new_index) ↦
                some (set indirect_table table_index new_index, found new_index)
            | some (negative n) ↦ some (set indirect_table table_index (2 ^ 32 - n), negative n)
          ]
        ]
      ]
