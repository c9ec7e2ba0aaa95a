-- ===== src/CircularQueue/Count.antt =====
-- The number of elements between the two indices of a ring of `room` slots.
use h2_server.Prelude.{ℕ, suc, ◌+◌, ◌-◌, ◌%◌, ◌≤◌, ◌<◌, ◌≡◌, ◌≢◌, ◌⊎◌, inl, inr, dec_lt, arith}
use native.Mathlib.Nat.{mod-eq_of_lt}

abbrev pub count : ℕ → ℕ → ℕ → ℕ
count room h t = (t + room - h) % room

count_cases :
    (room h t : ℕ)
    → h < room
    → t < room
    → ((h ≤ t) × (h + count room h t ≡ t)) ⊎ ((t < h) × (h + count room h t ≡ t + room))
count_cases room h t hh ht = elim (dec_lt t h) [
  | yes lt ↦ inr (lt, omega (arith, mod-eq_of_lt {n = t + room - h} {m = room} (omega arith)))
  | no ge ↦ inl (omega arith, grind arith)
]

pub next_cases :
    (room t : ℕ)
    → t < room
    → ((t + 1 < room) × ((t + 1) % room ≡ t + 1)) ⊎ ((t + 1 ≡ room) × ((t + 1) % room ≡ 0))
next_cases room t ht = elim (dec_lt (t + 1) room) [
  | yes lt ↦ inl (lt, mod-eq_of_lt lt)
  | no ge ↦ inr (omega arith, grind arith)
]

module _ (room h t : ℕ) (hh : h < room) (ht : t < room) where
  pub count-lt : count room h t < room
  count-lt = omega arith

  pub tail_slot : (h + count room h t) % room ≡ t
  tail_slot = grind arith

  pub count_push : (t + 1) % room ≢ h → count room h ((t + 1) % room) ≡ suc (count room h t)
  count_push ne = omega (
    arith,
    next_cases room t ht,
    count_cases room h t hh ht,
    count_cases room h ((t + 1) % room) hh (omega arith),
  )

  pub count_full : (t + 1) % room ≡ h → count room h t + 1 ≡ room
  count_full e = grind arith

  pub count_not_full : (t + 1) % room ≢ h → count room h t + 1 < room
  count_not_full ne = grind arith

  pub count_pop : h ≢ t → count room h t ≡ suc (count room ((h + 1) % room) t)
  count_pop ne = omega (
    arith,
    next_cases room h hh,
    count_cases room h t hh ht,
    count_cases room ((h + 1) % room) t (omega arith) ht,
  )

  pub count_empty : h ≡ t → count room h t ≡ 0
  count_empty e = grind arith
