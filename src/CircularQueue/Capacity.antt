-- ===== src/CircularQueue/Capacity.antt =====
-- `round_to_pow2` gives a power of two, and no power of two is nearer to the requested size.
use h2_server.Prelude.{
  ℕ, zero, suc, ◌+◌, ◌-◌, ◌/◌, ◌%◌, ◌^◌, ◌≤◌, ◌<◌, ◌≡◌, refl, ap, sym, ◌∙◌, ◌⊎◌, inl, inr, bit_or,
  arith, dec_lt, max, ◌≢◌, Bool-cases, if◌then◌else◌, leb,
}
use h2_server.Prelude.Bits.{bit_or_digit, pow_pos}
use native.Mathlib.Nat.{pow-suc, div-one, div-div-eq-div-mul, mul_comm, pow-le-pow_right}
use h2_server.CircularQueue.{fill_from, round_to_pow2}

-- `value |= value >> shift`
abbrev spread : ℕ → ℕ → ℕ
spread shift v = bit_or v (v / 2 ^ shift)

abbrev spread_to_2 : ℕ → ℕ
spread_to_2 v = spread 2 (spread 1 v)

abbrev spread_to_4 : ℕ → ℕ
spread_to_4 v = spread 4 (spread_to_2 v)

abbrev spread_to_8 : ℕ → ℕ
spread_to_8 v = spread 8 (spread_to_4 v)

abbrev spread_all : ℕ → ℕ
spread_all v = spread 16 (spread_to_8 v)

fill_from-eq-spread_all : (v : ℕ) → fill_from 6 1 v ≡ spread_all v
unfolding fill_from
fill_from-eq-spread_all v = refl

-- A round commutes with a shift to the right, by one place and by any number.
spread-half : (s v : ℕ) → spread s v / 2 ≡ spread s (v / 2)
spread-half s v =
    let swapped : v / 2 / 2 ^ s ≡ v / 2 ^ s / 2 =
      div-div-eq-div-mul v 2 (2 ^ s)
      ∙ ap (λ (d : ℕ). v / d) (mul_comm 2 (2 ^ s))
      ∙ sym (div-div-eq-div-mul v (2 ^ s) 2) in
    rw swapped (omega (arith, bit_or_digit v (v / 2 ^ s)))

spread-shift : (s t v : ℕ) → spread s v / 2 ^ t ≡ spread s (v / 2 ^ t)
spread-shift s zero v = div-one (spread s v) ∙ ap (spread s) (sym (div-one v))
spread-shift s (suc t) v =
    let split =
      λ (x : ℕ). ap (λ (d : ℕ). x / d) (pow-suc 2 t) ∙ sym (div-div-eq-div-mul x (2 ^ t) 2) in
    split (spread s v)
    ∙ ap (λ (d : ℕ). d / 2) (spread-shift s t v)
    ∙ spread-half s (v / 2 ^ t)
    ∙ ap (spread s) (sym (split v))

spread-low : (s v : ℕ) → spread s v % 2 ≡ max (v % 2) (v / 2 ^ s % 2)
spread-low s v = omega (arith, bit_or_digit v (v / 2 ^ s))

-- After the rounds up to a shift, the lowest bit is set if one of the bits below twice the shift
-- was.
low_of_4 : (v : ℕ) → v % 4 ≢ 0 → spread 1 v % 2 ≡ 1
low_of_4 v h = omega (arith, spread-low 1 v)

low_of_16 : (v : ℕ) → v % 2 ^ 4 ≢ 0 → spread_to_2 v % 2 ≡ 1
low_of_16 v h =
    ground (arith, spread-low 2 (spread 1 v), spread-shift 1 2 v, low_of_4 v, low_of_4 (v / 2 ^ 2))

to_2-shift : (t v : ℕ) → spread_to_2 v / 2 ^ t ≡ spread_to_2 (v / 2 ^ t)
to_2-shift t v = spread-shift 2 t (spread 1 v) ∙ ap (spread 2) (spread-shift 1 t v)

to_4-shift : (t v : ℕ) → spread_to_4 v / 2 ^ t ≡ spread_to_4 (v / 2 ^ t)
to_4-shift t v = spread-shift 4 t (spread_to_2 v) ∙ ap (spread 4) (to_2-shift t v)

to_8-shift : (t v : ℕ) → spread_to_8 v / 2 ^ t ≡ spread_to_8 (v / 2 ^ t)
to_8-shift t v = spread-shift 8 t (spread_to_4 v) ∙ ap (spread 8) (to_4-shift t v)

low_of_256 : (v : ℕ) → v % 2 ^ 8 ≢ 0 → spread_to_4 v % 2 ≡ 1
low_of_256 v h =
    ground (arith, spread-low 4 (spread_to_2 v), to_2-shift 4 v, low_of_16 v, low_of_16 (v / 2 ^ 4))

low_of_16_bits : (v : ℕ) → v % 2 ^ 16 ≢ 0 → spread_to_8 v % 2 ≡ 1
low_of_16_bits v h =
    ground
      (arith, spread-low 8 (spread_to_4 v), to_4-shift 8 v, low_of_256 v, low_of_256 (v / 2 ^ 8))

low_of_word : (v : ℕ) → v % 2 ^ 32 ≢ 0 → spread_all v % 2 ≡ 1
low_of_word v h = ground (
  arith,
  spread-low 16 (spread_to_8 v),
  to_8-shift 16 v,
  low_of_16_bits v,
  low_of_16_bits (v / 2 ^ 16),
)

spread_all-half : (v : ℕ) → spread_all v / 2 ≡ spread_all (v / 2)
spread_all-half v = spread-half 16 (spread_to_8 v) ∙ ap (spread 16) (to_8-shift 1 v)

-- All bits up to the highest set one are set.
spread_all_ones : (k v : ℕ) → v < 2 ^ 32 → 2 ^ k ≤ v → v < 2 ^ suc k → spread_all v + 1 ≡ 2 ^ suc k
spread_all_ones zero v w lo hi = let one : v ≡ 1 = omega arith in rw one
spread_all_ones (suc k) v w lo hi = omega (
  arith,
  spread_all_ones k (v / 2),
  spread_all-half v,
  low_of_word v (omega (arith, pow_pos (suc k))),
  pow-suc 2 k,
  pow-suc 2 (suc k),
  pow_pos k,
)

-- A positive number lies between two powers of two.
log2_bounds : (n v : ℕ) → v < 2 ^ n → 1 ≤ v → (k : ℕ) × (2 ^ k ≤ v) × (v < 2 ^ suc k) × (k < n)
log2_bounds zero v h p = absurd (omega arith)
log2_bounds (suc n) v h p = elim (dec_lt v (2 ^ n)) [
  | yes small ↦ let (k, lo, hi, lt) = log2_bounds n v small p in (k, lo, hi, omega arith)
  | no large ↦ (n, omega arith, h, omega arith)
]

-- `upper` and `lower` are the powers of two around the size.
round_between :
    (size k : ℕ)
    → 2 ^ k < size
    → size ≤ 2 ^ suc k
    → k < 31
    → round_to_pow2 size ≡ (if leb (size - 2 ^ k) (2 ^ suc k - size) then 2 ^ k else 2 ^ suc k)
unfolding round_to_pow2
round_between size k lo hi lt =
    let small : 2 ^ suc k ≤ 2 ^ 31 = pow-le-pow_right (omega arith) lt in
    let start : (size + 2 ^ 64 - 1) % 2 ^ 64 % 2 ^ 32 ≡ size - 1 = omega arith in
    let filled : fill_from 6 1 (size - 1) + 1 ≡ 2 ^ suc k =
      ap (λ (v : ℕ). v + 1) (fill_from-eq-spread_all (size - 1))
      ∙ spread_all_ones k (size - 1) (omega arith) (omega arith) (omega arith) in
    rw start (ground (arith, filled, pow-suc 2 k))

abbrev pub dist : ℕ → ℕ → ℕ
dist a b = (a - b) + (b - a)

-- Every power of two is outside the gap between two neighbours.
pow_outside : (j k : ℕ) → (2 ^ j ≤ 2 ^ k) ⊎ (2 ^ suc k ≤ 2 ^ j)
pow_outside j k = elim (dec_lt k j) [
  | yes h ↦ inr (pow-le-pow_right (omega arith) h)
  | no h ↦ inl (pow-le-pow_right (omega arith) (omega arith))
]

round_to_pow2_one : round_to_pow2 1 ≡ 1
unfolding round_to_pow2
round_to_pow2_one = refl

nearest_between :
    (size k j : ℕ)
    → 2 ^ k < size
    → size ≤ 2 ^ suc k
    → k < 31
    → dist size (round_to_pow2 size) ≤ dist size (2 ^ j)
nearest_between size k j lo hi lt = ground (arith, round_between size k lo hi lt, pow_outside j k)

-- For a requested size from 1 to 2^31 the capacity is a power of two that fits `uint32_t`, and no
-- power of two is nearer to the size.
pub round_to_pow2_nearest :
    (size : ℕ)
    → 1 ≤ size
    → size ≤ 2 ^ 31
    → (k : ℕ) × (k ≤ 31)
      × (round_to_pow2 size ≡ 2 ^ k)
      × ((j : ℕ) → dist size (round_to_pow2 size) ≤ dist size (2 ^ j))
round_to_pow2_nearest size pos small = elim (dec_lt 1 size) [
  | yes many ↦
      let (k, lo, hi, lt) = log2_bounds 31 (size - 1) (omega arith) (omega arith) in
      let nearest = λ (j : ℕ). nearest_between size k j (omega arith) (omega arith) lt in
      elim (Bool-cases (leb (size - 2 ^ k) (2 ^ suc k - size))) [
        | inl down ↦ (
          k,
          omega arith,
          ground (arith, round_between size k (omega arith) (omega arith) lt),
          nearest,
        )
        | inr up ↦ (
          suc k,
          lt,
          ground (arith, round_between size k (omega arith) (omega arith) lt),
          nearest,
        )
      ]
  | no one ↦
      let e : size ≡ 1 = omega arith in
      rw (e, round_to_pow2_one) (0, omega arith, refl, λ j. omega arith)
]
