-- ===== src/CircularQueue/Slots.antt =====
-- The slots of a ring that hold elements, oldest first, and what a write beside them leaves alone.
use h2_server.Prelude.{
  ℕ, zero, suc, ◌+◌, ◌%◌, ◌≤◌, ◌<◌, ◌≡◌, ◌≢◌, refl, sym, subst, ap, ap₂, ◌∙◌, List, [], ◌∷◌, ◌++◌,
  map, arith, length, get_or, set, get_or-set_ne, get_or-set_self, All,
}
use mathlib.Core.List.{map-append}
use native.Mathlib.Nat.{mod-eq_of_lt, mod-add-mod}

-- `n` slots from index `h` on, going round at `room`
abbrev pub slots : ℕ → ℕ → ℕ → List ℕ
slots room h zero = []
slots room h (suc n) = h ∷ slots room ((h + 1) % room) n

pub length-slots : (room h n : ℕ) → length (slots room h n) ≡ n
length-slots room h zero = refl
length-slots room h (suc n) = ap suc (length-slots room ((h + 1) % room) n)

later_slot : (room h n : ℕ) → ((h + 1) % room + n) % room ≡ (h + suc n) % room
later_slot room h n = rw mod-add-mod (ap (λ (k : ℕ). k % room) (omega arith))

-- One slot more is the one that the tail names.
pub slots_concat :
    (room h n : ℕ) → h < room → slots room h (suc n) ≡ slots room h n ++ (h + n) % room ∷ []
slots_concat room h zero lt =
    ap (λ k. k ∷ []) (sym (mod-eq_of_lt lt) ∙ ap (λ (k : ℕ). k % room) (omega arith))
slots_concat room h (suc n) lt = ap (◌∷◌ h) (
    slots_concat room ((h + 1) % room) n (omega arith)
    ∙ ap (λ k. slots room ((h + 1) % room) n ++ k ∷ []) (later_slot room h n))

-- Fewer than `room` steps round the ring do not lead back.
no_return : (room h k : ℕ) → h < room → suc k < room → (h + suc k) % room ≢ h
no_return room h k hh hk = grind arith

-- So the slot behind the last one is free.
pub slots_miss_tail :
    (room h n : ℕ) → h < room → n < room → All (λ i. (h + n) % room ≢ i) (slots room h n)
slots_miss_tail room h zero hh hn = tt
slots_miss_tail room h (suc n) hh hn = (
  no_return room h n hh hn,
  subst (λ t. All (λ i. t ≢ i) (slots room ((h + 1) % room) n)) (later_slot room h n)
      (slots_miss_tail room ((h + 1) % room) n (omega arith) (omega arith)),
)

module _ {ℓ} {A : Type ℓ} (blank : A) where
  abbrev pub read : List A → ℕ → A
  read buffer i = get_or buffer i blank

  pub map-read-set :
      (buffer : List A) (i : ℕ) (v : A) (js : List ℕ)
      → All (λ j. i ≢ j) js
      → map (read (set buffer i v)) js ≡ map (read buffer) js
  map-read-set buffer i v [] h = refl
  map-read-set buffer i v (j ∷ js) (ne, h) =
      ap₂ ◌∷◌ (get_or-set_ne buffer i j v blank ne) (map-read-set buffer i v js h)

  -- A write to the slot behind the last one, read back with it.
  pub read-slots-set :
      (buffer : List A) (room h n : ℕ) (v : A)
      → room ≤ length buffer
      → h < room
      → n < room
      → map (read (set buffer ((h + n) % room) v)) (slots room h (suc n))
        ≡ map (read buffer) (slots room h n) ++ v ∷ []
  read-slots-set buffer room h n v fits hh hn =
      ap (map (read (set buffer ((h + n) % room) v))) (slots_concat room h n hh)
      ∙ map-append (read (set buffer ((h + n) % room) v)) (slots room h n) ((h + n) % room ∷ [])
      ∙ ap₂ (λ xs y. xs ++ y ∷ [])
          (map-read-set buffer ((h + n) % room) v (slots room h n) (slots_miss_tail room h n hh hn))
          (get_or-set_self buffer ((h + n) % room) v blank (omega arith))
