-- ===== src/Prelude/Totals.antt =====
-- Sums over a list, and what a change of one element does to them.
use h2_server.Prelude.Lists.{get_elem?, set, length, replicate, All}
use Prim.Native.Nat.{ℕ, zero, suc, ◌+◌, ◌≤◌, ◌<◌}
use mathlib.Core.Path.{◌≡◌, refl, sym, ap, subst}
use mathlib.Core.Option.{some}
use mathlib.Core.List.{List, [], ◌∷◌}
use native.Mathlib.Omega.{arith}

module _ {ℓ} {A : Type ℓ} where
  abbrev pub total : (A → ℕ) → List A → ℕ
  total f [] = 0
  total f (x ∷ xs) = f x + total f xs

  pub total-set :
      (f : A → ℕ) (xs : List A) (i : ℕ) (x y : A)
      → get_elem? xs i ≡ some x
      → total f (set xs i y) + f x ≡ total f xs + f y
  total-set f [] i x y e = absurd cc
  total-set f (z ∷ xs) zero x y e = let same : z ≡ x = cc in rw same (omega arith)
  total-set f (z ∷ xs) (suc i) x y e = omega (arith, total-set f xs i x y e)

  pub total-get_elem? :
      (f : A → ℕ) (xs : List A) (i : ℕ) (x : A) → get_elem? xs i ≡ some x → f x ≤ total f xs
  total-get_elem? f [] i x e = absurd cc
  total-get_elem? f (z ∷ xs) zero x e = let same : z ≡ x = cc in rw same (omega arith)
  total-get_elem? f (z ∷ xs) (suc i) x e = omega (arith, total-get_elem? f xs i x e)

  pub get_elem?-some : (xs : List A) (i : ℕ) → i < length xs → (x : A) × (get_elem? xs i ≡ some x)
  get_elem?-some [] i h = elim h [ ]
  get_elem?-some (x ∷ xs) zero h = (x, refl)
  get_elem?-some (x ∷ xs) (suc i) h = get_elem?-some xs i (omega arith)

  pub set_same : (xs : List A) (i : ℕ) (x : A) → get_elem? xs i ≡ some x → set xs i x ≡ xs
  set_same [] i x e = refl
  set_same (z ∷ xs) zero x e = let same : z ≡ x = cc in ap (λ y. y ∷ xs) (sym same)
  set_same (z ∷ xs) (suc i) x e = ap (◌∷◌ z) (set_same xs i x e)

pub All-get_elem? {ℓ κ} :
    {A : Type ℓ} (P : A → Type κ) (xs : List A) (i : ℕ) (x : A)
    → All P xs
    → get_elem? xs i ≡ some x
    → P x
All-get_elem? P [] i x h e = absurd cc
All-get_elem? P (z ∷ xs) zero x h e = let same : z ≡ x = cc in subst P same h.0
All-get_elem? P (z ∷ xs) (suc i) x h e = All-get_elem? P xs i x h.1 e

pub All-replicate {ℓ κ} :
    {A : Type ℓ} (P : A → Type κ) (n : ℕ) (x : A) → P x → All P (replicate n x)
All-replicate P zero x v = tt
All-replicate P (suc n) x v = (v, All-replicate P n x v)

pub total-replicate {ℓ} :
    {A : Type ℓ} (f : A → ℕ) (n : ℕ) (x : A) → f x ≡ 0 → total f (replicate n x) ≡ 0
total-replicate f zero x e = refl
total-replicate f (suc n) x e = omega (arith, e, total-replicate f n x e)
