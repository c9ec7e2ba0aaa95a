-- ===== src/Lifetime/Copies.antt =====
-- How often a list of live objects holds an object: a log does not see their order.
use h2_server.Prelude.{
  ℕ, suc, ◌<◌, ◌≡◌, refl, sym, ap, ◌∙◌, Bool, true, false, some, List, [], ◌∷◌, if◌then◌else◌,
  arith, ==_iff,
}
use h2_server.Lifetime.{
  tls_context, curve_key, callbacks, http_session, tls_session, file_fd, mapping, no_memory, Handle,
  Call, uses, frees, is_same, is_same_refl, without, alive,
}

unfoldable pub copies : Handle → List Handle → ℕ
copies h [] = 0
copies h (x ∷ xs) = if is_same h x then suc (copies h xs) else copies h xs

-- The lists hold the same objects, in some order.
abbrev pub SameCopies : List Handle → List Handle → Type 0
SameCopies xs ys = (h : Handle) → copies h xs ≡ copies h ys

pub eq_of_is_same : (h x : Handle) → is_same h x ≡ true → h ≡ x
eq_of_is_same (tls_context n) (tls_context m) e = ap tls_context ((==_iff n m).0 e)
eq_of_is_same (curve_key n) (curve_key m) e = ap curve_key ((==_iff n m).0 e)
eq_of_is_same (callbacks n) (callbacks m) e = ap callbacks ((==_iff n m).0 e)
eq_of_is_same (http_session n) (http_session m) e = ap http_session ((==_iff n m).0 e)
eq_of_is_same (tls_session n) (tls_session m) e = ap tls_session ((==_iff n m).0 e)
eq_of_is_same (file_fd n) (file_fd m) e = ap file_fd ((==_iff n m).0 e)
eq_of_is_same (mapping n) (mapping m) e = ap mapping ((==_iff n m).0 e)
eq_of_is_same no_memory no_memory e = refl
eq_of_is_same h x e = cc

-- An object that the list holds can be taken out.
pub without-copies :
    (h : Handle) (live : List Handle)
    → 0 < copies h live
    → (rest : List Handle) × (without h live ≡ some rest) × SameCopies live (h ∷ rest)
unfolding copies
without-copies h [] p = elim p [ ]
without-copies h (x ∷ live) p = by_test (is_same h x) refl (without-copies h live)
  where
    by_test :
        (b : Bool)
        → is_same h x ≡ b
        → (0 < copies h live
            → (rest : List Handle) × (without h live ≡ some rest) × SameCopies live (h ∷ rest))
        → (rest : List Handle) × (without h (x ∷ live) ≡ some rest)
          × SameCopies (x ∷ live) (h ∷ rest)
    by_test true e behind =
        (live, rw e refl, λ k. ap (λ y. copies k (y ∷ live)) (sym (eq_of_is_same h x e)))
    by_test false e behind =
        let (rest, out, same) = behind (ground arith) in
        (x ∷ rest, rw (e, out) refl, λ k. ground (arith, same k))

copies_none : (live : List Handle) → SameCopies live [] → live ≡ []
unfolding copies
copies_none [] same = refl
copies_none (x ∷ live) same = ground (arith, same x, is_same_refl x)

pub copies_head : (h : Handle) (hs : List Handle) → copies h (h ∷ hs) ≡ suc (copies h hs)
unfolding copies
copies_head h hs = rw (is_same_refl h) refl

pub copies_cons :
    (k h : Handle) (xs ys : List Handle)
    → copies k xs ≡ copies k ys
    → copies k (h ∷ xs) ≡ copies k (h ∷ ys)
unfolding copies
copies_cons k h xs ys e = rw e refl

copies_tail :
    (k h : Handle) (xs ys : List Handle)
    → copies k (h ∷ xs) ≡ copies k (h ∷ ys)
    → copies k xs ≡ copies k ys
unfolding copies
copies_tail k h xs ys e = ground arith

-- A call on an object that is alive changes nothing.
pub uses-copies :
    (h : Handle) (live : List Handle) → 0 < copies h live → alive (uses h ∷ []) live ≡ some live
uses-copies h live p = rw ((without-copies h live p).1) refl

abbrev pub free_all : List Handle → List Call
free_all [] = []
free_all (h ∷ hs) = frees h ∷ free_all hs

-- Whatever their order, the live objects can all be freed.
pub free_all-copies :
    (hs live : List Handle) → SameCopies live hs → alive (free_all hs) live ≡ some []
free_all-copies [] live same = ap some (copies_none live same)
free_all-copies (h ∷ hs) live same =
    let (rest, out, left) = without-copies h live (rw (same h, copies_head h hs) (omega arith)) in
    rw out (free_all-copies hs rest (λ k. copies_tail k h rest hs (sym (left k) ∙ same k)))
