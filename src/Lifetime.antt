-- ===== src/Lifetime.antt =====
-- The objects of the kernel, OpenSSL and nghttp2 that the program holds by descriptor or pointer: what a
-- log of the calls on them leaves alive. The children give the logs of the context of OpenSSL
-- (src/ssl_ctx.cc), of a connection (src/session.cc, src/worker.cc) and of a thread's mapped files
-- (src/file_cache.cc, src/handler.cc).
pub mod Contexts
pub mod Connections
pub mod Copies
pub mod Files
mod Tests
use h2_server.Prelude.{
  ℕ, ◌≡◌, refl, Bool, true, false, Option, none, some, List, [], ◌∷◌, ◌++◌, ◌==◌, if◌then◌else◌,
  ==_refl,
}

-- A descriptor or a pointer, as the call that makes it gives it; `no_memory` is no address that `mmap`
-- gives.
pub data Handle : Type 0 where
  tls_context curve_key callbacks http_session tls_session : ℕ → Handle
  file_fd mapping : ℕ → Handle
  no_memory : Handle

pub data Call : Type 0 where
  opens uses frees : Handle → Call

abbrev pub is_same : Handle → Handle → Bool
is_same (tls_context n) (tls_context m) = n == m
is_same (curve_key n) (curve_key m) = n == m
is_same (callbacks n) (callbacks m) = n == m
is_same (http_session n) (http_session m) = n == m
is_same (tls_session n) (tls_session m) = n == m
is_same (file_fd n) (file_fd m) = n == m
is_same (mapping n) (mapping m) = n == m
is_same no_memory no_memory = true
is_same _ _ = false

pub is_same_refl : (h : Handle) → is_same h h ≡ true
is_same_refl (tls_context n) = ==_refl n
is_same_refl (curve_key n) = ==_refl n
is_same_refl (callbacks n) = ==_refl n
is_same_refl (http_session n) = ==_refl n
is_same_refl (tls_session n) = ==_refl n
is_same_refl (file_fd n) = ==_refl n
is_same_refl (mapping n) = ==_refl n
is_same_refl no_memory = refl

-- The list without its first `h`; `none` where there is none.
abbrev pub without : Handle → List Handle → Option (List Handle)
without h [] = none
without h (x ∷ live) =
    if is_same h x
    then some live
    else elim (without h live) [ none ↦ none | some rest ↦ some (x ∷ rest) ]

abbrev pub and_then :
    Option (List Handle) → (List Handle → Option (List Handle)) → Option (List Handle)
and_then none f = none
and_then (some live) f = f live

-- What is alive behind the calls; `none` where a call uses or frees what is not alive.
abbrev pub alive : List Call → List Handle → Option (List Handle)
alive [] live = some live
alive (opens h ∷ calls) live = alive calls (h ∷ live)
alive (uses h ∷ calls) live = and_then (without h live) (λ rest. alive calls live)
alive (frees h ∷ calls) live = and_then (without h live) (λ rest. alive calls rest)

and_then_inner :
    (o : Option (List Handle)) (f g k : List Handle → Option (List Handle))
    → ((live : List Handle) → f live ≡ and_then (g live) k)
    → and_then o f ≡ and_then (and_then o g) k
and_then_inner none f g k e = refl
and_then_inner (some live) f g k e = e live

-- Two logs, one behind the other.
pub alive-append :
    (xs ys : List Call) (live : List Handle)
    → alive (xs ++ ys) live ≡ and_then (alive xs live) (alive ys)
alive-append [] ys live = refl
alive-append (opens h ∷ xs) ys live = alive-append xs ys (h ∷ live)
alive-append (uses h ∷ xs) ys live =
    and_then_inner (without h live) _ _ (alive ys) (λ rest. alive-append xs ys live)
alive-append (frees h ∷ xs) ys live =
    and_then_inner (without h live) _ _ (alive ys) (λ rest. alive-append xs ys rest)

pub without_first : (h : Handle) (live : List Handle) → without h (h ∷ live) ≡ some live
without_first h live = rw (is_same_refl h) refl
