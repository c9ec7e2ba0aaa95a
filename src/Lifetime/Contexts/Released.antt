-- ===== src/Lifetime/Contexts/Released.antt =====
-- What `create_ssl_ctx` leaves alive.
use h2_server.Prelude.{
  ℕ, ◌≡◌, refl, ap, ◌∙◌, Bool, true, false, Option, none, some, List, ◌∷◌, ◌++◌, if◌then◌else◌,
  ==_refl, arith,
}
use h2_server.Lifetime.{Handle, tls_context, Call, opens, uses, alive, alive-append, and_then}
use h2_server.Lifetime.Contexts.{SslCalls, use_files, set_curve, create_ssl_ctx, completes}

-- The context is alive, or there is none.
abbrev pub made : Option ℕ → List Handle → List Handle
made none live = live
made (some p) live = tls_context p ∷ live

files_alive :
    (calls : SslCalls) (p : ℕ) (live : List Handle)
    → alive (use_files calls p).1 (tls_context p ∷ live) ≡ some (tls_context p ∷ live)
unfolding use_files
files_alive calls p live = by_results calls.key_used calls.chain_used
  where
    by_results :
        (key chain : Bool)
        → alive
            (use_files (record calls { key_used = key; chain_used = chain }) p).1
            (tls_context p ∷ live)
          ≡ some (tls_context p ∷ live)
    by_results true true = rw (==_refl p) refl
    by_results true false = rw (==_refl p) refl
    by_results false chain = rw (==_refl p) refl

curve_alive :
    (calls : SslCalls) (p : ℕ) (live : List Handle)
    → alive (set_curve calls p).1 (tls_context p ∷ live) ≡ some (tls_context p ∷ live)
unfolding set_curve
curve_alive calls p live = by_results calls.is_openssl_3 calls.curve
  where
    by_results :
        (version : Bool) (curve : Option ℕ)
        → alive
            (set_curve (record calls { is_openssl_3 = version; curve = curve }) p).1
            (tls_context p ∷ live)
          ≡ some (tls_context p ∷ live)
    by_results true curve = rw (==_refl p) refl
    by_results false none = refl
    by_results false (some k) = rw (==_refl k, ==_refl p) refl

create_alive :
    (calls : SslCalls) (live : List Handle)
    → alive (create_ssl_ctx calls).1 live ≡ some (made calls.context live)
unfolding create_ssl_ctx
create_alive calls live = by_context calls.context
  where
    by_curved :
        (curved : Bool) (p : ℕ)
        → alive
            (if◌then◌else◌ {A = Option ℕ × List Call} curved
              (
                (use_files calls p).0,
                opens (tls_context p)
                    ∷ (uses (tls_context p) ∷ ((set_curve calls p).1 ++ (use_files calls p).1)),
              )
              (none, opens (tls_context p) ∷ (uses (tls_context p) ∷ (set_curve calls p).1))).1
            live
          ≡ some (tls_context p ∷ live)
    by_curved true p = rw (==_refl p) (
        alive-append (set_curve calls p).1 (use_files calls p).1 (tls_context p ∷ live)
        ∙ ap (λ o. and_then o (alive (use_files calls p).1)) (curve_alive calls p live)
        ∙ files_alive calls p live)
    by_curved false p = rw (==_refl p) (curve_alive calls p live)

    by_context :
        (context : Option ℕ)
        → alive (create_ssl_ctx (record calls { context = context })).1 live
          ≡ some (made context live)
    by_context none = refl
    by_context (some p) = by_curved (set_curve calls p).0 p

create_kept :
    (calls : SslCalls)
    → (create_ssl_ctx calls).0 ≡ (if completes calls then calls.context else none)
unfolding create_ssl_ctx set_curve use_files
create_kept calls =
    by_results calls.is_openssl_3 calls.context calls.curves_set calls.curve calls.key_used
      calls.chain_used
  where
    by_results :
        (version : Bool) (context : Option ℕ) (curves_set : Bool) (curve : Option ℕ)
        (key chain : Bool)
        → let calls' : SslCalls = record {
          is_openssl_3 = version;
          context = context;
          curves_set = curves_set;
          curve = curve;
          key_used = key;
          chain_used = chain;
        } in
          (create_ssl_ctx calls').0 ≡ (if completes calls' then context else none)
    by_results v none cs curve key chain = ground arith
    by_results true (some p) false curve key chain = refl
    by_results true (some p) true curve true true = refl
    by_results true (some p) true curve true false = refl
    by_results true (some p) true curve false chain = refl
    by_results false (some p) cs none key chain = refl
    by_results false (some p) cs (some k) true true = refl
    by_results false (some p) cs (some k) true false = refl
    by_results false (some p) cs (some k) false chain = refl

-- Whatever the calls of OpenSSL give: `create_ssl_ctx` makes no call on an object that is not there or
-- has been freed, and frees none twice. Behind it, the context that `SSL_CTX_new` made is alive beside
-- what was alive before, and nothing else. It is returned if every later call succeeds; else the null
-- pointer is returned, and the context is leaked.
pub alive-create_ssl_ctx :
    (calls : SslCalls) (live : List Handle)
    → (alive (create_ssl_ctx calls).1 live ≡ some (made calls.context live))
      × ((create_ssl_ctx calls).0 ≡ (if completes calls then calls.context else none))
alive-create_ssl_ctx calls live = (create_alive calls live, create_kept calls)
