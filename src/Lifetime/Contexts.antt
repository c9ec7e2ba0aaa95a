-- ===== src/Lifetime/Contexts.antt =====
-- The context of OpenSSL that a worker makes: `create_ssl_ctx` (src/ssl_ctx.cc).
pub mod Released
use h2_server.Prelude.{
  ℕ, Bool, true, false, ◌&&◌, Option, none, some, List, [], ◌∷◌, ◌++◌, if◌then◌else◌,
}
use h2_server.Lifetime.{Handle, tls_context, curve_key, Call, opens, uses, frees}

-- What the calls of `create_ssl_ctx` give, for OpenSSL 3 or an older one.
pub record SslCalls : Type 0 where
  pub is_openssl_3 : Bool
  pub context : Option ℕ
  pub curves_set : Bool
  pub curve : Option ℕ
  pub key_used : Bool
  pub chain_used : Bool

-- The key and the certificate, behind the curve.
unfoldable pub use_files : SslCalls → ℕ → Option ℕ × List Call
use_files calls p =
    if calls.key_used
    then (if calls.chain_used
        then (some p, uses (tls_context p) ∷ uses (tls_context p) ∷ uses (tls_context p) ∷ [])
        else (none, uses (tls_context p) ∷ uses (tls_context p) ∷ []))
    else (none, uses (tls_context p) ∷ [])

unfoldable pub set_curve : SslCalls → ℕ → Bool × List Call
set_curve calls p =
    if calls.is_openssl_3
    then (calls.curves_set, uses (tls_context p) ∷ [])
    else (elim (calls.curve) [
      | none ↦ (false, [])
      | some k ↦ (
        true,
        opens (curve_key k) ∷ uses (tls_context p) ∷ uses (curve_key k) ∷ frees (curve_key k) ∷ [],
      )
    ])

unfoldable pub create_ssl_ctx : SslCalls → Option ℕ × List Call
unfolding use_files set_curve
create_ssl_ctx calls = elim (calls.context) [
  | none ↦ (none, [])
  | some p ↦
      let (curved, before) = set_curve calls p in
      let (ctx, behind) = use_files calls p in
      if curved
      then (ctx, opens (tls_context p) ∷ (uses (tls_context p) ∷ (before ++ behind)))
      else (none, opens (tls_context p) ∷ (uses (tls_context p) ∷ before))
]

-- The curve, the key and the certificate are set.
abbrev pub completes : SslCalls → Bool
completes calls =
    (if calls.is_openssl_3
      then calls.curves_set
      else (elim (calls.curve) [ none ↦ false | some k ↦ true ]))
    && (calls.key_used && calls.chain_used)
