-- ===== src/Lifetime/Connections.antt =====
-- The objects of one connection: `init_session_data`, the destructor and `close_session` of `SessionData`
-- (src/session.cc), with the calls of src/worker.cc that make and end them.
use h2_server.Prelude.{
  ℕ, zero, suc, ◌≡◌, ◌≢◌, refl, ◌∙◌, Bool, true, false, Option, none, some, List, [], ◌∷◌, ◌++◌,
  if◌then◌else◌, ==_refl,
}
use mathlib.Core.Option
use h2_server.Lifetime.{
  Handle, tls_session, http_session, callbacks, Call, opens, uses, frees, alive, without,
}

-- The members of `SessionData` that own something, and the flag of `close_session`.
pub record Owned : Type 0 where
  pub session : Option ℕ
  pub ssl : Option ℕ
  pub is_closed : Bool

abbrev pub new_session_data : Owned
new_session_data = record { session = none; ssl = none; is_closed = false }

-- What `nghttp2_session_callbacks_new` and `nghttp2_session_server_new` give, if they return 0.
unfoldable pub init_session_data : Option ℕ → Option ℕ → Owned → Bool × Owned × List Call
init_session_data none made s = (false, s, [])
init_session_data (some c) none s = (false, s, opens (callbacks c) ∷ frees (callbacks c) ∷ [])
init_session_data (some c) (some n) s = (
  true,
  record s { session = some n },
  opens (callbacks c) ∷ opens (http_session n) ∷ frees (callbacks c) ∷ [],
)

-- `SSL_new` and `SSL_set_fd` of `handle_tls_accept`; `none` is the null pointer for `SSL_set_fd`.
unfoldable pub make_ssl : Option ℕ → Owned → Option (Owned × List Call)
make_ssl none s = none
make_ssl (some t) s =
    some (record s { ssl = some t }, opens (tls_session t) ∷ uses (tls_session t) ∷ [])

unfoldable pub close_session : Owned → Owned × List Call
close_session s = if s.is_closed then (s, []) else (
  record s { is_closed = true },
  elim (s.ssl) [ none ↦ [] | some t ↦ uses (tls_session t) ∷ [] ],
)

-- The calls of `disconnect_from_client` on the session's objects.
unfoldable pub close_objects : Bool → Owned → Owned × List Call
unfolding close_session
close_objects use_tls s = elim (s.ssl) [
  | none ↦ (s, [])
  | some t ↦
      if use_tls
      then (let (s', calls) = close_session s in (s', uses (tls_session t) ∷ calls))
      else (s, [])
]

-- The destructor.
unfoldable pub destroy : Owned → List Call
destroy s =
    (elim (s.session) [ none ↦ [] | some n ↦ frees (http_session n) ∷ [] ])
    ++ (elim (s.ssl) [ none ↦ [] | some t ↦ frees (tls_session t) ∷ [] ])

-- As many calls on each object as the events of the connection make.
abbrev pub calls_on : ℕ → Option Handle → List Call
calls_on n none = []
calls_on zero (some h) = []
calls_on (suc n) (some h) = uses h ∷ calls_on n (some h)

-- A connection from `handle_new_connections` to `disconnect_from_client`, with `n` calls on the session of
-- nghttp2 and `m` on the object of OpenSSL between; `none` is the null pointer for `SSL_set_fd`.
unfoldable pub connection_life : Bool → Option ℕ → Option ℕ → Option ℕ → ℕ → ℕ → Option (List Call)
unfolding init_session_data make_ssl close_objects destroy
connection_life use_tls callbacks_new server_new ssl_new n m =
    let (initialised, s, made) = init_session_data callbacks_new server_new new_session_data in
    if initialised
    then (elim (if use_tls then make_ssl ssl_new s else some (s, [])) [
      | none ↦ none
      | some (s', prepared) ↦
          let (s'', ended) = close_objects use_tls s' in
          some (
            made
            ++ (prepared
                ++ (calls_on n (Option.map http_session s'.session)
                    ++ (calls_on m (Option.map tls_session s'.ssl) ++ (ended ++ destroy s'')))))
    ])
    else some (made ++ destroy s)

alive-calls_on :
    (n : ℕ) (h : Handle) (rest : List Call) (live left : List Handle)
    → without h live ≡ some left
    → alive (calls_on n (some h) ++ rest) live ≡ alive rest live
alive-calls_on zero h rest live left e = refl
alive-calls_on (suc n) h rest live left e = rw e (alive-calls_on n h rest live left e)

-- Where TLS is used, let `SSL_new` give an object. Whatever else fails: no call is made on an object of
-- nghttp2 or OpenSSL that is not there or has been freed, none is freed twice, and in the end every one
-- that was made has been freed.
pub connection_life-alive :
    (use_tls : Bool) (callbacks_new server_new ssl_new : Option ℕ) (n m : ℕ)
    → (use_tls ≡ true → ssl_new ≢ none)
    → (log : List Call) × (connection_life use_tls callbacks_new server_new ssl_new n m ≡ some log)
      × (alive log [] ≡ some [])
unfolding connection_life
connection_life-alive use_tls none server_new ssl_new n m given = ([], refl, refl)
connection_life-alive use_tls (some c) none ssl_new n m given =
    (opens (callbacks c) ∷ frees (callbacks c) ∷ [], refl, rw (==_refl c) refl)
connection_life-alive true (some c) (some s) none n m given = absurd (given refl refl)
connection_life-alive true (some c) (some s) (some t) n m given = (
  _,
  refl,
  rw (==_refl c, ==_refl t)
      (alive-calls_on n (http_session s) _ (tls_session t ∷ http_session s ∷ [])
          (tls_session t ∷ []) (rw (==_refl s) refl)
        ∙ alive-calls_on m (tls_session t) _ (tls_session t ∷ http_session s ∷ [])
            (http_session s ∷ []) (rw (==_refl t) refl)
        ∙ rw (==_refl t, ==_refl s, ==_refl t) refl),
)
connection_life-alive false (some c) (some s) ssl_new n m given = (
  _,
  refl,
  rw (==_refl c) (
      alive-calls_on n (http_session s) _ (http_session s ∷ []) [] (rw (==_refl s) refl)
      ∙ rw (==_refl s) refl),
)
