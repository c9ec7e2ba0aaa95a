-- ===== src/Lifetime/Tests.antt =====
-- A connection over TLS, a certificate that cannot be read, and a thread that maps a file and reads it.
use h2_server.Prelude.{bytes, ◌≡◌, true, false, none, some, List, [], ◌∷◌}
use h2_server.Lifetime.{tls_context, Call, alive}
use h2_server.Lifetime.Connections.{connection_life, connection_life-alive}
use h2_server.Lifetime.Contexts.{SslCalls, create_ssl_ctx}
use h2_server.Lifetime.Contexts.Released.{alive-create_ssl_ctx}
use h2_server.Lifetime.Files.{MapCalls, FileEvent, downloads, reads, thread_calls, new_thread}
use h2_server.Lifetime.Files.Released.{thread_calls-alive}

connection_life-alive_example :
    (log : List Call) × (connection_life true (some 1) (some 2) (some 3) 2 1 ≡ some log)
    × (alive log [] ≡ some [])
connection_life-alive_example =
    connection_life-alive true (some 1) (some 2) (some 3) 2 1 (λ e none_given. absurd cc)

abbrev no_certificate : SslCalls
no_certificate = record {
  is_openssl_3 = true;
  context = some 9;
  curves_set = true;
  curve = none;
  key_used = true;
  chain_used = false;
}

alive-create_ssl_ctx_example :
    (alive (create_ssl_ctx no_certificate).1 [] ≡ some (tls_context 9 ∷ []))
    × ((create_ssl_ctx no_certificate).0 ≡ none)
alive-create_ssl_ctx_example = alive-create_ssl_ctx no_certificate []

abbrev one_file : MapCalls
one_file = record { descriptor = some 7; has_status = true; memory = some 4096 }

-- The file is mapped by the first download, and read behind the second.
abbrev two_downloads : List FileEvent
two_downloads = downloads (bytes "a") one_file ∷ downloads (bytes "a") one_file ∷ reads 1 ∷ []

thread_calls-alive_example : alive (thread_calls two_downloads new_thread) [] ≡ some []
thread_calls-alive_example =
    thread_calls-alive two_downloads ((λ e. absurd cc), ((λ e. absurd cc), (tt, tt)))
