-- ===== src/FileCache/Tests.antt =====
-- Three downloads of one path: before the file is there, when it is, and when it is gone again.
use h2_server.Prelude.{◌≡◌, none, List, [], ◌∷◌, Bytes, bytes}
use h2_server.FileCache.{Probe, absent, readable, serve}
use h2_server.FileCache.Serving.{answers, serve-eq-answers}

abbrev hello_requests : List (Bytes × (Bytes → Probe))
hello_requests =
    (bytes "a", λ path. absent)
    ∷ (bytes "a", λ path. readable (bytes "hello"))
    ∷ (bytes "a", λ path. absent)
    ∷ []

serve-eq-answers_example : serve [] hello_requests ≡ answers (λ path. none) hello_requests
serve-eq-answers_example =
    serve-eq-answers hello_requests (λ size e. cc, (λ size e. cc, (λ size e. cc, tt)))
