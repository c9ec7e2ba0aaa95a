-- ===== src/Events/Loops.antt =====
-- The loops on the buffers return, and change nothing else of the session.
use h2_server.Prelude.{
  All, ◌≡◌, refl, Bytes, Bool, true, false, Option, none, some, List, [], ◌∷◌, ◌++◌, min, length,
  if◌then◌else◌,
}
use h2_server.Connection.{
  SendResult, sends, send_error, IsSent, SessionData, IoResult, success, is_empty, WriteResult,
  takes, write_interrupted, write_would_block, write_failed, flush_output_buffer_h2c,
  consume_output_buffer, want, syscall_interrupted, on_ssl_error, SslWrite, encrypts, write_error,
  flush_output_buffer_tls, FeedResult, processed, feed_error, feed_input_buffer,
  consume_input_buffer, ReadResult, received, end_of_stream, interrupted, would_block, failed,
  fill_input_buffer_h2c, SslRead, decrypted, read_error, fill_input_buffer_tls,
  append_to_input_buffer, fill_output_buffer, append_to_output_buffer,
}
use h2_server.Events.{Results, fill_input_buffer, flush_output_buffer}

abbrev pub Kept : SessionData → SessionData → Type 0
Kept s s' = (s'.events ≡ s.events) × (s'.state ≡ s.state)

abbrev pub Returned : SessionData → SessionData × Option IoResult → Type 0
Returned s (s', none) = ⊥
Returned s (s', some result) = Kept s s'

abbrev pub Moved : SessionData → Bytes × SessionData × Option IoResult → Type 0
Moved s r = Returned s (r.1, r.2)

fill_h2c-Returned :
    (results : List ReadResult) (s : SessionData)
    → Returned s (fill_input_buffer_h2c (results ++ would_block ∷ []) s)
unfolding fill_input_buffer_h2c append_to_input_buffer
fill_h2c-Returned [] s = (refl, refl)
fill_h2c-Returned (received bytes ∷ results) s =
    fill_h2c-Returned results (append_to_input_buffer bytes s)
fill_h2c-Returned (end_of_stream ∷ results) s = (refl, refl)
fill_h2c-Returned (interrupted ∷ results) s = fill_h2c-Returned results s
fill_h2c-Returned (would_block ∷ results) s = (refl, refl)
fill_h2c-Returned (failed ∷ results) s = (refl, refl)

fill_tls-Returned :
    (results : List SslRead) (s : SessionData)
    → Returned s (fill_input_buffer_tls (results ++ read_error want ∷ []) s)
unfolding fill_input_buffer_tls append_to_input_buffer on_ssl_error
fill_tls-Returned [] s = (refl, refl)
fill_tls-Returned (decrypted bytes ∷ results) s =
    fill_tls-Returned results (append_to_input_buffer bytes s)
fill_tls-Returned (read_error syscall_interrupted ∷ results) s = fill_tls-Returned results s
fill_tls-Returned (read_error want ∷ results) s = (refl, refl)
fill_tls-Returned (read_error e ∷ results) s = (refl, refl)

Moved-test :
    (b : Bool) (s : SessionData) (r : Bytes × SessionData × Option IoResult)
    → Moved s r
    → Moved s (if b then ([], s, some success) else r)
Moved-test true s r h = (refl, refl)
Moved-test false s r h = h

flush_h2c-Moved :
    (results : List WriteResult) (s : SessionData)
    → Moved s (flush_output_buffer_h2c (results ++ write_would_block ∷ []) s)
unfolding flush_output_buffer_h2c consume_output_buffer
flush_h2c-Moved [] s = Moved-test (is_empty s.output_buffer) s _ (refl, refl)
flush_h2c-Moved (takes n ∷ results) s =
    Moved-test (is_empty s.output_buffer) s _
      (flush_h2c-Moved results (consume_output_buffer (min n (length s.output_buffer)) s))
flush_h2c-Moved (write_interrupted ∷ results) s =
    Moved-test (is_empty s.output_buffer) s _ (flush_h2c-Moved results s)
flush_h2c-Moved (write_would_block ∷ results) s =
    Moved-test (is_empty s.output_buffer) s _ (refl, refl)
flush_h2c-Moved (write_failed ∷ results) s = Moved-test (is_empty s.output_buffer) s _ (refl, refl)

flush_tls-Moved :
    (results : List SslWrite) (s : SessionData)
    → Moved s (flush_output_buffer_tls (results ++ write_error want ∷ []) s)
unfolding flush_output_buffer_tls consume_output_buffer on_ssl_error
flush_tls-Moved [] s = Moved-test (is_empty s.output_buffer) s _ (refl, refl)
flush_tls-Moved (encrypts n ∷ results) s =
    Moved-test (is_empty s.output_buffer) s _
      (flush_tls-Moved results (consume_output_buffer (min n (length s.output_buffer)) s))
flush_tls-Moved (write_error syscall_interrupted ∷ results) s =
    Moved-test (is_empty s.output_buffer) s _ (flush_tls-Moved results s)
flush_tls-Moved (write_error want ∷ results) s =
    Moved-test (is_empty s.output_buffer) s _ (refl, refl)
flush_tls-Moved (write_error e ∷ results) s = Moved-test (is_empty s.output_buffer) s _ (refl, refl)

pub feed-Moved :
    (results : List FeedResult) (s : SessionData)
    → Moved s (feed_input_buffer (results ++ feed_error ∷ []) s)
unfolding feed_input_buffer consume_input_buffer
feed-Moved [] s = Moved-test (is_empty s.input_buffer) s _ (refl, refl)
feed-Moved (processed n ∷ results) s =
    Moved-test (is_empty s.input_buffer) s _
      (feed-Moved results (consume_input_buffer (min n (length s.input_buffer)) s))
feed-Moved (feed_error ∷ results) s = Moved-test (is_empty s.input_buffer) s _ (refl, refl)

pub fill-Returned :
    (results : Results) (s : SessionData) (use_tls : Bool)
    → Returned s (fill_input_buffer results s use_tls)
unfolding fill_input_buffer
fill-Returned results s true = fill_tls-Returned results.ssl_reads s
fill-Returned results s false = fill_h2c-Returned results.reads s

pub flush-Moved :
    (results : Results) (s : SessionData) (use_tls : Bool)
    → Moved s (flush_output_buffer results s use_tls)
unfolding flush_output_buffer
flush-Moved results s true = flush_tls-Moved results.ssl_writes s
flush-Moved results s false = flush_h2c-Moved results.writes s

pub fill_output-Kept :
    (chunks : List SendResult) (s : SessionData)
    → All IsSent chunks
    → (filled : SessionData) × (fill_output_buffer chunks s ≡ some filled) × Kept s filled
unfolding fill_output_buffer append_to_output_buffer
fill_output-Kept [] s sent = (s, refl, (refl, refl))
fill_output-Kept (send_error ∷ chunks) s sent = absurd sent.0
fill_output-Kept (sends [] ∷ chunks) s sent = (s, refl, (refl, refl))
fill_output-Kept (sends (c ∷ chunk) ∷ chunks) s sent =
    fill_output-Kept chunks (append_to_output_buffer (c ∷ chunk) s) sent.1
