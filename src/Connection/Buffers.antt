-- ===== src/Connection/Buffers.antt =====
-- What the loops move: every byte once, in order, and the result tells what is left.
use h2_server.Prelude.{
  ℕ, suc, ◌≤◌, min, ◌≡◌, ◌≢◌, refl, ap, ◌∙◌, Bytes, true, false, Option, none, some, List, [], ◌∷◌,
  ◌++◌, length, take, drop, arith, if◌then◌else◌, append_assoc, take-append-drop, Bool-cases,
  length-drop, inl, inr, All, sym, append-nil,
}
use h2_server.Connection.{
  SessionData, IoResult, success, is_empty, WriteResult, takes, write_interrupted,
  write_would_block, write_failed, flush_output_buffer_h2c, consume_output_buffer, want,
  syscall_interrupted, on_ssl_error, SslWrite, encrypts, write_error, flush_output_buffer_tls,
  FeedResult, processed, feed_error, feed_input_buffer, consume_input_buffer, ReadResult, received,
  end_of_stream, interrupted, would_block, failed, fill_input_buffer_h2c, SslRead, decrypted,
  read_error, fill_input_buffer_tls, append_to_input_buffer, syscall_interrupted, want,
}

nothing_left : (buffer : Bytes) → is_empty buffer ≡ true → buffer ≡ []
nothing_left [] e = refl
nothing_left (c ∷ s) e = absurd cc

-- What went out and what is left make up what was there; success leaves nothing.
abbrev Conserves : Bytes → Bytes → Bytes → Option IoResult → Type 0
Conserves before moved after result =
    (moved ++ after ≡ before) × (result ≡ some success → after ≡ [])

Conserves-more :
    (n : ℕ) (before moved after : Bytes) (result : Option IoResult)
    → Conserves (drop n before) moved after result
    → Conserves before (take n before ++ moved) after result
Conserves-more n before moved after result h = (
  append_assoc (take n before) moved after
      ∙ ap (◌++◌ (take n before)) h.0
      ∙ take-append-drop n before,
  h.1,
)

Conserves-end :
    (buffer : Bytes) → Conserves buffer [] buffer (if is_empty buffer then some success else none)
Conserves-end [] = (refl, λ e. refl)
Conserves-end (c ∷ s) = (refl, λ e. absurd cc)

-- One round whose buffer is not empty, from the rest of the rounds.
abbrev Flushed : SessionData → Bytes × SessionData × Option IoResult → Type 0
Flushed s r = Conserves s.output_buffer r.0 r.1.output_buffer r.2

abbrev Fed : SessionData → Bytes × SessionData × Option IoResult → Type 0
Fed s r = Conserves s.input_buffer r.0 r.1.input_buffer r.2

Flushed-test :
    (s : SessionData) (r : Bytes × SessionData × Option IoResult)
    → Flushed s r
    → Flushed s (if is_empty s.output_buffer then ([], s, some success) else r)
Flushed-test s r h = elim (Bool-cases (is_empty s.output_buffer)) [
  | inl e ↦ rw e (refl, λ _. nothing_left s.output_buffer e)
  | inr e ↦ rw e h
]

Fed-test :
    (s : SessionData) (r : Bytes × SessionData × Option IoResult)
    → Fed s r
    → Fed s (if is_empty s.input_buffer then ([], s, some success) else r)
Fed-test s r h = elim (Bool-cases (is_empty s.input_buffer)) [
  | inl e ↦ rw e (refl, λ _. nothing_left s.input_buffer e)
  | inr e ↦ rw e h
]

-- Whatever `write` returns, and wherever the calls stop: the bytes that left, followed by what is
-- left in the buffer, are the buffer that there was; when the loop returns SUCCESS nothing is left.
pub flush_output_buffer_h2c-Conserves :
    (results : List WriteResult) (s : SessionData)
    → let (wire, s', result) = flush_output_buffer_h2c results s in
      (wire ++ s'.output_buffer ≡ s.output_buffer) × (result ≡ some success → s'.output_buffer ≡ [])
unfolding flush_output_buffer_h2c consume_output_buffer
flush_output_buffer_h2c-Conserves [] s = Conserves-end s.output_buffer
flush_output_buffer_h2c-Conserves (takes n ∷ results) s = Flushed-test s _ (
    Conserves-more (min n (length s.output_buffer)) s.output_buffer _ _ _ (
      flush_output_buffer_h2c-Conserves results
        (consume_output_buffer (min n (length s.output_buffer)) s)))
flush_output_buffer_h2c-Conserves (write_interrupted ∷ results) s =
    Flushed-test s _ (flush_output_buffer_h2c-Conserves results s)
flush_output_buffer_h2c-Conserves (write_would_block ∷ results) s =
    Flushed-test s _ (refl, λ e. absurd cc)
flush_output_buffer_h2c-Conserves (write_failed ∷ results) s =
    Flushed-test s _ (refl, λ e. absurd cc)

-- Whatever `SSL_write` returns, and wherever the calls stop: the bytes that left, followed by what
-- is left in the buffer, are the buffer that there was; when the loop returns SUCCESS nothing is
-- left.
pub flush_output_buffer_tls-Conserves :
    (results : List SslWrite) (s : SessionData)
    → let (wire, s', result) = flush_output_buffer_tls results s in
      (wire ++ s'.output_buffer ≡ s.output_buffer) × (result ≡ some success → s'.output_buffer ≡ [])
unfolding flush_output_buffer_tls consume_output_buffer on_ssl_error
flush_output_buffer_tls-Conserves [] s = Conserves-end s.output_buffer
flush_output_buffer_tls-Conserves (encrypts n ∷ results) s = Flushed-test s _ (
    Conserves-more (min n (length s.output_buffer)) s.output_buffer _ _ _ (
      flush_output_buffer_tls-Conserves results
        (consume_output_buffer (min n (length s.output_buffer)) s)))
flush_output_buffer_tls-Conserves (write_error syscall_interrupted ∷ results) s =
    Flushed-test s _ (flush_output_buffer_tls-Conserves results s)
flush_output_buffer_tls-Conserves (write_error want ∷ results) s =
    Flushed-test s _ (refl, λ e. absurd cc)
flush_output_buffer_tls-Conserves (write_error e ∷ results) s =
    Flushed-test s _ (refl, λ e. absurd cc)

-- Whatever nghttp2 returns, and wherever the calls stop: the bytes that it has processed, followed
-- by what is left to feed, are the buffer that there was; when the loop returns SUCCESS nothing is
-- left.
pub feed_input_buffer-Conserves :
    (results : List FeedResult) (s : SessionData)
    → let (fed, s', result) = feed_input_buffer results s in
      (fed ++ s'.input_buffer ≡ s.input_buffer) × (result ≡ some success → s'.input_buffer ≡ [])
unfolding feed_input_buffer consume_input_buffer
feed_input_buffer-Conserves [] s = Conserves-end s.input_buffer
feed_input_buffer-Conserves (processed n ∷ results) s = Fed-test s _ (
    Conserves-more (min n (length s.input_buffer)) s.input_buffer _ _ _ (
      feed_input_buffer-Conserves results (consume_input_buffer (min n (length s.input_buffer)) s)))
feed_input_buffer-Conserves (feed_error ∷ results) s = Fed-test s _ (refl, λ e. absurd cc)

-- A call of `write` that is interrupted or takes something.
abbrev pub Advances : WriteResult → Type 0
Advances (takes n) = n ≢ 0
Advances write_interrupted = Unit
Advances _ = ⊥

abbrev pub count_takes : List WriteResult → ℕ
count_takes [] = 0
count_takes (takes n ∷ results) = suc (count_takes results)
count_takes (_ ∷ results) = count_takes results

Done-test :
    (s : SessionData) (r : Bytes × SessionData × Option IoResult)
    → (is_empty s.output_buffer ≡ false → r.2 ≡ some success)
    → ◌≡◌ {A = Option IoResult}
        ((if is_empty s.output_buffer then ([], s, some success) else r).2)
        (some success)
Done-test s r h = elim (Bool-cases (is_empty s.output_buffer)) [
  | inl e ↦ rw e refl
  | inr e ↦ rw e (h e)
]

empty_buffer : (buffer : Bytes) → length buffer ≤ 0 → is_empty buffer ≡ true
empty_buffer [] h = refl
empty_buffer (c ∷ s) h = absurd (omega arith)

-- If every call of `write` is interrupted or takes at least one byte, and as many calls take
-- something as there are bytes, then the loop returns SUCCESS.
pub flush_output_buffer_h2c-completes :
    (results : List WriteResult) (s : SessionData)
    → All Advances results
    → length s.output_buffer ≤ count_takes results
    → (flush_output_buffer_h2c results s).2 ≡ some success
unfolding flush_output_buffer_h2c consume_output_buffer
flush_output_buffer_h2c-completes [] s h enough =
    let e = empty_buffer s.output_buffer enough in rw e refl
flush_output_buffer_h2c-completes (takes n ∷ results) s h enough = Done-test s _ (λ e.
    flush_output_buffer_h2c-completes results
      (consume_output_buffer (min n (length s.output_buffer)) s) h.1
      (omega (arith, h.0, length-drop (min n (length s.output_buffer)) s.output_buffer)))
flush_output_buffer_h2c-completes (write_interrupted ∷ results) s h enough =
    Done-test s _ (λ e. flush_output_buffer_h2c-completes results s h.1 enough)
flush_output_buffer_h2c-completes (write_would_block ∷ results) s h enough = elim (h.0) [ ]
flush_output_buffer_h2c-completes (write_failed ∷ results) s h enough = elim (h.0) [ ]

-- The bytes that `read` gives before the call that ends the loop.
abbrev pub bytes_read : List ReadResult → Bytes
bytes_read [] = []
bytes_read (received bytes ∷ results) = bytes ++ bytes_read results
bytes_read (interrupted ∷ results) = bytes_read results
bytes_read (_ ∷ results) = []

-- The same of `SSL_read`.
abbrev pub bytes_decrypted : List SslRead → Bytes
bytes_decrypted [] = []
bytes_decrypted (decrypted bytes ∷ results) = bytes ++ bytes_decrypted results
bytes_decrypted (read_error syscall_interrupted ∷ results) = bytes_decrypted results
bytes_decrypted (_ ∷ results) = []

-- Whatever `read` returns, and wherever the calls stop: the input buffer is what it was, followed by
-- every byte read, in order, the output buffer is untouched, and the loop never returns SUCCESS.
pub fill_input_buffer_h2c-append :
    (results : List ReadResult) (s : SessionData)
    → let (s', result) = fill_input_buffer_h2c results s in
      (s'.input_buffer ≡ s.input_buffer ++ bytes_read results)
      × (s'.output_buffer ≡ s.output_buffer)
      × (result ≢ some success)
unfolding fill_input_buffer_h2c append_to_input_buffer
fill_input_buffer_h2c-append [] s = (sym (append-nil s.input_buffer), refl, λ e. cc)
fill_input_buffer_h2c-append (received bytes ∷ results) s =
    let h = fill_input_buffer_h2c-append results (append_to_input_buffer bytes s) in
    (h.0 ∙ append_assoc s.input_buffer bytes (bytes_read results), h.1, h.2)
fill_input_buffer_h2c-append (interrupted ∷ results) s = fill_input_buffer_h2c-append results s
fill_input_buffer_h2c-append (end_of_stream ∷ results) s =
    (sym (append-nil s.input_buffer), refl, λ e. cc)
fill_input_buffer_h2c-append (would_block ∷ results) s =
    (sym (append-nil s.input_buffer), refl, λ e. cc)
fill_input_buffer_h2c-append (failed ∷ results) s = (sym (append-nil s.input_buffer), refl, λ e. cc)

-- Whatever `SSL_read` returns, and wherever the calls stop: the input buffer is what it was, followed
-- by every byte decrypted, in order, the output buffer is untouched, and the loop never returns
-- SUCCESS.
pub fill_input_buffer_tls-append :
    (results : List SslRead) (s : SessionData)
    → let (s', result) = fill_input_buffer_tls results s in
      (s'.input_buffer ≡ s.input_buffer ++ bytes_decrypted results)
      × (s'.output_buffer ≡ s.output_buffer)
      × (result ≢ some success)
unfolding fill_input_buffer_tls append_to_input_buffer on_ssl_error
fill_input_buffer_tls-append [] s = (sym (append-nil s.input_buffer), refl, λ e. cc)
fill_input_buffer_tls-append (decrypted bytes ∷ results) s =
    let h = fill_input_buffer_tls-append results (append_to_input_buffer bytes s) in
    (h.0 ∙ append_assoc s.input_buffer bytes (bytes_decrypted results), h.1, h.2)
fill_input_buffer_tls-append (read_error syscall_interrupted ∷ results) s =
    fill_input_buffer_tls-append results s
fill_input_buffer_tls-append (read_error want ∷ results) s =
    (sym (append-nil s.input_buffer), refl, λ e. cc)
fill_input_buffer_tls-append (read_error e ∷ results) s =
    (sym (append-nil s.input_buffer), refl, λ e. cc)
