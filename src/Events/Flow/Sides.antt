-- ===== src/Events/Flow/Sides.antt =====
-- Each loop moves the bytes of one buffer and leaves the other one alone.
use h2_server.Prelude.{
  Option, none, some, ℕ, ◌≡◌, refl, sym, subst, ◌∙◌, Bytes, Bool, true, false, Option, some, List,
  [], ◌∷◌, ◌++◌, min, length, if◌then◌else◌, append_assoc, append-nil, arith,
}
use h2_server.Connection.{
  SessionData, IoResult, success, is_empty, WriteResult, takes, write_interrupted,
  write_would_block, write_failed, flush_output_buffer_h2c, consume_output_buffer, want,
  syscall_interrupted, on_ssl_error, SslWrite, encrypts, write_error, flush_output_buffer_tls,
  FeedResult, processed, feed_error, feed_input_buffer, consume_input_buffer, would_block,
  SendResult, sends, send_error, read_error, fill_output_buffer, append_to_output_buffer,
  update_event, update_events_h2c, update_events_tls, should_disconnect,
}
use h2_server.Connection.Buffers.{
  fill_input_buffer_h2c-append, fill_input_buffer_tls-append, flush_output_buffer_h2c-Conserves,
  flush_output_buffer_tls-Conserves,
}
use h2_server.Connection.Interest.{update_event-if}
use h2_server.Events.{
  Results, Wants, bytes_in, bytes_made, fill_input_buffer, flush_output_buffer, update_events,
}

pub fill-append :
    (results : Results) (s : SessionData) (use_tls : Bool)
    → let s' = (fill_input_buffer results s use_tls).0 in
      (s'.input_buffer ≡ s.input_buffer ++ bytes_in results use_tls)
      × (s'.output_buffer ≡ s.output_buffer)
unfolding fill_input_buffer
fill-append results s true =
    let h = fill_input_buffer_tls-append (results.ssl_reads ++ read_error want ∷ []) s in (h.0, h.1)
fill-append results s false =
    let h = fill_input_buffer_h2c-append (results.reads ++ would_block ∷ []) s in (h.0, h.1)

module _ (s : SessionData) where
  abbrev SameInput : Bytes × SessionData × Option IoResult → Type 0
  SameInput r = r.1.input_buffer ≡ s.input_buffer

  abbrev SameOutput : Bytes × SessionData × Option IoResult → Type 0
  SameOutput r = r.1.output_buffer ≡ s.output_buffer

  input-test :
      (b : Bool) (r : Bytes × SessionData × Option IoResult)
      → SameInput r
      → SameInput (if b then ([], s, some success) else r)
  input-test true r e = refl
  input-test false r e = e

  output-test :
      (b : Bool) (r : Bytes × SessionData × Option IoResult)
      → SameOutput r
      → SameOutput (if b then ([], s, some success) else r)
  output-test true r e = refl
  output-test false r e = e

pub feed-output :
    (results : List FeedResult) (s : SessionData) → SameOutput s (feed_input_buffer results s)
unfolding feed_input_buffer consume_input_buffer
feed-output [] s = refl
feed-output (processed n ∷ results) s =
    output-test s (is_empty s.input_buffer) _
      (feed-output results (consume_input_buffer (min n (length s.input_buffer)) s))
feed-output (feed_error ∷ results) s = output-test s (is_empty s.input_buffer) _ refl

flush_h2c-input :
    (results : List WriteResult) (s : SessionData) → SameInput s (flush_output_buffer_h2c results s)
unfolding flush_output_buffer_h2c consume_output_buffer
flush_h2c-input [] s = refl
flush_h2c-input (takes n ∷ results) s =
    input-test s (is_empty s.output_buffer) _
      (flush_h2c-input results (consume_output_buffer (min n (length s.output_buffer)) s))
flush_h2c-input (write_interrupted ∷ results) s =
    input-test s (is_empty s.output_buffer) _ (flush_h2c-input results s)
flush_h2c-input (write_would_block ∷ results) s = input-test s (is_empty s.output_buffer) _ refl
flush_h2c-input (write_failed ∷ results) s = input-test s (is_empty s.output_buffer) _ refl

flush_tls-input :
    (results : List SslWrite) (s : SessionData) → SameInput s (flush_output_buffer_tls results s)
unfolding flush_output_buffer_tls consume_output_buffer on_ssl_error
flush_tls-input [] s = refl
flush_tls-input (encrypts n ∷ results) s =
    input-test s (is_empty s.output_buffer) _
      (flush_tls-input results (consume_output_buffer (min n (length s.output_buffer)) s))
flush_tls-input (write_error syscall_interrupted ∷ results) s =
    input-test s (is_empty s.output_buffer) _ (flush_tls-input results s)
flush_tls-input (write_error want ∷ results) s = input-test s (is_empty s.output_buffer) _ refl
flush_tls-input (write_error e ∷ results) s = input-test s (is_empty s.output_buffer) _ refl

pub flush-Split :
    (results : Results) (s : SessionData) (use_tls : Bool)
    → let (wire, s', result) = flush_output_buffer results s use_tls in
      (s'.input_buffer ≡ s.input_buffer) × (wire ++ s'.output_buffer ≡ s.output_buffer)
unfolding flush_output_buffer
flush-Split results s true =
    let calls = results.ssl_writes ++ write_error want ∷ [] in
    (flush_tls-input calls s, (flush_output_buffer_tls-Conserves calls s).0)
flush-Split results s false =
    let calls = results.writes ++ write_would_block ∷ [] in
    (flush_h2c-input calls s, (flush_output_buffer_h2c-Conserves calls s).0)

-- What the loop leaves, if it returns.
abbrev pub Filled : List SendResult → SessionData → Option SessionData → Type 0
Filled chunks s none = Unit
Filled chunks s (some s') =
    (s'.input_buffer ≡ s.input_buffer) × (s'.output_buffer ≡ s.output_buffer ++ bytes_made chunks)

pub fill_output-Filled :
    (chunks : List SendResult) (s : SessionData) → Filled chunks s (fill_output_buffer chunks s)
unfolding fill_output_buffer append_to_output_buffer
fill_output-Filled [] s = (refl, sym (append-nil s.output_buffer))
fill_output-Filled (send_error ∷ chunks) s = tt
fill_output-Filled (sends [] ∷ chunks) s = (refl, sym (append-nil s.output_buffer))
fill_output-Filled (sends (c ∷ chunk) ∷ chunks) s =
    by_rest (fill_output_buffer chunks (append_to_output_buffer (c ∷ chunk) s))
      (fill_output-Filled chunks (append_to_output_buffer (c ∷ chunk) s))
  where
    by_rest :
        (o : Option SessionData)
        → Filled chunks (append_to_output_buffer (c ∷ chunk) s) o
        → Filled (sends (c ∷ chunk) ∷ chunks) s o
    by_rest none h = tt
    by_rest (some s') h = (h.0, h.1 ∙ append_assoc s.output_buffer (c ∷ chunk) (bytes_made chunks))

abbrev SameBuffers : SessionData → SessionData × Option ℕ → Type 0
SameBuffers s r = (r.0.input_buffer ≡ s.input_buffer) × (r.0.output_buffer ≡ s.output_buffer)

pub update_event-buffers : (events : ℕ) (s : SessionData) → SameBuffers s (update_event events s)
unfolding update_event
update_event-buffers events s = (ground arith, ground arith)

pub update_events-buffers :
    (wants : Wants) (s : SessionData) (use_tls : Bool)
    → SameBuffers s (update_events wants s use_tls)
unfolding update_events update_events_h2c update_events_tls
update_events-buffers wants s true =
    subst (SameBuffers s) (update_event-if (should_disconnect s.state) _ _ s)
      (update_event-buffers _ s)
update_events-buffers wants s false =
    subst (SameBuffers s) (update_event-if (should_disconnect s.state) _ _ s)
      (update_event-buffers _ s)
