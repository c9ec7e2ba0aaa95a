-- ===== src/Events/Flow/Handling.antt =====
-- An event on a client's socket keeps the bytes balanced.
use h2_server.Prelude.{
  ℕ, ◌≡◌, sym, ap, ◌∙◌, Bytes, Bool, true, false, not, ◌||◌, ◌&&◌, Option, none, some, [], ◌∷◌,
  ◌++◌, ◌==◌, if◌then◌else◌, bit_and, append-nil, append_assoc,
}
use h2_server.Connection.{
  IoResult, success, shutdown, again, SessionData, is_empty, feed_input_buffer, feed_error,
  fill_output_buffer, epollin, epollout,
}
use h2_server.Connection.Buffers.{feed_input_buffer-Conserves}
use h2_server.Events.{
  Worker, no_traffic, add_traffic, bytes_made, bytes_in, Wants, Results, fill_input_buffer,
  flush_output_buffer, called_back, is_shutdown, is_success, check_close_event,
  disconnect_from_client, store, finish_io, after_feed, after_fill, handle_read, after_flush,
  handle_write, read_part, write_part, end_part, after_write, after_read, handle_events,
}
use h2_server.Events.Flow.{
  Flowing, Flows, FlowsAfter, add_traffic-Flowing, taken_in, moved_on, disconnect-Flows,
  store-Flows, update-Flowing,
}
use h2_server.Events.Flow.Sides.{fill-append, feed-output, flush-Split, Filled, fill_output-Filled}

unchanged : (sent output made : Bytes) → sent ++ output ≡ made → (sent ++ []) ++ output ≡ made ++ []
unchanged sent output made e = rw (append-nil sent, append-nil made) e

module _ (sock : ℕ) (results : Results) where
  abbrev FlowsOn : Option (IoResult × SessionData × Worker) → Type 0
  FlowsOn none = Unit
  FlowsOn (some (result, s, w)) = Flowing sock s w

  finish_io-FlowsOn :
      (wants : Wants) (result : IoResult) (s : SessionData) (w : Worker)
      → Flowing sock s w
      → FlowsOn (some (finish_io sock wants result s w))
  unfolding finish_io
  finish_io-FlowsOn wants result s w f = update-Flowing sock wants s w w.use_tls f

  after_feed-FlowsOn :
      (s : SessionData) (result : Option IoResult) (w : Worker)
      → Flowing sock s w
      → FlowsOn (after_feed sock results s result w)
  unfolding after_feed
  after_feed-FlowsOn s none w f = tt
  after_feed-FlowsOn s (some shutdown) w f = f
  after_feed-FlowsOn s (some success) w f = finish_io-FlowsOn results.wants success s w f
  after_feed-FlowsOn s (some again) w f = finish_io-FlowsOn results.wants success s w f

  called_back-Flowing :
      (goaway : Bool) (s : SessionData) (w : Worker)
      → Flowing sock s w
      → Flowing sock (called_back goaway s) w
  called_back-Flowing true s w f = f
  called_back-Flowing false s w f = f

  fed-FlowsOn :
      (s : SessionData) (w : Worker)
      → Flowing sock s w
      → FlowsOn (after_fill sock results s (some success) w)
  unfolding after_fill
  fed-FlowsOn s w f =
      let calls = results.feeds ++ feed_error ∷ [] in
      let fed = feed_input_buffer calls s in
      let t = w.traffic sock in
      let more = record no_traffic { fed = fed.0 } in
      let o = feed-output calls s in
      after_feed-FlowsOn (called_back results.goaway fed.1) fed.2 (add_traffic sock more w) (
        called_back-Flowing results.goaway fed.1 (add_traffic sock more w) (
          add_traffic-Flowing sock s fed.1 more w f
            (moved_on t.fed s.input_buffer t.received fed.0 fed.1.input_buffer f.0.0
              (feed_input_buffer-Conserves calls s).0)
            (rw o (unchanged t.sent s.output_buffer t.made f.0.1))))

  after_fill-FlowsOn :
      (s : SessionData) (result : Option IoResult) (w : Worker)
      → Flowing sock s w
      → FlowsOn (after_fill sock results s result w)
  unfolding after_fill
  after_fill-FlowsOn s none w f = tt
  after_fill-FlowsOn s (some shutdown) w f = f
  after_fill-FlowsOn s (some success) w f = fed-FlowsOn s w f
  after_fill-FlowsOn s (some again) w f = fed-FlowsOn s w f

  handle_read-FlowsOn :
      (s : SessionData) (w : Worker) → Flowing sock s w → FlowsOn (handle_read sock results s w)
  unfolding handle_read
  handle_read-FlowsOn s w f =
      let filled = fill_input_buffer results s w.use_tls in
      let t = w.traffic sock in
      let more = record no_traffic { received = bytes_in results w.use_tls } in
      let h = fill-append results s w.use_tls in
      after_fill-FlowsOn filled.0 filled.1 (add_traffic sock more w) (
        add_traffic-Flowing sock s filled.0 more w f
          (rw h.0 (taken_in t.fed s.input_buffer t.received (bytes_in results w.use_tls) f.0.0))
          (rw h.1 (unchanged t.sent s.output_buffer t.made f.0.1)))

  after_flush-FlowsOn :
      (s : SessionData) (result : Option IoResult) (w : Worker)
      → Flowing sock s w
      → FlowsOn (after_flush sock results s result w)
  unfolding after_flush
  after_flush-FlowsOn s none w f = tt
  after_flush-FlowsOn s (some shutdown) w f = f
  after_flush-FlowsOn s (some success) w f = finish_io-FlowsOn results.wants_behind success s w f
  after_flush-FlowsOn s (some again) w f = finish_io-FlowsOn results.wants_behind again s w f

  sent_on :
      (sent output made wire rest more : Bytes)
      → sent ++ output ≡ made
      → wire ++ rest ≡ output ++ more
      → (sent ++ wire) ++ rest ≡ made ++ more
  sent_on sent output made wire rest more e m =
      append_assoc sent wire rest
      ∙ ap (◌++◌ sent) m
      ∙ sym (append_assoc sent output more)
      ∙ ap (λ x. x ++ more) e

  handle_write-FlowsOn :
      (s : SessionData) (w : Worker) → Flowing sock s w → FlowsOn (handle_write sock results s w)
  unfolding handle_write
  handle_write-FlowsOn s w f =
      by_filled (fill_output_buffer results.chunks s) (fill_output-Filled results.chunks s)
    where
      by_filled :
          (o : Option SessionData)
          → Filled results.chunks s o
          → FlowsOn (elim o [
            | none ↦ none
            | some filled ↦
                let (wire, s', result) = flush_output_buffer results filled w.use_tls in
                after_flush sock results s' result (
                  add_traffic sock
                    (record no_traffic { made = bytes_made results.chunks; sent = wire })
                    w)
          ])
      by_filled none m = tt
      by_filled (some filled) m =
          let flushed = flush_output_buffer results filled w.use_tls in
          let t = w.traffic sock in
          let more = record no_traffic { made = bytes_made results.chunks; sent = flushed.0 } in
          let h = flush-Split results filled w.use_tls in
          after_flush-FlowsOn flushed.1 flushed.2 (add_traffic sock more w) (
            add_traffic-Flowing sock s flushed.1 more w f
              (rw (h.0 ∙ m.0) (unchanged t.fed s.input_buffer t.received f.0.0))
              (sent_on t.sent s.output_buffer t.made flushed.0 flushed.1.output_buffer
                (bytes_made results.chunks) f.0.1 (h.1 ∙ m.1)))

  read_part-FlowsOn :
      (ev : ℕ) (s : SessionData) (w : Worker)
      → Flowing sock s w
      → FlowsOn (read_part sock results ev s w)
  unfolding read_part
  read_part-FlowsOn ev s w f = by_test (not (bit_and ev epollin == 0) || check_close_event ev)
    where
      by_test :
          (b : Bool) → FlowsOn (if b then handle_read sock results s w else some (success, s, w))
      by_test true = handle_read-FlowsOn s w f
      by_test false = f

  write_part-FlowsOn :
      (ev : ℕ) (result : IoResult) (s : SessionData) (w : Worker)
      → Flowing sock s w
      → FlowsOn (write_part sock results ev result s w)
  unfolding write_part
  write_part-FlowsOn ev result s w f = by_test (
      is_success result
      && (not (bit_and ev epollout == 0)
          || (not (is_empty s.output_buffer) || results.wants.write)))
    where
      by_test :
          (b : Bool) → FlowsOn (if b then handle_write sock results s w else some (result, s, w))
      by_test true = handle_write-FlowsOn s w f
      by_test false = f

  end_part-Flows :
      (ev : ℕ) (result : IoResult) (s : SessionData) (w : Worker)
      → Flowing sock s w
      → Flows (end_part sock results ev result s w)
  unfolding end_part
  end_part-Flows ev result s w f = by_test (is_shutdown result || check_close_event ev)
    where
      by_test : (b : Bool) → Flows (if b then disconnect_from_client sock w else store sock s w)
      by_test true = disconnect-Flows sock s w f
      by_test false = store-Flows sock s w f

  after_write-Flows :
      (ev : ℕ) (o : Option (IoResult × SessionData × Worker))
      → FlowsOn o
      → FlowsAfter (after_write sock results ev o)
  unfolding after_write
  after_write-Flows ev none f = tt
  after_write-Flows ev (some (result, s, w)) f = end_part-Flows ev result s w f

  after_read-Flows :
      (ev : ℕ) (o : Option (IoResult × SessionData × Worker))
      → FlowsOn o
      → FlowsAfter (after_read sock results ev o)
  unfolding after_read
  after_read-Flows ev none f = tt
  after_read-Flows ev (some (result, s, w)) f =
      after_write-Flows ev (write_part sock results ev result s w)
        (write_part-FlowsOn ev result s w f)

  pub handle_events-Flows :
      (ev : ℕ) (s : SessionData) (w : Worker)
      → Flowing sock s w
      → FlowsAfter (handle_events sock results ev s w)
  unfolding handle_events
  handle_events-Flows ev s w f =
      after_read-Flows ev (read_part sock results ev s w) (read_part-FlowsOn ev s w f)
