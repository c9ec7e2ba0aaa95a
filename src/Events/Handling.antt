-- ===== src/Events/Handling.antt =====
-- What each handler does to its socket.
use h2_server.Prelude.{
  All, ℕ, ◌≡◌, ◌≢◌, refl, sym, subst, Bool, true, false, not, ◌||◌, Option, none, some, [], ◌∷◌,
  ◌++◌, ◌==◌, if◌then◌else◌, bit_and,
}
use h2_server.Connection.{
  IoResult, success, shutdown, again, SessionData, is_empty, IsSent, feed_input_buffer, feed_error,
  epollin, epollout,
}
use h2_server.Events.{
  Worker, Traffic, no_traffic, add_traffic, bytes_made, Results, fill_input_buffer,
  flush_output_buffer, called_back, is_shutdown, check_close_event, disconnect_from_client, store,
  after_feed, after_fill, handle_read, after_flush, handle_write, read_part, write_part, end_part,
  after_write, after_read, handle_events,
}
use h2_server.Events.Loops.{Returned, fill-Returned, flush-Moved, feed-Moved, fill_output-Kept}
use h2_server.Events.Watching.{
  Settled, Handling, Handled, keep-Handling, disconnect-Handled, store-Handled,
}
use h2_server.Events.Awake.{GoesOn, finish_io-GoesOn}

module _ (sock : ℕ) (results : Results) (w0 : Worker) (sent : All IsSent results.chunks) where
  -- It returns, and goes on.
  abbrev Returns : Option (IoResult × SessionData × Worker) → Type 0
  Returns none = ⊥
  Returns (some r) = GoesOn sock w0 r

  shut : (s : SessionData) (w : Worker) → Handling sock w0 s w → GoesOn sock w0 (shutdown, s, w)
  shut s w h = (h, λ e. absurd cc)

  -- A session that settled before it is handled further.
  abbrev Ready : SessionData → Worker → Type 0
  Ready s w = Handling sock w0 s w × Settled s.state

  abbrev IsSome : Option IoResult → Type 0
  IsSome none = ⊥
  IsSome (some result) = Unit

  returned :
      (s s' : SessionData) (result : Option IoResult) (w : Worker)
      → Ready s w
      → Returned s (s', result)
      → Ready s' w × IsSome result
  returned s s' none w r k = absurd k
  returned s s' (some result) w r k =
      ((keep-Handling sock w0 s s' w r.0 k.0, subst Settled (sym k.1) r.1), tt)

  called_back-Ready :
      (goaway : Bool) (s : SessionData) (w : Worker) → Ready s w → Ready (called_back goaway s) w
  called_back-Ready true s w r = (keep-Handling sock w0 s _ w r.0 refl, tt)
  called_back-Ready false s w r = r

  add_traffic-Ready :
      (s : SessionData) (w : Worker) (more : Traffic)
      → Ready s w
      → Ready s (add_traffic sock more w)
  unfolding add_traffic
  add_traffic-Ready s w more r = (
    record {
      same_map = r.0.same_map;
      same_closed = r.0.same_closed;
      elsewhere = r.0.elsewhere;
      watched = r.0.watched;
    },
    r.1,
  )

  after_feed-Returns :
      (s : SessionData) (result : Option IoResult) (w : Worker)
      → Ready s w
      → IsSome result
      → Returns (after_feed sock results s result w)
  unfolding after_feed
  after_feed-Returns s none w r i = i
  after_feed-Returns s (some shutdown) w r i = shut s w r.0
  after_feed-Returns s (some success) w r i =
      finish_io-GoesOn sock w0 results.wants success s w r.0 r.1
  after_feed-Returns s (some again) w r i =
      finish_io-GoesOn sock w0 results.wants success s w r.0 r.1

  fed-Returns :
      (s : SessionData) (w : Worker)
      → Ready s w
      → Returns (after_fill sock results s (some success) w)
  unfolding after_fill
  fed-Returns s w r =
      let fed = feed_input_buffer (results.feeds ++ feed_error ∷ []) s in
      let next = returned s fed.1 fed.2 w r (feed-Moved results.feeds s) in
      after_feed-Returns (called_back results.goaway fed.1) fed.2 _
        (add_traffic-Ready _ w _ (called_back-Ready results.goaway fed.1 w next.0)) next.1

  after_fill-Returns :
      (s : SessionData) (result : Option IoResult) (w : Worker)
      → Ready s w
      → IsSome result
      → Returns (after_fill sock results s result w)
  unfolding after_fill
  after_fill-Returns s none w r i = i
  after_fill-Returns s (some shutdown) w r i = shut s w r.0
  after_fill-Returns s (some success) w r i = fed-Returns s w r
  after_fill-Returns s (some again) w r i = fed-Returns s w r

  handle_read-Returns :
      (s : SessionData) (w : Worker) → Ready s w → Returns (handle_read sock results s w)
  unfolding handle_read
  handle_read-Returns s w r =
      let filled = fill_input_buffer results s w.use_tls in
      let next = returned s filled.0 filled.1 w r (fill-Returned results s w.use_tls) in
      after_fill-Returns filled.0 filled.1 _ (add_traffic-Ready filled.0 w _ next.0) next.1

  after_flush-Returns :
      (s : SessionData) (result : Option IoResult) (w : Worker)
      → Ready s w
      → IsSome result
      → Returns (after_flush sock results s result w)
  unfolding after_flush
  after_flush-Returns s none w r i = i
  after_flush-Returns s (some shutdown) w r i = shut s w r.0
  after_flush-Returns s (some success) w r i =
      finish_io-GoesOn sock w0 results.wants_behind success s w r.0 r.1
  after_flush-Returns s (some again) w r i =
      finish_io-GoesOn sock w0 results.wants_behind again s w r.0 r.1

  handle_write-Returns :
      (s : SessionData) (w : Worker) → Ready s w → Returns (handle_write sock results s w)
  unfolding handle_write
  handle_write-Returns s w r =
      let (s1, filled, k) = fill_output-Kept results.chunks s sent in
      rw (filled, handle_write)
        (let r1 : Ready s1 w = (returned s s1 (some success) w r k).0 in
          let flushed = flush_output_buffer results s1 w.use_tls in
          let next = returned s1 flushed.1 flushed.2 w r1 (flush-Moved results s1 w.use_tls) in
          after_flush-Returns flushed.1 flushed.2
            (add_traffic sock
              (record no_traffic { made = bytes_made results.chunks; sent = flushed.0 }) w)
            (add_traffic-Ready flushed.1 w _ next.0) next.1)

  read_part-Returns :
      (ev : ℕ) (s : SessionData) (w : Worker)
      → Ready s w
      → s.events ≢ 0
      → Returns (read_part sock results ev s w)
  unfolding read_part
  read_part-Returns ev s w r awake = by_test (not (bit_and ev epollin == 0) || check_close_event ev)
    where
      by_test :
          (b : Bool) → Returns (if b then handle_read sock results s w else some (success, s, w))
      by_test true = handle_read-Returns s w r
      by_test false = (r.0, λ e. (awake, r.1))

  write_part-Returns :
      (ev : ℕ) (result : IoResult) (s : SessionData) (w : Worker)
      → GoesOn sock w0 (result, s, w)
      → Returns (write_part sock results ev result s w)
  unfolding write_part
  write_part-Returns ev success s w g =
      by_test
        (not (bit_and ev epollout == 0) || (not (is_empty s.output_buffer) || results.wants.write))
    where
      by_test :
          (b : Bool) → Returns (if b then handle_write sock results s w else some (success, s, w))
      by_test true = handle_write-Returns s w (g.0, (g.1 refl).1)
      by_test false = g
  write_part-Returns ev again s w g = g
  write_part-Returns ev shutdown s w g = g

  end_part-Handled :
      (ev : ℕ) (result : IoResult) (s : SessionData) (w : Worker)
      → GoesOn sock w0 (result, s, w)
      → Handled sock w0 (end_part sock results ev result s w)
  unfolding end_part
  end_part-Handled ev result s w g = by_test (is_shutdown result) (check_close_event ev) g.1
    where
      by_test :
          (a b : Bool)
          → (a ≡ false → (s.events ≢ 0) × Settled s.state)
          → Handled sock w0 (if a || b then disconnect_from_client sock w else store sock s w)
      by_test true b on = disconnect-Handled sock w0 s w g.0
      by_test false true on = disconnect-Handled sock w0 s w g.0
      by_test false false on = store-Handled sock w0 s w g.0 (on refl).0 (on refl).1

  abbrev pub Ends : Option Worker → Type 0
  Ends none = ⊥
  Ends (some w) = Handled sock w0 w

  after_write-Ends :
      (ev : ℕ) (o : Option (IoResult × SessionData × Worker))
      → Returns o
      → Ends (after_write sock results ev o)
  unfolding after_write
  after_write-Ends ev none g = g
  after_write-Ends ev (some (result, s, w)) g = end_part-Handled ev result s w g

  after_read-Ends :
      (ev : ℕ) (o : Option (IoResult × SessionData × Worker))
      → Returns o
      → Ends (after_read sock results ev o)
  unfolding after_read
  after_read-Ends ev none g = g
  after_read-Ends ev (some (result, s, w)) g =
      after_write-Ends ev _ (write_part-Returns ev result s w g)

  -- An event on a session that waits for events.
  pub handle_events-Ends :
      (ev : ℕ) (s : SessionData) (w : Worker)
      → Handling sock w0 s w
      → s.events ≢ 0
      → Settled s.state
      → Ends (handle_events sock results ev s w)
  unfolding handle_events
  handle_events-Ends ev s w h awake settled =
      after_read-Ends ev _ (read_part-Returns ev s w (h, settled) awake)
