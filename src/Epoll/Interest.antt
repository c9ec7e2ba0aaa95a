-- ===== src/Epoll/Interest.antt =====
-- epoll's entries are the interest list of a worker.
use h2_server.Prelude.{
  sym, ap, false, ◌≢◌, ◌⊎◌, ℕ, ◌<◌, ◌≡◌, refl, ◌∙◌, Bool, true, Option, none, some, ◌==◌, ltb, inl,
  inr, arith, Bool-cases,
}
use mathlib.Core.Option
use h2_server.Connection.{SessionData, epollin}
use h2_server.Events.{Worker, put, apply, disconnect_from_client}
use h2_server.Events as Events
use h2_server.Epoll.{
  Epoll, done, not_there, with_flags, set_event, listens, create_listening_socket, create_epoll,
  startup,
}

module _ {E : Type 0} (epoll : Epoll E) where
  -- The calls of `set_event`, and of EPOLL_CTL_DEL, fail with ENOENT only.
  abbrev pub SetWorks : ℕ → ℕ → E → Type 0
  SetWorks sock events e =
      ((epoll.ctl_mod sock (with_flags events) e).1 ≡ done)
      ⊎ (((epoll.ctl_mod sock (with_flags events) e).1 ≡ not_there)
          × ((epoll.ctl_add sock (with_flags events) (epoll.ctl_mod sock (with_flags events) e).0).1
              ≡ done))

  abbrev pub DelWorks : ℕ → E → Type 0
  DelWorks sock e = ((epoll.ctl_del sock e).1 ≡ done) ⊎ ((epoll.ctl_del sock e).1 ≡ not_there)

  pub set_event-watches :
      (sock events : ℕ) (e : E) (other : ℕ)
      → SetWorks sock events e
      → epoll.watches (set_event epoll sock events e) other
        ≡ put sock (some (with_flags events)) (epoll.watches e) other
  unfolding set_event
  set_event-watches sock events e other (inl changed) =
      rw (changed, set_event) (epoll.mod_done sock (with_flags events) e changed other)
  set_event-watches sock events e other (inr (absent, added)) =
      let e' = (epoll.ctl_mod sock (with_flags events) e).0 in
      rw (absent, set_event)
        (epoll.add_done sock (with_flags events) e' added other
          ∙ ap (λ x. put sock (some (with_flags events)) (epoll.watches x) other)
              (epoll.mod_absent sock (with_flags events) e absent))

  del-watches :
      (sock : ℕ) (e : E) (other : ℕ)
      → DelWorks sock e
      → epoll.watches (epoll.ctl_del sock e).0 other ≡ put sock none (epoll.watches e) other
  del-watches sock e other (inl removed) = epoll.del_done sock e removed other
  del-watches sock e other (inr absent) =
      let (same, unwatched) = epoll.del_absent sock e absent in
      ap (λ x. epoll.watches x other) same ∙ elim (Bool-cases (sock == other)) [
        | inl here ↦
            let same_sock : sock ≡ other = ground arith in
            rw here (ap (epoll.watches e) (sym same_sock) ∙ unwatched)
        | inr elsewhere ↦ rw elsewhere refl
      ]

  -- The entries are those that the worker has asked for, with the flags that every call has, and the one of
  -- the eventfd, for EPOLLIN alone.
  unfoldable pub Represents : ℕ → E → Worker → Type 0
  Represents signal_fd e w =
      (epoll.watches e signal_fd ≡ some epollin)
      × ((sock : ℕ)
          → sock ≢ signal_fd
          → epoll.watches e sock ≡ Option.map with_flags (w.interest sock))

  flags_put :
      (sock other : ℕ) (events : Option ℕ) (interest : ℕ → Option ℕ)
      → put sock (Option.map with_flags events) (λ n. Option.map with_flags (interest n)) other
        ≡ Option.map with_flags (put sock events interest other)
  flags_put sock other events interest = elim (Bool-cases (sock == other)) [
    | inl e ↦ rw e refl
    | inr e ↦ rw e refl
  ]

  put_same :
      (sock other : ℕ) (events : Option ℕ) (f g : ℕ → Option ℕ)
      → f other ≡ g other
      → put sock events f other ≡ put sock events g other
  put_same sock other events f g e = elim (Bool-cases (sock == other)) [
    | inl here ↦ rw here refl
    | inr elsewhere ↦ rw elsewhere e
  ]

  -- The call of `update_event`, if it makes one.
  unfoldable pub update_watched : ℕ → Option ℕ → E → E
  update_watched sock none e = e
  update_watched sock (some events) e = set_event epoll sock events e

  abbrev pub UpdateWorks : ℕ → Option ℕ → E → Type 0
  UpdateWorks sock none e = Unit
  UpdateWorks sock (some events) e = SetWorks sock events e

  module _ (signal_fd : ℕ) where
    represented :
        (sock : ℕ) (events : Option ℕ) (e e' : E) (w : Worker)
        → sock ≢ signal_fd
        → Represents signal_fd e w
        → ((other : ℕ)
            → epoll.watches e' other
              ≡ put sock (Option.map with_flags events) (epoll.watches e) other)
        → (epoll.watches e' signal_fd ≡ some epollin)
          × ((other : ℕ)
              → other ≢ signal_fd
              → epoll.watches e' other ≡ Option.map with_flags (put sock events w.interest other))
    unfolding Represents
    represented sock events e e' w ne r changed = (
      (let away : (sock == signal_fd) ≡ false = ground arith in changed signal_fd ∙ rw away r.0),
      λ other other_ne.
          changed other
          ∙ put_same sock other (Option.map with_flags events) (epoll.watches e)
              (λ n. Option.map with_flags (w.interest n)) (r.1 other other_ne)
          ∙ flags_put sock other events w.interest,
    )

    update_watched-Represents :
        (sock : ℕ) (r : SessionData × Option ℕ) (e : E) (w : Worker)
        → sock ≢ signal_fd
        → UpdateWorks sock r.1 e
        → Represents signal_fd e w
        → Represents signal_fd (update_watched sock r.1 e) (apply sock r w).1
    unfolding update_watched apply Events.set_event Represents
    update_watched-Represents sock (s, none) e w ne works r = r
    update_watched-Represents sock (s, some events) e w ne works r =
        represented sock (some events) e (set_event epoll sock events e) w ne r
          (λ other. set_event-watches sock events e other works)

    disconnect-Represents :
        (sock : ℕ) (e : E) (w : Worker)
        → sock ≢ signal_fd
        → DelWorks sock e
        → Represents signal_fd e w
        → Represents signal_fd (epoll.ctl_del sock e).0 (disconnect_from_client sock w)
    unfolding disconnect_from_client Represents
    disconnect-Represents sock e w ne works r =
        represented sock none e (epoll.ctl_del sock e).0 w ne r
          (λ other. del-watches sock e other works)

    -- Let epoll's entries be what a worker has asked for, each with EPOLLET and EPOLLRDHUP, and the eventfd
    -- for EPOLLIN alone. They are so again behind the call that `update_event` makes for a client's socket,
    -- and behind the one of `disconnect_from_client`, whether the socket had an entry or not, if
    -- `epoll_ctl` fails with ENOENT only.
    pub calls-Represents :
        (sock : ℕ) (r : SessionData × Option ℕ) (e : E) (w : Worker)
        → sock ≢ signal_fd
        → UpdateWorks sock r.1 e
        → DelWorks sock e
        → Represents signal_fd e w
        → Represents signal_fd (update_watched sock r.1 e) (apply sock r w).1
          × Represents signal_fd (epoll.ctl_del sock e).0 (disconnect_from_client sock w)
    calls-Represents sock r e w ne updates deletes before = (
      update_watched-Represents sock r e w ne updates before,
      disconnect-Represents sock e w ne deletes before,
    )

  -- Where every call of `startup` succeeds, on an epoll object without entries, the socket listens, and
  -- it is the only one that is watched, for EPOLLIN.
  pub startup-watches :
      (sock epfd : ℕ) (listened : ℕ → Bool) (e : E)
      → 0 < sock
      → 0 < epfd
      → listened sock ≡ true
      → ((n : ℕ) → epoll.watches e n ≡ none)
      → SetWorks sock epollin e
      → (e' : E) × (startup epoll (some sock) true listened (some (epfd, e)) ≡ listens sock e')
        × ((other : ℕ)
            → epoll.watches e' other ≡ put sock (some (with_flags epollin)) (λ n. none) other)
  unfolding startup create_listening_socket create_epoll
  startup-watches sock epfd listened e ps pe heard empty works =
      let positive : ltb 0 sock ≡ true = ground arith in
      let positive' : ltb 0 epfd ≡ true = ground arith in
      (
        set_event epoll sock epollin e,
        rw (positive, heard, positive', startup, create_listening_socket, create_epoll) refl,
        λ other.
            set_event-watches sock epollin e other works
            ∙ put_same sock other (some (with_flags epollin)) (epoll.watches e) (λ n. none)
                (empty other),
      )
