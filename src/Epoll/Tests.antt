-- ===== src/Epoll/Tests.antt =====
-- An epoll object whose entries are a function.
use h2_server.Prelude.{arith, inl, inr, ℕ, ◌≡◌, ◌≢◌, refl, false, Option, none, some, []}
use h2_server.Epoll.{Epoll, CtlResult, done, not_there}
use h2_server.Connection.{epollin}
use h2_server.Events.{Worker, put, apply, disconnect_from_client}
use h2_server.Epoll.Interest.{Represents, update_watched, calls-Represents}
use h2_server.Events.{no_traffic}
use h2_server.Events.Handshake.{new_session}

abbrev Entries : Type 0
Entries = ℕ → Option ℕ

abbrev modify : ℕ → ℕ → Entries → Option ℕ → Entries × CtlResult
modify fd events e none = (e, not_there)
modify fd events e (some x) = (put fd (some events) e, done)

modify_done :
    (fd events : ℕ) (e : Entries) (o : Option ℕ)
    → (modify fd events e o).1 ≡ done
    → (other : ℕ) → (modify fd events e o).0 other ≡ put fd (some events) e other
modify_done fd events e none h other = absurd cc
modify_done fd events e (some x) h other = refl

modify_absent :
    (fd events : ℕ) (e : Entries) (o : Option ℕ)
    → (modify fd events e o).1 ≡ not_there
    → (modify fd events e o).0 ≡ e
modify_absent fd events e none h = refl
modify_absent fd events e (some x) h = absurd cc

abbrev entries : Epoll Entries
entries = record {
  watches = λ e fd. e fd;
  ctl_mod = λ fd events e. modify fd events e (e fd);
  ctl_add = λ fd events e. (put fd (some events) e, done);
  ctl_del = λ fd e. (put fd none e, done);
  mod_done = λ fd events e h other. modify_done fd events e (e fd) h other;
  mod_absent = λ fd events e h. modify_absent fd events e (e fd) h;
  add_done = λ fd events e h other. refl;
  del_done = λ fd e h other. refl;
  del_absent = λ fd e h. absurd cc;
}

abbrev started : Worker
started = record {
  use_tls = false;
  session_map = λ sock. none;
  interest = λ sock. none;
  closed = [];
  traffic = λ sock. no_traffic;
}

-- The eventfd is 5.
abbrev beginning : Entries
beginning = put 5 (some epollin) (λ n. none)

started-Represents : Represents entries 5 beginning started
unfolding Represents
started-Represents = (refl, λ sock ne. if_other sock ne)
  where
    if_other : (sock : ℕ) → sock ≢ 5 → beginning sock ≡ none
    if_other sock ne = ground arith

calls-Represents_example :
    Represents entries 5
      (update_watched entries 7 (some 1) beginning)
      (apply 7 (new_session, some 1) started).1
    × Represents entries 5 (put 7 none beginning) (disconnect_from_client 7 started)
calls-Represents_example =
    calls-Represents entries 5 7 (new_session, some 1) beginning started (omega arith)
      (inr (refl, refl)) (inl refl) started-Represents
