-- ===== src/Epoll.antt =====
-- The registration of sockets with epoll: `set_event` of src/worker.cc and of src/server.cc, which are the
-- same, the calls of `disconnect_from_client` (src/worker.cc), and `startup` of src/server.cc. The kernel's
-- side is an interface.
pub mod Interest
mod Tests
use h2_server.Prelude.{
  ℕ, ◌≡◌, ◌≢◌, Bool, true, false, Option, none, some, ◌==◌, if◌then◌else◌, bit_or, ltb,
}
use h2_server.Connection.{epollin}
use h2_server.Events.{put}

-- What `epoll_ctl` returns: 0, or -1 with ENOENT, or with another error.
pub data CtlResult : Type 0 where
  done not_there ctl_failed : CtlResult

-- An epoll instance: the documented behaviour of `epoll_ctl`, by what it returns. `watches` is the events
-- of an entry.
pub record Epoll (E : Type 0) : Type 0 where
  pub watches : E → ℕ → Option ℕ
  pub ctl_mod : ℕ → ℕ → E → E × CtlResult
  pub ctl_add : ℕ → ℕ → E → E × CtlResult
  pub ctl_del : ℕ → E → E × CtlResult
  pub mod_done :
      (fd events : ℕ) (e : E)
      → (ctl_mod fd events e).1 ≡ done
      → (other : ℕ) → watches (ctl_mod fd events e).0 other ≡ put fd (some events) (watches e) other
  pub mod_absent :
      (fd events : ℕ) (e : E) → (ctl_mod fd events e).1 ≡ not_there → (ctl_mod fd events e).0 ≡ e
  pub add_done :
      (fd events : ℕ) (e : E)
      → (ctl_add fd events e).1 ≡ done
      → (other : ℕ) → watches (ctl_add fd events e).0 other ≡ put fd (some events) (watches e) other
  pub del_done :
      (fd : ℕ) (e : E)
      → (ctl_del fd e).1 ≡ done
      → (other : ℕ) → watches (ctl_del fd e).0 other ≡ put fd none (watches e) other
  pub del_absent :
      (fd : ℕ) (e : E)
      → (ctl_del fd e).1 ≡ not_there
      → ((ctl_del fd e).0 ≡ e) × (watches e fd ≡ none)

-- `events | EPOLLET | EPOLLRDHUP`
abbrev pub with_flags : ℕ → ℕ
with_flags events = bit_or (bit_or events 2147483648) 8192

-- What `Server::startup` ends in: the process exits with a status, or a socket listens.
pub data Startup (E : Type 0) : Type 0 where
  exits : ℕ → Startup E
  listens : ℕ → E → Startup E

module _ {E : Type 0} (epoll : Epoll E) where
  unfoldable pub set_event : ℕ → ℕ → E → E
  set_event sock events e =
      let (e', result) = epoll.ctl_mod sock (with_flags events) e in
      elim result [
        | done ↦ e'
        | not_there ↦ (epoll.ctl_add sock (with_flags events) e').0
        | ctl_failed ↦ e'
      ]

  -- What `socket` gives, whether `bind` succeeds; `none` is the exception. No socket is -1.
  unfoldable pub create_listening_socket : Option ℕ → Bool → Option (Option ℕ)
  create_listening_socket none bound = some none
  create_listening_socket (some sock) bound =
      if ltb 0 sock then (if bound then some (some sock) else none) else some (some sock)

  -- The descriptor of the epoll object, with the object; the number 0 is taken for an error.
  unfoldable pub create_epoll : Option (ℕ × E) → Option E
  create_epoll none = none
  create_epoll (some (epfd, e)) = if ltb 0 epfd then some e else none

  -- `listened` is what `listen` does on a descriptor; on -1 it fails.
  unfoldable pub startup : Option ℕ → Bool → (ℕ → Bool) → Option (ℕ × E) → Startup E
  unfolding set_event create_listening_socket create_epoll
  startup socket bound listened epoll_create = elim (create_listening_socket socket bound) [
    | none ↦ exits 0
    | some none ↦ exits 0
    | some (some server_sock) ↦
        if listened server_sock
        then (elim (create_epoll epoll_create) [
          | none ↦ exits 0
          | some e ↦ listens server_sock (set_event server_sock epollin e)
        ])
        else exits 0
  ]
