-- ===== src/Events/Sessions.antt =====
-- A sound worker, and what handling one event does to it.
use h2_server.Prelude.{
  ℕ, ◌+◌, ◌≤◌, ◌≡◌, ◌≢◌, refl, sym, ap, ap₂, subst, ◌∙◌, false, Option, none, some, List, [], ◌∷◌,
  ◌++◌, ◌==◌, if◌then◌else◌, arith, inl, inr, Bool-cases, ==_refl,
}
use h2_server.Connection.{SessionData}
use h2_server.Events.{Worker}
use h2_server.Events.Handshake.{Event, new_socket, socket_event}
use h2_server.Events.Watching.{Settled, Outcome, gone, kept, Handled}

-- A session in the map is watched by epoll for the events that it records, which are some, and is in a
-- state in which it waits; any other socket is not watched.
abbrev pub Waits : Option SessionData → Option ℕ → Type 0
Waits none watched = watched ≡ none
Waits (some s) watched = (watched ≡ some s.events) × (s.events ≢ 0) × Settled s.state

unfoldable pub Sound : Worker → Type 0
Sound w = (sock : ℕ) → Waits (w.session_map sock) (w.interest sock)

abbrev pub times : ℕ → List ℕ → ℕ
times sock [] = 0
times sock (x ∷ xs) = (if x == sock then 1 else 0) + times sock xs

pub times-append :
    (sock : ℕ) (xs ys : List ℕ) → times sock (xs ++ ys) ≡ times sock xs + times sock ys
times-append sock [] ys = omega arith
times-append sock (x ∷ xs) ys = let rest = times-append sock xs ys in ground (arith, rest)

abbrev pub one_if : Option SessionData → ℕ
one_if none = 0
one_if (some s) = 1

-- How often a socket has been closed, with one for a session in the map.
abbrev pub accounted : ℕ → Worker → ℕ
accounted sock w = times sock w.closed + one_if (w.session_map sock)

-- The sockets among the events that are new.
abbrev pub new_sockets : List Event → List ℕ
new_sockets [] = []
new_sockets (new_socket sock opening ∷ events) = sock ∷ new_sockets events
new_sockets (socket_event sock ev results opening ∷ events) = new_sockets events

module _ (sock : ℕ) (w0 w1 : Worker) (h : Handled sock w0 w1) where
  Outcome-Waits : Outcome sock w0 w1 → Waits (w1.session_map sock) (w1.interest sock)
  Outcome-Waits (gone e i c) = rw e i
  Outcome-Waits (kept s e i awake settled c) = rw e (i, awake, settled)

  pub Handled-Sound :
      ((other : ℕ) → (sock == other) ≡ false → Waits (w0.session_map other) (w0.interest other))
      → Sound w1
  unfolding Sound
  Handled-Sound before other = elim (Bool-cases (sock == other)) [
    | inl e ↦
        subst (λ (n : ℕ). Waits (w1.session_map n) (w1.interest n)) (ground arith)
          (Outcome-Waits h.here)
    | inr e ↦ rw (h.other_map other e, h.other_interest other e) (before other e)
  ]

  Outcome-accounted : Outcome sock w0 w1 → accounted sock w1 ≡ times sock w0.closed + 1
  Outcome-accounted (gone e i c) =
      let own = ==_refl sock in
      rw (e, c, times-append sock w0.closed (sock ∷ []), own) (omega arith)
  Outcome-accounted (kept s e i awake settled c) = rw (e, c) refl

  Outcome-other :
      (other : ℕ)
      → (sock == other) ≡ false
      → Outcome sock w0 w1
      → times other w1.closed ≡ times other w0.closed
  Outcome-other other ne (gone e i c) =
      rw (c, times-append other w0.closed (sock ∷ []), ne) (omega arith)
  Outcome-other other ne (kept s e i awake settled c) = ap (times other) c

  -- A socket with a session is accounted for as before.
  pub Handled-accounted :
      (s : SessionData)
      → w0.session_map sock ≡ some s
      → (other : ℕ) → accounted other w1 ≡ accounted other w0
  Handled-accounted s there other = elim (Bool-cases (sock == other)) [
    | inl e ↦
        subst (λ (n : ℕ). accounted n w1 ≡ accounted n w0) (ground arith)
          (Outcome-accounted h.here ∙ sym (rw there refl))
    | inr e ↦ ap₂ (λ (c : ℕ) o. c + one_if o) (Outcome-other other e h.here) (h.other_map other e)
  ]

  -- What has been closed stays in the list.
  pub Handled-closed : (other : ℕ) → times other w0.closed ≤ times other w1.closed
  Handled-closed other = by_outcome h.here
    where
      by_outcome : Outcome sock w0 w1 → times other w0.closed ≤ times other w1.closed
      by_outcome (gone e i c) = rw (c, times-append other w0.closed (sock ∷ [])) (omega arith)
      by_outcome (kept s e i awake settled c) = rw c (omega arith)
