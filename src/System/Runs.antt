-- ===== src/System/Runs.antt =====
-- The sockets of the whole server, over any run of its threads.
use h2_server.Prelude.{
  ℕ, ◌+◌, ◌≤◌, ◌≡◌, refl, sym, ap, subst, ◌∙◌, Option, none, some, List, [], ◌∷◌, length, ◌==◌,
  arith, Bool-cases, inl, inr,
}
use h2_server.LoadBalancer.Accept.{Server}
use h2_server.LoadBalancer.Accept.Delivery.{IsSound, dispatch-Dispatched}
use h2_server.Events.Sessions.{times}
use h2_server.System.{System, Action, accepts, takes_one, client, step, run}
use h2_server.System.Accepts.{Adds, dispatch-Adds}
use h2_server.System.Placed.{places, closes, IsPlaced, Steps, Happens, accepted_by}
use h2_server.System.Steps.{take_round-Steps, client_event-Steps}

-- A socket that is in no place may get one.
room :
    (sock other : ℕ) (sys : System)
    → IsPlaced sys
    → places sock sys ≡ 0
    → places other sys + times other (sock ∷ []) ≤ 1
room sock other sys h fresh = elim (Bool-cases (sock == other)) [
  | inl e ↦
      let same : sock ≡ other = ground arith in
      let none_there : places other sys ≡ 0 = ap (λ n. places n sys) (sym same) ∙ fresh in
      rw (e, none_there) (omega arith)
  | inr e ↦ rw e (omega (arith, h.single other))
]

module _ (sock : ℕ) (sys : System) (h : IsPlaced sys) (fresh : places sock sys ≡ 0) (after : Server)
    (sound : IsSound after) (as_many : length after.workers ≡ length sys.server.workers)
    (adds : Adds sock sys.server after) where
  added_counted :
      (other : ℕ)
      → places other (record sys { server = after }) + closes other (record sys { server = after })
        ≡ places other sys + closes other sys + times other (sock ∷ [])
  unfolding places closes
  added_counted other = omega (arith, adds.counted other)

  added-closes : (other : ℕ) → closes other sys ≤ closes other (record sys { server = after })
  unfolding closes
  added-closes other = omega (arith, adds.closed other)

  added : Steps (accepts sock) sys (some (record sys { server = after }))
  added = (
    record sys { server = after },
    refl,
    record {
      server = sound;
      as_many = h.as_many ∙ sym as_many;
      workers = h.workers;
      flows = h.flows;
      single = λ other.
          omega (arith, room sock other sys h fresh, added_counted other, added-closes other);
    },
    added_counted,
  )

step-Steps :
    (action : Action) (sys : System)
    → IsPlaced sys
    → Happens action sys
    → Steps action sys (step action sys)
unfolding step
step-Steps (accepts sock) sys h fresh =
    let d = dispatch-Dispatched sock sys.server h.server in
    let adds = dispatch-Adds sock sys.server d.after h.server.queues d.returns in
    rw (d.returns, step) (added sock sys h fresh d.after d.sound d.as_many adds)
step-Steps (takes_one index opening) sys h there =
    take_round-Steps index opening sys h there.0 there.1
step-Steps (client index sock ev results opening) sys h there =
    client_event-Steps index sock ev results opening sys h there.0 there.1

abbrev pub Then : Option System → (System → Type 0) → Type 0
Then none P = Unit
Then (some sys) P = P sys

-- Each action can happen where the ones before it have led.
abbrev pub AllHappen : List Action → System → Type 0
AllHappen [] sys = Unit
AllHappen (action ∷ actions) sys =
    Happens action sys × Then (step action sys) (λ sys'. AllHappen actions sys')

times-accepted_by :
    (sock : ℕ) (action : Action) (actions : List Action)
    → times sock (accepted_by (action ∷ actions))
      ≡ times sock (accepted_by (action ∷ [])) + times sock (accepted_by actions)
times-accepted_by sock (accepts x) actions = omega arith
times-accepted_by sock (takes_one index opening) actions = omega arith
times-accepted_by sock (client index x ev results opening) actions = omega arith

-- Let the server be sound, with a sound worker for each of its queues whose connections' bytes balance, and
-- each socket in at most one place: one of the queues, or the session map of one of the workers. Let
-- `accept4` only give descriptors that are in no place, `SSL_new` give an object for each new connection,
-- and `nghttp2_session_mem_send2` no negative result. Then any sequence of rounds of the acceptor and of
-- workers that are there, in any order, runs to its end: no index of a table, a ring or the workers is out of
-- range, and the assertion of `front` does not fail. The invariant holds again. For every socket, its places and the closes that were made of it have grown by as often as it
-- was accepted.
pub run-IsPlaced :
    (actions : List Action) (sys : System)
    → IsPlaced sys
    → AllHappen actions sys
    → (sys' : System) × (run actions sys ≡ some sys')
      × IsPlaced sys'
      × ((sock : ℕ)
          → places sock sys' + closes sock sys'
            ≡ places sock sys + closes sock sys + times sock (accepted_by actions))
unfolding run
run-IsPlaced [] sys h happen = (sys, refl, h, λ sock. omega arith)
run-IsPlaced (action ∷ actions) sys h happen =
    let (sys1, ran, h1, count1) = step-Steps action sys h happen.0 in
    let happen1 : AllHappen actions sys1 =
      subst (λ o. Then o (λ v. AllHappen actions v)) ran happen.1 in
    let (sys2, ran2, h2, count2) = run-IsPlaced actions sys1 h1 happen1 in
    (
      sys2,
      rw (ran, run) ran2,
      h2,
      λ sock. omega (arith, count1 sock, count2 sock, times-accepted_by sock action actions),
    )
