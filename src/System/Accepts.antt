-- ===== src/System/Accepts.antt =====
-- What an accepted socket does to the places.
use h2_server.Prelude.{
  ℕ, ◌+◌, ◌-◌, ◌≤◌, ◌≡◌, refl, ap, subst, ◌∙◌, Bool, true, false, Option, none, some, List, [], ◌∷◌,
  ◌++◌, get_elem?, set, total-set, All, All-get_elem?, append-nil, arith, length, if◌then◌else◌,
  ◌==◌,
}
use h2_server.CircularQueue.{CircularQueue, push}
use h2_server.CircularQueue.Fifo.{flag, Reply}
use h2_server.CircularQueue.Refine.{IsValid, contents, push_refines}
use h2_server.LoadBalancer.{Found, found, all_full, negative, acquire_worker_index}
use h2_server.LoadBalancer.Accept.{Server, Fate, queued, refused, dropped, dispatch}
use h2_server.Events.Sessions.{times, times-append}
use h2_server.System.Placed.{closed_by, closed_by-append, in_queue, queues}

-- Queued, or closed.
data Effect (sock : ℕ) (s : Server) : Server → Type 0 where
  now_queued :
      (t : List ℕ) (i : ℕ) (q : CircularQueue ℕ)
      → get_elem? s.workers i ≡ some q
      → (push q sock).1 ≡ true
      → Effect sock s (record {
        indirect_table = t;
        workers = set s.workers i (push q sock).0;
        fates = s.fates ++ queued i sock ∷ [];
      })
  now_closed :
      (t : List ℕ) (fate : Fate)
      → closed_by (fate ∷ []) ≡ sock ∷ []
      → Effect sock s
          (record { indirect_table = t; workers = s.workers; fates = s.fates ++ fate ∷ [] })

abbrev EffectOf : ℕ → Server → Option Server → Type 0
EffectOf sock s none = Unit
EffectOf sock s (some s') = Effect sock s s'

dispatch-Effect : (sock : ℕ) (s : Server) → EffectOf sock s (dispatch sock s)
unfolding dispatch
dispatch-Effect sock s = by_answer (acquire_worker_index s.workers s.indirect_table sock)
  where
    pushed :
        (t : List ℕ) (i : ℕ) (q : CircularQueue ℕ) (b : Bool)
        → get_elem? s.workers i ≡ some q
        → (push q sock).1 ≡ b
        → EffectOf sock s (
            if b
            then some (record s {
              indirect_table = t;
              workers = set s.workers i (push q sock).0;
              fates = s.fates ++ queued i sock ∷ [];
            })
            else some (record s { indirect_table = t; fates = s.fates ++ dropped sock ∷ [] }))
    pushed t i q true e p = now_queued t i q e p
    pushed t i q false e p = now_closed t (dropped sock) refl

    by_queue :
        (t : List ℕ) (i : ℕ) (o : Option (CircularQueue ℕ))
        → get_elem? s.workers i ≡ o
        → EffectOf sock s (elim o [
          | none ↦ none
          | some queue ↦
              let (queue', accepted) = push queue sock in
              if accepted
              then some (record s {
                indirect_table = t;
                workers = set s.workers i queue';
                fates = s.fates ++ queued i sock ∷ [];
              })
              else some (record s { indirect_table = t; fates = s.fates ++ dropped sock ∷ [] })
        ])
    by_queue t i none e = tt
    by_queue t i (some q) e = pushed t i q (push q sock).1 e refl

    by_answer :
        (o : Option (List ℕ × Found))
        → EffectOf sock s (elim o [
          | none ↦ none
          | some (table, all_full) ↦
              some (record s { indirect_table = table; fates = s.fates ++ refused sock ∷ [] })
          | some (table, negative n) ↦
              some (record s { indirect_table = table; fates = s.fates ++ refused sock ∷ [] })
          | some (table, found index) ↦ elim (get_elem? s.workers index) [
            | none ↦ none
            | some queue ↦
                let (queue', accepted) = push queue sock in
                if accepted
                then some (record s {
                  indirect_table = table;
                  workers = set s.workers index queue';
                  fates = s.fates ++ queued index sock ∷ [];
                })
                else some
                    (record s { indirect_table = table; fates = s.fates ++ dropped sock ∷ [] })
          ]
        ])
    by_answer none = tt
    by_answer (some (t, all_full)) = now_closed t (refused sock) refl
    by_answer (some (t, negative n)) = now_closed t (refused sock) refl
    by_answer (some (t, found i)) = by_queue t i (get_elem? s.workers i) refl

-- A queue that accepts a socket has it at the end.
contents-push :
    (q : CircularQueue ℕ) (sock : ℕ)
    → IsValid q
    → (push q sock).1 ≡ true
    → contents 0 (push q sock).0 ≡ contents 0 q ++ sock ∷ []
contents-push q sock v accepted =
    by_length (length (contents 0 q) == q.capacity - 1) (push_refines 0 v sock)
  where
    by_length :
        (b : Bool)
        → ◌≡◌ {A = List ℕ × Reply ℕ}
            (contents 0 (push q sock).0, flag (push q sock).1)
            (if b then (contents 0 q, flag false) else (contents 0 q ++ sock ∷ [], flag true))
        → contents 0 (push q sock).0 ≡ contents 0 q ++ sock ∷ []
    by_length true e = absurd cc
    by_length false e = ap (λ r. r.0) e

-- A socket more, in a queue or closed.
pub record Adds (sock : ℕ) (s s' : Server) : Type 0 where
  pub counted :
      (other : ℕ)
      → queues other s' + times other (closed_by s'.fates)
        ≡ queues other s + times other (closed_by s.fates) + times other (sock ∷ [])
  pub closed : (other : ℕ) → times other (closed_by s.fates) ≤ times other (closed_by s'.fates)

Effect-Adds : (sock : ℕ) (s s' : Server) → All IsValid s.workers → Effect sock s s' → Adds sock s s'
Effect-Adds sock s s' valid (now_queued t i q e p) = record {
  counted = λ other.
      let q' = (push q sock).0 in
      let here = total-set (in_queue other) s.workers i q q' e in
      let more : in_queue other q' ≡ in_queue other q + times other (sock ∷ []) =
        ap (times other) (contents-push q sock (All-get_elem? IsValid s.workers i q valid e) p)
        ∙ times-append other (contents 0 q) (sock ∷ []) in
      rw (log other t i) (omega (arith, here, more));
  closed = λ other. rw (log other t i) (omega arith);
}
  where
    log :
        (other : ℕ) (t : List ℕ) (i : ℕ)
        → times other (closed_by (s.fates ++ queued i sock ∷ [])) ≡ times other (closed_by s.fates)
    log other t i =
        ap (times other) (closed_by-append s.fates (queued i sock ∷ []))
        ∙ ap (times other) (append-nil (closed_by s.fates))
Effect-Adds sock s s' valid (now_closed t fate e) = record {
  counted = λ other. rw (log other) (omega arith);
  closed = λ other. rw (log other) (omega arith);
}
  where
    log :
        (other : ℕ)
        → times other (closed_by (s.fates ++ fate ∷ []))
          ≡ times other (closed_by s.fates) + times other (sock ∷ [])
    log other =
        ap (times other) (closed_by-append s.fates (fate ∷ []) ∙ ap (◌++◌ (closed_by s.fates)) e)
        ∙ times-append other (closed_by s.fates) (sock ∷ [])

pub dispatch-Adds :
    (sock : ℕ) (s s' : Server) → All IsValid s.workers → dispatch sock s ≡ some s' → Adds sock s s'
dispatch-Adds sock s s' valid e =
    Effect-Adds sock s s' valid (subst (EffectOf sock s) e (dispatch-Effect sock s))
