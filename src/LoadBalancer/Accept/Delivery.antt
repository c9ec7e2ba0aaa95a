-- ===== src/LoadBalancer/Accept/Delivery.antt =====
-- What becomes of the accepted sockets.
use h2_server.Prelude.{
  ◌∙◌, ap, ℕ, zero, suc, ◌^◌, ◌<◌, ◌≡◌, ◌≢◌, inl, inr, refl, sym, subst, ap₂, Bool, true, false,
  Option, none, some, List, [], ◌∷◌, ◌++◌, length, get_elem?, set, arith, map, Option-cases, All,
  All-set, All-get_elem?, append_assoc, append-nil, length-set,
}
use h2_server.CircularQueue.{CircularQueue}
use h2_server.CircularQueue as Queue
use h2_server.CircularQueue.Refine.{IsValid, push-IsValid, pop-IsValid, next-valid}
use h2_server.LoadBalancer.{Found, found, all_full, negative, is_full, acquire_worker_index}
use h2_server.LoadBalancer.Acquire.{Acquired, acquire_worker_index-Acquired}
use h2_server.LoadBalancer.Accept.{
  Event, connected, interrupted, exhausted, popped, Fate, queued, refused, dropped, Server,
  dispatch, take_one, handle_accept,
}

-- A table that has entries and names existing workers only, and sound queues.
pub record IsSound (s : Server) : Type 0 where
  pub slots : length s.indirect_table ≢ 0
  pub few : length s.workers < 2 ^ 31
  pub names : All (λ v. v < length s.workers) s.indirect_table
  pub queues : All IsValid s.workers

-- The sockets that `accept4` gives before it fails.
abbrev pub accepted : List Event → List ℕ
accepted [] = []
accepted (connected sock ∷ events) = sock ∷ accepted events
accepted (exhausted ∷ events) = []
accepted (_ ∷ events) = accepted events

abbrev pub socket : Fate → ℕ
socket (queued index sock) = sock
socket (refused sock) = sock
socket (dropped sock) = sock

-- The queue was found to have room, and has it still.
abbrev pub Settled : ℕ → Fate → Type 0
Settled n (queued index sock) = index < n
Settled n (refused sock) = Unit
Settled n (dropped sock) = ⊥

push_room :
    {q : CircularQueue ℕ} (x : ℕ) → IsValid q → Queue.is_full q ≡ false → (Queue.push q x).1 ≡ true
unfolding Queue.is_full Queue.push
push_room {q} x v room = ground (arith, next-valid v q.tail v.tail_in)

is_full_here :
    (queues : List (CircularQueue ℕ)) (i : ℕ) (b : Bool)
    → is_full queues i ≡ some b
    → (q : CircularQueue ℕ) × (get_elem? queues i ≡ some q) × (Queue.is_full q ≡ b)
unfolding is_full
is_full_here [] i b e = absurd cc
is_full_here (q ∷ queues) zero b e = (q, refl, cc)
is_full_here (q ∷ queues) (suc i) b e = is_full_here queues i b e

-- What one accepted socket leaves behind.
pub record Dispatched (sock : ℕ) (s : Server) (o : Option Server) : Type 0 where
  pub after : Server
  pub returns : o ≡ some after
  pub sound : IsSound after
  pub fate : Fate
  pub logged : after.fates ≡ s.fates ++ fate ∷ []
  pub same_socket : socket fate ≡ sock
  pub settled : Settled (length s.workers) fate
  pub as_many : length after.workers ≡ length s.workers

pub dispatch-Dispatched : (sock : ℕ) (s : Server) → IsSound s → Dispatched sock s (dispatch sock s)
unfolding dispatch
dispatch-Dispatched sock s h =
    by_answer (acquire_worker_index s.workers s.indirect_table sock) refl
      (acquire_worker_index-Acquired s.workers s.indirect_table sock h.slots h.few h.names)
  where
    by_answer :
        (o : Option (List ℕ × Found))
        → acquire_worker_index s.workers s.indirect_table sock ≡ o
        → Acquired s.workers s.indirect_table sock o
        → Dispatched sock s (dispatch sock s)
    by_answer none e a = elim a [ ]
    by_answer (some (t, all_full)) e a =
        rw (e, dispatch)
          record {
            after = record s { indirect_table = t; fates = s.fates ++ refused sock ∷ [] };
            returns = refl;
            sound = record {
              slots = subst (λ (x : List ℕ). length x ≢ 0) (sym a.0) h.slots;
              few = h.few;
              names = subst (λ (x : List ℕ). All (λ v. v < length s.workers) x) (sym a.0) h.names;
              queues = h.queues;
            };
            fate = refused sock;
            logged = refl;
            same_socket = refl;
            settled = tt;
            as_many = refl;
          }
    by_answer (some (t, negative n)) e a = elim a [ ]
    by_answer (some (t, found i)) e a =
        let (q, here, room) = is_full_here s.workers i false a.1 in
        let v = All-get_elem? IsValid s.workers i q h.queues here in
        let same_length = length-set s.workers i (Queue.push q sock).0 in
        rw (e, here, push_room sock v room, dispatch)
          record {
            after = record s {
              indirect_table = t;
              workers = set s.workers i (Queue.push q sock).0;
              fates = s.fates ++ queued i sock ∷ [];
            };
            returns = refl;
            sound = record {
              slots = rw a.4 h.slots;
              few = rw same_length h.few;
              names = rw same_length a.3;
              queues =
                  All-set IsValid s.workers i (Queue.push q sock).0 h.queues (push-IsValid sock v);
            };
            fate = queued i sock;
            logged = refl;
            same_socket = refl;
            settled = a.0;
            as_many = same_length;
          }

take_one-IsSound :
    (i : ℕ) (s : Server)
    → IsSound s
    → IsSound (take_one i s)
      × (length (take_one i s).workers ≡ length s.workers)
      × ((take_one i s).fates ≡ s.fates)
unfolding take_one
take_one-IsSound i s h = elim (Option-cases (get_elem? s.workers i)) [
  | inl e ↦ rw (e, take_one) (h, refl, refl)
  | inr (q, e) ↦
      let same_length = length-set s.workers i (Queue.pop q).0 in
      rw (e, take_one)
        (
          record {
            slots = h.slots;
            few = rw same_length h.few;
            names = rw same_length h.names;
            queues =
                All-set IsValid s.workers i (Queue.pop q).0 h.queues
                  (pop-IsValid (All-get_elem? IsValid s.workers i q h.queues e));
          },
          same_length,
          refl,
        )
]

-- What the loop leaves behind, `news` being the fates that it adds.
pub record Delivered (events : List Event) (s : Server) (o : Option Server) : Type 0 where
  pub after : Server
  pub returns : o ≡ some after
  pub sound : IsSound after
  pub news : List Fate
  pub logged : after.fates ≡ s.fates ++ news
  pub every_socket : map socket news ≡ accepted events
  pub settled : All (Settled (length s.workers)) news
  pub as_many : length after.workers ≡ length s.workers

-- From a sound server, and whatever `accept4` gives and the workers take between two rounds, the
-- loop makes no access out of range and leaves a sound server with as many workers. Each socket
-- accepted before the error that ends the loop, in order, is queued for an existing worker or
-- closed on the balancer's -1: the branch that closes it because the chosen queue is full is never
-- taken.
pub handle_accept-Delivered :
    (events : List Event) (s : Server) → IsSound s → Delivered events s (handle_accept events s)
unfolding handle_accept
handle_accept-Delivered [] s h = record {
  after = s;
  returns = refl;
  sound = h;
  news = [];
  logged = sym (append-nil s.fates);
  every_socket = refl;
  settled = tt;
  as_many = refl;
}
handle_accept-Delivered (connected sock ∷ events) s h =
    let d = dispatch-Dispatched sock s h in
    let r = handle_accept-Delivered events d.after d.sound in
    rw (d.returns, handle_accept)
      record {
        after = r.after;
        returns = r.returns;
        sound = r.sound;
        news = d.fate ∷ r.news;
        logged =
            r.logged ∙ ap (λ l. l ++ r.news) d.logged ∙ append_assoc s.fates (d.fate ∷ []) r.news;
        every_socket = ap₂ (λ x l. x ∷ l) d.same_socket r.every_socket;
        settled = (d.settled, subst (λ (n : ℕ). All (Settled n) r.news) d.as_many r.settled);
        as_many = r.as_many ∙ d.as_many;
      }
handle_accept-Delivered (interrupted ∷ events) s h =
    let r = handle_accept-Delivered events s h in
    record {
      after = r.after;
      returns = r.returns;
      sound = r.sound;
      news = r.news;
      logged = r.logged;
      every_socket = r.every_socket;
      settled = r.settled;
      as_many = r.as_many;
    }
handle_accept-Delivered (exhausted ∷ events) s h = record {
  after = s;
  returns = refl;
  sound = h;
  news = [];
  logged = sym (append-nil s.fates);
  every_socket = refl;
  settled = tt;
  as_many = refl;
}
handle_accept-Delivered (popped i ∷ events) s h =
    let (sound, same_length, same_fates) = take_one-IsSound i s h in
    let r = handle_accept-Delivered events (take_one i s) sound in
    record {
      after = r.after;
      returns = r.returns;
      sound = r.sound;
      news = r.news;
      logged = r.logged ∙ ap (λ l. l ++ r.news) same_fates;
      every_socket = r.every_socket;
      settled = subst (λ (n : ℕ). All (Settled n) r.news) same_length r.settled;
      as_many = r.as_many ∙ same_length;
    }
