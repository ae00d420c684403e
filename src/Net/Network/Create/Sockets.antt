-- ===== src/Net/Network/Create/Sockets.antt =====
-- ANetworkSession.cpp, `createClientOrServer`: the two ways it returns, and which sockets it
-- closes.
use how_to_miracast_on_aosp.Prelude.{
  ℕ, ◌+◌, ◌^◌, ◌<◌, ◌≤◌, ◌≡◌, refl, ap, ◌∙◌, Bool, true, false, List, [], ◌∷◌, ◌++◌, some, arith,
  ◌==◌, if◌then◌else◌, inl, inr, ◌⊎◌,
}
use how_to_miracast_on_aosp.Prelude.Outcome.{done, fault, Ensures}
use how_to_miracast_on_aosp.Net.Session.Notice.{einprogress}
use how_to_miracast_on_aosp.Net.Network.{
  Network, Answer, Answer-cases, result, failure, Lookup, found, unknown, SockAddr, Call,
  open_socket, close_socket, interrupt, next_id, add, lookup, connect, bind, listen, receive_buffer,
  send_buffer, reuse_address,
}
use how_to_miracast_on_aosp.Net.Network.Create.{
  is_udp, is_server, is_client, Request, Answers, Setup, ready, bail, abort, after, ◌>>=◌, ◌>>◌,
  call, when, make_socket_non_blocking, resolve, start_connecting, set_up_client, set_up_bound,
  set_up, created, local_sock_addr, create_client_or_server,
}
use how_to_miracast_on_aosp.Net.Network.Table.{WellFormed, Rising-raise, add-Rising, lookup-add}

-- The descriptors that a sequence of calls closes.
abbrev pub closes : List Call → List ℕ
closes [] = []
closes (close_socket fd ∷ cs) = fd ∷ closes cs
closes (_ ∷ cs) = closes cs

closes-append : (cs ds : List Call) → closes (cs ++ ds) ≡ closes cs ++ closes ds
closes-append [] ds = refl
closes-append (close_socket fd ∷ cs) ds = ap (◌∷◌ fd) (closes-append cs ds)
closes-append (_ ∷ cs) ds = closes-append cs ds

-- A step that closes nothing.
abbrev Quiet : {A : Type 0} → Setup A → Type 0
Quiet (ready cs a) = closes cs ≡ []
Quiet (bail cs e) = closes cs ≡ []
Quiet abort = Unit {0}

after-Quiet :
    {A : Type 0} (cs : List Call) (m : Setup A) → closes cs ≡ [] → Quiet m → Quiet (after cs m)
after-Quiet cs (ready ds a) h q = rw (closes-append cs ds, h) q
after-Quiet cs (bail ds e) h q = rw (closes-append cs ds, h) q
after-Quiet cs abort h q = tt

>>=-Quiet :
    {A B : Type 0} (m : Setup A) (f : A → Setup B)
    → Quiet m
    → ((a : A) → Quiet (f a))
    → Quiet (m >>= f)
>>=-Quiet (ready cs a) f h k = after-Quiet cs (f a) h (k a)
>>=-Quiet (bail cs e) f h k = h
>>=-Quiet abort f h k = tt

call-Quiet : (c : Call) (a : Answer) → closes (c ∷ []) ≡ [] → Quiet (call c a)
call-Quiet c (result r) h = h
call-Quiet c (failure e) h = h

when-Quiet : (b : Bool) (m : Setup ℕ) → Quiet m → Quiet (when b m)
when-Quiet true m q = q
when-Quiet false m q = refl

if-Quiet : (b : Bool) (m n : Setup ℕ) → Quiet m → Quiet n → Quiet (if b then m else n)
if-Quiet true m n p q = p
if-Quiet false m n p q = q

resolve-Quiet : (a : Lookup) (port : ℕ) → Quiet (resolve a port)
unfolding resolve
resolve-Quiet (found address) port = refl
resolve-Quiet (unknown h) port = refl

make_socket_non_blocking-Quiet : (fd : ℕ) (a b : Answer) → Quiet (make_socket_non_blocking fd a b)
unfolding make_socket_non_blocking
make_socket_non_blocking-Quiet fd (result f) (result r) = refl
make_socket_non_blocking-Quiet fd (result f) (failure e) = refl
make_socket_non_blocking-Quiet fd (failure f) (result r) = refl
make_socket_non_blocking-Quiet fd (failure f) (failure e) = refl

start_connecting-Quiet : (fd : ℕ) (to : SockAddr) (a : Answer) → Quiet (start_connecting fd to a)
unfolding start_connecting
start_connecting-Quiet fd to (result r) = tt
start_connecting-Quiet fd to (failure e) =
    if-Quiet (e == einprogress) (ready (connect fd to ∷ []) 0) (bail (connect fd to ∷ []) e) refl
      refl

set_up_client-Quiet : (q : Request) (a : Answers) (fd : ℕ) → Quiet (set_up_client q a fd)
unfolding set_up_client
set_up_client-Quiet q a fd =
    >>=-Quiet (resolve a.lookup q.remote_port) _ (resolve-Quiet a.lookup q.remote_port)
      λ to. start_connecting-Quiet fd to a.connects

set_up_bound-Quiet : (q : Request) (a : Answers) (fd : ℕ) → Quiet (set_up_bound q a fd)
unfolding set_up_bound
set_up_bound-Quiet q a fd =
    >>=-Quiet (call (bind fd (local_sock_addr q)) a.binds) _ (call-Quiet _ a.binds refl) λ _.
      if-Quiet (is_server q.mode) _ _ (call-Quiet (listen fd) a.listens refl) (
        when-Quiet q.has_remote _ (
          >>=-Quiet (resolve a.lookup q.remote_port) _ (resolve-Quiet a.lookup q.remote_port)
            λ to. call-Quiet (connect fd to) a.connects refl))

set_up-Quiet : (q : Request) (a : Answers) (fd : ℕ) → Quiet (set_up q a fd)
unfolding set_up
set_up-Quiet q a fd =
    >>=-Quiet (when (is_server q.mode) (call (reuse_address fd) a.reuse)) _
      (when-Quiet (is_server q.mode) _ (call-Quiet (reuse_address fd) a.reuse refl))
      λ _.
        >>=-Quiet
          (when (is_udp q.mode)
            (call (receive_buffer fd) a.receive >> call (send_buffer fd) a.send))
          _
          (when-Quiet (is_udp q.mode) _ (
            >>=-Quiet (call (receive_buffer fd) a.receive) _
              (call-Quiet (receive_buffer fd) a.receive refl)
              λ _. call-Quiet (send_buffer fd) a.send refl))
          λ _.
            >>=-Quiet (make_socket_non_blocking fd a.flags a.non_blocking) _
              (make_socket_non_blocking-Quiet fd a.flags a.non_blocking)
              λ _.
                if-Quiet (is_client q.mode) _ _ (set_up_client-Quiet q a fd)
                  (set_up_bound-Quiet q a fd)

module _ (net : Network) (q : Request) (a : Answers) where
  -- Nothing is registered. A socket that was opened is closed, once.
  pub record Refused (r : Network × List Call × ℕ × ℕ) : Type 0 where
    pub same : r.0 ≡ net
    pub no_id : r.3 ≡ 0
    pub socket_closed :
        ((e : ℕ) × (a.socket ≡ failure e) × (closes r.1 ≡ []))
        ⊎ ((fd : ℕ) × (a.socket ≡ result fd) × (closes r.1 ≡ fd ∷ []))

  -- The new session alone is added, under the next number, and its socket stays open.
  pub record Registered (r : Network × List Call × ℕ × ℕ) : Type 0 where
    pub fd : ℕ
    pub opened : a.socket ≡ result fd
    pub ok : r.2 ≡ 0
    pub id : r.3 ≡ net.next_session_id
    pub next : r.0.next_session_id ≡ next_id net.next_session_id
    pub found_session :
        (i : ℕ)
        → lookup i r.0.sessions
          ≡ (if net.next_session_id == i then some (created net q fd) else lookup i net.sessions)
    pub kept_open : closes r.1 ≡ []

  at_set_up :
      (fd : ℕ) (setup : Setup ℕ)
      → a.socket ≡ result fd
      → Quiet setup
      → Ensures
          (λ (r : Network × List Call × ℕ × ℕ). Refused r ⊎ Registered r)
          (elim setup [
            | abort ↦ fault
            | bail calls e ↦
                done (net, open_socket (is_udp q.mode) ∷ (calls ++ close_socket fd ∷ []), e, 0)
            | ready calls r ↦ done (
              record net {
                next_session_id = next_id net.next_session_id;
                sessions = add net.next_session_id (created net q fd) net.sessions;
              },
              open_socket (is_udp q.mode) ∷ (calls ++ interrupt ∷ []),
              0,
              net.next_session_id,
            )
          ])
  at_set_up fd abort o quiet = tt
  at_set_up fd (bail calls e) o quiet = inl (record {
    same = refl;
    no_id = refl;
    socket_closed =
        inr (fd, o, closes-append calls (close_socket fd ∷ []) ∙ ap (λ l. l ++ fd ∷ []) quiet);
  })
  at_set_up fd (ready calls r) o quiet = inr (record {
    fd = fd;
    opened = o;
    ok = refl;
    id = refl;
    next = refl;
    found_session = λ i. lookup-add i net.next_session_id (created net q fd) net.sessions;
    kept_open = closes-append calls (interrupt ∷ []) ∙ rw quiet;
  })

  at_answer :
      (answer : Answer)
      → a.socket ≡ answer
      → Ensures
          (λ (r : Network × List Call × ℕ × ℕ). Refused r ⊎ Registered r)
          (elim answer [
            | failure e ↦ done (net, open_socket (is_udp q.mode) ∷ [], e, 0)
            | result fd ↦ elim (set_up q a fd) [
              | abort ↦ fault
              | bail calls e ↦
                  done (net, open_socket (is_udp q.mode) ∷ (calls ++ close_socket fd ∷ []), e, 0)
              | ready calls r ↦ done (
                record net {
                  next_session_id = next_id net.next_session_id;
                  sessions = add net.next_session_id (created net q fd) net.sessions;
                },
                open_socket (is_udp q.mode) ∷ (calls ++ interrupt ∷ []),
                0,
                net.next_session_id,
              )
            ]
          ])
  at_answer (failure e) h =
      inl (record { same = refl; no_id = refl; socket_closed = inl (e, h, refl) })
  at_answer (result fd) h = at_set_up fd (set_up q a fd) h (set_up-Quiet q a fd)

  -- Whatever the system answers, a call that returns has either refused, with the network as it was
  -- and the socket closed once if it was opened, or registered exactly one new session under the
  -- next number, with its socket open.
  pub create_client_or_server-cases :
      Ensures
        (λ (r : Network × List Call × ℕ × ℕ). Refused r ⊎ Registered r)
        (create_client_or_server net q a)
  unfolding create_client_or_server
  create_client_or_server-cases = at_answer a.socket refl

  created-id : (fd : ℕ) → (created net q fd).session_id ≡ net.next_session_id
  unfolding created
  created-id fd = refl

  at_set_up-WellFormed :
      (fd : ℕ) (setup : Setup ℕ)
      → WellFormed net
      → net.next_session_id + 1 < 2 ^ 31
      → Ensures
          (λ (r : Network × List Call × ℕ × ℕ). WellFormed r.0)
          (elim setup [
            | abort ↦ fault
            | bail calls e ↦
                done (net, open_socket (is_udp q.mode) ∷ (calls ++ close_socket fd ∷ []), e, 0)
            | ready calls r ↦ done (
              record net {
                next_session_id = next_id net.next_session_id;
                sessions = add net.next_session_id (created net q fd) net.sessions;
              },
              open_socket (is_udp q.mode) ∷ (calls ++ interrupt ∷ []),
              0,
              net.next_session_id,
            )
          ])
  at_set_up-WellFormed fd abort wf h = tt
  at_set_up-WellFormed fd (bail calls e) wf h = wf
  at_set_up-WellFormed fd (ready calls r) wf h =
      let up : net.next_session_id ≤ next_id net.next_session_id = omega arith in
      add-Rising 0 (next_id net.next_session_id) net.next_session_id (created net q fd) net.sessions
        (omega arith) (omega arith) (created-id fd)
        (Rising-raise 0 net.next_session_id (next_id net.next_session_id) net.sessions up wf)

  -- Creating a session keeps the table well formed while `mNextSessionID` stays an `int32_t`.
  pub create_client_or_server-WellFormed :
      WellFormed net
      → net.next_session_id + 1 < 2 ^ 31
      → Ensures
          (λ (r : Network × List Call × ℕ × ℕ). WellFormed r.0)
          (create_client_or_server net q a)
  unfolding create_client_or_server
  create_client_or_server-WellFormed wf h = elim (Answer-cases a.socket) [
    | inr (e, s) ↦ rw (s, create_client_or_server) wf
    | inl (fd, s) ↦ rw (s, create_client_or_server) (at_set_up-WellFormed fd (set_up q a fd) wf h)
  ]
