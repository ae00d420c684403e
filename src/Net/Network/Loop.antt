-- ===== src/Net/Network/Loop.antt =====
-- ANetworkSession.cpp, `ANetworkSession::threadLoop`: one round of the network thread. What select
-- finds, and what the system calls answer to each session, are arguments.
pub mod Ready
pub mod Safe
pub mod Asked
pub mod Numbers
use how_to_miracast_on_aosp.Prelude.{
  ℕ, ◌+◌, ◌-◌, Bool, true, false, ◌&&◌, ◌||◌, List, [], ◌∷◌, ◌++◌, Option, none, some, ltb, ◌==◌,
  if◌then◌else◌, Bytes, map,
}
use how_to_miracast_on_aosp.Prelude.Outcome.{Outcome, done, fault, ◌>>=◌}
use how_to_miracast_on_aosp.Net.Session.{
  Session, connected, wants_to_read, wants_to_write, is_rtsp_server, is_tcp_datagram_server,
  set_is_rtsp_connection,
}
use how_to_miracast_on_aosp.Net.Session.Notice.{Notice, client_connected, Address, quad}
use how_to_miracast_on_aosp.Net.Session.Read.{Recv, RecvFrom, read_more}
use how_to_miracast_on_aosp.Net.Session.Write.{Send, write_more}
use how_to_miracast_on_aosp.Net.Network.Create
use how_to_miracast_on_aosp.Net.Network.Create.{make_socket_non_blocking, new_session}
use how_to_miracast_on_aosp.Net.Network.{Network, Answer, result, failure, SockAddr, next_id, add}

-- What the system answers to one session in a round. `so_error` is what getsockopt gives for
-- SO_ERROR, none when it fails. `local` and `peer` are what getsockname and getpeername give for an
-- accepted socket, `none` when they fail.
pub record Events : Type 0 where
  pub datagrams : List RecvFrom
  pub stream : List Recv
  pub sends : List Send
  pub so_error : Option ℕ
  pub clock : ℕ → ℕ
  pub accepts : Answer
  pub flags : Answer
  pub non_blocking : Answer
  pub local : Option SockAddr
  pub peer : Option SockAddr

-- The descriptors that select is asked about: for reading and for writing. The pipe is not listed.
unfoldable pub asked : (Session → Bool) → List (ℕ × Session) → List ℕ
asked wants [] = []
asked wants ((k, s) ∷ rest) = elim s.socket [
  | none ↦ asked wants rest
  | some fd ↦ if wants s then fd ∷ asked wants rest else asked wants rest
]

unfoldable pub read_set : Network → List ℕ
unfolding asked
read_set net = asked wants_to_read net.sessions

unfoldable pub write_set : Network → List ℕ
unfolding asked
write_set net = asked wants_to_write net.sessions

-- A notice with the number of the message that it is a copy of.
abbrev pub Posted : Type 0 → Type 0
Posted M = ℕ × Notice M

-- What one session's turn gives: the session, `mNextSessionID`, the client to add, the notices and
-- the descriptors closed.
abbrev pub Turn : Type 0 → Type 0
Turn M = Session × ℕ × List Session × List (Posted M) × List ℕ

-- The loop's variables: `res`, `mNextSessionID`, `sessionsToAdd`; and what it has posted and
-- closed.
pub record Tally (M : Type 0) : Type 0 where
  pub left : ℕ
  pub next : ℕ
  pub clients : List Session
  pub posted : List (Posted M)
  pub closed : List ℕ

abbrev pub tally : {M : Type 0} → ℕ → ℕ → Tally M
tally left next = record { left = left; next = next; clients = []; posted = []; closed = [] }

abbrev pub address_of : SockAddr → Address
address_of a = record { host = quad a.address; port = a.port }

-- `Session::Session` for an accepted socket, with `setIsRTSPConnection`.
unfoldable pub accept_client : {M : Type 0} → Session → Events → ℕ → ℕ → Outcome (Turn M)
accept_client s ev id fd = elim ev.local [
  | none ↦ fault
  | some server ↦ elim ev.peer [
    | none ↦ fault
    | some client ↦ done (
      s,
      next_id id,
      set_is_rtsp_connection (new_session id connected fd s.notify_message) (is_rtsp_server s) ∷ [],
      (s.notify_message, client_connected id (address_of server) (address_of client)) ∷ [],
      [],
    )
  ]
]

-- accept, and `MakeSocketNonBlocking` on the new socket. On failure nothing is added.
unfoldable pub serve_listener : {M : Type 0} → Session → Events → ℕ → Outcome (Turn M)
unfolding accept_client
serve_listener s ev id = elim ev.accepts [
  | failure e ↦ done (s, id, [], [], [])
  | result fd ↦ elim (make_socket_non_blocking fd ev.flags ev.non_blocking) [
    | Create.ready cs r ↦ accept_client s ev id fd
    | _ ↦ done (s, id, [], [], fd ∷ [])
  ]
]

abbrev pub post_all : {M : Type 0} → Session → List (Notice M) → List (Posted M)
post_all s = map λ n. (s.notify_message, n)

unfoldable pub serve_writable :
    {M : Type 0} → Session → Events → Outcome (Session × List (Posted M))
serve_writable s ev = do
  (s', posted, _, _) ← write_more s ev.clock ev.so_error ev.sends
  done (s', post_all s posted)

-- `while (!sessionsToAdd.empty())`.
unfoldable pub add_all : List Session → List (ℕ × Session) → List (ℕ × Session)
add_all [] sessions = sessions
add_all (c ∷ cs) sessions = add_all cs (add c.session_id c sessions)

module _ (u16_at : ℕ → ℕ → ℕ) {M : Type 0} (parse : Bytes → Bool → Option (M × ℕ))
    (get_content : M → Option Bytes) where
  unfoldable pub serve_readable : Session → Events → ℕ → Outcome (Turn M)
  serve_readable s ev id =
      if is_rtsp_server s || is_tcp_datagram_server s then serve_listener s ev id else (do
        (s', posted, _) ← read_more u16_at parse get_content s ev.clock ev.datagrams ev.stream
        done (s', id, [], post_all s posted, []))

  abbrev quiet : Session → ℕ → Outcome (Turn M)
  quiet s id = done (s, id, [], [], [])

  -- One session's turn: reading comes before writing.
  unfoldable pub serve : Session → Bool → Bool → Events → ℕ → Outcome (Turn M)
  unfolding serve_readable serve_writable
  serve s readable writable ev id = do
    (s', id', clients, posted, closed) ← if readable then serve_readable s ev id else quiet s id
    if writable
        then (do
          (s'', more) ← serve_writable s' ev
          done (s'', id', clients, posted ++ more, closed))
        else done (s', id', clients, posted, closed)

  -- The session at `k`, if the loop still runs: `res > 0`, and `s < 0` is passed over.
  unfoldable pub take_turn :
      (ℕ → Bool) → (ℕ → Bool) → Events → Session → Tally M → Outcome (Session × Tally M)
  unfolding serve
  take_turn rs ws ev s t = if t.left == 0 then done (s, t) else elim s.socket [
    | none ↦ done (s, t)
    | some fd ↦ do
      (s', id, clients, posted, closed) ← serve s (rs fd) (ws fd) ev t.next
      done (
        s',
        record {
          left = if rs fd || ws fd then t.left - 1 else t.left;
          next = id;
          clients = t.clients ++ clients;
          posted = t.posted ++ posted;
          closed = t.closed ++ closed;
        },
      )
  ]

  -- The loop goes from the last session to the first.
  unfoldable pub serve_all :
      (ℕ → Bool)
      → (ℕ → Bool)
      → (ℕ → Events)
      → Tally M
      → List (ℕ × Session)
      → Outcome (List (ℕ × Session) × Tally M)
  unfolding take_turn
  serve_all rs ws env t [] = done ([], t)
  serve_all rs ws env t ((k, s) ∷ rest) = do
    (ss, u) ← serve_all rs ws env t rest
    (s', v) ← take_turn rs ws (env k) s u
    done ((k, s') ∷ ss, v)

  -- The part of `threadLoop` behind select, which found `count` descriptors, among them the pipe's
  -- reading end if `woken` is set. 0 or an error ends the round.
  unfoldable pub thread_round :
      Network
      → Answer
      → Bool
      → (ℕ → Bool)
      → (ℕ → Bool)
      → (ℕ → Events)
      → Outcome (Network × List (Posted M) × List ℕ)
  thread_round net (failure e) woken rs ws env = done (net, [], [])
  thread_round net (result count) woken rs ws env = if count == 0 then done (net, [], []) else (do
    (ss, t) ←
        serve_all rs ws env (tally (if woken then count - 1 else count) net.next_session_id)
          net.sessions
    done (
      record net { next_session_id = t.next; sessions = add_all t.clients ss },
      t.posted,
      t.closed,
    ))
