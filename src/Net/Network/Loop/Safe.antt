-- ===== src/Net/Network/Loop/Safe.antt =====
-- ANetworkSession.cpp, `threadLoop`: when it does not abort.
use how_to_miracast_on_aosp.Prelude.{
  ℕ, ◌-◌, ◌≡◌, ◌≢◌, refl, sym, Bool, true, false, ◌||◌, List, [], ◌∷◌, ◌++◌, Option, none, some,
  arith, ◌==◌, if◌then◌else◌, Bytes, Option-cases, Bool-cases, inl, inr, subst,
}
use how_to_miracast_on_aosp.Prelude.Outcome.{
  done, fault, ◌>>=◌, >>=-ne-fault, >>=-eq-done, done-injective,
}
use how_to_miracast_on_aosp.Net.Session.{
  Session, wants_to_write, is_rtsp_server, is_tcp_datagram_server, is_datagram,
}
use how_to_miracast_on_aosp.Net.Session.Read.{
  Recv, RecvFrom, received, failed, received_from, failed_from, recv, recv_datagrams,
  read_datagrams, read_stream, read_more,
}
use how_to_miracast_on_aosp.Net.Session.Read.Failure as Reading
use how_to_miracast_on_aosp.Net.Session.Write.{write_more}
use how_to_miracast_on_aosp.Net.Session.Write.Failure.{AllRtp, write_more-ne-fault}
use how_to_miracast_on_aosp.Net.Network.{Network, Answer, result, failure}
use how_to_miracast_on_aosp.Net.Network.Loop.{
  Events, Tally, Turn, tally, serve_listener, accept_client, serve_readable, serve_writable, serve,
  take_turn, serve_all, thread_round,
}

recv-ne-fault : (script : List Recv) → recv script ≢ fault
unfolding recv
recv-ne-fault [] = λ e. cc
recv-ne-fault (received b ∷ script) = λ e. cc
recv-ne-fault (failed e ∷ script) = ground (arith, recv-ne-fault script)

recv_datagrams-ne-fault :
    (M : Type 0) (id : ℕ) (script : List RecvFrom) → recv_datagrams {M = M} id script ≢ fault
unfolding recv_datagrams
recv_datagrams-ne-fault M id [] = λ e. cc
recv_datagrams-ne-fault M id (failed_from e ∷ script) =
    ground (arith, recv_datagrams-ne-fault M id script)
recv_datagrams-ne-fault M id (received_from [] host port now ∷ script) = λ e. cc
recv_datagrams-ne-fault M id (received_from (b ∷ bs) host port now ∷ script) =
    >>=-ne-fault (recv_datagrams {M = M} id script) _ (recv_datagrams-ne-fault M id script)
      λ _ _ e. cc

-- What the system owes to a session that is readable or writable: a client's two addresses and
-- SO_ERROR can be asked for, and a session is writable only where `wantsToWrite` holds. Its
-- datagrams hold a header.
pub record Owed (s : Session) (writable : Bool) (ev : Events) : Type 0 where
  pub local_known : ev.local ≢ none
  pub peer_known : ev.peer ≢ none
  pub so_error_known : ev.so_error ≢ none
  pub asked_for : writable ≡ true → wants_to_write s ≡ true
  pub headers : AllRtp s.out_datagrams

module _ (u16_at : ℕ → ℕ → ℕ) {M : Type 0} (parse : Bytes → Bool → Option (M × ℕ))
    (get_content : M → Option Bytes) where
  read_more-ne-fault :
      (s : Session) (clock : ℕ → ℕ) (datagrams : List RecvFrom) (stream : List Recv)
      → read_more u16_at parse get_content s clock datagrams stream ≢ fault
  unfolding read_more read_datagrams read_stream
  read_more-ne-fault s clock datagrams stream = elim (Bool-cases (is_datagram s.state)) [
    | inl e ↦ rw e (
        >>=-ne-fault (recv_datagrams {M = M} s.session_id datagrams) _
          (recv_datagrams-ne-fault M s.session_id datagrams) λ _ _ x. cc)
    | inr e ↦ rw e (>>=-ne-fault (recv stream) _ (recv-ne-fault stream) λ _ _ x. cc)
  ]

  -- What the writing half of a turn needs, before and after the reading half.
  abbrev CanWrite : Bool → Session → Type 0
  CanWrite writable s = (writable ≡ true → wants_to_write s ≡ true) × AllRtp s.out_datagrams

  serve_listener-ne-fault :
      (s : Session) (ev : Events) (id : ℕ)
      → ev.local ≢ none
      → ev.peer ≢ none
      → serve_listener {M = M} s ev id ≢ fault
  unfolding serve_listener accept_client
  serve_listener-ne-fault s ev id local peer = λ e. ground arith

  serve_writable-ne-fault :
      (s : Session) (ev : Events)
      → wants_to_write s ≡ true
      → AllRtp s.out_datagrams
      → ev.so_error ≢ none
      → serve_writable {M = M} s ev ≢ fault
  unfolding serve_writable
  serve_writable-ne-fault s ev wants headers given =
      >>=-ne-fault (write_more {M = M} s ev.clock ev.so_error ev.sends) _
        (write_more-ne-fault s ev.clock ev.so_error ev.sends headers wants λ _. given) λ _ _ e. cc

  serve_listener-same :
      (s : Session) (ev : Events) (id : ℕ) (r : Turn M) → serve_listener s ev id ≡ done r → r.0 ≡ s
  unfolding serve_listener accept_client
  serve_listener-same s ev id r e = ground arith

  read_more-CanWrite :
      (s : Session) (clock : ℕ → ℕ) (datagrams : List RecvFrom) (stream : List Recv)
      (writable : Bool) (r : Session × List _ × ℕ)
      → CanWrite writable s
      → read_more u16_at parse get_content s clock datagrams stream ≡ done r
      → CanWrite writable r.0
  unfolding wants_to_write
  read_more-CanWrite s clock datagrams stream writable r can e =
      let settled =
        Reading.read_more-Settled u16_at parse get_content s clock datagrams stream r e in
      (
        (λ w.
            rw (settled.same_state, settled.same_output, settled.same_queue, settled.same_sending)
              (can.0 w)),
        rw settled.same_queue can.1,
      )

  serve_readable-CanWrite :
      (s : Session) (ev : Events) (id : ℕ) (writable : Bool) (r : Turn M)
      → CanWrite writable s
      → serve_readable u16_at parse get_content s ev id ≡ done r
      → CanWrite writable r.0
  unfolding serve_readable
  serve_readable-CanWrite s ev id writable r can e =
      elim (Bool-cases (is_rtsp_server s || is_tcp_datagram_server s)) [
        | inl listens ↦
            subst (CanWrite writable) (sym (serve_listener-same s ev id r (rw listens at e))) can
        | inr other ↦
            let (q, read, e') =
              >>=-eq-done (read_more u16_at parse get_content s ev.clock ev.datagrams ev.stream) _
                (rw other at e) in
            subst (λ (t : Turn M). CanWrite writable t.0) (done-injective e')
              (read_more-CanWrite s ev.clock ev.datagrams ev.stream writable q can read)
      ]

  serve_readable-ne-fault :
      (s : Session) (ev : Events) (id : ℕ)
      → ev.local ≢ none
      → ev.peer ≢ none
      → serve_readable u16_at parse get_content s ev id ≢ fault
  unfolding serve_readable
  serve_readable-ne-fault s ev id local peer =
      elim (Bool-cases (is_rtsp_server s || is_tcp_datagram_server s)) [
        | inl listens ↦ rw listens (serve_listener-ne-fault s ev id local peer)
        | inr other ↦ rw other (
            >>=-ne-fault (read_more u16_at parse get_content s ev.clock ev.datagrams ev.stream) _
              (read_more-ne-fault s ev.clock ev.datagrams ev.stream) λ _ _ e. cc)
      ]

  serve-ne-fault :
      (s : Session) (readable writable : Bool) (ev : Events) (id : ℕ)
      → Owed s writable ev
      → serve u16_at parse get_content s readable writable ev id ≢ fault
  unfolding serve
  serve-ne-fault s readable writable ev id owed =
      >>=-ne-fault
        (if readable
          then serve_readable u16_at parse get_content s ev id
          else done (s, id, [], [], []))
        _ (reads readable) λ r e. writes writable r (kept readable r e)
    where
      reads :
          (b : Bool)
          → (if b
              then serve_readable u16_at parse get_content s ev id
              else done (s, id, [], [], []))
            ≢ fault
      reads true = serve_readable-ne-fault s ev id owed.local_known owed.peer_known
      reads false = λ e. cc

      kept :
          (b : Bool) (r : Turn M)
          → (if b
              then serve_readable u16_at parse get_content s ev id
              else done (s, id, [], [], []))
            ≡ done r
          → CanWrite writable r.0
      kept true r e = serve_readable-CanWrite s ev id writable r (owed.asked_for, owed.headers) e
      kept false r e =
          subst (λ (t : Turn M). CanWrite writable t.0) (done-injective e)
            (owed.asked_for, owed.headers)

      writes :
          (b : Bool) (r : Turn M)
          → CanWrite b r.0
          → (if b
              then (serve_writable r.0 ev >>= λ w. done (w.0, r.1, r.2, r.3 ++ w.1, r.4))
              else done r)
            ≢ fault
      writes true r can =
          >>=-ne-fault (serve_writable r.0 ev) _
            (serve_writable-ne-fault r.0 ev (can.0 refl) can.1 owed.so_error_known) λ _ _ e. cc
      writes false r can = λ e. cc

  abbrev pub AllOwed : (ℕ → Bool) → (ℕ → Events) → List (ℕ × Session) → Type 0
  AllOwed ws env [] = Unit {0}
  AllOwed ws env ((k, s) ∷ rest) =
      ((fd : ℕ) → s.socket ≡ some fd → Owed s (ws fd) (env k)) × AllOwed ws env rest

  take_turn-ne-fault :
      (rs ws : ℕ → Bool) (ev : Events) (s : Session) (t : Tally M)
      → ((fd : ℕ) → s.socket ≡ some fd → Owed s (ws fd) ev)
      → take_turn u16_at parse get_content rs ws ev s t ≢ fault
  unfolding take_turn
  take_turn-ne-fault rs ws ev s t owed = elim (Option-cases s.socket) [
    | inl e ↦ λ x. ground arith
    | inr (fd, e) ↦ λ x. ground (arith, serve-ne-fault s (rs fd) (ws fd) ev t.next (owed fd e))
  ]

  serve_all-ne-fault :
      (rs ws : ℕ → Bool) (env : ℕ → Events) (t : Tally M) (m : List (ℕ × Session))
      → AllOwed ws env m
      → serve_all u16_at parse get_content rs ws env t m ≢ fault
  unfolding serve_all
  serve_all-ne-fault rs ws env t [] owed = λ e. cc
  serve_all-ne-fault rs ws env t ((k, s) ∷ rest) owed =
      >>=-ne-fault (serve_all u16_at parse get_content rs ws env t rest) _
        (serve_all-ne-fault rs ws env t rest owed.1)
        λ r _.
          >>=-ne-fault (take_turn u16_at parse get_content rs ws (env k) s r.1) _
            (take_turn-ne-fault rs ws (env k) s r.1 owed.0) λ _ _ e. cc

  -- A round does not abort, if select finds a socket writable only where `wantsToWrite` of its
  -- session held, every queued datagram has the 8 bytes of an RTP header, and getsockopt
  -- for SO_ERROR works on the sockets and getsockname and getpeername on accepted ones.
  pub thread_round-ne-fault :
      (net : Network) (found : Answer) (woken : Bool) (rs ws : ℕ → Bool) (env : ℕ → Events)
      → AllOwed ws env net.sessions
      → thread_round u16_at parse get_content net found woken rs ws env ≢ fault
  unfolding thread_round
  thread_round-ne-fault net (failure e) woken rs ws env owed = λ x. cc
  thread_round-ne-fault net (result count) woken rs ws env owed = elim (Bool-cases (count == 0)) [
    | inl e ↦ rw e λ x. cc
    | inr e ↦
        let t : Tally M = tally (if woken then count - 1 else count) net.next_session_id in
        rw e (
          >>=-ne-fault (serve_all u16_at parse get_content rs ws env t net.sessions) _
            (serve_all-ne-fault rs ws env t net.sessions owed) λ _ _ x. cc)
  ]
