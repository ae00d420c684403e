-- ===== src/Net/Session/Read/Failure.antt =====
-- ANetworkSession.cpp, `Session::readMore`: the datagrams of a call, and what an error leaves
-- behind.
use how_to_miracast_on_aosp.Prelude.{
  ℕ, zero, suc, ◌<◌, ◌≡◌, ◌≢◌, refl, ap, ◌∙◌, subst, Bool, true, false, not, Option, List, [], ◌∷◌,
  ◌++◌, arith, Bytes, ◌==◌, if◌then◌else◌, Bool-cases, inl, inr, String, replicate,
}
use how_to_miracast_on_aosp.Prelude.Outcome.{done, >>=-eq-done, done-injective}
use how_to_miracast_on_aosp.Net.Session.{Session, State, datagram, is_datagram, wants_to_read}
use how_to_miracast_on_aosp.Net.Session.Notice.{Notice, error, quad, eintr, eagain, econnreset}
use how_to_miracast_on_aosp.Net.Session.Read.{
  Recv, RecvFrom, received_from, failed_from, recv, recv_datagrams, read_datagrams, read_stream,
  read_more, Reading, fail_reading, take_units, arrived,
}

-- A datagram on its way, after some interrupted calls of recvfrom. It has at least one byte.
pub record Arrival : Type 0 where
  pub interrupted : ℕ
  pub first : ℕ
  pub others : Bytes
  pub host : ℕ
  pub port : ℕ
  pub time : ℕ

-- What ends a call: recvfrom fails, or gives an empty datagram.
pub data Close : Type 0 where
  failure : ℕ → Close
  empty : ℕ → ℕ → ℕ → Close

abbrev pub closing : Close → RecvFrom
closing (failure e) = failed_from e
closing (empty host port time) = received_from [] host port time

abbrev pub close_error : Close → ℕ
close_error (failure e) = e
close_error (empty host port time) = econnreset

-- The answers that bring some datagrams and then end the call.
abbrev pub answers : List Arrival → Close → List RecvFrom
answers [] c = closing c ∷ []
answers (a ∷ rest) c =
    replicate a.interrupted (failed_from eintr)
    ++ received_from (a.first ∷ a.others) a.host a.port a.time ∷ answers rest c

abbrev pub deliveries : {M : Type 0} → ℕ → List Arrival → List (Notice M)
deliveries id [] = []
deliveries id (a ∷ rest) =
    Notice.datagram id (record { host = quad a.host; port = a.port }) a.time (a.first ∷ a.others)
    ∷ deliveries id rest

recv_datagrams_interrupted :
    (M : Type 0) (id n : ℕ) (script : List RecvFrom)
    → recv_datagrams {M = M} id (replicate n (failed_from eintr) ++ script)
      ≡ recv_datagrams id script
unfolding recv_datagrams
recv_datagrams_interrupted M id zero script = refl
recv_datagrams_interrupted M id (suc n) script = recv_datagrams_interrupted M id n script

recv_datagrams-answers :
    (M : Type 0) (id : ℕ) (arrivals : List Arrival) (c : Close)
    → (close_error c == eintr) ≡ false
    → recv_datagrams {M = M} id (answers arrivals c) ≡ done (deliveries id arrivals, close_error c)
unfolding recv_datagrams
recv_datagrams-answers M id [] (failure e) h = rw h
recv_datagrams-answers M id [] (empty host port time) h = refl
recv_datagrams-answers M id (a ∷ rest) c h =
    recv_datagrams_interrupted M id a.interrupted _ ∙ rw (recv_datagrams-answers M id rest c h)

-- The words that `readMore` gives to `notifyError`.
abbrev pub failure_detail : State → String
failure_detail datagram = "Recvfrom failed."
failure_detail _ = "Recv failed."

module _ (u16_at : ℕ → ℕ → ℕ) {M : Type 0} (parse : Bytes → Bool → Option (M × ℕ))
    (get_content : M → Option Bytes) (s : Session) (clock : ℕ → ℕ) where
  -- A datagram session posts one notice for each datagram that arrives before recvfrom fails or
  -- gives an empty datagram, whole and in order. EINTR is skipped, EAGAIN ends the call with OK and
  -- no change, and any other error, ECONNRESET for an empty datagram, is posted last and stops the
  -- session's reading.
  pub read_more-answers :
      (arrivals : List Arrival) (c : Close) (stream : List Recv)
      → s.state ≡ datagram
      → 0 < close_error c
      → close_error c ≢ eintr
      → read_more u16_at parse get_content s clock (answers arrivals c) stream
        ≡ done (
            if close_error c == eagain then (s, deliveries s.session_id arrivals, 0) else (
              record s { saw_receive_failure = true },
              deliveries s.session_id arrivals
                  ++ error s.session_id false (close_error c) "Recvfrom failed." ∷ [],
              close_error c,
            ))
  unfolding read_more read_datagrams fail_reading
  read_more-answers arrivals c stream st pos ne =
      ground (arith, recv_datagrams-answers M s.session_id arrivals c)

  -- What a call leaves behind.
  pub record Settled (r : Reading M) : Type 0 where
    pub fine : r.2 ≡ 0 → r.0.saw_receive_failure ≡ s.saw_receive_failure
    pub failed_for_good : r.2 ≢ 0 → wants_to_read r.0 ≡ false
    pub failed_notice :
        r.2 ≢ 0
        → (before : List (Notice M)) × (r.1
            ≡ before ++ error s.session_id false r.2 (failure_detail s.state) ∷ [])
    pub same_state : r.0.state ≡ s.state
    pub same_id : r.0.session_id ≡ s.session_id
    pub same_socket : r.0.socket ≡ s.socket
    pub same_output : r.0.out_buffer ≡ s.out_buffer
    pub same_queue : r.0.out_datagrams ≡ s.out_datagrams
    pub same_sending : r.0.saw_send_failure ≡ s.saw_send_failure

  fail_reading-Settled :
      (left : Bytes) (posted : List (Notice M)) (err : ℕ)
      → Settled (fail_reading (failure_detail s.state) (record s { in_buffer = left }, posted, err))
  unfolding fail_reading wants_to_read
  fail_reading-Settled left posted err = elim (Bool-cases (err == 0)) [
    | inl fine ↦ rw fine (record {
      fine = λ _. refl;
      failed_for_good = λ h. absurd (h refl);
      failed_notice = λ h. absurd (h refl);
      same_state = refl;
      same_id = refl;
      same_socket = refl;
      same_output = refl;
      same_queue = refl;
      same_sending = refl;
    })
    | inr bad ↦ rw bad (record {
      fine = λ h. absurd (ground arith);
      failed_for_good = λ _. refl;
      failed_notice = λ _. (posted, refl);
      same_state = refl;
      same_id = refl;
      same_socket = refl;
      same_output = refl;
      same_queue = refl;
      same_sending = refl;
    })
  ]

  read_datagrams-Settled :
      (datagrams : List RecvFrom) (r : Reading M)
      → is_datagram s.state ≡ true
      → read_datagrams s datagrams ≡ done r
      → Settled r
  unfolding read_datagrams
  read_datagrams-Settled datagrams r st e =
      let ((posted, err), _, e') = >>=-eq-done (recv_datagrams s.session_id datagrams) _ e in
      let words : failure_detail s.state ≡ "Recvfrom failed." = ground arith in
      subst Settled
        (ap (λ why. fail_reading why (s, posted, if err == eagain then 0 else err)) words
          ∙ done-injective e')
        (fail_reading-Settled s.in_buffer posted (if err == eagain then 0 else err))

  read_stream-Settled :
      (stream : List Recv) (r : Reading M)
      → is_datagram s.state ≡ false
      → read_stream u16_at parse get_content s clock stream ≡ done r
      → Settled r
  unfolding read_stream
  read_stream-Settled stream r st e =
      let (answer, _, e') = >>=-eq-done (recv stream) _ e in
      let words : failure_detail s.state ≡ "Recv failed." = ground arith in
      let units =
        take_units u16_at parse get_content s clock (not ((arrived answer).1 == 0))
          (s.in_buffer ++ (arrived answer).0) in
      subst Settled
        (ap
            (λ why.
              fail_reading why (record s { in_buffer = units.1 }, units.0, (arrived answer).1))
            words
          ∙ done-injective e')
        (fail_reading-Settled units.1 units.0 (arrived answer).1)

  -- What every call that returns leaves behind, in every state. An error is posted last and makes
  -- `wantsToRead` false; without one the failure flag stays. State, number, socket and what is
  -- queued for sending stay.
  pub read_more-Settled :
      (datagrams : List RecvFrom) (stream : List Recv) (r : Reading M)
      → read_more u16_at parse get_content s clock datagrams stream ≡ done r
      → Settled r
  unfolding read_more
  read_more-Settled datagrams stream r e = elim (Bool-cases (is_datagram s.state)) [
    | inl st ↦ read_datagrams-Settled datagrams r st (rw st at e)
    | inr st ↦ read_stream-Settled stream r st (rw st at e)
  ]
