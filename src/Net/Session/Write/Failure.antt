-- ===== src/Net/Session/Write/Failure.antt =====
-- ANetworkSession.cpp, `Session::writeMore`: its CHECKs, and what an error leaves behind.
use how_to_miracast_on_aosp.Prelude.{
  Option, none, some, Option-cases, ℕ, suc, ◌≤◌, ◌≡◌, ◌≢◌, refl, ap, ◌∙◌, true, false, List, [],
  ◌∷◌, arith, length, Bytes, take, drop, ◌==◌, String, inl, inr, Bool-cases, subst, if◌then◌else◌,
  not,
}
use how_to_miracast_on_aosp.Prelude.Outcome.{done, fault, >>=-ne-fault, >>=-eq-done, done-injective}
use how_to_miracast_on_aosp.Net.Session.{
  Session, State, connecting, connected, datagram, wants_to_write, is_empty, is_connecting,
}
use how_to_miracast_on_aosp.Net.Session.Notice.{Notice, error}
use how_to_miracast_on_aosp.Net.Session.Notice
use how_to_miracast_on_aosp.Net.Session.Write.{
  Send, sent, failed, send, correct_time, send_datagrams, write_datagrams, write_stream,
  finish_connecting, fail_writing, write_more, Writing, send_status, taken,
}

-- Every queued datagram holds a whole RTP header.
abbrev pub AllRtp : List Bytes → Type 0
AllRtp [] = Unit {0}
AllRtp (d ∷ ds) = (8 ≤ length d) × AllRtp ds

correct_time-ne-fault : (now : ℕ) (d : Bytes) → 8 ≤ length d → correct_time now d ≢ fault
unfolding correct_time
correct_time-ne-fault now (b0 ∷ b1 ∷ b2 ∷ b3 ∷ b4 ∷ b5 ∷ b6 ∷ b7 ∷ rest) h = λ e. ground arith
correct_time-ne-fault now _ h = absurd (omega arith)

send-ne-fault : (script : List Send) → send script ≢ fault
unfolding send
send-ne-fault [] = λ e. cc
send-ne-fault (sent n ∷ script) = λ e. cc
send-ne-fault (failed e ∷ script) = ground (arith, send-ne-fault script)

send_datagrams-ne-fault :
    (clock : ℕ → ℕ) (ds : List Bytes) (script : List Send)
    → AllRtp ds
    → send_datagrams clock ds script ≢ fault
unfolding send_datagrams
send_datagrams-ne-fault clock [] script h = λ e. cc
send_datagrams-ne-fault clock (d ∷ ds) script h =
    >>=-ne-fault (correct_time (clock 0) d) _ (correct_time-ne-fault (clock 0) d h.0) λ d' _.
      >>=-ne-fault (send script) _ (send-ne-fault script) λ r _.
        let rest = send_datagrams-ne-fault (λ k. clock (suc k)) ds r.1 h.1 in
        elim (Bool-cases (send_status r.0 == 0)) [
          | inl ok ↦
              rw ok (>>=-ne-fault (send_datagrams (λ k. clock (suc k)) ds r.1) _ rest λ _ _ e. cc)
          | inr bad ↦ rw bad λ e. cc
        ]

-- The words that `writeMore` gives to `notifyError`.
abbrev pub failure_detail : State → String
failure_detail connecting = "Connection failed"
failure_detail datagram = "Send datagram failed."
failure_detail _ = "Send failed."

finish_connecting-ne-fault :
    {M : Type 0} (s : Session) (so_error : Option ℕ)
    → so_error ≢ none
    → finish_connecting {M = M} s so_error ≢ fault
unfolding finish_connecting
finish_connecting-ne-fault s none h = λ e. h refl
finish_connecting-ne-fault s (some err) h = λ e. cc

module _ {M : Type 0} (s : Session) (clock : ℕ → ℕ) (so_error : Option ℕ) (script : List Send) where
  write_datagrams-ne-fault :
      AllRtp s.out_datagrams
      → is_empty s.out_datagrams ≡ false
      → write_datagrams {M = M} s clock script ≢ fault
  unfolding write_datagrams
  write_datagrams-ne-fault rtp full = rw full (
      >>=-ne-fault (send_datagrams clock s.out_datagrams script) _
        (send_datagrams-ne-fault clock s.out_datagrams script rtp) λ _ _ e. cc)

  write_stream-ne-fault : is_empty s.out_buffer ≡ false → write_stream {M = M} s script ≢ fault
  unfolding write_stream
  write_stream-ne-fault full =
      rw full (>>=-ne-fault (send script) _ (send-ne-fault script) λ _ _ e. cc)

  -- When `wantsToWrite` holds, every queued datagram has at least the 8 bytes that the correction
  -- of its time reads and writes, and getsockopt gives SO_ERROR of a socket that is connecting,
  -- `writeMore` does not abort: no CHECK fails and no access is out of bounds, whatever send and
  -- SO_ERROR are.
  pub write_more-ne-fault :
      AllRtp s.out_datagrams
      → wants_to_write s ≡ true
      → (s.state ≡ connecting → so_error ≢ none)
      → write_more {M = M} s clock so_error script ≢ fault
  unfolding write_more wants_to_write
  write_more-ne-fault rtp wants given = λ e. ground (
    arith,
    write_datagrams-ne-fault rtp,
    write_stream-ne-fault,
    finish_connecting-ne-fault s so_error,
    given,
  )

  -- What a call leaves behind.
  pub record Settled (r : Writing M) : Type 0 where
    pub fine : r.3 ≡ 0 → r.0.saw_send_failure ≡ s.saw_send_failure
    pub fine_notice :
        r.3 ≡ 0 → r.1 ≡ (if is_connecting s.state then Notice.connected s.session_id ∷ [] else [])
    pub failed_for_good : r.3 ≢ 0 → wants_to_write r.0 ≡ false
    pub failed_state : r.3 ≢ 0 → r.0.state ≡ s.state
    pub failed_notice :
        r.3 ≢ 0
        → r.1 ≡ error s.session_id (not (is_connecting s.state)) r.3 (failure_detail s.state) ∷ []
    pub same_id : r.0.session_id ≡ s.session_id
    pub same_socket : r.0.socket ≡ s.socket
    pub same_input : r.0.in_buffer ≡ s.in_buffer
    pub same_reading : r.0.saw_receive_failure ≡ s.saw_receive_failure

  fail_writing-Settled :
      (s' : Session) (out : List Bytes) (err : ℕ)
      → is_connecting s.state ≡ false
      → s'.state ≡ s.state
      → s'.saw_send_failure ≡ s.saw_send_failure
      → s'.session_id ≡ s.session_id
      → s'.socket ≡ s.socket
      → s'.in_buffer ≡ s.in_buffer
      → s'.saw_receive_failure ≡ s.saw_receive_failure
      → Settled (fail_writing true (failure_detail s.state) s' out err)
  unfolding fail_writing wants_to_write
  fail_writing-Settled s' out err st h a b c d e = ground arith

  write_datagrams-Settled :
      (r : Writing M) → s.state ≡ datagram → write_datagrams s clock script ≡ done r → Settled r
  unfolding write_datagrams
  write_datagrams-Settled r st e =
      let full : is_empty s.out_datagrams ≡ false = ground arith in
      let ((out, left, err), _, e') =
        >>=-eq-done (send_datagrams clock s.out_datagrams script) _ (rw full at e) in
      subst Settled
        (ap
            (λ why.
              fail_writing true why (record s { out_datagrams = left }) out
                (if err == Notice.eagain then 0 else err))
            (rw st)
          ∙ done-injective e')
        (fail_writing-Settled (record s { out_datagrams = left }) out _ (rw st) refl refl refl refl
          refl refl)

  write_stream-Settled :
      (r : Writing M) → s.state ≡ connected → write_stream s script ≡ done r → Settled r
  unfolding write_stream
  write_stream-Settled r st e =
      let full : is_empty s.out_buffer ≡ false = ground arith in
      let ((answer, more), _, e') = >>=-eq-done (send script) _ (rw full at e) in
      subst Settled
        (ap
            (λ why.
              fail_writing true why (record s { out_buffer = drop (taken answer) s.out_buffer })
                (take (taken answer) s.out_buffer ∷ []) (send_status answer))
            (rw st)
          ∙ done-injective e')
        (fail_writing-Settled _ (take (taken answer) s.out_buffer ∷ []) (send_status answer) (rw st)
          refl refl refl refl refl refl)

  connected_or_failed-Settled :
      (err : ℕ)
      → s.state ≡ connecting
      → Settled (
          if err == 0
          then (record s { state = connected }, Notice.connected s.session_id ∷ [], [], 0)
          else fail_writing false "Connection failed" s [] err)
  unfolding fail_writing wants_to_write
  connected_or_failed-Settled err st = ground arith

  finish_connecting-Settled :
      (r : Writing M) → s.state ≡ connecting → finish_connecting s so_error ≡ done r → Settled r
  unfolding finish_connecting wants_to_write fail_writing
  finish_connecting-Settled r st e = elim (Option-cases so_error) [
    | inl gone ↦ absurd (ground arith)
    | inr (err, given) ↦
        subst Settled (done-injective (rw given at e)) (connected_or_failed-Settled err st)
  ]

  -- What every call that returns leaves behind, in every state. With no error the failure flag
  -- stays as it was, and the only notice is that of a finished connection. With an error
  -- `wantsToWrite` is false from then on, the state stays, and one notice carries the error, its
  -- flag `send` set unless the session was connecting. Number, socket and reading half stay.
  pub write_more-Settled : (r : Writing M) → write_more s clock so_error script ≡ done r → Settled r
  unfolding write_more
  write_more-Settled r e =
      ground (arith, write_datagrams-Settled r, write_stream-Settled r, finish_connecting-Settled r)
