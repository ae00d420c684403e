-- ===== src/Sink/Display/Registry/Notify.antt =====
-- sink/WifiDisplaySink.cpp: what a notification of the network session does to `mResponseHandlers`.
use how_to_miracast_on_aosp.Prelude.{
  ℕ, ◌+◌, ◌^◌, ◌<◌, ◌≡◌, ◌≢◌, refl, sym, subst, false, some, arith, ◌==◌, Bytes, Bool-cases,
  Option-cases, inl, inr, ◌&&◌,
}
use how_to_miracast_on_aosp.Prelude.Int.{ℤ, pos, minus_one}
use how_to_miracast_on_aosp.Prelude.Outcome.{fault, Ensures}
use how_to_miracast_on_aosp.Net.Session.Interleaved.{is_prefix}
use how_to_miracast_on_aosp.Rtsp.Machine.{◌>>=◌, check}
use how_to_miracast_on_aosp.Rtsp.Text.{text, contains, is_empty}
use how_to_miracast_on_aosp.Rtsp.Message.{ParsedMessage}
use how_to_miracast_on_aosp.Rtsp.Pending.{expected}
use how_to_miracast_on_aosp.Rtsp.Frame.{
  weaken, Still, Tame, >>=-Still, >>=-Tame, Tame->>=, Still-Tame, check-Still,
}
use how_to_miracast_on_aosp.Sink.Display.{
  connected, Outside, Handler, m2, describe, setup, play, World, M, get, send_request, next_status,
  send_m2, send_setup, send_describe, send_error_response,
}
use how_to_miracast_on_aosp.Sink.Display.Handlers.{
  default_uri, on_options_request, on_get_parameter_request, on_set_parameter_request, on_request,
  on_response, on_success, dispatch, handle, on_receive_client_data, Reason, error, is_connected,
  message, binary_data, on_error, on_connected, on_rtsp_notify,
}
use how_to_miracast_on_aosp.Sink.Display.Registry.{
  InOrder, sink_frame, Registers, Registers-InOrder, send_request-Still,
}
use how_to_miracast_on_aosp.Sink.Display.Registry.Once.{
  get-Still, send_m2-Tame, send_describe-Tame, send_setup-Tame, on_response-once,
}

send_checked-Still :
    (session : ℕ) (reply : Bytes)
    → Still (send_request session reply >>= λ status. check (status == 0))
send_checked-Still session reply =
    >>=-Still _ (send_request session reply) (send_request-Still session reply)
      λ status. check-Still World (status == 0)

module _ (o : Outside) where
  send_error_response-Tame :
      (session : ℕ) (detail : Bytes) (cseq : ℤ) → Tame (send_error_response o session detail cseq)
  unfolding send_error_response Still Tame
  send_error_response-Tame session detail cseq w =
      let b = (next_status w.statuses).0 == 0 in Still-Tame (check b) (check-Still World b) _

  module _ (P : ParsedMessage) where
    open P use {Message, request_field, find_int32, status_code, content}

    on_options_request-Tame : (session cseq : ℕ) → Tame (on_options_request o P session cseq)
    unfolding on_options_request
    on_options_request-Tame session cseq =
        >>=-Tame _ (send_request session _) (send_request-Still session _) λ status.
          >>=-Tame _ (check (status == 0)) (check-Still World (status == 0)) λ _.
            Tame->>= _ (send_m2 o session) (send_m2-Tame o session)
              λ status'. check-Still World (status' == 0)

    on_get_parameter_request-Tame :
        (session cseq : ℕ) → Tame (on_get_parameter_request o P session cseq)
    unfolding on_get_parameter_request
    on_get_parameter_request-Tame session cseq =
        >>=-Tame _ (send_request session _) (send_request-Still session _)
          λ status. Still-Tame (check (status == 0)) (check-Still World (status == 0))

    on_set_parameter_request-Tame :
        (session cseq : ℕ) (msg : Message) → Tame (on_set_parameter_request o P session cseq msg)
    unfolding on_set_parameter_request Still Tame
    on_set_parameter_request-Tame session cseq msg w =
        elim (Bool-cases (contains (text "wfd_trigger_method: SETUP\r\n") (content msg))) [
          | inl asked ↦ rw asked (
              Tame->>= _ (send_setup o session default_uri >>= λ status. check (status == 0))
                (Tame->>= _ (send_setup o session default_uri)
                  (send_setup-Tame o session default_uri) λ status. check-Still World (status == 0))
                (λ _. send_checked-Still session _) w)
          | inr other ↦ rw other (Still-Tame _ (send_checked-Still session _) w)
        ]

    on_request-Tame : (session cseq : ℕ) (msg : Message) → Tame (on_request o P session cseq msg)
    unfolding on_request Still Tame
    on_request-Tame session cseq msg w = ground (
      arith,
      send_error_response-Tame session (text "505 RTSP Version not supported") (pos cseq) w,
      send_error_response-Tame session (text "405 Method Not Allowed") (pos cseq) w,
      on_options_request-Tame session cseq w,
      on_get_parameter_request-Tame session cseq w,
      on_set_parameter_request-Tame session cseq msg w,
    )

    on_connected-Tame : Tame (on_connected o P)
    unfolding on_connected Still Tame
    on_connected-Tame w = elim (Bool-cases (is_empty w.sink.setup_uri)) [
      | inl none_given ↦ rw none_given (inl (refl, refl))
      | inr given ↦ rw given (
          Tame->>= (λ status. check (status == 0))
            (send_describe o w.sink.session_id w.sink.setup_uri)
            (send_describe-Tame o w.sink.session_id w.sink.setup_uri)
            (λ status. check-Still World (status == 0))
            (record w { sink = record (w.sink) { state = connected } }))
    ]

    on_error-Tame : (session : ℕ) → Tame (on_error o P session)
    unfolding on_error Still Tame
    on_error-Tame session w = ground arith

    dispatch-fault :
        (session cseq code : ℕ) (h : Handler) (msg : Message) (w : World)
        → status_code msg ≡ some code
        → (code == 200) ≡ false
        → dispatch o P session cseq msg (some h) w ≡ fault
    unfolding dispatch handle on_success
    dispatch-fault session cseq code m2 msg w c bad = ground arith
    dispatch-fault session cseq code describe msg w c bad = ground arith
    dispatch-fault session cseq code setup msg w c bad = ground arith
    dispatch-fault session cseq code play msg w c bad = ground arith

    -- A response whose status code is not 200, to a request that is waited for, fails the CHECK in
    -- `onReceiveClientData`.
    pub on_response-fault :
        (session cseq code : ℕ) (h : Handler) (msg : Message) (w : World)
        → expected session cseq w.sink.response_handlers ≡ some h
        → status_code msg ≡ some code
        → code ≢ 200
        → on_response o P session cseq msg w ≡ fault
    unfolding on_response
    on_response-fault session cseq code h msg w e c bad =
        subst (λ found. dispatch o P session cseq msg found w ≡ fault) (sym e)
          (dispatch-fault session cseq code h msg w c (ground arith))

    from_Tame :
        {A : Type 0} (m : M A) (w : World)
        → Tame m
        → InOrder w.sink
        → w.sink.next_cseq + 1 < 2 ^ 32
        → Ensures (λ (r : A × World). InOrder r.1.sink) (m w)
    unfolding Still Tame
    from_Tame m w tame order room =
        weaken (λ r. Registers w r.1) (λ r. InOrder r.1.sink) (m w)
          (λ r ext. Registers-InOrder w r.1 order room ext) (tame w)

    on_receive_client_data-InOrder :
        (session : ℕ) (msg : Message) (w : World)
        → InOrder w.sink
        → w.sink.next_cseq + 1 < 2 ^ 32
        → Ensures
            (λ (r : Unit {0} × World). InOrder r.1.sink)
            (on_receive_client_data o P session msg w)
    unfolding on_receive_client_data
    on_receive_client_data-InOrder session msg w order room =
        elim (Option-cases (find_int32 msg (text "cseq"))) [
          | inl e ↦
              rw (e, on_receive_client_data)
                (from_Tame (send_error_response o session (text "400 Bad Request") minus_one) w
                  (send_error_response-Tame session (text "400 Bad Request") minus_one) order room)
          | inr (cseq, e) ↦ elim (Bool-cases (is_prefix (text "RTSP/") (request_field msg 0))) [
            | inl response ↦
                rw (e, on_receive_client_data, response)
                  (weaken _ (λ r. InOrder r.1.sink) (on_response o P session cseq msg w)
                    (λ r dealt. dealt.0) (on_response-once o P session cseq msg w order room))
            | inr request ↦
                rw (e, on_receive_client_data, request)
                  (from_Tame (on_request o P session cseq msg) w (on_request-Tame session cseq msg)
                    order room)
          ]
        ]

    -- Whatever the network session tells, whatever a message holds and whatever sending answers,
    -- the handlers that wait for responses keep different CSeq numbers, all below `mNextCSeq`,
    -- while it does not wrap.
    pub on_rtsp_notify-InOrder :
        (reason : Reason o P) (w : World)
        → InOrder w.sink
        → w.sink.next_cseq + 1 < 2 ^ 32
        → Ensures (λ (r : Unit {0} × World). InOrder r.1.sink) (on_rtsp_notify o P reason w)
    unfolding on_rtsp_notify
    on_rtsp_notify-InOrder (error session) w order room =
        from_Tame (on_error o P session) w (on_error-Tame session) order room
    on_rtsp_notify-InOrder is_connected w order room =
        from_Tame (on_connected o P) w on_connected-Tame order room
    on_rtsp_notify-InOrder (message session msg) w order room =
        on_receive_client_data-InOrder session msg w order room
    on_rtsp_notify-InOrder binary_data w order room =
        from_Tame (do s ← get; check (o.use_tcp_interleaving && s.rtp_sink)) w
          (>>=-Tame _ get get-Still λ s.
            Still-Tame (check (o.use_tcp_interleaving && s.rtp_sink))
              (check-Still World (o.use_tcp_interleaving && s.rtp_sink)))
          order room
