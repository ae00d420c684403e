-- ===== src/Source/Registry/Responses.antt =====
-- source/WifiDisplaySource.cpp: a message is dealt with at most once, and `mResponseHandlers` stays
-- in order whatever is received.
use how_to_miracast_on_aosp.Prelude.{
  ℕ, ◌+◌, ◌<◌, ◌^◌, ◌≡◌, ◌==◌, refl, Bool, true, false, Bytes, Option, none, some, not, arith, ◌&&◌,
  Bool-cases, Option-cases, inl, inr, if◌then◌else◌,
}
use how_to_miracast_on_aosp.Prelude.Int.{minus_one}
use how_to_miracast_on_aosp.Prelude.Outcome.{Ensures, Outcome, done, blocked, fault}
use how_to_miracast_on_aosp.Net.Session.Interleaved.{is_prefix}
use how_to_miracast_on_aosp.Rtsp.Machine.{◌>>◌, return}
use how_to_miracast_on_aosp.Rtsp.Text.{text, same_text}
use how_to_miracast_on_aosp.Rtsp.Message.{ParsedMessage, error_malformed}
use how_to_miracast_on_aosp.Rtsp.Pending.{
  expected, forget, expected_below, expected-forget, forget-Rising,
}
use how_to_miracast_on_aosp.Rtsp.Frame.{
  Still, Tame, weaken, >>-Still, >>-Tame, >>=-Tame, Still-Tame, return-Still, return-Tame, if-Still,
  if-Tame, RegistersOne-expected, KeepsHandlers,
}
use how_to_miracast_on_aosp.Source.{
  display_error, Handler, World, Outside, called, update_liveness, M, get, modify, tell_client,
}
use how_to_miracast_on_aosp.Source.Send.{
  Trigger, send_m1, send_m4, send_m16, send_trigger, setup, teardown,
}
use how_to_miracast_on_aosp.Source.Send
use how_to_miracast_on_aosp.Source.Capabilities.{
  set_using_hdcp, set_chosen_port, negotiate_hdcp, make_hdcp, receive_audio, receive_hdcp_port,
  receive_protection,
}
use how_to_miracast_on_aosp.Source.Dispatch.{
  receive_m4, receive_m16, handle, dispatch, on_response, on_request, on_receive_client_data,
}
use how_to_miracast_on_aosp.Source.Dispatch.Frames
use how_to_miracast_on_aosp.Source.Receive.{
  on_client_data, on_message, Event, start, rtsp_error, client_connected, client_data, stop, pause,
  resume, reap, session_dead, session_established, session_destroyed, binary_data, keep_alive,
  teardown_timed_out, finish_stop_later, hdcp_notify,
}
use how_to_miracast_on_aosp.Source.Registry.{
  InOrder, Registers, Registers-InOrder, source_frame, get-Still, emit-Still, checks-Tame,
  tell_client-Still, finish_stop2-Still, disconnect_client2-Still, schedule_keep_alive-Still,
  send_m4-Tame, send_trigger-Tame, send_error_response-Still,
}
use how_to_miracast_on_aosp.Source.Registry.Requests.{on_request-Tame}
use how_to_miracast_on_aosp.Source.Registry.Receive.{
  on_start-Still, on_error-Still, on_client_connected-Tame, on_stop-Tame, change_playing-Tame,
  on_reap-Still, on_established-Still, on_binary_data-Still, on_keep_alive-Tame,
  on_teardown_timed_out-Still, on_hdcp_notify-Tame,
}

set_using_hdcp-Still : (b : Bool) → Still (set_using_hdcp b)
unfolding Still
set_using_hdcp-Still b w = (refl, refl)

set_chosen_port-Still : (port : ℕ) → Still (set_chosen_port port)
unfolding Still
set_chosen_port-Still port w = (refl, refl)

defer_setup-Still :
    Still {A = ℕ} (modify (λ s. record s { setup_trigger_deferred = true }) >> return 0)
unfolding Still
defer_setup-Still w = (refl, refl)

module _ (o : Outside) where
  make_hdcp-Still : Still (make_hdcp o)
  unfolding make_hdcp negotiate_hdcp Still
  make_hdcp-Still w = ground arith

  module _ (P : ParsedMessage) where
    open P use {
      Message, request_field, find_int32, status_code, content, int32_attribute, find_parameter,
      parse_parameters,
    }

    receive_audio-Still : (value : Bytes) → Still (receive_audio o P value)
    unfolding receive_audio Still
    receive_audio-Still value w = ground arith

    receive_hdcp_port-Still :
        (is_2_0 : Bool) (value : Bytes) → Still (receive_hdcp_port o P is_2_0 value)
    unfolding receive_hdcp_port make_hdcp negotiate_hdcp Still
    receive_hdcp_port-Still is_2_0 value w = ground arith

    receive_protection-Still : (value : Option Bytes) → Still (receive_protection o P value)
    unfolding receive_protection
    receive_protection-Still none = >>-Still _ _ (set_using_hdcp-Still false) (return-Still World 0)
    receive_protection-Still (some value) =
        if-Still _ _ (same_text (text "none") value)
          (>>-Still _ _ (set_using_hdcp-Still false) (return-Still World 0))
          (>>-Still _ _ (set_using_hdcp-Still true) (
            if-Still _ _ (is_prefix (text "HDCP2.0 ") value) (receive_hdcp_port-Still true value) (
              if-Still _ _ (is_prefix (text "HDCP2.1 ") value) (receive_hdcp_port-Still false value)
                (return-Still World error_malformed))))

    receive_m4-Tame : (session : ℕ) → Tame (receive_m4 o P session)
    unfolding receive_m4
    receive_m4-Tame session = >>=-Tame _ get get-Still λ s.
        if-Tame _ _ (s.using_hdcp && not s.hdcp_initialization_complete)
          (Still-Tame _ defer_setup-Still) (send_trigger-Tame o session setup)

    receive_m16-Tame : (session : ℕ) → Tame (receive_m16 o P session)
    unfolding receive_m16
    receive_m16-Tame session = >>=-Tame _ get get-Still λ s. checks-Tame _ _ (
        >>-Tame _ _
          (if-Still _ _ s.playback_session
            (>>-Still _ _ (emit-Still (called update_liveness))
              (schedule_keep_alive-Still o session))
            (return-Still World tt))
          (return-Tame World 0))

    handle-Tame : (h : Handler) (session : ℕ) (msg : Message) → Tame (handle o P h session msg)
    handle-Tame =
        Frames.handle-Tame o P set_chosen_port-Still receive_audio-Still receive_protection-Still
          (send_m4-Tame o) receive_m4-Tame receive_m16-Tame

    dispatch-Tame :
        (session cseq : ℕ) (msg : Message) (w : World) (found : Option Handler)
        → InOrder w.source
        → w.source.next_cseq + 1 < 2 ^ 32
        → expected session cseq w.source.response_handlers ≡ found
        → Ensures
            (λ (r : ℕ × World).
              InOrder r.1.source × (expected session cseq r.1.source.response_handlers ≡ none))
            (dispatch o P session cseq msg found w)
    unfolding dispatch Tame
    dispatch-Tame session cseq msg w none order room e = (order, e)
    dispatch-Tame session cseq msg w (some h) order room e =
        let handlers = forget session cseq w.source.response_handlers in
        let v = record w { source = record (w.source) { response_handlers = handlers } } in
        let next = w.source.next_cseq in
        let below = expected_below session cseq 0 next h w.source.response_handlers order e in
        let gone = expected-forget session cseq 0 next w.source.response_handlers order in
        let kept = forget-Rising session cseq 0 next w.source.response_handlers order in
        weaken (λ r. Registers v r.1) _ _
          (λ r ext. (
            Registers-InOrder v r.1 kept room ext,
            RegistersOne-expected (λ w. w.source.response_handlers) (λ w. w.source.next_cseq)
                session cseq v r.1 below gone ext,
          ))
          (handle-Tame h session msg v)

    from_Tame :
        {A : Type 0} (m : M A) (w : World)
        → Tame m
        → InOrder w.source
        → w.source.next_cseq + 1 < 2 ^ 32
        → Ensures (λ (r : A × World). InOrder r.1.source) (m w)
    unfolding Tame
    from_Tame m w tame order room =
        weaken (λ r. Registers w r.1) (λ r. InOrder r.1.source) (m w)
          (λ r ext. Registers-InOrder w r.1 order room ext) (tame w)

    -- A response is dealt with once: when `onReceiveClientData` has handled one, no handler waits
    -- for its session and CSeq any more, and those that wait keep different CSeq numbers below
    -- `mNextCSeq`. This holds where they did before, while `mNextCSeq` does not wrap.
    pub source_response-once :
        (session cseq : ℕ) (msg : Message) (w : World)
        → InOrder w.source
        → w.source.next_cseq + 1 < 2 ^ 32
        → Ensures
            (λ (r : ℕ × World).
              InOrder r.1.source × (expected session cseq r.1.source.response_handlers ≡ none))
            (on_response o P session cseq msg w)
    unfolding on_response
    source_response-once session cseq msg w order room =
        dispatch-Tame session cseq msg w _ order room refl

    on_receive_client_data-InOrder :
        (session : ℕ) (msg : Message) (w : World)
        → InOrder w.source
        → w.source.next_cseq + 1 < 2 ^ 32
        → Ensures (λ (r : ℕ × World). InOrder r.1.source) (on_receive_client_data o P session msg w)
    unfolding on_receive_client_data
    on_receive_client_data-InOrder session msg w order room =
        elim (Option-cases (find_int32 msg (text "cseq"))) [
          | inl e ↦
              rw (e, on_receive_client_data)
                (from_Tame _ w
                  (>>-Tame _ _
                    (send_error_response-Still o session (text "400 Bad Request") minus_one)
                    (return-Tame World error_malformed))
                  order room)
          | inr (cseq, e) ↦ elim (Bool-cases (is_prefix (text "RTSP/") (request_field msg 0))) [
            | inl response ↦
                rw (e, on_receive_client_data, response)
                  (weaken _ (λ r. InOrder r.1.source) (on_response o P session cseq msg w)
                    (λ r dealt. dealt.0) (source_response-once session cseq msg w order room))
            | inr request ↦
                rw (e, on_receive_client_data, request)
                  (from_Tame (on_request o P session cseq msg) w
                    (on_request-Tame o P session cseq msg) order room)
          ]
        ]

    abbrev Keeps : World → World → Type 0
    Keeps = KeepsHandlers (λ w. w.source.response_handlers) (λ w. w.source.next_cseq)

    Keeps-InOrder : (v w : World) → Keeps v w → InOrder v.source → InOrder w.source
    Keeps-InOrder v w same order = rw (same.0, same.1) order

    after_client_data :
        (o' : Outcome (ℕ × World))
        → Ensures (λ (r : ℕ × World). InOrder r.1.source) o'
        → Ensures
            (λ (r : Unit {0} × World). InOrder r.1.source)
            (elim o' [
              | done (status, w') ↦
                  (if status == 0 then return tt else tell_client display_error) w'
              | blocked ↦ blocked
              | fault ↦ fault
            ])
    unfolding Still
    after_client_data (done (status, w')) order =
        weaken (λ (r : Unit {0} × World). Keeps w' r.1)
          (λ (r : Unit {0} × World). InOrder r.1.source) _
          (λ r same. Keeps-InOrder w' r.1 same order)
          (if-Still _ _ (status == 0) (return-Still World tt) (tell_client-Still display_error) w')
    after_client_data blocked order = tt
    after_client_data fault order = tt

    on_client_data-InOrder :
        (session : ℕ) (msg : Message) (w : World)
        → InOrder w.source
        → w.source.next_cseq + 1 < 2 ^ 32
        → Ensures (λ (r : Unit {0} × World). InOrder r.1.source) (on_client_data o P session msg w)
    unfolding on_client_data
    on_client_data-InOrder session msg w order room =
        after_client_data (on_receive_client_data o P session msg w)
          (on_receive_client_data-InOrder session msg w order room)

    -- Whatever the source is told, its handlers that wait for responses keep different CSeq
    -- numbers, all below `mNextCSeq`, while it does not wrap.
    pub on_message-InOrder :
        (event : Event o P) (w : World)
        → InOrder w.source
        → w.source.next_cseq + 1 < 2 ^ 32
        → Ensures (λ (r : Unit {0} × World). InOrder r.1.source) (on_message o P event w)
    unfolding on_message
    on_message-InOrder (start reply iface) w order room =
        from_Tame _ w (Still-Tame _ (on_start-Still o reply iface)) order room
    on_message-InOrder (rtsp_error session) w order room =
        from_Tame _ w (Still-Tame _ (on_error-Still o session)) order room
    on_message-InOrder (client_connected session remote here port) w order room =
        from_Tame _ w (on_client_connected-Tame o session remote here port) order room
    on_message-InOrder (client_data session msg) w order room =
        on_client_data-InOrder session msg w order room
    on_message-InOrder (stop reply) w order room = from_Tame _ w (on_stop-Tame o reply) order room
    on_message-InOrder (pause reply) w order room =
        from_Tame _ w (change_playing-Tame o _ _ Send.pause reply) order room
    on_message-InOrder (resume reply) w order room =
        from_Tame _ w (change_playing-Tame o _ _ Send.play reply) order room
    on_message-InOrder (reap last now) w order room =
        from_Tame _ w (Still-Tame _ (on_reap-Still o last now)) order room
    on_message-InOrder session_dead w order room =
        from_Tame _ w (Still-Tame _ (tell_client-Still display_error)) order room
    on_message-InOrder session_established w order room =
        from_Tame _ w (Still-Tame _ (on_established-Still o)) order room
    on_message-InOrder session_destroyed w order room =
        from_Tame _ w (Still-Tame _ disconnect_client2-Still) order room
    on_message-InOrder (binary_data session channel bytes) w order room =
        from_Tame _ w (Still-Tame _ (on_binary_data-Still o session channel bytes)) order room
    on_message-InOrder (keep_alive session) w order room =
        from_Tame _ w (on_keep_alive-Tame o session) order room
    on_message-InOrder teardown_timed_out w order room =
        from_Tame _ w (Still-Tame _ (on_teardown_timed_out-Still o)) order room
    on_message-InOrder finish_stop_later w order room =
        from_Tame _ w (Still-Tame _ finish_stop2-Still) order room
    on_message-InOrder (hdcp_notify notice) w order room =
        from_Tame _ w (on_hdcp_notify-Tame o notice) order room
