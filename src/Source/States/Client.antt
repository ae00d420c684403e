-- ===== src/Source/States/Client.antt =====
-- source/WifiDisplaySource.cpp: the messages of the client keep to the abstract machine.
use how_to_miracast_on_aosp.Prelude.{
  ℕ, ◌≢◌, Bool-cases, Option-cases, inl, inr, refl, ◌==◌, arith, Bytes, if◌then◌else◌, Option, none,
  some,
}
use how_to_miracast_on_aosp.Prelude.Int.{minus_one}
use how_to_miracast_on_aosp.Prelude.Outcome.{Ensures, Outcome, done, blocked, fault}
use how_to_miracast_on_aosp.Net.Session.Interleaved.{is_prefix}
use how_to_miracast_on_aosp.Rtsp.Frame.{Still, Tame, >>=-Tame, Still-Tame, return-Tame}
use how_to_miracast_on_aosp.Rtsp.Machine.{return, ◌>>◌}
use how_to_miracast_on_aosp.Rtsp.Text.{text}
use how_to_miracast_on_aosp.Rtsp.Message.{ParsedMessage, error_malformed}
use how_to_miracast_on_aosp.Source.{
  same_state, Handler, World, Outside, get, display_error, tell_client, send_request,
}
use how_to_miracast_on_aosp.Source.Send.{send_expecting, send_trigger, send_m4, send_error_response}
use how_to_miracast_on_aosp.Source.Stop.{schedule_keep_alive}
use how_to_miracast_on_aosp.Source.Capabilities.{
  set_chosen_port, negotiate_hdcp, make_hdcp, receive_audio, receive_hdcp_port, receive_protection,
}
use how_to_miracast_on_aosp.Source.Dispatch.{
  receive_m4, receive_m16, handle, dispatch, on_response, on_receive_client_data,
}
use how_to_miracast_on_aosp.Source.Dispatch.Frames
use how_to_miracast_on_aosp.Rtsp.Pending.{expected, forget}
use how_to_miracast_on_aosp.Source.Receive.{on_client_data}
use how_to_miracast_on_aosp.Source.States.{consistent, Follows, next, ending, state_frame}
use how_to_miracast_on_aosp.Source.States.Requests.{get-Still, on_request-Follows}

module _ (o : Outside) (P : ParsedMessage) where
  open P use {Message, request_field, find_int32, status_code, content}

  make_hdcp-Still : Still (make_hdcp o)
  unfolding make_hdcp negotiate_hdcp Still
  make_hdcp-Still w = ground arith

  receive_protection-Still : (value : Option Bytes) → Still (receive_protection o P value)
  unfolding receive_protection receive_hdcp_port make_hdcp negotiate_hdcp Still
  receive_protection-Still value w = ground arith

  receive_audio-Still : (value : Bytes) → Still (receive_audio o P value)
  unfolding receive_audio Still
  receive_audio-Still value w = ground arith

  send_m4-Still : (session : ℕ) → Still (send_m4 o session)
  unfolding send_m4 send_expecting send_request Still
  send_m4-Still session w = ground arith

  receive_m4-Still : (session : ℕ) → Still (receive_m4 o P session)
  unfolding receive_m4 send_trigger send_expecting send_request Still
  receive_m4-Still session w = ground arith

  receive_m16-Still : (session : ℕ) → Still (receive_m16 o P session)
  unfolding receive_m16 schedule_keep_alive Still
  receive_m16-Still session w = ground arith

  set_chosen_port-Still : (port : ℕ) → Still (set_chosen_port port)
  unfolding Still
  set_chosen_port-Still port w = (refl, refl, refl, refl)

  handle-Tame : (h : Handler) (session : ℕ) (msg : Message) → Tame (handle o P h session msg)
  handle-Tame =
      Frames.handle-Tame o P set_chosen_port-Still receive_audio-Still receive_protection-Still
        (λ session. Still-Tame _ (send_m4-Still session))
        (λ session. Still-Tame _ (receive_m4-Still session))
        (λ session. Still-Tame _ (receive_m16-Still session))

  dispatch-Tame :
      (session cseq : ℕ) (msg : Message) (found : Option Handler)
      → Tame (dispatch o P session cseq msg found)
  unfolding dispatch Tame
  dispatch-Tame session cseq msg none w = return-Tame World error_malformed w
  dispatch-Tame session cseq msg (some h) w = handle-Tame h session msg (record w {
    source = record (w.source) {
      response_handlers = forget session cseq w.source.response_handlers;
    };
  })

  on_response-Tame : (session cseq : ℕ) (msg : Message) → Tame (on_response o P session cseq msg)
  unfolding on_response
  on_response-Tame session cseq msg =
      >>=-Tame _ get (get-Still o P)
        λ s. dispatch-Tame session cseq msg (expected session cseq s.response_handlers)

  bad_request-Tame :
      (session : ℕ)
      → Tame {A = ℕ} (
          send_error_response o session (text "400 Bad Request") minus_one
          >> return error_malformed)
  unfolding send_error_response send_request consistent same_state next ending Tame
  bad_request-Tame session w = ground arith

  on_receive_client_data-Follows :
      (session : ℕ) (msg : Message) (w : World)
      → session ≢ 0
      → Ensures (λ (r : ℕ × World). Follows w r.1) (on_receive_client_data o P session msg w)
  unfolding on_receive_client_data Tame
  on_receive_client_data-Follows session msg w client =
      elim (Option-cases (find_int32 msg (text "cseq"))) [
        | inl e ↦ rw (e, on_receive_client_data) (bad_request-Tame session w)
        | inr (cseq, e) ↦ elim (Bool-cases (is_prefix (text "RTSP/") (request_field msg 0))) [
          | inl response ↦
              rw (e, on_receive_client_data, response) (on_response-Tame session cseq msg w)
          | inr request ↦
              rw (e, on_receive_client_data, request)
                (on_request-Follows o P session cseq msg w client)
        ]
      ]

  after_client_data :
      (w : World) (m : Outcome (ℕ × World))
      → Ensures (λ (r : ℕ × World). Follows w r.1) m
      → Ensures
          (λ (r : Unit {0} × World). Follows w r.1)
          (elim m [
            | done (status, w') ↦ (if status == 0 then return tt else tell_client display_error) w'
            | blocked ↦ blocked
            | fault ↦ fault
          ])
  unfolding tell_client
  after_client_data w (done (status, w')) h = ground arith
  after_client_data w blocked h = tt
  after_client_data w fault h = tt

  pub client_data-Follows :
      (session : ℕ) (msg : Message) (w : World)
      → session ≢ 0
      → Ensures (λ (r : Unit {0} × World). Follows w r.1) (on_client_data o P session msg w)
  unfolding on_client_data
  client_data-Follows session msg w client =
      after_client_data w (on_receive_client_data o P session msg w)
        (on_receive_client_data-Follows session msg w client)
