-- ===== src/Source/Dispatch.antt =====
-- source/WifiDisplaySource.cpp: the handlers of responses, and `onReceiveClientData`.
pub mod Frames
use how_to_miracast_on_aosp.Prelude.{
  ℕ, Bool, true, false, not, ◌&&◌, Option, none, some, ◌==◌, if◌then◌else◌, Bytes,
}
use how_to_miracast_on_aosp.Prelude.Int.{minus_one}
use how_to_miracast_on_aosp.Net.Session.Interleaved.{is_prefix}
use how_to_miracast_on_aosp.Rtsp.Text.{text, same_text}
use how_to_miracast_on_aosp.Rtsp.Machine.{◌>>=◌, ◌>>◌, return, check}
use how_to_miracast_on_aosp.Rtsp.Pending.{expected, forget}
use how_to_miracast_on_aosp.Rtsp.Message.{ParsedMessage, error_malformed, error_unsupported}
use how_to_miracast_on_aosp.Source.{
  Handler, m1, m3, m4, m5, m16, Source, World, Outside, M, get, modify, emit, called,
  update_liveness,
}
use how_to_miracast_on_aosp.Source.Send.{send_trigger, send_error_response, setup}
use how_to_miracast_on_aosp.Source.Capabilities.{receive_m3}
use how_to_miracast_on_aosp.Source.Stop.{schedule_keep_alive}
use how_to_miracast_on_aosp.Source.Requests.{
  refuse, on_options_request, on_setup_request, on_play_request, on_pause_request,
  on_teardown_request, on_get_parameter_request, on_set_parameter_request,
}

module _ (o : Outside) (P : ParsedMessage) where
  open P use {Message, request_field, find_int32, status_code}

  -- The test that each response handler but the last begins with.
  unfoldable pub on_success : Message → M ℕ → M ℕ
  on_success msg next = elim (status_code msg) [
    | none ↦ return error_malformed
    | some code ↦ if code == 200 then next else return error_unsupported
  ]

  -- `onReceiveM4Response`, behind the status code.
  unfoldable pub receive_m4 : ℕ → M ℕ
  unfolding send_trigger
  receive_m4 session = do
    s ← get
    if s.using_hdcp && not s.hdcp_initialization_complete
        then modify (λ s. record s { setup_trigger_deferred = true }) >> return 0
        else send_trigger o session setup

  unfoldable pub receive_m16 : ℕ → M ℕ
  unfolding schedule_keep_alive
  receive_m16 session = do
    s ← get
    check (session == s.client_session_id)
    (if s.playback_session
        then emit (called update_liveness) >> schedule_keep_alive o session
        else return tt)
    return 0

  -- The member function that a handler stands for.
  unfoldable pub handle : Handler → ℕ → Message → M ℕ
  unfolding on_success receive_m3 receive_m4 receive_m16
  handle m1 session msg = on_success msg (return 0)
  handle m3 session msg = on_success msg (receive_m3 o P session msg)
  handle m4 session msg = on_success msg (receive_m4 session)
  handle m5 session msg = on_success msg (return 0)
  handle m16 session msg = receive_m16 session

  -- A response, with the handler that `mResponseHandlers` has for it.
  unfoldable pub dispatch : ℕ → ℕ → Message → Option Handler → M ℕ
  unfolding handle forget
  dispatch session cseq msg none = return error_malformed
  dispatch session cseq msg (some h) = do
    modify λ s. record s { response_handlers = forget session cseq s.response_handlers }
    handle h session msg

  unfoldable pub on_response : ℕ → ℕ → Message → M ℕ
  unfolding dispatch expected
  on_response session cseq msg = do
    s ← get
    dispatch session cseq msg (expected session cseq s.response_handlers)

  unfoldable pub on_request : ℕ → ℕ → Message → M ℕ
  unfolding refuse on_options_request on_setup_request on_play_request on_pause_request
      on_teardown_request on_get_parameter_request on_set_parameter_request
  on_request session cseq msg =
      let method = request_field msg 0 in
      if not (same_text (request_field msg 2) (text "RTSP/1.0"))
      then refuse o P session (text "505 RTSP Version not supported") cseq error_unsupported
      else if same_text method (text "OPTIONS")
      then on_options_request o P session cseq msg
      else if same_text method (text "SETUP")
      then on_setup_request o P session cseq msg
      else if same_text method (text "PLAY")
      then on_play_request o P session cseq msg
      else if same_text method (text "PAUSE")
      then on_pause_request o P session cseq msg
      else if same_text method (text "TEARDOWN")
      then on_teardown_request o P session cseq msg
      else if same_text method (text "GET_PARAMETER")
      then on_get_parameter_request o P session cseq msg
      else if same_text method (text "SET_PARAMETER")
      then on_set_parameter_request o P session cseq msg
      else refuse o P session (text "405 Method Not Allowed") cseq error_unsupported

  unfoldable pub on_receive_client_data : ℕ → Message → M ℕ
  unfolding on_response on_request send_error_response
  on_receive_client_data session msg = elim (find_int32 msg (text "cseq")) [
    | none ↦
        send_error_response o session (text "400 Bad Request") minus_one >> return error_malformed
    | some cseq ↦
        if is_prefix (text "RTSP/") (request_field msg 0)
        then on_response session cseq msg
        else on_request session cseq msg
  ]
