-- ===== src/Sink/Display/Handlers.antt =====
-- sink/WifiDisplaySink.cpp: the handlers of responses and requests, and `onMessageReceived`. The
-- parsed message's accessors, its attribute parsers and sscanf's reading of two ports are the
-- fields of an interface.
use how_to_miracast_on_aosp.Prelude.{
  ℕ, Bool, true, not, ◌&&◌, ◌||◌, [], ◌∷◌, ◌++◌, Option, none, some, ◌==◌, if◌then◌else◌, Bytes,
  length,
}
use how_to_miracast_on_aosp.Prelude.Int.{ℤ, pos, ◌+ℤ◌, ltb_ℤ, eqb_ℤ, zero_ℤ, minus_one}
use how_to_miracast_on_aosp.Prelude.Outcome.{done}
use how_to_miracast_on_aosp.Net.Session.Interleaved.{is_prefix}
use how_to_miracast_on_aosp.Rtsp.Message.{ParsedMessage, error_malformed, error_unsupported}
use how_to_miracast_on_aosp.Rtsp.Text.{text, decimal, before_char, contains, same_text, is_empty}
use how_to_miracast_on_aosp.Sink.Display.Text.{common_response}
use how_to_miracast_on_aosp.Sink.Display.{
  connected, paused, playing, Handler, m2, describe, setup, play, Outside, M, get, modify,
  send_request, send_m2, send_describe, send_setup, send_play, send_error_response,
}
use how_to_miracast_on_aosp.Rtsp.Machine.{◌>>=◌, ◌>>◌, return, check}
use how_to_miracast_on_aosp.Rtsp.Pending.{expected, forget}

-- `rtpPort <= 0 || rtpPort > 65535 || ... || rtcpPort != rtpPort + 1`
abbrev pub bad_ports : ℤ → ℤ → Bool
bad_ports rtp rtcp =
    not (ltb_ℤ zero_ℤ rtp)
    || ltb_ℤ (pos 65535) rtp
    || not (ltb_ℤ zero_ℤ rtcp)
    || ltb_ℤ (pos 65535) rtcp
    || not (eqb_ℤ rtcp (rtp +ℤ pos 1))

abbrev pub default_uri : Bytes
unfolding text
default_uri = text "rtsp://x.x.x.x:x/wfd1.0/streamid=0"

module _ (o : Outside) (P : ParsedMessage) where
  open P use {
    Message, request_field, find_int32, find_string, status_code, content, attribute,
    int32_attribute, two_ports,
  }

  -- The test that each response handler begins with.
  unfoldable pub on_success : Message → M ℕ → M ℕ
  on_success msg next = elim (status_code msg) [
    | none ↦ return error_malformed
    | some code ↦ if code == 200 then next else return error_unsupported
  ]

  unfoldable pub configure_transport : Message → M ℕ
  configure_transport msg =
      if o.use_tcp_interleaving then return 0 else elim (find_string msg (text "transport")) [
        | none ↦ return error_malformed
        | some transport ↦ elim (attribute transport (text "server_port")) [
          | none ↦ return error_malformed
          | some ports ↦ elim (two_ports ports) [
            | none ↦ return error_malformed
            | some (rtp, rtcp) ↦
                if bad_ports rtp rtcp then return error_malformed else return o.connect_status
          ]
        ]
      ]

  -- The end of `onReceiveSetupResponse`, with the status of `configureTransport`.
  unfoldable pub after_transport : ℕ → ℕ → M ℕ
  after_transport session status =
      if status == 0
      then (do
        modify λ s. record s { state = paused }
        s ← get
        send_play o session (if is_empty s.setup_uri then default_uri else s.setup_uri))
      else return status

  -- `onReceiveSetupResponse`, behind the status code.
  unfoldable pub finish_setup : ℕ → Message → M ℕ
  unfolding configure_transport before_char after_transport
  finish_setup session msg = elim (find_string msg (text "session")) [
    | none ↦ return error_malformed
    | some id ↦ do
      let timeout : ℤ = elim (int32_attribute id (text "timeout")) [
        | none ↦ minus_one
        | some secs ↦ secs
      ]
      modify λ s. record s {
        playback_session_id = before_char b';' id;
        playback_session_timeout_secs = timeout;
      }
      status ← configure_transport msg
      after_transport session status
  ]

  -- The member function that a handler stands for.
  unfoldable pub handle : Handler → ℕ → Message → M ℕ
  unfolding on_success finish_setup
  handle m2 session msg = on_success msg (return 0)
  handle describe session msg = on_success msg (do s ← get; send_setup o session s.setup_uri)
  handle setup session msg = on_success msg (finish_setup session msg)
  handle play session msg = on_success msg (do modify λ s. record s { state = playing }; return 0)

  -- A response, with the handler that `mResponseHandlers` has for it.
  unfoldable pub dispatch : ℕ → ℕ → Message → Option Handler → M (Unit {0})
  unfolding handle
  dispatch session cseq msg none = return tt
  dispatch session cseq msg (some h) = do
    modify λ s. record s { response_handlers = forget session cseq s.response_handlers }
    status ← handle h session msg
    check (status == 0)

  -- `onReceiveClientData` at a response.
  unfoldable pub on_response : ℕ → ℕ → Message → M (Unit {0})
  unfolding dispatch
  on_response session cseq msg = do
    s ← get
    dispatch session cseq msg (expected session cseq s.response_handlers)

  -- "RTSP/1.0 200 OK" with the lines that follow the common ones.
  abbrev ok_response : ℕ → Bytes → Bytes
  ok_response cseq lines = text "RTSP/1.0 200 OK\r\n" ++ common_response o.date (pos cseq) ++ lines

  unfoldable pub on_options_request : ℕ → ℕ → M (Unit {0})
  on_options_request session cseq = do
    status ← send_request session (
        ok_response cseq
          (text "Public: org.wfa.wfd1.0, GET_PARAMETER, SET_PARAMETER\r\n" ++ text "\r\n"))
    check (status == 0)
    status' ← send_m2 o session
    check (status' == 0)

  abbrev capabilities : Bytes
  capabilities =
      text
        "wfd_video_formats: 40 00 02 02 0001DEFF 157C7FFF 00000FFF 00 0000 0000 11 none none, 01 02 0001DEFF 157C7FFF 00000FFF 00 0000 0000 11 none none\r\n"
      ++ text "wfd_audio_codecs: LPCM 00000003 00, AAC 0000000F 00\r\n"
      ++ text "wfd_client_rtp_ports: RTP/AVP/UDP;unicast 19000 0 mode=play\r\n"

  unfoldable pub on_get_parameter_request : ℕ → ℕ → M (Unit {0})
  on_get_parameter_request session cseq = do
    status ← send_request session (
        ok_response cseq (
          text "Content-Type: text/parameters\r\n"
          ++ text "Content-Length: "
          ++ decimal (length capabilities)
          ++ text "\r\n"
          ++ text "\r\n"
          ++ capabilities))
    check (status == 0)

  unfoldable pub on_set_parameter_request : ℕ → ℕ → Message → M (Unit {0})
  unfolding contains
  on_set_parameter_request session cseq msg = do
    (if contains (text "wfd_trigger_method: SETUP\r\n") (content msg)
        then (do status ← send_setup o session default_uri; check (status == 0))
        else return tt)
    status ← send_request session (ok_response cseq (text "\r\n"))
    check (status == 0)

  unfoldable pub on_request : ℕ → ℕ → Message → M (Unit {0})
  on_request session cseq msg =
      let method = request_field msg 0 in
      if not (same_text (request_field msg 2) (text "RTSP/1.0"))
      then send_error_response o session (text "505 RTSP Version not supported") (pos cseq)
      else if same_text method (text "OPTIONS")
      then on_options_request session cseq
      else if same_text method (text "GET_PARAMETER")
      then on_get_parameter_request session cseq
      else if same_text method (text "SET_PARAMETER")
      then on_set_parameter_request session cseq msg
      else send_error_response o session (text "405 Method Not Allowed") (pos cseq)

  unfoldable pub on_receive_client_data : ℕ → Message → M (Unit {0})
  on_receive_client_data session msg = elim (find_int32 msg (text "cseq")) [
    | none ↦ send_error_response o session (text "400 Bad Request") minus_one
    | some cseq ↦
        if is_prefix (text "RTSP/") (request_field msg 0)
        then on_response session cseq msg
        else on_request session cseq msg
  ]

  -- `case kWhatRTSPNotify`, by its reason. A binary packet goes to the RTP sink.
  pub data Reason : Type 0 where
    error : ℕ → Reason
    is_connected : Reason
    message : ℕ → Message → Reason
    binary_data : Reason

  unfoldable pub on_error : ℕ → M (Unit {0})
  on_error session w =
      if session == w.sink.session_id
      then done (
        tt,
        record w {
          sink = record (w.sink) { session_id = 0; stopped = true };
          destroyed = w.destroyed ++ session ∷ [];
        },
      )
      else done (tt, w)

  unfoldable pub on_connected : M (Unit {0})
  on_connected = do
    modify λ s. record s { state = connected }
    s ← get
    if is_empty s.setup_uri
        then return tt
        else (do status ← send_describe o s.session_id s.setup_uri; check (status == 0))

  unfoldable pub on_rtsp_notify : Reason → M (Unit {0})
  unfolding on_error on_connected on_receive_client_data
  on_rtsp_notify (error session) = on_error session
  on_rtsp_notify is_connected = on_connected
  on_rtsp_notify (message session msg) = on_receive_client_data session msg
  on_rtsp_notify binary_data = do s ← get; check (o.use_tcp_interleaving && s.rtp_sink)
