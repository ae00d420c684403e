-- ===== src/Source/Requests.antt =====
-- source/WifiDisplaySource.cpp: the handlers of the sink's requests.
use how_to_miracast_on_aosp.Prelude.{
  ℕ, true, not, ◌&&◌, ◌++◌, Option, none, some, ◌==◌, if◌then◌else◌, Bytes,
}
use how_to_miracast_on_aosp.Prelude.Int.{ℤ, pos, minus_one, eqb_ℤ}
use how_to_miracast_on_aosp.Rtsp.Text.{text, contains, has_prefix, ends_with, signed}
use how_to_miracast_on_aosp.Net.Session.Interleaved.{is_prefix}
use how_to_miracast_on_aosp.Rtsp.Machine.{◌>>=◌, ◌>>◌, return, check}
use how_to_miracast_on_aosp.Rtsp.Message.{ParsedMessage, error_malformed, error_unsupported}
use how_to_miracast_on_aosp.Source.{
  awaiting_client_play, about_to_play, playing, playing_to_paused, paused, paused_to_playing,
  awaiting_client_teardown, same_state, Source, Outside, M, get, modify, set_state, emit,
  tell_client, send_request, called, update_liveness, play, finish_play, pause, request_idr_frame,
  handler_registered, handler_unregistered, display_error, invalid_operation, enoent,
}
use how_to_miracast_on_aosp.Source.Send.{common_response, send_error_response, send_m3}
use how_to_miracast_on_aosp.Source.Stop.{finish_stop, schedule_reaper, schedule_keep_alive}
use how_to_miracast_on_aosp.Source.Transport.{
  Mode, bad_request, unsupported, chosen, read_transport, transport_line,
}

-- `mClientInfo` with a playback session.
abbrev pub with_playback : ℤ → Source → Source
with_playback id s = record s { playback_session_id = id; playback_session = true }

module _ (o : Outside) (P : ParsedMessage) where
  open P use {Message, request_field, find_int32, find_string, content}

  -- An error response, and the status that the handler returns.
  unfoldable pub refuse : ℕ → Bytes → ℕ → ℕ → M ℕ
  unfolding send_error_response
  refuse session detail cseq status =
      send_error_response o session detail (signed cseq) >> return status

  -- `findPlaybackSession`: the number of the playback session, where there is one.
  unfoldable pub find_playback_session : Message → Source → Option ℤ
  find_playback_session msg s = elim (find_int32 msg (text "session")) [
    | none ↦ if s.playback_session then some s.playback_session_id else none
    | some id ↦
        if eqb_ℤ (signed id) s.playback_session_id && s.playback_session
        then some s.playback_session_id
        else none
  ]

  -- "RTSP/1.0 200 OK" with the lines that follow the common ones.
  abbrev ok_response : ℕ → ℤ → Bytes → Bytes
  ok_response cseq playback lines =
      text "RTSP/1.0 200 OK\r\n" ++ common_response o (signed cseq) playback ++ lines ++ text "\r\n"

  -- The handlers that need a playback session.
  unfoldable pub with_playback_session : ℕ → ℕ → Message → (ℤ → M ℕ) → M ℕ
  unfolding find_playback_session refuse
  with_playback_session session cseq msg next = do
    s ← get
    elim (find_playback_session msg s) [
      | none ↦ refuse session (text "454 Session Not Found") cseq error_malformed
      | some id ↦ next id
    ]

  abbrev pub when_found : Option ℤ → M (Unit {0})
  when_found none = return tt
  when_found (some _) = emit (called update_liveness)

  unfoldable pub on_options_request : ℕ → ℕ → Message → M ℕ
  unfolding send_request send_m3 find_playback_session common_response
  on_options_request session cseq msg = do
    s ← get
    when_found (find_playback_session msg s)
    status ← send_request session (
        ok_response cseq o.default_playback_session_id (
          text
            "Public: org.wfa.wfd1.0, SETUP, TEARDOWN, PLAY, PAUSE, GET_PARAMETER, SET_PARAMETER\r\n"))
    if status == 0 then send_m3 o session else return status

  -- `onSetupRequest` from `mClientInfo.mPlaybackSession = playbackSession` on.
  unfoldable pub accept_setup : ℕ → ℕ → Mode → ℤ → ℤ → M ℕ
  unfolding send_request schedule_reaper schedule_keep_alive transport_line common_response
  accept_setup session cseq mode rtp rtcp = do
    modify (with_playback (pos o.rand))
    status ←
        send_request session
          (ok_response cseq (pos o.rand) (transport_line mode rtp rtcp o.rtp_port))
    if status == 0
        then (do
          set_state awaiting_client_play
          schedule_reaper o
          schedule_keep_alive o session
          return 0)
        else return status

  abbrev pub init_detail : Bytes
  init_detail = if o.init_status == enoent then text "404 Not Found" else text "403 Forbidden"

  -- From the playback session's `init` on.
  unfoldable pub init_playback : ℕ → ℕ → Mode → ℤ → ℤ → M ℕ
  unfolding accept_setup refuse
  init_playback session cseq mode rtp rtcp =
      if o.init_status == 0 then accept_setup session cseq mode rtp rtcp else (do
        emit (handler_unregistered (pos o.rand))
        refuse session init_detail cseq o.init_status)

  -- From the choice of the transport on.
  unfoldable pub setup_playback : ℕ → ℕ → Message → Mode → ℤ → ℤ → M ℕ
  unfolding init_playback refuse
  setup_playback session cseq msg mode rtp rtcp = do
    emit (handler_registered (pos o.rand))
    let uri = request_field msg 1
    if not (has_prefix (text "rtsp://") uri)
        then refuse session (text "400 Bad Request") cseq error_malformed
        else if not (is_prefix (text "rtsp://") uri && ends_with (text "/wfd1.0/streamid=0") uri)
        then refuse session (text "404 Not found") cseq error_malformed
        else init_playback session cseq mode rtp rtcp

  unfoldable pub on_setup_request : ℕ → ℕ → Message → M ℕ
  unfolding read_transport setup_playback refuse
  on_setup_request session cseq msg = do
    s ← get
    check (session == s.client_session_id)
    if not (eqb_ℤ s.playback_session_id minus_one)
        then refuse session (text "400 Bad Request") cseq error_malformed
        else elim (find_string msg (text "transport")) [
          | none ↦ refuse session (text "400 Bad Request") cseq error_malformed
          | some transport ↦ elim (read_transport P transport) [
            | bad_request ↦ refuse session (text "400 Bad Request") cseq error_malformed
            | unsupported ↦ refuse session (text "461 Unsupported Transport") cseq error_unsupported
            | chosen mode rtp rtcp ↦ setup_playback session cseq msg mode rtp rtcp
          ]
        ]

  -- The end of `onPlayRequest`, once the response is out.
  unfoldable pub start_playing : M ℕ
  start_playing = do
    s ← get
    if same_state s.state paused_to_playing then set_state playing >> return 0 else (do
      emit (called finish_play)
      check (same_state s.state awaiting_client_play)
      set_state about_to_play
      return 0)

  -- `onPlayRequest`, from where there is a playback session on.
  unfoldable pub play_session : ℕ → ℕ → ℤ → M ℕ
  unfolding send_request start_playing common_response
  play_session session cseq id = do
    emit (called play)
    check (o.play_status == 0)
    status ← send_request session (ok_response cseq id (text "Range: npt=now-\r\n"))
    if status == 0 then start_playing else return status

  unfoldable pub on_play_request : ℕ → ℕ → Message → M ℕ
  unfolding with_playback_session play_session
  on_play_request session cseq msg =
      with_playback_session session cseq msg (play_session session cseq)

  -- `onPauseRequest`, from where there is a playback session on.
  unfoldable pub pause_session : ℕ → ℕ → ℤ → M ℕ
  unfolding send_request common_response
  pause_session session cseq id = do
    s ← get
    if same_state s.state playing_to_paused
        then (do
          emit (called pause)
          check (o.pause_status == 0)
          status ← send_request session (ok_response cseq id (text ""))
          if status == 0 then set_state paused >> return 0 else return status)
        else return invalid_operation

  unfoldable pub on_pause_request : ℕ → ℕ → Message → M ℕ
  unfolding with_playback_session pause_session
  on_pause_request session cseq msg =
      with_playback_session session cseq msg (pause_session session cseq)

  -- `onTeardownRequest`, from where there is a playback session on.
  unfoldable pub teardown_session : ℕ → ℕ → ℤ → M ℕ
  unfolding send_request finish_stop tell_client common_response
  teardown_session session cseq id = do
    send_request session (ok_response cseq id (text "Connection: close\r\n"))
    s ← get
    (if same_state s.state awaiting_client_teardown
        then check (not (s.stop_reply_id == 0)) >> finish_stop
        else tell_client display_error)
    return 0

  unfoldable pub on_teardown_request : ℕ → ℕ → Message → M ℕ
  unfolding with_playback_session teardown_session
  on_teardown_request session cseq msg =
      with_playback_session session cseq msg (teardown_session session cseq)

  -- `onGetParameterRequest`, from where there is a playback session on.
  unfoldable pub answer_get_parameter : ℕ → ℕ → ℤ → M ℕ
  unfolding send_request common_response
  answer_get_parameter session cseq id = do
    emit (called update_liveness)
    send_request session (ok_response cseq id (text ""))

  unfoldable pub on_get_parameter_request : ℕ → ℕ → Message → M ℕ
  unfolding with_playback_session answer_get_parameter
  on_get_parameter_request session cseq msg =
      with_playback_session session cseq msg (answer_get_parameter session cseq)

  -- `onSetParameterRequest`, from where there is a playback session on.
  unfoldable pub answer_set_parameter : ℕ → ℕ → Message → ℤ → M ℕ
  unfolding send_request contains common_response
  answer_set_parameter session cseq msg id = do
    (if contains (text "wfd_idr_request\r\n") (content msg)
        then emit (called request_idr_frame)
        else return tt)
    emit (called update_liveness)
    send_request session (ok_response cseq id (text ""))

  unfoldable pub on_set_parameter_request : ℕ → ℕ → Message → M ℕ
  unfolding with_playback_session answer_set_parameter
  on_set_parameter_request session cseq msg =
      with_playback_session session cseq msg (answer_set_parameter session cseq msg)
