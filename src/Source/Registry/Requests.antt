-- ===== src/Source/Registry/Requests.antt =====
-- source/WifiDisplaySource.cpp: what the handlers of requests and responses do to
-- `mResponseHandlers`.
use how_to_miracast_on_aosp.Prelude.{
  ℕ, ◌==◌, refl, Bytes, Option, none, some, if◌then◌else◌, not, arith,
}
use how_to_miracast_on_aosp.Prelude.Int.{ℤ, eqb_ℤ, minus_one, pos}
use how_to_miracast_on_aosp.Rtsp.Machine.{◌>>=◌, return}
use how_to_miracast_on_aosp.Rtsp.Text.{text, contains, signed}
use how_to_miracast_on_aosp.Rtsp.Message.{ParsedMessage, error_malformed, error_unsupported}
use how_to_miracast_on_aosp.Rtsp.Frame.{
  Still, Tame, >>-Still, >>-Tame, >>=-Still, >>=-Tame, Still-Tame, check-Still, return-Still,
  return-Tame, if-Still, if-Tame, option-Tame,
}
use how_to_miracast_on_aosp.Source.{
  paused, playing_to_paused, awaiting_client_teardown, awaiting_client_play, same_state,
  display_error, World, Outside, called, update_liveness, request_idr_frame, M, get, modify,
  send_request, invalid_operation,
}
use how_to_miracast_on_aosp.Source.Transport.{
  Mode, Transport, bad_request, unsupported, chosen, read_transport,
}
use how_to_miracast_on_aosp.Source.Requests.{
  play_session, pause_session, teardown_session, answer_get_parameter, answer_set_parameter,
  init_detail, with_playback, when_found, refuse, find_playback_session, with_playback_session,
  on_options_request, accept_setup, init_playback, setup_playback, on_setup_request, start_playing,
  on_play_request, on_pause_request, on_teardown_request, on_get_parameter_request,
  on_set_parameter_request,
}
use how_to_miracast_on_aosp.Source.Dispatch.{on_request}
use how_to_miracast_on_aosp.Source.Registry.{
  source_frame, get-Still, emit-Still, emits-Tame, checks-Tame, set_state-Still, send_request-Still,
  sends-Tame, tell_client-Still, finish_stop-Still, schedule_reaper-Still,
  schedule_keep_alive-Still, send_m3-Tame, send_error_response-Still,
}

module _ (o : Outside) (P : ParsedMessage) where
  open P use {Message, request_field, find_int32, find_string, content}

  pub refuse-Tame :
      (session : ℕ) (detail : Bytes) (cseq status : ℕ)
      → Tame (refuse o P session detail cseq status)
  unfolding refuse
  refuse-Tame session detail cseq status =
      >>-Tame _ _ (send_error_response-Still o session detail (signed cseq))
        (return-Tame World status)

  with_playback_session-Tame :
      (session cseq : ℕ) (msg : Message) (next : ℤ → M ℕ)
      → ((id : ℤ) → Tame (next id))
      → Tame (with_playback_session o P session cseq msg next)
  unfolding with_playback_session
  with_playback_session-Tame session cseq msg next h = >>=-Tame _ get get-Still λ s.
      option-Tame _ next (find_playback_session o P msg s)
        (refuse-Tame session (text "454 Session Not Found") cseq error_malformed) h

  on_options_request-Tame :
      (session cseq : ℕ) (msg : Message) → Tame (on_options_request o P session cseq msg)
  unfolding on_options_request
  on_options_request-Tame session cseq msg = >>=-Tame _ get get-Still λ s.
      >>-Tame _ _ (found (find_playback_session o P msg s)) (
        sends-Tame session _ _ λ status.
          if-Tame _ (return status) (status == 0) (send_m3-Tame o session)
            (return-Tame World status))
    where
      found : (x : Option ℤ) → Still (when_found o P x)
      found none = return-Still World tt
      found (some _) = emit-Still (called update_liveness)

  with_playback-Still : (id : ℤ) → Still (modify (with_playback id))
  unfolding Still
  with_playback-Still id w = (refl, refl)

  accept_setup-Tame :
      (session cseq : ℕ) (mode : Mode) (rtp rtcp : ℤ)
      → Tame (accept_setup o P session cseq mode rtp rtcp)
  unfolding accept_setup
  accept_setup-Tame session cseq mode rtp rtcp = >>-Tame _ _ (with_playback-Still (pos o.rand)) (
      sends-Tame session _ _ λ status.
        if-Tame _ (return status) (status == 0)
          (>>-Tame _ _ (set_state-Still awaiting_client_play) (
            >>-Tame _ _ (schedule_reaper-Still o)
              (>>-Tame _ _ (schedule_keep_alive-Still o session) (return-Tame World 0))))
          (return-Tame World status))

  init_playback-Tame :
      (session cseq : ℕ) (mode : Mode) (rtp rtcp : ℤ)
      → Tame (init_playback o P session cseq mode rtp rtcp)
  unfolding init_playback
  init_playback-Tame session cseq mode rtp rtcp =
      if-Tame _ _ (o.init_status == 0) (accept_setup-Tame session cseq mode rtp rtcp)
        (emits-Tame _ _ (refuse-Tame session (init_detail o P) cseq o.init_status))

  setup_playback-Tame :
      (session cseq : ℕ) (msg : Message) (mode : Mode) (rtp rtcp : ℤ)
      → Tame (setup_playback o P session cseq msg mode rtp rtcp)
  unfolding setup_playback
  setup_playback-Tame session cseq msg mode rtp rtcp = emits-Tame _ _ (
      if-Tame _ _ _ (refuse-Tame session (text "400 Bad Request") cseq error_malformed) (
        if-Tame _ _ _ (refuse-Tame session (text "404 Not found") cseq error_malformed)
          (init_playback-Tame session cseq mode rtp rtcp)))

  on_setup_request-Tame :
      (session cseq : ℕ) (msg : Message) → Tame (on_setup_request o P session cseq msg)
  unfolding on_setup_request
  on_setup_request-Tame session cseq msg = >>=-Tame _ get get-Still λ s. checks-Tame _ _ (
      if-Tame _ _ (not (eqb_ℤ s.playback_session_id minus_one))
        (refuse-Tame session (text "400 Bad Request") cseq error_malformed)
        (option-Tame _ _ (find_string msg (text "transport"))
          (refuse-Tame session (text "400 Bad Request") cseq error_malformed)
          λ transport. ports (read_transport P transport)))
    where
      ports :
          (t : Transport)
          → Tame (elim t [
            | bad_request ↦ refuse o P session (text "400 Bad Request") cseq error_malformed
            | unsupported ↦
                refuse o P session (text "461 Unsupported Transport") cseq error_unsupported
            | chosen mode rtp rtcp ↦ setup_playback o P session cseq msg mode rtp rtcp
          ])
      ports bad_request = refuse-Tame session (text "400 Bad Request") cseq error_malformed
      ports unsupported =
          refuse-Tame session (text "461 Unsupported Transport") cseq error_unsupported
      ports (chosen mode rtp rtcp) = setup_playback-Tame session cseq msg mode rtp rtcp

  start_playing-Still : Still (start_playing o P)
  unfolding start_playing Still Tame
  start_playing-Still w = ground arith

  -- The requests for a playback session that end in a response.
  answer-Tame :
      (session : ℕ) (response : Bytes) (next : M ℕ)
      → Still next
      → Tame
          (send_request session response >>= λ status. if status == 0 then next else return status)
  answer-Tame session response next h = Still-Tame _ (
      >>=-Still _ (send_request session response) (send_request-Still session response)
        λ status. if-Still next (return status) (status == 0) h (return-Still World status))

  play_session-Tame : (session cseq : ℕ) (id : ℤ) → Tame (play_session o P session cseq id)
  unfolding play_session
  play_session-Tame session cseq id =
      emits-Tame _ _
        (checks-Tame _ _ (answer-Tame session _ (start_playing o P) start_playing-Still))

  pause_session-Tame : (session cseq : ℕ) (id : ℤ) → Tame (pause_session o P session cseq id)
  unfolding pause_session
  pause_session-Tame session cseq id = >>=-Tame _ get get-Still λ s.
      if-Tame _ (return invalid_operation) (same_state s.state playing_to_paused)
        (emits-Tame _ _ (
          checks-Tame _ _ (
            answer-Tame session _ _
              (>>-Still _ _ (set_state-Still paused) (return-Still World 0)))))
        (return-Tame World invalid_operation)

  teardown_session-Tame : (session cseq : ℕ) (id : ℤ) → Tame (teardown_session o P session cseq id)
  unfolding teardown_session
  teardown_session-Tame session cseq id = >>-Tame _ _ (send_request-Still session _) (
      >>=-Tame _ get get-Still λ s.
        >>-Tame _ _
          (if-Still _ _ (same_state s.state awaiting_client_teardown)
            (>>-Still _ _ (check-Still World (not (s.stop_reply_id == 0))) finish_stop-Still)
            (tell_client-Still display_error))
          (return-Tame World 0))

  answer_get_parameter-Tame :
      (session cseq : ℕ) (id : ℤ) → Tame (answer_get_parameter o P session cseq id)
  unfolding answer_get_parameter
  answer_get_parameter-Tame session cseq id =
      emits-Tame _ _ (Still-Tame _ (send_request-Still session _))

  answer_set_parameter-Tame :
      (session cseq : ℕ) (msg : Message) (id : ℤ)
      → Tame (answer_set_parameter o P session cseq msg id)
  unfolding answer_set_parameter
  answer_set_parameter-Tame session cseq msg id =
      >>-Tame _ _
        (if-Still _ _ (contains (text "wfd_idr_request\r\n") (content msg))
          (emit-Still (called request_idr_frame)) (return-Still World tt))
        (emits-Tame _ _ (Still-Tame _ (send_request-Still session _)))

  pub on_request-Tame : (session cseq : ℕ) (msg : Message) → Tame (on_request o P session cseq msg)
  unfolding on_request on_play_request on_pause_request on_teardown_request on_get_parameter_request
      on_set_parameter_request
  on_request-Tame session cseq msg =
      if-Tame _ _ _
        (refuse-Tame session (text "505 RTSP Version not supported") cseq error_unsupported)
        (if-Tame _ _ _ (on_options_request-Tame session cseq msg) (
          if-Tame _ _ _ (on_setup_request-Tame session cseq msg) (
            if-Tame _ _ _ (found (play_session o P session cseq) (play_session-Tame session cseq)) (
              if-Tame _ _ _
                (found (pause_session o P session cseq) (pause_session-Tame session cseq))
                (if-Tame _ _ _
                  (found (teardown_session o P session cseq) (teardown_session-Tame session cseq))
                  (if-Tame _ _ _
                    (found (answer_get_parameter o P session cseq)
                      (answer_get_parameter-Tame session cseq))
                    (if-Tame _ _ _
                      (found (answer_set_parameter o P session cseq msg)
                        (answer_set_parameter-Tame session cseq msg))
                      (refuse-Tame session (text "405 Method Not Allowed") cseq
                        error_unsupported))))))))
    where
      found :
          (next : ℤ → M ℕ)
          → ((id : ℤ) → Tame (next id))
          → Tame (with_playback_session o P session cseq msg next)
      found = with_playback_session-Tame session cseq msg
