-- ===== src/Source/States/Requests.antt =====
-- source/WifiDisplaySource.cpp: the requests of the client keep to the abstract machine.
use how_to_miracast_on_aosp.Prelude.{
  ℕ, ◌≡◌, ◌≢◌, Bool-cases, Option-cases, inl, inr, refl, true, ◌==◌, arith, Bytes,
}
use how_to_miracast_on_aosp.Prelude.Int.{ℤ, minus_one, eqb_ℤ}
use how_to_miracast_on_aosp.Prelude.Outcome.{Ensures}
use how_to_miracast_on_aosp.Rtsp.Frame.{Still, Tame, >>=-Tame, option-Tame}
use how_to_miracast_on_aosp.Rtsp.Text.{text}
use how_to_miracast_on_aosp.Rtsp.Message.{ParsedMessage, error_malformed, error_unsupported}
use how_to_miracast_on_aosp.Source.{same_state, World, Outside, M, get, tell_client, send_request}
use how_to_miracast_on_aosp.Source.Send.{send_expecting, send_m3, send_error_response}
use how_to_miracast_on_aosp.Source.Stop.{
  finish_stop2, finish_stop_after_disconnecting_client, release_playback_session,
  release_client_session, disconnect_client2, disconnect_client_async, finish_stop, schedule_reaper,
  schedule_keep_alive,
}
use how_to_miracast_on_aosp.Source.Transport.{
  Mode, Transport, bad_request, unsupported, chosen, read_transport,
}
use how_to_miracast_on_aosp.Source.Requests.{
  refuse, find_playback_session, with_playback_session, on_options_request, accept_setup,
  init_playback, setup_playback, on_setup_request, start_playing, play_session, pause_session,
  teardown_session, answer_get_parameter, answer_set_parameter, on_play_request, on_pause_request,
  on_teardown_request, on_get_parameter_request, on_set_parameter_request,
}
use how_to_miracast_on_aosp.Source.Dispatch.{on_request}
use how_to_miracast_on_aosp.Source.States.{consistent, Follows, next, ending, state_frame}

module _ (o : Outside) (P : ParsedMessage) where
  open P use {Message, request_field, find_int32, find_string, status_code, content}

  refuse-Tame :
      (session : ℕ) (detail : Bytes) (cseq status : ℕ)
      → Tame (refuse o P session detail cseq status)
  unfolding refuse send_error_response send_request consistent same_state next ending Tame
  refuse-Tame session detail cseq status w = ground arith

  options-Tame : (session cseq : ℕ) (msg : Message) → Tame (on_options_request o P session cseq msg)
  unfolding on_options_request find_playback_session send_m3 send_expecting send_request consistent
      same_state next ending Tame
  options-Tame session cseq msg w = ground arith

  setup_playback-Follows :
      (session cseq : ℕ) (msg : Message) (mode : Mode) (rtp rtcp : ℤ) (w : World)
      → w.source.client_session_id ≢ 0
      → eqb_ℤ w.source.playback_session_id minus_one ≡ true
      → Ensures
          (λ (r : ℕ × World). Follows w r.1)
          (setup_playback o P session cseq msg mode rtp rtcp w)
  unfolding setup_playback init_playback accept_setup refuse send_error_response send_request
      schedule_reaper schedule_keep_alive consistent same_state next ending
  setup_playback-Follows session cseq msg mode rtp rtcp w client fresh = ground arith

  abbrev by_transport : ℕ → ℕ → Message → Transport → M ℕ
  by_transport session cseq msg t = elim t [
    | bad_request ↦ refuse o P session (text "400 Bad Request") cseq error_malformed
    | unsupported ↦ refuse o P session (text "461 Unsupported Transport") cseq error_unsupported
    | chosen mode rtp rtcp ↦ setup_playback o P session cseq msg mode rtp rtcp
  ]

  by_transport-Follows :
      (session cseq : ℕ) (msg : Message) (t : Transport) (w : World)
      → w.source.client_session_id ≢ 0
      → eqb_ℤ w.source.playback_session_id minus_one ≡ true
      → Ensures (λ (r : ℕ × World). Follows w r.1) (by_transport session cseq msg t w)
  unfolding Tame
  by_transport-Follows session cseq msg bad_request w client fresh =
      refuse-Tame session (text "400 Bad Request") cseq error_malformed w
  by_transport-Follows session cseq msg unsupported w client fresh =
      refuse-Tame session (text "461 Unsupported Transport") cseq error_unsupported w
  by_transport-Follows session cseq msg (chosen mode rtp rtcp) w client fresh =
      setup_playback-Follows session cseq msg mode rtp rtcp w client fresh

  setup-Follows :
      (session cseq : ℕ) (msg : Message) (w : World)
      → session ≢ 0
      → Ensures (λ (r : ℕ × World). Follows w r.1) (on_setup_request o P session cseq msg w)
  unfolding on_setup_request Tame
  setup-Follows session cseq msg w client =
      elim (Bool-cases (session == w.source.client_session_id)) [
        | inr wrong ↦ rw (on_setup_request, wrong) tt
        | inl same ↦ elim (Bool-cases (eqb_ℤ w.source.playback_session_id minus_one)) [
          | inr taken ↦
              rw (on_setup_request, same, taken)
                (refuse-Tame session (text "400 Bad Request") cseq error_malformed w)
          | inl fresh ↦ elim (Option-cases (find_string msg (text "transport"))) [
            | inl missing ↦
                rw (on_setup_request, same, fresh, missing)
                  (refuse-Tame session (text "400 Bad Request") cseq error_malformed w)
            | inr (transport, given) ↦
                rw (on_setup_request, same, fresh, given)
                  (by_transport-Follows session cseq msg (read_transport P transport) w
                    (ground arith) fresh)
          ]
        ]
      ]

  play-Tame : (session cseq : ℕ) (msg : Message) → Tame (on_play_request o P session cseq msg)
  unfolding on_play_request with_playback_session find_playback_session refuse send_error_response
      play_session start_playing send_request consistent same_state next ending Tame
  play-Tame session cseq msg w = ground arith

  pause-Tame : (session cseq : ℕ) (msg : Message) → Tame (on_pause_request o P session cseq msg)
  unfolding on_pause_request with_playback_session find_playback_session refuse send_error_response
      pause_session send_request consistent same_state next ending Tame
  pause-Tame session cseq msg w = ground arith

  teardown-Tame :
      (session cseq : ℕ) (msg : Message) → Tame (on_teardown_request o P session cseq msg)
  unfolding on_teardown_request with_playback_session find_playback_session refuse
      send_error_response teardown_session send_request finish_stop disconnect_client_async
      disconnect_client2 release_playback_session release_client_session tell_client
      finish_stop_after_disconnecting_client finish_stop2 consistent same_state next ending Tame
  teardown-Tame session cseq msg w = ground arith

  get_parameter-Tame :
      (session cseq : ℕ) (msg : Message) → Tame (on_get_parameter_request o P session cseq msg)
  unfolding on_get_parameter_request with_playback_session find_playback_session refuse
      send_error_response answer_get_parameter send_request consistent same_state next ending Tame
  get_parameter-Tame session cseq msg w = ground arith

  pub get-Still : Still get
  unfolding Still
  get-Still w = (refl, refl, refl, refl)

  answer_set_parameter-Tame :
      (session cseq : ℕ) (msg : Message) (id : ℤ)
      → Tame (answer_set_parameter o P session cseq msg id)
  unfolding answer_set_parameter send_request consistent same_state next ending Tame
  answer_set_parameter-Tame session cseq msg id w = ground arith

  set_parameter-Tame :
      (session cseq : ℕ) (msg : Message) → Tame (on_set_parameter_request o P session cseq msg)
  unfolding on_set_parameter_request with_playback_session
  set_parameter-Tame session cseq msg = >>=-Tame _ get get-Still λ s.
      option-Tame _ _ (find_playback_session o P msg s)
        (refuse-Tame session (text "454 Session Not Found") cseq error_malformed)
        (answer_set_parameter-Tame session cseq msg)

  pub on_request-Follows :
      (session cseq : ℕ) (msg : Message) (w : World)
      → session ≢ 0
      → Ensures (λ (r : ℕ × World). Follows w r.1) (on_request o P session cseq msg w)
  unfolding on_request Tame
  on_request-Follows session cseq msg w client = ground (
    arith,
    refuse-Tame session (text "505 RTSP Version not supported") cseq error_unsupported w,
    refuse-Tame session (text "405 Method Not Allowed") cseq error_unsupported w,
    options-Tame session cseq msg w,
    setup-Follows session cseq msg w client,
    play-Tame session cseq msg w,
    pause-Tame session cseq msg w,
    teardown-Tame session cseq msg w,
    get_parameter-Tame session cseq msg w,
    set_parameter-Tame session cseq msg w,
  )
