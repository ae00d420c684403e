-- ===== src/Source/Registry/Receive.antt =====
-- source/WifiDisplaySource.cpp: what a message does to `mResponseHandlers`.
use how_to_miracast_on_aosp.Prelude.{
  ◌*◌, ℕ, ◌+◌, ◌==◌, refl, false, Bytes, not, arith, ◌||◌, ltb, leb, length,
}
use how_to_miracast_on_aosp.Rtsp.Text.{same_text}
use how_to_miracast_on_aosp.Rtsp.Frame.{
  Still, Tame, >>-Still, >>-Tame, >>=-Still, >>=-Tame, Tame->>=, Tame->>, Still-Tame, check-Still,
  return-Still, return-Tame, if-Still, if-Tame,
}
use how_to_miracast_on_aosp.Source.{
  posted, teardown_trigger_timed_out, State, awaiting_client_play, awaiting_client_teardown,
  same_state, display_error, World, Outside, destroyed, get, modify,
}
use how_to_miracast_on_aosp.Source.Send.{Trigger, setup, teardown}
use how_to_miracast_on_aosp.Source.Receive.{
  with_client, with_addresses, with_stop_reply, hdcp_initialized, trigger_sent, start_server,
  on_start, on_error, accept_client, on_client_connected, on_stop, change_playing, on_reap,
  on_established, on_binary_data, on_keep_alive, on_teardown_timed_out, Notice,
  initialization_complete, shutdown_complete, shutdown_failed, other, on_hdcp_notify,
}
use how_to_miracast_on_aosp.Source.Registry.{
  source_frame, get-Still, set_state-Still, emit-Still, checks-Tame, send_request-Still,
  tell_client-Still, finish_stop-Still, schedule_reaper-Still, send_m1-Tame, send_trigger-Tame,
  send_m16-Tame,
}

no_client-Still : Still (modify (λ s. record s { client_session_id = 0 }))
unfolding Still
no_client-Still w = (refl, refl)

reaper_done-Still : Still (modify (λ s. record s { reaper_pending = false }))
unfolding Still
reaper_done-Still w = (refl, refl)

with_client-Still : (session port : ℕ) → Still (modify (with_client session port))
unfolding Still
with_client-Still session port w = (refl, refl)

with_addresses-Still : (remote here : Bytes) → Still (modify (with_addresses remote here))
unfolding Still
with_addresses-Still remote here w = (refl, refl)

with_stop_reply-Still : (reply : ℕ) → Still (modify (with_stop_reply reply))
unfolding Still
with_stop_reply-Still reply w = (refl, refl)

hdcp_initialized-Still : Still (modify hdcp_initialized)
unfolding Still
hdcp_initialized-Still w = (refl, refl)

trigger_sent-Still : Still (modify trigger_sent)
unfolding Still
trigger_sent-Still w = (refl, refl)

module _ (o : Outside) where
  pub on_start-Still : (reply : ℕ) (iface : Bytes) → Still (on_start o reply iface)
  unfolding on_start start_server Still
  on_start-Still reply iface w = ground arith

  pub on_error-Still : (session : ℕ) → Still (on_error o session)
  unfolding on_error
  on_error-Still session = >>-Still _ _ (emit-Still (destroyed session)) (
      >>=-Still _ get get-Still λ s.
        if-Still _ _ (session == s.client_session_id)
          (>>-Still _ _ no_client-Still (tell_client-Still display_error)) (return-Still World tt))

  accept_client-Tame : (session port : ℕ) → Tame (accept_client o session port)
  unfolding accept_client
  accept_client-Tame session port =
      >>-Tame _ _ (with_client-Still session port)
        (Tame->>= _ _ (send_m1-Tame o session) λ status. check-Still World (status == 0))

  pub on_client_connected-Tame :
      (session : ℕ) (remote here : Bytes) (port : ℕ)
      → Tame (on_client_connected o session remote here port)
  unfolding on_client_connected
  on_client_connected-Tame session remote here port = >>=-Tame _ get get-Still λ s.
      if-Tame _ _ (ltb 0 s.client_session_id) (Still-Tame _ (emit-Still (destroyed session))) (
        checks-Tame _ _ (
          >>-Tame _ _ (with_addresses-Still remote here) (
            if-Tame _ _ (same_text remote here) (Still-Tame _ (emit-Still (destroyed session)))
              (accept_client-Tame session port))))

  pub on_stop-Tame : (reply : ℕ) → Tame (on_stop o reply)
  unfolding on_stop
  on_stop-Tame reply = >>-Tame _ _ (with_stop_reply-Still reply) (
      >>=-Tame _ get get-Still λ s.
        checks-Tame (ltb (o.rank s.state) (o.rank awaiting_client_teardown)) _ (
          if-Tame _ _ (ltb (o.rank s.state) (o.rank awaiting_client_play))
            (Still-Tame _ finish_stop-Still)
            (Tame->>= _ _ (send_trigger-Tame o s.client_session_id teardown) λ status.
              if-Still _ _ (status == 0)
                (>>-Still _ _ (set_state-Still awaiting_client_teardown) (
                  emit-Still (
                    posted teardown_trigger_timed_out (o.teardown_trigger_timeout_secs * 1000000))))
                finish_stop-Still)))

  pub change_playing-Tame :
      (from to : State) (trigger : Trigger) (reply : ℕ)
      → Tame (change_playing o from to trigger reply)
  unfolding change_playing
  change_playing-Tame from to trigger reply = >>=-Tame _ get get-Still λ s.
      if-Tame _ _ (same_state s.state from)
        (>>-Tame _ _ (set_state-Still to)
          (Tame->> _ _ (send_trigger-Tame o s.client_session_id trigger) (emit-Still _)))
        (Still-Tame _ (emit-Still _))

  pub on_reap-Still : (last now : ℕ) → Still (on_reap o last now)
  unfolding on_reap
  on_reap-Still last now = >>-Still _ _ reaper_done-Still (
      >>=-Still _ get get-Still λ s.
        if-Still _ _ (s.client_session_id == 0 || not s.playback_session) (return-Still World tt) (
          if-Still _ _ (ltb (last + o.playback_session_timeout_us) now)
            (>>-Still _ _
              (>>-Still _ _ (emit-Still (destroyed s.client_session_id)) no_client-Still)
              (tell_client-Still display_error))
            (schedule_reaper-Still o)))

  pub on_established-Still : Still (on_established o)
  unfolding on_established Still
  on_established-Still w = ground arith

  pub on_binary_data-Still :
      (session channel : ℕ) (bytes : Bytes) → Still (on_binary_data o session channel bytes)
  unfolding on_binary_data
  on_binary_data-Still session channel bytes = >>-Still _ _ (check-Still World (leb channel 255)) (
      >>-Still _ _ (check-Still World (leb (length bytes) 65535)) (
        >>-Still _ _ (send_request-Still session _)
          (>>-Still _ _ (send_request-Still session bytes) (return-Still World tt))))

  pub on_keep_alive-Tame : (session : ℕ) → Tame (on_keep_alive o session)
  unfolding on_keep_alive
  on_keep_alive-Tame session = >>=-Tame _ get get-Still λ s.
      if-Tame _ _ (s.client_session_id == session)
        (Tame->> _ _ (send_m16-Tame o session) (return-Still World tt)) (return-Tame World tt)

  pub on_teardown_timed_out-Still : Still (on_teardown_timed_out o)
  unfolding on_teardown_timed_out
  on_teardown_timed_out-Still = >>=-Still _ get get-Still λ s.
      if-Still _ _ (same_state s.state awaiting_client_teardown)
        (>>-Still _ _ (check-Still World (not (s.stop_reply_id == 0))) finish_stop-Still)
        (return-Still World tt)

  pub on_hdcp_notify-Tame : (notice : Notice) → Tame (on_hdcp_notify o notice)
  unfolding on_hdcp_notify
  on_hdcp_notify-Tame initialization_complete = >>-Tame _ _ hdcp_initialized-Still (
      >>=-Tame _ get get-Still λ s.
        if-Tame _ _ s.setup_trigger_deferred
          (Tame->> _ _
            (>>-Tame _ _ trigger_sent-Still (send_trigger-Tame o s.client_session_id setup))
            (return-Still World tt))
          (return-Tame World tt))
  on_hdcp_notify-Tame shutdown_complete = Still-Tame _ (emit-Still _)
  on_hdcp_notify-Tame shutdown_failed = Still-Tame _ (emit-Still _)
  on_hdcp_notify-Tame other = Still-Tame _ (tell_client-Still display_error)
