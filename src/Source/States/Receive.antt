-- ===== src/Source/States/Receive.antt =====
-- source/WifiDisplaySource.cpp: the messages but those of the client keep to the abstract machine.
use how_to_miracast_on_aosp.Prelude.{ℕ, ◌≡◌, ◌<◌, arith, Bytes}
use how_to_miracast_on_aosp.Rtsp.Frame.{Tame}
use how_to_miracast_on_aosp.Prelude.Outcome.{Ensures}
use how_to_miracast_on_aosp.Source.{
  initialized, awaiting_client_setup, awaiting_client_play, stopping, same_state, display_error,
  World, Outside, tell_client, send_request, playing, playing_to_paused, paused, paused_to_playing,
}
use how_to_miracast_on_aosp.Source.Send.{Trigger, send_expecting, send_trigger, send_m1, send_m16}
use how_to_miracast_on_aosp.Source.Stop.{
  finish_stop2, finish_stop_after_disconnecting_client, release_playback_session,
  release_client_session, disconnect_client2, disconnect_client_async, finish_stop, schedule_reaper,
}
use how_to_miracast_on_aosp.Source.Receive.{
  start_server, on_start, on_error, accept_client, on_client_connected, on_stop, change_playing,
  on_reap, on_established, on_binary_data, on_keep_alive, on_teardown_timed_out, Notice,
  on_hdcp_notify,
}
use how_to_miracast_on_aosp.Source.States.{consistent, Follows, next, ending, state_frame}

module _ (o : Outside) where
  pub start-Follows :
      (reply : ℕ) (iface : Bytes) (w : World)
      → w.source.state ≡ initialized
      → Ensures (λ (r : Unit {0} × World). Follows w r.1) (on_start o reply iface w)
  unfolding on_start start_server consistent same_state next ending
  start-Follows reply iface w e = ground arith

  pub error-Tame : (session : ℕ) → Tame (on_error o session)
  unfolding on_error tell_client consistent same_state next ending Tame
  error-Tame session w = ground arith

  pub connected-Tame :
      (session : ℕ) (remote here : Bytes) (port : ℕ)
      → Tame (on_client_connected o session remote here port)
  unfolding on_client_connected accept_client send_m1 send_expecting send_request consistent
      same_state next ending Tame
  connected-Tame session remote here port w = ground arith

  pub stop-Tame :
      (reply : ℕ)
      → o.rank awaiting_client_setup < o.rank awaiting_client_play
      → Tame (on_stop o reply)
  unfolding on_stop send_trigger send_expecting send_request finish_stop disconnect_client_async
      disconnect_client2 release_playback_session release_client_session tell_client
      finish_stop_after_disconnecting_client finish_stop2 consistent same_state next ending Tame
  stop-Tame reply ordered w = ground arith

  pub pause-Tame :
      (reply : ℕ) (trigger : Trigger)
      → Tame (change_playing o playing playing_to_paused trigger reply)
  unfolding change_playing send_trigger send_expecting send_request consistent same_state next
      ending Tame
  pause-Tame reply trigger w = ground arith

  pub resume-Tame :
      (reply : ℕ) (trigger : Trigger)
      → Tame (change_playing o paused paused_to_playing trigger reply)
  unfolding change_playing send_trigger send_expecting send_request consistent same_state next
      ending Tame
  resume-Tame reply trigger w = ground arith

  pub reap-Tame : (last now : ℕ) → Tame (on_reap o last now)
  unfolding on_reap schedule_reaper tell_client consistent same_state next ending Tame
  reap-Tame last now w = ground arith

  pub established-Tame : Tame (on_established o)
  unfolding on_established consistent same_state next ending Tame
  established-Tame w = ground arith

  pub destroyed-Tame : Tame disconnect_client2
  unfolding disconnect_client2 release_playback_session release_client_session tell_client
      finish_stop_after_disconnecting_client finish_stop2 consistent same_state next ending Tame
  destroyed-Tame w = ground arith

  pub binary_data-Tame :
      (session channel : ℕ) (bytes : Bytes) → Tame (on_binary_data o session channel bytes)
  unfolding on_binary_data send_request consistent same_state next ending Tame
  binary_data-Tame session channel bytes w = ground arith

  pub keep_alive-Tame : (session : ℕ) → Tame (on_keep_alive o session)
  unfolding on_keep_alive send_m16 send_expecting send_request consistent same_state next ending
      Tame
  keep_alive-Tame session w = ground arith

  pub timed_out-Tame : Tame (on_teardown_timed_out o)
  unfolding on_teardown_timed_out finish_stop disconnect_client_async disconnect_client2
      release_playback_session release_client_session tell_client
      finish_stop_after_disconnecting_client finish_stop2 consistent same_state next ending Tame
  timed_out-Tame w = ground arith

  pub finished-Follows :
      (w : World)
      → w.source.state ≡ stopping
      → Ensures (λ (r : Unit {0} × World). Follows w r.1) (finish_stop2 w)
  unfolding finish_stop2 consistent same_state next ending
  finished-Follows w e = ground arith

  pub hdcp-Tame : (notice : Notice) → Tame (on_hdcp_notify o notice)
  unfolding on_hdcp_notify send_trigger send_expecting send_request tell_client consistent
      same_state next ending Tame
  hdcp-Tame notice w = ground arith

  pub dead-Tame : Tame (tell_client display_error)
  unfolding tell_client consistent same_state next ending Tame
  dead-Tame w = ground arith
