-- ===== src/Source/Stop.antt =====
-- source/WifiDisplaySource.cpp: `finishStop` and what follows it, and the timers.
pub mod Ends
use how_to_miracast_on_aosp.Prelude.{ℕ, ◌-◌, ◌*◌, Bool, true, false, not, ◌==◌, if◌then◌else◌, ltb}
use how_to_miracast_on_aosp.Rtsp.Machine.{◌>>=◌, ◌>>◌, return, check}
use how_to_miracast_on_aosp.Source.{
  stopping, stopped, Source, World, Outside, M, get, modify, set_state, emit, tell_client,
  destroyed, replied, display_disconnected, called, destroy_async, handler_unregistered,
  hdcp_shutdown, posted, reap_dead_clients, keep_alive,
}

-- `finishStop2`.
unfoldable pub finish_stop2 : M (Unit {0})
finish_stop2 = do
  modify λ s. record s { hdcp = false; hdcp_observer = if s.hdcp then false else s.hdcp_observer }
  s ← get
  (if s.session_id == 0
      then return tt
      else emit (destroyed s.session_id) >> modify (λ s. record s { session_id = 0 }))
  set_state stopped
  emit (replied s.stop_reply_id 0)

unfoldable pub finish_stop_after_disconnecting_client : M (Unit {0})
unfolding finish_stop2
finish_stop_after_disconnecting_client = do
  s ← get
  if s.hdcp then emit hdcp_shutdown else finish_stop2

-- The two releases that `disconnectClient2` begins with.
unfoldable pub release_playback_session : M (Unit {0})
release_playback_session = do
  s ← get
  if s.playback_session
      then emit (handler_unregistered s.playback_session_id)
        >> modify (λ s. record s { playback_session = false })
      else return tt

unfoldable pub release_client_session : M (Unit {0})
release_client_session = do
  s ← get
  if s.client_session_id == 0
      then return tt
      else emit (destroyed s.client_session_id) >> modify (λ s. record s { client_session_id = 0 })

unfoldable pub disconnect_client2 : M (Unit {0})
unfolding release_playback_session release_client_session tell_client
    finish_stop_after_disconnecting_client
disconnect_client2 = do
  release_playback_session
  release_client_session
  tell_client display_disconnected
  finish_stop_after_disconnecting_client

unfoldable pub disconnect_client_async : M (Unit {0})
unfolding disconnect_client2
disconnect_client_async = do
  s ← get
  if s.playback_session then emit (called destroy_async) else disconnect_client2

unfoldable pub finish_stop : M (Unit {0})
unfolding disconnect_client_async
finish_stop = do set_state stopping; disconnect_client_async

module _ (o : Outside) where
  unfoldable pub schedule_reaper : M (Unit {0})
  schedule_reaper = do
    s ← get
    if s.reaper_pending
        then return tt
        else modify (λ s. record s { reaper_pending = true })
          >> emit (posted reap_dead_clients o.reaper_interval_us)

  unfoldable pub schedule_keep_alive : ℕ → M (Unit {0})
  schedule_keep_alive session = do
    check (ltb 5000000 o.playback_session_timeout_us)
    emit (posted (keep_alive session) (o.playback_session_timeout_us - 5000000))
