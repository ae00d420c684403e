-- ===== src/Source/States/Machine.antt =====
-- source/WifiDisplaySource.cpp: `onMessageReceived` refines the abstract machine, at one message
-- and along a run.
use how_to_miracast_on_aosp.Prelude.{◌≡◌, ◌≢◌, ◌<◌, true}
use how_to_miracast_on_aosp.Prelude.Outcome.{Ensures, Outcome}
use how_to_miracast_on_aosp.Rtsp.Frame.{Tame, weaken}
use how_to_miracast_on_aosp.Rtsp.Message.{ParsedMessage}
use how_to_miracast_on_aosp.Source.{
  initialized, stopping, awaiting_client_setup, awaiting_client_play, Source, World, Outside,
}
use how_to_miracast_on_aosp.Source.Send
use how_to_miracast_on_aosp.Source.Receive.{
  Event, start, rtsp_error, client_connected, client_data, stop, pause, resume, reap, session_dead,
  session_established, session_destroyed, binary_data, keep_alive, teardown_timed_out,
  finish_stop_later, hdcp_notify, on_message,
}
use how_to_miracast_on_aosp.Source.States.{Consistent, Follows, allowed, state_frame}
use how_to_miracast_on_aosp.Source.States.Receive.{
  start-Follows, error-Tame, connected-Tame, stop-Tame, pause-Tame, resume-Tame, reap-Tame,
  established-Tame, destroyed-Tame, binary_data-Tame, keep_alive-Tame, timed_out-Tame,
  finished-Follows, hdcp-Tame, dead-Tame,
}
use how_to_miracast_on_aosp.Source.States.Client.{client_data-Follows}

module _ (o : Outside) (P : ParsedMessage) where
  -- `start` is called once, as its CHECK_EQ says; sessions have numbers above 0; and the HDCP
  -- module shuts down when it is told to.
  abbrev pub Fitting : Event o P → Source → Type 0
  Fitting (start _ _) s = s.state ≡ initialized
  Fitting (client_data session _) s = session ≢ 0
  Fitting finish_stop_later s = s.state ≡ stopping
  Fitting _ s = Unit {0}

  abbrev Keeps : World → Outcome (Unit {0} × World) → Type 0
  Keeps w = Ensures (λ r. Follows w r.1)

  follows :
      (event : Event o P) (w : World)
      → o.rank awaiting_client_setup < o.rank awaiting_client_play
      → Fitting event w.source
      → Keeps w (on_message o P event w)
  unfolding on_message Tame
  follows (start reply iface) w ordered fits = start-Follows o reply iface w fits
  follows (rtsp_error session) w ordered fits = error-Tame o session w
  follows (client_connected session remote here port) w ordered fits =
      connected-Tame o session remote here port w
  follows (client_data session msg) w ordered fits = client_data-Follows o P session msg w fits
  follows (stop reply) w ordered fits = stop-Tame o reply ordered w
  follows (pause reply) w ordered fits = pause-Tame o reply Send.pause w
  follows (resume reply) w ordered fits = resume-Tame o reply Send.play w
  follows (reap last now) w ordered fits = reap-Tame o last now w
  follows session_dead w ordered fits = dead-Tame o w
  follows session_established w ordered fits = established-Tame o w
  follows session_destroyed w ordered fits = destroyed-Tame o w
  follows (binary_data session channel bytes) w ordered fits =
      binary_data-Tame o session channel bytes w
  follows (keep_alive session) w ordered fits = keep_alive-Tame o session w
  follows teardown_timed_out w ordered fits = timed_out-Tame o w
  follows finish_stop_later w ordered fits = finished-Follows o w fits
  follows (hdcp_notify notice) w ordered fits = hdcp-Tame o notice w

  -- Whenever `onMessageReceived` returns, the state has stayed, has moved to the next one of the
  -- way from start to play, pause and resume, or has gone to one of the three states of the end;
  -- and the source is consistent: a client whose playback session has no number is waited on for
  -- SETUP, a playback session has a number, and there is none before a client is connected. This
  -- holds from every consistent source, where the message fits (kWhatStart comes in the first
  -- state, sessions have numbers above 0, kWhatFinishStop2 comes in STOPPING) and
  -- AWAITING_CLIENT_SETUP stands before AWAITING_CLIENT_PLAY in the enumeration.
  pub on_message-Follows :
      (event : Event o P) (w : World)
      → o.rank awaiting_client_setup < o.rank awaiting_client_play
      → Consistent w.source
      → Fitting event w.source
      → Ensures
          (λ (r : Unit {0} × World).
            Consistent r.1.source × (allowed w.source.state r.1.source.state ≡ true))
          (on_message o P event w)
  on_message-Follows event w ordered ok fits =
      weaken (λ (r : Unit {0} × World). Follows w r.1) _ _ (λ r k. k ok)
        (follows event w ordered fits)
