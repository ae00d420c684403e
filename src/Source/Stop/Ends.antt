-- ===== src/Source/Stop/Ends.antt =====
-- source/WifiDisplaySource.cpp: from kWhatStop to "We're stopped.", with a client that does not
-- answer and parts outside that do what they are asked to.
use how_to_miracast_on_aosp.Prelude.{
  ℕ, zero, suc, ◌≡◌, ◌≢◌, ◌<◌, true, false, List, [], ◌∷◌, ◌++◌, arith,
}
use how_to_miracast_on_aosp.Prelude.Outcome.{Outcome, done, blocked, fault}
use how_to_miracast_on_aosp.Rtsp.Message.{ParsedMessage}
use how_to_miracast_on_aosp.Source.{
  stopped, awaiting_client_teardown, same_state, World, Outside, Effect, called, destroy_async,
  hdcp_shutdown, posted, teardown_trigger_timed_out, finish_stop_2, replied, tell_client,
  send_request,
}
use how_to_miracast_on_aosp.Source.Send.{send_trigger, send_expecting}
use how_to_miracast_on_aosp.Source.Stop.{
  finish_stop2, finish_stop_after_disconnecting_client, release_playback_session,
  release_client_session, disconnect_client2, disconnect_client_async, finish_stop,
}
use how_to_miracast_on_aosp.Source.Receive.{
  Event, stop, teardown_timed_out, session_destroyed, hdcp_notify, shutdown_complete,
  finish_stop_later, on_message, on_stop, on_teardown_timed_out, on_hdcp_notify,
}

module _ (o : Outside) (P : ParsedMessage) where
  -- The message that comes back for an effect: the playback session is destroyed, the HDCP module
  -- shuts down, and a timer that leads to the end runs out.
  abbrev pub owed_for : Effect → List (Event o P)
  owed_for (called destroy_async) = session_destroyed ∷ []
  owed_for hdcp_shutdown = hdcp_notify shutdown_complete ∷ []
  owed_for (posted finish_stop_2 _) = finish_stop_later ∷ []
  owed_for (posted teardown_trigger_timed_out _) = teardown_timed_out ∷ []
  owed_for _ = []

  abbrev pub owed : List Effect → List (Event o P)
  owed [] = []
  owed (e ∷ es) = owed_for e ++ owed es

  -- Each message is handled in turn, with the messages owed for it behind those that wait; the
  -- effects are those of the last message. Without fuel a message that waits is not handled.
  unfoldable pub settle : ℕ → List (Event o P) → World → Outcome World
  settle fuel [] w = done w
  settle zero (e ∷ es) w = blocked
  settle (suc fuel) (e ∷ es) w = elim (on_message o P e (record w { effects = [] })) [
    | done (_, w') ↦ settle fuel (es ++ owed w'.effects) w'
    | blocked ↦ blocked
    | fault ↦ fault
  ]

  -- It returns, and in a world with `Q`.
  abbrev pub Returns : (World → Type 0) → Outcome World → Type 0
  Returns Q (done w) = Q w
  Returns Q _ = ⊥

  abbrev pub Last : Effect → List Effect → Type 0
  Last e [] = ⊥
  Last e (x ∷ []) = x ≡ e
  Last e (x ∷ y ∷ ys) = Last e (y ∷ ys)

  abbrev pub Stopped : ℕ → World → Type 0
  Stopped reply w =
      (w.source.state ≡ stopped)
      × (w.source.session_id ≡ 0)
      × (w.source.client_session_id ≡ 0)
      × (w.source.playback_session ≡ false)
      × (w.source.hdcp ≡ false)
      × Last (replied reply 0) w.effects

  -- A stop ends. From any state that stands before the client's teardown in the enumeration, with
  -- the display client set, the message of `stop` and at most four messages that are owed for it
  -- are handled, none aborts and none is left; then the source is stopped, its own session, the
  -- client's and the playback session are gone and the HDCP module is let go, and the last thing
  -- done is the reply of OK to the caller, whose number is not 0.
  pub stop-Stopped :
      (reply : ℕ) (w : World)
      → w.source.client_set ≡ true
      → o.rank w.source.state < o.rank awaiting_client_teardown
      → reply ≢ 0
      → Returns (Stopped reply) (settle 5 (stop reply ∷ []) w)
  unfolding settle on_message on_stop send_trigger send_expecting send_request on_teardown_timed_out
      finish_stop disconnect_client_async disconnect_client2 release_playback_session
      release_client_session tell_client finish_stop_after_disconnecting_client finish_stop2
      on_hdcp_notify same_state
  stop-Stopped reply w set before given = ground arith
