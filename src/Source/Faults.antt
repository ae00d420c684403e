-- ===== src/Source/Faults.antt =====
-- source/WifiDisplaySource.cpp: messages of the client and of the network session that fail a
-- CHECK.
use how_to_miracast_on_aosp.Prelude.{ℕ, ◌≡◌, ◌≢◌, true, arith, Bytes}
use how_to_miracast_on_aosp.Prelude.Outcome.{fault}
use how_to_miracast_on_aosp.Rtsp.Machine.{◌>>◌}
use how_to_miracast_on_aosp.Rtsp.Message.{ParsedMessage}
use how_to_miracast_on_aosp.Source.{
  awaiting_client_connection, same_state, World, Outside, tell_client,
}
use how_to_miracast_on_aosp.Source.Receive.{
  on_message, on_error, on_client_connected, rtsp_error, client_connected,
}

module _ (o : Outside) (P : ParsedMessage) where
  open P use {Message}

  -- Once a client's session has failed, the next client that connects makes the source fail its
  -- CHECK of the state, whatever its addresses: the error leaves the state as it was, which is not
  -- AWAITING_CLIENT_CONNECTION.
  pub reconnect-fault :
      (other port : ℕ) (remote here : Bytes) (w : World)
      → w.source.client_set ≡ true
      → w.source.state ≢ awaiting_client_connection
      → (on_message o P (rtsp_error w.source.client_session_id)
            >> on_message o P (client_connected other remote here port))
          w
        ≡ fault
  unfolding on_message on_error on_client_connected tell_client same_state
  reconnect-fault other port remote here w set state = ground arith
