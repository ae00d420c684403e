-- ===== src/Source/Receive.antt =====
-- source/WifiDisplaySource.cpp: `onMessageReceived`.
use how_to_miracast_on_aosp.Prelude.{
  ℕ, ◌+◌, ◌*◌, ◌/◌, ◌%◌, true, false, not, ◌||◌, [], ◌∷◌, Option, none, some, ltb, leb, ◌==◌,
  if◌then◌else◌, Bytes, length, drop,
}
use how_to_miracast_on_aosp.Rtsp.Text.{same_text, split_at}
use how_to_miracast_on_aosp.Rtsp.Machine.{◌>>=◌, ◌>>◌, return, check}
use how_to_miracast_on_aosp.Rtsp.Message.{ParsedMessage}
use how_to_miracast_on_aosp.Prelude.Int.{minus_one}
use how_to_miracast_on_aosp.Source.{
  State, awaiting_client_connection, awaiting_client_setup, awaiting_client_play, about_to_play,
  playing, playing_to_paused, paused, paused_to_playing, awaiting_client_teardown, same_state,
  Source, Outside, M, get, modify, set_state, emit, tell_client, send_request, destroyed,
  display_error, display_connected, posted, replied, teardown_trigger_timed_out, finish_stop_2,
  einval, invalid_operation,
}
use how_to_miracast_on_aosp.Source.Send.{send_m1, send_m16, send_trigger, setup, teardown, Trigger}
use how_to_miracast_on_aosp.Source.Send
use how_to_miracast_on_aosp.Source.Stop.{
  finish_stop, finish_stop2, disconnect_client2, schedule_reaper,
}
use how_to_miracast_on_aosp.Source.Dispatch.{on_receive_client_data}

-- The codes of kWhatHDCPNotify.
pub data Notice : Type 0 where
  initialization_complete shutdown_complete shutdown_failed other : Notice

-- `mClientInfo` and the state with a client.
abbrev pub with_client : ℕ → ℕ → Source → Source
with_client session port s = record s {
  local_port = port;
  playback_session_id = minus_one;
  client_session_id = session;
  state = awaiting_client_setup;
}

abbrev pub with_addresses : Bytes → Bytes → Source → Source
with_addresses remote here s = record s { remote_ip = remote; local_ip = here }

abbrev pub with_stop_reply : ℕ → Source → Source
with_stop_reply reply s = record s { stop_reply_id = reply }

abbrev pub hdcp_initialized : Source → Source
hdcp_initialized s = record s { hdcp_initialization_complete = true }

abbrev pub trigger_sent : Source → Source
trigger_sent s = record s { setup_trigger_deferred = false }

module _ (o : Outside) where
  -- kWhatStart: the interface's address and the port.
  unfoldable pub read_interface : Bytes → Option (Bytes × ℕ)
  read_interface iface = elim (split_at b':' iface) [
    | none ↦ some (iface, o.default_port)
    | some (name, colon) ↦
        let digits = drop 1 colon in
        let (port, used) = o.strtoul digits in
        if used == 0 || ltb used (length digits) || ltb 65535 port then none else some (name, port)
  ]

  unfoldable pub start_server : Bytes → M ℕ
  unfolding read_interface
  start_server iface = elim (read_interface iface) [
    | none ↦ return einval
    | some (name, port) ↦ elim (o.inet_aton name) [
      | none ↦ return einval
      | some addr ↦ do
        let (status, session) = o.create_rtsp_server addr port
        modify λ s. record s { interface_addr = addr; session_id = session }
        return status
    ]
  ]

  unfoldable pub on_start : ℕ → Bytes → M (Unit {0})
  unfolding start_server
  on_start reply iface = do
    status ← start_server iface
    (if status == 0 then set_state awaiting_client_connection else return tt)
    emit (replied reply status)

  unfoldable pub on_error : ℕ → M (Unit {0})
  unfolding tell_client
  on_error session = do
    emit (destroyed session)
    s ← get
    if session == s.client_session_id
        then modify (λ s. record s { client_session_id = 0 }) >> tell_client display_error
        else return tt

  -- The client's address is not the source's.
  unfoldable pub accept_client : ℕ → ℕ → M (Unit {0})
  unfolding send_m1
  accept_client session port = do
    modify (with_client session port)
    status ← send_m1 o session
    check (status == 0)

  unfoldable pub on_client_connected : ℕ → Bytes → Bytes → ℕ → M (Unit {0})
  unfolding accept_client same_text same_state
  on_client_connected session remote here port = do
    s ← get
    if ltb 0 s.client_session_id then emit (destroyed session) else (do
      check (same_state s.state awaiting_client_connection)
      modify (with_addresses remote here)
      if same_text remote here then emit (destroyed session) else accept_client session port)

  unfoldable pub on_stop : ℕ → M (Unit {0})
  unfolding send_trigger finish_stop
  on_stop reply = do
    modify (with_stop_reply reply)
    s ← get
    check (ltb (o.rank s.state) (o.rank awaiting_client_teardown))
    if ltb (o.rank s.state) (o.rank awaiting_client_play) then finish_stop else (do
      status ← send_trigger o s.client_session_id teardown
      if status == 0
          then set_state awaiting_client_teardown
            >> emit (posted teardown_trigger_timed_out (o.teardown_trigger_timeout_secs * 1000000))
          else finish_stop)

  -- kWhatPause and kWhatResume: a trigger from one state, on the way to another.
  unfoldable pub change_playing : State → State → Trigger → ℕ → M (Unit {0})
  unfolding send_trigger same_state
  change_playing from to trigger reply = do
    s ← get
    if same_state s.state from
        then (do set_state to; send_trigger o s.client_session_id trigger; emit (replied reply 0))
        else emit (replied reply invalid_operation)

  unfoldable pub on_reap : ℕ → ℕ → M (Unit {0})
  unfolding schedule_reaper tell_client
  on_reap last_lifesign now = do
    modify λ s. record s { reaper_pending = false }
    s ← get
    if s.client_session_id == 0 || not s.playback_session
        then return tt
        else if ltb (last_lifesign + o.playback_session_timeout_us) now
        then emit (destroyed s.client_session_id)
          >> modify (λ s. record s { client_session_id = 0 })
          >> tell_client display_error
        else schedule_reaper o

  -- Where there is a client, it asks the playback session for its surface.
  unfoldable pub on_established : M (Unit {0})
  unfolding same_state
  on_established = do
    s ← get
    (if s.client_set
        then check s.playback_session >> emit (display_connected s.using_hdcp)
        else return tt)
    if same_state s.state about_to_play then set_state playing else return tt

  -- kWhatBinaryData; the statuses of `sendRequest` are not looked at.
  unfoldable pub on_binary_data : ℕ → ℕ → Bytes → M (Unit {0})
  unfolding send_request
  on_binary_data session channel bytes = do
    check (leb channel 255)
    check (leb (length bytes) 65535)
    send_request session (b'$' ∷ channel ∷ length bytes / 256 ∷ length bytes % 256 ∷ [])
    send_request session bytes
    return tt

  unfoldable pub on_keep_alive : ℕ → M (Unit {0})
  unfolding send_m16
  on_keep_alive session = do
    s ← get
    if s.client_session_id == session then send_m16 o session >> return tt else return tt

  unfoldable pub on_teardown_timed_out : M (Unit {0})
  unfolding finish_stop same_state
  on_teardown_timed_out = do
    s ← get
    if same_state s.state awaiting_client_teardown
        then check (not (s.stop_reply_id == 0)) >> finish_stop
        else return tt

  unfoldable pub on_hdcp_notify : Notice → M (Unit {0})
  unfolding send_trigger tell_client
  on_hdcp_notify initialization_complete = do
    modify hdcp_initialized
    s ← get
    if s.setup_trigger_deferred
        then modify trigger_sent >> send_trigger o s.client_session_id setup >> return tt
        else return tt
  on_hdcp_notify shutdown_complete = emit (posted finish_stop_2 300000)
  on_hdcp_notify shutdown_failed = emit (posted finish_stop_2 300000)
  on_hdcp_notify other = tell_client display_error

  module _ (P : ParsedMessage) where
    open P use {Message}

    -- What `onMessageReceived` is given, with what it looks up at once.
    pub data Event : Type 0 where
      start : ℕ → Bytes → Event
      rtsp_error : ℕ → Event
      client_connected : ℕ → Bytes → Bytes → ℕ → Event
      client_data : ℕ → Message → Event
      stop pause resume : ℕ → Event
      reap : ℕ → ℕ → Event
      session_dead session_established session_destroyed : Event
      binary_data : ℕ → ℕ → Bytes → Event
      keep_alive : ℕ → Event
      teardown_timed_out finish_stop_later : Event
      hdcp_notify : Notice → Event

    unfoldable pub on_client_data : ℕ → Message → M (Unit {0})
    unfolding on_receive_client_data tell_client
    on_client_data session msg = do
      status ← on_receive_client_data o P session msg
      if status == 0 then return tt else tell_client display_error

    unfoldable pub on_message : Event → M (Unit {0})
    unfolding on_start on_error on_client_connected on_client_data on_stop change_playing on_reap
        tell_client on_established disconnect_client2 on_binary_data on_keep_alive
        on_teardown_timed_out on_hdcp_notify finish_stop2
    on_message (start reply iface) = on_start reply iface
    on_message (rtsp_error session) = on_error session
    on_message (client_connected session remote here port) =
        on_client_connected session remote here port
    on_message (client_data session msg) = on_client_data session msg
    on_message (stop reply) = on_stop reply
    on_message (pause reply) = change_playing playing playing_to_paused Send.pause reply
    on_message (resume reply) = change_playing paused paused_to_playing Send.play reply
    on_message (reap last_lifesign now) = on_reap last_lifesign now
    on_message session_dead = tell_client display_error
    on_message session_established = on_established
    on_message session_destroyed = disconnect_client2
    on_message (binary_data session channel bytes) = on_binary_data session channel bytes
    on_message (keep_alive session) = on_keep_alive session
    on_message teardown_timed_out = on_teardown_timed_out
    on_message finish_stop_later = finish_stop2
    on_message (hdcp_notify notice) = on_hdcp_notify notice
