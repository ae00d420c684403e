-- ===== src/Source.antt =====
-- source/WifiDisplaySource.cpp, `struct WifiDisplaySource`: its state and the world that its
-- handlers work on. `PlaybackSession`, the HDCP module, the display client and the header of the
-- class stand outside the repository: their answers are arguments, and the calls of them are
-- recorded.
pub mod Send
pub mod Audio
pub mod Capabilities
pub mod Stop
pub mod Transport
pub mod Requests
pub mod Dispatch
pub mod Receive
pub mod Registry
pub mod States
pub mod Faults
use how_to_miracast_on_aosp.Prelude.{
  ℕ, Bool, true, false, List, [], ◌∷◌, ◌++◌, Option, none, some, ◌==◌, if◌then◌else◌, Bytes,
}
use how_to_miracast_on_aosp.Prelude.Int.{ℤ, minus_one, zero_ℤ}
use how_to_miracast_on_aosp.Prelude.Outcome.{done}
use how_to_miracast_on_aosp.Rtsp.Machine.{Run, ◌>>◌, check}
use how_to_miracast_on_aosp.Rtsp.Pending.{Expected}

-- `mState`.
pub data State : Type 0 where
  initialized awaiting_client_connection awaiting_client_setup awaiting_client_play about_to_play :
      State
  playing playing_to_paused paused paused_to_playing awaiting_client_teardown stopping stopped :
      State

-- `==` of two states.
unfoldable pub same_state : State → State → Bool
same_state initialized initialized = true
same_state awaiting_client_connection awaiting_client_connection = true
same_state awaiting_client_setup awaiting_client_setup = true
same_state awaiting_client_play awaiting_client_play = true
same_state about_to_play about_to_play = true
same_state playing playing = true
same_state playing_to_paused playing_to_paused = true
same_state paused paused = true
same_state paused_to_playing paused_to_playing = true
same_state awaiting_client_teardown awaiting_client_teardown = true
same_state stopping stopping = true
same_state stopped stopped = true
same_state _ _ = false

-- The member functions that `registerResponseHandler` is given.
pub data Handler : Type 0 where
  m1 m3 m4 m5 m16 : Handler

-- The messages that the source posts to itself with a delay.
pub data Timer : Type 0 where
  reap_dead_clients teardown_trigger_timed_out finish_stop_2 : Timer
  keep_alive : ℕ → Timer

-- The calls of `mClientInfo.mPlaybackSession`.
pub data PlaybackCall : Type 0 where
  update_liveness play finish_play pause request_idr_frame destroy_async : PlaybackCall

-- What the source does to the parts outside.
pub data Effect : Type 0 where
  sent : ℕ → Bytes → Effect
  destroyed : ℕ → Effect
  display_error display_disconnected : Effect
  display_connected : Bool → Effect
  posted : Timer → ℕ → Effect
  replied : ℕ → ℕ → Effect
  called : PlaybackCall → Effect
  handler_registered handler_unregistered : ℤ → Effect
  hdcp_negotiation : Bytes → ℤ → Effect
  hdcp_shutdown : Effect

-- `client_set`, `playback_session`, `hdcp` and `hdcp_observer` are whether mClient,
-- mClientInfo.mPlaybackSession, mHDCP and mHDCPObserver are set.
pub record Source : Type 0 where
  pub state : State
  pub client_set : Bool
  pub interface_addr : ℕ
  pub session_id : ℕ
  pub stop_reply_id : ℕ
  pub chosen_rtp_port : ℤ
  pub using_pcm_audio : Bool
  pub client_session_id : ℕ
  pub remote_ip : Bytes
  pub local_ip : Bytes
  pub local_port : ℕ
  pub playback_session_id : ℤ
  pub playback_session : Bool
  pub reaper_pending : Bool
  pub next_cseq : ℕ
  pub response_handlers : List (Expected Handler)
  pub using_hdcp : Bool
  pub is_hdcp2_0 : Bool
  pub hdcp_port : ℤ
  pub hdcp_initialization_complete : Bool
  pub setup_trigger_deferred : Bool
  pub hdcp : Bool
  pub hdcp_observer : Bool

-- The constructor; what it leaves to its members' constructors is empty, and the interface's
-- address and the playback session's number are what they were.
unfoldable pub new_source : Bool → ℕ → ℤ → Source
new_source client addr playback = record {
  state = initialized;
  client_set = client;
  interface_addr = addr;
  session_id = 0;
  stop_reply_id = 0;
  chosen_rtp_port = minus_one;
  using_pcm_audio = false;
  client_session_id = 0;
  remote_ip = [];
  local_ip = [];
  local_port = 0;
  playback_session_id = playback;
  playback_session = false;
  reaper_pending = false;
  next_cseq = 1;
  response_handlers = [];
  using_hdcp = false;
  is_hdcp2_0 = false;
  hdcp_port = zero_ℤ;
  hdcp_initialization_complete = false;
  setup_trigger_deferred = false;
  hdcp = false;
  hdcp_observer = false;
}

-- The source, what it has done, and the statuses that the next calls of `sendRequest` return.
pub record World : Type 0 where
  pub source : Source
  pub effects : List Effect
  pub statuses : List ℕ

abbrev pub M : Type 0 → Type 0
M A = Run World A

-- The constants of the header, by their names there, and what the parts outside answer to one
-- message. `rank` is the place of a state in `enum State`.
pub record Outside : Type 0 where
  pub rank : State → ℕ
  pub default_port : ℕ
  pub default_playback_session_id : ℤ
  pub reaper_interval_us : ℕ
  pub playback_session_timeout_secs : ℕ
  pub playback_session_timeout_us : ℕ
  pub teardown_trigger_timeout_secs : ℕ
  pub use_1080p : Bool
  pub date : Bytes
  pub property : Bytes → Option Bytes
  pub strtoul : Bytes → ℕ × ℕ
  pub inet_aton : Bytes → Option ℕ
  pub create_rtsp_server : ℕ → ℕ → ℕ × ℕ
  pub rand : ℕ
  pub init_status : ℕ
  pub rtp_port : ℕ
  pub play_status : ℕ
  pub pause_status : ℕ
  pub media_player_service : Bool
  pub makes_hdcp : Bool
  pub observer_status : ℕ
  pub init_async_status : ℕ

abbrev pub get : M Source
get w = done (w.source, w)

abbrev pub modify : (Source → Source) → M (Unit {0})
modify f w = done (tt, record w { source = f w.source })

-- `mState = …`.
abbrev pub set_state : State → M (Unit {0})
set_state state = modify λ s. record s { state = state }

abbrev pub emit : Effect → M (Unit {0})
emit e w = done (tt, record w { effects = w.effects ++ e ∷ [] })

-- A call of `mClient`, which aborts where it is not set.
unfoldable pub tell_client : Effect → M (Unit {0})
tell_client e w = (check w.source.client_set >> emit e) w

abbrev pub next_status : List ℕ → ℕ × List ℕ
next_status [] = (0, [])
next_status (e ∷ es) = (e, es)

-- `mNetSession->sendRequest`.
unfoldable pub send_request : ℕ → Bytes → M ℕ
send_request session message w =
    let (status, rest) = next_status w.statuses in
    done (status, record w { effects = w.effects ++ sent session message ∷ []; statuses = rest })

abbrev pub invalid_operation : ℕ
invalid_operation = 38

abbrev pub einval : ℕ
einval = 22

abbrev pub enoent : ℕ
enoent = 2
