-- ===== src/Tests/Source.antt =====
-- A source of source/WifiDisplaySource.cpp with client 3, at concrete messages. A parsed message is
-- here its status code, or 0 for a request.
use how_to_miracast_on_aosp.Prelude.{
  List, ℕ, ◌≡◌, ◌≢◌, Option, refl, true, false, [], ◌∷◌, none, some, arith, ◌==◌, if◌then◌else◌,
  Bytes,
}
use how_to_miracast_on_aosp.Prelude.Int.{pos, minus_one}
use how_to_miracast_on_aosp.Prelude.Outcome.{Ensures, fault}
use how_to_miracast_on_aosp.Rtsp.Text.{text}
use how_to_miracast_on_aosp.Rtsp.Message.{ParsedMessage}
use how_to_miracast_on_aosp.Rtsp.Pending.{expected}
use how_to_miracast_on_aosp.Source.{
  State, initialized, awaiting_client_connection, awaiting_client_setup, awaiting_client_play,
  about_to_play, playing, playing_to_paused, paused, paused_to_playing, awaiting_client_teardown,
  stopping, stopped, m1, new_source, World, Outside,
}
use how_to_miracast_on_aosp.Source.Dispatch.{on_response}
use how_to_miracast_on_aosp.Source.Receive.{on_message, stop, client_data}
use how_to_miracast_on_aosp.Source.Receive.{client_connected, pause, rtsp_error}
use how_to_miracast_on_aosp.Source.States.{Consistent, allowed, consistent}
use how_to_miracast_on_aosp.Source.States.Machine.{on_message-Follows}
use how_to_miracast_on_aosp.Source.Stop.Ends.{Returns, Stopped, settle, stop-Stopped}
use how_to_miracast_on_aosp.Source.Faults.{reconnect-fault}
use how_to_miracast_on_aosp.Source.Audio.{get_audio_modes}
use how_to_miracast_on_aosp.Source.Audio.Entries.{
  Without, Entry, print, AllPlain, wanted, get_audio_modes-print,
}
use how_to_miracast_on_aosp.Rtsp.Machine.{◌>>◌}
use how_to_miracast_on_aosp.Source.Registry.{InOrder}
use how_to_miracast_on_aosp.Source.Registry.Responses.{source_response-once, on_message-InOrder}

abbrev codes : ParsedMessage
codes = record {
  Message = ℕ;
  request_field = λ m i. if m == 0 then text "OPTIONS" else text "RTSP/1.0";
  find_int32 = λ m name. some 1;
  find_string = λ m name. none;
  status_code = λ m. some m;
  content = λ m. [];
  attribute = λ line name. none;
  int32_attribute = λ line name. none;
  two_ports = λ ports. none;
  one_port = λ ports. none;
  rtp_ports = λ line. none;
  Parameters = Unit {0};
  parse_parameters = λ content. none;
  find_parameter = λ m name. none;
  audio_mode = λ modes. none;
}

abbrev rank : State → ℕ
rank initialized = 0
rank awaiting_client_connection = 1
rank awaiting_client_setup = 2
rank awaiting_client_play = 3
rank about_to_play = 4
rank playing = 5
rank playing_to_paused = 6
rank paused = 7
rank paused_to_playing = 8
rank awaiting_client_teardown = 9
rank stopping = 10
rank stopped = 11

abbrev outside : Outside
outside = record {
  rank = rank;
  default_port = 7236;
  default_playback_session_id = minus_one;
  reaper_interval_us = 1000000;
  playback_session_timeout_secs = 30;
  playback_session_timeout_us = 30000000;
  teardown_trigger_timeout_secs = 2;
  use_1080p = false;
  date = [];
  property = λ key. none;
  strtoul = λ digits. (0, 0);
  inet_aton = λ name. none;
  create_rtsp_server = λ addr port. (0, 1);
  rand = 77;
  init_status = 0;
  rtp_port = 19002;
  play_status = 0;
  pause_status = 0;
  media_player_service = true;
  makes_hdcp = false;
  observer_status = 0;
  init_async_status = 0;
}

-- Playing to client 3, and waiting for the response to its request number 1.
abbrev at_play : World
at_play = record {
  source = record (new_source true 0 minus_one) {
    state = playing;
    session_id = 1;
    client_session_id = 3;
    playback_session_id = pos 77;
    playback_session = true;
    next_cseq = 2;
    response_handlers = record { session = 3; cseq = 1; handler = m1 } ∷ [];
  };
  effects = [];
  statuses = [];
}

at_play-InOrder : InOrder (at_play.source)
unfolding new_source
at_play-InOrder = (omega arith, omega arith, tt)

source_response-once_example :
    Ensures
      (λ (r : ℕ × World). InOrder r.1.source × (expected 3 1 r.1.source.response_handlers ≡ none))
      (on_response outside codes 3 1 200 at_play)
source_response-once_example =
    source_response-once outside codes 3 1 200 at_play at_play-InOrder (omega arith)

on_message-InOrder_example :
    Ensures
      (λ (r : Unit {0} × World). InOrder r.1.source)
      (on_message outside codes (client_data 3 200) at_play)
on_message-InOrder_example =
    on_message-InOrder outside codes (client_data 3 200) at_play at_play-InOrder (omega arith)

at_play-Consistent : Consistent (at_play.source)
unfolding consistent
at_play-Consistent = refl

on_message-Follows_example :
    Ensures
      (λ (r : Unit {0} × World). Consistent r.1.source × (allowed playing r.1.source.state ≡ true))
      (on_message outside codes (pause 9) at_play)
on_message-Follows_example =
    on_message-Follows outside codes (pause 9) at_play (omega arith) at_play-Consistent tt

stop-Stopped_example :
    Returns outside codes (Stopped outside codes 9) (settle outside codes 5 (stop 9 ∷ []) at_play)
unfolding new_source
stop-Stopped_example = stop-Stopped outside codes 9 at_play refl (omega arith) (omega arith)

playing_not_first : playing ≢ awaiting_client_connection
playing_not_first e = cc

playing_not_asked : playing ≢ awaiting_client_play
playing_not_asked e = cc

playing_not_resumed : playing ≢ paused_to_playing
playing_not_resumed e = cc

reconnect-fault_example :
    (on_message outside codes (rtsp_error 3)
        >> on_message outside codes (client_connected 4 (text "a") (text "b") 7236))
      at_play
    ≡ fault
unfolding new_source
reconnect-fault_example =
    reconnect-fault outside codes 4 7236 (text "a") (text "b") at_play refl playing_not_first

-- It reads 3 wherever it reads.
abbrev reads_3 : Bytes → Option ℕ
reads_3 modes = some 3

abbrev formats : List Entry
formats =
    record { name = text "LPCM"; arguments = text "3 0" }
    ∷ record { name = text "AAC"; arguments = text "F 0" }
    ∷ []

formats-AllPlain : AllPlain formats
unfolding text
formats-AllPlain = (
  record {
    starts = (refl, refl);
    no_space = (refl, (refl, (refl, (refl, tt))));
    no_comma = (refl, (refl, (refl, (refl, tt))));
    no_comma_later = (refl, (refl, (refl, tt)));
  },
  (
    record {
      starts = (refl, refl);
      no_space = (refl, (refl, (refl, tt)));
      no_comma = (refl, (refl, (refl, tt)));
      no_comma_later = (refl, (refl, (refl, tt)));
    },
    tt,
  ),
)

aac-Without : Without 32 (text "AAC")
unfolding text
aac-Without = (refl, (refl, (refl, tt)))

get_audio_modes-print_example :
    get_audio_modes reads_3 (print formats) (text "AAC") ≡ wanted reads_3 (text "AAC") formats
get_audio_modes-print_example =
    get_audio_modes-print reads_3 (text "AAC") formats aac-Without formats-AllPlain
