-- ===== src/Tests/Display.antt =====
-- A sink of sink/WifiDisplaySink.cpp that waits for the response to its request number 1. A parsed
-- message is here its status code, or 0 for a request.
use how_to_miracast_on_aosp.Prelude.{
  ℕ, ◌++◌, ◌≢◌, true, length, Bytes, ◌≡◌, refl, false, [], ◌∷◌, none, some, arith, ◌==◌,
  if◌then◌else◌,
}
use how_to_miracast_on_aosp.Prelude.Int.{minus_one}
use how_to_miracast_on_aosp.Prelude.Outcome.{fault, Ensures}
use how_to_miracast_on_aosp.Sink.Display.{connected, m2, World, Outside}
use how_to_miracast_on_aosp.Rtsp.Text.{text}
use how_to_miracast_on_aosp.Rtsp.Message.{ParsedMessage}
use how_to_miracast_on_aosp.Rtsp.Pending.{expected}
use how_to_miracast_on_aosp.Sink.Display.Handlers.{message, on_response, on_rtsp_notify}
use how_to_miracast_on_aosp.Sink.Display.Start.{is_free, authority, parse_url, parse_url-authority}
use how_to_miracast_on_aosp.Sink.Display.Registry.{InOrder}
use how_to_miracast_on_aosp.Sink.Display.Registry.Once.{on_response-once}
use how_to_miracast_on_aosp.Sink.Display.Registry.Notify.{on_response-fault, on_rtsp_notify-InOrder}

abbrev codes : ParsedMessage
codes = record {
  Message = ℕ;
  request_field = λ m i. if m == 0 then text "OPTIONS" else text "RTSP/1.0";
  find_int32 = λ m name. some 1;
  find_string = λ m name. none;
  status_code = λ m. some m;
  content = λ m. [];
  attribute = λ line name. none;
  int32_attribute = λ line name. none;
  two_ports = λ ports. none;
  one_port = λ ports. none;
  Parameters = Unit {0};
  parse_parameters = λ content. none;
  find_parameter = λ m name. none;
  rtp_ports = λ line. none;
  audio_mode = λ modes. none;
}

abbrev outside : Outside
outside = record {
  date = [];
  use_tcp_interleaving = false;
  init_status = 0;
  rtp_port = 19000;
  connect_status = 0;
}

abbrev waiting : World
waiting = record {
  sink = record {
    state = connected;
    session_id = 3;
    next_cseq = 2;
    setup_uri = [];
    rtsp_host = [];
    playback_session_id = [];
    playback_session_timeout_secs = minus_one;
    response_handlers = record { session = 3; cseq = 1; handler = m2 } ∷ [];
    rtp_sink = false;
    stopped = false;
  };
  outbox = [];
  statuses = [];
  destroyed = [];
}

waiting-InOrder : InOrder (waiting.sink)
waiting-InOrder = (omega arith, omega arith, tt)

waits : expected 3 1 (waiting.sink.response_handlers) ≡ some m2
unfolding expected
waits = refl

on_response-once_example :
    Ensures
      (λ (r : Unit {0} × World).
        InOrder r.1.sink × (expected 3 1 r.1.sink.response_handlers ≡ none))
      (on_response outside codes 3 1 200 waiting)
on_response-once_example =
    on_response-once outside codes 3 1 200 waiting waiting-InOrder (omega arith)

on_response-fault_example : on_response outside codes 3 1 404 waiting ≡ fault
on_response-fault_example =
    on_response-fault outside codes 3 1 404 m2 404 waiting waits refl (omega arith)

on_rtsp_notify-InOrder_example :
    Ensures
      (λ (r : Unit {0} × World). InOrder r.1.sink)
      (on_rtsp_notify outside codes (message 3 0) waiting)
on_rtsp_notify-InOrder_example =
    on_rtsp_notify-InOrder outside codes (message 3 0) waiting waiting-InOrder (omega arith)

-- Port 80, as strtoul reads it.
abbrev reads_80 : Bytes → ℕ × ℕ
reads_80 digits = (80, 2)

digits-NonEmpty : text "80" ≢ []
unfolding text
digits-NonEmpty e = cc

user_free : is_free b':' (text "me") ≡ true
unfolding text
user_free = refl

host_free : is_free b':' (text "tv") ≡ true
unfolding text
host_free = refl

at_free : is_free b'@' (text "me" ++ b':' ∷ text "x") ≡ true
unfolding text
at_free = refl

slash_free : is_free b'/' (authority (text "me") (text "x") (text "tv") (text "80")) ≡ true
unfolding text
slash_free = refl

reads_all : reads_80 (text "80") ≡ (80, length (text "80"))
unfolding text
reads_all = refl

parse_url-authority_example :
    parse_url reads_80 (
      text "rtsp://"
      ++ (authority (text "me") (text "x") (text "tv") (text "80") ++ b'/' ∷ text "a"))
    ≡ some (record {
      host = text "tv";
      port = 80;
      path = b'/' ∷ text "a";
      user = text "me";
      pass = text "x";
    })
parse_url-authority_example =
    parse_url-authority reads_80 (text "me") (text "x") (text "tv") (text "80") (text "a") 80
      user_free host_free at_free slash_free digits-NonEmpty reads_all (omega arith)
