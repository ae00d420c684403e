-- ===== src/Source/Send.antt =====
-- source/WifiDisplaySource.cpp: `AppendCommonResponse`, `registerResponseHandler`, the requests
-- that the source sends and `sendErrorResponse`.
use how_to_miracast_on_aosp.Prelude.{
  ℕ, ◌+◌, ◌%◌, ◌^◌, Bool, false, ◌||◌, ◌++◌, Option, none, some, ◌==◌, if◌then◌else◌, Bytes, length,
  [],
}
use how_to_miracast_on_aosp.Prelude.Int.{ℤ, zero_ℤ, ltb_ℤ}
use how_to_miracast_on_aosp.Rtsp.Text.{
  text, decimal, decimal_ℤ, same_text, same_ignoring_case, signed,
}
use how_to_miracast_on_aosp.Rtsp.Machine.{◌>>=◌, ◌>>◌, return, check}
use how_to_miracast_on_aosp.Rtsp.Pending.{register}
use how_to_miracast_on_aosp.Source.{
  Handler, m1, m3, m4, m5, m16, Source, Outside, M, get, modify, send_request,
}

-- `TriggerType`.
pub data Trigger : Type 0 where
  setup teardown pause play : Trigger

abbrev method_of : Trigger → Bytes
method_of setup = text "SETUP"
method_of teardown = text "TEARDOWN"
method_of pause = text "PAUSE"
method_of play = text "PLAY"

-- "true", in any case, or "1".
abbrev pub is_on : Option Bytes → Bool
is_on none = false
is_on (some val) = same_ignoring_case (text "true") val || same_text (text "1") val

-- The end of each `send…`: the request goes out under `mNextCSeq`; if that works its handler is
-- registered and the number is used up (`++mNextCSeq` of an `int32_t`, as a bit pattern).
unfoldable pub send_expecting : ℕ → Bytes → Handler → M ℕ
unfolding send_request register
send_expecting session request h = do
  status ← send_request session request
  s ← get
  if status == 0
      then modify (λ s. record s {
        response_handlers = register session s.next_cseq h s.response_handlers;
        next_cseq = (s.next_cseq + 1) % 2 ^ 32;
      })
        >> return 0
      else return status

module _ (o : Outside) where
  -- `AppendCommonResponse` with its three arguments.
  unfoldable pub common_response : ℤ → ℤ → Bytes
  unfolding text decimal
  common_response cseq playback =
      text "Date: "
      ++ o.date
      ++ text "\r\n"
      ++ text "Server: Mine/1.0\r\n"
      ++ (if ltb_ℤ cseq zero_ℤ then [] else text "CSeq: " ++ decimal_ℤ cseq ++ text "\r\n")
      ++ (if ltb_ℤ playback zero_ℤ
          then []
          else text "Session: "
            ++ decimal_ℤ playback
            ++ text ";timeout="
            ++ decimal o.playback_session_timeout_secs
            ++ text "\r\n")

  -- With the third argument left out.
  abbrev pub common_lines : ℕ → Bytes
  common_lines cseq = common_response (signed cseq) o.default_playback_session_id

  -- A request with parameters.
  abbrev with_body : Bytes → ℕ → Bytes → Bytes
  with_body method cseq body =
      method
      ++ text " rtsp://localhost/wfd1.0 RTSP/1.0\r\n"
      ++ common_lines cseq
      ++ text "Content-Type: text/parameters\r\n"
      ++ text "Content-Length: "
      ++ decimal (length body)
      ++ text "\r\n"
      ++ text "\r\n"
      ++ body

  unfoldable pub send_m1 : ℕ → M ℕ
  unfolding send_expecting common_response
  send_m1 session = do
    s ← get
    let request =
        text "OPTIONS * RTSP/1.0\r\n"
        ++ common_lines s.next_cseq
        ++ text "Require: org.wfa.wfd1.0\r\n\r\n"
    send_expecting session request m1

  abbrev skip_hdcp : Bool
  skip_hdcp = elim (o.property (text "persist.sys.wfd.nohdcp")) [
    | none ↦ false
    | some val ↦ same_text (text "1") val
  ]

  unfoldable pub send_m3 : ℕ → M ℕ
  unfolding send_expecting common_response
  send_m3 session = do
    s ← get
    let body =
        (if skip_hdcp then [] else text "wfd_content_protection\r\n")
        ++ text "wfd_video_formats\r\nwfd_audio_codecs\r\nwfd_client_rtp_ports\r\n"
    send_expecting session (with_body (text "GET_PARAMETER") s.next_cseq body) m3

  abbrev video_formats : Bytes
  video_formats =
      if o.use_1080p
      then text "38 00 02 02 00000080 00000000 00000000 00 0000 0000 00 none none\r\n"
      else text "28 00 02 02 00000020 00000000 00000000 00 0000 0000 00 none none\r\n"

  unfoldable pub m4_body : Source → Bytes
  m4_body s =
      text "wfd_video_formats: "
      ++ video_formats
      ++ text "wfd_audio_codecs: "
      ++ (if s.using_pcm_audio then text "LPCM 00000002 00" else text "AAC 00000001 00")
      ++ text "\r\n"
      ++ text "wfd_presentation_URL: rtsp://"
      ++ s.local_ip
      ++ text "/wfd1.0/streamid=0 none\r\n"
      ++ text "wfd_client_rtp_ports: RTP/AVP/"
      ++ (if is_on (o.property (text "media.wfd.enable-tcp")) then text "TCP" else text "UDP")
      ++ text ";unicast "
      ++ decimal_ℤ s.chosen_rtp_port
      ++ text " 0 mode=play\r\n"

  unfoldable pub send_m4 : ℕ → M ℕ
  unfolding send_expecting m4_body common_response
  send_m4 session = do
    s ← get
    check (session == s.client_session_id)
    send_expecting session (with_body (text "SET_PARAMETER") s.next_cseq (m4_body s)) m4

  unfoldable pub send_trigger : ℕ → Trigger → M ℕ
  unfolding send_expecting common_response
  send_trigger session trigger = do
    s ← get
    let body = text "wfd_trigger_method: " ++ method_of trigger ++ text "\r\n"
    send_expecting session (with_body (text "SET_PARAMETER") s.next_cseq body) m5

  unfoldable pub send_m16 : ℕ → M ℕ
  unfolding send_expecting common_response
  send_m16 session = do
    s ← get
    check (session == s.client_session_id)
    let request =
        text "GET_PARAMETER rtsp://localhost/wfd1.0 RTSP/1.0\r\n"
        ++ common_lines s.next_cseq
        ++ text "Session: "
        ++ decimal_ℤ s.playback_session_id
        ++ text "\r\n"
        ++ text "\r\n"
    send_expecting session request m16

  -- The status of `sendRequest` is not looked at.
  unfoldable pub send_error_response : ℕ → Bytes → ℤ → M (Unit {0})
  unfolding send_request common_response
  send_error_response session detail cseq =
      send_request session (
        text "RTSP/1.0 "
        ++ detail
        ++ text "\r\n"
        ++ common_response cseq o.default_playback_session_id
        ++ text "\r\n")
      >> return tt
