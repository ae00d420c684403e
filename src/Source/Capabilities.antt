-- ===== src/Source/Capabilities.antt =====
-- source/WifiDisplaySource.cpp: `onReceiveM3Response` and `makeHDCP`.
use how_to_miracast_on_aosp.Prelude.{
  ℕ, Bool, true, false, not, ◌||◌, Option, none, some, ◌==◌, ltb, if◌then◌else◌, Bytes, drop,
}
use how_to_miracast_on_aosp.Prelude.Int.{pos, ltb_ℤ}
use how_to_miracast_on_aosp.Net.Session.Interleaved.{is_prefix}
use how_to_miracast_on_aosp.Rtsp.Text.{text, same_text}
use how_to_miracast_on_aosp.Rtsp.Machine.{◌>>=◌, ◌>>◌, return, check}
use how_to_miracast_on_aosp.Rtsp.Message.{ParsedMessage, error_malformed, error_unsupported}
use how_to_miracast_on_aosp.Source.{Outside, M, get, modify, emit, hdcp_negotiation}
use how_to_miracast_on_aosp.Source.Send.{is_on, send_m4}
use how_to_miracast_on_aosp.Source.Audio.{choose_audio}

abbrev pub set_using_hdcp : Bool → M (Unit {0})
set_using_hdcp b = modify λ s. record s { using_hdcp = b }

abbrev pub set_chosen_port : ℕ → M (Unit {0})
set_chosen_port port = modify λ s. record s { chosen_rtp_port = pos port }

-- The next step where the one before returned OK.
abbrev pub on_ok : M ℕ → M ℕ → M ℕ
on_ok m next = m >>= λ status. if status == 0 then next else return status

module _ (o : Outside) where
  -- `makeHDCP`, behind `mHDCP = service->makeHDCP()`.
  unfoldable pub negotiate_hdcp : M ℕ
  negotiate_hdcp = do
    modify λ s. record s { hdcp_observer = true }
    if o.observer_status == 0
        then (do
          s ← get
          emit (hdcp_negotiation s.remote_ip s.hdcp_port)
          return o.init_async_status)
        else (do
          modify λ s. record s { hdcp_observer = false; hdcp = false }
          return o.observer_status)

  unfoldable pub make_hdcp : M ℕ
  unfolding negotiate_hdcp
  make_hdcp = do
    check o.media_player_service
    modify λ s. record s { hdcp = o.makes_hdcp }
    if o.makes_hdcp then negotiate_hdcp else return error_unsupported

  module _ (P : ParsedMessage) where
    open P use {
      Message, content, int32_attribute, rtp_ports, Parameters, parse_parameters, find_parameter,
      audio_mode,
    }

    -- The port of `wfd_client_rtp_ports`, or 19000 where the sink chose poorly.
    unfoldable pub chosen_port : Bytes → ℕ
    chosen_port value = elim (rtp_ports value) [
      | none ↦ 19000
      | some (port0, port1) ↦
          if port0 == 0 || ltb 65535 port0 || not (port1 == 0) then 19000 else port0
    ]

    -- "Force Apply wfd_audio_codecs".
    abbrev codecs_of : Bytes → Bytes
    codecs_of value =
        if same_text (text "xxx") value then text "LPCM 00000003 00, AAC 0000000F 00" else value

    -- `wfd_audio_codecs`, with `mUsingPCMAudio` set.
    unfoldable pub receive_audio : Bytes → M ℕ
    unfolding choose_audio
    receive_audio value =
        if same_text (text "none") value
        then return error_unsupported
        else elim (choose_audio audio_mode (is_on (o.property (text "media.wfd.use-pcm-audio")))
            (codecs_of value)) [
              | none ↦ return error_unsupported
              | some pcm ↦ modify (λ s. record s { using_pcm_audio = pcm }) >> return 0
            ]

    -- The rest of `wfd_content_protection`, behind the version.
    unfoldable pub receive_hdcp_port : Bool → Bytes → M ℕ
    unfolding make_hdcp
    receive_hdcp_port is_2_0 value = elim (int32_attribute (drop 8 value) (text "port")) [
      | none ↦ return error_malformed
      | some port ↦
          if ltb_ℤ port (pos 1) || ltb_ℤ (pos 65535) port then return error_malformed else (do
            modify λ s. record s { is_hdcp2_0 = is_2_0; hdcp_port = port }
            status ← make_hdcp
            modify λ s. if status == 0 then s else record s { using_hdcp = false }
            return 0)
    ]

    unfoldable pub receive_protection : Option Bytes → M ℕ
    unfolding receive_hdcp_port
    receive_protection none = set_using_hdcp false >> return 0
    receive_protection (some value) =
        if same_text (text "none") value then set_using_hdcp false >> return 0 else (do
          set_using_hdcp true
          if is_prefix (text "HDCP2.0 ") value
              then receive_hdcp_port true value
              else if is_prefix (text "HDCP2.1 ") value
              then receive_hdcp_port false value
              else return error_malformed)

    unfoldable pub receive_parameters : ℕ → Parameters → M ℕ
    unfolding receive_audio receive_protection send_m4 chosen_port
    receive_parameters session params = elim (find_parameter params (text "wfd_client_rtp_ports")) [
      | none ↦ return error_malformed
      | some ports ↦ do
        set_chosen_port (chosen_port ports)
        elim (find_parameter params (text "wfd_audio_codecs")) [
          | none ↦ return error_malformed
          | some value ↦ on_ok (receive_audio value) (
              on_ok (receive_protection (find_parameter params (text "wfd_content_protection")))
                (send_m4 o session))
        ]
    ]

    -- `onReceiveM3Response`, behind the status code.
    unfoldable pub receive_m3 : ℕ → Message → M ℕ
    unfolding receive_parameters
    receive_m3 session msg = elim (parse_parameters (content msg)) [
      | none ↦ return error_malformed
      | some params ↦ receive_parameters session params
    ]
