-- ===== src/Source/Transport.antt =====
-- source/WifiDisplaySource.cpp: how `onSetupRequest` reads the header Transport.
use how_to_miracast_on_aosp.Prelude.{◌||◌, Option, none, some, if◌then◌else◌, Bytes, ◌++◌, ℕ, ◌+◌}
use how_to_miracast_on_aosp.Prelude.Int.{ℤ, pos, minus_one, ltb_ℤ, zero_ℤ}
use how_to_miracast_on_aosp.Net.Session.Interleaved.{is_prefix}
use how_to_miracast_on_aosp.Rtsp.Text.{text, same_text, decimal, decimal_ℤ}
use how_to_miracast_on_aosp.Rtsp.Message.{ParsedMessage}

-- `Sender::TransportMode`.
pub data Mode : Type 0 where
  udp tcp tcp_interleaved : Mode

-- The mode with `clientRtp` and `clientRtcp`, or the error that is answered.
pub data Transport : Type 0 where
  bad_request unsupported : Transport
  chosen : Mode → ℤ → ℤ → Transport

module _ (P : ParsedMessage) where
  open P use {attribute, two_ports, one_port}

  -- "client_port", with one port or two.
  unfoldable pub client_port : Mode → Bytes → Transport
  client_port mode transport = elim (attribute transport (text "client_port")) [
    | none ↦ bad_request
    | some ports ↦ elim (two_ports ports) [
      | some (rtp, rtcp) ↦ chosen mode rtp rtcp
      | none ↦ elim (one_port ports) [ some rtp ↦ chosen mode rtp minus_one | none ↦ bad_request ]
    ]
  ]

  abbrev interleaved_ports : Bytes → Option (ℤ × ℤ)
  interleaved_ports transport = elim (attribute transport (text "interleaved")) [
    | none ↦ none
    | some ports ↦ two_ports ports
  ]

  unfoldable pub read_transport : Bytes → Transport
  unfolding client_port
  read_transport transport =
      if is_prefix (text "RTP/AVP/TCP;") transport
      then elim (interleaved_ports transport) [
        | some (rtp, rtcp) ↦ chosen tcp_interleaved rtp rtcp
        | none ↦ client_port tcp transport
      ]
      else if is_prefix (text "RTP/AVP;unicast;") transport
          || is_prefix (text "RTP/AVP/UDP;unicast;") transport
      then client_port udp transport
      else if same_text (text "RTP/AVP/UDP;unicast") transport
      then chosen udp (pos 19000) minus_one
      else unsupported

abbrev name_of : Mode → Bytes
name_of udp = text "UDP"
name_of tcp = text "TCP"
name_of tcp_interleaved = text "UDP"

-- The header Transport of the response.
unfoldable pub transport_line : Mode → ℤ → ℤ → ℕ → Bytes
transport_line tcp_interleaved rtp rtcp server =
    text "Transport: RTP/AVP/TCP;interleaved="
    ++ decimal_ℤ rtp
    ++ text "-"
    ++ decimal_ℤ rtcp
    ++ text ";"
transport_line mode rtp rtcp server =
    text "Transport: RTP/AVP/"
    ++ name_of mode
    ++ text ";unicast;client_port="
    ++ decimal_ℤ rtp
    ++ (if ltb_ℤ rtcp zero_ℤ then text "" else text "-" ++ decimal_ℤ rtcp)
    ++ text ";server_port="
    ++ decimal server
    ++ (if ltb_ℤ rtcp zero_ℤ then text "" else text "-" ++ decimal (server + 1))
    ++ text "\r\n"
