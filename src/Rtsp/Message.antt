-- ===== src/Rtsp/Message.antt =====
-- ParsedMessage and Parameters, which stand outside the repository, as an interface; and sscanf at
-- the formats that the code reads.
use how_to_miracast_on_aosp.Prelude.{ℕ, Option, Bytes}
use how_to_miracast_on_aosp.Prelude.Int.{ℤ}

-- What the code asks of a parsed message, and of the texts in it.
pub record ParsedMessage : Type 1 where
  pub Message : Type 0
  pub request_field : Message → ℕ → Bytes
  pub find_int32 : Message → Bytes → Option ℕ
  pub find_string : Message → Bytes → Option Bytes
  pub status_code : Message → Option ℕ
  pub content : Message → Bytes
  pub attribute : Bytes → Bytes → Option Bytes
  pub int32_attribute : Bytes → Bytes → Option ℤ
  pub two_ports : Bytes → Option (ℤ × ℤ)
  pub one_port : Bytes → Option ℤ
  pub rtp_ports : Bytes → Option (ℕ × ℕ)
  pub Parameters : Type 0
  pub parse_parameters : Bytes → Option Parameters
  pub find_parameter : Parameters → Bytes → Option Bytes
  pub audio_mode : Bytes → Option ℕ

-- The status codes of the media framework, without their signs.
abbrev pub error_malformed : ℕ
error_malformed = 1007

abbrev pub error_unsupported : ℕ
error_unsupported = 1010
