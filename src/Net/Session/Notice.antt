-- ===== src/Net/Session/Notice.antt =====
-- ANetworkSession.h and .cpp: what a session tells its client, `enum NotificationReason`, with the
-- fields that each message carries. The system's error numbers are those of Linux.
use how_to_miracast_on_aosp.Prelude.{ℕ, ◌/◌, ◌%◌, ◌^◌, Bool, Bytes, String}

-- The four numbers of a dotted address.
pub record Quad : Type 0 where
  pub a : ℕ
  pub b : ℕ
  pub c : ℕ
  pub d : ℕ

pub record Address : Type 0 where
  pub host : Quad
  pub port : ℕ

-- `addr >> 24`, `(addr >> 16) & 0xff`, `(addr >> 8) & 0xff`, `addr & 0xff` of a 32-bit address.
unfoldable pub quad : ℕ → Quad
quad addr = record {
  a = addr / 2 ^ 24;
  b = addr / 2 ^ 16 % 256;
  c = addr / 2 ^ 8 % 256;
  d = addr % 256;
}

-- The session's number comes first. `M` is the type of a parsed RTSP message.
pub data Notice (M : Type 0) : Type 0 where
  -- `send`, `err`, `detail`
  error : ℕ → Bool → ℕ → String → Notice M
  connected : ℕ → Notice M
  -- the server's address and the client's
  client_connected : ℕ → Address → Address → Notice M
  message : ℕ → M → Notice M
  packet : ℕ → Bytes → Notice M
  -- the sender, the time of arrival, the contents
  datagram : ℕ → Address → ℕ → Bytes → Notice M
  -- the channel, the time of arrival, the contents
  binary_data : ℕ → ℕ → ℕ → Bytes → Notice M

abbrev pub enoent : ℕ
enoent = 2

abbrev pub eintr : ℕ
eintr = 4

abbrev pub eagain : ℕ
eagain = 11

abbrev pub enosys : ℕ
enosys = 38

abbrev pub econnreset : ℕ
econnreset = 104

abbrev pub einprogress : ℕ
einprogress = 115
