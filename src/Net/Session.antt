-- ===== src/Net/Session.antt =====
-- ANetworkSession.cpp, `struct ANetworkSession::Session`: its state, its two wishes for `select`,
-- and `sendRequest`. A `status_t` is 0 or the negation of an error number; the model keeps the
-- number without its sign, so that 0 is OK.
pub mod Framing
pub mod Notice
pub mod Interleaved
pub mod Read
pub mod Write
pub mod RoundTrip
use how_to_miracast_on_aosp.Prelude.{
  ℕ, suc, ◌+◌, ◌-◌, ◌*◌, ◌/◌, ◌%◌, ◌^◌, Bool, true, false, not, ◌&&◌, ◌||◌, List, [], ◌∷◌, ◌++◌,
  Option, none, some, ltb, leb, ◌==◌, if◌then◌else◌, Bytes, take, String,
}
use how_to_miracast_on_aosp.Prelude.Int.{ℤ, pos, negsuc}
use how_to_miracast_on_aosp.Prelude.Outcome.{Outcome, done, blocked, fault, ◌>>=◌, ◌>>◌}

pub data State : Type 0 where
  connecting connected listening_rtsp listening_tcp_dgrams datagram : State

-- `mSocket`, `none` for -1; `mNotify` is the number of the message that notices are copied from.
pub record Session : Type 0 where
  pub session_id : ℕ
  pub state : State
  pub is_rtsp_connection : Bool
  pub socket : Option ℕ
  pub notify_message : ℕ
  pub saw_receive_failure : Bool
  pub saw_send_failure : Bool
  pub out_buffer : Bytes
  pub out_datagrams : List Bytes
  pub in_buffer : Bytes

abbrev pub is_connecting : State → Bool
is_connecting connecting = true
is_connecting _ = false

abbrev pub is_connected : State → Bool
is_connected connected = true
is_connected _ = false

abbrev pub is_datagram : State → Bool
is_datagram datagram = true
is_datagram _ = false

unfoldable pub is_rtsp_server : Session → Bool
is_rtsp_server s = elim s.state [ listening_rtsp ↦ true | _ ↦ false ]

unfoldable pub is_tcp_datagram_server : Session → Bool
is_tcp_datagram_server s = elim s.state [ listening_tcp_dgrams ↦ true | _ ↦ false ]

abbrev pub is_empty {ℓ} : {A : Type ℓ} → List A → Bool
is_empty [] = true
is_empty (x ∷ xs) = false

unfoldable pub wants_to_read : Session → Bool
wants_to_read s = not s.saw_receive_failure && not (is_connecting s.state)

unfoldable pub wants_to_write : Session → Bool
wants_to_write s =
    not s.saw_send_failure
    && (is_connecting s.state
        || (is_connected s.state && not (is_empty s.out_buffer))
        || (is_datagram s.state && not (is_empty s.out_datagrams)))

unfoldable pub set_is_rtsp_connection : Session → Bool → Session
set_is_rtsp_connection s yesno = record s { is_rtsp_connection = yesno }

-- `(uint8_t)(size >> 8)` and `(uint8_t)(size & 0xff)` of a two's complement `ssize_t`.
unfoldable pub prefix_high : ℤ → ℕ
prefix_high (pos n) = n / 256 % 256
prefix_high (negsuc n) = 255 - n / 256 % 256

unfoldable pub prefix_low : ℤ → ℕ
prefix_low (pos n) = n % 256
prefix_low (negsuc n) = 255 - n % 256

-- The characters before the terminator, as `strlen` counts them.
unfoldable pub c_string : Bytes → Bytes
c_string [] = []
c_string (c ∷ cs) = if c == 0 then [] else c ∷ c_string cs

abbrev payload : ℤ → Bytes → Bytes
payload (pos n) contents = take n contents
payload (negsuc n) contents = c_string contents

queue_datagram : Session → ℤ → Bytes → Outcome Session
queue_datagram s (pos n) contents =
    done (record s { out_datagrams = s.out_datagrams ++ take n contents ∷ [] })
queue_datagram s (negsuc n) contents = fault

abbrev fits_prefix : ℤ → Bool
fits_prefix (pos n) = leb n 65535
fits_prefix (negsuc n) = true

queue_stream : Session → ℤ → Bytes → Outcome Session
queue_stream s size contents =
    if s.is_rtsp_connection
    then done (record s { out_buffer = s.out_buffer ++ payload size contents })
    else if fits_prefix size
    then done (record s {
      out_buffer =
          (s.out_buffer ++ prefix_high size ∷ prefix_low size ∷ []) ++ payload size contents;
    })
    else fault

unfoldable pub send_request : Session → Bytes → ℤ → Outcome Session
unfolding queue_datagram queue_stream prefix_high prefix_low
send_request s contents size = elim s.state [
  | datagram ↦ queue_datagram s size contents
  | connected ↦ queue_stream s size contents
  | _ ↦ fault
]
