-- ===== src/Tests/Stream.antt =====
-- Sessions of ANetworkSession.cpp that send and receive.
use how_to_miracast_on_aosp.Prelude.{
  ℕ, ◌+◌, ◌*◌, ◌≡◌, ◌≢◌, refl, Bool, true, false, Option, none, some, List, [], ◌∷◌, ◌++◌, arith,
  Bytes, map, flatten,
}
use how_to_miracast_on_aosp.Prelude.Outcome.{done, fault}
use how_to_miracast_on_aosp.Net.Session.{
  Session, State, connecting, connected, datagram, wants_to_write, send_request,
}
use how_to_miracast_on_aosp.Net.Session.Notice.{packet, error}
use how_to_miracast_on_aosp.Net.Session.Framing.{next_packet, packets, AllFit, BigEndian}
use how_to_miracast_on_aosp.Net.Session.Interleaved.{rtsp, message_length, items, next_item}
use how_to_miracast_on_aosp.Net.Session.Read.{
  received, Reading, read_more, read_stream, take_units, packet_notices,
}
use how_to_miracast_on_aosp.Net.Session.Read.Units.{Bounded, Splits, next_item-Splits, items_fuel}
use how_to_miracast_on_aosp.Net.Session.Read.Failure as Reads
use how_to_miracast_on_aosp.Net.Session.Write.{
  Send, sent, failed, Writing, write_more, write_stream, write_datagrams, send_datagrams,
  correct_time, send, taken,
}
use how_to_miracast_on_aosp.Net.Session.Write.Failure as Writes
use how_to_miracast_on_aosp.Net.Session.Write.Conserve.{
  untimed, write_more-stream_conserves, write_more-datagrams_conserves,
}
use how_to_miracast_on_aosp.Net.Session.RoundTrip.{
  IsTcp, send_all, NonEmpty, read_all, read_all-flatten, read_all-send_all,
}

abbrev pub be16 : ℕ → ℕ → ℕ
be16 hi lo = hi * 256 + lo

be16-BigEndian : BigEndian be16
be16-BigEndian hi lo h k = refl

-- A parser of messages that are one byte long.
abbrev pub one_byte : Bytes → Bool → Option (ℕ × ℕ)
one_byte [] at_end = none
one_byte (b ∷ bs) at_end = some (b, 1)

abbrev pub no_content : ℕ → Option Bytes
no_content m = none

one_byte-Bounded : Bounded one_byte
one_byte-Bounded [] at_end m len e = absurd (cc)
one_byte-Bounded (b ∷ bs) at_end m len e = ground arith

abbrev pub clock : ℕ → ℕ
clock n = 1000 * n + 1000

abbrev pub session : ℕ → State → Session
session id state = record {
  session_id = id;
  state = state;
  is_rtsp_connection = false;
  socket = some (id + 10);
  notify_message = 7;
  saw_receive_failure = false;
  saw_send_failure = false;
  out_buffer = [];
  out_datagrams = [];
  in_buffer = [];
}

session-IsTcp : (id : ℕ) → IsTcp (session id connected)
session-IsTcp id = record { is_connected = refl; not_rtsp = refl }

abbrev payloads : List Bytes
payloads = (1 ∷ 2 ∷ 3 ∷ []) ∷ [] ∷ (9 ∷ []) ∷ []

abbrev wire : Bytes
wire = 0 ∷ 3 ∷ 1 ∷ 2 ∷ 3 ∷ 0 ∷ 0 ∷ 0 ∷ 1 ∷ 9 ∷ []

abbrev pieces : List Bytes
pieces = (0 ∷ []) ∷ (3 ∷ 1 ∷ 2 ∷ []) ∷ (3 ∷ 0 ∷ 0 ∷ 0 ∷ 1 ∷ 9 ∷ []) ∷ []

abbrev pub sender : Session
sender = record (session 1 connected) { out_buffer = wire }

payloads-AllFit : AllFit payloads
payloads-AllFit = (omega arith, (omega arith, (omega arith, tt)))

pieces-NonEmpty : NonEmpty pieces
pieces-NonEmpty = ((λ e. absurd (cc)), ((λ e. absurd (cc)), ((λ e. absurd (cc)), tt)))

wire-NonEmpty : NonEmpty (wire ∷ [])
wire-NonEmpty = ((λ e. absurd (cc)), tt)

sends : send_all (session 1 connected) payloads ≡ done sender
unfolding send_request
sends = refl

nothing_yet : next_packet be16 [] ≡ none
unfolding next_packet
nothing_yet = refl

read_all-send_all_example :
    read_all be16 one_byte no_content clock (session 2 connected) pieces
    ≡ done (session 2 connected, map (packet 2) payloads)
read_all-send_all_example =
    read_all-send_all be16 one_byte no_content clock (session 1 connected) sender
      (session 2 connected) payloads pieces be16-BigEndian (session-IsTcp 1) (session-IsTcp 2) refl
      refl payloads-AllFit pieces-NonEmpty sends refl

read_all-flatten_example :
    read_all be16 one_byte no_content clock (session 2 connected) pieces
    ≡ read_all be16 one_byte no_content clock (session 2 connected) (wire ∷ [])
read_all-flatten_example =
    read_all-flatten be16 one_byte no_content clock (session 2 connected) pieces (wire ∷ [])
      (session-IsTcp 2) pieces-NonEmpty wire-NonEmpty nothing_yet refl

-- A datagram session with an RTP packet of type 33 and a short datagram of 8 bytes.
abbrev rtp : Bytes
rtp = 0x80 ∷ 33 ∷ 0 ∷ 1 ∷ 0 ∷ 0 ∷ 0 ∷ 0 ∷ 5 ∷ []

abbrev plain : Bytes
plain = 1 ∷ 2 ∷ 3 ∷ 4 ∷ 5 ∷ 6 ∷ 7 ∷ 8 ∷ []

abbrev pub udp : Session
udp = record (session 3 datagram) { out_datagrams = rtp ∷ plain ∷ [] }

headers : Writes.AllRtp (rtp ∷ plain ∷ [])
headers = (omega arith, (omega arith, tt))

udp_wants : wants_to_write udp ≡ true
unfolding wants_to_write
udp_wants = refl

-- send is interrupted, then takes the first datagram, then would block.
abbrev script : List Send
script = failed 4 ∷ sent 9 ∷ failed 11 ∷ []

write_more-ne-fault_example : write_more {M = ℕ} udp clock (some 0) script ≢ fault
write_more-ne-fault_example =
    Writes.write_more-ne-fault udp clock (some 0) script headers udp_wants λ _ h. cc

abbrev timed : Bytes
timed = 0x80 ∷ 33 ∷ 0 ∷ 1 ∷ 0 ∷ 0 ∷ 0 ∷ 90 ∷ 5 ∷ []

abbrev wrote : Writing ℕ
wrote = (record udp { out_datagrams = plain ∷ [] }, [], timed ∷ [], 0)

writes : write_more udp clock (some 0) script ≡ done wrote
unfolding write_more write_datagrams send_datagrams correct_time send
writes = refl

write_more-datagrams_conserves_example :
    map untimed (timed ∷ plain ∷ []) ≡ map untimed (rtp ∷ plain ∷ [])
write_more-datagrams_conserves_example =
    write_more-datagrams_conserves udp clock (some 0) script wrote refl writes

-- The stream takes four bytes.
abbrev wrote_stream : Writing ℕ
wrote_stream =
    (record sender { out_buffer = 3 ∷ 0 ∷ 0 ∷ 0 ∷ 1 ∷ 9 ∷ [] }, [], (0 ∷ 3 ∷ 1 ∷ 2 ∷ []) ∷ [], 0)

writes_stream : write_more sender clock (some 0) (sent 4 ∷ []) ≡ done wrote_stream
unfolding write_more write_stream send taken
writes_stream = refl

write_more-stream_conserves_example :
    flatten ((0 ∷ 3 ∷ 1 ∷ 2 ∷ []) ∷ []) ++ (3 ∷ 0 ∷ 0 ∷ 0 ∷ 1 ∷ 9 ∷ []) ≡ wire
write_more-stream_conserves_example =
    write_more-stream_conserves sender clock (some 0) (sent 4 ∷ []) wrote_stream refl writes_stream

-- A refused connection: ECONNREFUSED is 111.
abbrev refused : Writing ℕ
refused = (
  record (session 4 connecting) { saw_send_failure = true },
  error 4 false 111 "Connection failed" ∷ [],
  [],
  111,
)

refuses : write_more (session 4 connecting) clock (some 111) [] ≡ done refused
unfolding write_more
refuses = refl

write_more-Settled_example : Writes.Settled (session 4 connecting) clock (some 111) [] refused
write_more-Settled_example =
    Writes.write_more-Settled (session 4 connecting) clock (some 111) [] refused refuses

abbrev arrival : Reads.Arrival
arrival = record {
  interrupted = 1;
  first = 5;
  others = 6 ∷ [];
  host = 0x7f000001;
  port = 9;
  time = 3;
}

read_more-answers_example :
    read_more be16 one_byte no_content udp clock
      (Reads.answers (arrival ∷ []) (Reads.failure 11))
      []
    ≡ done (udp, Reads.deliveries 3 (arrival ∷ []), 0)
read_more-answers_example =
    Reads.read_more-answers be16 one_byte no_content udp clock (arrival ∷ []) (Reads.failure 11) []
      refl (omega arith) (omega arith)

-- The other end has closed the connection behind one byte of a message.
abbrev lost : Reading ℕ
lost = (
  record (session 2 connected) { saw_receive_failure = true; in_buffer = 0 ∷ [] },
  error 2 false 104 "Recv failed." ∷ [],
  104,
)

loses :
    read_more be16 one_byte no_content
      (record (session 2 connected) { in_buffer = 0 ∷ [] })
      clock
      []
      (received [] ∷ [])
    ≡ done lost
unfolding read_more read_stream take_units packets packet_notices
loses = refl

read_more-Settled_example :
    Reads.Settled be16 one_byte no_content
      (record (session 2 connected) { in_buffer = 0 ∷ [] })
      clock
      lost
read_more-Settled_example =
    Reads.read_more-Settled be16 one_byte no_content
      (record (session 2 connected) { in_buffer = 0 ∷ [] }) clock [] (received [] ∷ []) lost loses

takes_one :
    next_item be16 one_byte no_content false (b'R' ∷ b'T' ∷ []) ≡ some (rtsp b'R', b'T' ∷ [])
unfolding next_item message_length
takes_one = refl

next_item-Splits_example :
    Splits be16 one_byte no_content false (b'R' ∷ b'T' ∷ []) (rtsp b'R') (b'T' ∷ [])
next_item-Splits_example =
    next_item-Splits be16 one_byte no_content one_byte-Bounded false (b'R' ∷ b'T' ∷ []) (rtsp b'R')
      (b'T' ∷ []) takes_one

items_fuel_example :
    items be16 one_byte no_content false 3 (b'R' ∷ b'T' ∷ [])
    ≡ items be16 one_byte no_content false 30 (b'R' ∷ b'T' ∷ [])
items_fuel_example =
    items_fuel be16 one_byte no_content one_byte-Bounded false 3 30 (b'R' ∷ b'T' ∷ []) (omega arith)
      (omega arith)
