-- ===== src/Sink/Tunnel.antt =====
-- sink/TunnelRenderer.cpp, `struct TunnelRenderer`: the packets that wait for the player, in the
-- order of their extended sequence numbers, and the decision what to hand out next. Sequence
-- numbers, times and the count of bytes are signed, as in the code. The clock's reading is an
-- argument: every path of `dequeueBuffer` that depends on the time reads it once.
pub mod Queue
pub mod Order
pub mod History
pub mod Stream
use how_to_miracast_on_aosp.Prelude.{
  ℕ, ◌+◌, ◌-◌, ◌%◌, Bool, true, false, not, ◌||◌, List, [], ◌∷◌, Option, none, some, if◌then◌else◌,
  Bytes, length,
}
use how_to_miracast_on_aosp.Prelude.Int.{
  ℤ, pos, negsuc, ◌+ℤ◌, ◌-ℤ◌, ltb_ℤ, eqb_ℤ, zero_ℤ, minus_one,
}

-- An ABuffer: `int32Data()` is the extended sequence number.
pub record Packet : Type 0 where
  pub ext_seq_no : ℤ
  pub contents : Bytes

abbrev pub size : Packet → ℕ
size p = length p.contents

pub record Renderer : Type 0 where
  pub total_bytes_queued : ℤ
  pub packets : List Packet
  pub last_dequeued_ext_seq_no : ℤ
  pub first_failed_attempt_us : ℤ
  pub requested_retransmission : Bool

-- The constructor.
abbrev pub initial : Renderer
initial = record {
  total_bytes_queued = zero_ℤ;
  packets = [];
  last_dequeued_ext_seq_no = minus_one;
  first_failed_attempt_us = minus_one;
  requested_retransmission = false;
}

-- Where the walk from the last packet to the first has come to.
pub data Placed : Type 0 where
  duplicate : Placed
  inserted : List Packet → Placed
  before : Placed

abbrev pub place_at : Packet → Packet → List Packet → Placed → Placed
place_at b p ps duplicate = duplicate
place_at b p ps (inserted l) = inserted (p ∷ l)
place_at b p ps before =
    if eqb_ℤ p.ext_seq_no b.ext_seq_no
    then duplicate
    else if ltb_ℤ p.ext_seq_no b.ext_seq_no
    then inserted (p ∷ b ∷ ps)
    else before

-- The `for (;;)` of `queueBuffer`.
unfoldable pub place : Packet → List Packet → Placed
place b [] = before
place b (p ∷ ps) = place_at b p ps (place b ps)

abbrev pub placed : Packet → List Packet → Placed → List Packet
placed b ps duplicate = ps
placed b ps (inserted l) = l
placed b ps before = b ∷ ps

unfoldable pub queue_buffer : Renderer → Packet → Renderer
queue_buffer r b = record r {
  total_bytes_queued = r.total_bytes_queued +ℤ pos (size b);
  packets = placed b r.packets (place b r.packets);
}

-- The `while` of `dequeueBuffer`: retransmissions of what was returned already go.
unfoldable pub drop_old : ℤ → ℤ → List Packet → ℤ × List Packet
drop_old last total [] = (total, [])
drop_old last total (p ∷ ps) =
    let rest = drop_old last (total -ℤ pos (size p)) ps in
    if ltb_ℤ last zero_ℤ || ltb_ℤ last p.ext_seq_no then (total, p ∷ ps) else rest

-- `x & 0xffff` in two's complement.
unfoldable pub low_16 : ℤ → ℕ
low_16 (pos n) = n % 65536
low_16 (negsuc n) = 65535 - n % 65536

-- The renderer, the packet returned, and the sequence numbers asked for again.
abbrev pub Dequeued : Type 0
Dequeued = Renderer × Option Packet × List ℕ

-- Packet `p` leaves the front of the queue, also where the packets before it never came.
unfoldable pub hand_out : Renderer → Packet → List Packet → Dequeued
hand_out r p ps = (
  record {
    total_bytes_queued = r.total_bytes_queued -ℤ pos (size p);
    packets = ps;
    last_dequeued_ext_seq_no = p.ext_seq_no;
    first_failed_attempt_us = minus_one;
    requested_retransmission = false;
  },
  some p,
  [],
)

-- There is a gap in front of the first packet.
unfoldable pub wait_or_skip : Renderer → Packet → List Packet → ℤ → Dequeued
unfolding hand_out
wait_or_skip r p ps now =
    if ltb_ℤ r.first_failed_attempt_us zero_ℤ
    then (record r { first_failed_attempt_us = now }, none, [])
    else if ltb_ℤ now (r.first_failed_attempt_us +ℤ pos 50000)
    then (if r.requested_retransmission then (r, none, []) else (
      record r { requested_retransmission = true },
      none,
      low_16 (r.last_dequeued_ext_seq_no +ℤ pos 1) ∷ [],
    ))
    else hand_out r p ps

unfoldable pub dequeue_front : Renderer → List Packet → ℤ → Dequeued
unfolding wait_or_skip hand_out
dequeue_front r [] now =
    if ltb_ℤ r.first_failed_attempt_us zero_ℤ
    then (record r { first_failed_attempt_us = now; requested_retransmission = false }, none, [])
    else (r, none, [])
dequeue_front r (p ∷ ps) now =
    if ltb_ℤ r.last_dequeued_ext_seq_no zero_ℤ
      || eqb_ℤ p.ext_seq_no (r.last_dequeued_ext_seq_no +ℤ pos 1)
    then hand_out r p ps
    else wait_or_skip r p ps now

unfoldable pub dequeue_buffer : Renderer → ℤ → Dequeued
unfolding dequeue_front drop_old
dequeue_buffer r now =
    let (total, packets) = drop_old r.last_dequeued_ext_seq_no r.total_bytes_queued r.packets in
    dequeue_front (record r { total_bytes_queued = total; packets = packets }) packets now
