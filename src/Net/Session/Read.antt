-- ===== src/Net/Session/Read.antt =====
-- ANetworkSession.cpp, `Session::readMore`. The system calls' answers are arguments: the list of
-- what successive calls of recv or recvfrom return, and the successive readings of the clock. The
-- parser of RTSP messages is a parameter.
pub mod Units
pub mod Failure
use how_to_miracast_on_aosp.Prelude.{
  ℕ, zero, suc, ◌+◌, Bool, true, false, not, ◌&&◌, ◌||◌, List, [], ◌∷◌, ◌++◌, Option, none, some,
  ltb, leb, ◌==◌, if◌then◌else◌, Bytes, take, drop, length, get_or, map, String,
}
use how_to_miracast_on_aosp.Prelude.Outcome.{Outcome, done, blocked, fault, ◌>>=◌}
use how_to_miracast_on_aosp.Net.Session.{Session, is_datagram}
use how_to_miracast_on_aosp.Net.Session.Notice.{
  Notice, error, message, packet, datagram, binary_data, Address, quad, eintr, eagain, econnreset,
}
use how_to_miracast_on_aosp.Net.Session.Framing.{packets}
use how_to_miracast_on_aosp.Net.Session.Interleaved.{Item, binary, rtsp, items}

-- One answer of recv: the bytes, none of them at the end of the stream, or `errno`.
pub data Recv : Type 0 where
  received : Bytes → Recv
  failed : ℕ → Recv

-- One answer of recvfrom, with the sender's address and port, and the clock's reading after it.
pub data RecvFrom : Type 0 where
  received_from : Bytes → ℕ → ℕ → ℕ → RecvFrom
  failed_from : ℕ → RecvFrom

-- `do { n = recv(...); } while (n < 0 && errno == EINTR);`
unfoldable pub recv : List Recv → Outcome Recv
recv [] = blocked
recv (received b ∷ script) = done (received b)
recv (failed e ∷ script) = let again = recv script in if e == eintr then again else done (failed e)

-- The notices of the packets and messages that one call takes off, in order. A binary packet is
-- stamped with the clock, which is read once for each.
unfoldable pub item_notices : {M : Type 0} → ℕ → (ℕ → ℕ) → List (Item M) → List (Notice M)
item_notices id clock [] = []
item_notices id clock (binary channel contents ∷ rest) =
    binary_data id channel (clock 0) contents ∷ item_notices id (λ k. clock (suc k)) rest
item_notices id clock (rtsp m ∷ rest) = message id m ∷ item_notices id clock rest

unfoldable pub packet_notices : {M : Type 0} → ℕ → List Bytes → List (Notice M)
packet_notices id = map (packet id)

-- `mInBuffer.append(tmp, n)`, or the error.
unfoldable pub arrived : Recv → Bytes × ℕ
arrived (received []) = ([], econnreset)
arrived (received (b ∷ bs)) = (b ∷ bs, 0)
arrived (failed e) = ([], e)

-- What a call returns: the session, the notices it posts and its status.
abbrev pub Reading : Type 0 → Type 0
Reading M = Session × List (Notice M) × ℕ

-- The end of `readMore`, on both paths.
unfoldable pub fail_reading : {M : Type 0} → String → Reading M → Reading M
fail_reading detail (s, posted, err) = if err == 0 then (s, posted, 0) else (
  record s { saw_receive_failure = true },
  posted ++ error s.session_id false err detail ∷ [],
  err,
)

-- The datagrams that recvfrom returns until it fails or returns nothing, and its error.
unfoldable pub recv_datagrams : {M : Type 0} → ℕ → List RecvFrom → Outcome (List (Notice M) × ℕ)
recv_datagrams id [] = blocked
recv_datagrams id (failed_from e ∷ script) =
    let again = recv_datagrams id script in if e == eintr then again else done ([], e)
recv_datagrams id (received_from [] host port now ∷ script) = done ([], econnreset)
recv_datagrams id (received_from (b ∷ bs) host port now ∷ script) = do
  (posted, err) ← recv_datagrams id script
  done (datagram id (record { host = quad host; port = port }) now (b ∷ bs) ∷ posted, err)

unfoldable pub read_datagrams : {M : Type 0} → Session → List RecvFrom → Outcome (Reading M)
unfolding fail_reading
read_datagrams s script = do
  (posted, err) ← recv_datagrams s.session_id script
  done (fail_reading "Recvfrom failed." (s, posted, if err == eagain then 0 else err))

module _ (u16_at : ℕ → ℕ → ℕ) {M : Type 0} (parse : Bytes → Bool → Option (M × ℕ)) where
  module _ (get_content : M → Option Bytes) where
    -- Both loops over `mInBuffer`; the session's own number marks the notices.
    unfoldable pub take_units : Session → (ℕ → ℕ) → Bool → Bytes → List (Notice M) × Bytes
    take_units s clock at_end buf =
        if s.is_rtsp_connection
        then (let (found, left) = items u16_at parse get_content at_end (suc (length buf)) buf in
            (item_notices s.session_id clock found, left))
        else (let (found, left) = packets u16_at buf in (packet_notices s.session_id found, left))

    unfoldable pub read_stream : Session → (ℕ → ℕ) → List Recv → Outcome (Reading M)
    unfolding recv arrived fail_reading
    read_stream s clock script = do
      answer ← recv script
      let (bytes, err) = arrived answer
      let (posted, left) = take_units s clock (not (err == 0)) (s.in_buffer ++ bytes)
      done (fail_reading "Recv failed." (record s { in_buffer = left }, posted, err))

    unfoldable pub read_more : Session → (ℕ → ℕ) → List RecvFrom → List Recv → Outcome (Reading M)
    read_more s clock datagrams stream =
        if is_datagram s.state then read_datagrams s datagrams else read_stream s clock stream
