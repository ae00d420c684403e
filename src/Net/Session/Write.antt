-- ===== src/Net/Session/Write.antt =====
-- ANetworkSession.cpp, `Session::writeMore`. What successive calls of send return and the clock's
-- successive readings are arguments. The bytes that go out are part of the result.
pub mod Failure
pub mod Conserve
use how_to_miracast_on_aosp.Prelude.{
  Option, none, some, ℕ, zero, suc, ◌+◌, ◌*◌, ◌/◌, ◌%◌, ◌^◌, Bool, true, false, List, [], ◌∷◌, ◌++◌,
  ◌==◌, if◌then◌else◌, Bytes, take, drop, String,
}
use how_to_miracast_on_aosp.Prelude.Outcome.{Outcome, done, blocked, fault, ◌>>=◌}
use how_to_miracast_on_aosp.Net.Session.{
  Session, State, connecting, connected, listening_rtsp, listening_tcp_dgrams, datagram, is_empty,
}
use how_to_miracast_on_aosp.Net.Session.Notice.{Notice, error, eintr, eagain, econnreset}
use how_to_miracast_on_aosp.Net.Session.Notice

-- One answer of send: the bytes taken, or `errno`.
pub data Send : Type 0 where
  sent : ℕ → Send
  failed : ℕ → Send

-- `do { n = send(...); } while (n < 0 && errno == EINTR);`, with the answers that are left.
unfoldable pub send : List Send → Outcome (Send × List Send)
send [] = blocked
send (sent n ∷ script) = done (sent n, script)
send (failed e ∷ script) =
    let again = send script in if e == eintr then again else done (failed e, script)

-- 0 for progress, or the error.
unfoldable pub send_status : Send → ℕ
send_status (sent n) = if n == 0 then econnreset else 0
send_status (failed e) = e

-- The bytes that a positive answer lets `erase` take off.
unfoldable pub taken : Send → ℕ
taken (sent n) = n
taken (failed e) = 0

-- `(nowUs * 9ll) / 100ll`, as 32 bits.
unfoldable pub rtp_time : ℕ → ℕ
rtp_time now = now * 9 / 100 % 2 ^ 32

-- Writes the time into bytes 4 to 7.
unfoldable pub write_time : ℕ → Bytes → Outcome Bytes
write_time time (b0 ∷ b1 ∷ b2 ∷ b3 ∷ b4 ∷ b5 ∷ b6 ∷ b7 ∷ rest) = done (
    b0
    ∷ b1
    ∷ b2
    ∷ b3
    ∷ (time / 2 ^ 24)
    ∷ (time / 2 ^ 16 % 256)
    ∷ (time / 2 ^ 8 % 256)
    ∷ (time % 256)
    ∷ rest)
write_time time _ = fault

-- The correction of the time in an RTP packet of MPEG transport data, type 33.
unfoldable pub correct_time : ℕ → Bytes → Outcome Bytes
unfolding write_time rtp_time
correct_time now [] = fault
correct_time now (b0 ∷ []) = if b0 == 0x80 then fault else done (b0 ∷ [])
correct_time now (b0 ∷ b1 ∷ rest) =
    if b0 == 0x80
    then (if b1 % 128 == 33
        then write_time (rtp_time now) (b0 ∷ b1 ∷ rest)
        else done (b0 ∷ b1 ∷ rest))
    else done (b0 ∷ b1 ∷ rest)

-- The loop over `mOutDatagrams`: the datagrams sent, those left, and the status.
unfoldable pub send_datagrams :
    (ℕ → ℕ) → List Bytes → List Send → Outcome (List Bytes × List Bytes × ℕ)
unfolding send_status
send_datagrams clock [] script = done ([], [], 0)
send_datagrams clock (d ∷ ds) script = do
  d' ← correct_time (clock 0) d
  (answer, script') ← send script
  let rest = send_datagrams (λ k. clock (suc k)) ds script'
  if send_status answer == 0
      then (do (out, left, err) ← rest; done (d' ∷ out, left, err))
      else done ([], d' ∷ ds, send_status answer)

-- What a call returns: the session, the notices it posts, what it sends and its status.
abbrev pub Writing : Type 0 → Type 0
Writing M = Session × List (Notice M) × List Bytes × ℕ

unfoldable pub fail_writing : {M : Type 0} → Bool → String → Session → List Bytes → ℕ → Writing M
fail_writing sending detail s out err = if err == 0 then (s, [], out, 0) else (
  record s { saw_send_failure = true },
  error s.session_id sending err detail ∷ [],
  out,
  err,
)

unfoldable pub write_datagrams : {M : Type 0} → Session → (ℕ → ℕ) → List Send → Outcome (Writing M)
unfolding fail_writing
write_datagrams s clock script = if is_empty s.out_datagrams then fault else (do
  (out, left, err) ← send_datagrams clock s.out_datagrams script
  done (
      fail_writing true "Send datagram failed." (record s { out_datagrams = left }) out
        (if err == eagain then 0 else err)))

-- What getsockopt gives for SO_ERROR: none when it fails or the value has another size, which is a
-- CHECK each. `kWhatError`, which is 0, stands where `notifyError` wants its flag `send`.
unfoldable pub finish_connecting : {M : Type 0} → Session → Option ℕ → Outcome (Writing M)
unfolding fail_writing
finish_connecting s none = fault
finish_connecting s (some so_error) = done (
    if so_error == 0
    then (record s { state = connected }, Notice.connected s.session_id ∷ [], [], 0)
    else fail_writing false "Connection failed" s [] so_error)

unfoldable pub write_stream : {M : Type 0} → Session → List Send → Outcome (Writing M)
unfolding send_status fail_writing
write_stream s script = if is_empty s.out_buffer then fault else (do
  (answer, _) ← send script
  done (
      fail_writing true "Send failed." (record s { out_buffer = drop (taken answer) s.out_buffer })
        (take (taken answer) s.out_buffer ∷ []) (send_status answer)))

unfoldable pub write_more :
    {M : Type 0} → Session → (ℕ → ℕ) → Option ℕ → List Send → Outcome (Writing M)
unfolding finish_connecting
write_more s clock so_error script = elim s.state [
  | datagram ↦ write_datagrams s clock script
  | connecting ↦ finish_connecting s so_error
  | connected ↦ write_stream s script
  | _ ↦ fault
]
