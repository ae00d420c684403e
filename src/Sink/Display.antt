-- ===== src/Sink/Display.antt =====
-- sink/WifiDisplaySink.cpp, `struct WifiDisplaySink`: its state, the requests that it sends and the
-- handlers of messages. What `sendRequest` answers, the RTP sink and the date are arguments, and
-- ParsedMessage is an interface: neither stands in the repository.
pub mod Text
pub mod Handlers
pub mod Start
pub mod Registry
use how_to_miracast_on_aosp.Prelude.{
  ℕ, ◌+◌, ◌%◌, ◌^◌, Bool, true, false, not, ◌&&◌, List, [], ◌∷◌, ◌++◌, Option, none, some, ◌==◌,
  if◌then◌else◌, Bytes,
}
use how_to_miracast_on_aosp.Prelude.Int.{ℤ, pos}
use how_to_miracast_on_aosp.Prelude.Outcome.{Outcome, done, blocked, fault}
use how_to_miracast_on_aosp.Rtsp.Text.{text, decimal}
use how_to_miracast_on_aosp.Rtsp.Machine.{Run, ◌>>=◌, ◌>>◌, return, check}
use how_to_miracast_on_aosp.Rtsp.Pending.{Expected, register}
use Text.{common_response}

-- `mState`.
pub data State : Type 0 where
  undefined connecting connected paused playing : State

-- The member functions that `registerResponseHandler` is given.
pub data Handler : Type 0 where
  m2 describe setup play : Handler

-- `setup_uri`, `rtsp_host` and `playback_session_id` are the strings; `rtp_sink` is whether
-- `mRTPSink` is set; `stopped` is whether the looper was stopped.
pub record Sink : Type 0 where
  pub state : State
  pub session_id : ℕ
  pub next_cseq : ℕ
  pub setup_uri : Bytes
  pub rtsp_host : Bytes
  pub playback_session_id : Bytes
  pub playback_session_timeout_secs : ℤ
  pub response_handlers : List (Expected Handler)
  pub rtp_sink : Bool
  pub stopped : Bool

-- What a handler works on: the sink, what it has sent to which session, the statuses that the next
-- calls of `sendRequest` return, and the sessions destroyed.
pub record World : Type 0 where
  pub sink : Sink
  pub outbox : List (ℕ × Bytes)
  pub statuses : List ℕ
  pub destroyed : List ℕ

-- What the parts outside answer: the date of the moment, whether TCP interleaving is used, and of
-- the RTP sink the status of `init`, the port and the status of `connect`.
pub record Outside : Type 0 where
  pub date : Bytes
  pub use_tcp_interleaving : Bool
  pub init_status : ℕ
  pub rtp_port : ℕ
  pub connect_status : ℕ

abbrev pub M : Type 0 → Type 0
M A = Run World A

abbrev pub get : M Sink
get w = done (w.sink, w)

abbrev pub modify : (Sink → Sink) → M (Unit {0})
modify f w = done (tt, record w { sink = f w.sink })

abbrev pub next_status : List ℕ → ℕ × List ℕ
next_status [] = (0, [])
next_status (e ∷ es) = (e, es)

-- `mNetSession->sendRequest`.
unfoldable pub send_request : ℕ → Bytes → M ℕ
send_request session message w =
    let (status, rest) = next_status w.statuses in
    done (status, record w { outbox = w.outbox ++ (session, message) ∷ []; statuses = rest })

-- The end of each `send…`: the request goes out under `mNextCSeq`; if that works its handler is
-- registered and the number is used up (`++mNextCSeq` of an `int32_t`, as a bit pattern).
unfoldable pub send_expecting : ℕ → Bytes → Handler → M ℕ
unfolding send_request register
send_expecting session message h = do
  status ← send_request session message
  s ← get
  if status == 0
      then modify (λ s. record s {
        response_handlers = register session s.next_cseq h s.response_handlers;
        next_cseq = (s.next_cseq + 1) % 2 ^ 32;
      })
        >> return 0
      else return status

module _ (o : Outside) where
  unfoldable pub send_m2 : ℕ → M ℕ
  unfolding send_expecting
  send_m2 session = do
    s ← get
    let request =
        text "OPTIONS * RTSP/1.0\r\n"
        ++ common_response o.date (pos s.next_cseq)
        ++ text "Require: org.wfa.wfd1.0\r\n\r\n"
    send_expecting session request m2

  -- The argument `uri` is overwritten.
  unfoldable pub send_describe : ℕ → Bytes → M ℕ
  unfolding send_expecting
  send_describe session uri = do
    s ← get
    let request =
        text
          "DESCRIBE rtsp://v2.cache6.c.youtube.com/video.3gp?cid=e101d4bf280055f9&fmt=18 RTSP/1.0\r\n"
        ++ common_response o.date (pos s.next_cseq)
        ++ text "Accept: application/sdp\r\n\r\n"
    send_expecting session request describe

  abbrev transport : Bytes
  transport =
      if o.use_tcp_interleaving
      then text "Transport: RTP/AVP/TCP;interleaved=0-1\r\n"
      else text "Transport: RTP/AVP/UDP;unicast;client_port="
        ++ decimal o.rtp_port
        ++ text "-"
        ++ decimal (o.rtp_port + 1)
        ++ text "\r\n"

  unfoldable pub send_setup : ℕ → Bytes → M ℕ
  unfolding send_expecting
  send_setup session uri =
      if o.init_status == 0
      then (do
        modify λ s. record s { rtp_sink = true }
        s ← get
        let request =
            text "SETUP "
            ++ uri
            ++ text " RTSP/1.0\r\n"
            ++ common_response o.date (pos s.next_cseq)
            ++ transport
            ++ text "\r\n"
        send_expecting session request setup)
      else (do modify λ s. record s { rtp_sink = false }; return o.init_status)

  unfoldable pub send_play : ℕ → Bytes → M ℕ
  unfolding send_expecting
  send_play session uri = do
    s ← get
    let request =
        text "PLAY "
        ++ uri
        ++ text " RTSP/1.0\r\n"
        ++ common_response o.date (pos s.next_cseq)
        ++ text "Session: "
        ++ s.playback_session_id
        ++ text "\r\n\r\n"
    send_expecting session request play

  unfoldable pub send_error_response : ℕ → Bytes → ℤ → M (Unit {0})
  unfolding send_request
  send_error_response session detail cseq = do
    status ←
        send_request session
          (text "RTSP/1.0 " ++ detail ++ text "\r\n" ++ common_response o.date cseq ++ text "\r\n")
    check (status == 0)
