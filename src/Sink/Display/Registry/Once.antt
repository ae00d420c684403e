-- ===== src/Sink/Display/Registry/Once.antt =====
-- sink/WifiDisplaySink.cpp: what the handlers of messages do to `mResponseHandlers`.
use how_to_miracast_on_aosp.Prelude.{
  ℕ, ◌+◌, ◌^◌, ◌<◌, ◌≡◌, refl, true, Option, none, some, arith, ◌==◌, if◌then◌else◌, Bytes,
  Bool-cases, Option-cases, inl, inr,
}
use how_to_miracast_on_aosp.Prelude.Int.{minus_one}
use how_to_miracast_on_aosp.Prelude.Outcome.{Ensures}
use how_to_miracast_on_aosp.Rtsp.Machine.{check}
use how_to_miracast_on_aosp.Rtsp.Text.{text, before_char, is_empty}
use how_to_miracast_on_aosp.Rtsp.Message.{ParsedMessage}
use how_to_miracast_on_aosp.Rtsp.Pending.{
  expected, forget, expected_below, expected-forget, forget-Rising,
}
use how_to_miracast_on_aosp.Rtsp.Frame.{
  weaken, RegistersOne-expected, Still, Tame, >>=-Tame, Tame->>=, check-Still,
}
use how_to_miracast_on_aosp.Sink.Display.{
  paused, Outside, Handler, m2, describe, setup, play, World, M, get, send_m2, send_describe,
  send_setup, send_play,
}
use how_to_miracast_on_aosp.Sink.Display.Handlers.{
  on_success, configure_transport, after_transport, finish_setup, default_uri, handle, dispatch,
  on_response,
}
use how_to_miracast_on_aosp.Sink.Display.Registry.{
  InOrder, sink_frame, Registers, Registers-InOrder, send_expecting-Tame,
}

pub get-Still : Still get
unfolding Still Tame
get-Still w = (refl, refl)

module _ (o : Outside) where
  pub send_m2-Tame : (session : ℕ) → Tame (send_m2 o session)
  unfolding send_m2
  send_m2-Tame session = >>=-Tame _ get get-Still λ s. send_expecting-Tame session _ m2

  pub send_describe-Tame : (session : ℕ) (uri : Bytes) → Tame (send_describe o session uri)
  unfolding send_describe
  send_describe-Tame session uri =
      >>=-Tame _ get get-Still λ s. send_expecting-Tame session _ describe

  send_play-Tame : (session : ℕ) (uri : Bytes) → Tame (send_play o session uri)
  unfolding send_play
  send_play-Tame session uri = >>=-Tame _ get get-Still λ s. send_expecting-Tame session _ play

  pub send_setup-Tame : (session : ℕ) (uri : Bytes) → Tame (send_setup o session uri)
  unfolding send_setup Still Tame
  send_setup-Tame session uri w = elim (Bool-cases (o.init_status == 0)) [
    | inl ok ↦ rw ok (
        send_expecting-Tame session _ setup
          (record w { sink = record (w.sink) { rtp_sink = true } }))
    | inr bad ↦ rw bad (inl (refl, refl))
  ]

  module _ (P : ParsedMessage) where
    open P use {
      Message, request_field, find_int32, find_string, status_code, content, attribute,
      int32_attribute, two_ports,
    }

    configure_transport-Still : (msg : Message) → Still (configure_transport o P msg)
    unfolding configure_transport Still Tame
    configure_transport-Still msg w = ground arith

    after_transport-Tame : (session status : ℕ) → Tame (after_transport o P session status)
    unfolding after_transport Still Tame
    after_transport-Tame session status w = elim (Bool-cases (status == 0)) [
      | inl ok ↦ rw ok (
          send_play-Tame session
            (if is_empty w.sink.setup_uri then default_uri else w.sink.setup_uri)
            (record w { sink = record (w.sink) { state = paused } }))
      | inr bad ↦ rw bad (inl (refl, refl))
    ]

    abbrev with_session : Bytes → World → World
    with_session id w = record w {
      sink = record (w.sink) {
        playback_session_id = before_char b';' id;
        playback_session_timeout_secs = elim (int32_attribute id (text "timeout")) [
          | none ↦ minus_one
          | some secs ↦ secs
        ];
      };
    }

    finish_setup-Tame : (session : ℕ) (msg : Message) → Tame (finish_setup o P session msg)
    unfolding finish_setup Still Tame
    finish_setup-Tame session msg w = elim (Option-cases (find_string msg (text "session"))) [
      | inl e ↦ rw (e, finish_setup) (inl (refl, refl))
      | inr (id, e) ↦
          rw (e, finish_setup)
            (>>=-Tame (after_transport o P session) (configure_transport o P msg)
              (configure_transport-Still msg) (after_transport-Tame session) (with_session id w))
    ]

    on_success-Tame : (msg : Message) (next : M ℕ) → Tame next → Tame (on_success o P msg next)
    unfolding on_success Still Tame
    on_success-Tame msg next t w = elim (Option-cases (status_code msg)) [
      | inl e ↦ rw (e, on_success) (inl (refl, refl))
      | inr (code, e) ↦ elim (Bool-cases (code == 200)) [
        | inl ok ↦ rw (e, on_success, ok) (t w)
        | inr bad ↦ rw (e, on_success, bad) (inl (refl, refl))
      ]
    ]

    handle-Tame : (h : Handler) (session : ℕ) (msg : Message) → Tame (handle o P h session msg)
    unfolding handle Still Tame
    handle-Tame m2 session msg = on_success-Tame msg _ λ w. inl (refl, refl)
    handle-Tame describe session msg =
        on_success-Tame msg _ (>>=-Tame _ get get-Still λ s. send_setup-Tame session s.setup_uri)
    handle-Tame setup session msg = on_success-Tame msg _ (finish_setup-Tame session msg)
    handle-Tame play session msg = on_success-Tame msg _ λ w. inl (refl, refl)

    abbrev Dealt : ℕ → ℕ → Unit {0} × World → Type 0
    Dealt session cseq r =
        InOrder r.1.sink × (expected session cseq r.1.sink.response_handlers ≡ none)

    dispatch-Dealt :
        (session cseq : ℕ) (msg : Message) (w : World) (found : Option Handler)
        → InOrder w.sink
        → w.sink.next_cseq + 1 < 2 ^ 32
        → expected session cseq w.sink.response_handlers ≡ found
        → Ensures (Dealt session cseq) (dispatch o P session cseq msg found w)
    unfolding dispatch Still Tame
    dispatch-Dealt session cseq msg w none order room e = (order, e)
    dispatch-Dealt session cseq msg w (some h) order room e =
        let handlers = forget session cseq w.sink.response_handlers in
        let v = record w { sink = record (w.sink) { response_handlers = handlers } } in
        let next = w.sink.next_cseq in
        let below = expected_below session cseq 0 next h w.sink.response_handlers order e in
        let gone = expected-forget session cseq 0 next w.sink.response_handlers order in
        let kept = forget-Rising session cseq 0 next w.sink.response_handlers order in
        weaken (λ r. Registers v r.1) (Dealt session cseq) _
          (λ r ext. (
            Registers-InOrder v r.1 kept room ext,
            RegistersOne-expected (λ w. w.sink.response_handlers) (λ w. w.sink.next_cseq) session
                cseq v r.1 below gone ext,
          ))
          (Tame->>= (λ status. check (status == 0)) (handle o P h session msg)
            (handle-Tame h session msg) (λ status. check-Still World (status == 0)) v)

    -- After a response is dealt with, no handler waits for its session and CSeq any more, so that a
    -- second one is unsolicited; and the handlers that wait keep different CSeq numbers below
    -- `mNextCSeq`. This holds where they did before, while `mNextCSeq` does not wrap.
    pub on_response-once :
        (session cseq : ℕ) (msg : Message) (w : World)
        → InOrder w.sink
        → w.sink.next_cseq + 1 < 2 ^ 32
        → Ensures
            (λ (r : Unit {0} × World).
              InOrder r.1.sink × (expected session cseq r.1.sink.response_handlers ≡ none))
            (on_response o P session cseq msg w)
    unfolding on_response
    on_response-once session cseq msg w order room =
        dispatch-Dealt session cseq msg w _ order room refl
