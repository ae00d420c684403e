-- ===== src/Sink/Display/Registry.antt =====
-- sink/WifiDisplaySink.cpp: the handlers that wait for responses, `mResponseHandlers`, against
-- `mNextCSeq`.
pub mod Once
pub mod Notify
use how_to_miracast_on_aosp.Prelude.{ℕ, ◌+◌, ◌<◌, ◌^◌, refl, Bytes, ◌==◌, Bool-cases, inl, inr}
use how_to_miracast_on_aosp.Rtsp.Pending.{Rising}
use how_to_miracast_on_aosp.Rtsp.Frame.{
  Frame, RegistersOne, RegistersOne-Rising, registrations, Still, Tame,
}
use how_to_miracast_on_aosp.Sink.Display.{
  Handler, Sink, World, send_request, send_expecting, next_status,
}

-- The handlers wait for different CSeq numbers, all of them used up.
abbrev pub InOrder : Sink → Type 0
InOrder s = Rising 0 s.next_cseq s.response_handlers

abbrev pub Registers : World → World → Type 0
Registers = RegistersOne (λ w. w.sink.response_handlers) (λ w. w.sink.next_cseq)

instance abbrev pub sink_frame : Frame World
sink_frame = registrations (λ w. w.sink.response_handlers) (λ w. w.sink.next_cseq)

pub Registers-InOrder :
    (w w' : World)
    → InOrder w.sink
    → w.sink.next_cseq + 1 < 2 ^ 32
    → Registers w w'
    → InOrder w'.sink
Registers-InOrder = RegistersOne-Rising (λ w. w.sink.response_handlers) (λ w. w.sink.next_cseq)

pub send_request-Still : (session : ℕ) (message : Bytes) → Still (send_request session message)
unfolding send_request Still Tame
send_request-Still session message w = (refl, refl)

pub send_expecting-Tame :
    (session : ℕ) (message : Bytes) (h : Handler) → Tame (send_expecting session message h)
unfolding send_expecting Still Tame
send_expecting-Tame session message h w = elim (Bool-cases ((next_status w.statuses).0 == 0)) [
  | inl ok ↦ rw ok (inr (session, h, refl, refl))
  | inr bad ↦ rw bad (inl (refl, refl))
]
