-- ===== src/Source/Registry.antt =====
-- source/WifiDisplaySource.cpp: the handlers that wait for responses, `mResponseHandlers`, against
-- `mNextCSeq`; what sending and stopping do to them.
pub mod Requests
pub mod Receive
pub mod Responses
use how_to_miracast_on_aosp.Prelude.{
  arith, ℕ, ◌+◌, ◌^◌, ◌<◌, ◌==◌, refl, Bool, true, false, Bytes, Bool-cases, inl, inr, Option, not,
  ltb,
}
use how_to_miracast_on_aosp.Prelude.Int.{ℤ}
use how_to_miracast_on_aosp.Rtsp.Machine.{◌>>=◌, ◌>>◌, return, check}
use how_to_miracast_on_aosp.Rtsp.Pending.{Rising}
use how_to_miracast_on_aosp.Rtsp.Frame.{
  Frame, RegistersOne, RegistersOne-Rising, registrations, Still, Tame, >>=-Still, >>=-Tame,
  >>-Tame, >>-Still, check-Still, return-Still, if-Still,
}
use how_to_miracast_on_aosp.Source.{
  State, stopping, Handler, m1, m3, m4, m5, m16, display_disconnected, called, destroy_async,
  Source, World, Outside, Effect, M, hdcp_shutdown, get, set_state, emit, tell_client, send_request,
  next_status,
}
use how_to_miracast_on_aosp.Source.Send.{
  Trigger, send_expecting, send_m1, send_m3, send_m4, send_trigger, send_m16, send_error_response,
}
use how_to_miracast_on_aosp.Source.Stop.{
  finish_stop2, finish_stop_after_disconnecting_client, release_playback_session,
  release_client_session, disconnect_client2, disconnect_client_async, finish_stop, schedule_reaper,
  schedule_keep_alive,
}

-- The handlers wait for different CSeq numbers, all of them used up.
abbrev pub InOrder : Source → Type 0
InOrder s = Rising 0 s.next_cseq s.response_handlers

abbrev pub Registers : World → World → Type 0
Registers = RegistersOne (λ w. w.source.response_handlers) (λ w. w.source.next_cseq)

instance abbrev pub source_frame : Frame World
source_frame = registrations (λ w. w.source.response_handlers) (λ w. w.source.next_cseq)

pub Registers-InOrder :
    (w w' : World)
    → InOrder w.source
    → w.source.next_cseq + 1 < 2 ^ 32
    → Registers w w'
    → InOrder w'.source
Registers-InOrder = RegistersOne-Rising (λ w. w.source.response_handlers) (λ w. w.source.next_cseq)

pub get-Still : Still get
unfolding Still Tame
get-Still w = (refl, refl)

pub set_state-Still : (state : State) → Still (set_state state)
unfolding Still Tame
set_state-Still state w = (refl, refl)

pub emit-Still : (e : Effect) → Still (emit e)
unfolding Still Tame
emit-Still e w = (refl, refl)

pub send_request-Still : (session : ℕ) (message : Bytes) → Still (send_request session message)
unfolding send_request Still Tame
send_request-Still session message w = (refl, refl)

pub sends-Tame :
    {A : Type 0} (session : ℕ) (message : Bytes) (f : ℕ → M A)
    → ((status : ℕ) → Tame (f status))
    → Tame (send_request session message >>= f)
sends-Tame session message f h =
    >>=-Tame f (send_request session message) (send_request-Still session message) h

pub emits-Tame : {A : Type 0} (e : Effect) (k : M A) → Tame k → Tame (emit e >> k)
emits-Tame e k h = >>-Tame (emit e) k (emit-Still e) h

pub checks-Tame : {A : Type 0} (b : Bool) (k : M A) → Tame k → Tame (check b >> k)
checks-Tame b k h = >>-Tame (check b) k (check-Still World b) h

pub tell_client-Still : (e : Effect) → Still (tell_client e)
unfolding tell_client Still Tame
tell_client-Still e w =
    >>=-Still _ (check w.source.client_set) (check-Still World w.source.client_set)
      (λ _. emit-Still e) w

pub send_expecting-Tame :
    (session : ℕ) (message : Bytes) (h : Handler) → Tame (send_expecting session message h)
unfolding send_expecting Still Tame
send_expecting-Tame session message h w = elim (Bool-cases ((next_status w.statuses).0 == 0)) [
  | inl ok ↦ rw ok (inr (session, h, refl, refl))
  | inr bad ↦ rw bad (inl (refl, refl))
]

pub finish_stop2-Still : Still finish_stop2
unfolding finish_stop2 Still Tame
finish_stop2-Still w = ground arith

finish_stop_after-Still : Still finish_stop_after_disconnecting_client
unfolding finish_stop_after_disconnecting_client
finish_stop_after-Still =
    >>=-Still _ get get-Still λ s. if-Still _ _ s.hdcp (emit-Still hdcp_shutdown) finish_stop2-Still

release_playback_session-Still : Still release_playback_session
unfolding release_playback_session Still Tame
release_playback_session-Still w = ground arith

release_client_session-Still : Still release_client_session
unfolding release_client_session Still Tame
release_client_session-Still w = ground arith

pub disconnect_client2-Still : Still disconnect_client2
unfolding disconnect_client2
disconnect_client2-Still = >>=-Still _ release_playback_session release_playback_session-Still λ _.
    >>=-Still _ release_client_session release_client_session-Still λ _.
      >>=-Still _ (tell_client display_disconnected) (tell_client-Still display_disconnected)
        λ _. finish_stop_after-Still

disconnect_client_async-Still : Still disconnect_client_async
unfolding disconnect_client_async
disconnect_client_async-Still = >>=-Still _ get get-Still λ s.
    if-Still _ _ s.playback_session (emit-Still (called destroy_async)) disconnect_client2-Still

pub finish_stop-Still : Still finish_stop
unfolding finish_stop
finish_stop-Still =
    >>=-Still _ (set_state stopping) (set_state-Still stopping) λ _. disconnect_client_async-Still

module _ (o : Outside) where
  pub schedule_reaper-Still : Still (schedule_reaper o)
  unfolding schedule_reaper Still Tame
  schedule_reaper-Still w = ground arith

  pub schedule_keep_alive-Still : (session : ℕ) → Still (schedule_keep_alive o session)
  unfolding schedule_keep_alive Still Tame
  schedule_keep_alive-Still session =
      >>=-Still _ (check (ltb 5000000 o.playback_session_timeout_us))
        (check-Still World (ltb 5000000 o.playback_session_timeout_us)) λ _. λ w. (refl, refl)

  pub send_m1-Tame : (session : ℕ) → Tame (send_m1 o session)
  unfolding send_m1
  send_m1-Tame session = >>=-Tame _ get get-Still λ s. send_expecting-Tame session _ m1

  pub send_m3-Tame : (session : ℕ) → Tame (send_m3 o session)
  unfolding send_m3
  send_m3-Tame session = >>=-Tame _ get get-Still λ s. send_expecting-Tame session _ m3

  pub send_m4-Tame : (session : ℕ) → Tame (send_m4 o session)
  unfolding send_m4
  send_m4-Tame session = >>=-Tame _ get get-Still λ s.
      >>=-Tame _ (check (session == s.client_session_id))
        (check-Still World (session == s.client_session_id)) λ _. send_expecting-Tame session _ m4

  pub send_trigger-Tame : (session : ℕ) (trigger : Trigger) → Tame (send_trigger o session trigger)
  unfolding send_trigger
  send_trigger-Tame session trigger = >>=-Tame _ get get-Still λ s. send_expecting-Tame session _ m5

  pub send_m16-Tame : (session : ℕ) → Tame (send_m16 o session)
  unfolding send_m16
  send_m16-Tame session = >>=-Tame _ get get-Still λ s.
      >>=-Tame _ (check (session == s.client_session_id))
        (check-Still World (session == s.client_session_id)) λ _. send_expecting-Tame session _ m16

  pub send_error_response-Still :
      (session : ℕ) (detail : Bytes) (cseq : ℤ) → Still (send_error_response o session detail cseq)
  unfolding send_error_response send_request Still Tame
  send_error_response-Still session detail cseq w = (refl, refl)
