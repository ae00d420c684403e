-- ===== src/Source/States.antt =====
-- source/WifiDisplaySource.cpp: an abstract machine for `mState`, what the state says of the client
-- and the playback session, and the frame in which the handlers keep both.
pub mod Receive
pub mod Requests
pub mod Client
pub mod Machine
use how_to_miracast_on_aosp.Prelude.{
  ℕ, ◌≡◌, ◌<◌, refl, sym, Bool, true, false, not, ◌&&◌, ◌||◌, ◌==◌, arith, ◌∙◌,
}
use how_to_miracast_on_aosp.Prelude.Int.{ℤ, minus_one, eqb_ℤ}
use how_to_miracast_on_aosp.Rtsp.Frame.{Frame, Still}
use how_to_miracast_on_aosp.Source.{
  State, initialized, awaiting_client_connection, awaiting_client_setup, awaiting_client_play,
  about_to_play, playing, playing_to_paused, paused, paused_to_playing, awaiting_client_teardown,
  stopping, stopped, same_state, Source, World,
}

-- The way of a session from its start on.
unfoldable pub next : State → State → Bool
next initialized awaiting_client_connection = true
next awaiting_client_connection awaiting_client_setup = true
next awaiting_client_setup awaiting_client_play = true
next awaiting_client_play about_to_play = true
next about_to_play playing = true
next playing playing_to_paused = true
next playing_to_paused paused = true
next paused paused_to_playing = true
next paused_to_playing playing = true
next _ _ = false

-- The states of its end.
unfoldable pub ending : State → Bool
ending awaiting_client_teardown = true
ending stopping = true
ending stopped = true
ending _ = false

abbrev pub allowed : State → State → Bool
allowed s t = same_state s t || next s t || ending t

abbrev pub early : State → Bool
early s = same_state s initialized || same_state s awaiting_client_connection

-- A client without a playback session is waited on for SETUP, a playback session has a number, and
-- there is none before a client connects.
unfoldable pub consistent : State → ℕ → ℤ → Bool → Bool
unfolding same_state
consistent state client number session =
    (client == 0 || not (eqb_ℤ number minus_one) || same_state state awaiting_client_setup)
    && (not session || not (eqb_ℤ number minus_one))
    && (not (early state) || not session)

abbrev pub Consistent : Source → Type 0
Consistent s =
    consistent s.state s.client_session_id s.playback_session_id s.playback_session ≡ true

abbrev pub SameView : World → World → Type 0
SameView v w =
    (w.source.state ≡ v.source.state)
    × (w.source.client_session_id ≡ v.source.client_session_id)
    × (w.source.playback_session_id ≡ v.source.playback_session_id)
    × (w.source.playback_session ≡ v.source.playback_session)

abbrev pub Follows : World → World → Type 0
Follows v w =
    Consistent v.source → Consistent w.source × (allowed v.source.state w.source.state ≡ true)

same_state_refl : (s : State) → same_state s s ≡ true
unfolding same_state
same_state_refl s = ground arith

pub SameView-Follows : (v w : World) → SameView v w → Follows v w
SameView-Follows v w (e, f, g, h) ok =
    (rw (e, f, g, h) ok, rw (e, same_state_refl v.source.state) refl)

pub Follows-after : (u v w : World) → SameView u v → Follows v w → Follows u w
Follows-after u v w (e, f, g, h) k ok =
    let (ok', moved) = k (rw (e, f, g, h) ok) in (ok', rw (sym e) moved)

pub Follows-before : (u v w : World) → Follows u v → SameView v w → Follows u w
Follows-before u v w k (e, f, g, h) ok =
    let (ok', moved) = k ok in (rw (e, f, g, h) ok', rw e moved)

instance abbrev pub state_frame : Frame World
state_frame = record {
  Same = SameView;
  Extends = Follows;
  same_refl = λ w. (refl, refl, refl, refl);
  same_trans = λ u v w h k. (k.0 ∙ h.0, k.1 ∙ h.1, k.2 ∙ h.2, k.3 ∙ h.3);
  quiet = SameView-Follows;
  before = Follows-after;
  after = Follows-before;
}
