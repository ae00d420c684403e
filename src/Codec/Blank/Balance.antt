-- ===== src/Codec/Blank/Balance.antt =====
-- frameworks/av/media/libstagefright/ACodec.cpp: what `pushBlankBuffersToNativeWindow` leaves
-- behind.
use how_to_miracast_on_aosp.Prelude.{
  ℕ, suc, ◌+◌, ◌≡◌, ◌≢◌, Bool, true, false, List, [], ◌∷◌, ◌++◌, Option, none, some, if◌then◌else◌,
  ◌⊎◌,
}
use how_to_miracast_on_aosp.Codec.{
  WindowCall, disconnect_media, connect_media, connect_cpu, disconnect_cpu, dequeued, queued,
  cancelled,
}
use how_to_miracast_on_aosp.Codec.Blank.{Answers, Progress, push_connected, Pushed, or_else}

-- The buffers that were dequeued, and those that were given back.
abbrev pub taken : List WindowCall → ℕ
taken [] = 0
taken (dequeued ∷ cs) = suc (taken cs)
taken (c ∷ cs) = taken cs

abbrev pub given_back : List WindowCall → ℕ
given_back [] = 0
given_back (queued ∷ cs) = suc (given_back cs)
given_back (cancelled ∷ cs) = suc (given_back cs)
given_back (c ∷ cs) = given_back cs

abbrev bit : Bool → ℕ
bit true = 1
bit false = 0

-- A pending buffer goes with an error.
pub record Balanced (p : Progress) : Type 0 where
  pub balance : taken p.calls ≡ given_back p.calls + bit p.pending
  pub pending_lem : p.err ≡ 0 → p.pending ≡ false

abbrev pub last_call : List WindowCall → Option WindowCall
last_call [] = none
last_call (c ∷ []) = some c
last_call (c ∷ d ∷ cs) = last_call (d ∷ cs)

-- What is left once the window was connected as a CPU client: every buffer is given back; if no
-- error came up the whole number of them was pushed; the status is that of the first call that
-- failed; and the last call asks for the media API again, unless all were pushed and the CPU client
-- cannot be disconnected. With status OK the window is connected for media.
pub record Restored (a : Answers) (p : Pushed) : Type 0 where
  pub all_given_back : taken p.calls ≡ given_back p.calls
  pub all_pushed : (push_connected a).err ≡ 0 → taken p.calls ≡ a.min_undequeued + 2
  pub first_error :
      p.status
      ≡ or_else (push_connected a).err (or_else a.disconnect_cpu_status a.connect_media_status)
  pub ends_with :
      (last_call p.calls ≡ some connect_media)
      ⊎ (((push_connected a).err ≡ 0) × (a.disconnect_cpu_status ≢ 0))
  pub connected :
      p.status ≡ 0
      → (last_call p.calls ≡ some connect_media)
        × (a.disconnect_cpu_status ≡ 0)
        × (a.connect_media_status ≡ 0)

-- The calls after an error.
abbrev error_calls : List WindowCall → Bool → List WindowCall
error_calls cs pending =
    cs ++ ((if pending then cancelled ∷ [] else []) ++ disconnect_cpu ∷ connect_media ∷ [])

module _ (a : Answers) where
  abbrev work : Progress
  work = push_connected a

-- The three ways in which the call ends.
abbrev pub Ends : Answers → Pushed → Type 0
Ends a p =
    (p ≡ record { calls = disconnect_media ∷ []; status = a.disconnect_media_status })
    ⊎ ((p ≡ record { calls = disconnect_media ∷ connect_cpu ∷ []; status = a.connect_cpu_status })
        ⊎ Restored a p)
