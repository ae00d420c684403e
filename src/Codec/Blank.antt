-- ===== src/Codec/Blank.antt =====
-- frameworks/av/media/libstagefright/ACodec.cpp: `pushBlankBuffersToNativeWindow`.
pub mod Balance
use how_to_miracast_on_aosp.Prelude.{
  ℕ, zero, suc, ◌+◌, Bool, true, false, List, [], ◌∷◌, ◌++◌, ◌==◌, if◌then◌else◌,
}
use how_to_miracast_on_aosp.Codec.{
  WindowCall, disconnect_media, connect_media, connect_cpu, disconnect_cpu, dequeued, queued,
  cancelled,
}

-- The statuses of the calls for one buffer.
pub record Round : Type 0 where
  pub dequeue_status : ℕ
  pub lock_status : ℕ
  pub unlock_status : ℕ
  pub queue_status : ℕ

-- The statuses of the others, in the order of the calls. `min_undequeued` is not negative.
pub record Answers : Type 0 where
  pub disconnect_media_status : ℕ
  pub connect_cpu_status : ℕ
  pub geometry_status : ℕ
  pub usage_status : ℕ
  pub undequeued_status : ℕ
  pub min_undequeued : ℕ
  pub count_status : ℕ
  pub rounds : ℕ → Round
  pub disconnect_cpu_status : ℕ
  pub connect_media_status : ℕ

-- The calls so far, `err`, and whether `anb` is set.
pub record Progress : Type 0 where
  pub calls : List WindowCall
  pub err : ℕ
  pub pending : Bool

-- `status`, or where it is OK what comes next.
abbrev pub or_else : ℕ → ℕ → ℕ
or_else status next = if status == 0 then next else status

-- The calls for a buffer that was dequeued, up to the first that fails.
abbrev pub round_status : Round → ℕ
round_status r = or_else r.lock_status (or_else r.unlock_status r.queue_status)

-- `n` rounds of the loop from `i`.
unfoldable pub push_rounds : (ℕ → Round) → ℕ → ℕ → Progress
push_rounds f i zero = record { calls = []; err = 0; pending = false }
push_rounds f i (suc n) =
    let rest = push_rounds f (i + 1) n in
    if (f i).dequeue_status == 0
    then if round_status (f i) == 0
      then record rest { calls = dequeued ∷ queued ∷ rest.calls }
      else record { calls = dequeued ∷ []; err = round_status (f i); pending = true }
    else record { calls = []; err = (f i).dequeue_status; pending = false }

-- What is done once the window is connected as a CPU client, up to the label `error`.
unfoldable pub push_connected : Answers → Progress
unfolding push_rounds
push_connected a =
    let prepared =
      or_else a.geometry_status
        (or_else a.usage_status (or_else a.undequeued_status a.count_status)) in
    if prepared == 0
    then push_rounds a.rounds 0 (a.min_undequeued + 1 + 1)
    else record { calls = []; err = prepared; pending = false }

pub record Pushed : Type 0 where
  pub calls : List WindowCall
  pub status : ℕ

-- After the label `error`.
unfoldable pub clean_up : Answers → Progress → Pushed
clean_up a p =
    if p.err == 0
    then if a.disconnect_cpu_status == 0
      then record {
        calls = p.calls ++ disconnect_cpu ∷ connect_media ∷ [];
        status = a.connect_media_status;
      }
      else record { calls = p.calls ++ disconnect_cpu ∷ []; status = a.disconnect_cpu_status }
    else record {
      calls =
          p.calls
          ++ ((if p.pending then cancelled ∷ [] else []) ++ disconnect_cpu ∷ connect_media ∷ []);
      status = p.err;
    }

unfoldable pub push_blank_buffers : Answers → Pushed
unfolding push_connected clean_up
push_blank_buffers a =
    if a.disconnect_media_status == 0
    then if a.connect_cpu_status == 0
      then (let pushed = clean_up a (push_connected a) in
          record pushed { calls = disconnect_media ∷ connect_cpu ∷ pushed.calls })
      else record { calls = disconnect_media ∷ connect_cpu ∷ []; status = a.connect_cpu_status }
    else record { calls = disconnect_media ∷ []; status = a.disconnect_media_status }
