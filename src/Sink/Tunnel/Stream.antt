-- ===== src/Sink/Tunnel/Stream.antt =====
-- sink/TunnelRenderer.cpp, `TunnelRenderer::StreamSource`, which fills the player's buffers, and
-- the renderer's message handler. The listener's calls are recorded as commands. The player itself
-- is not under the repository: only whether it exists is kept.
pub mod Fill
use how_to_miracast_on_aosp.Prelude.{
  ℕ, suc, ◌+◌, ◌%◌, ◌^◌, Bool, true, false, List, [], ◌∷◌, ◌++◌, Option, none, some, ltb, leb, ◌==◌,
  ◌&&◌, if◌then◌else◌, Bytes, length, get_elem?,
}
use how_to_miracast_on_aosp.Prelude.Int.{ℤ, pos, ltb_ℤ, zero_ℤ}
use how_to_miracast_on_aosp.Prelude.Outcome.{Outcome, done, fault, ◌>>=◌}
use how_to_miracast_on_aosp.Sink.Tunnel.{Packet, size, Renderer, queue_buffer, dequeue_buffer}

-- The sizes of `mBuffers`, `mIndicesAvailable` and `mNumDeqeued`.
pub record StreamSource : Type 0 where
  pub buffers : List ℕ
  pub indices_available : List ℕ
  pub num_dequeued : ℕ

-- What the listener is told: a break in the time line, or a buffer that was filled.
pub data Command : Type 0 where
  discontinuity : ℤ → Command
  queue : ℕ → Bytes → Command

abbrev pub set_buffers : StreamSource → List ℕ → StreamSource
set_buffers src sizes = record src { buffers = sizes }

-- The CHECKs before `memcpy`, and `itemAt`.
unfoldable pub fill : List ℕ → ℕ → Packet → Outcome Command
fill buffers index p = elim (get_elem? buffers index) [
  | none ↦ fault
  | some capacity ↦
      if leb (size p) capacity && size p % 188 == 0 then done (queue index p.contents) else fault
]

-- `if (mNumDeqeued == 1)`, behind the increment.
unfoldable pub mark_start : ℕ → ℤ → List Command
mark_start num now = if num == 1 then discontinuity now ∷ [] else []

-- The renderer, `mNumDeqeued`, the indices left, the commands, the sequence numbers asked for
-- again.
abbrev pub Work : Type 0
Work = Renderer × ℕ × List ℕ × List Command × List ℕ

-- The loop of `doSomeWork`. Each round may read the clock twice: in `dequeueBuffer`, and for the
-- time of the first packet.
unfoldable pub do_some_work : (ℕ → ℤ × ℤ) → List ℕ → Renderer → ℕ → List ℕ → Outcome Work
do_some_work times buffers r num [] = done (r, num, [], [], [])
do_some_work times buffers r num (index ∷ rest) =
    let (r', o, asked) = dequeue_buffer r (times 0).0 in
    elim o [
      | none ↦ done (r', num, index ∷ rest, [], asked)
      | some p ↦
          let num' = (num + 1) % 2 ^ 32 in
          do
            command ← fill buffers index p
            (r'', num'', left, commands, asked') ←
                do_some_work (λ k. times (suc k)) buffers r' num' rest
            done (
              r'',
              num'',
              left,
              mark_start num' (times 0).1 ++ command ∷ commands,
              asked ++ asked',
            )
    ]

-- A renderer with its stream source, which `initPlayer` makes, and whether the player exists.
pub record Tunnel : Type 0 where
  pub renderer : Renderer
  pub source : Option StreamSource
  pub has_player : Bool

abbrev pub Told : Type 0
Told = Tunnel × List Command × List ℕ

unfoldable pub work : (ℕ → ℤ × ℤ) → Tunnel → StreamSource → Outcome Told
work times t src = do
  (r, num, left, commands, asked) ←
      do_some_work times src.buffers t.renderer src.num_dequeued src.indices_available
  done (
    record t {
      renderer = r;
      source = some (record src { indices_available = left; num_dequeued = num });
    },
    commands,
    asked,
  )

-- `onBufferAvailable`.
unfoldable pub on_buffer_available : (ℕ → ℤ × ℤ) → Tunnel → StreamSource → ℕ → Outcome Told
on_buffer_available times t src index =
    if ltb index (length src.buffers)
    then work times t (record src { indices_available = src.indices_available ++ index ∷ [] })
    else fault

abbrev pub new_source : StreamSource
new_source = record { buffers = []; indices_available = []; num_dequeued = 0 }

abbrev pub init_player : Tunnel → Tunnel
init_player t = record t { source = some new_source; has_player = true }

-- `onMessageReceived` at kWhatQueueBuffer.
unfoldable pub on_queue_buffer : (ℕ → ℤ × ℤ) → Tunnel → Packet → Outcome Told
on_queue_buffer times t b =
    let t' = record t { renderer = queue_buffer t.renderer b } in
    elim t.source [
      | none ↦
          if ltb_ℤ zero_ℤ t'.renderer.total_bytes_queued
          then done (init_player t', [], [])
          else done (t', [], [])
      | some src ↦ work times t' src
    ]

-- `destroyPlayer`: `mPlayer->stop()` goes through the pointer without a test.
unfoldable pub destroy_player : Tunnel → Outcome Tunnel
destroy_player t =
    if t.has_player then done (record t { source = none; has_player = false }) else fault
