-- ===== src/Codec/Ledger.antt =====
-- frameworks/av/media/libstagefright/ACodec.cpp: where each buffer is by the calls and messages
-- alone, and what the fields mStatus have to do with it.
pub mod Transfers
pub mod Steps
pub mod Moves
pub mod Buffers
pub mod Base
pub mod Output
pub mod Allocate
pub mod States
pub mod Events
pub mod Messages
pub mod Dispatch
use how_to_miracast_on_aosp.Prelude.{
  ℕ, ◌≡◌, ◌≢◌, Bool, true, false, ◌&&◌, List, [], ◌∷◌, Option, none, some, ◌==◌, if◌then◌else◌,
}
use how_to_miracast_on_aosp.Codec.{
  Port, input, output, Owner, us, component, upstream, downstream, native_window, same_owner,
  Buffer, Transfer, allocated, fill_buffer, empty_buffer_done, fill_buffer_done, fill_this_buffer,
  input_buffer_filled, output_buffer_drained, queue_buffer, cancel_buffer, dequeue_buffer,
  free_buffer, empty_buffer, drain_this_buffer, Event, transfer, Codec, buffers, arrives,
}
use how_to_miracast_on_aosp.Codec.Buffers.{at_home}

abbrev pub same_port : Port → Port → Bool
same_port input input = true
same_port output output = true
same_port _ _ = false

-- Who has a buffer before a transfer of it.
unfoldable pub leaves : Transfer → Owner
leaves empty_buffer_done = component
leaves fill_buffer_done = component
leaves input_buffer_filled = upstream
leaves output_buffer_drained = downstream
leaves dequeue_buffer = native_window
leaves _ = us

-- Whether a transfer may happen to a buffer that is at `holder`, none for nowhere.
unfoldable pub legal : Transfer → Option Owner → Bool
unfolding leaves
legal allocated none = true
legal allocated (some o) = false
legal free_buffer (some o) = at_home o
legal t (some o) = same_owner o (leaves t)
legal t none = false

unfoldable pub whither : Transfer → Option Owner
unfolding arrives
whither free_buffer = none
whither fill_buffer = some component
whither (empty_buffer _ _ _) = some component
whither fill_this_buffer = some upstream
whither (drain_this_buffer _ _) = some downstream
whither queue_buffer = some native_window
whither cancel_buffer = some native_window
whither allocated = some us
whither empty_buffer_done = some us
whither fill_buffer_done = some us
whither input_buffer_filled = some us
whither output_buffer_drained = some us
whither dequeue_buffer = some us

-- Where a buffer is after the events of a log, newest first.
unfoldable pub holder : Port → ℕ → List Event → Option Owner
unfolding whither
holder p k [] = none
holder p k (transfer t q j ∷ es) = if same_port p q && k == j then whither t else holder p k es
holder p k (e ∷ es) = holder p k es

-- Every transfer of the log was of a buffer that was where the transfer takes it from.
unfoldable pub Proper : List Event → Type 0
Proper [] = Unit {0}
Proper (transfer t p k ∷ es) = (legal t (holder p k es) ≡ true) × Proper es
Proper (e ∷ es) = Proper es

unfoldable pub Absent : ℕ → List Buffer → Type 0
Absent k [] = Unit {0}
Absent k (b ∷ bs) = (k ≢ b.id) × Absent k bs

-- The buffers of a port have different ids, and each is where its mStatus says.
unfoldable pub Held : Port → List Buffer → List Event → Type 0
unfolding Absent
Held p [] log = Unit {0}
Held p (b ∷ bs) log = (holder p b.id log ≡ some b.status) × Absent b.id bs × Held p bs log

pub record Custody (s : Codec) : Type 0 where
  pub inputs_held : Held input s.inputs s.log
  pub outputs_held : Held output s.outputs s.log
  pub proper : Proper s.log
