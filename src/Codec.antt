-- ===== src/Codec.antt =====
-- frameworks/av/media/libstagefright/ACodec.cpp: the codec that runs an OMX component, its state
-- and its buffers. The component, the native window and the client stand outside: what they answer
-- during one message is an argument, and the calls and notifications they get are recorded in
-- `log`, newest first, with the messages about buffers that arrive.
pub mod Outside
pub mod Blank
pub mod Buffers
pub mod Allocate
pub mod Format
pub mod Base
pub mod States
pub mod Dispatch
pub mod Ledger
pub mod Nesting
pub mod Shutdown
use how_to_miracast_on_aosp.Prelude.{
  ℕ, zero, suc, ◌+◌, Bool, true, false, ◌&&◌, List, [], ◌∷◌, Option, none, some, ◌==◌, get_elem?,
  set, if◌then◌else◌,
}
use how_to_miracast_on_aosp.Prelude.Int.{ℤ}
use how_to_miracast_on_aosp.Prelude.Outcome.{done, fault}
use how_to_miracast_on_aosp.Rtsp.Machine.{Run, ◌>>=◌, ◌>>◌, return}

-- `kPortIndexInput` and `kPortIndexOutput`
pub data Port : Type 0 where
  input output : Port

-- `BufferInfo::mStatus`
pub data Owner : Type 0 where
  us component upstream downstream native_window : Owner

abbrev pub owner_number : Owner → ℕ
owner_number us = 0
owner_number component = 1
owner_number upstream = 2
owner_number downstream = 3
owner_number native_window = 4

abbrev pub same_owner : Owner → Owner → Bool
same_owner a b = owner_number a == owner_number b

-- `BufferInfo`; `graphic` is the handle of mGraphicBuffer, 0 for none.
pub record Buffer : Type 0 where
  pub id : ℕ
  pub status : Owner
  pub capacity : ℕ
  pub graphic : ℕ

-- The flags of emptyBuffer.
pub record Flags : Type 0 where
  pub end_of_frame : Bool
  pub codec_config : Bool
  pub eos : Bool

-- What is done to one buffer: a call, a notification with the buffer, or a message that brings it.
pub data Transfer : Type 0 where
  allocated fill_buffer empty_buffer_done fill_buffer_done : Transfer
  fill_this_buffer input_buffer_filled output_buffer_drained : Transfer
  queue_buffer cancel_buffer dequeue_buffer free_buffer : Transfer
  empty_buffer : ℕ → Flags → ℤ → Transfer
  drain_this_buffer : ℕ → ℤ → Transfer

-- OMX_STATETYPE, as far as the code tells the states apart.
pub data OmxState : Type 0 where
  state_loaded state_idle state_executing state_other : OmxState

pub data Command : Type 0 where
  state_set : OmxState → Command
  flush_all : Command
  port_disable port_enable : Port → Command

-- The rectangle of OMX_IndexConfigCommonOutputCrop.
pub record Crop : Type 0 where
  pub left : ℤ
  pub top : ℤ
  pub width : ℕ
  pub height : ℕ

pub record VideoFormat : Type 0 where
  pub width : ℕ
  pub height : ℕ
  pub stride : ℕ
  pub slice_height : ℕ
  pub color_format : ℕ

pub record PcmFormat : Type 0 where
  pub channels : ℕ
  pub rate : ℕ

-- The calls of pushBlankBuffersToNativeWindow that matter to others: which API the window is
-- connected to, and the buffers that are dequeued, queued and cancelled.
pub data WindowCall : Type 0 where
  disconnect_media connect_media connect_cpu disconnect_cpu : WindowCall
  dequeued queued cancelled : WindowCall

-- The other calls and notifications.
pub data Event : Type 0 where
  transfer : Transfer → Port → ℕ → Event
  send_command : Command → Event
  buffers_allocated : Port → List ℕ → Event
  video_format : VideoFormat → ℕ → ℕ → ℕ → ℕ → Event
  audio_format : PcmFormat → Event
  release_media : ℕ → Event
  skip_cut : ℕ → Event
  eos_signalled : ℕ → Event
  error_signalled : ℕ → ℕ → Event
  request_idr : Event
  component_allocated component_configured flush_completed shutdown_completed node_freed : Event
  blank_buffers : List WindowCall → Event

pub data Phase : Type 0 where
  uninitialized loaded loaded_to_idle idle_to_executing executing : Phase
  output_port_settings_changed executing_to_idle idle_to_loaded flushing : Phase

-- The buffer of kWhatInputBufferFilled. `own` is whether it is the one the codec handed out.
pub record Filled : Type 0 where
  pub size : ℕ
  pub time : Option ℤ
  pub eos : Bool
  pub csd : Bool
  pub own : Bool

-- A port index in an event, and what an event is about.
pub data PortArg : Type 0 where
  one_port : Port → PortArg
  all_ports other_port : PortArg

pub data Complete : Type 0 where
  state_set_done : OmxState → Complete
  flush_done port_disabled port_enabled : PortArg → Complete
  other_done : Complete

pub data Setting : Type 0 where
  port_definition output_crop other_setting : Setting

pub data OmxEvent : Type 0 where
  cmd_complete : Complete → OmxEvent
  port_settings_changed : PortArg → Setting → OmxEvent
  error_event : ℕ → OmxEvent
  buffer_flag other_event : OmxEvent

pub record FillDone : Type 0 where
  pub range_length : ℕ
  pub flags : ℕ
  pub eos : Bool
  pub time : ℤ

-- `omx_message`; `media` is whether the buffer's meta data hold a media buffer.
pub data OmxMessage : Type 0 where
  event : OmxEvent → OmxMessage
  empty_done : ℕ → Bool → OmxMessage
  fill_done : ℕ → FillDone → OmxMessage
  unknown_message : OmxMessage

-- The messages, by `what`; that of kWhatInputBufferFilled has an error in place of a buffer.
pub data Message : Type 0 where
  setup allocate_component configure_component start flush resume request_idr_frame : Message
  shutdown : Bool → Message
  input_filled : ℕ → Option Filled → ℕ → Message
  output_drained : ℕ → Bool → Message
  omx : Option ℕ → OmxMessage → Message

-- The messages that the code defers, by the calls of deferMessage.
pub data Deferred : Type 0 where
  later_flush later_resume : Deferred
  later_shutdown : Bool → Deferred
  later_settings : Option ℕ → PortArg → Setting → Deferred

unfoldable pub as_message : Deferred → Message
as_message later_flush = flush
as_message later_resume = resume
as_message (later_shutdown keep) = shutdown keep
as_message (later_settings node p setting) = omx node (event (port_settings_changed p setting))

-- `active`, `now_idle` and `input_flushed`, `output_flushed` are mActive, mComponentNowIdle and
-- mFlushComplete of the state objects.
pub record Codec : Type 0 where
  pub phase : Phase
  pub node : Option ℕ
  pub secure : Bool
  pub native_window : Bool
  pub inputs : List Buffer
  pub outputs : List Buffer
  pub input_dealer : Bool
  pub output_dealer : Bool
  pub is_encoder : Bool
  pub sent_format : Bool
  pub encoder_delay : ℕ
  pub encoder_padding : ℕ
  pub skip_cut : Bool
  pub input_eos : Bool
  pub output_eos : Bool
  pub input_eos_result : ℕ
  pub shutdown_in_progress : Bool
  pub keep_component : Bool
  pub active : Bool
  pub now_idle : Bool
  pub input_flushed : Bool
  pub output_flushed : Bool
  pub deferred : List Deferred
  pub log : List Event

abbrev pub M : Type 0 → Type 0
M A = Run Codec A

abbrev pub get : M Codec
get s = done (s, s)

abbrev pub modify : (Codec → Codec) → M (Unit {0})
modify f s = done (tt, f s)

abbrev pub fail : {A : Type 0} → M A
fail s = fault

abbrev pub emit : Event → M (Unit {0})
emit e = modify λ s. record s { log = e ∷ s.log }

-- `mBuffers[portIndex]`
abbrev pub buffers : Port → Codec → List Buffer
buffers input s = s.inputs
buffers output s = s.outputs

abbrev pub with_buffers : Port → List Buffer → Codec → Codec
with_buffers input bs s = record s { inputs = bs }
with_buffers output bs s = record s { outputs = bs }

abbrev pub read : {A : Type 0} → Option A → M A
read none = fail
read (some x) = return x

-- `mBuffers[portIndex].editItemAt(i)`
unfoldable pub buffer_at : Port → ℕ → M Buffer
buffer_at p i s = read (get_elem? (buffers p s) i) s

-- Where a buffer is after a transfer; one that is freed is removed by itself.
unfoldable pub arrives : Transfer → Owner
arrives fill_buffer = component
arrives (empty_buffer _ _ _) = component
arrives fill_this_buffer = upstream
arrives (drain_this_buffer _ _) = downstream
arrives queue_buffer = native_window
arrives cancel_buffer = native_window
arrives _ = us

-- A transfer and the new mStatus of the buffer at `i`.
unfoldable pub pass : Port → ℕ → Transfer → M (Unit {0})
unfolding buffer_at arrives
pass p i t = do
  b ← buffer_at p i
  emit (transfer t p b.id)
  modify λ s. with_buffers p (set (buffers p s) i (record b { status = arrives t })) s

abbrev pub error_undefined : ℕ
error_undefined = 2147487745

abbrev pub error_component_not_found : ℕ
error_component_not_found = 2147487747

abbrev pub unknown_error : ℕ
unknown_error = 2147483648

abbrev pub signal_error : ℕ → ℕ → M (Unit {0})
signal_error error internal = emit (error_signalled error internal)
