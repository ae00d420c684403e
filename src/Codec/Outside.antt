-- ===== src/Codec/Outside.antt =====
-- frameworks/av/media/libstagefright/ACodec.cpp: what the OMX component, the native window and the
-- lists of codecs answer during one message. Statuses are error numbers, 0 for OK. An answer that
-- the code wants to be OK by a CHECK is a Bool; one that may differ from call to call is a function
-- of the log.
use how_to_miracast_on_aosp.Prelude.{ℕ, Bool, List, Option}
use how_to_miracast_on_aosp.Codec.Blank.{Answers}
use how_to_miracast_on_aosp.Codec.{Port, Event, Crop, VideoFormat, PcmFormat}

-- The answers to `allocateOutputBuffersFromNativeWindow` before the buffers are dequeued.
-- `usage` is the status of getGraphicBufferUsage and whether the usage asks for protected buffers.
pub record WindowSetup : Type 0 where
  pub geometry_status : ℕ
  pub usage_status : ℕ
  pub usage_protected : Bool
  pub composer_status : ℕ
  pub queues_to_composer : ℕ
  pub set_usage_status : ℕ
  pub undequeued_status : ℕ
  pub min_undequeued : ℕ
  pub count_min : ℕ
  pub set_definition_status : ℕ
  pub set_count_status : ℕ

-- OMX_PARAM_PORTDEFINITIONTYPE of the output port, for sendFormatChange.
pub data Domain : Type 0 where
  video_domain : VideoFormat → Option Crop → Domain
  audio_domain : Bool → PcmFormat → Domain
  other_domain : Domain

-- What configureCodec comes to: its status, and the fields as it leaves them.
pub record Configured : Type 0 where
  pub status : ℕ
  pub encoder : Bool
  pub delay : ℕ
  pub padding : ℕ

-- `memory_ok` is whether the memory dealer gives memory. `new_id` is the mBufferID that a call for
-- a new buffer leaves, and `dequeue_error` is one less than the error of a window that has no
-- buffer to dequeue. `acceptable` in `audio_domain` is whether the PCM parameters are those that
-- the code checks for.
pub record Outside : Type 0 where
  pub command_ok : Bool
  pub empty_ok : Bool
  pub fill_ok : Bool
  pub free_ok : Bool
  pub cancel_ok : Bool
  pub free_node_ok : Bool
  pub definition_status : Port → ℕ
  pub buffer_count : Port → ℕ
  pub buffer_size : Port → ℕ
  pub memory_ok : Bool
  pub allocate_status : Port → List Event → ℕ
  pub new_id : Port → List Event → ℕ
  pub window : WindowSetup
  pub dequeued : List Event → Option ℕ
  pub dequeue_error : ℕ
  pub queue_status : ℕ
  pub domain : Option Domain
  pub set_crop_ok : Bool
  pub connected : Bool
  pub nodes : List (Option ℕ)
  pub secure_name : Bool
  pub configured : Configured
  pub has_window : Bool
  pub enable_status : ℕ
  pub blank : Answers
