-- ===== src/Codec/Base.antt =====
-- frameworks/av/media/libstagefright/ACodec.cpp: the handlers of BaseState, which the states share.
use how_to_miracast_on_aosp.Prelude.{
  ℕ, ◌+◌, Bool, true, false, not, ◌&&◌, List, [], ◌∷◌, Option, none, some, ◌==◌, leb, if◌then◌else◌,
}
use how_to_miracast_on_aosp.Prelude.Int.{ℤ, pos}
use how_to_miracast_on_aosp.Rtsp.Machine.{◌>>=◌, ◌>>◌, return, check}
use how_to_miracast_on_aosp.Codec.{
  Port, input, output, us, component, upstream, downstream, native_window, same_owner, Buffer,
  fill_buffer, empty_buffer_done, fill_buffer_done, fill_this_buffer, input_buffer_filled,
  output_buffer_drained, queue_buffer, empty_buffer, drain_this_buffer, release_media, skip_cut,
  eos_signalled, Filled, FillDone, flush_done, all_ports, OmxEvent, cmd_complete, error_event,
  OmxMessage, event, empty_done, fill_done, unknown_message, Message, input_filled, output_drained,
  omx, M, get, modify, fail, emit, read, buffer_at, pass, signal_error, error_undefined,
  unknown_error,
}
use how_to_miracast_on_aosp.Codec.Outside.{Outside}
use how_to_miracast_on_aosp.Codec.Buffers.{
  find_buffer_by_id, dequeue_buffer_from_native_window, free_buffer_at,
}
use how_to_miracast_on_aosp.Codec.Format.{send_format_change}

-- `PortMode`
pub data Mode : Type 0 where
  keep_buffers resubmit_buffers free_buffers : Mode

-- What a state overrides: getPortMode, onOMXEvent, and what follows the handlers of the two
-- messages from the client.
pub record Methods : Type 0 where
  pub mode : Port → Mode
  pub on_event : OmxEvent → M Bool
  pub after_client : M (Unit {0})

abbrev pub error_end_of_stream : ℕ
error_end_of_stream = 1011

abbrev pub same_node : Option ℕ → Option ℕ → Bool
same_node none none = true
same_node (some a) (some b) = a == b
same_node _ _ = false

unfoldable pub post_fill_this_buffer : ℕ → M (Unit {0})
unfolding buffer_at pass
post_fill_this_buffer i = do
  s ← get
  if s.input_eos
      then return tt
      else (do b ← buffer_at input i; check (same_owner b.status us); pass input i fill_this_buffer)

-- `eligible`: the last buffer that is ours, counted from `i`.
unfoldable pub last_ours : ℕ → List Buffer → Option ℕ
last_ours i [] = none
last_ours i (b ∷ bs) = elim (last_ours (i + 1) bs) [
  | some j ↦ some j
  | none ↦ if same_owner b.status us then some i else none
]

unfoldable pub get_more_input_data_if_possible : M (Unit {0})
unfolding last_ours post_fill_this_buffer
get_more_input_data_if_possible = do
  s ← get
  if s.input_eos
      then return tt
      else elim (last_ours 0 s.inputs) [ none ↦ return tt | some i ↦ post_fill_this_buffer i ]

-- The end of stream on the input port.
abbrev pub input_ends : ℕ → M (Unit {0})
input_ends err = modify λ s. record s { input_eos = true; input_eos_result = err }

abbrev pub filled_eos : Option Filled → Bool
filled_eos none = true
filled_eos (some f) = f.eos

abbrev pub filled_err : Option Filled → ℕ → ℕ
filled_err none err = err
filled_err (some f) err = if f.eos then error_end_of_stream else 0

module _ (o : Outside) where
  unfoldable pub empty_with : ℕ → Filled → ℤ → M (Unit {0})
  unfolding buffer_at pass get_more_input_data_if_possible
  empty_with i f time = do
    b ← buffer_at input i
    check (if f.own then true else leb f.size b.capacity)
    check o.empty_ok
    pass input i (
        empty_buffer f.size (record { end_of_frame = true; codec_config = f.csd; eos = f.eos })
          time)
    if f.eos then input_ends error_end_of_stream else get_more_input_data_if_possible

  unfoldable pub empty_at_end : ℕ → ℕ → M (Unit {0})
  unfolding pass
  empty_at_end i err = do
    check o.empty_ok
    pass input i
        (empty_buffer 0 (record { end_of_frame = false; codec_config = false; eos = true }) (pos 0))
    input_ends err

  unfoldable pub resubmit_input : ℕ → Option Filled → ℕ → M (Unit {0})
  unfolding empty_with empty_at_end
  resubmit_input i none err = do s ← get; if s.input_eos then return tt else empty_at_end i err
  resubmit_input i (some f) err = do
    s ← get
    if s.input_eos then return tt else (do time ← read f.time; empty_with i f time)

  unfoldable pub after_filled : Mode → ℕ → Option Filled → ℕ → M (Unit {0})
  unfolding resubmit_input
  after_filled keep_buffers i f err = do
    s ← get
    if filled_eos f && not s.input_eos then input_ends (filled_err f err) else return tt
  after_filled resubmit_buffers i f err = resubmit_input i f err
  after_filled free_buffers i f err = return tt

  unfoldable pub on_input_buffer_filled : Mode → ℕ → Option Filled → ℕ → M (Unit {0})
  unfolding find_buffer_by_id buffer_at pass after_filled
  on_input_buffer_filled mode k f err = do
    i ← find_buffer_by_id input k
    b ← buffer_at input i
    check (same_owner b.status upstream)
    pass input i input_buffer_filled
    after_filled mode i f err

  unfoldable pub after_emptied : Mode → ℕ → M (Unit {0})
  unfolding post_fill_this_buffer
  after_emptied keep_buffers i = return tt
  after_emptied resubmit_buffers i = post_fill_this_buffer i
  after_emptied free_buffers i = fail

  unfoldable pub on_omx_empty_buffer_done : Mode → ℕ → Bool → M (Unit {0})
  unfolding find_buffer_by_id buffer_at pass after_emptied
  on_omx_empty_buffer_done mode k media = do
    i ← find_buffer_by_id input k
    b ← buffer_at input i
    check (same_owner b.status component)
    pass input i empty_buffer_done
    (if media then emit (release_media k) else return tt)
    after_emptied mode i

  unfoldable pub fill : ℕ → M (Unit {0})
  unfolding pass
  fill i = check o.fill_ok >> pass output i fill_buffer

  unfoldable pub before_drain : ℕ → M (Unit {0})
  unfolding send_format_change
  before_drain k = do
    s ← get
    (if not s.is_encoder && not s.sent_format then send_format_change o else return tt)
    s ← get
    if s.skip_cut then emit (skip_cut k) else return tt

  unfoldable pub drain : ℕ → ℕ → FillDone → M (Unit {0})
  unfolding before_drain pass
  drain i k d = do
    before_drain k
    pass output i (drain_this_buffer d.flags d.time)
    if d.eos
        then (do
          s ← get
          emit (eos_signalled s.input_eos_result)
          modify λ s. record s { output_eos = true })
        else return tt

  unfoldable pub after_fill_done : Mode → ℕ → ℕ → FillDone → M (Unit {0})
  unfolding fill drain free_buffer_at
  after_fill_done keep_buffers i k d = return tt
  after_fill_done resubmit_buffers i k d =
      if d.range_length == 0 && not d.eos then fill i else drain i k d
  after_fill_done free_buffers i k d = free_buffer_at o output i

  unfoldable pub on_omx_fill_buffer_done : Mode → ℕ → FillDone → M (Unit {0})
  unfolding find_buffer_by_id buffer_at pass after_fill_done
  on_omx_fill_buffer_done mode k d = do
    i ← find_buffer_by_id output k
    b ← buffer_at output i
    check (same_owner b.status component)
    pass output i fill_buffer_done
    after_fill_done mode i k d

  unfoldable pub render : ℕ → M (Unit {0})
  unfolding pass
  render i =
      if o.queue_status == 0
      then pass output i queue_buffer
      else signal_error error_undefined o.queue_status

  -- The spare buffer where the window has the one that was drained.
  unfoldable pub next_to_fill : ℕ → M (Option ℕ)
  unfolding buffer_at dequeue_buffer_from_native_window
  next_to_fill i = do
    b ← buffer_at output i
    if same_owner b.status native_window
        then dequeue_buffer_from_native_window o
        else return (some i)

  unfoldable pub fill_option : Option ℕ → M (Unit {0})
  unfolding fill
  fill_option none = return tt
  fill_option (some j) = fill j

  unfoldable pub after_drained : Mode → ℕ → M (Unit {0})
  unfolding next_to_fill fill_option free_buffer_at
  after_drained keep_buffers i = next_to_fill i >> return tt
  after_drained resubmit_buffers i = do
    s ← get
    if s.output_eos then return tt else next_to_fill i >>= fill_option
  after_drained free_buffers i = free_buffer_at o output i

  unfoldable pub on_output_buffer_drained : Mode → ℕ → Bool → M (Unit {0})
  unfolding find_buffer_by_id buffer_at pass render after_drained
  on_output_buffer_drained mode k wants_render = do
    i ← find_buffer_by_id output k
    b ← buffer_at output i
    check (same_owner b.status downstream)
    pass output i output_buffer_drained
    s ← get
    (if s.native_window && wants_render then render i else return tt)
    after_drained mode i

  -- `BaseState::onOMXEvent`
  unfoldable pub base_event : OmxEvent → M Bool
  base_event (error_event e) = signal_error e unknown_error >> return true
  base_event _ = return false

  module _ (methods : Methods) where
    -- A flush that is complete on all ports is dropped before the state sees it.
    unfoldable pub on_event_message : OmxEvent → M Bool
    on_event_message (cmd_complete (flush_done all_ports)) = return true
    on_event_message e = methods.on_event e

    unfoldable pub on_omx_message : OmxMessage → M Bool
    unfolding on_event_message on_omx_empty_buffer_done on_omx_fill_buffer_done
    on_omx_message (event e) = on_event_message e
    on_omx_message (empty_done k media) =
        on_omx_empty_buffer_done (methods.mode input) k media >> return true
    on_omx_message (fill_done k d) =
        on_omx_fill_buffer_done (methods.mode output) k d >> return true
    on_omx_message unknown_message = fail

    -- `BaseState::onMessageReceived`
    unfoldable pub base_message : Message → M Bool
    unfolding on_input_buffer_filled on_output_buffer_drained on_omx_message
    base_message (input_filled k f err) = do
      on_input_buffer_filled (methods.mode input) k f err
      methods.after_client
      return true
    base_message (output_drained k wants_render) = do
      on_output_buffer_drained (methods.mode output) k wants_render
      methods.after_client
      return true
    base_message (omx node m) = do s ← get; check (same_node node s.node); on_omx_message m
    base_message _ = return false
