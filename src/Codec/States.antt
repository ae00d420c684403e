-- ===== src/Codec/States.antt =====
-- frameworks/av/media/libstagefright/ACodec.cpp: what the states do on being entered and when a
-- buffer comes back, and the longer steps of their handlers.
pub mod Events
use how_to_miracast_on_aosp.Prelude.{
  ℕ, zero, suc, ◌+◌, Bool, true, false, not, ◌&&◌, List, [], ◌∷◌, ◌++◌, Option, none, some, ◌==◌,
  ltb, length, if◌then◌else◌,
}
use how_to_miracast_on_aosp.Rtsp.Machine.{◌>>=◌, ◌>>◌, return, check}
use how_to_miracast_on_aosp.Codec.{
  Port, input, output, us, native_window, same_owner, state_loaded, state_idle, state_executing,
  Command, state_set, port_disable, port_enable, send_command, component_allocated,
  component_configured, flush_completed, shutdown_completed, node_freed, blank_buffers, Phase,
  uninitialized, loaded, loaded_to_idle, idle_to_executing, executing, output_port_settings_changed,
  executing_to_idle, idle_to_loaded, flushing, PortArg, one_port, all_ports, state_set_done,
  flush_done, port_disabled, port_enabled, Setting, port_definition, output_crop, other_setting,
  OmxEvent, cmd_complete, port_settings_changed, buffer_flag, Deferred, later_settings, Codec, M,
  get, modify, fail, emit, buffers, buffer_at, pass, fill_buffer, signal_error, error_undefined,
  error_component_not_found, unknown_error,
}
use how_to_miracast_on_aosp.Codec.Outside.{Outside}
use how_to_miracast_on_aosp.Codec.Blank.{push_blank_buffers}
use how_to_miracast_on_aosp.Codec.Buffers.{
  at_home, clear_dealer, free_buffers_on_port, free_output_buffers_not_owned_by_component,
  all_your_buffers_are_belong_to_us,
}
use how_to_miracast_on_aosp.Codec.Allocate.{allocate_buffers_on_port}
use how_to_miracast_on_aosp.Codec.Base.{post_fill_this_buffer, base_event}

abbrev pub enter : Phase → M (Unit {0})
enter phase = modify λ s. record s { phase = phase }

-- `deferMessage`
abbrev pub defer : Deferred → M (Unit {0})
defer d = modify λ s. record s { deferred = s.deferred ++ d ∷ [] }

abbrev pub is_node : Option ℕ → Bool
is_node none = false
is_node (some n) = true

abbrev pub has_no_buffers : Port → Codec → Bool
has_no_buffers p s = length (buffers p s) == 0

unfoldable pub first_node : List (Option ℕ) → Option ℕ
first_node [] = none
first_node (none ∷ xs) = first_node xs
first_node (some n ∷ xs) = some n

module _ (o : Outside) where
  unfoldable pub command : Command → M (Unit {0})
  command c = check o.command_ok >> emit (send_command c)

  unfoldable pub free_node : M (Unit {0})
  free_node = do
    check o.free_node_ok
    emit node_freed
    modify λ s. record s { native_window = false; node = none; secure = false }
    enter uninitialized

  -- `LoadedState::onShutdown`
  unfoldable pub on_shutdown : Bool → M (Unit {0})
  unfolding free_node
  on_shutdown keep = do (if keep then return tt else free_node); emit shutdown_completed

  -- The change to LoadedState, with what it does on being entered.
  unfoldable pub enter_loaded : M (Unit {0})
  unfolding on_shutdown
  enter_loaded = do
    enter loaded
    s ← get
    if s.shutdown_in_progress
        then (do
          modify λ s. record s { shutdown_in_progress = false; keep_component = false }
          on_shutdown s.keep_component)
        else return tt

  -- `LoadedToIdleState::allocateBuffers`
  unfoldable pub allocate_buffers : M ℕ
  unfolding allocate_buffers_on_port
  allocate_buffers = do
    err ← allocate_buffers_on_port o input
    if err == 0 then allocate_buffers_on_port o output else return err

  unfoldable pub enter_loaded_to_idle : M (Unit {0})
  unfolding allocate_buffers enter_loaded
  enter_loaded_to_idle = do
    enter loaded_to_idle
    err ← allocate_buffers
    if err == 0 then return tt else signal_error error_undefined err >> enter_loaded

  -- `LoadedState::onStart`
  unfoldable pub on_start : M (Unit {0})
  unfolding command enter_loaded_to_idle
  on_start = command (state_set state_idle) >> enter_loaded_to_idle

  unfoldable pub take_window : M (Unit {0})
  take_window = do
    modify λ s. record s { native_window = if o.has_window then true else s.native_window }
    s ← get
    (if s.native_window then check (o.enable_status == 0) else return tt)
    emit component_configured

  -- `LoadedState::onConfigureComponent`; what configureCodec leaves is an argument.
  unfoldable pub on_configure_component : M Bool
  unfolding take_window
  on_configure_component = do
    s ← get
    check (is_node s.node)
    modify λ s. record s {
      is_encoder = o.configured.encoder;
      encoder_delay = o.configured.delay;
      encoder_padding = o.configured.padding;
    }
    if o.configured.status == 0
        then take_window >> return true
        else signal_error error_undefined o.configured.status >> return false

  unfoldable pub take_node : ℕ → M (Unit {0})
  unfolding enter_loaded
  take_node n = do
    modify λ s. record s {
      node = some n;
      secure = o.secure_name;
      input_eos = false;
      output_eos = false;
      input_eos_result = 0;
    }
    emit component_allocated
    enter_loaded

  -- `UninitializedState::onAllocateComponent`
  unfoldable pub on_allocate_component : M Bool
  unfolding first_node take_node
  on_allocate_component = do
    s ← get
    check (not (is_node s.node))
    check o.connected
    elim (first_node o.nodes) [
      | none ↦ signal_error error_component_not_found unknown_error >> return false
      | some n ↦ take_node n >> return true
    ]

  -- `UninitializedState::onSetup`
  unfoldable pub on_setup : M (Unit {0})
  unfolding on_allocate_component on_configure_component on_start
  on_setup = do
    allocated ← on_allocate_component
    if allocated
        then (do configured ← on_configure_component; if configured then on_start else return tt)
        else return tt

  unfoldable pub submit_output_buffer : ℕ → M (Unit {0})
  unfolding buffer_at pass
  submit_output_buffer i = do
    s ← get
    b ← buffer_at output i
    check (if s.native_window then at_home b.status else same_owner b.status us)
    if s.native_window && same_owner b.status native_window
        then return tt
        else check o.fill_ok >> pass output i fill_buffer

  -- `n` rounds of the loop from `i`.
  unfoldable pub submit_from : ℕ → ℕ → M (Unit {0})
  unfolding submit_output_buffer
  submit_from i zero = return tt
  submit_from i (suc n) = submit_output_buffer i >> submit_from (i + 1) n

  unfoldable pub submit_output_buffers : M (Unit {0})
  unfolding submit_from
  submit_output_buffers = do s ← get; submit_from 0 (length s.outputs)

  -- `ExecutingState::resume`
  unfoldable pub resume_now : M (Unit {0})
  unfolding submit_output_buffers post_fill_this_buffer
  resume_now = do
    s ← get
    if s.active then return tt else (do
      submit_output_buffers
      s ← get
      check (ltb 0 (length s.inputs))
      post_fill_this_buffer 0
      modify λ s. record s { active = true })

  unfoldable pub enter_executing_to_idle : M (Unit {0})
  enter_executing_to_idle = do
    enter executing_to_idle
    modify λ s. record s { now_idle = false; sent_format = false }

  unfoldable pub enter_flushing : M (Unit {0})
  enter_flushing = do
    enter flushing
    modify λ s. record s { input_flushed = false; output_flushed = false }

  -- The status of pushBlankBuffersToNativeWindow is not looked at.
  abbrev pub blank_now : M (Unit {0})
  blank_now = emit (blank_buffers (push_blank_buffers o.blank).calls)

  -- `ExecutingToIdleState::changeStateIfWeOwnAllBuffers`
  unfoldable pub leave_idle_if_home : M (Unit {0})
  unfolding command all_your_buffers_are_belong_to_us free_buffers_on_port
  leave_idle_if_home = do
    s ← get
    if s.now_idle && all_your_buffers_are_belong_to_us s
        then (do
          command (state_set state_loaded)
          free_buffers_on_port o input
          free_buffers_on_port o output
          (if s.secure && s.native_window then blank_now else return tt)
          enter idle_to_loaded)
        else return tt

  unfoldable pub reallocate_outputs : M (Unit {0})
  unfolding command allocate_buffers_on_port enter_loaded
  reallocate_outputs = do
    s ← get
    check (has_no_buffers output s)
    modify (clear_dealer output)
    command (port_enable output)
    err ← allocate_buffers_on_port o output
    if err == 0 then return tt else (do
      signal_error error_undefined err
      modify λ s. record s { shutdown_in_progress = true; keep_component = false }
      enter_loaded)

  unfoldable pub port_settings : Setting → M (Unit {0})
  unfolding command free_output_buffers_not_owned_by_component
  port_settings port_definition = do
    command (port_disable output)
    free_output_buffers_not_owned_by_component o
    enter output_port_settings_changed
  port_settings output_crop = modify λ s. record s { sent_format = false }
  port_settings other_setting = return tt
