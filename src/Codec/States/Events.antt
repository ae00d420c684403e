-- ===== src/Codec/States/Events.antt =====
-- frameworks/av/media/libstagefright/ACodec.cpp: onOMXEvent of the states. `enter_executing` is
-- what entering ExecutingState does: it delivers the messages that were deferred.
use how_to_miracast_on_aosp.Prelude.{Bool, true, false, not, ◌&&◌, if◌then◌else◌}
use how_to_miracast_on_aosp.Rtsp.Machine.{◌>>=◌, ◌>>◌, return, check}
use how_to_miracast_on_aosp.Codec.{
  input, output, state_loaded, state_idle, state_executing, state_set, flush_completed,
  idle_to_executing, executing, PortArg, one_port, all_ports, state_set_done, flush_done,
  port_disabled, port_enabled, OmxEvent, cmd_complete, port_settings_changed, buffer_flag,
  later_settings, M, get, modify, fail, emit,
}
use how_to_miracast_on_aosp.Codec.Outside.{Outside}
use how_to_miracast_on_aosp.Codec.Buffers.{all_your_buffers_are_belong_to_us}
use how_to_miracast_on_aosp.Codec.Base.{base_event}
use how_to_miracast_on_aosp.Codec.States.{
  enter, defer, command, enter_loaded, submit_output_buffers, resume_now, leave_idle_if_home,
  reallocate_outputs, port_settings,
}

module _ (o : Outside) where
  unfoldable pub loaded_to_idle_event : OmxEvent → M Bool
  unfolding command base_event
  loaded_to_idle_event (cmd_complete (state_set_done state_idle)) = do
    command o (state_set state_executing)
    enter idle_to_executing
    return true
  loaded_to_idle_event (cmd_complete _) = fail
  loaded_to_idle_event e = base_event o e

  unfoldable pub executing_event : OmxEvent → M Bool
  unfolding port_settings base_event
  executing_event (port_settings_changed (one_port output) setting) =
      port_settings o setting >> return true
  executing_event (port_settings_changed _ _) = fail
  executing_event buffer_flag = return true
  executing_event e = base_event o e

  unfoldable pub executing_to_idle_event : OmxEvent → M Bool
  unfolding leave_idle_if_home base_event
  executing_to_idle_event (cmd_complete (state_set_done state_idle)) = do
    modify λ s. record s { now_idle = true }
    leave_idle_if_home o
    return true
  executing_to_idle_event (cmd_complete _) = fail
  executing_to_idle_event (port_settings_changed _ _) = return true
  executing_to_idle_event buffer_flag = return true
  executing_to_idle_event e = base_event o e

  unfoldable pub idle_to_loaded_event : OmxEvent → M Bool
  unfolding enter_loaded base_event
  idle_to_loaded_event (cmd_complete (state_set_done state_loaded)) = enter_loaded o >> return true
  idle_to_loaded_event (cmd_complete _) = fail
  idle_to_loaded_event e = base_event o e

  module _ (enter_executing : M (Unit {0})) where
    unfoldable pub to_executing : M (Unit {0})
    to_executing = enter executing >> enter_executing

    unfoldable pub idle_to_executing_event : OmxEvent → M Bool
    unfolding resume_now to_executing base_event
    idle_to_executing_event (cmd_complete (state_set_done state_executing)) = do
      resume_now o
      to_executing
      return true
    idle_to_executing_event (cmd_complete _) = fail
    idle_to_executing_event e = base_event o e

    unfoldable pub port_reenabled : M (Unit {0})
    unfolding submit_output_buffers to_executing
    port_reenabled = do
      modify λ s. record s { sent_format = false }
      s ← get
      (if s.active then submit_output_buffers o else return tt)
      to_executing

    -- An error of the component is not told in this state.
    unfoldable pub port_changed_event : OmxEvent → M Bool
    unfolding reallocate_outputs port_reenabled
    port_changed_event (cmd_complete (port_disabled (one_port output))) =
        reallocate_outputs o >> return true
    port_changed_event (cmd_complete (port_enabled (one_port output))) =
        port_reenabled >> return true
    port_changed_event (cmd_complete (port_disabled _)) = fail
    port_changed_event (cmd_complete (port_enabled _)) = fail
    port_changed_event _ = return false

    -- `FlushingState::changeStateIfWeOwnAllBuffers`
    unfoldable pub leave_flush_if_home : M (Unit {0})
    unfolding all_your_buffers_are_belong_to_us to_executing
    leave_flush_if_home = do
      s ← get
      if s.input_flushed && (s.output_flushed && all_your_buffers_are_belong_to_us s)
          then (do
            emit flush_completed
            modify λ s. record s { input_eos = false; output_eos = false; input_eos_result = 0 }
            to_executing)
          else return tt

    unfoldable pub mark_flushed : PortArg → M (Unit {0})
    mark_flushed (one_port input) = do
      s ← get
      check (not s.input_flushed)
      modify λ s. record s { input_flushed = true }
    mark_flushed (one_port output) = do
      s ← get
      check (not s.output_flushed)
      modify λ s. record s { output_flushed = true }
    mark_flushed all_ports = do s ← get; check s.input_flushed; check s.output_flushed
    mark_flushed _ = fail

    unfoldable pub flushing_event : OmxEvent → M Bool
    unfolding mark_flushed leave_flush_if_home base_event
    flushing_event (cmd_complete (flush_done p)) = do
      mark_flushed p
      leave_flush_if_home
      return true
    flushing_event (cmd_complete _) = fail
    flushing_event (port_settings_changed p setting) = do
      s ← get
      defer (later_settings s.node p setting)
      return true
    flushing_event e = base_event o e
