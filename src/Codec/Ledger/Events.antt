-- ===== src/Codec/Ledger/Events.antt =====
-- frameworks/av/media/libstagefright/ACodec.cpp: the OMX events keep mStatus and the log together
-- in each state.
pub mod Changes
use how_to_miracast_on_aosp.Prelude.{refl, Bool, true, false, not, ◌&&◌, ◌==◌}
use how_to_miracast_on_aosp.Rtsp.Frame.{
  Still, Tame, Still-Tame, >>=-Still, >>-Still, >>=-Tame, >>-Tame, if-Tame, return-Tame,
  check-Still,
}
use how_to_miracast_on_aosp.Codec.{
  input, output, state_loaded, state_idle, state_executing, state_other, OmxState, state_set,
  port_enable, flush_completed, loaded_to_idle, idle_to_executing, executing, PortArg, one_port,
  all_ports, other_port, state_set_done, flush_done, port_disabled, port_enabled, other_done,
  Complete, OmxEvent, cmd_complete, port_settings_changed, error_event, buffer_flag, other_event,
  Codec, M, get, error_undefined,
}
use how_to_miracast_on_aosp.Codec.Outside.{Outside}
use how_to_miracast_on_aosp.Codec.Buffers.{all_your_buffers_are_belong_to_us}
use how_to_miracast_on_aosp.Codec.States.{
  has_no_buffers, allocate_buffers, enter_loaded_to_idle, on_start, on_setup, reallocate_outputs,
}
use how_to_miracast_on_aosp.Codec.States.Events.{
  loaded_to_idle_event, executing_to_idle_event, idle_to_loaded_event, to_executing,
  idle_to_executing_event, port_reenabled, port_changed_event, leave_flush_if_home, mark_flushed,
  flushing_event,
}
use how_to_miracast_on_aosp.Codec.Ledger.Steps.{
  custody_frame, modify-Still, get-Still, >>=-Kept, >>-Kept,
}
use how_to_miracast_on_aosp.Codec.Ledger.Moves.{emit-Still, silent}
use how_to_miracast_on_aosp.Codec.Ledger.Buffers.{clear_dealer-Still}
use how_to_miracast_on_aosp.Codec.Ledger.Base.{fail-Still}
use how_to_miracast_on_aosp.Codec.Ledger.Output.{signal-Still, then_return, base_event-Tame}
use how_to_miracast_on_aosp.Codec.Ledger.Allocate.{NewIds, allocate-Tame}
use how_to_miracast_on_aosp.Codec.{later_settings}
use how_to_miracast_on_aosp.Codec.Ledger.States.{
  enter-Still, defer-Still, fail-Tame, command-Still, enter_loaded-Still, configure-Still,
  allocate_component-Tame, submit_output_buffers-Tame, resume-Tame, leave_idle-Tame, waiting-Tame,
}

module _ (o : Outside) where
  -- A state that waits for one state of the component and aborts on any other completion.
  pub only_state :
      (f : Complete → M Bool)
      → ((x : OmxState) → Tame (f (state_set_done x)))
      → ((p : PortArg) → Tame (f (flush_done p)))
      → ((p : PortArg) → Tame (f (port_disabled p)))
      → ((p : PortArg) → Tame (f (port_enabled p)))
      → Tame (f other_done)
      → (c : Complete) → Tame (f c)
  only_state f s g d e n (state_set_done x) = s x
  only_state f s g d e n (flush_done p) = g p
  only_state f s g d e n (port_disabled p) = d p
  only_state f s g d e n (port_enabled p) = e p
  only_state f s g d e n other_done = n

  to_idle_complete : (c : Complete) → Tame (loaded_to_idle_event o (cmd_complete c))
  unfolding loaded_to_idle_event
  to_idle_complete =
      only_state (λ c. loaded_to_idle_event o (cmd_complete c))
        (λ x. elim x as (λ x. Tame (loaded_to_idle_event o (cmd_complete (state_set_done x)))) [
          | state_idle ↦
              >>-Tame _ _ (command-Still o (state_set state_executing))
                (then_return _ true (Still-Tame _ (enter-Still idle_to_executing)))
          | state_loaded ↦ fail-Tame Bool
          | state_executing ↦ fail-Tame Bool
          | state_other ↦ fail-Tame Bool
        ])
        (λ p. fail-Tame Bool) (λ p. fail-Tame Bool) (λ p. fail-Tame Bool) (fail-Tame Bool)

  pub loaded_to_idle_event-Tame : (e : OmxEvent) → Tame (loaded_to_idle_event o e)
  unfolding loaded_to_idle_event
  loaded_to_idle_event-Tame =
      waiting-Tame o (loaded_to_idle_event o) to_idle_complete
        (λ p x. base_event-Tame o (port_settings_changed p x))
        (λ e. base_event-Tame o (error_event e)) (base_event-Tame o buffer_flag)
        (base_event-Tame o other_event)

  now_idle_complete : (c : Complete) → Tame (executing_to_idle_event o (cmd_complete c))
  unfolding executing_to_idle_event
  now_idle_complete =
      only_state (λ c. executing_to_idle_event o (cmd_complete c))
        (λ x. elim x as (λ x. Tame (executing_to_idle_event o (cmd_complete (state_set_done x)))) [
          | state_idle ↦
              >>-Tame _ _
                (modify-Still (λ s. record s { now_idle = true }) (λ s. refl) (λ s. refl)
                  (λ s. refl))
                (then_return _ true (leave_idle-Tame o))
          | state_loaded ↦ fail-Tame Bool
          | state_executing ↦ fail-Tame Bool
          | state_other ↦ fail-Tame Bool
        ])
        (λ p. fail-Tame Bool) (λ p. fail-Tame Bool) (λ p. fail-Tame Bool) (fail-Tame Bool)

  pub executing_to_idle_event-Tame : (e : OmxEvent) → Tame (executing_to_idle_event o e)
  unfolding executing_to_idle_event
  executing_to_idle_event-Tame =
      waiting-Tame o (executing_to_idle_event o) now_idle_complete (λ p x. return-Tame Codec true)
        (λ e. base_event-Tame o (error_event e)) (return-Tame Codec true)
        (base_event-Tame o other_event)

  now_loaded_complete : (c : Complete) → Tame (idle_to_loaded_event o (cmd_complete c))
  unfolding idle_to_loaded_event
  now_loaded_complete =
      only_state (λ c. idle_to_loaded_event o (cmd_complete c))
        (λ x. elim x as (λ x. Tame (idle_to_loaded_event o (cmd_complete (state_set_done x)))) [
          | state_loaded ↦ then_return _ true (Still-Tame _ (enter_loaded-Still o))
          | state_idle ↦ fail-Tame Bool
          | state_executing ↦ fail-Tame Bool
          | state_other ↦ fail-Tame Bool
        ])
        (λ p. fail-Tame Bool) (λ p. fail-Tame Bool) (λ p. fail-Tame Bool) (fail-Tame Bool)

  pub idle_to_loaded_event-Tame : (e : OmxEvent) → Tame (idle_to_loaded_event o e)
  unfolding idle_to_loaded_event
  idle_to_loaded_event-Tame =
      waiting-Tame o (idle_to_loaded_event o) now_loaded_complete
        (λ p x. base_event-Tame o (port_settings_changed p x))
        (λ e. base_event-Tame o (error_event e)) (base_event-Tame o buffer_flag)
        (base_event-Tame o other_event)
