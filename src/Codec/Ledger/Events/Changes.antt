-- ===== src/Codec/Ledger/Events/Changes.antt =====
-- frameworks/av/media/libstagefright/ACodec.cpp: the changes of state that OMX events make keep
-- mStatus and the log together.
use how_to_miracast_on_aosp.Prelude.{refl, Bool, true, false, not, ◌&&◌, ◌==◌}
use how_to_miracast_on_aosp.Rtsp.Frame.{
  Still, Tame, Still-Tame, >>=-Still, >>-Still, >>=-Tame, >>-Tame, if-Tame, return-Tame,
  check-Still,
}
use how_to_miracast_on_aosp.Codec.{
  input, output, state_loaded, state_idle, state_executing, state_other, state_set, port_enable,
  flush_completed, loaded_to_idle, executing, PortArg, one_port, all_ports, other_port,
  state_set_done, flush_done, port_disabled, port_enabled, other_done, Complete, OmxEvent,
  cmd_complete, port_settings_changed, error_event, buffer_flag, other_event, Codec, M, get,
  error_undefined,
}
use how_to_miracast_on_aosp.Codec.Outside.{Outside}
use how_to_miracast_on_aosp.Codec.Buffers.{all_your_buffers_are_belong_to_us}
use how_to_miracast_on_aosp.Codec.States.{
  has_no_buffers, allocate_buffers, enter_loaded_to_idle, on_start, on_setup, reallocate_outputs,
}
use how_to_miracast_on_aosp.Codec.States.Events.{
  to_executing, idle_to_executing_event, port_reenabled, port_changed_event, leave_flush_if_home,
  mark_flushed, flushing_event,
}
use how_to_miracast_on_aosp.Codec.Ledger.Steps.{
  custody_frame, modify-Still, get-Still, >>=-Kept, >>-Kept,
}
use how_to_miracast_on_aosp.Codec.Ledger.Moves.{emit-Still, silent}
use how_to_miracast_on_aosp.Codec.Ledger.Buffers.{clear_dealer-Still}
use how_to_miracast_on_aosp.Codec.Ledger.Base.{fail-Still}
use how_to_miracast_on_aosp.Codec.Ledger.Output.{signal-Still, then_return, base_event-Tame}
use how_to_miracast_on_aosp.Codec.Ledger.Allocate.{NewIds, allocate-Tame}
use how_to_miracast_on_aosp.Codec.{later_settings}
use how_to_miracast_on_aosp.Codec.Ledger.States.{
  enter-Still, defer-Still, fail-Tame, command-Still, enter_loaded-Still, configure-Still,
  allocate_component-Tame, submit_output_buffers-Tame, resume-Tame, waiting-Tame,
}
use how_to_miracast_on_aosp.Codec.Ledger.Events.{only_state}

module _ (o : Outside) where
  module _ (new_ids : NewIds o) where
    to_idle-Tame : Tame (enter_loaded_to_idle o)
    unfolding enter_loaded_to_idle allocate_buffers
    to_idle-Tame = >>-Tame _ _ (enter-Still loaded_to_idle) (
        >>=-Kept _ _
          (>>=-Kept _ _ (allocate-Tame o new_ids input)
            λ err. if-Tame _ _ (err == 0) (allocate-Tame o new_ids output) (return-Tame Codec err))
          λ err.
            if-Tame _ _ (err == 0) (return-Tame Codec tt) (
              >>-Tame _ _ (signal-Still error_undefined err) (Still-Tame _ (enter_loaded-Still o))))

    pub on_start-Tame : Tame (on_start o)
    unfolding on_start
    on_start-Tame = >>-Tame _ _ (command-Still o (state_set state_idle)) to_idle-Tame

    pub on_setup-Tame : Tame (on_setup o)
    unfolding on_setup
    on_setup-Tame = >>=-Kept _ _ (allocate_component-Tame o) λ allocated.
        if-Tame _ _ allocated
          (>>=-Tame _ _ (configure-Still o)
            λ configured. if-Tame _ _ configured on_start-Tame (return-Tame Codec tt))
          (return-Tame Codec tt)

    reallocate-Tame : Tame (reallocate_outputs o)
    unfolding reallocate_outputs
    reallocate-Tame = >>=-Tame _ get get-Still λ s.
        >>-Tame _ _ (check-Still Codec (has_no_buffers output s)) (
          >>-Tame _ _ (clear_dealer-Still output) (
            >>-Tame _ _ (command-Still o (port_enable output)) (
              >>=-Kept _ _ (allocate-Tame o new_ids output) λ err.
                if-Tame _ _ (err == 0) (return-Tame Codec tt) (
                  >>-Tame _ _ (signal-Still error_undefined err) (
                    >>-Tame _ _
                      (modify-Still
                        (λ s. record s { shutdown_in_progress = true; keep_component = false })
                        (λ s. refl) (λ s. refl) (λ s. refl))
                      (Still-Tame _ (enter_loaded-Still o)))))))

    module _ (enter_executing : M (Unit {0})) (entered : Tame enter_executing) where
      to_executing-Tame : Tame (to_executing o enter_executing)
      unfolding to_executing
      to_executing-Tame = >>-Tame _ _ (enter-Still executing) entered

      now_executing_complete :
          (c : Complete) → Tame (idle_to_executing_event o enter_executing (cmd_complete c))
      unfolding idle_to_executing_event
      now_executing_complete =
          only_state o (λ c. idle_to_executing_event o enter_executing (cmd_complete c))
            (λ x.
              elim x
                as (λ x.
                  Tame
                    (idle_to_executing_event o enter_executing (cmd_complete (state_set_done x)))) [
                      | state_executing ↦
                          >>-Kept _ _ (resume-Tame o) (then_return _ true to_executing-Tame)
                      | state_loaded ↦ fail-Tame Bool
                      | state_idle ↦ fail-Tame Bool
                      | state_other ↦ fail-Tame Bool
                    ])
            (λ p. fail-Tame Bool) (λ p. fail-Tame Bool) (λ p. fail-Tame Bool) (fail-Tame Bool)

      pub idle_to_executing_event-Tame :
          (e : OmxEvent) → Tame (idle_to_executing_event o enter_executing e)
      unfolding idle_to_executing_event
      idle_to_executing_event-Tame =
          waiting-Tame o (idle_to_executing_event o enter_executing) now_executing_complete
            (λ p x. base_event-Tame o (port_settings_changed p x))
            (λ e. base_event-Tame o (error_event e)) (base_event-Tame o buffer_flag)
            (base_event-Tame o other_event)

      reenabled-Tame : Tame (port_reenabled o enter_executing)
      unfolding port_reenabled
      reenabled-Tame =
          >>-Tame _ _
            (modify-Still (λ s. record s { sent_format = false }) (λ s. refl) (λ s. refl)
              (λ s. refl))
            (>>=-Tame _ get get-Still λ s.
              >>-Kept _ _
                (if-Tame _ _ s.active (submit_output_buffers-Tame o) (return-Tame Codec tt))
                to_executing-Tame)

      port_complete : (c : Complete) → Tame (port_changed_event o enter_executing (cmd_complete c))
      unfolding port_changed_event
      port_complete (port_disabled (one_port output)) = then_return _ true reallocate-Tame
      port_complete (port_disabled (one_port input)) = fail-Tame Bool
      port_complete (port_disabled all_ports) = fail-Tame Bool
      port_complete (port_disabled other_port) = fail-Tame Bool
      port_complete (port_enabled (one_port output)) = then_return _ true reenabled-Tame
      port_complete (port_enabled (one_port input)) = fail-Tame Bool
      port_complete (port_enabled all_ports) = fail-Tame Bool
      port_complete (port_enabled other_port) = fail-Tame Bool
      port_complete (state_set_done x) = return-Tame Codec false
      port_complete (flush_done p) = return-Tame Codec false
      port_complete other_done = return-Tame Codec false

      pub port_changed_event-Tame : (e : OmxEvent) → Tame (port_changed_event o enter_executing e)
      unfolding port_changed_event
      port_changed_event-Tame =
          waiting-Tame o (port_changed_event o enter_executing) port_complete
            (λ p x. return-Tame Codec false) (λ e. return-Tame Codec false)
            (return-Tame Codec false) (return-Tame Codec false)

      pub leave_flush-Tame : Tame (leave_flush_if_home o enter_executing)
      unfolding leave_flush_if_home silent
      leave_flush-Tame = >>=-Tame _ get get-Still λ s.
          if-Tame _ _ (s.input_flushed && (s.output_flushed && all_your_buffers_are_belong_to_us s))
            (>>-Tame _ _ (emit-Still flush_completed refl) (
              >>-Tame _ _
                (modify-Still
                  (λ s. record s { input_eos = false; output_eos = false; input_eos_result = 0 })
                  (λ s. refl) (λ s. refl) (λ s. refl))
                to_executing-Tame))
            (return-Tame Codec tt)

      mark-Still : (p : PortArg) → Still (mark_flushed o enter_executing p)
      unfolding mark_flushed
      mark-Still (one_port input) = >>=-Still _ get get-Still λ s.
          >>-Still _ _ (check-Still Codec (not s.input_flushed)) (
            modify-Still (λ s. record s { input_flushed = true }) (λ s. refl) (λ s. refl)
              (λ s. refl))
      mark-Still (one_port output) = >>=-Still _ get get-Still λ s.
          >>-Still _ _ (check-Still Codec (not s.output_flushed)) (
            modify-Still (λ s. record s { output_flushed = true }) (λ s. refl) (λ s. refl)
              (λ s. refl))
      mark-Still all_ports =
          >>=-Still _ get get-Still λ s.
            >>-Still _ _ (check-Still Codec s.input_flushed) (check-Still Codec s.output_flushed)
      mark-Still other_port = fail-Still (Unit {0})

      flush_complete : (c : Complete) → Tame (flushing_event o enter_executing (cmd_complete c))
      unfolding flushing_event
      flush_complete =
          only_state o (λ c. flushing_event o enter_executing (cmd_complete c))
            (λ x. fail-Tame Bool)
            (λ p. >>-Tame _ _ (mark-Still p) (then_return _ true leave_flush-Tame))
            (λ p. fail-Tame Bool) (λ p. fail-Tame Bool) (fail-Tame Bool)

      pub flushing_event-Tame : (e : OmxEvent) → Tame (flushing_event o enter_executing e)
      unfolding flushing_event
      flushing_event-Tame =
          waiting-Tame o (flushing_event o enter_executing) flush_complete
            (λ p x.
              >>=-Tame _ get get-Still
                λ s. >>-Tame _ _ (defer-Still (later_settings s.node p x)) (return-Tame Codec true))
            (λ e. base_event-Tame o (error_event e)) (base_event-Tame o buffer_flag)
            (base_event-Tame o other_event)
