-- ===== src/Codec/Ledger/States.antt =====
-- frameworks/av/media/libstagefright/ACodec.cpp: what the states do keeps mStatus and the log
-- together.
use how_to_miracast_on_aosp.Prelude.{
  ℕ, zero, suc, ◌+◌, ◌≡◌, refl, Bool, true, false, not, ◌&&◌, none, some, ◌==◌, ltb, if◌then◌else◌,
  arith, length,
}
use how_to_miracast_on_aosp.Rtsp.Machine.{◌>>◌, return, check}
use how_to_miracast_on_aosp.Rtsp.Frame.{
  Still, Tame, Still-Tame, >>=-Still, >>-Still, >>=-Tame, >>-Tame, if-Still, if-Tame, option-Tame,
  return-Still, return-Tame, check-Still,
}
use how_to_miracast_on_aosp.Codec.{
  input, output, Owner, us, component, native_window, same_owner, Buffer, state_loaded, Command,
  state_set, port_disable, send_command, component_allocated, component_configured,
  shutdown_completed, node_freed, blank_buffers, Phase, uninitialized, loaded, executing_to_idle,
  idle_to_loaded, output_port_settings_changed, flushing, PortArg, one_port, all_ports, other_port,
  Complete, Setting, port_definition, output_crop, other_setting, OmxEvent, cmd_complete,
  port_settings_changed, error_event, buffer_flag, other_event, Deferred, Codec, M, get, fail, pass,
  fill_buffer, arrives, error_undefined, error_component_not_found, unknown_error,
}
use how_to_miracast_on_aosp.Codec.Blank.{push_blank_buffers}
use how_to_miracast_on_aosp.Codec.Outside.{Outside}
use how_to_miracast_on_aosp.Codec.Buffers.{at_home, all_your_buffers_are_belong_to_us}
use how_to_miracast_on_aosp.Codec.States.{
  enter, defer, is_node, first_node, command, free_node, on_shutdown, enter_loaded, take_window,
  on_configure_component, take_node, on_allocate_component, submit_output_buffer, submit_from,
  submit_output_buffers, resume_now, enter_executing_to_idle, enter_flushing, leave_idle_if_home,
  port_settings,
}
use how_to_miracast_on_aosp.Codec.States.Events.{executing_event}
use how_to_miracast_on_aosp.Codec.Ledger.{whither}
use how_to_miracast_on_aosp.Codec.Ledger.Steps.{
  custody_frame, modify-Still, get-Still, >>-Kept, From, Tame-From, strong-From, check-From,
  buffer_at-Tame,
}
use how_to_miracast_on_aosp.Codec.Ledger.Moves.{emit-Still, pass-FromTo, silent}
use how_to_miracast_on_aosp.Codec.Ledger.Buffers.{
  FromTo-From, free_buffers_on_port-Tame, free_not_owned-Tame,
}
use how_to_miracast_on_aosp.Codec.Ledger.Base.{fail-Still, post_fill-Tame, fill_legal}
use how_to_miracast_on_aosp.Codec.Ledger.Output.{signal-Still, then_return, base_event-Tame}

pub enter-Still : (phase : Phase) → Still (enter phase)
enter-Still phase = modify-Still _ (λ s. refl) (λ s. refl) (λ s. refl)

pub defer-Still : (d : Deferred) → Still (defer d)
defer-Still d = modify-Still _ (λ s. refl) (λ s. refl) (λ s. refl)

pub fail-Tame : (A : Type 0) → Tame (fail {A = A})
fail-Tame A = Still-Tame fail (fail-Still A)

-- After the CHECK of a buffer of the output port.
checked_is_ours :
    (x : Owner) (c : Bool)
    → (if c then at_home x else same_owner x us) ≡ true
    → (c && same_owner x native_window) ≡ false
    → (y : Owner) → same_owner x y ≡ true
    → same_owner us y ≡ true
checked_is_ours x true e f y g = ground arith
checked_is_ours x false e f y g = ground arith

module _ (o : Outside) where
  submit_fill :
      (i : ℕ) → From output i (same_owner us) (check o.fill_ok >> pass output i fill_buffer)
  unfolding whither arrives
  submit_fill i = check-From output i (same_owner us) o.fill_ok _ λ _.
      FromTo-From output i (same_owner us) (same_owner component) _
        (pass-FromTo output i fill_buffer (same_owner us) fill_legal refl)

  submit_cases :
      (i : ℕ) (x : Owner) (c : Bool)
      → (c ≡ false → (y : Owner) → same_owner x y ≡ true → same_owner us y ≡ true)
      → From output i
          (same_owner x)
          (if c then return tt else check o.fill_ok >> pass output i fill_buffer)
  submit_cases i x true h = Tame-From output i (same_owner x) _ (return-Tame Codec tt)
  submit_cases i x false h =
      strong-From output i (same_owner x) (same_owner us) _ (h refl) (submit_fill i)

  submit_rest :
      (i : ℕ) (b : Buffer) (c : Bool)
      → (if c then at_home b.status else same_owner b.status us) ≡ true
      → From output i (same_owner b.status) (
          if c && same_owner b.status native_window
          then return tt
          else check o.fill_ok >> pass output i fill_buffer)
  submit_rest i b c e =
      submit_cases i b.status (c && same_owner b.status native_window)
        (checked_is_ours b.status c e)

  pub command-Still : (c : Command) → Still (command o c)
  unfolding command silent
  command-Still c = >>-Still _ _ (check-Still Codec o.command_ok) (emit-Still (send_command c) refl)

  free_node-Still : Still (free_node o)
  unfolding free_node silent
  free_node-Still = >>-Still _ _ (check-Still Codec o.free_node_ok) (
      >>-Still _ _ (emit-Still node_freed refl) (
        >>-Still _ _
          (modify-Still (λ s. record s { native_window = false; node = none; secure = false })
            (λ s. refl) (λ s. refl) (λ s. refl))
          (enter-Still uninitialized)))

  pub on_shutdown-Still : (keep : Bool) → Still (on_shutdown o keep)
  unfolding on_shutdown silent
  on_shutdown-Still keep =
      >>-Still _ _ (if-Still _ _ keep (return-Still Codec tt) free_node-Still)
        (emit-Still shutdown_completed refl)

  pub enter_loaded-Still : Still (enter_loaded o)
  unfolding enter_loaded
  enter_loaded-Still = >>-Still _ _ (enter-Still loaded) (
      >>=-Still _ get get-Still λ s.
        if-Still _ _ s.shutdown_in_progress
          (>>-Still _ _
            (modify-Still (λ s. record s { shutdown_in_progress = false; keep_component = false })
              (λ s. refl) (λ s. refl) (λ s. refl))
            (on_shutdown-Still s.keep_component))
          (return-Still Codec tt))

  take_window-Still : Still (take_window o)
  unfolding take_window silent
  take_window-Still = >>-Still _ _ (modify-Still _ (λ s. refl) (λ s. refl) (λ s. refl)) (
      >>=-Still _ get get-Still λ s.
        >>-Still _ _
          (if-Still _ _ s.native_window (check-Still Codec (o.enable_status == 0))
            (return-Still Codec tt))
          (emit-Still component_configured refl))

  pub configure-Still : Still (on_configure_component o)
  unfolding on_configure_component
  configure-Still = >>=-Still _ get get-Still λ s.
      >>-Still _ _ (check-Still Codec (is_node s.node)) (
        >>-Still _ _ (modify-Still _ (λ s. refl) (λ s. refl) (λ s. refl)) (
          if-Still _ _ (o.configured.status == 0)
            (>>-Still _ _ take_window-Still (return-Still Codec true))
            (>>-Still _ _ (signal-Still error_undefined o.configured.status)
              (return-Still Codec false))))

  take_node-Still : (n : ℕ) → Still (take_node o n)
  unfolding take_node silent
  take_node-Still n =
      >>-Still _ _
        (modify-Still
          (λ s. record s {
            node = some n;
            secure = o.secure_name;
            input_eos = false;
            output_eos = false;
            input_eos_result = 0;
          })
          (λ s. refl) (λ s. refl) (λ s. refl))
        (>>-Still _ _ (emit-Still component_allocated refl) enter_loaded-Still)

  pub allocate_component-Tame : Tame (on_allocate_component o)
  unfolding on_allocate_component
  allocate_component-Tame = >>=-Tame _ get get-Still λ s.
      >>-Tame _ _ (check-Still Codec (not (is_node s.node))) (
        >>-Tame _ _ (check-Still Codec o.connected) (
          option-Tame _ _ (first_node o.nodes)
            (then_return _ false
              (Still-Tame _ (signal-Still error_component_not_found unknown_error)))
            λ n. then_return _ true (Still-Tame _ (take_node-Still n))))

  submit-Tame : (i : ℕ) → Tame (submit_output_buffer o i)
  unfolding submit_output_buffer whither arrives
  submit-Tame i = >>=-Tame _ get get-Still λ s. buffer_at-Tame output i _ λ b.
      check-From output i (same_owner b.status)
        (if s.native_window then at_home b.status else same_owner b.status us) _
        λ e. submit_rest i b s.native_window e

  submit_all-Tame : (i n : ℕ) → Tame (submit_from o i n)
  unfolding submit_from
  submit_all-Tame i zero = return-Tame Codec tt
  submit_all-Tame i (suc n) = >>-Kept _ _ (submit-Tame i) (submit_all-Tame (i + 1) n)

  pub submit_output_buffers-Tame : Tame (submit_output_buffers o)
  unfolding submit_output_buffers
  submit_output_buffers-Tame = >>=-Tame _ get get-Still λ s. submit_all-Tame 0 (length s.outputs)

  pub resume-Tame : Tame (resume_now o)
  unfolding resume_now
  resume-Tame = >>=-Tame _ get get-Still λ s. if-Tame _ _ s.active (return-Tame Codec tt) (
      >>-Kept _ _ submit_output_buffers-Tame (
        >>=-Tame _ get get-Still λ s. >>-Tame _ _ (check-Still Codec (ltb 0 (length s.inputs))) (
          >>-Kept _ _ (post_fill-Tame 0) (
            Still-Tame _ (
              modify-Still (λ s. record s { active = true }) (λ s. refl) (λ s. refl)
                (λ s. refl))))))

  pub executing_to_idle-Still : Still (enter_executing_to_idle o)
  unfolding enter_executing_to_idle
  executing_to_idle-Still = >>-Still _ _ (enter-Still executing_to_idle) (
      modify-Still (λ s. record s { now_idle = false; sent_format = false }) (λ s. refl) (λ s. refl)
        (λ s. refl))

  pub flushing-Still : Still (enter_flushing o)
  unfolding enter_flushing
  flushing-Still = >>-Still _ _ (enter-Still flushing) (
      modify-Still (λ s. record s { input_flushed = false; output_flushed = false }) (λ s. refl)
        (λ s. refl) (λ s. refl))

  pub leave_idle-Tame : Tame (leave_idle_if_home o)
  unfolding leave_idle_if_home silent
  leave_idle-Tame = >>=-Tame _ get get-Still λ s.
      if-Tame _ _ (s.now_idle && all_your_buffers_are_belong_to_us s)
        (>>-Tame _ _ (command-Still (state_set state_loaded)) (
          >>-Kept _ _ (free_buffers_on_port-Tame o input) (
            >>-Kept _ _ (free_buffers_on_port-Tame o output) (
              >>-Tame _ _
                (if-Still _ _ (s.secure && s.native_window)
                  (emit-Still (blank_buffers (push_blank_buffers o.blank).calls) refl)
                  (return-Still Codec tt))
                (Still-Tame _ (enter-Still idle_to_loaded))))))
        (return-Tame Codec tt)

  port_settings-Tame : (setting : Setting) → Tame (port_settings o setting)
  unfolding port_settings
  port_settings-Tame port_definition = >>-Tame _ _ (command-Still (port_disable output)) (
      >>-Kept _ _ (free_not_owned-Tame o) (Still-Tame _ (enter-Still output_port_settings_changed)))
  port_settings-Tame output_crop =
      Still-Tame _
        (modify-Still (λ s. record s { sent_format = false }) (λ s. refl) (λ s. refl) (λ s. refl))
  port_settings-Tame other_setting = return-Tame Codec tt

  pub executing_event-Tame : (e : OmxEvent) → Tame (executing_event o e)
  unfolding executing_event
  executing_event-Tame (port_settings_changed (one_port output) setting) =
      then_return _ true (port_settings-Tame setting)
  executing_event-Tame (port_settings_changed (one_port input) setting) = fail-Tame Bool
  executing_event-Tame (port_settings_changed all_ports setting) = fail-Tame Bool
  executing_event-Tame (port_settings_changed other_port setting) = fail-Tame Bool
  executing_event-Tame buffer_flag = return-Tame Codec true
  executing_event-Tame (cmd_complete c) = base_event-Tame o (cmd_complete c)
  executing_event-Tame (error_event e) = base_event-Tame o (error_event e)
  executing_event-Tame other_event = base_event-Tame o other_event

  -- The events of a state that waits for one command to complete.
  pub waiting-Tame :
      (f : OmxEvent → M Bool)
      → ((c : Complete) → Tame (f (cmd_complete c)))
      → ((p : PortArg) (x : Setting) → Tame (f (port_settings_changed p x)))
      → ((e : ℕ) → Tame (f (error_event e)))
      → Tame (f buffer_flag)
      → Tame (f other_event)
      → (e : OmxEvent) → Tame (f e)
  waiting-Tame f c p e b n (cmd_complete x) = c x
  waiting-Tame f c p e b n (port_settings_changed q x) = p q x
  waiting-Tame f c p e b n (error_event x) = e x
  waiting-Tame f c p e b n buffer_flag = b
  waiting-Tame f c p e b n other_event = n
