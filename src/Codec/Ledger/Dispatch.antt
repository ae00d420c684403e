-- ===== src/Codec/Ledger/Dispatch.antt =====
-- frameworks/av/media/libstagefright/ACodec.cpp: every message keeps mStatus and the log together,
-- in every state.
use how_to_miracast_on_aosp.Prelude.{ℕ, zero, suc, refl, Bool, true, false, not, List, [], ◌∷◌}
use how_to_miracast_on_aosp.Prelude.Outcome.{Ensures}
use how_to_miracast_on_aosp.Rtsp.Machine.{return}
use how_to_miracast_on_aosp.Rtsp.Frame.{
  Tame, weaken, Still-Tame, >>=-Tame, >>-Tame, return-Tame, check-Still,
}
use how_to_miracast_on_aosp.Codec.{
  flush_completed, shutdown_completed, Phase, uninitialized, loaded, loaded_to_idle,
  idle_to_executing, executing, output_port_settings_changed, executing_to_idle, idle_to_loaded,
  flushing, Message, setup, allocate_component, configure_component, start, flush, resume,
  request_idr_frame, shutdown, Deferred, later_flush, later_resume, later_shutdown, as_message,
  input_filled, output_drained, omx, Codec, M, get,
}
use how_to_miracast_on_aosp.Codec.Outside.{Outside}
use how_to_miracast_on_aosp.Codec.States.Events.{
  idle_to_executing_event, port_changed_event, leave_flush_if_home, flushing_event,
}
use how_to_miracast_on_aosp.Codec.Dispatch.{
  keep_mode, port_changed_mode, base_methods, uninitialized_message, loaded_message,
  idle_to_executing_message, port_changed_message, flushing_message, dispatch, on_message,
  deliver_all, process_deferred_messages, receive, run,
}
use how_to_miracast_on_aosp.Codec.Ledger.{Custody}
use how_to_miracast_on_aosp.Codec.Ledger.Steps.{
  Keeps, custody_frame, modify-Still, get-Still, >>-Kept,
}
use how_to_miracast_on_aosp.Codec.Ledger.Moves.{emit-Still, silent}
use how_to_miracast_on_aosp.Codec.Ledger.Output.{then_return, Safe, base_message-Tame}
use how_to_miracast_on_aosp.Codec.Ledger.Allocate.{NewIds}
use how_to_miracast_on_aosp.Codec.Ledger.States.{
  defer-Still, on_shutdown-Still, configure-Still, allocate_component-Tame,
}
use how_to_miracast_on_aosp.Codec.Ledger.Events.Changes.{
  on_start-Tame, on_setup-Tame, idle_to_executing_event-Tame, port_changed_event-Tame,
  leave_flush-Tame, flushing_event-Tame,
}
use how_to_miracast_on_aosp.Codec.Ledger.Messages.{
  base-Safe, executing-Tame, leaving-Tame, to_loaded-Tame, to_idle_message-Tame,
}

module _ (o : Outside) where
  module _ (new_ids : NewIds o) where
    uninitialized-Tame : (m : Message) → Tame (uninitialized_message o m)
    unfolding uninitialized_message silent
    uninitialized-Tame setup = then_return _ true (on_setup-Tame o new_ids)
    uninitialized-Tame allocate_component = then_return _ true (allocate_component-Tame o)
    uninitialized-Tame configure_component = base_message-Tame o _ (base-Safe o) configure_component
    uninitialized-Tame start = base_message-Tame o _ (base-Safe o) start
    uninitialized-Tame flush = then_return _ true (Still-Tame _ (emit-Still flush_completed refl))
    uninitialized-Tame resume = base_message-Tame o _ (base-Safe o) resume
    uninitialized-Tame request_idr_frame = base_message-Tame o _ (base-Safe o) request_idr_frame
    uninitialized-Tame (shutdown keep) =
        >>-Tame _ _ (check-Still Codec (not keep))
          (then_return _ true (Still-Tame _ (emit-Still shutdown_completed refl)))
    uninitialized-Tame (input_filled k f err) =
        base_message-Tame o _ (base-Safe o) (input_filled k f err)
    uninitialized-Tame (output_drained k wants) =
        base_message-Tame o _ (base-Safe o) (output_drained k wants)
    uninitialized-Tame (omx node m) = base_message-Tame o _ (base-Safe o) (omx node m)

    loaded-Tame : (m : Message) → Tame (loaded_message o m)
    unfolding loaded_message silent
    loaded-Tame setup = base_message-Tame o _ (base-Safe o) setup
    loaded-Tame allocate_component = base_message-Tame o _ (base-Safe o) allocate_component
    loaded-Tame configure_component = then_return _ true (Still-Tame _ (configure-Still o))
    loaded-Tame start = then_return _ true (on_start-Tame o new_ids)
    loaded-Tame flush = then_return _ true (Still-Tame _ (emit-Still flush_completed refl))
    loaded-Tame resume = base_message-Tame o _ (base-Safe o) resume
    loaded-Tame request_idr_frame = base_message-Tame o _ (base-Safe o) request_idr_frame
    loaded-Tame (shutdown keep) = then_return _ true (Still-Tame _ (on_shutdown-Still o keep))
    loaded-Tame (input_filled k f err) = base_message-Tame o _ (base-Safe o) (input_filled k f err)
    loaded-Tame (output_drained k wants) =
        base_message-Tame o _ (base-Safe o) (output_drained k wants)
    loaded-Tame (omx node m) = base_message-Tame o _ (base-Safe o) (omx node m)

    module _ (enter_executing : M (Unit {0})) (entered : Tame enter_executing) where
      starting-Safe :
          Safe o (record (base_methods o) { on_event = idle_to_executing_event o enter_executing })
      starting-Safe = record {
        on_event-Safe = idle_to_executing_event-Tame o new_ids enter_executing entered;
        after_client-Safe = return-Tame Codec tt;
      }

      port_changed-Safe : Safe o (record {
        mode = port_changed_mode;
        on_event = port_changed_event o enter_executing;
        after_client = return tt;
      })
      port_changed-Safe = record {
        on_event-Safe = port_changed_event-Tame o new_ids enter_executing entered;
        after_client-Safe = return-Tame Codec tt;
      }

      flushing-Safe : Safe o (record {
        mode = keep_mode;
        on_event = flushing_event o enter_executing;
        after_client = leave_flush_if_home o enter_executing;
      })
      flushing-Safe = record {
        on_event-Safe = flushing_event-Tame o new_ids enter_executing entered;
        after_client-Safe = leave_flush-Tame o new_ids enter_executing entered;
      }

      starting-Tame : (m : Message) → Tame (idle_to_executing_message o enter_executing m)
      unfolding idle_to_executing_message silent
      starting-Tame setup = base_message-Tame o _ starting-Safe setup
      starting-Tame allocate_component = base_message-Tame o _ starting-Safe allocate_component
      starting-Tame configure_component = base_message-Tame o _ starting-Safe configure_component
      starting-Tame start = base_message-Tame o _ starting-Safe start
      starting-Tame flush = base_message-Tame o _ starting-Safe flush
      starting-Tame resume = base_message-Tame o _ starting-Safe resume
      starting-Tame request_idr_frame = base_message-Tame o _ starting-Safe request_idr_frame
      starting-Tame (shutdown keep) =
          then_return _ true (Still-Tame _ (defer-Still (later_shutdown keep)))
      starting-Tame (input_filled k f err) =
          base_message-Tame o _ starting-Safe (input_filled k f err)
      starting-Tame (output_drained k wants) =
          base_message-Tame o _ starting-Safe (output_drained k wants)
      starting-Tame (omx node m) = base_message-Tame o _ starting-Safe (omx node m)

      port_changed-Tame : (m : Message) → Tame (port_changed_message o enter_executing m)
      unfolding port_changed_message silent
      port_changed-Tame setup = base_message-Tame o _ port_changed-Safe setup
      port_changed-Tame allocate_component =
          base_message-Tame o _ port_changed-Safe allocate_component
      port_changed-Tame configure_component =
          base_message-Tame o _ port_changed-Safe configure_component
      port_changed-Tame start = base_message-Tame o _ port_changed-Safe start
      port_changed-Tame flush = then_return _ true (Still-Tame _ (defer-Still later_flush))
      port_changed-Tame resume = then_return _ true (Still-Tame _ (defer-Still later_resume))
      port_changed-Tame request_idr_frame =
          base_message-Tame o _ port_changed-Safe request_idr_frame
      port_changed-Tame (shutdown keep) =
          then_return _ true (Still-Tame _ (defer-Still (later_shutdown keep)))
      port_changed-Tame (input_filled k f err) =
          base_message-Tame o _ port_changed-Safe (input_filled k f err)
      port_changed-Tame (output_drained k wants) =
          base_message-Tame o _ port_changed-Safe (output_drained k wants)
      port_changed-Tame (omx node m) = base_message-Tame o _ port_changed-Safe (omx node m)

      flushing-Tame : (m : Message) → Tame (flushing_message o enter_executing m)
      unfolding flushing_message silent
      flushing-Tame setup = base_message-Tame o _ flushing-Safe setup
      flushing-Tame allocate_component = base_message-Tame o _ flushing-Safe allocate_component
      flushing-Tame configure_component = base_message-Tame o _ flushing-Safe configure_component
      flushing-Tame start = base_message-Tame o _ flushing-Safe start
      flushing-Tame flush = return-Tame Codec true
      flushing-Tame resume = base_message-Tame o _ flushing-Safe resume
      flushing-Tame request_idr_frame = base_message-Tame o _ flushing-Safe request_idr_frame
      flushing-Tame (shutdown keep) =
          then_return _ false (Still-Tame _ (defer-Still (later_shutdown keep)))
      flushing-Tame (input_filled k f err) =
          base_message-Tame o _ flushing-Safe (input_filled k f err)
      flushing-Tame (output_drained k wants) =
          base_message-Tame o _ flushing-Safe (output_drained k wants)
      flushing-Tame (omx node m) = base_message-Tame o _ flushing-Safe (omx node m)

      message-Tame : (m : Message) → Tame (on_message o enter_executing m)
      unfolding on_message dispatch
      message-Tame m = >>=-Tame _ get get-Still λ s.
          elim s.phase as (λ (x : Phase). Tame (dispatch o enter_executing x m)) [
            | uninitialized ↦ uninitialized-Tame m
            | loaded ↦ loaded-Tame m
            | loaded_to_idle ↦ to_idle_message-Tame o m
            | idle_to_executing ↦ starting-Tame m
            | executing ↦ executing-Tame o m
            | output_port_settings_changed ↦ port_changed-Tame m
            | executing_to_idle ↦ leaving-Tame o m
            | idle_to_loaded ↦ to_loaded-Tame o m
            | flushing ↦ flushing-Tame m
          ]

    deliver-Tame :
        (handle : Message → M Bool)
        → ((m : Message) → Tame (handle m))
        → (ds : List Deferred) → Tame (deliver_all handle ds)
    unfolding deliver_all
    deliver-Tame handle h [] = return-Tame Codec tt
    deliver-Tame handle h (d ∷ ds) = >>-Kept _ _ (h (as_message d)) (deliver-Tame handle h ds)

    receive-Tame : (n : ℕ) (m : Message) → Tame (receive n o m)
    unfolding receive process_deferred_messages Tame
    receive-Tame zero m = λ s. tt
    receive-Tame (suc n) m =
        message-Tame _
          (>>=-Tame _ get get-Still λ s.
            >>-Tame _ _
              (modify-Still (λ s. record s { deferred = [] }) (λ s. refl) (λ s. refl) (λ s. refl))
              (deliver-Tame (receive n o) (receive-Tame n) s.deferred))
          m

-- Every history has a component that new_ids buffers.
unfoldable pub AllNewIds : List (Outside × Message) → Type 0
AllNewIds [] = Unit {0}
AllNewIds ((o, m) ∷ ms) = NewIds o × AllNewIds ms

run-Tame : (ms : List (Outside × Message)) → AllNewIds ms → Tame (run ms)
unfolding run AllNewIds
run-Tame [] h = return-Tame Codec tt
run-Tame ((o, m) ∷ ms) h = >>-Kept _ _ (receive-Tame o h.0 2 m) (run-Tame ms h.1)

-- Over any history of messages in which the id that a call for a new buffer leaves, also one that
-- fails, is no id of a buffer that the port has at the time: every buffer that the codec hands to
-- the component, to the client or to the native window, or frees, is in its own hands at that time
-- (or, to free it, with the window), every buffer that comes back was with who sends it, the
-- buffers of a port have different ids, and mStatus of each is where the calls and messages have
-- taken it, if all is so before. A buffer is in the codec's hands once it is pushed on mBuffers,
-- whether the component has taken it or not.
pub run-Custody :
    (ms : List (Outside × Message)) (s : Codec)
    → AllNewIds ms
    → Custody s
    → Ensures (λ (r : Unit {0} × Codec). Custody r.1) (run ms s)
unfolding Tame
run-Custody ms s new_ids ok =
    weaken (λ r. Keeps s r.1) (λ r. Custody r.1) (run ms s) (λ r keeps. keeps ok)
      (run-Tame ms new_ids s)
