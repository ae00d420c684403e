-- ===== src/Codec/Ledger/Messages.antt =====
-- frameworks/av/media/libstagefright/ACodec.cpp: the messages of the states that handle buffers
-- keep mStatus and the log together.
use how_to_miracast_on_aosp.Prelude.{refl, Bool, true, false}
use how_to_miracast_on_aosp.Rtsp.Machine.{return}
use how_to_miracast_on_aosp.Rtsp.Frame.{
  Still, Tame, Still-Tame, >>-Still, >>=-Tame, if-Tame, return-Tame,
}
use how_to_miracast_on_aosp.Codec.{
  state_idle, state_set, flush_all, request_idr, Message, setup, allocate_component,
  configure_component, start, flush, resume, request_idr_frame, shutdown, later_shutdown,
  input_filled, output_drained, omx, Codec, get,
}
use how_to_miracast_on_aosp.Codec.Outside.{Outside}
use how_to_miracast_on_aosp.Codec.States.{leave_idle_if_home}
use how_to_miracast_on_aosp.Codec.States.Events.{
  loaded_to_idle_event, executing_event, executing_to_idle_event, idle_to_loaded_event,
}
use how_to_miracast_on_aosp.Codec.Dispatch.{
  keep_mode, resubmit_mode, base_methods, loaded_to_idle_message, shut_down, flush_now,
  request_idr_now, executing_message, executing_to_idle_message, idle_to_loaded_message,
}
use how_to_miracast_on_aosp.Codec.Ledger.Steps.{custody_frame, modify-Still, get-Still}
use how_to_miracast_on_aosp.Codec.Ledger.Moves.{emit-Still, silent}
use how_to_miracast_on_aosp.Codec.Ledger.Output.{
  then_return, base_event-Tame, Safe, base_message-Tame,
}
use how_to_miracast_on_aosp.Codec.Ledger.States.{
  fail-Tame, defer-Still, command-Still, resume-Tame, executing_to_idle-Still, flushing-Still,
  leave_idle-Tame, executing_event-Tame,
}
use how_to_miracast_on_aosp.Codec.Ledger.Events.{
  loaded_to_idle_event-Tame, executing_to_idle_event-Tame, idle_to_loaded_event-Tame,
}

module _ (o : Outside) where
  pub base-Safe : Safe o (base_methods o)
  base-Safe = record { on_event-Safe = base_event-Tame o; after_client-Safe = return-Tame Codec tt }

  to_idle-Safe : Safe o (record (base_methods o) { on_event = loaded_to_idle_event o })
  to_idle-Safe = record {
    on_event-Safe = loaded_to_idle_event-Tame o;
    after_client-Safe = return-Tame Codec tt;
  }

  executing-Safe :
      Safe o
        (record { mode = resubmit_mode; on_event = executing_event o; after_client = return tt })
  executing-Safe = record {
    on_event-Safe = executing_event-Tame o;
    after_client-Safe = return-Tame Codec tt;
  }

  leaving-Safe : Safe o (record {
    mode = keep_mode;
    on_event = executing_to_idle_event o;
    after_client = leave_idle_if_home o;
  })
  leaving-Safe = record {
    on_event-Safe = executing_to_idle_event-Tame o;
    after_client-Safe = leave_idle-Tame o;
  }

  to_loaded-Safe : Safe o (record (base_methods o) { on_event = idle_to_loaded_event o })
  to_loaded-Safe = record {
    on_event-Safe = idle_to_loaded_event-Tame o;
    after_client-Safe = return-Tame Codec tt;
  }

  shut_down-Still : (keep : Bool) → Still (shut_down o keep)
  unfolding shut_down
  shut_down-Still keep =
      >>-Still _ _
        (modify-Still
          (λ s. record s { shutdown_in_progress = true; keep_component = keep; active = false })
          (λ s. refl) (λ s. refl) (λ s. refl))
        (>>-Still _ _ (command-Still o (state_set state_idle)) (executing_to_idle-Still o))

  flush_now-Still : Still (flush_now o)
  unfolding flush_now
  flush_now-Still =
      >>-Still _ _
        (modify-Still (λ s. record s { active = false }) (λ s. refl) (λ s. refl) (λ s. refl))
        (>>-Still _ _ (command-Still o flush_all) (flushing-Still o))

  request_idr-Tame : Tame (request_idr_now o)
  unfolding request_idr_now silent
  request_idr-Tame = >>=-Tame _ get get-Still λ s.
      if-Tame _ _ s.is_encoder (Still-Tame _ (emit-Still request_idr refl)) (return-Tame Codec tt)

  pub executing-Tame : (m : Message) → Tame (executing_message o m)
  unfolding executing_message silent
  executing-Tame setup = base_message-Tame o _ executing-Safe setup
  executing-Tame allocate_component = base_message-Tame o _ executing-Safe allocate_component
  executing-Tame configure_component = base_message-Tame o _ executing-Safe configure_component
  executing-Tame start = base_message-Tame o _ executing-Safe start
  executing-Tame flush = then_return _ true (Still-Tame _ flush_now-Still)
  executing-Tame resume = then_return _ true (resume-Tame o)
  executing-Tame request_idr_frame = then_return _ true request_idr-Tame
  executing-Tame (shutdown keep) = then_return _ true (Still-Tame _ (shut_down-Still keep))
  executing-Tame (input_filled k f err) =
      base_message-Tame o _ executing-Safe (input_filled k f err)
  executing-Tame (output_drained k wants) =
      base_message-Tame o _ executing-Safe (output_drained k wants)
  executing-Tame (omx node m) = base_message-Tame o _ executing-Safe (omx node m)

  pub leaving-Tame : (m : Message) → Tame (executing_to_idle_message o m)
  unfolding executing_to_idle_message silent
  leaving-Tame setup = base_message-Tame o _ leaving-Safe setup
  leaving-Tame allocate_component = base_message-Tame o _ leaving-Safe allocate_component
  leaving-Tame configure_component = base_message-Tame o _ leaving-Safe configure_component
  leaving-Tame start = base_message-Tame o _ leaving-Safe start
  leaving-Tame flush = fail-Tame Bool
  leaving-Tame resume = base_message-Tame o _ leaving-Safe resume
  leaving-Tame request_idr_frame = base_message-Tame o _ leaving-Safe request_idr_frame
  leaving-Tame (shutdown keep) = return-Tame Codec true
  leaving-Tame (input_filled k f err) = base_message-Tame o _ leaving-Safe (input_filled k f err)
  leaving-Tame (output_drained k wants) =
      base_message-Tame o _ leaving-Safe (output_drained k wants)
  leaving-Tame (omx node m) = base_message-Tame o _ leaving-Safe (omx node m)

  pub to_loaded-Tame : (m : Message) → Tame (idle_to_loaded_message o m)
  unfolding idle_to_loaded_message silent
  to_loaded-Tame setup = base_message-Tame o _ to_loaded-Safe setup
  to_loaded-Tame allocate_component = base_message-Tame o _ to_loaded-Safe allocate_component
  to_loaded-Tame configure_component = base_message-Tame o _ to_loaded-Safe configure_component
  to_loaded-Tame start = base_message-Tame o _ to_loaded-Safe start
  to_loaded-Tame flush = fail-Tame Bool
  to_loaded-Tame resume = base_message-Tame o _ to_loaded-Safe resume
  to_loaded-Tame request_idr_frame = base_message-Tame o _ to_loaded-Safe request_idr_frame
  to_loaded-Tame (shutdown keep) = return-Tame Codec true
  to_loaded-Tame (input_filled k f err) =
      base_message-Tame o _ to_loaded-Safe (input_filled k f err)
  to_loaded-Tame (output_drained k wants) =
      base_message-Tame o _ to_loaded-Safe (output_drained k wants)
  to_loaded-Tame (omx node m) = base_message-Tame o _ to_loaded-Safe (omx node m)

  pub to_idle_message-Tame : (m : Message) → Tame (loaded_to_idle_message o m)
  unfolding loaded_to_idle_message silent
  to_idle_message-Tame setup = base_message-Tame o _ to_idle-Safe setup
  to_idle_message-Tame allocate_component = base_message-Tame o _ to_idle-Safe allocate_component
  to_idle_message-Tame configure_component = base_message-Tame o _ to_idle-Safe configure_component
  to_idle_message-Tame start = base_message-Tame o _ to_idle-Safe start
  to_idle_message-Tame flush = base_message-Tame o _ to_idle-Safe flush
  to_idle_message-Tame resume = base_message-Tame o _ to_idle-Safe resume
  to_idle_message-Tame request_idr_frame = base_message-Tame o _ to_idle-Safe request_idr_frame
  to_idle_message-Tame (shutdown keep) =
      then_return _ true (Still-Tame _ (defer-Still (later_shutdown keep)))
  to_idle_message-Tame (input_filled k f err) =
      base_message-Tame o _ to_idle-Safe (input_filled k f err)
  to_idle_message-Tame (output_drained k wants) =
      base_message-Tame o _ to_idle-Safe (output_drained k wants)
  to_idle_message-Tame (omx node m) = base_message-Tame o _ to_idle-Safe (omx node m)
