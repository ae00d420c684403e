-- ===== src/Codec/Dispatch.antt =====
-- frameworks/av/media/libstagefright/ACodec.cpp: which state's handler a message reaches, and the
-- messages that are deferred until ExecutingState is entered.
use how_to_miracast_on_aosp.Prelude.{
  ℕ, zero, suc, Bool, true, false, not, List, [], ◌∷◌, none, if◌then◌else◌,
}
use how_to_miracast_on_aosp.Prelude.Outcome.{blocked}
use how_to_miracast_on_aosp.Rtsp.Machine.{◌>>=◌, ◌>>◌, return, check}
use how_to_miracast_on_aosp.Codec.{
  Port, input, output, state_idle, state_set, flush_all, request_idr, flush_completed,
  shutdown_completed, Phase, uninitialized, loaded, loaded_to_idle, idle_to_executing, executing,
  output_port_settings_changed, executing_to_idle, idle_to_loaded, flushing, Message, setup,
  allocate_component, configure_component, start, flush, resume, request_idr_frame, shutdown,
  Deferred, later_flush, later_resume, later_shutdown, as_message, Codec, M, get, modify, fail,
  emit,
}
use how_to_miracast_on_aosp.Codec.Outside.{Outside}
use how_to_miracast_on_aosp.Codec.Base.{
  Mode, keep_buffers, resubmit_buffers, free_buffers, Methods, base_event, base_message,
}
use how_to_miracast_on_aosp.Codec.States.{
  defer, command, on_shutdown, on_start, on_configure_component, on_allocate_component, on_setup,
  resume_now, enter_executing_to_idle, enter_flushing, leave_idle_if_home,
}
use how_to_miracast_on_aosp.Codec.States.Events.{
  loaded_to_idle_event, executing_event, executing_to_idle_event, idle_to_loaded_event,
  idle_to_executing_event, port_changed_event, leave_flush_if_home, flushing_event,
}

abbrev pub keep_mode : Port → Mode
keep_mode p = keep_buffers

abbrev pub resubmit_mode : Port → Mode
resubmit_mode p = resubmit_buffers

-- `OutputPortSettingsChangedState::getPortMode`
abbrev pub port_changed_mode : Port → Mode
port_changed_mode output = free_buffers
port_changed_mode input = resubmit_buffers

module _ (o : Outside) where
  abbrev pub base_methods : Methods
  base_methods = record { mode = keep_mode; on_event = base_event o; after_client = return tt }

  unfoldable pub uninitialized_message : Message → M Bool
  unfolding on_setup on_allocate_component base_message
  uninitialized_message setup = on_setup o >> return true
  uninitialized_message allocate_component = on_allocate_component o >> return true
  uninitialized_message (shutdown keep) = do check (not keep); emit shutdown_completed; return true
  uninitialized_message flush = emit flush_completed >> return true
  uninitialized_message m = base_message o base_methods m

  unfoldable pub loaded_message : Message → M Bool
  unfolding on_configure_component on_start on_shutdown base_message
  loaded_message configure_component = on_configure_component o >> return true
  loaded_message start = on_start o >> return true
  loaded_message (shutdown keep) = on_shutdown o keep >> return true
  loaded_message flush = emit flush_completed >> return true
  loaded_message m = base_message o base_methods m

  unfoldable pub loaded_to_idle_message : Message → M Bool
  unfolding base_message loaded_to_idle_event
  loaded_to_idle_message (shutdown keep) = defer (later_shutdown keep) >> return true
  loaded_to_idle_message m =
      base_message o (record base_methods { on_event = loaded_to_idle_event o }) m

  -- ExecutingState takes buffers in play out of play.
  unfoldable pub shut_down : Bool → M (Unit {0})
  unfolding command enter_executing_to_idle
  shut_down keep = do
    modify λ s. record s { shutdown_in_progress = true; keep_component = keep; active = false }
    command o (state_set state_idle)
    enter_executing_to_idle o

  unfoldable pub flush_now : M (Unit {0})
  unfolding command enter_flushing
  flush_now = do modify λ s. record s { active = false }; command o flush_all; enter_flushing o

  -- The call to the component is all that `requestIDRFrame` does, and its status is only logged.
  unfoldable pub request_idr_now : M (Unit {0})
  request_idr_now = do s ← get; if s.is_encoder then emit request_idr else return tt

  unfoldable pub executing_message : Message → M Bool
  unfolding shut_down flush_now resume_now request_idr_now base_message executing_event
  executing_message (shutdown keep) = shut_down keep >> return true
  executing_message flush = flush_now >> return true
  executing_message resume = resume_now o >> return true
  executing_message request_idr_frame = request_idr_now >> return true
  executing_message m =
      base_message o
        (record { mode = resubmit_mode; on_event = executing_event o; after_client = return tt }) m

  unfoldable pub executing_to_idle_message : Message → M Bool
  unfolding base_message executing_to_idle_event leave_idle_if_home
  executing_to_idle_message flush = fail
  executing_to_idle_message (shutdown keep) = return true
  executing_to_idle_message m =
      base_message o
        (record {
          mode = keep_mode;
          on_event = executing_to_idle_event o;
          after_client = leave_idle_if_home o;
        })
        m

  unfoldable pub idle_to_loaded_message : Message → M Bool
  unfolding base_message idle_to_loaded_event
  idle_to_loaded_message flush = fail
  idle_to_loaded_message (shutdown keep) = return true
  idle_to_loaded_message m =
      base_message o (record base_methods { on_event = idle_to_loaded_event o }) m

  module _ (enter_executing : M (Unit {0})) where
    unfoldable pub idle_to_executing_message : Message → M Bool
    unfolding base_message idle_to_executing_event
    idle_to_executing_message (shutdown keep) = defer (later_shutdown keep) >> return true
    idle_to_executing_message m =
        base_message o
          (record base_methods { on_event = idle_to_executing_event o enter_executing }) m

    unfoldable pub port_changed_message : Message → M Bool
    unfolding base_message port_changed_event
    port_changed_message flush = defer later_flush >> return true
    port_changed_message (shutdown keep) = defer (later_shutdown keep) >> return true
    port_changed_message resume = defer later_resume >> return true
    port_changed_message m =
        base_message o
          (record {
            mode = port_changed_mode;
            on_event = port_changed_event o enter_executing;
            after_client = return tt;
          })
          m

    -- The handler of a shutdown that it defers says that it did not handle it.
    unfoldable pub flushing_message : Message → M Bool
    unfolding base_message flushing_event leave_flush_if_home
    flushing_message (shutdown keep) = defer (later_shutdown keep) >> return false
    flushing_message flush = return true
    flushing_message m =
        base_message o
          (record {
            mode = keep_mode;
            on_event = flushing_event o enter_executing;
            after_client = leave_flush_if_home o enter_executing;
          })
          m

    unfoldable pub dispatch : Phase → Message → M Bool
    unfolding uninitialized_message loaded_message loaded_to_idle_message idle_to_executing_message
        executing_message port_changed_message executing_to_idle_message idle_to_loaded_message
        flushing_message
    dispatch uninitialized m = uninitialized_message m
    dispatch loaded m = loaded_message m
    dispatch loaded_to_idle m = loaded_to_idle_message m
    dispatch idle_to_executing m = idle_to_executing_message m
    dispatch executing m = executing_message m
    dispatch output_port_settings_changed m = port_changed_message m
    dispatch executing_to_idle m = executing_to_idle_message m
    dispatch idle_to_loaded m = idle_to_loaded_message m
    dispatch flushing m = flushing_message m

    unfoldable pub on_message : Message → M Bool
    unfolding dispatch
    on_message m = do s ← get; dispatch s.phase m

unfoldable pub deliver_all : (Message → M Bool) → List Deferred → M (Unit {0})
unfolding as_message
deliver_all handle [] = return tt
deliver_all handle (d ∷ ds) = handle (as_message d) >> deliver_all handle ds

-- `processDeferredMessages`
unfoldable pub process_deferred_messages : (Message → M Bool) → M (Unit {0})
unfolding deliver_all
process_deferred_messages handle = do
  s ← get
  modify λ s. record s { deferred = [] }
  deliver_all handle s.deferred

-- The handler of a message, where at most `n` calls of it are under way at a time; out of fuel it
-- is blocked.
unfoldable pub receive : ℕ → Outside → Message → M Bool
unfolding on_message process_deferred_messages
receive zero o m = λ s. blocked
receive (suc n) o m = on_message o (process_deferred_messages (receive n o)) m

abbrev pub on_message_received : Outside → Message → M Bool
on_message_received o m = receive 2 o m

-- A history of messages, each with what the parts outside answer to it.
unfoldable pub run : List (Outside × Message) → M (Unit {0})
run [] = return tt
run ((o, m) ∷ ms) = on_message_received o m >> run ms

-- The constructor.
abbrev pub new_codec : Codec
new_codec = record {
  phase = uninitialized;
  node = none;
  secure = false;
  native_window = false;
  inputs = [];
  outputs = [];
  input_dealer = false;
  output_dealer = false;
  is_encoder = false;
  sent_format = false;
  encoder_delay = 0;
  encoder_padding = 0;
  skip_cut = false;
  input_eos = false;
  output_eos = false;
  input_eos_result = 0;
  shutdown_in_progress = false;
  keep_component = false;
  active = false;
  now_idle = false;
  input_flushed = false;
  output_flushed = false;
  deferred = [];
  log = [];
}
