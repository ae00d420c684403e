-- ===== src/Tests/Codec.antt =====
-- A codec of frameworks/av/media/libstagefright/ACodec.cpp with one buffer on each port, at
-- concrete messages.
use how_to_miracast_on_aosp.Prelude.{
  ℕ, suc, ◌+◌, ◌≤◌, ◌≡◌, refl, true, false, List, [], ◌∷◌, none, some, ◌==◌, if◌then◌else◌, arith,
}
use how_to_miracast_on_aosp.Prelude.Int.{pos}
use how_to_miracast_on_aosp.Prelude.Outcome.{done, Ensures}
use how_to_miracast_on_aosp.Rtsp.Machine.{return}
use how_to_miracast_on_aosp.Codec.{
  Port, Event, transfer, state_idle, state_executing, executing_to_idle, us, native_window,
  state_set_done, cmd_complete, event, empty_done, fill_done, Message, setup, input_filled,
  output_drained, omx, Codec,
}
use how_to_miracast_on_aosp.Codec.Blank.{Answers}
use how_to_miracast_on_aosp.Codec.Blank.Balance.{Ends}
use how_to_miracast_on_aosp.Codec.Outside.{Outside}
use how_to_miracast_on_aosp.Codec.Buffers.{all_home, all_your_buffers_are_belong_to_us}
use how_to_miracast_on_aosp.Codec.Dispatch.{
  run, new_codec, on_message, process_deferred_messages, receive,
}
use how_to_miracast_on_aosp.Codec.Ledger.{holder, Proper, Held, Custody}
use how_to_miracast_on_aosp.Codec.Ledger.Allocate.{NewIds}
use how_to_miracast_on_aosp.Codec.Ledger.Dispatch.{AllNewIds, run-Custody}
use how_to_miracast_on_aosp.Codec.Nesting.{receive-nesting}
use how_to_miracast_on_aosp.Codec.Shutdown.{Obliging}
use how_to_miracast_on_aosp.Codec.Shutdown.Ends.{idle_done, loaded_done, ShutDown, shutdown-Ends}

-- An id above all of a log.
abbrev next_id : List Event → ℕ
next_id [] = 0
next_id (transfer t p k ∷ es) = suc (k + next_id es)
next_id (e ∷ es) = next_id es

holder_above : (p : Port) (es : List Event) (k : ℕ) → next_id es ≤ k → holder p k es ≡ none
unfolding holder
holder_above p [] k h = refl
holder_above p (transfer t q j ∷ es) k h = ground (arith, holder_above p es k)
holder_above p (e ∷ es) k h = holder_above p es k h

-- The third buffer cannot be queued.
abbrev window_answers : Answers
window_answers = record {
  disconnect_media_status = 0;
  connect_cpu_status = 0;
  geometry_status = 0;
  usage_status = 0;
  undequeued_status = 0;
  min_undequeued = 2;
  count_status = 0;
  rounds = λ i. record {
    dequeue_status = 0;
    lock_status = 0;
    unlock_status = 0;
    queue_status = if i == 2 then 19 else 0;
  };
  disconnect_cpu_status = 0;
  connect_media_status = 0;
}

abbrev component : Outside
component = record {
  command_ok = true;
  empty_ok = true;
  fill_ok = true;
  free_ok = true;
  cancel_ok = true;
  free_node_ok = true;
  memory_ok = true;
  definition_status = λ p. 0;
  buffer_count = λ p. 1;
  buffer_size = λ p. 4096;
  allocate_status = λ p log. 0;
  new_id = λ p log. next_id log;
  window = record {
    geometry_status = 0;
    usage_status = 0;
    usage_protected = false;
    composer_status = 0;
    queues_to_composer = 1;
    set_usage_status = 0;
    undequeued_status = 0;
    min_undequeued = 1;
    count_min = 1;
    set_definition_status = 0;
    set_count_status = 0;
  };
  dequeued = λ log. none;
  dequeue_error = 0;
  queue_status = 0;
  domain = none;
  set_crop_ok = true;
  connected = true;
  nodes = none ∷ some 7 ∷ [];
  secure_name = false;
  configured = record { status = 0; encoder = true; delay = 0; padding = 0 };
  has_window = false;
  enable_status = 0;
  blank = window_answers;
}

component-NewIds : NewIds component
component-NewIds = record { fresh = λ p log. holder_above p log (next_id log) (omega arith) }

abbrev with_component : List Message → List (Outside × Message)
with_component [] = []
with_component (m ∷ ms) = (component, m) ∷ with_component ms

with_component-AllNewIds : (ms : List Message) → AllNewIds (with_component ms)
unfolding AllNewIds
with_component-AllNewIds [] = tt
with_component-AllNewIds (m ∷ ms) = (component-NewIds, with_component-AllNewIds ms)

-- The codec starts, a buffer of input goes to the component and comes back, and so does one of
-- output to the client.
abbrev playing : List Message
playing =
    setup
    ∷ omx (some 7) (event (cmd_complete (state_set_done state_idle)))
    ∷ omx (some 7) (event (cmd_complete (state_set_done state_executing)))
    ∷ input_filled 0
        (some (record { size = 100; time = some (pos 5); eos = false; csd = false; own = true })) 0
    ∷ omx (some 7) (empty_done 0 false)
    ∷ omx (some 7)
        (fill_done 1 (record { range_length = 64; flags = 0; eos = false; time = pos 5 }))
    ∷ output_drained 1 false
    ∷ []

new_codec-Custody : Custody new_codec
unfolding Held Proper
new_codec-Custody = record { inputs_held = tt; outputs_held = tt; proper = tt }

run-Custody_example :
    Ensures (λ (r : Unit {0} × Codec). Custody r.1) (run (with_component playing) new_codec)
run-Custody_example =
    run-Custody (with_component playing) new_codec (with_component-AllNewIds playing)
      new_codec-Custody

receive-nesting_example :
    receive 3 component (input_filled 0 none 5)
    ≡ on_message component
        (process_deferred_messages (on_message component (return tt)))
        (input_filled 0 none 5)
receive-nesting_example = receive-nesting 1 component (input_filled 0 none 5) (return tt)

-- A codec that is shutting down, with one buffer on each port.
abbrev leaving : Codec
leaving = record new_codec {
  phase = executing_to_idle;
  node = some 7;
  native_window = true;
  inputs = record { id = 3; status = us; capacity = 64; graphic = 0 } ∷ [];
  outputs = record { id = 4; status = native_window; capacity = 0; graphic = 9 } ∷ [];
  shutdown_in_progress = true;
}

component-Obliging : Obliging component
component-Obliging = record { commands = refl; frees_ok = refl; cancels = refl; frees_node = refl }

shutdown-Ends_example :
    (s : Codec) × (run
        ((component, idle_done leaving) ∷ (component, loaded_done leaving) ∷ [])
        leaving
      ≡ done (tt, s))
    × ShutDown component leaving s
unfolding all_home all_your_buffers_are_belong_to_us
shutdown-Ends_example =
    shutdown-Ends component component leaving component-Obliging component-Obliging refl refl refl
