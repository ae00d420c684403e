-- ===== src/Codec/Shutdown/Ends.antt =====
-- frameworks/av/media/libstagefright/ACodec.cpp: a shutdown ends.
use how_to_miracast_on_aosp.Prelude.{
  ℕ, ◌≡◌, refl, ap, ◌∙◌, Bool, true, false, [], ◌∷◌, Option, none, some, if◌then◌else◌, arith,
}
use how_to_miracast_on_aosp.Prelude.Outcome.{done}
use how_to_miracast_on_aosp.Rtsp.Machine.{◌>>◌, return, check}
use how_to_miracast_on_aosp.Codec.{
  state_loaded, state_idle, shutdown_completed, node_freed, uninitialized, loaded,
  executing_to_idle, idle_to_loaded, state_set_done, cmd_complete, event, Message, omx, Codec,
  modify,
}
use how_to_miracast_on_aosp.Codec.Outside.{Outside}
use how_to_miracast_on_aosp.Codec.Buffers.{all_your_buffers_are_belong_to_us}
use how_to_miracast_on_aosp.Codec.Base.{same_node, base_message, on_omx_message, on_event_message}
use how_to_miracast_on_aosp.Codec.States.{free_node, on_shutdown, enter_loaded, leave_idle_if_home}
use how_to_miracast_on_aosp.Codec.States.Events.{executing_to_idle_event, idle_to_loaded_event}
use how_to_miracast_on_aosp.Codec.Dispatch.{
  executing_to_idle_message, idle_to_loaded_message, dispatch, on_message, receive,
  process_deferred_messages, run,
}
use how_to_miracast_on_aosp.Codec.Shutdown.{Obliging, all_freed, left_log, leave_idle}
use how_to_miracast_on_aosp.Codec.Shutdown.Lists.{then_eq}

-- The component tells that it is idle, and that it is loaded.
abbrev pub idle_done : Codec → Message
idle_done s = omx s.node (event (cmd_complete (state_set_done state_idle)))

abbrev pub loaded_done : Codec → Message
loaded_done s = omx s.node (event (cmd_complete (state_set_done state_loaded)))

-- `s'` is shut down as `s` was asked to.
pub record ShutDown (o : Outside) (s s' : Codec) : Type 0 where
  pub phase_lem : s'.phase ≡ (if s.keep_component then loaded else uninitialized)
  pub node_lem : s'.node ≡ (if s.keep_component then s.node else none)
  pub no_inputs : s'.inputs ≡ []
  pub no_outputs : s'.outputs ≡ []
  pub no_dealers : (s'.input_dealer ≡ false) × (s'.output_dealer ≡ false)
  pub done_with : s'.shutdown_in_progress ≡ false
  pub told :
      s'.log
      ≡ shutdown_completed ∷ (if s.keep_component then left_log o s else node_freed ∷ left_log o s)

same_node_self : (n : Option ℕ) → same_node n n ≡ true
same_node_self none = refl
same_node_self (some k) = ground arith

-- After `onShutdown`.
abbrev closed : Bool → Codec → Codec
closed true s = record s { log = shutdown_completed ∷ s.log }
closed false s = record s {
  phase = uninitialized;
  node = none;
  secure = false;
  native_window = false;
  log = shutdown_completed ∷ node_freed ∷ s.log;
}

abbrev ended : Codec → Codec
ended s =
    closed s.keep_component
      (record s { phase = loaded; shutdown_in_progress = false; keep_component = false })

module _ (o : Outside) (obliging : Obliging o) where
  on_shutdown-eq : (keep : Bool) (s : Codec) → on_shutdown o keep s ≡ done (tt, closed keep s)
  unfolding on_shutdown free_node
  on_shutdown-eq true s = refl
  on_shutdown-eq false s = rw (obliging.frees_node) refl

  enter_loaded-eq :
      (s : Codec) → s.shutdown_in_progress ≡ true → enter_loaded o s ≡ done (tt, ended s)
  unfolding enter_loaded
  enter_loaded-eq s going =
      ap
        (λ (c : Bool).
          (if c
              then modify (λ s. record s { shutdown_in_progress = false; keep_component = false })
                >> on_shutdown o s.keep_component
              else return tt)
            (record s { phase = loaded }))
        going
      ∙ on_shutdown-eq s.keep_component
          (record s { phase = loaded; shutdown_in_progress = false; keep_component = false })

  idle_done-eq :
      (s : Codec)
      → s.phase ≡ executing_to_idle
      → all_your_buffers_are_belong_to_us s ≡ true
      → receive 2 o (idle_done s) s
        ≡ done (true, all_freed (record s { now_idle = true }) (left_log o s))
  unfolding receive on_message dispatch executing_to_idle_message base_message on_omx_message
      on_event_message executing_to_idle_event all_your_buffers_are_belong_to_us
  idle_done-eq s phase home =
      let enter = process_deferred_messages (receive 1 o) in
      let s1 = record s { now_idle = true } in
      ap (λ x. dispatch o enter x (idle_done s) s) phase
      ∙ ap
          (λ c. (check c >> executing_to_idle_event o (cmd_complete (state_set_done state_idle))) s)
          (same_node_self s.node)
      ∙ then_eq (leave_idle_if_home o) (return true) s1 (leave_idle o obliging s1 refl home) refl

  loaded_done-eq :
      (s : Codec)
      → s.phase ≡ idle_to_loaded
      → s.shutdown_in_progress ≡ true
      → receive 2 o (loaded_done s) s ≡ done (true, ended s)
  unfolding receive on_message dispatch idle_to_loaded_message base_message on_omx_message
      on_event_message idle_to_loaded_event
  loaded_done-eq s phase going =
      let enter = process_deferred_messages (receive 1 o) in
      ap (λ x. dispatch o enter x (loaded_done s) s) phase
      ∙ ap (λ c. (check c >> idle_to_loaded_event o (cmd_complete (state_set_done state_loaded))) s)
          (same_node_self s.node)
      ∙ then_eq (enter_loaded o) (return true) s (enter_loaded-eq s going) refl

closed-ShutDown :
    (o : Outside) (s t : Codec) (keep : Bool)
    → s.keep_component ≡ keep
    → t.phase ≡ loaded
    → t.node ≡ s.node
    → t.inputs ≡ []
    → t.outputs ≡ []
    → t.input_dealer ≡ false
    → t.output_dealer ≡ false
    → t.shutdown_in_progress ≡ false
    → t.log ≡ left_log o s
    → ShutDown o s (closed keep t)
closed-ShutDown o s t true k p n i j d d' g w = record {
  phase_lem = rw k p;
  node_lem = rw k n;
  no_inputs = i;
  no_outputs = j;
  no_dealers = (d, d');
  done_with = g;
  told = rw (k, w) refl;
}
closed-ShutDown o s t false k p n i j d d' g w = record {
  phase_lem = rw k refl;
  node_lem = rw k refl;
  no_inputs = i;
  no_outputs = j;
  no_dealers = (d, d');
  done_with = g;
  told = rw (k, w) refl;
}

-- A shutdown ends: in ExecutingToIdleState, once every buffer is with the codec or the window, the
-- completions of the two commands leave the codec uninitialized with its node freed, or loaded with
-- the node kept if that was asked for, with no buffers and no dealers. The calls on the way are, in
-- this order, the command for the loaded state, freeing each input buffer and then each output
-- buffer (one that the codec has is cancelled before), the blank buffers of a secure codec with a
-- window, freeing the node if it is not kept, and kWhatShutdownCompleted. No CHECK of an answer
-- fails, which is a condition.
pub shutdown-Ends :
    (o o' : Outside) (s : Codec)
    → Obliging o
    → Obliging o'
    → s.phase ≡ executing_to_idle
    → s.shutdown_in_progress ≡ true
    → all_your_buffers_are_belong_to_us s ≡ true
    → (s' : Codec) × (run ((o, idle_done s) ∷ (o', loaded_done s) ∷ []) s ≡ done (tt, s'))
      × ShutDown o s s'
unfolding run
shutdown-Ends o o' s ob ob' phase going home =
    let first = idle_done-eq o ob s phase home in
    let s1 = all_freed (record s { now_idle = true }) (left_log o s) in
    (
      ended s1,
      then_eq (receive 2 o (idle_done s)) _ s first
          (then_eq (receive 2 o' (loaded_done s)) _ s1 (loaded_done-eq o' ob' s1 refl going) refl),
      closed-ShutDown o s _ s.keep_component refl refl refl refl refl refl refl refl refl,
    )
