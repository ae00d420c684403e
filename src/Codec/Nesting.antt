-- ===== src/Codec/Nesting.antt =====
-- frameworks/av/media/libstagefright/ACodec.cpp: messages that were deferred are not deferred into
-- a nesting of handlers.
use mathlib.Core.Path.{fun_ext}
use how_to_miracast_on_aosp.Prelude.{ℕ, suc, ◌≡◌, refl, ap, Bool, List, [], ◌∷◌}
use how_to_miracast_on_aosp.Prelude.Outcome.{Outcome, done, blocked, fault}
use how_to_miracast_on_aosp.Codec.{
  Phase, uninitialized, loaded, loaded_to_idle, idle_to_executing, executing,
  output_port_settings_changed, executing_to_idle, idle_to_loaded, flushing, Message, Deferred,
  later_flush, later_resume, later_shutdown, later_settings, as_message, Codec, M,
}
use how_to_miracast_on_aosp.Codec.Outside.{Outside}
use how_to_miracast_on_aosp.Codec.Base.{base_message, on_omx_message, on_event_message}
use how_to_miracast_on_aosp.Codec.States.Events.{
  idle_to_executing_event, port_changed_event, flushing_event,
}
use how_to_miracast_on_aosp.Codec.Dispatch.{
  idle_to_executing_message, port_changed_message, flushing_message, dispatch, on_message,
  deliver_all, process_deferred_messages, receive,
}

module _ (o : Outside) where
  -- What entering ExecutingState does has no part in the handling of such a message.
  dispatch-deferred :
      (enter enter' : M (Unit {0})) (phase : Phase) (d : Deferred)
      → dispatch o enter phase (as_message d) ≡ dispatch o enter' phase (as_message d)
  unfolding dispatch as_message idle_to_executing_message port_changed_message flushing_message
      base_message on_omx_message on_event_message idle_to_executing_event port_changed_event
      flushing_event
  dispatch-deferred e f idle_to_executing later_flush = refl
  dispatch-deferred e f idle_to_executing later_resume = refl
  dispatch-deferred e f idle_to_executing (later_shutdown keep) = refl
  dispatch-deferred e f idle_to_executing (later_settings n p x) = refl
  dispatch-deferred e f output_port_settings_changed later_flush = refl
  dispatch-deferred e f output_port_settings_changed later_resume = refl
  dispatch-deferred e f output_port_settings_changed (later_shutdown keep) = refl
  dispatch-deferred e f output_port_settings_changed (later_settings n p x) = refl
  dispatch-deferred e f flushing later_flush = refl
  dispatch-deferred e f flushing later_resume = refl
  dispatch-deferred e f flushing (later_shutdown keep) = refl
  dispatch-deferred e f flushing (later_settings n p x) = refl
  dispatch-deferred e f uninitialized d = refl
  dispatch-deferred e f loaded d = refl
  dispatch-deferred e f loaded_to_idle d = refl
  dispatch-deferred e f executing d = refl
  dispatch-deferred e f executing_to_idle d = refl
  dispatch-deferred e f idle_to_loaded d = refl

  on_message-deferred :
      (enter enter' : M (Unit {0})) (d : Deferred) (s : Codec)
      → on_message o enter (as_message d) s ≡ on_message o enter' (as_message d) s
  unfolding on_message
  on_message-deferred e f d s = ap (λ (m : M Bool). m s) (dispatch-deferred e f s.phase d)

  bind_cong :
      {A B : Type 0} (m m' : Outcome (A × Codec)) (k k' : A → M B)
      → m ≡ m'
      → ((a : A) (s : Codec) → k a s ≡ k' a s)
      → ◌≡◌ {A = Outcome (B × Codec)}
          (elim m [ done (a, s) ↦ k a s | blocked ↦ blocked | fault ↦ fault ])
          (elim m' [ done (a, s) ↦ k' a s | blocked ↦ blocked | fault ↦ fault ])
  bind_cong m (done (a, s)) k k' e h = rw e (h a s)
  bind_cong m blocked k k' e h = rw e refl
  bind_cong m fault k k' e h = rw e refl

  deliver-deferred :
      (enter enter' : M (Unit {0})) (ds : List Deferred) (s : Codec)
      → deliver_all (on_message o enter) ds s ≡ deliver_all (on_message o enter') ds s
  unfolding deliver_all
  deliver-deferred e f [] s = refl
  deliver-deferred e f (d ∷ ds) s =
      bind_cong (on_message o e (as_message d) s) (on_message o f (as_message d) s) _ _
        (on_message-deferred e f d s) (λ a s'. deliver-deferred e f ds s')

  process-deferred :
      (enter enter' : M (Unit {0}))
      → process_deferred_messages (on_message o enter)
        ≡ process_deferred_messages (on_message o enter')
  unfolding process_deferred_messages
  process-deferred e f = fun_ext λ s. deliver-deferred e f s.deferred (record s { deferred = [] })

-- The handlers of messages nest at most twice: with two or more calls allowed, a message is handled
-- as if the messages that it makes the codec deliver were handled with any step `enter` in place of
-- the entering of ExecutingState, so the bound on the calls under way is never met.
pub receive-nesting :
    (n : ℕ) (o : Outside) (m : Message) (enter : M (Unit {0}))
    → receive (suc (suc n)) o m ≡ on_message o (process_deferred_messages (on_message o enter)) m
unfolding receive
receive-nesting n o m enter =
    ap (λ (e : M (Unit {0})). on_message o e m)
      (process-deferred o (process_deferred_messages (receive n o)) enter)
