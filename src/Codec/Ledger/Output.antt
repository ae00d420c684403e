-- ===== src/Codec/Ledger/Output.antt =====
-- frameworks/av/media/libstagefright/ACodec.cpp: buffers that the client drained, and the messages
-- that BaseState handles, keep mStatus and the log together.
use mathlib.Core.Option.{some-injective}
use how_to_miracast_on_aosp.Prelude.{
  ℕ, ◌≡◌, refl, sym, ◌∙◌, subst, Bool, true, false, ◌&&◌, Option, none, some, ◌==◌, if◌then◌else◌,
  arith, get_elem?,
}
use how_to_miracast_on_aosp.Prelude.Outcome.{Outcome, done, blocked, fault, Ensures}
use how_to_miracast_on_aosp.Rtsp.Machine.{◌>>=◌, ◌>>◌, return}
use how_to_miracast_on_aosp.Rtsp.Frame.{
  Still, Tame, weaken, Still-Tame, >>=-Tame, >>-Tame, return-Still, return-Tame, check-Still,
}
use how_to_miracast_on_aosp.Codec.{
  input, output, Owner, us, downstream, native_window, same_owner, Buffer, output_buffer_drained,
  queue_buffer, error_signalled, flush_done, all_ports, one_port, other_port, OmxEvent,
  cmd_complete, state_set_done, port_disabled, port_enabled, other_done, port_settings_changed,
  error_event, buffer_flag, other_event, OmxMessage, event, empty_done, fill_done, unknown_message,
  Message, setup, allocate_component, configure_component, start, flush, resume, request_idr_frame,
  shutdown, input_filled, output_drained, omx, Codec, M, get, buffer_at, arrives, signal_error,
  error_undefined, unknown_error,
}
use how_to_miracast_on_aosp.Codec.Outside.{Outside}
use how_to_miracast_on_aosp.Codec.Buffers.{at_home, dequeue_buffer_from_native_window}
use how_to_miracast_on_aosp.Codec.Base.{
  Mode, keep_buffers, resubmit_buffers, free_buffers, Methods, same_node, fill, render,
  next_to_fill, fill_option, after_drained, on_output_buffer_drained, base_event, on_event_message,
  on_omx_message, base_message,
}
use how_to_miracast_on_aosp.Codec.Ledger.{legal, leaves, whither}
use how_to_miracast_on_aosp.Codec.Ledger.Steps.{
  Keeps, custody_frame, get-Still, >>-Kept, At, From, FromTo, Tame-From, Still-FromTo, if-FromTo,
  weaken-FromTo, >>=-From, >>-From, read_then,
}
use how_to_miracast_on_aosp.Codec.Ledger.Moves.{emit-Still, pass-FromTo, silent}
use how_to_miracast_on_aosp.Codec.Ledger.Buffers.{free_buffer_at-Tame, Ready, Gives, dequeue-Gives}
use how_to_miracast_on_aosp.Codec.Ledger.Base.{fail-Still, returned-Tame, queue_legal, filled-Tame}
use how_to_miracast_on_aosp.Codec.Ledger.Base.Done.{emptied-Tame, fill_done-Tame, fill-From}

us_at_home : (x : Owner) → same_owner us x ≡ true → at_home x ≡ true
us_at_home x h = ground arith

window_at_home : (x : Owner) → same_owner native_window x ≡ true → at_home x ≡ true
window_at_home x h = ground arith

home_not_window :
    (x : Owner) → at_home x ≡ true → same_owner x native_window ≡ false → same_owner us x ≡ true
home_not_window x h k = ground arith

pub signal-Still : (e internal : ℕ) → Still (signal_error e internal)
unfolding silent
signal-Still e internal = emit-Still (error_signalled e internal) refl

-- A call whose result is not used.
pub then_return : {A B : Type 0} (m : M A) (b : B) → Tame m → Tame (m >> return b)
then_return m b h = >>-Kept m (return b) h (return-Tame Codec b)

module _ (o : Outside) where
  render-FromTo : (i : ℕ) → FromTo output i (same_owner us) at_home (render o i)
  unfolding render whither arrives
  render-FromTo i =
      if-FromTo output i (same_owner us) at_home _ _ (o.queue_status == 0)
        (weaken-FromTo output i (same_owner us) (same_owner native_window) at_home _ window_at_home
          (pass-FromTo output i queue_buffer (same_owner us) queue_legal refl))
        (weaken-FromTo output i (same_owner us) (same_owner us) at_home _ us_at_home
          (Still-FromTo output i (same_owner us) _ (signal-Still error_undefined o.queue_status)))

  next_cases :
      (i : ℕ) (s : Codec) (b : Buffer) (c : Bool)
      → get_elem? s.outputs i ≡ some b
      → (c ≡ false → same_owner us b.status ≡ true)
      → Ensures
          (λ (r : Option ℕ × Codec). Keeps s r.1 × Ready r.0 r.1)
          ((if c then dequeue_buffer_from_native_window o else return (some i)) s)
  unfolding Gives
  next_cases i s b true e h = dequeue-Gives o s
  next_cases i s b false e h = (λ ok. ok, (b, e, h refl))

  next-Ready :
      (i : ℕ) (s : Codec)
      → At output i at_home s
      → Ensures (λ (r : Option ℕ × Codec). Keeps s r.1 × Ready r.0 r.1) (next_to_fill o i s)
  unfolding next_to_fill buffer_at
  next-Ready i s (b, e, home) =
      read_then _ s (get_elem? s.outputs i) (λ (r : Option ℕ × Codec). Keeps s r.1 × Ready r.0 r.1)
        λ c f.
          let home' : at_home c.status ≡ true =
            subst (λ (x : Buffer). at_home x.status ≡ true) (some-injective b c (sym e ∙ f)) home in
          next_cases i s c (same_owner c.status native_window) f (home_not_window c.status home')

  fill-Ready :
      (s : Codec) (m : Outcome (Option ℕ × Codec))
      → Ensures (λ (r : Option ℕ × Codec). Keeps s r.1 × Ready r.0 r.1) m
      → Ensures
          (λ (r : Unit {0} × Codec). Keeps s r.1)
          (elim m [ done (a, s') ↦ fill_option o a s' | blocked ↦ blocked | fault ↦ fault ])
  unfolding fill_option From
  fill-Ready s (done (none, s')) h = h.0
  fill-Ready s (done (some j, s')) h =
      weaken (λ r. Keeps s' r.1) (λ r. Keeps s r.1) (fill o j s') (λ r g ok. g (h.0 ok))
        (fill-From o j s' h.1)
  fill-Ready s blocked h = tt
  fill-Ready s fault h = tt

  drop-Ready :
      (s : Codec) (m : Outcome (Option ℕ × Codec))
      → Ensures (λ (r : Option ℕ × Codec). Keeps s r.1 × Ready r.0 r.1) m
      → Ensures
          (λ (r : Unit {0} × Codec). Keeps s r.1)
          (elim m [ done (a, s') ↦ done (tt, s') | blocked ↦ blocked | fault ↦ fault ])
  drop-Ready s (done (a, s')) h = h.0
  drop-Ready s blocked h = tt
  drop-Ready s fault h = tt

  refill_cases :
      (i : ℕ) (s : Codec) (c : Bool)
      → At output i at_home s
      → Ensures
          (λ (r : Unit {0} × Codec). Keeps s r.1)
          ((if c then return tt else next_to_fill o i >>= fill_option o) s)
  refill_cases i s true at = λ ok. ok
  refill_cases i s false at = fill-Ready s (next_to_fill o i s) (next-Ready i s at)

  after_drained-From : (mode : Mode) (i : ℕ) → From output i at_home (after_drained o mode i)
  unfolding after_drained From
  after_drained-From keep_buffers i s at = drop-Ready s (next_to_fill o i s) (next-Ready i s at)
  after_drained-From resubmit_buffers i s at = refill_cases i s s.output_eos at
  after_drained-From free_buffers i s at =
      Tame-From output i at_home _ (free_buffer_at-Tame o output i) s at

  drained_rest :
      (mode : Mode) (wants : Bool) (i : ℕ)
      → From output i (same_owner us) (
          get >>= λ s.
          (if s.native_window && wants then render o i else return tt) >> after_drained o mode i)
  drained_rest mode wants i =
      >>=-From output i (same_owner us) (same_owner us) get _
        (Still-FromTo output i (same_owner us) get get-Still)
        λ s.
          >>-From output i (same_owner us) at_home _ _
            (if-FromTo output i (same_owner us) at_home _ _ (s.native_window && wants)
              (render-FromTo i)
              (weaken-FromTo output i (same_owner us) (same_owner us) at_home _ us_at_home
                (Still-FromTo output i (same_owner us) _ (return-Still Codec tt))))
            (after_drained-From mode i)

  drained-Tame :
      (mode : Mode) (k : ℕ) (wants : Bool) → Tame (on_output_buffer_drained o mode k wants)
  unfolding on_output_buffer_drained whither arrives legal leaves
  drained-Tame mode k wants =
      returned-Tame output k downstream output_buffer_drained _ (λ y h. ground arith) refl
        (drained_rest mode wants)

  pub base_event-Tame : (e : OmxEvent) → Tame (base_event o e)
  unfolding base_event
  base_event-Tame (error_event e) = then_return _ true (Still-Tame _ (signal-Still e unknown_error))
  base_event-Tame (cmd_complete c) = return-Tame Codec false
  base_event-Tame (port_settings_changed p s) = return-Tame Codec false
  base_event-Tame buffer_flag = return-Tame Codec false
  base_event-Tame other_event = return-Tame Codec false

  -- What a state overrides.
  pub record Safe (methods : Methods) : Type 0 where
    pub on_event-Safe : (e : OmxEvent) → Tame (methods.on_event e)
    pub after_client-Safe : Tame methods.after_client

  module _ (methods : Methods) (safe : Safe methods) where
    event_message-Tame : (e : OmxEvent) → Tame (on_event_message o methods e)
    unfolding on_event_message
    event_message-Tame (cmd_complete (flush_done all_ports)) = return-Tame Codec true
    event_message-Tame (cmd_complete (flush_done (one_port p))) = safe.on_event-Safe _
    event_message-Tame (cmd_complete (flush_done other_port)) = safe.on_event-Safe _
    event_message-Tame (cmd_complete (state_set_done s)) = safe.on_event-Safe _
    event_message-Tame (cmd_complete (port_disabled p)) = safe.on_event-Safe _
    event_message-Tame (cmd_complete (port_enabled p)) = safe.on_event-Safe _
    event_message-Tame (cmd_complete other_done) = safe.on_event-Safe _
    event_message-Tame (port_settings_changed p s) = safe.on_event-Safe _
    event_message-Tame (error_event e) = safe.on_event-Safe _
    event_message-Tame buffer_flag = safe.on_event-Safe _
    event_message-Tame other_event = safe.on_event-Safe _

    omx_message-Tame : (m : OmxMessage) → Tame (on_omx_message o methods m)
    unfolding on_omx_message
    omx_message-Tame (event e) = event_message-Tame e
    omx_message-Tame (empty_done k media) =
        then_return _ true (emptied-Tame o (methods.mode input) k media)
    omx_message-Tame (fill_done k d) =
        then_return _ true (fill_done-Tame o (methods.mode output) k d)
    omx_message-Tame unknown_message = Still-Tame _ (fail-Still Bool)

    pub base_message-Tame : (m : Message) → Tame (base_message o methods m)
    unfolding base_message
    base_message-Tame (input_filled k f err) =
        >>-Kept _ _ (filled-Tame o (methods.mode input) k f err)
          (then_return _ true safe.after_client-Safe)
    base_message-Tame (output_drained k wants) =
        >>-Kept _ _ (drained-Tame (methods.mode output) k wants)
          (then_return _ true safe.after_client-Safe)
    base_message-Tame (omx node m) =
        >>=-Tame _ get get-Still
          λ s. >>-Tame _ _ (check-Still Codec (same_node node s.node)) (omx_message-Tame m)
    base_message-Tame setup = return-Tame Codec false
    base_message-Tame allocate_component = return-Tame Codec false
    base_message-Tame configure_component = return-Tame Codec false
    base_message-Tame start = return-Tame Codec false
    base_message-Tame flush = return-Tame Codec false
    base_message-Tame resume = return-Tame Codec false
    base_message-Tame request_idr_frame = return-Tame Codec false
    base_message-Tame (shutdown keep) = return-Tame Codec false
