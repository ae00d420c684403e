-- ===== src/Codec/Shutdown.antt =====
-- frameworks/av/media/libstagefright/ACodec.cpp: freeing the buffers at the end of a shutdown.
pub mod Ends
pub mod Lists
use how_to_miracast_on_aosp.Prelude.{
  ◌++◌, sym, get_elem?-set_here, ℕ, zero, suc, ◌+◌, ◌≡◌, refl, sym, ap, ◌∙◌, Bool, true, false, not,
  ◌&&◌, ◌||◌, List, [], ◌∷◌, Option, none, some, ◌==◌, if◌then◌else◌, length, get_elem?, set, arith,
  Bool-cases, inl, inr,
}
use how_to_miracast_on_aosp.Prelude.Outcome.{Outcome, done, blocked, fault}
use how_to_miracast_on_aosp.Rtsp.Machine.{◌>>=◌, ◌>>◌, return, check}
use how_to_miracast_on_aosp.Codec.{
  Port, input, output, Owner, us, native_window, same_owner, Buffer, cancel_buffer, free_buffer,
  Event, transfer, shutdown_completed, Codec, M, modify, state_loaded, state_idle, state_set,
  send_command, idle_to_loaded, Command, blank_buffers, emit, buffers, with_buffers, buffer_at,
  arrives, pass,
}
use how_to_miracast_on_aosp.Codec.Blank.{push_blank_buffers}
use how_to_miracast_on_aosp.Codec.Outside.{Outside}
use how_to_miracast_on_aosp.Codec.Buffers.{
  is_output, at_home, all_home, cancel_buffer_to_native_window, remove_at, release, free_buffer_at,
  free_down, free_buffers_on_port, clear_dealer, all_your_buffers_are_belong_to_us,
}
use how_to_miracast_on_aosp.Codec.States.{enter, blank_now, command, leave_idle_if_home}
use how_to_miracast_on_aosp.Codec.Shutdown.Lists.{
  free_events, frees, frees-remove, remove-set, last_buffer, length-remove, all_home-remove,
  empty_of_length, then_eq,
}

-- No CHECK of an answer fails.
pub record Obliging (o : Outside) : Type 0 where
  pub commands : o.command_ok ≡ true
  pub frees_ok : o.free_ok ≡ true
  pub cancels : o.cancel_ok ≡ true
  pub frees_node : o.free_node_ok ≡ true

abbrev blank_event : Outside → Event
blank_event o = blank_buffers (push_blank_buffers o.blank).calls

abbrev pub all_freed : (s : Codec) → List Event → Codec
all_freed s l = record s {
  phase = idle_to_loaded;
  inputs = [];
  outputs = [];
  input_dealer = false;
  output_dealer = false;
  log = l;
}

-- The log once the codec is idle no more: the command, the buffers freed, and for a secure codec
-- the blank buffers.
abbrev pub left_log : Outside → Codec → List Event
left_log o s =
    let freed_both =
      frees s.native_window output s.outputs
      ++ (frees s.native_window input s.inputs ++ send_command (state_set state_loaded) ∷ s.log) in
    if s.secure && s.native_window then blank_event o ∷ freed_both else freed_both

module _ (o : Outside) (obliging : Obliging o) where
  open obliging use {frees_ok, cancels}

  -- The state after the last buffer of a port was freed, with the new log.
  abbrev freed : Port → ℕ → List Event → Codec → Codec
  freed p i l s = with_buffers p (remove_at i (buffers p s)) (record s { log = l })

  free-output :
      (i : ℕ) (s : Codec) (b : Buffer)
      → get_elem? s.outputs i ≡ some b
      → at_home b.status ≡ true
      → free_buffer_at o output i s
        ≡ done (tt, freed output i (free_events s.native_window output b ++ s.log) s)
  unfolding free_buffer_at buffer_at release cancel_buffer_to_native_window pass arrives
  free-output i s b e h = ground (
    arith,
    frees_ok,
    cancels,
    get_elem?-set_here s.outputs i b (record b { status = native_window }) e,
    remove-set i s.outputs (record b { status = native_window }),
  )

  free_last :
      (p : Port) (i : ℕ) (s : Codec) (b : Buffer)
      → get_elem? (buffers p s) i ≡ some b
      → at_home b.status ≡ true
      → free_buffer_at o p i s ≡ done (tt, freed p i (free_events s.native_window p b ++ s.log) s)
  unfolding free_buffer_at buffer_at release
  free_last input i s b e h = ground (arith, frees_ok)
  free_last output i s b e h = free-output i s b e h

  buffers-freed :
      (p : Port) (i : ℕ) (l : List Event) (s : Codec)
      → buffers p (freed p i l s) ≡ remove_at i (buffers p s)
  buffers-freed input i l s = refl
  buffers-freed output i l s = refl

  -- The port without buffers, with the new log.
  abbrev emptied : Port → List Event → Codec → Codec
  emptied p l s = with_buffers p [] (record s { log = l })

  no_buffers : (p : Port) (s : Codec) → length (buffers p s) ≡ 0 → s ≡ emptied p s.log s
  no_buffers input s e = ap (λ bs. record s { inputs = bs }) (empty_of_length s.inputs e)
  no_buffers output s e = ap (λ bs. record s { outputs = bs }) (empty_of_length s.outputs e)

  -- The log once all buffers of a port are freed.
  abbrev freed_log : Port → Codec → List Event
  freed_log p s = frees s.native_window p (buffers p s) ++ s.log

  emptied-freed :
      (p : Port) (i : ℕ) (l : List Event) (s : Codec)
      → emptied p (freed_log p (freed p i l s)) (freed p i l s)
        ≡ emptied p (frees s.native_window p (remove_at i (buffers p s)) ++ l) s
  emptied-freed input i l s = refl
  emptied-freed output i l s = refl

  free_all :
      (p : Port) (n : ℕ) (s : Codec)
      → length (buffers p s) ≡ n
      → all_home (buffers p s) ≡ true
      → free_down o p n s ≡ done (tt, emptied p (freed_log p s) s)
  unfolding free_down
  free_all p zero s e h =
      ap (λ s'. done (tt, s')) (no_buffers p s e)
      ∙ ap (λ bs. done (tt, emptied p (frees s.native_window p bs ++ s.log) s))
          (sym (empty_of_length (buffers p s) e))
  free_all p (suc i) s e h =
      let (b, found, home) = last_buffer i (buffers p s) e h in
      let l = free_events s.native_window p b ++ s.log in
      let rest =
        free_all p i (freed p i l s) (rw (buffers-freed p i l s) (length-remove i (buffers p s) e))
          (rw (buffers-freed p i l s) (all_home-remove i (buffers p s) h)) in
      then_eq (free_buffer_at o p i) (free_down o p i) s (free_last p i s b found home) (
        rest
        ∙ ap (λ s'. done (tt, s')) (emptied-freed p i l s)
        ∙ ap (λ k. done (tt, emptied p k s))
            (frees-remove s.native_window p i (buffers p s) b s.log e found))

  port_freed :
      (p : Port) (s : Codec)
      → all_home (buffers p s) ≡ true
      → free_buffers_on_port o p s ≡ done (tt, clear_dealer p (emptied p (freed_log p s) s))
  unfolding free_buffers_on_port
  port_freed p s h =
      then_eq (free_down o p (length (buffers p s))) (modify (clear_dealer p)) s
        (free_all p (length (buffers p s)) s refl h) refl

  command-eq :
      (c : Command) (s : Codec)
      → command o c s ≡ done (tt, record s { log = send_command c ∷ s.log })
  unfolding command
  command-eq c s = rw (obliging.commands) refl

  leave_rest :
      (c : Bool) (s : Codec)
      → ((if c then blank_now o else return tt) >> enter idle_to_loaded) s
        ≡ done (
          tt,
          record s { phase = idle_to_loaded; log = if c then blank_event o ∷ s.log else s.log },
        )
  leave_rest true s = refl
  leave_rest false s = refl

  -- The calls of `changeStateIfWeOwnAllBuffers`.
  abbrev leave_steps : Bool → M (Unit {0})
  leave_steps blank =
      command o (state_set state_loaded)
      >> (free_buffers_on_port o input
          >> (free_buffers_on_port o output
              >> ((if blank then blank_now o else return tt) >> enter idle_to_loaded)))

  pub leave_idle :
      (s : Codec)
      → s.now_idle ≡ true
      → all_your_buffers_are_belong_to_us s ≡ true
      → leave_idle_if_home o s ≡ done (tt, all_freed s (left_log o s))
  unfolding leave_idle_if_home command all_your_buffers_are_belong_to_us
  leave_idle s idle home =
      let s1 = record s { log = send_command (state_set state_loaded) ∷ s.log } in
      let s2 = clear_dealer input (emptied input (freed_log input s1) s1) in
      let blank = s.secure && s.native_window in
      let go : (s.now_idle && all_your_buffers_are_belong_to_us s) ≡ true = ground arith in
      ap (λ (c : Bool). (if c then leave_steps blank else return tt) s) go
      ∙ then_eq (command o (state_set state_loaded)) _ s (command-eq (state_set state_loaded) s) (
          then_eq (free_buffers_on_port o input) _ s1 (port_freed input s1 (ground arith)) (
            then_eq (free_buffers_on_port o output) _ s2 (port_freed output s2 (ground arith))
              (leave_rest blank (clear_dealer output (emptied output (freed_log output s2) s2)))))
