-- ===== src/Surface/Images/Calls.antt =====
-- frameworks/native/libs/gui/SurfaceTexture.cpp: the EGL images over a history of calls.
use how_to_miracast_on_aosp.Prelude.{
  ℕ, Bool, not, ◌||◌, List, [], ◌∷◌, Option, none, some, ◌==◌, arith, Option-cases, inl, inr,
}
use how_to_miracast_on_aosp.Prelude.Outcome.{Ensures}
use how_to_miracast_on_aosp.Rtsp.Frame.{Still, weaken, >>=-Still, >>-Still, if-Still, return-Still}
use how_to_miracast_on_aosp.Surface.{
  Surface, Outside, get, modify, unknown_error, no_init, invalid_operation, other_than,
}
use how_to_miracast_on_aosp.Surface.Crop.{set_default_buffer_size}
use how_to_miracast_on_aosp.Surface.Update.{
  acquire_buffer, release_current, show_buffer, use_buffer, update_acquired, update_tex_image, Call,
  update, attach, detach, resize, free, give_up, call, calls,
}
use how_to_miracast_on_aosp.Surface.Images.{
  Kept, Watched, for_all, Accounted, image_frame, get-Still, abandon-Still, free_buffer-Still,
  drop_stale-Still, ensure_image-Still, release_buffer-Still, sync_for_release-Still, detach-Still,
  attach-Still,
}

module _ ⦃watched : Watched⦄ where
  module _ (o : Outside) where
    acquire_buffer-Still : Still (acquire_buffer o)
    unfolding acquire_buffer
    acquire_buffer-Still =
        if-Still _ _ (o.acquire_status == 0)
          (>>-Still _ _ (drop_stale-Still o) (ensure_image-Still o))
          (return-Still Surface o.acquire_status)

    release_current-Still :
        (stale : ℕ) (current : Option ℕ) → Still (release_current o stale current)
    unfolding release_current
    release_current-Still stale none = return-Still Surface 0
    release_current-Still stale (some i) =
        >>=-Still _ _ (release_buffer-Still o i) λ status. return-Still Surface _

    show_buffer-Still : (is_sink : Bool) → Still (show_buffer o is_sink)
    unfolding show_buffer Still
    show_buffer-Still is_sink s ok = ok

    use_buffer-Still : (stale : ℕ) (is_sink : Bool) → Still (use_buffer o stale is_sink)
    unfolding use_buffer
    use_buffer-Still stale is_sink =
        >>=-Still _ _
          (if-Still _ _ o.bind_error (return-Still Surface unknown_error)
            (sync_for_release-Still o))
          λ bound.
            if-Still _ _ (bound == 0)
              (>>=-Still _ get get-Still λ s.
                >>=-Still _ _ (release_current-Still stale s.current)
                  λ err. >>-Still _ _ (show_buffer-Still is_sink) (return-Still Surface err))
              (>>-Still _ _ (release_buffer-Still o o.slot) (return-Still Surface bound))

    update_acquired-Still : (stale : ℕ) (is_sink : Bool) → Still (update_acquired o stale is_sink)
    unfolding update_acquired Still
    update_acquired-Still stale is_sink s = elim (Option-cases o.rejects) [
      | inl e ↦ ground (arith, use_buffer-Still stale is_sink s)
      | inr (rejected, e) ↦
          ground (arith, use_buffer-Still stale is_sink s, release_buffer-Still o o.slot s)
    ]

    enter_display-Still :
        Still (modify (λ s. record s { display = o.display; context = o.context }))
    unfolding Still
    enter_display-Still s ok = ok

    update-Still :
        (is_error : ℕ → Bool) (stale : ℕ) (is_sink : Bool)
        → Still (update_tex_image o is_error stale is_sink)
    unfolding update_tex_image
    update-Still is_error stale is_sink = >>=-Still _ get get-Still λ s.
        if-Still _ _ s.abandoned (return-Still Surface no_init) (
          if-Still _ _ (not s.attached) (return-Still Surface invalid_operation) (
            if-Still _ _ (other_than s.display o.display || o.display == 0)
              (return-Still Surface invalid_operation)
              (if-Still _ _ (other_than s.context o.context || o.context == 0)
                (return-Still Surface invalid_operation)
                (>>-Still _ _ enter_display-Still (
                  >>=-Still _ _ acquire_buffer-Still λ err.
                    if-Still _ _ (err == 0) (update_acquired-Still stale is_sink)
                      (return-Still Surface _))))))

  resize-Still : (status w h : ℕ) → Still (set_default_buffer_size status w h)
  unfolding set_default_buffer_size Still
  resize-Still status w h s ok = ok

  call-Still : (c : Call) → Still (call c)
  unfolding call
  call-Still (update o is_error stale is_sink) =
      >>-Still _ _ (update-Still o is_error stale is_sink) (return-Still Surface tt)
  call-Still (attach o tex) = >>-Still _ _ (attach-Still o tex) (return-Still Surface tt)
  call-Still (detach o) = >>-Still _ _ (detach-Still o) (return-Still Surface tt)
  call-Still (resize status w h) = >>-Still _ _ (resize-Still status w h) (return-Still Surface tt)
  call-Still (free i) = free_buffer-Still i
  call-Still give_up = abandon-Still

  calls-Still : (cs : List Call) → Still (calls cs)
  unfolding calls
  calls-Still [] = return-Still Surface tt
  calls-Still (c ∷ cs) = >>-Still _ _ (call-Still c) (calls-Still cs)

-- No EGL image is lost or destroyed twice: over any history of calls of `updateTexImage`,
-- `attachToContext`, `detachFromContext`, `setDefaultBufferSize`, `freeBufferLocked` and
-- `abandonLocked`, with whatever answers, each image is destroyed as often as EGL gave it out, but
-- for the slots that hold it, if it is so before.
pub calls-Accounted :
    (cs : List Call) (s : Surface)
    → Accounted s
    → Ensures (λ (r : Unit {0} × Surface). Accounted r.1) (calls cs s)
unfolding Still
calls-Accounted cs s ok =
    for_all (λ k (r : Unit {0} × Surface). Kept k r.1) (calls cs s)
      λ k.
        weaken ⦃p = image_frame ⦃watched = record { image = k }⦄⦄ (λ r. Kept k s → Kept k r.1)
          (λ r. Kept k r.1) (calls cs s) (λ r h. h (ok k))
          (calls-Still ⦃watched = record { image = k }⦄ cs s)
