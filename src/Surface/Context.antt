-- ===== src/Surface/Context.antt =====
-- frameworks/native/libs/gui/SurfaceTexture.cpp: `syncForReleaseLocked`, `attachToContext` and
-- `detachFromContext`.
use how_to_miracast_on_aosp.Prelude.{
  ℕ, true, false, not, ◌&&◌, ◌||◌, List, [], ◌∷◌, none, some, ◌==◌, if◌then◌else◌,
}
use how_to_miracast_on_aosp.Rtsp.Machine.{◌>>=◌, ◌>>◌, return}
use how_to_miracast_on_aosp.Surface.{
  Slot, M, Outside, unknown_error, no_init, invalid_operation, timed_out, get, modify, other_than,
  read_slot, write_slot, destroy_image, create_image,
}

-- The loop over the slots, which gives their images back.
unfoldable pub drop_images : List Slot → M (List Slot)
drop_images [] = return []
drop_images (x ∷ xs) = do
  (if x.image == 0 then return tt else destroy_image x.image)
  rest ← drop_images xs
  return (record x { image = 0 } ∷ rest)

-- The next step where the one before returned OK.
abbrev pub on_ok : M ℕ → M ℕ → M ℕ
on_ok m next = m >>= λ err. if err == 0 then next else return err

module _ (o : Outside) where
  -- The fence that stands for the outstanding accesses to slot `i`, in the slot.
  unfoldable pub replace_fence : ℕ → Slot → M ℕ
  replace_fence i x =
      if o.sync == 0
      then return unknown_error
      else write_slot i (record x { fence = o.sync }) >> return 0

  unfoldable pub sync_fence : ℕ → M ℕ
  unfolding read_slot replace_fence
  sync_fence i = do
    x ← read_slot i
    if x.fence == 0 then replace_fence i x else elim o.wait_result [
      | none ↦ return unknown_error
      | some expired ↦ if expired then return timed_out else replace_fence i x
    ]

  unfoldable pub sync_for_release : M ℕ
  unfolding sync_fence
  sync_for_release = do
    s ← get
    elim s.current [
      | none ↦ return 0
      | some i ↦
          if o.native_fence_sync
          then if o.sync == 0 || not o.fence_fd
            then return unknown_error
            else return o.add_fence_status
          else if o.use_fence_sync
          then sync_fence i
          else return 0
    ]

  unfoldable pub leave_context : M ℕ
  unfolding drop_images
  leave_context = do
    s ← get
    slots ← drop_images s.slots
    modify λ s. record s { slots = slots; display = 0; context = 0; attached = false }
    return 0

  unfoldable pub detach_from_context : M ℕ
  unfolding sync_for_release leave_context
  detach_from_context = do
    s ← get
    if s.abandoned
        then return no_init
        else if not s.attached
        then return invalid_operation
        else if other_than s.display o.display || other_than s.context o.context
        then return invalid_operation
        else if not (o.display == 0) && not (o.context == 0)
        then on_ok sync_for_release leave_context
        else leave_context

  -- The image of the current buffer, only to bind it.
  unfoldable pub bind_current : M ℕ
  unfolding create_image
  bind_current = do
    image ← create_image o
    if image == 0
        then return unknown_error
        else destroy_image image >> return (if o.bind_error then unknown_error else 0)

  unfoldable pub enter_context : ℕ → M ℕ
  enter_context tex = do
    modify
        λ s. record s { display = o.display; context = o.context; tex_name = tex; attached = true }
    return 0

  unfoldable pub attach_to_context : ℕ → M ℕ
  unfolding bind_current enter_context
  attach_to_context tex = do
    s ← get
    if s.abandoned
        then return no_init
        else if s.attached || (o.display == 0 || o.context == 0)
        then return invalid_operation
        else if s.current_buffer
        then on_ok bind_current (enter_context tex)
        else enter_context tex
