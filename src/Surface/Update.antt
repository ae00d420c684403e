-- ===== src/Surface/Update.antt =====
-- frameworks/native/libs/gui/SurfaceTexture.cpp: `acquireBufferLocked`, `releaseBufferLocked` and
-- `updateTexImage`.
use how_to_miracast_on_aosp.Prelude.{
  ℕ, ◌+◌, ◌/◌, ◌%◌, Bool, true, not, ◌&&◌, ◌||◌, List, [], ◌∷◌, Option, none, some, ◌==◌,
  if◌then◌else◌,
}
use how_to_miracast_on_aosp.Rtsp.Machine.{◌>>=◌, ◌>>◌, return}
use how_to_miracast_on_aosp.Surface.{
  M, Outside, unknown_error, no_init, invalid_operation, get, modify, other_than, read_slot,
  write_slot, destroy_image, create_image, free_buffer, abandon,
}
use how_to_miracast_on_aosp.Surface.Crop.{set_default_buffer_size}
use how_to_miracast_on_aosp.Surface.Context.{
  sync_for_release, attach_to_context, detach_from_context,
}

module _ (o : Outside) where
  -- A new buffer in the slot makes the image of the one before useless.
  unfoldable pub drop_stale : M (Unit {0})
  unfolding read_slot
  drop_stale = do
    x ← read_slot o.slot
    if o.new_buffer && not (x.image == 0)
        then destroy_image x.image >> write_slot o.slot (record x { image = 0 })
        else return tt

  unfoldable pub ensure_image : M ℕ
  unfolding read_slot create_image
  ensure_image = do
    x ← read_slot o.slot
    if x.image == 0
        then (do
          image ← create_image o
          if image == 0
              then return unknown_error
              else write_slot o.slot (record x { image = image }) >> return 0)
        else return 0

  unfoldable pub acquire_buffer : M ℕ
  unfolding drop_stale ensure_image
  acquire_buffer =
      if o.acquire_status == 0 then drop_stale >> ensure_image else return o.acquire_status

  unfoldable pub release_buffer : ℕ → M ℕ
  unfolding read_slot
  release_buffer i = do
    x ← read_slot i
    write_slot i (record x { fence = 0 })
    return o.release_status

  -- The buffer that was shown goes back; a stale slot is no error.
  unfoldable pub release_current : ℕ → Option ℕ → M ℕ
  unfolding release_buffer
  release_current stale_buffer_slot none = return 0
  release_current stale_buffer_slot (some i) = do
    status ← release_buffer i
    return (if status == stale_buffer_slot then 0 else status)

  -- `item.mTransform |= 0x04`
  abbrev pub rotated : ℕ → ℕ
  rotated t = if (t / 4) % 2 == 1 then t else t + 4

  unfoldable pub show_buffer : Bool → M (Unit {0})
  show_buffer is_sink_surface = modify λ s. record s {
    current = some o.slot;
    current_buffer = true;
    crop = o.item_crop;
    scaling_mode = o.item_scaling_mode;
    timestamp = o.item_timestamp;
    current_fence = o.item_fence;
    transform = elim o.rejects [
      | none ↦ o.item_transform
      | some _ ↦ if is_sink_surface then rotated o.item_transform else o.item_transform
    ];
  }

  -- `updateTexImage` with the buffer that was acquired.
  unfoldable pub use_buffer : ℕ → Bool → M ℕ
  unfolding sync_for_release release_buffer release_current show_buffer
  use_buffer stale_buffer_slot is_sink_surface = do
    bound ← (if o.bind_error then return unknown_error else sync_for_release o)
    if bound == 0
        then (do
          s ← get
          err ← release_current stale_buffer_slot s.current
          show_buffer is_sink_surface
          return err)
        else release_buffer o.slot >> return bound

  unfoldable pub update_acquired : ℕ → Bool → M ℕ
  unfolding use_buffer release_buffer
  update_acquired stale_buffer_slot is_sink_surface = elim o.rejects [
    | none ↦ use_buffer stale_buffer_slot is_sink_surface
    | some rejected ↦
        if rejected
        then release_buffer o.slot >> return 0
        else use_buffer stale_buffer_slot is_sink_surface
  ]

  -- `is_error` is whether a status of the queue is below 0; the others only bind the texture again.
  unfoldable pub update_tex_image : (ℕ → Bool) → ℕ → Bool → M ℕ
  unfolding acquire_buffer update_acquired
  update_tex_image is_error stale_buffer_slot is_sink_surface = do
    s ← get
    if s.abandoned
        then return no_init
        else if not s.attached
        then return invalid_operation
        else if other_than s.display o.display || o.display == 0
        then return invalid_operation
        else if other_than s.context o.context || o.context == 0
        then return invalid_operation
        else (do
          modify λ s. record s { display = o.display; context = o.context }
          err ← acquire_buffer
          if err == 0
              then update_acquired stale_buffer_slot is_sink_surface
              else return (if is_error err then err else 0))

-- The calls that reach a texture, each with what the parts outside answer to it.
pub data Call : Type 0 where
  update : Outside → (ℕ → Bool) → ℕ → Bool → Call
  attach : Outside → ℕ → Call
  detach : Outside → Call
  resize : ℕ → ℕ → ℕ → Call
  free : ℕ → Call
  give_up : Call

unfoldable pub call : Call → M (Unit {0})
unfolding update_tex_image attach_to_context detach_from_context set_default_buffer_size free_buffer
    abandon
call (update o is_error stale is_sink) = update_tex_image o is_error stale is_sink >> return tt
call (attach o tex) = attach_to_context o tex >> return tt
call (detach o) = detach_from_context o >> return tt
call (resize status w h) = set_default_buffer_size status w h >> return tt
call (free i) = free_buffer i
call give_up = abandon

unfoldable pub calls : List Call → M (Unit {0})
unfolding call
calls [] = return tt
calls (c ∷ cs) = call c >> calls cs
