-- ===== src/Surface.antt =====
-- frameworks/native/libs/gui/SurfaceTexture.cpp: the texture that shows the buffers of a queue.
-- EGL, GL, the buffer queue and ConsumerBase stand outside the repository: what they answer is an
-- argument, and the EGL images are listed where they are created and destroyed.
pub mod Context
pub mod Update
pub mod Images
pub mod Crop
use how_to_miracast_on_aosp.Prelude.{
  ℕ, zero, suc, ◌+◌, Bool, true, false, not, ◌&&◌, ◌||◌, List, [], ◌∷◌, Option, none, some, ◌==◌,
  if◌then◌else◌, get_elem?, set,
}
use how_to_miracast_on_aosp.Prelude.Int.{ℤ}
use how_to_miracast_on_aosp.Prelude.Outcome.{done, fault}
use how_to_miracast_on_aosp.Rtsp.Machine.{Run, ◌>>=◌, ◌>>◌, return}

-- `EGLSlot`; 0 is EGL_NO_IMAGE_KHR and EGL_NO_SYNC_KHR.
pub record Slot : Type 0 where
  pub image : ℕ
  pub fence : ℕ

pub record Rect : Type 0 where
  pub left : ℤ
  pub top : ℤ
  pub right : ℤ
  pub bottom : ℤ

-- `current` is mCurrentTexture, none for INVALID_BUFFER_SLOT; `current_buffer` is whether
-- mCurrentTextureBuf is set, and `current_fence` is mCurrentFence by a number; 0 is EGL_NO_DISPLAY
-- and EGL_NO_CONTEXT. `created` and `destroyed` list the images that EGL has made and taken back.
pub record Surface : Type 0 where
  pub abandoned : Bool
  pub attached : Bool
  pub display : ℕ
  pub context : ℕ
  pub tex_name : ℕ
  pub current : Option ℕ
  pub current_buffer : Bool
  pub crop : Rect
  pub transform : ℕ
  pub scaling_mode : ℕ
  pub timestamp : ℤ
  pub default_width : ℕ
  pub default_height : ℕ
  pub current_fence : ℕ
  pub slots : List Slot
  pub created : List ℕ
  pub destroyed : List ℕ

abbrev pub M : Type 0 → Type 0
M A = Run Surface A

-- What the parts outside answer during one call. `image` is what eglCreateImageKHR gives,
-- `bind_error` whether glGetError tells of an error, and `rejects` what the rejecter says, if there
-- is one.
pub record Outside : Type 0 where
  pub display : ℕ
  pub context : ℕ
  pub image : ℕ
  pub bind_error : Bool
  pub acquire_status : ℕ
  pub slot : ℕ
  pub new_buffer : Bool
  pub item_crop : Rect
  pub item_transform : ℕ
  pub item_scaling_mode : ℕ
  pub item_timestamp : ℤ
  pub item_fence : ℕ
  pub rejects : Option Bool
  pub release_status : ℕ
  pub native_fence_sync : Bool
  pub use_fence_sync : Bool
  pub sync : ℕ
  pub fence_fd : Bool
  pub add_fence_status : ℕ
  pub wait_result : Option Bool

abbrev pub unknown_error : ℕ
unknown_error = 2147483648

abbrev pub no_init : ℕ
no_init = 19

abbrev pub invalid_operation : ℕ
invalid_operation = 38

abbrev pub timed_out : ℕ
timed_out = 110

abbrev pub get : M Surface
get s = done (s, s)

abbrev pub modify : (Surface → Surface) → M (Unit {0})
modify f s = done (tt, f s)

-- The texture is attached in another display or context than the one at hand.
abbrev pub other_than : ℕ → ℕ → Bool
other_than mine now = not (mine == now) && not (mine == 0)

-- `mEglSlots[i]`; out of the array's bounds nothing is known.
unfoldable pub read_slot : ℕ → M Slot
read_slot i s = elim (get_elem? s.slots i) [ none ↦ fault | some x ↦ done (x, s) ]

abbrev pub write_slot : ℕ → Slot → M (Unit {0})
write_slot i x = modify λ s. record s { slots = set s.slots i x }

-- eglDestroyImageKHR.
abbrev pub destroy_image : ℕ → M (Unit {0})
destroy_image image = modify λ s. record s { destroyed = image ∷ s.destroyed }

-- `createImage`
unfoldable pub create_image : Outside → M ℕ
create_image o s =
    if o.image == 0 then done (0, s) else done (o.image, record s { created = o.image ∷ s.created })

-- `freeBufferLocked` and `abandonLocked`
unfoldable pub free_buffer : ℕ → M (Unit {0})
unfolding read_slot
free_buffer i = do
  modify λ s. record s {
    current = elim s.current [ none ↦ none | some c ↦ if i == c then none else some c ];
  }
  x ← read_slot i
  (if x.image == 0 then return tt else destroy_image x.image)
  write_slot i (record x { image = 0 })

unfoldable pub abandon : M (Unit {0})
abandon = modify λ s. record s { current_buffer = false; abandoned = true }
