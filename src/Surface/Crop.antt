-- ===== src/Surface/Crop.antt =====
-- frameworks/native/libs/gui/SurfaceTexture.cpp: `setDefaultBufferSize` and `getCurrentCrop`.
-- `Rect::width`, `Rect::height` and the number of the scaling mode stand outside the repository.
-- A product of an int32_t and a uint32_t is taken modulo 2 ^ 32 and read as an int32_t again; a
-- division by 0 gives none.
pub mod Bounds
use mathlib.Core.Option
use how_to_miracast_on_aosp.Prelude.{
  ℕ, zero, suc, ◌+◌, ◌-◌, ◌*◌, ◌/◌, ◌%◌, ◌^◌, ◌≤◌, ◌<◌, ◌≡◌, Bool, true, false, Option, none, some,
  ◌==◌, ltb, if◌then◌else◌, arith,
}
use how_to_miracast_on_aosp.Prelude.Int.{ℤ, pos, negsuc, ◌+ℤ◌, ◌-ℤ◌, ltb_ℤ}
use how_to_miracast_on_aosp.Rtsp.Machine.{◌>>=◌, ◌>>◌, return}
use how_to_miracast_on_aosp.Surface.{Rect, Surface, M, modify}

-- `status` is what the queue answers.
unfoldable pub set_default_buffer_size : ℕ → ℕ → ℕ → M ℕ
set_default_buffer_size status w h = do
  modify λ s. record s { default_width = w; default_height = h }
  return status

-- An int32_t as a uint32_t, and back.
unfoldable pub to_uint32 : ℤ → ℕ
to_uint32 (pos n) = n % 2 ^ 32
to_uint32 (negsuc n) = 2 ^ 32 - 1 - n % 2 ^ 32

unfoldable pub to_int32 : ℕ → ℤ
to_int32 n = if ltb n (2 ^ 31) then pos n else negsuc (2 ^ 32 - 1 - n)

-- `x / 2`, towards 0.
unfoldable pub half : ℤ → ℤ
half (pos n) = pos (n / 2)
half (negsuc n) = pos 0 -ℤ pos (suc n / 2)

-- `side * num / den`
unfoldable pub scaled : ℤ → ℕ → ℕ → Option ℤ
unfolding to_uint32 to_int32
scaled side num den =
    if den == 0 then none else some (to_int32 ((to_uint32 side * num % 2 ^ 32) / den))

unfoldable pub narrowed : Rect → ℤ → Rect
narrowed r dw = record r { left = r.left -ℤ dw; right = r.right +ℤ dw }

unfoldable pub flattened : Rect → ℤ → Rect
flattened r dh = record r { top = r.top -ℤ dh; bottom = r.bottom +ℤ dh }

module _ (scale_crop : ℕ) (width height : Rect → ℤ) where
  -- The crop for the new width and height.
  unfoldable pub cut_to : Rect → ℤ → ℤ → Rect
  unfolding half narrowed flattened
  cut_to r w h =
      if ltb_ℤ w (width r)
      then narrowed r (half (w -ℤ width r))
      else if ltb_ℤ h (height r)
      then flattened r (half (h -ℤ height r))
      else r

  unfoldable pub fit : Rect → ℕ → ℕ → Option Rect
  unfolding to_uint32 scaled cut_to
  fit r default_width default_height =
      let across = to_uint32 (width r) * default_height % 2 ^ 32 in
      let down = to_uint32 (height r) * default_width % 2 ^ 32 in
      if ltb down across
      then Option.map (λ w. cut_to r w (height r)) (scaled (height r) default_width default_height)
      else if ltb across down
      then Option.map (λ h. cut_to r (width r) h) (scaled (width r) default_height default_width)
      else some (cut_to r (width r) (height r))

  unfoldable pub get_current_crop : Surface → Option Rect
  unfolding fit
  get_current_crop s =
      if s.scaling_mode == scale_crop
      then fit s.crop s.default_width s.default_height
      else some s.crop
