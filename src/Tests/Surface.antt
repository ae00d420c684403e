-- ===== src/Tests/Surface.antt =====
-- A texture of frameworks/native/libs/gui/SurfaceTexture.cpp with two slots, at concrete calls.
use how_to_miracast_on_aosp.Prelude.{ℕ, ◌≡◌, refl, Bool, true, false, [], ◌∷◌, none, some, arith}
use how_to_miracast_on_aosp.Prelude.Int.{ℤ, pos, ◌+ℤ◌, ◌-ℤ◌}
use how_to_miracast_on_aosp.Prelude.Outcome.{Ensures}
use how_to_miracast_on_aosp.Surface.{Rect, Surface, Outside}
use how_to_miracast_on_aosp.Surface.Context.{detach_from_context}
use how_to_miracast_on_aosp.Surface.Update.{update, attach, detach, calls}
use how_to_miracast_on_aosp.Surface.Crop.{half, narrowed, get_current_crop}
use how_to_miracast_on_aosp.Surface.Crop.Bounds.{Within, get_current_crop-Within}
use how_to_miracast_on_aosp.Surface.Images.{held, occurs, Accounted, detach_from_context-Accounted}
use how_to_miracast_on_aosp.Surface.Images.Calls.{calls-Accounted}

abbrev whole : Rect
whole = record { left = pos 0; top = pos 0; right = pos 1280; bottom = pos 720 }

-- Display 1, context 2, and a new buffer in slot 1 with image 9.
abbrev outside : Outside
outside = record {
  display = 1;
  context = 2;
  image = 9;
  bind_error = false;
  acquire_status = 0;
  slot = 1;
  new_buffer = true;
  item_crop = whole;
  item_transform = 0;
  item_scaling_mode = 0;
  item_timestamp = pos 0;
  item_fence = 0;
  rejects = none;
  release_status = 0;
  native_fence_sync = false;
  use_fence_sync = true;
  sync = 5;
  fence_fd = true;
  add_fence_status = 0;
  wait_result = some false;
}

-- Slot 0 is shown.
abbrev shown : Surface
shown = record {
  abandoned = false;
  attached = true;
  display = 1;
  context = 2;
  tex_name = 3;
  current = some 0;
  current_buffer = true;
  crop = whole;
  transform = 0;
  scaling_mode = 0;
  timestamp = pos 0;
  default_width = 640;
  default_height = 480;
  current_fence = 0;
  slots = record { image = 7; fence = 0 } ∷ record { image = 0; fence = 0 } ∷ [];
  created = 7 ∷ [];
  destroyed = [];
}

shown-Accounted : Accounted shown
shown-Accounted k = ground arith

abbrev no_error : ℕ → Bool
no_error status = false

calls-Accounted_example :
    Ensures
      (λ (r : Unit {0} × Surface). Accounted r.1)
      (calls (update outside no_error 1 true ∷ detach outside ∷ attach outside 4 ∷ []) shown)
calls-Accounted_example =
    calls-Accounted (update outside no_error 1 true ∷ detach outside ∷ attach outside 4 ∷ []) shown
      shown-Accounted

detach_from_context-Accounted_example :
    Ensures
      (λ (r : ℕ × Surface).
        r.0 ≡ 0
        → (r.1.attached ≡ false)
          × (r.1.display ≡ 0)
          × (r.1.context ≡ 0)
          × ((k : ℕ) → held k r.1.slots ≡ 0)
          × ((k : ℕ) → occurs k r.1.created ≡ occurs k r.1.destroyed))
      (detach_from_context outside shown)
detach_from_context-Accounted_example = detach_from_context-Accounted outside shown shown-Accounted

abbrev width_of : Rect → ℤ
width_of r = r.right -ℤ r.left

abbrev height_of : Rect → ℤ
height_of r = r.bottom -ℤ r.top

-- A picture of 1280 by 720 for a default size of 640 by 480.
abbrev cropped : Surface
cropped = record shown { scaling_mode = 2 }

narrowed_whole :
    get_current_crop 2 width_of height_of cropped
    ≡ some (record { left = pos 160; top = pos 0; right = pos 1120; bottom = pos 720 })
unfolding get_current_crop ◌+ℤ◌ ◌-ℤ◌ half narrowed
narrowed_whole = refl

get_current_crop-Within_example :
    (c : Rect) × (get_current_crop 2 width_of height_of cropped ≡ some c) × Within c whole
unfolding ◌-ℤ◌
get_current_crop-Within_example =
    get_current_crop-Within 2 width_of height_of (λ r. refl) (λ r. refl) cropped (ground arith)
      (ground arith)
