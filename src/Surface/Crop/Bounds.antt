-- ===== src/Surface/Crop/Bounds.antt =====
-- frameworks/native/libs/gui/SurfaceTexture.cpp: what `getCurrentCrop` gives.
use mathlib.Core.Option
use native.Mathlib.Nat.{div-lt_iff_lt-mul}
use how_to_miracast_on_aosp.Prelude.{
  ℕ, zero, suc, ◌-◌, ◌*◌, ◌/◌, ◌%◌, ◌^◌, ◌<◌, ◌≡◌, refl, sym, subst, ap, Bool, true, false, Option,
  some, ◌==◌, ltb, if◌then◌else◌, arith,
}
use how_to_miracast_on_aosp.Prelude.Int.{
  ℤ, pos, negsuc, ◌+ℤ◌, ◌-ℤ◌, +ℤ_parts, -ℤ_parts, ◌≤ℤ◌, ◌<ℤ◌, ltb_ℤ, pos_part, neg_part,
}
use how_to_miracast_on_aosp.Surface.{Rect, Surface}
use how_to_miracast_on_aosp.Surface.Crop.{
  to_uint32, to_int32, half, scaled, narrowed, flattened, cut_to, fit, get_current_crop,
}

-- An int32_t that is not negative.
abbrev pub Fits : ℤ → Type 0
Fits (pos n) = n < 2 ^ 31
Fits (negsuc n) = ⊥

-- `inner` is a rectangle within `outer`.
pub record Within (inner outer : Rect) : Type 0 where
  pub left_in : outer.left ≤ℤ inner.left
  pub width_in : inner.left ≤ℤ inner.right
  pub right_in : inner.right ≤ℤ outer.right
  pub top_in : outer.top ≤ℤ inner.top
  pub height_in : inner.top ≤ℤ inner.bottom
  pub bottom_in : inner.bottom ≤ℤ outer.bottom

quotient_small : (a b d : ℕ) → a < b % 2 ^ 32 * d % 2 ^ 32 → b < 2 ^ 31 → a / d < 2 ^ 31
quotient_small a b zero h k = omega arith
quotient_small a b (suc zero) h k = omega arith
quotient_small a b (suc (suc d)) h k =
    (div-lt_iff_lt-mul {k = suc (suc d)} {x = a} {y = 2 ^ 31} (omega arith)).1 (omega arith)

-- Half of what is cut off.
half_lem :
    (q w : ℕ)
    → q < w
    → (pos_part (half (pos q -ℤ pos w)) ≡ 0) × (neg_part (half (pos q -ℤ pos w)) ≡ (w - q) / 2)
unfolding half ◌-ℤ◌
half_lem q w h =
    let p : pos q -ℤ pos w ≡ negsuc (w - q - 1) = ground arith in
    subst (λ d. (pos_part (half d) ≡ 0) × (neg_part (half d) ≡ (w - q) / 2)) (sym p)
      (ground arith, ground arith)

scaled_lem :
    (side old : ℤ) (num den : ℕ)
    → Fits side
    → Fits old
    → to_uint32 side * num % 2 ^ 32 < to_uint32 old * den % 2 ^ 32
    → (q : ℕ) × (q < 2 ^ 31) × (scaled side num den ≡ some (pos q))
unfolding to_uint32 scaled to_int32
scaled_lem side (negsuc o) num den f g h = elim g [ ]
scaled_lem side (pos o) num zero f g h = let none_left : ⊥ = omega arith in elim none_left [ ]
scaled_lem side (pos o) num (suc d) f g h =
    let k = quotient_small (to_uint32 side * num % 2 ^ 32) o (suc d) h g in
    ((to_uint32 side * num % 2 ^ 32) / suc d, k, ground arith)

-- One side that is cut from `old` to `new`, at both ends.
cut_side :
    (a b new old : ℤ)
    → Fits new
    → Fits old
    → old ≡ b -ℤ a
    → new <ℤ old
    → (a ≤ℤ (a -ℤ half (new -ℤ old)))
      × ((a -ℤ half (new -ℤ old)) ≤ℤ (b +ℤ half (new -ℤ old)))
      × ((b +ℤ half (new -ℤ old)) ≤ℤ b)
cut_side a b (pos q) (pos w) f g e h =
    let l = half_lem q w (omega arith) in
    let d = half (pos q -ℤ pos w) in
    let size : pos_part (b -ℤ a) ≡ w = ap pos_part (sym e) in
    let sign : neg_part (b -ℤ a) ≡ 0 = ap neg_part (sym e) in
    let x = -ℤ_parts b a in
    let y = -ℤ_parts a d in let z = +ℤ_parts b d in (omega arith, omega arith, omega arith)
cut_side a b (pos q) (negsuc w) f g e h = elim g [ ]
cut_side a b (negsuc q) old f g e h = elim f [ ]

-- A side that is not cut.
whole_side : (a b old : ℤ) → Fits old → old ≡ b -ℤ a → a ≤ℤ b
whole_side a b (negsuc n) f e = elim f [ ]
whole_side a b (pos n) f e =
    let sign : neg_part (b -ℤ a) ≡ 0 = ap neg_part (sym e) in let x = -ℤ_parts b a in omega arith

-- What holds after either branch of a test.
if-both {ℓ} :
    {A : Type ℓ} (P : A → Type 0) (b : Bool) {x y : A}
    → (b ≡ true → P x)
    → (b ≡ false → P y)
    → P (if b then x else y)
if-both P true p q = p refl
if-both P false p q = q refl

module _ (scale_crop : ℕ) (width height : Rect → ℤ)
    (width_lem : (r : Rect) → width r ≡ r.right -ℤ r.left)
    (height_lem : (r : Rect) → height r ≡ r.bottom -ℤ r.top) where
  cut_to-Within :
      (r : Rect) (w h : ℤ)
      → Fits w
      → Fits h
      → Fits (width r)
      → Fits (height r)
      → Within (cut_to scale_crop width height r w h) r
  unfolding cut_to narrowed flattened
  cut_to-Within r w h f g f' g' =
      let across = whole_side r.left r.right (width r) f' (width_lem r) in
      let down = whole_side r.top r.bottom (height r) g' (height_lem r) in
      let cut_across = cut_side r.left r.right w (width r) f f' (width_lem r) in
      let cut_down = cut_side r.top r.bottom h (height r) g g' (height_lem r) in
      if-both (λ c. Within c r) (ltb_ℤ w (width r))
        (λ e.
          let c = cut_across (ground arith) in
          record {
            left_in = c.0;
            width_in = c.1;
            right_in = c.2;
            top_in = omega arith;
            height_in = down;
            bottom_in = omega arith;
          })
        (λ _.
          if-both (λ c. Within c r) (ltb_ℤ h (height r))
            (λ e.
              let c = cut_down (ground arith) in
              record {
                left_in = omega arith;
                width_in = across;
                right_in = omega arith;
                top_in = c.0;
                height_in = c.1;
                bottom_in = c.2;
              })
            (λ _. record {
              left_in = omega arith;
              width_in = across;
              right_in = omega arith;
              top_in = omega arith;
              height_in = down;
              bottom_in = omega arith;
            }))

  fit-Within :
      (r : Rect) (default_width default_height : ℕ)
      → Fits (width r)
      → Fits (height r)
      → (c : Rect) × (fit scale_crop width height r default_width default_height ≡ some c)
        × Within c r
  unfolding fit
  fit-Within r default_width default_height f g =
      let Result : Option Rect → Type 0 = λ o. (c : Rect) × (o ≡ some c) × Within c r in
      if-both Result
        (ltb (to_uint32 (height r) * default_width % 2 ^ 32)
          (to_uint32 (width r) * default_height % 2 ^ 32))
        (λ e.
          let q = scaled_lem (height r) (width r) default_width default_height g f (ground arith) in
          (
            cut_to scale_crop width height r (pos q.0) (height r),
            ap (Option.map (λ w. cut_to scale_crop width height r w (height r))) q.2,
            cut_to-Within r (pos q.0) (height r) q.1 g f g,
          ))
        (λ _.
          if-both Result
            (ltb (to_uint32 (width r) * default_height % 2 ^ 32)
              (to_uint32 (height r) * default_width % 2 ^ 32))
            (λ e.
              let q =
                scaled_lem (width r) (height r) default_height default_width f g (ground arith) in
              (
                cut_to scale_crop width height r (width r) (pos q.0),
                ap (Option.map (λ h. cut_to scale_crop width height r (width r) h)) q.2,
                cut_to-Within r (width r) (pos q.0) f q.1 f g,
              ))
            (λ _. (
              cut_to scale_crop width height r (width r) (height r),
              refl,
              cut_to-Within r (width r) (height r) f g f g,
            )))

  -- With a crop whose width and height are numbers of 31 bits, getCurrentCrop divides by no 0, and
  -- the crop that it gives lies within the current one with each side kept in order, whatever the
  -- default size, also where the products of sides wrap at 32 bits.
  pub get_current_crop-Within :
      (s : Surface)
      → Fits (width s.crop)
      → Fits (height s.crop)
      → (c : Rect) × (get_current_crop scale_crop width height s ≡ some c) × Within c s.crop
  unfolding get_current_crop
  get_current_crop-Within s f g =
      if-both (λ o. (c : Rect) × (o ≡ some c) × Within c s.crop) (s.scaling_mode == scale_crop)
        (λ _. fit-Within s.crop s.default_width s.default_height f g)
        (λ _. (
          s.crop,
          refl,
          record {
            left_in = omega arith;
            width_in = whole_side s.crop.left s.crop.right (width s.crop) f (width_lem s.crop);
            right_in = omega arith;
            top_in = omega arith;
            height_in = whole_side s.crop.top s.crop.bottom (height s.crop) g (height_lem s.crop);
            bottom_in = omega arith;
          },
        ))
