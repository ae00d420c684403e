-- ===== src/Surface/Images.antt =====
-- frameworks/native/libs/gui/SurfaceTexture.cpp: the EGL images that are alive are those that the
-- slots hold.
pub mod Calls
use how_to_miracast_on_aosp.Prelude.{
  ℕ, zero, suc, ◌+◌, ◌≡◌, refl, sym, ◌∙◌, Bool, true, false, not, ◌&&◌, ◌||◌, List, [], ◌∷◌, Option,
  none, some, ◌==◌, arith, if◌then◌else◌, get_elem?, set, Option-cases, Bool-cases, inl, inr,
}
use how_to_miracast_on_aosp.Prelude.Outcome.{Ensures, Outcome, done, blocked, fault}
use how_to_miracast_on_aosp.Rtsp.Machine.{Run, ◌>>=◌, ◌>>◌, return}
use how_to_miracast_on_aosp.Rtsp.Frame.{
  Frame, Still, weaken, >>=-Still, >>-Still, if-Still, return-Still,
}
use how_to_miracast_on_aosp.Surface.{
  Slot, Surface, M, Outside, get, modify, unknown_error, no_init, invalid_operation, other_than,
  read_slot, create_image, free_buffer, abandon,
}
use how_to_miracast_on_aosp.Surface.Context.{
  on_ok, drop_images, replace_fence, sync_fence, sync_for_release, leave_context,
  detach_from_context, bind_current, enter_context, attach_to_context,
}
use how_to_miracast_on_aosp.Surface.Update.{
  drop_stale, ensure_image, acquire_buffer, release_buffer, release_current, show_buffer,
  use_buffer, update_acquired, update_tex_image, Call, update, attach, detach, free, give_up, call,
  calls,
}

abbrev pub occurs : ℕ → List ℕ → ℕ
occurs k [] = 0
occurs k (x ∷ xs) = (if x == k then 1 else 0) + occurs k xs

abbrev bit : ℕ → Slot → ℕ
bit k x = if not (x.image == 0) && x.image == k then 1 else 0

-- How many slots hold an image.
abbrev pub held : ℕ → List Slot → ℕ
held k [] = 0
held k (x ∷ xs) = bit k x + held k xs

-- An image was destroyed as often as EGL gave it out, but for the slots that hold it.
abbrev pub Kept : ℕ → Surface → Type 0
Kept k s = occurs k s.created ≡ occurs k s.destroyed + held k s.slots

abbrev pub Accounted : Surface → Type 0
Accounted s = (k : ℕ) → Kept k s

-- The image that the lemmas are about.
pub record Watched : Type 0 where
  pub image : ℕ

held-set :
    (k : ℕ) (xs : List Slot) (i : ℕ) (x y : Slot)
    → get_elem? xs i ≡ some x
    → held k (set xs i y) + bit k x ≡ held k xs + bit k y
held-set k [] i x y e = absurd (cc)
held-set k (z ∷ zs) zero x y e = ground arith
held-set k (z ∷ zs) (suc i) x y e = ground (arith, held-set k zs i x y e)

-- The slots and the list of destroyed images after the loop of `detachFromContext`.
abbrev cleared : List Slot → List Slot
cleared [] = []
cleared (x ∷ xs) = record x { image = 0 } ∷ cleared xs

abbrev gone : List Slot → List ℕ → List ℕ
gone [] d = d
gone (x ∷ xs) d = gone xs (if x.image == 0 then d else x.image ∷ d)

drop_images-eq :
    (xs : List Slot) (s : Surface)
    → drop_images xs s ≡ done (cleared xs, record s { destroyed = gone xs s.destroyed })
unfolding drop_images
drop_images-eq [] s = refl
drop_images-eq (x ∷ xs) s = elim (Bool-cases (x.image == 0)) [
  | inl e ↦ ground (arith, drop_images-eq xs s)
  | inr e ↦ ground (arith, drop_images-eq xs (record s { destroyed = x.image ∷ s.destroyed }))
]

abbrev left : Surface → Surface
left s = record s {
  slots = cleared s.slots;
  destroyed = gone s.slots s.destroyed;
  display = 0;
  context = 0;
  attached = false;
}

leave_context-eq : (o : Outside) (s : Surface) → leave_context o s ≡ done (0, left s)
unfolding leave_context
leave_context-eq o s = ground (arith, drop_images-eq s.slots s)

occurs-gone : (k : ℕ) (xs : List Slot) (d : List ℕ) → occurs k (gone xs d) ≡ occurs k d + held k xs
occurs-gone k [] d = omega arith
occurs-gone k (x ∷ xs) d = elim (Bool-cases (x.image == 0)) [
  | inl e ↦ rw e (ground (arith, occurs-gone k xs d))
  | inr e ↦ rw e (ground (arith, occurs-gone k xs (x.image ∷ d)))
]

held-cleared : (k : ℕ) (xs : List Slot) → held k (cleared xs) ≡ 0
held-cleared k [] = refl
held-cleared k (x ∷ xs) = omega (arith, held-cleared k xs)

instance abbrev pub image_frame : ⦃watched : Watched⦄ → Frame Surface
image_frame ⦃watched⦄ = record {
  Same = λ v w. Kept watched.image v → Kept watched.image w;
  Extends = λ v w. Kept watched.image v → Kept watched.image w;
  same_refl = λ w ok. ok;
  same_trans = λ u v w h k ok. k (h ok);
  quiet = λ v w h. h;
  before = λ u v w h k ok. k (h ok);
  after = λ u v w h k ok. k (h ok);
}

module _ ⦃watched : Watched⦄ where
  pub abandon-Still : Still abandon
  unfolding abandon Still
  abandon-Still s ok = ok

  pub get-Still : Still get
  unfolding Still
  get-Still s ok = ok

  pub free_buffer-Still : (i : ℕ) → Still (free_buffer i)
  unfolding free_buffer read_slot Still
  free_buffer-Still i s = elim (Option-cases (get_elem? s.slots i)) [
    | inl out ↦ ground arith
    | inr (x, e) ↦ ground (arith, held-set watched.image s.slots i x (record x { image = 0 }) e)
  ]

  pub drop_stale-Still : (o : Outside) → Still (drop_stale o)
  unfolding drop_stale read_slot Still
  drop_stale-Still o s = elim (Option-cases (get_elem? s.slots o.slot)) [
    | inl out ↦ ground arith
    | inr (x, e) ↦
        ground (arith, held-set watched.image s.slots o.slot x (record x { image = 0 }) e)
  ]

  pub ensure_image-Still : (o : Outside) → Still (ensure_image o)
  unfolding ensure_image read_slot create_image Still
  ensure_image-Still o s = elim (Option-cases (get_elem? s.slots o.slot)) [
    | inl out ↦ ground arith
    | inr (x, e) ↦
        ground (arith, held-set watched.image s.slots o.slot x (record x { image = o.image }) e)
  ]

  pub release_buffer-Still : (o : Outside) (i : ℕ) → Still (release_buffer o i)
  unfolding release_buffer read_slot Still
  release_buffer-Still o i s = elim (Option-cases (get_elem? s.slots i)) [
    | inl out ↦ ground arith
    | inr (x, e) ↦ ground (arith, held-set watched.image s.slots i x (record x { fence = 0 }) e)
  ]

  sync_fence-Still : (o : Outside) (i : ℕ) → Still (sync_fence o i)
  unfolding sync_fence replace_fence read_slot Still
  sync_fence-Still o i s = elim (Option-cases (get_elem? s.slots i)) [
    | inl out ↦ ground arith
    | inr (x, e) ↦
        ground (arith, held-set watched.image s.slots i x (record x { fence = o.sync }) e)
  ]

  module _ (o : Outside) where
    pub sync_for_release-Still : Still (sync_for_release o)
    unfolding sync_for_release Still
    sync_for_release-Still s = elim (Option-cases s.current) [
      | inl e ↦ ground arith
      | inr (i, e) ↦ ground (arith, sync_fence-Still o i s)
    ]

    leave_context-Still : Still (leave_context o)
    unfolding Still
    leave_context-Still s =
        rw (Ensures, leave_context-eq o s)
          λ ok. omega (
            arith,
            occurs-gone watched.image s.slots s.destroyed,
            held-cleared watched.image s.slots,
          )

    bind_current-Still : Still (bind_current o)
    unfolding bind_current create_image Still
    bind_current-Still s = ground arith

    on_ok-Still : (m next : M ℕ) → Still m → Still next → Still (on_ok m next)
    on_ok-Still m next h t =
        >>=-Still _ m h λ err. if-Still next (return err) (err == 0) t (return-Still Surface err)

    pub detach-Still : Still (detach_from_context o)
    unfolding detach_from_context
    detach-Still = >>=-Still _ get get-Still λ s.
        if-Still _ _ s.abandoned (return-Still Surface no_init) (
          if-Still _ _ (not s.attached) (return-Still Surface invalid_operation) (
            if-Still _ _ (other_than s.display o.display || other_than s.context o.context)
              (return-Still Surface invalid_operation)
              (if-Still _ _ (not (o.display == 0) && not (o.context == 0))
                (on_ok-Still _ _ sync_for_release-Still leave_context-Still) leave_context-Still)))

    enter_context-Still : (tex : ℕ) → Still (enter_context o tex)
    unfolding enter_context Still
    enter_context-Still tex s ok = ok

    pub attach-Still : (tex : ℕ) → Still (attach_to_context o tex)
    unfolding attach_to_context
    attach-Still tex = >>=-Still _ get get-Still λ s.
        if-Still _ _ s.abandoned (return-Still Surface no_init) (
          if-Still _ _ (s.attached || (o.display == 0 || o.context == 0))
            (return-Still Surface invalid_operation)
            (if-Still _ _ s.current_buffer
              (on_ok-Still _ _ bind_current-Still (enter_context-Still tex))
              (enter_context-Still tex)))

-- What holds of each image holds of all.
pub for_all :
    {A : Type 0} (P : ℕ → A → Type 0) (x : Outcome A)
    → ((k : ℕ) → Ensures (P k) x)
    → Ensures (λ r. (k : ℕ) → P k r) x
for_all P (done r) h = h
for_all P blocked h = tt
for_all P fault h = tt

-- No slot holds an image, and every image that was created is destroyed.
abbrev Gone : ℕ × Surface → Type 0
Gone r =
    r.0 ≡ 0
    → (r.1.attached ≡ false)
      × (r.1.display ≡ 0)
      × (r.1.context ≡ 0)
      × ((k : ℕ) → held k r.1.slots ≡ 0)
      × ((k : ℕ) → occurs k r.1.created ≡ occurs k r.1.destroyed)

leave_context-Gone : (o : Outside) (s : Surface) → Accounted s → Ensures Gone (leave_context o s)
leave_context-Gone o s ok =
    rw (Ensures, leave_context-eq o s)
      λ e. (
        refl,
        refl,
        refl,
        (λ k. held-cleared k s.slots),
        λ k. ok k ∙ sym (occurs-gone k s.slots s.destroyed),
      )

after_sync :
    (o : Outside) (x : Outcome (ℕ × Surface))
    → Ensures (λ r. Accounted r.1) x
    → Ensures Gone (elim x [
      | done (err, s') ↦ (if err == 0 then leave_context o else return err) s'
      | blocked ↦ blocked
      | fault ↦ fault
    ])
after_sync o (done (err, s')) ok = elim (Bool-cases (err == 0)) [
  | inl e ↦ rw e (leave_context-Gone o s' ok)
  | inr e ↦ rw e (λ zero_err. absurd (ground arith))
]
after_sync o blocked ok = tt
after_sync o fault ok = tt

-- When `detachFromContext` returns OK the texture has no display and no context, no slot holds an
-- image, and every image was destroyed as often as EGL gave it out, if every image was accounted
-- for before: destroyed as often as given out, but for the slots that hold it.
pub detach_from_context-Accounted :
    (o : Outside) (s : Surface)
    → Accounted s
    → Ensures
        (λ (r : ℕ × Surface).
          r.0 ≡ 0
          → (r.1.attached ≡ false)
            × (r.1.display ≡ 0)
            × (r.1.context ≡ 0)
            × ((k : ℕ) → held k r.1.slots ≡ 0)
            × ((k : ℕ) → occurs k r.1.created ≡ occurs k r.1.destroyed))
        (detach_from_context o s)
unfolding detach_from_context Still
detach_from_context-Accounted o s ok =
    let synced =
      for_all (λ k (r : ℕ × Surface). Kept k r.1) (sync_for_release o s)
        λ k.
          weaken ⦃p = image_frame ⦃watched = record { image = k }⦄⦄ (λ r. Kept k s → Kept k r.1)
            (λ r. Kept k r.1) (sync_for_release o s) (λ r h. h (ok k))
            (sync_for_release-Still ⦃watched = record { image = k }⦄ o s) in
    let left = leave_context-Gone o s ok in
    let both = after_sync o (sync_for_release o s) synced in ground (arith, left, both)
