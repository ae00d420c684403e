-- ===== src/Rtsp/Frame.antt =====
-- How the steps of a handler of sink/WifiDisplaySink.cpp or source/WifiDisplaySource.cpp add up:
-- most are quiet, and one of them may do what the handler is for.
use how_to_miracast_on_aosp.Prelude.{
  ℕ, suc, arith, ◌<◌, ◌+◌, ◌%◌, ◌^◌, ◌≡◌, refl, ◌∙◌, Bool, true, false, List, inl, inr, ◌⊎◌, Option,
  none, some, if◌then◌else◌,
}
use how_to_miracast_on_aosp.Prelude.Outcome.{Outcome, done, blocked, fault, Ensures}
use how_to_miracast_on_aosp.Rtsp.Machine.{Run, ◌>>=◌, ◌>>◌, return, check}
use how_to_miracast_on_aosp.Rtsp.Pending.{
  Expected, register, expected, Rising, register-Rising, expected-register,
}

-- What a quiet step and a handler as a whole may do to the world.
pub record Frame (W : Type 0) : Type 1 where
  pub Same : W → W → Type 0
  pub Extends : W → W → Type 0
  pub same_refl : (w : W) → Same w w
  pub same_trans : (u v w : W) → Same u v → Same v w → Same u w
  pub quiet : (v w : W) → Same v w → Extends v w
  pub before : (u v w : W) → Same u v → Extends v w → Extends u w
  pub after : (u v w : W) → Extends u v → Same v w → Extends u w

module _ {W : Type 0} ⦃p : Frame W⦄ where
  open p use {Same, Extends, same_refl, same_trans, quiet, before, after}

  unfoldable pub Still : {A : Type 0} → Run W A → Type 0
  Still {A} m = (w : W) → Ensures (λ (r : A × W). Same w r.1) (m w)

  unfoldable pub Tame : {A : Type 0} → Run W A → Type 0
  Tame {A} m = (w : W) → Ensures (λ (r : A × W). Extends w r.1) (m w)

  module _ {A : Type 0} where
    pub weaken :
        (P Q : A × W → Type 0) (m : Outcome (A × W))
        → ((r : A × W) → P r → Q r)
        → Ensures P m
        → Ensures Q m
    weaken P Q (done r) k h = k r h
    weaken P Q blocked k h = tt
    weaken P Q fault k h = tt

    pub Still-Tame : (m : Run W A) → Still m → Tame m
    unfolding Still Tame
    Still-Tame m h w =
        weaken (λ r. Same w r.1) (λ r. Extends w r.1) (m w) (λ r same. quiet w r.1 same) (h w)

    module _ (m k : Run W A) where
      pub if-Still : (b : Bool) → Still m → Still k → Still (if b then m else k)
      unfolding Still Tame
      if-Still true h h' = h
      if-Still false h h' = h'

      pub if-Tame : (b : Bool) → Tame m → Tame k → Tame (if b then m else k)
      unfolding Still Tame
      if-Tame true h h' = h
      if-Tame false h h' = h'

    pub option-Tame :
        {B : Type 0} (m : Run W A) (f : B → Run W A) (x : Option B)
        → Tame m
        → ((b : B) → Tame (f b))
        → Tame (elim x [ none ↦ m | some b ↦ f b ])
    unfolding Still Tame
    option-Tame m f none h k = h
    option-Tame m f (some b) h k = k b

  module _ {A B : Type 0} (f : A → Run W B) where
    after_Still :
        (w : W) (o : Outcome (A × W))
        → Ensures (λ (r : A × W). Same w r.1) o
        → ((a : A) → Still (f a))
        → Ensures
            (λ (r : B × W). Same w r.1)
            (elim o [ done (a, w') ↦ f a w' | blocked ↦ blocked | fault ↦ fault ])
    unfolding Still Tame
    after_Still w (done (a, w')) h k =
        weaken (λ r. Same w' r.1) (λ r. Same w r.1) (f a w') (λ r same. same_trans w w' r.1 h same)
          (k a w')
    after_Still w blocked h k = tt
    after_Still w fault h k = tt

    pub >>=-Still : (m : Run W A) → Still m → ((a : A) → Still (f a)) → Still (m >>= f)
    unfolding Still Tame
    >>=-Still m h k w = after_Still w (m w) (h w) k

    then_Tame :
        (w : W) (o : Outcome (A × W))
        → Ensures (λ (r : A × W). Same w r.1) o
        → ((a : A) → Tame (f a))
        → Ensures
            (λ (r : B × W). Extends w r.1)
            (elim o [ done (a, w') ↦ f a w' | blocked ↦ blocked | fault ↦ fault ])
    unfolding Still Tame
    then_Tame w (done (a, w')) h k =
        weaken (λ r. Extends w' r.1) (λ r. Extends w r.1) (f a w') (λ r e. before w w' r.1 h e)
          (k a w')
    then_Tame w blocked h k = tt
    then_Tame w fault h k = tt

    -- A quiet step before or after the one that is not.
    pub >>=-Tame : (m : Run W A) → Still m → ((a : A) → Tame (f a)) → Tame (m >>= f)
    unfolding Still Tame
    >>=-Tame m h k w = then_Tame w (m w) (h w) k

    then_Still :
        (w : W) (o : Outcome (A × W))
        → Ensures (λ (r : A × W). Extends w r.1) o
        → ((a : A) → Still (f a))
        → Ensures
            (λ (r : B × W). Extends w r.1)
            (elim o [ done (a, w') ↦ f a w' | blocked ↦ blocked | fault ↦ fault ])
    unfolding Still Tame
    then_Still w (done (a, w')) h k =
        weaken (λ r. Same w' r.1) (λ r. Extends w r.1) (f a w') (λ r same. after w w' r.1 h same)
          (k a w')
    then_Still w blocked h k = tt
    then_Still w fault h k = tt

    pub Tame->>= : (m : Run W A) → Tame m → ((a : A) → Still (f a)) → Tame (m >>= f)
    unfolding Still Tame
    Tame->>= m h k w = then_Still w (m w) (h w) k

  module _ {A B : Type 0} (m : Run W A) (k : Run W B) where
    pub >>-Still : Still m → Still k → Still (m >> k)
    >>-Still h t = >>=-Still (λ _. k) m h λ _. t

    pub >>-Tame : Still m → Tame k → Tame (m >> k)
    >>-Tame h t = >>=-Tame (λ _. k) m h λ _. t

    pub Tame->> : Tame m → Still k → Tame (m >> k)
    Tame->> h t = Tame->>= (λ _. k) m h λ _. t

module _ (W : Type 0) ⦃p : Frame W⦄ where
  open p use {same_refl, quiet}

  pub return-Still : {A : Type 0} (a : A) → Still {W = W} (return a)
  unfolding Still
  return-Still a w = same_refl w

  pub return-Tame : {A : Type 0} (a : A) → Tame {W = W} (return a)
  unfolding Tame
  return-Tame a w = quiet w w (same_refl w)

  pub check-Still : (b : Bool) → Still {W = W} (check b)
  unfolding Still
  check-Still true w = same_refl w
  check-Still false w = tt

-- A step that registers nothing, and one that registers one handler under the next number at most.
module _ {W H : Type 0} (handlers : W → List (Expected H)) (next : W → ℕ) where
  abbrev pub KeepsHandlers : W → W → Type 0
  KeepsHandlers w w' = (handlers w' ≡ handlers w) × (next w' ≡ next w)

  abbrev pub RegistersOne : W → W → Type 0
  RegistersOne w w' =
      KeepsHandlers w w'
      ⊎ ((session : ℕ) × (h : H) × (handlers w' ≡ register session (next w) h (handlers w))
          × (next w' ≡ (next w + 1) % 2 ^ 32))

  pub keeps_then_registers : (u v w : W) → KeepsHandlers u v → RegistersOne v w → RegistersOne u w
  keeps_then_registers u v w h (inl same) = inl (same.0 ∙ h.0, same.1 ∙ h.1)
  keeps_then_registers u v w h (inr (session, g, registered, used)) =
      inr (session, g, registered ∙ rw (h.0, h.1), used ∙ rw h.1)

  pub registers_then_keeps : (u v w : W) → RegistersOne u v → KeepsHandlers v w → RegistersOne u w
  registers_then_keeps u v w (inl same) h = inl (h.0 ∙ same.0, h.1 ∙ same.1)
  registers_then_keeps u v w (inr (session, g, registered, used)) h =
      inr (session, g, h.0 ∙ registered, h.1 ∙ used)

  abbrev pub registrations : Frame W
  registrations = record {
    Same = KeepsHandlers;
    Extends = RegistersOne;
    same_refl = λ w. (refl, refl);
    same_trans = λ u v w h k. (k.0 ∙ h.0, k.1 ∙ h.1);
    quiet = λ v w same. inl same;
    before = keeps_then_registers;
    after = registers_then_keeps;
  }

  pub RegistersOne-Rising :
      (w w' : W)
      → Rising 0 (next w) (handlers w)
      → next w + 1 < 2 ^ 32
      → RegistersOne w w'
      → Rising 0 (next w') (handlers w')
  RegistersOne-Rising w w' order room (inl same) = rw (same.0, same.1) order
  RegistersOne-Rising w w' order room (inr (session, h, registered, used)) =
      let used_up : next w' ≡ suc (next w) = used ∙ omega arith in
      rw (registered, used_up)
        (register-Rising session 0 (next w) h (handlers w) (omega arith) order)

  pub RegistersOne-expected :
      (session c : ℕ) (w w' : W)
      → c < next w
      → expected session c (handlers w) ≡ none
      → RegistersOne w w'
      → expected session c (handlers w') ≡ none
  RegistersOne-expected session c w w' below gone (inl same) = rw same.0 gone
  RegistersOne-expected session c w w' below gone (inr (session', h, registered, used)) =
      rw registered
        (expected-register session c session' (next w) h (handlers w) (omega arith) ∙ gone)
