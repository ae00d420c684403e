-- ===== src/Codec/Ledger/Steps.antt =====
-- frameworks/av/media/libstagefright/ACodec.cpp: steps that keep mStatus and the log together. A
-- step is still where it leaves the buffers alone too, and a step may rest on where the buffer at
-- an index is.
use how_to_miracast_on_aosp.Prelude.{
  ℕ, ◌≡◌, refl, sym, ◌∙◌, subst, Bool, true, false, Option, none, some, if◌then◌else◌, get_elem?,
  arith,
}
use mathlib.Core.Option.{some-injective}
use how_to_miracast_on_aosp.Prelude.Outcome.{Outcome, done, blocked, fault, Ensures}
use how_to_miracast_on_aosp.Rtsp.Machine.{◌>>=◌, ◌>>◌, check}
use how_to_miracast_on_aosp.Rtsp.Frame.{Frame, Still, Tame, weaken}
use how_to_miracast_on_aosp.Codec.{
  Port, input, output, Owner, same_owner, Buffer, Codec, M, get, modify, read, buffers, buffer_at,
}
use how_to_miracast_on_aosp.Codec.Ledger.{Custody}

abbrev pub Keeps : Codec → Codec → Type 0
Keeps v w = Custody v → Custody w

abbrev pub SameBuffers : Codec → Codec → Type 0
SameBuffers v w = (p : Port) → buffers p w ≡ buffers p v

instance abbrev pub custody_frame : Frame Codec
custody_frame = record {
  Same = λ v w. SameBuffers v w × Keeps v w;
  Extends = Keeps;
  same_refl = λ w. (λ p. refl, λ ok. ok);
  same_trans = λ u v w h k. (λ p. k.0 p ∙ h.0 p, λ ok. k.1 (h.1 ok));
  quiet = λ v w h. h.1;
  before = λ u v w h k ok. k (h.1 ok);
  after = λ u v w h k ok. k.1 (h ok);
}

-- A change that is neither of the buffers nor of the log.
pub modify-Still :
    (f : Codec → Codec)
    → ((s : Codec) → (f s).inputs ≡ s.inputs)
    → ((s : Codec) → (f s).outputs ≡ s.outputs)
    → ((s : Codec) → (f s).log ≡ s.log)
    → Still (modify f)
unfolding Still
modify-Still f i o l s = (
  λ p. elim p as (λ q. buffers q (f s) ≡ buffers q s) [ input ↦ i s | output ↦ o s ],
  λ ok. record {
    inputs_held = rw (i s, l s) ok.inputs_held;
    outputs_held = rw (o s, l s) ok.outputs_held;
    proper = rw (l s) ok.proper;
  },
)

pub get-Still : Still get
unfolding Still
get-Still s = (λ p. refl, λ ok. ok)

module _ {A B : Type 0} where
  then_kept :
      (s : Codec) (m : Outcome (A × Codec)) (f : A → M B)
      → Ensures (λ (r : A × Codec). Keeps s r.1) m
      → ((a : A) → Tame (f a))
      → Ensures
          (λ (r : B × Codec). Keeps s r.1)
          (elim m [ done (a, s') ↦ f a s' | blocked ↦ blocked | fault ↦ fault ])
  unfolding Tame
  then_kept s (done (a, s')) f h k =
      weaken (λ r. Keeps s' r.1) (λ r. Keeps s r.1) (f a s') (λ r g ok. g (h ok)) (k a s')
  then_kept s blocked f h k = tt
  then_kept s fault f h k = tt

  pub >>=-Kept : (m : M A) (f : A → M B) → Tame m → ((a : A) → Tame (f a)) → Tame (m >>= f)
  unfolding Tame
  >>=-Kept m f h k s = then_kept s (m s) f (h s) k

  pub >>-Kept : (m : M A) (k : M B) → Tame m → Tame k → Tame (m >> k)
  >>-Kept m k h t = >>=-Kept m (λ _. k) h λ _. t

-- The buffer at `i` is with an owner that `ok` tells.
abbrev pub At : Port → ℕ → (Owner → Bool) → Codec → Type 0
At p i ok s = (b : Buffer) × (get_elem? (buffers p s) i ≡ some b) × (ok b.status ≡ true)

module _ (p : Port) (i : ℕ) where
  -- `m` keeps the custody where the buffer at `i` is with `ok`.
  unfoldable pub From : {A : Type 0} → (Owner → Bool) → M A → Type 0
  From {A} ok m = (s : Codec) → At p i ok s → Ensures (λ (r : A × Codec). Keeps s r.1) (m s)

  -- It leaves it with `ok'`.
  unfoldable pub FromTo : {A : Type 0} → (Owner → Bool) → (Owner → Bool) → M A → Type 0
  FromTo {A} ok ok' m =
      (s : Codec) → At p i ok s → Ensures (λ (r : A × Codec). Keeps s r.1 × At p i ok' r.1) (m s)

  module _ {A : Type 0} (ok : Owner → Bool) where
    pub Tame-From : (m : M A) → Tame m → From ok m
    unfolding Tame From
    Tame-From m h s at = h s

    pub Still-FromTo : (m : M A) → Still m → FromTo ok ok m
    unfolding Still FromTo
    Still-FromTo m h s at =
        weaken (λ r. SameBuffers s r.1 × Keeps s r.1) (λ r. Keeps s r.1 × At p i ok r.1) (m s)
          (λ r g. (g.1, (at.0, rw (g.0 p) at.1, at.2))) (h s)

    pub if-From : (m k : M A) (b : Bool) → From ok m → From ok k → From ok (if b then m else k)
    if-From m k true h h' = h
    if-From m k false h h' = h'

    pub if-FromTo :
        (ok' : Owner → Bool) (m k : M A) (b : Bool)
        → FromTo ok ok' m
        → FromTo ok ok' k
        → FromTo ok ok' (if b then m else k)
    if-FromTo ok' m k true h h' = h
    if-FromTo ok' m k false h h' = h'

  pub weaken-FromTo :
      {A : Type 0} (ok to to' : Owner → Bool) (m : M A)
      → ((x : Owner) → to x ≡ true → to' x ≡ true)
      → FromTo ok to m
      → FromTo ok to' m
  unfolding FromTo
  weaken-FromTo ok to to' m k h s at =
      weaken (λ r. Keeps s r.1 × At p i to r.1) (λ r. Keeps s r.1 × At p i to' r.1) (m s)
        (λ r g. (g.0, (g.1.0, g.1.1, k g.1.0.status g.1.2))) (h s at)

  module _ {A B : Type 0} (ok ok' : Owner → Bool) where
    then_From :
        (s : Codec) (m : Outcome (A × Codec)) (f : A → M B)
        → Ensures (λ (r : A × Codec). Keeps s r.1 × At p i ok' r.1) m
        → ((a : A) → From ok' (f a))
        → Ensures
            (λ (r : B × Codec). Keeps s r.1)
            (elim m [ done (a, s') ↦ f a s' | blocked ↦ blocked | fault ↦ fault ])
    unfolding From
    then_From s (done (a, s')) f h k =
        weaken (λ r. Keeps s' r.1) (λ r. Keeps s r.1) (f a s') (λ r g c. g (h.0 c)) (k a s' h.1)
    then_From s blocked f h k = tt
    then_From s fault f h k = tt

    pub >>=-From :
        (m : M A) (f : A → M B) → FromTo ok ok' m → ((a : A) → From ok' (f a)) → From ok (m >>= f)
    unfolding From FromTo
    >>=-From m f h k s at = then_From s (m s) f (h s at) k

    pub >>-From : (m : M A) (k : M B) → FromTo ok ok' m → From ok' k → From ok (m >> k)
    >>-From m k h t = >>=-From m (λ _. k) h λ _. t

pub read_then :
    {A B : Type 0} (k : B → M A) (s : Codec) (x : Option B) (Post : A × Codec → Type 0)
    → ((b : B) → x ≡ some b → Ensures Post (k b s))
    → Ensures Post ((read x >>= k) s)
read_then k s none Post h = tt
read_then k s (some b) Post h = h b refl

pub same_owner_self : (x : Owner) → same_owner x x ≡ true
same_owner_self x = ground arith

pub same_owner_same :
    (a b : Owner)
    → same_owner a b ≡ true
    → (y : Owner) → same_owner a y ≡ true
    → same_owner b y ≡ true
same_owner_same a b e y g = ground arith

module _ (p : Port) (i : ℕ) where
  module _ {A : Type 0} where
    pub strong-From :
        (ok ok' : Owner → Bool) (m : M A)
        → ((x : Owner) → ok x ≡ true → ok' x ≡ true)
        → From p i ok' m
        → From p i ok m
    unfolding From
    strong-From ok ok' m k h s (b, e, good) = h s (b, e, k b.status good)

    pub strong-FromTo :
        (ok ok' to : Owner → Bool) (m : M A)
        → ((x : Owner) → ok x ≡ true → ok' x ≡ true)
        → FromTo p i ok' to m
        → FromTo p i ok to m
    unfolding FromTo
    strong-FromTo ok ok' to m k h s (b, e, good) = h s (b, e, k b.status good)

    pub check-From :
        (ok : Owner → Bool) (c : Bool) (k : M A)
        → (c ≡ true → From p i ok k)
        → From p i ok (check c >> k)
    unfolding From
    check-From ok true k h = h refl
    check-From ok false k h = λ s at. tt

    pub check-FromTo :
        (ok to : Owner → Bool) (c : Bool) (k : M A)
        → (c ≡ true → FromTo p i ok to k)
        → FromTo p i ok to (check c >> k)
    unfolding FromTo
    check-FromTo ok to true k h = h refl
    check-FromTo ok to false k h = λ s at. tt

  module _ {A : Type 0} (k : Buffer → M A) where
    pub buffer_at-Tame :
        ((b : Buffer) → From p i (same_owner b.status) (k b)) → Tame (buffer_at p i >>= k)
    unfolding From Tame buffer_at
    buffer_at-Tame h s =
        read_then k s (get_elem? (buffers p s) i) (λ r. Keeps s r.1)
          λ b e. h b s (b, e, same_owner_self b.status)

    pub buffer_at-FromTo :
        (ok to : Owner → Bool)
        → ((b : Buffer) → ok b.status ≡ true → FromTo p i (same_owner b.status) to (k b))
        → FromTo p i ok to (buffer_at p i >>= k)
    unfolding FromTo buffer_at
    buffer_at-FromTo ok to h s (b, e, good) =
        read_then k s (get_elem? (buffers p s) i) (λ r. Keeps s r.1 × At p i to r.1)
          λ c f.
            let same : b ≡ c = some-injective b c (sym e ∙ f) in
            h c (subst (λ (x : Buffer). ok x.status ≡ true) same good) s
              (c, f, same_owner_self c.status)

  -- A CHECK of the owner of what is read.
  pub checked-Tame :
      {A : Type 0} (x : Owner) (k : M A)
      → From p i (same_owner x) k
      → Tame (buffer_at p i >>= λ b. check (same_owner b.status x) >> k)
  checked-Tame x k h =
      buffer_at-Tame (λ b. check (same_owner b.status x) >> k)
        λ b.
          check-From (same_owner b.status) (same_owner b.status x) k
            λ e. strong-From (same_owner b.status) (same_owner x) k (same_owner_same b.status x e) h
