-- ===== src/Codec/Shutdown/Lists.antt =====
-- frameworks/av/media/libstagefright/ACodec.cpp: lemmas on the lists of buffers that are freed
-- from the end, and on a step that returns.
use how_to_miracast_on_aosp.Prelude.{
  ◌++◌, ◌&&◌, if◌then◌else◌, Bool, append-nil, append_assoc, ℕ, zero, suc, ◌≡◌, refl, ap, ◌∙◌, true,
  List, [], ◌∷◌, some, length, get_elem?, set, arith,
}
use how_to_miracast_on_aosp.Prelude.Outcome.{Outcome, done, blocked, fault}
use how_to_miracast_on_aosp.Rtsp.Machine.{◌>>◌}
use how_to_miracast_on_aosp.Codec.{
  Port, input, output, us, same_owner, Event, transfer, free_buffer, cancel_buffer, Buffer, Codec,
  M,
}
use how_to_miracast_on_aosp.Codec.Buffers.{at_home, all_home, remove_at}

pub remove-set : (i : ℕ) (bs : List Buffer) (b : Buffer) → remove_at i (set bs i b) ≡ remove_at i bs
unfolding remove_at
remove-set i [] b = refl
remove-set zero (c ∷ bs) b = refl
remove-set (suc i) (c ∷ bs) b = ap (◌∷◌ c) (remove-set i bs b)

-- The last buffer, and what is left without it.
pub last_buffer :
    (i : ℕ) (bs : List Buffer)
    → length bs ≡ suc i
    → all_home bs ≡ true
    → (b : Buffer) × (get_elem? bs i ≡ some b) × (at_home b.status ≡ true)
unfolding all_home
last_buffer i [] l h = absurd (omega arith)
last_buffer zero (b ∷ bs) l h = (b, refl, ground arith)
last_buffer (suc i) (b ∷ bs) l h = last_buffer i bs (omega arith) (ground arith)

pub length-remove : (i : ℕ) (bs : List Buffer) → length bs ≡ suc i → length (remove_at i bs) ≡ i
unfolding remove_at
length-remove i [] l = absurd (omega arith)
length-remove zero (b ∷ bs) l = omega arith
length-remove (suc i) (b ∷ bs) l = ap suc (length-remove i bs (omega arith))

pub all_home-remove :
    (i : ℕ) (bs : List Buffer) → all_home bs ≡ true → all_home (remove_at i bs) ≡ true
unfolding remove_at all_home
all_home-remove i [] h = refl
all_home-remove zero (b ∷ bs) h = ground arith
all_home-remove (suc i) (b ∷ bs) h = ground (arith, all_home-remove i bs)

pub empty_of_length : (bs : List Buffer) → length bs ≡ 0 → bs ≡ []
empty_of_length [] e = refl
empty_of_length (b ∷ bs) e = absurd (omega arith)

-- The calls that free a buffer, newest first: one that the codec has goes back to the window
-- before.
abbrev pub free_events : Bool → Port → Buffer → List Event
free_events window input b = transfer free_buffer input b.id ∷ []
free_events window output b =
    if window && same_owner b.status us
    then transfer free_buffer output b.id ∷ transfer cancel_buffer output b.id ∷ []
    else transfer free_buffer output b.id ∷ []

abbrev pub frees : Bool → Port → List Buffer → List Event
frees window p [] = []
frees window p (b ∷ bs) = free_events window p b ++ frees window p bs

pub frees-remove :
    (window : Bool) (p : Port) (i : ℕ) (bs : List Buffer) (b : Buffer) (log : List Event)
    → length bs ≡ suc i
    → get_elem? bs i ≡ some b
    → frees window p (remove_at i bs) ++ (free_events window p b ++ log) ≡ frees window p bs ++ log
unfolding remove_at
frees-remove window p i [] b log l e = absurd (omega arith)
frees-remove window p zero (x ∷ []) b log l e =
    let same : x ≡ b = cc in rw (same, append-nil (free_events window p b)) refl
frees-remove window p zero (x ∷ y ∷ ys) b log l e = absurd (omega arith)
frees-remove window p (suc i) (x ∷ bs) b log l e =
    rw
      (
        append_assoc (free_events window p x) (frees window p (remove_at i bs))
            (free_events window p b ++ log),
        append_assoc (free_events window p x) (frees window p bs) log,
        frees-remove window p i bs b log (omega arith) e,
      )
      refl

-- What follows a step that returns.
pub then_eq :
    {A B : Type 0} (m : M A) (k : M B) (s : Codec) {a : A} {s' : Codec} {r : Outcome (B × Codec)}
    → m s ≡ done (a, s')
    → k s' ≡ r
    → (m >> k) s ≡ r
then_eq {B = B} m k s e f =
    ap
      (λ x. elim x as (λ _. Outcome (B × Codec)) [
        | done (a, s') ↦ k s'
        | blocked ↦ blocked
        | fault ↦ fault
      ])
      e
    ∙ f
