-- ===== src/Source/Audio/Entries.antt =====
-- source/WifiDisplaySource.cpp: `GetAudioModes` against the list that the text is printed from.
use how_to_miracast_on_aosp.Prelude.{
  ℕ, zero, suc, ◌≡◌, ◌≤◌, refl, ap, ◌∙◌, Bool, true, false, List, [], ◌∷◌, ◌++◌, Option, none, some,
  ◌==◌, if◌then◌else◌, Bytes, Bool-cases, length, length-append, drop, arith, inl, inr,
}
use how_to_miracast_on_aosp.Rtsp.Text.{same_text}
use how_to_miracast_on_aosp.Net.Session.Interleaved.{is_prefix}
use how_to_miracast_on_aosp.Source.Audio.{
  is_space, skip_spaces, after_comma, has_codec, starts_with_zero, modes_at, modes_from,
  get_audio_modes,
}

-- An entry of sink_audio_list, and the list with a comma and a space between entries.
pub record Entry : Type 0 where
  pub name : Bytes
  pub arguments : Bytes

unfoldable pub print : List Entry → Bytes
print [] = []
print (e ∷ []) = e.name ++ 32 ∷ e.arguments
print (e ∷ f ∷ es) = e.name ++ 32 ∷ (e.arguments ++ b',' ∷ 32 ∷ print (f ∷ es))

-- No byte of a text is `c`.
abbrev pub Without : ℕ → Bytes → Type 0
Without c [] = Unit {0}
Without c (b ∷ bs) = ((b == c) ≡ false) × Without c bs

-- A name starts with no white space and not with the digit 0.
abbrev pub Starts : Bytes → Type 0
Starts [] = ⊥
Starts (b ∷ bs) = (is_space b ≡ false) × ((b == b'0') ≡ false)

pub record Plain (e : Entry) : Type 0 where
  pub starts : Starts e.name
  pub no_space : Without 32 e.name
  pub no_comma : Without b',' e.name
  pub no_comma_later : Without b',' e.arguments

abbrev pub AllPlain : List Entry → Type 0
AllPlain [] = Unit {0}
AllPlain (e ∷ es) = Plain e × AllPlain es

-- What stands behind the name and the space.
abbrev pub behind : Entry → List Entry → Bytes
behind e [] = e.arguments
behind e (f ∷ es) = e.arguments ++ b',' ∷ 32 ∷ print (f ∷ es)

print-cons : (e : Entry) (es : List Entry) → print (e ∷ es) ≡ e.name ++ 32 ∷ behind e es
unfolding print
print-cons e [] = refl
print-cons e (f ∷ es) = refl

has_codec-name :
    (codec name r : Bytes)
    → Without 32 codec
    → Without 32 name
    → has_codec codec (name ++ 32 ∷ r) ≡ same_text codec name
unfolding has_codec is_prefix same_text
has_codec-name [] [] r h k = refl
has_codec-name [] (y ∷ ys) r h k = ground arith
has_codec-name (x ∷ xs) [] r h k = ground arith
has_codec-name (x ∷ xs) (y ∷ ys) r h k = ground (arith, has_codec-name xs ys r h.1 k.1)

drop-name :
    (codec name r : Bytes)
    → same_text codec name ≡ true
    → drop (suc (length codec)) (name ++ 32 ∷ r) ≡ r
unfolding same_text
drop-name [] [] r e = refl
drop-name [] (y ∷ ys) r e = absurd (ground arith)
drop-name (x ∷ xs) [] r e = absurd (ground arith)
drop-name (x ∷ xs) (y ∷ ys) r e = drop-name xs ys r (ground arith)

after_comma-skip : (xs r : Bytes) → Without b',' xs → after_comma (xs ++ r) ≡ after_comma r
unfolding after_comma
after_comma-skip [] r h = refl
after_comma-skip (x ∷ xs) r h = ground (arith, after_comma-skip xs r h.1)

after_comma-none : (xs : Bytes) → Without b',' xs → after_comma xs ≡ none
unfolding after_comma
after_comma-none [] h = refl
after_comma-none (x ∷ xs) h = ground (arith, after_comma-none xs h.1)

after_comma-last : (e : Entry) → Plain e → after_comma (print (e ∷ [])) ≡ none
unfolding print after_comma
after_comma-last e p =
    after_comma-skip e.name (32 ∷ e.arguments) p.no_comma
    ∙ after_comma-none e.arguments p.no_comma_later

after_comma-print :
    (e f : Entry) (es : List Entry)
    → Plain e
    → after_comma (print (e ∷ f ∷ es)) ≡ some (32 ∷ print (f ∷ es))
unfolding print after_comma
after_comma-print e f es p =
    after_comma-skip e.name (32 ∷ (e.arguments ++ b',' ∷ 32 ∷ print (f ∷ es))) p.no_comma
    ∙ after_comma-skip e.arguments (b',' ∷ 32 ∷ print (f ∷ es)) p.no_comma_later

skip_spaces-name : (name r : Bytes) → Starts name → skip_spaces (32 ∷ (name ++ r)) ≡ name ++ r
unfolding skip_spaces
skip_spaces-name [] r h = absurd (h)
skip_spaces-name (x ∷ xs) r h = rw (h.0) refl

skip_spaces-print :
    (e : Entry) (es : List Entry) → Plain e → skip_spaces (32 ∷ print (e ∷ es)) ≡ print (e ∷ es)
skip_spaces-print e es p =
    rw (print-cons e es) (skip_spaces-name e.name (32 ∷ behind e es) p.starts)

zero_no : (name r : Bytes) → Starts name → starts_with_zero (name ++ r) ≡ false
unfolding is_prefix
zero_no [] r h = absurd (h)
zero_no (x ∷ xs) r h = ground arith

print_zero : (e : Entry) (es : List Entry) → Plain e → starts_with_zero (print (e ∷ es)) ≡ false
print_zero e es p = rw (print-cons e es) (zero_no e.name (32 ∷ behind e es) p.starts)

print_has :
    (codec : Bytes) (e : Entry) (es : List Entry)
    → Without 32 codec
    → Plain e
    → has_codec codec (print (e ∷ es)) ≡ same_text codec e.name
print_has codec e es k p =
    rw (print-cons e es) (has_codec-name codec e.name (behind e es) k p.no_space)

nil_zero : starts_with_zero (print []) ≡ false
unfolding print is_prefix
nil_zero = refl

nil_has : (codec : Bytes) → has_codec codec (print []) ≡ false
unfolding print has_codec is_prefix
nil_has [] = refl
nil_has (c ∷ cs) = refl

nil_behind : after_comma (print []) ≡ none
unfolding print after_comma
nil_behind = refl

length-print : (es : List Entry) → length es ≤ length (print es)
unfolding print
length-print [] = omega arith
length-print (e ∷ []) = omega (arith, length-append e.name (32 ∷ e.arguments))
length-print (e ∷ f ∷ es) = omega (
  arith,
  length-append e.name (32 ∷ (e.arguments ++ b',' ∷ 32 ∷ print (f ∷ es))),
  length-append e.arguments (b',' ∷ 32 ∷ print (f ∷ es)),
  length-print (f ∷ es),
)

module _ (audio_mode : Bytes → Option ℕ) where
  -- The number that sscanf reads, 0 where it does not read both.
  abbrev pub number : Bytes → ℕ
  number s = elim (audio_mode s) [ none ↦ 0 | some modes ↦ modes ]

  -- The first entry of a name.
  unfoldable pub wanted : Bytes → List Entry → ℕ
  wanted codec [] = 0
  wanted codec (e ∷ es) =
      let later = wanted codec es in if same_text codec e.name then number (behind e es) else later

  modes_at-print :
      (codec : Bytes) (e : Entry) (es : List Entry)
      → same_text codec e.name ≡ true
      → modes_at audio_mode codec (print (e ∷ es)) ≡ number (behind e es)
  modes_at-print codec e es same =
      ap number (
        ap (drop (suc (length codec))) (print-cons e es)
        ∙ drop-name codec e.name (behind e es) same)

  found_or :
      (codec : Bytes) (e : Entry) (es : List Entry) (x : ℕ)
      → (if same_text codec e.name then modes_at audio_mode codec (print (e ∷ es)) else x)
        ≡ (if same_text codec e.name then number (behind e es) else x)
  found_or codec e es x = elim (Bool-cases (same_text codec e.name)) [
    | inl same ↦ rw same (modes_at-print codec e es same)
    | inr other ↦ rw other refl
  ]

  -- One round of the loop.
  modes_from-round :
      (n : ℕ) (codec s : Bytes) (b : Bool) (r : Option Bytes)
      → starts_with_zero s ≡ false
      → has_codec codec s ≡ b
      → after_comma s ≡ r
      → modes_from audio_mode (suc n) codec s ≡ (
          if b
          then modes_at audio_mode codec s
          else elim r [ none ↦ 0 | some rest ↦ modes_from audio_mode n codec (skip_spaces rest) ])
  unfolding modes_from
  modes_from-round n codec s b r z h a = rw (z, h, a, modes_from) refl

  modes_from-print :
      (fuel : ℕ) (codec : Bytes) (es : List Entry)
      → length es ≤ fuel
      → Without 32 codec
      → AllPlain es
      → modes_from audio_mode (suc fuel) codec (print es) ≡ wanted codec es
  unfolding wanted
  modes_from-print fuel codec [] h k p =
      modes_from-round fuel codec (print []) false none nil_zero (nil_has codec) nil_behind
  modes_from-print zero codec (e ∷ es) h k p = absurd (omega arith)
  modes_from-print (suc fuel) codec (e ∷ []) h k p =
      modes_from-round (suc fuel) codec (print (e ∷ [])) (same_text codec e.name) none
        (print_zero e [] p.0) (print_has codec e [] k p.0) (after_comma-last e p.0)
      ∙ found_or codec e [] 0
  modes_from-print (suc fuel) codec (e ∷ f ∷ es) h k p =
      let ih = modes_from-print fuel codec (f ∷ es) (omega arith) k p.1 in
      modes_from-round (suc fuel) codec (print (e ∷ f ∷ es)) (same_text codec e.name)
        (some (32 ∷ print (f ∷ es))) (print_zero e (f ∷ es) p.0) (print_has codec e (f ∷ es) k p.0)
        (after_comma-print e f es p.0)
      ∙ ap
          (λ x.
            if same_text codec e.name then modes_at audio_mode codec (print (e ∷ f ∷ es)) else x)
          (ap (modes_from audio_mode (suc fuel) codec) (skip_spaces-print f es p.1.0) ∙ ih)
      ∙ found_or codec e (f ∷ es) (wanted codec (f ∷ es))

  -- The answer of `GetAudioModes` on the text of a list of entries is that of the first entry with
  -- the name of the codec: the number that sscanf reads behind the name and one space, 0 where it
  -- does not read both numbers; and 0 where no entry has the name. No name is empty, starts with
  -- white space or the digit 0, or holds a space or a comma, no arguments hold a comma, and the
  -- codec holds no space.
  pub get_audio_modes-print :
      (codec : Bytes) (es : List Entry)
      → Without 32 codec
      → AllPlain es
      → get_audio_modes audio_mode (print es) codec ≡ wanted codec es
  unfolding get_audio_modes
  get_audio_modes-print codec es k p =
      modes_from-print (length (print es)) codec es (length-print es) k p
