-- ===== src/Source/Audio.antt =====
-- source/WifiDisplaySource.cpp: `GetAudioModes`, and the choice of the audio format. `audio_mode`
-- is sscanf at "%08x %02x": the first number where it reads both.
pub mod Entries
use how_to_miracast_on_aosp.Prelude.{
  ℕ, zero, suc, ◌/◌, ◌%◌, Bool, true, false, ◌&&◌, ◌||◌, [], ◌∷◌, Option, none, some, ◌==◌, leb,
  if◌then◌else◌, Bytes, length, drop,
}
use how_to_miracast_on_aosp.Rtsp.Text.{text, same_text}
use how_to_miracast_on_aosp.Net.Session.Interleaved.{is_prefix}

-- `isspace` in the C locale.
abbrev pub is_space : ℕ → Bool
is_space c = c == 32 || leb 9 c && leb c 13

unfoldable pub skip_spaces : Bytes → Bytes
skip_spaces [] = []
skip_spaces (c ∷ cs) = if is_space c then skip_spaces cs else c ∷ cs

-- `strchr(s, ',')`: what stands behind the comma.
unfoldable pub after_comma : Bytes → Option Bytes
after_comma [] = none
after_comma (c ∷ cs) = if c == b',' then some cs else after_comma cs

-- `!strncmp(s, prefix, prefixLen) && s[prefixLen] == ' '`
unfoldable pub has_codec : Bytes → Bytes → Bool
has_codec codec s = is_prefix codec s && is_prefix (32 ∷ []) (drop (length codec) s)

-- `*s != '0'`: the digit, as the source has it.
abbrev pub starts_with_zero : Bytes → Bool
starts_with_zero s = is_prefix (b'0' ∷ []) s

module _ (audio_mode : Bytes → Option ℕ) where
  abbrev modes_at : Bytes → Bytes → ℕ
  modes_at codec s = elim (audio_mode (drop (suc (length codec)) s)) [
    | none ↦ 0
    | some modes ↦ modes
  ]

  -- The loop, with fuel for each round.
  unfoldable pub modes_from : ℕ → Bytes → Bytes → ℕ
  modes_from zero codec s = 0
  modes_from (suc fuel) codec s =
      if starts_with_zero s
      then 0
      else if has_codec codec s
      then modes_at codec s
      else elim (after_comma s) [ none ↦ 0 | some rest ↦ modes_from fuel codec (skip_spaces rest) ]

  -- A round leaves less of the text.
  unfoldable pub get_audio_modes : Bytes → Bytes → ℕ
  unfolding modes_from
  get_audio_modes s codec = modes_from (suc (length s)) codec s

  -- Whether PCM is used, where the sink has a format that the source has.
  unfoldable pub choose_audio : Bool → Bytes → Option Bool
  unfolding get_audio_modes
  choose_audio prefers_pcm codecs =
      let aac = get_audio_modes codecs (text "AAC") in
      let pcm = get_audio_modes codecs (text "LPCM") in
      let supports_aac = aac % 2 == 1 in
      let supports_pcm = (pcm / 2) % 2 == 1 in
      if supports_pcm && prefers_pcm
      then some true
      else if supports_aac
      then some false
      else if supports_pcm
      then some true
      else none
