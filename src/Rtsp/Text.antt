-- ===== src/Rtsp/Text.antt =====
-- The texts of sink/WifiDisplaySink.cpp and source/WifiDisplaySource.cpp as bytes, and what AString
-- and the C library do with them.
use how_to_miracast_on_aosp.Prelude.{
  ℕ, zero, suc, ◌+◌, ◌/◌, ◌%◌, Bool, true, false, ◌&&◌, ◌||◌, [], ◌∷◌, ◌==◌, ltb, if◌then◌else◌,
  Bytes, String, length, Option, none, some, leb, drop, ◌-◌, ◌^◌,
}
use how_to_miracast_on_aosp.Prelude.Int.{ℤ, pos, negsuc, sub_ℕ}
use Prim.Native.Char.{code}
use how_to_miracast_on_aosp.Net.Session.Interleaved.{is_prefix}

-- The bytes of an ASCII literal.
unfoldable pub text : String → Bytes
text String.[] = []
text (String.◌∷◌ c s) = code c ∷ text s

-- The digits in front of `rest`, with fuel for each.
unfoldable pub digits_onto : ℕ → ℕ → Bytes → Bytes
digits_onto zero n rest = rest
digits_onto (suc fuel) n rest =
    let more = digits_onto fuel (n / 10) ((b'0' + n % 10) ∷ rest) in
    if ltb n 10 then (b'0' + n) ∷ rest else more

-- `%d` of an `int32_t`, which has ten digits at most.
unfoldable pub decimal : ℕ → Bytes
unfolding digits_onto
decimal n = digits_onto 10 n []

-- The text before the first `c`.
unfoldable pub before_char : ℕ → Bytes → Bytes
before_char c [] = []
before_char c (b ∷ bs) = if b == c then [] else b ∷ before_char c bs

unfoldable pub contains : Bytes → Bytes → Bool
unfolding is_prefix
contains needle [] = is_prefix needle []
contains needle (b ∷ bs) = is_prefix needle (b ∷ bs) || contains needle bs

unfoldable pub same_text : Bytes → Bytes → Bool
unfolding is_prefix
same_text a b = is_prefix a b && length a == length b

abbrev pub is_empty : Bytes → Bool
is_empty [] = true
is_empty (_ ∷ _) = false

abbrev pub lower : ℕ → ℕ
lower c = if leb 65 c && leb c 90 then c + 32 else c

-- `strncasecmp(prefix, url, length of prefix)` is 0.
unfoldable pub has_prefix : Bytes → Bytes → Bool
has_prefix [] url = true
has_prefix (p ∷ ps) [] = false
has_prefix (p ∷ ps) (c ∷ cs) = lower p == lower c && has_prefix ps cs

-- The text before the first `c`, and the rest from there on.
unfoldable pub split_at : ℕ → Bytes → Option (Bytes × Bytes)
split_at c [] = none
split_at c (b ∷ bs) =
    let rest = split_at c bs in
    if b == c then some ([], b ∷ bs) else elim rest [ none ↦ none | some (x, y) ↦ some (b ∷ x, y) ]

-- strcasecmp gives 0.
abbrev pub same_ignoring_case : Bytes → Bytes → Bool
same_ignoring_case a b = has_prefix a b && length a == length b

unfoldable pub ends_with : Bytes → Bytes → Bool
unfolding same_text
ends_with suffix s =
    leb (length suffix) (length s) && same_text suffix (drop (length s - length suffix) s)

-- `%d`.
abbrev pub decimal_ℤ : ℤ → Bytes
decimal_ℤ (pos n) = decimal n
decimal_ℤ (negsuc n) = b'-' ∷ decimal (suc n)

-- The `int32_t` of a bit pattern.
abbrev pub signed : ℕ → ℤ
signed n = if ltb n (2 ^ 31) then pos n else sub_ℕ n (2 ^ 32)
