-- ===== src/Net/Session/Read/Units.antt =====
-- ANetworkSession.cpp, the loop of `Session::readMore` over an RTSP connection: what it takes off,
-- and that it ends.
use how_to_miracast_on_aosp.Prelude.{
  ap, take, take-append-drop, length-take, ◌⊎◌, ℕ, zero, suc, ◌+◌, ◌<◌, ◌≤◌, ◌≡◌, ◌≢◌, refl, sym,
  ◌∙◌, Bool, true, false, Option, some, [], ◌∷◌, ◌++◌, arith, length, length-drop, Bytes, drop,
  get_or, Bool-cases, Option-cases, inl, inr,
}
use how_to_miracast_on_aosp.Net.Stream.{Progress}
use how_to_miracast_on_aosp.Net.Session.Interleaved.{
  binary, rtsp, Item, starts_dollar, asks_idr, message_length, next_binary, next_message, next_item,
  items,
}

-- What the loop relies on: a message has bytes, and they lie in the buffer.
abbrev pub Bounded : {M : Type 0} → (Bytes → Bool → Option (M × ℕ)) → Type 0
Bounded {M} parse =
    (buf : Bytes) (at_end : Bool) (m : M) (len : ℕ)
    → parse buf at_end ≡ some (m, len)
    → (0 < len) × (len ≤ length buf)

-- What one round takes off: some of the bytes, and no more than there are.
abbrev pub Takes : Bytes → Bytes → Type 0
Takes buf rest = (n : ℕ) × (0 < n) × (n ≤ length buf) × (rest ≡ drop n buf)

lt-of-get_or : (buf : Bytes) (i : ℕ) → get_or buf i 0 ≢ 0 → i < length buf
lt-of-get_or [] i h = absurd (h refl)
lt-of-get_or (b ∷ buf) zero h = omega arith
lt-of-get_or (b ∷ buf) (suc i) h = omega (arith, lt-of-get_or buf i h)

module _ (u16_at : ℕ → ℕ → ℕ) {M : Type 0} (parse : Bytes → Bool → Option (M × ℕ))
    (get_content : M → Option Bytes) where
  message_length-le :
      (m : M) (len : ℕ) (buf : Bytes)
      → len ≤ length buf
      → message_length get_content m len buf ≤ length buf
  unfolding message_length
  message_length-le m len buf h = ground (arith, lt-of-get_or buf (len + 1))

  le-message_length : (m : M) (len : ℕ) (buf : Bytes) → len ≤ message_length get_content m len buf
  unfolding message_length
  le-message_length m len buf = ground arith

  next_item_binary :
      (buf : Bytes)
      → starts_dollar buf ≡ true
      → next_item u16_at parse get_content false buf ≡ next_binary u16_at buf
  unfolding next_item
  next_item_binary buf h = rw h

  next_item_message :
      (buf : Bytes)
      → starts_dollar buf ≡ false
      → next_item u16_at parse get_content false buf
        ≡ next_message u16_at parse get_content false buf
  unfolding next_item
  next_item_message buf h = rw h

  next_binary-Takes :
      (buf : Bytes) (item : Item M) (rest : Bytes)
      → next_binary u16_at buf ≡ some (item, rest)
      → Takes buf rest
  unfolding next_binary
  next_binary-Takes (dollar ∷ channel ∷ hi ∷ lo ∷ more) item rest e =
      (suc (suc (suc (suc (u16_at hi lo)))), ground arith, ground arith, ground arith)
  next_binary-Takes _ item rest e = absurd (ground arith)

  -- An item and the rest against the buffer that they come from.
  abbrev pub Splits : Bool → Bytes → Item M → Bytes → Type 0
  Splits at_end buf (binary channel contents) rest =
      (hi : ℕ) × (lo : ℕ) × (buf ≡ b'$' ∷ channel ∷ hi ∷ lo ∷ (contents ++ rest))
      × (length contents ≡ u16_at hi lo)
  Splits at_end buf (rtsp m) rest =
      (front : Bytes) × (len : ℕ) × (parse buf at_end ≡ some (m, len))
      × (buf ≡ front ++ rest)
      × (0 < length front)
      × ((length front ≡ len)
          ⊎ ((asks_idr get_content m ≡ true) × (19 ≤ len) × (length front ≡ len + 2)))

  module _ (bounded : Bounded parse) where
    next_message-Takes :
        (at_end : Bool) (buf : Bytes) (item : Item M) (rest : Bytes)
        → next_message u16_at parse get_content at_end buf ≡ some (item, rest)
        → Takes buf rest
    unfolding next_message
    next_message-Takes at_end buf item rest e = elim (Option-cases (parse buf at_end)) [
      | inl no_message ↦ absurd (ground arith)
      | inr ((m, len), found) ↦
          let within = bounded buf at_end m len found in
          (
            message_length get_content m len buf,
            omega (arith, le-message_length m len buf, within),
            message_length-le m len buf within.1,
            ground arith,
          )
    ]

    next_item-Takes :
        (at_end : Bool) (buf : Bytes) (item : Item M) (rest : Bytes)
        → next_item u16_at parse get_content at_end buf ≡ some (item, rest)
        → Takes buf rest
    unfolding next_item
    next_item-Takes at_end buf item rest e = elim (Bool-cases (starts_dollar buf)) [
      | inl dollar ↦ next_binary-Takes buf item rest (rw dollar at e)
      | inr other ↦ next_message-Takes at_end buf item rest (rw other at e)
    ]

    next_binary-Splits :
        (at_end : Bool) (buf : Bytes) (item : Item M) (rest : Bytes)
        → starts_dollar buf ≡ true
        → next_binary u16_at buf ≡ some (item, rest)
        → Splits at_end buf item rest
    unfolding next_binary
    next_binary-Splits at_end (dollar ∷ channel ∷ hi ∷ lo ∷ more) (binary channel' contents) rest d
          e =
        let n = u16_at hi lo in
        let enough : n ≤ length more = ground arith in
        let same_channel : channel ≡ channel' = ground arith in
        let front : take n more ≡ contents = ground arith in
        let behind : drop n more ≡ rest = ground arith in
        let sign : dollar ≡ b'$' = ground arith in
        (
          hi,
          lo,
          rw (sign, same_channel, ← front, ← behind, take-append-drop n more) refl,
          ap length (sym front) ∙ length-take n more ∙ omega (arith, enough),
        )
    next_binary-Splits at_end (dollar ∷ channel ∷ hi ∷ lo ∷ more) (rtsp m) rest d e =
        absurd (ground arith)
    next_binary-Splits at_end _ item rest d e = absurd (ground arith)

    message_length-cases :
        (m : M) (len : ℕ) (buf : Bytes)
        → (message_length get_content m len buf ≡ len)
          ⊎ ((asks_idr get_content m ≡ true)
              × (19 ≤ len)
              × (message_length get_content m len buf ≡ len + 2))
    unfolding message_length
    message_length-cases m len buf = ground arith

    next_message-Splits :
        (at_end : Bool) (buf : Bytes) (item : Item M) (rest : Bytes)
        → next_message u16_at parse get_content at_end buf ≡ some (item, rest)
        → Splits at_end buf item rest
    unfolding next_message
    next_message-Splits at_end buf (binary channel contents) rest e =
        elim (Option-cases (parse buf at_end)) [
          | inl no_message ↦ absurd (ground arith)
          | inr (x, found) ↦ absurd (ground arith)
        ]
    next_message-Splits at_end buf (rtsp m) rest e = elim (Option-cases (parse buf at_end)) [
      | inl no_message ↦ absurd (ground arith)
      | inr ((m', len), found) ↦
          let n = message_length get_content m' len buf in
          let within = bounded buf at_end m' len found in
          let le = message_length-le m' len buf within.1 in
          let size : length (take n buf) ≡ n = length-take n buf ∙ omega (arith, le) in
          let same : m' ≡ m = ground arith in
          let behind : drop n buf ≡ rest = ground arith in
          (
            take n buf,
            len,
            found ∙ ap (λ x. some (x, len)) same,
            sym (take-append-drop n buf) ∙ ap (λ r. take n buf ++ r) behind,
            omega (arith, size, le-message_length m' len buf, within.0),
            elim (message_length-cases m' len buf) [
              | inl plain ↦ inl (size ∙ plain)
              | inr (asks, long, more) ↦
                  inr (ap (asks_idr get_content) (sym same) ∙ asks, long, size ∙ more)
            ],
          )
    ]

    -- What a round takes off is the front of `mInBuffer`, all of it had arrived, and the rest stays
    -- as it is: for a binary packet the four bytes of its head and as many as its 16-bit length
    -- says, which are its contents; for a message at least one byte, as many as the parser says, or
    -- two more where a message of 19 bytes or more asks for an IDR frame. The parser gives a length
    -- of at least 1 that lies in the buffer.
    pub next_item-Splits :
        (at_end : Bool) (buf : Bytes) (item : Item M) (rest : Bytes)
        → next_item u16_at parse get_content at_end buf ≡ some (item, rest)
        → Splits at_end buf item rest
    unfolding next_item
    next_item-Splits at_end buf item rest e = elim (Bool-cases (starts_dollar buf)) [
      | inl dollar ↦ next_binary-Splits at_end buf item rest dollar (rw dollar at e)
      | inr other ↦ next_message-Splits at_end buf item rest (rw other at e)
    ]

    next_item-Progress : (at_end : Bool) → Progress (next_item u16_at parse get_content at_end)
    next_item-Progress at_end buf item rest e =
        let (n, pos, le, same) = next_item-Takes at_end buf item rest e in
        rw same (omega (arith, length-drop n buf))

    -- The loop ends: fuel beyond the length of the buffer changes nothing.
    pub items_fuel :
        (at_end : Bool) (f g : ℕ) (buf : Bytes)
        → length buf < f
        → length buf < g
        → items u16_at parse get_content at_end f buf ≡ items u16_at parse get_content at_end g buf
    unfolding items
    items_fuel at_end zero g buf h k = absurd (omega arith)
    items_fuel at_end (suc f) zero buf h k = absurd (omega arith)
    items_fuel at_end (suc f) (suc g) buf h k =
        elim (Option-cases (next_item u16_at parse get_content at_end buf)) [
          | inl e ↦ rw (e, items)
          | inr ((item, rest), e) ↦
              let shorter = next_item-Progress at_end buf item rest e in
              rw (e, items, items_fuel at_end f g rest (omega arith) (omega arith))
        ]
