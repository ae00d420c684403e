-- ===== src/Net/Session/Interleaved.antt =====
-- ANetworkSession.cpp, the loop of `Session::readMore` over an RTSP connection: interleaved binary
-- packets, which begin with '$', and RTSP messages, which `ParsedMessage::Parse` takes off. That
-- parser and its `getContent` are parameters, as is U16_AT.
use how_to_miracast_on_aosp.Prelude.{
  ℕ, zero, suc, ◌+◌, Bool, true, false, ◌&&◌, List, [], ◌∷◌, Option, none, some, ltb, leb, ◌==◌,
  if◌then◌else◌, Bytes, take, drop, length, get_or,
}

-- A unit of an RTSP connection: an interleaved packet of a channel, or a message.
pub data Item (M : Type 0) : Type 0 where
  binary : ℕ → Bytes → Item M
  rtsp : M → Item M

abbrev pub is_rtsp : {M : Type 0} → Item M → Bool
is_rtsp (binary _ _) = false
is_rtsp (rtsp _) = true

abbrev pub starts_dollar : Bytes → Bool
starts_dollar [] = false
starts_dollar (c ∷ cs) = c == b'$'

unfoldable pub is_prefix : Bytes → Bytes → Bool
is_prefix [] ys = true
is_prefix (x ∷ xs) [] = false
is_prefix (x ∷ xs) (y ∷ ys) = x == y && is_prefix xs ys

-- "wfd_idr_request\r\n"
abbrev pub idr_request : Bytes
idr_request =
    b'w' ∷ b'f' ∷ b'd' ∷ b'_' ∷ b'i' ∷ b'd' ∷ b'r' ∷ b'_' ∷ b'r' ∷ b'e' ∷ b'q' ∷ b'u' ∷ b'e' ∷ b's'
    ∷ b't' ∷ b'\r' ∷ b'\n' ∷ []

module _ {M : Type 0} (get_content : M → Option Bytes) where
  unfoldable pub asks_idr : M → Bool
  unfolding is_prefix
  asks_idr m = elim (get_content m) [ none ↦ false | some text ↦ is_prefix idr_request text ]

  -- The workaround for a sink that sends the wrong content length.
  unfoldable pub message_length : M → ℕ → Bytes → ℕ
  unfolding asks_idr
  message_length m len buf =
      if asks_idr m
        && (leb 19 len && (get_or buf len 0 == b'\r' && get_or buf (len + 1) 0 == b'\n'))
      then len + 2
      else len

module _ (u16_at : ℕ → ℕ → ℕ) where
  unfoldable pub next_binary : {M : Type 0} → Bytes → Option (Item M × Bytes)
  next_binary (dollar ∷ channel ∷ hi ∷ lo ∷ rest) =
      if ltb (length (dollar ∷ channel ∷ hi ∷ lo ∷ rest)) (4 + u16_at hi lo)
      then none
      else some (binary channel (take (u16_at hi lo) rest), drop (u16_at hi lo) rest)
  next_binary _ = none

-- `parse buf at_end` gives the message at the front of `buf` and its length.
module _ (u16_at : ℕ → ℕ → ℕ) {M : Type 0} (parse : Bytes → Bool → Option (M × ℕ)) where
  module _ (get_content : M → Option Bytes) where
    unfoldable pub next_message : Bool → Bytes → Option (Item M × Bytes)
    next_message at_end buf = elim (parse buf at_end) [
      | none ↦ none
      | some (m, len) ↦ some (rtsp m, drop (message_length get_content m len buf) buf)
    ]

    unfoldable pub next_item : Bool → Bytes → Option (Item M × Bytes)
    unfolding next_message
    next_item at_end buf =
        if starts_dollar buf then next_binary u16_at buf else next_message at_end buf

    -- The `for (;;)`: at the end of the stream one message ends it.
    unfoldable pub items : Bool → ℕ → Bytes → List (Item M) × Bytes
    items at_end zero buf = ([], buf)
    items at_end (suc fuel) buf = elim (next_item at_end buf) [
      | none ↦ ([], buf)
      | some (item, rest) ↦
          let (more, left) = items at_end fuel rest in
          if at_end && is_rtsp item then (item ∷ [], rest) else (item ∷ more, left)
    ]
