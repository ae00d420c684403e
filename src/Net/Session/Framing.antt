-- ===== src/Net/Session/Framing.antt =====
-- ANetworkSession.cpp: the 16-bit length-prefixed datagrams that a TCP stream carries, as
-- `Session::sendRequest` writes them and `Session::readMore` takes them apart. `u16_at` stands for
-- U16_AT of the media framework.
use how_to_miracast_on_aosp.Prelude.{
  ℕ, ◌+◌, ◌*◌, ◌/◌, ◌%◌, ◌<◌, ◌≡◌, refl, ◌∙◌, Option, none, some, List, [], ◌∷◌, ◌++◌, append_assoc,
  arith, length, length-append, Bytes, take, drop, ltb, if◌then◌else◌, length-drop, take-append,
  drop-append, take-length_append, drop-length_append,
}
use how_to_miracast_on_aosp.Net.Stream.{
  drained, Progress, Stable, drained-append, drained-next, drained-some, drained-none, then_more,
}

module _ (u16_at : ℕ → ℕ → ℕ) where
  -- One round of the loop: the packet at the front of `mInBuffer`, if all of it has arrived.
  unfoldable pub next_packet : Bytes → Option (Bytes × Bytes)
  next_packet (hi ∷ lo ∷ rest) =
      if ltb (length (hi ∷ lo ∷ rest)) (u16_at hi lo + 2)
      then none
      else some (take (u16_at hi lo) rest, drop (u16_at hi lo) rest)
  next_packet _ = none

  unfoldable pub packets : Bytes → List Bytes × Bytes
  unfolding drained next_packet
  packets buf = drained next_packet buf

-- The specification of the stream: each payload behind its length, high byte first.
abbrev pub frame : Bytes → Bytes
frame p = (length p / 256) ∷ (length p % 256) ∷ p

abbrev pub frames : List Bytes → Bytes
frames [] = []
frames (p ∷ ps) = frame p ++ frames ps

-- Every payload's length fits 16 bits.
abbrev pub AllFit : List Bytes → Type 0
AllFit [] = Unit {0}
AllFit (p ∷ ps) = (length p < 65536) × AllFit ps

-- The byte order that U16_AT reads.
abbrev pub BigEndian : (ℕ → ℕ → ℕ) → Type 0
BigEndian u16_at = (hi lo : ℕ) → hi < 256 → lo < 256 → u16_at hi lo ≡ hi * 256 + lo

module _ (u16_at : ℕ → ℕ → ℕ) where
  pub next_packet-Progress : Progress (next_packet u16_at)
  unfolding next_packet
  next_packet-Progress [] p rest e = ground arith
  next_packet-Progress (hi ∷ []) p rest e = ground arith
  next_packet-Progress (hi ∷ lo ∷ r) p rest e = ground (arith, length-drop (u16_at hi lo) r)

  pub next_packet-Stable : Stable (next_packet u16_at)
  unfolding next_packet
  next_packet-Stable [] more p rest e = ground arith
  next_packet-Stable (hi ∷ []) more p rest e = ground arith
  next_packet-Stable (hi ∷ lo ∷ r) more p rest e = ground (
    arith,
    take-append (u16_at hi lo) r more,
    drop-append (u16_at hi lo) r more,
    length-append r more,
  )

  -- Packets do not depend on where the network cuts the stream.
  pub packets-append :
      (xs ys : Bytes)
      → packets u16_at (xs ++ ys)
        ≡ then_more (packets u16_at xs) (packets u16_at ((packets u16_at xs).1 ++ ys))
  unfolding packets
  packets-append = drained-append (next_packet u16_at) next_packet-Progress next_packet-Stable

  pub packets-next : (buf : Bytes) → next_packet u16_at (packets u16_at buf).1 ≡ none
  unfolding packets
  packets-next = drained-next (next_packet u16_at) next_packet-Progress

  pub packets_none : (buf : Bytes) → next_packet u16_at buf ≡ none → packets u16_at buf ≡ ([], buf)
  unfolding packets
  packets_none = drained-none (next_packet u16_at) next_packet-Progress

  pub packets_some :
      (buf p rest : Bytes)
      → next_packet u16_at buf ≡ some (p, rest)
      → packets u16_at buf ≡ (p ∷ (packets u16_at rest).0, (packets u16_at rest).1)
  unfolding packets
  packets_some = drained-some (next_packet u16_at) next_packet-Progress

  module _ (be : BigEndian u16_at) where
    next_packet-frame :
        (p rest : Bytes) → length p < 65536 → next_packet u16_at (frame p ++ rest) ≡ some (p, rest)
    unfolding next_packet
    next_packet-frame p rest h =
        let size : u16_at (length p / 256) (length p % 256) ≡ length p =
          be (length p / 256) (length p % 256) (omega arith) (omega arith) ∙ omega arith in
        rw (size, take-length_append p rest, drop-length_append p rest)
          (ground (arith, length-append p rest))

    -- The receiver takes exactly the framed payloads off, whatever comes behind them.
    pub packets-frames :
        (ps : List Bytes) (rest : Bytes)
        → AllFit ps
        → packets u16_at (frames ps ++ rest) ≡ then_more (ps, []) (packets u16_at rest)
    packets-frames [] rest h = refl
    packets-frames (p ∷ ps) rest h = rw (append_assoc (frame p) (frames ps) rest) (
        packets_some _ p (frames ps ++ rest) (next_packet-frame p (frames ps ++ rest) h.0)
        ∙ rw (packets-frames ps rest h.1))
