-- ===== src/Net/Session/RoundTrip.antt =====
-- ANetworkSession.cpp: length-prefixed datagrams over a TCP stream, from one session's
-- `sendRequest` to another one's `readMore`.
use how_to_miracast_on_aosp.Prelude.{
  ℕ, ◌<◌, ◌≡◌, ◌≢◌, refl, ap, sym, ◌∙◌, Bool, false, Option, none, List, [], ◌∷◌, ◌++◌, append-nil,
  append_assoc, map-append, map, arith, length, Bytes, take_all, flatten,
}
use how_to_miracast_on_aosp.Prelude.Int.{pos}
use how_to_miracast_on_aosp.Prelude.Outcome.{Outcome, done, ◌>>=◌}
use how_to_miracast_on_aosp.Net.Session.{Session, connected, send_request, prefix_high, prefix_low}
use how_to_miracast_on_aosp.Net.Session.Notice.{Notice, packet}
use how_to_miracast_on_aosp.Net.Session.Read.{
  received, read_more, read_stream, take_units, packet_notices,
}
use how_to_miracast_on_aosp.Net.Session.Framing.{
  next_packet, packets, packets-append, packets-next, packets_none, packets-frames, frame, frames,
  AllFit, BigEndian,
}

-- A TCP session that is no RTSP connection.
pub record IsTcp (s : Session) : Type 0 where
  pub is_connected : s.state ≡ connected
  pub not_rtsp : s.is_rtsp_connection ≡ false

abbrev pub send_all : Session → List Bytes → Outcome Session
send_all s [] = done s
send_all s (p ∷ ps) = do s' ← send_request s p (pos (length p)); send_all s' ps

abbrev pub NonEmpty : List Bytes → Type 0
NonEmpty [] = Unit {0}
NonEmpty (c ∷ cs) = (c ≢ []) × NonEmpty cs

send_request-frame :
    (s : Session) (p : Bytes)
    → IsTcp s
    → length p < 65536
    → send_request s p (pos (length p)) ≡ done (record s { out_buffer = s.out_buffer ++ frame p })
unfolding send_request
send_request-frame s p t h = ground (
  arith,
  take_all p,
  append_assoc s.out_buffer (prefix_high (pos (length p)) ∷ prefix_low (pos (length p)) ∷ []) p,
)

send_all-frames :
    (s : Session) (ps : List Bytes)
    → IsTcp s
    → AllFit ps
    → send_all s ps ≡ done (record s { out_buffer = s.out_buffer ++ frames ps })
send_all-frames s [] t h = rw (append-nil s.out_buffer)
send_all-frames s (p ∷ ps) t h = rw (send_request-frame s p t h.0) (
    send_all-frames (record s { out_buffer = s.out_buffer ++ frame p }) ps
      (record { is_connected = t.is_connected; not_rtsp = t.not_rtsp }) h.1
    ∙ rw (append_assoc s.out_buffer (frame p) (frames ps)))

next_packet-nil : (u16_at : ℕ → ℕ → ℕ) → next_packet u16_at [] ≡ none
unfolding next_packet
next_packet-nil u16_at = refl

packets_only :
    (u16_at : ℕ → ℕ → ℕ)
    → BigEndian u16_at
    → (ps : List Bytes) → AllFit ps
    → packets u16_at (frames ps) ≡ (ps, [])
packets_only u16_at be ps fit =
    ap (packets u16_at) (sym (append-nil (frames ps)))
    ∙ packets-frames u16_at be ps [] fit
    ∙ rw (packets_none u16_at [] (next_packet-nil u16_at), append-nil ps)

sent_buffer :
    (a b : Session) (ps : List Bytes)
    → IsTcp a
    → a.out_buffer ≡ []
    → AllFit ps
    → send_all a ps ≡ done b
    → b.out_buffer ≡ frames ps
sent_buffer a b ps ta ea fit sends =
    let whole = send_all-frames a ps ta fit in ground (arith, whole)

module _ (u16_at : ℕ → ℕ → ℕ) {M : Type 0} (parse : Bytes → Bool → Option (M × ℕ))
    (get_content : M → Option Bytes) (clock : ℕ → ℕ) where
  -- One call of `readMore` for each piece that the network delivers.
  abbrev pub read_all : Session → List Bytes → Outcome (Session × List (Notice M))
  read_all s [] = done (s, [])
  read_all s (c ∷ cs) = do
    (s', posted, _) ← read_more u16_at parse get_content s clock [] (received c ∷ [])
    (s'', more) ← read_all s' cs
    done (s'', posted ++ more)

  read_more-packets :
      (s : Session) (c : Bytes)
      → IsTcp s
      → c ≢ []
      → read_more u16_at parse get_content s clock [] (received c ∷ [])
        ≡ done (
          record s { in_buffer = (packets u16_at (s.in_buffer ++ c)).1 },
          packet_notices s.session_id (packets u16_at (s.in_buffer ++ c)).0,
          0,
        )
  unfolding read_more read_stream take_units
  read_more-packets s [] t ne = absurd (ne refl)
  read_more-packets s (b ∷ c) t ne = ground arith

  packet_notices-append :
      (id : ℕ) (ps qs : List Bytes)
      → packet_notices {M = M} id (ps ++ qs) ≡ packet_notices id ps ++ packet_notices id qs
  unfolding packet_notices
  packet_notices-append id ps qs = map-append (packet id) ps qs

  -- Whatever the pieces, the notices are those of the whole stream.
  read_all-packets :
      (s : Session) (cs : List Bytes)
      → IsTcp s
      → NonEmpty cs
      → next_packet u16_at s.in_buffer ≡ none
      → read_all s cs
        ≡ done (
          record s { in_buffer = (packets u16_at (s.in_buffer ++ flatten cs)).1 },
          packet_notices s.session_id (packets u16_at (s.in_buffer ++ flatten cs)).0,
        )
  read_all-packets s [] t ne e =
      rw (append-nil s.in_buffer, packets_none u16_at s.in_buffer e) (unfold packet_notices in refl)
  read_all-packets s (c ∷ cs) t ne e =
      let buf = (packets u16_at (s.in_buffer ++ c)).1 in
      rw (
        read_more-packets s c t ne.0,
        read_all-packets (record s { in_buffer = buf }) cs
            (record { is_connected = t.is_connected; not_rtsp = t.not_rtsp }) ne.1
            (packets-next u16_at (s.in_buffer ++ c)),
        ← append_assoc s.in_buffer c (flatten cs),
        packets-append u16_at (s.in_buffer ++ c) (flatten cs),
        packet_notices-append,
      )

  -- A session that is no RTSP connection posts the same notices and keeps the same bytes back
  -- however the network cuts the same stream into non-empty pieces, if it begins with no complete
  -- packet in its buffer.
  pub read_all-flatten :
      (s : Session) (cs ds : List Bytes)
      → IsTcp s
      → NonEmpty cs
      → NonEmpty ds
      → next_packet u16_at s.in_buffer ≡ none
      → flatten cs ≡ flatten ds
      → read_all s cs ≡ read_all s ds
  read_all-flatten s cs ds t nc nd e same =
      rw (read_all-packets s cs t nc e, same) (sym (read_all-packets s ds t nd e))

  -- Payloads of less than 65536 bytes that a session with an empty buffer is asked to send, in
  -- however many non-empty pieces the bytes arrive, come out of the other session's `readMore` as
  -- one notice each, whole and in order, and no bytes stay behind. U16_AT reads the high byte
  -- first.
  pub read_all-send_all :
      (a b r : Session) (ps cs : List Bytes)
      → BigEndian u16_at
      → IsTcp a
      → IsTcp r
      → a.out_buffer ≡ []
      → r.in_buffer ≡ []
      → AllFit ps
      → NonEmpty cs
      → send_all a ps ≡ done b
      → flatten cs ≡ b.out_buffer
      → read_all r cs ≡ done (record r { in_buffer = [] }, map (packet r.session_id) ps)
  read_all-send_all a b r ps cs be ta tr ea er fit ne sends same =
      let buffer : b.out_buffer ≡ frames ps = sent_buffer a b ps ta ea fit sends in
      read_all-packets r cs tr ne (rw er (next_packet-nil u16_at))
      ∙ rw (er, same, buffer, packets_only u16_at be ps fit) (unfold packet_notices in refl)
