-- ===== src/Sink/Tunnel/Queue.antt =====
-- sink/TunnelRenderer.cpp, `queueBuffer`: the order of the queue and the count of bytes.
use how_to_miracast_on_aosp.Prelude.{
  ℕ, ◌+◌, ◌≡◌, refl, List, [], ◌∷◌, arith, inl, inr, ◌⊎◌, Bool-cases,
}
use mathlib.Core.List.{Perm}
use mathlib.Core.List.Perm
use how_to_miracast_on_aosp.Prelude.Int.{ℤ, pos, ◌+ℤ◌, ◌<ℤ◌, eqb_ℤ, ltb_ℤ, eq_of_parts}
use how_to_miracast_on_aosp.Sink.Tunnel.{
  Packet, size, Renderer, Placed, duplicate, inserted, before, place_at, place, placed,
  queue_buffer,
}

abbrev pub AllAbove : ℤ → List Packet → Type 0
AllAbove s [] = Unit {0}
AllAbove s (p ∷ ps) = (s <ℤ p.ext_seq_no) × AllAbove s ps

-- Sequence numbers rise along the queue.
abbrev pub Ascending : List Packet → Type 0
Ascending [] = Unit {0}
Ascending (p ∷ ps) = AllAbove p.ext_seq_no ps × Ascending ps

abbrev pub HasSeq : ℤ → List Packet → Type 0
HasSeq s [] = ⊥
HasSeq s (p ∷ ps) = (p.ext_seq_no ≡ s) ⊎ HasSeq s ps

pub AllAbove-trans : (s t : ℤ) (ps : List Packet) → s <ℤ t → AllAbove t ps → AllAbove s ps
AllAbove-trans s t [] h a = tt
AllAbove-trans s t (p ∷ ps) h a = (omega (arith, a.0), AllAbove-trans s t ps h a.1)

-- What the walk has found in the packets behind it.
abbrev Found : Packet → List Packet → Placed → Type 0
Found b ps duplicate = HasSeq b.ext_seq_no ps
Found b ps (inserted l) = Ascending l × ((s : ℤ) → AllAbove s ps → AllAbove s l) × Perm l (b ∷ ps)
Found b ps before = AllAbove b.ext_seq_no ps

place_at-Found :
    (b p : Packet) (ps : List Packet) (w : Placed)
    → Ascending (p ∷ ps)
    → Found b ps w
    → Found b (p ∷ ps) (place_at b p ps w)
place_at-Found b p ps duplicate asc f = inr f
place_at-Found b p ps (inserted l) asc f = (
  (f.1 p.ext_seq_no asc.0, f.0),
  (λ s a. (a.0, f.1 s a.1)),
  Perm.trans (Perm.cons p f.2) (Perm.swap b p ps),
)
place_at-Found b p ps before asc f = elim (Bool-cases (eqb_ℤ p.ext_seq_no b.ext_seq_no)) [
  | inl same ↦ rw same (inl (eq_of_parts _ _ (ground arith)))
  | inr other ↦ elim (Bool-cases (ltb_ℤ p.ext_seq_no b.ext_seq_no)) [
    | inl below ↦
        let lt : p.ext_seq_no <ℤ b.ext_seq_no = ground arith in
        rw (other, below)
          (((lt, asc.0), (f, asc.1)), (λ s a. (a.0, (omega (arith, a.0), a.1))), Perm.swap b p ps)
    | inr above ↦ rw (other, above) (ground arith, f)
  ]
]

place-Found : (b : Packet) (ps : List Packet) → Ascending ps → Found b ps (place b ps)
unfolding place
place-Found b [] asc = tt
place-Found b (p ∷ ps) asc = place_at-Found b p ps (place b ps) asc (place-Found b ps asc.1)

-- The bytes of the packets that are queued.
abbrev pub bytes : List Packet → ℕ
bytes [] = 0
bytes (p ∷ ps) = size p + bytes ps

-- What queuing does to a renderer.
pub record Queued (r : Renderer) (b : Packet) : Type 0 where
  pub ascending : Ascending (queue_buffer r b).packets
  pub joined_or_known :
      Perm (queue_buffer r b).packets (b ∷ r.packets)
      ⊎ (HasSeq b.ext_seq_no r.packets × ((queue_buffer r b).packets ≡ r.packets))
  pub counted : (queue_buffer r b).total_bytes_queued ≡ r.total_bytes_queued +ℤ pos (size b)

from_Found :
    (r : Renderer) (b : Packet) (w : Placed)
    → Ascending r.packets
    → Found b r.packets w
    → Ascending (placed b r.packets w)
      × (Perm (placed b r.packets w) (b ∷ r.packets)
          ⊎ (HasSeq b.ext_seq_no r.packets × (placed b r.packets w ≡ r.packets)))
from_Found r b duplicate asc f = (asc, inr (f, refl))
from_Found r b (inserted l) asc f = (f.0, inl f.2)
from_Found r b before asc f = ((f, asc), inl (Perm.refl (b ∷ r.packets)))

-- Queuing into a queue in order keeps the order. Either the new packet has joined the others, or
-- one with its sequence number was there and the queue is as it was. In both cases its size is
-- added to `mTotalBytesQueued`.
pub queue_buffer-Queued : (r : Renderer) (b : Packet) → Ascending r.packets → Queued r b
unfolding queue_buffer
queue_buffer-Queued r b asc =
    let (a, j) = from_Found r b (place b r.packets) asc (place-Found b r.packets asc) in
    record { ascending = a; joined_or_known = j; counted = refl }

pub queue_buffer-AllAbove :
    (s : ℤ) (r : Renderer) (b : Packet)
    → Ascending r.packets
    → AllAbove s r.packets
    → s <ℤ b.ext_seq_no
    → AllAbove s (queue_buffer r b).packets
unfolding queue_buffer
queue_buffer-AllAbove s r b asc a h = at_placed (place b r.packets) (place-Found b r.packets asc)
  where
    at_placed : (w : Placed) → Found b r.packets w → AllAbove s (placed b r.packets w)
    at_placed duplicate f = a
    at_placed (inserted l) f = f.1 s a
    at_placed before f = (h, a)
