-- ===== src/Sink/Tunnel/History.antt =====
-- sink/TunnelRenderer.cpp: histories of `queueBuffer` and `dequeueBuffer`.
use how_to_miracast_on_aosp.Prelude.{
  ◌≡◌, refl, List, [], ◌∷◌, Option, none, some, arith, inl, inr, subst,
}
use how_to_miracast_on_aosp.Prelude.Int.{ℤ, ◌<ℤ◌, ◌≤ℤ◌, zero_ℤ, minus_one}
use how_to_miracast_on_aosp.Sink.Tunnel.{
  Packet, Renderer, initial, Dequeued, queue_buffer, dequeue_buffer,
}
use how_to_miracast_on_aosp.Sink.Tunnel.Queue.{
  AllAbove, AllAbove-trans, Ascending, queue_buffer-Queued, queue_buffer-AllAbove,
}
use how_to_miracast_on_aosp.Sink.Tunnel.Order.{Dequeues, dequeue_buffer-Dequeues}

-- A packet that arrives, or a call of `dequeueBuffer` at a time.
pub data Event : Type 0 where
  arrives : Packet → Event
  dequeues : ℤ → Event

abbrev pub output : Option Packet → List Packet → List Packet
output none ps = ps
output (some p) ps = p ∷ ps

-- What a history of calls returns.
unfoldable pub outputs : Renderer → List Event → List Packet
outputs r [] = []
outputs r (arrives b ∷ es) = outputs (queue_buffer r b) es
outputs r (dequeues now ∷ es) =
    output (dequeue_buffer r now).1 (outputs (dequeue_buffer r now).0 es)

-- Extended sequence numbers that arrive are not negative.
abbrev pub AllNatural : List Event → Type 0
AllNatural [] = Unit {0}
AllNatural (arrives b ∷ es) = (minus_one <ℤ b.ext_seq_no) × AllNatural es
AllNatural (dequeues now ∷ es) = AllNatural es

abbrev InOrder : Renderer → List Packet → Type 0
InOrder r ps =
    Ascending ps × (zero_ℤ ≤ℤ r.last_dequeued_ext_seq_no → AllAbove r.last_dequeued_ext_seq_no ps)

output-InOrder :
    (r : Renderer) (now : ℤ) (d : Dequeued) (o : Option Packet) (ps : List Packet)
    → Dequeues r now d
    → d.1 ≡ o
    → AllAbove minus_one r.packets
    → InOrder d.0 ps
    → InOrder r (output o ps)
output-InOrder r now d none ps q e a (asc, above) =
    (asc, λ h. subst (λ s. AllAbove s ps) (q.waiting e) (above (rw (q.waiting e) h)))
output-InOrder r now d (some p) ps q e a (asc, above) =
    let natural : minus_one <ℤ p.ext_seq_no = q.from_queue p minus_one e a in
    let later = subst (λ s. zero_ℤ ≤ℤ s → AllAbove s ps) (q.remembered p e) above (omega arith) in
    (
      (later, asc),
      λ h. elim (q.newer p e) [
        | inl first ↦ absurd (omega arith)
        | inr newer ↦ (newer, AllAbove-trans _ p.ext_seq_no ps newer later)
      ],
    )

outputs-InOrder :
    (r : Renderer) (es : List Event)
    → Ascending r.packets
    → AllAbove minus_one r.packets
    → AllNatural es
    → InOrder r (outputs r es)
unfolding outputs queue_buffer
outputs-InOrder r [] asc a n = (tt, λ h. tt)
outputs-InOrder r (arrives b ∷ es) asc a n =
    outputs-InOrder (queue_buffer r b) es (queue_buffer-Queued r b asc).ascending
      (queue_buffer-AllAbove minus_one r b asc a n.0) n.1
outputs-InOrder r (dequeues now ∷ es) asc a n =
    let q = dequeue_buffer-Dequeues r now asc in
    output-InOrder r now (dequeue_buffer r now) (dequeue_buffer r now).1 _ q refl a
      (outputs-InOrder (dequeue_buffer r now).0 es q.ascending (q.above minus_one a) n)

-- From the start, whatever arrives in whatever order and whenever the player asks, the packets that
-- are handed out have rising sequence numbers: none twice and none out of order. The numbers that
-- arrive are not negative.
pub outputs-Ascending : (es : List Event) → AllNatural es → Ascending (outputs initial es)
outputs-Ascending es n = (outputs-InOrder initial es tt tt n).0
