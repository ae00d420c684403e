-- ===== src/Tests/Sink.antt =====
-- Packets that reach the renderer of sink/TunnelRenderer.cpp out of order and twice.
use how_to_miracast_on_aosp.Prelude.{ℕ, ◌≡◌, refl, List, [], ◌∷◌, arith}
use how_to_miracast_on_aosp.Prelude.Int.{ℤ, pos, ◌+ℤ◌}
use how_to_miracast_on_aosp.Prelude.Outcome.{Ensures}
use how_to_miracast_on_aosp.Sink.Tunnel.{
  Packet, Renderer, initial, queue_buffer, place, dequeue_buffer,
}
use how_to_miracast_on_aosp.Sink.Tunnel.Queue.{Ascending, Queued, queue_buffer-Queued}
use how_to_miracast_on_aosp.Sink.Tunnel.History.{
  Event, arrives, dequeues, outputs, AllNatural, outputs-Ascending,
}
use how_to_miracast_on_aosp.Sink.Tunnel.Stream.{do_some_work}
use how_to_miracast_on_aosp.Sink.Tunnel.Stream.Fill.{GoodWork, do_some_work-GoodWork}

abbrev packet_at : ℕ → Packet
packet_at n = record { ext_seq_no = pos n; contents = 71 ∷ n ∷ [] }

-- Packet 4 was handed out; 5 is missing.
abbrev waiting : Renderer
waiting = record initial {
  total_bytes_queued = pos 4;
  packets = packet_at 6 ∷ packet_at 8 ∷ [];
  last_dequeued_ext_seq_no = pos 4;
  first_failed_attempt_us = pos 100;
}

waiting-Ascending : Ascending waiting.packets
waiting-Ascending = ((omega arith, tt), (tt, tt))

queue_buffer-Queued_example : Queued waiting (packet_at 7)
queue_buffer-Queued_example = queue_buffer-Queued waiting (packet_at 7) waiting-Ascending

abbrev history : List Event
history =
    arrives (packet_at 3)
    ∷ dequeues (pos 0)
    ∷ arrives (packet_at 5)
    ∷ arrives (packet_at 4)
    ∷ arrives (packet_at 3)
    ∷ arrives (packet_at 5)
    ∷ dequeues (pos 1)
    ∷ dequeues (pos 2)
    ∷ []

history-AllNatural : AllNatural history
history-AllNatural = (omega arith, (omega arith, (omega arith, (omega arith, (omega arith, tt)))))

outputs-history : outputs initial history ≡ packet_at 3 ∷ packet_at 4 ∷ packet_at 5 ∷ []
unfolding outputs dequeue_buffer queue_buffer place ◌+ℤ◌
outputs-history = refl

outputs-Ascending_example : Ascending (outputs initial history)
outputs-Ascending_example = outputs-Ascending history history-AllNatural

abbrev times : ℕ → ℤ × ℤ
times n = (pos n, pos n)

do_some_work-GoodWork_example :
    Ensures
      (GoodWork (400 ∷ 400 ∷ []) (1 ∷ 0 ∷ []))
      (do_some_work times (400 ∷ 400 ∷ []) waiting 0 (1 ∷ 0 ∷ []))
do_some_work-GoodWork_example = do_some_work-GoodWork times (400 ∷ 400 ∷ []) waiting 0 (1 ∷ 0 ∷ [])
