-- ===== src/Codec/Ledger/Transfers.antt =====
-- frameworks/av/media/libstagefright/ACodec.cpp: one transfer keeps mStatus and the log together.
use how_to_miracast_on_aosp.Prelude.{
  ℕ, zero, suc, ◌≡◌, ◌≢◌, ap, false, List, [], ◌∷◌, ◌++◌, none, some, get_elem?, set, arith,
}
use how_to_miracast_on_aosp.Codec.{
  Port, input, output, Owner, us, Buffer, Transfer, allocated, free_buffer, Event, transfer,
  arrives,
}
use how_to_miracast_on_aosp.Codec.Buffers.{remove_at}
use how_to_miracast_on_aosp.Codec.Ledger.{same_port, whither, holder, Absent, Held}

-- A transfer of a buffer that is not among `bs`.
Held-transfer_absent :
    (p : Port) (t : Transfer) (k : ℕ) (bs : List Buffer) (log : List Event)
    → Absent k bs
    → Held p bs log
    → Held p bs (transfer t p k ∷ log)
unfolding holder Held Absent
Held-transfer_absent p t k [] log out h = tt
Held-transfer_absent input t k (b ∷ bs) log out h =
    (ground arith, h.1, Held-transfer_absent input t k bs log out.1 h.2)
Held-transfer_absent output t k (b ∷ bs) log out h =
    (ground arith, h.1, Held-transfer_absent output t k bs log out.1 h.2)

pub Held-other_port :
    (p q : Port) (t : Transfer) (k : ℕ) (bs : List Buffer) (log : List Event)
    → same_port p q ≡ false
    → Held p bs log
    → Held p bs (transfer t q k ∷ log)
unfolding holder Held
Held-other_port p q t k [] log out h = tt
Held-other_port p q t k (b ∷ bs) log out h =
    (ground arith, h.1, Held-other_port p q t k bs log out h.2)

pub Held-holder :
    (p : Port) (bs : List Buffer) (log : List Event) (i : ℕ) (b : Buffer)
    → get_elem? bs i ≡ some b
    → Held p bs log
    → holder p b.id log ≡ some b.status
unfolding Held
Held-holder p [] log i b e h = absurd (cc)
Held-holder p (c ∷ bs) log zero b e h = ground arith
Held-holder p (c ∷ bs) log (suc i) b e h = Held-holder p bs log i b e h.2

Absent-get_elem? :
    (k : ℕ) (bs : List Buffer) (i : ℕ) (b : Buffer)
    → get_elem? bs i ≡ some b
    → Absent k bs
    → k ≢ b.id
unfolding Absent
Absent-get_elem? k [] i b e out = absurd (cc)
Absent-get_elem? k (c ∷ bs) zero b e out = ground arith
Absent-get_elem? k (c ∷ bs) (suc i) b e out = Absent-get_elem? k bs i b e out.1

Absent-set :
    (k : ℕ) (bs : List Buffer) (i : ℕ) (b : Buffer) (o : Owner)
    → get_elem? bs i ≡ some b
    → Absent k bs
    → Absent k (set bs i (record b { status = o }))
unfolding Absent
Absent-set k [] i b o e out = tt
Absent-set k (c ∷ bs) zero b o e out = ground arith
Absent-set k (c ∷ bs) (suc i) b o e out = (out.0, Absent-set k bs i b o e out.1)

Absent-remove : (k i : ℕ) (bs : List Buffer) → Absent k bs → Absent k (remove_at i bs)
unfolding Absent remove_at
Absent-remove k i [] out = tt
Absent-remove k zero (c ∷ bs) out = out.1
Absent-remove k (suc i) (c ∷ bs) out = (out.0, Absent-remove k i bs out.1)

holder_here :
    (p : Port) (t : Transfer) (k : ℕ) (log : List Event)
    → holder p k (transfer t p k ∷ log) ≡ whither t
unfolding holder
holder_here input t k log = ground arith
holder_here output t k log = ground arith

holder_there :
    (p : Port) (t : Transfer) (k j : ℕ) (log : List Event)
    → j ≢ k
    → holder p j (transfer t p k ∷ log) ≡ holder p j log
unfolding holder
holder_there input t k j log h = ground arith
holder_there output t k j log h = ground arith

-- A transfer of the buffer at `i` and its new mStatus.
pub Held-set :
    (p : Port) (t : Transfer) (bs : List Buffer) (log : List Event) (i : ℕ) (b : Buffer)
    → get_elem? bs i ≡ some b
    → whither t ≡ some (arrives t)
    → Held p bs log
    → Held p (set bs i (record b { status = arrives t })) (transfer t p b.id ∷ log)
unfolding Held
Held-set p t [] log i b e w h = tt
Held-set p t (c ∷ bs) log zero b e w h =
    let same : c ≡ b = cc in
    rw (← same)
      (ground (arith, holder_here p t c.id log), h.1, Held-transfer_absent p t c.id bs log h.1 h.2)
Held-set p t (c ∷ bs) log (suc i) b e w h = (
  ground (arith, holder_there p t b.id c.id log (Absent-get_elem? c.id bs i b e h.1)),
  Absent-set c.id bs i b (arrives t) e h.1,
  Held-set p t bs log i b e w h.2,
)

pub Held-remove :
    (p : Port) (bs : List Buffer) (log : List Event) (i : ℕ) (b : Buffer)
    → get_elem? bs i ≡ some b
    → Held p bs log
    → Held p (remove_at i bs) (transfer free_buffer p b.id ∷ log)
unfolding Held remove_at
Held-remove p [] log i b e h = tt
Held-remove p (c ∷ bs) log zero b e h =
    let same : c ≡ b = cc in rw (← same) (Held-transfer_absent p free_buffer c.id bs log h.1 h.2)
Held-remove p (c ∷ bs) log (suc i) b e h = (
  ground (arith, holder_there p free_buffer b.id c.id log (Absent-get_elem? c.id bs i b e h.1)),
  Absent-remove c.id i bs h.1,
  Held-remove p bs log i b e h.2,
)

Absent-push :
    (k : ℕ) (bs : List Buffer) (b : Buffer) → Absent k bs → k ≢ b.id → Absent k (bs ++ b ∷ [])
unfolding Absent
Absent-push k [] b out ne = (ne, tt)
Absent-push k (c ∷ bs) b out ne = (out.0, Absent-push k bs b out.1 ne)

not_new :
    (p : Port) (k j : ℕ) (o : Owner) (log : List Event)
    → holder p k log ≡ some o
    → holder p j log ≡ none
    → k ≢ j
not_new p k j o log here new e = let same = ap (λ i. holder p i log) e in absurd (cc)

-- A new buffer, whose id is nowhere.
pub Held-push :
    (p : Port) (bs : List Buffer) (log : List Event) (b : Buffer)
    → holder p b.id log ≡ none
    → b.status ≡ us
    → Held p bs log
    → Held p (bs ++ b ∷ []) (transfer allocated p b.id ∷ log)
unfolding Held Absent arrives whither
Held-push p [] log b new ours h = (ground (arith, holder_here p allocated b.id log), tt, tt)
Held-push p (c ∷ bs) log b new ours h =
    let other = not_new p c.id b.id c.status log h.0 new in
    (
      ground (arith, holder_there p allocated b.id c.id log other),
      Absent-push c.id bs b h.1 other,
      Held-push p bs log b new ours h.2,
    )
