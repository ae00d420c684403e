-- ===== src/Codec/Ledger/Moves.antt =====
-- frameworks/av/media/libstagefright/ACodec.cpp: emitting, passing on and releasing keep mStatus
-- and the log together.
use how_to_miracast_on_aosp.Prelude.{
  ℕ, ◌≡◌, refl, ◌∙◌, Bool, true, false, List, [], ◌∷◌, some, get_elem?, set, arith,
  get_elem?-set_here,
}
use how_to_miracast_on_aosp.Prelude.Outcome.{done}
use how_to_miracast_on_aosp.Rtsp.Frame.{Still}
use how_to_miracast_on_aosp.Codec.{
  Port, input, output, Owner, same_owner, Buffer, Transfer, free_buffer, Event, transfer, Codec,
  emit, buffers, with_buffers, buffer_at, arrives, pass,
}
use how_to_miracast_on_aosp.Codec.Buffers.{remove_at, release, at_home}
use how_to_miracast_on_aosp.Codec.Ledger.{legal, whither, holder, Proper, Held, Custody}
use how_to_miracast_on_aosp.Codec.Ledger.Transfers.{
  Held-other_port, Held-holder, Held-set, Held-remove,
}
use how_to_miracast_on_aosp.Codec.Ledger.Steps.{Keeps, custody_frame, From, FromTo, same_owner_self}

-- Events that are no transfers.
unfoldable pub silent : Event → Bool
silent (transfer t p k) = false
silent e = true

holder-silent :
    (p : Port) (k : ℕ) (e : Event) (log : List Event)
    → silent e ≡ true
    → holder p k (e ∷ log) ≡ holder p k log
unfolding silent holder
holder-silent p k (transfer t q j) log h = absurd (cc)
holder-silent p k e log h = refl

Held-silent :
    (p : Port) (bs : List Buffer) (e : Event) (log : List Event)
    → silent e ≡ true
    → Held p bs log
    → Held p bs (e ∷ log)
unfolding Held
Held-silent p [] e log q h = tt
Held-silent p (b ∷ bs) e log q h =
    (holder-silent p b.id e log q ∙ h.0, h.1, Held-silent p bs e log q h.2)

Proper-silent : (e : Event) (log : List Event) → silent e ≡ true → Proper log → Proper (e ∷ log)
unfolding silent Proper
Proper-silent (transfer t p k) log q h = absurd (cc)
Proper-silent e log q h = h

pub emit-Still : (e : Event) → silent e ≡ true → Still (emit e)
unfolding Still
emit-Still e q s = (
  λ p. elim p as (λ p. buffers p (record s { log = e ∷ s.log }) ≡ buffers p s) [
    | input ↦ refl
    | output ↦ refl
  ],
  λ ok. record {
    inputs_held = Held-silent input s.inputs e s.log q ok.inputs_held;
    outputs_held = Held-silent output s.outputs e s.log q ok.outputs_held;
    proper = Proper-silent e s.log q ok.proper;
  },
)

-- The state after a transfer that changes the buffers of the port to `bs`.
abbrev pub moved : Port → List Buffer → Transfer → ℕ → Codec → Codec
moved p bs t k s = with_buffers p bs (record s { log = transfer t p k ∷ s.log })

pub moved-Custody :
    (p : Port) (bs : List Buffer) (t : Transfer) (k : ℕ) (s : Codec)
    → legal t (holder p k s.log) ≡ true
    → (Held p (buffers p s) s.log → Held p bs (transfer t p k ∷ s.log))
    → Keeps s (moved p bs t k s)
unfolding Proper
moved-Custody input bs t k s l h ok = record {
  inputs_held = h ok.inputs_held;
  outputs_held = Held-other_port output input t k s.outputs s.log refl ok.outputs_held;
  proper = (l, ok.proper);
}
moved-Custody output bs t k s l h ok = record {
  inputs_held = Held-other_port input output t k s.inputs s.log refl ok.inputs_held;
  outputs_held = h ok.outputs_held;
  proper = (l, ok.proper);
}

held : (p : Port) (s : Codec) → Custody s → Held p (buffers p s) s.log
held input s ok = ok.inputs_held
held output s ok = ok.outputs_held

pass-eq :
    (p : Port) (i : ℕ) (t : Transfer) (s : Codec) (b : Buffer)
    → get_elem? (buffers p s) i ≡ some b
    → pass p i t s
      ≡ done (tt, moved p (set (buffers p s) i (record b { status = arrives t })) t b.id s)
unfolding pass buffer_at
pass-eq input i t s b e = ground arith
pass-eq output i t s b e = ground arith

buffers-moved :
    (p : Port) (bs : List Buffer) (t : Transfer) (k : ℕ) (s : Codec)
    → buffers p (moved p bs t k s) ≡ bs
buffers-moved input bs t k s = refl
buffers-moved output bs t k s = refl

pub pass-FromTo :
    (p : Port) (i : ℕ) (t : Transfer) (ok : Owner → Bool)
    → ((x : Owner) → ok x ≡ true → legal t (some x) ≡ true)
    → whither t ≡ some (arrives t)
    → FromTo p i ok (same_owner (arrives t)) (pass p i t)
unfolding FromTo
pass-FromTo p i t ok l w s (b, e, good) =
    let c = record b { status = arrives t } in
    let bs = set (buffers p s) i c in
    rw (pass-eq p i t s b e) (
      λ custody.
          moved-Custody p bs t b.id s
            (rw (Held-holder p (buffers p s) s.log i b e (held p s custody)) (l b.status good))
            (Held-set p t (buffers p s) s.log i b e w) custody,
      (
        c,
        rw (buffers-moved p bs t b.id s) (get_elem?-set_here (buffers p s) i b c e),
        same_owner_self (arrives t),
      ),
    )

release-eq :
    (p : Port) (i : ℕ) (s : Codec) (b : Buffer)
    → get_elem? (buffers p s) i ≡ some b
    → release p i s ≡ done (tt, moved p (remove_at i (buffers p s)) free_buffer b.id s)
unfolding release buffer_at
release-eq input i s b e = ground arith
release-eq output i s b e = ground arith

pub release-From : (p : Port) (i : ℕ) → From p i at_home (release p i)
unfolding From legal
release-From p i s (b, e, good) = rw (release-eq p i s b e) (λ custody.
    moved-Custody p (remove_at i (buffers p s)) free_buffer b.id s
      (rw (Held-holder p (buffers p s) s.log i b e (held p s custody)) good)
      (Held-remove p (buffers p s) s.log i b e) custody)
