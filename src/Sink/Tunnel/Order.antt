-- ===== src/Sink/Tunnel/Order.antt =====
-- sink/TunnelRenderer.cpp, `dequeueBuffer`: what it returns, and when it waits.
use how_to_miracast_on_aosp.Prelude.{
  ℕ, zero, suc, ◌+◌, get_elem?, drop, ◌≡◌, ◌≢◌, refl, sym, ◌∙◌, Bool, true, false, ◌||◌, List, [],
  ◌∷◌, none, some, if◌then◌else◌, arith, inl, inr, ◌⊎◌, Bool-cases, subst, ap,
}
use how_to_miracast_on_aosp.Prelude.Int.{
  ℤ, pos, ◌+ℤ◌, ◌-ℤ◌, ◌<ℤ◌, ◌≤ℤ◌, eqb_ℤ, ltb_ℤ, zero_ℤ, eq_of_parts, int_laws,
}
use how_to_miracast_on_aosp.Sink.Tunnel.{
  Packet, size, Renderer, Dequeued, drop_old, low_16, hand_out, wait_or_skip, dequeue_front,
  dequeue_buffer, minus_one,
}
use how_to_miracast_on_aosp.Sink.Tunnel.Queue.{AllAbove, Ascending, bytes}

-- The first packet is none that was returned already.
abbrev IsNew : ℤ → List Packet → Type 0
IsNew last [] = Unit {0}
IsNew last (p ∷ ps) = (last <ℤ zero_ℤ) ⊎ (last <ℤ p.ext_seq_no)

record Dropped (last total : ℤ) (ps : List Packet) (r : ℤ × List Packet) : Type 0 where
  ascending : Ascending r.1
  above : (s : ℤ) → AllAbove s ps → AllAbove s r.1
  new : IsNew last r.1
  counted : r.0 -ℤ pos (bytes r.1) ≡ total -ℤ pos (bytes ps)
  rest : (n : ℕ) × (r.1 ≡ drop n ps)

drop_old-Dropped :
    (last total : ℤ) (ps : List Packet)
    → Ascending ps
    → Dropped last total ps (drop_old last total ps)
unfolding drop_old
drop_old-Dropped last total [] asc = record {
  ascending = tt;
  above = λ s a. a;
  new = tt;
  counted = refl;
  rest = (0, refl);
}
drop_old-Dropped last total (p ∷ ps) asc =
    elim (Bool-cases (ltb_ℤ last zero_ℤ || ltb_ℤ last p.ext_seq_no)) [
      | inl stop ↦ rw stop (record {
        ascending = asc;
        above = λ s a. a;
        new = ground arith;
        counted = refl;
        rest = (0, refl);
      })
      | inr go ↦
          let d = drop_old-Dropped last (total -ℤ pos (size p)) ps asc.1 in
          rw go (record {
            ascending = d.ascending;
            above = λ s a. d.above s a.1;
            new = d.new;
            counted = d.counted ∙ omega int_laws;
            rest = (suc d.rest.0, d.rest.1);
          })
    ]

-- A packet that is returned is the next one, or the first of all, or the one behind a gap that was
-- waited for, for 50 ms.
abbrev InTurn : Renderer → Packet → ℤ → Type 0
InTurn r p now =
    (r.last_dequeued_ext_seq_no <ℤ zero_ℤ)
    ⊎ ((p.ext_seq_no ≡ r.last_dequeued_ext_seq_no +ℤ pos 1)
        ⊎ ((zero_ℤ ≤ℤ r.first_failed_attempt_us) × (r.first_failed_attempt_us +ℤ pos 50000 ≤ℤ now)))

-- What a call does, `r` before it and `d` behind it.
pub record Dequeues (r : Renderer) (now : ℤ) (d : Dequeued) : Type 0 where
  pub ascending : Ascending d.0.packets
  pub above : (s : ℤ) → AllAbove s r.packets → AllAbove s d.0.packets
  pub in_turn : (p : Packet) → d.1 ≡ some p → InTurn r p now
  pub newer :
      (p : Packet)
      → d.1 ≡ some p
      → (r.last_dequeued_ext_seq_no <ℤ zero_ℤ) ⊎ (r.last_dequeued_ext_seq_no <ℤ p.ext_seq_no)
  pub from_queue : (p : Packet) (s : ℤ) → d.1 ≡ some p → AllAbove s r.packets → s <ℤ p.ext_seq_no
  pub remembered : (p : Packet) → d.1 ≡ some p → d.0.last_dequeued_ext_seq_no ≡ p.ext_seq_no
  pub waiting : d.1 ≡ none → d.0.last_dequeued_ext_seq_no ≡ r.last_dequeued_ext_seq_no
  pub asks_once :
      d.2 ≢ []
      → (d.1 ≡ none)
        × (r.requested_retransmission ≡ false)
        × (d.0.requested_retransmission ≡ true)
        × (d.2 ≡ low_16 (r.last_dequeued_ext_seq_no +ℤ pos 1) ∷ [])
  pub taken_off :
      (p : Packet)
      → d.1 ≡ some p
      → (n : ℕ) × (get_elem? r.packets n ≡ some p) × (d.0.packets ≡ drop (suc n) r.packets)
  pub left_over : d.1 ≡ none → (n : ℕ) × (d.0.packets ≡ drop n r.packets)
  pub reset :
      (p : Packet)
      → d.1 ≡ some p
      → (d.0.first_failed_attempt_us ≡ minus_one) × (d.0.requested_retransmission ≡ false)
  pub since :
      d.1 ≡ none
      → d.0.first_failed_attempt_us
        ≡ (if ltb_ℤ r.first_failed_attempt_us zero_ℤ then now else r.first_failed_attempt_us)
  pub counted :
      d.0.total_bytes_queued -ℤ pos (bytes d.0.packets)
      ≡ r.total_bytes_queued -ℤ pos (bytes r.packets)

same : {p q : Packet} → some p ≡ some q → p ≡ q
same e = cc

hand_out-Dequeues :
    (r : Renderer) (p : Packet) (ps : List Packet) (now : ℤ)
    → r.packets ≡ p ∷ ps
    → Ascending (p ∷ ps)
    → IsNew r.last_dequeued_ext_seq_no (p ∷ ps)
    → InTurn r p now
    → Dequeues r now (hand_out r p ps)
unfolding hand_out
hand_out-Dequeues r p ps now e asc new turn = record {
  ascending = asc.1;
  above = λ s a. (subst (AllAbove s) e a).1;
  in_turn = λ q h. subst (λ x. InTurn r x now) (same h) turn;
  newer = λ q h.
      subst
        (λ x. (r.last_dequeued_ext_seq_no <ℤ zero_ℤ) ⊎ (r.last_dequeued_ext_seq_no <ℤ x.ext_seq_no))
        (same h) new;
  from_queue = λ q s h a. subst (λ x. s <ℤ x.ext_seq_no) (same h) (subst (AllAbove s) e a).0;
  remembered = λ q h. ap (λ (x : Packet). x.ext_seq_no) (same h);
  waiting = λ h. absurd (cc);
  asks_once = λ h. absurd (h refl);
  taken_off = λ q h. (0, rw e h, rw e refl);
  left_over = λ h. absurd (cc);
  reset = λ q h. (refl, refl);
  since = λ h. absurd (cc);
  counted =
      ap (λ l. r.total_bytes_queued -ℤ pos (size p) -ℤ pos (bytes ps)) e ∙ rw e (omega int_laws);
}

-- Nothing is returned, and nothing asked for.
keep-Dequeues :
    (r : Renderer) (now first : ℤ) (asked : Bool)
    → Ascending r.packets
    → first ≡ (if ltb_ℤ r.first_failed_attempt_us zero_ℤ then now else r.first_failed_attempt_us)
    → Dequeues r now
        (record r { first_failed_attempt_us = first; requested_retransmission = asked }, none, [])
keep-Dequeues r now first asked asc since = record {
  ascending = asc;
  above = λ s a. a;
  in_turn = λ q h. absurd (cc);
  newer = λ q h. absurd (cc);
  from_queue = λ q s h a. absurd (cc);
  remembered = λ q h. absurd (cc);
  waiting = λ h. refl;
  asks_once = λ h. absurd (h refl);
  taken_off = λ q h. absurd (cc);
  left_over = λ h. (0, refl);
  reset = λ q h. absurd (cc);
  since = λ h. since;
  counted = refl;
}

ask-Dequeues :
    (r : Renderer) (now : ℤ)
    → Ascending r.packets
    → r.requested_retransmission ≡ false
    → ltb_ℤ r.first_failed_attempt_us zero_ℤ ≡ false
    → Dequeues r now (
      record r { requested_retransmission = true },
      none,
      low_16 (r.last_dequeued_ext_seq_no +ℤ pos 1) ∷ [],
    )
ask-Dequeues r now asc fresh again = record {
  ascending = asc;
  above = λ s a. a;
  in_turn = λ q h. absurd (cc);
  newer = λ q h. absurd (cc);
  from_queue = λ q s h a. absurd (cc);
  remembered = λ q h. absurd (cc);
  waiting = λ h. refl;
  asks_once = λ h. (refl, fresh, refl, refl);
  taken_off = λ q h. absurd (cc);
  left_over = λ h. (0, refl);
  reset = λ q h. absurd (cc);
  since = λ h. rw again refl;
  counted = refl;
}

ask_or_keep-Dequeues :
    (r : Renderer) (now : ℤ)
    → Ascending r.packets
    → ltb_ℤ r.first_failed_attempt_us zero_ℤ ≡ false
    → (asked : Bool) → r.requested_retransmission ≡ asked
    → Dequeues r now (
        if asked then (r, none, []) else (
          record r { requested_retransmission = true },
          none,
          low_16 (r.last_dequeued_ext_seq_no +ℤ pos 1) ∷ [],
        ))
ask_or_keep-Dequeues r now asc again true e =
    keep-Dequeues r now r.first_failed_attempt_us r.requested_retransmission asc (rw again refl)
ask_or_keep-Dequeues r now asc again false e = ask-Dequeues r now asc e again

wait_or_skip-Dequeues :
    (r : Renderer) (p : Packet) (ps : List Packet) (now : ℤ)
    → r.packets ≡ p ∷ ps
    → Ascending (p ∷ ps)
    → IsNew r.last_dequeued_ext_seq_no (p ∷ ps)
    → Dequeues r now (wait_or_skip r p ps now)
unfolding wait_or_skip
wait_or_skip-Dequeues r p ps now e asc new =
    let kept = subst Ascending (sym e) asc in
    elim (Bool-cases (ltb_ℤ r.first_failed_attempt_us zero_ℤ)) [
      | inl first ↦
          rw first (keep-Dequeues r now now r.requested_retransmission kept (rw first refl))
      | inr again ↦ elim (Bool-cases (ltb_ℤ now (r.first_failed_attempt_us +ℤ pos 50000))) [
        | inl soon ↦
            rw (again, soon) (ask_or_keep-Dequeues r now kept again r.requested_retransmission refl)
        | inr late ↦
            rw (again, late)
              (hand_out-Dequeues r p ps now e asc new (inr (inr (ground arith, ground arith))))
      ]
    ]

next-InTurn :
    (r : Renderer) (p : Packet) (now : ℤ)
    → (ltb_ℤ r.last_dequeued_ext_seq_no zero_ℤ
        || eqb_ℤ p.ext_seq_no (r.last_dequeued_ext_seq_no +ℤ pos 1))
      ≡ true
    → InTurn r p now
next-InTurn r p now next = elim (Bool-cases (ltb_ℤ r.last_dequeued_ext_seq_no zero_ℤ)) [
  | inl none_yet ↦ inl (ground arith)
  | inr some_before ↦ inr (inl (eq_of_parts _ _ (ground arith)))
]

dequeue_front-Dequeues :
    (r : Renderer) (ps : List Packet) (now : ℤ)
    → r.packets ≡ ps
    → Ascending ps
    → IsNew r.last_dequeued_ext_seq_no ps
    → Dequeues r now (dequeue_front r ps now)
unfolding dequeue_front
dequeue_front-Dequeues r [] now e asc new =
    let kept = subst Ascending (sym e) asc in
    elim (Bool-cases (ltb_ℤ r.first_failed_attempt_us zero_ℤ)) [
      | inl first ↦ rw first (keep-Dequeues r now now false kept (rw first refl))
      | inr again ↦ rw again (
          keep-Dequeues r now r.first_failed_attempt_us r.requested_retransmission kept
            (rw again refl))
    ]
dequeue_front-Dequeues r (p ∷ ps) now e asc new =
    elim (Bool-cases (
      ltb_ℤ r.last_dequeued_ext_seq_no zero_ℤ
      || eqb_ℤ p.ext_seq_no (r.last_dequeued_ext_seq_no +ℤ pos 1))) [
        | inl next ↦ rw next (hand_out-Dequeues r p ps now e asc new (next-InTurn r p now next))
        | inr gap ↦ rw gap (wait_or_skip-Dequeues r p ps now e asc new)
      ]

get_elem?-drop : (n m : ℕ) (ps : List Packet) → get_elem? (drop n ps) m ≡ get_elem? ps (n + m)
get_elem?-drop zero m ps = let e : m ≡ 0 + m = omega arith in ap (get_elem? ps) e
get_elem?-drop (suc n) m [] = refl
get_elem?-drop (suc n) m (p ∷ ps) =
    let e : suc (n + m) ≡ suc n + m = omega arith in
    get_elem?-drop n m ps ∙ ap (get_elem? (p ∷ ps)) e

drop_nil : (n : ℕ) → ◌≡◌ {A = List Packet} [] (drop n [])
drop_nil zero = refl
drop_nil (suc n) = refl

drop_more : (n m k : ℕ) (ps : List Packet) → k ≡ n + m → drop m (drop n ps) ≡ drop k ps
drop_more zero m k ps e = let same : m ≡ k = omega arith in ap (λ i. drop i ps) same
drop_more (suc n) m k [] e = sym (drop_nil m) ∙ drop_nil k
drop_more (suc n) m zero (p ∷ ps) e = absurd (omega arith)
drop_more (suc n) m (suc k) (p ∷ ps) e = drop_more n m k ps (omega arith)

pub dequeue_buffer-Dequeues :
    (r : Renderer) (now : ℤ) → Ascending r.packets → Dequeues r now (dequeue_buffer r now)
unfolding dequeue_buffer
dequeue_buffer-Dequeues r now asc =
    let last = r.last_dequeued_ext_seq_no in
    let left = drop_old last r.total_bytes_queued r.packets in
    let d = drop_old-Dropped last r.total_bytes_queued r.packets asc in
    let front = record r { total_bytes_queued = left.0; packets = left.1 } in
    let f = dequeue_front-Dequeues front left.1 now refl d.ascending d.new in
    record {
      ascending = f.ascending;
      above = λ s a. f.above s (d.above s a);
      in_turn = f.in_turn;
      newer = f.newer;
      from_queue = λ p s h a. f.from_queue p s h (d.above s a);
      remembered = f.remembered;
      waiting = f.waiting;
      asks_once = f.asks_once;
      taken_off = λ p h.
          let (n, found, behind) = f.taken_off p h in
          (
            d.rest.0 + n,
            sym (get_elem?-drop d.rest.0 n r.packets)
                ∙ ap (λ l. get_elem? l n) (sym d.rest.1)
                ∙ found,
            behind
                ∙ ap (drop (suc n)) d.rest.1
                ∙ drop_more d.rest.0 (suc n) (suc (d.rest.0 + n)) r.packets (omega arith),
          );
      left_over = λ h.
          let (n, behind) = f.left_over h in
          (d.rest.0 + n, behind ∙ ap (drop n) d.rest.1 ∙ drop_more d.rest.0 n _ r.packets refl);
      reset = f.reset;
      since = f.since;
      counted = f.counted ∙ d.counted;
    }
