-- ===== src/Net/Session/Write/Conserve.antt =====
-- ANetworkSession.cpp, `Session::writeMore`: what goes out against what was queued.
use how_to_miracast_on_aosp.Prelude.{
  Option, ℕ, suc, ◌≡◌, ◌∙◌, Bool, true, false, List, [], ◌∷◌, ◌++◌, arith, Bytes, ◌==◌, ◌%◌,
  if◌then◌else◌, map, take, drop, take-append-drop, flatten, append-nil, Bool-cases, sym, inl, inr,
  subst, String,
}
use how_to_miracast_on_aosp.Prelude.Outcome.{done, >>=-eq-done, done-injective}
use how_to_miracast_on_aosp.Net.Session.{Session, connected, datagram, is_empty}
use how_to_miracast_on_aosp.Net.Session.Notice.{eagain}
use how_to_miracast_on_aosp.Net.Session.Write.{
  Send, send, correct_time, send_datagrams, write_datagrams, write_stream, taken, fail_writing,
  write_more, Writing, send_status,
}

-- A datagram without the time of an RTP packet of type 33.
abbrev pub untimed : Bytes → Bytes
untimed (b0 ∷ b1 ∷ b2 ∷ b3 ∷ b4 ∷ b5 ∷ b6 ∷ b7 ∷ rest) =
    if b0 == 0x80
    then (if b1 % 128 == 33
        then b0 ∷ b1 ∷ b2 ∷ b3 ∷ rest
        else b0 ∷ b1 ∷ b2 ∷ b3 ∷ b4 ∷ b5 ∷ b6 ∷ b7 ∷ rest)
    else b0 ∷ b1 ∷ b2 ∷ b3 ∷ b4 ∷ b5 ∷ b6 ∷ b7 ∷ rest
untimed d = d

untimed-correct_time :
    (now : ℕ) (d d' : Bytes) → correct_time now d ≡ done d' → untimed d' ≡ untimed d
unfolding correct_time
untimed-correct_time now (b0 ∷ b1 ∷ b2 ∷ b3 ∷ b4 ∷ b5 ∷ b6 ∷ b7 ∷ rest) d' e = ground arith
untimed-correct_time now d d' e = ground arith

send_datagrams-conserves :
    (clock : ℕ → ℕ) (ds : List Bytes) (script : List Send) (out left : List Bytes) (err : ℕ)
    → send_datagrams clock ds script ≡ done (out, left, err)
    → map untimed (out ++ left) ≡ map untimed ds
unfolding send_datagrams
send_datagrams-conserves clock [] script out left err e = ground arith
send_datagrams-conserves clock (d ∷ ds) script out left err e =
    let (d', corrected, e₁) = >>=-eq-done (correct_time (clock 0) d) _ e in
    let ((answer, more), _, e₂) = >>=-eq-done (send script) _ e₁ in
    let same = untimed-correct_time (clock 0) d d' corrected in
    elim (Bool-cases (send_status answer == 0)) [
      | inl ok ↦
          let ((out', left', err'), rest, e₃) =
            >>=-eq-done (send_datagrams (λ k. clock (suc k)) ds more) _ (rw ok at e₂) in
          ground (
            arith,
            same,
            send_datagrams-conserves (λ k. clock (suc k)) ds more out' left' err' rest,
          )
      | inr bad ↦ ground (arith, same)
    ]

fail_writing_keeps :
    (M : Type 0) (flag : Bool) (why : String) (s' : Session) (out : List Bytes) (err : ℕ)
    → let r = fail_writing {M = M} flag why s' out err in
      (r.2 ≡ out) × (r.0.out_buffer ≡ s'.out_buffer) × (r.0.out_datagrams ≡ s'.out_datagrams)
unfolding fail_writing
fail_writing_keeps M flag why s' out err = ground arith

module _ {M : Type 0} (s : Session) (clock : ℕ → ℕ) (so_error : Option ℕ) (script : List Send) where
  write_more_connected :
      s.state ≡ connected → write_more {M = M} s clock so_error script ≡ write_stream s script
  unfolding write_more
  write_more_connected st = ground arith

  write_more_datagram :
      s.state ≡ datagram
      → write_more {M = M} s clock so_error script ≡ write_datagrams s clock script
  unfolding write_more
  write_more_datagram st = ground arith

  -- On a stream, what goes out is the front of `mOutBuffer` and what stays is the rest of it, also
  -- when an error is returned.
  pub write_more-stream_conserves :
      (r : Writing M)
      → s.state ≡ connected
      → write_more s clock so_error script ≡ done r
      → flatten r.2 ++ r.0.out_buffer ≡ s.out_buffer
  unfolding write_stream
  write_more-stream_conserves r st e =
      let e₁ = sym (write_more_connected st) ∙ e in
      let full : is_empty s.out_buffer ≡ false = ground arith in
      let ((answer, more), _, e₂) = >>=-eq-done (send script) _ (rw full at e₁) in
      let n = taken answer in
      let rest = record s { out_buffer = drop n s.out_buffer } in
      let (out, buffer, _) =
        fail_writing_keeps M true "Send failed." rest (take n s.out_buffer ∷ [])
          (send_status answer) in
      subst (λ (w : Writing M). flatten w.2 ++ w.0.out_buffer ≡ s.out_buffer) (done-injective e₂)
        (rw (out, buffer, append-nil (take n s.out_buffer)) (take-append-drop n s.out_buffer))

  -- On a datagram session the datagrams sent and those left are, in this order, the queue before
  -- the call, each one with no change but that of its time; also when an error is returned.
  pub write_more-datagrams_conserves :
      (r : Writing M)
      → s.state ≡ datagram
      → write_more s clock so_error script ≡ done r
      → map untimed (r.2 ++ r.0.out_datagrams) ≡ map untimed s.out_datagrams
  unfolding write_datagrams
  write_more-datagrams_conserves r st e =
      let e₁ = sym (write_more_datagram st) ∙ e in
      let full : is_empty s.out_datagrams ≡ false = ground arith in
      let ((out, left, err), sends, e₂) =
        >>=-eq-done (send_datagrams clock s.out_datagrams script) _ (rw full at e₁) in
      let rest = record s { out_datagrams = left } in
      let (same, _, queue) =
        fail_writing_keeps M true "Send datagram failed." rest out
          (if err == eagain then 0 else err) in
      subst
        (λ (w : Writing M). map untimed (w.2 ++ w.0.out_datagrams) ≡ map untimed s.out_datagrams)
        (done-injective e₂)
        (rw (same, queue)
          (send_datagrams-conserves clock s.out_datagrams script out left err sends))
