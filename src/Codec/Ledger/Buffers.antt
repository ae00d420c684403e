-- ===== src/Codec/Ledger/Buffers.antt =====
-- frameworks/av/media/libstagefright/ACodec.cpp: cancelling, dequeuing and freeing buffers keeps
-- mStatus and the log together.
use how_to_miracast_on_aosp.Prelude.{
  ℕ, zero, suc, ◌≡◌, refl, Bool, true, false, not, ◌&&◌, Option, none, some, if◌then◌else◌, arith,
  length, get_elem?,
}
use how_to_miracast_on_aosp.Prelude.Outcome.{Outcome, done, blocked, fault, Ensures}
use how_to_miracast_on_aosp.Rtsp.Machine.{◌>>=◌, ◌>>◌, return, check}
use how_to_miracast_on_aosp.Rtsp.Frame.{
  Still, Tame, weaken, Still-Tame, >>=-Tame, if-Tame, return-Still, return-Tame, check-Still,
  >>-Tame,
}
use how_to_miracast_on_aosp.Codec.{
  Port, input, output, Owner, us, component, downstream, native_window, same_owner, Buffer,
  cancel_buffer, dequeue_buffer, Codec, M, get, modify, buffers, buffer_at, arrives, pass,
}
use how_to_miracast_on_aosp.Codec.Outside.{Outside}
use how_to_miracast_on_aosp.Codec.Buffers.{
  is_output, at_home, cancel_buffer_to_native_window, last_with_handle, take_back, take_back_answer,
  dequeue_buffer_from_native_window, release, free_buffer_at, free_down, clear_dealer,
  free_buffers_on_port, free_if_not_owned, free_not_owned_down,
  free_output_buffers_not_owned_by_component,
}
use how_to_miracast_on_aosp.Codec.Ledger.{legal, leaves, whither}
use how_to_miracast_on_aosp.Codec.Ledger.Steps.{
  Keeps, custody_frame, modify-Still, get-Still, >>-Kept, At, From, FromTo, Tame-From, Still-FromTo,
  weaken-FromTo, >>=-From, >>-From, strong-From, strong-FromTo, check-From, check-FromTo,
  buffer_at-Tame, buffer_at-FromTo, checked-Tame, same_owner_same, read_then,
}
use how_to_miracast_on_aosp.Codec.Ledger.Moves.{pass-FromTo, release-From}

pub FromTo-From :
    {A : Type 0} (p : Port) (i : ℕ) (ok to : Owner → Bool) (m : M A)
    → FromTo p i ok to m
    → From p i ok m
unfolding From FromTo
FromTo-From p i ok to m h s at =
    weaken (λ r. Keeps s r.1 × At p i to r.1) (λ r. Keeps s r.1) (m s) (λ r g. g.0) (h s at)

cancel_legal : (x : Owner) → same_owner us x ≡ true → legal cancel_buffer (some x) ≡ true
unfolding legal leaves
cancel_legal x h = ground arith

window_at_home : (x : Owner) → same_owner native_window x ≡ true → at_home x ≡ true
window_at_home x h = ground arith

at_home_same :
    (a : Owner) → at_home a ≡ true → (y : Owner) → same_owner a y ≡ true → at_home y ≡ true
at_home_same a e y g = ground arith

pub clear_dealer-Still : (p : Port) → Still (modify (clear_dealer p))
clear_dealer-Still input = modify-Still _ (λ s. refl) (λ s. refl) (λ s. refl)
clear_dealer-Still output = modify-Still _ (λ s. refl) (λ s. refl) (λ s. refl)

module _ (o : Outside) where
  cancel_pass : (i : ℕ) → FromTo output i (same_owner us) at_home (pass output i cancel_buffer)
  unfolding whither arrives
  cancel_pass i =
      weaken-FromTo output i (same_owner us) (same_owner native_window) at_home
        (pass output i cancel_buffer) window_at_home
        (pass-FromTo output i cancel_buffer (same_owner us) cancel_legal refl)

  cancel_rest :
      (i : ℕ)
      → FromTo output i (same_owner us) at_home (check o.cancel_ok >> pass output i cancel_buffer)
  cancel_rest i =
      check-FromTo output i (same_owner us) at_home o.cancel_ok (pass output i cancel_buffer)
        λ _. cancel_pass i

  cancel-FromTo : (i : ℕ) → FromTo output i at_home at_home (cancel_buffer_to_native_window o i)
  unfolding cancel_buffer_to_native_window
  cancel-FromTo i = buffer_at-FromTo output i _ at_home at_home λ b good.
      check-FromTo output i (same_owner b.status) at_home (same_owner b.status us) _ λ e.
        strong-FromTo output i (same_owner b.status) (same_owner us) at_home _
          (same_owner_same b.status us e) (cancel_rest i)

  pub cancel-Tame : (i : ℕ) → Tame (cancel_buffer_to_native_window o i)
  unfolding cancel_buffer_to_native_window
  cancel-Tame i =
      checked-Tame output i us _ (FromTo-From output i (same_owner us) at_home _ (cancel_rest i))

  cancel_if-FromTo :
      (p : Port) (i : ℕ) (c : Bool)
      → FromTo p i at_home at_home
          (if is_output p && c then cancel_buffer_to_native_window o i else return tt)
  cancel_if-FromTo input i c = Still-FromTo input i at_home (return tt) (return-Still Codec tt)
  cancel_if-FromTo output i true = cancel-FromTo i
  cancel_if-FromTo output i false =
      Still-FromTo output i at_home (return tt) (return-Still Codec tt)

  free_rest :
      (p : Port) (i : ℕ) (x : Owner)
      → From p i at_home (
          get >>= λ s.
          (if is_output p && (s.native_window && same_owner x us)
            then cancel_buffer_to_native_window o i
            else return tt)
          >> (check o.free_ok >> release p i))
  free_rest p i x = >>=-From p i at_home at_home get _ (Still-FromTo p i at_home get get-Still) λ s.
      >>-From p i at_home at_home _ _ (cancel_if-FromTo p i (s.native_window && same_owner x us))
        (check-From p i at_home o.free_ok (release p i) λ _. release-From p i)

  pub free_buffer_at-Tame : (p : Port) (i : ℕ) → Tame (free_buffer_at o p i)
  unfolding free_buffer_at
  free_buffer_at-Tame p i = buffer_at-Tame p i _ λ b.
      check-From p i (same_owner b.status) (at_home b.status) _ λ e.
        strong-From p i (same_owner b.status) at_home _ (at_home_same b.status e)
          (free_rest p i b.status)

  pub free_down-Tame : (p : Port) (n : ℕ) → Tame (free_down o p n)
  unfolding free_down
  free_down-Tame p zero = return-Tame Codec tt
  free_down-Tame p (suc i) = >>-Kept _ _ (free_buffer_at-Tame p i) (free_down-Tame p i)

  pub free_buffers_on_port-Tame : (p : Port) → Tame (free_buffers_on_port o p)
  unfolding free_buffers_on_port
  free_buffers_on_port-Tame p = >>=-Tame _ get get-Still λ s.
      >>-Kept _ _ (free_down-Tame p (length (buffers p s)))
        (Still-Tame (modify (clear_dealer p)) (clear_dealer-Still p))

  free_if_not_owned-Tame : (i : ℕ) → Tame (free_if_not_owned o i)
  unfolding free_if_not_owned
  free_if_not_owned-Tame i = buffer_at-Tame output i _ λ b.
      Tame-From output i (same_owner b.status) _ (
        if-Tame (return tt) _ (same_owner b.status component) (return-Tame Codec tt) (
          >>-Tame (check (not (same_owner b.status downstream))) _
            (check-Still Codec (not (same_owner b.status downstream)))
            (free_buffer_at-Tame output i)))

  free_not_owned_down-Tame : (n : ℕ) → Tame (free_not_owned_down o n)
  unfolding free_not_owned_down
  free_not_owned_down-Tame zero = return-Tame Codec tt
  free_not_owned_down-Tame (suc i) =
      >>-Kept _ _ (free_if_not_owned-Tame i) (free_not_owned_down-Tame i)

  pub free_not_owned-Tame : Tame (free_output_buffers_not_owned_by_component o)
  unfolding free_output_buffers_not_owned_by_component
  free_not_owned-Tame = >>=-Tame _ get get-Still λ s. free_not_owned_down-Tame (length s.outputs)

-- A buffer to fill, if there is one, is ours.
abbrev pub Ready : Option ℕ → Codec → Type 0
Ready none s = Unit {0}
Ready (some j) s = At output j (same_owner us) s

unfoldable pub Gives : M (Option ℕ) → Type 0
Gives m = (s : Codec) → Ensures (λ (r : Option ℕ × Codec). Keeps s r.1 × Ready r.0 r.1) (m s)

dequeue_legal :
    (x : Owner) → same_owner native_window x ≡ true → legal dequeue_buffer (some x) ≡ true
unfolding legal leaves
dequeue_legal x h = ground arith

after_take :
    (i : ℕ) (s : Codec) (m : Outcome (Unit {0} × Codec))
    → Ensures (λ (r : Unit {0} × Codec). Keeps s r.1 × At output i (same_owner us) r.1) m
    → Ensures
        (λ (r : Option ℕ × Codec). Keeps s r.1 × Ready r.0 r.1)
        (elim m [ done (a, s') ↦ done (some i, s') | blocked ↦ blocked | fault ↦ fault ])
after_take i s (done (a, s')) h = h
after_take i s blocked h = tt
after_take i s fault h = tt

take_rest :
    (i : ℕ) (s : Codec) (b : Buffer) (c : Bool)
    → get_elem? s.outputs i ≡ some b
    → (c ≡ true → same_owner native_window b.status ≡ true)
    → Ensures
        (λ (r : Option ℕ × Codec). Keeps s r.1 × Ready r.0 r.1)
        ((check c >> (pass output i dequeue_buffer >> return (some i))) s)
unfolding FromTo whither arrives
take_rest i s b true e h = after_take i s (pass output i dequeue_buffer s) (
    pass-FromTo output i dequeue_buffer (same_owner native_window) dequeue_legal refl s
      (b, e, h refl))
take_rest i s b false e h = tt

take_back-Gives : (h : ℕ) → Gives (take_back h)
unfolding Gives take_back buffer_at
take_back-Gives h s =
    read_then _ s (last_with_handle h 0 s.outputs)
      (λ (r : Option ℕ × Codec). Keeps s r.1 × Ready r.0 r.1)
      λ i _.
        read_then _ s (get_elem? s.outputs i)
          (λ (r : Option ℕ × Codec). Keeps s r.1 × Ready r.0 r.1)
          λ b e. take_rest i s b (same_owner b.status native_window) e λ same. ground arith

take_back_answer-Gives : (x : Option ℕ) → Gives (take_back_answer x)
unfolding Gives take_back_answer
take_back_answer-Gives none = λ s. (λ ok. ok, tt)
take_back_answer-Gives (some h) = take_back-Gives h

pub dequeue-Gives : (o : Outside) → Gives (dequeue_buffer_from_native_window o)
unfolding Gives dequeue_buffer_from_native_window
dequeue-Gives o s = take_back_answer-Gives (o.dequeued s.log) s
