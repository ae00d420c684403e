-- ===== src/Codec/Ledger/Allocate.antt =====
-- frameworks/av/media/libstagefright/ACodec.cpp: allocating buffers keeps mStatus and the log
-- together, where the component new_ids each buffer under an id that is not in use.
use how_to_miracast_on_aosp.Prelude.{
  ℕ, zero, suc, ◌+◌, ◌-◌, ◌≡◌, refl, not, ◌&&◌, List, [], ◌∷◌, ◌++◌, none, ◌==◌, length,
}
use how_to_miracast_on_aosp.Prelude.Outcome.{done}
use how_to_miracast_on_aosp.Rtsp.Machine.{return}
use how_to_miracast_on_aosp.Rtsp.Frame.{
  Still, Tame, >>=-Tame, >>-Tame, if-Tame, option-Tame, return-Tame, check-Still,
}
use how_to_miracast_on_aosp.Codec.{
  Port, input, output, us, allocated, Event, buffers_allocated, Codec, get, modify, buffers,
}
use how_to_miracast_on_aosp.Codec.Outside.{Outside}
use how_to_miracast_on_aosp.Codec.Buffers.{is_output}
use how_to_miracast_on_aosp.Codec.Allocate.{
  dealer, make_dealer, add_buffer, add_buffers, window_buffer_count, prepare_window,
  dequeue_buffers, cancel_from, cancel_start, allocate_output_buffers_from_native_window,
  allocate_from_component, ids, allocate_buffers_on_port,
}
use how_to_miracast_on_aosp.Codec.Ledger.{legal, holder}
use how_to_miracast_on_aosp.Codec.Ledger.Transfers.{Held-push}
use how_to_miracast_on_aosp.Codec.Ledger.Steps.{
  custody_frame, modify-Still, get-Still, >>=-Kept, >>-Kept,
}
use how_to_miracast_on_aosp.Codec.Ledger.Moves.{emit-Still, silent, moved, moved-Custody}
use how_to_miracast_on_aosp.Codec.Ledger.Buffers.{cancel-Tame}

-- Every buffer that the component is asked for gets an id that no buffer of the port has, also
-- where the call fails.
pub record NewIds (o : Outside) : Type 0 where
  pub fresh : (p : Port) (log : List Event) → holder p (o.new_id p log) log ≡ none

abbrev added : Outside → Port → ℕ → ℕ → Codec → Codec
added o p size graphic s =
    moved p
      (buffers p s
        ++ record { id = o.new_id p s.log; status = us; capacity = size; graphic = graphic } ∷ [])
      allocated (o.new_id p s.log) s

make_dealer-Still : (p : Port) → Still (modify (make_dealer p))
make_dealer-Still input = modify-Still _ (λ s. refl) (λ s. refl) (λ s. refl)
make_dealer-Still output = modify-Still _ (λ s. refl) (λ s. refl) (λ s. refl)

module _ (o : Outside) (new_ids : NewIds o) where
  open new_ids use {fresh}

  add_buffer-eq :
      (p : Port) (size graphic : ℕ) (s : Codec)
      → add_buffer o p size graphic s ≡ done (o.allocate_status p s.log, added o p size graphic s)
  unfolding add_buffer
  add_buffer-eq input size graphic s = refl
  add_buffer-eq output size graphic s = refl

  add_buffer-Tame : (p : Port) (size graphic : ℕ) → Tame (add_buffer o p size graphic)
  unfolding Tame legal
  add_buffer-Tame p size graphic s = rw (add_buffer-eq p size graphic s) (
      moved-Custody p _ allocated (o.new_id p s.log) s (rw (fresh p s.log) refl)
        (Held-push p (buffers p s) s.log _ (fresh p s.log) refl))

  add_buffers-Tame : (p : Port) (n err : ℕ) → Tame (add_buffers o p n err)
  unfolding add_buffers
  add_buffers-Tame p zero err = return-Tame Codec err
  add_buffers-Tame p (suc n) err =
      >>=-Kept _ _
        (>>-Tame _ _ (check-Still Codec o.memory_ok) (add_buffer-Tame p (o.buffer_size p) 0))
        (add_buffers-Tame p n)

  dequeue_buffers-Tame : (n : ℕ) → Tame (dequeue_buffers o n)
  unfolding dequeue_buffers
  dequeue_buffers-Tame zero = return-Tame Codec 0
  dequeue_buffers-Tame (suc n) = >>=-Tame _ get get-Still λ s.
      option-Tame (return (suc o.dequeue_error)) _ (o.dequeued s.log) (return-Tame Codec _) λ h.
        >>=-Kept _ _ (add_buffer-Tame output 0 h)
          λ err. if-Tame _ _ (err == 0) (dequeue_buffers-Tame n) (return-Tame Codec err)

  cancel_from-Tame : (i n : ℕ) → Tame (cancel_from o i n)
  unfolding cancel_from
  cancel_from-Tame i zero = return-Tame Codec tt
  cancel_from-Tame i (suc n) = >>-Kept _ _ (cancel-Tame o i) (cancel_from-Tame (i + 1) n)

  window-Tame : Tame (allocate_output_buffers_from_native_window o)
  unfolding allocate_output_buffers_from_native_window
  window-Tame = >>=-Tame _ get get-Still λ s.
      if-Tame _ _ (prepare_window o s.secure == 0)
        (>>=-Kept _ _ (dequeue_buffers-Tame (window_buffer_count o)) λ err.
          >>=-Tame _ get get-Still λ s.
            >>-Kept _ _
              (if-Tame _ _ (err == 0)
                (cancel_from-Tame (cancel_start o) (window_buffer_count o - cancel_start o))
                (cancel_from-Tame 0 (length s.outputs)))
              (return-Tame Codec err))
        (return-Tame Codec (prepare_window o s.secure))

  component-Tame : (p : Port) → Tame (allocate_from_component o p)
  unfolding allocate_from_component
  component-Tame p =
      if-Tame _ _ (o.definition_status p == 0)
        (>>-Tame _ _ (make_dealer-Still p) (add_buffers-Tame p (o.buffer_count p) 0))
        (return-Tame Codec (o.definition_status p))

  pub allocate-Tame : (p : Port) → Tame (allocate_buffers_on_port o p)
  unfolding allocate_buffers_on_port silent
  allocate-Tame p = >>=-Tame _ get get-Still λ s.
      >>-Tame _ _ (check-Still Codec (not (dealer p s))) (
        >>-Tame _ _ (check-Still Codec (length (buffers p s) == 0)) (
          >>=-Kept _ _ (if-Tame _ _ (s.native_window && is_output p) window-Tame (component-Tame p))
            λ err.
              if-Tame _ _ (err == 0)
                (>>=-Tame _ get get-Still λ s.
                  >>-Tame _ _ (emit-Still (buffers_allocated p (ids (buffers p s))) refl)
                    (return-Tame Codec 0))
                (return-Tame Codec err)))
