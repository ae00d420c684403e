-- ===== src/Codec/Ledger/Base/Done.antt =====
-- frameworks/av/media/libstagefright/ACodec.cpp: the buffers that the component is done with keep
-- mStatus and the log together.
use how_to_miracast_on_aosp.Prelude.{ℕ, refl, Bool, true, not, ◌&&◌, ◌==◌, if◌then◌else◌, arith}
use how_to_miracast_on_aosp.Rtsp.Machine.{◌>>=◌, ◌>>◌, return}
use how_to_miracast_on_aosp.Rtsp.Frame.{
  Still, Tame, Still-Tame, >>=-Still, >>-Still, >>-Tame, if-Still, if-Tame, return-Still,
  return-Tame,
}
use how_to_miracast_on_aosp.Codec.{
  input, output, us, component, downstream, same_owner, fill_buffer, empty_buffer_done,
  fill_buffer_done, release_media, skip_cut, eos_signalled, FillDone, Codec, get, modify, emit,
  arrives,
}
use how_to_miracast_on_aosp.Codec.Outside.{Outside}
use how_to_miracast_on_aosp.Codec.Base.{
  Mode, keep_buffers, resubmit_buffers, free_buffers, after_emptied, on_omx_empty_buffer_done, fill,
  before_drain, drain, after_fill_done, on_omx_fill_buffer_done,
}
use how_to_miracast_on_aosp.Codec.Ledger.{legal, leaves, whither}
use how_to_miracast_on_aosp.Codec.Ledger.Steps.{
  custody_frame, modify-Still, get-Still, From, Tame-From, Still-FromTo, if-From, >>-From,
  check-From,
}
use how_to_miracast_on_aosp.Codec.Ledger.Moves.{emit-Still, pass-FromTo, silent}
use how_to_miracast_on_aosp.Codec.Ledger.Buffers.{free_buffer_at-Tame}
use how_to_miracast_on_aosp.Codec.Ledger.Base.{
  fail-Still, give, fill_legal, drain_legal, returned-Tame, post_fill-Tame, format-Still,
  return-From,
}

module _ (o : Outside) where
  after_emptied-Tame : (mode : Mode) (i : ℕ) → Tame (after_emptied o mode i)
  unfolding after_emptied
  after_emptied-Tame keep_buffers i = return-Tame Codec tt
  after_emptied-Tame resubmit_buffers i = post_fill-Tame i
  after_emptied-Tame free_buffers i = Still-Tame _ (fail-Still (Unit {0}))

  pub emptied-Tame :
      (mode : Mode) (k : ℕ) (media : Bool) → Tame (on_omx_empty_buffer_done o mode k media)
  unfolding on_omx_empty_buffer_done whither arrives legal leaves silent
  emptied-Tame mode k media =
      returned-Tame input k component empty_buffer_done
        (λ i. (if media then emit (release_media k) else return tt) >> after_emptied o mode i)
        (λ y h. ground arith) refl
        λ i. Tame-From input i (same_owner us) _ (
          >>-Tame _ _
            (if-Still _ _ media (emit-Still (release_media k) refl) (return-Still Codec tt))
            (after_emptied-Tame mode i))

  pub fill-From : (i : ℕ) → From output i (same_owner us) (fill o i)
  unfolding fill whither arrives
  fill-From i =
      check-From output i (same_owner us) o.fill_ok _ λ _. give output i fill_buffer fill_legal refl

  before_drain-Still : (k : ℕ) → Still (before_drain o k)
  unfolding before_drain silent
  before_drain-Still k = >>=-Still _ get get-Still λ s.
      >>-Still _ _
        (if-Still _ _ (not s.is_encoder && not s.sent_format) (format-Still o)
          (return-Still Codec tt))
        (>>=-Still _ get get-Still
          λ s. if-Still _ _ s.skip_cut (emit-Still (skip_cut k) refl) (return-Still Codec tt))

  end_output-Still : Still (
      get >>= λ s.
      emit (eos_signalled s.input_eos_result) >> modify (λ s. record s { output_eos = true }))
  unfolding silent
  end_output-Still = >>=-Still _ get get-Still λ s.
      >>-Still _ _ (emit-Still (eos_signalled s.input_eos_result) refl)
        (modify-Still (λ s. record s { output_eos = true }) (λ s. refl) (λ s. refl) (λ s. refl))

  drain-From : (i k : ℕ) (d : FillDone) → From output i (same_owner us) (drain o i k d)
  unfolding drain whither arrives
  drain-From i k d =
      >>-From output i (same_owner us) (same_owner us) _ _
        (Still-FromTo output i (same_owner us) _ (before_drain-Still k))
        (>>-From output i (same_owner us) (same_owner downstream) _ _
          (pass-FromTo output i _ (same_owner us) (drain_legal d.flags d.time) refl)
          (Tame-From output i (same_owner downstream) _
            (if-Tame _ _ d.eos (Still-Tame _ end_output-Still) (return-Tame Codec tt))))

  after_fill_done-From :
      (mode : Mode) (i k : ℕ) (d : FillDone)
      → From output i (same_owner us) (after_fill_done o mode i k d)
  unfolding after_fill_done
  after_fill_done-From keep_buffers i k d = return-From o output i (same_owner us)
  after_fill_done-From resubmit_buffers i k d =
      if-From output i (same_owner us) _ _ (d.range_length == 0 && not d.eos) (fill-From i)
        (drain-From i k d)
  after_fill_done-From free_buffers i k d =
      Tame-From output i (same_owner us) _ (free_buffer_at-Tame o output i)

  pub fill_done-Tame :
      (mode : Mode) (k : ℕ) (d : FillDone) → Tame (on_omx_fill_buffer_done o mode k d)
  unfolding on_omx_fill_buffer_done whither arrives legal leaves
  fill_done-Tame mode k d =
      returned-Tame output k component fill_buffer_done (λ i. after_fill_done o mode i k d)
        (λ y h. ground arith) refl (λ i. after_fill_done-From mode i k d)
