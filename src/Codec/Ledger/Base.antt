-- ===== src/Codec/Ledger/Base.antt =====
-- frameworks/av/media/libstagefright/ACodec.cpp: the handlers of BaseState keep mStatus and the log
-- together.
pub mod Done
use how_to_miracast_on_aosp.Prelude.{
  ℕ, ◌≡◌, refl, Bool, true, not, ◌&&◌, Option, none, some, ◌==◌, leb, if◌then◌else◌, arith,
  get_elem?,
}
use how_to_miracast_on_aosp.Prelude.Int.{ℤ, pos, negsuc}
use how_to_miracast_on_aosp.Rtsp.Machine.{◌>>=◌, ◌>>◌, return, check}
use how_to_miracast_on_aosp.Rtsp.Frame.{
  Still, Tame, Still-Tame, >>=-Still, >>-Still, >>=-Tame, >>-Tame, if-Still, if-Tame, option-Tame,
  return-Still, return-Tame, check-Still,
}
use how_to_miracast_on_aosp.Codec.{
  Port, input, output, Owner, us, component, upstream, downstream, same_owner, Flags, Transfer,
  fill_buffer, empty_buffer_done, fill_buffer_done, fill_this_buffer, input_buffer_filled,
  queue_buffer, empty_buffer, drain_this_buffer, release_media, skip_cut, eos_signalled, Filled,
  FillDone, Codec, M, get, modify, emit, read, fail, buffers, buffer_at, arrives, pass, VideoFormat,
  Crop, PcmFormat, video_format,
}
use how_to_miracast_on_aosp.Codec.Outside.{
  Outside, Domain, video_domain, audio_domain, other_domain,
}
use how_to_miracast_on_aosp.Codec.Buffers.{index_of, find_buffer_by_id}
use how_to_miracast_on_aosp.Codec.Format.{
  crop_or_frame, offset, last_of, send_video_format, send_audio_format, send_domain,
  send_format_change,
}
use how_to_miracast_on_aosp.Codec.Base.{
  Mode, keep_buffers, resubmit_buffers, free_buffers, error_end_of_stream, post_fill_this_buffer,
  last_ours, get_more_input_data_if_possible, input_ends, filled_eos, filled_err, empty_with,
  empty_at_end, resubmit_input, after_filled, on_input_buffer_filled, after_emptied,
  on_omx_empty_buffer_done, fill, before_drain, drain, after_fill_done, on_omx_fill_buffer_done,
}
use how_to_miracast_on_aosp.Codec.Ledger.{legal, leaves, whither}
use how_to_miracast_on_aosp.Codec.Ledger.Steps.{
  custody_frame, modify-Still, get-Still, From, Tame-From, Still-FromTo, if-From, >>=-From, >>-From,
  check-From, checked-Tame,
}
use how_to_miracast_on_aosp.Codec.Ledger.Moves.{emit-Still, pass-FromTo, silent}
use how_to_miracast_on_aosp.Codec.Ledger.Buffers.{FromTo-From, free_buffer_at-Tame}

pub read-Still : {A : Type 0} (x : Option A) → Still (read x)
unfolding Still
read-Still none s = tt
read-Still (some a) s = (λ p. refl, λ ok. ok)

pub fail-Still : (A : Type 0) → Still (fail {A = A})
unfolding Still
fail-Still A s = tt

pub find-Still : (p : Port) (k : ℕ) → Still (find_buffer_by_id p k)
unfolding find_buffer_by_id
find-Still p k = >>=-Still _ get get-Still λ s. read-Still (index_of k 0 (buffers p s))

-- A transfer out of our hands.
abbrev pub FromUs : Transfer → Type 0
FromUs t = (x : Owner) → same_owner us x ≡ true → legal t (some x) ≡ true

pub give :
    (p : Port) (i : ℕ) (t : Transfer)
    → FromUs t
    → whither t ≡ some (arrives t)
    → From p i (same_owner us) (pass p i t)
give p i t l w =
    FromTo-From p i (same_owner us) (same_owner (arrives t)) _
      (pass-FromTo p i t (same_owner us) l w)

pub fill_legal : FromUs fill_buffer
unfolding legal leaves
fill_legal x h = ground arith

fill_this_legal : FromUs fill_this_buffer
unfolding legal leaves
fill_this_legal x h = ground arith

empty_legal : (n : ℕ) (f : Flags) (t : ℤ) → FromUs (empty_buffer n f t)
unfolding legal leaves
empty_legal n f t x h = ground arith

pub drain_legal : (n : ℕ) (t : ℤ) → FromUs (drain_this_buffer n t)
unfolding legal leaves
drain_legal n t x h = ground arith

pub queue_legal : FromUs queue_buffer
unfolding legal leaves
queue_legal x h = ground arith

-- The handler of a message that brings the buffer of an id back, by what follows the message.
pub returned-Tame :
    (p : Port) (k : ℕ) (x : Owner) (t : Transfer) (m : ℕ → M (Unit {0}))
    → ((y : Owner) → same_owner x y ≡ true → legal t (some y) ≡ true)
    → whither t ≡ some (arrives t)
    → ((i : ℕ) → From p i (same_owner (arrives t)) (m i))
    → Tame (
        find_buffer_by_id p k >>= λ i.
        buffer_at p i >>= λ b. check (same_owner b.status x) >> (pass p i t >> m i))
returned-Tame p k x t m l w h = >>=-Tame _ (find_buffer_by_id p k) (find-Still p k) λ i.
    checked-Tame p i x (pass p i t >> m i) (
      >>-From p i (same_owner x) (same_owner (arrives t)) (pass p i t) (m i)
        (pass-FromTo p i t (same_owner x) l w) (h i))

pub post_fill-Tame : (i : ℕ) → Tame (post_fill_this_buffer i)
unfolding post_fill_this_buffer whither arrives
post_fill-Tame i = >>=-Tame _ get get-Still λ s.
    if-Tame (return tt) _ s.input_eos (return-Tame Codec tt)
      (checked-Tame input i us _ (give input i fill_this_buffer fill_this_legal refl))

get_more-Tame : Tame get_more_input_data_if_possible
unfolding get_more_input_data_if_possible
get_more-Tame = >>=-Tame _ get get-Still λ s.
    if-Tame (return tt) _ s.input_eos (return-Tame Codec tt) (
      option-Tame (return tt) post_fill_this_buffer (last_ours 0 s.inputs) (return-Tame Codec tt)
        post_fill-Tame)

input_ends-Still : (err : ℕ) → Still (input_ends err)
input_ends-Still err = modify-Still _ (λ s. refl) (λ s. refl) (λ s. refl)

buffer_at-Still : (p : Port) (i : ℕ) → Still (buffer_at p i)
unfolding buffer_at Still
buffer_at-Still p i s = read-Still (get_elem? (buffers p s) i) s

offset-Still : (z : ℤ) → Still (offset z)
unfolding offset
offset-Still (pos n) = return-Still Codec n
offset-Still (negsuc n) = fail-Still ℕ

module _ (o : Outside) where
  video-Still : (f : VideoFormat) (c : Crop) → Still (send_video_format o f c)
  unfolding send_video_format silent
  video-Still f c = >>=-Still _ (offset c.left) (offset-Still c.left) λ left.
      >>=-Still _ (offset c.top) (offset-Still c.top) λ top.
        >>-Still _ _ (check-Still Codec (leb (last_of left c.width) f.width)) (
          >>-Still _ _ (check-Still Codec (leb (last_of top c.height) f.height)) (
            >>=-Still _ get get-Still λ s.
              >>-Still _ _
                (if-Still _ _ s.native_window (check-Still Codec o.set_crop_ok)
                  (return-Still Codec tt))
                (emit-Still (video_format f left top (last_of left c.width) (last_of top c.height))
                  refl)))

  audio-Still : (f : PcmFormat) → Still (send_audio_format f)
  unfolding send_audio_format silent
  audio-Still f =
      >>-Still _ _ (modify-Still _ (λ s. refl) (λ s. refl) (λ s. refl)) (emit-Still _ refl)

  domain-Still : (d : Domain) → Still (send_domain o d)
  unfolding send_domain
  domain-Still (video_domain f c) = video-Still f (crop_or_frame f c)
  domain-Still (audio_domain acceptable f) =
      >>-Still _ _ (check-Still Codec acceptable) (audio-Still f)
  domain-Still other_domain = fail-Still (Unit {0})

  pub format-Still : Still (send_format_change o)
  unfolding send_format_change
  format-Still =
      >>=-Still _ (read o.domain) (read-Still o.domain)
        λ d. >>-Still _ _ (domain-Still d) (modify-Still _ (λ s. refl) (λ s. refl) (λ s. refl))

  empty_rest-From :
      (i : ℕ) (f : Filled) (flags : Flags) (time : ℤ)
      → From input i (same_owner us) (
          check o.empty_ok
          >> (pass input i (empty_buffer f.size flags time)
              >> (if f.eos
                  then input_ends error_end_of_stream
                  else get_more_input_data_if_possible)))
  unfolding whither arrives
  empty_rest-From i f flags time = check-From input i (same_owner us) o.empty_ok _ λ _.
      >>-From input i (same_owner us) (same_owner component) _ _
        (pass-FromTo input i _ (same_owner us) (empty_legal f.size flags time) refl)
        (Tame-From input i (same_owner component) _
          (if-Tame _ _ f.eos (Still-Tame _ (input_ends-Still error_end_of_stream)) get_more-Tame))

  empty_with-From :
      (i : ℕ) (f : Filled) (time : ℤ) → From input i (same_owner us) (empty_with o i f time)
  unfolding empty_with
  empty_with-From i f time =
      >>=-From input i (same_owner us) (same_owner us) (buffer_at input i) _
        (Still-FromTo input i (same_owner us) _ (buffer_at-Still input i))
        λ b.
          check-From input i (same_owner us) (if f.own then true else leb f.size b.capacity) _ λ _.
            empty_rest-From i f (record { end_of_frame = true; codec_config = f.csd; eos = f.eos })
              time

  empty_at_end-From : (i err : ℕ) → From input i (same_owner us) (empty_at_end o i err)
  unfolding empty_at_end whither arrives
  empty_at_end-From i err = check-From input i (same_owner us) o.empty_ok _ λ _.
      >>-From input i (same_owner us) (same_owner component) _ _
        (pass-FromTo input i _ (same_owner us) (empty_legal 0 _ (pos 0)) refl)
        (Tame-From input i (same_owner component) _ (Still-Tame _ (input_ends-Still err)))

  -- A step that reads the state first.
  read_state-From :
      (p : Port) (i : ℕ) (ok : Owner → Bool) (f : Codec → M (Unit {0}))
      → ((s : Codec) → From p i ok (f s))
      → From p i ok (get >>= f)
  read_state-From p i ok f h = >>=-From p i ok ok get f (Still-FromTo p i ok get get-Still) h

  pub return-From : (p : Port) (i : ℕ) (ok : Owner → Bool) → From p i ok (return tt)
  return-From p i ok = Tame-From p i ok _ (return-Tame Codec tt)

  resubmit-From :
      (i : ℕ) (f : Option Filled) (err : ℕ)
      → From input i (same_owner us) (resubmit_input o i f err)
  unfolding resubmit_input
  resubmit-From i none err = read_state-From input i (same_owner us) _ λ s.
      if-From input i (same_owner us) _ _ s.input_eos (return-From input i (same_owner us))
        (empty_at_end-From i err)
  resubmit-From i (some f) err = read_state-From input i (same_owner us) _ λ s.
      if-From input i (same_owner us) _ _ s.input_eos (return-From input i (same_owner us)) (
        >>=-From input i (same_owner us) (same_owner us) _ _
          (Still-FromTo input i (same_owner us) _ (read-Still f.time))
          λ time. empty_with-From i f time)

  after_filled-From :
      (mode : Mode) (i : ℕ) (f : Option Filled) (err : ℕ)
      → From input i (same_owner us) (after_filled o mode i f err)
  unfolding after_filled
  after_filled-From keep_buffers i f err = read_state-From input i (same_owner us) _ λ s.
      if-From input i (same_owner us) _ _ (filled_eos f && not s.input_eos)
        (Tame-From input i (same_owner us) _ (Still-Tame _ (input_ends-Still (filled_err f err))))
        (return-From input i (same_owner us))
  after_filled-From resubmit_buffers i f err = resubmit-From i f err
  after_filled-From free_buffers i f err = return-From input i (same_owner us)

  pub filled-Tame :
      (mode : Mode) (k : ℕ) (f : Option Filled) (err : ℕ)
      → Tame (on_input_buffer_filled o mode k f err)
  unfolding on_input_buffer_filled whither arrives legal leaves
  filled-Tame mode k f err =
      returned-Tame input k upstream input_buffer_filled (λ i. after_filled o mode i f err)
        (λ y h. ground arith) refl (λ i. after_filled-From mode i f err)
