-- ===== src/Codec/Format.antt =====
-- frameworks/av/media/libstagefright/ACodec.cpp: `sendFormatChange`. SkipCutBuffer stands outside
-- the repository; the codec keeps whether it has one.
use how_to_miracast_on_aosp.Prelude.{
  ℕ, ◌+◌, ◌-◌, ◌%◌, ◌^◌, true, not, ◌||◌, Option, none, some, ◌==◌, leb, if◌then◌else◌,
}
use how_to_miracast_on_aosp.Prelude.Int.{ℤ, pos, negsuc}
use how_to_miracast_on_aosp.Rtsp.Machine.{◌>>=◌, ◌>>◌, return, check}
use how_to_miracast_on_aosp.Codec.{
  Crop, VideoFormat, PcmFormat, video_format, audio_format, M, get, modify, fail, emit, read,
}
use how_to_miracast_on_aosp.Codec.Outside.{
  Outside, Domain, video_domain, audio_domain, other_domain,
}

-- `rect`, with the frame in place of a crop that the component does not tell.
unfoldable pub crop_or_frame : VideoFormat → Option Crop → Crop
crop_or_frame f none = record { left = pos 0; top = pos 0; width = f.width; height = f.height }
crop_or_frame f (some c) = c

-- `CHECK_GE(rect.nLeft, 0)`
unfoldable pub offset : ℤ → M ℕ
offset (pos n) = return n
offset (negsuc n) = fail

-- `rect.nLeft + rect.nWidth - 1`, on 32 bits.
unfoldable pub last_of : ℕ → ℕ → ℕ
last_of start size = (start + size + (2 ^ 32 - 1)) % 2 ^ 32

unfoldable pub send_video_format : Outside → VideoFormat → Crop → M (Unit {0})
unfolding offset last_of
send_video_format o f c = do
  left ← offset c.left
  top ← offset c.top
  check (leb (last_of left c.width) f.width)
  check (leb (last_of top c.height) f.height)
  s ← get
  (if s.native_window then check o.set_crop_ok else return tt)
  emit (video_format f left top (last_of left c.width) (last_of top c.height))

unfoldable pub send_audio_format : PcmFormat → M (Unit {0})
send_audio_format f = do
  modify λ s. record s { skip_cut = s.skip_cut || not ((s.encoder_delay + s.encoder_padding) == 0) }
  emit (audio_format f)

unfoldable pub send_domain : Outside → Domain → M (Unit {0})
unfolding crop_or_frame send_video_format send_audio_format
send_domain o (video_domain f c) = send_video_format o f (crop_or_frame f c)
send_domain o (audio_domain acceptable f) = check acceptable >> send_audio_format f
send_domain o other_domain = fail

-- With no definition of an output port a CHECK fails.
unfoldable pub send_format_change : Outside → M (Unit {0})
unfolding send_domain
send_format_change o = do
  d ← read o.domain
  send_domain o d
  modify λ s. record s { sent_format = true }
