-- ===== src/Sink/Display/Text.antt =====
-- sink/WifiDisplaySink.cpp: `AppendCommonResponse`.
use how_to_miracast_on_aosp.Prelude.{[], ◌++◌, Bytes}
use how_to_miracast_on_aosp.Rtsp.Text.{text, decimal}
use how_to_miracast_on_aosp.Prelude.Int.{ℤ, pos, negsuc}

abbrev cseq_line : ℤ → Bytes
cseq_line (pos n) = text "CSeq: " ++ decimal n ++ text "\r\n"
cseq_line (negsuc n) = []

-- `AppendCommonResponse`; `date` is what strftime writes.
unfoldable pub common_response : Bytes → ℤ → Bytes
unfolding text decimal
common_response date cseq =
    text "Date: "
    ++ date
    ++ text "\r\n"
    ++ text "User-Agent: stagefright/1.1 (Linux;Android 4.1)\r\n"
    ++ cseq_line cseq
