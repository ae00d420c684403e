-- ===== src/Source/Dispatch/Frames.antt =====
-- source/WifiDisplaySource.cpp: the handlers of responses in any frame, from what their steps do.
use how_to_miracast_on_aosp.Prelude.{ℕ, ◌==◌, Bytes, Option}
use how_to_miracast_on_aosp.Rtsp.Frame.{
  Frame, Still, Tame, >>-Tame, >>=-Tame, if-Tame, option-Tame, return-Tame,
}
use how_to_miracast_on_aosp.Rtsp.Machine.{return}
use how_to_miracast_on_aosp.Rtsp.Text.{text}
use how_to_miracast_on_aosp.Rtsp.Message.{ParsedMessage, error_malformed, error_unsupported}
use how_to_miracast_on_aosp.Source.{Handler, m1, m3, m4, m5, m16, World, Outside, M}
use how_to_miracast_on_aosp.Source.Send.{send_m4}
use how_to_miracast_on_aosp.Source.Capabilities.{
  set_chosen_port, on_ok, receive_audio, receive_protection, receive_parameters, receive_m3,
}
use how_to_miracast_on_aosp.Source.Dispatch.{on_success, receive_m4, receive_m16, handle}

module _ (o : Outside) (P : ParsedMessage) ⦃p : Frame World⦄ where
  open P use {Message, status_code, content, find_parameter, parse_parameters}

  on_ok-Tame : (m next : M ℕ) → Still m → Tame next → Tame (on_ok m next)
  on_ok-Tame m next h t =
      >>=-Tame _ m h
        λ status. if-Tame next (return status) (status == 0) t (return-Tame World status)

  on_success-Tame : (msg : Message) (next : M ℕ) → Tame next → Tame (on_success o P msg next)
  unfolding on_success
  on_success-Tame msg next t =
      option-Tame _ _ (status_code msg) (return-Tame World error_malformed)
        λ code. if-Tame _ _ (code == 200) t (return-Tame World error_unsupported)

  module _ (set_chosen_port-Still : (port : ℕ) → Still (set_chosen_port port))
      (receive_audio-Still : (value : Bytes) → Still (receive_audio o P value))
      (receive_protection-Still : (value : Option Bytes) → Still (receive_protection o P value))
      (send_m4-Tame : (session : ℕ) → Tame (send_m4 o session))
      (receive_m4-Tame : (session : ℕ) → Tame (receive_m4 o P session))
      (receive_m16-Tame : (session : ℕ) → Tame (receive_m16 o P session)) where
    receive_m3-Tame : (session : ℕ) (msg : Message) → Tame (receive_m3 o P session msg)
    unfolding receive_m3 receive_parameters
    receive_m3-Tame session msg =
        option-Tame _ _ (parse_parameters (content msg)) (return-Tame World error_malformed)
          λ params.
            option-Tame _ _ (find_parameter params (text "wfd_client_rtp_ports"))
              (return-Tame World error_malformed)
              λ ports. >>-Tame _ _ (set_chosen_port-Still _) (
                option-Tame _ _ (find_parameter params (text "wfd_audio_codecs"))
                  (return-Tame World error_malformed)
                  λ value. on_ok-Tame _ _ (receive_audio-Still value) (
                    on_ok-Tame _ _
                      (receive_protection-Still
                        (find_parameter params (text "wfd_content_protection")))
                      (send_m4-Tame session)))

    pub handle-Tame : (h : Handler) (session : ℕ) (msg : Message) → Tame (handle o P h session msg)
    unfolding handle
    handle-Tame m1 session msg = on_success-Tame msg _ (return-Tame World 0)
    handle-Tame m3 session msg = on_success-Tame msg _ (receive_m3-Tame session msg)
    handle-Tame m4 session msg = on_success-Tame msg _ (receive_m4-Tame session)
    handle-Tame m5 session msg = on_success-Tame msg _ (return-Tame World 0)
    handle-Tame m16 session msg = receive_m16-Tame session
