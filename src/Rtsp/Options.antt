-- ===== src/Rtsp/Options.antt =====
-- RTSP_OPTIONS.cpp
use rtsp_server.Base.{Bool, true, ◌++◌, Option, none, some, codes, ltb, length}
use rtsp_server.Rtsp.Text.{Bytes, scan_word}
use rtsp_server.Rtsp.Connection.{
  M, ◌>>=◌, ◌>>◌, pure, break, the_buffer, within, rtsp_el, reply_head, answer,
}
use rtsp_server.Rtsp.Request.{request_text, read_cseq}

-- sscanf(text, "%31s %255s %31s", …) != 3
unfoldable pub three_words : Bytes → Option (Bytes × Bytes × Bytes)
unfolding scan_word
three_words s = elim (scan_word 31 s) [
  | none ↦ none
  | some (method, rest) ↦ elim (scan_word 255 rest) [
    | none ↦ none
    | some (url, rest') ↦ elim (scan_word 31 rest') [
      | none ↦ none
      | some (version, end) ↦ some (method, url, version)
    ]
  ]
]

-- RTSP_OPTIONS_reply
unfoldable pub options_reply : M (Unit {0})
unfolding reply_head answer
options_reply = do
  b ← the_buffer
  answer 1024 (
      reply_head 200 b.rtsp_seq
      ++ (rtsp_el
          ++ (codes "Public: OPTIONS,DESCRIBE,SETUP,PLAY,PAUSE,TEARDOWN" ++ (rtsp_el ++ rtsp_el))))

-- -1 with no reply
unfoldable pub or_break : {A : Type 0} → Option A → M A
or_break none = break
or_break (some a) = pure a

-- The second word is stored, with a zero behind it, in an array of 255 bytes.
unfoldable pub url_fits : Bytes → Bool
unfolding scan_word
url_fits s = elim (scan_word 31 s) [
  | none ↦ true
  | some (method, rest) ↦ elim (scan_word 255 rest) [
    | none ↦ true
    | some (url, rest') ↦ ltb (length url) 255
  ]
]

-- RTSP_OPTIONS
unfoldable pub options : M (Unit {0})
unfolding read_cseq request_text url_fits within three_words or_break options_reply
options = do
  read_cseq
  text ← request_text
  within (url_fits text)
  words ← or_break (three_words text)
  options_reply
