-- ===== src/Rtsp/Teardown.antt =====
-- RTSP_TEARDOWN.cpp
pub mod Reading
pub mod Numbers
use rtsp_server.Base.{
  ℕ, ◌+◌, ◌-◌, ◌*◌, ◌/◌, ◌%◌, ◌^◌, List, [], ◌∷◌, ◌++◌, Option, none, some, ltb, ◌==◌,
  if◌then◌else◌, length, codes,
}
use rtsp_server.Rtsp.Text.{Bytes, strstr, scan_word, scan_any_word, decimal}
use rtsp_server.Rtsp.Host.{Host}
use rtsp_server.Rtsp.Connection.{
  Buffer, stream_stop, adds, M, ◌>>=◌, ◌>>◌, pure, crash, the_buffer, modify, perform, within,
  require, rtsp_el, token_text,
}
use rtsp_server.Rtsp.Request.{
  hdr_session, hdr_cseq, request_text, second_word, word_after, session_word, object_of,
}
use rtsp_server.Rtsp.Describe.{or_crash}
use rtsp_server.Rtsp.Pause.{session_reply, check_object}

-- Bytes written over the first bytes of a word in memory.
unfoldable pub write_over : ℕ → Bytes → ℕ
write_over word [] = word
write_over word (c ∷ bytes) = c + 256 * write_over (word / 256) bytes

-- sscanf(p, "%254s %s", trash, &rtsp->rtsp_seq): the characters of the number, and a zero, in place
-- of the number's own bytes.
unfoldable pub read_cseq_text : M (Unit {0})
unfolding request_text strstr require word_after write_over
read_cseq_text = do
  text ← request_text
  p ← require 400 (strstr text hdr_cseq)
  word ← require 400 (word_after p)
  within (ltb (length word) 4)
  modify (λ b. record b { rtsp_seq = write_over b.rtsp_seq (word ++ (0 ∷ [])) })

-- The Session header, if there is one, has to have a word.
unfoldable pub check_session : M (Unit {0})
unfolding request_text strstr session_word
check_session = do
  text ← request_text
  elim (strstr text hdr_session) [
    | none ↦ pure tt
    | some p ↦ (do word ← session_word 65 p; pure tt)
  ]

-- RTSP_TEARDOWN_reply
unfoldable pub teardown_reply : Host → ℕ → M (Unit {0})
unfolding token_text decimal session_reply
teardown_reply h i = do
  b ← the_buffer
  session_reply h i (
      codes "RTSP/1.0 200 "
      ++ (token_text 200 ++ (rtsp_el ++ (codes "CSeq: " ++ decimal b.rtsp_seq))))

-- RTSP_TEARDOWN. Without a second word `url` is not set.
unfoldable pub teardown : Host → ℕ → M (Unit {0})
unfolding read_cseq_text request_text second_word or_crash object_of check_object check_session
    teardown_reply
teardown h i = do
  read_cseq_text
  text ← request_text
  url ← or_crash (second_word text)
  object ← object_of url
  check_object h object
  check_session
  teardown_reply h i
  b ← the_buffer
  perform (adds (stream_stop b.sock_id))
