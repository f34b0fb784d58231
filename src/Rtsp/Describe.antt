-- ===== src/Rtsp/Describe.antt =====
-- RTSP_DESCRIBE.cpp
use rtsp_server.Base.{
  ℕ, ◌+◌, Bool, true, not, ◌∷◌, ◌++◌, Option, none, some, if◌then◌else◌, length, drop, codes,
}
use rtsp_server.Rtsp.Text.{
  Bytes, occurs, starts, scan_any_word, last_from, decimal, is_supported_file_stuffix,
}
use rtsp_server.Rtsp.Host.{Host}
use rtsp_server.Rtsp.Connection.{
  M, ◌>>=◌, ◌>>◌, pure, crash, the_buffer, require, demand, rtsp_el, reply_head, answer,
}
use rtsp_server.Rtsp.Request.{
  hdr_require, hdr_accept, request_text, second_word, read_cseq, object_of, is_live, stays_inside,
  demand_file,
}

-- RTSP_DESC_SIZE
abbrev pub rtsp_desc_size : ℕ
rtsp_desc_size = 4096

-- RTSP_DESCRIBE_reply
unfoldable pub describe_reply : Host → Bytes → Bytes → M (Unit {0})
unfolding request_text second_word require reply_head answer decimal
describe_reply h object descr = do
  b ← the_buffer
  text ← request_text
  url ← require 400 (second_word text)
  answer rtsp_desc_size (
      reply_head 200 b.rtsp_seq
      ++ (rtsp_el
          ++ (h.date_line
              ++ (codes "Content-Type: application/sdp"
                  ++ (rtsp_el
                      ++ (codes "Content-Base: rtsp://"
                          ++ (h.host_name
                              ++ (b'/'
                                  ∷ (object
                                      ++ (b'/'
                                          ∷ (rtsp_el
                                              ++ (codes "Content-Length: "
                                                  ++ (decimal (length descr + length rtsp_el)
                                                      ++ (rtsp_el
                                                          ++ (rtsp_el
                                                            ++ (descr ++ rtsp_el))))))))))))))))

-- The suffix behind the last dot, if there is one, is of a kind that is supported.
unfoldable pub suffix_known : Bytes → Bool
unfolding last_from is_supported_file_stuffix
suffix_known object = elim (last_from 0 b'.' object) [
  | none ↦ true
  | some p ↦ is_supported_file_stuffix p
]

-- Whether the reply may hold a description: nothing is required, and SDP accepted.
unfoldable pub accepts_sdp : Bytes → M (Unit {0})
unfolding occurs demand
accepts_sdp text = do
  demand 551 (not (occurs text hdr_require))
  if occurs text hdr_accept then demand 551 (occurs text (codes "application/sdp")) else pure tt

-- sscanf(object, RTSP_LIVE "/%s", streamName): where the slash is missing the name is not set.
unfoldable pub stream_name : Bytes → Option Bytes
unfolding starts scan_any_word
stream_name object =
    if starts (codes "live/") object
    then elim (scan_any_word (drop 5 object)) [ none ↦ none | some (name, rest) ↦ some name ]
    else none

unfoldable pub or_crash : {A : Type 0} → Option A → M A
or_crash none = crash
or_crash (some a) = pure a

-- The description of a living stream that exists.
unfoldable pub describe_live : Host → Bytes → M (Unit {0})
unfolding stream_name or_crash demand require describe_reply
describe_live h object = do
  name ← or_crash (stream_name object)
  demand 404 (h.living_exists name)
  sdp ← require 404 (h.living_sdp name)
  describe_reply h object sdp

-- The description of a file that exists.
unfoldable pub describe_file : Host → Bytes → M (Unit {0})
unfolding demand_file require describe_reply
describe_file h object = do
  demand_file h object
  descr ← require 404 (h.file_sdp (h.flv_save_dir ++ object))
  describe_reply h object descr

-- RTSP_DESCRIBE
unfoldable pub describe : Host → M (Unit {0})
unfolding request_text second_word require object_of stays_inside suffix_known demand accepts_sdp
    read_cseq is_live describe_live describe_file
describe h = do
  text ← request_text
  url ← require 400 (second_word text)
  object ← object_of url
  stays_inside object
  demand 415 (suffix_known object)
  accepts_sdp text
  read_cseq
  if is_live object then describe_live h object else describe_file h object
