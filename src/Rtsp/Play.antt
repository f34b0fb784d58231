-- ===== src/Rtsp/Play.antt =====
-- RTSP_PLAY.cpp
use rtsp_server.Base.{
  ℕ, ◌-◌, Bool, true, false, List, [], ◌∷◌, ◌++◌, Option, none, some, if◌then◌else◌, length, take,
  drop, codes,
}
use rtsp_server.Tcp.Interleaved.{rtsp_buffer_size}
use rtsp_server.Rtsp.Text.{Bytes, strstr, scan_until, scan_text, last_from, decimal}
use rtsp_server.Rtsp.Host.{Host}
use rtsp_server.Rtsp.Connection.{
  SessionState, init_stat, ready_stat, play_stat, Session, deepcopy_session, deepcopy_buffer,
  stream_file, stream_living, adds, M, ◌>>=◌, ◌>>◌, pure, the_buffer, modify, perform, require,
  demand, session_at, id_text, rtsp_el, reply_head, answer,
}
use rtsp_server.Rtsp.Request.{
  hdr_session, hdr_range, request_text, second_word, session_word, object_of, is_live, stays_inside,
  ok_head,
}
use rtsp_server.Rtsp.Describe.{or_crash}

-- The text behind the next colon; without one the code goes on from a null pointer.
unfoldable pub behind_colon : Bytes → M Bytes
unfolding strstr or_crash
behind_colon s = do q ← or_crash (strstr s (codes ":")); pure (drop 1 q)

-- Hours, minutes and seconds behind three colons.
unfoldable pub read_clock : Host → Bytes → M (ℕ × ℕ)
unfolding behind_colon
read_clock h p = do
  hour ← behind_colon p
  minute ← behind_colon hour
  second ← behind_colon minute
  pure (h.clock_time hour minute second, 0)

-- npt: a start, and an end that may be missing.
unfoldable pub read_npt : Host → Bytes → M (ℕ × ℕ)
unfolding strstr require
read_npt h q = do
  q' ← require 400 (strstr q (codes "="))
  start ← require 400 (h.scan_float (drop 1 q'))
  q'' ← require 400 (strstr q' (codes "-"))
  pure (start, elim (h.scan_float (drop 1 q'')) [ none ↦ 0 | some end ↦ end ])

-- What a Range header asks for, by the unit that it names.
unfoldable pub read_range : Host → Bytes → M (ℕ × ℕ)
unfolding strstr read_npt read_clock
read_range h p = elim (strstr p (codes "npt")) [
  | some q ↦ read_npt h q
  | none ↦ elim (strstr p (codes "smpte")) [
    | some q ↦ pure (0, 0)
    | none ↦ elim (strstr p (codes "clock")) [
      | some q ↦ pure (0, 0)
      | none ↦ elim (strstr p (codes "time")) [ some q ↦ pure (0, 0) | none ↦ read_clock h p ]
    ]
  ]
]

-- The start and the end of what is to be played: all of it where there is no Range header.
unfoldable pub times : Host → M (ℕ × ℕ)
unfolding request_text strstr read_range
times h = do
  text ← request_text
  elim (strstr text hdr_range) [ none ↦ pure (0, 0) | some p ↦ read_range h p ]

-- The Session header, which has to be there.
unfoldable pub demand_session : M (Unit {0})
unfolding request_text strstr require session_word
demand_session = do
  text ← request_text
  p ← require 400 (strstr text hdr_session)
  word ← session_word 64 p
  pure tt

-- sscanf(object, RTSP_LIVE "/%[^/]", streamName)
unfoldable pub living_name : Bytes → Option Bytes
unfolding scan_until scan_text
living_name object = elim (scan_text (codes "live/") object) [
  | none ↦ none
  | some rest ↦ elim (scan_until b'/' rest) [ none ↦ none | some (name, end) ↦ some name ]
]

-- The task of a living stream that exists.
unfoldable pub play_live : Host → ℕ → Bytes → M (Unit {0})
unfolding living_name require demand session_at deepcopy_session deepcopy_buffer
play_live h i object = do
  name ← require 403 (living_name object)
  demand 404 (h.living_exists name)
  modify (λ b. record b { source_name = name })
  b ← the_buffer
  x ← session_at i
  perform (adds (stream_living (deepcopy_buffer h.junk_port h.junk b) (deepcopy_session x)))

-- sscanf(object, "%[^.]%[^/]", prefix, stuffix) == 2
unfoldable pub has_suffix : Bytes → Bool
unfolding scan_until
has_suffix object = elim (scan_until b'.' object) [
  | none ↦ false
  | some (prefix, rest) ↦ elim (scan_until b'/' rest) [ none ↦ false | some found ↦ true ]
]

-- The task of a file, which need not exist.
unfoldable pub play_file : Host → ℕ → Bytes → ℕ × ℕ → M (Unit {0})
unfolding stays_inside has_suffix demand session_at deepcopy_session deepcopy_buffer
play_file h i object (start, end) = do
  stays_inside object
  demand 400 (has_suffix object)
  modify (λ b. record b { source_name = object })
  b ← the_buffer
  x ← session_at i
  perform (adds (stream_file (deepcopy_buffer h.junk_port h.junk b) (deepcopy_session x) start end))

unfoldable pub is_ready : SessionState → Bool
is_ready init_stat = false
is_ready ready_stat = true
is_ready play_stat = false

-- The RTP-info of one session.
unfoldable pub rtp_info : Host → Bytes → Session → Bytes
unfolding decimal
rtp_info h object x =
    codes "RTP-info: url=rtsp://"
    ++ (h.server_ip
        ++ (b'/'
            ∷ (object
                ++ (b'/'
                    ∷ (x.control_id
                        ++ (codes ";seq="
                            ++ (decimal x.first_seq
                                ++ (codes ";rtptime=" ++ decimal x.start_rtp_time))))))))

-- The RTP-info of the sessions that are ready, with commas between them.
unfoldable pub rtp_infos : Host → Bytes → Bool → List Session → Bytes
unfolding rtp_info is_ready
rtp_infos h object need_comma [] = []
rtp_infos h object need_comma (x ∷ more) =
    let ready = is_ready x.cur_state in
    (if ready then (if need_comma then b',' ∷ [] else []) ++ rtp_info h object x else [])
    ++ rtp_infos h object (if ready then true else need_comma) more

-- RTSP_PLAY_reply
unfoldable pub play_reply : Host → Bytes → ℕ → M (Unit {0})
unfolding session_at reply_head ok_head id_text rtp_infos answer
play_reply h object i = do
  b ← the_buffer
  x ← session_at i
  answer rtsp_buffer_size (
      ok_head h (reply_head 200 b.rtsp_seq) []
      ++ (codes "Session: "
          ++ (id_text x
              ++ (rtsp_el ++ (rtp_infos h object false b.session_list ++ (rtsp_el ++ rtsp_el))))))

-- The object with a slash at its end taken off. It has a byte.
unfoldable pub trimmed : Bytes → Bytes
unfolding last_from
trimmed object = elim (last_from (length object - 1) b'/' object) [
  | none ↦ object
  | some slash ↦ take (length object - 1) object
]

-- RTSP_PLAY
unfoldable pub play : Host → ℕ → M (Unit {0})
unfolding times demand_session request_text second_word require object_of is_live play_live
    play_file trimmed play_reply
play h i = do
  range ← times h
  demand_session
  text ← request_text
  url ← require 400 (second_word text)
  object ← object_of url
  if is_live object then play_live h i object else play_file h i object range
  play_reply h (trimmed object) i
