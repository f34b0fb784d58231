-- ===== src/Rtsp/Pause.antt =====
-- RTSP_PAUSE.cpp
use rtsp_server.Base.{ℕ, ◌++◌, if◌then◌else◌, codes}
use rtsp_server.Tcp.Interleaved.{rtsp_buffer_size}
use rtsp_server.Rtsp.Text.{Bytes}
use rtsp_server.Rtsp.Host.{Host}
use rtsp_server.Rtsp.Connection.{
  stream_pause, executes, M, ◌>>=◌, ◌>>◌, pure, the_buffer, modify, perform, session_at, id_text,
  rtsp_el, reply_head, answer,
}
use rtsp_server.Rtsp.Request.{
  first_line, object_of, is_live, stays_inside, without_slash, demand_file, ok_head,
}

-- The reply that TEARDOWN and PAUSE make, from its first two lines on.
unfoldable pub session_reply : Host → ℕ → Bytes → M (Unit {0})
unfolding ok_head session_at id_text answer
session_reply h i head = do
  session ← session_at i
  answer rtsp_buffer_size (
      ok_head h head (codes "/")
      ++ (codes "Session: " ++ (id_text session ++ (rtsp_el ++ rtsp_el))))

-- RTSP_PAUSE_reply
unfoldable pub pause_reply : Host → ℕ → M (Unit {0})
unfolding reply_head session_reply
pause_reply h i = do b ← the_buffer; session_reply h i (reply_head 200 b.rtsp_seq)

-- The file that an object names exists, and is within the directory.
unfoldable pub check_file : Host → Bytes → M (Unit {0})
unfolding stays_inside without_slash demand_file
check_file h object = do stays_inside object; name ← without_slash object; demand_file h name

-- A living stream is taken as it is, a file checked.
unfoldable pub check_object : Host → Bytes → M (Unit {0})
unfolding is_live check_file
check_object h object = if is_live object then pure tt else check_file h object

-- RTSP_PAUSE
unfoldable pub pause : Host → ℕ → M (Unit {0})
unfolding first_line object_of check_object session_at pause_reply
pause h i = do
  (url, word, last) ← first_line
  object ← object_of url
  check_object h object
  session ← session_at i
  modify (λ b. record b { source_name = object })
  perform (executes (stream_pause session.session_id))
  pause_reply h i
