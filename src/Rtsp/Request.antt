-- ===== src/Rtsp/Request.antt =====
-- What the handlers share: looking up headers, the request's URL and the object in it, and the head
-- of a reply.
use rtsp_server.Base.{
  ℕ, ◌-◌, Bool, ◌&&◌, not, ◌++◌, Option, none, some, ltb, ◌==◌, if◌then◌else◌, length, take, codes,
}
use rtsp_server.Rtsp.Text.{
  Bytes, c_string, strstr, occurs, starts, scan_word, scan_any_word, scan_until, scan_int,
  last_from,
}
use rtsp_server.Rtsp.Url.{parse_url}
use rtsp_server.Rtsp.Host.{Host}
use rtsp_server.Rtsp.Connection.{
  M, ◌>>=◌, ◌>>◌, pure, crash, the_buffer, modify, within, require, demand, rtsp_el,
}

-- The constants of RTSP.h that name headers, and RTSP_LIVE.
abbrev pub hdr_session : Bytes
hdr_session = codes "Session"

abbrev pub hdr_cseq : Bytes
hdr_cseq = codes "CSeq"

abbrev pub hdr_transport : Bytes
hdr_transport = codes "Transport"

abbrev pub hdr_range : Bytes
hdr_range = codes "Range"

abbrev pub hdr_require : Bytes
hdr_require = codes "Require"

abbrev pub hdr_accept : Bytes
hdr_accept = codes "Accept"

abbrev pub rtsp_live : Bytes
rtsp_live = codes "live"

-- The text at the beginning of in_buffer, as strstr and sscanf see it; without a zero they read
-- beyond the array.
unfoldable pub request_text : M Bytes
unfolding c_string
request_text = do
  b ← the_buffer
  within (ltb (length (c_string b.in_buffer)) (length b.in_buffer))
  pure (c_string b.in_buffer)

-- sscanf(s, "%*s %254s ", url), as far as the second word.
unfoldable pub second_word : Bytes → Option Bytes
unfolding scan_word scan_any_word
second_word s = elim (scan_any_word s) [
  | none ↦ none
  | some (first, rest) ↦ elim (scan_word 254 rest) [ none ↦ none | some (url, more) ↦ some url ]
]

-- sscanf(p, "%254s %s", trash, word): the second word.
unfoldable pub word_after : Bytes → Option Bytes
unfolding scan_word scan_any_word
word_after p = elim (scan_word 254 p) [
  | none ↦ none
  | some (trash, rest) ↦ elim (scan_any_word rest) [ none ↦ none | some (word, more) ↦ some word ]
]

-- The session id behind a Session header, in an array of `room` bytes with the zero behind it.
unfoldable pub session_word : ℕ → Bytes → M Bytes
unfolding word_after require
session_word room p = do
  word ← require 454 (word_after p)
  within (ltb (length word) room)
  pure word

-- sscanf(p, "%254s %d", trash, &rtsp->rtsp_seq) at the CSeq header
unfoldable pub read_cseq : M (Unit {0})
unfolding request_text strstr require scan_word scan_int
read_cseq = do
  text ← request_text
  p ← require 400 (strstr text hdr_cseq)
  (trash, rest) ← require 400 (scan_word 254 p)
  (seq, more) ← require 400 (scan_int rest)
  modify (λ b. record b { rtsp_seq = seq })

-- parse_url, and the replies where it fails.
unfoldable pub object_of : Bytes → M Bytes
unfolding parse_url require
object_of url = do u ← require 500 (parse_url url); pure u.filename

-- The first line of the request in an array of 255 bytes, and the words in it behind the method:
-- the URL, and one or two more.
unfoldable pub first_line : M (Bytes × Bytes × Option Bytes)
unfolding request_text scan_until require scan_any_word scan_word
first_line = do
  text ← request_text
  (line, more) ← require 400 (scan_until 13 text)
  within (ltb (length line) 255)
  (method, rest) ← require 400 (scan_any_word line)
  (url, rest') ← require 400 (scan_word 254 rest)
  (word, rest'') ← require 400 (scan_any_word rest')
  pure (url, word, elim (scan_any_word rest'') [ none ↦ none | some (last, end) ↦ some last ])

-- Whether the object is a living stream.
unfoldable pub is_live : Bytes → Bool
unfolding starts
is_live object = ltb (length rtsp_live) (length object) && starts rtsp_live object

-- The tests on "../" and "./".
unfoldable pub stays_inside : Bytes → M (Unit {0})
unfolding occurs demand
stays_inside object = do
  demand 403 (not (occurs object (codes "../")))
  demand 403 (not (occurs object (codes "./")))

-- file_name[strlen(file_name)-1] == '/', and the slash taken off.
unfoldable pub without_slash : Bytes → M Bytes
unfolding last_from
without_slash object =
    if length object == 0 then crash else elim (last_from (length object - 1) b'/' object) [
      | none ↦ pure object
      | some slash ↦ pure (take (length object - 1) object)
    ]

-- A file of the directory that the server is configured for.
unfoldable pub demand_file : Host → Bytes → M (Unit {0})
unfolding demand
demand_file h name = demand 404 (h.exists (h.flv_save_dir ++ name))

-- The head of the replies of the handlers, where `gap` stands between the server's name and version.
unfoldable pub ok_head : Host → Bytes → Bytes → Bytes
ok_head h head gap =
    head
    ++ (rtsp_el
        ++ (codes "Server: "
            ++ (h.server_name ++ (gap ++ (h.server_version ++ (rtsp_el ++ h.date_line))))))
