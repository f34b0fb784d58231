-- ===== src/Rtsp/Setup/Objects.antt =====
-- RTSP_SETUP.cpp: the control id that the object of a request names, and the file that it is in.
use rtsp_server.Base.{◌-◌, Option, none, some, leb, if◌then◌else◌, length, take, drop}
use rtsp_server.Rtsp.Text.{
  Bytes, last_from, scan_until, scan_byte, scan_any_word, is_supported_file_stuffix,
}
use rtsp_server.Rtsp.Host.{Host}
use rtsp_server.Rtsp.Connection.{M, ◌>>=◌, ◌>>◌, pure, require, demand}
use rtsp_server.Rtsp.Request.{is_live, demand_file}

-- The part behind the last slash of a living stream.
unfoldable pub live_control : Bytes → M Bytes
unfolding last_from require demand
live_control object = do
  slash ← require 404 (last_from 1 b'/' object)
  demand 404 (leb 2 (length slash))
  pure (drop 1 slash)

-- sscanf(pStuffix, "%[^/]/%s", stuffix, control_id) == 2
unfoldable pub suffix_and_control : Bytes → Option (Bytes × Bytes)
unfolding scan_until scan_byte scan_any_word
suffix_and_control s = elim (scan_until b'/' s) [
  | none ↦ none
  | some (suffix, rest) ↦ elim (scan_byte b'/' rest) [
    | none ↦ none
    | some rest' ↦ elim (scan_any_word rest') [
      | none ↦ none
      | some (control, end) ↦ some (suffix, control)
    ]
  ]
]

-- The control id that stands in the URL: the file is what stands before the last slash.
unfoldable pub inner_control : Host → Bytes → Bytes → M Bytes
unfolding suffix_and_control is_supported_file_stuffix last_from require demand demand_file
inner_control h object from_dot = do
  (suffix, control) ← require 400 (suffix_and_control from_dot)
  demand 415 (is_supported_file_stuffix suffix)
  slash ← require 404 (last_from 1 b'/' object)
  demand_file h (take (length object - length slash) object)
  pure control

-- The control id that stands behind the URL: the file is what stands before the first slash.
unfoldable pub outer_control : Host → Bytes → Bytes → Bytes → M Bytes
unfolding scan_until is_supported_file_stuffix require demand demand_file
outer_control h object from_dot control = do
  demand 415 (is_supported_file_stuffix from_dot)
  (name, rest) ← require 400 (scan_until b'/' object)
  demand_file h name
  pure control

-- The last dot is at the third byte or behind it.
unfoldable pub file_control : Host → Bytes → Option Bytes → M Bytes
unfolding last_from require inner_control outer_control
file_control h object given = do
  from_dot ← require 404 (last_from 2 b'.' object)
  elim given [
    | none ↦ inner_control h object from_dot
    | some control ↦ outer_control h object from_dot control
  ]

-- The control id of the request, of a stream or a file that is there.
unfoldable pub control_of : Host → Bytes → Option Bytes → M Bytes
unfolding is_live live_control file_control
control_of h object given =
    if is_live object then live_control object else file_control h object given
