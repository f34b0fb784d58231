-- ===== src/Rtsp/Url.antt =====
-- parse_url.cpp
use rtsp_server.Base.{
  ℕ, ◌+◌, Bool, true, false, not, ◌==◌, [], Option, none, some, ◌>>=◌, leb, if◌then◌else◌, length,
  drop, codes,
}
use rtsp_server.Rtsp.Text.{
  Bytes, c_string, starts, contains, span, port_number, Token, strtok, rest_of, block_of,
}

pub record Url : Type 0 where
  pub server : Bytes
  -- `none` where the caller's variable is left as it was.
  pub port : Option ℕ
  pub filename : Bytes

-- RTSP_DEFAULT_PORT
abbrev pub rtsp_default_port : ℕ
rtsp_default_port = 554

-- What strncpy puts into an array of 255 bytes; refused if the last one is in use.
unfoldable pub in_array : Bytes → Option Bytes
in_array s = if leb 255 (length s) then none else some s

-- Whether a colon stands before the first slash.
unfoldable pub has_port : Bytes → Bool
unfolding contains span
has_port s = let (host, path) = span (length s) (λ c. not (c == b'/')) s in contains host b':'

-- The text where the port is looked for: behind as many bytes as the server's name has, and one.
unfoldable pub port_text : Token → Bytes
unfolding c_string block_of
port_text t = c_string (drop (length t.token + 1) (block_of t))

-- The port, and the text from which strtok goes on.
unfoldable pub port_of : Bool → Token → ℕ × Bytes
unfolding port_text rest_of port_number strtok
port_of false t = (rtsp_default_port, rest_of t)
port_of true t = elim (strtok (codes " /\t\n") (port_text t)) [
  | none ↦ (rtsp_default_port, [])
  | some p ↦ (port_number p.token, rest_of p)
]

-- strtok(0, " ") or an empty name
unfoldable pub file_of : Bytes → Bytes
unfolding strtok
file_of s = elim (strtok (codes " ") s) [ none ↦ [] | some t ↦ t.token ]

-- The part behind rtsp://
unfoldable pub parse_address : Bytes → Option Url
unfolding in_array has_port port_of file_of strtok
parse_address s = do
  t ← strtok (codes " :/\t\n") s
  server ← in_array t.token
  let (port, rest) = port_of (has_port s) t
  filename ← in_array (file_of rest)
  some (record { server = server; port = some port; filename = filename })

-- A name without rtsp://
unfoldable pub parse_name : Bytes → Option Url
unfolding in_array strtok
parse_name s = do
  t ← strtok (codes " \t\n") s
  filename ← in_array t.token
  some (record { server = []; port = none; filename = filename })

-- `none` is the result -1; 1 is never returned.
unfoldable pub parse_url : Bytes → Option Url
unfolding parse_address parse_name starts
parse_url url = if starts (codes "rtsp://") url then parse_address (drop 7 url) else parse_name url
