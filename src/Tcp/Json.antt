-- ===== src/Tcp/Json.antt =====
-- parseTaskJsonData (tcpCacher.cpp): a JSON text behind its length in four bytes.
pub mod Frames
pub mod Total
pub mod Stream
use rtsp_server.Base.{
  ℕ, zero, suc, ◌+◌, ◌-◌, ◌≤◌, ◌<◌, ◌≡◌, refl, sym, ap, subst, ◌∙◌, ◌⊎◌, inl, inr, Bool, true,
  false, ◌||◌, not, List, [], ◌∷◌, ◌++◌, Option, none, some, arith, ltb, leb, ◌==◌, ltb→lt, lt→ltb,
  le→ltb, leb→le, le→leb, lt→leb, if◌then◌else◌, ◌>>=◌, Bool-cases, Option-cases, length, take,
  drop, get_elem?, get_elem?_lt, length-append, length-take, ap₂, ◌≢◌, add32, sub32, wrap32, word32,
  load32, htonl, byte0, byte1, byte2, byte3,
}
use rtsp_server.Tcp.Cacher.{Verdict, verdict, Analyzer, size_limit}
use rtsp_server.Tcp.Cacher.Drain.{Framer}

-- MAX_JSON_SIZE (taskJsonStructs.h)
abbrev pub max_json_size : ℕ
max_json_size = 0xff_ffff

-- The four bytes at `i` as the code reads them: copied into a word, and through htonl.
load_size : List ℕ → ℕ → Option ℕ
load_size data_in i = do
  a ← get_elem? data_in i
  b ← get_elem? data_in (i + 1)
  c ← get_elem? data_in (i + 2)
  d ← get_elem? data_in (i + 3)
  some (htonl (load32 a b c d))

-- The test for the opening brace, made once a byte behind it is there; that byte is read too.
lacks_brace : List ℕ → ℕ → Option Bool
lacks_brace data_in i =
    if ltb (add32 i 5) (length data_in)
    then (do
      data4 ← get_elem? data_in (i + 5)
      first ← get_elem? data_in (i + 4)
      some (not (first == b'{')))
    else some false

-- What one round of the loop comes to: the next byte is tried, or the loop ends with `getValid`
-- and `outEnd` as given.
data Round : Type 0 where
  skip : Round
  stop : Bool → ℕ → Round

json_round : List ℕ → ℕ → Option Round
json_round data_in out_start =
    let in_size = length data_in in
    if leb in_size out_start || leb in_size 0
    then some (stop false 0)
    else if leb in_size (add32 out_start 4)
    then some (stop false 0)
    else (do
      data_size ← load_size data_in out_start
      if ltb max_json_size data_size then some skip else (do
        lacking ← lacks_brace data_in out_start
        let out_end = wrap32 (out_start + 4 + data_size - 1)
        some (if lacking then skip else stop (ltb out_end in_size) out_end)))

-- The loop on fuel: `outStart` and `invalidBytes` change from round to round.
json_loop : ℕ → List ℕ → ℕ → ℕ → Option Verdict
json_loop zero data_in out_start invalid_bytes = none
json_loop (suc fuel) data_in out_start invalid_bytes =
    let next = json_loop fuel data_in (add32 out_start 1) (add32 invalid_bytes 1) in
    json_round data_in out_start >>= elim [
      | skip ↦ next
      | stop valid out_end ↦ some (verdict valid out_start out_end invalid_bytes)
    ]

pub parse_task_json_data : Analyzer
parse_task_json_data data_in = json_loop (length data_in + 1) data_in 0 0
