-- ===== src/Tcp/Interleaved.antt =====
-- parseRtpRtcpRtspData (tcpCacher.cpp): RTP and RTCP packets behind a `$`, a channel and a length
-- in two bytes, and RTSP messages, which end in an empty line.
-- `char` is signed, as it is where the program is built. A `bool` and four words are the reference
-- parameters. `none` is a read outside the bytes shown.
pub mod Length
pub mod Scan
pub mod Total
pub mod Packets
use rtsp_server.Base.{
  ℕ, zero, suc, ◌+◌, ◌-◌, ◌*◌, Bool, true, false, List, Option, none, some, ltb, leb, ◌==◌,
  if◌then◌else◌, ◌>>=◌, length, get_elem?, sub32, wrap16, wrap32, bit_or, sign_extend,
}
use rtsp_server.Tcp.Cacher.{Verdict, verdict, Analyzer}

-- RTSP_BUFFER_SIZE (RTSP.h)
abbrev pub rtsp_buffer_size : ℕ
rtsp_buffer_size = 4096

-- (unsigned short)((size1 << 8) | size2)
pub pkg_size : ℕ → ℕ → ℕ
pkg_size size1 size2 = wrap16 (bit_or (wrap32 (sign_extend size1 * 0x100)) (sign_extend size2))

-- strncmp(dataIn + i, "\r\n\r\n", 4) == 0: the bytes up to the first that differs are read.
pub ends_at : List ℕ → ℕ → Option Bool
ends_at data_in i = do
  a ← get_elem? data_in i
  if a == b'\r'
      then (do
        b ← get_elem? data_in (i + 1)
        if b == b'\n'
            then (do
              c ← get_elem? data_in (i + 2)
              if c == b'\r'
                  then (do d ← get_elem? data_in (i + 3); some (d == b'\n'))
                  else some false)
            else some false)
      else some false

-- The `for` over `count` values from `i` on: `outEnd` and `getValid` after it.
pub scan_end : ℕ → List ℕ → ℕ → ℕ → Bool → Option (ℕ × Bool)
scan_end zero data_in i out_end get_valid = some (out_end, get_valid)
scan_end (suc count) data_in i out_end get_valid = ends_at data_in i >>= λ found.
    scan_end count data_in (i + 1) (if found then i + 3 else out_end)
      (if found then true else get_valid)

-- The second round of the loop, with `outEnd` at 1: a packet behind `$`.
pub packet_round : List ℕ → Option Verdict
packet_round data_in = do
  size1 ← get_elem? data_in 2
  size2 ← get_elem? data_in 3
  let size = pkg_size size1 size2
  some (
      if ltb (length data_in) (size + 4)
      then verdict false 0 1 0
      else verdict true 0 (size + 4 - 1) 0)

-- The same round where an RTSP message begins. The bound of the `for`, `tmpEnd-3`, wraps.
pub message_round : List ℕ → Option Verdict
message_round data_in =
    let in_size = length data_in in
    let long = ltb rtsp_buffer_size (in_size - 1) in
    let tmp_end = (if long then rtsp_buffer_size else in_size) in
    let out_end = (if long then rtsp_buffer_size else 1) in
    scan_end (sub32 tmp_end 3 - out_end) data_in out_end out_end false >>= λ (end, valid).
    some (verdict valid 0 end 0)

-- The loop: its first round sets `outEnd` to 1, its second always leaves it.
pub parse_rtp_rtcp_rtsp_data : Analyzer
parse_rtp_rtcp_rtsp_data data_in =
    if leb (length data_in) 0 then some (verdict false 0 0 0) else (do
      first ← get_elem? data_in 0
      if first == b'$'
          then (if ltb (length data_in) 4 then some (verdict false 0 0 0) else packet_round data_in)
          else (if leb (length data_in) 1
              then some (verdict false 0 1 0)
              else message_round data_in))
