-- ===== src/Rtsp/Host.antt =====
-- What the handlers take from outside: the configuration, the clock, random numbers, files, the
-- living streams of the task scheduler, and sockets.
use rtsp_server.Base.{ℕ, ◌+◌, ◌*◌, ◌%◌, ◌/◌, ◌^◌, Bool, Option}
use rtsp_server.Rtsp.Text.{Bytes}

-- A value of each that a handler asks for, as it is when it asks.
pub record Host : Type 0 where
  pub server_name : Bytes
  pub server_version : Bytes
  pub flv_save_dir : Bytes
  pub timeout : ℕ
  pub server_ip : Bytes
  pub host_name : Bytes
  -- The line that strftime writes in add_RTSP_timestamp.
  pub date_line : Bytes
  pub sec : ℕ
  pub usec : ℕ
  -- (unsigned int)(freq*(usec/1000000.0)+0.5)
  pub usec_ticks : ℕ → ℕ → ℕ
  pub guid : Bytes
  pub random : ℕ
  pub rtp_port : ℕ
  pub rtcp_port : ℕ
  -- access(name, 0) == 0
  pub exists : Bytes → Bool
  -- generate_SDP_description of a file, and the text of a living stream.
  pub file_sdp : Bytes → Option Bytes
  pub living_exists : Bytes → Bool
  pub living_sdp : Bytes → Option Bytes
  -- sscanf with %f, and the bits of h * 60 * 60 + m * 60 + s for three texts read with %lf; where
  -- one is no number, with what the variable held.
  pub scan_float : Bytes → Option ℕ
  pub clock_time : Bytes → Bytes → Bytes → ℕ
  -- What socketSend returns.
  pub sent : Bytes → ℕ
  -- How many report blocks parse_RTCP_buf finds; `none` where it fails.
  pub rtcp_blocks : Bytes → Option ℕ
  -- What new memory holds.
  pub junk_port : ℕ
  pub junk : Bytes
  pub fresh : ℕ → ℕ

-- convert_to_RTP_timestamp
unfoldable pub convert_to_rtp_timestamp : Host → ℕ → ℕ
convert_to_rtp_timestamp h freq =
    (freq * h.sec % 2 ^ 32 + h.usec_ticks freq h.usec % 2 ^ 32) % 2 ^ 32

-- generate_random32
unfoldable pub generate_random32 : Host → ℕ
generate_random32 h = (h.sec % 1000000 * 1000 % 2 ^ 32 + h.usec / 1000) % 2 ^ 32
