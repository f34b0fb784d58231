-- ===== src/Tests/Framing.antt =====
-- The analyzers and their streams at concrete bytes.
use rtsp_server.Base.{
  ℕ, ◌+◌, ◌≤◌, ◌<◌, ◌≡◌, ◌⊎◌, refl, true, false, List, [], ◌∷◌, none, some, arith,
}
use rtsp_server.Tcp.Cacher.{Cacher, Verdict, verdict, contents, create, default_cacher_size}
use rtsp_server.Tcp.Stream.{receive_all}
use rtsp_server.Tcp.Json.{parse_task_json_data}
use rtsp_server.Tcp.Json.Frames.{json_frame}
use rtsp_server.Tcp.Json.Total.{parse_task_json_data_total}
use rtsp_server.Tcp.Json.Stream.{json_stream}
use rtsp_server.Tcp.Interleaved.{pkg_size, parse_rtp_rtcp_rtsp_data}
use rtsp_server.Tcp.Interleaved.Length.{pkg_size_lem}
use rtsp_server.Tcp.Interleaved.Scan.{Quiet, Last, parse_message}
use rtsp_server.Tcp.Interleaved.Total.{IsPair, Finds, parse_rtp_rtcp_rtsp_data_cases}
use rtsp_server.Tcp.Interleaved.Packets.{IsPacket, packet_stream}

abbrev zeros : ℕ → ℕ
zeros i = 0

abbrev packet : List ℕ
packet = b'$' ∷ 1 ∷ 0 ∷ 3 ∷ 7 ∷ 8 ∷ 9 ∷ []

packet-IsPacket : IsPacket packet
packet-IsPacket = record {
  channel = 1;
  size1 = 0;
  size2 = 3;
  payload = 7 ∷ 8 ∷ 9 ∷ [];
  framed = refl;
  high = omega arith;
  low = omega arith;
  sized = refl;
}

-- Two packets in three deliveries.
packet_stream_example :
    (c : Cacher) × (receive_all zeros parse_rtp_rtcp_rtsp_data
        (create zeros default_cacher_size)
        ((b'$' ∷ 1 ∷ []) ∷ (0 ∷ 3 ∷ 7 ∷ 8 ∷ 9 ∷ b'$' ∷ 1 ∷ 0 ∷ []) ∷ (3 ∷ 7 ∷ 8 ∷ 9 ∷ []) ∷ [])
      ≡ some (packet ∷ packet ∷ [], c))
    × (contents c ≡ [])
packet_stream_example =
    packet_stream zeros 7 (packet ∷ packet ∷ [])
      ((b'$' ∷ 1 ∷ []) ∷ (0 ∷ 3 ∷ 7 ∷ 8 ∷ 9 ∷ b'$' ∷ 1 ∷ 0 ∷ []) ∷ (3 ∷ 7 ∷ 8 ∷ 9 ∷ []) ∷ [])
      ((packet-IsPacket, omega arith), ((packet-IsPacket, omega arith), tt))
      (omega arith, (omega arith, (omega arith, tt))) refl

abbrev frame : List ℕ
frame = json_frame (b'{' ∷ b'}' ∷ [])

json_stream_example :
    (c : Cacher) × (receive_all zeros parse_task_json_data
        (create zeros default_cacher_size)
        ((0 ∷ 0 ∷ 0 ∷ []) ∷ (2 ∷ b'{' ∷ b'}' ∷ 0 ∷ 0 ∷ []) ∷ (0 ∷ 2 ∷ b'{' ∷ b'}' ∷ []) ∷ [])
      ≡ some (frame ∷ frame ∷ [], c))
    × (contents c ≡ [])
json_stream_example =
    json_stream zeros 6 (frame ∷ frame ∷ [])
      ((0 ∷ 0 ∷ 0 ∷ []) ∷ (2 ∷ b'{' ∷ b'}' ∷ 0 ∷ 0 ∷ []) ∷ (0 ∷ 2 ∷ b'{' ∷ b'}' ∷ []) ∷ [])
      (
        (record { text = b'}' ∷ []; framed = refl; short = omega arith }, omega arith),
        ((record { text = b'}' ∷ []; framed = refl; short = omega arith }, omega arith), tt),
      )
      (omega arith, (omega arith, (omega arith, tt))) refl

parse_task_json_data_total_example :
    (v : Verdict) × (parse_task_json_data (7 ∷ frame) ≡ some v)
    × ((v.get_valid ≡ false) ⊎ ((v.out_start ≤ v.out_end) × (v.out_end < 7)))
parse_task_json_data_total_example = parse_task_json_data_total (7 ∷ frame) (omega arith)

pkg_size_lem_example : pkg_size 2 0x90 ≡ 0xff90
pkg_size_lem_example = pkg_size_lem 2 0x90 (omega arith) (omega arith)

parse_rtp_rtcp_rtsp_data_cases_example :
    (IsPair (b'O' ∷ b'P' ∷ []) × (parse_rtp_rtcp_rtsp_data (b'O' ∷ b'P' ∷ []) ≡ none))
    ⊎ ((¬ IsPair (b'O' ∷ b'P' ∷ []))
        × Finds (b'O' ∷ b'P' ∷ []) (parse_rtp_rtcp_rtsp_data (b'O' ∷ b'P' ∷ [])))
parse_rtp_rtcp_rtsp_data_cases_example = parse_rtp_rtcp_rtsp_data_cases (b'O' ∷ b'P' ∷ [])

abbrev message : List ℕ
message = b'P' ∷ 13 ∷ 10 ∷ 13 ∷ 10 ∷ b'O' ∷ []

parse_message_example :
    ((parse_rtp_rtcp_rtsp_data (b'O' ∷ message) ≡ some (verdict false 0 1 0))
      × Quiet (b'O' ∷ message) 1 4)
    ⊎ ((j : ℕ) × (parse_rtp_rtcp_rtsp_data (b'O' ∷ message) ≡ some (verdict true 0 (j + 3) 0))
        × Last (b'O' ∷ message) 1 4 j)
parse_message_example = parse_message b'O' message (omega arith) (omega arith) (omega arith)
