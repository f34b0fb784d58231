-- ===== src/Tests/Rtp.antt =====
-- RTPReceptionStats at concrete packets.
use rtsp_server.Base.{ℕ, ◌+◌, ◌<◌, ◌≡◌, ◌↔◌, true, List, [], ◌∷◌, arith}
use rtsp_server.Rtp.ReceptionStats.{no_time, create_at, seq_num_lt, total_num_packets_expected}
use rtsp_server.Rtp.ReceptionStats.Sequence.{seq_num_lt_iff}
use rtsp_server.Rtp.ReceptionStats.Run.{Arrival, arrive_all, arrive_all_lem}
use rtsp_server.Rtp.ReceptionStats.Tally.{Tally}
use rtsp_server.Rtp.ReceptionStats.Loss.{total_num_packets_expected_lem}

abbrev packet : ℕ → Arrival
packet n = record { ext = n; size = 100; now = no_time }

-- Over the wrap: 65534, then 1, then the late 65535, then 0.
abbrev late_run : List Arrival
late_run = packet 0x2_0001 ∷ packet 0x1_ffff ∷ packet 0x2_0000 ∷ []

abbrev ordered_run : List Arrival
ordered_run = packet 0x1_ffff ∷ packet 0x2_0000 ∷ []

arrive_all_lem_example :
    Tally (arrive_all (create_at 7 0xfffe) (packet 0x1_fffe ∷ late_run)) 0x2_0001 0x1_fffe 4 400
arrive_all_lem_example =
    arrive_all_lem 7 (packet 0x1_fffe) late_run (omega arith) (omega arith) (omega arith)
      (
        (omega arith, omega arith),
        omega arith,
        omega arith,
        (
          (omega arith, omega arith),
          omega arith,
          omega arith,
          ((omega arith, omega arith), omega arith, omega arith, tt),
        ),
      )
      (omega arith)

total_num_packets_expected_lem_example :
    let s = arrive_all (create_at 7 0xfffe) (packet 0x1_fffe ∷ ordered_run) in
    (s.total_num_packets_received ≡ 3)
    × (total_num_packets_expected s + 1 ≡ s.total_num_packets_received)
total_num_packets_expected_lem_example =
    total_num_packets_expected_lem 7 (packet 0x1_fffe) ordered_run (omega arith) (omega arith)
      (omega arith) (omega arith, omega arith, (omega arith, omega arith, tt)) (omega arith)

seq_num_lt_iff_example : (seq_num_lt 0xffff 2 ≡ true) ↔ (0 < 3) × (3 < 0x8000)
seq_num_lt_iff_example = seq_num_lt_iff 0xffff 2 (omega arith) (omega arith)
