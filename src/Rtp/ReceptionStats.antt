-- ===== src/Rtp/ReceptionStats.antt =====
-- class RTPReceptionStats (RTPReceptionStats.h, RTPReceptionStats.cpp): the counters, the extended
-- sequence numbers and the gaps between packets. The clock is an argument. Jitter and
-- presentation time are floating point and are left out, with the fields that only they use.
pub mod Sequence
pub mod Tally
pub mod Run
pub mod Gaps
pub mod Loss
use rtsp_server.Base.{
  ℕ, zero, suc, ◌+◌, ◌-◌, ◌*◌, ◌/◌, ◌%◌, Bool, true, false, not, ◌&&◌, List, [], ◌∷◌, Option, none,
  some, ltb, ◌==◌, if◌then◌else◌, bit_or, add32, sub32, wrap32,
}

pub record Timeval : Type 0 where
  pub tv_sec : ℕ
  pub tv_usec : ℕ

pub record Stats : Type 0 where
  pub ssrc : ℕ
  pub num_packets_received_since_last_reset : ℕ
  pub total_num_packets_received : ℕ
  pub total_bytes_received_hi : ℕ
  pub total_bytes_received_lo : ℕ
  pub have_seen_initial_sequence_number : Bool
  pub base_ext_seq_num_received : ℕ
  pub last_reset_ext_seq_num_received : ℕ
  pub highest_ext_seq_num_received : ℕ
  pub last_packet_reception_time : Timeval
  pub min_inter_packet_gap_us : ℕ
  pub max_inter_packet_gap_us : ℕ
  pub total_inter_packet_gaps : Timeval

abbrev pub no_time : Timeval
no_time = record { tv_sec = 0; tv_usec = 0 }

-- The initialiser list that both constructors have.
zeroed : Stats
zeroed = record {
  ssrc = 0;
  num_packets_received_since_last_reset = 0;
  total_num_packets_received = 0;
  total_bytes_received_hi = 0;
  total_bytes_received_lo = 0;
  have_seen_initial_sequence_number = false;
  base_ext_seq_num_received = 0;
  last_reset_ext_seq_num_received = 0;
  highest_ext_seq_num_received = 0;
  last_packet_reception_time = no_time;
  min_inter_packet_gap_us = 0;
  max_inter_packet_gap_us = 0;
  total_inter_packet_gaps = no_time;
}

reset_stats : Stats → Stats
reset_stats s = record s {
  num_packets_received_since_last_reset = 0;
  last_reset_ext_seq_num_received = s.highest_ext_seq_num_received;
}

init_stats : Stats → ℕ → Stats
init_stats s ssrc = reset_stats (record s {
  ssrc = ssrc;
  last_packet_reception_time = no_time;
  min_inter_packet_gap_us = 0x7fff_ffff;
  max_inter_packet_gap_us = 0;
  total_inter_packet_gaps = no_time;
})

init_seq_num : Stats → ℕ → Stats
init_seq_num s seq_num = record s {
  have_seen_initial_sequence_number = true;
  base_ext_seq_num_received = bit_or 0x1_0000 seq_num;
  highest_ext_seq_num_received = bit_or 0x1_0000 seq_num;
}

-- The two constructors.
pub create : ℕ → Stats
create ssrc = init_stats zeroed ssrc

pub create_at : ℕ → ℕ → Stats
create_at ssrc initial_seq = init_stats (init_seq_num zeroed initial_seq) ssrc

pub total_num_packets_expected : Stats → ℕ
total_num_packets_expected s = sub32 s.highest_ext_seq_num_received s.base_ext_seq_num_received

-- diff = s2 - s1 is an `int`.
pub seq_num_lt : ℕ → ℕ → Bool
seq_num_lt s1 s2 =
    if ltb s1 s2 then ltb (s2 - s1) 0x8000 else (if ltb s2 s1 then ltb 0x8000 (s1 - s2) else false)

-- The counters at the start of noteIncomingPacket.
pub count_packet : Stats → ℕ → Stats
count_packet s packet_size =
    let lo = add32 s.total_bytes_received_lo packet_size in
    record s {
      num_packets_received_since_last_reset = add32 s.num_packets_received_since_last_reset 1;
      total_num_packets_received = add32 s.total_num_packets_received 1;
      total_bytes_received_lo = lo;
      total_bytes_received_hi =
          if ltb lo s.total_bytes_received_lo
          then add32 s.total_bytes_received_hi 1
          else s.total_bytes_received_hi;
    }

-- newSeqNum in the two branches, from m_highestExtSeqNumReceived; `(int)` makes a difference
-- negative from 2 ^ 31 on.
seq_num_ahead : ℕ → ℕ → ℕ
seq_num_ahead highest seq_num =
    let difference = sub32 seq_num (highest % 0x1_0000) in
    let seq_num_cycle = highest / 0x1_0000 * 0x1_0000 in
    bit_or (if ltb 0x8000 difference then add32 seq_num_cycle 0x1_0000 else seq_num_cycle) seq_num

seq_num_behind : ℕ → ℕ → ℕ
seq_num_behind highest seq_num =
    let difference = sub32 seq_num (highest % 0x1_0000) in
    let seq_num_cycle = highest / 0x1_0000 * 0x1_0000 in
    bit_or
      (if ltb 0x8000 difference && ltb difference 0x8000_0000
        then sub32 seq_num_cycle 0x1_0000
        else seq_num_cycle)
      seq_num

-- The sequence numbers.
pub note_seq_num : Stats → ℕ → Stats
note_seq_num s seq_num =
    let highest = s.highest_ext_seq_num_received in
    let ahead = seq_num_ahead highest seq_num in
    let behind = seq_num_behind highest seq_num in
    if seq_num_lt (highest % 0x1_0000) seq_num
    then (if ltb highest ahead then record s { highest_ext_seq_num_received = ahead } else s)
    else (if ltb 1 s.total_num_packets_received && ltb behind s.base_ext_seq_num_received
        then record s { base_ext_seq_num_received = behind }
        else s)

-- while (tv_usec > 1000000), on fuel.
carry : ℕ → Timeval → Timeval
carry zero t = t
carry (suc fuel) t =
    let rest = carry fuel (record { tv_sec = t.tv_sec + 1; tv_usec = t.tv_usec - 1_000_000 }) in
    if ltb 1_000_000 t.tv_usec then rest else t

unfoldable pub microseconds : Timeval → ℕ
microseconds t = t.tv_sec * 1_000_000 + t.tv_usec

-- gapUsec: the difference of two `long` truncated to 32 bits.
gap_usec : Timeval → Timeval → ℕ
gap_usec now last = sub32 (wrap32 (microseconds now)) (wrap32 (microseconds last))

-- The gap behind the packet before.
pub note_gap : Stats → Timeval → Stats
note_gap s now =
    let last = s.last_packet_reception_time in
    let gap = gap_usec now last in
    let gaps = s.total_inter_packet_gaps in
    let usec = gaps.tv_usec + gap in
    let noted =
      if not (last.tv_sec == 0) && not (last.tv_usec == 0)
      then record s {
        max_inter_packet_gap_us =
            if ltb s.max_inter_packet_gap_us gap then gap else s.max_inter_packet_gap_us;
        min_inter_packet_gap_us =
            if ltb gap s.min_inter_packet_gap_us then gap else s.min_inter_packet_gap_us;
        total_inter_packet_gaps =
            carry (usec / 1_000_000) (record { tv_sec = gaps.tv_sec; tv_usec = usec });
      }
      else s in
    record noted { last_packet_reception_time = now }

pub note_incoming_packet : Stats → ℕ → ℕ → Timeval → Stats
note_incoming_packet s seq_num packet_size now =
    let seen = if s.have_seen_initial_sequence_number then s else init_seq_num s seq_num in
    note_gap (note_seq_num (count_packet seen packet_size) seq_num) now
