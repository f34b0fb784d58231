-- ===== src/Rtp/ReceptionStats/Tally.antt =====
-- The numbers that the statistics stand for, and what each part of noteIncomingPacket makes of them.
use rtsp_server.Base.{
  ℕ, ◌+◌, ◌*◌, ◌%◌, ◌<◌, ◌≡◌, refl, ap, ap₂, ◌∙◌, Bool, true, false, arith, not, ◌&&◌, ◌==◌,
  if◌then◌else◌, Bool-cases, inl, inr,
}
use rtsp_server.Rtp.ReceptionStats.{Timeval, Stats, count_packet, note_seq_num, note_gap}

-- m_totalBytesReceived_hi and _lo as one number.
abbrev pub total_bytes : Stats → ℕ
total_bytes s = s.total_bytes_received_hi * 0x1_0000_0000 + s.total_bytes_received_lo

-- The numbers that the statistics stand for.
pub record Tally (s : Stats) (highest base total bytes : ℕ) : Type 0 where
  pub seen : s.have_seen_initial_sequence_number ≡ true
  pub highest_is : s.highest_ext_seq_num_received ≡ highest
  pub base_is : s.base_ext_seq_num_received ≡ base
  pub total_is : s.total_num_packets_received ≡ total
  pub bytes_are : total_bytes s ≡ bytes
  pub lo_fits : s.total_bytes_received_lo < 0x1_0000_0000
  pub hi_fits : s.total_bytes_received_hi < 0x1_0000_0000

count_packet_bytes :
    (s : Stats) (size : ℕ)
    → s.total_bytes_received_lo < 0x1_0000_0000
    → s.total_bytes_received_hi < 0x1_0000_0000
    → size < 0x1_0000_0000
    → let s' = count_packet s size in
      (total_bytes s' ≡ (total_bytes s + size) % 0x1_0000_0000_0000_0000)
      × (s'.total_bytes_received_lo < 0x1_0000_0000)
      × (s'.total_bytes_received_hi < 0x1_0000_0000)
unfolding count_packet
count_packet_bytes s size hl hh hs = (ground arith, ground arith, ground arith)

-- The counters and `m_haveSeenInitialSequenceNumber` are the same.
pub record SameCounts (s s' : Stats) : Type 0 where
  pub same_seen : s'.have_seen_initial_sequence_number ≡ s.have_seen_initial_sequence_number
  pub same_total : s'.total_num_packets_received ≡ s.total_num_packets_received
  pub same_hi : s'.total_bytes_received_hi ≡ s.total_bytes_received_hi
  pub same_lo : s'.total_bytes_received_lo ≡ s.total_bytes_received_lo

nothing_counted : (s : Stats) → SameCounts s s
nothing_counted s = record { same_seen = refl; same_total = refl; same_hi = refl; same_lo = refl }

SameCounts-if :
    (s s' s'' : Stats) (b : Bool)
    → SameCounts s s'
    → SameCounts s s''
    → SameCounts s (if b then s' else s'')
SameCounts-if s s' s'' true h h' = h
SameCounts-if s s' s'' false h h' = h'

pub note_seq_num-SameCounts : (s : Stats) (n : ℕ) → SameCounts s (note_seq_num s n)
unfolding note_seq_num
note_seq_num-SameCounts s n =
    SameCounts-if s _ _ _ (SameCounts-if s _ _ _ highest (nothing_counted s))
      (SameCounts-if s _ _ _ base (nothing_counted s))
  where
    highest : {h : ℕ} → SameCounts s (record s { highest_ext_seq_num_received = h })
    highest = record { same_seen = refl; same_total = refl; same_hi = refl; same_lo = refl }

    base : {b : ℕ} → SameCounts s (record s { base_ext_seq_num_received = b })
    base = record { same_seen = refl; same_total = refl; same_hi = refl; same_lo = refl }

pub SameCounts-Tally :
    (s s' : Stats) (h b t y h' b' : ℕ)
    → SameCounts s s'
    → s'.highest_ext_seq_num_received ≡ h'
    → s'.base_ext_seq_num_received ≡ b'
    → Tally s h b t y
    → Tally s' h' b' t y
SameCounts-Tally s s' h b t y h' b' same highest base tally = record {
  seen = same.same_seen ∙ tally.seen;
  highest_is = highest;
  base_is = base;
  total_is = same.same_total ∙ tally.total_is;
  bytes_are = ap₂ (λ hi lo. hi * 0x1_0000_0000 + lo) same.same_hi same.same_lo ∙ tally.bytes_are;
  lo_fits = omega (arith, same.same_lo, tally.lo_fits);
  hi_fits = omega (arith, same.same_hi, tally.hi_fits);
}

pub count_packet-Tally :
    (s : Stats) (h b t y size : ℕ)
    → Tally s h b t y
    → t + 1 < 0x1_0000_0000
    → size < 0x1_0000_0000
    → Tally (count_packet s size) h b (t + 1) ((y + size) % 0x1_0000_0000_0000_0000)
unfolding count_packet
count_packet-Tally s h b t y size tally few small =
    let (bytes, lo, hi) = count_packet_bytes s size tally.lo_fits tally.hi_fits small in
    record {
      seen = tally.seen;
      highest_is = tally.highest_is;
      base_is = tally.base_is;
      total_is = omega (arith, tally.total_is);
      bytes_are = bytes ∙ ap (λ (v : ℕ). (v + size) % 0x1_0000_0000_0000_0000) tally.bytes_are;
      lo_fits = lo;
      hi_fits = hi;
    }

pub note_gap-Tally :
    (s : Stats) (h b t y : ℕ) (now : Timeval) → Tally s h b t y → Tally (note_gap s now) h b t y
unfolding note_gap
note_gap-Tally s h b t y now tally = elim (Bool-cases timed) [
  | inl yes_timed ↦ rw yes_timed (
      SameCounts-Tally s _ h b t y h b
        (record { same_seen = refl; same_total = refl; same_hi = refl; same_lo = refl })
        tally.highest_is tally.base_is tally)
  | inr untimed ↦ rw untimed (
      SameCounts-Tally s _ h b t y h b
        (record { same_seen = refl; same_total = refl; same_hi = refl; same_lo = refl })
        tally.highest_is tally.base_is tally)
]
  where
    timed : Bool
    timed =
        not (s.last_packet_reception_time.tv_sec == 0)
        && not (s.last_packet_reception_time.tv_usec == 0)
