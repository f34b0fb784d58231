-- ===== src/Rtp/ReceptionStats/Run.antt =====
-- What the counters and the sequence numbers say after a run of packets.
use rtsp_server.Base.{
  ℕ, ◌+◌, ◌%◌, ◌≤◌, ◌<◌, ◌≡◌, refl, sym, ap, subst, ◌∙◌, false, List, [], ◌∷◌, min, max, arith, ltb,
  if◌then◌else◌, bit_or, length,
}
use rtsp_server.Rtp.ReceptionStats.{
  Timeval, Stats, zeroed, reset_stats, init_stats, init_seq_num, create_at, count_packet,
  note_seq_num, note_gap, seq_num_lt, note_incoming_packet,
}
use rtsp_server.Rtp.ReceptionStats.Sequence.{Near, note_seq_num_lem, cycle-or}
use rtsp_server.Rtp.ReceptionStats.Tally.{
  Tally, count_packet-Tally, note_gap-Tally, SameCounts-Tally, note_seq_num-SameCounts,
}

-- A packet that arrives: its number without the 16-bit wrap, its size and the time.
pub record Arrival : Type 0 where
  pub ext : ℕ
  pub size : ℕ
  pub now : Timeval

abbrev pub arrive : Stats → Arrival → Stats
arrive s p = note_incoming_packet s (p.ext % 0x1_0000) p.size p.now

abbrev pub arrive_all : Stats → List Arrival → Stats
arrive_all s [] = s
arrive_all s (p ∷ ps) = arrive_all (arrive s p) ps

-- What a run of packets after the first has to be: each number is less than half a circle from
-- the highest one before it, and numbers and sizes fit in 32 bits.
abbrev pub InWindow : ℕ → List Arrival → Type 0
InWindow h [] = Unit {0}
InWindow h (p ∷ ps) =
    Near h p.ext × (p.ext < 0x1_0000_0000) × (p.size < 0x1_0000_0000) × InWindow (max h p.ext) ps

-- One more packet, not the first.
arrive-Tally :
    (s : Stats) (h b t y : ℕ) (p : Arrival)
    → Tally s h b t y
    → 1 ≤ t
    → t + 1 < 0x1_0000_0000
    → b ≤ h
    → h < 0x1_0000_0000
    → Near h p.ext
    → p.ext < 0x1_0000_0000
    → p.size < 0x1_0000_0000
    → Tally
        (arrive s p)
        (max h p.ext)
        (min b p.ext)
        (t + 1)
        ((y + p.size) % 0x1_0000_0000_0000_0000)
unfolding note_incoming_packet
arrive-Tally s h b t y p tally some_before few order small_h near small_ext small_size =
    subst
      (λ (seen : Stats).
        Tally (note_gap (note_seq_num (count_packet seen p.size) (p.ext % 0x1_0000)) p.now)
          (max h p.ext) (min b p.ext) (t + 1) ((y + p.size) % 0x1_0000_0000_0000_0000))
      (sym (ap (λ b. if b then s else init_seq_num s (p.ext % 0x1_0000)) tally.seen))
      (note_gap-Tally _ (max h p.ext) (min b p.ext) (t + 1) _ p.now placed)
  where
    counted : Tally (count_packet s p.size) h b (t + 1) ((y + p.size) % 0x1_0000_0000_0000_0000)
    counted = count_packet-Tally s h b t y p.size tally few small_size

    placed :
        Tally
          (note_seq_num (count_packet s p.size) (p.ext % 0x1_0000))
          (max h p.ext)
          (min b p.ext)
          (t + 1)
          ((y + p.size) % 0x1_0000_0000_0000_0000)
    placed =
        let (highest, base) =
          note_seq_num_lem (count_packet s p.size) p.ext
            (omega (arith, counted.highest_is, near.0), omega (arith, counted.highest_is, near.1))
            (omega (arith, counted.highest_is, counted.base_is)) (omega (arith, counted.total_is))
            (omega (arith, counted.highest_is)) small_ext in
        SameCounts-Tally _ _ h b (t + 1) _ (max h p.ext) (min b p.ext) (note_seq_num-SameCounts _ _)
          (highest ∙ ap (λ v. max v p.ext) counted.highest_is)
          (base ∙ ap (λ v. min v p.ext) counted.base_is) counted

abbrev pub highest_of : ℕ → List Arrival → ℕ
highest_of h [] = h
highest_of h (p ∷ ps) = highest_of (max h p.ext) ps

abbrev pub lowest_of : ℕ → List Arrival → ℕ
lowest_of b [] = b
lowest_of b (p ∷ ps) = lowest_of (min b p.ext) ps

abbrev pub bytes_of : ℕ → List Arrival → ℕ
bytes_of y [] = y
bytes_of y (p ∷ ps) = bytes_of ((y + p.size) % 0x1_0000_0000_0000_0000) ps

arrive_all-Tally :
    (s : Stats) (h b t y : ℕ) (ps : List Arrival)
    → Tally s h b t y
    → 1 ≤ t
    → t + length ps < 0x1_0000_0000
    → b ≤ h
    → h < 0x1_0000_0000
    → InWindow h ps
    → Tally (arrive_all s ps) (highest_of h ps) (lowest_of b ps) (t + length ps) (bytes_of y ps)
arrive_all-Tally s h b t y [] tally some_before few order small_h window =
    subst (λ (n : ℕ). Tally s h b n y) (omega arith) tally
arrive_all-Tally s h b t y (p ∷ ps) tally some_before few order small_h
      (near, small_ext, small_size, later) =
    subst
      (λ (n : ℕ).
        Tally (arrive_all (arrive s p) ps) (highest_of (max h p.ext) ps)
          (lowest_of (min b p.ext) ps) n (bytes_of ((y + p.size) % 0x1_0000_0000_0000_0000) ps))
      (omega arith)
      (arrive_all-Tally (arrive s p) (max h p.ext) (min b p.ext) (t + 1) _ ps
        (arrive-Tally s h b t y p tally some_before (omega arith) order small_h near small_ext
          small_size)
        (omega arith) (omega arith) (omega arith) (omega arith) later)

-- The first packet, which the statistics are created for.
note_seq_num_first :
    (s : Stats) (ext : ℕ)
    → s.highest_ext_seq_num_received ≡ ext
    → s.total_num_packets_received ≡ 1
    → note_seq_num s (ext % 0x1_0000) ≡ s
unfolding note_seq_num seq_num_lt
note_seq_num_first s ext highest one =
    let same : seq_num_lt (s.highest_ext_seq_num_received % 0x1_0000) (ext % 0x1_0000) ≡ false =
      ground arith in
    let first : ltb 1 s.total_num_packets_received ≡ false = ground arith in rw (same, first) refl

module _ (ssrc : ℕ) (p : Arrival) (above : 0x1_0000 ≤ p.ext) (below : p.ext < 0x2_0000) where
  created : Stats
  created = create_at ssrc (p.ext % 0x1_0000)

  created-Tally : Tally created p.ext p.ext 0 0
  unfolding created create_at init_stats reset_stats init_seq_num zeroed
  created-Tally =
      let placed : bit_or 0x1_0000 (p.ext % 0x1_0000) ≡ p.ext =
        cycle-or 1 (p.ext % 0x1_0000) (omega arith) ∙ omega arith in
      record {
        seen = refl;
        highest_is = placed;
        base_is = placed;
        total_is = refl;
        bytes_are = refl;
        lo_fits = omega arith;
        hi_fits = omega arith;
      }

  first-Tally : p.size < 0x1_0000_0000 → Tally (arrive created p) p.ext p.ext 1 p.size
  unfolding note_incoming_packet created create_at init_stats init_seq_num reset_stats
  first-Tally small = note_gap-Tally _ p.ext p.ext 1 p.size p.now (
      subst (λ (s : Stats). Tally s p.ext p.ext 1 p.size)
        (sym (
          note_seq_num_first (count_packet created p.size) p.ext counted.highest_is
            counted.total_is))
        (subst (λ (y : ℕ). Tally (count_packet created p.size) p.ext p.ext 1 y) (omega arith)
          counted))
    where
      counted :
          Tally (count_packet created p.size) p.ext p.ext 1 ((0 + p.size) % 0x1_0000_0000_0000_0000)
      counted = count_packet-Tally created p.ext p.ext 0 0 p.size created-Tally (omega arith) small

-- After a first packet, for which the statistics are created, and a run of others, in which each
-- number is less than half a circle away from the highest one before it, lost, late, doubled and
-- wrapped ones included: the highest and the base number are the highest and the lowest one
-- that arrived, the packets are counted, and the two words of the byte count hold the sum of
-- the sizes modulo 2 ^ 64. The number of the first packet is in the cycle that the source starts
-- with, and the numbers, the sizes and the count of packets fit in 32 bits.
pub arrive_all_lem :
    (ssrc : ℕ) (p : Arrival) (ps : List Arrival)
    → 0x1_0000 ≤ p.ext
    → p.ext < 0x2_0000
    → p.size < 0x1_0000_0000
    → InWindow p.ext ps
    → 1 + length ps < 0x1_0000_0000
    → Tally
        (arrive_all (create_at ssrc (p.ext % 0x1_0000)) (p ∷ ps))
        (highest_of p.ext ps)
        (lowest_of p.ext ps)
        (1 + length ps)
        (bytes_of p.size ps)
unfolding created
arrive_all_lem ssrc p ps above below small window few =
    arrive_all-Tally _ p.ext p.ext 1 p.size ps (first-Tally ssrc p above below small) (omega arith)
      few (omega arith) (omega arith) window
