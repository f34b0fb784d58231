-- ===== src/Rtp/ReceptionStats/Gaps.antt =====
-- The gaps between the packets.
use rtsp_server.Base.{
  ℕ, zero, suc, ◌+◌, ◌-◌, ◌/◌, ◌≤◌, ◌<◌, ◌≡◌, ◌≢◌, refl, ◌∙◌, true, not, ◌&&◌, min, max, arith, ltb,
  ltb→lt, ◌==◌, Bool-cases, inl, inr,
}
use rtsp_server.Rtp.ReceptionStats.{Timeval, Stats, carry, microseconds, gap_usec, note_gap}

-- The loop with as much fuel as there are whole seconds ends with one second at most.
carry_lem :
    (fuel : ℕ) (t : Timeval)
    → t.tv_usec / 1_000_000 ≤ fuel
    → (microseconds (carry fuel t) ≡ microseconds t) × ((carry fuel t).tv_usec ≤ 1_000_000)
unfolding carry microseconds
carry_lem zero t h = (refl, omega arith)
carry_lem (suc fuel) t h = elim (Bool-cases (ltb 1_000_000 t.tv_usec)) [
  | inl more ↦
      (let (total, small) =
          carry_lem fuel (record { tv_sec = t.tv_sec + 1; tv_usec = t.tv_usec - 1_000_000 })
            (ground arith) in
        let big = ltb→lt _ _ more in rw more (total ∙ omega arith, small))
  | inr enough ↦ rw enough (refl, ground arith)
]

gap_usec_lem :
    (now last : Timeval)
    → microseconds last ≤ microseconds now
    → microseconds now < microseconds last + 0x1_0000_0000
    → gap_usec now last ≡ microseconds now - microseconds last
unfolding gap_usec
gap_usec_lem now last order near = omega arith

-- With the time of the packet before known, neither of its parts 0, and a gap from it that is not
-- negative and below 2^32 microseconds: the extremes take the gap, the sum grows by it and keeps
-- one second at most in its microseconds, and the time is noted.
pub note_gap_lem :
    (s : Stats) (now : Timeval)
    → let last = s.last_packet_reception_time in
      last.tv_sec ≢ 0
      → last.tv_usec ≢ 0
      → microseconds last ≤ microseconds now
      → microseconds now < microseconds last + 0x1_0000_0000
      → let gap = microseconds now - microseconds last in
        let s' = note_gap s now in
        (s'.max_inter_packet_gap_us ≡ max s.max_inter_packet_gap_us gap)
        × (s'.min_inter_packet_gap_us ≡ min s.min_inter_packet_gap_us gap)
        × (microseconds s'.total_inter_packet_gaps ≡ microseconds s.total_inter_packet_gaps + gap)
        × (s'.total_inter_packet_gaps.tv_usec ≤ 1_000_000)
        × (s'.last_packet_reception_time ≡ now)
unfolding note_gap microseconds
note_gap_lem s now sec usec order near =
    let timed : (not (last.tv_sec == 0) && not (last.tv_usec == 0)) ≡ true = ground arith in
    let gap_is : gap_usec now last ≡ microseconds now - microseconds last =
      gap_usec_lem now last order near in
    let (total, small) =
      carry_lem (usec' / 1_000_000) (record { tv_sec = gaps.tv_sec; tv_usec = usec' })
        (omega arith) in
    rw timed (ground arith, ground arith, total ∙ omega arith, small, refl)
  where
    last : Timeval
    last = s.last_packet_reception_time

    gaps : Timeval
    gaps = s.total_inter_packet_gaps

    usec' : ℕ
    usec' = gaps.tv_usec + gap_usec now last
