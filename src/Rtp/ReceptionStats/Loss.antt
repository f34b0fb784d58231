-- ===== src/Rtp/ReceptionStats/Loss.antt =====
-- What totalNumPacketsExpected says of a run of packets.
use rtsp_server.Base.{ℕ, ◌+◌, ◌%◌, ◌≤◌, ◌<◌, ◌≡◌, refl, List, [], ◌∷◌, min, max, arith, length}
use rtsp_server.Rtp.ReceptionStats.{create_at, total_num_packets_expected}
use rtsp_server.Rtp.ReceptionStats.Run.{
  Arrival, arrive_all, arrive_all_lem, InWindow, highest_of, lowest_of,
}

-- Every packet has the number behind the one before it, and none is lost or reordered.
abbrev pub Consecutive : ℕ → List Arrival → Type 0
Consecutive h [] = Unit {0}
Consecutive h (p ∷ ps) = (p.ext ≡ h + 1) × (p.size < 0x1_0000_0000) × Consecutive p.ext ps

highest_of-Consecutive :
    (h : ℕ) (ps : List Arrival) → Consecutive h ps → highest_of h ps ≡ h + length ps
highest_of-Consecutive h [] c = omega arith
highest_of-Consecutive h (p ∷ ps) (next, small, later) =
    let is_max : max h p.ext ≡ p.ext = omega arith in
    rw is_max (omega (arith, highest_of-Consecutive p.ext ps later))

lowest_of-Consecutive :
    (b h : ℕ) (ps : List Arrival) → b ≤ h → Consecutive h ps → lowest_of b ps ≡ b
lowest_of-Consecutive b h [] le c = refl
lowest_of-Consecutive b h (p ∷ ps) le (next, small, later) =
    let is_min : min b p.ext ≡ b = omega arith in
    rw is_min (lowest_of-Consecutive b p.ext ps (omega arith) later)

InWindow-Consecutive :
    (h : ℕ) (ps : List Arrival) → h + length ps < 0x1_0000_0000 → Consecutive h ps → InWindow h ps
InWindow-Consecutive h [] few c = c
InWindow-Consecutive h (p ∷ ps) few (next, small, later) =
    let is_max : max h p.ext ≡ p.ext = omega arith in
    (
      (omega arith, omega arith),
      omega arith,
      small,
      rw is_max (InWindow-Consecutive p.ext ps (omega arith) later),
    )

-- After a run of packets that arrive in order and without a loss, over any number of wraps of the
-- 16-bit number, the count of packets received is one more than the count expected; under the
-- conditions of `arrive_all_lem`.
pub total_num_packets_expected_lem :
    (ssrc : ℕ) (p : Arrival) (ps : List Arrival)
    → 0x1_0000 ≤ p.ext
    → p.ext < 0x2_0000
    → p.size < 0x1_0000_0000
    → Consecutive p.ext ps
    → p.ext + length ps < 0x1_0000_0000
    → let s = arrive_all (create_at ssrc (p.ext % 0x1_0000)) (p ∷ ps) in
      (s.total_num_packets_received ≡ 1 + length ps)
      × (total_num_packets_expected s + 1 ≡ s.total_num_packets_received)
unfolding total_num_packets_expected
total_num_packets_expected_lem ssrc p ps above below small run few =
    let tally =
      arrive_all_lem ssrc p ps above below small (InWindow-Consecutive p.ext ps few run)
        (omega arith) in
    (
      tally.total_is,
      omega (
        arith,
        tally.total_is,
        tally.highest_is,
        tally.base_is,
        highest_of-Consecutive p.ext ps run,
        lowest_of-Consecutive p.ext p.ext ps (omega arith) run,
      ),
    )
