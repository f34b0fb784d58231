-- ===== src/Rtp/ReceptionStats/Sequence.antt =====
-- Extended sequence numbers: how a 16-bit number is placed near the highest one.
use rtsp_server.Base.{
  ℕ, ◌+◌, ◌-◌, ◌*◌, ◌/◌, ◌%◌, ◌≤◌, ◌<◌, ◌≡◌, ◌↔◌, ◌⊎◌, inl, inr, ap, ◌∙◌, true, false, ◌&&◌, min,
  max, arith, ltb, Bool-cases, lt→ltb, if◌then◌else◌, bit_or, or_disjoint, add32, sub32,
}
use rtsp_server.Rtp.ReceptionStats.{Stats, seq_num_ahead, seq_num_behind, seq_num_lt, note_seq_num}

-- For 16-bit numbers the comparison is the one of serial numbers: s2 lies less than half a circle ahead of s1.
pub seq_num_lt_iff :
    (s1 s2 : ℕ)
    → s1 < 0x1_0000
    → s2 < 0x1_0000
    → (seq_num_lt s1 s2 ≡ true)
      ↔ (0 < (s2 + 0x1_0000 - s1) % 0x1_0000) × ((s2 + 0x1_0000 - s1) % 0x1_0000 < 0x8000)
unfolding seq_num_lt
seq_num_lt_iff s1 s2 h1 h2 = ground arith

pub cycle-or : (q r : ℕ) → r < 0x1_0000 → bit_or (q * 0x1_0000) r ≡ q * 0x1_0000 + r
cycle-or q r h = or_disjoint 16 q r h

-- What a packet with the extended number `ext` does to the two ends.
abbrev pub Placed : Stats → ℕ → Stats → Type 0
Placed s ext s' =
    (s'.highest_ext_seq_num_received ≡ max s.highest_ext_seq_num_received ext)
    × (s'.base_ext_seq_num_received ≡ min s.base_ext_seq_num_received ext)

abbrev pub Near : ℕ → ℕ → Type 0
Near highest ext = (ext < highest + 0x8000) × (highest < ext + 0x8000)

seq_num_ahead_lem :
    (h ext : ℕ)
    → h < ext
    → ext < h + 0x8000
    → ext < 0x1_0000_0000
    → (seq_num_lt (h % 0x1_0000) (ext % 0x1_0000) ≡ true) × (seq_num_ahead h (ext % 0x1_0000) ≡ ext)
unfolding seq_num_ahead seq_num_lt
seq_num_ahead_lem h ext lt near small = (
  ground arith,
  ap (λ (c : ℕ). bit_or c (ext % 0x1_0000)) cycle ∙ cycle-or _ _ (omega arith) ∙ omega arith,
)
  where
    cycle :
        (if ltb 0x8000 (sub32 (ext % 0x1_0000) (h % 0x1_0000))
          then add32 (h / 0x1_0000 * 0x1_0000) 0x1_0000
          else h / 0x1_0000 * 0x1_0000)
        ≡ ext / 0x1_0000 * 0x1_0000
    cycle = ground arith

seq_num_behind_lem :
    (h ext : ℕ)
    → ext ≤ h
    → h < ext + 0x8000
    → h < 0x1_0000_0000
    → (seq_num_lt (h % 0x1_0000) (ext % 0x1_0000) ≡ false)
      × (seq_num_behind h (ext % 0x1_0000) ≡ ext)
unfolding seq_num_behind seq_num_lt
seq_num_behind_lem h ext le near small = (
  ground arith,
  ap (λ (c : ℕ). bit_or c (ext % 0x1_0000)) cycle ∙ cycle-or _ _ (omega arith) ∙ omega arith,
)
  where
    cycle :
        (if ltb 0x8000 (sub32 (ext % 0x1_0000) (h % 0x1_0000))
            && ltb (sub32 (ext % 0x1_0000) (h % 0x1_0000)) 0x8000_0000
          then sub32 (h / 0x1_0000 * 0x1_0000) 0x1_0000
          else h / 0x1_0000 * 0x1_0000)
        ≡ ext / 0x1_0000 * 0x1_0000
    cycle = ground arith

max_lt : (a b : ℕ) → a < b → max a b ≡ b
max_lt a b h = omega arith

-- A packet, not the first one, whose extended number is less than half a circle from the highest
-- one is placed there, before or behind it; where the numbers fit in 32 bits and the base is not
-- above the highest.
pub note_seq_num_lem :
    (s : Stats) (ext : ℕ)
    → Near s.highest_ext_seq_num_received ext
    → s.base_ext_seq_num_received ≤ s.highest_ext_seq_num_received
    → 1 < s.total_num_packets_received
    → s.highest_ext_seq_num_received < 0x1_0000_0000
    → ext < 0x1_0000_0000
    → Placed s ext (note_seq_num s (ext % 0x1_0000))
unfolding note_seq_num
note_seq_num_lem s ext (above, below) order many small_h small =
    elim (decide_lt s.highest_ext_seq_num_received ext) [
      | inl lt ↦
          let (is_lt, placed) =
            seq_num_ahead_lem s.highest_ext_seq_num_received ext lt above small in
          rw (is_lt, placed, lt→ltb _ _ lt) (omega arith, omega arith)
      | inr le ↦
          let (is_lt, placed) =
            seq_num_behind_lem s.highest_ext_seq_num_received ext le below small_h in
          elim (Bool-cases (ltb ext s.base_ext_seq_num_received)) [
            | inl first ↦ rw (is_lt, placed, lt→ltb _ _ many, first) (omega arith, ground arith)
            | inr later ↦ rw (is_lt, placed, lt→ltb _ _ many, later) (omega arith, ground arith)
          ]
    ]
  where
    decide_lt : (a b : ℕ) → (a < b) ⊎ (b ≤ a)
    decide_lt a b = ground arith
