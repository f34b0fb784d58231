-- ===== src/Tcp/Interleaved/Scan.antt =====
-- The search of `parseRtpRtcpRtspData` for the end of an RTSP message.
use rtsp_server.Base.{
  ℕ, zero, suc, ◌+◌, ◌-◌, ◌≤◌, ◌<◌, ◌≡◌, ◌≢◌, refl, ap, ◌∙◌, ◌⊎◌, inl, inr, Bool, true, false, List,
  [], ◌∷◌, Option, none, some, arith, ◌==◌, if◌then◌else◌, ◌>>=◌, Bool-cases, length, get_elem?_lt,
  get_elem?_ge, lt→ltb, le→ltb, lt→leb, ==_iff,
}
use rtsp_server.Tcp.Cacher.{verdict}
use rtsp_server.Tcp.Interleaved.{
  rtsp_buffer_size, ends_at, scan_end, message_round, parse_rtp_rtcp_rtsp_data,
}

ends_at_total : (d : List ℕ) (i : ℕ) → i + 3 < length d → (b : Bool) × (ends_at d i ≡ some b)
unfolding ends_at
ends_at_total d i h =
    let (a, p) = get_elem?_lt d i (omega arith) in
    let (b, q) = get_elem?_lt d (i + 1) (omega arith) in
    let (c, r) = get_elem?_lt d (i + 2) (omega arith) in
    let (e, s) = get_elem?_lt d (i + 3) h in
    (
      (if a == b'\r'
          then (if b == b'\n' then (if c == b'\r' then e == b'\n' else false) else false)
          else false),
      rw (p, q, r, s) (cases (a == b'\r') (b == b'\n') (c == b'\r') (e == b'\n')),
    )
  where
    cases :
        (a b c e : Bool)
        → (if a then (if b then (if c then some e else some false) else some false) else some false)
          ≡ some (if a then (if b then (if c then e else false) else false) else false)
    cases true true true e = refl
    cases true true false e = refl
    cases true false c e = refl
    cases false b c e = refl

-- No empty line ends at `j + 3` for a `j` from `lo` up to `hi`.
abbrev pub Quiet : List ℕ → ℕ → ℕ → Type 0
Quiet d lo hi = (j : ℕ) → lo ≤ j → j < hi → ends_at d j ≡ some false

-- The last empty line that begins from `lo` up to `hi` begins at `j`.
abbrev pub Last : List ℕ → ℕ → ℕ → ℕ → Type 0
Last d lo hi j = (lo ≤ j) × (j < hi) × (ends_at d j ≡ some true) × Quiet d (suc j) hi

-- What the search comes to: nothing found, or the last one.
abbrev Scanned : List ℕ → ℕ → ℕ → ℕ → Bool → Option (ℕ × Bool) → Type 0
Scanned d lo hi out_end valid r =
    ((r ≡ some (out_end, valid)) × Quiet d lo hi)
    ⊎ ((j : ℕ) × (r ≡ some (j + 3, true)) × Last d lo hi j)

Quiet-step : (d : List ℕ) (i hi : ℕ) → ends_at d i ≡ some false → Quiet d (i + 1) hi → Quiet d i hi
Quiet-step d i hi e q j le lt = elim (Bool-cases (i == j)) [
  | inl here ↦ rw (← (==_iff i j).0 here) e
  | inr later ↦ q j (ground arith) lt
]

-- A match at `i`, and what the rest of the search comes to.
Scanned-hit :
    (d : List ℕ) (i hi out_end : ℕ) (valid : Bool) (r : Option (ℕ × Bool))
    → ends_at d i ≡ some true
    → i < hi
    → Scanned d (i + 1) hi (i + 3) true r
    → Scanned d i hi out_end valid r
Scanned-hit d i hi out_end valid r p lt (inl (e, q)) =
    inr (i, e, (omega arith, lt, p, λ j le. q j (omega arith)))
Scanned-hit d i hi out_end valid r p lt (inr (j, e, l)) = inr (j, e, (omega arith, l.1, l.2, l.3))

Scanned-miss :
    (d : List ℕ) (i hi out_end : ℕ) (valid : Bool) (r : Option (ℕ × Bool))
    → ends_at d i ≡ some false
    → Scanned d (i + 1) hi out_end valid r
    → Scanned d i hi out_end valid r
Scanned-miss d i hi out_end valid r p (inl (e, q)) = inl (e, Quiet-step d i hi p q)
Scanned-miss d i hi out_end valid r p (inr (j, e, l)) = inr (j, e, (omega arith, l.1, l.2, l.3))

scan_end-Scanned :
    (count : ℕ) (d : List ℕ) (i hi out_end : ℕ) (valid : Bool)
    → hi ≡ i + count
    → hi + 3 ≤ length d
    → Scanned d i hi out_end valid (scan_end count d i out_end valid)
unfolding scan_end
scan_end-Scanned zero d i hi out_end valid e h = inl (refl, λ j le lt. absurd (omega arith))
scan_end-Scanned (suc count) d i hi out_end valid e h =
    let (b, p) = ends_at_total d i (omega arith) in
    elim (Bool-cases b) [
      | inl hit ↦
          rw (p, hit)
            (Scanned-hit d i hi out_end valid _ (p ∙ ap some hit) (omega arith)
              (scan_end-Scanned count d (i + 1) hi (i + 3) true (omega arith) h))
      | inr miss ↦
          rw (p, miss)
            (Scanned-miss d i hi out_end valid _ (p ∙ ap some miss)
              (scan_end-Scanned count d (i + 1) hi out_end valid (omega arith) h))
    ]

-- A search that goes on past the bytes shown.
scan_end_past :
    (count : ℕ) (d : List ℕ) (i out_end : ℕ) (valid : Bool)
    → count ≢ 0
    → length d ≤ i
    → scan_end count d i out_end valid ≡ none
unfolding scan_end ends_at
scan_end_past zero d i out_end valid h le = absurd (h refl)
scan_end_past (suc count) d i out_end valid h le = rw (get_elem?_ge d i le)

scan_end_pair :
    (count a b out_end : ℕ) (valid : Bool)
    → 2 ≤ count
    → scan_end count (a ∷ b ∷ []) 1 out_end valid ≡ none
unfolding scan_end ends_at
scan_end_pair zero a b out_end valid h = absurd (omega arith)
scan_end_pair (suc count) a b out_end valid h = elim (Bool-cases (b == b'\r')) [
  | inl cr ↦ rw cr
  | inr other ↦
      rw other (scan_end_past count (a ∷ b ∷ []) 2 out_end valid (omega arith) (omega arith))
]

-- The round where an RTSP message begins, by the number of bytes.
pub message_round_short :
    (d : List ℕ)
    → 3 ≤ length d
    → length d ≤ rtsp_buffer_size + 1
    → message_round d
      ≡ (scan_end (length d - 4) d 1 1 false >>= λ (end, valid). some (verdict valid 0 end 0))
unfolding message_round
message_round_short d h le = rw (le→ltb rtsp_buffer_size (length d - 1) (omega arith)) (
    ap (λ n. scan_end n d 1 1 false >>= λ (end, valid). some (verdict valid 0 end 0)) (omega arith))

message_round_long :
    (d : List ℕ) → rtsp_buffer_size + 1 < length d → message_round d ≡ some (verdict false 0 4096 0)
unfolding message_round scan_end
message_round_long d h = rw (lt→ltb rtsp_buffer_size (length d - 1) (omega arith))

pub message_round_pair : (a b : ℕ) → message_round (a ∷ b ∷ []) ≡ none
unfolding message_round
message_round_pair a b = rw (scan_end_pair 4294967294 a b 1 false (omega arith))

pub starts_message :
    (c : ℕ) (rest : List ℕ)
    → c ≢ b'$'
    → 1 ≤ length rest
    → parse_rtp_rtcp_rtsp_data (c ∷ rest) ≡ message_round (c ∷ rest)
unfolding parse_rtp_rtcp_rtsp_data
starts_message c rest ne h =
    rw (
      lt→leb (suc (length rest)) 0 (omega arith),
      other,
      lt→leb (suc (length rest)) 1 (omega arith),
    )
  where
    other : (c == b'$') ≡ false
    other = ground arith

-- Of at least four and at most 4097 bytes that begin an RTSP message, the packet found goes up to
-- the end of the last empty line among them, later messages included; without an empty line
-- nothing is found, and nothing thrown away.
pub parse_message :
    (c : ℕ) (rest : List ℕ)
    → c ≢ b'$'
    → 3 ≤ length rest
    → length rest ≤ rtsp_buffer_size
    → ((parse_rtp_rtcp_rtsp_data (c ∷ rest) ≡ some (verdict false 0 1 0))
        × Quiet (c ∷ rest) 1 (length rest - 2))
      ⊎ ((j : ℕ) × (parse_rtp_rtcp_rtsp_data (c ∷ rest) ≡ some (verdict true 0 (j + 3) 0))
          × Last (c ∷ rest) 1 (length rest - 2) j)
parse_message c rest ne h le =
    rw
      (
        starts_message c rest ne (omega arith),
        message_round_short (c ∷ rest) (omega arith) (omega arith),
      )
      (elim (scan_end-Scanned (suc (length rest) - 4) (c ∷ rest) 1 (length rest - 2) 1 false
        (omega arith) (omega arith)) [
          | inl (e, q) ↦ inl (rw e, q)
          | inr (j, e, l) ↦ inr (j, rw e, l)
        ])

-- Of more than 4097 bytes that begin an RTSP message nothing is found and nothing thrown away,
-- also where an empty line ends the message.
pub parse_message_long :
    (c : ℕ) (rest : List ℕ)
    → c ≢ b'$'
    → rtsp_buffer_size < length rest
    → parse_rtp_rtcp_rtsp_data (c ∷ rest) ≡ some (verdict false 0 rtsp_buffer_size 0)
parse_message_long c rest ne h =
    starts_message c rest ne (omega arith) ∙ message_round_long (c ∷ rest) (omega arith)
