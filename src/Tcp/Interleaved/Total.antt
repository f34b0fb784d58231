-- ===== src/Tcp/Interleaved/Total.antt =====
-- `parseRtpRtcpRtspData` on any bytes that a cacher can hold.
use rtsp_server.Base.{
  ℕ, ◌+◌, ◌-◌, ◌≤◌, ◌<◌, ◌≡◌, ◌≢◌, refl, ap, sym, subst, ◌∙◌, ◌⊎◌, inl, inr, true, false, List, [],
  ◌∷◌, Option, none, some, arith, ltb, leb, Bool-cases, length, leb→le, le→ltb, lt→leb,
}
use native.Mathlib.Decide.{ℕ_discrete}
use rtsp_server.Tcp.Cacher.{Verdict, verdict, size_limit}
use rtsp_server.Tcp.Cacher.Drain.{Framer}
use rtsp_server.Tcp.Interleaved.{
  rtsp_buffer_size, pkg_size, scan_end, packet_round, parse_rtp_rtcp_rtsp_data,
}
use rtsp_server.Tcp.Interleaved.Scan.{
  Last, Quiet, starts_message, message_round_short, message_round_pair, parse_message,
  parse_message_long,
}

-- A verdict, and a packet within the bytes if it claims one.
abbrev pub Finds : List ℕ → Option Verdict → Type 0
Finds d r =
    (v : Verdict) × (r ≡ some v)
    × ((v.get_valid ≡ false) ⊎ ((v.out_start ≤ v.out_end) × (v.out_end < length d)))

-- Two bytes of which the first is no `$`.
abbrev pub IsPair : List ℕ → Type 0
IsPair d = (a : ℕ) × (b : ℕ) × (d ≡ a ∷ b ∷ []) × (a ≢ b'$')

Finds-nothing :
    (d : List ℕ) (end : ℕ) (r : Option Verdict) → r ≡ some (verdict false 0 end 0) → Finds d r
Finds-nothing d end r e = (verdict false 0 end 0, e, inl refl)

packet_round-Finds :
    (a b c e : ℕ) (rest : List ℕ) → let d = a ∷ b ∷ c ∷ e ∷ rest in Finds d (packet_round d)
unfolding packet_round
packet_round-Finds a b c e rest =
    let d = a ∷ b ∷ c ∷ e ∷ rest in
    elim (Bool-cases (ltb (length d) (pkg_size c e + 4))) [
      | inl cut ↦ rw cut (Finds-nothing d 1 _ refl)
      | inr whole ↦
          rw whole (verdict true 0 (pkg_size c e + 4 - 1) 0, refl, inr (omega arith, ground arith))
    ]

dollar-Finds : (rest : List ℕ) → Finds (b'$' ∷ rest) (parse_rtp_rtcp_rtsp_data (b'$' ∷ rest))
unfolding parse_rtp_rtcp_rtsp_data
dollar-Finds [] = Finds-nothing (b'$' ∷ []) 0 _ refl
dollar-Finds (b ∷ []) = Finds-nothing (b'$' ∷ b ∷ []) 0 _ refl
dollar-Finds (b ∷ c ∷ []) = Finds-nothing (b'$' ∷ b ∷ c ∷ []) 0 _ refl
dollar-Finds (b ∷ c ∷ e ∷ rest) =
    let d = b'$' ∷ b ∷ c ∷ e ∷ rest in
    rw (lt→leb (length d) 0 (omega arith), le→ltb (length d) 4 (omega arith))
      (packet_round-Finds b'$' b c e rest)

alone : (c : ℕ) → c ≢ b'$' → parse_rtp_rtcp_rtsp_data (c ∷ []) ≡ some (verdict false 0 1 0)
unfolding parse_rtp_rtcp_rtsp_data
alone c ne = ground arith

found :
    (c : ℕ) (rest : List ℕ)
    → ((parse_rtp_rtcp_rtsp_data (c ∷ rest) ≡ some (verdict false 0 1 0))
        × Quiet (c ∷ rest) 1 (length rest - 2))
      ⊎ ((j : ℕ) × (parse_rtp_rtcp_rtsp_data (c ∷ rest) ≡ some (verdict true 0 (j + 3) 0))
          × Last (c ∷ rest) 1 (length rest - 2) j)
    → Finds (c ∷ rest) (parse_rtp_rtcp_rtsp_data (c ∷ rest))
found c rest (inl (e, q)) = Finds-nothing (c ∷ rest) 1 _ e
found c rest (inr (j, e, l)) = (verdict true 0 (j + 3) 0, e, inr (omega arith, omega (arith, l.1)))

message-Finds :
    (c : ℕ) (rest : List ℕ)
    → c ≢ b'$'
    → length rest ≢ 1
    → Finds (c ∷ rest) (parse_rtp_rtcp_rtsp_data (c ∷ rest))
unfolding scan_end
message-Finds c [] ne h = rw (alone c ne) (Finds-nothing (c ∷ []) 1 _ refl)
message-Finds c (a ∷ []) ne h = absurd (h refl)
message-Finds c (a ∷ b ∷ []) ne h =
    rw
      (
        starts_message c (a ∷ b ∷ []) ne (omega arith),
        message_round_short (c ∷ a ∷ b ∷ []) (omega arith) (omega arith),
      )
      (Finds-nothing (c ∷ a ∷ b ∷ []) 1 _ refl)
message-Finds c (a ∷ b ∷ e ∷ more) ne h =
    let rest = a ∷ b ∷ e ∷ more in
    elim (Bool-cases (leb (length rest) rtsp_buffer_size)) [
      | inl short ↦ found c rest (parse_message c rest ne (omega arith) (leb→le _ _ short))
      | inr long ↦
          Finds-nothing (c ∷ rest) rtsp_buffer_size _ (parse_message_long c rest ne (ground arith))
    ]

parse_pair : (d : List ℕ) → IsPair d → parse_rtp_rtcp_rtsp_data d ≡ none
parse_pair d (a, b, e, ne) =
    rw e (starts_message a (b ∷ []) ne (omega arith) ∙ message_round_pair a b)

parse-Finds : (d : List ℕ) → ¬ IsPair d → Finds d (parse_rtp_rtcp_rtsp_data d)
unfolding parse_rtp_rtcp_rtsp_data
parse-Finds [] not_pair = Finds-nothing [] 0 _ refl
parse-Finds (c ∷ rest) not_pair = elim (ℕ_discrete c b'$') [
  | yes dollar ↦
      subst (λ x. Finds (x ∷ rest) (parse_rtp_rtcp_rtsp_data (x ∷ rest))) (sym dollar)
        (dollar-Finds rest)
  | no other ↦
      message-Finds c rest other (not_one rest (λ b e. not_pair (c, b, ap (λ l. c ∷ l) e, other)))
]
  where
    not_one : (rest : List ℕ) → ((b : ℕ) → rest ≡ b ∷ [] → ⊥) → length rest ≢ 1
    not_one [] h e = absurd (omega arith)
    not_one (b ∷ []) h e = h b refl
    not_one (b ∷ c ∷ rest) h e = absurd (omega arith)

same_first : {a b a' b' : ℕ} → ◌≡◌ {A = List ℕ} (a ∷ b ∷ []) (a' ∷ b' ∷ []) → a ≡ a'
same_first e = cc

IsPair-or_not : (d : List ℕ) → IsPair d ⊎ ¬ IsPair d
IsPair-or_not [] = inr (λ (a, b, e, ne). cc)
IsPair-or_not (a ∷ []) = inr (λ (a', b, e, ne). cc)
IsPair-or_not (a ∷ b ∷ []) = elim (ℕ_discrete a b'$') [
  | yes dollar ↦ inr (λ (a', b', e, ne). ne (sym (same_first e) ∙ dollar))
  | no other ↦ inl (a, b, refl, other)
]
IsPair-or_not (a ∷ b ∷ c ∷ d) = inr (λ (a', b', e, ne). cc)

-- Two bytes that begin a message make the analyzer read on outside of them. On anything else
-- it ends, reads nothing outside, and claims no packet that is not within it.
pub parse_rtp_rtcp_rtsp_data_cases :
    (d : List ℕ)
    → (IsPair d × (parse_rtp_rtcp_rtsp_data d ≡ none))
      ⊎ ((¬ IsPair d) × Finds d (parse_rtp_rtcp_rtsp_data d))
parse_rtp_rtcp_rtsp_data_cases d = elim (IsPair-or_not d) [
  | inl pair ↦ inl (pair, parse_pair d pair)
  | inr other ↦ inr (other, parse-Finds d other)
]

pub rtsp_within :
    (w : List ℕ) (v : Verdict)
    → length w ≤ size_limit
    → parse_rtp_rtcp_rtsp_data w ≡ some v
    → v.get_valid ≡ true
    → (v.out_start ≤ v.out_end) × (v.out_end < length w)
rtsp_within w v h e valid =
    let (u, p, q) = parse-Finds w (λ pair. absurd (cc (parse_pair w pair))) in
    let same : u ≡ v = cc in
    subst (λ x. (x.out_start ≤ x.out_end) × (x.out_end < length w)) same
      (elim q [
        | inl invalid ↦ absurd (not_both (sym (rw same valid) ∙ invalid))
        | inr inside ↦ inside
      ])
  where
    not_both : true ≡ false → ⊥
    not_both x = cc

abbrev pub rtsp_framer : Framer
rtsp_framer = record { analyze = parse_rtp_rtcp_rtsp_data; within = rtsp_within }
