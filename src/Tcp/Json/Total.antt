-- ===== src/Tcp/Json/Total.antt =====
-- `parseTaskJsonData` on any bytes: it ends, and stays within them.
use rtsp_server.Base.{
  ℕ, zero, suc, ◌+◌, ◌-◌, ◌≤◌, ◌<◌, ◌≡◌, refl, sym, subst, ◌∙◌, ◌⊎◌, inl, inr, Bool, true, false,
  ◌||◌, not, List, Option, some, arith, ltb, leb, ◌==◌, ltb→lt, if◌then◌else◌, Bool-cases, length,
  get_elem?_lt, add32, wrap32, word32, load32, htonl,
}
use rtsp_server.Tcp.Cacher.{Verdict, verdict, size_limit}
use rtsp_server.Tcp.Cacher.Drain.{Framer}
use rtsp_server.Tcp.Json.{
  max_json_size, load_size, lacks_brace, Round, skip, stop, json_round, json_loop,
  parse_task_json_data,
}

load_size_total : (d : List ℕ) (i : ℕ) → i + 3 < length d → (n : ℕ) × (load_size d i ≡ some n)
unfolding load_size
load_size_total d i h =
    let (a, p) = get_elem?_lt d i (omega arith) in
    let (b, q) = get_elem?_lt d (i + 1) (omega arith) in
    let (c, r) = get_elem?_lt d (i + 2) (omega arith) in
    let (e, s) = get_elem?_lt d (i + 3) h in (htonl (load32 a b c e), rw (p, q, r, s))

lacks_brace_total : (d : List ℕ) (i : ℕ) → i + 5 < word32 → (b : Bool) × (lacks_brace d i ≡ some b)
unfolding lacks_brace
lacks_brace_total d i h = elim (Bool-cases (ltb (add32 i 5) (length d))) [
  | inl there ↦
      let (a, p) = get_elem?_lt d (i + 5) (omega (arith, ltb→lt _ _ there)) in
      let (b, q) = get_elem?_lt d (i + 4) (omega (arith, ltb→lt _ _ there)) in
      (not (b == b'{'), rw (there, p, q))
  | inr past ↦ (false, rw past)
]

-- What a round of the loop can come to at `i`.
abbrev RoundAt : List ℕ → ℕ → Round → Type 0
RoundAt d i skip = i + 4 < length d
RoundAt d i (stop false e) = Unit
RoundAt d i (stop true e) = (i ≤ e) × (e < length d)

RoundAt-if :
    (d : List ℕ) (i e : ℕ) (lacking : Bool)
    → i + 4 < length d
    → i ≤ e
    → RoundAt d i (if lacking then skip else stop (ltb e (length d)) e)
RoundAt-if d i e true h le = h
RoundAt-if d i e false h le = elim (Bool-cases (ltb e (length d))) [
  | inl y ↦ rw y (le, ltb→lt _ _ y)
  | inr n ↦ rw n tt
]

json_round_total :
    (d : List ℕ) (i : ℕ)
    → length d ≤ size_limit
    → i ≤ size_limit
    → (r : Round) × (json_round d i ≡ some r) × RoundAt d i r
unfolding json_round
json_round_total d i h q = elim (Bool-cases (leb (length d) i || leb (length d) 0)) [
  | inl out ↦ (stop false 0, rw out, tt)
  | inr more ↦ elim (Bool-cases (leb (length d) (add32 i 4))) [
    | inl short ↦ (stop false 0, rw (more, short), tt)
    | inr long ↦
        let there : i + 4 < length d = ground arith in
        let (size, l) = load_size_total d i (omega arith) in
        elim (Bool-cases (ltb max_json_size size)) [
          | inl big ↦ (skip, rw (more, long, l, big), there)
          | inr small ↦
              let (lacking, b) = lacks_brace_total d i (omega arith) in
              (
                (if lacking
                    then skip
                    else stop (ltb (wrap32 (i + 4 + size - 1)) (length d))
                        (wrap32 (i + 4 + size - 1))),
                rw (more, long, l, small, b),
                RoundAt-if d i (wrap32 (i + 4 + size - 1)) lacking there (ground arith),
              )
        ]
  ]
]

-- What the loop finds from `i` on.
abbrev LoopFinds : List ℕ → Option Verdict → Type 0
LoopFinds d r =
    (v : Verdict) × (r ≡ some v)
    × ((v.get_valid ≡ false) ⊎ ((v.out_start ≤ v.out_end) × (v.out_end < length d)))

after_round :
    (d : List ℕ) (i n : ℕ) (next : Option Verdict) (r : Round)
    → RoundAt d i r
    → (i + 4 < length d → LoopFinds d next)
    → LoopFinds d (elim r [ skip ↦ next | stop valid out_end ↦ some (verdict valid i out_end n) ])
after_round d i n next skip at rest = rest at
after_round d i n next (stop false e) at rest = (verdict false i e n, refl, inl refl)
after_round d i n next (stop true e) at rest = (verdict true i e n, refl, inr at)

json_loop_total :
    (fuel : ℕ) (d : List ℕ) (i n : ℕ)
    → length d ≤ size_limit
    → i ≤ length d
    → length d < i + fuel
    → LoopFinds d (json_loop fuel d i n)
unfolding json_loop
json_loop_total zero d i n h le lt = absurd (omega arith)
json_loop_total (suc fuel) d i n h le lt =
    let (r, e, at) = json_round_total d i h (omega arith) in
    rw e (
      after_round d i n (json_loop fuel d (add32 i 1) (add32 n 1)) r at
        (λ there. json_loop_total fuel d (add32 i 1) (add32 n 1) h (omega arith) (omega arith)))

-- On bytes up to the limit of a block `parseTaskJsonData` ends, reads no byte outside of them, and claims no packet that is
-- not within it.
pub parse_task_json_data_total :
    (d : List ℕ)
    → length d ≤ size_limit
    → (v : Verdict) × (parse_task_json_data d ≡ some v)
      × ((v.get_valid ≡ false) ⊎ ((v.out_start ≤ v.out_end) × (v.out_end < length d)))
unfolding parse_task_json_data
parse_task_json_data_total d h = json_loop_total (length d + 1) d 0 0 h (omega arith) (omega arith)

pub json_within :
    (w : List ℕ) (v : Verdict)
    → length w ≤ size_limit
    → parse_task_json_data w ≡ some v
    → v.get_valid ≡ true
    → (v.out_start ≤ v.out_end) × (v.out_end < length w)
json_within w v h e valid =
    let (u, p, q) = parse_task_json_data_total w h in
    let same : u ≡ v = cc in
    subst (λ x. (x.out_start ≤ x.out_end) × (x.out_end < length w)) same
      (elim q [
        | inl invalid ↦ absurd (not_both (sym (rw same valid) ∙ invalid))
        | inr inside ↦ inside
      ])
  where
    not_both : true ≡ false → ⊥
    not_both x = cc

abbrev pub json_framer : Framer
json_framer = record { analyze = parse_task_json_data; within = json_within }
