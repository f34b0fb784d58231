-- ===== src/Codec/BitReader/Golomb.antt =====
-- ReadExponentialGolombCode and ReadSE against the code words of H.264.
use rtsp_server.Base.{
  ℕ, zero, suc, ◌+◌, ◌-◌, ◌*◌, ◌/◌, ◌%◌, ◌^◌, ◌≤◌, ◌<◌, ◌≡◌, refl, ap, subst, List, [], ◌∷◌, ◌++◌,
  some, arith, lt→ltb, if◌then◌else◌, length, replicate, wrap32, word32, ◌==◌,
}
use native.Mathlib.Nat.{pow-suc, one-le-pow, pow-le-pow_right}
use rtsp_server.Codec.BitReader.{
  Reader, read_bits, read_bits_loop, count_zeros, read_exponential_golomb_code, signed_code,
  half_int, read_se,
}
use rtsp_server.Codec.BitReader.Bits.{
  value, ahead, bits_of, IsSized, skip, AreBits, AreBits-bits_of, AreBits-drop, AreBits-left,
  read_bit_next, read_bits_loop_lem,
}

skip-skip : (a b c : ℕ) (r : Reader) → c ≡ a + b → skip b (skip a r) ≡ skip c r
skip-skip a b c r e = ap (λ k. record r { cur_bit = k }) (omega arith)

count_zeros_lem :
    (k fuel i : ℕ) (rest : List ℕ) (r : Reader)
    → IsSized r
    → k < fuel
    → i + k ≤ 32
    → ahead r ≡ replicate k 0 ++ (1 ∷ rest)
    → (count_zeros fuel i r ≡ some (i + k, skip (k + 1) r)) × (ahead (skip (k + 1) r) ≡ rest)
unfolding count_zeros
count_zeros_lem k zero i rest r sized lt le e = absurd (omega arith)
count_zeros_lem zero (suc fuel) i rest r sized lt le e =
    let (p, q) = read_bit_next r 1 rest sized e in
    (rw p (ap (λ n. some (n, skip 1 r)) (omega arith)), q)
count_zeros_lem (suc k) (suc fuel) i rest r sized lt le e =
    let (p, q) = read_bit_next r 0 (replicate k 0 ++ (1 ∷ rest)) sized e in
    let (c, d) =
      count_zeros_lem k fuel (i + 1) rest (skip 1 r) sized (omega arith) (omega arith) q in
    let same : skip (k + 1) (skip 1 r) ≡ skip (suc k + 1) r =
      skip-skip 1 (k + 1) (suc k + 1) r (omega arith) in
    (
      rw (p, lt→ltb i 32 (omega arith), c, same)
          (ap (λ n. some (n, skip (suc k + 1) r)) (omega arith)),
      subst (λ s. ahead s ≡ rest) same d,
    )

value-shift : (v : ℕ) (xs : List ℕ) → value v xs ≡ v * 2 ^ length xs + value 0 xs
value-shift v [] = omega arith
value-shift v (b ∷ xs) = omega (
  arith,
  value-shift (v * 2 + b) xs,
  value-shift (0 * 2 + b) xs,
  ap (λ (t : ℕ). v * t) (pow-suc 2 (length xs)),
)

value-lt : (xs : List ℕ) → AreBits xs → value 0 xs < 2 ^ length xs
value-lt [] h = omega arith
value-lt (zero ∷ xs) h = omega (arith, value-lt xs h.1, pow-suc 2 (length xs))
value-lt (suc zero ∷ xs) h = omega (arith, value-shift 1 xs, value-lt xs h.1, pow-suc 2 (length xs))
value-lt (suc (suc b) ∷ xs) h = absurd (omega (arith, h.0))

-- ReadExponentialGolombCode reads `k` zeros, a one and `k` more bits, for a `k` up to 31, as one
-- less than the number that the one and those bits stand for, and moves behind them.
pub read_exponential_golomb_code_lem :
    (k : ℕ) (xs rest : List ℕ) (r : Reader)
    → IsSized r
    → k ≤ 31
    → length xs ≡ k
    → ahead r ≡ replicate k 0 ++ (1 ∷ (xs ++ rest))
    → (code : ℕ) × (read_exponential_golomb_code r ≡ some (code, skip (k + 1 + k) r))
      × (code + 1 ≡ value 0 (1 ∷ xs))
unfolding read_exponential_golomb_code read_bits
read_exponential_golomb_code_lem k xs rest r sized le long e =
    let (c, d) = count_zeros_lem k 33 0 (xs ++ rest) r sized (omega arith) (omega arith) e in
    let bits : AreBits xs = AreBits-left xs rest (
      subst AreBits d
        (AreBits-drop (r.cur_bit + (k + 1)) (bits_of r.buf) (AreBits-bits_of r.buf))) in
    let s = skip (k + 1) r in
    let start : 0 * 2 ^ length xs ≡ 0 = omega arith in
    let loop : read_bits_loop k 0 s ≡ some (value 0 xs, skip k s) =
      subst (λ n. read_bits_loop n 0 s ≡ some (value 0 xs, skip n s)) long
        (rw start at (read_bits_loop_lem xs rest 0 s sized (omega arith) bits d)) in
    let zeros : 0 + k ≡ k = omega arith in
    let top : 2 ^ k ≤ 2 ^ 31 = pow-le-pow_right {n = 2} (omega arith) {i = k} {j = 31} le in
    let below : value 0 xs < 2 ^ k = subst (λ n. value 0 xs < 2 ^ n) long (value-lt xs bits) in
    let sum : wrap32 (value 0 xs + (2 ^ k - 1)) ≡ value 0 xs + (2 ^ k - 1) = omega arith in
    (
      value 0 xs + (2 ^ k - 1),
      rw (c, zeros, loop, sum)
          (ap (λ t. some (value 0 xs + (2 ^ k - 1), t)) (skip-skip (k + 1) k (k + 1 + k) r refl)),
      omega (
        arith,
        subst (λ n. value 1 xs ≡ 1 * 2 ^ n + value 0 xs) long (value-shift 1 xs),
        one-le-pow k 2 (omega arith),
      ),
    )

-- Half of a number, negative if it is odd, as a word.
abbrev pub signed_value : ℕ → ℕ
signed_value m = if m % 2 == 0 then m / 2 else (0x1_0000_0000 - m / 2) % word32

signed_code_lem : (code : ℕ) → code + 1 < 0x8000_0000 → signed_code code ≡ signed_value (code + 1)
unfolding signed_code half_int
signed_code_lem code h = ground arith

-- ReadSE gives a code word the signed value that H.264 gives it, which is half the number that its
-- one and the bits behind stand for, negative where that number is odd; for a number below 2^31,
-- under the conditions of `read_exponential_golomb_code_lem`.
pub read_se_lem :
    (k : ℕ) (xs rest : List ℕ) (r : Reader)
    → IsSized r
    → k ≤ 31
    → length xs ≡ k
    → ahead r ≡ replicate k 0 ++ (1 ∷ (xs ++ rest))
    → value 0 (1 ∷ xs) < 0x8000_0000
    → read_se r ≡ some (signed_value (value 0 (1 ∷ xs)), skip (k + 1 + k) r)
unfolding read_se
read_se_lem k xs rest r sized le long e small =
    let (code, p, q) = read_exponential_golomb_code_lem k xs rest r sized le long e in
    rw (p, ← q) (ap (λ (v : ℕ). some (v, skip (k + 1 + k) r)) (signed_code_lem code (omega arith)))
