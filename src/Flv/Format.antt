-- ===== src/Flv/Format.antt =====
-- The byte orders of flvFormat.cpp, on the little-endian hosts that the program is built for.
use rtsp_server.Base.{
  ℕ, ◌+◌, ◌*◌, ◌/◌, ◌%◌, ◌^◌, ◌<◌, ◌≡◌, ap₂, ◌∙◌, bit_or, or_split, or_above, or_disjoint, or_zero,
  byte0, byte1, byte2, arith,
}

-- fastHton3, in the order in which it joins the three bytes.
unfoldable pub fast_hton3 : ℕ → ℕ
fast_hton3 i3 = bit_or (bit_or (byte2 i3) (byte0 i3 * 2 ^ 16)) (byte1 i3 * 2 ^ 8)

-- Byte `i` of a 64-bit word.
abbrev byte_at : ℕ → ℕ → ℕ
byte_at i x = x / 2 ^ (8 * i) % 0x100

-- fastHtonll, likewise.
unfoldable pub fast_htonll : ℕ → ℕ
fast_htonll ull =
    bit_or
      (bit_or
        (bit_or
          (bit_or
            (bit_or
              (bit_or (bit_or (byte_at 7 ull) (byte_at 6 ull * 2 ^ 8)) (byte_at 5 ull * 2 ^ 16))
              (byte_at 4 ull * 2 ^ 24))
            (byte_at 3 ull * 2 ^ 32))
          (byte_at 2 ull * 2 ^ 40))
        (byte_at 1 ull * 2 ^ 48))
      (byte_at 0 ull * 2 ^ 56)

pub fast_hton3_lem : (x : ℕ) → fast_hton3 x ≡ byte0 x * 0x1_0000 + byte1 x * 0x100 + byte2 x
unfolding fast_hton3
fast_hton3_lem x =
    let outer : bit_or (byte2 x) (byte0 x * 2 ^ 16) ≡ byte0 x * 2 ^ 8 * 2 ^ 8 + byte2 x =
      or_above 16 (byte0 x) (byte2 x) (omega arith) ∙ omega arith in
    let middle : byte1 x * 2 ^ 8 ≡ byte1 x * 2 ^ 8 + 0 = omega arith in
    ap₂ bit_or outer middle
    ∙ (or_split 8 (byte0 x * 2 ^ 8) (byte2 x) (byte1 x) 0 (omega arith) (omega arith)
        ∙ omega (arith, or_disjoint 8 (byte0 x) (byte1 x) (omega arith), or_zero (byte2 x)))

pub fast_hton3_below : (x : ℕ) → fast_hton3 x < 0x100_0000
fast_hton3_below x = omega (arith, fast_hton3_lem x)

-- On words of 24 bits, fastHton3 undoes itself.
pub fast_hton3-fast_hton3 : (x : ℕ) → x < 0x100_0000 → fast_hton3 (fast_hton3 x) ≡ x
fast_hton3-fast_hton3 x below = omega (arith, fast_hton3_lem (fast_hton3 x), fast_hton3_lem x)

fast_htonll_lem :
    (x : ℕ)
    → fast_htonll x
      ≡ byte_at 0 x * 2 ^ 56
        + (byte_at 1 x * 2 ^ 48
            + (byte_at 2 x * 2 ^ 40
                + (byte_at 3 x * 2 ^ 32
                    + (byte_at 4 x * 2 ^ 24
                        + (byte_at 5 x * 2 ^ 16 + (byte_at 6 x * 2 ^ 8 + byte_at 7 x))))))
unfolding fast_htonll
fast_htonll_lem x =
    join 56 _ _ (byte_at 0 x)
      (join 48 _ _ (byte_at 1 x)
        (join 40 _ _ (byte_at 2 x)
          (join 32 _ _ (byte_at 3 x)
            (join 24 _ _ (byte_at 4 x)
              (join 16 _ _ (byte_at 5 x) (or_above 8 (byte_at 6 x) (byte_at 7 x) (omega arith))
                (omega arith))
              (omega arith))
            (omega arith))
          (omega arith))
        (omega arith))
      (omega arith)
  where
    join : (k a b q : ℕ) → a ≡ b → b < 2 ^ k → bit_or a (q * 2 ^ k) ≡ q * 2 ^ k + b
    join k a b q e h = rw e (or_above k q b h)

split_word :
    (x : ℕ)
    → x < 2 ^ 64
    → byte_at 7 x * 2 ^ 56
        + (byte_at 6 x * 2 ^ 48
            + (byte_at 5 x * 2 ^ 40
                + (byte_at 4 x * 2 ^ 32
                    + (byte_at 3 x * 2 ^ 24
                        + (byte_at 2 x * 2 ^ 16 + (byte_at 1 x * 2 ^ 8 + byte_at 0 x))))))
      ≡ x
split_word x below = omega arith

bytes_of :
    (y a b c d e f g h : ℕ)
    → y
      ≡ a * 2 ^ 56
        + (b * 2 ^ 48 + (c * 2 ^ 40 + (d * 2 ^ 32 + (e * 2 ^ 24 + (f * 2 ^ 16 + (g * 2 ^ 8 + h))))))
    → b < 0x100
    → c < 0x100
    → d < 0x100
    → e < 0x100
    → f < 0x100
    → g < 0x100
    → h < 0x100
    → a < 0x100
    → (byte_at 7 y ≡ a)
      × (byte_at 6 y ≡ b)
      × (byte_at 5 y ≡ c)
      × (byte_at 4 y ≡ d)
      × (byte_at 3 y ≡ e)
      × (byte_at 2 y ≡ f)
      × (byte_at 1 y ≡ g)
      × (byte_at 0 y ≡ h)
bytes_of y a b c d e f g h s hb hc hd he hf hg hh ha = (
  omega arith,
  omega arith,
  omega arith,
  omega arith,
  omega arith,
  omega arith,
  omega arith,
  omega arith,
)

-- On words of 64 bits, fastHtonll undoes itself.
pub fast_htonll-fast_htonll : (x : ℕ) → x < 2 ^ 64 → fast_htonll (fast_htonll x) ≡ x
fast_htonll-fast_htonll x below =
    let y = fast_htonll x in
    let (a, b, c, d, e, f, g, h) =
      bytes_of y (byte_at 0 x) (byte_at 1 x) (byte_at 2 x) (byte_at 3 x) (byte_at 4 x) (byte_at 5 x)
        (byte_at 6 x) (byte_at 7 x) (fast_htonll_lem x) (omega arith) (omega arith) (omega arith)
        (omega arith) (omega arith) (omega arith) (omega arith) (omega arith) in
    omega (arith, fast_htonll_lem y, split_word x below, a, b, c, d, e, f, g, h)
