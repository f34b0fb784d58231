-- ===== src/Codec/BitReader/Bits.antt =====
-- The bits of a buffer as a list, and what ReadBit and ReadBits give of it.
use rtsp_server.Base.{
  ◌⊎◌, inl, inr, ℕ, zero, suc, ◌+◌, ◌-◌, ◌*◌, ◌/◌, ◌%◌, ◌^◌, ◌≤◌, ◌<◌, ◌≡◌, refl, sym, ap, ◌∙◌,
  List, [], ◌∷◌, ◌++◌, none, some, arith, le→ltb, lt→ltb, length, take, drop, get_elem?, drop-drop,
  length-drop, length-take, get_elem?_ge, take-append-drop, subst, wrap32, bit_or, or_disjoint,
}
use native.Mathlib.Nat.{pow-suc, one-le-pow, pow-le-pow_right}
use rtsp_server.Codec.BitReader.{Reader, read_bit, read_bits_loop, read_bits, out_of_range}

-- A byte, its highest bit first.
abbrev pub byte_bits : ℕ → List ℕ
byte_bits b =
    (b / 128 % 2)
    ∷ (b / 64 % 2)
    ∷ (b / 32 % 2)
    ∷ (b / 16 % 2)
    ∷ (b / 8 % 2)
    ∷ (b / 4 % 2)
    ∷ (b / 2 % 2)
    ∷ (b % 2)
    ∷ []

abbrev pub bits_of : List ℕ → List ℕ
bits_of [] = []
bits_of (b ∷ bs) = byte_bits b ++ bits_of bs

-- The number that bits stand for, the highest first.
abbrev pub value : ℕ → List ℕ → ℕ
value acc [] = acc
value acc (b ∷ bs) = value (acc * 2 + b) bs

length-bits_of : (bs : List ℕ) → length (bits_of bs) ≡ length bs * 8
length-bits_of [] = refl
length-bits_of (b ∷ bs) = omega (arith, length-bits_of bs)

byte_further : (m : ℕ) → suc (suc (suc (suc (suc (suc (suc (suc m))))))) / 8 ≡ suc (m / 8)
byte_further m = omega arith

bit_further : (m : ℕ) → suc (suc (suc (suc (suc (suc (suc (suc m))))))) % 8 ≡ m % 8
bit_further m = omega arith

-- The bit that the code takes from the buffer at `n` is the one that stands at `n` among its bits.
bit_at :
    (buf : List ℕ) (n b : ℕ) (rest : List ℕ)
    → drop n (bits_of buf) ≡ b ∷ rest
    → (byte : ℕ) × (get_elem? buf (n / 8) ≡ some byte) × (byte / 2 ^ (8 - (n % 8 + 1)) % 2 ≡ b)
bit_at [] zero b rest e = cc
bit_at [] (suc n) b rest e = cc
bit_at (x ∷ xs) zero b rest e = (x, refl, cc)
bit_at (x ∷ xs) (suc zero) b rest e = (x, refl, cc)
bit_at (x ∷ xs) (suc (suc zero)) b rest e = (x, refl, cc)
bit_at (x ∷ xs) (suc (suc (suc zero))) b rest e = (x, refl, cc)
bit_at (x ∷ xs) (suc (suc (suc (suc zero)))) b rest e = (x, refl, cc)
bit_at (x ∷ xs) (suc (suc (suc (suc (suc zero))))) b rest e = (x, refl, cc)
bit_at (x ∷ xs) (suc (suc (suc (suc (suc (suc zero)))))) b rest e = (x, refl, cc)
bit_at (x ∷ xs) (suc (suc (suc (suc (suc (suc (suc zero))))))) b rest e =
    let last : x % 2 ≡ b = cc in (x, refl, omega arith)
bit_at (x ∷ xs) (suc (suc (suc (suc (suc (suc (suc (suc m)))))))) b rest e =
    let (byte, p, q) = bit_at xs m b rest e in
    (
      byte,
      ap (get_elem? (x ∷ xs)) (byte_further m) ∙ p,
      ap (λ k. byte / 2 ^ (8 - (k + 1)) % 2) (bit_further m) ∙ q,
    )

-- The bits that a reader has still to give.
abbrev pub ahead : Reader → List ℕ
ahead r = drop r.cur_bit (bits_of r.buf)

-- The reader knows the size of its buffer.
abbrev pub IsSized : Reader → Type 0
IsSized r = r.total_byte ≡ length r.buf

-- The reader further on.
abbrev pub skip : ℕ → Reader → Reader
skip n r = record r { cur_bit = r.cur_bit + n }

drop-cons :
    (n : ℕ) (xs : List ℕ) (b : ℕ) (rest : List ℕ)
    → drop n xs ≡ b ∷ rest
    → (drop (n + 1) xs ≡ rest) × (n < length xs)
drop-cons n xs b rest e =
    (sym (drop-drop n 1 xs) ∙ ap (drop 1) e, omega (arith, ap length e, length-drop n xs))

pub read_bit_next :
    (r : Reader) (b : ℕ) (rest : List ℕ)
    → IsSized r
    → ahead r ≡ b ∷ rest
    → (read_bit r ≡ some (b, skip 1 r)) × (ahead (skip 1 r) ≡ rest)
unfolding read_bit
read_bit_next r b rest sized e =
    let (byte, p, q) = bit_at r.buf r.cur_bit b rest e in
    let (next, lt) = drop-cons r.cur_bit (bits_of r.buf) b rest e in
    (
      rw (
        le→ltb (r.total_byte * 8) r.cur_bit (omega (arith, lt, length-bits_of r.buf, sized)),
        p,
        q,
      ),
      next,
    )

-- On a reader that knows its buffer, ReadBit gives the next bit and moves behind it; it returns -1
-- and does not move where it stands past the end by a bit or more; and where it stands exactly at
-- the end it reads the byte behind the buffer.
pub read_bit_cases :
    (r : Reader)
    → IsSized r
    → ((b : ℕ) × (rest : List ℕ) × (ahead r ≡ b ∷ rest)
        × (read_bit r ≡ some (b, skip 1 r))
        × (ahead (skip 1 r) ≡ rest))
      ⊎ ((r.total_byte * 8 < r.cur_bit) × (read_bit r ≡ some (out_of_range, r)))
      ⊎ ((r.cur_bit ≡ r.total_byte * 8) × (read_bit r ≡ none))
unfolding read_bit
read_bit_cases r sized = elim (compared (r.total_byte * 8) r.cur_bit) [
  | inl inside ↦
      let (b, rest, e) =
        some_first (ahead r)
          (omega (arith, length-drop r.cur_bit (bits_of r.buf), length-bits_of r.buf, sized)) in
      let (p, q) = read_bit_next r b rest sized e in inl (b, rest, e, p, q)
  | inr (inl past) ↦ inr (inl (past, rw (lt→ltb (r.total_byte * 8) r.cur_bit past)))
  | inr (inr at) ↦ inr (
      inr (
        at,
        rw (
          le→ltb (r.total_byte * 8) r.cur_bit (omega arith),
          get_elem?_ge r.buf (r.cur_bit / 8) (omega (arith, sized)),
        ),
      ))
]
  where
    compared : (a b : ℕ) → (b < a) ⊎ (a < b) ⊎ (b ≡ a)
    compared a b = grind arith

    some_first : (xs : List ℕ) → 0 < length xs → (x : ℕ) × (rest : List ℕ) × (xs ≡ x ∷ rest)
    some_first [] h = absurd (omega arith)
    some_first (x ∷ rest) h = (x, rest, refl)

-- `acc` is shifted left by as many bits as are still to come.
shift_in :
    (left v b : ℕ)
    → left < 32
    → b < 2
    → bit_or (v * 2 ^ suc left) (wrap32 (b * 2 ^ left)) ≡ (v * 2 + b) * 2 ^ left
shift_in left v b lt bit =
    wrapped
    ∙ or_disjoint (suc left) v (b * 2 ^ left)
        (omega (arith, small b bit, pow-suc 2 left, one-le-pow left 2 (omega arith)))
    ∙ omega (arith, ap (λ (t : ℕ). v * t) (pow-suc 2 left))
  where
    small : (b : ℕ) → b < 2 → b * 2 ^ left ≤ 2 ^ left
    small zero h = omega arith
    small (suc zero) h = omega arith
    small (suc (suc b)) h = absurd (omega arith)

    below : 2 ^ left ≤ 2 ^ 31
    below = pow-le-pow_right {n = 2} (omega arith) {i = left} {j = 31} (omega arith)

    wrapped :
        bit_or (v * 2 ^ suc left) (wrap32 (b * 2 ^ left)) ≡ bit_or (v * 2 ^ suc left) (b * 2 ^ left)
    wrapped = ap (bit_or (v * 2 ^ suc left)) (omega (arith, small b bit, below))

abbrev pub AreBits : List ℕ → Type 0
AreBits [] = Unit {0}
AreBits (b ∷ bs) = (b < 2) × AreBits bs

AreBits-append : (xs ys : List ℕ) → AreBits xs → AreBits ys → AreBits (xs ++ ys)
AreBits-append [] ys h k = k
AreBits-append (x ∷ xs) ys h k = (h.0, AreBits-append xs ys h.1 k)

pub AreBits-drop : (n : ℕ) (xs : List ℕ) → AreBits xs → AreBits (drop n xs)
AreBits-drop zero xs h = h
AreBits-drop (suc n) [] h = tt
AreBits-drop (suc n) (x ∷ xs) h = AreBits-drop n xs h.1

pub AreBits-left : (xs ys : List ℕ) → AreBits (xs ++ ys) → AreBits xs
AreBits-left [] ys h = tt
AreBits-left (x ∷ xs) ys h = (h.0, AreBits-left xs ys h.1)

AreBits-take : (n : ℕ) (xs : List ℕ) → AreBits xs → AreBits (take n xs)
AreBits-take zero xs h = tt
AreBits-take (suc n) [] h = tt
AreBits-take (suc n) (x ∷ xs) h = (h.0, AreBits-take n xs h.1)

pub AreBits-bits_of : (bs : List ℕ) → AreBits (bits_of bs)
AreBits-bits_of [] = tt
AreBits-bits_of (b ∷ bs) =
    AreBits-append (byte_bits b) (bits_of bs) (omega arith) (AreBits-bits_of bs)

pub read_bits_loop_lem :
    (xs rest : List ℕ) (v : ℕ) (r : Reader)
    → IsSized r
    → length xs ≤ 32
    → AreBits xs
    → ahead r ≡ xs ++ rest
    → read_bits_loop (length xs) (v * 2 ^ length xs) r ≡ some (value v xs, skip (length xs) r)
unfolding read_bits_loop
read_bits_loop_lem [] rest v r sized short bits e = ap some (ground arith)
read_bits_loop_lem (b ∷ xs) rest v r sized short bits e =
    let (p, q) = read_bit_next r b (xs ++ rest) sized e in
    rw (p, shift_in (length xs) v b short bits.0)
      (read_bits_loop_lem xs rest (v * 2 + b) (skip 1 r) sized (omega arith) bits.1 q
        ∙ ap some (ground arith))

-- ReadBits gives the number that the next `n` bits stand for, the first one highest, and moves
-- behind them; for up to 32 bits, if the buffer has as many ahead.
pub read_bits_lem :
    (n : ℕ) (r : Reader)
    → IsSized r
    → n ≤ 32
    → r.cur_bit + n ≤ r.total_byte * 8
    → read_bits n r ≡ some (value 0 (take n (ahead r)), skip n r)
unfolding read_bits
read_bits_lem n r sized short inside =
    let xs = take n (ahead r) in
    let long : length xs ≡ n = omega (
      arith,
      length-take n (ahead r),
      length-drop r.cur_bit (bits_of r.buf),
      length-bits_of r.buf,
      sized,
    ) in
    let start : 0 ≡ 0 * 2 ^ length xs = omega arith in
    subst (λ k. read_bits_loop k 0 r ≡ some (value 0 xs, skip k r)) long
      (ap (λ a. read_bits_loop (length xs) a r) start
        ∙ read_bits_loop_lem xs (drop n (ahead r)) 0 r sized (omega arith)
            (AreBits-take n (ahead r)
              (AreBits-drop r.cur_bit (bits_of r.buf) (AreBits-bits_of r.buf)))
            (sym (take-append-drop n (ahead r))))
