-- ===== src/Codec/BitReader/Aligned.antt =====
-- Reads that begin at a whole byte.
use rtsp_server.Base.{
  ℕ, zero, suc, ◌+◌, ◌*◌, ◌/◌, ◌≤◌, ◌<◌, ◌≡◌, refl, sym, ap, ◌∙◌, List, [], ◌∷◌, ◌++◌, some, arith,
  length, take, drop, get_elem?, big32, length-drop,
}
use rtsp_server.Codec.BitReader.{Reader, read_bits, read_32_bits}
use rtsp_server.Codec.BitReader.Bits.{
  byte_bits, bits_of, value, ahead, IsSized, skip, read_bits_lem,
}

byte_value :
    (acc b : ℕ) (rest : List ℕ)
    → b < 256
    → value acc (byte_bits b ++ rest) ≡ value (acc * 256 + b) rest
byte_value acc b rest h = ap (λ (v : ℕ). value v rest) (omega arith)

drop-bits_of : (k : ℕ) (bs : List ℕ) → drop (k * 8) (bits_of bs) ≡ bits_of (drop k bs)
drop-bits_of zero bs = refl
drop-bits_of (suc k) [] = let next : suc k * 8 ≡ suc (k * 8 + 7) = omega arith in rw next refl
drop-bits_of (suc k) (b ∷ bs) =
    let next : suc k * 8 ≡ suc (suc (suc (suc (suc (suc (suc (suc (k * 8)))))))) = omega arith in
    rw next (drop-bits_of k bs)

get_elem?-drop_add : (k j : ℕ) (xs : List ℕ) → get_elem? xs (k + j) ≡ get_elem? (drop k xs) j
get_elem?-drop_add zero j xs = ap (get_elem? xs) (omega arith)
get_elem?-drop_add (suc k) j [] = refl
get_elem?-drop_add (suc k) j (x ∷ xs) =
    let next : suc k + j ≡ suc (k + j) = omega arith in rw next (get_elem?-drop_add k j xs)

four_bytes_value :
    (a b c d : ℕ)
    → a < 256
    → b < 256
    → c < 256
    → d < 256
    → value 0 (byte_bits a ++ (byte_bits b ++ (byte_bits c ++ (byte_bits d ++ [])))) ≡ big32 a b c d
four_bytes_value a b c d ha hb hc hd =
    byte_value 0 a (byte_bits b ++ (byte_bits c ++ (byte_bits d ++ []))) ha
    ∙ byte_value (0 * 256 + a) b (byte_bits c ++ (byte_bits d ++ [])) hb
    ∙ byte_value ((0 * 256 + a) * 256 + b) c (byte_bits d ++ []) hc
    ∙ byte_value (((0 * 256 + a) * 256 + b) * 256 + c) d [] hd
    ∙ omega arith

-- At a whole byte with four bytes below 256 ahead, Read32Bits reads what ReadBits reads for 32 bits.
pub read_32_bits_lem :
    (r : Reader) (k a b c d : ℕ) (rest : List ℕ)
    → IsSized r
    → r.cur_bit ≡ k * 8
    → drop k r.buf ≡ a ∷ b ∷ c ∷ d ∷ rest
    → a < 256
    → b < 256
    → c < 256
    → d < 256
    → read_32_bits r ≡ read_bits 32 r
unfolding read_32_bits
read_32_bits_lem r k a b c d rest sized at four ha hb hc hd =
    rw (index, e₀, e₁, e₂, e₃)
      (sym (read_bits_lem 32 r sized (omega arith) inside ∙ ap (λ v. some (v, skip 32 r)) bits))
  where
    index : r.cur_bit / 8 ≡ k
    index = omega arith

    e₀ : get_elem? r.buf k ≡ some a
    e₀ =
        (let same : k + 0 ≡ k = omega arith in rw same at (get_elem?-drop_add k 0 r.buf))
        ∙ ap (λ l. get_elem? l 0) four

    e₁ : get_elem? r.buf (k + 1) ≡ some b
    e₁ = get_elem?-drop_add k 1 r.buf ∙ ap (λ l. get_elem? l 1) four

    e₂ : get_elem? r.buf (k + 2) ≡ some c
    e₂ = get_elem?-drop_add k 2 r.buf ∙ ap (λ l. get_elem? l 2) four

    e₃ : get_elem? r.buf (k + 3) ≡ some d
    e₃ = get_elem?-drop_add k 3 r.buf ∙ ap (λ l. get_elem? l 3) four

    inside : r.cur_bit + 32 ≤ r.total_byte * 8
    inside = omega (arith, length-drop k r.buf, ap length four, sized)

    bits : value 0 (take 32 (ahead r)) ≡ big32 a b c d
    bits =
        ap (λ n. value 0 (take 32 (drop n (bits_of r.buf)))) at
        ∙ ap (λ l. value 0 (take 32 l)) (drop-bits_of k r.buf ∙ ap bits_of four)
        ∙ four_bytes_value a b c d ha hb hc hd
