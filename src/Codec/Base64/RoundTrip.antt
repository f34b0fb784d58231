-- ===== src/Codec/Base64/RoundTrip.antt =====
-- Decoding what was encoded.
mod Letters
use rtsp_server.Base.{
  ℕ, zero, suc, ◌+◌, ◌-◌, ◌*◌, ◌/◌, ◌%◌, ◌^◌, ◌≤◌, ◌<◌, ◌≡◌, ◌≢◌, refl, sym, ap, ◌∙◌, Bool, true,
  false, not, List, [], ◌∷◌, ◌++◌, Option, none, some, arith, ◌==◌, ==_iff, if◌then◌else◌, ◌>>=◌,
  length, get_elem?, get_elem?_lt, get_or, set, take, take_of_length_le, malloc, wrap32, all_below,
  all_below_sound,
}
use rtsp_server.Codec.Base64.{
  mod_table, letter, quad, encode_loop, pad_loop, base64_encode, table_loop, build_decoding_table,
  sextet, decode_loop, equals_at, output_length, base64_decode,
}
use rtsp_server.Codec.Base64.RoundTrip.Letters.{
  letter_plain, table, decode_quad, decode_letters_one, decode_letters_two, nothing_left,
}

abbrev pub AreBytes : List ℕ → Type 0
AreBytes [] = Unit {0}
AreBytes (b ∷ bs) = (b < 256) × AreBytes bs

module _ (junk : ℕ → ℕ) where
  -- What the encoder's output has to be for the decoder.
  record Encodes (bytes encoded : List ℕ) : Type 0 where
    fours : length encoded % 4 ≡ 0
    some_letters : 4 ≤ length encoded
    size : output_length encoded ≡ some (length bytes)
    decoded : decode_loop (table junk) encoded (length bytes) ≡ some bytes

  one_byte : (a : ℕ) → a < 256 → Encodes (a ∷ []) (base64_encode (a ∷ []))
  unfolding base64_encode encode_loop pad_loop quad output_length equals_at
  one_byte a h = record {
    fours = refl;
    some_letters = omega arith;
    size = refl;
    decoded = decode_letters_two junk _ _ 1 ∙ ground arith;
  }

  two_bytes : (a b : ℕ) → a < 256 → b < 256 → Encodes (a ∷ b ∷ []) (base64_encode (a ∷ b ∷ []))
  unfolding base64_encode encode_loop pad_loop quad output_length equals_at
  two_bytes a b ha hb = record {
    fours = refl;
    some_letters = omega arith;
    size = rw (letter_plain ((a * 2 ^ 16 + b * 2 ^ 8 + 0) / 2 ^ 6));
    decoded = decode_letters_one junk _ _ _ 2 ∙ ground arith;
  }

  three_bytes :
      (a b c : ℕ)
      → a < 256
      → b < 256
      → c < 256
      → Encodes (a ∷ b ∷ c ∷ []) (base64_encode (a ∷ b ∷ c ∷ []))
  unfolding base64_encode encode_loop pad_loop output_length equals_at quad
  three_bytes a b c ha hb hc = record {
    fours = refl;
    some_letters = omega arith;
    size = rw (
      letter_plain (a * 2 ^ 16 + b * 2 ^ 8 + c),
      letter_plain ((a * 2 ^ 16 + b * 2 ^ 8 + c) / 2 ^ 6),
    );
    decoded = decode_quad junk a b c [] 3 ha hb hc (omega arith) ∙ rw (nothing_left junk);
  }

  -- The letters of three bytes stand before those of the rest.
  pad_loop_further :
      (count i n : ℕ) (a b c d : ℕ) (l : List ℕ)
      → count + i ≤ n
      → pad_loop count i (n + 4) (a ∷ b ∷ c ∷ d ∷ l) ≡ a ∷ b ∷ c ∷ d ∷ pad_loop count i n l
  unfolding pad_loop
  pad_loop_further zero i n a b c d l h = refl
  pad_loop_further (suc count) i n a b c d l h =
      ap (λ (l : List ℕ). pad_loop count (i + 1) (n + 4) l) place
      ∙ pad_loop_further count (i + 1) n a b c d _ (omega arith)
    where
      place : set (a ∷ b ∷ c ∷ d ∷ l) (n + 4 - 1 - i) b'=' ≡ a ∷ b ∷ c ∷ d ∷ set l (n - 1 - i) b'='
      place =
          let at_n : n + 4 - 1 - i ≡ suc (suc (suc (suc (n - 1 - i)))) = omega arith in rw at_n refl

  pad_mod : (n : ℕ) → get_or mod_table (suc (suc (suc n)) % 3) 0 ≡ get_or mod_table (n % 3) 0
  pad_mod n = let same : suc (suc (suc n)) % 3 ≡ n % 3 = omega arith in rw same

  pads_le : (r : ℕ) → get_or mod_table r 0 ≤ 2
  pads_le zero = omega arith
  pads_le (suc zero) = omega arith
  pads_le (suc (suc zero)) = omega arith
  pads_le (suc (suc (suc r))) = omega arith

  base64_encode_further :
      (a b c x : ℕ) (rest : List ℕ)
      → base64_encode (a ∷ b ∷ c ∷ x ∷ rest) ≡ quad a b c ++ base64_encode (x ∷ rest)
  unfolding base64_encode encode_loop quad
  base64_encode_further a b c x rest =
      rw (pad_mod (length (x ∷ rest)), size)
        (pad_loop_further (get_or mod_table (length (x ∷ rest) % 3) 0) 0
          (4 * ((length (x ∷ rest) + 2) / 3)) _ _ _ _ (encode_loop (x ∷ rest))
          (let few = pads_le (length (x ∷ rest) % 3) in omega arith))
    where
      size : 4 * ((length (a ∷ b ∷ c ∷ x ∷ rest) + 2) / 3) ≡ 4 * ((length (x ∷ rest) + 2) / 3) + 4
      size = omega arith

  is_equals : ℕ → ℕ
  is_equals c = if c == b'=' then 1 else 0

  is_equals_le : (c : ℕ) → is_equals c ≤ 1
  unfolding is_equals
  is_equals_le c = ground arith

  output_length_at :
      (e : List ℕ) (a b : ℕ)
      → length e ≢ 0
      → get_elem? e (length e - 1) ≡ some a
      → get_elem? e (length e - 2) ≡ some b
      → output_length e ≡ some (length e / 4 * 3 - is_equals a - is_equals b)
  unfolding output_length equals_at is_equals
  output_length_at e a b h ha hb =
      let any : (length e == 0) ≡ false = ground arith in rw (any, ha, hb) refl

  three_more :
      (n k v w : ℕ)
      → 4 ≤ n
      → v ≤ 1
      → w ≤ 1
      → some (n / 4 * 3 - v - w) ≡ some k
      → some (suc (suc (suc (suc n))) / 4 * 3 - v - w) ≡ some (suc (suc (suc k)))
  three_more n k v w hn hv hw h = ground arith

  output_length_further :
      (p q r s : ℕ) (e : List ℕ) (k : ℕ)
      → 4 ≤ length e
      → output_length e ≡ some k
      → output_length (p ∷ q ∷ r ∷ s ∷ e) ≡ some (suc (suc (suc k)))
  output_length_further p q r s e k h size =
      let (a, ha) = get_elem?_lt e (length e - 1) (omega arith) in
      let (b, hb) = get_elem?_lt e (length e - 2) (omega arith) in
      let last : length (p ∷ q ∷ r ∷ s ∷ e) - 1 ≡ suc (suc (suc (suc (length e - 1)))) =
        omega arith in
      let before : length (p ∷ q ∷ r ∷ s ∷ e) - 2 ≡ suc (suc (suc (suc (length e - 2)))) =
        omega arith in
      let whole =
        output_length_at (p ∷ q ∷ r ∷ s ∷ e) a b (omega arith) (rw last ha) (rw before hb) in
      whole
      ∙ three_more (length e) k (is_equals a) (is_equals b) h (is_equals_le a) (is_equals_le b)
          (sym (output_length_at e a b (omega arith) ha hb) ∙ size)

  further :
      (a b c x : ℕ) (rest : List ℕ)
      → a < 256
      → b < 256
      → c < 256
      → Encodes (x ∷ rest) (base64_encode (x ∷ rest))
      → Encodes (a ∷ b ∷ c ∷ x ∷ rest) (base64_encode (a ∷ b ∷ c ∷ x ∷ rest))
  unfolding quad
  further a b c x rest ha hb hc later =
      let left : length (a ∷ b ∷ c ∷ x ∷ rest) - 3 ≡ length (x ∷ rest) = omega arith in
      rw (base64_encode_further a b c x rest) (record {
        fours = omega (arith, later.fours);
        some_letters = omega arith;
        size =
            output_length_further _ _ _ _ (base64_encode (x ∷ rest)) _ later.some_letters
              later.size;
        decoded =
            decode_quad junk a b c (base64_encode (x ∷ rest)) (length (a ∷ b ∷ c ∷ x ∷ rest)) ha hb
              hc (omega arith)
            ∙ rw (left, later.decoded) refl;
      })

  encodes :
      (x : ℕ) (rest : List ℕ) → AreBytes (x ∷ rest) → Encodes (x ∷ rest) (base64_encode (x ∷ rest))
  encodes a [] (ha, _) = one_byte a ha
  encodes a (b ∷ []) (ha, bs) = two_bytes a b ha bs.0
  encodes a (b ∷ c ∷ []) (ha, bs) = three_bytes a b c ha bs.0 bs.1.0
  encodes a (b ∷ c ∷ x ∷ rest) (ha, bs) =
      further a b c x rest ha bs.0 bs.1.0 (encodes x rest bs.1.1)

-- Bytes, at least one, that are encoded and then decoded come back, whatever the memory of the
-- decoding table held: the decoder neither fails nor reads outside a buffer.
pub base64_decode-encode :
    (junk : ℕ → ℕ) (x : ℕ) (rest : List ℕ)
    → AreBytes (x ∷ rest)
    → base64_decode junk (base64_encode (x ∷ rest)) ≡ some (some (x ∷ rest))
unfolding base64_decode
base64_decode-encode junk x rest bytes =
    let e = encodes junk x rest bytes in rw (e.fours, e.size, e.decoded) refl
