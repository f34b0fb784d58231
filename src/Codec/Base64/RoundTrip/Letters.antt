-- ===== src/Codec/Base64/RoundTrip/Letters.antt =====
-- What the decoder makes of four letters.
use rtsp_server.Base.{
  ℕ, ◌+◌, ◌-◌, ◌*◌, ◌/◌, ◌%◌, ◌^◌, ◌≤◌, ◌<◌, ◌≡◌, refl, ap, ◌∙◌, Bool, true, false, not, List, [],
  ◌∷◌, ◌++◌, Option, none, some, arith, ◌==◌, ==_iff, ◌>>=◌, take, take_of_length_le, malloc,
  wrap32, all_below, all_below_sound,
}
use rtsp_server.Codec.Base64.{letter, quad, table_loop, build_decoding_table, sextet, decode_loop}

-- Every letter is decoded, and none is the equals sign.
is_sextet : Option ℕ → ℕ → Bool
is_sextet none i = false
is_sextet (some v) i = v == i

letters_table :
    (junk : ℕ → ℕ)
    → all_below 64 (λ i. is_sextet (sextet (build_decoding_table junk) (letter i)) i) ≡ true
unfolding all_below is_sextet sextet build_decoding_table table_loop letter malloc
letters_table junk = refl

plain_table : all_below 64 (λ i. not (letter i == b'=')) ≡ true
unfolding all_below letter
plain_table = refl

letter-mod : (i : ℕ) → letter (i % 64) ≡ letter i
unfolding letter
letter-mod i = let same : i % 64 % 64 ≡ i % 64 = omega arith in rw same

is_sextet_iff : (o : Option ℕ) (i : ℕ) → is_sextet o i ≡ true → o ≡ some i
unfolding is_sextet
is_sextet_iff none i h = cc
is_sextet_iff (some v) i h = ap some ((==_iff v i).0 h)

not-true : (b : Bool) → not b ≡ true → b ≡ false
not-true true h = cc
not-true false h = refl

pub letter_plain : (i : ℕ) → (letter i == b'=') ≡ false
letter_plain i = not-true _ (
    rw (letter-mod i) at
      (all_below_sound 64 (λ i. not (letter i == b'=')) (i % 64) plain_table (omega arith)))

module _ (junk : ℕ → ℕ) where
  abbrev pub table : List ℕ
  table = build_decoding_table junk

  sextet-letter : (i : ℕ) → sextet table (letter i) ≡ some (i % 64)
  sextet-letter i = rw (letter-mod i) at (
      is_sextet_iff _ (i % 64) (
        all_below_sound 64 (λ i. is_sextet (sextet (build_decoding_table junk) (letter i)) i)
          (i % 64) (letters_table junk) (omega arith)))

  -- A round of the decoder on four letters of the encoder.
  decode_letters :
      (w x y z : ℕ) (rest : List ℕ) (left : ℕ)
      → decode_loop table (letter w ∷ letter x ∷ letter y ∷ letter z ∷ rest) left ≡ (
          decode_loop table rest (left - 3) >>= λ later.
          let triple = wrap32 (w % 64 * 2 ^ 18 + x % 64 * 2 ^ 12 + y % 64 * 2 ^ 6 + z % 64) in
          some (
            take left (triple / 2 ^ 16 % 0x100 ∷ triple / 2 ^ 8 % 0x100 ∷ triple % 0x100 ∷ [])
            ++ later))
  unfolding decode_loop
  decode_letters w x y z rest left =
      rw (sextet-letter w, sextet-letter x, sextet-letter y, sextet-letter z)

  triple_lem :
      (a b c : ℕ)
      → a < 256
      → b < 256
      → c < 256
      → let t = a * 2 ^ 16 + b * 2 ^ 8 + c in
        wrap32
          (t / 2 ^ 18 % 64 * 2 ^ 18 + t / 2 ^ 12 % 64 * 2 ^ 12 + t / 2 ^ 6 % 64 * 2 ^ 6 + t % 64)
        ≡ t
  triple_lem a b c ha hb hc = omega arith

  pub decode_quad :
      (a b c : ℕ) (rest : List ℕ) (left : ℕ)
      → a < 256
      → b < 256
      → c < 256
      → 3 ≤ left
      → decode_loop table (quad a b c ++ rest) left
        ≡ (decode_loop table rest (left - 3) >>= λ later. some (a ∷ b ∷ c ∷ later))
  unfolding quad
  decode_quad a b c rest left ha hb hc h =
      decode_letters _ _ _ _ rest left
      ∙ rw (triple_lem a b c ha hb hc) (
          ap (λ (l : List ℕ). decode_loop table rest (left - 3) >>= λ later. some (l ++ later))
            bytes)
    where
      t : ℕ
      t = a * 2 ^ 16 + b * 2 ^ 8 + c

      bytes : take left (t / 2 ^ 16 % 0x100 ∷ t / 2 ^ 8 % 0x100 ∷ t % 0x100 ∷ []) ≡ a ∷ b ∷ c ∷ []
      bytes = take_of_length_le left _ h ∙ ground arith

  pub nothing_left : decode_loop table [] 0 ≡ some []
  unfolding decode_loop
  nothing_left = refl

  equals-sextet : sextet table b'=' ≡ some 0
  unfolding sextet
  equals-sextet = refl

  -- A round on letters of which the last or the last two are equals signs.
  pub decode_letters_one :
      (w x y : ℕ) (left : ℕ)
      → decode_loop table (letter w ∷ letter x ∷ letter y ∷ b'=' ∷ []) left ≡ (
          let triple = wrap32 (w % 64 * 2 ^ 18 + x % 64 * 2 ^ 12 + y % 64 * 2 ^ 6 + 0) in
          some (
            take left (triple / 2 ^ 16 % 0x100 ∷ triple / 2 ^ 8 % 0x100 ∷ triple % 0x100 ∷ [])
            ++ []))
  unfolding decode_loop
  decode_letters_one w x y left =
      rw (sextet-letter w, sextet-letter x, sextet-letter y, equals-sextet)

  pub decode_letters_two :
      (w x : ℕ) (left : ℕ)
      → decode_loop table (letter w ∷ letter x ∷ b'=' ∷ b'=' ∷ []) left ≡ (
          let triple = wrap32 (w % 64 * 2 ^ 18 + x % 64 * 2 ^ 12 + 0 * 2 ^ 6 + 0) in
          some (
            take left (triple / 2 ^ 16 % 0x100 ∷ triple / 2 ^ 8 % 0x100 ∷ triple % 0x100 ∷ [])
            ++ []))
  unfolding decode_loop
  decode_letters_two w x left = rw (sextet-letter w, sextet-letter x, equals-sextet)
