-- ===== src/Tests/Codec.antt =====
-- Bits and Base64 at concrete bytes.
use rtsp_server.Base.{ℕ, ◌+◌, ◌<◌, ◌≡◌, ◌⊎◌, refl, List, [], ◌∷◌, none, some, arith, take}
use rtsp_server.Codec.Base64.{base64_encode, base64_decode}
use rtsp_server.Codec.Base64.RoundTrip.{base64_decode-encode}
use rtsp_server.Codec.BitReader.{
  Reader, out_of_range, read_bit, read_bits, read_32_bits, read_exponential_golomb_code, read_se,
}
use rtsp_server.Codec.BitReader.Bits.{value, ahead, IsSized, skip, read_bit_cases, read_bits_lem}
use rtsp_server.Codec.BitReader.Aligned.{read_32_bits_lem}
use rtsp_server.Codec.BitReader.Golomb.{signed_value, read_exponential_golomb_code_lem, read_se_lem}

abbrev zeros : ℕ → ℕ
zeros i = 0

base64_decode-encode_example :
    base64_decode zeros (base64_encode (b'a' ∷ 200 ∷ b'b' ∷ 0 ∷ []))
    ≡ some (some (b'a' ∷ 200 ∷ b'b' ∷ 0 ∷ []))
base64_decode-encode_example =
    base64_decode-encode zeros b'a' (200 ∷ b'b' ∷ 0 ∷ [])
      (omega arith, (omega arith, (omega arith, (omega arith, tt))))

-- The bits 00101000 and 10100101.
abbrev reader : Reader
reader = record { buf = 0x28 ∷ 0xa5 ∷ []; cur_bit = 0; total_byte = 2 }

reader-IsSized : IsSized reader
reader-IsSized = refl

read_bit_cases_example :
    ((b : ℕ) × (rest : List ℕ) × (ahead reader ≡ b ∷ rest)
      × (read_bit reader ≡ some (b, skip 1 reader))
      × (ahead (skip 1 reader) ≡ rest))
    ⊎ ((16 < 0) × (read_bit reader ≡ some (out_of_range, reader)))
    ⊎ (◌≡◌ {A = ℕ} 0 16 × (read_bit reader ≡ none))
read_bit_cases_example = read_bit_cases reader reader-IsSized

read_bits_lem_example :
    read_bits 11 reader ≡ some (value 0 (take 11 (ahead reader)), skip 11 reader)
read_bits_lem_example = read_bits_lem 11 reader reader-IsSized (omega arith) (omega arith)

abbrev behind : List ℕ
behind = 0 ∷ 0 ∷ 0 ∷ 1 ∷ 0 ∷ 1 ∷ 0 ∷ 0 ∷ 1 ∷ 0 ∷ 1 ∷ []

read_exponential_golomb_code_lem_example :
    (code : ℕ) × (read_exponential_golomb_code reader ≡ some (code, skip 5 reader)) × (code + 1 ≡ 5)
read_exponential_golomb_code_lem_example =
    read_exponential_golomb_code_lem 2 (0 ∷ 1 ∷ []) behind reader reader-IsSized (omega arith) refl
      refl

read_se_lem_example : read_se reader ≡ some (signed_value 5, skip 5 reader)
read_se_lem_example =
    read_se_lem 2 (0 ∷ 1 ∷ []) behind reader reader-IsSized (omega arith) refl refl (omega arith)

-- At the second of five bytes.
abbrev inner : Reader
inner = record { buf = 9 ∷ 1 ∷ 2 ∷ 3 ∷ 200 ∷ []; cur_bit = 8; total_byte = 5 }

read_32_bits_lem_example : read_32_bits inner ≡ read_bits 32 inner
read_32_bits_lem_example =
    read_32_bits_lem inner 1 1 2 3 200 [] refl refl refl (omega arith) (omega arith) (omega arith)
      (omega arith)
