-- ===== src/Codec/Base64.antt =====
-- base64.cpp. `junk` is what malloc leaves in the decoding table. The result of decoding is `none`
-- for an access outside a buffer, `some none` for NULL.
pub mod RoundTrip
use rtsp_server.Base.{
  ℕ, zero, suc, ◌+◌, ◌-◌, ◌*◌, ◌/◌, ◌%◌, ◌^◌, Bool, List, [], ◌∷◌, ◌++◌, Option, none, some, ltb,
  ◌==◌, if◌then◌else◌, ◌>>=◌, length, get_elem?, get_or, set, take, malloc, wrap32, sign_extend,
  codes,
}

abbrev pub encoding_table : List ℕ
encoding_table = codes "ABCDEFGHIJKLMNOPQRSTUVWXYZabcdefghijklmnopqrstuvwxyz0123456789+/"

abbrev pub mod_table : List ℕ
mod_table = 0 ∷ 2 ∷ 1 ∷ []

-- encoding_table[i & 0x3F]
pub letter : ℕ → ℕ
letter i = get_or encoding_table (i % 64) 0

-- The four letters of one round of the encoder.
pub quad : ℕ → ℕ → ℕ → List ℕ
quad a b c =
    let triple = a * 2 ^ 16 + b * 2 ^ 8 + c in
    letter (triple / 2 ^ 18)
    ∷ letter (triple / 2 ^ 12)
    ∷ letter (triple / 2 ^ 6)
    ∷ letter triple
    ∷ []

-- The rounds: a byte behind the end counts as 0.
encode_loop : List ℕ → List ℕ
encode_loop [] = []
encode_loop (a ∷ []) = quad a 0 0
encode_loop (a ∷ b ∷ []) = quad a b 0
encode_loop (a ∷ b ∷ c ∷ rest) = quad a b c ++ encode_loop rest

-- The loop that writes `count` equals signs over the last letters, from `i` on.
pad_loop : ℕ → ℕ → ℕ → List ℕ → List ℕ
pad_loop zero i output_length encoded = encoded
pad_loop (suc count) i output_length encoded =
    pad_loop count (i + 1) output_length (set encoded (output_length - 1 - i) b'=')

pub base64_encode : List ℕ → List ℕ
base64_encode bytes =
    pad_loop (get_or mod_table (length bytes % 3) 0) 0 (4 * ((length bytes + 2) / 3))
      (encode_loop bytes)

-- The first `n` rounds of build_decoding_table, the last one first.
table_loop : ℕ → List ℕ → List ℕ
table_loop zero table = table
table_loop (suc i) table = set (table_loop i table) (letter i) i

pub build_decoding_table : (ℕ → ℕ) → List ℕ
build_decoding_table junk = table_loop 64 (malloc junk 256)

-- One letter: an equals sign counts as 0. The index is a `char`, negative from 128 on.
sextet : List ℕ → ℕ → Option ℕ
sextet table c =
    if c == b'='
    then some 0
    else (if ltb c 0x80 then (get_elem? table c >>= λ v. some (sign_extend v)) else none)

-- The rounds of the decoder, with `left` bytes of the output still to be written.
pub decode_loop : List ℕ → List ℕ → ℕ → Option (List ℕ)
decode_loop table [] left = some []
decode_loop table (c₁ ∷ c₂ ∷ c₃ ∷ c₄ ∷ rest) left = do
  a ← sextet table c₁
  b ← sextet table c₂
  c ← sextet table c₃
  d ← sextet table c₄
  let triple = wrap32 (a * 2 ^ 18 + b * 2 ^ 12 + c * 2 ^ 6 + d)
  later ← decode_loop table rest (left - 3)
  some (take left (triple / 2 ^ 16 % 0x100 ∷ triple / 2 ^ 8 % 0x100 ∷ triple % 0x100 ∷ []) ++ later)
decode_loop table _ left = none

-- 1 where `data[i]` is an equals sign.
equals_at : List ℕ → ℕ → Option ℕ
equals_at data_in i = get_elem? data_in i >>= λ c. some (if c == b'=' then 1 else 0)

-- `*output_length`; for no letters `data[input_length - 1]` lies before the buffer.
output_length : List ℕ → Option ℕ
output_length data_in =
    let n = length data_in in
    if n == 0 then none else (do
      last ← equals_at data_in (n - 1)
      before ← equals_at data_in (n - 2)
      some (n / 4 * 3 - last - before))

pub base64_decode : (ℕ → ℕ) → List ℕ → Option (Option (List ℕ))
base64_decode junk data_in =
    if length data_in % 4 == 0
    then (do
      size ← output_length data_in
      bytes ← decode_loop (build_decoding_table junk) data_in size
      some (some bytes))
    else some none
