-- ===== src/Codec/BitReader.antt =====
-- class CBitReader (BitReader.h, BitReader.cpp): bits read from bytes, the highest of a byte first.
-- The counters are plain numbers (an `int` there); a result is a 32-bit word. `none` is a read
-- outside the buffer.
pub mod Bits
pub mod Golomb
pub mod Aligned
use rtsp_server.Base.{
  ℕ, zero, suc, ◌+◌, ◌-◌, ◌*◌, ◌/◌, ◌%◌, ◌^◌, Bool, ◌&&◌, List, Option, none, some, ltb, ◌==◌,
  if◌then◌else◌, ◌>>=◌, length, get_elem?, wrap32, bit_or, big32,
}

-- m_buf, m_curBit and m_TotalByte
pub record Reader : Type 0 where
  pub buf : List ℕ
  pub cur_bit : ℕ
  pub total_byte : ℕ

-- SetBitReader on a buffer that is not null: its bytes, copied or shared.
pub set_bit_reader : List ℕ → Reader
set_bit_reader buf = record { buf = buf; cur_bit = 0; total_byte = length buf }

-- The -1 that ReadBit returns behind the end.
abbrev pub out_of_range : ℕ
out_of_range = 0xffff_ffff

pub read_bit : Reader → Option (ℕ × Reader)
read_bit r = if ltb (r.total_byte * 8) r.cur_bit then some (out_of_range, r) else (do
  byte ← get_elem? r.buf (r.cur_bit / 8)
  some (byte / 2 ^ (8 - (r.cur_bit % 8 + 1)) % 2, record r { cur_bit = r.cur_bit + 1 }))

-- The loop of ReadBits with `left` rounds to go.
pub read_bits_loop : ℕ → ℕ → Reader → Option (ℕ × Reader)
read_bits_loop zero acc r = some (acc, r)
read_bits_loop (suc left) acc r = do
  (bit, r') ← read_bit r
  read_bits_loop left (bit_or acc (wrap32 (bit * 2 ^ left))) r'

pub read_bits : ℕ → Reader → Option (ℕ × Reader)
read_bits n r = read_bits_loop n 0 r

-- Read32Bits, which does not look at the end of the buffer.
pub read_32_bits : Reader → Option (ℕ × Reader)
read_32_bits r = do
  let index = r.cur_bit / 8
  a ← get_elem? r.buf index
  b ← get_elem? r.buf (index + 1)
  c ← get_elem? r.buf (index + 2)
  d ← get_elem? r.buf (index + 3)
  some (big32 a b c d, record r { cur_bit = r.cur_bit + 32 })

pub current_bit_count : Reader → ℕ
current_bit_count r = r.cur_bit

pub current_byte_count : Reader → ℕ
current_byte_count r = r.cur_bit / 8

pub ignore_bytes : ℕ → Reader → Reader
ignore_bytes n r = record r { cur_bit = r.cur_bit + n * 8 }

-- The loop that counts zeros: a bit is read before the count is compared with 32. The fuel is the
-- number of rounds left.
count_zeros : ℕ → ℕ → Reader → Option (ℕ × Reader)
count_zeros zero i r = none
count_zeros (suc fuel) i r = read_bit r >>= λ (bit, r').
    let rest = count_zeros fuel (i + 1) r' in if (bit == 0) && ltb i 32 then rest else some (i, r')

pub read_exponential_golomb_code : Reader → Option (ℕ × Reader)
read_exponential_golomb_code r = do
  (i, r₁) ← count_zeros 33 0 r
  (bits, r₂) ← read_bits i r₁
  some (wrap32 (bits + (2 ^ i - 1)), r₂)

-- Half of an `int`, towards zero; a word from 2^31 on stands for a negative one.
unfoldable pub half_int : ℕ → ℕ
half_int r = if ltb r 0x8000_0000 then r / 2 else wrap32 (0x1_0000_0000 - (0x1_0000_0000 - r) / 2)

-- The value of ReadSE, from that of ReadExponentialGolombCode.
pub signed_code : ℕ → ℕ
unfolding half_int
signed_code r =
    if r % 2 == 1 then half_int (wrap32 (r + 1)) else wrap32 (0x1_0000_0000 - half_int r)

pub read_se : Reader → Option (ℕ × Reader)
read_se r = do (code, r') ← read_exponential_golomb_code r; some (signed_code code, r')
