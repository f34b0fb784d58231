-- ===== src/H264/Sps.antt =====
-- flvWriter::parseSps (flvWriter.cpp): the size of the picture and the frame rate, read from a
-- sequence parameter set. `none` is a fault: a read outside the set, or a division by 0.
use rtsp_server.Base.{
  ℕ, zero, suc, ◌+◌, ◌-◌, ◌*◌, ◌/◌, ◌%◌, Bool, ◌&&◌, ◌||◌, not, List, Option, none, some, ltb, leb,
  ◌==◌, if◌then◌else◌, ◌>>=◌, take, wrap32, sub32, word32,
}
use rtsp_server.Codec.BitReader.{
  Reader, set_bit_reader, read_bit, read_bits, read_exponential_golomb_code, read_se,
}
use rtsp_server.H264.Nal.{emulation_prevention}

-- Reads whose value is not used.
skip_codes : ℕ → Reader → Option Reader
skip_codes zero r = some r
skip_codes (suc n) r = do (code, r') ← read_exponential_golomb_code r; skip_codes n r'

skip_signed : ℕ → Reader → Option Reader
skip_signed zero r = some r
skip_signed (suc n) r = do (code, r') ← read_se r; skip_signed n r'

-- `next` is run if a flag that is read is set.
if_set : (Reader → Option Reader) → Reader → Option Reader
if_set next r = do (flag, r') ← read_bit r; if flag == 0 then some r' else next r'

skip_bits : ℕ → Reader → Option Reader
skip_bits n r = do (bits, r') ← read_bits n r; some r'

-- nextScale from lastScale and delta_scale: an `int` remainder, which has the sign of the sum.
pub next_scale : ℕ → ℕ → ℕ
next_scale last delta =
    let sum = wrap32 (last + delta + 256) in
    if ltb sum 0x8000_0000 then sum % 256 else wrap32 (word32 - (word32 - sum) % 256)

-- A scaling list with some entries to go.
pub scaling_list : ℕ → ℕ → ℕ → Reader → Option Reader
scaling_list zero last next r = some r
scaling_list (suc left) last next r = if next == 0 then scaling_list left last next r else (do
  (delta, r') ← read_se r
  let next' = next_scale last delta
  scaling_list left (if next' == 0 then last else next') next' r')

-- The scaling lists from number `i` on.
pub scaling_lists : ℕ → ℕ → Reader → Option Reader
scaling_lists zero i r = some r
scaling_lists (suc left) i r = do
  r₁ ← if_set (scaling_list (if ltb i 6 then 16 else 64) 8 8) r
  scaling_lists left (i + 1) r₁

-- The profiles that carry a chroma format.
pub has_chroma_format : ℕ → Bool
has_chroma_format profile =
    (profile == 100)
    || (profile == 110)
    || (profile == 122)
    || (profile == 244)
    || (profile == 44)
    || (profile == 83)
    || (profile == 86)
    || (profile == 118)

-- The part that only these profiles have.
pub chroma_part : Reader → Option Reader
chroma_part r = do
  (chroma_format_idc, r₁) ← read_exponential_golomb_code r
  r₂ ← if chroma_format_idc == 3 then skip_bits 1 r₁ else some r₁
  r₃ ← skip_codes 2 r₂
  r₄ ← skip_bits 1 r₃
  if_set (scaling_lists 8 0) r₄

-- A count that is an `int`: no rounds where it is negative.
pub rounds : ℕ → ℕ
rounds count = if ltb count 0x8000_0000 then count else 0

-- The part on the order of pictures.
pub order_part : Reader → Option Reader
order_part r = do
  r₁ ← skip_codes 1 r
  (pic_order_cnt_type, r₂) ← read_exponential_golomb_code r₁
  if pic_order_cnt_type == 0
      then skip_codes 1 r₂
      else if pic_order_cnt_type == 1
      then (do
        r₃ ← skip_bits 1 r₂
        r₄ ← skip_signed 2 r₃
        (count, r₅) ← read_exponential_golomb_code r₄
        skip_signed (rounds count) r₅)
      else some r₂

-- frame_crop_left_offset, right, top and bottom.
pub record Crop : Type 0 where
  pub left : ℕ
  pub right : ℕ
  pub top : ℕ
  pub bottom : ℕ

pub crop_part : Reader → Option (Crop × Reader)
crop_part r = do
  (flag, r₁) ← read_bit r
  if flag == 0 then some (record { left = 0; right = 0; top = 0; bottom = 0 }, r₁) else (do
    (l, r₂) ← read_exponential_golomb_code r₁
    (ri, r₃) ← read_exponential_golomb_code r₂
    (t, r₄) ← read_exponential_golomb_code r₃
    (b, r₅) ← read_exponential_golomb_code r₄
    some (record { left = l; right = ri; top = t; bottom = b }, r₅))

-- Width and Height, an `int` each, in the order in which the code subtracts.
unfoldable pub width_of : ℕ → Crop → ℕ
width_of mbs crop =
    sub32 (sub32 (wrap32 ((mbs + 1) * 16)) (wrap32 (crop.bottom * 2))) (wrap32 (crop.top * 2))

unfoldable pub height_of : ℕ → ℕ → Crop → ℕ
height_of frame_mbs_only units crop =
    sub32 (sub32 (wrap32 (sub32 2 frame_mbs_only * (units + 1) * 16)) (wrap32 (crop.right * 2)))
      (wrap32 (crop.left * 2))

-- A quotient of two `int`s, which faults on 0.
pub int_div : ℕ → ℕ → Option ℕ
int_div a b =
    let negative = λ (x : ℕ). leb 0x8000_0000 x in
    let size = λ (x : ℕ). if leb 0x8000_0000 x then word32 - x else x in
    if b == 0
    then none
    else (let quotient = size a / size b in
        some (
          if (negative a && not (negative b)) || (negative b && not (negative a))
          then wrap32 (word32 - quotient)
          else quotient))

-- The frame rate, if the set has timing information.
pub timing_part : Reader → Option (Option ℕ)
timing_part r = do
  (flag, r₁) ← read_bit r
  if flag == 0 then some none else (do
    (num_units_in_tick, r₂) ← read_bits 32 r₁
    (time_scale, r₃) ← read_bits 32 r₂
    fps ← int_div time_scale (wrap32 (2 * num_units_in_tick))
    some (some fps))

-- The usability information, up to the timing.
pub vui_part : Reader → Option (Option ℕ)
vui_part r = do
  r₁ ← if_set aspect r
  r₂ ← if_set (skip_bits 1) r₁
  r₃ ← if_set video_signal r₂
  r₄ ← if_set (skip_codes 2) r₃
  timing_part r₄
  where
    aspect : Reader → Option Reader
    aspect r = do
      (aspect_ratio_idc, r₁) ← read_bits 8 r
      if aspect_ratio_idc == 255 then (do r₂ ← skip_bits 16 r₁; skip_bits 16 r₂) else some r₁

    video_signal : Reader → Option Reader
    video_signal r = do
      r₁ ← skip_bits 3 r
      r₂ ← skip_bits 1 r₁
      if_set (λ r₃. do r₄ ← skip_bits 8 r₃; r₅ ← skip_bits 8 r₄; skip_bits 8 r₅) r₂

-- What parseSps sets: m_width, m_height, and m_fps if there is one.
pub record Dimensions : Type 0 where
  pub width : ℕ
  pub height : ℕ
  pub fps : Option ℕ

-- The set from the size of the picture on.
pub size_part : Reader → Option Dimensions
size_part r = do
  r₁ ← skip_codes 1 r
  r₂ ← skip_bits 1 r₁
  (mbs, r₃) ← read_exponential_golomb_code r₂
  (units, r₄) ← read_exponential_golomb_code r₃
  (frame_mbs_only, r₅) ← read_bit r₄
  r₆ ← if frame_mbs_only == 0 then skip_bits 1 r₅ else some r₅
  r₇ ← skip_bits 1 r₆
  (crop, r₈) ← crop_part r₇
  (flag, r₉) ← read_bit r₈
  fps ← if flag == 0 then some none else vui_part r₉
  some (record {
    width = width_of mbs crop;
    height = height_of frame_mbs_only units crop;
    fps = fps;
  })

-- The bytes in front: the header, the profile with its flags, and the level.
pub sps_body : Reader → Option Dimensions
sps_body r = do
  r₁ ← skip_bits 8 r
  (profile_idc, r₂) ← read_bits 8 r₁
  r₃ ← skip_flags 6 r₂
  r₄ ← skip_bits 2 r₃
  r₅ ← skip_bits 8 r₄
  r₆ ← skip_codes 1 r₅
  r₇ ← if has_chroma_format profile_idc then chroma_part r₆ else some r₆
  r₈ ← order_part r₇
  size_part r₈
  where
    skip_flags : ℕ → Reader → Option Reader
    skip_flags zero r = some r
    skip_flags (suc n) r = do (flag, r') ← read_bit r; skip_flags n r'

-- parseSps on a set that is there.
unfoldable pub parse_sps : List ℕ → Option Dimensions
parse_sps sps =
    let (bytes, len) = emulation_prevention sps in sps_body (set_bit_reader (take len bytes))
