-- ===== src/H264/Nal.antt =====
-- h264FileParser.cpp: the removal of emulation prevention bytes, and the NAL units between start
-- codes in a block of bytes. `none` of find_code, get_frame and initialize_file is the failure the
-- code returns (a null pointer or -1); `none` of nal_type and profile_level_id is a read outside
-- the bytes.
pub mod Escapes
pub mod Codes
use rtsp_server.Base.{
  ℕ, zero, suc, ◌+◌, ◌-◌, ◌*◌, ◌/◌, ◌%◌, Bool, true, false, ◌&&◌, ◌||◌, not, List, [], ◌∷◌, ◌++◌,
  Option, none, some, ltb, leb, ◌==◌, if◌then◌else◌, ◌>>=◌, length, take, drop, get_elem?, window,
  bit_or, min,
}

-- The inner loop of emulation_prevention: every byte takes the next one's place, from the first
-- on; the last stays.
unfoldable pub move_down : List ℕ → List ℕ
move_down [] = []
move_down (x ∷ []) = x ∷ []
move_down (x ∷ y ∷ rest) = y ∷ move_down (y ∷ rest)

-- Whether 00 00 03 stands at the front.
unfoldable pub is_escape : List ℕ → Bool
is_escape (a ∷ b ∷ c ∷ rest) = (a == 0) && (b == 0) && (c == 3)
is_escape short = false

-- The bytes at the front, the third one overwritten by those behind it.
unfoldable pub close_gap : List ℕ → List ℕ
close_gap (a ∷ b ∷ rest) = a ∷ b ∷ move_down rest
close_gap short = short

-- One round of the outer loop: the bytes from `i` on, and the length.
unfoldable pub round_bytes : List ℕ → List ℕ
round_bytes bytes = if is_escape bytes then close_gap bytes else bytes

unfoldable pub round_len : List ℕ → ℕ → ℕ
round_len bytes len = if is_escape bytes then len - 1 else len

-- The outer loop with some rounds to go, on the bytes from `i` on.
unfoldable pub emulation_loop : ℕ → List ℕ → ℕ → List ℕ × ℕ
emulation_loop zero bytes len = (bytes, len)
emulation_loop (suc left) bytes len =
    let (rest, len') = emulation_loop left (drop 1 (round_bytes bytes)) (round_len bytes len) in
    (take 1 (round_bytes bytes) ++ rest, len')

-- emulation_prevention: the block, whose size stays, and the length left of it.
unfoldable pub emulation_prevention : List ℕ → List ℕ × ℕ
emulation_prevention bytes = emulation_loop (length bytes - 2) bytes (length bytes)

-- A start code of 3 or 4 bytes at the front, or the number of bytes by which the search goes on.
pub data Front : Type 0 where
  start_code : ℕ → Front
  skip : ℕ → Front

unfoldable pub front : List ℕ → Front
front (a ∷ b ∷ c ∷ d ∷ rest) =
    if not ((a == 0) && (b == 0))
    then Front.skip 1
    else if c == 1
    then Front.start_code 3
    else if not (c == 0)
    then Front.skip 3
    else if d == 1
    then Front.start_code 4
    else Front.skip 1
front short = Front.skip 1

-- How many bytes the search goes past.
unfoldable pub step_width : Front → ℕ
step_width (Front.start_code n) = n
step_width (Front.skip n) = n

-- Where the search ends, or what it finds further on.
unfoldable pub found_or : Front → ℕ → Option (ℕ × ℕ) → Option (ℕ × ℕ)
found_or (Front.start_code n) pos later = some (pos, n)
found_or (Front.skip n) pos later = later

-- Either search of get_frame on the bytes from a position on: where the next start code is, and
-- how long it is. The fuel is the number of rounds left; every round goes past a byte.
unfoldable pub find_code : ℕ → ℕ → List ℕ → Option (ℕ × ℕ)
find_code zero pos bytes = none
find_code (suc fuel) pos bytes =
    let here = front bytes in
    let later = find_code fuel (pos + step_width here) (drop (step_width here) bytes) in
    if leb (length bytes) 4 then none else found_or here pos later

-- The unit behind a start code up to the next one, and where that one is.
unfoldable pub unit_from : List ℕ → ℕ → Option (List ℕ × ℕ)
unit_from bytes start = do
  (end_pos, m) ← find_code (length bytes) start (drop start bytes)
  some (window bytes start (end_pos - start), end_pos)

-- get_frame: the unit behind the first start code.
unfoldable pub get_frame : List ℕ → Option (List ℕ × ℕ)
get_frame bytes = do (pos, n) ← find_code (length bytes) 0 bytes; unit_from bytes (pos + n)

-- The NAL unit type of a unit that has a first byte.
unfoldable pub nal_type : List ℕ → Option ℕ
nal_type nal = do byte ← get_elem? nal 0; some (byte % 32)

-- h264_nal_slice_idr, h264_nal_sps and h264_nal_pps
abbrev pub nal_slice_idr : ℕ
nal_slice_idr = 5

abbrev pub nal_sps : ℕ
nal_sps = 7

abbrev pub nal_pps : ℕ
nal_pps = 8

-- A unit of the type wanted, from a result of get_frame; an empty one is refused.
unfoldable pub unit_of : ℕ → List ℕ → Bool
unit_of wanted [] = false
unit_of wanted (byte ∷ rest) = byte % 32 == wanted

-- initializeFile on the bytes of a file that opens: the sets of at most its first megabyte, if
-- these begin with a sequence parameter set and a picture parameter set follows.
unfoldable pub initialize_file : List ℕ → Option (List ℕ × List ℕ)
initialize_file content = do
  let buffer = take (1024 * 1024) content
  (sps, end_pos) ← get_frame buffer
  (pps, end_pos') ← get_frame (drop end_pos buffer)
  if unit_of nal_sps sps && unit_of nal_pps pps then some (sps, pps) else none

-- The profile-level-id of getSdpLines, from the sequence parameter set.
unfoldable pub profile_level_id : List ℕ → Option ℕ
profile_level_id sps = do
  let (bytes, len) = emulation_prevention sps
  a ← get_elem? bytes 1
  b ← get_elem? bytes 2
  c ← get_elem? bytes 3
  some (bit_or (bit_or (a * 0x1_0000) (b * 0x100)) c)
