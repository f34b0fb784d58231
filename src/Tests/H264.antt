-- ===== src/Tests/H264.antt =====
-- NAL units and parameter sets of a few bytes.
use rtsp_server.Base.{ℕ, ◌+◌, ◌-◌, ◌≤◌, ◌≡◌, refl, List, [], ◌∷◌, some, window}
use rtsp_server.H264.Nal.{
  front, step_width, found_or, find_code, unit_from, get_frame, emulation_prevention,
  emulation_loop, round_bytes, round_len, is_escape, close_gap, move_down, initialize_file, unit_of,
  profile_level_id,
}
use rtsp_server.H264.Nal.Codes.{IsCode, get_frame-IsCode}

-- Two units behind their start codes, and a third start code.
abbrev block : List ℕ
block = 0 ∷ 0 ∷ 0 ∷ 1 ∷ 0x67 ∷ 66 ∷ 0 ∷ 30 ∷ 0 ∷ 0 ∷ 1 ∷ 0x68 ∷ 9 ∷ 0 ∷ 0 ∷ 1 ∷ 5 ∷ 6 ∷ 7 ∷ []

get_frame_test : get_frame block ≡ some (0x67 ∷ 66 ∷ 0 ∷ 30 ∷ [], 8)
unfolding get_frame unit_from find_code found_or front step_width
get_frame_test = refl

get_frame-IsCode_example :
    (pos n m : ℕ) × IsCode block pos n
    × IsCode block 8 m
    × (pos + n ≤ 8)
    × (0x67 ∷ 66 ∷ 0 ∷ 30 ∷ [] ≡ window block (pos + n) (8 - (pos + n)))
get_frame-IsCode_example = get_frame-IsCode block (0x67 ∷ 66 ∷ 0 ∷ 30 ∷ []) 8 get_frame_test

initialize_file_test : initialize_file block ≡ some (0x67 ∷ 66 ∷ 0 ∷ 30 ∷ [], 0x68 ∷ 9 ∷ [])
unfolding initialize_file get_frame unit_from find_code found_or front step_width unit_of
initialize_file_test = refl

-- An escape is removed; the block stays as long, its last byte twice.
escape_test : emulation_prevention (7 ∷ 0 ∷ 0 ∷ 3 ∷ 1 ∷ 9 ∷ []) ≡ (7 ∷ 0 ∷ 0 ∷ 1 ∷ 9 ∷ 9 ∷ [], 5)
unfolding emulation_prevention emulation_loop round_bytes round_len is_escape close_gap move_down
escape_test = refl

-- Of the bytes 00 00 00 03, escaped to 00 00 03 00 03, the last one is removed as well.
double_escape_test :
    emulation_prevention (0 ∷ 0 ∷ 3 ∷ 0 ∷ 3 ∷ 8 ∷ []) ≡ (0 ∷ 0 ∷ 0 ∷ 8 ∷ 8 ∷ 8 ∷ [], 4)
unfolding emulation_prevention emulation_loop round_bytes round_len is_escape close_gap move_down
double_escape_test = refl

profile_level_id_test : profile_level_id (0x67 ∷ 66 ∷ 0 ∷ 30 ∷ []) ≡ some 0x42001e
unfolding profile_level_id emulation_prevention emulation_loop round_bytes round_len is_escape
    close_gap move_down
profile_level_id_test = refl
