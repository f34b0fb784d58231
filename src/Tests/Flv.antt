-- ===== src/Tests/Flv.antt =====
-- Recordings of a few bytes: what is written and what is read, and the ends that getNextFrame has.
use rtsp_server.Base.{
  ap, sym, zero, suc, ◌⊎◌, get_elem?, false, ℕ, ◌<◌, ◌≡◌, ◌≢◌, refl, Bool, true, List, [], ◌∷◌,
  ◌++◌, map, none, some, store, htonl, arith, leb,
}
use rtsp_server.File.Handler.{Handler, handler, is_read, current_file, overwrite, write_file}
use rtsp_server.File.Handler.Caching.{IsCached}
use rtsp_server.File.Handler.Ahead.{IsAhead}
use rtsp_server.H264.Nal.{nal_type}
use rtsp_server.Flv.Format.{fast_hton3, fast_htonll}
use rtsp_server.Flv.Tag.{
  tag_header, avc_header, nalu_tag, configuration_record, config_tag, config_size,
}
use rtsp_server.Flv.Writer.{Writer, put, note_idx, write_unit, write_units, update_duration}
use rtsp_server.Flv.Steps.{Parser, Header, Outcome}
use rtsp_server.Flv.Parser.Frames.{no_packet, get_next_frame}
use rtsp_server.Flv.Parser.Script.{parse_script_data}
use rtsp_server.Flv.Parser.Ends.{parse_script_data-Ends}
use rtsp_server.Flv.RoundTrip.{unit_packet}
use rtsp_server.Flv.Configuration.{sets_packet, get_next_frame-config_tag}
use rtsp_server.Flv.Recording.{
  IsAtEnd, all_slices, is_slice, is_key, unit_tags, map_file, frames, write_units-frames,
}
use rtsp_server.Flv.Metadata.{IsPatched, update_duration_lem}
use rtsp_server.Flv.Index.{Idx, nearest_loop, idx_bytes, are_words, nearest_loop_lem}
use rtsp_server.Tests.File.{reader, reader-IsCached, writer, writer-IsWritable}

-- Parameters of the writer.
abbrev of_int : ℕ → ℕ
of_int x = x

abbrev seconds : ℕ → ℕ
seconds x = x

abbrev no_header : Header
no_header = record {
  version = none;
  type_flags_audio = none;
  type_flags_video = none;
  data_offset = none;
}

-- A parser behind the first byte of a file.
abbrev parser : List ℕ → Parser
parser content = record {
  file = reader content 1;
  header = no_header;
  duration = 0;
  out = no_packet;
}

abbrev front_bytes : List ℕ
front_bytes = 70 ∷ []

abbrev size_before : List ℕ
size_before = 0 ∷ 0 ∷ 0 ∷ 0 ∷ []

-- A key frame and another one, and a time above 24 bits.
abbrev key_unit : List ℕ
key_unit = 0x65 ∷ 1 ∷ 2 ∷ []

abbrev other_unit : List ℕ
other_unit = 0x41 ∷ 3 ∷ []

abbrev time : ℕ
time = 0x100_0007

abbrev key_content : List ℕ
key_content = front_bytes ++ (size_before ++ (nalu_tag true time key_unit ++ []))

parse_script_data-Ends_example :
    parse_script_data
      (record { tag_type = 18; data_size = 9; timestamp = 0; timestamp_full = none })
      (parser key_content)
    ≢ Outcome.out_of_fuel
unfolding is_read
parse_script_data-Ends_example =
    parse_script_data-Ends
      (record { tag_type = 18; data_size = 9; timestamp = 0; timestamp_full = none })
      (parser key_content) refl

abbrev sps : List ℕ
sps = 0x67 ∷ 66 ∷ 0 ∷ 30 ∷ 5 ∷ []

abbrev pps : List ℕ
pps = 0x68 ∷ 9 ∷ []

-- The tag of both sets, byte by byte.
abbrev sets_tag : List ℕ
sets_tag =
    9 ∷ 0 ∷ 0 ∷ 23 ∷ 0 ∷ 0 ∷ 7 ∷ 0 ∷ 0 ∷ 0 ∷ 0 ∷ 0x17 ∷ 0 ∷ 0 ∷ 0 ∷ 0 ∷ 1 ∷ 66 ∷ 0 ∷ 30 ∷ 0xff
    ∷ 0xe1 ∷ 0 ∷ 5 ∷ 0x67 ∷ 66 ∷ 0 ∷ 30 ∷ 5 ∷ 1 ∷ 0 ∷ 2 ∷ 0x68 ∷ 9 ∷ 0 ∷ 0 ∷ 0 ∷ 34 ∷ []

sets_tag_test : config_tag time sps pps ≡ some sets_tag
unfolding config_tag configuration_record tag_header avc_header config_size fast_hton3
sets_tag_test = refl

abbrev sets_content : List ℕ
sets_content = front_bytes ++ (size_before ++ (sets_tag ++ []))

sets_content-IsAhead : IsAhead (parser sets_content).file (size_before ++ (sets_tag ++ []))
unfolding current_file is_read
sets_content-IsAhead = record {
  cached = reader-IsCached sets_content 1 (omega arith) (omega arith) (omega arith);
  left = refl;
}

get_next_frame-config_tag_example :
    (h : Handler) × (get_next_frame 1 (parser sets_content)
      ≡ Outcome.done tt (record (parser sets_content) { file = h; out = sets_packet time sps pps }))
    × IsAhead h (store 4 (htonl 34) ++ [])
    × (0 < current_file h)
unfolding current_file is_read config_size
get_next_frame-config_tag_example =
    get_next_frame-config_tag (parser sets_content) time 1 0x67 66 0 30 (5 ∷ []) pps sets_tag
      size_before [] sets_tag_test sets_content-IsAhead refl (omega arith) (omega arith)
      (omega arith) (omega arith)

-- A writer behind five bytes.
abbrev recorder : Writer
recorder = record {
  inited = true;
  file = writer (front_bytes ++ size_before) 5;
  idx = none;
  sps = none;
  pps = none;
  meta_data_size = 1;
  first_time_stamp = 0;
  first_keyframe_writed = true;
  file_size = 0;
  fps = 0;
  width = 0;
  height = 0;
  duration = 0;
  file_size_pos = 0;
  duration_pos = 0;
  fps_pos = 0;
  encoder = [];
}

abbrev two_units : List (List ℕ)
two_units = key_unit ∷ other_unit ∷ []

abbrev recorded : List ℕ
recorded = front_bytes ++ (size_before ++ unit_tags time two_units)

recorder-IsAtEnd : IsAtEnd recorder
recorder-IsAtEnd = record {
  writable = writer-IsWritable (front_bytes ++ size_before) 5 (omega arith);
  at_end = refl;
}

recorded-IsCached : IsCached (parser recorded).file
unfolding unit_tags nalu_tag tag_header avc_header
recorded-IsCached = reader-IsCached recorded 1 (omega arith) (omega arith) (omega arith)

recorded_test : map_file (write_units of_int seconds time two_units recorder) ≡ some recorded
unfolding map_file write_units write_unit nal_type put handler write_file is_read overwrite note_idx
    unit_tags is_key nalu_tag tag_header avc_header
recorded_test = refl

write_units-frames_example : frames 2 1 (parser recorded) ≡ some (map (unit_packet time) two_units)
unfolding current_file is_read all_slices is_slice
write_units-frames_example =
    write_units-frames of_int seconds recorder (parser recorded) time 1 two_units front_bytes
      size_before recorder-IsAtEnd refl refl (omega arith) refl (omega arith) recorded-IsCached
      recorded_test refl

update_duration_lem_example :
    IsPatched recorder.file 0 (fast_htonll 9) 5 (update_duration 9 recorder).file
update_duration_lem_example =
    update_duration_lem recorder 9 (writer-IsWritable (front_bytes ++ size_before) 5 (omega arith))
      (omega arith)

-- An index of two entries.
abbrev entries : List Idx
entries = record { time = 2; offset = 20 } ∷ record { time = 5; offset = 50 } ∷ []

abbrev geq : ℕ → ℕ → Bool
geq a b = leb b a

entries-IsAhead : IsAhead (reader (idx_bytes geq entries) 0) (idx_bytes geq entries)
unfolding idx_bytes current_file is_read
entries-IsAhead = record {
  cached = reader-IsCached (idx_bytes geq entries) 0 (omega arith) (omega arith) (omega arith);
  left = refl;
}

nearest_loop_lem_example :
    (found : Idx) × (h' : Handler) × (nearest_loop geq 2 5
        (record { time = 0; offset = 0 })
        (reader (idx_bytes geq entries) 0)
      ≡ some (some found, h'))
    × (((◌≡◌ {A = ℕ} 20 0) × (found ≡ record { time = 5; offset = 50 }))
        ⊎ ((◌≢◌ {A = ℕ} 20 0) × (found ≡ record { time = 2; offset = 20 })))
unfolding are_words
nearest_loop_lem_example =
    nearest_loop_lem geq 2 5 (record { time = 0; offset = 0 }) entries
      (reader (idx_bytes geq entries) 0) 1 (record { time = 5; offset = 50 })
      (record { time = 2; offset = 20 }) entries-IsAhead refl (omega arith) refl refl refl
      (λ j y below e. early j y below e)
  where
    early : (j : ℕ) (y : Idx) → j < 1 → get_elem? entries j ≡ some y → geq y.time 5 ≡ false
    early zero y below e = ap (λ o. elim o [ none ↦ false | some x ↦ geq x.time 5 ]) (sym e)
    early (suc j) y below e = absurd (omega arith)
