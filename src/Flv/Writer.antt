-- ===== src/Flv/Writer.antt =====
-- class flvWriter (flvWriter.h and flvWriter.cpp), and flvIdxWriter::appendIdx (flvIdx.cpp). A
-- `double` is the word of its bits. `none` is a fault. The locks and the log are left out, and so
-- is the copy that addTimedPacket makes of the packet's units.
use rtsp_server.Base.{
  ℕ, ◌+◌, ◌-◌, ◌%◌, ◌^◌, Bool, true, false, not, ◌||◌, List, [], ◌∷◌, ◌++◌, Option, none, some, ltb,
  ◌==◌, if◌then◌else◌, ◌>>=◌, length, store, htonl, htons, codes,
}
use rtsp_server.File.Handler.{Handler, Origin, handler, write_file, seek, current_file}
use rtsp_server.H264.Nal.{nal_type, nal_slice_idr, nal_sps, nal_pps}
use rtsp_server.H264.Sps.{parse_sps}
use rtsp_server.Flv.Format.{fast_hton3, fast_htonll}
use rtsp_server.Flv.Packet.{PacketType}
use rtsp_server.Flv.Tag.{nalu_tag, config_tag}

-- The members of flvWriter on a file that is open. `meta_data_size` is m_metaData.size, `idx`
-- the file of m_idxWriter if there is one.
pub record Writer : Type 0 where
  pub inited : Bool
  pub file : Handler
  pub idx : Option Handler
  pub sps : Option (List ℕ)
  pub pps : Option (List ℕ)
  pub meta_data_size : ℕ
  pub first_time_stamp : ℕ
  pub first_keyframe_writed : Bool
  pub file_size : ℕ
  pub fps : ℕ
  pub width : ℕ
  pub height : ℕ
  pub duration : ℕ
  pub file_size_pos : ℕ
  pub duration_pos : ℕ
  pub fps_pos : ℕ
  pub encoder : List ℕ

-- The constructor, and initFile where both files are new.
unfoldable pub create : Handler → Option Handler → List ℕ → Writer
create file idx encoder = record {
  inited = true;
  file = file;
  idx = idx;
  sps = none;
  pps = none;
  meta_data_size = 0;
  first_time_stamp = 0;
  first_keyframe_writed = false;
  file_size = 0;
  fps = 0;
  width = 0;
  height = 0;
  duration = 0;
  file_size_pos = 0;
  duration_pos = 0;
  fps_pos = 0;
  encoder = encoder;
}

-- A write whose result nobody looks at.
unfoldable pub put : List ℕ → Writer → Writer
put bytes w = record w { file = handler (write_file bytes w.file) }

-- appendIdx: the time and the offset, 8 bytes each, in the order of the memory.
unfoldable pub append_idx : ℕ → ℕ → Handler → Handler
append_idx time offset idx =
    handler (write_file (store 8 offset) (handler (write_file (store 8 time) idx)))

-- updateDuration
unfoldable pub update_duration : ℕ → Writer → Writer
update_duration time_duration w =
    let cur = current_file w.file in
    let sought = handler (seek w.duration_pos Origin.seek_set w.file) in
    let written = handler (write_file (store 8 (fast_htonll time_duration)) sought) in
    record w { file = handler (seek cur Origin.seek_set written) }

-- The keys of the array, each with its length in front and the type of its value behind.
unfoldable pub key : List ℕ → ℕ → List ℕ
key name type = store 2 (htons (length name)) ++ (name ++ (type ∷ []))

abbrev double_bytes : ℕ → List ℕ
double_bytes value = store 8 (fast_htonll value)

-- The header of the file and the script tag up to its value.
unfoldable pub flv_header : List ℕ
flv_header = codes "FLV" ++ (1 ∷ 1 ∷ (store 4 (htonl 9) ++ store 4 (htonl 0)))

-- What is behind the header of the script tag, up to the value of m_fps, of m_duration and of
-- m_fileSize, and to the end.
unfoldable pub script_to_fps : List ℕ
script_to_fps =
    2
    ∷ (store 2 (htons 10)
        ++ (codes "onMetaData" ++ (8 ∷ (store 4 (htonl 6) ++ key (codes "framerate") 0))))

unfoldable pub script_to_duration : Writer → List ℕ
script_to_duration w =
    script_to_fps
    ++ (double_bytes w.fps
        ++ (key (codes "width") 0
            ++ (double_bytes w.width
                ++ (key (codes "height") 0
                    ++ (double_bytes w.height ++ key (codes "duration") 0)))))

unfoldable pub script_to_file_size : Writer → List ℕ
script_to_file_size w =
    script_to_duration w ++ (double_bytes w.duration ++ key (codes "fileSize") 0)

unfoldable pub script_data : Writer → List ℕ
script_data w =
    script_to_file_size w
    ++ (double_bytes w.file_size
        ++ (key (codes "encoder") 2
            ++ (store 2 (htons (length w.encoder)) ++ (w.encoder ++ store 3 (fast_hton3 9)))))

-- The script tag, with dataSize filled in behind, and its size.
unfoldable pub script_tag : Writer → List ℕ
script_tag w =
    let size = length (script_data w) in
    18
    ∷ (store 3 (fast_hton3 size)
        ++ (store 4 (htonl 0) ++ (store 3 0 ++ (script_data w ++ store 4 (htonl (size + 11))))))

-- maxMetaDataSize
abbrev max_meta_data_size : ℕ
max_meta_data_size = 8192

module _ (of_int : ℕ → ℕ) where
  -- generateMetaData where both sets are there, with `of_int` for the conversion of an `int` to a
  -- `double`.
  unfoldable pub generate_meta_data : List ℕ → Writer → Option Writer
  generate_meta_data sps w = do
    dimensions ← parse_sps sps
    let w₁ = record w {
      width = of_int dimensions.width;
      height = of_int dimensions.height;
      fps = elim dimensions.fps [ none ↦ w.fps | some fps ↦ of_int fps ];
    }
    let start = length flv_header + 11
    let w₂ = record w₁ {
      fps_pos = start + length script_to_fps;
      duration_pos = start + length (script_to_duration w₁);
      file_size_pos = start + length (script_to_file_size w₁);
    }
    let buffer = flv_header ++ script_tag w₂
    if ltb max_meta_data_size (length buffer)
        then none
        else some (record (put buffer w₂) { meta_data_size = 1 })

  -- updateFileSize
  unfoldable pub update_file_size : Writer → Writer
  update_file_size w =
      let at_end = handler (seek 0 Origin.seek_end w.file) in
      let size = current_file at_end in
      let sought = handler (seek w.file_size_pos Origin.seek_set at_end) in
      record w { file = handler (write_file (store 8 (fast_htonll (of_int size))) sought) }

  module _ (seconds : ℕ → ℕ) where
    -- One unit of writePacket, with `seconds` for the division by 1000.0.
    unfoldable pub note_idx : ℕ → Writer → Writer
    note_idx timestamp w = record w {
      idx = elim w.idx [
        | none ↦ none
        | some idx ↦ some (append_idx (seconds timestamp) (current_file w.file - 4) idx)
      ];
    }

    unfoldable pub write_config : ℕ → Writer → Option Writer
    write_config timestamp w = do
      sps ← w.sps
      pps ← w.pps
      tag ← config_tag timestamp sps pps
      some (put tag w)

    unfoldable pub write_unit : ℕ → List ℕ → Writer → Option Writer
    write_unit timestamp nal w = do
      type ← nal_type nal
      if type == nal_sps
          then some (note_idx timestamp w)
          else if type == nal_pps
          then write_config timestamp w
          else if type == nal_slice_idr
          then some (put (nalu_tag true timestamp nal) (note_idx timestamp w))
          else some (put (nalu_tag false timestamp nal) w)

    unfoldable pub write_units : ℕ → List (List ℕ) → Writer → Option Writer
    write_units timestamp [] w = some w
    write_units timestamp (nal ∷ rest) w = write_unit timestamp nal w >>= write_units timestamp rest

    -- writePacket
    unfoldable pub write_packet : PacketType → ℕ → List (List ℕ) → Writer → Option Writer
    write_packet PacketType.raw_h264_frame timestamp units w = write_units timestamp units w
    write_packet PacketType.flv_pkt_audio timestamp units w = some w
    write_packet PacketType.flv_pkg_video timestamp units w = some w

    -- The units from the first key frame on, if there is one.
    unfoldable pub from_key_frame : List (List ℕ) → Option (List (List ℕ))
    from_key_frame [] = some []
    from_key_frame (nal ∷ rest) =
        let later = from_key_frame rest in
        nal_type nal >>= λ type. if type == nal_slice_idr then some (nal ∷ rest) else later

    -- processPacket, whose result is false in any case.
    unfoldable pub process_packet : PacketType → ℕ → List (List ℕ) → Writer → Option Writer
    process_packet type timestamp units w = if w.meta_data_size == 0 then some w else (do
      units' ← if w.first_keyframe_writed then some units else from_key_frame units
      let w₁ = record w { first_keyframe_writed = w.first_keyframe_writed || ltb 0 (length units') }
      if length units' == 0 then some w₁ else (do
        w₂ ← write_packet type timestamp units' w₁
        some (update_duration w₂.duration w₂)))

    abbrev sub64 : ℕ → ℕ → ℕ
    sub64 a b = (a + 2 ^ 64 - b) % 2 ^ 64

    -- The units of addTimedPacket that may be parameter sets, while one of these is missing
    -- before the packet.
    unfoldable pub take_sets : ℕ → List (List ℕ) → Writer → Option Writer
    take_sets timestamp [] w = some w
    take_sets timestamp (nal ∷ rest) w = do
      type ← nal_type nal
      w₁ ←
          if type == nal_sps
          then some (record w { sps = some nal; first_time_stamp = timestamp })
          else if type == nal_pps
          then (do
            w' ← elim w.sps [
              | none ↦ some (record w { pps = some nal })
              | some sps ↦ generate_meta_data sps (record w { pps = some nal })
            ]
            some (record w' { first_time_stamp = timestamp }))
          else some w
      take_sets timestamp rest w₁

    -- Whether m_sps.data and m_pps.data are both there.
    unfoldable pub has_sets : Writer → Bool
    has_sets w = elim w.sps [
      | none ↦ false
      | some sps ↦ elim w.pps [ none ↦ false | some pps ↦ true ]
    ]

    -- addTimedPacket; the Boolean is its result.
    unfoldable pub add_timed_packet :
        PacketType → ℕ → List (List ℕ) → Writer → Option (Bool × Writer)
    add_timed_packet type timestamp units w = if not w.inited then some (false, w) else (do
      let w₁ = record w { duration = seconds (sub64 timestamp w.first_time_stamp) }
      w₂ ← if has_sets w₁ then some w₁ else take_sets timestamp units w₁
      w₃ ←
          if has_sets w₂
          then process_packet type (sub64 timestamp w₂.first_time_stamp) units w₂
          else some w₂
      some (true, w₃))

  -- The destructor, with what it leaves in the file.
  unfoldable pub finish : Writer → Writer
  finish w = let w' = update_file_size w in update_duration w'.duration w'
