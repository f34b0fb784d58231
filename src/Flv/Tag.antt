-- ===== src/Flv/Tag.antt =====
-- The tags that flvWriter::writePacket writes: a block of memory, filled from the front.
use rtsp_server.Base.{
  ℕ, ◌+◌, ◌*◌, ◌/◌, ◌%◌, List, ◌∷◌, ◌++◌, Option, some, ◌>>=◌, length, get_elem?, bit_or, store,
  htonl, htons, Bool, if◌then◌else◌,
}
use rtsp_server.Flv.Format.{fast_hton3}

-- The 11 bytes in front: tagType, dataSize, timestamp, timestampExtended and streamID.
unfoldable pub tag_header : ℕ → ℕ → List ℕ
tag_header data_size timestamp =
    9
    ∷ (store 3 (fast_hton3 data_size)
        ++ (store 3 (fast_hton3 (timestamp % 0x100_0000))
            ++ (fast_hton3 (timestamp / 0x100_0000 % 0x100) % 0x100 ∷ store 3 (fast_hton3 0))))

-- The video data and the AVC packet: frameType and codecID, avcPacketType, compositionTime.
unfoldable pub avc_header : ℕ → ℕ → List ℕ
avc_header frame_type packet_type =
    bit_or (frame_type % 16 * 16) (7 % 16) ∷ packet_type ∷ store 3 (fast_hton3 0)

-- The tag of a NAL unit, and its size behind it.
unfoldable pub nalu_tag : Bool → ℕ → List ℕ → List ℕ
nalu_tag is_key timestamp nal =
    tag_header (length nal + 9) timestamp
    ++ (avc_header (if is_key then 1 else 2) 1
        ++ (store 4 (htonl (length nal)) ++ (nal ++ store 4 (htonl (length nal + 9 + 11)))))

-- The AVCDecoderConfigurationRecord up to its picture parameter set: version, profile,
-- compatibility, level, the sizes and counts, and the sequence parameter set.
unfoldable pub configuration_record : List ℕ → Option (List ℕ)
configuration_record sps = do
  profile ← get_elem? sps 1
  compatibility ← get_elem? sps 2
  level ← get_elem? sps 3
  some (
      1
      ∷ profile
      ∷ compatibility
      ∷ level
      ∷ bit_or (0x3f * 4) 3
      ∷ bit_or (7 * 32) 1
      ∷ (store 2 (htons (length sps)) ++ sps))

-- dataSize of the tag with both parameter sets.
unfoldable pub config_size : List ℕ → List ℕ → ℕ
config_size sps pps = 1 + 4 + 7 + 2 + length sps + 2 + length pps

-- That tag, and its size behind it; `none` is a read behind a short sequence parameter set.
unfoldable pub config_tag : ℕ → List ℕ → List ℕ → Option (List ℕ)
config_tag timestamp sps pps = do
  front ← configuration_record sps
  some (
      tag_header (config_size sps pps) timestamp
      ++ (avc_header 1 0
          ++ (front
              ++ (1
                  ∷ (store 2 (htons (length pps))
                      ++ (pps ++ store 4 (htonl (config_size sps pps + 11))))))))
