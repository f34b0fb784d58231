-- ===== src/Flv/Parser/Video.antt =====
-- flvParser::parserVideoData: the units of an AVC packet.
use rtsp_server.Base.{
  ℕ, zero, suc, ◌+◌, ◌-◌, ◌%◌, Bool, true, false, not, none, some, leb, ◌==◌, if◌then◌else◌, load,
  htonl, htons,
}
use rtsp_server.Flv.Format.{fast_hton3}
use rtsp_server.Flv.Packet.{PacketType}
use rtsp_server.Flv.Steps.{
  Step, pure, crash, ◌>>=◌, ◌>>◌, exhausted, attempt, require, read, byte_of, position, seek_to,
  push, set_type, set_timestamp,
}
use rtsp_server.Flv.Parser.{Tag}

-- A parameter set with its length in front; the result is what readFile returns in the end.
unfoldable pub read_set : Step ℕ
read_set = do size ← read 2; bytes ← read (htons (load size)); push bytes; pure (htons (load size))

-- The sequence parameter sets; the Boolean is `result`.
unfoldable pub sps_loop : ℕ → Step Bool
sps_loop zero = pure true
sps_loop (suc left) = do
  size ← attempt read_set
  elim size [ none ↦ pure false | some n ↦ sps_loop left ]

-- The picture parameter sets, `ret` the last return of readFile. It is compared with 1 before
-- each of them.
unfoldable pub pps_loop : ℕ → ℕ → Step Bool
pps_loop zero ret = pure true
pps_loop (suc left) ret =
    if not (ret == 1)
    then pure false
    else (do size ← attempt read_set; elim size [ none ↦ pure false | some n ↦ pps_loop left n ])

-- avcPacketType 0: the configuration record.
unfoldable pub read_configuration : Step (Unit {0})
read_configuration = do
  version ← read 1
  profile ← read 1
  compatibility ← read 1
  level ← read 1
  size_minus_one ← read 1
  sps_count ← read 1
  sps_result ← sps_loop (byte_of sps_count % 32)
  pps_count ← read 1
  pps_result ← pps_loop (byte_of pps_count) 1
  require sps_result
  require pps_result

-- One unit of avcPacketType 1; `tmp32` is what the last read of a size has left, for a read that
-- fails. The result is that variable again. A block of a negative size is not allocated.
unfoldable pub read_unit : ℕ → Step ℕ
read_unit tmp32 = do
  size ← attempt (read 4)
  let word : ℕ = elim size [ none ↦ tmp32 | some bytes ↦ load bytes ]
  bytes ← if leb 0x8000_0000 (htonl word) then crash else read (htonl word)
  push bytes
  pure word

-- The loop over these units with `left` bytes of the tag to go, on fuel; each round takes four
-- bytes or more.
unfoldable pub unit_loop : ℕ → ℕ → ℕ → Step (Unit {0})
unit_loop zero left tmp32 = exhausted
unit_loop (suc fuel) left tmp32 =
    if left == 0
    then pure tt
    else (do word ← read_unit tmp32; unit_loop fuel (left - (4 + htonl word)) word)

-- The part of parserVideoData behind the byte of the codec, for AVC.
unfoldable pub read_avc : Tag → Step (Unit {0})
read_avc tag = do
  packet_type ← read 1
  time ← read 3
  set_type PacketType.raw_h264_frame
  set_timestamp tag.timestamp_full
  if byte_of packet_type == 0
      then read_configuration
      else if byte_of packet_type == 1
      then unit_loop (tag.data_size + 1) (tag.data_size - 5) (fast_hton3 (load time))
      else pure tt

-- parserVideoData
unfoldable pub parser_video_data : Tag → Step (Unit {0})
parser_video_data tag = do
  codec ← read 1
  if byte_of codec % 16 == 7
      then read_avc tag
      else (do cur ← position; seek_to (cur + tag.data_size - 1))
