-- ===== src/Flv/Parser.antt =====
-- class flvParser (flvParser.h and flvParser.cpp).
pub mod Video
pub mod Script
pub mod Frames
pub mod Ends
use rtsp_server.Base.{
  ℕ, zero, suc, ◌+◌, ◌-◌, ◌*◌, ◌/◌, ◌%◌, Bool, true, false, not, ◌&&◌, ◌||◌, List, [], ◌∷◌, Option,
  none, some, ltb, leb, ◌==◌, if◌then◌else◌, length, bit_or, load, htonl,
}
use rtsp_server.File.Handler.{Handler, current_file, open_successed}
use rtsp_server.Flv.Format.{fast_hton3}
use rtsp_server.Flv.Packet.{PacketType, TimedPacket}
use rtsp_server.Flv.Steps.{
  Parser, Header, Outcome, Step, pure, fail, crash, ◌>>=◌, ◌>>◌, current, modify, attempt, require,
  read, byte_of, position, seek_to, push, set_type, set_timestamp,
}

abbrev set_header : (Header → Header) → Step (Unit {0})
set_header f = modify λ s. record s { header = f s.header }

-- parseFlvHeader on a file that is open: it returns early where it fails. The last read is not
-- looked at.
unfoldable pub header_steps : Step (Unit {0})
header_steps = do
  f ← read 1
  require (byte_of f == 0x46)
  l ← read 1
  require (byte_of l == 0x4c)
  v ← read 1
  require (byte_of v == 0x56)
  version ← read 1
  set_header λ h. record h { version = some (byte_of version) }
  flags ← read 1
  require (byte_of flags / 8 % 8 == 0)
  set_header λ h. record h { type_flags_audio = some (byte_of flags / 4 % 2) }
  require (byte_of flags / 2 % 2 == 0)
  set_header λ h. record h { type_flags_video = some (byte_of flags % 2) }
  bytes ← attempt (read 4)
  let offset : ℕ = elim bytes [ none ↦ 0 | some b ↦ htonl (load b) ]
  set_header λ h. record h { data_offset = some offset }
  cur ← position
  if cur == offset then pure tt else seek_to offset

unfoldable pub parse_flv_header : Step (Unit {0})
parse_flv_header = do
  s ← current
  ended ← attempt (if open_successed s.file then header_steps else fail)
  pure tt

-- flvTag, without what nothing reads.
pub record Tag : Type 0 where
  pub tag_type : ℕ
  pub data_size : ℕ
  pub timestamp : ℕ
  pub timestamp_full : Option ℕ

-- FLV_Tag_Audio, FLV_Tag_Video and FLV_Tag_ScriptData
abbrev pub flv_tag_audio : ℕ
flv_tag_audio = 8

abbrev pub flv_tag_video : ℕ
flv_tag_video = 9

abbrev pub flv_tag_script_data : ℕ
flv_tag_script_data = 18

unfoldable pub is_known : ℕ → Bool
is_known type = (type == flv_tag_audio) || (type == flv_tag_video) || (type == flv_tag_script_data)

-- readTag: an unknown type only makes it false in the end. The extension of the timestamp is not
-- set where its read fails.
unfoldable pub read_tag : Step Tag
read_tag = do
  type ← read 1
  size ← read 3
  time ← read 3
  extended ← attempt (read 1)
  stream ← read 3
  require (load stream == 0)
  require (is_known (byte_of type))
  let timestamp = fast_hton3 (load time)
  pure (record {
    tag_type = byte_of type;
    data_size = fast_hton3 (load size);
    timestamp = timestamp;
    timestamp_full = elim extended [
      | none ↦ none
      | some high ↦ some (bit_or (byte_of high * 0x100_0000) timestamp)
    ];
  })

-- parserAudioData; a block of a negative size is not allocated.
unfoldable pub parser_audio_data : Tag → Step (Unit {0})
parser_audio_data tag = do
  format ← read 1
  if byte_of format / 16 % 16 == 10
      then (do
        packet_type ← read 1
        set_timestamp (some tag.timestamp)
        set_type PacketType.flv_pkt_audio
        bytes ← if ltb tag.data_size 2 then crash else read (tag.data_size - 2)
        push bytes)
      else (do cur ← position; seek_to (cur + tag.data_size - 1); set_type PacketType.flv_pkt_audio)
