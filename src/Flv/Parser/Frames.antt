-- ===== src/Flv/Parser/Frames.antt =====
-- flvParser::getNextFrame, in its two forms, and the constructor of flvParser.
use rtsp_server.Base.{
  ℕ, zero, suc, ◌+◌, Bool, true, false, [], ◌∷◌, none, some, ◌==◌, if◌then◌else◌,
}
use rtsp_server.File.Handler.{Handler, Origin, seek}
use rtsp_server.Flv.Packet.{PacketType, TimedPacket}
use rtsp_server.Flv.Steps.{
  Parser, Outcome, Step, pure, ◌>>=◌, ◌>>◌, modify, exhausted, attempt, read, position, seek_to,
  set_timestamp,
}
use rtsp_server.Flv.Parser.{
  Tag, parse_flv_header, read_tag, parser_audio_data, flv_tag_audio, flv_tag_video,
}
use rtsp_server.Flv.Parser.Script.{parse_script_data}
use rtsp_server.Flv.Parser.Video.{parser_video_data}

abbrev pub no_packet : TimedPacket
no_packet = record { timestamp = none; packet_type = none; units = [] }

unfoldable pub ignore : {A : Type 0} → Step A → Step (Unit {0})
ignore m = do result ← attempt m; pure tt

-- A script tag: if it is not read to its end, the next tag is sought.
unfoldable pub skip_script : Tag → Step (Unit {0})
skip_script tag = do
  start ← position
  read_through ← attempt (parse_script_data tag)
  elim read_through [ none ↦ seek_to (start + tag.data_size) | some u ↦ pure tt ]

-- The size of the tag before, and the tag up to its data.
unfoldable pub open_tag : Step Tag
open_tag = do previous_tag_size ← read 4; tag ← read_tag; set_timestamp tag.timestamp_full; pure tag

-- getNextFrame, the packet in `out`; the fuel is the depth of its recursion, which is on script
-- tags.
unfoldable pub get_next_frame : ℕ → Step (Unit {0})
get_next_frame zero = exhausted
get_next_frame (suc fuel) = do
  modify λ s. record s { out = no_packet }
  cur ← position
  if cur == 0 then parse_flv_header else pure tt
  tag ← attempt open_tag
  elim tag [
    | none ↦ pure tt
    | some t ↦
        if t.tag_type == flv_tag_audio
        then ignore (parser_audio_data t)
        else if t.tag_type == flv_tag_video
        then ignore (parser_video_data t)
        else (do skip_script t; get_next_frame fuel)
  ]

unfoldable pub same_type : PacketType → PacketType → Bool
same_type PacketType.flv_pkt_audio PacketType.flv_pkt_audio = true
same_type PacketType.flv_pkg_video PacketType.flv_pkg_video = true
same_type PacketType.raw_h264_frame PacketType.raw_h264_frame = true
same_type a b = false

-- Whether getNextFrame(type) hands a packet out: it has no data, or is of the type. A packet with
-- data has a type.
unfoldable pub is_wanted : PacketType → TimedPacket → Bool
is_wanted type packet = elim packet.units [
  | [] ↦ true
  | unit ∷ rest ↦ elim packet.packet_type [ none ↦ false | some t ↦ same_type t type ]
]

-- getNextFrame(type), on fuel for its rounds and for each of its frames.
unfoldable pub get_next_frame_of : PacketType → ℕ → ℕ → Step (Unit {0})
get_next_frame_of type zero fuel = exhausted
get_next_frame_of type (suc rounds) fuel = do
  get_next_frame fuel
  packet ← (λ s. Outcome.done s.out s)
  if is_wanted type packet then pure tt else get_next_frame_of type rounds fuel

-- seekToPos; the Boolean is a return of true.
unfoldable pub seek_to_pos : ℕ → Parser → Bool × Parser
seek_to_pos pos s = let (ok, h) = seek pos Origin.seek_set s.file in (ok, record s { file = h })

-- The constructor on a file.
unfoldable pub create : Handler → Outcome (Unit {0})
create file = parse_flv_header (record {
  file = file;
  header = record {
    version = none;
    type_flags_audio = none;
    type_flags_video = none;
    data_offset = none;
  };
  duration = 0;
  out = no_packet;
})
