-- ===== src/Flv/Packet.antt =====
-- What passes between parser, writer and their users: DataPacket and timedPacket of RTP.h.
use rtsp_server.Base.{ℕ, List, Option}

-- flvPacketType
pub data PacketType : Type 0 where
  flv_pkt_audio flv_pkg_video raw_h264_frame : PacketType

-- timedPacket; each unit of data is the bytes of a DataPacket. `none` is a member that nothing has
-- set.
pub record TimedPacket : Type 0 where
  pub timestamp : Option ℕ
  pub packet_type : Option PacketType
  pub units : List (List ℕ)
