-- ===== src/Rtsp/Server.antt =====
-- RTSP_Server.cpp: RTSP_Callback, which a delivery of bytes or the close of a socket calls, with the
-- tables that it keeps: a connection for each socket, the cachers and the times.
pub mod Split
pub mod Closed
use rtsp_server.Base.{
  ℕ, ◌+◌, Bool, true, false, List, [], ◌∷◌, ◌++◌, Option, none, some, ltb, leb, ◌==◌, if◌then◌else◌,
  length, drop, replicate, find, put, erase,
}
use rtsp_server.Tcp.Cacher.{Ret}
use rtsp_server.Tcp.Interleaved.{rtsp_buffer_size, parse_rtp_rtcp_rtsp_data}
use rtsp_server.Tcp.Manager as Cachers
use rtsp_server.Tcp.Connecting as Connecting
use rtsp_server.Rtsp.Text.{Bytes}
use rtsp_server.Rtsp.Host.{Host}
use rtsp_server.Rtsp.Connection.{
  Buffer, new_session, stream_stop, Effect, executes, State, Result, ret, stop, fault,
}
use rtsp_server.Rtsp.Handler.{handle}

-- g_RTSP_buffer_map, g_RTSP_buffer_cacher and g_RTSP_connectManager, and what was done so far.
pub record Server : Type 0 where
  pub buffers : List (ℕ × Buffer)
  pub cachers : Cachers.Manager
  pub connecting : Connecting.Manager
  pub log : List Effect

-- socket_event_t
pub record Event : Type 0 where
  pub client_id : ℕ
  pub sock_closed : Bool
  pub data_in : Bytes
  pub target_addr : ℕ

-- A new RTSP_buffer with its first session.
unfoldable pub new_buffer : ℕ → Buffer
new_buffer sock_id = record {
  sock_id = sock_id;
  port = 0;
  in_buffer = replicate rtsp_buffer_size 0;
  in_size = 0;
  out_buffer = [];
  out_size = 0;
  rtsp_seq = 0;
  sdp_desc = [];
  source_name = [];
  sock_addr = 0;
  session_list = new_session ∷ [];
  session_time = 0;
}

-- Get_RTSP_buffer
unfoldable pub buffer_of : Server → ℕ → Buffer
unfolding find new_buffer
buffer_of s sock_id = elim (find sock_id s.buffers) [ none ↦ new_buffer sock_id | some b ↦ b ]

-- RTSP_Close_Client
unfoldable pub close_client : Server → ℕ → Server
unfolding erase Cachers.remove_cacher
close_client s sock_id = record s {
  buffers = erase sock_id s.buffers;
  cachers = Cachers.remove_cacher s.cachers sock_id;
  log = s.log ++ (executes (stream_stop sock_id) ∷ []);
}

unfoldable pub close_all : Server → List ℕ → Server
unfolding close_client
close_all s [] = s
close_all s (sock_id ∷ more) = close_all (close_client s sock_id) more

-- The connection with a packet copied to the beginning of in_buffer. in_size is the size of the
-- delivery.
unfoldable pub load_packet : Buffer → Event → Bytes → Buffer
load_packet b e packet = record b {
  in_buffer = packet ++ drop (length packet) b.in_buffer;
  in_size = length e.data_in;
  sock_addr = e.target_addr;
}

-- The server with what the handler has made of a connection, whether it fails or not.
unfoldable pub keep : Server → ℕ → Result (Unit {0}) → Option Server
unfolding put
keep s sock_id (ret r t) = some (record s { buffers = put sock_id t.buffer s.buffers; log = t.log })
keep s sock_id (stop t) = some (record s { buffers = put sock_id t.buffer s.buffers; log = t.log })
keep s sock_id fault = none

-- One packet: `none` of the pair's second part is the return on a packet that is too long.
unfoldable pub receive_packet : Host → Server → Event → Bytes → Option (Server × Bool)
unfolding buffer_of load_packet handle keep put
receive_packet h s e packet =
    let b = buffer_of s e.client_id in
    if ltb rtsp_buffer_size (length packet)
    then some (record s { buffers = put e.client_id (record b { in_size = 0 }) s.buffers }, false)
    else elim (keep s e.client_id
        (handle h (record { buffer = load_packet b e packet; log = s.log }))) [
          | none ↦ none
          | some s' ↦ some (s', true)
        ]

unfoldable pub receive_packets : Host → Server → Event → List Bytes → Option Server
unfolding receive_packet
receive_packets h s e [] = some s
receive_packets h s e (packet ∷ more) = elim (receive_packet h s e packet) [
  | none ↦ none
  | some (s', again) ↦ elim again [ true ↦ receive_packets h s' e more | false ↦ some s' ]
]

-- The bytes of a delivery.
unfoldable pub receive_bytes : Host → Server → Event → Option Server
unfolding receive_packets
receive_bytes h s e =
    if length e.data_in == 0
    then some s
    else elim (Cachers.append h.fresh s.cachers e.client_id e.data_in) [
      | none ↦ none
      | some (code, m) ↦ elim (Cachers.get_valid m e.client_id parse_rtp_rtcp_rtsp_data) [
        | none ↦ none
        | some (code', packets, m') ↦ receive_packets h (record s { cachers = m' }) e packets
      ]
    ]

-- The sockets that have been silent for too long are closed.
unfoldable pub expire : Host → Server → Event → Server
unfolding close_all
expire h s e =
    let (late, m) =
      Connecting.get_timeout_sockets (Connecting.update_time_info s.connecting e.client_id h.sec)
        h.sec in
    close_all (record s { connecting = m }) late

-- RTSP_Callback
unfoldable pub callback : Host → Server → Event → Option Server
unfolding close_client expire receive_bytes
callback h s e =
    if e.sock_closed
    then (let s' = close_client s e.client_id in
        some (record s' { connecting = Connecting.delete_socket s'.connecting e.client_id }))
    else receive_bytes h (expire h s e) e
