-- ===== src/Rtsp/Connection.antt =====
-- The structures of RTSP.h, RTSP_buffer.cpp, and code on them: it goes on with a value, stops with
-- the result -1, or faults, which is an access outside an array or through a null pointer.
pub mod Steps
pub mod Yields
use rtsp_server.Base.{
  ℕ, ◌+◌, ◌-◌, ◌%◌, ◌^◌, Bool, true, false, List, [], ◌∷◌, ◌++◌, Option, none, some, leb, ltb, ◌==◌,
  if◌then◌else◌, length, take, drop, get_elem?, set, map, codes,
}
use rtsp_server.Rtsp.Text.{Bytes, c_string, decimal, show_int}
use rtsp_server.Rtsp.Status.{get_stat}

-- RTSP_STATE
pub data SessionState : Type 0 where
  init_stat ready_stat play_stat : SessionState

-- RTSP_TRANSPORT_TYPE
pub data Transport : Type 0 where
  no_type over_tcp over_udp : Transport

-- RTSP_session. A number of a signed type is held by its bits.
pub record Session : Type 0 where
  pub cur_state : SessionState
  pub session_id : Bytes
  -- The pointer within session_id is null, as memset leaves it, and c_str() gives that.
  pub id_is_null : Bool
  pub ssrc : ℕ
  pub rtp_channel : ℕ
  pub rtcp_channel : ℕ
  pub rtp_s_port : ℕ
  pub rtcp_s_port : ℕ
  pub rtp_c_port : ℕ
  pub rtcp_c_port : ℕ
  pub transport_type : Transport
  pub unicast : Bool
  pub control_id : Bytes
  pub first_seq : ℕ
  pub start_rtp_time : ℕ

-- What "%s" prints of session_id.c_str(): of a null pointer what the C library of Linux prints.
unfoldable pub id_text : Session → Bytes
id_text x = if x.id_is_null then codes "(null)" else x.session_id

-- RTSP_buffer. A pointer to a session is its place in `session_list`.
pub record Buffer : Type 0 where
  pub sock_id : ℕ
  pub port : ℕ
  pub in_buffer : Bytes
  pub in_size : ℕ
  pub out_buffer : Bytes
  pub out_size : ℕ
  pub rtsp_seq : ℕ
  pub sdp_desc : Bytes
  pub source_name : Bytes
  pub sock_addr : ℕ
  pub session_list : List Session
  pub session_time : ℕ

-- A new RTSP_session.
abbrev pub new_session : Session
new_session = record {
  cur_state = init_stat;
  session_id = [];
  id_is_null = false;
  ssrc = 0;
  rtp_channel = 0;
  rtcp_channel = 0;
  rtp_s_port = 0;
  rtcp_s_port = 0;
  rtp_c_port = 0;
  rtcp_c_port = 0;
  transport_type = no_type;
  unicast = false;
  control_id = [];
  first_seq = 0;
  start_rtp_time = 0;
}

-- A new RTSP_session that memset has filled with zeros, its std::string too, with a control id.
abbrev pub cleared_session : Bytes → Session
cleared_session control = record new_session { id_is_null = true; control_id = control }

-- deepcopy_RTSP_session
unfoldable pub deepcopy_session : Session → Session
deepcopy_session s = record {
  cur_state = s.cur_state;
  session_id = s.session_id;
  id_is_null = false;
  ssrc = s.ssrc;
  rtp_channel = s.rtp_channel;
  rtcp_channel = s.rtcp_channel;
  rtp_s_port = s.rtp_s_port;
  rtcp_s_port = s.rtcp_s_port;
  rtp_c_port = s.rtp_c_port;
  rtcp_c_port = s.rtcp_c_port;
  transport_type = s.transport_type;
  unicast = s.unicast;
  control_id = s.control_id;
  first_seq = s.first_seq;
  start_rtp_time = s.start_rtp_time;
}

-- deepcopy_RTSP_buffer. The copy's port is not set; strcpy copies the text of `in_buffer` over what
-- the new memory holds.
unfoldable pub deepcopy_buffer : ℕ → Bytes → Buffer → Buffer
unfolding deepcopy_session c_string
deepcopy_buffer junk_port junk b = record {
  sock_id = b.sock_id;
  port = junk_port;
  in_buffer = let text = c_string b.in_buffer in text ++ (0 ∷ drop (length text + 1) junk);
  in_size = b.in_size;
  out_buffer = b.out_buffer;
  out_size = b.out_size;
  rtsp_seq = b.rtsp_seq;
  sdp_desc = b.sdp_desc;
  source_name = b.source_name;
  sock_addr = b.sock_addr;
  session_list = map deepcopy_session b.session_list;
  session_time = b.session_time;
}

-- The tasks that the handlers make. A time is the bits of a float.
pub data Task : Type 0 where
  stream_file : Buffer → Session → ℕ → ℕ → Task
  stream_living : Buffer → Session → Task
  stream_pause : Bytes → Task
  stream_stop : ℕ → Task
  send_resb_data : Bytes → Bytes → Task
  rtcp_message : Bytes → Task

-- What a handler does outside of the connection: socketSend, addTaskObj and executeTaskObj.
pub data Effect : Type 0 where
  sends : ℕ → Bytes → Effect
  adds : Task → Effect
  executes : Task → Effect

-- A connection, and what was done so far.
pub record State : Type 0 where
  pub buffer : Buffer
  pub log : List Effect

pub data Result (A : Type 0) : Type 0 where
  ret : A → State → Result A
  stop : State → Result A
  fault : Result A

abbrev pub M : Type 0 → Type 0
M A = State → Result A

infixl 5 ◌>>=◌ ◌>>◌
unfoldable pub ◌>>=◌ : {A B : Type 0} → M A → (A → M B) → M B
◌>>=◌ m f s = elim (m s) [ ret a s' ↦ f a s' | stop s' ↦ stop s' | fault ↦ fault ]

abbrev pub ◌>>◌ : {A B : Type 0} → M A → M B → M B
m >> k = m >>= λ _. k

unfoldable pub pure : {A : Type 0} → A → M A
pure a s = ret a s

-- iRet = -1; break;
unfoldable pub break : {A : Type 0} → M A
break s = stop s

unfoldable pub crash : {A : Type 0} → M A
crash s = fault

unfoldable pub the_buffer : M Buffer
the_buffer s = ret s.buffer s

unfoldable pub modify : (Buffer → Buffer) → M (Unit {0})
modify f s = ret tt (record s { buffer = f s.buffer })

unfoldable pub perform : Effect → M (Unit {0})
perform e s = ret tt (record s { log = s.log ++ (e ∷ []) })

-- An access within an array: `false` is one outside.
unfoldable pub within : Bool → M (Unit {0})
unfolding pure crash
within true = pure tt
within false = crash

abbrev pub rtsp_el : Bytes
rtsp_el = 13 ∷ 10 ∷ []

-- "%s" of a null pointer is printed so by the C library of Linux.
unfoldable pub token_text : ℕ → Bytes
unfolding get_stat
token_text err = elim (get_stat err) [ none ↦ codes "(null)" | some t ↦ t ]

-- The first line of a reply, and its CSeq.
unfoldable pub reply_head : ℕ → ℕ → Bytes
unfolding token_text decimal show_int
reply_head err seq =
    codes "RTSP/1.0 "
    ++ (decimal err ++ (32 ∷ (token_text err ++ (rtsp_el ++ (codes "CSeq: " ++ show_int seq)))))

-- RTSP_send_err_reply. Its argument `addon` only enters the size of an array.
unfoldable pub send_err_reply : ℕ → M (Unit {0})
unfolding reply_head
send_err_reply err = do
  b ← the_buffer
  perform (sends b.sock_id (reply_head err b.rtsp_seq ++ (rtsp_el ++ rtsp_el)))

-- An error reply, and -1.
unfoldable pub reject : {A : Type 0} → ℕ → M A
unfolding send_err_reply
reject err = do send_err_reply err; break

-- A value that has to be there.
unfoldable pub require : {A : Type 0} → ℕ → Option A → M A
unfolding reject
require err none = reject err
require err (some a) = pure a

-- A condition that has to hold.
unfoldable pub demand : ℕ → Bool → M (Unit {0})
unfolding reject
demand err true = pure tt
demand err false = reject err

-- Through a pointer to a session: reading, and assigning to it.
unfoldable pub session_at : ℕ → M Session
session_at i s = elim (get_elem? s.buffer.session_list i) [ none ↦ fault | some x ↦ ret x s ]

unfoldable pub update_session : ℕ → (Session → Session) → M (Unit {0})
unfolding session_at
update_session i f = do
  x ← session_at i
  modify (λ b. record b { session_list = set b.session_list i (f x) })

-- RTSP_add_out_buffer: the text takes the place of what was there, the sizes are added.
unfoldable pub add_out_buffer : Bytes → M (Unit {0})
add_out_buffer reply =
    modify (λ b. record b {
      out_buffer = reply;
      out_size = (b.out_size + length reply % 2 ^ 16) % 2 ^ 32;
    })

-- The reply is made in an array of `size` bytes, and put into the out buffer.
unfoldable pub answer : ℕ → Bytes → M (Unit {0})
unfolding add_out_buffer
answer size reply = do within (ltb (length reply) size); add_out_buffer reply
