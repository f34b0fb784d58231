-- ===== src/Rtsp/Setup.antt =====
-- RTSP_SETUP.cpp
pub mod Objects
use rtsp_server.Base.{
  ℕ, ◌+◌, ◌-◌, ◌%◌, Bool, true, false, List, [], ◌∷◌, ◌++◌, Option, none, some, ltb, leb, ◌==◌,
  if◌then◌else◌, length, take, drop, codes,
}
use rtsp_server.Tcp.Interleaved.{rtsp_buffer_size}
use rtsp_server.Rtsp.Text.{
  Bytes, str_eq, strstr, scan_until, scan_byte, scan_text, scan_any_word, scan_short, scan_int,
  skip_space, decimal, show_int,
}
use rtsp_server.Rtsp.Host.{Host, convert_to_rtp_timestamp, generate_random32}
use rtsp_server.Rtsp.Connection.{
  Transport, no_type, over_tcp, over_udp, Session, Buffer, cleared_session, id_text, M, ◌>>=◌, ◌>>◌,
  pure, break, crash, the_buffer, modify, within, reject, require, demand, session_at,
  update_session, rtsp_el, reply_head, answer,
}
use rtsp_server.Rtsp.Request.{
  hdr_session, hdr_transport, request_text, first_line, object_of, stays_inside, ok_head,
}
use rtsp_server.Rtsp.Setup.Objects.{control_of}

-- RTSP_CONTROL_ID_0
abbrev pub rtsp_control_id_0 : Bytes
rtsp_control_id_0 = codes "track1"

-- The last session of the list with a control id.
unfoldable pub last_with : Bytes → ℕ → List Session → Option ℕ
last_with control i [] = none
last_with control i (x ∷ rest) = elim (last_with control (i + 1) rest) [
  | some j ↦ some j
  | none ↦ if str_eq control x.control_id then some i else none
]

-- Appends a session with a control id.
unfoldable pub add_session : Bytes → M ℕ
add_session control = do
  b ← the_buffer
  within (ltb (length control) 128)
  modify (λ b'. record b' { session_list = b'.session_list ++ (cleared_session control ∷ []) })
  pure (length b.session_list)

-- The session that is set up: the one given if it has no control id yet, otherwise one that has this
-- control id or a new one.
unfoldable pub choose_session : ℕ → Bytes → M ℕ
unfolding session_at update_session last_with add_session
choose_session i control = do
  session ← session_at i
  b ← the_buffer
  if length session.control_id == 0
      then (do
        within (ltb (length control) 128)
        update_session i (λ x. record x { control_id = control })
        pure i)
      else elim (last_with control 0 b.session_list) [
        | some j ↦ pure j
        | none ↦ add_session control
      ]

-- sscanf(p, "Transport: %[^;];%[^;];", transPort, cast_model), into arrays of 100 bytes.
unfoldable pub transport_words : Bytes → M (Bytes × Bytes)
unfolding scan_text skip_space scan_until scan_byte require
transport_words p = do
  rest ← require 400 (scan_text (hdr_transport ++ codes ":") p)
  (transport, rest') ← require 400 (scan_until b';' (skip_space rest))
  within (ltb (length transport) 100)
  rest'' ← require 400 (scan_byte b';' rest')
  (cast, more) ← require 400 (scan_until b';' rest'')
  within (ltb (length cast) 100)
  pure (transport, cast)

-- sscanf(s, "%[^=]=<n>-<n>", …) from `label=` on: the second number may be missing.
unfoldable pub number_pair : (Bytes → Option (ℕ × Bytes)) → Bytes → Option (ℕ × Option ℕ)
unfolding scan_until scan_byte
number_pair scan s = elim (scan_until b'=' s) [
  | none ↦ none
  | some (trash, rest) ↦ elim (scan_byte b'=' rest) [
    | none ↦ none
    | some rest' ↦ elim (scan rest') [
      | none ↦ none
      | some (n, rest'') ↦ elim (scan_byte b'-' rest'') [
        | none ↦ some (n, none)
        | some last ↦ elim (scan last) [ none ↦ some (n, none) | some (m, end) ↦ some (n, some m) ]
      ]
    ]
  ]
]

-- The ports of the client; a number that is missing stops the handler with no reply.
unfoldable pub set_client_ports : ℕ → Option (ℕ × Option ℕ) → M (Unit {0})
unfolding update_session
set_client_ports i none = break
set_client_ports i (some (n, none)) = do update_session i (λ x. record x { rtp_c_port = n }); break
set_client_ports i (some (n, some m)) =
    update_session i (λ x. record x { rtp_c_port = n; rtcp_c_port = m })

unfoldable pub setup_udp : Host → ℕ → Bytes → M (Unit {0})
unfolding update_session strstr require number_pair scan_short set_client_ports
setup_udp h i p = do
  update_session i (λ x. record x { transport_type = over_udp })
  client_port ← require 400 (strstr p (codes "client_port="))
  set_client_ports i (number_pair scan_short client_port)
  update_session i (λ x. record x { rtp_s_port = h.rtp_port; rtcp_s_port = h.rtcp_port })

unfoldable pub set_channels : ℕ → Option (ℕ × Option ℕ) → M (Unit {0})
unfolding update_session reject
set_channels i none = reject 400
set_channels i (some (n, none)) = do
  update_session i (λ x. record x { rtp_channel = n })
  reject 400
set_channels i (some (n, some m)) =
    update_session i (λ x. record x { rtp_channel = n; rtcp_channel = m })

unfoldable pub setup_tcp : ℕ → Bytes → M (Unit {0})
unfolding update_session strstr require number_pair scan_int set_channels
setup_tcp i p = do
  update_session i (λ x. record x { transport_type = over_tcp })
  interleaved ← require 400 (strstr p (codes "interleaved="))
  set_channels i (number_pair scan_int interleaved)

-- What a Transport header asks for.
pub data Wanted : Type 0 where
  wants_udp wants_tcp wants_other : Wanted

unfoldable pub wanted : Bytes → Wanted
unfolding str_eq
wanted transport =
    if str_eq transport (codes "RTP/AVP")
    then wants_udp
    else if str_eq transport (codes "RTP/AVP/UDP")
    then wants_udp
    else if str_eq transport (codes "RTP/AVP/TCP")
    then wants_tcp
    else wants_other

unfoldable pub setup_kind : Host → ℕ → Bytes → Wanted → M (Unit {0})
unfolding setup_udp setup_tcp reject
setup_kind h i p wants_udp = setup_udp h i p
setup_kind h i p wants_tcp = setup_tcp i p
setup_kind h i p wants_other = reject 400

-- The pointer to the session is set to null where the cast model is not unicast.
unfoldable pub lost_session : Wanted → M (Unit {0})
unfolding reject
lost_session wants_other = reject 400
lost_session _ = crash

unfoldable pub setup_transport : Host → ℕ → M (Unit {0})
unfolding request_text strstr require transport_words wanted setup_kind lost_session update_session
    str_eq
setup_transport h i = do
  text ← request_text
  p ← require 400 (strstr text hdr_transport)
  (transport, cast) ← transport_words p
  if str_eq cast (codes "unicast")
      then (do
        update_session i (λ x. record x { unicast = true })
        setup_kind h i p (wanted transport))
      else lost_session (wanted transport)

-- sscanf(p, "%*s %s", …) == 1
unfoldable pub two_words : Bytes → Bool
unfolding scan_any_word
two_words p = elim (scan_any_word p) [
  | none ↦ false
  | some (first, rest) ↦ elim (scan_any_word rest) [ none ↦ false | some found ↦ true ]
]

-- A Session header has sscanf write its word over the members of a std::string.
unfoldable pub setup_id : Host → ℕ → M (Unit {0})
unfolding request_text strstr two_words demand update_session
setup_id h i = do
  text ← request_text
  elim (strstr text hdr_session) [
    | none ↦ update_session i (λ x. record x { session_id = h.guid; id_is_null = false })
    | some p ↦ (do demand 454 (two_words p); crash)
  ]

-- What the Transport line of the reply says.
unfoldable pub transport_line : Host → Session → Bytes
unfolding show_int decimal
transport_line h x = elim x.transport_type [
  | no_type ↦ []
  | over_tcp ↦
      codes "RTP/AVP/TCP;unicast;interleaved="
      ++ (show_int x.rtp_channel ++ (b'-' ∷ show_int x.rtcp_channel))
  | over_udp ↦
      (if x.unicast
        then codes "RTP/AVP;unicast;client_port="
          ++ (decimal x.rtp_c_port
              ++ (b'-'
                  ∷ (decimal x.rtcp_c_port
                      ++ (codes ";source=" ++ (h.server_ip ++ codes ";server_port=")))))
        else [])
      ++ (decimal x.rtp_s_port ++ (b'-' ∷ decimal x.rtcp_s_port))
]

unfoldable pub has_transport : Transport → Bool
has_transport no_type = false
has_transport over_tcp = true
has_transport over_udp = true

-- The reply to SETUP.
unfoldable pub setup_text : Host → ℕ → Session → Bytes
unfolding reply_head ok_head id_text transport_line decimal show_int
setup_text h seq x =
    ok_head h (reply_head 200 seq) []
    ++ (codes "Session: "
        ++ (id_text x
            ++ (codes ";timeout="
                ++ (show_int h.timeout
                    ++ (rtsp_el
                        ++ (codes "Transport: "
                            ++ (transport_line h x
                                ++ (codes ";ssrc="
                                    ++ (decimal x.ssrc ++ (rtsp_el ++ rtsp_el))))))))))

-- RTSP_SETUP_reply
unfoldable pub setup_reply : Host → ℕ → M (Unit {0})
unfolding session_at has_transport setup_text answer
setup_reply h i = do
  b ← the_buffer
  x ← session_at i
  if has_transport x.transport_type
      then answer rtsp_buffer_size (setup_text h b.rtsp_seq x)
      else break

-- RTSP_SETUP, with the place of the session that it has set up.
unfoldable pub setup : Host → ℕ → M ℕ
unfolding first_line object_of stays_inside control_of choose_session demand str_eq setup_transport
    setup_id update_session setup_reply
setup h i = do
  (url, word, last) ← first_line
  object ← object_of url
  stays_inside object
  control ← control_of h object (elim last [ none ↦ none | some version ↦ some word ])
  j ← choose_session i control
  demand 404 (str_eq control rtsp_control_id_0)
  setup_transport h j
  setup_id h j
  update_session j (λ x. record x {
    ssrc = generate_random32 h;
    first_seq = h.random % 0xffff;
    start_rtp_time = convert_to_rtp_timestamp h 90000;
  })
  setup_reply h j
  pure j
