-- ===== src/Rtsp/Handler.antt =====
-- RTSP_handler of RTSP_Server.cpp: what is done with one message in in_buffer.
pub mod Answers
use rtsp_server.Base.{
  ℕ, zero, suc, ◌+◌, ◌-◌, Bool, true, false, ◌&&◌, List, [], ◌∷◌, ◌++◌, Option, none, some, ltb,
  leb, ◌==◌, if◌then◌else◌, length, take, get_elem?, codes,
}
use rtsp_server.Rtsp.Text.{Bytes, c_string, str_eq, strstr, scan_text, skip_space, scan_unsigned}
use rtsp_server.Rtsp.Host.{Host}
use rtsp_server.Rtsp.Connection.{
  Buffer, rtcp_message, sends, adds, M, ◌>>=◌, ◌>>◌, pure, break, crash, the_buffer, modify,
  perform, within,
}
use rtsp_server.Rtsp.Request.{hdr_cseq, request_text}
use rtsp_server.Rtsp.Options.{three_words}
use rtsp_server.Rtsp.Describe.{or_crash}
use rtsp_server.Rtsp.Machine.{
  Method, bad_req, describes, announces, get_parameters, asks_options, pauses, plays, records,
  redirects, sets_up, set_parameter, tears_down, state_machine,
}

-- in_buffer[i]
unfoldable pub in_byte : ℕ → M ℕ
unfolding or_crash
in_byte i = do b ← the_buffer; or_crash (get_elem? b.in_buffer i)

-- RTSP_end: whether the bytes before in_size end an empty line. A test that fails is the last one.
unfoldable pub rtsp_end : M Bool
unfolding in_byte
rtsp_end = do
  b ← the_buffer
  if ltb b.in_size 4 then pure false else (do
    c ← in_byte (b.in_size - 4)
    if c == 13
        then (do
          d ← in_byte (b.in_size - 3)
          if d == 10
              then (do
                e ← in_byte (b.in_size - 2)
                if e == 13 then (do f ← in_byte (b.in_size - 1); pure (f == 10)) else pure false)
              else pure false)
        else pure false)

-- The names of the methods in RTSP.h.
abbrev pub methods : List (Bytes × Method)
methods =
    (codes "DESCRIBE", describes)
    ∷ (codes "ANNOUNCE", announces)
    ∷ (codes "GET_PARAMETERS", get_parameters)
    ∷ (codes "OPTIONS", asks_options)
    ∷ (codes "PAUSE", pauses)
    ∷ (codes "PLAY", plays)
    ∷ (codes "RECORD", records)
    ∷ (codes "REDIRECT", redirects)
    ∷ (codes "SETUP", sets_up)
    ∷ (codes "SET_PARAMETER", set_parameter)
    ∷ (codes "TEARDOWN", tears_down)
    ∷ []

unfoldable pub method_of : Bytes → List (Bytes × Method) → Method
unfolding str_eq
method_of word [] = bad_req
method_of word ((name, method) ∷ more) = if str_eq word name then method else method_of word more

-- sscanf(hdr, "CSeq: %u", &seq) at the header
unfoldable pub cseq_of : Bytes → Option ℕ
unfolding strstr scan_text skip_space scan_unsigned
cseq_of text = elim (strstr text hdr_cseq) [
  | none ↦ none
  | some hdr ↦ elim (scan_text (hdr_cseq ++ codes ":") hdr) [
    | none ↦ none
    | some rest ↦ elim (scan_unsigned (skip_space rest)) [
      | none ↦ none
      | some (seq, end) ↦ some seq
    ]
  ]
]

-- The method of a request with three words and a number.
unfoldable pub validate_text : Bytes → Option (Method × ℕ)
unfolding three_words cseq_of method_of
validate_text text = elim (three_words text) [
  | none ↦ none
  | some (word, url, version) ↦ elim (cseq_of text) [
    | none ↦ none
    | some seq ↦ some (method_of word methods, seq)
  ]
]

-- RTSP_validate_method: the number is kept where there is one.
unfoldable pub validate_method : M Method
unfolding request_text validate_text
validate_method = do
  text ← request_text
  elim (validate_text text) [
    | none ↦ pure bad_req
    | some (method, seq) ↦ (do modify (λ b. record b { rtsp_seq = seq }); pure method)
  ]

-- socketSend of the reply: it has to take all of out_size, which it reads from the text and its
-- zero.
unfoldable pub send_out : Host → M (Unit {0})
send_out h = do
  b ← the_buffer
  within (leb b.out_size (length b.out_buffer + 1))
  let bytes = take b.out_size (b.out_buffer ++ (0 ∷ []))
  perform (sends b.sock_id bytes)
  if h.sent bytes == b.out_size
      then modify (λ b'. record b' { out_size = 0; in_size = 0 })
      else break

-- One task for each report block.
unfoldable pub add_messages : ℕ → Bytes → M (Unit {0})
add_messages zero message = pure tt
add_messages (suc n) message = do perform (adds (rtcp_message message)); add_messages n message

-- The message is interleaved RTCP of in_size bytes.
unfoldable pub handle_rtcp : Host → M (Unit {0})
unfolding add_messages
handle_rtcp h = do
  b ← the_buffer
  within (leb b.in_size (length b.in_buffer))
  let message = take b.in_size b.in_buffer
  elim (h.rtcp_blocks message) [
    | none ↦ pure tt
    | some n ↦ (do add_messages n message; modify (λ b'. record b' { in_size = 0 }))
  ]

-- A whole request. As bad_req is 0 and not below it, a request that is not valid goes to the state
-- machine as well.
unfoldable pub handle_request : Host → M (Unit {0})
unfolding validate_method state_machine send_out
handle_request h = do method ← validate_method; state_machine h method; send_out h

-- RTSP_handler
unfoldable pub handle : Host → M (Unit {0})
unfolding in_byte rtsp_end handle_request handle_rtcp
handle h = do
  first ← in_byte 0
  if first == b'$'
      then handle_rtcp h
      else (do whole ← rtsp_end; if whole then handle_request h else pure tt)
