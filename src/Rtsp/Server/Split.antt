-- ===== src/Rtsp/Server/Split.antt =====
-- What becomes of a request of which a part has come before: RTSP_Callback takes the size of the last
-- delivery for that of the request.
use rtsp_server.Base.{
  ℕ, zero, suc, ◌-◌, ◌≤◌, ◌≡◌, ◌≢◌, refl, ap, ◌∙◌, Bool, true, false, [], ◌∷◌, ◌++◌, Option, none,
  some, arith, length, get_elem?, get_elem?_lt, le→ltb, ◌==◌, ==_iff, if◌then◌else◌, put,
  length-append,
}
use rtsp_server.Tcp.Interleaved.{rtsp_buffer_size}
use rtsp_server.Rtsp.Text.{Bytes}
use rtsp_server.Rtsp.Host.{Host}
use rtsp_server.Rtsp.Connection.{Buffer, State, ret, M, ◌>>=◌, pure, the_buffer}
use rtsp_server.Rtsp.Connection.Steps.{bind_ret}
use rtsp_server.Rtsp.Paths.{pure_lem}
use rtsp_server.Rtsp.Describe.{or_crash}
use rtsp_server.Rtsp.Handler.{in_byte, rtsp_end, handle, handle_rtcp, handle_request}
use rtsp_server.Rtsp.Server.{Server, Event, buffer_of, load_packet, keep, receive_packet}

byte_at_lem :
    (s : State) (i c : ℕ) → get_elem? s.buffer.in_buffer i ≡ some c → in_byte i s ≡ ret c s
unfolding in_byte or_crash ◌>>=◌ the_buffer pure
byte_at_lem s i c e = ground arith

-- in_size does not end an empty line where the byte before it is no line feed.
rtsp_end-false :
    (s : State) (c : ℕ)
    → 4 ≤ s.buffer.in_size
    → s.buffer.in_size ≤ length s.buffer.in_buffer
    → get_elem? s.buffer.in_buffer (s.buffer.in_size - 1) ≡ some c
    → c ≢ 10
    → rtsp_end s ≡ ret false s
unfolding rtsp_end ◌>>=◌ the_buffer pure
rtsp_end-false s c least most last other =
    let (x, ex) = get_elem?_lt s.buffer.in_buffer (s.buffer.in_size - 4) (omega arith) in
    let (y, ey) = get_elem?_lt s.buffer.in_buffer (s.buffer.in_size - 3) (omega arith) in
    let (z, ez) = get_elem?_lt s.buffer.in_buffer (s.buffer.in_size - 2) (omega arith) in
    ground (
      arith,
      byte_at_lem s (s.buffer.in_size - 4) x,
      byte_at_lem s (s.buffer.in_size - 3) y,
      byte_at_lem s (s.buffer.in_size - 2) z,
      byte_at_lem s (s.buffer.in_size - 1) c,
    )

get_elem?-append :
    (xs ys : Bytes) (i c : ℕ) → get_elem? xs i ≡ some c → get_elem? (xs ++ ys) i ≡ some c
get_elem?-append [] ys i c e = absurd (ground arith)
get_elem?-append (x ∷ xs) ys zero c e = e
get_elem?-append (x ∷ xs) ys (suc i) c e = get_elem?-append xs ys i c e

handle_ignores :
    (h : Host) (s : State) (first : ℕ)
    → get_elem? s.buffer.in_buffer 0 ≡ some first
    → first ≢ b'$'
    → rtsp_end s ≡ ret false s
    → handle h s ≡ ret tt s
unfolding handle
handle_ignores h s first e other part =
    bind_ret _ _ s first s (byte_at_lem s 0 first e)
    ∙ (ap (λ (b : Bool). (if b then handle_rtcp h else rest) s) not_dollar
        ∙ (bind_ret _ _ s false s part ∙ pure_lem s tt))
  where
    rest : M (Unit {0})
    rest = rtsp_end >>= λ whole. if whole then handle_request h else pure tt

    not_dollar : (first == b'$') ≡ false
    not_dollar = ground (arith, ==_iff first b'$')

-- A request (of which the first byte is no dollar sign) that is whole with a delivery of at least
-- four bytes, fewer than it has itself, is dropped with no reply, if its byte at the end of as many
-- bytes as the delivery has is no line feed: the connection keeps it in in_buffer, and nothing is
-- sent.
pub receive_packet_split :
    (h : Host) (s : Server) (e : Event) (packet : Bytes) (first c : ℕ)
    → length packet ≤ rtsp_buffer_size
    → get_elem? packet 0 ≡ some first
    → first ≢ b'$'
    → 4 ≤ length e.data_in
    → length e.data_in ≤ length packet
    → get_elem? packet (length e.data_in - 1) ≡ some c
    → c ≢ 10
    → receive_packet h s e packet
      ≡ some (
        record s {
          buffers = put e.client_id (load_packet (buffer_of s e.client_id) e packet) s.buffers;
        },
        true,
      )
unfolding receive_packet
receive_packet_split h s e packet first c fits begin other least most last no_feed =
    rw
      (
        le→ltb rtsp_buffer_size (length packet) fits,
        handle_ignores h
            (record { buffer = load_packet (buffer_of s e.client_id) e packet; log = s.log }) first
            (loaded 0 first begin) other
            (rtsp_end-false
              (record { buffer = load_packet (buffer_of s e.client_id) e packet; log = s.log }) c
              (size least) (size_le most) (loaded_last last) no_feed),
      )
      (kept _)
  where
    loaded :
        (i d : ℕ)
        → get_elem? packet i ≡ some d
        → get_elem? (load_packet (buffer_of s e.client_id) e packet).in_buffer i ≡ some d
    loaded i d g = unfold load_packet in get_elem?-append packet _ i d g

    loaded_last :
        get_elem? packet (length e.data_in - 1) ≡ some c
        → get_elem?
            (load_packet (buffer_of s e.client_id) e packet).in_buffer
            ((load_packet (buffer_of s e.client_id) e packet).in_size - 1)
          ≡ some c
    loaded_last g = unfold load_packet in get_elem?-append packet _ _ c g

    size : 4 ≤ length e.data_in → 4 ≤ (load_packet (buffer_of s e.client_id) e packet).in_size
    size g = unfold load_packet in g

    size_le :
        length e.data_in ≤ length packet
        → (load_packet (buffer_of s e.client_id) e packet).in_size
          ≤ length (load_packet (buffer_of s e.client_id) e packet).in_buffer
    size_le g = unfold load_packet in omega (arith, length-append {0} {A = ℕ})

    kept :
        (b : Buffer)
        → ◌≡◌ {A = Option (Server × Bool)}
            (elim (keep s e.client_id (ret tt (record { buffer = b; log = s.log }))) [
              | none ↦ none
              | some s' ↦ some (s', true)
            ])
            (some (record s { buffers = put e.client_id b s.buffers }, true))
    kept b = unfold keep in refl
