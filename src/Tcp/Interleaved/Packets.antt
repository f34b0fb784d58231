-- ===== src/Tcp/Interleaved/Packets.antt =====
-- Interleaved packets as a format of packets, where the code reads their length right.
use rtsp_server.Base.{
  ℕ, zero, suc, ◌+◌, ◌-◌, ◌*◌, ◌≤◌, ◌<◌, ◌≡◌, refl, ap, sym, subst, ◌∙◌, true, false, List, [], ◌∷◌,
  ◌++◌, some, arith, ltb, lt→leb, le→ltb, lt→ltb, length, take, length-append, length-take,
}
use rtsp_server.Tcp.Cacher.{Cacher, verdict, size_limit, contents, create, default_cacher_size}
use rtsp_server.Tcp.Stream.{Format, receive_all, concat, All}
use rtsp_server.Tcp.Stream.Waits.{receive_all_lem}
use rtsp_server.Tcp.Interleaved.{pkg_size, packet_round, parse_rtp_rtcp_rtsp_data}
use rtsp_server.Tcp.Interleaved.Length.{pkg_size_lem}
use rtsp_server.Tcp.Interleaved.Total.{rtsp_framer}

-- A `$`, a channel, the number of bytes that follow with its low byte below 128, and these bytes.
pub record IsPacket (x : List ℕ) : Type 0 where
  pub channel : ℕ
  pub size1 : ℕ
  pub size2 : ℕ
  pub payload : List ℕ
  pub framed : x ≡ b'$' ∷ channel ∷ size1 ∷ size2 ∷ payload
  pub high : size1 < 256
  pub low : size2 < 128
  pub sized : length payload ≡ size1 * 0x100 + size2

size_read : {x : List ℕ} (h : IsPacket x) → pkg_size h.size1 h.size2 ≡ length h.payload
size_read h =
    pkg_size_lem h.size1 h.size2 h.high (omega (arith, h.low))
    ∙ (rw (lt→ltb h.size2 0x80 h.low) (sym h.sized))

parse_four :
    (b c e : ℕ) (rest : List ℕ)
    → parse_rtp_rtcp_rtsp_data (b'$' ∷ b ∷ c ∷ e ∷ rest) ≡ packet_round (b'$' ∷ b ∷ c ∷ e ∷ rest)
unfolding parse_rtp_rtcp_rtsp_data
parse_four b c e rest =
    let d = b'$' ∷ b ∷ c ∷ e ∷ rest in
    rw (lt→leb (length d) 0 (omega arith), le→ltb (length d) 4 (omega arith))

packet_nonempty : (x : List ℕ) → IsPacket x → 0 < length x
packet_nonempty x h = omega (arith, ap length h.framed)

packet_whole :
    (x rest : List ℕ)
    → IsPacket x
    → length (x ++ rest) ≤ size_limit
    → (invalid : ℕ) × (parse_rtp_rtcp_rtsp_data (x ++ rest)
        ≡ some (verdict true 0 (length x - 1) invalid))
unfolding packet_round
packet_whole x rest h le = (
  0,
  rw h.framed (
      parse_four h.channel h.size1 h.size2 (h.payload ++ rest)
      ∙ rw (size_read h, enough) (ap (λ n. some (verdict true 0 n 0)) (omega arith))),
)
  where
    enough : ltb (suc (suc (suc (suc (length (h.payload ++ rest)))))) (length h.payload + 4) ≡ false
    enough = le→ltb _ (length h.payload + 4) (omega (arith, length-append h.payload rest))

take_packet :
    (ch size1 size2 : ℕ) (payload : List ℕ) (k : ℕ)
    → k < length payload + 4
    → pkg_size size1 size2 ≡ length payload
    → (end : ℕ) × (parse_rtp_rtcp_rtsp_data (take k (b'$' ∷ ch ∷ size1 ∷ size2 ∷ payload))
        ≡ some (verdict false 0 end 0))
unfolding parse_rtp_rtcp_rtsp_data packet_round
take_packet ch size1 size2 payload zero lt e = (0, refl)
take_packet ch size1 size2 payload (suc zero) lt e = (0, refl)
take_packet ch size1 size2 payload (suc (suc zero)) lt e = (0, refl)
take_packet ch size1 size2 payload (suc (suc (suc zero))) lt e = (0, refl)
take_packet ch size1 size2 payload (suc (suc (suc (suc k)))) lt e =
    (1, parse_four ch size1 size2 (take k payload) ∙ rw (e, cut))
  where
    cut : ltb (suc (suc (suc (suc (length (take k payload)))))) (length payload + 4) ≡ true
    cut = lt→ltb _ (length payload + 4) (omega (arith, length-take k payload))

packet_part :
    (x : List ℕ) (k : ℕ)
    → IsPacket x
    → k < length x
    → (end : ℕ) × (parse_rtp_rtcp_rtsp_data (take k x) ≡ some (verdict false 0 end 0))
packet_part x k h lt =
    subst (λ y. (end : ℕ) × (parse_rtp_rtcp_rtsp_data (take k y) ≡ some (verdict false 0 end 0)))
      (sym h.framed)
      (take_packet h.channel h.size1 h.size2 h.payload k (omega (arith, ap length h.framed))
        (size_read h))

packet_format : Format rtsp_framer
packet_format = record {
  IsPacket = IsPacket;
  nonempty = packet_nonempty;
  whole = packet_whole;
  part = packet_part;
}

-- Interleaved packets of `limit` bytes at most, with a low byte of their length below 128.
abbrev pub Packets : ℕ → List (List ℕ) → Type 0
Packets limit = All (λ x. IsPacket x × (length x ≤ limit))

-- However interleaved packets, each with a low byte of its length below 128, are cut into
-- deliveries, a new cacher hands out these packets, in order, and holds no byte at the end; if the
-- largest packet and a delivery together stay below the limit of the block.
pub packet_stream :
    (junk : ℕ → ℕ) (limit : ℕ) (xs chunks : List (List ℕ))
    → Packets limit xs
    → All (λ chunk. limit + length chunk < size_limit) chunks
    → concat chunks ≡ concat xs
    → (c : Cacher) × (receive_all junk parse_rtp_rtcp_rtsp_data
          (create junk default_cacher_size)
          chunks
        ≡ some (xs, c))
      × (contents c ≡ [])
unfolding packet_format
packet_stream junk limit xs chunks h small e =
    receive_all_lem rtsp_framer packet_format junk default_cacher_size limit xs chunks (omega arith)
      h small e

-- A packet with a low byte of its length from 128 on is not found, even where all of its bytes and
-- more are there, as long as fewer than 0xff00 and the low byte follow its head.
pub packet_waits :
    (channel size1 size2 : ℕ) (payload : List ℕ)
    → size1 < 256
    → 128 ≤ size2
    → size2 < 256
    → size1 * 0x100 + size2 ≤ length payload
    → length payload < 0xff00 + size2
    → parse_rtp_rtcp_rtsp_data (b'$' ∷ channel ∷ size1 ∷ size2 ∷ payload)
      ≡ some (verdict false 0 1 0)
unfolding packet_round
packet_waits channel size1 size2 payload high low low' whole few =
    let wrong : pkg_size size1 size2 ≡ 0xff00 + size2 =
      pkg_size_lem size1 size2 high low' ∙ rw (le→ltb size2 0x80 low) refl in
    let cut : ltb (suc (suc (suc (suc (length payload))))) (0xff00 + size2 + 4) ≡ true =
      lt→ltb _ (0xff00 + size2 + 4) (omega arith) in
    parse_four channel size1 size2 payload ∙ rw (wrong, cut) refl
