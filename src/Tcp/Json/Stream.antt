-- ===== src/Tcp/Json/Stream.antt =====
-- The frames of JSON texts as a format of packets.
use rtsp_server.Base.{
  ℕ, ◌+◌, ◌-◌, ◌≤◌, ◌<◌, ◌≡◌, sym, ap, subst, ◌∙◌, List, [], ◌++◌, some, arith, true, false, length,
  take,
}
use rtsp_server.Tcp.Cacher.{Cacher, verdict, size_limit, contents, create, default_cacher_size}
use rtsp_server.Tcp.Json.{parse_task_json_data}
use rtsp_server.Tcp.Json.Frames.{IsJsonFrame, parse-json_frame, parse-take-json_frame}
use rtsp_server.Tcp.Json.Total.{json_framer}
use rtsp_server.Tcp.Stream.{Format, receive_all, concat, All}
use rtsp_server.Tcp.Stream.Waits.{receive_all_lem}

json_nonempty : (x : List ℕ) → IsJsonFrame x → 0 < length x
json_nonempty x h = omega (arith, ap length h.framed)

json_whole :
    (x rest : List ℕ)
    → IsJsonFrame x
    → length (x ++ rest) ≤ size_limit
    → (invalid : ℕ) × (parse_task_json_data (x ++ rest)
        ≡ some (verdict true 0 (length x - 1) invalid))
json_whole x rest h le = (
  0,
  subst (λ y. parse_task_json_data (y ++ rest) ≡ some (verdict true 0 (length y - 1) 0))
      (sym h.framed)
      (parse-json_frame h.text rest h.short ∙ ap (λ n. some (verdict true 0 n 0)) (omega arith)),
)

json_part :
    (x : List ℕ) (k : ℕ)
    → IsJsonFrame x
    → k < length x
    → (end : ℕ) × (parse_task_json_data (take k x) ≡ some (verdict false 0 end 0))
json_part x k h lt =
    subst (λ y. (end : ℕ) × (parse_task_json_data (take k y) ≡ some (verdict false 0 end 0)))
      (sym h.framed) (parse-take-json_frame h.text k h.short (omega (arith, ap length h.framed)))

json_format : Format json_framer
json_format = record {
  IsPacket = IsJsonFrame;
  nonempty = json_nonempty;
  whole = json_whole;
  part = json_part;
}

-- A JSON text behind its length, of `limit` bytes at most.
abbrev pub Frames : ℕ → List (List ℕ) → Type 0
Frames limit = All (λ x. IsJsonFrame x × (length x ≤ limit))

-- However the frames of JSON texts (four bytes of length, then a text that begins with a brace)
-- are cut into deliveries, a new cacher hands out these frames, in order, and holds no byte at the
-- end; if the largest frame and a delivery together stay below the limit of the block.
pub json_stream :
    (junk : ℕ → ℕ) (limit : ℕ) (xs chunks : List (List ℕ))
    → Frames limit xs
    → All (λ chunk. limit + length chunk < size_limit) chunks
    → concat chunks ≡ concat xs
    → (c : Cacher) × (receive_all junk parse_task_json_data (create junk default_cacher_size) chunks
        ≡ some (xs, c))
      × (contents c ≡ [])
unfolding json_format
json_stream junk limit xs chunks h small e =
    receive_all_lem json_framer json_format junk default_cacher_size limit xs chunks (omega arith) h
      small e
