-- ===== src/Flv/RoundTrip.antt =====
-- What flvParser reads of the tags that flvWriter writes for NAL units.
use rtsp_server.Base.{
  ℕ, zero, suc, ◌+◌, ◌-◌, ◌*◌, ◌%◌, ◌<◌, ◌≤◌, ◌≡◌, refl, sym, ap, subst, ◌∙◌, Bool, true, false,
  List, [], ◌∷◌, ◌++◌, none, some, length, store, load, htonl, if◌then◌else◌, if_true, if_false,
  ◌==◌, append_assoc, arith, leb, lt→leb, bit_or, load-store,
}
use rtsp_server.File.Handler.{Handler, current_file}
use rtsp_server.File.Handler.Ahead.{IsAhead}
use rtsp_server.Flv.Format.{fast_hton3}
use rtsp_server.Flv.Packet.{PacketType, TimedPacket}
use rtsp_server.Flv.Tag.{tag_header, avc_header, nalu_tag}
use rtsp_server.Flv.Steps.{
  Parser, Outcome, Step, crash, read, byte_of, bind_done, attempt_done, set_timestamp, set_type,
  push,
}
use rtsp_server.Flv.Parser.Video.{read_unit, unit_loop, read_avc, parser_video_data}
use rtsp_server.Flv.Parser.Frames.{open_tag, no_packet, get_next_frame, ignore}
use rtsp_server.Flv.TagRead.{at_file, read-IsAhead, video_tag, read_tag_lem}

-- The parser after a unit of data.
abbrev pushed : List ℕ → Parser → Handler → Parser
pushed nal s h = record s { file = h; out = record s.out { units = s.out.units ++ (nal ∷ []) } }

htonl_stored : (x : ℕ) → x < 0x1_0000_0000 → htonl (load (store 4 (htonl x))) ≡ x
htonl_stored x below = ap htonl (load-store 4 (htonl x) (omega arith)) ∙ omega arith

read_unit_lem :
    (s : Parser) (nal rest : List ℕ) (tmp32 : ℕ)
    → IsAhead s.file (store 4 (htonl (length nal)) ++ (nal ++ rest))
    → length nal < 0x8000_0000
    → (h : Handler) × (read_unit tmp32 s
        ≡ Outcome.done (load (store 4 (htonl (length nal)))) (pushed nal s h))
      × IsAhead h rest
      × (0 < current_file h)
unfolding read_unit push
read_unit_lem s nal rest tmp32 ahead small =
    let stored = store 4 (htonl (length nal)) in
    let size : htonl (load stored) ≡ length nal = htonl_stored (length nal) (omega arith) in
    let (h₁, e₁, a₁, m₁) = read-IsAhead s 4 stored (nal ++ rest) ahead refl in
    let (h₂, e₂, a₂, m₂) = read-IsAhead (at_file s h₁) (htonl (load stored)) nal rest a₁ size in
    let allocated : (if leb 0x8000_0000 (htonl (load stored))
          then crash
          else read (htonl (load stored)))
        ≡ read (htonl (load stored)) =
      if_false _ _ _ (lt→leb 0x8000_0000 (htonl (load stored)) (omega (arith, size))) in
    (
      h₂,
      bind_done _ _ _ _ _ (attempt_done _ _ _ _ e₁)
          ∙ (bind_done _ _ _ _ _ (ap (λ m. m (at_file s h₁)) allocated ∙ e₂)
              ∙ bind_done _ _ _ _ _ refl),
      a₂,
      omega (arith, m₁, m₂),
    )

unit_loop_lem :
    (s : Parser) (nal rest : List ℕ) (fuel left tmp32 : ℕ)
    → IsAhead s.file (store 4 (htonl (length nal)) ++ (nal ++ rest))
    → length nal < 0x8000_0000
    → left ≡ 4 + length nal
    → 2 ≤ fuel
    → (h : Handler) × (unit_loop fuel left tmp32 s ≡ Outcome.done tt (pushed nal s h))
      × IsAhead h rest
      × (0 < current_file h)
unfolding unit_loop
unit_loop_lem s nal rest zero left tmp32 ahead small e enough = absurd (omega arith)
unit_loop_lem s nal rest (suc zero) left tmp32 ahead small e enough = absurd (omega arith)
unit_loop_lem s nal rest (suc (suc fuel)) left tmp32 ahead small e enough =
    let stored = store 4 (htonl (length nal)) in
    let size : htonl (load stored) ≡ length nal = htonl_stored (length nal) (omega arith) in
    let (h, e₁, a₁, p₁) = read_unit_lem s nal rest tmp32 ahead small in
    let some_left : (left == 0) ≡ false = ground arith in
    let none_left : (left - (4 + htonl (load stored)) == 0) ≡ true = ground (arith, size) in
    (
      h,
      ap (λ (m : Step (Unit {0})). m s) (if_false _ _ _ some_left)
          ∙ (bind_done _ _ _ _ _ e₁
              ∙ ap (λ (m : Step (Unit {0})). m (pushed nal s h)) (if_true _ _ _ none_left)),
      a₁,
      p₁,
    )

-- The packet that a tag of a unit is read as.
abbrev pub unit_packet : ℕ → List ℕ → TimedPacket
unit_packet timestamp nal = record {
  timestamp = some (timestamp % 0x100_0000);
  packet_type = some PacketType.raw_h264_frame;
  units = nal ∷ [];
}

abbrev frame_type : Bool → ℕ
frame_type is_key = if is_key then 1 else 2

codec_lem : (is_key : Bool) → (byte_of (avc_header (frame_type is_key) 1) % 16 == 7) ≡ true
unfolding byte_of avc_header
codec_lem true = refl
codec_lem false = refl

parser_video_data_lem :
    (s : Parser) (is_key : Bool) (timestamp : ℕ) (nal rest : List ℕ)
    → IsAhead s.file
        (avc_header (frame_type is_key) 1 ++ (store 4 (htonl (length nal)) ++ (nal ++ rest)))
    → length nal < 0x8000_0000
    → s.out.units ≡ []
    → (h : Handler) × (parser_video_data (video_tag (length nal + 9) timestamp) s
        ≡ Outcome.done tt (record s { file = h; out = unit_packet timestamp nal }))
      × IsAhead h rest
      × (0 < current_file h)
unfolding parser_video_data read_avc avc_header byte_of set_type set_timestamp
parser_video_data_lem s is_key timestamp nal rest ahead small empty =
    let codec = bit_or (frame_type is_key % 16 * 16) (7 % 16) in
    let sized = store 4 (htonl (length nal)) ++ (nal ++ rest) in
    let zeros = store 3 (fast_hton3 0) in
    let (h₁, e₁, a₁, m₁) = read-IsAhead s 1 (codec ∷ []) _ ahead refl in
    let (h₂, e₂, a₂, m₂) = read-IsAhead (at_file s h₁) 1 (1 ∷ []) _ a₁ refl in
    let (h₃, e₃, a₃, m₃) = read-IsAhead (at_file s h₂) 3 zeros sized a₂ refl in
    let s' : Parser = record s {
      file = h₃;
      out = record s.out {
        packet_type = some PacketType.raw_h264_frame;
        timestamp = some (timestamp % 0x100_0000);
      };
    } in
    let (h₄, e₄, a₄, p₄) =
      unit_loop_lem s' nal rest (length nal + 9 + 1) (length nal + 9 - 5) (fast_hton3 (load zeros))
        a₃ small (omega arith) (omega arith) in
    (
      h₄,
      bind_done _ _ _ _ _ e₁
          ∙ (ap (λ (m : Step (Unit {0})). m (at_file s h₁)) (if_true _ _ _ (codec_lem is_key))
              ∙ (bind_done _ _ _ _ _ e₂
                  ∙ (bind_done _ _ _ _ _ e₃
                      ∙ (bind_done _ _ _ _ _ refl
                          ∙ (bind_done _ _ _ _ _ refl ∙ (e₄ ∙ ap (λ us. packed h₄ us) empty)))))),
      a₄,
      p₄,
    )
  where
    packed : Handler → List (List ℕ) → Outcome (Unit {0})
    packed h us = Outcome.done tt (record s {
      file = h;
      out = record {
        timestamp = some (timestamp % 0x100_0000);
        packet_type = some PacketType.raw_h264_frame;
        units = us ++ (nal ∷ []);
      };
    })

-- The packet of getNextFrame before anything is read into it, and once a tag is open.
abbrev pub opened_packet : ℕ → TimedPacket
opened_packet timestamp = record {
  timestamp = some (timestamp % 0x100_0000);
  packet_type = none;
  units = [];
}

pub open_tag_lem :
    (s : Parser) (previous rest : List ℕ) (size timestamp : ℕ)
    → IsAhead s.file (previous ++ (tag_header size timestamp ++ rest))
    → length previous ≡ 4
    → size < 0x100_0000
    → s.out ≡ no_packet
    → (h : Handler) × (open_tag s
        ≡ Outcome.done
            (video_tag size timestamp)
            (record s { file = h; out = opened_packet timestamp }))
      × IsAhead h rest
unfolding open_tag set_timestamp
open_tag_lem s previous rest size timestamp ahead four below empty =
    let (h₁, e₁, a₁, m₁) = read-IsAhead s 4 previous _ ahead (sym four) in
    let (h₂, e₂, a₂, m₂) = read_tag_lem (at_file s h₁) size timestamp rest a₁ below in
    (
      h₂,
      bind_done _ _ _ _ _ e₁
          ∙ (bind_done _ _ _ _ _ e₂
              ∙ (bind_done _ _ _ _ _ refl
                  ∙ ap
                      (λ (out : TimedPacket). Outcome.done (video_tag size timestamp) (record s {
                        file = h₂;
                        out = record out { timestamp = some (timestamp % 0x100_0000) };
                      }))
                      empty)),
      a₂,
    )

-- A NAL unit below 16 MB, less the 9 bytes of the headers in its tag, that flvWriter has written
-- as a tag is what getNextFrame reads, alone in its packet, with the lowest 24 bits of its
-- timestamp. The four bytes before the tag may be any, the position not the file's beginning.
-- The size of the tag and all that follows are ahead afterwards, the position again not the
-- beginning.
pub get_next_frame-nalu_tag :
    (s : Parser) (is_key : Bool) (timestamp fuel : ℕ) (nal previous rest : List ℕ)
    → IsAhead s.file (previous ++ (nalu_tag is_key timestamp nal ++ rest))
    → length previous ≡ 4
    → length nal + 9 < 0x100_0000
    → 0 < current_file s.file
    → 0 < fuel
    → (h : Handler) × (get_next_frame fuel s
        ≡ Outcome.done tt (record s { file = h; out = unit_packet timestamp nal }))
      × IsAhead h (store 4 (htonl (length nal + 9 + 11)) ++ rest)
      × (0 < current_file h)
unfolding get_next_frame nalu_tag ignore tag_header avc_header
get_next_frame-nalu_tag s is_key timestamp zero nal previous rest ahead four below away enough =
    absurd (omega arith)
get_next_frame-nalu_tag s is_key timestamp (suc fuel) nal previous rest ahead four below away
      enough =
    let size_behind = store 4 (htonl (length nal + 9 + 11)) in
    let behind = size_behind ++ rest in
    let s₀ : Parser = record s { out = no_packet } in
    let assoc = append_assoc nal size_behind rest in
    let not_first : (current_file s.file == 0) ≡ false = ground arith in
    let (h₁, e₁, a₁) =
      open_tag_lem s₀ previous _ (length nal + 9) timestamp ahead four below refl in
    let s₁ : Parser = record s { file = h₁; out = opened_packet timestamp } in
    let (h₂, e₂, a₂, p₂) =
      parser_video_data_lem s₁ is_key timestamp nal behind
        (subst
          (λ t.
            IsAhead h₁ (avc_header (frame_type is_key) 1 ++ (store 4 (htonl (length nal)) ++ t)))
          assoc a₁)
        (omega arith) refl in
    (
      h₂,
      bind_done _ _ _ _ _ refl
          ∙ (bind_done _ _ _ _ _ refl
              ∙ (bind_done _ _ _ _ _ (ap (λ (m : Step (Unit {0})). m s₀) (if_false _ _ _ not_first))
                  ∙ (bind_done _ _ _ _ _ (attempt_done _ _ _ _ e₁)
                      ∙ (bind_done _ _ _ _ _ (attempt_done _ _ _ _ e₂))))),
      a₂,
      p₂,
    )
