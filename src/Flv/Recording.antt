-- ===== src/Flv/Recording.antt =====
-- What writePacket leaves in a file, and what getNextFrame reads back from it.
use rtsp_server.Base.{
  ℕ, zero, suc, ◌+◌, ◌%◌, ◌<◌, ◌≡◌, refl, sym, ap, subst, ◌∙◌, Bool, true, false, not, ◌&&◌, List,
  [], ◌∷◌, ◌++◌, Option, none, some, length, store, htonl, if_true, if_false, ◌==◌, ltb,
  append_assoc, append-nil, arith, map, drop, drop-append_at, Bool-cases, inl, inr, ◌>>=◌,
}
use rtsp_server.File.Handler.{Handler, handler, write_file, current_file}
use rtsp_server.File.Handler.Writing.{IsWritable, write_file_end}
use rtsp_server.File.Handler.Caching.{IsCached}
use rtsp_server.File.Handler.Ahead.{IsAhead}
use rtsp_server.H264.Nal.{nal_type, nal_slice_idr, nal_sps, nal_pps}
use rtsp_server.Flv.Packet.{TimedPacket}
use rtsp_server.Flv.Tag.{nalu_tag}
use rtsp_server.Flv.Writer.{Writer, put, note_idx, write_unit, write_units}
use rtsp_server.Flv.Steps.{Parser, Outcome}
use rtsp_server.Flv.Parser.Frames.{get_next_frame}
use rtsp_server.Flv.RoundTrip.{unit_packet, get_next_frame-nalu_tag}

-- A unit that writePacket writes in a tag of its own: it has a first byte, is no parameter set, and
-- its tag's data has a size below 16 MB.
unfoldable pub is_slice : List ℕ → Bool
is_slice [] = false
is_slice (byte ∷ rest) =
    not (byte % 32 == nal_sps)
    && (not (byte % 32 == nal_pps) && ltb (length (byte ∷ rest) + 9) 0x100_0000)

unfoldable pub all_slices : List (List ℕ) → Bool
all_slices [] = true
all_slices (nal ∷ rest) = is_slice nal && all_slices rest

unfoldable pub is_key : List ℕ → Bool
is_key [] = false
is_key (byte ∷ rest) = byte % 32 == nal_slice_idr

-- The tags of units, one after the other.
unfoldable pub unit_tags : ℕ → List (List ℕ) → List ℕ
unit_tags timestamp [] = []
unit_tags timestamp (nal ∷ rest) = nalu_tag (is_key nal) timestamp nal ++ unit_tags timestamp rest

-- The writer is at the end of its file.
pub record IsAtEnd (w : Writer) : Type 0 where
  pub writable : IsWritable w.file
  pub at_end : w.file.cur_file ≡ length w.file.content

put_lem :
    (w : Writer) (bytes : List ℕ)
    → IsAtEnd w
    → IsAtEnd (put bytes w) × ((put bytes w).file.content ≡ w.file.content ++ bytes)
unfolding put handler
put_lem w bytes ends =
    let (h, e, content, writable, at_end) = write_file_end w.file bytes ends.writable ends.at_end in
    let file : h ≡ handler (write_file bytes w.file) = sym (ap handler e) in
    (
      record {
        writable = subst IsWritable file writable;
        at_end = subst (λ (h : Handler). h.cur_file ≡ length h.content) file at_end;
      },
      subst (λ (h : Handler). h.content ≡ w.file.content ++ bytes) file content,
    )

module _ (of_int seconds : ℕ → ℕ) where
  write_unit_lem :
      (w : Writer) (timestamp : ℕ) (nal : List ℕ)
      → IsAtEnd w
      → is_slice nal ≡ true
      → (w' : Writer) × (write_unit of_int seconds timestamp nal w ≡ some w')
        × IsAtEnd w'
        × (w'.file.content ≡ w.file.content ++ nalu_tag (is_key nal) timestamp nal)
  unfolding write_unit nal_type is_slice is_key note_idx
  write_unit_lem w timestamp [] ends slice = absurd (ground arith)
  write_unit_lem w timestamp (byte ∷ rest) ends slice =
      let type = byte % 32 in
      let not_sps : (type == nal_sps) ≡ false = ground arith in
      let not_pps : (type == nal_pps) ≡ false = ground arith in
      let nal = byte ∷ rest in
      elim (Bool-cases (type == nal_slice_idr)) [
        | inl key ↦
            let w₁ = note_idx of_int seconds timestamp w in
            let ends₁ : IsAtEnd w₁ = record { writable = ends.writable; at_end = ends.at_end } in
            let (ends', content) = put_lem w₁ (nalu_tag true timestamp nal) ends₁ in
            (
              put (nalu_tag true timestamp nal) w₁,
              if_false _ _ _ not_sps ∙ (if_false _ _ _ not_pps ∙ if_true _ _ _ key),
              ends',
              content ∙ ap (λ b. w.file.content ++ nalu_tag b timestamp nal) (sym key),
            )
        | inr other ↦
            let (ends', content) = put_lem w (nalu_tag false timestamp nal) ends in
            (
              put (nalu_tag false timestamp nal) w,
              if_false _ _ _ not_sps ∙ (if_false _ _ _ not_pps ∙ if_false _ _ _ other),
              ends',
              content ∙ ap (λ b. w.file.content ++ nalu_tag b timestamp nal) (sym other),
            )
      ]

  -- At the end of its file, flvWriter appends to it a tag for each unit of a packet without
  -- parameter sets and without units of 16 MB or more, in their order, and is at the end again.
  pub write_units_lem :
      (w : Writer) (timestamp : ℕ) (units : List (List ℕ))
      → IsAtEnd w
      → all_slices units ≡ true
      → (w' : Writer) × (write_units of_int seconds timestamp units w ≡ some w')
        × IsAtEnd w'
        × (w'.file.content ≡ w.file.content ++ unit_tags timestamp units)
  unfolding write_units all_slices unit_tags
  write_units_lem w timestamp [] ends slices = (w, refl, ends, sym (append-nil w.file.content))
  write_units_lem w timestamp (nal ∷ rest) ends slices =
      let first : is_slice nal ≡ true = ground arith in
      let others : all_slices rest ≡ true = ground arith in
      let tag = nalu_tag (is_key nal) timestamp nal in
      let (w₁, e₁, ends₁, c₁) = write_unit_lem w timestamp nal ends first in
      let (w₂, e₂, ends₂, c₂) = write_units_lem w₁ timestamp rest ends₁ others in
      (
        w₂,
        ap (λ o. o >>= write_units of_int seconds timestamp rest) e₁ ∙ e₂,
        ends₂,
        c₂
            ∙ (ap (λ c. c ++ unit_tags timestamp rest) c₁
                ∙ append_assoc w.file.content tag (unit_tags timestamp rest)),
      )

abbrev pub with_frame : TimedPacket → Option (List TimedPacket) → Option (List TimedPacket)
with_frame packet none = none
with_frame packet (some packets) = some (packet ∷ packets)

unfoldable pub frame_then :
    Outcome (Unit {0}) → (Parser → Option (List TimedPacket)) → Option (List TimedPacket)
frame_then (Outcome.done u s) next = with_frame s.out (next s)
frame_then (Outcome.failed s) next = none
frame_then Outcome.fault next = none
frame_then Outcome.out_of_fuel next = none

-- The bytes of the file that a writer leaves.
unfoldable pub map_file : Option Writer → Option (List ℕ)
map_file none = none
map_file (some w) = some w.file.content

pub some_injective : {A : Type 0} {a b : A} → ◌≡◌ {A = Option A} (some a) (some b) → a ≡ b
some_injective {a = a} e = ap (λ o. elim o [ none ↦ a | some x ↦ x ]) e

-- The packets of `n` calls of getNextFrame; `none` if one of them does not return.
unfoldable pub frames : ℕ → ℕ → Parser → Option (List TimedPacket)
frames zero fuel s = some []
frames (suc n) fuel s = frame_then (get_next_frame fuel s) (frames n fuel)

unit_tags-frames :
    (s : Parser) (timestamp fuel : ℕ) (units : List (List ℕ)) (previous rest : List ℕ)
    → IsAhead s.file (previous ++ (unit_tags timestamp units ++ rest))
    → length previous ≡ 4
    → all_slices units ≡ true
    → 0 < current_file s.file
    → 0 < fuel
    → frames (length units) fuel s ≡ some (map (unit_packet timestamp) units)
unfolding frames frame_then unit_tags all_slices is_slice
unit_tags-frames s timestamp fuel [] previous rest ahead four slices away enough = refl
unit_tags-frames s timestamp fuel ([] ∷ more) previous rest ahead four slices away enough =
    absurd (ground arith)
unit_tags-frames s timestamp fuel ((byte ∷ bytes) ∷ more) previous rest ahead four slices away
      enough =
    let nal = byte ∷ bytes in
    let others : all_slices more ≡ true = ground arith in
    let below : length nal + 9 < 0x100_0000 = ground arith in
    let assoc =
      append_assoc (nalu_tag (is_key nal) timestamp nal) (unit_tags timestamp more) rest in
    let (h, e, a, p) =
      get_next_frame-nalu_tag s (is_key nal) timestamp fuel nal previous
        (unit_tags timestamp more ++ rest) (subst (λ t. IsAhead s.file (previous ++ t)) assoc ahead)
        four below away enough in
    let s' : Parser = record s { file = h; out = unit_packet timestamp nal } in
    ap (λ o. frame_then o (frames (length more) fuel)) e
    ∙ ap (with_frame (unit_packet timestamp nal)) (
        unit_tags-frames s' timestamp fuel more (store 4 (htonl (length nal + 9 + 11))) rest a refl
          others p enough)

module _ (of_int seconds : ℕ → ℕ) where
  -- What flvWriter appends for a packet of units without parameter sets and below 16 MB each,
  -- flvParser reads back: one packet for each unit, in their order, each with the lowest 24 bits
  -- of the timestamp. The reader's cache is within the file that was written, and its position
  -- is four bytes before what was appended, and not the file's beginning.
  pub write_units-frames :
      (w : Writer) (s : Parser) (timestamp fuel : ℕ) (units : List (List ℕ))
      (front previous : List ℕ)
      → IsAtEnd w
      → w.file.content ≡ front ++ previous
      → length previous ≡ 4
      → 0 < length front
      → all_slices units ≡ true
      → 0 < fuel
      → IsCached s.file
      → map_file (write_units of_int seconds timestamp units w) ≡ some s.file.content
      → current_file s.file ≡ length front
      → frames (length units) fuel s ≡ some (map (unit_packet timestamp) units)
  unfolding map_file
  write_units-frames w s timestamp fuel units front previous ends content four some_front slices
        enough cached written at_front =
      let (w', e, ends', content') = write_units_lem of_int seconds w timestamp units ends slices in
      let tags = unit_tags timestamp units in
      let same : w'.file.content ≡ s.file.content =
        some_injective (sym (ap map_file e) ∙ written) in
      let whole : s.file.content ≡ front ++ (previous ++ (tags ++ [])) =
        sym same
        ∙ (content'
            ∙ (ap (λ c. c ++ tags) content
                ∙ (append_assoc front previous tags
                    ∙ ap (λ t. front ++ (previous ++ t)) (sym (append-nil tags))))) in
      let left : drop (current_file s.file) s.file.content ≡ previous ++ (tags ++ []) =
        ap (drop (current_file s.file)) whole
        ∙ drop-append_at (current_file s.file) front (previous ++ (tags ++ [])) at_front in
      unit_tags-frames s timestamp fuel units previous [] (record { cached = cached; left = left })
        four slices (omega arith) enough
