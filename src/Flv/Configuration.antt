-- ===== src/Flv/Configuration.antt =====
-- What flvParser reads of the tag that flvWriter writes for the parameter sets.
use rtsp_server.Base.{
  ℕ, zero, suc, ◌+◌, ◌*◌, ◌%◌, ◌<◌, ◌≡◌, refl, sym, ap, subst, ◌∙◌, true, false, List, [], ◌∷◌,
  ◌++◌, some, length, store, load, htonl, htons, if_false, ◌==◌, append_assoc, arith, bit_or,
}
use rtsp_server.File.Handler.{Handler, current_file}
use rtsp_server.File.Handler.Ahead.{IsAhead}
use rtsp_server.Flv.Format.{fast_hton3}
use rtsp_server.Flv.Packet.{PacketType, TimedPacket}
use rtsp_server.Flv.Tag.{tag_header, avc_header, configuration_record, config_size, config_tag}
use rtsp_server.Flv.Steps.{
  Parser, Outcome, Step, byte_of, bind_done, bind_require, attempt_done, set_timestamp, set_type,
  push,
}
use rtsp_server.Flv.Parser.Video.{
  read_set, sps_loop, pps_loop, read_configuration, read_avc, parser_video_data,
}
use rtsp_server.Flv.Parser.Frames.{no_packet, get_next_frame, ignore}
use rtsp_server.Flv.TagRead.{at_file, read-IsAhead, video_tag}
use rtsp_server.Flv.Recording.{some_injective}
use rtsp_server.Flv.RoundTrip.{opened_packet, open_tag_lem}

-- The parser after a unit of data.
abbrev pushed : List ℕ → Parser → Handler → Parser
pushed unit s h = record s { file = h; out = record s.out { units = s.out.units ++ (unit ∷ []) } }

htons_stored : (x : ℕ) → x < 0x1_0000 → htons (load (store 2 (htons x))) ≡ x
htons_stored x below = omega arith

read_set_lem :
    (s : Parser) (set rest : List ℕ)
    → IsAhead s.file (store 2 (htons (length set)) ++ (set ++ rest))
    → length set < 0x1_0000
    → (h : Handler) × (read_set s ≡ Outcome.done (length set) (pushed set s h))
      × IsAhead h rest
      × (0 < current_file h)
unfolding read_set push
read_set_lem s set rest ahead small =
    let stored = store 2 (htons (length set)) in
    let size : htons (load stored) ≡ length set = htons_stored (length set) small in
    let (h₁, e₁, a₁, m₁) = read-IsAhead s 2 stored (set ++ rest) ahead refl in
    let (h₂, e₂, a₂, m₂) = read-IsAhead (at_file s h₁) (htons (load stored)) set rest a₁ size in
    (
      h₂,
      bind_done _ _ _ _ _ e₁
          ∙ (bind_done _ _ _ _ _ e₂
              ∙ (bind_done _ _ _ _ _ refl ∙ ap (λ n. Outcome.done n (pushed set s h₂)) size)),
      a₂,
      omega (arith, m₁, m₂),
    )

-- The record with one parameter set of each kind, as the writer fills it.
abbrev both_sets : ℕ → ℕ → ℕ → List ℕ → List ℕ → List ℕ → List ℕ
both_sets profile compatibility level sps pps rest =
    1
    ∷ profile
    ∷ compatibility
    ∷ level
    ∷ bit_or (0x3f * 4) 3
    ∷ bit_or (7 * 32) 1
    ∷ (store 2 (htons (length sps))
        ++ (sps ++ (1 ∷ (store 2 (htons (length pps)) ++ (pps ++ rest)))))

read_configuration_lem :
    (s : Parser) (profile compatibility level : ℕ) (sps pps rest : List ℕ)
    → IsAhead s.file (both_sets profile compatibility level sps pps rest)
    → length sps < 0x1_0000
    → length pps < 0x1_0000
    → (h : Handler) × (read_configuration s ≡ Outcome.done tt (pushed pps (pushed sps s h) h))
      × IsAhead h rest
      × (0 < current_file h)
unfolding read_configuration sps_loop pps_loop byte_of
read_configuration_lem s profile compatibility level sps pps rest ahead small small' =
    let (h₁, e₁, a₁, m₁) = read-IsAhead s 1 (1 ∷ []) _ ahead refl in
    let (h₂, e₂, a₂, m₂) = read-IsAhead (at_file s h₁) 1 (profile ∷ []) _ a₁ refl in
    let (h₃, e₃, a₃, m₃) = read-IsAhead (at_file s h₂) 1 (compatibility ∷ []) _ a₂ refl in
    let (h₄, e₄, a₄, m₄) = read-IsAhead (at_file s h₃) 1 (level ∷ []) _ a₃ refl in
    let (h₅, e₅, a₅, m₅) = read-IsAhead (at_file s h₄) 1 (bit_or (0x3f * 4) 3 ∷ []) _ a₄ refl in
    let (h₆, e₆, a₆, m₆) = read-IsAhead (at_file s h₅) 1 (bit_or (7 * 32) 1 ∷ []) _ a₅ refl in
    let (h₇, e₇, a₇, p₇) = read_set_lem (at_file s h₆) sps _ a₆ small in
    let s₇ : Parser = pushed sps s h₇ in
    let (h₈, e₈, a₈, m₈) = read-IsAhead s₇ 1 (1 ∷ []) _ a₇ refl in
    let (h₉, e₉, a₉, p₉) = read_set_lem (at_file s₇ h₈) pps rest a₈ small' in
    let s₉ : Parser = pushed pps (pushed sps s h₉) h₉ in
    let one_sps : sps_loop 1 (at_file s h₆) ≡ Outcome.done true s₇ =
      bind_done _ _ _ _ _ (attempt_done _ _ _ _ e₇) in
    let one_pps : pps_loop 1 1 (at_file s₇ h₈) ≡ Outcome.done true s₉ =
      bind_done _ _ _ _ _ (attempt_done _ _ _ _ e₉) in
    (
      h₉,
      bind_done _ _ _ _ _ e₁
          ∙ (bind_done _ _ _ _ _ e₂
              ∙ (bind_done _ _ _ _ _ e₃
                  ∙ (bind_done _ _ _ _ _ e₄
                      ∙ (bind_done _ _ _ _ _ e₅
                          ∙ (bind_done _ _ _ _ _ e₆
                              ∙ (bind_done _ _ _ _ _ one_sps
                                  ∙ (bind_done _ _ _ _ _ e₈
                                      ∙ (bind_done _ _ _ _ _ one_pps
                                          ∙ bind_require true _ _ refl)))))))),
      a₉,
      p₉,
    )

-- The packet that a tag of parameter sets is read as.
abbrev pub sets_packet : ℕ → List ℕ → List ℕ → TimedPacket
sets_packet timestamp sps pps = record {
  timestamp = some (timestamp % 0x100_0000);
  packet_type = some PacketType.raw_h264_frame;
  units = sps ∷ pps ∷ [];
}

configuration_data_lem :
    (s : Parser) (timestamp size profile compatibility level : ℕ) (sps pps rest : List ℕ)
    → IsAhead s.file (avc_header 1 0 ++ both_sets profile compatibility level sps pps rest)
    → length sps < 0x1_0000
    → length pps < 0x1_0000
    → s.out ≡ opened_packet timestamp
    → (h : Handler) × (parser_video_data (video_tag size timestamp) s
        ≡ Outcome.done tt (record s { file = h; out = sets_packet timestamp sps pps }))
      × IsAhead h rest
      × (0 < current_file h)
unfolding parser_video_data read_avc avc_header byte_of set_type set_timestamp
configuration_data_lem s timestamp size profile compatibility level sps pps rest ahead small small'
      opened =
    let record_bytes = both_sets profile compatibility level sps pps rest in
    let (h₁, e₁, a₁, m₁) = read-IsAhead s 1 (bit_or (1 % 16 * 16) (7 % 16) ∷ []) _ ahead refl in
    let (h₂, e₂, a₂, m₂) = read-IsAhead (at_file s h₁) 1 (0 ∷ []) _ a₁ refl in
    let (h₃, e₃, a₃, m₃) =
      read-IsAhead (at_file s h₂) 3 (store 3 (fast_hton3 0)) record_bytes a₂ refl in
    let s' : Parser = record s {
      file = h₃;
      out = record s.out {
        packet_type = some PacketType.raw_h264_frame;
        timestamp = some (timestamp % 0x100_0000);
      };
    } in
    let (h₄, e₄, a₄, p₄) =
      read_configuration_lem s' profile compatibility level sps pps rest a₃ small small' in
    (
      h₄,
      bind_done _ _ _ _ _ e₁
          ∙ (bind_done _ _ _ _ _ e₂
              ∙ (bind_done _ _ _ _ _ e₃
                  ∙ (bind_done _ _ _ _ _ refl
                      ∙ (bind_done _ _ _ _ _ refl
                          ∙ (e₄ ∙ ap (λ (out : TimedPacket). packed h₄ out) opened))))),
      a₄,
      p₄,
    )
  where
    packed : Handler → TimedPacket → Outcome (Unit {0})
    packed h out = Outcome.done tt (record s {
      file = h;
      out = record {
        timestamp = some (timestamp % 0x100_0000);
        packet_type = some PacketType.raw_h264_frame;
        units = (out.units ++ (sps ∷ [])) ++ (pps ∷ []);
      };
    })

-- The tag that flvWriter writes for its two parameter sets is what getNextFrame reads, both in
-- one packet, with the lowest 24 bits of the timestamp. The sequence parameter set has at least
-- four bytes, each set has less than 65536. The four bytes before the tag may be any, the
-- position not the file's beginning. The size of the tag and all that follows are ahead
-- afterwards, the position again not the beginning.
pub get_next_frame-config_tag :
    (s : Parser) (timestamp fuel first profile compatibility level : ℕ)
    (more pps tag previous rest : List ℕ)
    → config_tag timestamp (first ∷ profile ∷ compatibility ∷ level ∷ more) pps ≡ some tag
    → IsAhead s.file (previous ++ (tag ++ rest))
    → length previous ≡ 4
    → length more + 4 < 0x1_0000
    → length pps < 0x1_0000
    → 0 < current_file s.file
    → 0 < fuel
    → (h : Handler) × (get_next_frame fuel s
        ≡ Outcome.done tt (record s {
          file = h;
          out = sets_packet timestamp (first ∷ profile ∷ compatibility ∷ level ∷ more) pps;
        }))
      × IsAhead h (
          store 4 (htonl (config_size (first ∷ profile ∷ compatibility ∷ level ∷ more) pps + 11))
          ++ rest)
      × (0 < current_file h)
unfolding get_next_frame config_tag configuration_record config_size ignore tag_header avc_header
get_next_frame-config_tag s timestamp zero first profile compatibility level more pps tag previous
      rest written ahead four small small' away enough =
    absurd (omega arith)
get_next_frame-config_tag s timestamp (suc fuel) first profile compatibility level more pps tag
      previous rest written ahead four small small' away enough =
    let sps = first ∷ profile ∷ compatibility ∷ level ∷ more in
    let size = config_size sps pps in
    let behind = store 4 (htonl (size + 11)) in
    let s₀ : Parser = record s { out = no_packet } in
    let not_first : (current_file s.file == 0) ≡ false = ground arith in
    let tail = 1 ∷ (store 2 (htons (length pps)) ++ (pps ++ behind)) in
    let assoc : (more ++ tail) ++ rest
        ≡ more ++ (1 ∷ (store 2 (htons (length pps)) ++ (pps ++ (behind ++ rest)))) =
      append_assoc more tail rest
      ∙ ap (λ t. more ++ (1 ∷ (store 2 (htons (length pps)) ++ t)))
          (append_assoc pps behind rest) in
    let shown =
      subst (λ t. IsAhead s.file (previous ++ (t ++ rest))) (some_injective (sym written)) ahead in
    let (h₁, e₁, a₁) = open_tag_lem s₀ previous _ size timestamp shown four (omega arith) refl in
    let fields = λ (t : List ℕ).
      1
      ∷ profile
      ∷ compatibility
      ∷ level
      ∷ bit_or (0x3f * 4) 3
      ∷ bit_or (7 * 32) 1
      ∷ (store 2 (htons (length sps)) ++ (first ∷ profile ∷ compatibility ∷ level ∷ t)) in
    let s₁ : Parser = record s { file = h₁; out = opened_packet timestamp } in
    let (h₂, e₂, a₂, p₂) =
      configuration_data_lem s₁ timestamp size profile compatibility level sps pps (behind ++ rest)
        (subst (λ t. IsAhead h₁ (avc_header 1 0 ++ fields t)) assoc a₁) (omega arith) small' refl in
    (
      h₂,
      bind_done _ _ _ _ _ refl
          ∙ (bind_done _ _ _ _ _ refl
              ∙ (bind_done _ _ _ _ _ (ap (λ (m : Step (Unit {0})). m s₀) (if_false _ _ _ not_first))
                  ∙ (bind_done _ _ _ _ _ (attempt_done _ _ _ _ e₁)
                      ∙ (bind_done _ _ _ _ _ (attempt_done _ _ _ _ e₂))))),
      a₂,
      p₂,
    )
