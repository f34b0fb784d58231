-- ===== src/Flv/TagRead.antt =====
-- What flvParser reads of the tag headers that flvWriter writes.
use rtsp_server.Base.{
  ℕ, ◌+◌, ◌*◌, ◌/◌, ◌%◌, ◌<◌, ◌≡◌, refl, ap, ap₂, ◌∙◌, List, [], ◌∷◌, ◌++◌, some, length, store,
  load, ◌==◌, arith, bit_or, or_nothing, load-store,
}
use rtsp_server.File.Handler.{Handler, current_file}
use rtsp_server.File.Handler.Ahead.{IsAhead, read_file-IsAhead}
use rtsp_server.Flv.Format.{fast_hton3, fast_hton3_lem, fast_hton3_below, fast_hton3-fast_hton3}
use rtsp_server.Flv.Tag.{tag_header}
use rtsp_server.Flv.Steps.{
  Parser, Outcome, read, after_read, byte_of, bind_done, bind_require, attempt_done,
}
use rtsp_server.Flv.Parser.{Tag, read_tag, is_known}

abbrev pub at_file : Parser → Handler → Parser
at_file s h = record s { file = h }

pub read-IsAhead :
    (s : Parser) (n : ℕ) (bytes rest : List ℕ)
    → IsAhead s.file (bytes ++ rest)
    → n ≡ length bytes
    → (h : Handler) × (read n s ≡ Outcome.done bytes (at_file s h))
      × IsAhead h rest
      × (current_file h ≡ current_file s.file + n)
unfolding read after_read
read-IsAhead s n bytes rest ahead size =
    let (h, e, ahead', moved) = read_file-IsAhead s.file n bytes rest ahead size in
    (h, ap (λ r. after_read r s) e, ahead', moved)

-- The tag that a video header of the writer is read as: its timestamp has lost all above 24 bits.
abbrev pub video_tag : ℕ → ℕ → Tag
video_tag size timestamp = record {
  tag_type = 9;
  data_size = size;
  timestamp = timestamp % 0x100_0000;
  timestamp_full = some (timestamp % 0x100_0000);
}

hton3_stored : (x : ℕ) → x < 0x100_0000 → fast_hton3 (load (store 3 (fast_hton3 x))) ≡ x
hton3_stored x below =
    ap fast_hton3 (load-store 3 (fast_hton3 x) (fast_hton3_below x)) ∙ fast_hton3-fast_hton3 x below

hton3_zero : fast_hton3 0 ≡ 0
hton3_zero = omega (arith, fast_hton3_lem 0)

extension_lost : (x : ℕ) → fast_hton3 (x / 0x100_0000 % 0x100) % 0x100 ≡ 0
extension_lost x = omega (arith, fast_hton3_lem (x / 0x100_0000 % 0x100))

pub read_tag_lem :
    (s : Parser) (size timestamp : ℕ) (rest : List ℕ)
    → IsAhead s.file (tag_header size timestamp ++ rest)
    → size < 0x100_0000
    → (h : Handler) × (read_tag s ≡ Outcome.done (video_tag size timestamp) (at_file s h))
      × IsAhead h rest
      × (current_file h ≡ current_file s.file + 11)
unfolding read_tag tag_header byte_of is_known
read_tag_lem s size timestamp rest ahead below =
    let low = timestamp % 0x100_0000 in
    let high = fast_hton3 (timestamp / 0x100_0000 % 0x100) % 0x100 in
    let (h₁, e₁, a₁, m₁) = read-IsAhead s 1 (9 ∷ []) _ ahead refl in
    let (h₂, e₂, a₂, m₂) = read-IsAhead (at_file s h₁) 3 (store 3 (fast_hton3 size)) _ a₁ refl in
    let (h₃, e₃, a₃, m₃) = read-IsAhead (at_file s h₂) 3 (store 3 (fast_hton3 low)) _ a₂ refl in
    let (h₄, e₄, a₄, m₄) = read-IsAhead (at_file s h₃) 1 (high ∷ []) _ a₃ refl in
    let (h₅, e₅, a₅, m₅) = read-IsAhead (at_file s h₄) 3 (store 3 (fast_hton3 0)) rest a₄ refl in
    (
      h₅,
      bind_done _ _ _ _ _ e₁
          ∙ (bind_done _ _ _ _ _ e₂
              ∙ (bind_done _ _ _ _ _ e₃
                  ∙ (bind_done _ _ _ _ _ (attempt_done _ _ _ _ e₄)
                      ∙ (bind_done _ _ _ _ _ e₅
                          ∙ (bind_require _ _ _ (ap (λ z. load (store 3 z) == 0) hton3_zero)
                              ∙ (bind_require _ _ _ refl
                                  ∙ (ap₂ (λ a b. built h₅ a b high) (hton3_stored size below)
                                        (hton3_stored low (omega arith))
                                      ∙ ap
                                          (λ full.
                                            Outcome.done
                                              (record (video_tag size timestamp) {
                                                timestamp_full = some full;
                                              })
                                              (at_file s h₅))
                                          no_extension))))))),
      a₅,
      omega (arith, m₁, m₂, m₃, m₄, m₅),
    )
  where
    built : Handler → ℕ → ℕ → ℕ → Outcome Tag
    built h size time high =
        Outcome.done
          (record {
            tag_type = 9;
            data_size = size;
            timestamp = time;
            timestamp_full = some (bit_or (high * 0x100_0000) time);
          })
          (at_file s h)

    no_extension :
        bit_or
          (fast_hton3 (timestamp / 0x100_0000 % 0x100) % 0x100 * 0x100_0000)
          (timestamp % 0x100_0000)
        ≡ timestamp % 0x100_0000
    no_extension =
        ap (λ z. bit_or (z * 0x100_0000) (timestamp % 0x100_0000)) (extension_lost timestamp)
        ∙ or_nothing (timestamp % 0x100_0000)
