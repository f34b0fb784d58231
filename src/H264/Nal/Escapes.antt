-- ===== src/H264/Nal/Escapes.antt =====
-- What emulation_prevention keeps: the size of the block, and a set without escapes.
use rtsp_server.Base.{
  ℕ, zero, suc, ◌-◌, ◌≤◌, ◌≡◌, refl, ap, ap₂, ◌∙◌, Bool, false, List, [], ◌∷◌, ◌++◌, ◌||◌, take,
  drop, length, arith, Bool-cases, if_true, if_false, inl, inr,
}
use rtsp_server.H264.Nal.{
  move_down, is_escape, close_gap, round_bytes, round_len, emulation_loop, emulation_prevention,
}

length-move_down : (bytes : List ℕ) → length (move_down bytes) ≡ length bytes
unfolding move_down
length-move_down [] = refl
length-move_down (x ∷ []) = refl
length-move_down (x ∷ y ∷ rest) = ap suc (length-move_down (y ∷ rest))

length-close_gap : (bytes : List ℕ) → length (close_gap bytes) ≡ length bytes
unfolding close_gap
length-close_gap [] = refl
length-close_gap (a ∷ []) = refl
length-close_gap (a ∷ b ∷ rest) = ap (λ n. suc (suc n)) (length-move_down rest)

length-round_bytes : (bytes : List ℕ) → length (round_bytes bytes) ≡ length bytes
unfolding round_bytes
length-round_bytes bytes = elim (Bool-cases (is_escape bytes)) [
  | inl escaped ↦ ap length (if_true _ _ _ escaped) ∙ length-close_gap bytes
  | inr plain ↦ ap length (if_false _ _ _ plain)
]

round_len_le : (bytes : List ℕ) (len : ℕ) → round_len bytes len ≤ len
unfolding round_len
round_len_le bytes len = ground arith

first_and_rest :
    (bytes rest : List ℕ)
    → length rest ≡ length (drop 1 bytes)
    → length (take 1 bytes ++ rest) ≡ length bytes
first_and_rest [] rest e = e
first_and_rest (x ∷ bytes) rest e = ap suc e

abbrev with_first : List ℕ → List ℕ × ℕ → List ℕ × ℕ
with_first next (rest, len) = (take 1 next ++ rest, len)

length-emulation_loop :
    (left : ℕ) (bytes : List ℕ) (len : ℕ)
    → (bytes' : List ℕ) × (len' : ℕ) × (emulation_loop left bytes len ≡ (bytes', len'))
      × (length bytes' ≡ length bytes)
      × (len' ≤ len)
unfolding emulation_loop
length-emulation_loop zero bytes len = (bytes, len, refl, refl, omega arith)
length-emulation_loop (suc left) bytes len =
    let next = round_bytes bytes in
    let (rest, len', e, same, less) =
      length-emulation_loop left (drop 1 next) (round_len bytes len) in
    (
      take 1 next ++ rest,
      len',
      ap (with_first next) e,
      first_and_rest next rest same ∙ length-round_bytes bytes,
      omega (arith, less, round_len_le bytes len),
    )

-- emulation_prevention keeps the size of the block, and the length that it gives is at most that.
pub length-emulation_prevention :
    (sps : List ℕ)
    → (bytes : List ℕ) × (len : ℕ) × (emulation_prevention sps ≡ (bytes, len))
      × (length bytes ≡ length sps)
      × (len ≤ length sps)
unfolding emulation_prevention
length-emulation_prevention sps = length-emulation_loop (length sps - 2) sps (length sps)

-- Whether 00 00 03 stands anywhere.
unfoldable pub has_escape : List ℕ → Bool
has_escape [] = false
has_escape (x ∷ rest) = is_escape (x ∷ rest) || has_escape rest

or_false : (a b : Bool) → (a || b) ≡ false → (a ≡ false) × (b ≡ false)
or_false a b e = (ground arith, ground arith)

is_escape-nil : is_escape [] ≡ false
unfolding is_escape
is_escape-nil = refl

loop_step :
    (left : ℕ) (bytes : List ℕ) (len : ℕ)
    → is_escape bytes ≡ false
    → emulation_loop left (drop 1 bytes) len ≡ (drop 1 bytes, len)
    → emulation_loop (suc left) bytes len ≡ (take 1 bytes ++ drop 1 bytes, len)
unfolding emulation_loop round_bytes round_len
loop_step left bytes len plain e =
    let same : round_bytes bytes ≡ bytes = if_false _ _ _ plain in
    let kept : round_len bytes len ≡ len = if_false _ _ _ plain in
    ap₂ (λ b n. with_first b (emulation_loop left (drop 1 b) n)) same kept ∙ ap (with_first bytes) e

emulation_loop-plain :
    (left : ℕ) (bytes : List ℕ) (len : ℕ)
    → has_escape bytes ≡ false
    → emulation_loop left bytes len ≡ (bytes, len)
unfolding emulation_loop has_escape
emulation_loop-plain zero bytes len plain = refl
emulation_loop-plain (suc left) [] len plain =
    loop_step left [] len is_escape-nil (emulation_loop-plain left [] len plain)
emulation_loop-plain (suc left) (x ∷ rest) len plain =
    let (here, later) = or_false (is_escape (x ∷ rest)) (has_escape rest) plain in
    loop_step left (x ∷ rest) len here (emulation_loop-plain left rest len later)

-- A set in which 00 00 03 does not stand is left as it is, and so is its length.
pub emulation_prevention-plain :
    (sps : List ℕ) → has_escape sps ≡ false → emulation_prevention sps ≡ (sps, length sps)
unfolding emulation_prevention
emulation_prevention-plain sps plain = emulation_loop-plain (length sps - 2) sps (length sps) plain
