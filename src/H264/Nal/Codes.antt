-- ===== src/H264/Nal/Codes.antt =====
-- Where get_frame finds the start codes of a block.
use rtsp_server.Base.{
  ℕ, zero, suc, ◌+◌, ◌-◌, ◌≤◌, ◌<◌, ◌≡◌, ◌≢◌, refl, sym, ap, ◌∙◌, false, List, [], ◌∷◌, ◌⊎◌, ==_iff,
  false, Option, none, some, length, drop, window, arith, Bool-cases, bind_some, leb, if_true,
  if_false, inl, inr, drop-drop, length-drop,
}
use rtsp_server.H264.Nal.{Front, front, step_width, found_or, find_code, unit_from, get_frame}

-- A start code of `n` bytes stands at a position: 00 00 01 or 00 00 00 01.
abbrev pub IsCode : List ℕ → ℕ → ℕ → Type 0
IsCode bytes pos n =
    ((n ≡ 3) × (window bytes pos 3 ≡ 0 ∷ 0 ∷ 1 ∷ []))
    ⊎ ((n ≡ 4) × (window bytes pos 4 ≡ 0 ∷ 0 ∷ 0 ∷ 1 ∷ []))

-- The bytes on which the tests of the code come to a start code.
front_tests :
    (a b c d : ℕ) (rest : List ℕ) (n : ℕ)
    → front (a ∷ b ∷ c ∷ d ∷ rest) ≡ Front.start_code n
    → ((n ≡ 3) × (a ≡ 0) × (b ≡ 0) × (c ≡ 1)) ⊎ ((n ≡ 4) × (a ≡ 0) × (b ≡ 0) × (c ≡ 0) × (d ≡ 1))
unfolding front
front_tests a b c d rest n e =
    grind (arith, ==_iff a 0, ==_iff b 0, ==_iff c 1, ==_iff c 0, ==_iff d 1)

-- What the test at the front of some bytes finds.
front-IsCode : (bytes : List ℕ) (n : ℕ) → front bytes ≡ Front.start_code n → IsCode bytes 0 n
unfolding front
front-IsCode [] n e = absurd (ground arith)
front-IsCode (a ∷ []) n e = absurd (ground arith)
front-IsCode (a ∷ b ∷ []) n e = absurd (ground arith)
front-IsCode (a ∷ b ∷ c ∷ []) n e = absurd (ground arith)
front-IsCode (a ∷ b ∷ c ∷ d ∷ rest) n e = elim (front_tests a b c d rest n e) [
  | inl (short, first, second, third) ↦ inl (short, rw (first, second, third) refl)
  | inr (long, first, second, third, fourth) ↦ inr (long, rw (first, second, third, fourth) refl)
]

abbrev fst_or : Option (ℕ × ℕ) → ℕ
fst_or none = 0
fst_or (some (a, b)) = a

abbrev snd_or : Option (ℕ × ℕ) → ℕ
snd_or none = 0
snd_or (some (a, b)) = b

abbrev Found : List ℕ → ℕ → ℕ → ℕ → Type 0
Found bytes pos found n = IsCode bytes found n × (pos ≤ found) × (found + 4 < length bytes)

-- One round, with what the later ones give.
find_code-round :
    (fuel pos : ℕ) (bytes : List ℕ) (found n : ℕ) (f : Front)
    → front (drop pos bytes) ≡ f
    → leb (length (drop pos bytes)) 4 ≡ false
    → found_or f pos (find_code fuel (pos + step_width f) (drop (step_width f) (drop pos bytes)))
      ≡ some (found, n)
    → ((p : ℕ) → find_code fuel p (drop p bytes) ≡ some (found, n) → Found bytes p found n)
    → Found bytes pos found n
unfolding step_width found_or
find_code-round fuel pos bytes found n (Front.start_code m) here enough e later =
    let same_pos : pos ≡ found = ap fst_or e in
    let same_size : m ≡ n = ap snd_or e in
    (
      front-IsCode (drop found bytes) n
          (ap (λ p. front (drop p bytes)) (sym same_pos) ∙ (here ∙ ap Front.start_code same_size)),
      omega (arith, same_pos),
      ground (arith, same_pos, length-drop pos bytes),
    )
find_code-round fuel pos bytes found n (Front.skip m) here enough e later =
    let (code, after, room) =
      later (pos + m) (ap (find_code fuel (pos + m)) (sym (drop-drop pos m bytes)) ∙ e) in
    (code, omega (arith, after), room)

-- What find_code gives, from a position on.
find_code-IsCode :
    (fuel pos : ℕ) (bytes : List ℕ) (found n : ℕ)
    → find_code fuel pos (drop pos bytes) ≡ some (found, n)
    → Found bytes pos found n
unfolding find_code
find_code-IsCode zero pos bytes found n e = absurd (ground arith)
find_code-IsCode (suc fuel) pos bytes found n e =
    elim (Bool-cases (leb (length (drop pos bytes)) 4)) [
      | inl short ↦ absurd (none≢some (sym (if_true _ _ _ short) ∙ e))
      | inr enough ↦
          find_code-round fuel pos bytes found n (front (drop pos bytes)) refl enough
            (sym (if_false _ _ _ enough) ∙ e) (λ p e'. find_code-IsCode fuel p bytes found n e')
    ]
  where
    none≢some : ◌≢◌ {A = Option (ℕ × ℕ)} none (some (found, n))
    none≢some p = ground (arith, p)

abbrev unit_of_result : Option (List ℕ × ℕ) → List ℕ
unit_of_result none = []
unit_of_result (some (unit, end_pos)) = unit

abbrev end_of : Option (List ℕ × ℕ) → ℕ
end_of none = 0
end_of (some (unit, end_pos)) = end_pos

-- The parts of get_frame's result.
get_frame-parts :
    (bytes frame : List ℕ) (end_pos : ℕ)
    → get_frame bytes ≡ some (frame, end_pos)
    → (pos n m : ℕ) × (find_code (length bytes) 0 bytes ≡ some (pos, n))
      × (find_code (length bytes) (pos + n) (drop (pos + n) bytes) ≡ some (end_pos, m))
      × (frame ≡ window bytes (pos + n) (end_pos - (pos + n)))
unfolding get_frame unit_from
get_frame-parts bytes frame end_pos e =
    let ((pos, n), first, rest) =
      bind_some (find_code (length bytes) 0 bytes) _ (frame, end_pos) e in
    let ((end', m), second, last) =
      bind_some (find_code (length bytes) (pos + n) (drop (pos + n) bytes)) _ (frame, end_pos)
        rest in
    let same_end : end' ≡ end_pos = ap end_of last in
    (
      pos,
      n,
      m,
      first,
      second ∙ ap (λ q. some (q, m)) same_end,
      sym (ap unit_of_result last) ∙ ap (λ q. window bytes (pos + n) (q - (pos + n))) same_end,
    )

-- A unit that get_frame gives is what stands between two start codes of the block, and the end
-- that it gives is where the second one begins.
pub get_frame-IsCode :
    (bytes frame : List ℕ) (end_pos : ℕ)
    → get_frame bytes ≡ some (frame, end_pos)
    → (pos n m : ℕ) × IsCode bytes pos n
      × IsCode bytes end_pos m
      × (pos + n ≤ end_pos)
      × (frame ≡ window bytes (pos + n) (end_pos - (pos + n)))
get_frame-IsCode bytes frame end_pos e =
    let (pos, n, m, first, second, unit) = get_frame-parts bytes frame end_pos e in
    let (code, after, room) = find_code-IsCode (length bytes) 0 bytes pos n first in
    let (code', after', room') = find_code-IsCode (length bytes) (pos + n) bytes end_pos m second in
    (pos, n, m, code, code', after', unit)
