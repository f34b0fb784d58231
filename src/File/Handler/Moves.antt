-- ===== src/File/Handler/Moves.antt =====
-- How far readFile moves the position of a reader, whatever its cache holds.
use rtsp_server.Base.{
  ℕ, ◌+◌, ◌≡◌, ◌≢◌, refl, sym, ap, subst, ◌∙◌, not, ◌||◌, Bool, true, false, List, Option, none,
  some, ltb, leb, Bool-cases, if_true, if_false, inl, inr, arith, sub32, read_block,
}
use rtsp_server.File.Handler.{
  Handler, is_read, int_limit, handler, fill_cache, restart, seek_to_pos, enlarge, refill, copy_out,
  copy_from, continue_with, read_file,
}

abbrev flag : Bool × Handler → Bool
flag (ok, h) = ok

-- Where a reader stands.
abbrev pub place : Handler → ℕ
place h = h.cache_start_pos + h.read_start_pos

false≢true : false ≢ true
false≢true e = ground (arith, e)

restart-fields : (h : Handler) → ((restart h).mode ≡ h.mode) × ((restart h).read_start_pos ≡ 0)
unfolding restart
restart-fields h = elim (Bool-cases h.opened) [
  | inl yes' ↦ (
    ap (λ (k : Handler). k.mode) (if_true _ _ _ yes'),
    ap (λ (k : Handler). k.read_start_pos) (if_true _ _ _ yes'),
  )
  | inr no' ↦ (
    ap (λ (k : Handler). k.mode) (if_false _ _ _ no'),
    ap (λ (k : Handler). k.read_start_pos) (if_false _ _ _ no'),
  )
]

-- What a fill of the cache that succeeds is to keep.
record IsAt (h : Handler) (pos : ℕ) (h' : Handler) : Type 0 where
  at_pos : place h' ≡ pos
  same_mode : h'.mode ≡ h.mode

fill_cache-IsAt :
    (h : Handler) (pos : ℕ)
    → h.read_start_pos ≡ 0
    → flag (fill_cache pos h) ≡ true
    → IsAt h pos (handler (fill_cache pos h))
unfolding fill_cache handler
fill_cache-IsAt h pos start ok =
    let leak = sub32 h.file_size pos in
    elim (Bool-cases (leb leak 0 || leb int_limit leak)) [
      | inl empty ↦ absurd (false≢true (sym (ap flag (if_true _ _ _ empty)) ∙ ok))
      | inr filled ↦
          subst (λ r. IsAt h pos (handler r)) (sym (if_false _ _ _ filled))
            (record { at_pos = omega (arith, start); same_mode = refl })
    ]

seek_to_pos-IsAt :
    (h : Handler) (pos : ℕ)
    → flag (seek_to_pos pos h) ≡ true
    → IsAt h pos (handler (seek_to_pos pos h))
unfolding seek_to_pos handler
seek_to_pos-IsAt h pos ok =
    let (mode, start) = restart-fields h in
    elim (Bool-cases (not h.opened || ltb (restart h).file_size pos)) [
      | inl refused ↦ absurd (false≢true (sym (ap flag (if_true _ _ _ refused)) ∙ ok))
      | inr passed ↦
          let filled =
            fill_cache-IsAt (restart h) pos start (sym (ap flag (if_false _ _ _ passed)) ∙ ok) in
          subst (λ r. IsAt h pos (handler r)) (sym (if_false _ _ _ passed))
            (record { at_pos = filled.at_pos; same_mode = filled.same_mode ∙ mode })
    ]

enlarge-IsAt :
    (h : Handler) (n : ℕ) → flag (enlarge n h) ≡ true → IsAt h (place h) (handler (enlarge n h))
unfolding enlarge handler
enlarge-IsAt h n ok = elim (Bool-cases (ltb h.read_cache_size n)) [
  | inl small ↦
      let sized = record h { read_cache_size = n } in
      let moved = seek_to_pos-IsAt sized (place h) (sym (ap flag (if_true _ _ _ small)) ∙ ok) in
      subst (λ r. IsAt h (place h) (handler r)) (sym (if_true _ _ _ small))
        (record { at_pos = moved.at_pos; same_mode = moved.same_mode })
  | inr large ↦
      subst (λ r. IsAt h (place h) (handler r)) (sym (if_false _ _ _ large))
        (record { at_pos = refl; same_mode = refl })
]

refill-IsAt :
    (h : Handler) (n : ℕ) → flag (refill n h) ≡ true → IsAt h (place h) (handler (refill n h))
unfolding refill handler
refill-IsAt h n ok = elim (Bool-cases (ltb h.read_cache_size (h.read_start_pos + n))) [
  | inl short ↦
      let moved = seek_to_pos-IsAt h (place h) (sym (ap flag (if_true _ _ _ short)) ∙ ok) in
      subst (λ r. IsAt h (place h) (handler r)) (sym (if_true _ _ _ short)) moved
  | inr enough ↦
      subst (λ r. IsAt h (place h) (handler r)) (sym (if_false _ _ _ enough))
        (record { at_pos = refl; same_mode = refl })
]

-- What a read is to give: whatever it is, the reader has moved by `n` if it is bytes.
unfoldable pub HasMoved : Handler → ℕ → Option (Option (List ℕ) × Handler) → Type 0
HasMoved h n none = Unit
HasMoved h n (some (none, h')) = Unit
HasMoved h n (some (some bytes, h')) = (place h' ≡ place h + n) × (h'.mode ≡ h.mode)

copy_from-HasMoved :
    (data' : Option (List ℕ)) (h : Handler) (n : ℕ) → HasMoved h n (copy_from data' n h)
unfolding copy_from HasMoved
copy_from-HasMoved none h n = tt
copy_from-HasMoved (some buf) h n = elim (Bool-cases (leb h.read_cache_size 0)) [
  | inl empty ↦ subst (HasMoved h n) (sym (if_true _ _ _ empty)) tt
  | inr some_bytes ↦
      subst (HasMoved h n) (sym (if_false _ _ _ some_bytes))
        (copied (read_block buf h.read_start_pos n))
]
  where
    copied :
        (o : Option (List ℕ))
        → HasMoved h n (elim o [
          | none ↦ none
          | some bytes ↦ some (some bytes, record h { read_start_pos = h.read_start_pos + n })
        ])
    copied none = tt
    copied (some bytes) = (omega arith, refl)

HasMoved-from :
    (h h' : Handler) (n : ℕ) (r : Option (Option (List ℕ) × Handler))
    → place h' ≡ place h
    → h'.mode ≡ h.mode
    → HasMoved h' n r
    → HasMoved h n r
unfolding HasMoved
HasMoved-from h h' n none same mode moved = tt
HasMoved-from h h' n (some (none, k)) same mode moved = tt
HasMoved-from h h' n (some (some bytes, k)) same mode (moved, kept) =
    (omega (arith, same, moved), kept ∙ mode)

continue_with-HasMoved :
    (h : Handler) (n : ℕ) (r : Bool × Handler) (next : Handler → Option (Option (List ℕ) × Handler))
    → (flag r ≡ true → HasMoved h n (next (handler r)))
    → HasMoved h n (continue_with r next)
unfolding continue_with HasMoved handler
continue_with-HasMoved h n (false, k) next rest = tt
continue_with-HasMoved h n (true, k) next rest = rest refl

-- A read that gives bytes moves the position behind them, from any state of the handler.
pub read_file-HasMoved : (h : Handler) (n : ℕ) → HasMoved h n (read_file n h)
unfolding read_file copy_out HasMoved
read_file-HasMoved h n = elim (Bool-cases (not (is_read h.mode))) [
  | inl writes ↦ subst (HasMoved h n) (sym (if_true _ _ _ writes)) tt
  | inr reads ↦ subst (HasMoved h n) (sym (if_false _ _ _ reads)) (
      continue_with-HasMoved h n (enlarge n h) (λ k. continue_with (refill n k) (copy_out n))
        (λ ok.
          let h₁ = handler (enlarge n h) in
          let at₁ = enlarge-IsAt h n ok in
          continue_with-HasMoved h n (refill n h₁) (copy_out n) (λ ok'.
            let h₂ = handler (refill n h₁) in
            let at₂ = refill-IsAt h₁ n ok' in
            HasMoved-from h h₂ n _ (at₂.at_pos ∙ at₁.at_pos) (at₂.same_mode ∙ at₁.same_mode)
              (copy_from-HasMoved h₂.cache_data h₂ n))))
]
