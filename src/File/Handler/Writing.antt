-- ===== src/File/Handler/Writing.antt =====
-- What writeFile leaves in the file, and that the bytes around it stay.
use rtsp_server.Base.{
  ℕ, ◌+◌, ◌-◌, ◌≤◌, ◌≡◌, refl, sym, ap, ◌∙◌, true, false, not, ◌||◌, List, ◌++◌, if_true, if_false,
  length, take, drop, replicate, length-take, length-append, take-append_self, drop-append_self,
  take_of_length_le, window, append-nil, drop_of_length_le, take-append_at, drop-append_at,
  drop-drop, arith, ap₂,
}
use rtsp_server.File.Handler.{Handler, Origin, is_read, overwrite, write_file, seek, current_file}

-- A file that is open for writing, its position within it or at its end.
pub record IsWritable (h : Handler) : Type 0 where
  pub writes : is_read h.mode ≡ false
  pub is_open : h.opened ≡ true
  pub inside : h.cur_file ≤ length h.content

no_gap :
    (h : Handler) (rest : List ℕ)
    → IsWritable h
    → replicate (h.cur_file - length h.content) 0 ++ rest ≡ rest
no_gap h rest writable =
    ap (λ n. replicate n 0 ++ rest) (gap h.cur_file (length h.content) writable.inside)
  where
    gap : (a b : ℕ) → a ≤ b → a - b ≡ 0
    gap a b fits = omega arith

overwrite_lem :
    (h : Handler) (src : List ℕ)
    → IsWritable h
    → overwrite h.content h.cur_file src
      ≡ take h.cur_file h.content ++ (src ++ drop (h.cur_file + length src) h.content)
unfolding overwrite
overwrite_lem h src writable = ap (λ t. take h.cur_file h.content ++ t) (no_gap h _ writable)

write_eq :
    (h : Handler) (src : List ℕ)
    → IsWritable h
    → write_file src h ≡ (
      true,
      record h { content = overwrite h.content h.cur_file src; cur_file = h.cur_file + length src },
    )
unfolding write_file
write_eq h src writable =
    let passes : (is_read h.mode || not h.opened) ≡ false =
      rw (writable.writes, writable.is_open) refl in
    if_false _ _ _ passes

-- A seek of a writer goes to the offset, from wherever that is meant to count.
pub seek_writer :
    (h : Handler) (offset : ℕ) (origin : Origin)
    → is_read h.mode ≡ false
    → seek offset origin h ≡ (true, record h { cur_file = offset })
unfolding seek
seek_writer h offset origin writes = if_true _ _ _ (ap not writes)

pub current_writer : (h : Handler) → is_read h.mode ≡ false → current_file h ≡ h.cur_file
unfolding current_file
current_writer h writes = if_false _ _ _ writes

-- A file open for writing, its position within it: a write puts its bytes at the position, leaves
-- those before and behind them as they were, and moves the position behind them. The file stays
-- open, in its mode.
pub write_file_lem :
    (h : Handler) (src : List ℕ)
    → IsWritable h
    → (h' : Handler) × (write_file src h ≡ (true, h'))
      × (take h.cur_file h'.content ≡ take h.cur_file h.content)
      × (window h'.content h.cur_file (length src) ≡ src)
      × (drop (h.cur_file + length src) h'.content ≡ drop (h.cur_file + length src) h.content)
      × (h'.cur_file ≡ h.cur_file + length src)
      × (h'.mode ≡ h.mode)
      × (h'.opened ≡ true)
write_file_lem h src writable =
    let front = take h.cur_file h.content in
    let back = drop (h.cur_file + length src) h.content in
    let size : h.cur_file ≡ length front =
      omega (arith, length-take h.cur_file h.content, writable.inside) in
    let written = overwrite_lem h src writable in
    (
      _,
      write_eq h src writable,
      ap (take h.cur_file) written ∙ take-append_at h.cur_file front (src ++ back) size,
      ap (λ c. take (length src) (drop h.cur_file c)) written
          ∙ (ap (take (length src)) (drop-append_at h.cur_file front (src ++ back) size)
              ∙ take-append_self src back),
      ap (drop (h.cur_file + length src)) written
          ∙ (sym (drop-drop h.cur_file (length src) (front ++ (src ++ back)))
              ∙ (ap (drop (length src)) (drop-append_at h.cur_file front (src ++ back) size)
                  ∙ drop-append_self src back)),
      refl,
      refl,
      writable.is_open,
    )

-- At the end of the file a write appends, and the position is at the end again.
pub write_file_end :
    (h : Handler) (src : List ℕ)
    → IsWritable h
    → h.cur_file ≡ length h.content
    → (h' : Handler) × (write_file src h ≡ (true, h'))
      × (h'.content ≡ h.content ++ src)
      × IsWritable h'
      × (h'.cur_file ≡ length h'.content)
write_file_end h src writable at_end =
    let whole = take_of_length_le h.cur_file h.content (omega arith) in
    let nothing = drop_of_length_le (h.cur_file + length src) h.content (omega arith) in
    let written : overwrite h.content h.cur_file src ≡ h.content ++ src =
      overwrite_lem h src writable
      ∙ (ap₂ (λ a b. a ++ (src ++ b)) whole nothing ∙ ap (λ t. h.content ++ t) (append-nil src)) in
    let size = ap length written ∙ length-append h.content src in
    (
      _,
      write_eq h src writable,
      written,
      record { writes = writable.writes; is_open = writable.is_open; inside = omega (arith, size) },
      omega (arith, size),
    )
