-- ===== src/File/Handler/Seeking.antt =====
-- Seeking of a reader of fileHander.
use rtsp_server.Base.{
  ℕ, ◌+◌, ◌-◌, ◌≤◌, ◌<◌, ◌≡◌, refl, ap, ◌∙◌, not, ◌||◌, true, false, some, ltb, lt→ltb, le→ltb,
  Bool-cases, length, length-window, lt→leb, if_true, if_false, window, arith, inl, inr,
}
use rtsp_server.File.Handler.{
  Handler, int_limit, restart, seek_to_pos, enlarge, refill, read_file, current_file, new_pos,
  is_outside, seek, Origin, seek_reader, restart,
}
use rtsp_server.File.Handler.Caching.{
  IsReadable, IsCached, SameFile, restarted, restart_lem, seek_to_pos_lem, copy_out_held,
  window-window,
}
use rtsp_server.File.Handler.Reading.{placed, placed-IsCached, current_file_lem, read_file_steps}

-- A seek of a reader from the start of the file, to a position that an `int` holds.
seek_reads :
    (h : Handler) (pos : ℕ)
    → IsReadable h
    → pos < int_limit
    → seek pos Origin.seek_set h ≡ seek_reader pos h
unfolding seek new_pos
seek_reads h pos readable small =
    if_false _ _ _ (ap not readable.reads) ∙ ap (λ p. seek_reader p h) (omega arith)

seek_outside :
    (h : Handler) (pos : ℕ)
    → pos < int_limit
    → is_outside pos h ≡ true
    → seek_reader pos h ≡ seek_to_pos pos h
unfolding seek_reader
seek_outside h pos small outside =
    if_true _ _ _ outside ∙ if_false _ _ _ (lt→leb int_limit pos small)

is_outside-false :
    (h : Handler) (pos : ℕ)
    → is_outside pos h ≡ false
    → (h.cache_start_pos ≤ pos) × (pos ≤ h.cache_start_pos + h.read_cache_size)
unfolding is_outside
is_outside-false h pos within = (ground arith, ground arith)

is_outside-true :
    (h : Handler) (pos : ℕ)
    → h.cache_start_pos + h.read_cache_size < pos
    → pos < int_limit
    → is_outside pos h ≡ true
unfolding is_outside
is_outside-true h pos over small = ground arith

-- Where the cache is within the file, a seek to a position before the end succeeds, and the
-- handler is there, its cache within the same file.
pub seek_lem :
    (h : Handler) (pos : ℕ)
    → IsCached h
    → pos < length h.content
    → (h' : Handler) × (seek pos Origin.seek_set h ≡ (true, h'))
      × IsCached h'
      × SameFile h h'
      × (current_file h' ≡ pos)
unfolding seek_reader
seek_lem h pos cached before =
    let readable = cached.readable in
    let small : pos < int_limit = omega (arith, readable.below) in
    elim (Bool-cases (is_outside pos h)) [
      | inl outside ↦
          let (h', e, is_filled) =
            seek_to_pos_lem h pos 1 readable (omega arith) (omega arith)
              (omega (arith, cached.filled)) in
          (
            h',
            seek_reads h pos readable small ∙ (seek_outside h pos small outside ∙ e),
            is_filled.cached,
            is_filled.same,
            omega (
              arith,
              current_file_lem h' is_filled.cached.readable,
              is_filled.at_start,
              is_filled.at_pos,
            ),
          )
      | inr inside ↦
          let (from, to) = is_outside-false h pos inside in
          let h' = placed h (pos - h.cache_start_pos) in
          let cached' = placed-IsCached h (pos - h.cache_start_pos) cached (omega arith) in
          (
            h',
            seek_reads h pos readable small ∙ if_false _ _ _ inside,
            cached',
            record { same_content = refl; same_mode = refl; same_configured = refl },
            omega (arith, current_file_lem h' cached'.readable),
          )
    ]

enlarge_none : (h : Handler) (n : ℕ) → n ≤ h.read_cache_size → enlarge n h ≡ (true, h)
unfolding enlarge
enlarge_none h n fits = if_false _ _ _ (le→ltb h.read_cache_size n fits)

refill_none :
    (h : Handler) (n : ℕ) → h.read_start_pos + n ≤ h.read_cache_size → refill n h ≡ (true, h)
unfolding refill
refill_none h n fits = if_false _ _ _ (le→ltb h.read_cache_size (h.read_start_pos + n) fits)

-- Where the cache is within the file, a seek past the end fails and moves the position to 0, but
-- the bytes that the next read of at most the cache's size gives are those that the cache begins
-- with, wherever in the file they are.
pub seek_past_end :
    (h : Handler) (pos n : ℕ)
    → IsCached h
    → length h.content < pos
    → pos < int_limit
    → n ≤ h.read_cache_size
    → (h' h'' : Handler) × (seek pos Origin.seek_set h ≡ (false, h'))
      × (current_file h' ≡ 0)
      × (read_file n h' ≡ some (some (window h.content h.cache_start_pos n), h''))
unfolding seek_to_pos
seek_past_end h pos n cached over small fits =
    let readable = cached.readable in
    let held = window h.content h.cache_start_pos h.read_cache_size in
    let size = length-window h.content h.cache_start_pos h.read_cache_size cached.within in
    let h' = restarted h in
    let readable' : IsReadable h' = record {
      reads = readable.reads;
      is_open = readable.is_open;
      below = readable.below;
    } in
    let fits' : 0 + n ≤ h.read_cache_size = omega arith in
    let outside = is_outside-true h pos (omega (arith, cached.within)) small in
    let restarts = restart_lem h readable.is_open in
    let fails : (not h.opened || ltb (restart h).file_size pos) ≡ true =
      rw (restarts, readable.is_open) (lt→ltb (length h.content) pos over) in
    let kept = window-window h.content h.cache_start_pos h.read_cache_size 0 n fits' in
    (
      h',
      placed h' (0 + n),
      seek_reads h pos readable small
          ∙ (seek_outside h pos small outside
              ∙ (if_true _ _ _ fails ∙ ap (λ k. (false, k)) restarts)),
      current_file_lem h' readable',
      read_file_steps h' h' h' n readable' (enlarge_none h' n fits) (refill_none h' n fits')
          ∙ (copy_out_held h' held n cached.holds cached.filled (omega (arith, size))
              ∙ ap (λ w. some (some w, placed h' (0 + n)))
                  (kept ∙ ap (λ p. window h.content p n) (omega arith))),
    )
