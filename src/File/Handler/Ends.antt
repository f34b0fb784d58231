-- ===== src/File/Handler/Ends.antt =====
-- The ends of a file: reads at them, and the constructor of fileHander.
use rtsp_server.Base.{
  ℕ, ◌+◌, ◌≤◌, ◌<◌, ◌≡◌, refl, ap, ◌∙◌, not, ◌||◌, true, false, List, none, some, ltb, leb, lt→ltb,
  le→ltb, Bool-cases, length, take, if_true, if_false, window, sub32, arith, inl, inr,
}
use rtsp_server.File.Handler.{
  Handler, OpenMode, is_read, int_limit, create, no_cache, handler, fill_cache, restart,
  seek_to_pos, enlarge, refill, copy_out, continue_with, read_file, current_file, copy_out, restart,
}
use rtsp_server.File.Handler.Caching.{
  IsReadable, IsCached, SameFile, restarted, restart_lem, filled, seek_to_pos_eq, filled-IsFilled,
}
use rtsp_server.File.Handler.Reading.{
  enlarge_small, read_file_rest, sized, current_file_lem, IsRead,
}

-- Nothing is cached, and the position is the beginning.
pub record IsRewound (h : Handler) : Type 0 where
  pub readable : IsReadable h
  pub no_size : h.read_cache_size ≡ 0
  pub no_data : h.cache_data ≡ none
  pub at_start : h.cache_start_pos ≡ 0
  pub in_cache : h.read_start_pos ≡ 0

pub read_file_rewound :
    (h : Handler) (n : ℕ)
    → IsRewound h
    → 0 < n
    → n ≤ length h.content
    → (h' : Handler) × (read_file n h ≡ some (some (take n h.content), h')) × IsRead h n h'
read_file_rewound h n rewound positive fits =
    let at = current_file_lem h rewound.readable in
    let zero_pos : current_file h ≡ 0 = omega (arith, at, rewound.at_start, rewound.in_cache) in
    let (h₁, e₁, r₁) =
      enlarge_small h n n rewound.readable (omega (arith, rewound.at_start, rewound.in_cache))
        (omega arith) positive (lt→ltb _ _ (omega (arith, rewound.no_size))) in
    let (h', e, is_read) = read_file_rest h h₁ n rewound.readable (omega (arith, zero_pos)) e₁ r₁ in
    (h', e ∙ ap (λ p. some (some (window h.content p n), h')) zero_pos, is_read)

-- The handler after the cache could not be filled because nothing is left.
abbrev ended : Handler → Handler
ended h = record (restarted h) {
  cur_file = length h.content;
  cache_data = none;
  read_cache_size = 0;
}

ended-IsRewound :
    (h : Handler) (pos : ℕ) → IsReadable h → IsRewound (record (ended h) { cur_file = pos })
ended-IsRewound h pos readable = record {
  readable = record { reads = readable.reads; is_open = readable.is_open; below = readable.below };
  no_size = refl;
  no_data = refl;
  at_start = refl;
  in_cache = refl;
}

seek_to_pos_end :
    (h : Handler) (pos : ℕ)
    → IsReadable h
    → pos ≡ length h.content
    → seek_to_pos pos h ≡ (false, record (ended h) { cur_file = pos })
unfolding seek_to_pos fill_cache
seek_to_pos_end h pos readable at_end =
    let restarts = restart_lem h readable.is_open in
    let size = length h.content in
    let passes : (not h.opened || ltb (restart h).file_size pos) ≡ false =
      rw (restarts, readable.is_open) (le→ltb size pos (omega arith)) in
    let empty : sub32 size pos ≡ 0 = omega (arith, readable.below) in
    if_false _ _ _ passes
    ∙ (ap (fill_cache pos) restarts
        ∙ if_true (leb (sub32 size pos) 0 || leb int_limit (sub32 size pos)) _ _ (rw empty refl))

read_file_refused :
    (h h₁ : Handler) (n : ℕ)
    → IsReadable h
    → enlarge n h ≡ (false, h₁)
    → read_file n h ≡ some (none, h₁)
unfolding read_file continue_with
read_file_refused h h₁ n readable e =
    if_false _ _ _ (ap not readable.reads)
    ∙ ap (λ r. continue_with r (λ h'. continue_with (refill n h') (copy_out n))) e

read_file_refused' :
    (h h₁ h₂ : Handler) (n : ℕ)
    → IsReadable h
    → enlarge n h ≡ (true, h₁)
    → refill n h₁ ≡ (false, h₂)
    → read_file n h ≡ some (none, h₂)
unfolding read_file continue_with
read_file_refused' h h₁ h₂ n readable e₁ e₂ =
    if_false _ _ _ (ap not readable.reads)
    ∙ (ap (λ r. continue_with r (λ h'. continue_with (refill n h') (copy_out n))) e₁
        ∙ ap (λ r. continue_with r (copy_out n)) e₂)

-- Where the cache is within the file and the position at its end, a read of some bytes fails, and
-- the handler is back at the beginning with nothing cached.
pub read_file_end :
    (h : Handler) (n : ℕ)
    → IsCached h
    → current_file h ≡ length h.content
    → 0 < n
    → (h' : Handler) × (read_file n h ≡ some (none, h')) × IsRewound h' × SameFile h h'
unfolding enlarge refill
read_file_end h n cached at_end positive =
    let at = current_file_lem h cached.readable in
    let pos = h.cache_start_pos + h.read_start_pos in
    let same : SameFile h h = record {
      same_content = refl;
      same_mode = refl;
      same_configured = refl;
    } in
    let readable = cached.readable in
    elim (Bool-cases (ltb h.read_cache_size n)) [
      | inl small ↦
          let big : IsReadable (sized h n) = record {
            reads = readable.reads;
            is_open = readable.is_open;
            below = readable.below;
          } in
          let fails = seek_to_pos_end (sized h n) pos big (omega (arith, at)) in
          (
            record (ended (sized h n)) { cur_file = pos },
            read_file_refused h _ n readable (if_true _ _ _ small ∙ fails),
            ended-IsRewound (sized h n) pos big,
            record { same_content = refl; same_mode = refl; same_configured = refl },
          )
      | inr large ↦
          let fails = seek_to_pos_end h pos readable (omega (arith, at)) in
          let short =
            lt→ltb h.read_cache_size (h.read_start_pos + n) (omega (arith, at, cached.within)) in
          (
            record (ended h) { cur_file = pos },
            read_file_refused' h h _ n readable (if_false _ _ _ large)
                (if_true _ _ _ short ∙ fails),
            ended-IsRewound h pos readable,
            record { same_content = refl; same_mode = refl; same_configured = refl },
          )
    ]

create_eq :
    (content : List ℕ) (configured : ℕ)
    → 0 < length content
    → length content < int_limit
    → create OpenMode.open_read_binary true content configured
      ≡ filled (no_cache OpenMode.open_read_binary true content configured) 0
unfolding create no_cache handler is_read
create_eq content configured some_bytes below = ap handler (
    seek_to_pos_eq (no_cache OpenMode.open_read_binary true content configured) 0
      (record { reads = refl; is_open = refl; below = below }) some_bytes)

-- The constructor on a file of some bytes below 2 GB, opened for reading, gives a handler whose
-- cache is within that file and whose position is its beginning.
pub create_lem :
    (content : List ℕ) (configured : ℕ)
    → 0 < length content
    → length content < int_limit
    → IsCached (create OpenMode.open_read_binary true content configured)
      × ((create OpenMode.open_read_binary true content configured).content ≡ content)
      × (current_file (create OpenMode.open_read_binary true content configured) ≡ 0)
unfolding no_cache is_read
create_lem content configured some_bytes below =
    let h = no_cache OpenMode.open_read_binary true content configured in
    let readable : IsReadable h = record { reads = refl; is_open = refl; below = below } in
    let is_filled = filled-IsFilled h 0 1 readable (omega arith) some_bytes (omega arith) in
    rw (create_eq content configured some_bytes below) (
      is_filled.cached,
      is_filled.same.same_content,
      omega (
        arith,
        current_file_lem (filled h 0) is_filled.cached.readable,
        is_filled.at_start,
        is_filled.at_pos,
      ),
    )
