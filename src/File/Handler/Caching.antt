-- ===== src/File/Handler/Caching.antt =====
-- The cache of fileHander: what it is to hold, and how it is filled and copied from.
use rtsp_server.Base.{
  ℕ, ◌+◌, ◌-◌, ◌≤◌, ◌<◌, min, max, ◌≡◌, refl, sym, ap, ◌∙◌, not, ◌||◌, true, false, List, none,
  some, ltb, le→ltb, length, length-window, lt→leb, if_false, read_block_le, read_block_gt, window,
  sub32, drop-window, take-window, arith,
}
use rtsp_server.File.Handler.{
  Handler, is_read, int_limit, fill_cache, restart, seek_to_pos, copy_out, copy_from,
}

-- A file that is open for reading and below 2 GB.
pub record IsReadable (h : Handler) : Type 0 where
  pub reads : is_read h.mode ≡ true
  pub is_open : h.opened ≡ true
  pub below : length h.content < int_limit

-- The cache holds bytes of the file, and the position is within it or just behind.
pub record IsCached (h : Handler) : Type 0 where
  pub readable : IsReadable h
  pub size_known : h.file_size ≡ length h.content
  pub holds : h.cache_data ≡ some (window h.content h.cache_start_pos h.read_cache_size)
  pub within : h.cache_start_pos + h.read_cache_size ≤ length h.content
  pub inside : h.read_start_pos ≤ h.read_cache_size
  pub filled : 0 < h.read_cache_size

-- What a read leaves alone.
pub record SameFile (h h' : Handler) : Type 0 where
  pub same_content : h'.content ≡ h.content
  pub same_mode : h'.mode ≡ h.mode
  pub same_configured : h'.configured ≡ h.configured

-- The cache filled at `pos`, for a read of `n` bytes.
pub record IsFilled (h : Handler) (pos n : ℕ) (h' : Handler) : Type 0 where
  pub cached : IsCached h'
  pub same : SameFile h h'
  pub at_start : h'.read_start_pos ≡ 0
  pub at_pos : h'.cache_start_pos ≡ pos
  pub enough : n ≤ h'.read_cache_size

-- The handler with `size` bytes from `pos` in its cache.
abbrev pub cached_at : Handler → ℕ → ℕ → Handler
cached_at h pos size = record h {
  cur_file = pos;
  read_cache_size = size;
  cache_start_pos = pos;
  cache_data = some (window h.content pos size);
}

pub leak_lem : (size pos : ℕ) → size < int_limit → pos ≤ size → sub32 size pos ≡ size - pos
leak_lem size pos below fits = omega arith

pub fill_cache_lem :
    (h : Handler) (pos leak : ℕ)
    → sub32 h.file_size pos ≡ leak
    → 0 < leak
    → leak < int_limit
    → fill_cache pos h ≡ (true, cached_at h pos (min (max h.read_cache_size h.configured) leak))
unfolding fill_cache
fill_cache_lem h pos leak e positive below = rw e (ground arith)

abbrev pub restarted : Handler → Handler
restarted h = record h { read_start_pos = 0; cache_start_pos = 0; file_size = length h.content }

pub restart_lem : (h : Handler) → h.opened ≡ true → restart h ≡ restarted h
unfolding restart
restart_lem h is_open = rw is_open refl

-- The handler after the cache is filled at `pos`.
abbrev pub filled : Handler → ℕ → Handler
filled h pos =
    cached_at (restarted h) pos (min (max h.read_cache_size h.configured) (length h.content - pos))

pub seek_to_pos_eq :
    (h : Handler) (pos : ℕ)
    → IsReadable h
    → pos < length h.content
    → seek_to_pos pos h ≡ (true, filled h pos)
unfolding seek_to_pos
seek_to_pos_eq h pos readable fits =
    let size = length h.content in
    let leak = leak_lem size pos readable.below (omega arith) in
    let restarts = restart_lem h readable.is_open in
    let passes : (not h.opened || ltb (restart h).file_size pos) ≡ false =
      rw (restarts, readable.is_open) (le→ltb size pos (omega arith)) in
    if_false _ _ _ passes
    ∙ (ap (fill_cache pos) restarts
        ∙ fill_cache_lem (restarted h) pos (size - pos) leak (omega arith)
            (omega (arith, readable.below)))

pub filled-IsFilled :
    (h : Handler) (pos n : ℕ)
    → IsReadable h
    → 0 < n
    → pos + n ≤ length h.content
    → n ≤ max h.read_cache_size h.configured
    → IsFilled h pos n (filled h pos)
filled-IsFilled h pos n readable positive fits enough = record {
  cached = record {
    readable = record {
      reads = readable.reads;
      is_open = readable.is_open;
      below = readable.below;
    };
    size_known = refl;
    holds = refl;
    within = omega arith;
    inside = omega arith;
    filled = omega arith;
  };
  same = record { same_content = refl; same_mode = refl; same_configured = refl };
  at_start = refl;
  at_pos = refl;
  enough = omega arith;
}

pub seek_to_pos_lem :
    (h : Handler) (pos n : ℕ)
    → IsReadable h
    → 0 < n
    → pos + n ≤ length h.content
    → n ≤ max h.read_cache_size h.configured
    → (h' : Handler) × (seek_to_pos pos h ≡ (true, h')) × IsFilled h pos n h'
seek_to_pos_lem h pos n readable positive fits enough = (
  filled h pos,
  seek_to_pos_eq h pos readable (omega arith),
  filled-IsFilled h pos n readable positive fits enough,
)

pub window-window :
    (buf : List ℕ) (off size k n : ℕ)
    → k + n ≤ size
    → window (window buf off size) k n ≡ window buf (off + k) n
window-window buf off size k n fits =
    rw (← drop-window buf off size k (omega arith))
      (sym (take-window buf (off + k) (size - k) n (omega arith)))

-- A copy from bytes that are enough, and from bytes that are not.
pub copy_out_held :
    (h : Handler) (held : List ℕ) (n : ℕ)
    → h.cache_data ≡ some held
    → 0 < h.read_cache_size
    → h.read_start_pos + n ≤ length held
    → copy_out n h
      ≡ some (
        some (window held h.read_start_pos n),
        record h { read_start_pos = h.read_start_pos + n },
      )
unfolding copy_out copy_from
copy_out_held h held n holds filled fits =
    ap (λ d. copy_from d n h) holds
    ∙ (if_false _ _ _ (lt→leb h.read_cache_size 0 filled)
        ∙ rw (read_block_le held h.read_start_pos n fits) refl)

pub copy_out_lem :
    (h : Handler) (n : ℕ)
    → IsCached h
    → h.read_start_pos + n ≤ h.read_cache_size
    → copy_out n h
      ≡ some (
        some (window h.content (h.cache_start_pos + h.read_start_pos) n),
        record h { read_start_pos = h.read_start_pos + n },
      )
copy_out_lem h n cached fits =
    let held = window h.content h.cache_start_pos h.read_cache_size in
    let size = length-window h.content h.cache_start_pos h.read_cache_size cached.within in
    copy_out_held h held n cached.holds cached.filled (omega (arith, size))
    ∙ rw (window-window h.content h.cache_start_pos h.read_cache_size h.read_start_pos n fits) refl

pub copy_out_fault :
    (h : Handler) (n : ℕ)
    → IsCached h
    → h.read_cache_size < h.read_start_pos + n
    → copy_out n h ≡ none
unfolding copy_out copy_from
copy_out_fault h n cached over =
    let held = window h.content h.cache_start_pos h.read_cache_size in
    let size = length-window h.content h.cache_start_pos h.read_cache_size cached.within in
    ap (λ d. copy_from d n h) cached.holds
    ∙ (if_false _ _ _ (lt→leb h.read_cache_size 0 cached.filled)
        ∙ rw (read_block_gt held h.read_start_pos n (omega (arith, size))) refl)
