-- ===== src/File/Handler/Reading.antt =====
-- What readFile gives: the cache in front of a file, refined to the file and a position in it.
use rtsp_server.Base.{
  ℕ, ◌+◌, ◌≤◌, ◌<◌, ◌≡◌, refl, sym, ap, ap₂, ◌∙◌, not, true, none, some, ltb, lt→ltb, Bool-cases,
  length, ltb→lt, if_true, if_false, window, arith, inl, inr,
}
use rtsp_server.File.Handler.{
  Handler, enlarge, refill, copy_out, continue_with, read_file, current_file,
}
use rtsp_server.File.Handler.Caching.{
  IsReadable, IsCached, SameFile, seek_to_pos_lem, copy_out_lem, copy_out_fault,
}

-- The two decisions of a read, for a position that has `n` bytes.
pub record IsReady (h : Handler) (n : ℕ) (h' : Handler) : Type 0 where
  pub ready : IsCached h'
  pub same_file : SameFile h h'
  pub same_place : h'.cache_start_pos + h'.read_start_pos ≡ h.cache_start_pos + h.read_start_pos
  pub wide : n ≤ h'.read_cache_size

pub refill_lem :
    (h : Handler) (n : ℕ)
    → IsCached h
    → h.cache_start_pos + h.read_start_pos + n ≤ length h.content
    → n ≤ h.read_cache_size
    → (h' : Handler) × (refill n h ≡ (true, h'))
      × IsReady h n h'
      × (h'.read_start_pos + n ≤ h'.read_cache_size)
unfolding refill
refill_lem h n cached fits wide = elim (Bool-cases (ltb h.read_cache_size (h.read_start_pos + n))) [
  | inl short ↦
      let pos = h.cache_start_pos + h.read_start_pos in
      let (h', e, is_filled) =
        seek_to_pos_lem h pos n cached.readable
          (omega (arith, ltb→lt h.read_cache_size (h.read_start_pos + n) short, cached.inside)) fits
          (omega (arith, wide)) in
      (
        h',
        if_true _ _ _ short ∙ e,
        record {
          ready = is_filled.cached;
          same_file = is_filled.same;
          same_place = omega (arith, is_filled.at_start, is_filled.at_pos);
          wide = is_filled.enough;
        },
        omega (arith, is_filled.at_start, is_filled.enough),
      )
  | inr enough ↦ (
    h,
    if_false _ _ _ enough,
    record {
      ready = cached;
      same_file = record { same_content = refl; same_mode = refl; same_configured = refl };
      same_place = refl;
      wide = wide;
    },
    ground arith,
  )
]

abbrev pub sized : Handler → ℕ → Handler
sized h n = record h { read_cache_size = n }

-- A size above the cache's, for which `m` bytes are there.
pub enlarge_small :
    (h : Handler) (n m : ℕ)
    → IsReadable h
    → h.cache_start_pos + h.read_start_pos + m ≤ length h.content
    → m ≤ n
    → 0 < m
    → ltb h.read_cache_size n ≡ true
    → (h' : Handler) × (enlarge n h ≡ (true, h')) × IsReady h m h'
unfolding enlarge
enlarge_small h n m readable fits part positive small =
    let pos = h.cache_start_pos + h.read_start_pos in
    let readable' : IsReadable (sized h n) = record {
      reads = readable.reads;
      is_open = readable.is_open;
      below = readable.below;
    } in
    let (h', e, is_filled) =
      seek_to_pos_lem (sized h n) pos m readable' positive fits (omega arith) in
    (
      h',
      if_true _ _ _ small ∙ e,
      record {
        ready = is_filled.cached;
        same_file = record {
          same_content = is_filled.same.same_content;
          same_mode = is_filled.same.same_mode;
          same_configured = is_filled.same.same_configured;
        };
        same_place = omega (arith, is_filled.at_start, is_filled.at_pos);
        wide = is_filled.enough;
      },
    )

enlarge_lem :
    (h : Handler) (n m : ℕ)
    → IsCached h
    → h.cache_start_pos + h.read_start_pos + m ≤ length h.content
    → m ≤ n
    → (0 < n → 0 < m)
    → (h' : Handler) × (enlarge n h ≡ (true, h')) × IsReady h m h'
unfolding enlarge
enlarge_lem h n m cached fits part some_bytes = elim (Bool-cases (ltb h.read_cache_size n)) [
  | inl small ↦
      enlarge_small h n m cached.readable fits part
        (some_bytes (omega (arith, ltb→lt h.read_cache_size n small))) small
  | inr large ↦ (
    h,
    if_false _ _ _ large,
    record {
      ready = cached;
      same_file = record { same_content = refl; same_mode = refl; same_configured = refl };
      same_place = refl;
      wide = ground arith;
    },
  )
]

-- The handler after `n` bytes are read.
pub record IsRead (h : Handler) (n : ℕ) (h' : Handler) : Type 0 where
  pub still_cached : IsCached h'
  pub still : SameFile h h'
  pub moved : current_file h' ≡ current_file h + n

pub current_file_lem :
    (h : Handler) → IsReadable h → current_file h ≡ h.cache_start_pos + h.read_start_pos
unfolding current_file
current_file_lem h readable = if_true _ _ _ readable.reads

abbrev pub placed : Handler → ℕ → Handler
placed h k = record h { read_start_pos = k }

pub placed-IsCached :
    (h : Handler) (k : ℕ) → IsCached h → k ≤ h.read_cache_size → IsCached (placed h k)
placed-IsCached h k cached held = record {
  readable = record {
    reads = cached.readable.reads;
    is_open = cached.readable.is_open;
    below = cached.readable.below;
  };
  size_known = cached.size_known;
  holds = cached.holds;
  within = cached.within;
  inside = held;
  filled = cached.filled;
}

-- The three steps of a read.
pub read_file_steps :
    (h h₁ h₂ : Handler) (n : ℕ)
    → IsReadable h
    → enlarge n h ≡ (true, h₁)
    → refill n h₁ ≡ (true, h₂)
    → read_file n h ≡ copy_out n h₂
unfolding read_file continue_with
read_file_steps h h₁ h₂ n readable e₁ e₂ =
    if_false _ _ _ (ap not readable.reads)
    ∙ (ap (λ r. continue_with r (λ h'. continue_with (refill n h') (copy_out n))) e₁
        ∙ ap (λ r. continue_with r (copy_out n)) e₂)

-- The rest of a read once the cache is large enough.
pub read_file_rest :
    (h h₁ : Handler) (n : ℕ)
    → IsReadable h
    → current_file h + n ≤ length h.content
    → enlarge n h ≡ (true, h₁)
    → IsReady h n h₁
    → (h' : Handler) × (read_file n h ≡ some (some (window h.content (current_file h) n), h'))
      × IsRead h n h'
read_file_rest h h₁ n readable fits e₁ r₁ =
    let at = current_file_lem h readable in
    let same = r₁.same_file.same_content in
    let (h₂, e₂, r₂, held) =
      refill_lem h₁ n r₁.ready (omega (arith, at, r₁.same_place, ap length same)) r₁.wide in
    let same' = r₂.same_file.same_content ∙ same in
    let place = r₂.same_place ∙ (r₁.same_place ∙ sym at) in
    let still_cached = placed-IsCached h₂ (h₂.read_start_pos + n) r₂.ready held in
    let at' = current_file_lem (placed h₂ (h₂.read_start_pos + n)) still_cached.readable in
    (
      placed h₂ (h₂.read_start_pos + n),
      read_file_steps h h₁ h₂ n readable e₁ e₂
          ∙ (copy_out_lem h₂ n r₂.ready held
              ∙ ap₂ (λ c p. some (some (window c p n), placed h₂ (h₂.read_start_pos + n))) same'
                  place),
      record {
        still_cached = still_cached;
        still = record {
          same_content = same';
          same_mode = r₂.same_file.same_mode ∙ r₁.same_file.same_mode;
          same_configured = r₂.same_file.same_configured ∙ r₁.same_file.same_configured;
        };
        moved = omega (arith, at', place);
      },
    )

-- Where the cache is within the file, reading `n` bytes that the file has from the position on
-- gives these bytes and moves the position behind them; the file is as before, and the cache is
-- again within it.
pub read_file_lem :
    (h : Handler) (n : ℕ)
    → IsCached h
    → current_file h + n ≤ length h.content
    → (h' : Handler) × (read_file n h ≡ some (some (window h.content (current_file h) n), h'))
      × IsRead h n h'
read_file_lem h n cached fits =
    let at = current_file_lem h cached.readable in
    let (h₁, e₁, r₁) = enlarge_lem h n n cached (omega (arith, at)) (omega arith) (λ p. p) in
    read_file_rest h h₁ n cached.readable fits e₁ r₁

-- Where the cache is within the file, a read that begins before the end of the file and wants
-- more bytes than are left copies from outside the cache.
pub read_file_short :
    (h : Handler) (n : ℕ)
    → IsCached h
    → current_file h < length h.content
    → length h.content < current_file h + n
    → read_file n h ≡ none
unfolding refill
read_file_short h n cached before over =
    let at = current_file_lem h cached.readable in
    let (h₁, e₁, r₁) =
      enlarge_lem h n 1 cached (omega (arith, at)) (omega arith) (λ p. omega arith) in
    let same = ap length r₁.same_file.same_content in
    let pos = h₁.cache_start_pos + h₁.read_start_pos in
    let short : ltb h₁.read_cache_size (h₁.read_start_pos + n) ≡ true =
      lt→ltb _ _ (omega (arith, at, same, r₁.same_place, r₁.ready.within)) in
    let (h₂, e₂, is_filled) =
      seek_to_pos_lem h₁ pos 1 r₁.ready.readable (omega arith)
        (omega (arith, at, same, r₁.same_place)) (omega (arith, r₁.wide)) in
    let refilled : refill n h₁ ≡ (true, h₂) = if_true _ _ _ short ∙ e₂ in
    read_file_steps h h₁ h₂ n cached.readable e₁ refilled
    ∙ copy_out_fault h₂ n is_filled.cached (
        omega (
          arith,
          at,
          same,
          r₁.same_place,
          is_filled.cached.within,
          is_filled.at_start,
          is_filled.at_pos,
          ap length is_filled.same.same_content,
        ))
