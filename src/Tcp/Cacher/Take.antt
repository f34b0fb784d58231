-- ===== src/Tcp/Cacher/Take.antt =====
-- `getBuffer` on the queue of the bytes held.
use rtsp_server.Base.{
  ℕ, zero, suc, ◌+◌, ◌-◌, ◌≤◌, ◌<◌, ◌≡◌, refl, sym, ◌∙◌, ◌⊎◌, inl, inr, Bool, true, false, ◌||◌,
  List, [], Option, some, arith, ltb, leb, lt→ltb, le→ltb, lt→leb, if◌then◌else◌, Bool-cases,
  length, take, drop, read_block_le, drop-window, take-window, add32, sub32,
}
use rtsp_server.Tcp.Cacher.{Cacher, Ret, done, refused, contents, get_buffer}
use rtsp_server.Tcp.Cacher.Append.{IsValid, length-contents}

-- The cacher once `n` bytes are taken from its front.
abbrev pub advance : Cacher → ℕ → Cacher
advance c n = record c { cur = c.cur + n; data_size = c.data_size - n }

pub advance_lem :
    {c : Cacher} (n : ℕ)
    → IsValid c
    → n ≤ c.data_size
    → IsValid (advance c n) × (contents (advance c n) ≡ drop n (contents c))
advance_lem {c} n v h = (
  record { block = v.block; fits = omega (arith, v.fits); small = v.small },
  drop-window c.data_buf c.cur c.data_size n h,
)

-- The arithmetic of a removal does not wrap.
pub advance_words :
    {c : Cacher} (n : ℕ)
    → IsValid c
    → n ≤ c.data_size
    → (add32 c.cur n ≡ c.cur + n) × (sub32 c.data_size n ≡ c.data_size - n)
advance_words n v h = (omega (arith, v.fits, v.small), omega (arith, v.fits, v.small))

-- `getBuffer` returned 0 with the first `n` bytes, which it removed if it was told to.
abbrev pub Takes : Cacher → ℕ → Bool → Option (Ret × List ℕ × Cacher) → Type 0
Takes c n remove r =
    (c' : Cacher) × (r ≡ some (done, take n (contents c), c'))
    × IsValid c'
    × (contents c' ≡ (if remove then drop n (contents c) else contents c))

get_buffer-Takes :
    {c : Cacher} (n : ℕ) (remove : Bool)
    → IsValid c
    → 0 < n
    → n ≤ c.data_size
    → Takes c n remove (get_buffer c true n remove)
unfolding get_buffer
get_buffer-Takes {c} n true v pos le = (
  advance c n,
  rw (
    lt→leb n 0 pos,
    le→ltb c.data_size n le,
    read_block_le c.data_buf c.cur n (omega (arith, v.block, v.fits)),
    (advance_words n v le).0,
    (advance_words n v le).1,
    take-window c.data_buf c.cur c.data_size n le,
  ),
  (advance_lem n v le).0,
  (advance_lem n v le).1,
)
get_buffer-Takes {c} n false v pos le = (
  c,
  rw (
    lt→leb n 0 pos,
    le→ltb c.data_size n le,
    read_block_le c.data_buf c.cur n (omega (arith, v.block, v.fits)),
    take-window c.data_buf c.cur c.data_size n le,
  ),
  v,
  refl,
)

get_buffer_refused :
    (c : Cacher) (n : ℕ) (remove : Bool)
    → (n ≡ 0) ⊎ (c.data_size < n)
    → get_buffer c true n remove ≡ some (refused, [], c)
unfolding get_buffer
get_buffer_refused c n remove h = ground arith

-- `getBuffer` copies the first `n` bytes held and removes them if it is told to; it returns -1 and
-- changes nothing if `n` is 0 or more than the bytes held. It reads no byte outside the block, and
-- keeps the invariant.
pub get_buffer_cases :
    {c : Cacher} (n : ℕ) (remove : Bool)
    → IsValid c
    → ((0 < n) × (n ≤ c.data_size) × Takes c n remove (get_buffer c true n remove))
      ⊎ (((n ≡ 0) ⊎ (c.data_size < n)) × (get_buffer c true n remove ≡ some (refused, [], c)))
get_buffer_cases {c} n remove v = elim (in_range n c.data_size) [
  | inl (some_bytes, held) ↦ inl (some_bytes, held, get_buffer-Takes n remove v some_bytes held)
  | inr out ↦ inr (out, get_buffer_refused c n remove out)
]
  where
    in_range : (n k : ℕ) → ((0 < n) × (n ≤ k)) ⊎ ((n ≡ 0) ⊎ (k < n))
    in_range n k = grind arith

-- `k` bytes dropped from a queue, if it has as many.
abbrev pub discard : ℕ → List ℕ → List ℕ
discard k w = if ltb (length w) k then w else drop k w

discard_none : (n : ℕ) (w : List ℕ) → (n ≡ 0) ⊎ (length w < n) → discard n w ≡ w
discard_none zero w h = rw (le→ltb (length w) 0 (omega arith))
discard_none (suc n) w h = rw (lt→ltb (length w) (suc n) (omega arith))

discard_some : (n : ℕ) (w : List ℕ) → n ≤ length w → discard n w ≡ drop n w
discard_some n w h = rw (le→ltb (length w) n h)

-- The call by which `getValidBuffer` throws bytes away.
pub get_buffer_discards :
    {c : Cacher} (n : ℕ)
    → IsValid c
    → (ret : Ret) × (c' : Cacher) × (get_buffer c false n true ≡ some (ret, [], c'))
      × IsValid c'
      × (contents c' ≡ discard n (contents c))
unfolding get_buffer
get_buffer_discards {c} n v = elim (Bool-cases (leb n 0 || ltb c.data_size n)) [
  | inl kept ↦ (
    refused,
    c,
    rw kept,
    v,
    sym (discard_none n (contents c) (ground (arith, length-contents v))),
  )
  | inr gone ↦
      let le : n ≤ c.data_size = ground arith in
      (
        done,
        advance c n,
        rw (gone, (advance_words n v le).0, (advance_words n v le).1),
        (advance_lem n v le).0,
        (advance_lem n v le).1
            ∙ sym (discard_some n (contents c) (omega (arith, length-contents v))),
      )
]
