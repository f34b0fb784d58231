-- ===== src/Tcp/Cacher/Append.antt =====
-- `appendBuffer` and `getBuffer` as operations on the queue of the bytes held.
use rtsp_server.Base.{
  ℕ, ◌+◌, ◌≤◌, ◌<◌, ◌≡◌, refl, sym, ap, ◌∙◌, ◌⊎◌, inl, inr, List, [], ◌++◌, Option, some, arith,
  ltb, leb, ltb→lt, lt→ltb, le→leb, lt→leb, Bool-cases, length, take, drop, length-append,
  length-take, length-drop, realloc, length-malloc, length-realloc, read_block_le, write_block_le,
  length-window, window-realloc, window-front, window-append, add32,
}
use rtsp_server.Tcp.Cacher.{
  Cacher, Ret, done, refused, contents, size_limit, create, grow, compact, copy_in, append_buffer,
}

-- The bytes held lie in the block, and the block is below the limit.
pub record IsValid (c : Cacher) : Type 0 where
  pub block : length c.data_buf ≡ c.max_buf_size
  pub fits : c.cur + c.data_size ≤ c.max_buf_size
  pub small : c.max_buf_size ≤ size_limit

pub create-IsValid : (junk : ℕ → ℕ) (n : ℕ) → n ≤ size_limit → IsValid (create junk n)
unfolding create
create-IsValid junk n h = record { block = length-malloc junk n; fits = omega arith; small = h }

pub contents-create : (junk : ℕ → ℕ) (n : ℕ) → contents (create junk n) ≡ []
unfolding create
contents-create junk n = refl

pub length-contents : {c : Cacher} → IsValid c → length (contents c) ≡ c.data_size
length-contents {c} v = length-window c.data_buf c.cur c.data_size (omega (arith, v.block, v.fits))

-- The cacher after a step that keeps the bytes held.
record Keeps (c c' : Cacher) : Type 0 where
  valid : IsValid c'
  same : contents c' ≡ contents c
  size : c'.data_size ≡ c.data_size

grow-Keeps :
    (junk : ℕ → ℕ) {c : Cacher} (n : ℕ)
    → IsValid c
    → c.max_buf_size < n
    → n < size_limit
    → (c' : Cacher) × (grow junk c n ≡ some c') × Keeps c c' × (c'.max_buf_size ≡ n)
unfolding grow
grow-Keeps junk {c} n v h q = (
  record c { max_buf_size = n; data_buf = realloc junk c.data_buf n },
  rw (lt→leb size_limit n q),
  record {
    valid = record {
      block = length-realloc junk c.data_buf n;
      fits = omega (arith, v.fits);
      small = omega arith;
    };
    same =
        window-realloc junk c.data_buf n c.cur c.data_size (omega (arith, v.block))
          (omega (arith, v.block, v.fits));
    size = refl;
  },
  refl,
)

compact-Keeps :
    {c : Cacher}
    → IsValid c
    → (c' : Cacher) × (compact c ≡ some c')
      × Keeps c c'
      × (c'.cur ≡ 0)
      × (c'.max_buf_size ≡ c.max_buf_size)
unfolding compact
compact-Keeps {c} v = elim (Bool-cases (ltb 0 c.cur)) [
  | inl moves ↦ (
    record c { data_buf = contents c ++ drop (0 + length (contents c)) c.data_buf; cur = 0 },
    rw (
      moves,
      read_block_le c.data_buf c.cur c.data_size inside,
      write_block_le c.data_buf 0 (contents c) (omega (arith, held)),
    ),
    record {
      valid = record {
        block = omega (
          arith,
          length-append (contents c) (drop (0 + length (contents c)) c.data_buf),
          length-drop (0 + length (contents c)) c.data_buf,
          held,
        );
        fits = omega arith;
        small = v.small;
      };
      same = window-front (contents c) _ c.data_size (sym held);
      size = refl;
    },
    refl,
    refl,
  )
  | inr stays ↦ (
    c,
    rw stays,
    record { valid = v; same = refl; size = refl },
    ground (arith, lt→ltb 0 c.cur),
    refl,
  )
]
  where
    inside : c.cur + c.data_size ≤ length c.data_buf
    inside = omega (arith, v.block, v.fits)

    held : length (contents c) ≡ c.data_size
    held = length-contents v

copy_in-Keeps :
    {c : Cacher} (xs : List ℕ)
    → IsValid c
    → c.cur + c.data_size + length xs ≤ c.max_buf_size
    → (c' : Cacher) × (copy_in xs c ≡ some (done, c'))
      × IsValid c'
      × (contents c' ≡ contents c ++ xs)
unfolding copy_in
copy_in-Keeps {c} xs v h = (
  record c {
    data_buf =
        take (c.cur + c.data_size) c.data_buf
        ++ (xs ++ drop (c.cur + c.data_size + length xs) c.data_buf);
    data_size = c.data_size + length xs;
  },
  rw (offset, write_block_le c.data_buf (c.cur + c.data_size) xs inside, size),
  record {
    block = omega (
      arith,
      length-append (take (c.cur + c.data_size) c.data_buf)
          (xs ++ drop (c.cur + c.data_size + length xs) c.data_buf),
      length-append xs (drop (c.cur + c.data_size + length xs) c.data_buf),
      length-take (c.cur + c.data_size) c.data_buf,
      length-drop (c.cur + c.data_size + length xs) c.data_buf,
      v.block,
    );
    fits = omega arith;
    small = v.small;
  },
  window-append c.data_buf xs _ c.cur c.data_size (length xs) (omega (arith, v.block, v.fits)) refl,
)
  where
    inside : c.cur + c.data_size + length xs ≤ length c.data_buf
    inside = omega (arith, v.block)

    offset : add32 c.cur c.data_size ≡ c.cur + c.data_size
    offset = omega (arith, v.fits, v.small)

    size : add32 c.data_size (length xs) ≡ c.data_size + length xs
    size = omega (arith, v.fits, v.small)

-- The bytes fit into the block, or into one below the limit.
abbrev pub Fits : Cacher → List ℕ → Type 0
Fits c xs = (c.data_size + length xs ≤ c.max_buf_size) ⊎ (c.data_size + length xs < size_limit)

pub create-Fits : (junk : ℕ → ℕ) (n : ℕ) (xs : List ℕ) → length xs ≤ n → Fits (create junk n) xs
unfolding create
create-Fits junk n xs h = inl (omega arith)

-- `appendBuffer` returned 0, and the bytes stand behind those held before.
abbrev pub Appends : Cacher → List ℕ → Option (Ret × Cacher) → Type 0
Appends c xs r =
    (c' : Cacher) × (r ≡ some (done, c')) × IsValid c' × (contents c' ≡ contents c ++ xs)

then_copy :
    {c c' : Cacher} (xs : List ℕ)
    → Keeps c c'
    → c'.cur + c.data_size + length xs ≤ c'.max_buf_size
    → Appends c xs (copy_in xs c')
then_copy xs k h =
    let (d, e, v, s) = copy_in-Keeps xs k.valid (omega (arith, k.size)) in
    (d, e, v, s ∙ ap (λ l. l ++ xs) k.same)

Keeps-trans : {a b c : Cacher} → Keeps a b → Keeps b c → Keeps a c
Keeps-trans k l = record { valid = l.valid; same = l.same ∙ k.same; size = l.size ∙ k.size }

-- The sums of `appendBuffer` do not wrap.
sums :
    {c : Cacher} (n : ℕ)
    → IsValid c
    → n < 0x8000_0000
    → (add32 (add32 c.cur c.data_size) n ≡ c.cur + c.data_size + n)
      × (add32 c.data_size n ≡ c.data_size + n)
sums n v h = (omega (arith, v.fits, v.small), omega (arith, v.fits, v.small))

pub append_buffer-Appends :
    (junk : ℕ → ℕ) {c : Cacher} (xs : List ℕ)
    → IsValid c
    → length xs < 0x8000_0000
    → Fits c xs
    → Appends c xs (append_buffer junk c xs)
unfolding append_buffer
append_buffer-Appends junk {c} xs v short fit =
    rw ((sums (length xs) v short).0, (sums (length xs) v short).1)
      (elim (Bool-cases (leb c.max_buf_size (c.cur + c.data_size + length xs))) [
        | inl full ↦ elim (Bool-cases (ltb c.max_buf_size (c.data_size + length xs))) [
          | inl big ↦
              let limit : c.data_size + length xs < size_limit = omega (arith, ltb→lt _ _ big) in
              let (c₁, g, k, m) =
                grow-Keeps junk (c.data_size + length xs) v (ltb→lt _ _ big) limit in
              let (c₂, d, l, z, n) = compact-Keeps k.valid in
              rw (full, big, g, d) (then_copy xs (Keeps-trans k l) (omega (arith, z, n, m)))
          | inr room ↦
              let (c₂, d, l, z, n) = compact-Keeps v in
              rw (full, room, d) (then_copy xs l (ground (arith, z, n)))
        ]
        | inr free ↦
            rw free
              (then_copy {c = c} xs (record { valid = v; same = refl; size = refl }) (ground arith))
      ])

past :
    (c : Cacher) (xs : List ℕ)
    → ¬ Fits c xs
    → (c.max_buf_size < c.data_size + length xs) × (size_limit ≤ c.data_size + length xs)
past c xs over = ground arith

append_buffer_full :
    (junk : ℕ → ℕ) {c : Cacher} (xs : List ℕ)
    → IsValid c
    → length xs < 0x8000_0000
    → ¬ Fits c xs
    → append_buffer junk c xs ≡ some (refused, c)
unfolding append_buffer grow
append_buffer_full junk {c} xs v short over =
    rw ((sums (length xs) v short).0, (sums (length xs) v short).1)
      (rw (
        le→leb c.max_buf_size (c.cur + c.data_size + length xs) (omega (arith, past c xs over)),
        lt→ltb c.max_buf_size (c.data_size + length xs) (past c xs over).0,
        le→leb size_limit (c.data_size + length xs) (past c xs over).1,
      ))

Fits-or_not : (c : Cacher) (xs : List ℕ) → Fits c xs ⊎ ¬ Fits c xs
Fits-or_not c xs = grind arith

-- Of bytes fewer than 2^31, `appendBuffer` puts behind the queue what fits into the block or, with
-- the bytes held, into one below the limit; it returns -1 and changes nothing otherwise. It
-- accesses no byte outside the block, and keeps the invariant.
pub append_buffer_cases :
    (junk : ℕ → ℕ) {c : Cacher} (xs : List ℕ)
    → IsValid c
    → length xs < 0x8000_0000
    → (Fits c xs × Appends c xs (append_buffer junk c xs))
      ⊎ ((¬ Fits c xs) × (append_buffer junk c xs ≡ some (refused, c)))
append_buffer_cases junk {c} xs v short = elim (Fits-or_not c xs) [
  | inl fits ↦ inl (fits, append_buffer-Appends junk xs v short fits)
  | inr full ↦ inr (full, append_buffer_full junk xs v short full)
]
