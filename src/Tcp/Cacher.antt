-- ===== src/Tcp/Cacher.antt =====
-- class tcpCacher (tcpCacher.h and tcpCacher.cpp): the bytes that a connection has sent and that
-- are not yet handed out, in a block that is compacted and reallocated when it is full.
-- `none` is an access outside the block. The mutex only serialises the calls, and is left out.
pub mod Append
pub mod Take
pub mod Drain
use rtsp_server.Base.{
  ℕ, zero, suc, ◌+◌, ◌-◌, Bool, true, false, not, ◌||◌, List, [], ◌∷◌, Option, none, some, ltb, leb,
  ◌==◌, if◌then◌else◌, ◌>>=◌, length, malloc, realloc, read_block, write_block, window, add32,
  sub32,
}

-- The members m_MaxBufSize, m_dataBuf, m_dataSize and m_cur.
pub record Cacher : Type 0 where
  pub max_buf_size : ℕ
  pub data_buf : List ℕ
  pub data_size : ℕ
  pub cur : ℕ

-- The return codes 0 and -1, and the manager's 404.
pub data Ret : Type 0 where
  done refused missing : Ret

-- The bytes held, oldest first.
abbrev pub contents : Cacher → List ℕ
contents c = window c.data_buf c.cur c.data_size

-- TCP_DEFAULT_CACHER_SIZE
abbrev pub default_cacher_size : ℕ
default_cacher_size = 4096

-- The size from which on a block is not reallocated.
abbrev pub size_limit : ℕ
size_limit = 0xfffff

-- The constructor. `junk` is what the allocator leaves in a new block.
pub create : (ℕ → ℕ) → ℕ → Cacher
create junk max_buf_size = record {
  max_buf_size = max_buf_size;
  data_buf = malloc junk max_buf_size;
  data_size = 0;
  cur = 0;
}

-- The reallocation in `appendBuffer`; `none` is its return of -1.
pub grow : (ℕ → ℕ) → Cacher → ℕ → Option Cacher
grow junk c now_size =
    if leb size_limit now_size
    then none
    else some (record c { max_buf_size = now_size; data_buf = realloc junk c.data_buf now_size })

-- The memmove in `appendBuffer`.
pub compact : Cacher → Option Cacher
compact c =
    if ltb 0 c.cur
    then (do
      held ← read_block c.data_buf c.cur c.data_size
      buf ← write_block c.data_buf 0 held
      some (record c { data_buf = buf; cur = 0 }))
    else some c

-- The memcpy at the end of `appendBuffer`.
unfoldable pub copy_in : List ℕ → Cacher → Option (Ret × Cacher)
copy_in data_in c = do
  buf ← write_block c.data_buf (add32 c.cur c.data_size) data_in
  some (done, record c { data_buf = buf; data_size = add32 c.data_size (length data_in) })

unfoldable pub append_buffer : (ℕ → ℕ) → Cacher → List ℕ → Option (Ret × Cacher)
append_buffer junk c data_in =
    let size = length data_in in
    let now_size = add32 c.data_size size in
    if leb c.max_buf_size (add32 (add32 c.cur c.data_size) size)
    then (if ltb c.max_buf_size now_size
        then elim (grow junk c now_size) [
          | none ↦ some (refused, c)
          | some c' ↦ compact c' >>= copy_in data_in
        ]
        else (compact c >>= copy_in data_in))
    else copy_in data_in c

-- `wanted` is false for a null `dataOut`; the bytes are what is copied there.
unfoldable pub get_buffer : Cacher → Bool → ℕ → Bool → Option (Ret × List ℕ × Cacher)
get_buffer c wanted size remove =
    if leb size 0 || ltb c.data_size size then some (refused, [], c) else (do
      bytes ← (if wanted then read_block c.data_buf c.cur size else some [])
      some (done, bytes, taken))
  where
    taken : Cacher
    taken =
        if remove
        then record c { cur = add32 c.cur size; data_size = sub32 c.data_size size }
        else c

-- What a `tcpBufAnalyzer` finds in the bytes that it is shown, through its reference parameters.
pub record Verdict : Type 0 where
  pub get_valid : Bool
  pub out_start : ℕ
  pub out_end : ℕ
  pub invalid_bytes : ℕ

abbrev pub verdict : Bool → ℕ → ℕ → ℕ → Verdict
verdict valid start end invalid = record {
  get_valid = valid;
  out_start = start;
  out_end = end;
  invalid_bytes = invalid;
}

-- `none` is a read outside the bytes shown.
abbrev pub Analyzer : Type 0
Analyzer = List ℕ → Option Verdict

-- One valid packet leaves the cacher: the copy of `getValidBuffer`, and the moves behind it.
hand_out : Cacher → Verdict → Option (List ℕ × Cacher)
hand_out c v = do
  packet ← read_block c.data_buf (add32 v.out_start c.cur) (add32 (sub32 v.out_end v.out_start) 1)
  some (
    packet,
    record c {
      cur = add32 c.cur (add32 v.out_end 1);
      data_size = sub32 c.data_size (add32 v.out_end 1);
    },
  )

-- The loop of `getValidBuffer` on fuel, which gives the list of packets; `none` is a fault, or
-- the end of the fuel.
valid_loop : ℕ → Analyzer → Cacher → Option (List (List ℕ) × Cacher)
valid_loop zero analyzer c = none
valid_loop (suc fuel) analyzer c =
    let rest = λ (c' : Cacher). valid_loop fuel analyzer c' in
    if leb c.data_size 0 then some ([], c) else (do
      shown ← read_block c.data_buf c.cur c.data_size
      v ← analyzer shown
      if not v.get_valid || ltb c.data_size v.out_end
          then (do (ret, bytes, c') ← get_buffer c false v.invalid_bytes true; some ([], c'))
          else (do
            (packet, c') ← hand_out c v
            (packets, c'') ← rest c'
            some (packet ∷ packets, c'')))

-- The fuel is one more than the bytes held.
pub get_valid_buffer : Analyzer → Cacher → Option (List (List ℕ) × Cacher)
get_valid_buffer analyzer c = valid_loop (c.data_size + 1) analyzer c
