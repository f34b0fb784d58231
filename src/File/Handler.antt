-- ===== src/File/Handler.antt =====
-- class fileHander (fileHander.h and fileHander.cpp): a file read through a cache of its bytes, or
-- written in place. The outcome `none` is a copy from outside the cache. The locks only serialise
-- the calls and are left out, and so are failures of the disk: a file that is open is read and
-- written whole. Sizes and offsets that the callers pass are plain numbers; the `int` variables
-- of the code wrap.
pub mod Caching
pub mod Reading
pub mod Ends
pub mod Seeking
pub mod Moves
pub mod Ahead
pub mod Writing
use rtsp_server.Base.{
  ℕ, ◌+◌, ◌-◌, ◌*◌, min, max, Bool, true, false, not, ◌||◌, ◌&&◌, List, [], ◌++◌, Option, none,
  some, ltb, leb, if◌then◌else◌, length, take, drop, replicate, read_block, window, wrap32, sub32,
}

-- fileOpenMode
pub data OpenMode : Type 0 where
  open_read open_read_binary open_write open_write_binary : OpenMode

-- open_read and open_read_binary, against the others.
unfoldable pub is_read : OpenMode → Bool
is_read OpenMode.open_read = true
is_read OpenMode.open_read_binary = true
is_read OpenMode.open_write = false
is_read OpenMode.open_write_binary = false

-- SEEK_SET, SEEK_CUR and SEEK_END
pub data Origin : Type 0 where
  seek_set seek_cur seek_end : Origin

-- The members of fileHander, `content` for the bytes of the file, `opened` for `m_fp` not null,
-- and `configured` for the cache size of the configuration.
pub record Handler : Type 0 where
  pub mode : OpenMode
  pub opened : Bool
  pub content : List ℕ
  pub configured : ℕ
  pub file_size : ℕ
  pub cur_file : ℕ
  pub cache_start_pos : ℕ
  pub read_start_pos : ℕ
  pub read_cache_size : ℕ
  pub cache_data : Option (List ℕ)

-- MIN_FILE_CACHE_SIZE
abbrev pub min_file_cache_size : ℕ
min_file_cache_size = 1024 * 1024

-- The sign bit of an `int`.
abbrev pub int_limit : ℕ
int_limit = 0x8000_0000

-- seekToPos from where both positions are 0, for a position that the file has.
unfoldable pub fill_cache : ℕ → Handler → Bool × Handler
fill_cache pos h =
    let leak = sub32 h.file_size pos in
    let size = min (max h.read_cache_size h.configured) leak in
    if (leb leak 0) || (leb int_limit leak)
    then (false, record h { cur_file = pos; cache_data = none; read_cache_size = 0 })
    else (
      true,
      record h {
        cur_file = pos;
        read_cache_size = size;
        cache_start_pos = pos;
        cache_data = some (window h.content pos size);
      },
    )

-- What seekToPos does first: the positions, and the size of the file.
unfoldable pub restart : Handler → Handler
restart h =
    let h' = record h { read_start_pos = 0; cache_start_pos = 0 } in
    if h.opened then record h' { file_size = length h.content } else h'

-- seekToPos; the Boolean is a return of 0.
unfoldable pub seek_to_pos : ℕ → Handler → Bool × Handler
unfolding restart
seek_to_pos pos h =
    let h' = restart h in
    if not h.opened || ltb h'.file_size pos then (false, h') else fill_cache pos h'

-- The members before anything is read.
unfoldable pub no_cache : OpenMode → Bool → List ℕ → ℕ → Handler
no_cache mode opened content configured = record {
  mode = mode;
  opened = opened;
  content = content;
  configured = configured;
  file_size = 0;
  cur_file = 0;
  cache_start_pos = 0;
  read_start_pos = 0;
  read_cache_size = max configured min_file_cache_size;
  cache_data = none;
}

unfoldable pub handler : Bool × Handler → Handler
handler (ok, h) = h

-- The constructor on a file that is there, or that `fopen` fails to open.
unfoldable pub create : OpenMode → Bool → List ℕ → ℕ → Handler
create mode opened content configured =
    let fresh = no_cache mode opened content configured in
    if is_read mode then handler (seek_to_pos 0 fresh) else fresh

-- openSuccessed: a writer claims to be open in any case.
unfoldable pub open_successed : Handler → Bool
open_successed h = if is_read h.mode then h.opened else true

-- The two places where readFile fills the cache anew: a size above the cache's, and too few bytes
-- left in it. The Boolean is false where it gives up.
unfoldable pub enlarge : ℕ → Handler → Bool × Handler
enlarge size h =
    if ltb h.read_cache_size size
    then seek_to_pos (h.cache_start_pos + h.read_start_pos) (record h { read_cache_size = size })
    else (true, h)

unfoldable pub refill : ℕ → Handler → Bool × Handler
refill size h =
    if ltb h.read_cache_size (h.read_start_pos + size)
    then seek_to_pos (h.cache_start_pos + h.read_start_pos) h
    else (true, h)

-- The memcpy in readFile, and the position after it. The result of a read is `none` for a return
-- of -1.
unfoldable pub copy_from : Option (List ℕ) → ℕ → Handler → Option (Option (List ℕ) × Handler)
copy_from none size h = some (none, h)
copy_from (some buf) size h =
    if leb h.read_cache_size 0
    then some (none, h)
    else elim (read_block buf h.read_start_pos size) [
      | none ↦ none
      | some bytes ↦ some (some bytes, record h { read_start_pos = h.read_start_pos + size })
    ]

unfoldable pub copy_out : ℕ → Handler → Option (Option (List ℕ) × Handler)
copy_out size h = copy_from h.cache_data size h

-- The break out of readFile with -1, or the rest of it.
unfoldable pub continue_with :
    Bool × Handler
    → (Handler → Option (Option (List ℕ) × Handler))
    → Option (Option (List ℕ) × Handler)
continue_with (false, h) next = some (none, h)
continue_with (true, h) next = next h

-- readFile
unfoldable pub read_file : ℕ → Handler → Option (Option (List ℕ) × Handler)
read_file size h =
    if not (is_read h.mode)
    then some (none, h)
    else continue_with (enlarge size h) λ h'. continue_with (refill size h') (copy_out size)

-- The file after a write of `src` at a position; a gap before it is filled with zeros.
unfoldable pub overwrite : List ℕ → ℕ → List ℕ → List ℕ
overwrite content pos src =
    take pos content
    ++ (replicate (pos - length content) 0 ++ (src ++ drop (pos + length src) content))

-- writeFile; the Boolean is false for a return of -1.
unfoldable pub write_file : List ℕ → Handler → Bool × Handler
write_file src h = if is_read h.mode || not h.opened then (false, h) else (
  true,
  record h { content = overwrite h.content h.cur_file src; cur_file = h.cur_file + length src },
)

-- curFile
unfoldable pub current_file : Handler → ℕ
current_file h = if is_read h.mode then h.cache_start_pos + h.read_start_pos else h.cur_file

-- newPos of seek, an `int` as a word.
unfoldable pub new_pos : ℕ → Origin → Handler → ℕ
new_pos offset Origin.seek_cur h = wrap32 (offset + h.cache_start_pos)
new_pos offset Origin.seek_set h = wrap32 offset
new_pos offset Origin.seek_end h = sub32 h.file_size (wrap32 offset)

-- Whether a position is outside the cache, both sides read as an `int`; a negative position is
-- before it.
unfoldable pub is_outside : ℕ → Handler → Bool
is_outside pos h =
    let range = wrap32 (h.cache_start_pos + h.read_cache_size) in
    leb int_limit pos || ltb pos h.cache_start_pos || leb int_limit range || ltb range pos

-- seek of a reader, to newPos. A negative position makes the seek of the system fail.
unfoldable pub seek_reader : ℕ → Handler → Bool × Handler
seek_reader pos h =
    if is_outside pos h
    then (if leb int_limit pos then (false, restart h) else seek_to_pos pos h)
    else (true, record h { read_start_pos = pos - h.cache_start_pos })

-- seek; the Boolean is a return of 0.
unfoldable pub seek : ℕ → Origin → Handler → Bool × Handler
seek offset origin h =
    if not (is_read h.mode)
    then (true, record h { cur_file = offset })
    else seek_reader (new_pos offset origin h) h

-- fileSize, which opens the file by its name: bytes that a writer's stream still holds are not seen.
unfoldable pub size_of_file : ℕ → Handler → Option ℕ
size_of_file unwritten h = if h.opened then some (length h.content - unwritten) else none
