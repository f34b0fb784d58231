-- ===== src/Tests/File.antt =====
-- The file handler at small files.
use rtsp_server.Base.{
  ℕ, ◌≤◌, ◌<◌, ◌≡◌, refl, sym, ap, true, List, [], ◌∷◌, none, some, length, take, drop, window,
  take_of_length_le, arith,
}
use rtsp_server.File.Handler.{
  Handler, OpenMode, Origin, int_limit, create, no_cache, handler, is_read, seek_to_pos, restart,
  fill_cache, read_file, overwrite, write_file, current_file, seek, seek_reader, new_pos,
  is_outside,
}
use rtsp_server.File.Handler.Caching.{IsCached, SameFile}
use rtsp_server.File.Handler.Reading.{IsRead, read_file_lem}
use rtsp_server.File.Handler.Seeking.{seek_lem}
use rtsp_server.File.Handler.Writing.{IsWritable, write_file_lem}

-- A reader at a position, the whole file in its cache.
abbrev pub reader : List ℕ → ℕ → Handler
reader content pos = record {
  mode = OpenMode.open_read_binary;
  opened = true;
  content = content;
  configured = 0;
  file_size = length content;
  cur_file = 0;
  cache_start_pos = 0;
  read_start_pos = pos;
  read_cache_size = length content;
  cache_data = some content;
}

pub reader-IsCached :
    (content : List ℕ) (pos : ℕ)
    → 0 < length content
    → length content < int_limit
    → pos ≤ length content
    → IsCached (reader content pos)
unfolding is_read
reader-IsCached content pos some_bytes below fits = record {
  readable = record { reads = refl; is_open = refl; below = below };
  size_known = refl;
  holds = ap some (sym (take_of_length_le (length content) content (omega arith)));
  within = omega arith;
  inside = fits;
  filled = some_bytes;
}

-- A writer at a position.
abbrev pub writer : List ℕ → ℕ → Handler
writer content pos = record {
  mode = OpenMode.open_write_binary;
  opened = true;
  content = content;
  configured = 0;
  file_size = 0;
  cur_file = pos;
  cache_start_pos = 0;
  read_start_pos = 0;
  read_cache_size = 0;
  cache_data = none;
}

pub writer-IsWritable :
    (content : List ℕ) (pos : ℕ) → pos ≤ length content → IsWritable (writer content pos)
unfolding is_read
writer-IsWritable content pos fits = record { writes = refl; is_open = refl; inside = fits }

abbrev sample : List ℕ
sample = 10 ∷ 11 ∷ 12 ∷ 13 ∷ []

sample-IsCached_1 : IsCached (reader sample 1)
sample-IsCached_1 = reader-IsCached sample 1 (omega arith) (omega arith) (omega arith)

read_file_lem_example :
    (h' : Handler) × (read_file 2 (reader sample 1)
      ≡ some (some (window sample (current_file (reader sample 1)) 2), h'))
    × IsRead (reader sample 1) 2 h'
unfolding current_file is_read
read_file_lem_example = read_file_lem (reader sample 1) 2 sample-IsCached_1 (omega arith)

seek_lem_example :
    (h' : Handler) × (seek 3 Origin.seek_set (reader sample 1) ≡ (true, h'))
    × IsCached h'
    × SameFile (reader sample 1) h'
    × (current_file h' ≡ 3)
seek_lem_example = seek_lem (reader sample 1) 3 sample-IsCached_1 (omega arith)

write_file_lem_example :
    (h' : Handler) × (write_file (1 ∷ 2 ∷ []) (writer sample 1) ≡ (true, h'))
    × (take 1 h'.content ≡ 10 ∷ [])
    × (window h'.content 1 2 ≡ 1 ∷ 2 ∷ [])
    × (drop 3 h'.content ≡ 13 ∷ [])
    × (h'.cur_file ≡ 3)
    × (h'.mode ≡ OpenMode.open_write_binary)
    × (h'.opened ≡ true)
write_file_lem_example =
    write_file_lem (writer sample 1) (1 ∷ 2 ∷ []) (writer-IsWritable sample 1 (omega arith))

-- A seek relative to the position counts from the start of the cache.
seek_cur_test : seek 1 Origin.seek_cur (reader sample 2) ≡ (true, reader sample 1)
unfolding seek seek_reader new_pos is_outside is_read
seek_cur_test = refl

-- A cache of the constructor holds a short file whole.
create_test : (create OpenMode.open_read_binary true sample 0).cache_data ≡ some sample
unfolding create no_cache handler is_read seek_to_pos restart fill_cache
create_test = refl

-- A write behind the end of the file leaves zeros before it.
gap_test : overwrite (5 ∷ []) 3 (7 ∷ []) ≡ 5 ∷ 0 ∷ 0 ∷ 7 ∷ []
unfolding overwrite
gap_test = refl
