-- ===== src/File/Handler/Ahead.antt =====
-- A handler from its position on: the bytes that are still to be read.
use rtsp_server.Base.{
  ℕ, ◌+◌, ◌-◌, ◌≤◌, ◌<◌, ◌≡◌, sym, ap, ◌∙◌, List, ◌++◌, some, length, take, drop, length-append,
  length-drop, take-append_at, drop-append_at, drop-drop, window, arith, true,
}
use rtsp_server.File.Handler.{Handler, OpenMode, create, read_file, current_file, int_limit}
use rtsp_server.File.Handler.Caching.{IsCached}
use rtsp_server.File.Handler.Reading.{read_file_lem, current_file_lem}
use rtsp_server.File.Handler.Ends.{create_lem}

-- The cache is within the file, and these bytes are left of it.
pub record IsAhead (h : Handler) (bytes : List ℕ) : Type 0 where
  pub cached : IsCached h
  pub left : drop (current_file h) h.content ≡ bytes

-- Where bytes are ahead, a read of as many gives them, and leaves those behind them ahead and the
-- position past them.
pub read_file-IsAhead :
    (h : Handler) (n : ℕ) (bytes rest : List ℕ)
    → IsAhead h (bytes ++ rest)
    → n ≡ length bytes
    → (h' : Handler) × (read_file n h ≡ some (some bytes, h'))
      × IsAhead h' rest
      × (current_file h' ≡ current_file h + n)
read_file-IsAhead h n bytes rest ahead size =
    let pos = current_file h in
    let at = current_file_lem h ahead.cached.readable in
    let room : length h.content - pos ≡ length bytes + length rest =
      sym (length-drop pos h.content) ∙ (ap length ahead.left ∙ length-append bytes rest) in
    let fits : pos + n ≤ length h.content =
      omega (arith, room, size, at, ahead.cached.within, ahead.cached.inside) in
    let (h', e, is_read) = read_file_lem h n ahead.cached fits in
    let read : window h.content pos n ≡ bytes =
      ap (take n) ahead.left ∙ take-append_at n bytes rest size in
    (
      h',
      e ∙ ap (λ b. some (some b, h')) read,
      record {
        cached = is_read.still_cached;
        left =
            ap (λ p. drop p h'.content) is_read.moved
            ∙ (ap (drop (pos + n)) is_read.still.same_content
                ∙ (sym (drop-drop pos n h.content)
                    ∙ (ap (drop n) ahead.left ∙ drop-append_at n bytes rest size)));
      },
      is_read.moved,
    )

-- A file that is opened has all of its bytes ahead.
pub create-IsAhead :
    (content : List ℕ) (configured : ℕ)
    → 0 < length content
    → length content < int_limit
    → IsAhead (create OpenMode.open_read_binary true content configured) content
create-IsAhead content configured some_bytes below =
    let (cached, same, at_start) = create_lem content configured some_bytes below in
    record {
      cached = cached;
      left =
          ap (λ p. drop p (create OpenMode.open_read_binary true content configured).content)
            at_start
          ∙ same;
    }
