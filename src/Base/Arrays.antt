-- ===== src/Base/Arrays.antt =====
-- Blocks of memory as lists: malloc, realloc, memcpy and memmove with their bounds.
use Prim.Native.Nat.{ℕ, zero, suc, ◌+◌, ◌-◌, ◌≤◌, ◌<◌}
use mathlib.Core.Path.{◌≡◌, refl, sym, ap, ◌∙◌}
use mathlib.Core.List.{List, [], ◌∷◌, ◌++◌}
use mathlib.Core.Option.{Option, none, some}
use native.Mathlib.Omega.{arith}
use rtsp_server.Base.Tests.{if◌then◌else◌, leb, le→leb, lt→leb}
use rtsp_server.Base.Lists.{
  length, take, drop, length-append, length-take, length-drop, take-append_self, take-append_le,
  drop-append_le, drop-drop, take_of_length_le, drop-take, take-take, take-append_two,
}

-- Bytes `off` up to `off + n` of a block; `none` if these are not all within it.
unfoldable pub read_block : List ℕ → ℕ → ℕ → Option (List ℕ)
read_block buf off n = if leb (off + n) (length buf) then some (take n (drop off buf)) else none

-- The block after a copy of `src` to the bytes from `off` on.
unfoldable pub write_block : List ℕ → ℕ → List ℕ → Option (List ℕ)
write_block buf off src =
    if leb (off + length src) (length buf)
    then some (take off buf ++ (src ++ drop (off + length src) buf))
    else none

-- The bytes that an allocator leaves behind, `junk i` at index `i`.
pub junk_from : (ℕ → ℕ) → ℕ → ℕ → List ℕ
junk_from junk i zero = []
junk_from junk i (suc n) = junk i ∷ junk_from junk (i + 1) n

unfoldable pub malloc : (ℕ → ℕ) → ℕ → List ℕ
unfolding junk_from
malloc junk n = junk_from junk 0 n

-- `realloc` keeps the bytes that both sizes have.
pub realloc : (ℕ → ℕ) → List ℕ → ℕ → List ℕ
realloc junk buf n = take n buf ++ junk_from junk (length buf) (n - length buf)

pub length-junk_from : (junk : ℕ → ℕ) (i n : ℕ) → length (junk_from junk i n) ≡ n
unfolding junk_from
length-junk_from junk i zero = refl
length-junk_from junk i (suc n) = ap suc (length-junk_from junk (i + 1) n)

pub length-malloc : (junk : ℕ → ℕ) (n : ℕ) → length (malloc junk n) ≡ n
unfolding malloc
length-malloc junk n = length-junk_from junk 0 n

pub length-realloc : (junk : ℕ → ℕ) (buf : List ℕ) (n : ℕ) → length (realloc junk buf n) ≡ n
unfolding realloc
length-realloc junk buf n = omega (
  arith,
  length-append (take n buf) (junk_from junk (length buf) (n - length buf)),
  length-take n buf,
  length-junk_from junk (length buf) (n - length buf),
)

pub read_block_le :
    (buf : List ℕ) (off n : ℕ)
    → off + n ≤ length buf
    → read_block buf off n ≡ some (take n (drop off buf))
unfolding read_block
read_block_le buf off n h = ground (arith, le→leb (off + n) (length buf) h)

pub read_block_gt : (buf : List ℕ) (off n : ℕ) → length buf < off + n → read_block buf off n ≡ none
unfolding read_block
read_block_gt buf off n h = ground (arith, lt→leb (off + n) (length buf) h)

pub write_block_le :
    (buf : List ℕ) (off : ℕ) (src : List ℕ)
    → off + length src ≤ length buf
    → write_block buf off src ≡ some (take off buf ++ (src ++ drop (off + length src) buf))
unfolding write_block
write_block_le buf off src h = ground (arith, le→leb (off + length src) (length buf) h)

-- The `n` bytes of a block from `off` on.
abbrev pub window : List ℕ → ℕ → ℕ → List ℕ
window buf off n = take n (drop off buf)

pub length-window :
    (buf : List ℕ) (off n : ℕ) → off + n ≤ length buf → length (window buf off n) ≡ n
length-window buf off n h = omega (arith, length-take n (drop off buf), length-drop off buf)

-- A block that grows keeps what it held.
pub window-realloc :
    (junk : ℕ → ℕ) (buf : List ℕ) (n off k : ℕ)
    → length buf ≤ n
    → off + k ≤ length buf
    → window (realloc junk buf n) off k ≡ window buf off k
unfolding realloc
window-realloc junk buf n off k h q =
    rw
      (
        take_of_length_le n buf h,
        drop-append_le off buf (junk_from junk (length buf) (n - length buf)) (omega arith),
      )
      (take-append_le k (drop off buf) _ (omega (arith, length-drop off buf)))

-- A copy to the front of a block.
pub window-front : (src rest : List ℕ) (n : ℕ) → n ≡ length src → window (src ++ rest) 0 n ≡ src
window-front src rest n e = rw e (take-append_self src rest)

-- A copy just past a window extends it.
pub window-append :
    (buf src rest : List ℕ) (off n m : ℕ)
    → off + n ≤ length buf
    → m ≡ length src
    → window (take (off + n) buf ++ (src ++ rest)) off (n + m) ≡ window buf off n ++ src
window-append buf src rest off n m h e =
    rw
      (
        drop-append_le off (take (off + n) buf) (src ++ rest)
            (omega (arith, length-take (off + n) buf)),
        drop-take off n buf,
      )
      (take-append_two (n + m) (window buf off n) src rest (omega (arith, length-window buf off n)))

-- What is left of a window when its first bytes are dropped.
pub drop-window :
    (buf : List ℕ) (off n k : ℕ) → k ≤ n → window buf (off + k) (n - k) ≡ drop k (window buf off n)
drop-window buf off n k h = rw (← drop-drop off k buf) (
    sym (drop-take k (n - k) (drop off buf))
    ∙ ap (λ j. drop k (take j (drop off buf))) (omega arith))

pub take-window :
    (buf : List ℕ) (off n k : ℕ) → k ≤ n → window buf off k ≡ take k (window buf off n)
take-window buf off n k h = sym (take-take k n (drop off buf) h)
