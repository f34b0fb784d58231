-- ===== src/Base/Words.antt =====
-- Machine words as native numbers: arithmetic that wraps, written with `%`.
use rtsp_server.Base.Tests.{ltb, if◌then◌else◌}
use Prim.Native.Nat.{ℕ, zero, suc, ◌+◌, ◌-◌, ◌*◌, ◌/◌, ◌%◌, ◌^◌, ◌<◌}
use mathlib.Core.Path.{◌≡◌, refl, ap}
use mathlib.Core.List.{List, [], ◌∷◌}
use native.Mathlib.Nat.{pow-suc}
use native.Mathlib.Omega.{arith}
use rtsp_server.Base.Lists.{length}

abbrev pub word16 : ℕ
word16 = 0x1_0000

abbrev pub word32 : ℕ
word32 = 0x1_0000_0000

abbrev pub wrap16 : ℕ → ℕ
wrap16 x = x % word16

abbrev pub wrap32 : ℕ → ℕ
wrap32 x = x % word32

-- `unsigned int` a + b and a - b.
abbrev pub add32 : ℕ → ℕ → ℕ
add32 a b = (a + b) % word32

abbrev pub sub32 : ℕ → ℕ → ℕ
sub32 a b = (a + word32 - b) % word32

-- Four bytes in memory order as an `unsigned int`, on the little-endian hosts that the program
-- is built for, and the same with the first byte highest.
abbrev pub load32 : ℕ → ℕ → ℕ → ℕ → ℕ
load32 a b c d = a + b * 0x100 + c * 0x1_0000 + d * 0x100_0000

abbrev pub big32 : ℕ → ℕ → ℕ → ℕ → ℕ
big32 a b c d = load32 d c b a

-- Byte `i` of a word.
abbrev pub byte0 : ℕ → ℕ
byte0 x = x % 0x100

abbrev pub byte1 : ℕ → ℕ
byte1 x = x / 0x100 % 0x100

abbrev pub byte2 : ℕ → ℕ
byte2 x = x / 0x1_0000 % 0x100

abbrev pub byte3 : ℕ → ℕ
byte3 x = x / 0x100_0000 % 0x100

-- htonl and ntohl.
abbrev pub htonl : ℕ → ℕ
htonl x = load32 (byte3 x) (byte2 x) (byte1 x) (byte0 x)

-- A byte through a `char`, which is signed where the program is built, as a word.
abbrev pub sign_extend : ℕ → ℕ
sign_extend c = if ltb c 0x80 then c else c + 0xffff_ff00

-- htons and ntohs.
abbrev pub htons : ℕ → ℕ
htons x = byte0 x * 0x100 + byte1 x

-- A word of `n` bytes in memory, and its value again.
abbrev pub store : ℕ → ℕ → List ℕ
store zero x = []
store (suc n) x = x % 0x100 ∷ store n (x / 0x100)

abbrev pub load : List ℕ → ℕ
load [] = 0
load (b ∷ bs) = b + load bs * 0x100

pub load-store : (n x : ℕ) → x < 0x100 ^ n → load (store n x) ≡ x
load-store zero x below = omega arith
load-store (suc n) x below =
    omega (arith, load-store n (x / 0x100) (omega (arith, pow-suc 0x100 n)))

pub length-store : (n x : ℕ) → length (store n x) ≡ n
length-store zero x = refl
length-store (suc n) x = ap suc (length-store n (x / 0x100))
