-- ===== src/Rtsp/Text.antt =====
-- What the RTSP files call of the C library on texts: strstr, strrchr, strtok, stricmp, the
-- conversions of sscanf, and the decimals of sprintf. A text is the list of its bytes up to the
-- terminating zero, and a suffix of it stands for a pointer into it.
use rtsp_server.Base.{
  ℕ, zero, suc, ◌+◌, ◌-◌, ◌*◌, ◌/◌, ◌%◌, ◌^◌, min, Bool, true, false, ◌&&◌, ◌||◌, not, List, [],
  ◌∷◌, ◌++◌, Option, none, some, ◌>>=◌, ltb, leb, ◌==◌, if◌then◌else◌, length, drop, codes,
}

abbrev pub Bytes : Type 0
Bytes = List ℕ

-- The text that stands at the beginning of a block.
unfoldable pub c_string : Bytes → Bytes
c_string [] = []
c_string (c ∷ rest) = if c == 0 then [] else c ∷ c_string rest

-- strcmp(s, t) == 0
unfoldable pub str_eq : Bytes → Bytes → Bool
str_eq [] [] = true
str_eq [] (d ∷ t) = false
str_eq (c ∷ s) [] = false
str_eq (c ∷ s) (d ∷ t) = (c == d) && str_eq s t

-- strncmp(s, prefix, strlen(prefix)) == 0
unfoldable pub starts : Bytes → Bytes → Bool
starts [] s = true
starts (p ∷ prefix) [] = false
starts (p ∷ prefix) (c ∷ s) = (p == c) && starts prefix s

unfoldable pub strstr : Bytes → Bytes → Option Bytes
unfolding starts
strstr [] part = if starts part [] then some [] else none
strstr (c ∷ s) part = if starts part (c ∷ s) then some (c ∷ s) else strstr s part

-- strstr(s, part) != 0
unfoldable pub occurs : Bytes → Bytes → Bool
unfolding strstr
occurs s part = elim (strstr s part) [ none ↦ false | some found ↦ true ]

unfoldable pub contains : Bytes → ℕ → Bool
contains [] c = false
contains (d ∷ s) c = (c == d) || contains s c

-- strrchr, or a search from the end that stops at an index: the suffix from the last `c` on that
-- has at least `k` bytes before it.
unfoldable pub last_from : ℕ → ℕ → Bytes → Option Bytes
last_from k c [] = none
last_from k c (d ∷ s) = elim (last_from (k - 1) c s) [
  | some found ↦ some found
  | none ↦ if (d == c) && (k == 0) then some (d ∷ s) else none
]

-- isspace in the C locale
unfoldable pub is_space : ℕ → Bool
is_space c = (c == 32) || (leb 9 c && leb c 13)

unfoldable pub skip_space : Bytes → Bytes
unfolding is_space
skip_space [] = []
skip_space (c ∷ s) = if is_space c then skip_space s else c ∷ s

-- The longest front of at most `n` bytes that are wanted, and what follows.
unfoldable pub span : ℕ → (ℕ → Bool) → Bytes → Bytes × Bytes
span zero wanted s = ([], s)
span (suc n) wanted [] = ([], [])
span (suc n) wanted (c ∷ s) =
    let (front, rest) = span n wanted s in if wanted c then (c ∷ front, rest) else ([], c ∷ s)

unfoldable pub nonempty : Bytes × Bytes → Option (Bytes × Bytes)
nonempty ([], rest) = none
nonempty (c ∷ front, rest) = some (c ∷ front, rest)

-- %Ns
unfoldable pub scan_word : ℕ → Bytes → Option (Bytes × Bytes)
unfolding span nonempty skip_space is_space
scan_word n s = nonempty (span n (λ c. not (is_space c)) (skip_space s))

-- %s
unfoldable pub scan_any_word : Bytes → Option (Bytes × Bytes)
unfolding scan_word
scan_any_word s = scan_word (length s) s

-- %[^c]
unfoldable pub scan_until : ℕ → Bytes → Option (Bytes × Bytes)
unfolding span nonempty
scan_until c s = nonempty (span (length s) (λ d. not (d == c)) s)

-- A byte of the format that is no space.
unfoldable pub scan_byte : ℕ → Bytes → Option Bytes
scan_byte c [] = none
scan_byte c (d ∷ s) = if d == c then some s else none

-- A text in the format that has no space.
unfoldable pub scan_text : Bytes → Bytes → Option Bytes
unfolding starts
scan_text text s = if starts text s then some (drop (length text) s) else none

unfoldable pub is_digit : ℕ → Bool
is_digit c = leb b'0' c && leb c b'9'

unfoldable pub digits_value : ℕ → Bytes → ℕ
digits_value n [] = n
digits_value n (c ∷ s) = digits_value (n * 10 + (c - b'0')) s

-- Whether a minus stands in front, and what follows the sign.
unfoldable pub scan_sign : Bytes → Bool × Bytes
scan_sign [] = (false, [])
scan_sign (c ∷ s) =
    if c == b'-' then (true, s) else if c == b'+' then (false, s) else (false, c ∷ s)

-- strtol, as the bits of a word of 64 bits.
unfoldable pub signed_word : Bool → ℕ → ℕ
signed_word true n = (2 ^ 64 - min n (2 ^ 63)) % 2 ^ 64
signed_word false n = min n (2 ^ 63 - 1)

-- strtoul
unfoldable pub unsigned_word : Bool → ℕ → ℕ
unsigned_word minus n =
    if leb (2 ^ 64) n then 2 ^ 64 - 1 else if minus then (2 ^ 64 - n) % 2 ^ 64 else n

-- The number in front, by strtol or strtoul, cut to `width` bits, and what follows.
unfoldable pub scan_number : (Bool → ℕ → ℕ) → ℕ → Bytes → Option (ℕ × Bytes)
unfolding span nonempty skip_space is_space is_digit digits_value scan_sign
scan_number word width s = do
  let (minus, s') = scan_sign (skip_space s)
  (digits, rest) ← nonempty (span (length s') is_digit s')
  some (word minus (digits_value 0 digits) % 2 ^ width, rest)

-- %d and %u
unfoldable pub scan_int : Bytes → Option (ℕ × Bytes)
unfolding scan_number signed_word
scan_int s = scan_number signed_word 32 s

unfoldable pub scan_unsigned : Bytes → Option (ℕ × Bytes)
unfolding scan_number unsigned_word
scan_unsigned s = scan_number unsigned_word 32 s

-- %hu
unfoldable pub scan_short : Bytes → Option (ℕ × Bytes)
unfolding scan_number unsigned_word
scan_short s = scan_number unsigned_word 16 s

-- (unsigned short)atoi(s)
unfoldable pub port_number : Bytes → ℕ
unfolding scan_number signed_word
port_number s = elim (scan_number signed_word 16 s) [ none ↦ 0 | some (n, rest) ↦ n ]

-- What strtok leaves: the delimiters it has passed, the token, and the text behind the byte that it
-- overwrites with a zero, if there is one.
pub record Token : Type 0 where
  pub lead : Bytes
  pub token : Bytes
  pub rest : Option Bytes

unfoldable pub tail : Bytes → Option Bytes
tail [] = none
tail (c ∷ s) = some s

unfoldable pub strtok : Bytes → Bytes → Option Token
unfolding span nonempty contains tail
strtok delims s = do
  let (lead, s') = span (length s) (contains delims) s
  (token, behind) ← nonempty (span (length s') (λ c. not (contains delims c)) s')
  some (record { lead = lead; token = token; rest = tail behind })

-- The text from which the next strtok(0, …) goes on.
unfoldable pub rest_of : Token → Bytes
rest_of t = elim t.rest [ none ↦ [] | some s ↦ s ]

-- The block after strtok, with the zero in it.
unfoldable pub block_of : Token → Bytes
block_of t = t.lead ++ (t.token ++ (elim t.rest [ none ↦ [] | some s ↦ 0 ∷ s ]))

-- stricmp(s, t) == 0 with a text t of small letters
unfoldable pub to_lower : ℕ → ℕ
to_lower c = if leb b'A' c && leb c b'Z' then c + 32 else c

unfoldable pub stri_eq : Bytes → Bytes → Bool
unfolding to_lower
stri_eq [] [] = true
stri_eq [] (d ∷ t) = false
stri_eq (c ∷ s) [] = false
stri_eq (c ∷ s) (d ∷ t) = (to_lower c == to_lower d) && stri_eq s t

-- %u of a number below 2^64, by its last digits.
unfoldable pub decimal_loop : ℕ → ℕ → Bytes → Bytes
decimal_loop zero n acc = acc
decimal_loop (suc fuel) n acc =
    let acc' = (b'0' + n % 10) ∷ acc in
    let more = decimal_loop fuel (n / 10) acc' in if ltb n 10 then acc' else more

unfoldable pub decimal : ℕ → Bytes
unfolding decimal_loop
decimal n = decimal_loop 20 n []

-- %d of the bits of an int
unfoldable pub show_int : ℕ → Bytes
unfolding decimal
show_int n = if ltb n (2 ^ 31) then decimal n else b'-' ∷ decimal (2 ^ 32 - n)

-- is_supported_file_stuffix
unfoldable pub is_supported_file_stuffix : Bytes → Bool
unfolding stri_eq
is_supported_file_stuffix p =
    stri_eq p (codes ".264") || stri_eq p (codes ".h264") || stri_eq p (codes ".flv")
