-- ===== src/Base/Bits.antt =====
-- `|` of words whose ones do not meet is their sum, and masks of low bits are remainders.
use Prim.Native.Nat.{
  ℕ, zero, suc, ◌+◌, ◌*◌, ◌/◌, ◌%◌, ◌^◌, ◌≤◌, ◌<◌, max, bit_or, digits, bit_or-bitwise,
}
use mathlib.Core.Path.{◌≡◌, refl, ap, ap₂, ◌∙◌}
use mathlib.Core.Bool.{Bool, true, ◌&&◌}
use native.Mathlib.Nat.{pow-suc}
use native.Mathlib.Omega.{arith}

-- The digits that `bit_or` stands for, with a count of those to go.
abbrev or_within : ℕ → ℕ → ℕ → ℕ
or_within n a b = digits (λ y. y) max n a b

-- Any count that is large enough gives the same.
or_within-count :
    (count more a b : ℕ) → a ≤ count → a ≤ more → or_within count a b ≡ or_within more a b
or_within-count count more zero b enough enough' = ends count more
  where
    ends : (count more : ℕ) → or_within count 0 b ≡ or_within more 0 b
    ends zero zero = refl
    ends zero (suc more) = refl
    ends (suc count) zero = refl
    ends (suc count) (suc more) = refl
or_within-count zero more (suc a) b enough enough' = absurd (omega arith)
or_within-count (suc count) zero (suc a) b enough enough' = absurd (omega arith)
or_within-count (suc count) (suc more) (suc a) b enough enough' =
    let halves = or_within-count count more (suc a / 2) (b / 2) (omega arith) (omega arith) in
    omega (arith, halves)

pub or_nothing : (b : ℕ) → bit_or 0 b ≡ b
or_nothing b = bit_or-bitwise 0 b

-- The lowest digit, and the others.
or_lowest : (a b : ℕ) → bit_or a b ≡ bit_or (a / 2) (b / 2) * 2 + max (a % 2) (b % 2)
or_lowest zero b = omega (arith, or_nothing b, or_nothing (b / 2))
or_lowest (suc a) b =
    let half = suc a / 2 in
    let digits_left = or_within-count a half half (b / 2) (omega arith) (omega arith) in
    omega (arith, digits_left, bit_or-bitwise half (b / 2), bit_or-bitwise (suc a) b)

or_zero_below : (count a : ℕ) → a ≤ count → bit_or a 0 ≡ a
or_zero_below count zero enough = or_nothing 0
or_zero_below zero (suc a) enough = absurd (omega arith)
or_zero_below (suc count) (suc a) enough =
    let halved = or_zero_below count (suc a / 2) (omega arith) in
    omega (arith, halved, or_lowest (suc a) 0)

pub or_zero : (a : ℕ) → bit_or a 0 ≡ a
or_zero a = or_zero_below a a (omega arith)

shift_once : (q k : ℕ) → q * 2 ^ suc k ≡ q * 2 ^ k * 2
shift_once q k = omega (arith, ap (λ (t : ℕ). q * t) (pow-suc 2 k))

-- `(q << k) | r`, where `r` has no ones from bit `k` on.
pub or_disjoint : (k q r : ℕ) → r < 2 ^ k → bit_or (q * 2 ^ k) r ≡ q * 2 ^ k + r
or_disjoint zero q r h = ground (arith, or_zero q)
or_disjoint (suc k) q r h = omega (
  arith,
  or_lowest (q * 2 ^ suc k) r,
  shift_once q k,
  pow-suc 2 k,
  or_disjoint k q (r / 2) (omega (arith, pow-suc 2 k)),
  halved,
)
  where
    halved : bit_or (q * 2 ^ suc k / 2) (r / 2) ≡ bit_or (q * 2 ^ k) (r / 2)
    halved = ap (λ (t : ℕ). bit_or t (r / 2)) (omega (arith, shift_once q k))

-- `|` of the high parts and of the low parts.
pub or_split :
    (k q r q' r' : ℕ)
    → r < 2 ^ k
    → r' < 2 ^ k
    → bit_or (q * 2 ^ k + r) (q' * 2 ^ k + r') ≡ bit_or q q' * 2 ^ k + bit_or r r'
or_split zero q r q' r' h h' = ends r r' (omega arith) (omega arith)
  where
    ends :
        (r r' : ℕ)
        → r ≡ 0
        → r' ≡ 0
        → bit_or (q * 1 + r) (q' * 1 + r') ≡ bit_or q q' * 1 + bit_or r r'
    ends r r' e e' =
        rw (e, e')
          (let joined : bit_or (q * 1 + 0) (q' * 1 + 0) ≡ bit_or q q' =
              ap₂ bit_or (omega arith) (omega arith) in
            omega (arith, joined, or_nothing 0))
or_split (suc k) q r q' r' h h' = omega (
  arith,
  or_lowest (q * 2 ^ suc k + r) (q' * 2 ^ suc k + r'),
  or_lowest r r',
  shift_once q k,
  shift_once q' k,
  shift_once (bit_or q q') k,
  pow-suc 2 k,
  or_split k q (r / 2) q' (r' / 2) (omega (arith, pow-suc 2 k)) (omega (arith, pow-suc 2 k)),
  halved,
)
  where
    halved :
        bit_or ((q * 2 ^ suc k + r) / 2) ((q' * 2 ^ suc k + r') / 2)
        ≡ bit_or (q * 2 ^ k + r / 2) (q' * 2 ^ k + r' / 2)
    halved = ap₂ bit_or (omega (arith, shift_once q k)) (omega (arith, shift_once q' k))

-- `r | (q << k)`, where `r` has no ones from bit `k` on.
pub or_above : (k q r : ℕ) → r < 2 ^ k → bit_or r (q * 2 ^ k) ≡ q * 2 ^ k + r
or_above k q r h =
    ap₂ bit_or (omega arith) (omega arith)
    ∙ (or_split k 0 r q 0 h (positive k) ∙ ap₂ (λ a b. a * 2 ^ k + b) (or_nothing q) (or_zero r))
  where
    positive : (k : ℕ) → 0 < 2 ^ k
    positive zero = omega arith
    positive (suc k) = omega (arith, pow-suc 2 k, positive k)

-- Over a small range, every value is checked by evaluation.
unfoldable pub all_below : ℕ → (ℕ → Bool) → Bool
all_below zero test = true
all_below (suc limit) test = all_below limit test && test limit

pub all_below_sound :
    (limit : ℕ) (test : ℕ → Bool) (i : ℕ) → all_below limit test ≡ true → i < limit → test i ≡ true
unfolding all_below
all_below_sound zero test i checked below = absurd (omega arith)
all_below_sound (suc limit) test i checked below = ground (arith, all_below_sound limit test i)
