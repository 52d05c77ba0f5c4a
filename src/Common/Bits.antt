-- ===== src/Common/Bits.antt =====
-- The bits of a machine word: what `x | 1 << b`, `x & 1 << b` and `x & ~(1 << b)` are, bit by bit.
use Prim.Native.Nat.{
  ℕ, zero, suc, ◌+◌, ◌-◌, ◌*◌, ◌/◌, ◌%◌, ◌^◌, ◌≤◌, ◌<◌, min, max, bit_and, bit_or, digits,
  bit_and-bitwise, bit_or-bitwise,
}
use mathlib.Core.Path.{◌≡◌, refl, ap, ◌∙◌}
use mathlib.Core.Logic.{◌≢◌}
use native.Mathlib.Nat.{pow-suc}
use native.Mathlib.Omega.{arith}

-- Any two counts of digits that are large enough give the same.
digits-count :
    (z : ℕ → ℕ) (f : ℕ → ℕ → ℕ) (n m a b : ℕ) → a ≤ n → a ≤ m → digits z f n a b ≡ digits z f m a b
digits-count z f zero zero zero b h k = refl
digits-count z f zero (suc m) zero b h k = refl
digits-count z f (suc n) zero zero b h k = refl
digits-count z f (suc n) (suc m) zero b h k = refl
digits-count z f zero m (suc a) b h k = elim h [ ]
digits-count z f (suc n) zero (suc a) b h k = elim k [ ]
digits-count z f (suc n) (suc m) (suc a) b h k =
    ap (λ d. d * 2 + f (suc a % 2) (b % 2))
      (digits-count z f n m (suc a / 2) (b / 2) (omega arith) (omega arith))

digits-halve :
    (z : ℕ → ℕ) (f : ℕ → ℕ → ℕ) (a b : ℕ)
    → digits z f (suc a) (suc a) b
      ≡ digits z f (suc a / 2) (suc a / 2) (b / 2) * 2 + f (suc a % 2) (b % 2)
digits-halve z f a b =
    ap (λ d. d * 2 + f (suc a % 2) (b % 2))
      (digits-count z f a (suc a / 2) (suc a / 2) (b / 2) (omega arith) (omega arith))

bit_and_halves : (a b : ℕ) → bit_and a b ≡ bit_and (a / 2) (b / 2) * 2 + min (a % 2) (b % 2)
bit_and_halves zero b = simp bit_and-bitwise (omega arith)
bit_and_halves (suc a) b = simp bit_and-bitwise (digits-halve (λ _. 0) min a b)

bit_or_halves : (a b : ℕ) → bit_or a b ≡ bit_or (a / 2) (b / 2) * 2 + max (a % 2) (b % 2)
bit_or_halves zero b = simp bit_or-bitwise (omega arith)
bit_or_halves (suc a) b = simp bit_or-bitwise (digits-halve (λ d. d) max a b)

-- The bit at place `c`.
abbrev pub bit : ℕ → ℕ → ℕ
bit x zero = x % 2
bit x (suc c) = bit (x / 2) c

pub bit-zero : (c : ℕ) → bit 0 c ≡ 0
bit-zero zero = refl
bit-zero (suc c) = bit-zero c

-- `~(1 << b)` in a word of `w` bits.
abbrev pub all_but : ℕ → ℕ → ℕ
all_but w b = 2 ^ w - 1 - 2 ^ b

pub bit-lt : (x c : ℕ) → bit x c < 2
bit-lt x zero = omega arith
bit-lt x (suc c) = bit-lt (x / 2) c

bit_and-zero : (n a : ℕ) → a ≤ n → bit_and a 0 ≡ 0
bit_and-zero zero zero h = refl
bit_and-zero (suc n) zero h = refl
bit_and-zero zero (suc a) h = elim h [ ]
bit_and-zero (suc n) (suc a) h =
    omega (arith, bit_and_halves (suc a) 0, bit_and-zero n (suc a / 2) (omega arith))

bit_or-zero : (n a : ℕ) → a ≤ n → bit_or a 0 ≡ a
bit_or-zero zero zero h = refl
bit_or-zero (suc n) zero h = refl
bit_or-zero zero (suc a) h = elim h [ ]
bit_or-zero (suc n) (suc a) h =
    omega (arith, bit_or_halves (suc a) 0, bit_or-zero n (suc a / 2) (omega arith))

pow_half : (b : ℕ) → (2 ^ suc b / 2 ≡ 2 ^ b) × (2 ^ suc b % 2 ≡ 0)
pow_half b = (omega (arith, pow-suc 2 b), omega (arith, pow-suc 2 b))

-- A test of one bit.
pub bit_and-pow : (x b : ℕ) → bit_and x (2 ^ b) ≡ bit x b * 2 ^ b
bit_and-pow x zero = omega (arith, bit_and_halves x 1, bit_and-zero (x / 2) (x / 2) (omega arith))
bit_and-pow x (suc b) =
    let half = bit_and-pow (x / 2) b in
    let step : bit_and x (2 ^ suc b) ≡ bit_and (x / 2) (2 ^ b) * 2 + 0 =
      rw (bit_and_halves x (2 ^ suc b), (pow_half b).0) (omega (arith, (pow_half b).1)) in
    step ∙ rw (half, pow-suc) (omega arith)

or_low : (x : ℕ) → bit_or x 1 ≡ x / 2 * 2 + 1
or_low x = omega (arith, bit_or_halves x 1, bit_or-zero (x / 2) (x / 2) (omega arith))

or_high : (x b : ℕ) → bit_or x (2 ^ suc b) ≡ bit_or (x / 2) (2 ^ b) * 2 + x % 2
or_high x b = rw (bit_or_halves x (2 ^ suc b), (pow_half b).0) (omega (arith, (pow_half b).1))

half_of : (y r : ℕ) → r < 2 → (y * 2 + r) / 2 ≡ y
half_of y r h = omega arith

-- Setting one bit.
pub bit-bit_or : (x b : ℕ) → bit (bit_or x (2 ^ b)) b ≡ 1
bit-bit_or x zero = omega (arith, or_low x)
bit-bit_or x (suc b) = rw (or_high x b, half_of _ (x % 2) (omega arith)) (bit-bit_or (x / 2) b)

pub bit-bit_or_ne : (x b c : ℕ) → b ≢ c → bit (bit_or x (2 ^ b)) c ≡ bit x c
bit-bit_or_ne x zero zero h = absurd (h refl)
bit-bit_or_ne x zero (suc c) h = rw (or_low x, half_of (x / 2) 1 (omega arith))
bit-bit_or_ne x (suc b) zero h = omega (arith, or_high x b)
bit-bit_or_ne x (suc b) (suc c) h =
    rw (or_high x b, half_of _ (x % 2) (omega arith))
      (bit-bit_or_ne (x / 2) b c (λ e. h (ap suc e)))

pub bit_or-lt : (w x b : ℕ) → x < 2 ^ w → b < w → bit_or x (2 ^ b) < 2 ^ w
bit_or-lt zero x b h k = elim k [ ]
bit_or-lt (suc w) x zero h k = omega (arith, or_low x, pow-suc 2 w)
bit_or-lt (suc w) x (suc b) h k = omega (
  arith,
  or_high x b,
  pow-suc 2 w,
  bit_or-lt w (x / 2) b (omega (arith, pow-suc 2 w)) (omega arith),
)

pub pow-pos : (w : ℕ) → 0 < 2 ^ w
pow-pos zero = omega arith
pow-pos (suc w) = omega (arith, pow-suc 2 w, pow-pos w)

pow-lt : (b w : ℕ) → b < w → 2 ^ b + 2 ^ b ≤ 2 ^ w
pow-lt b zero h = elim h [ ]
pow-lt zero (suc w) h = omega (arith, pow-suc 2 w, pow-pos w)
pow-lt (suc b) (suc w) h = omega (arith, pow-suc 2 w, pow-suc 2 b, pow-lt b w (omega arith))

and_odd : (x m k : ℕ) → m ≡ k * 2 + 1 → bit_and x m ≡ bit_and (x / 2) k * 2 + x % 2
and_odd x m k e =
    let h : m / 2 ≡ k = omega arith in
    let o : m % 2 ≡ 1 = omega arith in rw (bit_and_halves x m, h) (omega arith)

and_even : (x m k : ℕ) → m ≡ k * 2 → bit_and x m ≡ bit_and (x / 2) k * 2
and_even x m k e =
    let h : m / 2 ≡ k = omega arith in
    let o : m % 2 ≡ 0 = omega arith in rw (bit_and_halves x m, h) (omega arith)

mask_suc : (w : ℕ) → 2 ^ suc w - 1 ≡ (2 ^ w - 1) * 2 + 1
mask_suc w = omega (arith, pow-suc 2 w, pow-pos w)

bit_mask : (w x c : ℕ) → c < w → bit (bit_and x (2 ^ w - 1)) c ≡ bit x c
bit_mask zero x c h = elim h [ ]
bit_mask (suc w) x zero h = omega (arith, and_odd x (2 ^ suc w - 1) (2 ^ w - 1) (mask_suc w))
bit_mask (suc w) x (suc c) h =
    rw (and_odd x (2 ^ suc w - 1) (2 ^ w - 1) (mask_suc w), half_of _ (x % 2) (omega arith))
      (bit_mask w (x / 2) c (omega arith))

all_but_low : (w : ℕ) → all_but (suc w) 0 ≡ (2 ^ w - 1) * 2
all_but_low w = omega (arith, pow-suc 2 w, pow-pos w)

all_but_high : (w b : ℕ) → b < w → all_but (suc w) (suc b) ≡ all_but w b * 2 + 1
all_but_high w b h = omega (arith, pow-suc 2 w, pow-suc 2 b, pow-pos w, pow-pos b, pow-lt b w h)

even_half : (y : ℕ) → y * 2 / 2 ≡ y
even_half y = omega arith

-- Clearing one bit.
pub bit-clear : (w x b : ℕ) → b < w → bit (bit_and x (all_but w b)) b ≡ 0
bit-clear zero x b h = elim h [ ]
bit-clear (suc w) x zero h = omega (arith, and_even x (all_but (suc w) 0) _ (all_but_low w))
bit-clear (suc w) x (suc b) h =
    rw
      (
        and_odd x (all_but (suc w) (suc b)) _ (all_but_high w b (omega arith)),
        half_of _ (x % 2) (omega arith),
      )
      (bit-clear w (x / 2) b (omega arith))

pub bit-clear_ne : (w x b c : ℕ) → b < w → c < w → b ≢ c → bit (bit_and x (all_but w b)) c ≡ bit x c
bit-clear_ne zero x b c h k n = elim h [ ]
bit-clear_ne (suc w) x zero zero h k n = absurd (n refl)
bit-clear_ne (suc w) x zero (suc c) h k n =
    rw (and_even x (all_but (suc w) 0) _ (all_but_low w), even_half)
      (bit_mask w (x / 2) c (omega arith))
bit-clear_ne (suc w) x (suc b) zero h k n =
    omega (arith, and_odd x (all_but (suc w) (suc b)) _ (all_but_high w b (omega arith)))
bit-clear_ne (suc w) x (suc b) (suc c) h k n =
    rw
      (
        and_odd x (all_but (suc w) (suc b)) _ (all_but_high w b (omega arith)),
        half_of _ (x % 2) (omega arith),
      )
      (bit-clear_ne w (x / 2) b c (omega arith) (omega arith) (λ e. n (ap suc e)))

pub bit_and-le : (n x m : ℕ) → x ≤ n → bit_and x m ≤ x
bit_and-le n zero m h = omega (arith, bit_and-bitwise 0 m)
bit_and-le zero (suc x) m h = elim h [ ]
bit_and-le (suc n) (suc x) m h =
    omega (arith, bit_and_halves (suc x) m, bit_and-le n (suc x / 2) (m / 2) (omega arith))

-- A word of `w` bits that are all set is the greatest one.
pub all_ones : (w x : ℕ) → x < 2 ^ w → ((c : ℕ) → c < w → bit x c ≡ 1) → x ≡ 2 ^ w - 1
all_ones zero x h ones = omega arith
all_ones (suc w) x h ones =
    let low = ones 0 (omega arith) in
    let high =
      all_ones w (x / 2) (omega (arith, pow-suc 2 w)) (λ c k. ones (suc c) (omega arith)) in
    omega (arith, low, high, mask_suc w)

pub bit-ones : (w c : ℕ) → c < w → bit (2 ^ w - 1) c ≡ 1
bit-ones zero c h = elim h [ ]
bit-ones (suc w) zero h = omega (arith, mask_suc w)
bit-ones (suc w) (suc c) h =
    rw (mask_suc w, half_of (2 ^ w - 1) 1 (omega arith)) (bit-ones w c (omega arith))
