-- ===== src/Prelude/Bits.antt =====
-- Laws of `bit_and` and `bit_or` at variables, from the digit recursion that the native
-- operations stand for: a mask of low bits is a remainder, and an `or` of fields that do not
-- overlap is a sum.
use Prim.Native.Nat.{
  ℕ, zero, suc, ◌+◌, ◌-◌, ◌*◌, ◌/◌, ◌%◌, ◌^◌, ◌≤◌, ◌<◌, min, max, bit_and, bit_or, digits,
  bit_and-bitwise, bit_or-bitwise,
}
use mathlib.Core.Path.{◌≡◌, refl, ap, ap₂, ◌∙◌}
use native.Mathlib.Omega.{arith}
use native.Mathlib.Nat.{
  add-zero, mul-one, pow-suc, mod-eq_of_lt, mod-lt, div-add-mod, add_comm, add-mul-mod_self_right,
}

-- A bitwise operation `op`, by its digits: `digit` is the operation on one digit, and `rest` on 0 and
-- a number.
module _ (rest : ℕ → ℕ) (digit op : ℕ → ℕ → ℕ)
    (by_digits : (a b : ℕ) → op a b ≡ digits rest digit a a b) where
  -- Fuel beyond the first number is not used.
  digits-suc : (n a b : ℕ) → a ≤ n → digits rest digit (suc n) a b ≡ digits rest digit n a b
  digits-suc zero zero b h = refl
  digits-suc (suc n) zero b h = refl
  digits-suc zero (suc a) b h = absurd (omega arith)
  digits-suc (suc n) (suc a) b h = omega (arith, digits-suc n (suc a / 2) (b / 2) (omega arith))

  digits-add : (k n a b : ℕ) → a ≤ n → digits rest digit (k + n) a b ≡ digits rest digit n a b
  digits-add zero n a b h = ap (λ m. digits rest digit m a b) {x = 0 + n} {y = n} (omega arith)
  digits-add (suc k) n a b h =
      ap (λ m. digits rest digit m a b) {x = suc k + n} {y = suc (k + n)} (omega arith)
      ∙ digits-suc (k + n) a b (omega arith)
      ∙ digits-add k n a b h

  -- The law of the lowest digit.
  pub lowest_digit :
      ((b : ℕ) → rest b ≡ rest (b / 2) * 2 + digit 0 (b % 2))
      → (a b : ℕ) → op a b ≡ op (a / 2) (b / 2) * 2 + digit (a % 2) (b % 2)
  lowest_digit base zero b = omega (arith, by_digits 0 b, by_digits 0 (b / 2), base b)
  lowest_digit base (suc a) b =
      let half = suc a / 2 in
      let fuel : digits rest digit a half (b / 2) ≡ digits rest digit half half (b / 2) =
        ap (λ m. digits rest digit m half (b / 2)) {x = a} {y = a - half + half} (omega arith)
        ∙ digits-add (a - half) half half (b / 2) (omega arith) in
      omega (arith, by_digits (suc a) b, by_digits half (b / 2), fuel)

  -- A function with the digits of `op a 0` is that.
  pub right_zero :
      ((b : ℕ) → rest b ≡ rest (b / 2) * 2 + digit 0 (b % 2))
      → (f : ℕ → ℕ) → op 0 0 ≡ f 0
      → ((a : ℕ) → f a ≡ f (a / 2) * 2 + digit (a % 2) 0)
      → (n a : ℕ) → a ≤ n
      → op a 0 ≡ f a
  right_zero base f start next n zero h = start
  right_zero base f start next zero (suc a) h = absurd (omega arith)
  right_zero base f start next (suc n) (suc a) h =
      let below = right_zero base f start next n (suc a / 2) (omega arith) in
      omega (arith, lowest_digit base (suc a) 0, below, next (suc a))

pub zero-bit_or : (b : ℕ) → bit_or 0 b ≡ b
zero-bit_or b = bit_or-bitwise 0 b

pub zero-bit_and : (b : ℕ) → bit_and 0 b ≡ 0
zero-bit_and b = bit_and-bitwise 0 b

pub bit_or_step : (a b : ℕ) → bit_or a b ≡ bit_or (a / 2) (b / 2) * 2 + max (a % 2) (b % 2)
bit_or_step = lowest_digit (λ b. b) max bit_or bit_or-bitwise (λ b. omega arith)

pub bit_and_step : (a b : ℕ) → bit_and a b ≡ bit_and (a / 2) (b / 2) * 2 + min (a % 2) (b % 2)
bit_and_step = lowest_digit (λ b. zero) min bit_and bit_and-bitwise (λ b. omega arith)

pub bit_and-zero : (a : ℕ) → bit_and a 0 ≡ 0
bit_and-zero a =
    right_zero (λ b. zero) min bit_and bit_and-bitwise (λ b. omega arith) (λ b. zero) refl
      (λ b. omega arith) a a (omega arith)

pub bit_or-zero : (a : ℕ) → bit_or a 0 ≡ a
bit_or-zero a =
    right_zero (λ b. b) max bit_or bit_or-bitwise (λ b. omega arith) (λ b. b) refl
      (λ b. omega arith) a a (omega arith)

pub pow_pos : (k : ℕ) → 0 < 2 ^ k
pow_pos zero = omega arith
pow_pos (suc k) = omega (arith, pow-suc 2 k, pow_pos k)

mod_unique : (n q r m : ℕ) → r < m → n ≡ q * m + r → n % m ≡ r
mod_unique n q r m h e = rw (e, add_comm (q * m) r, add-mul-mod_self_right r q m) (mod-eq_of_lt h)

mod_double : (p a : ℕ) → 0 < p → a % (p * 2) ≡ a / 2 % p * 2 + a % 2
mod_double p a h =
    mod_unique a (a / 2 / p) (a / 2 % p * 2 + a % 2) (p * 2) (omega (arith, mod-lt (a / 2) h))
      (omega (arith, ap (λ (t : ℕ). t * 2) (div-add-mod (a / 2) p)))

-- `x & (2^k - 1)` is the remainder by 2^k.
pub bit_and-mask : (k a : ℕ) → bit_and a (2 ^ k - 1) ≡ a % 2 ^ k
bit_and-mask zero a = omega (arith, bit_and-zero a)
bit_and-mask (suc k) a =
    rw (pow-suc 2 k, bit_and_step, mod_double (2 ^ k) a (pow_pos k), ← bit_and-mask k (a / 2), half)
      (omega (arith, pow_pos k))
  where
    half : (2 ^ k * 2 - 1) / 2 ≡ 2 ^ k - 1
    half = omega (arith, pow_pos k)

-- A field above bit k and a field below it do not overlap.
pub bit_or-disjoint : (k a b : ℕ) → b < 2 ^ k → bit_or (a * 2 ^ k) b ≡ a * 2 ^ k + b
bit_or-disjoint zero a zero h = rw (bit_or-zero (a * 1)) (omega arith)
bit_or-disjoint zero a (suc b) h = absurd (omega arith)
bit_or-disjoint (suc k) a b h =
    rw (bit_or_step (a * 2 ^ suc k) b, halved)
      (omega (
        arith,
        bit_or-disjoint k a (b / 2) (omega (arith, pow-suc 2 k)),
        pow-suc 2 k,
        ap (λ (t : ℕ). a * t) (pow-suc 2 k),
      ))
  where
    halved : a * 2 ^ suc k / 2 ≡ a * 2 ^ k
    halved = omega (arith, pow-suc 2 k, ap (λ (t : ℕ). a * t) (pow-suc 2 k))

-- An `or` is taken apart at bit k.
pub bit_or-split :
    (k a b c d : ℕ)
    → c < 2 ^ k
    → d < 2 ^ k
    → bit_or (a * 2 ^ k + c) (b * 2 ^ k + d) ≡ bit_or a b * 2 ^ k + bit_or c d
bit_or-split zero a b zero zero hc hd =
    rw (zero-bit_or 0, mul-one a, mul-one b, add-zero a, add-zero b) (omega arith)
bit_or-split zero a b (suc c) d hc hd = absurd (omega arith)
bit_or-split zero a b zero (suc d) hc hd = absurd (omega arith)
bit_or-split (suc k) a b c d hc hd =
    rw (bit_or_step (a * 2 ^ suc k + c), halved a c, halved b d)
      (omega (
        arith,
        bit_or-split k a b (c / 2) (d / 2) (omega (arith, pow-suc 2 k))
            (omega (arith, pow-suc 2 k)),
        bit_or_step c d,
        pow-suc 2 k,
        ap (λ (t : ℕ). a * t) (pow-suc 2 k),
        ap (λ (t : ℕ). b * t) (pow-suc 2 k),
        ap (λ (t : ℕ). bit_or a b * t) (pow-suc 2 k),
      ))
  where
    halved : (x y : ℕ) → (x * 2 ^ suc k + y) / 2 ≡ x * 2 ^ k + y / 2
    halved x y = omega (arith, pow-suc 2 k, ap (λ (t : ℕ). x * t) (pow-suc 2 k))

-- An `and` is taken apart at bit k.
pub bit_and-split :
    (k a b c d : ℕ)
    → c < 2 ^ k
    → d < 2 ^ k
    → bit_and (a * 2 ^ k + c) (b * 2 ^ k + d) ≡ bit_and a b * 2 ^ k + bit_and c d
bit_and-split zero a b zero zero hc hd =
    rw (zero-bit_and 0, mul-one a, mul-one b, add-zero a, add-zero b) (omega arith)
bit_and-split zero a b (suc c) d hc hd = absurd (omega arith)
bit_and-split zero a b zero (suc d) hc hd = absurd (omega arith)
bit_and-split (suc k) a b c d hc hd =
    rw (bit_and_step (a * 2 ^ suc k + c), halved a c, halved b d)
      (omega (
        arith,
        bit_and-split k a b (c / 2) (d / 2) (omega (arith, pow-suc 2 k))
            (omega (arith, pow-suc 2 k)),
        bit_and_step c d,
        pow-suc 2 k,
        ap (λ (t : ℕ). a * t) (pow-suc 2 k),
        ap (λ (t : ℕ). b * t) (pow-suc 2 k),
        ap (λ (t : ℕ). bit_and a b * t) (pow-suc 2 k),
      ))
  where
    halved : (x y : ℕ) → (x * 2 ^ suc k + y) / 2 ≡ x * 2 ^ k + y / 2
    halved x y = omega (arith, pow-suc 2 k, ap (λ (t : ℕ). x * t) (pow-suc 2 k))

-- `x & (1 << k)` is bit k of x, in its place.
pub bit_and-pow : (k x : ℕ) → bit_and x (2 ^ k) ≡ x / 2 ^ k % 2 * 2 ^ k
bit_and-pow k x =
    ap₂ bit_and whole one
    ∙ bit_and-split k (x / 2 ^ k) 1 (x % 2 ^ k) 0 (mod-lt x (pow_pos k)) (pow_pos k)
    ∙ omega
        (arith, ap (λ (t : ℕ). t * 2 ^ k) (bit_and-mask 1 (x / 2 ^ k)), bit_and-zero (x % 2 ^ k))
  where
    whole : x ≡ x / 2 ^ k * 2 ^ k + x % 2 ^ k
    whole = omega (arith, div-add-mod x (2 ^ k))

    one : 2 ^ k ≡ 1 * 2 ^ k + 0
    one = omega arith

-- `x | (1 << k)` for an x below that bit.
pub bit_or-pow_above : (k x : ℕ) → x < 2 ^ k → bit_or x (2 ^ k) ≡ x + 2 ^ k
bit_or-pow_above k x h =
    ap₂ bit_or low one
    ∙ bit_or-split k 0 1 x 0 h (pow_pos k)
    ∙ omega (arith, ap (λ (t : ℕ). t * 2 ^ k) (zero-bit_or 1), bit_or-zero x)
  where
    low : x ≡ 0 * 2 ^ k + x
    low = omega arith

    one : 2 ^ k ≡ 1 * 2 ^ k + 0
    one = omega arith

pub pow_add : (j k : ℕ) → 2 ^ (j + k) ≡ 2 ^ j * 2 ^ k
pow_add j zero = ap (λ t. 2 ^ t) (add-zero j) ∙ omega arith
pow_add j (suc k) =
    ap (λ t. 2 ^ t) (exponent j k)
    ∙ omega (
      arith,
      pow-suc 2 (j + k),
      pow-suc 2 k,
      pow_add j k,
      ap (λ (t : ℕ). 2 ^ j * t) (pow-suc 2 k),
    )
  where
    exponent : (j k : ℕ) → j + suc k ≡ suc (j + k)
    exponent j k = omega arith

-- One more bit of a remainder.
pub mod-pow_suc : (j m : ℕ) → m % 2 ^ suc j ≡ m % 2 ^ j + m / 2 ^ j % 2 * 2 ^ j
mod-pow_suc j m =
    ap (λ t. m % t) (pow-suc 2 j)
    ∙ mod_unique m (m / 2 ^ j / 2) (m % 2 ^ j + m / 2 ^ j % 2 * 2 ^ j) (2 ^ j * 2) below whole
  where
    below : m % 2 ^ j + m / 2 ^ j % 2 * 2 ^ j < 2 ^ j * 2
    below = bit_below (m / 2 ^ j % 2) (mod-lt (m / 2 ^ j) (omega arith)) (mod-lt m (pow_pos j))
      where
        bit_below : (b : ℕ) → b < 2 → m % 2 ^ j < 2 ^ j → m % 2 ^ j + b * 2 ^ j < 2 ^ j * 2
        bit_below zero h l = omega arith
        bit_below (suc zero) h l = omega arith
        bit_below (suc (suc b)) h l = absurd (omega arith)

    whole : m ≡ m / 2 ^ j / 2 * (2 ^ j * 2) + (m % 2 ^ j + m / 2 ^ j % 2 * 2 ^ j)
    whole =
        omega (arith, div-add-mod m (2 ^ j), ap (λ (t : ℕ). t * 2 ^ j) (div-add-mod (m / 2 ^ j) 2))
