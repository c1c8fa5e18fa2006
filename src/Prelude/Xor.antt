-- ===== src/Prelude/Xor.antt =====
-- Laws of `bit_xor` at variables, by its lowest digit.
use Prim.Native.Nat.{
  ℕ, zero, suc, ◌+◌, ◌*◌, ◌/◌, ◌%◌, ◌^◌, ◌≤◌, ◌<◌, bit_xor, bit_xor-bitwise, differ,
}
use mathlib.Core.Path.{◌≡◌, refl, ap, ap₂, sym, ◌∙◌}
use native.Mathlib.Omega.{arith}
use native.Mathlib.Nat.{pow-suc}
use damat_tutorial.Prelude.Bits.{lowest_digit}

differ_bits : (a b : ℕ) → differ (a % 2) (b % 2) ≡ (a % 2 + b % 2) % 2
differ_bits a b = go (a % 2) (b % 2) (omega arith) (omega arith)
  where
    go : (x y : ℕ) → x < 2 → y < 2 → differ x y ≡ (x + y) % 2
    go zero zero p q = refl
    go zero (suc zero) p q = refl
    go (suc zero) zero p q = refl
    go (suc zero) (suc zero) p q = refl
    go zero (suc (suc y)) p q = absurd (omega arith)
    go (suc zero) (suc (suc y)) p q = absurd (omega arith)
    go (suc (suc x)) y p q = absurd (omega arith)

pub zero-bit_xor : (b : ℕ) → bit_xor 0 b ≡ b
zero-bit_xor b = bit_xor-bitwise 0 b

differ_zero : (b : ℕ) → b ≡ b / 2 * 2 + differ 0 (b % 2)
differ_zero b = omega arith

pub bit_xor_step : (a b : ℕ) → bit_xor a b ≡ bit_xor (a / 2) (b / 2) * 2 + (a % 2 + b % 2) % 2
bit_xor_step a b =
    lowest_digit (λ b. b) differ bit_xor bit_xor-bitwise differ_zero a b
    ∙ ap (λ d. bit_xor (a / 2) (b / 2) * 2 + d) (differ_bits a b)

pub bit_xor-div_2 : (a b : ℕ) → bit_xor a b / 2 ≡ bit_xor (a / 2) (b / 2)
bit_xor-div_2 a b = omega (arith, bit_xor_step a b)

pub bit_xor-mod_2 : (a b : ℕ) → bit_xor a b % 2 ≡ (a % 2 + b % 2) % 2
bit_xor-mod_2 a b = omega (arith, bit_xor_step a b)

bit_xor-zero_below : (n a : ℕ) → a ≤ n → bit_xor a 0 ≡ a
bit_xor-zero_below n zero h = refl
bit_xor-zero_below zero (suc a) h = absurd (omega arith)
bit_xor-zero_below (suc n) (suc a) h =
    omega (arith, bit_xor_step (suc a) 0, bit_xor-zero_below n (suc a / 2) (omega arith))

pub bit_xor-zero : (a : ℕ) → bit_xor a 0 ≡ a
bit_xor-zero a = bit_xor-zero_below a a (omega arith)

bit_xor_self_below : (n a : ℕ) → a ≤ n → bit_xor a a ≡ 0
bit_xor_self_below n zero h = refl
bit_xor_self_below zero (suc a) h = absurd (omega arith)
bit_xor_self_below (suc n) (suc a) h =
    omega (arith, bit_xor_step (suc a) (suc a), bit_xor_self_below n (suc a / 2) (omega arith))

pub bit_xor_self : (a : ℕ) → bit_xor a a ≡ 0
bit_xor_self a = bit_xor_self_below a a (omega arith)

bit_xor_comm_below : (n a b : ℕ) → a ≤ n → bit_xor a b ≡ bit_xor b a
bit_xor_comm_below n zero b h = zero-bit_xor b ∙ sym (bit_xor-zero b)
bit_xor_comm_below zero (suc a) b h = absurd (omega arith)
bit_xor_comm_below (suc n) (suc a) b h = omega (
  arith,
  bit_xor_step (suc a) b,
  bit_xor_step b (suc a),
  bit_xor_comm_below n (suc a / 2) (b / 2) (omega arith),
)

pub bit_xor_comm : (a b : ℕ) → bit_xor a b ≡ bit_xor b a
bit_xor_comm a b = bit_xor_comm_below a a b (omega arith)

bit_xor_assoc_below : (n a b c : ℕ) → a ≤ n → bit_xor (bit_xor a b) c ≡ bit_xor a (bit_xor b c)
bit_xor_assoc_below n zero b c h =
    ap (λ x. bit_xor x c) (zero-bit_xor b) ∙ sym (zero-bit_xor (bit_xor b c))
bit_xor_assoc_below zero (suc a) b c h = absurd (omega arith)
bit_xor_assoc_below (suc n) (suc a) b c h =
    bit_xor_step (bit_xor (suc a) b) c
    ∙ ap₂ (λ x d. x * 2 + d)
        (ap (λ x. bit_xor x (c / 2)) (bit_xor-div_2 (suc a) b)
          ∙ bit_xor_assoc_below n (suc a / 2) (b / 2) (c / 2) (omega arith)
          ∙ ap (λ x. bit_xor (suc a / 2) x) (sym (bit_xor-div_2 b c)))
        (omega (arith, bit_xor-mod_2 (suc a) b, bit_xor-mod_2 b c))
    ∙ sym (bit_xor_step (suc a) (bit_xor b c))

pub bit_xor_assoc : (a b c : ℕ) → bit_xor (bit_xor a b) c ≡ bit_xor a (bit_xor b c)
bit_xor_assoc a b c = bit_xor_assoc_below a a b c (omega arith)

-- A value is recovered from an exclusive or with a known one.
pub bit_xor_cancel : (a b c : ℕ) → bit_xor a c ≡ bit_xor b c → a ≡ b
bit_xor_cancel a b c e = sym (undo a) ∙ ap (λ x. bit_xor x c) e ∙ undo b
  where
    undo : (x : ℕ) → bit_xor (bit_xor x c) c ≡ x
    undo x = bit_xor_assoc x c c ∙ ap (λ y. bit_xor x y) (bit_xor_self c) ∙ bit_xor-zero x

pub bit_xor-lt_pow : (k a b : ℕ) → a < 2 ^ k → b < 2 ^ k → bit_xor a b < 2 ^ k
bit_xor-lt_pow zero zero zero ha hb = omega arith
bit_xor-lt_pow zero (suc a) b ha hb = absurd (omega arith)
bit_xor-lt_pow zero zero (suc b) ha hb = absurd (omega arith)
bit_xor-lt_pow (suc k) a b ha hb = omega (
  arith,
  bit_xor_step a b,
  pow-suc 2 k,
  bit_xor-lt_pow k (a / 2) (b / 2) (omega (arith, pow-suc 2 k)) (omega (arith, pow-suc 2 k)),
)

-- An exclusive or is taken apart at bit k.
pub bit_xor-split :
    (k a b c d : ℕ)
    → c < 2 ^ k
    → d < 2 ^ k
    → bit_xor (a * 2 ^ k + c) (b * 2 ^ k + d) ≡ bit_xor a b * 2 ^ k + bit_xor c d
bit_xor-split zero a b zero zero hc hd =
    ap₂ bit_xor (same a) (same b) ∙ omega (arith, zero-bit_xor 0)
  where
    same : (x : ℕ) → x * 1 + 0 ≡ x
    same x = omega arith
bit_xor-split zero a b (suc c) d hc hd = absurd (omega arith)
bit_xor-split zero a b zero (suc d) hc hd = absurd (omega arith)
bit_xor-split (suc k) a b c d hc hd =
    bit_xor_step (a * 2 ^ suc k + c) (b * 2 ^ suc k + d)
    ∙ omega (
      arith,
      ap₂ bit_xor (halved a c) (halved b d),
      bit_xor-split k a b (c / 2) (d / 2) (omega (arith, pow-suc 2 k)) (omega (arith, pow-suc 2 k)),
      bit_xor_step c d,
      pow-suc 2 k,
      ap (λ (t : ℕ). a * t) (pow-suc 2 k),
      ap (λ (t : ℕ). b * t) (pow-suc 2 k),
      ap (λ (t : ℕ). bit_xor a b * t) (pow-suc 2 k),
    )
  where
    halved : (x y : ℕ) → (x * 2 ^ suc k + y) / 2 ≡ x * 2 ^ k + y / 2
    halved x y = omega (arith, pow-suc 2 k, ap (λ (t : ℕ). x * t) (pow-suc 2 k))
