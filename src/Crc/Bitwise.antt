-- ===== src/Crc/Bitwise.antt =====
-- The table of csp_crc32.c against the definition of CRC-32C by single bits.
use native.Mathlib.Nat.{mod-lt, pow-suc}
use mathlib.Core.Path.{ap₂}
use damat_tutorial.Prelude.{
  ℕ, zero, suc, ◌+◌, ◌*◌, ◌/◌, ◌%◌, ◌^◌, ◌<◌, ◌≡◌, ◌∙◌, refl, ap, sym, true, arith, List, [], ◌∷◌,
  All, if◌then◌else◌, ◌==◌, get_or, bit_xor, holds_below, holds_below_at, ==_iff, inl, inr,
  Bool-cases,
}
use damat_tutorial.Prelude.Bits.{bit_and-mask, pow_pos}
use damat_tutorial.Prelude.Xor.{
  zero-bit_xor, bit_xor-zero, bit_xor_comm, bit_xor_assoc, bit_xor-div_2, bit_xor-mod_2,
  bit_xor-split, bit_xor-lt_pow,
}
use damat_tutorial.Crc.{crc_tab, crc_step, crc_loop, crc32_memory}

-- The generator polynomial of CRC-32C, its bits in reverse.
abbrev pub generator : ℕ
generator = 0x82f63b78

-- Division by the generator, one bit.
unfoldable pub bit_step : ℕ → ℕ
bit_step c = if c % 2 == 1 then bit_xor (c / 2) generator else c / 2

unfoldable pub bit_steps : ℕ → ℕ → ℕ
unfolding bit_step
bit_steps zero c = c
bit_steps (suc n) c = bit_steps n (bit_step c)

-- CRC-32C by its definition: each byte is added to the register, and eight bits are divided out.
unfoldable pub bitwise_loop : ℕ → List ℕ → ℕ
unfolding bit_steps
bitwise_loop c [] = c
bitwise_loop c (byte ∷ bytes) = bitwise_loop (bit_steps 8 (bit_xor c byte)) bytes

unfoldable pub crc32c : List ℕ → ℕ
unfolding bitwise_loop
crc32c bytes = bit_xor (bitwise_loop 0xffffffff bytes) 0xffffffff

-- The step without its test.
abbrev reduction : ℕ → ℕ
reduction d = if d == 1 then generator else 0

bit_step_lem : (c : ℕ) → bit_step c ≡ bit_xor (c / 2) (reduction (c % 2))
unfolding bit_step
bit_step_lem c = elim (Bool-cases (c % 2 == 1)) [
  | inl odd ↦ rw odd refl
  | inr even ↦ rw even (sym (bit_xor-zero (c / 2)))
]

reduction_add :
    (a b : ℕ) → reduction ((a % 2 + b % 2) % 2) ≡ bit_xor (reduction (a % 2)) (reduction (b % 2))
reduction_add a b = go (a % 2) (b % 2) (omega arith) (omega arith)
  where
    go : (x y : ℕ) → x < 2 → y < 2 → reduction ((x + y) % 2) ≡ bit_xor (reduction x) (reduction y)
    go zero zero p q = refl
    go zero (suc zero) p q = refl
    go (suc zero) zero p q = refl
    go (suc zero) (suc zero) p q = refl
    go zero (suc (suc y)) p q = absurd (omega arith)
    go (suc zero) (suc (suc y)) p q = absurd (omega arith)
    go (suc (suc x)) y p q = absurd (omega arith)

xor_swap : (a b c d : ℕ) → bit_xor (bit_xor a b) (bit_xor c d) ≡ bit_xor (bit_xor a c) (bit_xor b d)
xor_swap a b c d =
    bit_xor_assoc a b (bit_xor c d)
    ∙ ap (bit_xor a)
        (sym (bit_xor_assoc b c d) ∙ ap (λ x. bit_xor x d) (bit_xor_comm b c) ∙ bit_xor_assoc c b d)
    ∙ sym (bit_xor_assoc a c (bit_xor b d))

bit_step-bit_xor : (a b : ℕ) → bit_step (bit_xor a b) ≡ bit_xor (bit_step a) (bit_step b)
bit_step-bit_xor a b =
    bit_step_lem (bit_xor a b)
    ∙ ap₂ bit_xor (bit_xor-div_2 a b) (ap reduction (bit_xor-mod_2 a b) ∙ reduction_add a b)
    ∙ xor_swap (a / 2) (b / 2) (reduction (a % 2)) (reduction (b % 2))
    ∙ ap₂ bit_xor (sym (bit_step_lem a)) (sym (bit_step_lem b))

-- The division is linear.
pub bit_steps-bit_xor :
    (n a b : ℕ) → bit_steps n (bit_xor a b) ≡ bit_xor (bit_steps n a) (bit_steps n b)
unfolding bit_steps
bit_steps-bit_xor zero a b = refl
bit_steps-bit_xor (suc n) a b =
    ap (bit_steps n) (bit_step-bit_xor a b) ∙ bit_steps-bit_xor n (bit_step a) (bit_step b)

bit_step_even : (h : ℕ) → bit_step (h * 2) ≡ h
unfolding bit_step
bit_step_even h = ground arith

-- Zeros below the top of a word are shifted out.
pub bit_steps_shift : (n h : ℕ) → bit_steps n (h * 2 ^ n) ≡ h
unfolding bit_steps
bit_steps_shift zero h = omega arith
bit_steps_shift (suc n) h =
    ap (λ x. bit_steps n (bit_step x)) {x = h * 2 ^ suc n} {y = h * 2 ^ n * 2}
      (omega (arith, ap (λ (t : ℕ). h * t) (pow-suc 2 n)))
    ∙ ap (bit_steps n) (bit_step_even (h * 2 ^ n))
    ∙ bit_steps_shift n h

-- Each entry of the table is its index, divided by eight bits.
crc_tab_holds : holds_below (λ i. get_or crc_tab i 0 == bit_steps 8 i) 256 ≡ true
unfolding crc_tab bit_steps
crc_tab_holds = refl

crc_tab_lem : (i : ℕ) → i < 256 → get_or crc_tab i 0 ≡ bit_steps 8 i
crc_tab_lem i h =
    (==_iff (get_or crc_tab i 0) (bit_steps 8 i)).0
      (holds_below_at (λ i. get_or crc_tab i 0 == bit_steps 8 i) 256 i crc_tab_holds h)

-- A word is the exclusive or of its two parts.
pub xor_join : (k h l : ℕ) → l < 2 ^ k → bit_xor (h * 2 ^ k) l ≡ h * 2 ^ k + l
xor_join k h l below =
    ap₂ bit_xor {x = h * 2 ^ k} {y = h * 2 ^ k + 0} (omega arith) (bare l)
    ∙ bit_xor-split k h 0 0 l (pow_pos k) below
    ∙ ap₂ (λ s t. s * 2 ^ k + t) (bit_xor-zero h) (zero-bit_xor l)
  where
    bare : (l : ℕ) → l ≡ 0 * 2 ^ k + l
    bare l = omega arith

-- The step by the table divides out eight bits.
pub crc_step_lem : (c b : ℕ) → b < 2 ^ 8 → crc_step c b ≡ bit_steps 8 (bit_xor c b)
unfolding crc_step
crc_step_lem c b hb =
    ap (λ i. bit_xor (get_or crc_tab i 0) high) (bit_and-mask 8 x)
    ∙ ap (λ e. bit_xor e high) (crc_tab_lem low (mod-lt x (pow_pos 8)))
    ∙ bit_xor_comm (bit_steps 8 low) high
    ∙ ap (λ e. bit_xor e (bit_steps 8 low)) (sym (bit_steps_shift 8 high))
    ∙ sym (bit_steps-bit_xor 8 (high * 2 ^ 8) low)
    ∙ ap (bit_steps 8) (join ∙ sym parts)
  where
    x : ℕ
    x = bit_xor c b

    high : ℕ
    high = c / 2 ^ 8

    low : ℕ
    low = x % 2 ^ 8

    split : bit_xor c b ≡ high * 2 ^ 8 + bit_xor (c % 2 ^ 8) b
    split =
        ap₂ bit_xor {x = c} {y = c / 2 ^ 8 * 2 ^ 8 + c % 2 ^ 8} (omega arith) (omega arith)
        ∙ bit_xor-split 8 (c / 2 ^ 8) 0 (c % 2 ^ 8) b (mod-lt c (pow_pos 8)) hb
        ∙ ap (λ t. t * 2 ^ 8 + bit_xor (c % 2 ^ 8) b) (bit_xor-zero (c / 2 ^ 8))

    parts : bit_xor c b ≡ high * 2 ^ 8 + low
    parts = omega (arith, split, bit_xor-lt_pow 8 (c % 2 ^ 8) b (mod-lt c (pow_pos 8)) hb)

    join : bit_xor (high * 2 ^ 8) low ≡ high * 2 ^ 8 + low
    join = xor_join 8 high low (mod-lt x (pow_pos 8))

pub crc_loop_lem :
    (c : ℕ) (bytes : List ℕ) → All (λ b. b < 2 ^ 8) bytes → crc_loop c bytes ≡ bitwise_loop c bytes
unfolding crc_loop bitwise_loop
crc_loop_lem c [] all = refl
crc_loop_lem c (b ∷ bytes) all =
    ap (λ s. crc_loop s bytes) (crc_step_lem c b all.0)
    ∙ crc_loop_lem (bit_steps 8 (bit_xor c b)) bytes all.1

-- On bytes, csp_crc32_memory computes the CRC-32C: each byte is added to a register of ones, eight
-- bits are divided by the generator 0x1EDC6F41 (its bits reversed), and the result is inverted.
pub crc32_memory_lem :
    (bytes : List ℕ) → All (λ b. b < 2 ^ 8) bytes → crc32_memory bytes ≡ crc32c bytes
unfolding crc32_memory crc32c
crc32_memory_lem bytes all = ap (λ c. bit_xor c 0xffffffff) (crc_loop_lem 0xffffffff bytes all)
