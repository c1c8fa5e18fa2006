-- ===== src/Crc/Register.antt =====
-- The register of the checksum of csp_crc32.c: a step, and a number of steps, lose no information.
use mathlib.Core.Path.{ap₂}
use damat_tutorial.Prelude.{
  ℕ, zero, suc, ◌+◌, ◌*◌, ◌/◌, ◌%◌, ◌^◌, ◌<◌, ◌≤◌, ◌≡◌, ◌∙◌, refl, ap, sym, arith, List, [], ◌∷◌,
  ◌++◌, All, ◌==◌, bit_xor, inl, inr, Bool-cases,
}
use damat_tutorial.Prelude.Xor.{
  zero-bit_xor, bit_xor-zero, bit_xor_comm, bit_xor_assoc, bit_xor_cancel, bit_xor-split,
  bit_xor-lt_pow,
}
use damat_tutorial.Crc.Bitwise.{
  generator, bit_step, bit_steps, bit_steps-bit_xor, bit_steps_shift, bitwise_loop, xor_join,
}

-- The generator reaches the top bit, so that a step tells whether it has subtracted it.
odd_step : (c : ℕ) → c < 2 ^ 32 → 2 ^ 31 ≤ bit_xor (c / 2) generator
odd_step c h =
    let top : bit_xor (c / 2) generator ≡ bit_xor 0 1 * 2 ^ 31 + bit_xor (c / 2) 0x2f63b78 =
      ap₂ bit_xor {x = c / 2} {y = 0 * 2 ^ 31 + c / 2} (omega arith) refl
      ∙ bit_xor-split 31 0 1 (c / 2) 0x2f63b78 (omega arith) (omega arith) in
    omega (arith, top, zero-bit_xor 1)

bit_step-lt : (c : ℕ) → c < 2 ^ 32 → bit_step c < 2 ^ 32
unfolding bit_step
bit_step-lt c h = ground (arith, bit_xor-lt_pow 32 (c / 2) generator (omega arith) (omega arith))

bit_step_injective : (a b : ℕ) → a < 2 ^ 32 → b < 2 ^ 32 → bit_step a ≡ bit_step b → a ≡ b
unfolding bit_step
bit_step_injective a b ha hb e = elim (Bool-cases (a % 2 == 1)) [
  | inl odd_a ↦ elim (Bool-cases (b % 2 == 1)) [
    | inl odd_b ↦
        let same : bit_xor (a / 2) generator ≡ bit_xor (b / 2) generator = rw (odd_a, odd_b) at e in
        ground (arith, bit_xor_cancel (a / 2) (b / 2) generator same)
    | inr even_b ↦
        let same : bit_xor (a / 2) generator ≡ b / 2 = rw (odd_a, even_b) at e in
        absurd (omega (arith, odd_step a ha, same))
  ]
  | inr even_a ↦ elim (Bool-cases (b % 2 == 1)) [
    | inl odd_b ↦
        let same : a / 2 ≡ bit_xor (b / 2) generator = rw (even_a, odd_b) at e in
        absurd (omega (arith, odd_step b hb, same))
    | inr even_b ↦ let same : a / 2 ≡ b / 2 = rw (even_a, even_b) at e in ground arith
  ]
]

pub bit_steps_injective :
    (n a b : ℕ) → a < 2 ^ 32 → b < 2 ^ 32 → bit_steps n a ≡ bit_steps n b → a ≡ b
unfolding bit_steps
bit_steps_injective zero a b ha hb e = e
bit_steps_injective (suc n) a b ha hb e =
    bit_step_injective a b ha hb
      (bit_steps_injective n (bit_step a) (bit_step b) (bit_step-lt a ha) (bit_step-lt b hb) e)

bit_steps-lt : (n c : ℕ) → c < 2 ^ 32 → bit_steps n c < 2 ^ 32
unfolding bit_steps
bit_steps-lt zero c h = h
bit_steps-lt (suc n) c h = bit_steps-lt n (bit_step c) (bit_step-lt c h)

-- The number that bytes stand for, the first the least.
abbrev pub le_value : List ℕ → ℕ
le_value [] = 0
le_value (b ∷ bytes) = le_value bytes * 2 ^ 8 + b

abbrev pub bits : List ℕ → ℕ
bits [] = 0
bits (b ∷ bytes) = 8 + bits bytes

bit_steps-add : (m n c : ℕ) → bit_steps (m + n) c ≡ bit_steps n (bit_steps m c)
unfolding bit_steps
bit_steps-add zero n c = ap (λ k. bit_steps k c) {x = 0 + n} {y = n} (omega arith)
bit_steps-add (suc m) n c =
    ap (λ k. bit_steps k c) {x = suc m + n} {y = suc (m + n)} (omega arith)
    ∙ bit_steps-add m n (bit_step c)

-- The register behind some bytes: they are added as one number, and all their bits divided out.
pub bitwise_loop_lem :
    (c : ℕ) (bytes : List ℕ)
    → All (λ b. b < 2 ^ 8) bytes
    → bitwise_loop c bytes ≡ bit_steps (bits bytes) (bit_xor c (le_value bytes))
unfolding bitwise_loop
bitwise_loop_lem c [] all = sym (bit_xor-zero c)
bitwise_loop_lem c (b ∷ bytes) all =
    bitwise_loop_lem (bit_steps 8 (bit_xor c b)) bytes all.1
    ∙ ap (λ x. bit_steps (bits bytes) (bit_xor (bit_steps 8 (bit_xor c b)) x))
        (sym (bit_steps_shift 8 (le_value bytes)))
    ∙ ap (bit_steps (bits bytes)) (sym (bit_steps-bit_xor 8 (bit_xor c b) (le_value bytes * 2 ^ 8)))
    ∙ sym (bit_steps-add 8 (bits bytes) (bit_xor (bit_xor c b) (le_value bytes * 2 ^ 8)))
    ∙ ap (bit_steps (bits (b ∷ bytes))) (
        bit_xor_assoc c b (le_value bytes * 2 ^ 8)
        ∙ ap (bit_xor c)
            (bit_xor_comm b (le_value bytes * 2 ^ 8) ∙ xor_join 8 (le_value bytes) b all.0))

pub bitwise_loop-append :
    (c : ℕ) (xs ys : List ℕ) → bitwise_loop c (xs ++ ys) ≡ bitwise_loop (bitwise_loop c xs) ys
unfolding bitwise_loop
bitwise_loop-append c [] ys = refl
bitwise_loop-append c (x ∷ xs) ys = bitwise_loop-append (bit_steps 8 (bit_xor c x)) xs ys

register-lt : (c b : ℕ) → c < 2 ^ 32 → b < 2 ^ 8 → bit_steps 8 (bit_xor c b) < 2 ^ 32
register-lt c b hc hb = bit_steps-lt 8 (bit_xor c b) (bit_xor-lt_pow 32 c b hc (omega arith))

pub bitwise_loop-lt :
    (c : ℕ) (bytes : List ℕ)
    → c < 2 ^ 32
    → All (λ b. b < 2 ^ 8) bytes
    → bitwise_loop c bytes < 2 ^ 32
unfolding bitwise_loop
bitwise_loop-lt c [] h all = h
bitwise_loop-lt c (b ∷ bytes) h all =
    bitwise_loop-lt (bit_steps 8 (bit_xor c b)) bytes (register-lt c b h all.0) all.1

-- Registers that differ stay different.
pub bitwise_loop_injective :
    (c d : ℕ) (bytes : List ℕ)
    → c < 2 ^ 32
    → d < 2 ^ 32
    → All (λ b. b < 2 ^ 8) bytes
    → bitwise_loop c bytes ≡ bitwise_loop d bytes
    → c ≡ d
unfolding bitwise_loop
bitwise_loop_injective c d [] hc hd all e = e
bitwise_loop_injective c d (b ∷ bytes) hc hd all e = bit_xor_cancel c d b (
    bit_steps_injective 8 (bit_xor c b) (bit_xor d b) (bit_xor-lt_pow 32 c b hc (omega arith))
      (bit_xor-lt_pow 32 d b hd (omega arith))
      (bitwise_loop_injective (bit_steps 8 (bit_xor c b)) (bit_steps 8 (bit_xor d b)) bytes
        (register-lt c b hc all.0) (register-lt d b hd all.0) all.1 e))
