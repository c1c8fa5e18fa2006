-- ===== src/Crc/Burst.antt =====
-- What the checksum of csp_crc32.c detects: a burst of errors within four bytes.
use mathlib.Core.Path.{ap₂}
use damat_tutorial.Prelude.{
  ℕ, ◌^◌, ◌<◌, ◌≤◌, ◌≡◌, ◌≢◌, ◌∙◌, refl, ap, sym, arith, List, [], ◌∷◌, ◌++◌, All, bit_xor, length,
  All-append,
}
use damat_tutorial.Prelude.Xor.{bit_xor_comm, bit_xor_cancel, bit_xor-lt_pow}
use damat_tutorial.Crc.{crc32_memory}
use damat_tutorial.Crc.Bitwise.{bit_steps, bitwise_loop, crc32c, crc32_memory_lem}
use damat_tutorial.Crc.Register.{
  bit_steps_injective, le_value, bits, bitwise_loop_lem, bitwise_loop-append, bitwise_loop-lt,
  bitwise_loop_injective,
}

le_value_injective :
    (w w' : List ℕ)
    → length w ≡ length w'
    → All (λ b. b < 2 ^ 8) w
    → All (λ b. b < 2 ^ 8) w'
    → le_value w ≡ le_value w'
    → w ≡ w'
le_value_injective [] [] same all all' e = refl
le_value_injective [] (x ∷ w') same all all' e = absurd (omega arith)
le_value_injective (x ∷ w) [] same all all' e = absurd (omega arith)
le_value_injective (x ∷ w) (y ∷ w') same all all' e =
    ap₂ (λ b bs. b ∷ bs) (omega (arith, all.0, all'.0))
      (le_value_injective w w' (omega arith) all.1 all'.1 (omega (arith, all.0, all'.0)))

le_value-lt : (w : List ℕ) → length w ≤ 4 → All (λ b. b < 2 ^ 8) w → le_value w < 2 ^ 32
le_value-lt [] h all = omega arith
le_value-lt (a ∷ []) h all = omega (arith, all.0)
le_value-lt (a ∷ b ∷ []) h all = omega (arith, all.0, all.1.0)
le_value-lt (a ∷ b ∷ c ∷ []) h all = omega (arith, all.0, all.1.0, all.1.1.0)
le_value-lt (a ∷ b ∷ c ∷ d ∷ []) h all = omega (arith, all.0, all.1.0, all.1.1.0, all.1.1.1.0)
le_value-lt (a ∷ b ∷ c ∷ d ∷ e ∷ w) h all = absurd (omega arith)

bits-eq : (w w' : List ℕ) → length w ≡ length w' → bits w ≡ bits w'
bits-eq [] [] e = refl
bits-eq [] (x ∷ w') e = absurd (omega arith)
bits-eq (x ∷ w) [] e = absurd (omega arith)
bits-eq (x ∷ w) (y ∷ w') e = omega (arith, bits-eq w w' (omega arith))

-- A register tells apart two strings of at most four bytes.
burst_injective :
    (c : ℕ) (w w' : List ℕ)
    → c < 2 ^ 32
    → length w ≤ 4
    → length w ≡ length w'
    → All (λ b. b < 2 ^ 8) w
    → All (λ b. b < 2 ^ 8) w'
    → bitwise_loop c w ≡ bitwise_loop c w'
    → w ≡ w'
burst_injective c w w' hc short same all all' e =
    let small = le_value-lt w short all in
    let small' = le_value-lt w' (omega arith) all' in
    let shifted : bit_steps (bits w) (bit_xor c (le_value w))
        ≡ bit_steps (bits w) (bit_xor c (le_value w')) =
      sym (bitwise_loop_lem c w all)
      ∙ e
      ∙ bitwise_loop_lem c w' all'
      ∙ ap (λ n. bit_steps n (bit_xor c (le_value w'))) (sym (bits-eq w w' same)) in
    let words : bit_xor c (le_value w) ≡ bit_xor c (le_value w') =
      bit_steps_injective (bits w) (bit_xor c (le_value w)) (bit_xor c (le_value w'))
        (bit_xor-lt_pow 32 c (le_value w) hc small) (bit_xor-lt_pow 32 c (le_value w') hc small')
        shifted in
    le_value_injective w w' same all all' (
      bit_xor_cancel (le_value w) (le_value w') c
        (bit_xor_comm (le_value w) c ∙ words ∙ bit_xor_comm c (le_value w')))

-- A burst of errors within four bytes changes the checksum: strings of bytes that differ only in
-- at most four bytes in a row have different values of csp_crc32_memory.
pub crc32_memory_burst :
    (before w w' after : List ℕ)
    → All (λ b. b < 2 ^ 8) before
    → All (λ b. b < 2 ^ 8) w
    → All (λ b. b < 2 ^ 8) w'
    → All (λ b. b < 2 ^ 8) after
    → length w ≤ 4
    → length w ≡ length w'
    → w ≢ w'
    → crc32_memory (before ++ (w ++ after)) ≢ crc32_memory (before ++ (w' ++ after))
unfolding crc32c
crc32_memory_burst before w w' after hb hw hw' ha short same differ e =
    differ (burst_injective start w w' start-lt short same hw hw' registers)
  where
    start : ℕ
    start = bitwise_loop 0xffffffff before

    start-lt : start < 2 ^ 32
    start-lt = bitwise_loop-lt 0xffffffff before (omega arith) hb

    parts :
        (v : List ℕ)
        → bitwise_loop 0xffffffff (before ++ (v ++ after))
          ≡ bitwise_loop (bitwise_loop start v) after
    parts v = bitwise_loop-append 0xffffffff before (v ++ after) ∙ bitwise_loop-append start v after

    registers : bitwise_loop start w ≡ bitwise_loop start w'
    registers =
        bitwise_loop_injective (bitwise_loop start w) (bitwise_loop start w') after
          (bitwise_loop-lt start w start-lt hw) (bitwise_loop-lt start w' start-lt hw') ha
          (sym (parts w)
            ∙ bit_xor_cancel (bitwise_loop 0xffffffff (before ++ (w ++ after)))
                (bitwise_loop 0xffffffff (before ++ (w' ++ after))) 0xffffffff
                (sym (
                    crc32_memory_lem (before ++ (w ++ after))
                      (All-append _ before (w ++ after) hb (All-append _ w after hw ha)))
                  ∙ e
                  ∙ crc32_memory_lem (before ++ (w' ++ after))
                      (All-append _ before (w' ++ after) hb (All-append _ w' after hw' ha)))
            ∙ parts w')
