-- ===== src/Mutator/Flip.antt =====
-- BF of _FAQAS_mutate, which flips random bits of `valueBin`. The draws are of a range whose modulus is
-- not 0; _FAQAS_mutate faults before it flips in any other.
use damat_tutorial.Prelude.{ℕ, zero, suc, ◌+◌, ◌-◌, ◌*◌, ◌^◌, if◌then◌else◌, ◌==◌, bit_and, bit_or}
use damat_tutorial.Prelude.Int.{ℤ, pos, pos_part}
use damat_tutorial.Mutator.{MutationOperator}
use damat_tutorial.Mutator.Operators.{draw, eq_ℤ, int_of}
use damat_tutorial.Mutator.Words.{pow_substitute}

-- `value & ~mask` on 64 bits
abbrev clear_bits : ℕ → ℕ → ℕ
clear_bits value mask = bit_and value (2 ^ 64 - 1 - mask)

-- One try, for each value of `state`: 0 sets the bit, 1 clears it, any other turns it over.
unfoldable pub flip_try : ℤ → ℕ → ℕ → ℕ
flip_try state value mask =
    if eq_ℤ state (pos 0)
    then bit_or value mask
    else (if eq_ℤ state (pos 1)
        then clear_bits value mask
        else (if clear_bits value mask == value then bit_or value mask else clear_bits value mask))

-- `while (flipped == valueBin)`, by the tries that are left; it also gives the calls of rand() made
-- so far, and whether the tries lasted.
unfoldable pub flip_tries : ℕ → MutationOperator → ℕ → (ℕ → ℕ) → ℕ → ℕ × ℕ × ℕ
flip_tries zero op value rand k = (value, k, 0)
flip_tries (suc tries) op value rand k =
    let flipped =
      flip_try (int_of op.state) value
        (pow_substitute 2 (draw (int_of op.max) (int_of op.min) (rand k))) in
    let rest = flip_tries tries op value rand (k + 1) in
    elim tries [
      | zero ↦ (flipped, k + 1, 0)
      | suc _ ↦ if flipped == value then rest else (flipped, k + 1, 1)
    ]

-- The loop over the bits to change, `numberOfBits * 10` tries for each.
unfoldable pub flip_loop : ℕ → ℕ → MutationOperator → ℕ → (ℕ → ℕ) → ℕ → ℕ → ℕ × ℕ
flip_loop zero tries op value rand k success = (value, success)
flip_loop (suc bits) tries op value rand k success =
    let (flipped, k', done) = flip_tries tries op value rand k in
    flip_loop bits tries op flipped rand k' (if done == 0 then 0 else success)

unfoldable pub bit_flip : MutationOperator → (ℕ → ℕ) → ℕ → ℕ × ℕ
bit_flip op rand value =
    let bits = pos_part (int_of op.value) in flip_loop bits (bits * 10) op value rand 0 1
