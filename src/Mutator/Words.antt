-- ===== src/Mutator/Words.antt =====
-- The arithmetic of the mutation engine on 64-bit words: powers, slices, and the loops that load
-- an item from the buffer of ints and store it back.
use damat_tutorial.Prelude.{
  ℕ, zero, suc, ◌+◌, ◌-◌, ◌*◌, ◌/◌, ◌%◌, ◌^◌, ◌≤◌, ◌<◌, ◌≡◌, sym, ◌∙◌, ap, List, arith, bit_and,
  bit_or, ◌==◌, if◌then◌else◌, get_or, set,
}
use damat_tutorial.Prelude.Int.{ℤ, pos, negsuc}
use native.Mathlib.Nat.{mod-eq_of_lt, mod-lt, pow-suc, pow-le-pow_right, div-div-eq-div-mul}
use damat_tutorial.Prelude.Bits.{bit_and-pow, bit_or-pow_above, pow_pos, pow_add, mod-pow_suc}

-- the loop of FAQAS_pow_substitute, by the steps that are left
unfoldable pub pow_loop : ℕ → ℕ → ℕ → ℕ
pow_loop zero base result = result
pow_loop (suc steps) base result = pow_loop steps base (result * base % 2 ^ 64)

-- FAQAS_pow_substitute
unfoldable pub pow_substitute : ℕ → ℤ → ℕ
unfolding pow_loop
pow_substitute base (negsuc n) = 0
pow_substitute base (pos n) = pow_loop n base 1

-- The loop of _FAQAS_slice_it_up, by the bits that are left; `i` is the next bit.
unfoldable pub slice_loop : ℕ → ℕ → ℕ → ℕ → ℕ → ℕ
unfolding pow_substitute
slice_loop zero number start i slice = slice
slice_loop (suc n) number start i slice =
    let mask = pow_substitute 2 (pos i) in
    let relevant = bit_and number mask in
    let slice' =
      if relevant == mask then bit_or slice (pow_substitute 2 (pos (i - start))) else slice in
    slice_loop n number start (i + 1) slice'

-- _FAQAS_slice_it_up(number, start, end)
unfoldable pub slice_it_up : ℕ → ℕ → ℕ → ℕ
unfolding slice_loop
slice_it_up number start end = slice_loop (end + 1 - start) number start start 0

-- The loop that reads `span` ints from `data_pos` on into `intermediate`. An int of the buffer is
-- its bit pattern, below 2^32.
unfoldable pub load_loop : ℕ → List ℕ → ℕ → ℕ → ℕ
load_loop zero buffer i intermediate = intermediate
load_loop (suc n) buffer i intermediate =
    load_loop n buffer (i + 1) (bit_or (intermediate * 2 ^ 32 % 2 ^ 64) (get_or buffer i 0))

-- The loop that writes the slices of `number`; the ints left to write are also those below it.
unfoldable pub store_loop : ℕ → ℕ → List ℕ → ℕ → List ℕ
unfolding slice_it_up
store_loop zero number buffer i = buffer
store_loop (suc n) number buffer i =
    let slice = slice_it_up number (n * 32) ((n + 1) * 32 - 1) in
    store_loop n number (set buffer i (slice % 2 ^ 32)) (i + 1)

pow_loop_lem : (n k : ℕ) → k + n < 64 → pow_loop n 2 (2 ^ k) ≡ 2 ^ (k + n)
unfolding pow_loop
pow_loop_lem zero k h = ap (λ t. 2 ^ t) (omega arith)
pow_loop_lem (suc n) k h =
    ap (pow_loop n 2) (mod-eq_of_lt fits ∙ sym (pow-suc 2 k))
    ∙ pow_loop_lem n (suc k) (omega arith)
    ∙ ap (λ t. 2 ^ t) (omega arith)
  where
    fits : 2 ^ k * 2 < 2 ^ 64
    fits = omega (
      arith,
      pow-suc 2 k,
      pow-le-pow_right {n = 2} (omega arith) {i = suc k} {j = 63} (omega arith),
    )

-- On a bit of a 64-bit word, FAQAS_pow_substitute is the power of two.
pub pow_substitute_two : (i : ℕ) → i < 64 → pow_substitute 2 (pos i) ≡ 2 ^ i
unfolding pow_substitute
pow_substitute_two i h = pow_loop_lem i 0 (omega arith) ∙ ap (λ t. 2 ^ t) (omega arith)

choose_bit :
    (b high low joined bit : ℕ)
    → b < 2
    → 0 < high
    → joined ≡ low + bit
    → (if b * high == high then joined else low) ≡ low + b * bit
choose_bit zero high low joined bit hb hp e = ground arith
choose_bit (suc zero) high low joined bit hb hp e = ground arith
choose_bit (suc (suc b)) high low joined bit hb hp e = absurd (omega arith)

-- One round of the loop adds the next bit to the slice.
slice_bit :
    (number start j slice : ℕ)
    → start + j < 64
    → slice ≡ number / 2 ^ start % 2 ^ j
    → (if bit_and number (2 ^ (start + j)) == 2 ^ (start + j) then bit_or slice (2 ^ j) else slice)
      ≡ number / 2 ^ start % 2 ^ suc j
slice_bit number start j slice h e =
    rw (e, bit_and-pow (start + j) number, shifted, mod-pow_suc j (number / 2 ^ start))
      (choose_bit _ _ _ _ _ (mod-lt (number / 2 ^ start / 2 ^ j) (omega arith))
        (pow_pos (start + j)) (bit_or-pow_above j _ (mod-lt (number / 2 ^ start) (pow_pos j))))
  where
    shifted : number / 2 ^ (start + j) ≡ number / 2 ^ start / 2 ^ j
    shifted =
        ap (λ t. number / t) (pow_add start j) ∙ sym (div-div-eq-div-mul number (2 ^ start) (2 ^ j))

slice_loop_lem :
    (n number start i j slice : ℕ)
    → i ≡ start + j
    → i + n ≤ 64
    → slice ≡ number / 2 ^ start % 2 ^ j
    → slice_loop n number start i slice ≡ number / 2 ^ start % 2 ^ (j + n)
unfolding slice_loop
slice_loop_lem zero number start i j slice hi h e =
    e ∙ ap (λ t. number / 2 ^ start % 2 ^ t) (omega arith)
slice_loop_lem (suc n) number start i j slice hi h e =
    rw
      (
        hi,
        pow_substitute_two (start + j) (omega arith),
        position,
        pow_substitute_two j (omega arith),
      )
      (slice_loop_lem n number start (start + j + 1) (suc j) _ (omega arith) (omega arith)
          (slice_bit number start j slice (omega arith) e)
        ∙ ap (λ t. number / 2 ^ start % 2 ^ t) (omega arith))
  where
    position : start + j - start ≡ j
    position = omega arith

-- For a slice of a 64-bit word, _FAQAS_slice_it_up gives the bits from `start` to `end`, both
-- included, as a number of their own.
pub slice_it_up_lem :
    (number start end : ℕ)
    → start ≤ end
    → end < 64
    → slice_it_up number start end ≡ number / 2 ^ start % 2 ^ (end + 1 - start)
unfolding slice_it_up
slice_it_up_lem number start end h l =
    slice_loop_lem (end + 1 - start) number start start 0 0 (omega arith) (omega arith)
      (omega arith)
    ∙ ap (λ t. number / 2 ^ start % 2 ^ t) (omega arith)
