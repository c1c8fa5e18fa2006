-- ===== src/Mutator/FlipBit.antt =====
-- BF with one bit to set, as every flag of the fault models has it.
use native.Mathlib.Nat.{mod-lt, div-add-mod}
use damat_tutorial.Prelude.{
  ℕ, zero, suc, ◌+◌, ◌*◌, ◌/◌, ◌%◌, ◌^◌, ◌<◌, ◌≡◌, ◌≢◌, ◌⊎◌, inl, inr, refl, sym, ap, ◌∙◌, false,
  arith, bit_or, lt→ltb, ==_iff, ◌==◌, if◌then◌else◌,
}
use mathlib.Core.Path.{ap₂}
use native.Mathlib.Decide.{dec_lt}
use damat_tutorial.Prelude.Int.{pos, ◌+ℤ◌, ◌-ℤ◌}
use damat_tutorial.Prelude.Bits.{bit_or_step, bit_or-zero, bit_or-split, pow_pos}
use damat_tutorial.Mutator.{MutationOperator}
use damat_tutorial.Mutator.Operators.{draw, int_of, modulus, wrap}
use damat_tutorial.Mutator.Words.{pow_substitute, pow_substitute_two}
use damat_tutorial.Mutator.Flip.{flip_try, flip_tries, flip_loop, bit_flip}

bit_or-one : (m : ℕ) → bit_or m 1 ≡ m / 2 * 2 + 1
bit_or-one m = omega (arith, bit_or_step m 1, bit_or-zero (m / 2))

-- `x | (1 << k)` for any x
bit_or-pow : (k x : ℕ) → bit_or x (2 ^ k) + x / 2 ^ k % 2 * 2 ^ k ≡ x + 2 ^ k
bit_or-pow k x =
    ap (λ t. t + x / 2 ^ k % 2 * 2 ^ k)
      (ap₂ bit_or whole one
        ∙ bit_or-split k (x / 2 ^ k) 1 (x % 2 ^ k) 0 (mod-lt x (pow_pos k)) (pow_pos k))
    ∙ omega (
      arith,
      whole,
      bit_or-zero (x % 2 ^ k),
      ap (λ (t : ℕ). t * 2 ^ k) (bit_or-one (x / 2 ^ k)),
      ap (λ (t : ℕ). t * 2 ^ k) (div-add-mod (x / 2 ^ k) 2),
    )
  where
    whole : x ≡ x / 2 ^ k * 2 ^ k + x % 2 ^ k
    whole = omega (arith, div-add-mod x (2 ^ k))

    one : 2 ^ k ≡ 1 * 2 ^ k + 0
    one = omega arith

-- The operator sets bit k, and no other.
pub record SetsBit (op : MutationOperator) (k : ℕ) : Type 0 where
  pub min : op.min ≡ pos k
  pub max : op.max ≡ pos k
  pub state : op.state ≡ pos 0
  pub value : op.value ≡ pos 1

draw_single : (k r : ℕ) → k < 64 → draw (int_of (pos k)) (int_of (pos k)) r ≡ pos k
unfolding draw modulus
draw_single k r h = rw (same, one) (rw (rest) small)
  where
    same : int_of (pos k) ≡ pos k
    same = rw (lt→ltb k (2 ^ 31) (omega arith)) refl

    none_left : (pos k -ℤ pos k) ≡ pos 0
    none_left = ground arith

    one : modulus (pos k) (pos k) ≡ pos 1
    one = rw none_left refl

    rest : r % 1 ≡ 0
    rest = omega arith

    small : wrap (pos 0 +ℤ pos k) ≡ pos k
    small = ground arith

try_lem :
    (op : MutationOperator) (k value r : ℕ)
    → k < 64
    → SetsBit op k
    → flip_try (int_of op.state) value (pow_substitute 2 (draw (int_of op.max) (int_of op.min) r))
      ≡ bit_or value (2 ^ k)
unfolding flip_try
try_lem op k value r h s = rw (s.max, s.min, s.state, draw_single k r h, pow_substitute_two k h)

tries_in_vain :
    (tries : ℕ) (op : MutationOperator) (k value : ℕ) (rand : ℕ → ℕ) (n : ℕ)
    → k < 64
    → SetsBit op k
    → bit_or value (2 ^ k) ≡ value
    → let out = flip_tries tries op value rand n in (out.0 ≡ value) × (out.2 ≡ 0)
unfolding flip_tries
tries_in_vain zero op k value rand n h s e = (refl, refl)
tries_in_vain (suc zero) op k value rand n h s e = (try_lem op k value (rand n) h s ∙ e, refl)
tries_in_vain (suc (suc tries)) op k value rand n h s e =
    rw ((==_iff _ value).1 (try_lem op k value (rand n) h s ∙ e))
      (tries_in_vain (suc tries) op k value rand (n + 1) h s e)

first_try :
    (tries : ℕ) (op : MutationOperator) (k value : ℕ) (rand : ℕ → ℕ) (n : ℕ)
    → k < 64
    → SetsBit op k
    → bit_or value (2 ^ k) ≢ value
    → let out = flip_tries (suc (suc tries)) op value rand n in
      (out.0 ≡ bit_or value (2 ^ k)) × (out.2 ≡ 1)
unfolding flip_tries
first_try tries op k value rand n h s ne =
    rw (differs _ value (λ e. ne (sym (try_lem op k value (rand n) h s) ∙ e)))
      (try_lem op k value (rand n) h s, refl)
  where
    differs : (a b : ℕ) → a ≢ b → (a == b) ≡ false
    differs a b d = ground arith

one_bit :
    (op : MutationOperator) (rand : ℕ → ℕ) (value out status : ℕ)
    → op.value ≡ pos 1
    → (flip_tries 10 op value rand 0).0 ≡ out
    → (flip_tries 10 op value rand 0).2 ≡ status
    → bit_flip op rand value ≡ (out, if status == 0 then 0 else 1)
unfolding bit_flip flip_loop
one_bit op rand value out status e eo es = simp e (rw (eo, es))

-- For an operator that sets bit k of a 64-bit word, whatever rand() returns: if bit k of the value is clear, BF sets it,
-- changes no other bit and reports success; if it is set, BF leaves the value and reports failure.
pub bit_flip_lem :
    (op : MutationOperator) (k value : ℕ) (rand : ℕ → ℕ)
    → k < 64
    → SetsBit op k
    → ((value / 2 ^ k % 2 ≡ 0) × (bit_flip op rand value ≡ (value + 2 ^ k, 1)))
      ⊎ ((value / 2 ^ k % 2 ≡ 1) × (bit_flip op rand value ≡ (value, 0)))
bit_flip_lem op k value rand h s = elim (dec_lt (value / 2 ^ k % 2) 1) [
  | yes clear ↦
      let flipped =
        first_try 8 op k value rand 0 h s
          (λ e. omega (arith, bit_or-pow k value, pow_pos k, no_bit (omega arith))) in
      inl (
        omega arith,
        one_bit op rand value _ 1 s.value
            (flipped.0 ∙ omega (arith, bit_or-pow k value, no_bit (omega arith))) flipped.1,
      )
  | no set ↦
      let vain =
        tries_in_vain 10 op k value rand 0 h s
          (omega (arith, bit_or-pow k value, a_bit (omega arith))) in
      inr (omega arith, one_bit op rand value _ 0 s.value vain.0 vain.1)
]
  where
    no_bit : value / 2 ^ k % 2 ≡ 0 → value / 2 ^ k % 2 * 2 ^ k ≡ 0
    no_bit e = rw e (omega arith)

    a_bit : value / 2 ^ k % 2 ≡ 1 → value / 2 ^ k % 2 * 2 ^ k ≡ 2 ^ k
    a_bit e = rw e (omega arith)
