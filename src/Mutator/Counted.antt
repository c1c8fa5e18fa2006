-- ===== src/Mutator/Counted.antt =====
-- What a mutation of one item does to the global variables, for every operator.
use damat_tutorial.Prelude.{
  Bool, true, false, ◌&&◌, if◌then◌else◌, ℕ, ◌%◌, ◌^◌, ◌≡◌, refl, ap, ◌∙◌, arith, Option, none,
  some, List, set,
}
use damat_tutorial.Prelude.Int.{ℤ, pos, ltb_ℤ}
use damat_tutorial.Mutator.Operators.{
  eq_ℤ, int_of, modulus, draw_loop, max_tries, random_value, value_out_of_range,
  value_above_threshold, fix_value_above_threshold, value_below_threshold,
  fix_value_below_threshold, illegal_value, signal_shift, amplify,
}
use damat_tutorial.Mutator.{MutationType, MutationOperator, Globals, operator_coverage}
use damat_tutorial.Mutator.Words.{store_loop, slice_it_up_lem}
use damat_tutorial.Mutator.Mutate.{mutate_int, flip, hold_int, on_int, on_random, log, mark, Values}
use damat_tutorial.Mutator.Flip.{bit_flip}

-- An int item of one int is stored as one int, the low 32 bits of the number.
pub store_one :
    (number i : ℕ) (buffer : List ℕ) → store_loop 1 number buffer i ≡ set buffer i (number % 2 ^ 32)
unfolding store_loop
store_one number i buffer =
    ap (set buffer i)
      (ap (λ t. t % 2 ^ 32) (slice_it_up_lem number 0 31 (omega arith) (omega arith)) ∙ omega arith)

-- What a mutation leaves of the globals.
pub record Counted (g g' : Globals) : Type 0 where
  pub mutated : g'.mutated ≡ 1
  pub counter : g'.counter ≡ g.counter

log-counter : (status : Option ℕ) (g : Globals) → (log status g).counter ≡ g.counter
unfolding operator_coverage
log-counter none g = refl
log-counter (some s) g = refl

on_int-Counted :
    (out : ℤ × Option ℕ) (vals : Values) (g : Globals) → Counted g (on_int out vals g).1
on_int-Counted (v, status) vals g = record { mutated = refl; counter = log-counter status g }

hold_int-Counted :
    (op : MutationOperator) (vals : Values) (g : Globals) → Counted g (hold_int op vals g).1
unfolding hold_int operator_coverage
hold_int-Counted op vals g = record { mutated = refl; counter = ground arith }

-- The draws of an operator are of a range whose modulus is not 0.
abbrev pub draws : MutationType → Bool
draws MutationType.inv = true
draws MutationType.fvor = true
draws MutationType.bf = true
draws _ = false

abbrev pub divides_by_zero : MutationType → MutationOperator → Bool
unfolding modulus
divides_by_zero kind op = draws kind && eq_ℤ (modulus (int_of op.max) (int_of op.min)) (pos 0)

-- A block ends with a value, and leaves that of the globals.
abbrev pub Ends : Globals → Option (Values × Globals) → Type 0
Ends g o = (vals : Values) × (g' : Globals) × (o ≡ some (vals, g')) × Counted g g'

pub flip-Ends :
    (op : MutationOperator) (rand : ℕ → ℕ) (vals : Values) (g : Globals)
    → eq_ℤ (modulus (int_of op.max) (int_of op.min)) (pos 0) ≡ false
    → Ends g (flip op rand vals g)
unfolding flip operator_coverage
flip-Ends op rand vals g fine = (
  record vals { bin_value = (bit_flip op rand vals.bin_value).0 },
  mark (operator_coverage (bit_flip op rand vals.bin_value).1 g),
  rw (fine, and_false (ltb_ℤ (pos 0) (int_of op.value))) refl,
  record { mutated = refl; counter = refl },
)
  where
    and_false : (b : Bool) → (b && false) ≡ false
    and_false true = refl
    and_false false = refl

on_random-Ends :
    (op : MutationOperator) (rand : ℕ → ℕ) (vals : Values) (g : Globals)
    → eq_ℤ (modulus (int_of op.max) (int_of op.min)) (pos 0) ≡ false
    → Ends g (on_random (random_value op rand vals.int_value) vals g)
unfolding random_value
on_random-Ends op rand vals g fine =
    by_tests (eq_ℤ (int_of op.max) (int_of op.min)) (ltb_ℤ (int_of op.max) (int_of op.min))
      (eq_ℤ (modulus (int_of op.max) (int_of op.min)) (pos 0)) fine
  where
    loop : ℤ × ℕ
    loop = draw_loop max_tries vals.int_value (int_of op.max) (int_of op.min) rand 0

    by_tests :
        (single empty zero_modulus : Bool)
        → zero_modulus ≡ false
        → Ends g (
            on_random
              (if single
                then some (int_of op.max, some 1)
                else (if empty
                    then some (vals.int_value, some 0)
                    else (if zero_modulus then none else some (loop.0, some loop.1))))
              vals
              g)
    by_tests true empty zero_modulus e = (_, _, refl, on_int-Counted (int_of op.max, some 1) vals g)
    by_tests false true zero_modulus e =
        (_, _, refl, on_int-Counted (vals.int_value, some 0) vals g)
    by_tests false false true e = cc
    by_tests false false false e = (_, _, refl, on_int-Counted (loop.0, some loop.1) vals g)

on_int-Ends : (out : ℤ × Option ℕ) (vals : Values) (g : Globals) → Ends g (some (on_int out vals g))
on_int-Ends out vals g = (_, _, refl, on_int-Counted out vals g)

pub mutate_int-Ends :
    (kind : MutationType) (op : MutationOperator) (opt : ℤ) (rand : ℕ → ℕ) (vals : Values)
    (g : Globals)
    → divides_by_zero kind op ≡ false
    → Ends g (mutate_int kind op opt rand vals g)
unfolding mutate_int modulus
mutate_int-Ends MutationType.hv op opt rand vals g fine = (_, _, refl, hold_int-Counted op vals g)
mutate_int-Ends MutationType.bf op opt rand vals g fine = flip-Ends op rand vals g fine
mutate_int-Ends MutationType.fvor op opt rand vals g fine = on_random-Ends op rand vals g fine
mutate_int-Ends MutationType.inv op opt rand vals g fine = on_random-Ends op rand vals g fine
mutate_int-Ends MutationType.vor op opt rand vals g fine =
    on_int-Ends (value_out_of_range op opt vals.int_value) vals g
mutate_int-Ends MutationType.vat op opt rand vals g fine =
    on_int-Ends (value_above_threshold op vals.int_value) vals g
mutate_int-Ends MutationType.fvat op opt rand vals g fine =
    on_int-Ends (fix_value_above_threshold op vals.int_value) vals g
mutate_int-Ends MutationType.vbt op opt rand vals g fine =
    on_int-Ends (value_below_threshold op vals.int_value) vals g
mutate_int-Ends MutationType.fvbt op opt rand vals g fine =
    on_int-Ends (fix_value_below_threshold op vals.int_value) vals g
mutate_int-Ends MutationType.iv op opt rand vals g fine =
    on_int-Ends (illegal_value op vals.int_value) vals g
mutate_int-Ends MutationType.ss op opt rand vals g fine =
    on_int-Ends (signal_shift op vals.int_value) vals g
mutate_int-Ends MutationType.asa op opt rand vals g fine =
    on_int-Ends (amplify op vals.int_value) vals g
