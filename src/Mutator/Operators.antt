-- ===== src/Mutator/Operators.antt =====
-- The operators of _FAQAS_mutate on an item of type INT: the new value of `valueInt`, and the
-- status that is written to the coverage file, if one is. `rand k` is what the k-th call of rand()
-- returns after the srand() of this mutation. The doubles of an operator are whole numbers, as all
-- those of the two fault models are, and their sums and tests are exact. A double that is assigned to
-- an int outside the range of int becomes INT_MIN, as on x86, and int arithmetic wraps around; C leaves
-- both undefined. A division by 0 is `none`.
use damat_tutorial.Prelude.{
  ℕ, zero, suc, ◌+◌, ◌-◌, ◌%◌, ◌^◌, Bool, false, not, ◌&&◌, Option, none, some, if◌then◌else◌, ltb,
  ◌==◌,
}
use damat_tutorial.Prelude.Int.{ℤ, pos, negsuc, ◌+ℤ◌, ◌-ℤ◌, ◌*ℤ◌, ltb_ℤ}
use damat_tutorial.Mutator.{MutationOperator}

-- an int of 32 bits as the number that it stands for, and back
abbrev pub signed32 : ℕ → ℤ
signed32 w = if ltb w (2 ^ 31) then pos w else negsuc (2 ^ 32 - w - 1)

abbrev pub pattern32 : ℤ → ℕ
pattern32 (pos n) = n % 2 ^ 32
pattern32 (negsuc n) = 2 ^ 32 - 1 - n % 2 ^ 32

-- The result of int arithmetic, and a whole double as an int
abbrev pub wrap : ℤ → ℤ
wrap n = signed32 (pattern32 n)

abbrev pub int_min : ℤ
int_min = negsuc (2 ^ 31 - 1)

abbrev pub int_of : ℤ → ℤ
int_of (pos n) = if ltb n (2 ^ 31) then pos n else int_min
int_of (negsuc n) = if ltb n (2 ^ 31) then negsuc n else int_min

abbrev pub leb_ℤ : ℤ → ℤ → Bool
leb_ℤ a b = not (ltb_ℤ b a)

abbrev pub eq_ℤ : ℤ → ℤ → Bool
eq_ℤ (pos a) (pos b) = a == b
eq_ℤ (negsuc a) (negsuc b) = a == b
eq_ℤ _ _ = false

-- the tries of a random operator, `avoidInfinite`
abbrev pub max_tries : ℕ
max_tries = 1000

-- `upper - lower + 1`, and `(rand() % (upper - lower + 1)) + lower` where that is not 0; the remainder
-- of a number that is not negative has the sign of no modulus.
unfoldable pub modulus : ℤ → ℤ → ℤ
unfolding ◌+ℤ◌ ◌-ℤ◌
modulus upper lower = wrap (wrap (upper -ℤ lower) +ℤ pos 1)

abbrev pub magnitude : ℤ → ℕ
magnitude (pos n) = n
magnitude (negsuc n) = suc n

unfoldable pub draw : ℤ → ℤ → ℕ → ℤ
unfolding ◌+ℤ◌ modulus
draw upper lower r = wrap (pos (r % magnitude (modulus upper lower)) +ℤ lower)

-- `while (valueInt == randomNum)` of INV and FVOR, by the tries that are left; the last one ends
-- the loop with failure, whatever it drew.
unfoldable pub draw_loop : ℕ → ℤ → ℤ → ℤ → (ℕ → ℕ) → ℕ → ℤ × ℕ
draw_loop zero value upper lower rand k = (value, 0)
draw_loop (suc tries) value upper lower rand k =
    let drawn = draw upper lower (rand k) in
    let rest = draw_loop tries value upper lower rand (k + 1) in
    elim tries [ zero ↦ (drawn, 0) | suc _ ↦ if eq_ℤ value drawn then rest else (drawn, 1) ]

-- INV, and FVOR, whose code is the same
unfoldable pub random_value : MutationOperator → (ℕ → ℕ) → ℤ → Option (ℤ × Option ℕ)
unfolding modulus
random_value op rand v =
    let upper = int_of op.max in
    let lower = int_of op.min in
    let (drawn, success) = draw_loop max_tries v upper lower rand 0 in
    if eq_ℤ upper lower
    then some (upper, some 1)
    else (if ltb_ℤ upper lower
        then some (v, some 0)
        else (if eq_ℤ (modulus upper lower) (pos 0) then none else some (drawn, some success)))

unfoldable pub value_out_of_range : MutationOperator → ℤ → ℤ → ℤ × Option ℕ
unfolding ◌+ℤ◌ ◌-ℤ◌
value_out_of_range op opt v =
    if leb_ℤ op.min v && leb_ℤ v op.max
    then (if eq_ℤ opt (pos 0)
        then (int_of (op.min -ℤ op.delta), some 1)
        else (if eq_ℤ opt (pos 1) then (int_of (op.max +ℤ op.delta), some 1) else (v, none)))
    else (v, some 0)

-- VAT
unfoldable pub value_above_threshold : MutationOperator → ℤ → ℤ × Option ℕ
unfolding ◌+ℤ◌
value_above_threshold op v =
    if leb_ℤ v op.threshold then (int_of (op.threshold +ℤ op.delta), some 1) else (v, some 0)

-- FVAT
unfoldable pub fix_value_above_threshold : MutationOperator → ℤ → ℤ × Option ℕ
unfolding ◌-ℤ◌
fix_value_above_threshold op v =
    if ltb_ℤ op.threshold v then (int_of (op.threshold -ℤ op.delta), some 1) else (v, some 0)

-- VBT
unfoldable pub value_below_threshold : MutationOperator → ℤ → ℤ × Option ℕ
unfolding ◌-ℤ◌
value_below_threshold op v =
    if leb_ℤ op.threshold v then (int_of (op.threshold -ℤ op.delta), some 1) else (v, some 0)

-- FVBT
unfoldable pub fix_value_below_threshold : MutationOperator → ℤ → ℤ × Option ℕ
unfolding ◌+ℤ◌
fix_value_below_threshold op v =
    if ltb_ℤ v op.threshold then (int_of (op.threshold +ℤ op.delta), some 1) else (v, some 0)

-- IV
unfoldable pub illegal_value : MutationOperator → ℤ → ℤ × Option ℕ
illegal_value op v = if eq_ℤ v op.value then (v, some 0) else (int_of op.value, some 1)

-- SS
unfoldable pub signal_shift : MutationOperator → ℤ → ℤ × Option ℕ
unfolding ◌+ℤ◌
signal_shift op v = (wrap (v +ℤ int_of op.delta), some 1)

-- ASA. The second test reads the value that the first has changed.
unfoldable pub amplify : MutationOperator → ℤ → ℤ × Option ℕ
unfolding ◌+ℤ◌ ◌-ℤ◌ ◌*ℤ◌
amplify op v =
    let tr = int_of op.threshold in
    let de = int_of op.delta in
    let va = int_of op.value in
    let v' = if leb_ℤ tr v then wrap (tr +ℤ (v -ℤ tr) *ℤ va +ℤ de) else v in
    (if ltb_ℤ v' tr then wrap (tr -ℤ (v' -ℤ tr) *ℤ va +ℤ de) else v', some 1)
