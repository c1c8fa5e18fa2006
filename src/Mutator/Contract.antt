-- ===== src/Mutator/Contract.antt =====
-- The draws of the operators INV and FVOR of _FAQAS_mutate on an item of type INT.
use native.Mathlib.Nat.{mod-lt}
use native.Mathlib.Decide.{dec_lt}
use damat_tutorial.Prelude.{
  lt→ltb, ◌∙◌, ◌-◌, ◌%◌, ◌^◌, sym, ap, ℕ, zero, suc, ◌+◌, ◌≤◌, ◌<◌, ◌≡◌, ◌≢◌, ◌⊎◌, inl, inr, refl,
  true, false, some, arith, Bool-cases,
}
use damat_tutorial.Prelude.Int.{
  ℤ, pos, negsuc, ◌≤ℤ◌, ◌<ℤ◌, ◌-ℤ◌, ◌+ℤ◌, pos_part, ltb_ℤ, int_laws, eq_of_parts,
}
use damat_tutorial.Mutator.{MutationOperator}
use damat_tutorial.Mutator.Operators.{
  eq_ℤ, int_min, int_of, wrap, modulus, draw, draw_loop, max_tries, random_value,
}

abbrev pub InRange : MutationOperator → ℤ → Type 0
InRange op v = (op.min ≤ℤ v) × (v ≤ℤ op.max)

-- A range of ints, of at least two values and fewer than 2^31, so that `upper - lower + 1` is an int.
pub record IntRange (lower upper : ℤ) : Type 0 where
  pub lower_int : int_min ≤ℤ lower
  pub upper_int : upper <ℤ pos (2 ^ 31)
  pub some_room : lower <ℤ upper
  pub few : upper -ℤ lower <ℤ pos (2 ^ 31 - 1)

int_of_lem : (n : ℤ) → int_min ≤ℤ n → n <ℤ pos (2 ^ 31) → int_of n ≡ n
int_of_lem (pos n) low high = rw (lt→ltb n (2 ^ 31) (omega arith)) refl
int_of_lem (negsuc n) low high = rw (lt→ltb n (2 ^ 31) (omega arith)) refl

wrap_lem : (n : ℤ) → int_min ≤ℤ n → n <ℤ pos (2 ^ 31) → wrap n ≡ n
wrap_lem (pos n) low high = ground arith
wrap_lem (negsuc n) low high = ground arith

modulus_lem :
    (lower upper : ℤ)
    → IntRange lower upper
    → modulus upper lower ≡ pos (pos_part (upper -ℤ lower) + 1)
unfolding modulus
modulus_lem lower upper r =
    ap (λ n. wrap (n +ℤ pos 1)) (wrap_lem (upper -ℤ lower) (grind int_laws) (grind int_laws))
    ∙ wrap_lem ((upper -ℤ lower) +ℤ pos 1) (grind int_laws) (grind int_laws)
    ∙ eq_of_parts _ _ (grind int_laws)

pub eq_ℤ→eq : (a b : ℤ) → eq_ℤ a b ≡ true → a ≡ b
eq_ℤ→eq (pos a) (pos b) h = ground arith
eq_ℤ→eq (negsuc a) (negsuc b) h = ground arith
eq_ℤ→eq (pos a) (negsuc b) h = cc
eq_ℤ→eq (negsuc a) (pos b) h = cc

pub eq_ℤ→ne : (a b : ℤ) → eq_ℤ a b ≡ false → a ≢ b
eq_ℤ→ne (pos a) (pos b) h e = ground arith
eq_ℤ→ne (negsuc a) (negsuc b) h e = ground arith
eq_ℤ→ne (pos a) (negsuc b) h e = cc
eq_ℤ→ne (negsuc a) (pos b) h e = cc

draw_bounds :
    (upper lower : ℤ) (r : ℕ)
    → IntRange lower upper
    → (lower ≤ℤ draw upper lower r) × (draw upper lower r ≤ℤ upper)
unfolding draw
draw_bounds upper lower r h =
    rw (modulus_lem lower upper h, wrap_lem drawn (grind int_laws) (grind int_laws))
      (grind int_laws, grind int_laws)
  where
    m : ℕ
    m = pos_part (upper -ℤ lower) + 1

    below : r % m < m
    below = mod-lt r {m = m} (omega arith)

    drawn : ℤ
    drawn = pos (r % m) +ℤ lower

-- What the tries of a random operator end with.
record Drawn (value upper lower : ℤ) (rand : ℕ → ℕ) (k tries : ℕ) (out : ℤ × ℕ) : Type 0 where
  low : lower ≤ℤ out.0
  high : out.0 ≤ℤ upper
  status :
      ((out.1 ≡ 1) × (out.0 ≢ value))
      ⊎ ((out.1 ≡ 0) × ((j : ℕ) → k ≤ j → j + 1 < k + tries → draw upper lower (rand j) ≡ value))

Drawn-next :
    (value upper lower : ℤ) (rand : ℕ → ℕ) (k tries : ℕ) (out : ℤ × ℕ)
    → draw upper lower (rand k) ≡ value
    → Drawn value upper lower rand (k + 1) tries out
    → Drawn value upper lower rand k (suc tries) out
Drawn-next value upper lower rand k tries out e d = record {
  low = d.low;
  high = d.high;
  status = elim d.status [
    | inl moved ↦ inl moved
    | inr (failed, all) ↦ inr (
      failed,
      λ j from to. elim (dec_lt k j) [
        | yes later ↦ all j (omega arith) (omega arith)
        | no here ↦ let now : k ≡ j = omega arith in rw (← now) e
      ],
    )
  ];
}

draw_loop-Drawn :
    (tries : ℕ) (value upper lower : ℤ) (rand : ℕ → ℕ) (k : ℕ)
    → IntRange lower upper
    → Drawn value upper lower rand k (suc tries) (draw_loop (suc tries) value upper lower rand k)
unfolding draw_loop
draw_loop-Drawn zero value upper lower rand k h = record {
  low = (draw_bounds upper lower (rand k) h).0;
  high = (draw_bounds upper lower (rand k) h).1;
  status = inr (refl, λ j from to. absurd (omega arith));
}
draw_loop-Drawn (suc tries) value upper lower rand k h =
    elim (Bool-cases (eq_ℤ value (draw upper lower (rand k)))) [
      | inl same ↦ rw same (
          Drawn-next value upper lower rand k (suc tries) _ (sym (eq_ℤ→eq _ _ same))
            (draw_loop-Drawn tries value upper lower rand (k + 1) h))
      | inr differs ↦ rw differs (record {
        low = (draw_bounds upper lower (rand k) h).0;
        high = (draw_bounds upper lower (rand k) h).1;
        status = inl (refl, λ e. eq_ℤ→ne _ _ differs (sym e));
      })
    ]

lt→eq_ℤ : (a b : ℤ) → a <ℤ b → eq_ℤ b a ≡ false
lt→eq_ℤ (pos a) (pos b) h = ground arith
lt→eq_ℤ (negsuc a) (negsuc b) h = ground arith
lt→eq_ℤ (pos a) (negsuc b) h = refl
lt→eq_ℤ (negsuc a) (pos b) h = refl

lt→ltb_ℤ : (a b : ℤ) → a <ℤ b → ltb_ℤ b a ≡ false
lt→ltb_ℤ a b h = ground arith

-- On a range of ints from min to max that has at least two values and fewer than 2^31, INV and FVOR
-- end with a value of the range, whatever rand() returns. Either the status is 1 and the value is
-- another than before; or the status is 0, and each of the first 999 draws was the value itself.
pub random_value_contract :
    (op : MutationOperator) (rand : ℕ → ℕ) (v : ℤ)
    → IntRange op.min op.max
    → (v' : ℤ) × (status : ℕ) × (random_value op rand v ≡ some (v', some status))
      × InRange op v'
      × (((status ≡ 1) × (v' ≢ v))
          ⊎ ((status ≡ 0) × ((j : ℕ) → j < 999 → draw op.max op.min (rand j) ≡ v)))
unfolding random_value
random_value_contract op rand v h = (
  _,
  _,
  rw
      (
        int_of_lem op.max (omega arith) h.upper_int,
        int_of_lem op.min h.lower_int (omega arith),
        lt→eq_ℤ op.min op.max h.some_room,
        lt→ltb_ℤ op.min op.max h.some_room,
        modulus_lem op.min op.max h,
        positive (pos_part (op.max -ℤ op.min)),
      )
      refl,
  (loop.low, loop.high),
  elim loop.status [
    | inl moved ↦ inl moved
    | inr (failed, all) ↦ inr (failed, λ j below. all j (omega arith) (omega arith))
  ],
)
  where
    loop : Drawn v op.max op.min rand 0 max_tries (draw_loop max_tries v op.max op.min rand 0)
    loop = draw_loop-Drawn 999 v op.max op.min rand 0 h

    positive : (m : ℕ) → eq_ℤ (pos (m + 1)) (pos 0) ≡ false
    positive m = ground arith
