-- ===== src/Mutator/Mutate.antt =====
-- _FAQAS_mutate: the guards on MUTATION, the load of the selected item from the buffer, the
-- operator, and the store. It covers the items of type INT and BIN, which are all that the fault
-- models hold; `none` is an item of another type, an index out of range, or a division by 0. The
-- build defines neither _FAQAS_SINGLE_MUTATION nor _FAQAS_MUTATION_PROBABILITY.
use damat_tutorial.Prelude.{
  ℕ, ◌+◌, ◌%◌, ◌^◌, not, ◌&&◌, ◌||◌, Option, none, some, List, [], ◌∷◌, ◌++◌, if◌then◌else◌, ◌==◌,
  get_elem?,
}
use damat_tutorial.Prelude.Int.{ℤ, pos, negsuc, ltb_ℤ, ◌-ℤ◌}
use damat_tutorial.Mutator.{
  DataType, MutationType, MutationOperator, DataItem, FaultModel, Coverage, Globals,
  operator_coverage,
}
use damat_tutorial.Mutator.Words.{load_loop, store_loop}
use damat_tutorial.Mutator.Models.{read_fm, send_fm, select_item, select_operator, select_operation}
use damat_tutorial.Mutator.Operators.{
  eq_ℤ, signed32, pattern32, int_of, modulus, random_value, value_out_of_range,
  value_above_threshold, fix_value_above_threshold, value_below_threshold,
  fix_value_below_threshold, illegal_value, signal_shift, amplify,
}
use damat_tutorial.Mutator.Flip.{bit_flip}

-- valueInt and valueBin
pub record Values : Type 0 where
  pub int_value : ℤ
  pub bin_value : ℕ

-- `_FAQAS_mutated = 1`
abbrev pub mark : Globals → Globals
mark g = record g { mutated = 1 }

abbrev pub log : Option ℕ → Globals → Globals
log none g = g
log (some status) g = operator_coverage status g

-- An operator of Operators.antt on valueInt.
abbrev pub on_int : ℤ × Option ℕ → Values → Globals → Values × Globals
on_int (v, status) vals g = (record vals { int_value = v }, mark (log status g))

abbrev pub on_random : Option (ℤ × Option ℕ) → Values → Globals → Option (Values × Globals)
on_random none vals g = none
on_random (some out) vals g = some (on_int out vals g)

-- HV: sample the value, repeat the stored one, and sample again once the count is used up.
unfoldable pub hold_int : MutationOperator → Values → Globals → Values × Globals
unfolding ◌-ℤ◌
hold_int op vals g =
    let g1 =
      if g.sample == 1
      then record g { stored_int = vals.int_value; sample = 0; repeat_counter = int_of op.value }
      else g in
    let repeat = ltb_ℤ (pos 0) g1.repeat_counter in
    let vals' = if repeat then record vals { int_value = g1.stored_int } else vals in
    let g2 = if repeat then record g1 { repeat_counter = g1.repeat_counter -ℤ pos 1 } else g1 in
    let g3 = if eq_ℤ g2.repeat_counter (pos 0) then record g2 { sample = 1 } else g2 in
    (vals', operator_coverage 1 (mark g3))

unfoldable pub hold_bin : MutationOperator → Values → Globals → Values × Globals
unfolding ◌-ℤ◌
hold_bin op vals g =
    let g1 =
      if g.sample == 1
      then record g { stored_bin = vals.bin_value; sample = 0; repeat_counter = int_of op.value }
      else g in
    let repeat = ltb_ℤ (pos 0) g1.repeat_counter in
    let vals' = if repeat then record vals { bin_value = g1.stored_bin } else vals in
    let g2 = if repeat then record g1 { repeat_counter = g1.repeat_counter -ℤ pos 1 } else g1 in
    let g3 = if eq_ℤ g2.repeat_counter (pos 0) then record g2 { sample = 1 } else g2 in
    (vals', operator_coverage 1 (mark g3))

-- BF works on valueBin, whatever the type of the item. It draws if there is a bit to change.
unfoldable pub flip : MutationOperator → (ℕ → ℕ) → Values → Globals → Option (Values × Globals)
unfolding modulus
flip op rand vals g =
    let (flipped, success) = bit_flip op rand vals.bin_value in
    if ltb_ℤ (pos 0) (int_of op.value) && eq_ℤ (modulus (int_of op.max) (int_of op.min)) (pos 0)
    then none
    else some (record vals { bin_value = flipped }, mark (operator_coverage success g))

-- The `if (OP->type == …)` blocks on an item of type INT.
unfoldable pub mutate_int :
    MutationType → MutationOperator → ℤ → (ℕ → ℕ) → Values → Globals → Option (Values × Globals)
mutate_int MutationType.hv op opt rand vals g = some (hold_int op vals g)
mutate_int MutationType.bf op opt rand vals g = flip op rand vals g
mutate_int MutationType.vor op opt rand vals g =
    some (on_int (value_out_of_range op opt vals.int_value) vals g)
mutate_int MutationType.fvor op opt rand vals g =
    on_random (random_value op rand vals.int_value) vals g
mutate_int MutationType.inv op opt rand vals g =
    on_random (random_value op rand vals.int_value) vals g
mutate_int MutationType.vat op opt rand vals g =
    some (on_int (value_above_threshold op vals.int_value) vals g)
mutate_int MutationType.fvat op opt rand vals g =
    some (on_int (fix_value_above_threshold op vals.int_value) vals g)
mutate_int MutationType.vbt op opt rand vals g =
    some (on_int (value_below_threshold op vals.int_value) vals g)
mutate_int MutationType.fvbt op opt rand vals g =
    some (on_int (fix_value_below_threshold op vals.int_value) vals g)
mutate_int MutationType.iv op opt rand vals g =
    some (on_int (illegal_value op vals.int_value) vals g)
mutate_int MutationType.ss op opt rand vals g =
    some (on_int (signal_shift op vals.int_value) vals g)
mutate_int MutationType.asa op opt rand vals g = some (on_int (amplify op vals.int_value) vals g)

-- The same blocks on an item of type BIN, which only HV and BF change: VOR and the thresholds do
-- nothing, and ASA writes its line but sets no mark.
unfoldable pub mutate_bin :
    MutationType → MutationOperator → (ℕ → ℕ) → Values → Globals → Option (Values × Globals)
mutate_bin MutationType.hv op rand vals g = some (hold_bin op vals g)
mutate_bin MutationType.bf op rand vals g = flip op rand vals g
mutate_bin MutationType.fvor op rand vals g = some (vals, mark (operator_coverage 1 g))
mutate_bin MutationType.inv op rand vals g = some (vals, mark (operator_coverage 1 g))
mutate_bin MutationType.iv op rand vals g = some (vals, mark (operator_coverage 0 g))
mutate_bin MutationType.ss op rand vals g = some (vals, mark (operator_coverage 1 g))
mutate_bin MutationType.asa op rand vals g = some (vals, operator_coverage 1 g)
mutate_bin MutationType.vor op rand vals g = some (vals, g)
mutate_bin MutationType.vat op rand vals g = some (vals, g)
mutate_bin MutationType.fvat op rand vals g = some (vals, g)
mutate_bin MutationType.vbt op rand vals g = some (vals, g)
mutate_bin MutationType.fvbt op rand vals g = some (vals, g)

-- What the function leaves: the buffer, the globals, and the int that it returns.
abbrev pub Outcome : Type 0
Outcome = List ℕ × Globals × ℕ

-- the store, and the end of the function
unfoldable pub store_item : ℕ → ℕ → ℕ → List ℕ → Globals → Outcome
store_item span number i buffer g =
    if g.mutated == 1
    then (store_loop span number buffer i, record g { counter = g.counter + 1 }, g.mutated)
    else (buffer, g, 0)

abbrev pub store_int : ℕ → ℕ → List ℕ → Option (Values × Globals) → Option Outcome
store_int span i buffer none = none
store_int span i buffer (some (vals, g)) =
    some (store_item span (pattern32 vals.int_value) i buffer g)

abbrev pub store_bin : ℕ → ℕ → List ℕ → Option (Values × Globals) → Option Outcome
store_bin span i buffer none = none
store_bin span i buffer (some (vals, g)) = some (store_item span vals.bin_value i buffer g)

-- Load, mutate and store the item at `i`, with the operator `op`.
unfoldable pub mutate_item :
    DataType → ℕ → MutationOperator → ℤ → (ℕ → ℕ) → ℕ → List ℕ → Globals → Option Outcome
mutate_item DataType.int span op opt rand i buffer g =
    let loaded = signed32 (load_loop span buffer i 0 % 2 ^ 32) in
    store_int span i buffer
      (mutate_int op.kind op opt rand (record { int_value = loaded; bin_value = 0 }) g)
mutate_item DataType.bin span op opt rand i buffer g =
    let loaded = load_loop span buffer i 0 in
    store_bin span i buffer
      (mutate_bin op.kind op rand (record { int_value = pos 0; bin_value = loaded }) g)
mutate_item _ span op opt rand i buffer g = none

abbrev pub index : ℤ → Option ℕ
index (pos n) = some n
index (negsuc n) = none

infixl 5 ◌>>=◌
abbrev ◌>>=◌ : {A B : Type 0} → Option A → (A → Option B) → Option B
none >>= f = none
some a >>= f = f a

-- What the three tables choose for MUTATION: the index of the item, the item, and the operator.
unfoldable pub selection : FaultModel → ℤ → Option (ℕ × DataItem × MutationOperator)
selection fm mutation = do
  i ← index (select_item mutation)
  o ← index (select_operator mutation)
  item ← get_elem? fm.items i
  op ← get_elem? item.operators o
  some (i, item, op)

-- The function behind its guards.
unfoldable pub mutate_selected : (ℕ → ℕ) → FaultModel → List ℕ → Globals → Option Outcome
mutate_selected rand fm buffer g = do
  (i, item, op) ← selection fm g.mutation
  mutate_item item.kind item.span op (select_operation g.mutation) rand i buffer g

-- _FAQAS_fmCoverage
abbrev pub fm_coverage : ℕ → Globals → Globals
fm_coverage id g = if id == 0 || id == 1 then record g { fm_cov = g.fm_cov + 1 } else g

-- _FAQAS_mutate
unfoldable pub mutate : (ℕ → ℕ) → FaultModel → List ℕ → Globals → Option Outcome
mutate rand fm buffer g =
    if eq_ℤ g.mutation (negsuc 0)
    then some (buffer, g, 0)
    else (if eq_ℤ g.mutation (negsuc 1)
        then (let g' = fm_coverage fm.id g in
            some
              (buffer, record g' { coverage = g'.coverage ++ Coverage.model_line fm.id ∷ [] }, 0))
        else (if eq_ℤ g.mutation (negsuc 2)
            then some (buffer, fm_coverage fm.id g, 0)
            else (if ltb_ℤ g.mutation fm.min_operation || not (ltb_ℤ g.mutation fm.max_operation)
                then some (buffer, operator_coverage 0 g, 0)
                else mutate_selected rand fm buffer g)))

-- mutate_FM_Read and mutate_FM_Send, which are void: the int is what their call of _FAQAS_mutate
-- returned. In the singleton build the fault model is kept.
unfoldable pub mutate_fm_read :
    MutationOperator → DataItem → (ℕ → ℕ) → List ℕ → Globals → Option Outcome
mutate_fm_read junk junk_item rand = mutate rand (read_fm junk junk_item)

unfoldable pub mutate_fm_send :
    MutationOperator → DataItem → (ℕ → ℕ) → List ℕ → Globals → Option Outcome
mutate_fm_send junk junk_item rand = mutate rand (send_fm junk junk_item)
