-- ===== src/Mutator/Frame.antt =====
-- What a call of _FAQAS_mutate can change while a mutation of the fault model is selected: one
-- int of the buffer of the probe.
use damat_tutorial.Prelude.{
  ap, ℕ, ◌+◌, ◌%◌, ◌^◌, ◌<◌, ◌≡◌, inl, inr, refl, ◌∙◌, true, false, Bool, not, ◌&&◌, ◌||◌, arith,
  Option, none, some, List, set, ltb, ◌==◌, Option-cases, holds_below, holds_below_at,
}
use damat_tutorial.Prelude.Int.{ℤ, pos, negsuc, ◌≤ℤ◌, ◌<ℤ◌, ltb_ℤ}
use damat_tutorial.Mutator.Operators.{eq_ℤ, modulus}
use damat_tutorial.Mutator.{DataType, MutationType, MutationOperator, DataItem, FaultModel, Globals}
use damat_tutorial.Mutator.Models.{read_fm, send_fm, select_item, select_operator, select_operation}
use damat_tutorial.Mutator.Mutate.{
  Outcome, mutate, mutate_selected, mutate_item, selection, mutate_bin, store_item, Values,
  mutate_fm_read, mutate_fm_send, store_int, store_bin,
}
use damat_tutorial.Mutator.Counted.{
  Counted, Ends, divides_by_zero, store_one, mutate_int-Ends, flip-Ends,
}

-- The item is one that the function mutates and stores: an int, or the bits of a BF.
unfoldable mutable : DataType → MutationType → Bool
mutable DataType.int kind = true
mutable DataType.bin MutationType.bf = true
mutable _ _ = false

-- A test of a selection: the item lies in the buffer of the probe, is one int long and mutable, with no
-- division by 0.
unfoldable supported : Option (ℕ × DataItem × MutationOperator) → Bool
supported none = false
supported (some (i, item, op)) =
    ltb i 7 && (item.span == 1 && (mutable item.kind op.kind && not (divides_by_zero op.kind op)))

-- One int of the buffer is overwritten, and the mutation is counted.
pub record Applied (buffer : List ℕ) (g : Globals) (i : ℕ) (out : Outcome) : Type 0 where
  pub value : ℕ
  pub word : value < 2 ^ 32
  pub stored : out.0 ≡ set buffer i value
  pub counted : out.1.counter ≡ g.counter + 1
  pub answer : out.2 ≡ 1

store_item-Applied :
    (number i : ℕ) (buffer : List ℕ) (g g' : Globals)
    → Counted g g'
    → Applied buffer g i (store_item 1 number i buffer g')
unfolding store_item
store_item-Applied number i buffer g g' c = rw (c.mutated) (record {
  value = number % 2 ^ 32;
  word = omega arith;
  stored = store_one number i buffer;
  counted = omega (arith, c.counter);
  answer = refl;
})

mutate_bin-Ends :
    (kind : MutationType) (op : MutationOperator) (rand : ℕ → ℕ) (vals : Values) (g : Globals)
    → mutable DataType.bin kind ≡ true
    → divides_by_zero kind op ≡ false
    → Ends g (mutate_bin kind op rand vals g)
unfolding mutate_bin mutable modulus
mutate_bin-Ends MutationType.bf op rand vals g ok fine = flip-Ends op rand vals g fine
mutate_bin-Ends _ op rand vals g ok fine = cc

mutate_item-Applied :
    (kind : DataType) (span : ℕ) (op : MutationOperator) (opt : ℤ) (rand : ℕ → ℕ) (i : ℕ)
    (buffer : List ℕ) (g : Globals)
    → span ≡ 1
    → mutable kind op.kind ≡ true
    → divides_by_zero op.kind op ≡ false
    → (out : Outcome) × (mutate_item kind span op opt rand i buffer g ≡ some out)
      × Applied buffer g i out
unfolding mutate_item mutable
mutate_item-Applied DataType.int span op opt rand i buffer g one ok fine =
    let (vals, g', ends, counted) = mutate_int-Ends op.kind op opt rand _ g fine in
    rw one (_, ap (store_int 1 i buffer) ends, store_item-Applied _ i buffer g g' counted)
mutate_item-Applied DataType.bin span op opt rand i buffer g one ok fine =
    let (vals, g', ends, counted) = mutate_bin-Ends op.kind op rand _ g ok fine in
    rw one (_, ap (store_bin 1 i buffer) ends, store_item-Applied _ i buffer g g' counted)
mutate_item-Applied DataType.float span op opt rand i buffer g one ok fine = cc
mutate_item-Applied DataType.double span op opt rand i buffer g one ok fine = cc
mutate_item-Applied DataType.long span op opt rand i buffer g one ok fine = cc

-- What a mutation does with a buffer.
pub record Mutated (buffer : List ℕ) (g : Globals) (out : Outcome) : Type 0 where
  pub item : ℕ
  pub in_buffer : item < 7
  pub chosen : select_item g.mutation ≡ pos item
  pub applied : Applied buffer g item out

selection-item :
    (fm : FaultModel) (m : ℤ) (i : ℕ) (item : DataItem) (op : MutationOperator)
    → selection fm m ≡ some (i, item, op)
    → select_item m ≡ pos i
unfolding selection
selection-item fm m i item op e = ground arith

mutate_selected-Mutated :
    (rand : ℕ → ℕ) (fm : FaultModel) (buffer : List ℕ) (g : Globals)
    → supported (selection fm g.mutation) ≡ true
    → (out : Outcome) × (mutate_selected rand fm buffer g ≡ some out) × Mutated buffer g out
unfolding mutate_selected supported
mutate_selected-Mutated rand fm buffer g ok = elim (Option-cases (selection fm g.mutation)) [
  | inl nothing ↦ let bad : false ≡ true = rw nothing at ok in cc
  | inr ((i, item, op), found) ↦
      let fits : (ltb i 7
            && (item.span == 1 && (mutable item.kind op.kind && not (divides_by_zero op.kind op))))
          ≡ true =
        rw found at ok in
      let (out, done, applied) =
        mutate_item-Applied item.kind item.span op (select_operation g.mutation) rand i buffer g
          (ground arith) (ground arith) (ground arith) in
      (
        out,
        rw found done,
        record {
          item = i;
          in_buffer = ground arith;
          chosen = selection-item fm g.mutation i item op found;
          applied = applied;
        },
      )
]

mutate_active :
    (rand : ℕ → ℕ) (fm : FaultModel) (buffer : List ℕ) (g : Globals) (n : ℕ)
    → g.mutation ≡ pos n
    → fm.min_operation ≤ℤ pos n
    → pos n <ℤ fm.max_operation
    → mutate rand fm buffer g ≡ mutate_selected rand fm buffer g
unfolding mutate
mutate_active rand fm buffer g n e low high = rw (positive 0, positive 1, positive 2, inside) refl
  where
    positive : (k : ℕ) → eq_ℤ g.mutation (negsuc k) ≡ false
    positive k = rw e refl

    inside : (ltb_ℤ g.mutation fm.min_operation || not (ltb_ℤ g.mutation fm.max_operation)) ≡ false
    inside = rw e (ground arith)

abbrev read_test : MutationOperator → DataItem → ℕ → Bool
read_test junk junk_item n = supported (selection (read_fm junk junk_item) (pos n))

abbrev send_test : MutationOperator → DataItem → ℕ → Bool
send_test junk junk_item n = supported (selection (send_fm junk junk_item) (pos (20 + n)))

read_supported :
    (junk : MutationOperator) (junk_item : DataItem)
    → holds_below (read_test junk junk_item) 20 ≡ true
unfolding supported mutable modulus selection select_item select_operator read_fm
read_supported junk junk_item = refl

send_supported :
    (junk : MutationOperator) (junk_item : DataItem)
    → holds_below (send_test junk junk_item) 23 ≡ true
unfolding supported mutable modulus selection select_item select_operator send_fm
send_supported junk junk_item = refl

-- For each MUTATION from 0 to 19, a call of mutate_FM_Read ends with a result, whatever rand()
-- returns and malloc left: it overwrites the selected int of the buffer, one of the seven, with a
-- 32-bit word, keeps all others, and adds 1 to the counter of mutations; its call of
-- _FAQAS_mutate returns 1.
pub mutate_fm_read-Mutated :
    (junk : MutationOperator) (junk_item : DataItem) (rand : ℕ → ℕ) (buffer : List ℕ) (g : Globals)
    (n : ℕ)
    → g.mutation ≡ pos n
    → n < 20
    → (out : Outcome) × (mutate_fm_read junk junk_item rand buffer g ≡ some out)
      × Mutated buffer g out
unfolding mutate_fm_read
mutate_fm_read-Mutated junk junk_item rand buffer g n e h =
    let low : (read_fm junk junk_item).min_operation ≤ℤ pos n = unfold read_fm in omega arith in
    let high : pos n <ℤ (read_fm junk junk_item).max_operation = unfold read_fm in omega arith in
    let (out, done, m) =
      mutate_selected-Mutated rand (read_fm junk junk_item) buffer g
        (rw e (holds_below_at (read_test junk junk_item) 20 n (read_supported junk junk_item) h)) in
    (out, mutate_active rand (read_fm junk junk_item) buffer g n e low high ∙ done, m)

-- For each MUTATION from 20 to 42, a call of mutate_FM_Send ends with a result, whatever rand()
-- returns and malloc left: it overwrites the selected int of the buffer, one of the seven, with a
-- 32-bit word, keeps all others, and adds 1 to the counter of mutations; its call of
-- _FAQAS_mutate returns 1.
pub mutate_fm_send-Mutated :
    (junk : MutationOperator) (junk_item : DataItem) (rand : ℕ → ℕ) (buffer : List ℕ) (g : Globals)
    (n : ℕ)
    → g.mutation ≡ pos (20 + n)
    → n < 23
    → (out : Outcome) × (mutate_fm_send junk junk_item rand buffer g ≡ some out)
      × Mutated buffer g out
unfolding mutate_fm_send
mutate_fm_send-Mutated junk junk_item rand buffer g n e h =
    let low : (send_fm junk junk_item).min_operation ≤ℤ pos (20 + n) =
      unfold send_fm in omega arith in
    let high : pos (20 + n) <ℤ (send_fm junk junk_item).max_operation =
      unfold send_fm in omega arith in
    let (out, done, m) =
      mutate_selected-Mutated rand (send_fm junk junk_item) buffer g
        (rw e (holds_below_at (send_test junk junk_item) 23 n (send_supported junk junk_item) h)) in
    (out, mutate_active rand (send_fm junk junk_item) buffer g (20 + n) e low high ∙ done, m)
