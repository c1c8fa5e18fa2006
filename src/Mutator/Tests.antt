-- ===== src/Mutator/Tests.antt =====
-- Runs of FAQAS_dataDrivenMutator.h, and its theorems at concrete inputs.
use damat_tutorial.Prelude.{
  ℕ, ◌+◌, ◌*◌, ◌/◌, ◌%◌, ◌-◌, ◌^◌, ◌<◌, ◌≡◌, ◌≢◌, ◌⊎◌, inl, refl, none, some, List, [], ◌∷◌, arith,
  map,
}
use damat_tutorial.Prelude.Int.{ℤ, pos, negsuc, ◌-ℤ◌}
use damat_tutorial.Mutator.{
  MutationType, DataType, MutationOperator, DataItem, Globals, Coverage, operator_coverage,
}
use damat_tutorial.Mutator.Words.{slice_loop, load_loop, store_loop, pow_substitute}
use damat_tutorial.Mutator.Models.{read_fm, send_fm, select_item, select_operator, select_operation}
use damat_tutorial.Mutator.Operators.{
  int_min, modulus, draw, draw_loop, random_value, value_above_threshold,
}
use damat_tutorial.Mutator.Flip.{bit_flip, flip_loop, flip_tries, flip_try}
use damat_tutorial.Mutator.Mutate.{
  Outcome, mutate, mutate_selected, selection, mutate_item, mutate_int, mutate_bin, store_item,
  flip, mutate_fm_read, mutate_fm_send,
}
use damat_tutorial.Mutator.Tables.{
  selected, csv_read, csv_send, mutations, count_from, read_fm-refines-csv, send_fm-refines-csv,
}
use damat_tutorial.Mutator.Contract.{InRange, IntRange, random_value_contract}
use damat_tutorial.Mutator.FlipBit.{SetsBit, bit_flip_lem}
use damat_tutorial.Mutator.Inactive.{Idle, mutate_inactive}
use damat_tutorial.Mutator.Frame.{Mutated, mutate_fm_read-Mutated, mutate_fm_send-Mutated}

abbrev junk : MutationOperator
junk = record {
  kind = MutationType.hv;
  min = pos 7;
  max = negsuc 4;
  threshold = pos 9;
  delta = pos 1;
  state = pos 3;
  value = pos 2;
}

abbrev junk_item : DataItem
junk_item = record { kind = DataType.float; span = 9; operators_n = 0; operators = [] }

abbrev start : ℤ → Globals
start m = record {
  mutation = m;
  mutated = 0;
  counter = 1;
  fm_cov = 0;
  coverage = [];
  stored_int = pos 0;
  stored_bin = 0;
  repeat_counter = pos 0;
  sample = 1;
}

-- priority 2, source 3, destination 5, ports 10 and 17, flags 1
abbrev buffer : List ℕ
buffer = 0 ∷ 2 ∷ 3 ∷ 5 ∷ 10 ∷ 17 ∷ 1 ∷ []

abbrev rand : ℕ → ℕ
rand k = 1000 + 7 * k

-- The range of all ints: its number of values is 0 as an int, and INV divides by it.
all_ints : random_value (record junk { min = int_min; max = pos (2 ^ 31 - 1) }) rand (pos 10) ≡ none
unfolding random_value modulus
all_ints = refl

-- 3 and a delta of 2^31 - 1 are no int: VAT stores INT_MIN.
no_int :
    value_above_threshold (record junk { threshold = pos 3; delta = pos (2 ^ 31 - 1) }) (pos 2)
    ≡ (int_min, some 1)
unfolding value_above_threshold
no_int = refl

-- MUTATION 1 puts the source address past the threshold 31.
source_above :
    mutate_fm_read junk junk_item rand buffer (start (pos 1))
    ≡ some (
      0 ∷ 2 ∷ 32 ∷ 5 ∷ 10 ∷ 17 ∷ 1 ∷ [],
      record (start (pos 1)) {
        mutated = 1;
        counter = 2;
        coverage = Coverage.operator_line (pos 1) 1 1 ∷ [];
      },
      1,
    )
unfolding mutate_fm_read read_fm mutate mutate_selected selection select_item select_operator
    select_operation mutate_item mutate_int store_item store_loop load_loop slice_loop
    pow_substitute value_above_threshold operator_coverage
source_above = refl

-- MUTATION 17 sets flag bit 1.
flag_set :
    mutate_fm_read junk junk_item rand buffer (start (pos 17))
    ≡ some (
      0 ∷ 2 ∷ 3 ∷ 5 ∷ 10 ∷ 17 ∷ 3 ∷ [],
      record (start (pos 17)) {
        mutated = 1;
        counter = 2;
        coverage = Coverage.operator_line (pos 17) 1 1 ∷ [];
      },
      1,
    )
unfolding mutate_fm_read read_fm mutate mutate_selected selection select_item select_operator
    select_operation mutate_item mutate_bin flip bit_flip flip_loop flip_tries flip_try draw modulus
    store_item store_loop load_loop slice_loop pow_substitute operator_coverage
flag_set = refl

random_port :
    random_value (record junk { min = pos 8; max = pos 30 }) rand (pos 10) ≡ some (pos 19, some 1)
unfolding random_value draw_loop draw modulus
random_port = refl

read_fm-refines-csv_example :
    map (selected (read_fm junk junk_item)) (count_from 0 20) ≡ map some (mutations csv_read)
read_fm-refines-csv_example = read_fm-refines-csv junk junk_item

send_fm-refines-csv_example :
    map (selected (send_fm junk junk_item)) (count_from 20 23) ≡ map some (mutations csv_send)
send_fm-refines-csv_example = send_fm-refines-csv junk junk_item

abbrev port_range : MutationOperator
port_range = record junk { min = pos 8; max = pos 30 }

port_range-IntRange : IntRange (pos 8) (pos 30)
unfolding ◌-ℤ◌
port_range-IntRange = record {
  lower_int = omega arith;
  upper_int = omega arith;
  some_room = omega arith;
  few = omega arith;
}

random_value_contract_example :
    (v' : ℤ) × (status : ℕ) × (random_value port_range rand (pos 10) ≡ some (v', some status))
    × InRange port_range v'
    × (((status ≡ 1) × (v' ≢ pos 10))
        ⊎ ((status ≡ 0) × ((j : ℕ) → j < 999 → draw (pos 30) (pos 8) (rand j) ≡ pos 10)))
random_value_contract_example = random_value_contract port_range rand (pos 10) port_range-IntRange

abbrev flag_two : MutationOperator
flag_two = record junk { min = pos 2; max = pos 2; state = pos 0; value = pos 1 }

flag_two-SetsBit : SetsBit flag_two 2
flag_two-SetsBit = record { min = refl; max = refl; state = refl; value = refl }

bit_flip_lem_example :
    ((3 / 2 ^ 2 % 2 ≡ 0) × (bit_flip flag_two rand 3 ≡ (3 + 2 ^ 2, 1)))
    ⊎ ((3 / 2 ^ 2 % 2 ≡ 1) × (bit_flip flag_two rand 3 ≡ (3, 0)))
bit_flip_lem_example = bit_flip_lem flag_two 2 3 rand (omega arith) flag_two-SetsBit

mutate_inactive_example :
    (g' : Globals) × (mutate rand (send_fm junk junk_item) buffer (start (pos 7))
      ≡ some (buffer, g', 0))
    × Idle (start (pos 7)) g'
mutate_inactive_example =
    mutate_inactive rand (send_fm junk junk_item) buffer (start (pos 7))
      (inl (unfold send_fm in omega arith))

mutate_fm_read-Mutated_example :
    (out : Outcome) × (mutate_fm_read junk junk_item rand buffer (start (pos 17)) ≡ some out)
    × Mutated buffer (start (pos 17)) out
mutate_fm_read-Mutated_example =
    mutate_fm_read-Mutated junk junk_item rand buffer (start (pos 17)) 17 refl (omega arith)

mutate_fm_send-Mutated_example :
    (out : Outcome) × (mutate_fm_send junk junk_item rand buffer (start (pos 42)) ≡ some out)
    × Mutated buffer (start (pos 42)) out
mutate_fm_send-Mutated_example =
    mutate_fm_send-Mutated junk junk_item rand buffer (start (pos 42)) 22 refl (omega arith)
