-- ===== src/Mutator.antt =====
-- libcsp/src/FAQAS_dataDrivenMutator.h, the mutation engine that the probes of csp_io.c call: its
-- data types and its global variables. The five numbers of an operator are doubles in C; every
-- value that the two fault models store is an integer, and integers of 32 bits are exact there.
pub mod Words
pub mod Models
pub mod Operators
pub mod Flip
pub mod Mutate
pub mod Tables
pub mod Contract
pub mod FlipBit
pub mod Inactive
pub mod Counted
pub mod Frame
mod Tests
use damat_tutorial.Prelude.{ℕ, ◌+◌, List, [], ◌∷◌, ◌++◌}
use damat_tutorial.Prelude.Int.{ℤ}

-- enum DataType
pub data DataType : Type 0 where
  int float double bin long : DataType

-- enum MutationType
pub data MutationType : Type 0 where
  bf iv vor fvor vat fvat vbt fvbt inv ss asa hv : MutationType

-- struct MutationOperator; its field `type` is `kind`.
pub record MutationOperator : Type 0 where
  pub kind : MutationType
  pub min : ℤ
  pub max : ℤ
  pub threshold : ℤ
  pub delta : ℤ
  pub state : ℤ
  pub value : ℤ

abbrev pub max_ops : ℕ
max_ops = 200

-- struct DataItem
pub record DataItem : Type 0 where
  pub kind : DataType
  pub span : ℕ
  pub operators_n : ℕ
  pub operators : List MutationOperator

-- struct FaultModel
pub record FaultModel : Type 0 where
  pub items_n : ℕ
  pub id : ℕ
  pub min_operation : ℤ
  pub max_operation : ℤ
  pub items : List DataItem

-- A line of the coverage file: `operator_id,counter,status`, or `fm.ID: n`.
pub data Coverage : Type 0 where
  operator_line : ℤ → ℕ → ℕ → Coverage
  model_line : ℕ → Coverage

-- The global variables: `mutation` is MUTATION, `counter` is global_mutation_counter, `fm_cov` is
-- FAQAS_fmCov, `coverage` is the coverage file, and the last four are the memory of HV.
pub record Globals : Type 0 where
  pub mutation : ℤ
  pub mutated : ℕ
  pub counter : ℕ
  pub fm_cov : ℕ
  pub coverage : List Coverage
  pub stored_int : ℤ
  pub stored_bin : ℕ
  pub repeat_counter : ℤ
  pub sample : ℕ

-- _FAQAS_operator_coverage(MUTATION, global_mutation_counter, status)
unfoldable pub operator_coverage : ℕ → Globals → Globals
operator_coverage status g = record g {
  coverage = g.coverage ++ operator_line g.mutation g.counter status ∷ [];
}
