-- ===== src/Mutator/Tables.antt =====
-- The selection tables and the fault models of FAQAS_dataDrivenMutator.h against the rows of
-- damat-config/fault_model_libcsp.csv, from which they are made.
use damat_tutorial.Prelude.{
  ℕ, zero, suc, ◌+◌, ◌≡◌, refl, Option, none, some, List, [], ◌∷◌, ◌++◌, map,
}
use damat_tutorial.Prelude.Int.{ℤ, pos, negsuc}
use damat_tutorial.Mutator.{DataType, MutationType, MutationOperator, DataItem, FaultModel}
use damat_tutorial.Mutator.Models.{read_fm, send_fm, select_item, select_operator, select_operation}
use damat_tutorial.Mutator.Mutate.{selection}

-- The fault class of a row, with the columns that it uses.
pub data FaultClass : Type 0 where
  inv : ℤ → ℤ → FaultClass
  vor : ℤ → ℤ → ℤ → FaultClass
  fvor : ℤ → ℤ → FaultClass
  vat : ℤ → ℤ → FaultClass
  fvat : ℤ → ℤ → FaultClass
  vbt : ℤ → ℤ → FaultClass
  fvbt : ℤ → ℤ → FaultClass
  iv : ℤ → FaultClass
  ss : ℤ → FaultClass
  asa : ℤ → ℤ → ℤ → FaultClass
  bf : ℤ → ℤ → ℤ → ℤ → FaultClass
  hv : ℤ → FaultClass

-- The fields of an operator that its class reads; the others of the struct are not looked at.
unfoldable pub fault_class : MutationOperator → FaultClass
fault_class op = elim op.kind [
  | MutationType.inv ↦ inv op.min op.max
  | MutationType.vor ↦ vor op.min op.max op.delta
  | MutationType.fvor ↦ fvor op.min op.max
  | MutationType.vat ↦ vat op.threshold op.delta
  | MutationType.fvat ↦ fvat op.threshold op.delta
  | MutationType.vbt ↦ vbt op.threshold op.delta
  | MutationType.fvbt ↦ fvbt op.threshold op.delta
  | MutationType.iv ↦ iv op.value
  | MutationType.ss ↦ ss op.delta
  | MutationType.asa ↦ asa op.threshold op.delta op.value
  | MutationType.bf ↦ bf op.min op.max op.state op.value
  | MutationType.hv ↦ hv op.value
]

-- A row: the item, its type and span, and the fault class.
abbrev pub Row : Type 0
Row = ℕ × DataType × ℕ × FaultClass

abbrev address_rows : ℕ → List Row
address_rows i =
    (i, DataType.int, 1, inv (pos 0) (pos 31)) ∷ (i, DataType.int, 1, vat (pos 31) (pos 1)) ∷ []

abbrev port_rows : ℕ → List Row
port_rows i =
    (i, DataType.int, 1, inv (pos 8) (pos 30))
    ∷ (i, DataType.int, 1, vor (pos 8) (pos 30) (pos 1))
    ∷ (i, DataType.int, 1, fvor (pos 8) (pos 30))
    ∷ (i, DataType.int, 1, ss (pos 1))
    ∷ (i, DataType.int, 1, ss (negsuc 0))
    ∷ []

abbrev flag_row : ℕ → Row
flag_row k = (6, DataType.bin, 1, bf (pos k) (pos k) (pos 0) (pos 1))

abbrev flag_rows : List Row
flag_rows = flag_row 0 ∷ flag_row 1 ∷ flag_row 2 ∷ flag_row 3 ∷ []

abbrev priority_rows : List Row
priority_rows =
    (1, DataType.int, 1, inv (pos 0) (pos 3))
    ∷ (1, DataType.int, 1, vat (pos 3) (pos 1))
    ∷ (1, DataType.int, 1, fvat (pos 3) (pos 1))
    ∷ []

-- the rows `Read` and the rows `Send` of the file, in its order
unfoldable pub csv_read : List Row
csv_read = address_rows 2 ++ address_rows 3 ++ port_rows 4 ++ port_rows 5 ++ flag_rows

unfoldable pub csv_send : List Row
csv_send =
    priority_rows ++ address_rows 2 ++ address_rows 3 ++ port_rows 4 ++ port_rows 5 ++ flag_rows

-- VOR stands for two mutations, below the range and above it; every other row for one.
unfoldable pub mutations : List Row → List (Row × ℤ)
mutations [] = []
mutations ((i, t, s, vor lo hi d) ∷ rows) =
    ((i, t, s, vor lo hi d), pos 0) ∷ ((i, t, s, vor lo hi d), pos 1) ∷ mutations rows
mutations (row ∷ rows) = (row, pos 0) ∷ mutations rows

-- `n`, `n + 1`, and so on, `k` of them
abbrev pub count_from : ℕ → ℕ → List ℕ
count_from n zero = []
count_from n (suc k) = n ∷ count_from (n + 1) k

-- What MUTATION `n` selects in a fault model, and the operation.
unfoldable pub selected : FaultModel → ℕ → Option (Row × ℤ)
unfolding selection select_item select_operator select_operation fault_class
selected fm n = elim (selection fm (pos n)) [
  | none ↦ none
  | some (i, item, op) ↦ some ((i, item.kind, item.span, fault_class op), select_operation (pos n))
]

-- Whatever malloc left in the fields that no assignment sets: the mutations 0 to 19 of the model
-- Read are the rows Read of the file in their order, each once, and VOR twice, for its two
-- operations.
pub read_fm-refines-csv :
    (junk : MutationOperator) (junk_item : DataItem)
    → map (selected (read_fm junk junk_item)) (count_from 0 20) ≡ map some (mutations csv_read)
unfolding selected read_fm mutations csv_read
read_fm-refines-csv junk junk_item = refl

-- Whatever malloc left in the fields that no assignment sets: the mutations 20 to 42 of the model
-- Send are the rows Send of the file in their order, each once, and VOR twice, for its two
-- operations.
pub send_fm-refines-csv :
    (junk : MutationOperator) (junk_item : DataItem)
    → map (selected (send_fm junk junk_item)) (count_from 20 23) ≡ map some (mutations csv_send)
unfolding selected send_fm mutations csv_send
send_fm-refines-csv junk junk_item = refl
