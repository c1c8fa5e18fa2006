-- ===== src/Mutator/Models.antt =====
-- The two fault models of FAQAS_dataDrivenMutator.h, `Read` for the probe of csp_read and `Send`
-- for that of csp_send, and the tables that choose the item, the operator and the operation of a
-- mutation. The models come from malloc: what no assignment sets is `junk`, any value.
use damat_tutorial.Prelude.{ℕ, ◌-◌, List, [], ◌∷◌, ◌++◌, length, replicate, get_elem?, none, some}
use damat_tutorial.Prelude.Int.{ℤ, pos, negsuc}
use damat_tutorial.Mutator.{DataType, MutationType, MutationOperator, DataItem, FaultModel, max_ops}

module _ (junk : MutationOperator) (junk_item : DataItem) where
  -- the operators that are set, and the rest of the array
  abbrev fill : List MutationOperator → List MutationOperator
  fill ops = ops ++ replicate (max_ops - length ops) junk

  abbrev inv_op : ℤ → ℤ → MutationOperator
  inv_op lo hi = record junk { kind = MutationType.inv; min = lo; max = hi }

  abbrev vor_op : ℤ → ℤ → ℤ → MutationOperator
  vor_op lo hi d = record junk { kind = MutationType.vor; min = lo; max = hi; delta = d }

  abbrev fvor_op : ℤ → ℤ → MutationOperator
  fvor_op lo hi = record junk { kind = MutationType.fvor; min = lo; max = hi }

  abbrev vat_op : ℤ → ℤ → MutationOperator
  vat_op t d = record junk { kind = MutationType.vat; threshold = t; delta = d }

  abbrev fvat_op : ℤ → ℤ → MutationOperator
  fvat_op t d = record junk { kind = MutationType.fvat; threshold = t; delta = d }

  abbrev ss_op : ℤ → MutationOperator
  ss_op d = record junk { kind = MutationType.ss; delta = d }

  abbrev bf_op : ℤ → MutationOperator
  bf_op bit = record junk {
    kind = MutationType.bf;
    min = bit;
    max = bit;
    state = pos 0;
    value = pos 1;
  }

  abbrev int_item : List MutationOperator → DataItem
  int_item ops = record {
    kind = DataType.int;
    span = 1;
    operators_n = length ops;
    operators = fill ops;
  }

  -- the items of a source or a destination address, of a port, and of the flags
  abbrev address_item : DataItem
  address_item = int_item (inv_op (pos 0) (pos 31) ∷ vat_op (pos 31) (pos 1) ∷ [])

  abbrev port_item : DataItem
  port_item = int_item (
      inv_op (pos 8) (pos 30)
      ∷ vor_op (pos 8) (pos 30) (pos 1)
      ∷ fvor_op (pos 8) (pos 30)
      ∷ ss_op (pos 1)
      ∷ ss_op (negsuc 0)
      ∷ [])

  abbrev flags_item : DataItem
  flags_item = record {
    kind = DataType.bin;
    span = 1;
    operators_n = 4;
    operators = fill (bf_op (pos 0) ∷ bf_op (pos 1) ∷ bf_op (pos 2) ∷ bf_op (pos 3) ∷ []);
  }

  -- The priority: the first three operators of the array are never set.
  abbrev priority_item : DataItem
  priority_item = record {
    kind = DataType.int;
    span = 1;
    operators_n = 6;
    operators = fill (
        junk
        ∷ junk
        ∷ junk
        ∷ inv_op (pos 0) (pos 3)
        ∷ vat_op (pos 3) (pos 1)
        ∷ fvat_op (pos 3) (pos 1)
        ∷ []);
  }

  -- _FAQAS_Read_FM
  unfoldable pub read_fm : FaultModel
  read_fm = record {
    items_n = 7;
    id = 0;
    min_operation = pos 0;
    max_operation = pos 20;
    items =
        junk_item ∷ junk_item ∷ address_item ∷ address_item ∷ port_item ∷ port_item ∷ flags_item
        ∷ [];
  }

  -- _FAQAS_Send_FM
  unfoldable pub send_fm : FaultModel
  send_fm = record {
    items_n = 7;
    id = 1;
    min_operation = pos 20;
    max_operation = pos 43;
    items =
        junk_item ∷ priority_item ∷ address_item ∷ address_item ∷ port_item ∷ port_item ∷ flags_item
        ∷ [];
  }

-- A chain of `if (MUTATION == k) return …` from k = 0 on, and `return -999` behind it.
abbrev select_from : List ℕ → ℤ → ℤ
select_from table (negsuc n) = negsuc 998
select_from table (pos n) = elim (get_elem? table n) [ none ↦ negsuc 998 | some x ↦ pos x ]

-- _FAQAS_selectItem
unfoldable pub select_item : ℤ → ℤ
select_item = select_from (
    2 ∷ 2 ∷ 3 ∷ 3 ∷ 4 ∷ 4 ∷ 4 ∷ 4 ∷ 4 ∷ 4 ∷ 5 ∷ 5 ∷ 5 ∷ 5 ∷ 5 ∷ 5 ∷ 6 ∷ 6 ∷ 6 ∷ 6 ∷ 1 ∷ 1 ∷ 1 ∷ 2
    ∷ 2 ∷ 3 ∷ 3 ∷ 4 ∷ 4 ∷ 4 ∷ 4 ∷ 4 ∷ 4 ∷ 5 ∷ 5 ∷ 5 ∷ 5 ∷ 5 ∷ 5 ∷ 6 ∷ 6 ∷ 6 ∷ 6 ∷ [])

-- _FAQAS_selectOperator
unfoldable pub select_operator : ℤ → ℤ
select_operator = select_from (
    0 ∷ 1 ∷ 0 ∷ 1 ∷ 0 ∷ 1 ∷ 1 ∷ 2 ∷ 3 ∷ 4 ∷ 0 ∷ 1 ∷ 1 ∷ 2 ∷ 3 ∷ 4 ∷ 0 ∷ 1 ∷ 2 ∷ 3 ∷ 3 ∷ 4 ∷ 5 ∷ 0
    ∷ 1 ∷ 0 ∷ 1 ∷ 0 ∷ 1 ∷ 1 ∷ 2 ∷ 3 ∷ 4 ∷ 0 ∷ 1 ∷ 1 ∷ 2 ∷ 3 ∷ 4 ∷ 0 ∷ 1 ∷ 2 ∷ 3 ∷ [])

-- _FAQAS_selectOperation
unfoldable pub select_operation : ℤ → ℤ
select_operation = select_from (
    0 ∷ 0 ∷ 0 ∷ 0 ∷ 0 ∷ 0 ∷ 1 ∷ 0 ∷ 0 ∷ 0 ∷ 0 ∷ 0 ∷ 1 ∷ 0 ∷ 0 ∷ 0 ∷ 0 ∷ 0 ∷ 0 ∷ 0 ∷ 0 ∷ 0 ∷ 0 ∷ 0
    ∷ 0 ∷ 0 ∷ 0 ∷ 0 ∷ 0 ∷ 1 ∷ 0 ∷ 0 ∷ 0 ∷ 0 ∷ 0 ∷ 1 ∷ 0 ∷ 0 ∷ 0 ∷ 0 ∷ 0 ∷ 0 ∷ 0 ∷ [])
