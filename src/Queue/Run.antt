-- ===== src/Queue/Run.antt =====
-- Sequences of operations on the queue, and the bounded list that they cannot be told from.
use damat_tutorial.Prelude.{
  ℕ, ◌<◌, ◌≡◌, ◌∙◌, inl, inr, refl, sym, ap, true, false, Option, none, some, List, [], ◌∷◌, ◌++◌,
  arith, length, ◌==◌, if◌then◌else◌,
}
use mathlib.Core.Path.{ap₂}
use damat_tutorial.Queue.{Queue, Status, ok, error, create, enqueue, dequeue}
use damat_tutorial.Queue.Fifo.{IsValid, contents, create-IsValid, enqueue_lem, dequeue_lem}

-- one call of a client
pub data Call (A : Type 0) : Type 0 where
  put : A → Call A
  get : Call A

module _ {A : Type 0} where
  -- what the calls answer, one after the other
  unfoldable pub run : A → Queue A → List (Call A) → List (Status × Option A)
  run blank q [] = []
  run blank q (put value ∷ calls) =
      let (status, q') = enqueue value q in (status, none) ∷ run blank q' calls
  run blank q (get ∷ calls) =
      let (status, value, q') = dequeue blank q in (status, value) ∷ run blank q' calls

  -- the same calls on a list of at most `size` values
  unfoldable pub run_list : ℕ → List A → List (Call A) → List (Status × Option A)
  run_list size xs [] = []
  run_list size xs (put value ∷ calls) =
      if length xs == size
      then (error, none) ∷ run_list size xs calls
      else (ok, none) ∷ run_list size (xs ++ value ∷ []) calls
  run_list size [] (get ∷ calls) = (error, none) ∷ run_list size [] calls
  run_list size (x ∷ xs) (get ∷ calls) = (ok, some x) ∷ run_list size xs calls

  run-contents :
      (blank : A) (calls : List (Call A)) (q : Queue A) (size : ℕ) (xs : List A)
      → IsValid q
      → q.size ≡ size
      → contents blank q ≡ xs
      → run blank q calls ≡ run_list size xs calls
  unfolding run run_list
  run-contents blank [] q size xs v e c = refl
  run-contents blank (put value ∷ calls) q size xs v e c = elim (enqueue_lem blank value q v) [
    | inl (whole, same) ↦
        let at_size : (length xs == size) ≡ true = ground (arith, ap length c) in
        rw same
          (rw at_size (ap (λ l. (error, none) ∷ l) (run-contents blank calls q size xs v e c)))
    | inr (q', less, same, v', e', c') ↦
        let below : (length xs == size) ≡ false = ground (arith, ap length c) in
        rw same (
          rw below (
            ap (λ l. (ok, none) ∷ l)
              (run-contents blank calls q' size (xs ++ value ∷ []) v' (e' ∙ e)
                (c' ∙ ap (λ l. l ++ value ∷ []) c))))
  ]
  run-contents blank (get ∷ calls) q size [] v e c = elim (dequeue_lem blank q v) [
    | inl (nothing, same) ↦
        rw same (ap (λ l. (error, none) ∷ l) (run-contents blank calls q size [] v e c))
    | inr (value, q', same, v', e', c') ↦
        let bad : [] ≡ value ∷ contents blank q' = sym c ∙ c' in cc
  ]
  run-contents blank (get ∷ calls) q size (x ∷ xs) v e c = elim (dequeue_lem blank q v) [
    | inl (nothing, same) ↦ let bad : [] ≡ x ∷ xs = sym nothing ∙ c in cc
    | inr (value, q', same, v', e', c') ↦
        let cells : value ∷ contents blank q' ≡ x ∷ xs = sym c' ∙ c in
        let head : value ≡ x = cc in
        rw same
          (ap₂ (λ y l. (ok, some y) ∷ l) head (run-contents blank calls q' size xs v' (e' ∙ e) cc))
  ]

  size-create : (blank : A) (size : ℕ) → (create blank size).size ≡ size
  unfolding create
  size-create blank size = refl

  -- Every sequence of calls on a fresh queue of at least one slot answers what it answers on an
  -- empty list of at most as many values: first in first out, full at `size` values.
  pub run-create :
      (blank : A) (size : ℕ) (calls : List (Call A))
      → 0 < size
      → run blank (create blank size) calls ≡ run_list size [] calls
  run-create blank size calls h =
      let (v, c) = create-IsValid blank size h in
      run-contents blank calls (create blank size) size [] v (size-create blank size) c
