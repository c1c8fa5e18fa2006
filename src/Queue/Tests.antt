-- ===== src/Queue/Tests.antt =====
-- The queue of pthread_queue.c on concrete values.
use damat_tutorial.Prelude.{ℕ, ◌≡◌, refl, none, some, List, [], ◌∷◌, arith}
use damat_tutorial.Queue.{Queue, ok, error, create, enqueue, dequeue}
use damat_tutorial.Queue.Fifo.{IsValid}
use damat_tutorial.Queue.Run.{Call, put, get, run, run_list, run-create}

abbrev two_slots : Queue ℕ
two_slots = record { buffer = 7 ∷ 8 ∷ []; size = 2; items = 1; in_pos = 0; out_pos = 1 }

two_slots-IsValid : IsValid two_slots
two_slots-IsValid = record {
  room = omega arith;
  fits = refl;
  bounded = omega arith;
  out_in = omega arith;
  behind = refl;
}

abbrev calls : List (Call ℕ)
calls = get ∷ put 1 ∷ put 2 ∷ put 3 ∷ get ∷ put 4 ∷ get ∷ get ∷ []

run-calls :
    run 0 (create 0 2) calls
    ≡ (error, none)
      ∷ (ok, none)
      ∷ (ok, none)
      ∷ (error, none)
      ∷ (ok, some 1)
      ∷ (ok, none)
      ∷ (ok, some 2)
      ∷ (ok, some 4)
      ∷ []
unfolding run create enqueue dequeue
run-calls = refl

run-create_example : run 0 (create 0 2) calls ≡ run_list 2 [] calls
run-create_example = run-create 0 2 calls (omega arith)
