-- ===== src/Buffer/Tests.antt =====
-- Runs of csp_buffer.c on a pool of two buffers of eight bytes.
use mathlib.Core.Path.{subst}
use damat_tutorial.Prelude.{◌≡◌, ◌+◌, refl, arith, List, [], ◌∷◌, length}
use damat_tutorial.Queue.{create, enqueue, dequeue}
use damat_tutorial.Buffer.{
  Slot, Pool, blank_slot, init, init_loop, get, take_free, free, release, clone, remaining,
}
use damat_tutorial.Buffer.Owners.{Owned}
use damat_tutorial.Buffer.Clients.{Call, get_for, free_held, clone_held, run}
use damat_tutorial.Buffer.Reach.{run-init}

-- What the memory holds at start is arbitrary.
abbrev noinit : List Slot
noinit = record blank_slot { refcount = 7; addr = 99 } ∷ record blank_slot { addr = 1 } ∷ []

abbrev some_calls : List Call
some_calls = get_for 4 ∷ clone_held 0 ∷ get_for 4 ∷ free_held 1 ∷ get_for 9 ∷ []

-- The second buffer of the two is held at the end, and the first is free.
after_calls : (run 8 some_calls [] (init noinit)).0 ≡ 1 ∷ []
unfolding run init get free take_free enqueue dequeue create release init_loop clone
after_calls = refl

out_of_buffers : (run 8 some_calls [] (init noinit)).1.buffer_out ≡ 1
unfolding run init get free take_free enqueue dequeue create release init_loop clone
out_of_buffers = refl

run-init_example :
    let (held, p) = run 8 some_calls [] (init noinit) in
    Owned held p × (length p.slots ≡ length noinit) × (remaining p + length held ≡ length p.slots)
run-init_example = run-init 8 noinit some_calls (omega arith)

abbrev used_pool : Pool
used_pool = (run 8 some_calls [] (init noinit)).1

used_pool-Owned : Owned (1 ∷ []) used_pool
used_pool-Owned =
    subst (λ held. Owned held used_pool) after_calls (run-init 8 noinit some_calls (omega arith)).0
