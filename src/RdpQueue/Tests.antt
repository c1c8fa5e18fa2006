-- ===== src/RdpQueue/Tests.antt =====
-- Runs of csp_rdp_queue.c with packets of two connections.
use damat_tutorial.Prelude.{ℕ, ◌≡◌, refl, arith, none, some, [], ◌∷◌}
use damat_tutorial.Queue.{Queue, create, enqueue, dequeue, items}
use damat_tutorial.Queue.Fifo.{IsValid, contents}
use damat_tutorial.RdpQueue.{Store, init, size, add, get_loop, get, flush, Queues, tx_store}
use damat_tutorial.RdpQueue.Take.{Rotated, get-Rotated, waiting}
use damat_tutorial.RdpQueue.Flush.{flush_lem, free_each, own_packets}

abbrev start : Store
unfolding init create
start = init 2 (record {
  queue = create 0 0;
  owner = 0 ∷ 0 ∷ 0 ∷ [];
  pool = record { slots = []; free = create 0 0; buffer_out = 0; dbg_errno = 0 };
})

-- The packet 1 of connection 7, and the packet 2 of connection 8
abbrev both_wait : Store
unfolding start add enqueue
both_wait = add 8 2 (add 7 1 start)

-- Connection 8 gets its packet, and then that of connection 7.
stolen : (get 8 (get 8 both_wait).1).0 ≡ some 1
unfolding both_wait get get_loop size items add enqueue dequeue
stolen = refl

lost : (get 7 (get 8 both_wait).1).0 ≡ none
unfolding both_wait get get_loop size items add enqueue dequeue
lost = refl

both_wait-IsValid : IsValid both_wait.queue
unfolding both_wait
both_wait-IsValid = record {
  room = omega arith;
  fits = refl;
  bounded = omega arith;
  out_in = omega arith;
  behind = refl;
}

get-Rotated_example :
    (s' : Store) × (get 8 both_wait ≡ (some 2, s')) × Rotated 8 (1 ∷ []) [] both_wait s'
unfolding both_wait contents
get-Rotated_example =
    get-Rotated 8 both_wait (1 ∷ []) 2 [] both_wait-IsValid refl (tt, tt) ((ground arith), tt)
      ((ground arith), tt) ((omega arith), tt) refl

abbrev queues : Queues
queues = record {
  tx = both_wait.queue;
  rx = start.queue;
  owner = both_wait.owner;
  pool = both_wait.pool;
}

start-IsValid : IsValid start.queue
unfolding start
start-IsValid = record {
  room = omega arith;
  fits = refl;
  bounded = omega arith;
  out_in = omega arith;
  behind = refl;
}

flush_lem_example :
    (tx rx : Queue ℕ) × (flush (some 8) queues ≡ record queues {
      tx = tx;
      rx = rx;
      pool =
          free_each
            (own_packets (some 8) (tx_store queues) (contents 0 queues.rx))
            (free_each (own_packets (some 8) (tx_store queues) (contents 0 queues.tx)) queues.pool);
    })
    × (contents 0 tx ≡ [])
    × (contents 0 rx ≡ [])
flush_lem_example = flush_lem (some 8) queues both_wait-IsValid start-IsValid

-- Of the packets that wait, only the packet 2 is freed.
only_own : own_packets (some 8) both_wait (waiting both_wait) ≡ 2 ∷ []
unfolding both_wait contents
only_own = refl
