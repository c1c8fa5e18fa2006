-- ===== src/Conn/Tests.antt =====
-- Runs of csp_conn.c on a pool of two connections.
use damat_tutorial.Prelude.{◌≡◌, refl, false, arith, none, some, List, [], ◌∷◌}
use damat_tutorial.Packet.{PacketId}
use damat_tutorial.Queue.{create, enqueue, dequeue}
use damat_tutorial.Conn.{
  conn_open, Conns, blank_id, blank_conn, enqueue_packet, enqueued, init_conns, conn_init,
  first_conn, find_existing, flush_loop, flush_rx_queue, alloc_loop, allocate, conn_new, conn_close,
}
use damat_tutorial.Conn.Connect.{connect}
use damat_tutorial.Conn.Keep.{IsTable}
use damat_tutorial.Conn.Reach.{
  Call, to_connect, to_serve, to_enqueue, step, run, conn_init-IsTable, run-IsTable,
  run-find_existing,
}

abbrev noinit : Conns
unfolding create
noinit = record {
  arr = record blank_conn { state = conn_open } ∷ blank_conn ∷ [];
  last_given = 0;
  conn_out = 0;
  conn_ovf = 0;
  pool = record { slots = []; free = create 0 0; buffer_out = 0; dbg_errno = 0 };
}

abbrev fresh : Conns
fresh = conn_init 16 4 noinit

-- A client, a server, and a call of csp_connect that finds no connection
abbrev some_calls : List Call
some_calls =
    to_connect false 0 0 0 2 9 7 0x40 100
    ∷ to_serve (record blank_id { dport = 7; sport = 20; src = 4 }) blank_id 101
    ∷ to_connect false 0 0 0 2 9 8 0 102
    ∷ to_enqueue 1 none
    ∷ []

-- An answer to the client from any node
abbrev answer : PacketId
answer = record blank_id { dport = 18; sport = 7; src = 30 }

abbrev busy : Conns
busy = run 16 some_calls fresh

answer_found : find_existing answer busy ≡ some 1
unfolding run step connect conn_new conn_close allocate alloc_loop flush_rx_queue flush_loop
    enqueue_packet enqueued conn_init init_conns find_existing first_conn create enqueue dequeue
answer_found = refl

one_too_many : busy.conn_out ≡ 1
unfolding run step connect conn_new conn_close allocate alloc_loop flush_rx_queue flush_loop
    enqueue_packet enqueued conn_init init_conns create enqueue dequeue
one_too_many = refl

run-find_existing_example : find_existing answer busy ≡ some 1
unfolding run step connect conn_new conn_close allocate alloc_loop flush_rx_queue flush_loop
    enqueue_packet enqueued conn_init init_conns create enqueue dequeue
run-find_existing_example =
    run-find_existing 16 4 noinit some_calls 1 answer (omega arith) (omega arith) (omega arith)
      (omega arith) refl refl refl

fresh_IsTable : IsTable 16 fresh
unfolding noinit
fresh_IsTable = conn_init-IsTable 16 4 noinit (omega arith) (omega arith) (omega arith)

busy_IsTable : IsTable 16 busy
busy_IsTable = run-IsTable 16 some_calls fresh fresh_IsTable
