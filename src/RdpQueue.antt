-- ===== src/RdpQueue.antt =====
-- libcsp/src/csp_rdp_queue.c: the packets that RDP holds back, those of all connections in one queue for
-- each direction. The functions for sending and for receiving do the same on their queues, so they
-- are one function here, of the queue.
pub mod Take
pub mod Flush
mod Tests
use damat_tutorial.Prelude.{
  ℕ, zero, suc, ◌+◌, ◌≡◌, Bool, true, false, Option, none, some, List, if◌then◌else◌, ◌==◌, get_or,
  set,
}
use damat_tutorial.Queue.{Queue, Status, ok, error, create, items, enqueue, dequeue}
use damat_tutorial.Buffer.{Pool, to_slot, free}

-- One of the queues; its values are buffers, and `owner` is packet->conn of each buffer.
pub record Store : Type 0 where
  pub queue : Queue ℕ
  pub owner : List ℕ
  pub pool : Pool

abbrev pub owner_of : Store → ℕ → ℕ
owner_of s i = get_or s.owner i 0

-- csp_rdp_queue_init, with CSP_RDP_MAX_WINDOW
unfoldable pub init : ℕ → Store → Store
unfolding create
init max_window s = record s { queue = create 0 (max_window + max_window) }

-- csp_rdp_queue_tx_size and csp_rdp_queue_rx_size
unfoldable pub size : Store → ℕ
unfolding items
size s = items s.queue

-- csp_rdp_queue_tx_add and csp_rdp_queue_rx_add
abbrev pub added : ℕ → Status × Queue ℕ → Store → Store
added i (ok, q) s = record s { queue = q }
added i (error, q) s = record s { pool = free (to_slot i) s.pool }

unfoldable pub add : ℕ → ℕ → Store → Store
add conn i s = let s' = record s { owner = set s.owner i conn } in added i (enqueue i s'.queue) s'

-- csp_rdp_queue_tx_get and csp_rdp_queue_rx_get; the loop has `n` rounds to go.
abbrev pub taken :
    ℕ → (Store → Option ℕ × Store) → Status × Option ℕ × Queue ℕ → Store → Option ℕ × Store
taken conn rest (ok, some i, q) s =
    let s' = record s { queue = q } in
    if owner_of s' i == conn then (some i, s') else rest (add conn i s')
taken conn rest (ok, none, q) s = (none, s)
taken conn rest (error, o, q) s = (none, s)

unfoldable pub get_loop : ℕ → ℕ → Store → Option ℕ × Store
unfolding add
get_loop conn zero s = (none, s)
get_loop conn (suc n) s = taken conn (λ s'. get_loop conn n s') (dequeue 0 s.queue) s

unfoldable pub get : ℕ → Store → Option ℕ × Store
unfolding get_loop size
get conn s = get_loop conn (size s) s

-- One of the two loops of csp_rdp_queue_flush, for one connection or, with NULL, for all. It ends when
-- a dequeue fails: `fuel` is the calls of dequeue.
abbrev pub is_flushed : Option ℕ → ℕ → Bool
is_flushed none owner = true
is_flushed (some conn) owner = conn == owner

abbrev pub flushed : Option ℕ → (Store → Store) → Status × Option ℕ × Queue ℕ → Store → Store
flushed conn rest (ok, some i, q) s =
    let s' = record s { queue = q } in
    rest (
      if is_flushed conn (owner_of s' i) then record s' { pool = free (to_slot i) s'.pool } else s')
flushed conn rest (ok, none, q) s = s
flushed conn rest (error, o, q) s = s

unfoldable pub flush_loop : Option ℕ → ℕ → Store → Store
flush_loop conn zero s = s
flush_loop conn (suc fuel) s = flushed conn (λ s'. flush_loop conn fuel s') (dequeue 0 s.queue) s

unfoldable pub flush_one : Option ℕ → Store → Store
unfolding flush_loop size
flush_one conn s = flush_loop conn (suc (size s)) s

-- tx_queue and rx_queue
pub record Queues : Type 0 where
  pub tx : Queue ℕ
  pub rx : Queue ℕ
  pub owner : List ℕ
  pub pool : Pool

abbrev pub tx_store : Queues → Store
tx_store t = record { queue = t.tx; owner = t.owner; pool = t.pool }

abbrev pub then_rx : Option ℕ → Queue ℕ → Store → Queues
unfolding flush_one
then_rx conn rx s =
    let s' = flush_one conn (record s { queue = rx }) in
    record { tx = s.queue; rx = s'.queue; owner = s'.owner; pool = s'.pool }

-- csp_rdp_queue_flush
unfoldable pub flush : Option ℕ → Queues → Queues
unfolding then_rx
flush conn t = then_rx conn t.rx (flush_one conn (tx_store t))
