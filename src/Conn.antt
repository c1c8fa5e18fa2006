-- ===== src/Conn.antt =====
-- libcsp/src/csp_conn.c: the pool of connections, in a build without RDP. A connection is known by its
-- number in the pool, whose size is CSP_CONN_MAX. `bound` is CSP_PORT_MAX_BIND. Each call runs on its
-- own: the exchange of the state in csp_conn_allocate is the only step of it that could meet another.
pub mod Connect
pub mod Demux
pub mod Flush
pub mod Allocate
pub mod Given
pub mod Keep
pub mod Client
pub mod Reach
mod Tests
use damat_tutorial.Prelude.{
  ℕ, zero, suc, ◌+◌, ◌%◌, ◌^◌, Bool, true, false, ◌&&◌, Option, none, some, List, [], ◌∷◌,
  if◌then◌else◌, ◌==◌, length, get_or, set,
}
use damat_tutorial.Prelude.Int.{ℤ, pos, negsuc}
use damat_tutorial.Packet.{PacketId}
use damat_tutorial.Queue.{Queue, Status, ok, error, create, enqueue, dequeue}
use damat_tutorial.Buffer.{Pool, Pointer, to_slot, free}

-- csp_conn_state_t and csp_conn_type_t
pub data ConnState : Type 0 where
  conn_closed conn_open : ConnState

pub data ConnType : Type 0 where
  conn_client conn_server : ConnType

-- csp_conn_t, less the callback and the state of RDP; the packets in its queue are numbers of buffers.
pub record Conn : Type 0 where
  pub conn_type : ConnType
  pub state : ConnState
  pub idin : PacketId
  pub idout : PacketId
  pub sport_outgoing : ℕ
  pub rx_queue : Queue (Option ℕ)
  pub dest_socket : Option ℕ
  pub timestamp : ℕ
  pub opts : ℕ

-- arr_conn, csp_conn_last_given, the counters csp_dbg_conn_out and csp_dbg_conn_ovf, and the buffers
pub record Conns : Type 0 where
  pub arr : List Conn
  pub last_given : ℕ
  pub conn_out : ℕ
  pub conn_ovf : ℕ
  pub pool : Pool

abbrev pub blank_id : PacketId
blank_id = record { pri = 0; flags = 0; src = 0; dst = 0; dport = 0; sport = 0 }

abbrev pub blank_conn : Conn
unfolding create
blank_conn = record {
  conn_type = conn_client;
  state = conn_closed;
  idin = blank_id;
  idout = blank_id;
  sport_outgoing = 0;
  rx_queue = create none 0;
  dest_socket = none;
  timestamp = 0;
  opts = 0;
}

abbrev pub conn_at : List Conn → ℕ → Conn
conn_at arr i = get_or arr i blank_conn

abbrev pub is_open : ConnState → Bool
is_open conn_closed = false
is_open conn_open = true

abbrev pub is_client : ConnType → Bool
is_client conn_client = true
is_client conn_server = false

-- csp_conn_enqueue_packet
unfoldable pub enqueued : ℕ → Status × Queue (Option ℕ) → Conns → ℤ × Conns
enqueued i (ok, q) t =
    (pos 0, record t { arr = set t.arr i (record (conn_at t.arr i) { rx_queue = q }) })
enqueued i (error, q) t = (negsuc 0, record t { conn_ovf = (t.conn_ovf + 1) % 2 ^ 8 })

unfoldable pub enqueue_packet : Option ℕ → Option ℕ → Conns → ℤ × Conns
unfolding enqueued
enqueue_packet none packet t = (negsuc 1, t)
enqueue_packet (some i) packet t = enqueued i (enqueue packet (conn_at t.arr i).rx_queue) t

-- The loop of csp_conn_init over what the memory holds; `rx_len` is CSP_CONN_RXQUEUE_LEN.
unfoldable pub init_conns : ℕ → ℕ → ℕ → List Conn → List Conn
init_conns bound rx_len i [] = []
init_conns bound rx_len i (c ∷ noinit) =
    record c {
      sport_outgoing = (bound + 1 + i) % 2 ^ 8;
      state = conn_closed;
      idin = record (c.idin) { flags = 0 };
      rx_queue = create none rx_len;
    }
    ∷ init_conns bound rx_len (i + 1) noinit

unfoldable pub conn_init : ℕ → ℕ → Conns → Conns
conn_init bound rx_len t = record t { arr = init_conns bound rx_len 0 t.arr }

-- A loop over the pool that returns the first connection with a test; `i` counts those before.
unfoldable pub first_conn : (Conn → Bool) → ℕ → List Conn → Option ℕ
first_conn test i [] = none
first_conn test i (c ∷ rest) = if test c then some i else first_conn test (i + 1) rest

-- csp_conn_find_dport
abbrev pub has_dport : ℕ → Conn → Bool
has_dport dport c = c.idin.dport == dport && (is_open c.state && is_client c.conn_type)

unfoldable pub find_dport : ℕ → Conns → Option ℕ
find_dport dport t = first_conn (has_dport dport) 0 t.arr

-- The conditions of csp_conn_find_existing
abbrev pub belongs_to : PacketId → Conn → Bool
belongs_to id c =
    is_open c.state
    && (if is_client c.conn_type
        then c.idin.dport == id.dport
        else (c.idin.dport == id.dport && (c.idin.sport == id.sport && c.idin.src == id.src)))

unfoldable pub find_existing : PacketId → Conns → Option ℕ
find_existing id t = first_conn (belongs_to id) 0 t.arr

-- csp_conn_flush_rx_queue. The loop ends when a dequeue fails: `fuel` is the calls of dequeue.
abbrev pub free_packet : Option ℕ → Pool → Pool
free_packet none p = p
free_packet (some i) p = free (to_slot i) p

abbrev pub flush_on :
    (Queue (Option ℕ) → Pool → Queue (Option ℕ) × Pool)
    → Status × Option (Option ℕ) × Queue (Option ℕ)
    → Pool
    → Queue (Option ℕ) × Pool
flush_on rest (ok, some packet, q) p = rest q (free_packet packet p)
flush_on rest (ok, none, q) p = (q, p)
flush_on rest (error, taken, q) p = (q, p)

unfoldable pub flush_loop : ℕ → Queue (Option ℕ) → Pool → Queue (Option ℕ) × Pool
flush_loop zero q p = (q, p)
flush_loop (suc fuel) q p = flush_on (λ q' p'. flush_loop fuel q' p') (dequeue none q) p

unfoldable pub flush_rx_queue : ℕ → Conns → Conns
flush_rx_queue i t =
    let (q, p) =
      flush_loop (suc (conn_at t.arr i).rx_queue.items) (conn_at t.arr i).rx_queue t.pool in
    record t { arr = set t.arr i (record (conn_at t.arr i) { rx_queue = q }); pool = p }

-- The loop of csp_conn_allocate, with n rounds to go; it starts behind i.
unfoldable pub alloc_loop : List Conn → ℕ → ℕ → Option ℕ
alloc_loop arr zero i = none
alloc_loop arr (suc n) i =
    let next = (i + 1) % length arr in
    let rest = alloc_loop arr n next in if is_open (conn_at arr next).state then rest else some next

abbrev pub given : ConnType → Option ℕ → Conns → Option ℕ × Conns
given conn_type none t = (none, record t { conn_out = (t.conn_out + 1) % 2 ^ 8 })
given conn_type (some i) t = (
  some i,
  record t {
    arr = set t.arr i (record (conn_at t.arr i) {
      state = conn_open;
      timestamp = 0;
      conn_type = conn_type;
      idin = record ((conn_at t.arr i).idin) { flags = 0 };
      idout = record ((conn_at t.arr i).idout) { flags = 0 };
    });
    last_given = i % 2 ^ 8;
  },
)

unfoldable pub allocate : ConnType → Conns → Option ℕ × Conns
unfolding alloc_loop
allocate conn_type t = given conn_type (alloc_loop t.arr (length t.arr) t.last_given) t

-- csp_conn_new; `ms` is the value of csp_get_ms.
abbrev pub set_up : PacketId → PacketId → ℕ → Option ℕ × Conns → Option ℕ × Conns
set_up idin idout ms (none, t) = (none, t)
set_up idin idout ms (some i, t) = (
  some i,
  flush_rx_queue i (record t {
    arr = set t.arr i (record (conn_at t.arr i) { idin = idin; idout = idout; timestamp = ms });
  }),
)

unfoldable pub conn_new : PacketId → PacketId → ConnType → ℕ → Conns → Option ℕ × Conns
unfolding allocate flush_rx_queue
conn_new idin idout conn_type ms t = set_up idin idout ms (allocate conn_type t)

-- csp_conn_close in a build without RDP; it answers CSP_ERR_NONE.
abbrev pub close_open : ConnState → ℕ → Conns → Conns
close_open conn_closed i t = record t { pool = record (t.pool) { dbg_errno = 10 } }
close_open conn_open i t =
    let t' = flush_rx_queue i t in
    record t' { arr = set t'.arr i (record (conn_at t'.arr i) { state = conn_closed }) }

unfoldable pub conn_close : Option ℕ → Conns → ℤ × Conns
unfolding flush_rx_queue
conn_close none t = (pos 0, t)
conn_close (some i) t = (pos 0, close_open (conn_at t.arr i).state i t)
