-- ===== src/Route.antt =====
-- libcsp/src/csp_route.c: the state that the router works on, and a packet to this node, which goes to
-- a callback, a socket or a connection, or is freed. The build is one without RDP, HMAC and
-- promiscuous mode.
pub mod Work
pub mod Forward
pub mod Security
pub mod Deliver
mod Tests
use damat_tutorial.Prelude.{
  ℕ, ◌+◌, ◌%◌, ◌^◌, Bool, true, false, ◌||◌, Option, none, some, List, [], ◌∷◌, ◌++◌, if◌then◌else◌,
  ◌==◌, not, get_or, set, bit_and,
}
use damat_tutorial.Prelude.Int.{ℤ, pos, negsuc}
use damat_tutorial.Packet.{PacketId, Packet}
use damat_tutorial.Id.{is_broadcast}
use damat_tutorial.Crc.{crc32_verify}
use damat_tutorial.Queue.{Queue, Status, ok, error, create, enqueue, dequeue}
use damat_tutorial.Buffer.{Pool, slot_at, to_slot, free}
use damat_tutorial.Port.{Ports, get_callback, get_socket}
use damat_tutorial.Conn.{
  Conn, Conns, conn_at, conn_server, enqueue_packet, find_existing, conn_new, conn_close,
}
use damat_tutorial.Dedup.{Dedup, is_duplicate}
use damat_tutorial.Iflist.{iface_at}
use damat_tutorial.Send.{Stats, Sent, Node, Net, stats_at, no_stats, set_packet, send_direct}

-- What a socket's queue holds: packets, for a connection-less socket, or connections
pub data Item : Type 0 where
  packet_item conn_item : ℕ → Item

pub record Socket : Type 0 where
  pub opts : ℕ
  pub rx_queue : Queue Item

-- csp_conf.dedup
pub data DedupMode : Type 0 where
  dedup_off dedup_fwd dedup_incoming dedup_all : DedupMode

-- The settings: those of the way out, CSP_PORT_MAX_BIND, and csp_conf.dedup
pub record Settings : Type 0 where
  pub node : Node
  pub bound : ℕ
  pub mode : DedupMode

-- The parts that the router works on. The buffers are those of `conns`. `calls` are the callbacks
-- that were given a buffer, and `fifo` the queue of csp_qfifo.c: an interface with a buffer, or `none`
-- for csp_qfifo_wake_up.
pub record Router : Type 0 where
  pub conns : Conns
  pub ports : Ports
  pub sockets : List Socket
  pub dedup : Dedup
  pub stats : List Stats
  pub sent : List Sent
  pub calls : List (ℕ × ℕ)
  pub fifo : Queue (Option (ℕ × ℕ))

abbrev pub blank_socket : Socket
unfolding create
blank_socket = record { opts = 0; rx_queue = create (packet_item 0) 0 }

abbrev pub packet_of : Router → ℕ → Packet
packet_of t i = (slot_at t.conns.pool i).packet

abbrev pub with_pool : (Pool → Pool) → Router → Router
with_pool f t = record t { conns = record (t.conns) { pool = f t.conns.pool } }

abbrev pub free_packet : ℕ → Router → Router
free_packet i t = with_pool (λ p. free (to_slot i) p) t

abbrev pub count : ℕ → (Stats → Stats) → Router → Router
count k f t = record t { stats = set t.stats k (f (get_or t.stats k no_stats)) }

abbrev pub add_rx_error : Stats → Stats
add_rx_error s = record s { rx_error = (s.rx_error + 1) % 2 ^ 32 }

abbrev pub add_autherr : Stats → Stats
add_autherr s = record s { autherr = (s.autherr + 1) % 2 ^ 32 }

abbrev pub add_drop : Stats → Stats
add_drop s = record s { drop = (s.drop + 1) % 2 ^ 32 }

abbrev pub set_errno : ℕ → Router → Router
set_errno e t = with_pool (λ p. record p { dbg_errno = e }) t

-- csp_route_check_options, in this build: whether the options of the packet are supported
unfoldable pub check_options : ℕ → PacketId → Router → Bool × Router
check_options k id t =
    if bit_and id.flags 0x8 == 0
    then (if bit_and id.flags 0x2 == 0
        then (true, t)
        else (false, count k add_rx_error (set_errno 7 t)))
    else (false, count k add_autherr (set_errno 7 t))

-- csp_route_security_check, in this build: whether the checksum is as the options of the socket or
-- connection demand. It is taken off the packet.
abbrev pub verified : ℕ → ℕ → ℤ × Packet → Router → Bool × Router
verified k i (pos n, p) t =
    if n == 0
    then (true, with_pool (set_packet i p) t)
    else (false, count k add_rx_error (with_pool (set_packet i p) t))
verified k i (negsuc n, p) t = (false, count k add_rx_error (with_pool (set_packet i p) t))

unfoldable pub security_check : ℕ → ℕ → ℕ → ℕ → Router → Bool × Router
security_check version opts k i t =
    if bit_and (packet_of t i).id.flags 0x1 == 0
    then (if bit_and opts 0x40 == 0 then (true, t) else (false, count k add_rx_error t))
    else verified k i (crc32_verify version (packet_of t i)) t

-- What follows a security check; a packet that fails it is freed.
abbrev pub if_secure : ℕ → (Router → Router) → Bool × Router → Router
if_secure i next (true, t) = next t
if_secure i next (false, t) = free_packet i t

abbrev pub add_conn_ovf : Router → Router
add_conn_ovf t = record t { conns = record (t.conns) { conn_ovf = (t.conns.conn_ovf + 1) % 2 ^ 8 } }

abbrev pub socket_at : Router → ℕ → Socket
socket_at t s = get_or t.sockets s blank_socket

abbrev pub set_queue : ℕ → Queue Item → Router → Router
set_queue s q t = record t { sockets = set t.sockets s (record (socket_at t s) { rx_queue = q }) }

-- A connection-less socket
abbrev pub queued : ℕ → ℕ → Status × Queue Item → Router → Router
queued s i (ok, q) t = set_queue s q t
queued s i (error, q) t = free_packet i (add_conn_ovf t)

abbrev pub to_socket : ℕ → ℕ → Router → Router
to_socket s i t = queued s i (enqueue (packet_item i) (socket_at t s).rx_queue) t

-- The connection goes to its socket, once.
abbrev pub set_conn : ℕ → Conn → Router → Router
set_conn c conn t = record t { conns = record (t.conns) { arr = set t.conns.arr c conn } }

abbrev pub announced : ℕ → ℕ → Status × Queue Item → Router → Router
announced c s (ok, q) t =
    let t' = set_queue s q t in
    set_conn c (record (conn_at t'.conns.arr c) { dest_socket = none }) t'
announced c s (error, q) t =
    let t' = add_conn_ovf t in record t' { conns = (conn_close (some c) t'.conns).1 }

abbrev pub announce : ℕ → Option ℕ → Router → Router
announce c none t = t
announce c (some s) t = announced c s (enqueue (conn_item c) (socket_at t s).rx_queue) t

-- The end of csp_route_work, for a connection
abbrev pub delivered : ℕ → ℕ → ℤ × Conns → Router → Router
delivered c i (negsuc n, conns) t = free_packet i (add_conn_ovf (record t { conns = conns }))
delivered c i (pos n, conns) t =
    let t' = record t { conns = conns } in announce c (conn_at t'.conns.arr c).dest_socket t'

unfoldable pub to_conn : ℕ → ℕ → Router → Router
to_conn c i t = delivered c i (enqueue_packet (some c) (some i) t.conns) t

-- A new connection for a packet to a socket
abbrev pub reply_id : PacketId → PacketId
reply_id id = record {
  pri = id.pri;
  flags = id.flags;
  src = id.dst;
  dst = id.src;
  dport = id.sport;
  sport = id.dport;
}

abbrev pub accepted : ℕ → ℕ → Option ℕ × Conns → Router → Router
unfolding to_conn
accepted s i (none, conns) t =
    free_packet i (record t { conns = record conns { conn_out = (conns.conn_out + 1) % 2 ^ 8 } })
accepted s i (some c, conns) t =
    let t' = record t { conns = conns } in
    to_conn c i (
      set_conn c
        (record (conn_at conns.arr c) { dest_socket = some s; opts = (socket_at t s).opts }) t')

unfoldable pub to_new_conn : ℕ → ℕ → ℕ → Router → Router
unfolding accepted
to_new_conn ms s i t =
    let id = (packet_of t i).id in accepted s i (conn_new id (reply_id id) conn_server ms t.conns) t

-- The search for a connection, and for a socket
abbrev pub conn_or_socket : ℕ → ℕ → ℕ → ℕ → Option ℕ → Option ℕ → Router → Router
conn_or_socket version ms k i (some c) socket t =
    if_secure i (to_conn c i) (security_check version (conn_at t.conns.arr c).opts k i t)
conn_or_socket version ms k i none none t = free_packet i t
conn_or_socket version ms k i none (some s) t =
    if_secure i (to_new_conn ms s i) (security_check version (socket_at t s).opts k i t)

abbrev pub is_conn_less : Router → Option ℕ → Bool
is_conn_less t none = false
is_conn_less t (some s) = not (bit_and (socket_at t s).opts 0x100 == 0)

abbrev pub to_port : ℕ → ℕ → ℕ → ℕ → Option ℕ → Option ℕ → Router → Router
to_port version ms k i (some callback) socket t =
    if_secure i (λ t'. record t' { calls = t'.calls ++ (callback, i) ∷ [] })
      (security_check version 0 k i t)
to_port version ms k i none (some s) t =
    if is_conn_less t (some s)
    then if_secure i (to_socket s i) (security_check version (socket_at t s).opts k i t)
    else conn_or_socket version ms k i (find_existing (packet_of t i).id t.conns) (some s) t
to_port version ms k i none none t =
    conn_or_socket version ms k i (find_existing (packet_of t i).id t.conns) none t

-- A packet to this node
abbrev pub if_supported : ℕ → (Router → Router) → Bool × Router → Router
if_supported i next (true, t) = next t
if_supported i next (false, t) = free_packet i t

unfoldable pub route_to_me : Settings → ℕ → ℕ → ℕ → Router → Router
unfolding check_options security_check to_new_conn to_conn
route_to_me settings ms k i t =
    let dport = (packet_of t i).id.dport in
    if_supported i
      (λ t'.
        to_port settings.node.version ms k i (get_callback settings.bound t'.ports dport)
          (get_socket settings.bound t'.ports dport) t')
      (check_options k (packet_of t i).id t)
