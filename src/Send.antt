-- ===== src/Send.antt =====
-- The way of a packet out of the node, in libcsp/src/csp_io.c: csp_send_direct finds the interfaces for
-- an address, and csp_send_direct_iface hands the packet to one of them. The build is one without HMAC
-- and without promiscuous mode. `nexthop i via p` is whether the nexthop function of interface i
-- answers CSP_ERR_NONE for a packet; it then owns the buffer. Reading through NULL is a fault, the
-- `none` of an operation.
pub mod Owners
pub mod Copies
pub mod Local
pub mod Corner
pub mod Direct
mod Tests
use damat_tutorial.Prelude.{
  ℕ, zero, suc, ◌+◌, ◌%◌, ◌^◌, Bool, true, false, ◌&&◌, Option, none, some, List, [], ◌∷◌, ◌++◌,
  if◌then◌else◌, ltb, ◌==◌, length, get_or, set, bit_and, bit_or,
}
use damat_tutorial.Prelude.Int.{ℤ, pos, negsuc}
use damat_tutorial.Packet.{PacketId, Packet}
use damat_tutorial.Crc.{crc32_append}
use damat_tutorial.Buffer.{Pool, slot_at, Pointer, to_slot, free, clone}
use damat_tutorial.Iflist.{Ifaces, iface_at, is_within_subnet, get_by_subnet}
use damat_tutorial.Rtable.{Route, Table, zero_route, find_route}

-- The counters of an interface; all are uint32_t.
pub record Stats : Type 0 where
  pub tx : ℕ
  pub rx : ℕ
  pub tx_error : ℕ
  pub rx_error : ℕ
  pub drop : ℕ
  pub autherr : ℕ
  pub frame : ℕ
  pub txbytes : ℕ
  pub rxbytes : ℕ

abbrev pub no_stats : Stats
no_stats = record {
  tx = 0;
  rx = 0;
  tx_error = 0;
  rx_error = 0;
  drop = 0;
  autherr = 0;
  frame = 0;
  txbytes = 0;
  rxbytes = 0;
}

-- A packet that an interface took: its interface, the next hop, its buffer and what that held
pub record Sent : Type 0 where
  pub iface : ℕ
  pub via : ℕ
  pub buffer : ℕ
  pub packet : Packet

-- What stays the same: the build, the settings, the interfaces and the routes
pub record Node : Type 0 where
  pub version : ℕ
  pub data_size : ℕ
  pub with_header : Bool
  pub ifaces : Ifaces
  pub routes : Table
  pub nexthop : ℕ → ℕ → Packet → Bool

pub record Net : Type 0 where
  pub pool : Pool
  pub stats : List Stats
  pub sent : List Sent

abbrev pub stats_at : Net → ℕ → Stats
stats_at net k = get_or net.stats k no_stats

abbrev pub set_packet : ℕ → Packet → Pool → Pool
set_packet i packet p = record p {
  slots = set p.slots i (record (slot_at p i) { packet = packet });
}

-- CSP_NO_VIA_ADDRESS
abbrev pub no_via : ℕ
no_via = 0xffff

-- Only a packet from this node gets a checksum; HMAC is not supported.
abbrev pub appended : ℤ × Packet → Option Packet
appended (pos n, p) = some p
appended (negsuc n, p) = none

unfoldable pub secured : Node → Bool → Packet → Option Packet
secured node false p = some p
secured node true p =
    if bit_and p.id.flags 0x8 == 0
    then (if bit_and p.id.flags 0x1 == 0
        then some p
        else appended (crc32_append node.with_header node.version node.data_size p))
    else none

abbrev pub hmac_errno : Bool → Packet → Pool → Pool
hmac_errno false p pool = pool
hmac_errno true p pool = if bit_and p.id.flags 0x8 == 0 then pool else record pool { dbg_errno = 7 }

-- The label tx_err
unfoldable pub tx_err : ℕ → ℕ → Net → Net
tx_err i k net = record net {
  pool = free (to_slot i) net.pool;
  stats =
      set net.stats k
        (record (stats_at net k) { tx_error = ((stats_at net k).tx_error + 1) % 2 ^ 32 });
}

-- The counters behind a nexthop function that took the packet
unfoldable pub took : ℕ → ℕ → ℕ → Packet → Net → Net
took i k via p net = record net {
  stats = set net.stats k (record (stats_at net k) {
    tx = ((stats_at net k).tx + 1) % 2 ^ 32;
    txbytes = ((stats_at net k).txbytes + p.len) % 2 ^ 32;
  });
  sent = net.sent ++ record { iface = k; via = via; buffer = i; packet = p } ∷ [];
}

abbrev pub too_long : ℕ → ℕ → Bool
too_long mtu bytes = ltb 0 mtu && ltb mtu bytes

unfoldable pub transmit : Node → ℕ → ℕ → ℕ → Option Packet → Net → Net
unfolding tx_err took
transmit node i k via none net = tx_err i k net
transmit node i k via (some p) net =
    let stored = record net { pool = set_packet i p net.pool } in
    if too_long (iface_at node.ifaces k).mtu p.len
    then tx_err i k stored
    else (if node.nexthop k via p then took i k via p stored else tx_err i k stored)

-- csp_send_direct_iface, with a packet and an interface that may be NULL
unfoldable pub send_direct_iface :
    Node → PacketId → Option ℕ → Option ℕ → ℕ → Bool → Net → Option Net
unfolding secured transmit
send_direct_iface node idout none ifc via from_me net = none
send_direct_iface node idout (some i) none via from_me net = none
send_direct_iface node idout (some i) (some k) via from_me net =
    let p = record ((slot_at net.pool i).packet) { id = idout } in
    let named = record net { pool = hmac_errno from_me p (set_packet i p net.pool) } in
    some (transmit node i k via (secured node from_me p) named)

-- The tests of csp_send_direct that keep a packet from the interface, and the subnet, it came from
abbrev pub same_iface : Option ℕ → ℕ → Bool
same_iface none k = false
same_iface (some j) k = j == k

abbrev pub skips : Node → Option ℕ → ℕ → Bool
skips node from k =
    if same_iface from k
    then true
    else is_within_subnet node.version node.ifaces (iface_at node.ifaces k).addr from

abbrev pub is_from_me : Option ℕ → Bool
is_from_me none = true
is_from_me (some j) = false

-- A copy for interface k: csp_send_direct does not look whether csp_buffer_clone gave one.
unfoldable pub send_copy : Node → PacketId → ℕ → Option ℕ → ℕ → Net → Option Net
unfolding send_direct_iface
send_copy node idout i from k net =
    let (copy, pool) = clone node.data_size (some i) net.pool in
    send_direct_iface node (record idout { src = (iface_at node.ifaces k).addr }) copy (some k)
      no_via (is_from_me from) (record net { pool = pool })

abbrev pub and_then : (Net → Option (Bool × Net)) → Option Net → Option (Bool × Net)
and_then rest none = none
and_then rest (some net) = rest net

abbrev pub for_next :
    Option (Bool × Net) → (ℕ → Option (Bool × Net)) → Option ℕ → Option (Bool × Net)
for_next ended body none = ended
for_next ended body (some k) = body k

-- The loop of csp_send_direct over the interfaces behind `ifc`; `found` is local_found.
unfoldable pub send_local :
    Node → PacketId → ℕ → Option ℕ → ℕ → Option ℕ → Bool → Net → Option (Bool × Net)
unfolding send_copy
send_local node idout i from zero ifc found net = some (found, net)
send_local node idout i from (suc n) ifc found net =
    for_next (some (found, net))
      (λ k.
        if skips node from k
        then send_local node idout i from n (some k) found net
        else and_then (λ after. send_local node idout i from n (some k) true after)
            (send_copy node idout i from k net))
      (get_by_subnet node.version node.ifaces idout.dst ifc)

-- The rest of csp_send_direct: the routing table, where no interface was found
abbrev pub send_route : Node → PacketId → ℕ → Option ℕ → Option ℕ → Net → Option Net
send_route node idout i from none net = some (record net { pool = free (to_slot i) net.pool })
send_route node idout i from (some r) net =
    let route = get_or node.routes.entries r zero_route in
    send_direct_iface node idout (some i) route.iface route.via (is_from_me from) net

abbrev pub send_rest : Node → PacketId → ℕ → Option ℕ → Option (Bool × Net) → Option Net
send_rest node idout i from none = none
send_rest node idout i from (some (true, net)) =
    some (record net { pool = free (to_slot i) net.pool })
send_rest node idout i from (some (false, net)) =
    send_route node idout i from (find_route node.version node.routes idout.dst) net

-- csp_send_direct
unfoldable pub send_direct : Node → PacketId → ℕ → Option ℕ → Net → Option Net
unfolding send_local send_direct_iface
send_direct node idout i from net =
    send_rest node idout i from
      (send_local node idout i from (suc (length node.ifaces.at)) none false net)
