-- ===== src/Bridge.antt =====
-- libcsp/src/csp_bridge.c: packets from one of two interfaces leave by the other. The build is one
-- without promiscuous mode; the state is that of the router, whose queue the bridge takes over.
pub mod Pass
mod Tests
use damat_tutorial.Prelude.{ℕ, Bool, true, false, Option, none, some, if◌then◌else◌}
use damat_tutorial.Packet.{Packet}
use damat_tutorial.Queue.{Queue, Status, ok, error, dequeue}
use damat_tutorial.Dedup.{Dedup, is_duplicate}
use damat_tutorial.Send.{Node, Net, no_via, same_iface, set_packet, send_direct_iface}
use damat_tutorial.Route.{Router, packet_of, with_pool, free_packet}
use damat_tutorial.Route.Work.{after_send}

-- bif_a and bif_b, as csp_bridge_set_interfaces sets them; NULL before
pub record Bridge : Type 0 where
  pub bif_a : Option ℕ
  pub bif_b : Option ℕ

unfoldable pub bridge_set_interfaces : Option ℕ → Option ℕ → Bridge
bridge_set_interfaces if_a if_b = record { bif_a = if_a; bif_b = if_b }

-- The opposing interface
abbrev pub opposing : Bridge → ℕ → Option ℕ
opposing b k = if same_iface b.bif_a k then b.bif_b else b.bif_a

-- The packet as csp_dedup_is_duplicate leaves it, with the header in front of its data
abbrev pub checked : ℕ → Dedup → Packet → Router → Router
checked i d p t = with_pool (set_packet i p) (record t { dedup = d })

abbrev pub net_of : Router → Net
net_of t = record { pool = t.conns.pool; stats = t.stats; sent = t.sent }

abbrev pub passed : Node → Option ℕ → ℕ → (Bool × Dedup) × Packet → Router → Option Router
passed node destif i ((true, d), p) t = some (free_packet i (checked i d p t))
passed node destif i ((false, d), p) t =
    after_send (checked i d p t)
      (send_direct_iface node p.id (some i) destif no_via false (net_of (checked i d p t)))

abbrev pub bridge_on :
    Bridge
    → Node
    → (ℕ → ℕ)
    → Status × Option (Option (ℕ × ℕ)) × Queue (Option (ℕ × ℕ))
    → Router
    → Option Router
bridge_on b node clock (ok, some (some (k, i)), q) t =
    let t' = record t { fifo = q } in
    passed node (opposing b k) i (is_duplicate node.version clock (packet_of t' i) t'.dedup) t'
bridge_on b node clock (ok, some none, q) t = some (record t { fifo = q })
bridge_on b node clock (ok, none, q) t = some t
bridge_on b node clock (error, taken, q) t = some t

unfoldable pub bridge_work : Bridge → Node → (ℕ → ℕ) → Router → Option Router
bridge_work b node clock t = bridge_on b node clock (dequeue none t.fifo) t
