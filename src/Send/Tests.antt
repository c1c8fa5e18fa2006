-- ===== src/Send/Tests.antt =====
-- Runs of csp_send_direct on a node with two interfaces.
use damat_tutorial.Prelude.{ℕ, ◌≡◌, refl, true, false, arith, none, some, List, [], ◌∷◌, map}
use damat_tutorial.Packet.{PacketId}
use damat_tutorial.Id.{get_host_bits}
use damat_tutorial.Queue.{create, enqueue, dequeue}
use damat_tutorial.Buffer.{Pool, blank_slot, slot_at, init, init_loop, get, take_free}
use damat_tutorial.Buffer.Owners.{Owned}
use damat_tutorial.Buffer.Clients.{get_for, run}
use damat_tutorial.Buffer.Reach.{run-init}
use damat_tutorial.Queue.Fifo.{contents}
use damat_tutorial.Iflist.{Ifaces, blank_iface, is_within_subnet}
use damat_tutorial.Iflist.Search.{IsList}
use damat_tutorial.Rtable.{zero_route}
use damat_tutorial.Send.{Sent, Node, Net, secured, send_direct}
use damat_tutorial.Send.Copies.{handed_to, copy_of, copies, copy_for}
use damat_tutorial.Send.Direct.{
  all_targets, reached, ByRoute, send_direct_local, send_direct-ByRoute, send_direct_no_buffer,
}

-- Both interfaces stand in one subnet, and one more apart from it.
abbrev two_ifaces : Ifaces
two_ifaces = record {
  at =
      record blank_iface { addr = 256; netmask = 6; next = some 1 }
      ∷ record blank_iface { addr = 512; netmask = 6 }
      ∷ [];
  head = some 0;
}

abbrev node : Node
node = record {
  version = 2;
  data_size = 8;
  with_header = false;
  ifaces = two_ifaces;
  routes = record {
    entries = record zero_route { address = 3000; iface = some 0 } ∷ [];
    inptr = 1;
    dbg_errno = 0;
  };
  nexthop = λ k via p. true;
}

abbrev start : List ℕ × Pool
unfolding init init_loop create enqueue run get take_free dequeue
start = run 8 (get_for 4 ∷ []) [] (init (blank_slot ∷ blank_slot ∷ []))

abbrev net : Net
net = record { pool = start.1; stats = []; sent = [] }

abbrev to_520 : PacketId
to_520 = record { pri = 2; flags = 0; src = 0; dst = 520; dport = 10; sport = 20 }

start-Owned : Owned (0 ∷ []) start.1
unfolding start
start-Owned = (run-init 8 (blank_slot ∷ blank_slot ∷ []) (get_for 4 ∷ []) (omega arith)).0

one_copy : all_targets node 520 none (0 ∷ 1 ∷ []) ≡ 1 ∷ []
unfolding get_host_bits is_within_subnet
one_copy = refl

ifaces_IsList : IsList two_ifaces (0 ∷ 1 ∷ [])
ifaces_IsList = (refl, omega arith, (refl, omega arith, refl))

send_direct_local_example :
    (net' : Net) × (new : List Sent) × (send_direct node to_520 0 none net ≡ some net')
    × (net'.sent ≡ new)
    × (map copy_of new
        ≡ copies
            (copy_for node to_520 none (slot_at start.1 0).packet)
            (reached node 520 none (0 ∷ 1 ∷ [])))
    × Owned (handed_to new []) net'.pool
unfolding start get_host_bits contents
send_direct_local_example =
    send_direct_local node to_520 0 none (0 ∷ 1 ∷ []) [] net ifaces_IsList start-Owned (omega arith)
      (omega arith) (omega arith)

-- That copy is one, with the address of interface 1 as its source.
copy_sent :
    copies
      (copy_for node to_520 none (slot_at start.1 0).packet)
      (reached node 520 none (0 ∷ 1 ∷ []))
    ≡ (1, 0xffff, record ((slot_at start.1 0).packet) { id = record to_520 { src = 512 } }) ∷ []
unfolding start get_host_bits copies secured
copy_sent = refl

send_direct-ByRoute_example : ByRoute [] node (record to_520 { dst = 3000 }) 0 none net
unfolding start get_host_bits
send_direct-ByRoute_example =
    send_direct-ByRoute node (record to_520 { dst = 3000 }) 0 none (0 ∷ 1 ∷ []) [] net ifaces_IsList
      start-Owned (omega arith) refl

-- A pool of one buffer, which the caller holds
abbrev small : List ℕ × Pool
unfolding init init_loop create enqueue run get take_free dequeue
small = run 8 (get_for 4 ∷ []) [] (init (blank_slot ∷ []))

small-Owned : Owned (0 ∷ []) small.1
unfolding small
small-Owned = (run-init 8 (blank_slot ∷ []) (get_for 4 ∷ []) (omega arith)).0

send_direct_no_buffer_example :
    send_direct node to_520 0 none (record net { pool = small.1 }) ≡ none
unfolding small get_host_bits is_within_subnet contents
send_direct_no_buffer_example =
    send_direct_no_buffer node to_520 0 none (0 ∷ 1 ∷ []) [] (record net { pool = small.1 })
      ifaces_IsList small-Owned (omega arith) (omega arith) refl
