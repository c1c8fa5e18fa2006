-- ===== src/Bridge/Tests.antt =====
-- Runs of csp_bridge_work between two interfaces.
use damat_tutorial.Prelude.{true, false, ℕ, ◌≡◌, refl, inr, arith, none, some, List, [], ◌∷◌}
use damat_tutorial.Queue.{create, enqueue, dequeue}
use damat_tutorial.Queue.Fifo.{IsValid, contents}
use damat_tutorial.Buffer.{Pool, blank_slot, init, init_loop, get, take_free}
use damat_tutorial.Buffer.Clients.{get_for, run}
use damat_tutorial.Buffer.Owners.{Owned}
use damat_tutorial.Buffer.Reach.{run-init}
use damat_tutorial.Dedup.{at_start, is_duplicate}
use damat_tutorial.Iflist.{Ifaces, blank_iface}
use damat_tutorial.Send.{Node, no_stats}
use damat_tutorial.Route.{Router, packet_of}
use damat_tutorial.Bridge.{Bridge, bridge_set_interfaces, bridge_work}
use damat_tutorial.Bridge.Pass.{Passed, bridge_work-Passed}

abbrev two_ifaces : Ifaces
two_ifaces = record {
  at = record blank_iface { addr = 256; netmask = 6; next = some 1 } ∷ blank_iface ∷ [];
  head = some 0;
}

abbrev node : Node
node = record {
  version = 2;
  data_size = 8;
  with_header = false;
  ifaces = two_ifaces;
  routes = record { entries = []; inptr = 0; dbg_errno = 0 };
  nexthop = λ k via p. true;
}

abbrev held_packet : List ℕ × Pool
unfolding init init_loop create enqueue run get take_free dequeue
held_packet = run 8 (get_for 4 ∷ []) [] (init (blank_slot ∷ blank_slot ∷ []))

-- The packet in buffer 0 came in by interface 1.
abbrev waiting_packet : Router
unfolding create
waiting_packet = record {
  conns = record { arr = []; last_given = 0; conn_out = 0; conn_ovf = 0; pool = held_packet.1 };
  ports = record { entries = []; dbg_errno = 0 };
  sockets = [];
  dedup = at_start;
  stats = no_stats ∷ no_stats ∷ [];
  sent = [];
  calls = [];
  fifo = record { buffer = some (1, 0) ∷ none ∷ []; size = 2; items = 1; in_pos = 1; out_pos = 0 };
}

waiting_packet-Owned : Owned (0 ∷ []) waiting_packet.conns.pool
unfolding waiting_packet held_packet
waiting_packet-Owned = (run-init 8 (blank_slot ∷ blank_slot ∷ []) (get_for 4 ∷ []) (omega arith)).0

fifo-IsValid : IsValid waiting_packet.fifo
unfolding waiting_packet
fifo-IsValid = record {
  room = omega arith;
  fits = refl;
  bounded = omega arith;
  out_in = omega arith;
  behind = refl;
}

abbrev bridge : Bridge
unfolding bridge_set_interfaces
bridge = bridge_set_interfaces (some 0) (some 1)

bridge_work-Passed_example :
    let o = is_duplicate 2 (λ n. 500) (packet_of waiting_packet 0) at_start in
    (t' : Router) × (bridge_work bridge node (λ n. 500) waiting_packet ≡ some t')
    × (contents none t'.fifo ≡ [])
    × (t'.dedup ≡ o.0.1)
    × Passed node [] 0 0 o waiting_packet t'
unfolding waiting_packet contents bridge
bridge_work-Passed_example =
    bridge_work-Passed bridge node (λ n. 500) 1 0 0 1 0 [] [] waiting_packet fifo-IsValid refl
      waiting_packet-Owned refl refl (inr (omega arith, refl))
