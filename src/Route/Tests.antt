-- ===== src/Route/Tests.antt =====
-- Runs of csp_route_work.
use damat_tutorial.Prelude.{
  ℕ, ◌+◌, ◌%◌, ◌^◌, ◌<◌, ◌≡◌, ◌⊎◌, refl, false, true, arith, Option, none, some, List, [], ◌∷◌,
  ◌++◌, length, replicate,
}
use damat_tutorial.Packet.{Packet}
use damat_tutorial.Queue.{Queue, create, enqueue, dequeue}
use damat_tutorial.Queue.Fifo.{IsValid, contents}
use damat_tutorial.Buffer.{blank_slot}
use damat_tutorial.Port.{Port, get_callback, get_socket}
use damat_tutorial.Conn.{
  Conns, blank_conn, conn_at, conn_init, init_conns, enqueue_packet, enqueued, find_existing,
  first_conn, conn_new, allocate, alloc_loop, flush_rx_queue, flush_loop, conn_close,
}
use damat_tutorial.Conn.Connect.{connect}
use damat_tutorial.Conn.Keep.{IsTable}
use damat_tutorial.Conn.Reach.{to_connect, step, run, conn_init-IsTable, run-IsTable}
use damat_tutorial.Dedup.{at_start}
use damat_tutorial.Iflist.{blank_iface}
use damat_tutorial.Send.{Sent, no_stats, secured, set_packet}
use damat_tutorial.Route.{
  Settings, Router, conn_item, dedup_off, with_pool, free_packet, set_conn, route_to_me,
  check_options, security_check, to_conn, to_new_conn,
}
use damat_tutorial.Route.Deliver.{route_to_me-client}
use damat_tutorial.Route.Security.{security_check-secured}
use damat_tutorial.Crc.{crc32_append}
use damat_tutorial.Crc.RoundTrip.{SameData}
use damat_tutorial.Prelude.{All, ◌≢◌, map}
use damat_tutorial.Buffer.{Pool, init, init_loop, get, take_free}
use damat_tutorial.Buffer.Clients
use damat_tutorial.Buffer.Clients.{get_for}
use damat_tutorial.Buffer.Owners.{Owned}
use damat_tutorial.Buffer.Reach.{run-init}
use damat_tutorial.Iflist.{Ifaces, is_within_subnet}
use damat_tutorial.Id.{get_host_bits, is_broadcast}
use damat_tutorial.Send.Copies.{Sublist, handed_to}
use damat_tutorial.Send.Direct.{all_targets}
use damat_tutorial.Route.Work.{route_packet, is_to_me}
use damat_tutorial.Route.Forward.{route_packet-forward}

abbrev settings : Settings
settings = record {
  node = record {
    version = 2;
    data_size = 8;
    with_header = false;
    ifaces = record { at = record blank_iface { addr = 256; netmask = 8 } ∷ []; head = some 0 };
    routes = record { entries = []; inptr = 0; dbg_errno = 0 };
    nexthop = λ k via p. true;
  };
  bound = 16;
  mode = dedup_off;
}

abbrev noinit : Conns
unfolding create
noinit = record {
  arr = blank_conn ∷ blank_conn ∷ [];
  last_given = 0;
  conn_out = 0;
  conn_ovf = 0;
  pool = record { slots = []; free = create 0 2; buffer_out = 0; dbg_errno = 0 };
}

-- The connection 1 is a client with the port 18.
abbrev connected : Conns
connected = run 16 (to_connect false 0 0 0 2 9 7 0 100 ∷ []) (conn_init 16 4 noinit)

connected-IsTable : IsTable 16 connected
unfolding noinit
connected-IsTable =
    run-IsTable 16 (to_connect false 0 0 0 2 9 7 0 100 ∷ []) (conn_init 16 4 noinit)
      (conn_init-IsTable 16 4 noinit (omega arith) (omega arith) (omega arith))

abbrev answer : Packet
answer = record {
  id = record { pri = 2; flags = 0; src = 9; dst = 256; dport = 18; sport = 7 };
  len = 2;
  frame_begin = 0;
  frame_length = 0;
  buf = replicate 16 0;
}

abbrev router : Conns → List Port → Packet → Router
unfolding create
router conns ports p = record {
  conns = record conns {
    pool = record (conns.pool) {
      slots = record { refcount = 1; addr = 0; packet = p } ∷ record blank_slot { addr = 1 } ∷ [];
    };
  };
  ports = record { entries = ports; dbg_errno = 0 };
  sockets = record { opts = 0; rx_queue = create (conn_item 0) 2 } ∷ [];
  dedup = at_start;
  stats = no_stats ∷ [];
  sent = [];
  calls = [];
  fifo = create none 4;
}

abbrev whole_router : Router
whole_router = router connected [] answer

-- The answer of the server is put on the queue of the connection.
abbrev after : Router
unfolding route_to_me run step connect conn_new conn_close allocate alloc_loop flush_rx_queue
    flush_loop enqueue_packet enqueued conn_init init_conns find_existing first_conn create enqueue
    dequeue get_callback get_socket noinit router check_options security_check to_conn to_new_conn
after = route_to_me settings 101 0 0 whole_router

to_client : contents none (conn_at after.conns.arr 1).rx_queue ≡ some 0 ∷ []
unfolding contents after
to_client = refl

route_to_me-client_example :
    let c = conn_at whole_router.conns.arr 1 in
    ((length (contents none c.rx_queue) ≡ c.rx_queue.size)
      × (route_to_me settings 101 0 0 whole_router
          ≡ free_packet 0 (record whole_router {
            conns = record (whole_router.conns) {
              conn_ovf = ((whole_router.conns.conn_ovf + 1) % 2 ^ 8 + 1) % 2 ^ 8;
            };
          })))
    ⊎ ((q : Queue (Option ℕ)) × (length (contents none c.rx_queue) < c.rx_queue.size)
        × IsValid q
        × (contents none q ≡ contents none c.rx_queue ++ some 0 ∷ [])
        × (route_to_me settings 101 0 0 whole_router
            ≡ set_conn 1 (record c { rx_queue = q }) whole_router))
unfolding run step connect conn_new conn_close allocate alloc_loop flush_rx_queue flush_loop
    conn_init init_conns create enqueue dequeue noinit router
route_to_me-client_example =
    route_to_me-client settings 101 0 0 1 whole_router
      (record {
        some_conn = connected-IsTable.some_conn;
        is_pool = connected-IsTable.is_pool;
        valid = connected-IsTable.valid;
      })
      (omega arith) refl refl refl refl refl refl refl refl

-- A packet of two bytes with a checksum, as the sender secures it
abbrev with_flag : Packet
with_flag = record answer { id = record (answer.id) { flags = 1 } }

abbrev on_the_wire : Packet
on_the_wire = (crc32_append false 2 8 with_flag).1

abbrev received : Router
received = router connected [] on_the_wire

security_check-secured_example :
    (r : Packet) × (security_check 2 0 0 0 received ≡ (true, with_pool (set_packet 0 r) received))
    × SameData with_flag r
unfolding secured router crc32_append
security_check-secured_example =
    security_check-secured (settings.node) 0 0 0 with_flag on_the_wire received refl refl
      (omega arith) refl (omega arith) refl (omega arith) refl

-- A node with two interfaces, and a packet for the address 0, which is in the subnet of interface 1
abbrev two_ifaces : Ifaces
two_ifaces = record {
  at =
      record blank_iface { addr = 256; netmask = 6; next = some 1 }
      ∷ record blank_iface { addr = 5; netmask = 6 }
      ∷ [];
  head = some 0;
}

abbrev gateway : Settings
gateway = record settings { node = record (settings.node) { ifaces = two_ifaces } }

abbrev held_packet : List ℕ × Pool
unfolding init init_loop create enqueue Clients.run get take_free dequeue
held_packet = Clients.run 8 (get_for 4 ∷ []) [] (init (blank_slot ∷ blank_slot ∷ []))

abbrev passing : Router
unfolding router
passing =
    let t = router connected [] answer in
    record t { conns = record (t.conns) { pool = held_packet.1 } }

held_packet-Owned : Owned (0 ∷ []) passing.conns.pool
unfolding passing held_packet
held_packet-Owned = (run-init 8 (blank_slot ∷ blank_slot ∷ []) (get_for 4 ∷ []) (omega arith)).0

route_packet-forward_example :
    (t' : Router) × (new : List Sent) × (route_packet gateway (λ n. n) 101 0 0 passing ≡ some t')
    × (t'.sent ≡ passing.sent ++ new)
    × Sublist (map (λ s. s.iface) new) (all_targets gateway.node 0 (some 0) (0 ∷ 1 ∷ []))
    × All (λ j. 0 ≢ j) (map (λ s. s.iface) new)
    × Owned (handed_to new []) t'.conns.pool
unfolding passing held_packet get_host_bits is_within_subnet contents is_to_me is_broadcast
route_packet-forward_example =
    route_packet-forward gateway (λ n. n) 101 0 0 (0 ∷ 1 ∷ []) [] passing
      (refl, omega arith, (refl, omega arith, refl)) held_packet-Owned (omega arith) refl refl
      (omega arith) (omega arith)
