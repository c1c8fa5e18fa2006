-- ===== src/Route/Deliver.antt =====
-- A packet for a client of this node: csp_route_work gives it to the connection that asked.
use damat_tutorial.Prelude.{
  ℕ, ◌+◌, ◌%◌, ◌<◌, ◌^◌, ◌≡◌, ◌∙◌, ◌⊎◌, refl, ap, true, arith, Option, none, some, [], ◌∷◌, ◌++◌,
  lt→ltb, ◌==◌, inl, inr, length, bit_and, get_or-set_self,
}
use damat_tutorial.Queue.{Queue}
use damat_tutorial.Queue.Fifo.{IsValid, contents, enqueue_lem}
use damat_tutorial.Port.{Ports, get_callback, get_socket}
use damat_tutorial.Conn.{
  blank_conn, Conn, conn_at, conn_open, conn_client, enqueue_packet, enqueued, find_existing,
}
use damat_tutorial.Conn.Demux.{find_existing-client}
use damat_tutorial.Conn.Keep.{IsTable}
use damat_tutorial.Route.{
  Settings, Router, packet_of, free_packet, check_options, security_check, to_conn, delivered,
  announce, set_conn, route_to_me,
}

-- Above the bound nothing is bound.
get_callback_high :
    (bound : ℕ) (t : Ports) (port : ℕ) → bound < port → get_callback bound t port ≡ none
unfolding get_callback
get_callback_high bound t port h = rw (lt→ltb bound port h) refl

get_socket_high : (bound : ℕ) (t : Ports) (port : ℕ) → bound < port → get_socket bound t port ≡ none
unfolding get_socket
get_socket_high bound t port h = rw (lt→ltb bound port h) refl

-- A packet for an open client, on a table of connections that keeps to its ports, with no option that
-- the build lacks and no checksum, where the connection demands none: while the queue of the
-- connection has a free slot the packet is put at its end, and nothing else changes; else the buffer
-- is freed, and the loss is counted twice. The client has been announced to no socket.
pub route_to_me-client :
    (settings : Settings) (ms k i j : ℕ) (t : Router)
    → IsTable settings.bound t.conns
    → j < length t.conns.arr
    → (conn_at t.conns.arr j).state ≡ conn_open
    → (conn_at t.conns.arr j).conn_type ≡ conn_client
    → (conn_at t.conns.arr j).dest_socket ≡ none
    → (packet_of t i).id.dport ≡ settings.bound + 1 + j
    → (bit_and (packet_of t i).id.flags 0x8 == 0) ≡ true
    → (bit_and (packet_of t i).id.flags 0x2 == 0) ≡ true
    → (bit_and (packet_of t i).id.flags 0x1 == 0) ≡ true
    → (bit_and (conn_at t.conns.arr j).opts 0x40 == 0) ≡ true
    → let c = conn_at t.conns.arr j in
      ((length (contents none c.rx_queue) ≡ c.rx_queue.size)
        × (route_to_me settings ms k i t
            ≡ free_packet i (record t {
              conns = record (t.conns) { conn_ovf = ((t.conns.conn_ovf + 1) % 2 ^ 8 + 1) % 2 ^ 8 };
            })))
      ⊎ ((q : Queue (Option ℕ)) × (length (contents none c.rx_queue) < c.rx_queue.size)
          × IsValid q
          × (contents none q ≡ contents none c.rx_queue ++ some i ∷ [])
          × (route_to_me settings ms k i t ≡ set_conn j (record c { rx_queue = q }) t))
unfolding route_to_me check_options security_check to_conn enqueue_packet enqueued
route_to_me-client settings ms k i j t v inside state type no_socket port no_hmac no_rdp no_crc
      free_opts =
    elim (enqueue_lem none (some i) c.rx_queue (v.valid j inside)) [
      | inl (whole, fails) ↦
          inl (whole, to_client ∙ ap (λ o. delivered j i (enqueued j o t.conns) t) fails)
      | inr (q, room, stored, valid, size, rest) ↦ inr (
        q,
        room,
        valid,
        rest,
        to_client
            ∙ ap (λ o. delivered j i (enqueued j o t.conns) t) stored
            ∙ ap (λ d. announce j d (set_conn j (record c { rx_queue = q }) t))
                (ap (λ d. d.dest_socket)
                    (get_or-set_self t.conns.arr j (record c { rx_queue = q }) blank_conn inside)
                  ∙ no_socket),
      )
    ]
  where
    c : Conn
    c = conn_at t.conns.arr j

    dport : ℕ
    dport = (packet_of t i).id.dport

    found : find_existing (packet_of t i).id t.conns ≡ some j
    found =
        find_existing-client settings.bound j (packet_of t i).id t.conns v.is_pool inside state type
          port

    to_client : route_to_me settings ms k i t ≡ to_conn j i t
    to_client =
        rw
          (
            no_hmac,
            no_rdp,
            get_callback_high settings.bound t.ports dport (omega (arith, port)),
            get_socket_high settings.bound t.ports dport (omega (arith, port)),
            found,
            no_crc,
            free_opts,
          )
          refl
