-- ===== src/Route/Work.antt =====
-- csp_route_work, with the router's queue of libcsp/src/csp_qfifo.c: the router takes a packet from its
-- queue, drops a duplicate, and keeps the packet or sends it on. A read through NULL on the way out is
-- a fault, the `none` of an operation.
use damat_tutorial.Prelude.{
  ℕ, ◌+◌, ◌%◌, ◌^◌, Bool, true, false, ◌||◌, Option, none, some, if◌then◌else◌, ◌==◌, not,
}
use damat_tutorial.Prelude.Int.{ℤ, pos, negsuc}
use damat_tutorial.Packet.{PacketId, Packet}
use damat_tutorial.Id.{is_broadcast}
use damat_tutorial.Queue.{Queue, Status, ok, error, enqueue, dequeue}
use damat_tutorial.Dedup.{Dedup, is_duplicate}
use damat_tutorial.Iflist.{iface_at}
use damat_tutorial.Send.{Net, set_packet, send_direct}
use damat_tutorial.Route.{
  Settings, Router, DedupMode, dedup_off, dedup_fwd, dedup_incoming, dedup_all, packet_of,
  with_pool, free_packet, count, add_drop, set_errno, route_to_me,
}

-- csp_qfifo_write of a packet by an interface
abbrev pub written : ℕ → ℕ → Status × Queue (Option (ℕ × ℕ)) → Router → Router
written i k (ok, q) t = record t { fifo = q }
written i k (error, q) t = free_packet i (
    count k add_drop
      (record t { conns = record (t.conns) { conn_ovf = (t.conns.conn_ovf + 1) % 2 ^ 8 } }))

unfoldable pub qfifo_write : Option ℕ → Option ℕ → Router → Router
qfifo_write none ifc t = set_errno 11 t
qfifo_write (some i) none t = free_packet i (set_errno 11 t)
qfifo_write (some i) (some k) t = written i k (enqueue (some (k, i)) t.fifo) t

abbrev pub woken : Status × Queue (Option (ℕ × ℕ)) → Router → Router
woken (ok, q) t = record t { fifo = q }
woken (error, q) t = t

unfoldable pub qfifo_wake_up : Router → Router
qfifo_wake_up t = woken (enqueue none t.fifo) t

-- A packet to another node
abbrev pub after_send : Router → Option Net → Option Router
after_send t none = none
after_send t (some net) =
    some (record t {
      conns = record (t.conns) { pool = net.pool };
      stats = net.stats;
      sent = net.sent;
    })

unfoldable pub forward : Settings → ℕ → ℕ → Router → Option Router
forward settings k i t = after_send t (
    send_direct settings.node (packet_of t i).id i (some k)
      (record { pool = t.conns.pool; stats = t.stats; sent = t.sent }))

abbrev pub dedups : DedupMode → Bool → Bool
dedups dedup_off to_me = false
dedups dedup_fwd to_me = not to_me
dedups dedup_incoming to_me = to_me
dedups dedup_all to_me = true

unfoldable pub is_to_me : Settings → ℕ → PacketId → Bool
is_to_me settings k id =
    let ifc = iface_at settings.node.ifaces k in
    (ifc.addr == id.dst) || is_broadcast settings.node.version id.dst ifc.netmask

abbrev pub dispatch : Settings → ℕ → ℕ → ℕ → Bool → Router → Option Router
dispatch settings ms k i true t = some (route_to_me settings ms k i t)
dispatch settings ms k i false t = forward settings k i t

-- csp_dedup_is_duplicate changes the packet: it puts the header in front of the data.
abbrev pub deduped : Settings → ℕ → ℕ → ℕ → Bool → (Bool × Dedup) × Packet → Router → Option Router
deduped settings ms k i to_me ((true, d), p) t =
    some (free_packet i (count k add_drop (with_pool (set_packet i p) (record t { dedup = d }))))
deduped settings ms k i to_me ((false, d), p) t =
    dispatch settings ms k i to_me (with_pool (set_packet i p) (record t { dedup = d }))

abbrev pub counted : ℕ → ℕ → Router → Router
counted k len t =
    count k (λ s. record s { rx = (s.rx + 1) % 2 ^ 32; rxbytes = (s.rxbytes + len) % 2 ^ 32 }) t

unfoldable pub route_packet : Settings → (ℕ → ℕ) → ℕ → ℕ → ℕ → Router → Option Router
unfolding route_to_me forward is_to_me
route_packet settings clock ms k i t =
    let t' = counted k (packet_of t i).len t in
    let to_me = is_to_me settings k (packet_of t i).id in
    if dedups settings.mode to_me
    then deduped settings ms k i to_me
        (is_duplicate settings.node.version clock (packet_of t i) t.dedup) t'
    else dispatch settings ms k i to_me t'

-- csp_route_work with csp_qfifo_read: it answers CSP_ERR_TIMEDOUT or CSP_ERR_NONE.
abbrev pub answered : Option Router → Option (ℤ × Router)
answered none = none
answered (some t) = some (pos 0, t)

abbrev pub work_on :
    Settings
    → (ℕ → ℕ)
    → ℕ
    → Status × Option (Option (ℕ × ℕ)) × Queue (Option (ℕ × ℕ))
    → Router
    → Option (ℤ × Router)
work_on settings clock ms (ok, some (some (k, i)), q) t =
    answered (route_packet settings clock ms k i (record t { fifo = q }))
work_on settings clock ms (ok, some none, q) t = some (negsuc 2, record t { fifo = q })
work_on settings clock ms (ok, none, q) t = some (negsuc 2, t)
work_on settings clock ms (error, taken, q) t = some (negsuc 2, t)

unfoldable pub route_work : Settings → (ℕ → ℕ) → ℕ → Router → Option (ℤ × Router)
unfolding route_packet
route_work settings clock ms t = work_on settings clock ms (dequeue none t.fifo) t
