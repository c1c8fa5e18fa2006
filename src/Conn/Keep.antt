-- ===== src/Conn/Keep.antt =====
-- The calls on the pool of connections keep its ports and its queues.
use mathlib.Core.Path.{subst}
use damat_tutorial.Prelude.{
  ℕ, ◌<◌, ◌≤◌, ◌≡◌, ◌∙◌, refl, ap, sym, arith, Option, none, some, ◌==◌, Bool-cases, inl, inr,
  length, get_or-set_self, set, length-set,
}
use damat_tutorial.Packet.{PacketId}
use damat_tutorial.Queue.Fifo.{IsValid, enqueue_lem}
use damat_tutorial.Conn.{
  ConnState, conn_closed, conn_open, ConnType, conn_server, Conn, Conns, blank_conn, conn_at,
  enqueued, enqueue_packet, flush_rx_queue, conn_new, close_open,
}
use damat_tutorial.Conn.Demux.{OwnPort, Own, IsPool, SameBut, set-SameBut, IsPool-SameBut}
use damat_tutorial.Conn.Flush.{flush_rx_queue_lem}
use damat_tutorial.Conn.Allocate.{ring}
use damat_tutorial.Conn.Given.{AllValid, Opened, conn_new_cases}

-- The pool keeps to its ports, and its queues are valid.
pub record IsTable (bound : ℕ) (t : Conns) : Type 0 where
  pub some_conn : 0 < length t.arr
  pub is_pool : IsPool bound t.arr
  pub valid : AllValid t.arr

pub IsTable-SameBut :
    (bound i : ℕ) (t t' : Conns)
    → IsTable bound t
    → SameBut i t.arr t'.arr
    → Own bound (conn_at t'.arr i)
    → IsValid (conn_at t'.arr i).rx_queue
    → IsTable bound t'
IsTable-SameBut bound i t t' v same own valid = record {
  some_conn = omega (arith, same.len, v.some_conn);
  is_pool = IsPool-SameBut bound i t.arr t'.arr v.is_pool same own;
  valid = λ j h. elim (Bool-cases (j == i)) [
    | inl here ↦ let e : j ≡ i = ground arith in rw e valid
    | inr other ↦
        subst (λ c. IsValid c.rx_queue) (sym (same.rest j (ground arith)))
          (v.valid j (omega (arith, same.len)))
  ];
}

-- An update of connection i that keeps its source port
set-IsTable :
    (bound i : ℕ) (t t' : Conns) (c : Conn)
    → IsTable bound t
    → i < length t.arr
    → c.sport_outgoing ≡ (conn_at t.arr i).sport_outgoing
    → Own bound c
    → IsValid c.rx_queue
    → t'.arr ≡ set t.arr i c
    → IsTable bound t'
set-IsTable bound i t t' c v inside port own valid e =
    let at : conn_at t'.arr i ≡ c =
      ap (λ l. conn_at l i) e ∙ get_or-set_self t.arr i c blank_conn inside in
    IsTable-SameBut bound i t t' v
      (subst (SameBut i t.arr) (sym e) (set-SameBut i t.arr c inside port))
      (subst (Own bound) (sym at) own) (subst (λ d. IsValid d.rx_queue) (sym at) valid)

pub enqueue_packet-IsTable :
    (bound i : ℕ) (packet : Option ℕ) (t : Conns)
    → IsTable bound t
    → i < length t.arr
    → IsTable bound (enqueue_packet (some i) packet t).1
unfolding enqueue_packet enqueued
enqueue_packet-IsTable bound i packet t v inside =
    elim (enqueue_lem none packet (conn_at t.arr i).rx_queue (v.valid i inside)) [
      | inl (whole, fails) ↦
          rw fails (record { some_conn = v.some_conn; is_pool = v.is_pool; valid = v.valid })
      | inr (q, room, stored, valid, size, rest) ↦ rw stored (
          set-IsTable bound i t _ (record (conn_at t.arr i) { rx_queue = q }) v inside refl
            (v.is_pool.own i inside) valid refl)
    ]

pub flush_rx_queue-IsTable :
    (bound i : ℕ) (t : Conns)
    → IsTable bound t
    → i < length t.arr
    → IsTable bound (flush_rx_queue i t) × (i < length (flush_rx_queue i t).arr)
flush_rx_queue-IsTable bound i t v inside =
    let (q, valid, empty, run) = flush_rx_queue_lem i t (v.valid i inside) in
    (
      set-IsTable bound i t (flush_rx_queue i t) (record (conn_at t.arr i) { rx_queue = q }) v
          inside refl (v.is_pool.own i inside) valid (ap (λ u. u.arr) run),
      omega (
        arith,
        inside,
        ap (λ u. length u.arr) run,
        length-set t.arr i (record (conn_at t.arr i) { rx_queue = q }),
      ),
    )

pub close_open-IsTable :
    (bound i : ℕ) (s : ConnState) (t : Conns)
    → IsTable bound t
    → i < length t.arr
    → IsTable bound (close_open s i t)
close_open-IsTable bound i conn_closed t v inside = record {
  some_conn = v.some_conn;
  is_pool = v.is_pool;
  valid = v.valid;
}
close_open-IsTable bound i conn_open t v inside =
    let (v1, inside1) = flush_rx_queue-IsTable bound i t v inside in
    set-IsTable bound i (flush_rx_queue i t) _
      (record (conn_at (flush_rx_queue i t).arr i) { state = conn_closed }) v1 inside1 refl tt
      (v1.valid i inside1) refl

-- A connection that csp_conn_new gives, with another source or destination port
Opened-IsTable :
    (bound i : ℕ) (conn_type : ConnType) (idin idout : PacketId) (ms : ℕ) (t t' : Conns)
    → IsTable bound t
    → Opened i conn_type idin idout ms t t'
    → OwnPort bound conn_open conn_type
        (conn_at t'.arr i).sport_outgoing
        (conn_at t'.arr i).idin.dport
    → IsTable bound t'
Opened-IsTable bound i conn_type idin idout ms t t' v o own =
    IsTable-SameBut bound i t t' v o.same
      (subst
        (λ s.
          OwnPort bound s (conn_at t'.arr i).conn_type (conn_at t'.arr i).sport_outgoing
            (conn_at t'.arr i).idin.dport)
        (sym o.state)
        (subst
          (λ c.
            OwnPort bound conn_open c (conn_at t'.arr i).sport_outgoing
              (conn_at t'.arr i).idin.dport)
          (sym o.type_of) own))
      o.valid

pub serve-IsTable :
    (bound : ℕ) (idin idout : PacketId) (ms : ℕ) (t : Conns)
    → IsTable bound t
    → idin.dport ≤ bound
    → IsTable bound (conn_new idin idout conn_server ms t).1
serve-IsTable bound idin idout ms t v low =
    elim (conn_new_cases idin idout conn_server ms t v.some_conn v.valid) [
      | inl (all, fails) ↦
          rw fails (record { some_conn = v.some_conn; is_pool = v.is_pool; valid = v.valid })
      | inr (m, t', less, before, gives, o) ↦ rw gives (
          Opened-IsTable bound (ring t.arr t.last_given m) conn_server idin idout ms t t' v o
            (omega (arith, low, ap (λ d. d.dport) o.idin_of)))
    ]
