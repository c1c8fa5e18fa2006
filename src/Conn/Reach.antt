-- ===== src/Conn/Reach.antt =====
-- Sequences of calls on the pool of connections: every client gets its answers.
use native.Mathlib.Nat.{mod-eq_of_lt}
use mathlib.Core.Path.{subst}
use damat_tutorial.Prelude.{
  ℕ, zero, suc, ◌+◌, ◌%◌, ◌<◌, ◌≤◌, ◌^◌, ◌≡◌, ◌∙◌, refl, ap, sym, Bool, arith, Option, none, some,
  List, [], ◌∷◌, if◌then◌else◌, leb, ltb, Bool-cases, inl, inr, length,
}
use damat_tutorial.Packet.{PacketId}
use damat_tutorial.Queue.{create}
use damat_tutorial.Queue.Fifo.{IsValid, create-IsValid}
use damat_tutorial.Conn.{
  conn_closed, conn_open, conn_client, conn_server, Conn, Conns, conn_at, enqueue_packet,
  init_conns, conn_init, find_existing, conn_new, conn_close,
}
use damat_tutorial.Conn.Connect.{connect}
use damat_tutorial.Conn.Demux.{Own, IsPool, find_existing-client}
use damat_tutorial.Conn.Given.{AllValid}
use damat_tutorial.Conn.Keep.{IsTable, enqueue_packet-IsTable, close_open-IsTable, serve-IsTable}
use damat_tutorial.Conn.Client.{connect_cases}

-- The calls: csp_connect; csp_conn_new for a packet that comes in on a socket, as csp_route_work asks
-- for it; csp_conn_enqueue_packet; and csp_close.
pub data Call : Type 0 where
  to_connect : Bool → ℕ → ℕ → ℕ → ℕ → ℕ → ℕ → ℕ → ℕ → Call
  to_serve : PacketId → PacketId → ℕ → Call
  to_enqueue : ℕ → Option ℕ → Call
  to_close : ℕ → Call

-- csp_port_get_socket has no socket for a port above the bound, and callers hold only connections of
-- the pool.
unfoldable pub step : ℕ → Call → Conns → Conns
step bound (to_connect use_hmac dfl_so stray_in stray_out prio dest dport opts ms) t =
    (connect use_hmac dfl_so stray_in stray_out prio dest dport opts ms t).1
step bound (to_serve idin idout ms) t =
    if leb idin.dport bound then (conn_new idin idout conn_server ms t).1 else t
step bound (to_enqueue i packet) t =
    if ltb i (length t.arr) then (enqueue_packet (some i) packet t).1 else t
step bound (to_close i) t = if ltb i (length t.arr) then (conn_close (some i) t).1 else t

unfoldable pub run : ℕ → List Call → Conns → Conns
unfolding step
run bound [] t = t
run bound (call ∷ calls) t = run bound calls (step bound call t)

init_conns_at :
    (bound rx_len k : ℕ) (arr : List Conn) (i : ℕ)
    → i < length arr
    → ((conn_at (init_conns bound rx_len k arr) i).state ≡ conn_closed)
      × ((conn_at (init_conns bound rx_len k arr) i).sport_outgoing ≡ (bound + 1 + (k + i)) % 2 ^ 8)
      × ((conn_at (init_conns bound rx_len k arr) i).rx_queue ≡ create none rx_len)
unfolding init_conns
init_conns_at bound rx_len k [] i inside = absurd (omega arith)
init_conns_at bound rx_len k (c ∷ noinit) zero inside =
    (refl, ap (λ n. (bound + 1 + n) % 2 ^ 8) {x = k} {y = k + 0} (omega arith), refl)
init_conns_at bound rx_len k (c ∷ noinit) (suc i) inside =
    let (state, port, queue) = init_conns_at bound rx_len (k + 1) noinit i (omega arith) in
    (
      state,
      port ∙ ap (λ n. (bound + 1 + n) % 2 ^ 8) {x = k + 1 + i} {y = k + suc i} (omega arith),
      queue,
    )

length-init_conns :
    (bound rx_len k : ℕ) (arr : List Conn) → length (init_conns bound rx_len k arr) ≡ length arr
unfolding init_conns
length-init_conns bound rx_len k [] = refl
length-init_conns bound rx_len k (c ∷ noinit) =
    ap suc (length-init_conns bound rx_len (k + 1) noinit)

pub conn_init-IsTable :
    (bound rx_len : ℕ) (t : Conns)
    → 0 < length t.arr
    → bound + 1 + length t.arr ≤ 2 ^ 8
    → 0 < rx_len
    → IsTable bound (conn_init bound rx_len t)
unfolding conn_init
conn_init-IsTable bound rx_len t some_conn small room =
    let len = length-init_conns bound rx_len 0 t.arr in
    record {
      some_conn = omega (arith, len, some_conn);
      is_pool = record {
        ports = λ i h.
            let (state, port, queue) =
              init_conns_at bound rx_len 0 t.arr i (omega (arith, len, h)) in
            port ∙ mod-eq_of_lt (omega (arith, len, h, small)) ∙ omega arith;
        own = λ i h. closed_own i (init_conns_at bound rx_len 0 t.arr i (omega (arith, len, h))).0;
      };
      valid = λ i h.
          subst IsValid (sym (init_conns_at bound rx_len 0 t.arr i (omega (arith, len, h))).2)
            (create-IsValid none rx_len room).0;
    }
  where
    closed_own :
        (i : ℕ)
        → (conn_at (init_conns bound rx_len 0 t.arr) i).state ≡ conn_closed
        → Own bound (conn_at (init_conns bound rx_len 0 t.arr) i)
    closed_own i state = rw state tt

step-IsTable :
    (bound : ℕ) (call : Call) (t : Conns) → IsTable bound t → IsTable bound (step bound call t)
unfolding step conn_close
step-IsTable bound (to_connect use_hmac dfl_so stray_in stray_out prio dest dport opts ms) t v =
    elim (connect_cases bound use_hmac dfl_so stray_in stray_out prio dest dport opts ms t v) [
      | inl (t', runs, same) ↦ subst (λ o. IsTable bound o.1) (sym runs) (same_arr t t' same v)
      | inr (i, t', runs, client) ↦ subst (λ o. IsTable bound o.1) (sym runs) client.table
    ]
  where
    same_arr : (t t' : Conns) → t'.arr ≡ t.arr → IsTable bound t → IsTable bound t'
    same_arr t t' e v = record {
      some_conn = subst (λ l. 0 < length l) (sym e) v.some_conn;
      is_pool = subst (IsPool bound) (sym e) v.is_pool;
      valid = subst AllValid (sym e) v.valid;
    }
step-IsTable bound (to_serve idin idout ms) t v = elim (Bool-cases (leb idin.dport bound)) [
  | inl low ↦ rw low (serve-IsTable bound idin idout ms t v (ground arith))
  | inr high ↦ rw high v
]
step-IsTable bound (to_enqueue i packet) t v = elim (Bool-cases (ltb i (length t.arr))) [
  | inl inside ↦ rw inside (enqueue_packet-IsTable bound i packet t v (ground arith))
  | inr outside ↦ rw outside v
]
step-IsTable bound (to_close i) t v = elim (Bool-cases (ltb i (length t.arr))) [
  | inl inside ↦ rw inside (close_open-IsTable bound i (conn_at t.arr i).state t v (ground arith))
  | inr outside ↦ rw outside v
]

pub run-IsTable :
    (bound : ℕ) (calls : List Call) (t : Conns)
    → IsTable bound t
    → IsTable bound (run bound calls t)
unfolding run
run-IsTable bound [] t v = v
run-IsTable bound (call ∷ calls) t v =
    run-IsTable bound calls (step bound call t) (step-IsTable bound call t v)

-- Every client gets its answers. After csp_conn_init of at least one connection with a queue of at
-- least one slot, where the source ports fit a uint8_t, and any sequence of calls of csp_connect,
-- csp_conn_new for a server, csp_conn_enqueue_packet and csp_close: csp_conn_find_existing gives a
-- packet for the source port of an open client connection to that connection and to no other.
pub run-find_existing :
    (bound rx_len : ℕ) (noinit : Conns) (calls : List Call) (j : ℕ) (id : PacketId)
    → 0 < length noinit.arr
    → bound + 1 + length noinit.arr ≤ 2 ^ 8
    → 0 < rx_len
    → j < length (run bound calls (conn_init bound rx_len noinit)).arr
    → (conn_at (run bound calls (conn_init bound rx_len noinit)).arr j).state ≡ conn_open
    → (conn_at (run bound calls (conn_init bound rx_len noinit)).arr j).conn_type ≡ conn_client
    → id.dport ≡ (conn_at (run bound calls (conn_init bound rx_len noinit)).arr j).sport_outgoing
    → find_existing id (run bound calls (conn_init bound rx_len noinit)) ≡ some j
run-find_existing bound rx_len noinit calls j id some_conn small room inside state type port =
    let v =
      run-IsTable bound calls (conn_init bound rx_len noinit)
        (conn_init-IsTable bound rx_len noinit some_conn small room) in
    find_existing-client bound j id (run bound calls (conn_init bound rx_len noinit)) v.is_pool
      inside state type (port ∙ v.is_pool.ports j inside)
