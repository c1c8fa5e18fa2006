-- ===== src/Conn/Flush.antt =====
-- csp_conn_flush_rx_queue: it empties the queue and frees what waits there, oldest first.
use damat_tutorial.Prelude.{
  ℕ, zero, suc, ◌<◌, ◌≡◌, ◌∙◌, refl, ap, sym, arith, Option, none, some, List, [], ◌∷◌, length, inl,
  inr, get_or-set_self, set, set-set, ◌⊎◌,
}
use damat_tutorial.Buffer.{Pool}
use damat_tutorial.Queue.{Queue, items}
use damat_tutorial.Queue.Fifo.{IsValid, contents, dequeue_lem, items-contents}
use damat_tutorial.Prelude.Int.{ℤ, pos}
use damat_tutorial.Conn.{
  ConnState, conn_closed, conn_open, close_open, conn_close, Conn, Conns, conn_at, blank_conn,
  free_packet, flush_on, flush_loop, flush_rx_queue,
}

-- csp_buffer_free on one packet after the other
unfoldable pub free_all : List (Option ℕ) → Pool → Pool
free_all [] p = p
free_all (packet ∷ packets) p = free_all packets (free_packet packet p)

-- The loop on a valid queue, with a call of dequeue for each value and one more.
pub flush_loop_lem :
    (fuel : ℕ) (q : Queue (Option ℕ)) (p : Pool)
    → IsValid q
    → length (contents none q) < fuel
    → (q' : Queue (Option ℕ)) × (flush_loop fuel q p ≡ (q', free_all (contents none q) p))
      × IsValid q'
      × (contents none q' ≡ [])
unfolding flush_loop free_all
flush_loop_lem zero q p v h = absurd (omega arith)
flush_loop_lem (suc fuel) q p v h = elim (dequeue_lem none q v) [
  | inl nothing ↦ (
    q,
    ap (λ o. flush_on (λ q' p'. flush_loop fuel q' p') o p) nothing.1
        ∙ ap (λ l. (q, free_all l p)) (sym nothing.0),
    v,
    nothing.0,
  )
  | inr (packet, q1, takes, v1, size, waits) ↦
      let (q', run, v', empty) =
        flush_loop_lem fuel q1 (free_packet packet p) v1 (omega (arith, h, ap length waits)) in
      (
        q',
        ap (λ o. flush_on (λ q2 p2. flush_loop fuel q2 p2) o p) takes
            ∙ run
            ∙ ap (λ l. (q', free_all l p)) (sym waits),
        v',
        empty,
      )
]

-- On a valid queue, csp_conn_flush_rx_queue leaves the queue of connection i empty and valid, and has
-- given all packets that waited there to csp_buffer_free, oldest first.
pub flush_rx_queue_lem :
    (i : ℕ) (t : Conns)
    → IsValid (conn_at t.arr i).rx_queue
    → (q : Queue (Option ℕ)) × IsValid q
      × (contents none q ≡ [])
      × (flush_rx_queue i t ≡ record t {
        arr = set t.arr i (record (conn_at t.arr i) { rx_queue = q });
        pool = free_all (contents none (conn_at t.arr i).rx_queue) t.pool;
      })
unfolding flush_rx_queue items
flush_rx_queue_lem i t v =
    let (q, run, valid, empty) =
      flush_loop_lem (suc (conn_at t.arr i).rx_queue.items) (conn_at t.arr i).rx_queue t.pool v
        (omega (arith, (items-contents none (conn_at t.arr i).rx_queue v).0)) in
    (
      q,
      valid,
      empty,
      ap
          (λ o. record t {
            arr = set t.arr i (record (conn_at t.arr i) { rx_queue = o.0 });
            pool = o.1;
          })
          run,
    )

-- csp_close in a build without RDP, of a connection with a valid queue: it answers CSP_ERR_NONE, and a
-- connection that is closed already changes csp_dbg_errno only. An open one is closed, its queue is
-- empty and valid, all packets that waited there were given to csp_buffer_free, oldest first, and
-- the other connections are as before.
conn_close_cases :
    (i : ℕ) (t : Conns)
    → i < length t.arr
    → IsValid (conn_at t.arr i).rx_queue
    → (((conn_at t.arr i).state ≡ conn_closed)
        × (conn_close (some i) t ≡ (pos 0, record t { pool = record (t.pool) { dbg_errno = 10 } })))
      ⊎ ((q : Queue (Option ℕ)) × ((conn_at t.arr i).state ≡ conn_open)
          × IsValid q
          × (contents none q ≡ [])
          × (conn_close (some i) t ≡ (
            pos 0,
            record t {
              arr = set t.arr i (record (conn_at t.arr i) { state = conn_closed; rx_queue = q });
              pool = free_all (contents none (conn_at t.arr i).rx_queue) t.pool;
            },
          )))
unfolding conn_close
conn_close_cases i t inside v = by_state (conn_at t.arr i).state refl
  where
    by_state :
        (s : ConnState)
        → (conn_at t.arr i).state ≡ s
        → ((s ≡ conn_closed)
            × (◌≡◌ {A = ℤ × Conns}
                (pos 0, close_open s i t)
                (pos 0, record t { pool = record (t.pool) { dbg_errno = 10 } })))
          ⊎ ((q : Queue (Option ℕ)) × (s ≡ conn_open)
              × IsValid q
              × (contents none q ≡ [])
              × (◌≡◌ {A = ℤ × Conns}
                  (pos 0, close_open s i t)
                  (
                    pos 0,
                    record t {
                      arr =
                          set t.arr i
                            (record (conn_at t.arr i) { state = conn_closed; rx_queue = q });
                      pool = free_all (contents none (conn_at t.arr i).rx_queue) t.pool;
                    },
                  )))
    by_state conn_closed e = inl (refl, refl)
    by_state conn_open e =
        let (q, valid, empty, run) = flush_rx_queue_lem i t v in
        let c : Conn = record (conn_at t.arr i) { rx_queue = q } in
        inr (
          q,
          refl,
          valid,
          empty,
          ap {A = Conns} {B = ℤ × Conns}
                (λ u. (
                  pos 0,
                  record u { arr = set u.arr i (record (conn_at u.arr i) { state = conn_closed }) },
                ))
                run
              ∙ ap {A = Conn} {B = ℤ × Conns}
                  (λ d. (
                    pos 0,
                    record t {
                      arr = set (set t.arr i c) i (record d { state = conn_closed });
                      pool = free_all (contents none (conn_at t.arr i).rx_queue) t.pool;
                    },
                  ))
                  (get_or-set_self t.arr i c blank_conn inside)
              ∙ ap {A = List Conn} {B = ℤ × Conns}
                  (λ l. (
                    pos 0,
                    record t {
                      arr = l;
                      pool = free_all (contents none (conn_at t.arr i).rx_queue) t.pool;
                    },
                  ))
                  (set-set t.arr i c (record c { state = conn_closed })),
        )
