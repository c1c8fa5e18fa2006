-- ===== src/RdpQueue/Flush.antt =====
-- csp_rdp_queue_flush: the queue is emptied, whoever the packets belong to.
use damat_tutorial.Prelude.{
  ℕ, zero, suc, ◌<◌, ◌≡◌, ◌∙◌, refl, ap, sym, arith, Option, List, [], ◌∷◌, Bool-cases, inl, inr,
  length, filter,
}
use damat_tutorial.Queue.{Queue, items}
use damat_tutorial.Queue.Fifo.{IsValid, contents, dequeue_lem, items-contents}
use damat_tutorial.Buffer.{Pool, to_slot, free}
use damat_tutorial.RdpQueue.{
  Store, owner_of, is_flushed, flushed, flush_loop, flush_one, flush, size, Queues, tx_store,
  then_rx,
}
use damat_tutorial.RdpQueue.Take.{waiting, dequeue_head}

-- csp_buffer_free on one buffer after the other
unfoldable pub free_each : List ℕ → Pool → Pool
free_each [] p = p
free_each (i ∷ is) p = free_each is (free (to_slot i) p)

module _ (conn : Option ℕ) where
  -- The packets of the connection among some, or all of them for NULL
  abbrev pub own_packets : Store → List ℕ → List ℕ
  own_packets s l = filter (λ i. is_flushed conn (owner_of s i)) l

  flush_loop_lem :
      (fuel : ℕ) (s : Store) (l : List ℕ)
      → IsValid s.queue
      → waiting s ≡ l
      → length l < fuel
      → (q : Queue ℕ) × (flush_loop conn fuel s
          ≡ record s { queue = q; pool = free_each (own_packets s l) s.pool })
        × IsValid q
        × (contents 0 q ≡ [])
  unfolding flush_loop free_each
  flush_loop_lem zero s l v e h = absurd (omega arith)
  flush_loop_lem (suc fuel) s [] v e h = elim (dequeue_lem 0 s.queue v) [
    | inl (nothing, fails) ↦
        (s.queue, ap (λ o. flushed conn (λ s'. flush_loop conn fuel s') o s) fails, v, nothing)
    | inr (j, q, takes, valid, same_size, left) ↦
        let bad : [] ≡ j ∷ contents 0 q = sym e ∙ left in cc
  ]
  flush_loop_lem (suc fuel) s (i ∷ l) v e h =
      let (q, takes, valid, rest, room) = dequeue_head s.queue i l v e in
      let s1 : Store = record s { queue = q } in
      let next = ap (λ o. flushed conn (λ s'. flush_loop conn fuel s') o s) takes in
      elim (Bool-cases (is_flushed conn (owner_of s i))) [
        | inl own ↦
            let (q', runs, valid', empty) =
              flush_loop_lem fuel (record s1 { pool = free (to_slot i) s.pool }) l valid rest
                (omega arith) in
            (q', next ∙ rw own runs, valid', empty)
        | inr foreign ↦
            let (q', runs, valid', empty) = flush_loop_lem fuel s1 l valid rest (omega arith) in
            (q', next ∙ rw foreign runs, valid', empty)
      ]

  flush_one_lem :
      (s : Store)
      → IsValid s.queue
      → (q : Queue ℕ) × (flush_one conn s
          ≡ record s { queue = q; pool = free_each (own_packets s (waiting s)) s.pool })
        × IsValid q
        × (contents 0 q ≡ [])
  unfolding flush_one size items
  flush_one_lem s v =
      flush_loop_lem (suc s.queue.items) s (waiting s) v refl
        (omega (arith, (items-contents 0 s.queue v).0))

  -- csp_rdp_queue_flush for a connection, or for all with NULL: both queues are empty afterwards. The
  -- packets of the connection were given to csp_buffer_free, those in the queue for sending first, each
  -- in their order; those of all other connections are in no queue any more and were not freed.
  pub flush_lem :
      (t : Queues)
      → IsValid t.tx
      → IsValid t.rx
      → (tx rx : Queue ℕ) × (flush conn t ≡ record t {
        tx = tx;
        rx = rx;
        pool =
            free_each
              (own_packets (tx_store t) (contents 0 t.rx))
              (free_each (own_packets (tx_store t) (contents 0 t.tx)) t.pool);
      })
        × (contents 0 tx ≡ [])
        × (contents 0 rx ≡ [])
  unfolding flush
  flush_lem t v w =
      let (tx, runs, valid, empty) = flush_one_lem (tx_store t) v in
      let pool = free_each (own_packets (tx_store t) (contents 0 t.tx)) t.pool in
      let (rx, later, valid', empty') =
        flush_one_lem (record { queue = t.rx; owner = t.owner; pool = pool }) w in
      (
        tx,
        rx,
        ap (then_rx conn t.rx) runs
            ∙ ap (λ s. record { tx = tx; rx = s.queue; owner = s.owner; pool = s.pool }) later,
        empty,
        empty',
      )
