-- ===== src/Buffer/Calls.antt =====
-- csp_buffer_get and csp_buffer_free on a pool whose buffers have owners.
use damat_tutorial.Prelude.{
  ℕ, ◌+◌, ◌-◌, ◌%◌, ◌^◌, ◌<◌, ◌≤◌, ◌≡◌, ◌∙◌, ◌⊎◌, inl, inr, refl, ap, arith, none, some, List, [],
  ◌∷◌, ◌++◌, ltb, length, Bool-cases,
}
use damat_tutorial.Queue.{Queue, ok, enqueue, dequeue}
use damat_tutorial.Queue.Fifo.{IsValid, contents, enqueue_lem, dequeue_lem}
use damat_tutorial.Buffer.{
  Pool, slot_at, err_already_free, err_mtu_exceeded, err_refcount, take_free, get, to_slot, release,
  free, free_isr, err_corrupt_buffer,
}
use damat_tutorial.Buffer.Owners.{
  Owned, waiting, times_in, refcount_of, taken, given, take-Owned, give-Owned, waiting-in_pool,
  held-in_pool, waiting-not_held, slot-set, times_in-head,
}

get_fits :
    (data_size size : ℕ) (p : Pool)
    → size ≤ data_size
    → get data_size size p ≡ take_free (dequeue 0 p.free) p
unfolding get
get_fits data_size size p h = ground arith

take_free-some :
    (held : List ℕ) (p : Pool) (v : Owned held p) (i : ℕ) (q : Queue ℕ)
    → i < length p.slots
    → take_free (ok, some i, q) p ≡ (some i, taken held p v i q)
unfolding take_free taken
take_free-some held p v i q inside =
    let self : (slot_at p i).addr ≡ i = ground (arith, v.self i) in ground arith

-- csp_buffer_get on a pool whose buffers have owners: with a size above CSP_BUFFER_SIZE it gives
-- nothing and changes csp_dbg_errno only; with no free buffer it gives nothing, and counts that in
-- csp_dbg_buffer_out; else it gives the buffer that was free for longest, which no one holds, and
-- the caller is its one owner.
pub get_cases :
    (data_size size : ℕ) (held : List ℕ) (p : Pool)
    → Owned held p
    → let r = get data_size size p in
      ((data_size < size) × (r ≡ (none, record p { dbg_errno = err_mtu_exceeded })))
      ⊎ ((size ≤ data_size)
          × (waiting p ≡ [])
          × (r ≡ (none, record p { buffer_out = (p.buffer_out + 1) % 2 ^ 8 })))
      ⊎ ((i : ℕ) × (size ≤ data_size)
          × (r.0 ≡ some i)
          × (waiting p ≡ i ∷ waiting r.1)
          × (times_in i held ≡ 0)
          × Owned (i ∷ held) r.1)
get_cases data_size size held p v = elim (Bool-cases (ltb data_size size)) [
  | inl large ↦ inl (ground arith, unfold get in ground arith)
  | inr fits ↦
      let fit : size ≤ data_size = ground arith in
      elim (dequeue_lem 0 p.free v.queue) [
        | inl (empty, out) ↦ inr (
            inl (
              fit,
              empty,
              get_fits data_size size p fit
                  ∙ ap (λ o. take_free o p) out
                  ∙ unfold take_free in refl,
            ))
        | inr (i, q, out, valid, same, first) ↦
            let inside = waiting-in_pool held p v i q first in
            let r : get data_size size p ≡ (some i, taken held p v i q) =
              get_fits data_size size p fit
              ∙ ap (λ o. take_free o p) out
              ∙ take_free-some held p v i q inside in
            inr (
              inr (
                i,
                fit,
                ap (λ o. o.0) r,
                rw r (unfold taken in first),
                waiting-not_held held p v i q first,
                rw r (take-Owned held p v i q valid same first),
              ))
      ]
]

-- The queue has room for a buffer that is held.
enqueue_room :
    (held : List ℕ) (p : Pool) (i : ℕ)
    → Owned (i ∷ held) p
    → (q : Queue ℕ) × (enqueue i p.free ≡ (ok, q))
      × IsValid q
      × (q.size ≡ p.free.size)
      × (contents 0 q ≡ waiting p ++ i ∷ [])
enqueue_room held p i v = elim (enqueue_lem 0 i p.free v.queue) [
  | inl (full, out) ↦ absurd (omega (arith, v.all_of_them, v.size, full))
  | inr (q, room, out, valid, same, last) ↦ (q, out, valid, same, last)
]

release_held :
    (free_err shared_err : ℕ) (held : List ℕ) (p : Pool) (i : ℕ) (v : Owned (i ∷ held) p)
    (q : Queue ℕ)
    → enqueue i p.free ≡ (ok, q)
    → release free_err shared_err (to_slot i) p ≡ given (i ∷ held) p v i q
unfolding release given
release_held free_err shared_err held p i v q out =
    let inside = held-in_pool (i ∷ held) p v i (omega (arith, times_in-head i held)) in
    let self : (slot_at p i).addr ≡ i = ground (arith, v.self i) in
    let one : refcount_of p i ≡ 1 = v.counted.0 in ground arith

release_free :
    (free_err shared_err : ℕ) (p : Pool) (i : ℕ)
    → (slot_at p i).addr ≡ i
    → refcount_of p i ≡ 0
    → release free_err shared_err (to_slot i) p ≡ record p { dbg_errno = free_err }
unfolding release
release_free free_err shared_err p i self none_left = ground arith

-- csp_buffer_free of a buffer by its one owner puts it at the end of the free queue, leaves the
-- other buffers to their owners, and sets no error; a second call for it changes nothing but
-- csp_dbg_errno, which says that it is free already. csp_buffer_free_isr does the same, with another
-- number for the second call.
pub free_cases :
    (held : List ℕ) (p : Pool) (i : ℕ)
    → Owned (i ∷ held) p
    → let p' = free (to_slot i) p in
      Owned held p'
      × (waiting p' ≡ waiting p ++ i ∷ [])
      × (p'.dbg_errno ≡ p.dbg_errno)
      × (free (to_slot i) p' ≡ record p' { dbg_errno = err_already_free })
      × (free_isr (to_slot i) p ≡ p')
      × (free_isr (to_slot i) p' ≡ record p' { dbg_errno = err_corrupt_buffer })
unfolding free free_isr
free_cases held p i v =
    let (q, out, valid, same, last) = enqueue_room held p i v in
    let owned = give-Owned held p i v q valid same last in
    let inside = held-in_pool (i ∷ held) p v i (omega (arith, times_in-head i held)) in
    let slot =
      slot-set p.slots i i (record (slot_at p i) { refcount = refcount_of p i - 1 }) inside in
    let self : (slot_at (given (i ∷ held) p v i q) i).addr ≡ i =
      unfold given in ap (λ t. t.addr) slot ∙ ground (arith, v.self i) in
    let none_left : refcount_of (given (i ∷ held) p v i q) i ≡ 0 =
      unfold given in ap (λ t. t.refcount) slot ∙ ground (arith, v.counted.0) in
    rw
      (
        release_held err_already_free err_refcount held p i v q out,
        release_held err_corrupt_buffer err_corrupt_buffer held p i v q out,
      )
      (
        owned,
        unfold given in last,
        unfold given in refl,
        release_free err_already_free err_refcount (given (i ∷ held) p v i q) i self none_left,
        refl,
        release_free err_corrupt_buffer err_corrupt_buffer (given (i ∷ held) p v i q) i self
            none_left,
      )
