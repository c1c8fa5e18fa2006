-- ===== src/Buffer/Reach.antt =====
-- The pool from csp_buffer_init on, under every sequence of calls by clients that free and clone
-- only buffers that they hold.
use damat_tutorial.Prelude.{
  ℕ, ◌+◌, ◌<◌, ◌≡◌, ◌∙◌, inl, inr, refl, ap, sym, arith, Option, none, some, List, [], ◌∷◌, All,
  length, set, length-set, get_elem?, Option-cases,
}
use damat_tutorial.Queue.Fifo.{items-contents}
use damat_tutorial.Buffer.{Slot, Pool, slot_at, init, get, copy_packet, clone, remaining}
use damat_tutorial.Buffer.Owners.{Owned, refcount_of, slot-set, Owned-counters, held-in_pool}
use damat_tutorial.Buffer.Calls.{get_cases, free_cases}
use damat_tutorial.Buffer.Init.{init-Owned}
use damat_tutorial.Buffer.Size.{run-buffers, init-buffers}
use damat_tutorial.Buffer.Clients.{
  Call, get_for, free_held, clone_held, without, keep, release_kth, clone_kth, step, run,
  Owned-front,
}

keep-some :
    (held : List ℕ) (i : ℕ) (r : Option ℕ × Pool) → r.0 ≡ some i → keep held r ≡ (i ∷ held, r.1)
keep-some held i (none, p) e = cc
keep-some held i (some j, p) e = let same : j ≡ i = cc in ap (λ n. (n ∷ held, p)) same

keep-none : (held : List ℕ) (r : Option ℕ × Pool) → r.0 ≡ none → keep held r ≡ (held, r.1)
keep-none held (none, p) e = refl
keep-none held (some j, p) e = cc

-- The copy of a packet into a buffer leaves the headers alone.
unfoldable pub copy : ℕ → Pool → Slot → Pool
copy i p s = record p { slots = set p.slots i s }

pub copy-Owned :
    (held : List ℕ) (p : Pool) (i : ℕ) (s : Slot)
    → i < length p.slots
    → s.addr ≡ (slot_at p i).addr
    → s.refcount ≡ refcount_of p i
    → Owned held p
    → Owned held (copy i p s)
unfolding copy
copy-Owned held p i s inside addr refcount v = record {
  queue = v.queue;
  size = v.size ∙ sym whole;
  once = λ j. rw whole (v.once j);
  all_of_them = v.all_of_them ∙ sym whole;
  self = λ j. rw (whole, slot-set p.slots i j s inside) (ground (arith, v.self j));
  counted = All_map held v.counted;
}
  where
    whole : length (set p.slots i s) ≡ length p.slots
    whole = length-set p.slots i s

    count_same : (j : ℕ) → refcount_of (copy i p s) j ≡ refcount_of p j
    count_same j = ap (λ t. t.refcount) (slot-set p.slots i j s inside) ∙ ground arith

    All_map :
        (held : List ℕ)
        → All (λ j. refcount_of p j ≡ 1) held
        → All (λ j. refcount_of (copy i p s) j ≡ 1) held
    All_map [] a = tt
    All_map (x ∷ xs) a = (count_same x ∙ a.0, All_map xs a.1)

get-Kept :
    (data_size size : ℕ) (held : List ℕ) (p : Pool)
    → Owned held p
    → Owned (keep held (get data_size size p)).0 (keep held (get data_size size p)).1
get-Kept data_size size held p v = elim (get_cases data_size size held p v) [
  | inl (large, r) ↦ rw r (Owned-counters held p p.buffer_out _ v)
  | inr (inl (fits, empty, r)) ↦ rw r (Owned-counters held p _ p.dbg_errno v)
  | inr (inr (i, fits, r, first, fresh, owned)) ↦
      rw (keep-some held i (get data_size size p) r) owned
]

pub copy_packet-some :
    (from i : ℕ) (r : Option ℕ × Pool)
    → r.0 ≡ some i
    → copy_packet from r
      ≡ (some i, copy i r.1 (record (slot_at r.1 i) { packet = (slot_at r.1 from).packet }))
unfolding copy_packet copy
copy_packet-some from i (none, p) e = cc
copy_packet-some from i (some j, p) e = let same : j ≡ i = cc in rw same refl

pub copy_packet-none : (from : ℕ) (r : Option ℕ × Pool) → r.0 ≡ none → copy_packet from r ≡ r
unfolding copy_packet
copy_packet-none from (none, p) e = refl
copy_packet-none from (some j, p) e = cc

clone-Kept :
    (data_size from : ℕ) (held : List ℕ) (p : Pool)
    → Owned held p
    → Owned
        (keep held (clone data_size (some from) p)).0
        (keep held (clone data_size (some from) p)).1
unfolding clone
clone-Kept data_size from held p v =
    let size = (slot_at p from).packet.len in
    elim (get_cases data_size size held p v) [
      | inl (large, r) ↦ rw (r, copy_packet) (Owned-counters held p p.buffer_out _ v)
      | inr (inl (fits, empty, r)) ↦ rw (r, copy_packet) (Owned-counters held p _ p.dbg_errno v)
      | inr (inr (i, fits, r, first, fresh, owned)) ↦
          rw (copy_packet-some from i (get data_size size p) r) (
            copy-Owned (i ∷ held) (get data_size size p).1 i
              (record (slot_at (get data_size size p).1 i) {
                packet = (slot_at (get data_size size p).1 from).packet;
              })
              (held-in_pool (i ∷ held) (get data_size size p).1 owned i (ground arith)) refl refl
              owned)
    ]

free_kth-Owned :
    (data_size k : ℕ) (held : List ℕ) (p : Pool)
    → Owned held p
    → Owned (step data_size (free_held k) held p).0 (step data_size (free_held k) held p).1
free_kth-Owned data_size k held p v = elim (Option-cases (get_elem? held k)) [
  | inl nothing ↦ rw (nothing, release_kth) v
  | inr (i, e) ↦
      rw (e, release_kth) (free_cases (without k held) p i (Owned-front k i held p e v)).0
]

clone_kth-Owned :
    (data_size k : ℕ) (held : List ℕ) (p : Pool)
    → Owned held p
    → Owned (step data_size (clone_held k) held p).0 (step data_size (clone_held k) held p).1
clone_kth-Owned data_size k held p v = elim (Option-cases (get_elem? held k)) [
  | inl nothing ↦ rw (nothing, clone_kth) v
  | inr (i, e) ↦ rw (e, clone_kth) (clone-Kept data_size i held p v)
]

run-Owned :
    (data_size : ℕ) (calls : List Call) (held : List ℕ) (p : Pool)
    → Owned held p
    → Owned (run data_size calls held p).0 (run data_size calls held p).1
unfolding run
run-Owned data_size [] held p v = v
run-Owned data_size (get_for size ∷ calls) held p v =
    run-Owned data_size calls (step data_size (get_for size) held p).0
      (step data_size (get_for size) held p).1 (get-Kept data_size size held p v)
run-Owned data_size (free_held k ∷ calls) held p v =
    run-Owned data_size calls (step data_size (free_held k) held p).0
      (step data_size (free_held k) held p).1 (free_kth-Owned data_size k held p v)
run-Owned data_size (clone_held k ∷ calls) held p v =
    run-Owned data_size calls (step data_size (clone_held k) held p).0
      (step data_size (clone_held k) held p).1 (clone_kth-Owned data_size k held p v)

-- From csp_buffer_init of at least one buffer on, after every sequence of csp_buffer_get,
-- csp_buffer_free and csp_buffer_clone by clients that free and clone what they hold: no buffer is
-- held twice, or held and free, or lost; a held one has the reference count 1; and
-- csp_buffer_remaining counts the buffers that no one holds.
pub run-init :
    (data_size : ℕ) (noinit : List Slot) (calls : List Call)
    → 0 < length noinit
    → let (held, p) = run data_size calls [] (init noinit) in
      Owned held p × (length p.slots ≡ length noinit) × (remaining p + length held ≡ length p.slots)
unfolding remaining
run-init data_size noinit calls h =
    let v = run-Owned data_size calls [] (init noinit) (init-Owned noinit h) in
    let whole = run-buffers data_size calls [] (init noinit) ∙ init-buffers noinit in
    (v, whole, omega (arith, v.all_of_them, (items-contents 0 _ v.queue).0))
