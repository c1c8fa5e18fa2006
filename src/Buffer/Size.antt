-- ===== src/Buffer/Size.antt =====
-- The calls of csp_buffer.c keep the number of buffers of the pool.
use damat_tutorial.Prelude.{
  ℕ, zero, suc, ◌+◌, ◌≡◌, ◌∙◌, refl, ap, arith, Option, none, some, List, [], ◌∷◌, length, set,
  length-set, get_elem?, Option-cases, inl, inr, ◌-◌,
}
use damat_tutorial.Queue.{Queue, Status, enqueue, dequeue}
use damat_tutorial.Buffer.{
  Slot, Pool, slot_at, take_free, get, to_slot, free, copy_packet, clone, init_loop, init,
}
use damat_tutorial.Buffer.Clients.{
  Call, get_for, free_held, clone_held, keep, release_kth, clone_kth, step, run,
}

abbrev buffers : Pool → ℕ
buffers p = length p.slots

take_free-buffers :
    (r : Status × Option ℕ × Queue ℕ) (p : Pool) → buffers (take_free r p).1 ≡ buffers p
unfolding take_free
take_free-buffers (status, none, q) p = refl
take_free-buffers (status, some i, q) p =
    ground (arith, length-set p.slots i (record (slot_at p i) { refcount = 1 }))

get-buffers : (data_size size : ℕ) (p : Pool) → buffers (get data_size size p).1 ≡ buffers p
unfolding get
get-buffers data_size size p = ground (arith, take_free-buffers (dequeue 0 p.free) p)

free-buffers : (i : ℕ) (p : Pool) → buffers (free (to_slot i) p) ≡ buffers p
unfolding free
free-buffers i p =
    ground
      (arith, length-set p.slots i (record (slot_at p i) { refcount = (slot_at p i).refcount - 1 }))

copy_packet-buffers :
    (from : ℕ) (r : Option ℕ × Pool) → buffers (copy_packet from r).1 ≡ buffers r.1
unfolding copy_packet
copy_packet-buffers from (none, p) = refl
copy_packet-buffers from (some i, p) =
    length-set p.slots i (record (slot_at p i) { packet = (slot_at p from).packet })

clone-buffers : (data_size i : ℕ) (p : Pool) → buffers (clone data_size (some i) p).1 ≡ buffers p
unfolding clone
clone-buffers data_size i p =
    copy_packet-buffers i (get data_size (slot_at p i).packet.len p)
    ∙ get-buffers data_size (slot_at p i).packet.len p

keep-pool : (held : List ℕ) (r : Option ℕ × Pool) → (keep held r).1 ≡ r.1
keep-pool held (none, p) = refl
keep-pool held (some i, p) = refl

step-buffers :
    (data_size : ℕ) (c : Call) (held : List ℕ) (p : Pool)
    → buffers (step data_size c held p).1 ≡ buffers p
step-buffers data_size (get_for size) held p =
    ap buffers (keep-pool held (get data_size size p)) ∙ get-buffers data_size size p
step-buffers data_size (free_held k) held p = elim (Option-cases (get_elem? held k)) [
  | inl nothing ↦ rw (nothing, release_kth) refl
  | inr (i, e) ↦ rw (e, release_kth) (free-buffers i p)
]
step-buffers data_size (clone_held k) held p = elim (Option-cases (get_elem? held k)) [
  | inl nothing ↦ rw (nothing, clone_kth) refl
  | inr (i, e) ↦
      rw (e, clone_kth)
        (ap buffers (keep-pool held (clone data_size (some i) p)) ∙ clone-buffers data_size i p)
]

pub run-buffers :
    (data_size : ℕ) (calls : List Call) (held : List ℕ) (p : Pool)
    → length (run data_size calls held p).1.slots ≡ length p.slots
unfolding run
run-buffers data_size [] held p = refl
run-buffers data_size (c ∷ calls) held p =
    let (held', p') = step data_size c held p in
    run-buffers data_size calls held' p' ∙ step-buffers data_size c held p

init_loop-buffers : (n i : ℕ) (p : Pool) → buffers (init_loop n i p) ≡ buffers p
unfolding init_loop
init_loop-buffers zero i p = refl
init_loop-buffers (suc n) i p =
    init_loop-buffers n (i + 1) (record p {
      slots = set p.slots i (record (slot_at p i) { addr = i });
      free = (enqueue i p.free).1;
    })
    ∙ length-set p.slots i (record (slot_at p i) { addr = i })

pub init-buffers : (noinit : List Slot) → length (init noinit).slots ≡ length noinit
unfolding init
init-buffers noinit = init_loop-buffers (length noinit) 0 _
