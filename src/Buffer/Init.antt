-- ===== src/Buffer/Init.antt =====
-- csp_buffer_init leaves every buffer of the pool on the free queue.
use mathlib.Core.Path.{subst}
use damat_tutorial.Prelude.{
  ℕ, zero, suc, ◌+◌, ◌<◌, ◌≤◌, ◌≡◌, ◌∙◌, inl, inr, refl, ap, sym, arith, List, [], ◌∷◌, ◌++◌,
  if◌then◌else◌, ltb, length, get_or, set, length-set, length-append, Bool-cases,
}
use damat_tutorial.Queue.{Queue, ok, enqueue, create}
use damat_tutorial.Queue.Fifo.{IsValid, enqueue_lem, create-IsValid}
use damat_tutorial.Buffer.{Slot, Pool, blank_slot, slot_at, init_loop, init}
use damat_tutorial.Buffer.Owners.{Owned, waiting, times_in, times_in-append, slot-set}

abbrev up_to : ℕ → List ℕ
up_to zero = []
up_to (suc n) = up_to n ++ n ∷ []

length-up_to : (n : ℕ) → length (up_to n) ≡ n
length-up_to zero = refl
length-up_to (suc n) = omega (arith, length-append (up_to n) (n ∷ []), length-up_to n)

times_in-up_to : (n i : ℕ) → times_in i (up_to n) ≡ (if ltb i n then 1 else 0)
times_in-up_to zero i = ground arith
times_in-up_to (suc n) i = ground (arith, times_in-append i (up_to n) (n ∷ []), times_in-up_to n i)

get_or-outside :
    (slots : List Slot) (j : ℕ) → length slots ≤ j → get_or slots j blank_slot ≡ blank_slot
get_or-outside [] j h = refl
get_or-outside (s ∷ slots) zero h = absurd (omega arith)
get_or-outside (s ∷ slots) (suc j) h = get_or-outside slots j (omega arith)

-- The first n buffers are set up and on the queue.
record Filled (n : ℕ) (p : Pool) : Type 0 where
  queue : IsValid p.free
  size : p.free.size ≡ length p.slots
  queued : waiting p ≡ up_to n
  self : (j : ℕ) → j < n → (slot_at p j).addr ≡ j

abbrev fill : ℕ → Queue ℕ → Pool → Pool
fill i q p = record p { slots = set p.slots i (record (slot_at p i) { addr = i }); free = q }

fill-Filled :
    (i : ℕ) (p : Pool)
    → Filled i p
    → i < length p.slots
    → (q : Queue ℕ) × (enqueue i p.free ≡ (ok, q)) × Filled (suc i) (fill i q p)
fill-Filled i p f h = elim (enqueue_lem 0 i p.free f.queue) [
  | inl (full, out) ↦ absurd (omega (arith, full, f.size, ap length f.queued, length-up_to i))
  | inr (q, room, out, valid, same, last) ↦ (
    q,
    out,
    record {
      queue = valid;
      size = same ∙ f.size ∙ sym (length-set p.slots i (record (slot_at p i) { addr = i }));
      queued = last ∙ ap (λ l. l ++ i ∷ []) f.queued;
      self = λ j below.
          ap (λ t. t.addr) (slot-set p.slots i j (record (slot_at p i) { addr = i }) h)
          ∙ ground (arith, f.self j);
    },
  )
]

init_loop-Filled :
    (n i k : ℕ) (p : Pool)
    → Filled i p
    → i + n ≡ k
    → length p.slots ≡ k
    → Filled k (init_loop n i p) × (length (init_loop n i p).slots ≡ k)
unfolding init_loop
init_loop-Filled zero i k p f e whole =
    let same : i ≡ k = omega arith in (subst (λ m. Filled m p) same f, whole)
init_loop-Filled (suc n) i k p f e whole =
    let (q, out, next) = fill-Filled i p f (omega arith) in
    let step : Filled (i + 1) (fill i (enqueue i p.free).1 p) =
      subst (λ m. Filled m (fill i (enqueue i p.free).1 p)) {x = suc i} {y = i + 1} (omega arith)
        (rw out next) in
    init_loop-Filled n (i + 1) k (fill i (enqueue i p.free).1 p) step (omega arith)
      (length-set p.slots i (record (slot_at p i) { addr = i }) ∙ whole)

abbrev empty_pool : List Slot → Pool
empty_pool noinit = record {
  slots = noinit;
  free = create 0 (length noinit);
  buffer_out = 0;
  dbg_errno = 0;
}

empty_pool-Filled : (noinit : List Slot) → 0 < length noinit → Filled 0 (empty_pool noinit)
unfolding create
empty_pool-Filled noinit h = record {
  queue = (create-IsValid 0 (length noinit) h).0;
  size = refl;
  queued = (create-IsValid 0 (length noinit) h).1;
  self = λ j below. absurd (omega arith);
}

Filled-Owned : (n : ℕ) (p : Pool) → Filled n p → length p.slots ≡ n → Owned [] p
Filled-Owned n p f whole = record {
  queue = f.queue;
  size = f.size;
  once = λ j. rw whole (omega (arith, ap (times_in j) f.queued, times_in-up_to n j));
  all_of_them = rw whole (omega (arith, ap length f.queued, length-up_to n));
  self = λ j. elim (Bool-cases (ltb j (length p.slots))) [
    | inl below ↦ rw below (f.self j (ground arith))
    | inr above ↦ rw above (ap (λ t. t.addr) (get_or-outside p.slots j (ground arith)))
  ];
  counted = tt;
}

-- csp_buffer_init of at least one buffer leaves all of them free.
pub init-Owned : (noinit : List Slot) → 0 < length noinit → Owned [] (init noinit)
unfolding init
init-Owned noinit h =
    let (f, whole) =
      init_loop-Filled (length noinit) 0 (length noinit) (empty_pool noinit)
        (empty_pool-Filled noinit h) (omega arith) refl in
    Filled-Owned (length noinit) (init_loop (length noinit) 0 (empty_pool noinit)) f whole
