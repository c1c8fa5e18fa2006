-- ===== src/Buffer/Owners.antt =====
-- Who owns the buffers of the pool: each is free or has one owner, and a call moves one between.
use damat_tutorial.Prelude.{
  ℕ, ◌+◌, ◌-◌, ◌<◌, ◌≤◌, ◌≡◌, ◌≢◌, ◌∙◌, inl, inr, ap, sym, arith, List, [], ◌∷◌, ◌++◌, All,
  if◌then◌else◌, ltb, ◌==◌, length, get_or, set, length-set, get_or-set_lem, length-append,
  Bool-cases,
}
use damat_tutorial.Queue.{Queue}
use damat_tutorial.Queue.Fifo.{IsValid, contents}
use damat_tutorial.Buffer.{Slot, Pool, blank_slot, slot_at}

-- How often a buffer stands in a list
abbrev pub times_in : ℕ → List ℕ → ℕ
times_in buffer [] = 0
times_in buffer (b ∷ rest) = (if b == buffer then 1 else 0) + times_in buffer rest

pub times_in-append :
    (buffer : ℕ) (left right : List ℕ)
    → times_in buffer (left ++ right) ≡ times_in buffer left + times_in buffer right
times_in-append buffer [] right = omega arith
times_in-append buffer (b ∷ rest) right = omega (arith, times_in-append buffer rest right)

-- the numbers of the buffers on the free queue
abbrev pub waiting : Pool → List ℕ
waiting p = contents 0 p.free

abbrev pub refcount_of : Pool → ℕ → ℕ
refcount_of p i = (slot_at p i).refcount

-- The buffers of `held` have an owner each: every buffer of the pool is either on the free queue or
-- held, once, and a held one has the count 1.
pub record Owned (held : List ℕ) (p : Pool) : Type 0 where
  pub queue : IsValid p.free
  pub size : p.free.size ≡ length p.slots
  pub once :
      (i : ℕ) → times_in i (waiting p) + times_in i held ≡ (if ltb i (length p.slots) then 1 else 0)
  pub all_of_them : length (waiting p) + length held ≡ length p.slots
  pub self : (i : ℕ) → (slot_at p i).addr ≡ (if ltb i (length p.slots) then i else 0)
  pub counted : All (λ i. refcount_of p i ≡ 1) held

-- A buffer of which there is a member is one of the pool.
pub times_in-head : (i : ℕ) (xs : List ℕ) → times_in i (i ∷ xs) ≡ 1 + times_in i xs
times_in-head i xs = ground arith

All-times_in :
    (P Q : ℕ → Type 0) (i : ℕ) (xs : List ℕ)
    → times_in i xs ≡ 0
    → ((j : ℕ) → j ≢ i → P j → Q j)
    → All P xs
    → All Q xs
All-times_in P Q i [] h f a = tt
All-times_in P Q i (x ∷ xs) h f a = elim (Bool-cases (x == i)) [
  | inl same ↦ absurd (ground arith)
  | inr other ↦ (f x (ground arith) a.0, All-times_in P Q i xs (omega arith) f a.1)
]

-- A read of the pool after a write to it
pub slot-set :
    (slots : List Slot) (i j : ℕ) (s : Slot)
    → i < length slots
    → get_or (set slots i s) j blank_slot ≡ (if j == i then s else get_or slots j blank_slot)
slot-set slots i j s h = get_or-set_lem slots i j s blank_slot h

module _ (held : List ℕ) (p : Pool) (v : Owned held p) (i : ℕ) where
  -- The buffer at the head of the queue, or one that is held, is one of the pool.
  pub waiting-in_pool : (q : Queue ℕ) → waiting p ≡ i ∷ contents 0 q → i < length p.slots
  waiting-in_pool q first =
      let one : times_in i (waiting p) ≡ 1 + times_in i (contents 0 q) =
        ap (times_in i) first ∙ times_in-head i (contents 0 q) in
      ground (arith, v.once i)

  pub waiting-not_held : (q : Queue ℕ) → waiting p ≡ i ∷ contents 0 q → times_in i held ≡ 0
  waiting-not_held q first =
      omega (arith, v.once i, ap (times_in i) first, times_in-head i (contents 0 q), in_test)
    where
      in_test : (if ltb i (length p.slots) then 1 else 0) ≤ 1
      in_test = ground arith

  unfoldable pub taken : Queue ℕ → Pool
  taken q = record p { slots = set p.slots i (record (slot_at p i) { refcount = 1 }); free = q }

  -- The first free buffer passes to the caller.
  pub take-Owned :
      (q : Queue ℕ)
      → IsValid q
      → q.size ≡ p.free.size
      → waiting p ≡ i ∷ contents 0 q
      → Owned (i ∷ held) (taken q)
  unfolding taken
  take-Owned q valid same first = record {
    queue = valid;
    size = same ∙ v.size ∙ sym whole;
    once = λ j. rw whole (omega (arith, ap (times_in j) first, v.once j));
    all_of_them = rw whole (omega (arith, ap length first, v.all_of_them));
    self = λ j. rw (whole, slot-set p.slots i j s inside) (ground (arith, v.self j, v.self i));
    counted = (
      ap (λ t. t.refcount) (slot-set p.slots i i s inside) ∙ ground arith,
      All-times_in (λ j. refcount_of p j ≡ 1) (λ j. refcount_of (taken q) j ≡ 1) i held
          (waiting-not_held q first)
          (λ j other one. ap (λ t. t.refcount) (slot-set p.slots i j s inside) ∙ ground arith)
          v.counted,
    );
  }
    where
      s : Slot
      s = record (slot_at p i) { refcount = 1 }

      whole : length (set p.slots i s) ≡ length p.slots
      whole = length-set p.slots i s

      inside : i < length p.slots
      inside = waiting-in_pool q first

  unfoldable pub given : Queue ℕ → Pool
  given q = record p {
    slots = set p.slots i (record (slot_at p i) { refcount = refcount_of p i - 1 });
    free = q;
  }

  pub held-in_pool : 1 ≤ times_in i held → i < length p.slots
  held-in_pool h = ground (arith, v.once i)

-- The owner of a buffer gives it back.
pub give-Owned :
    (held : List ℕ) (p : Pool) (i : ℕ) (v : Owned (i ∷ held) p) (q : Queue ℕ)
    → IsValid q
    → q.size ≡ p.free.size
    → contents 0 q ≡ waiting p ++ i ∷ []
    → Owned held (given (i ∷ held) p v i q)
unfolding given
give-Owned held p i v q valid same last = record {
  queue = valid;
  size = same ∙ v.size ∙ sym whole;
  once = λ j.
      rw whole
        (omega (arith, ap (times_in j) last, times_in-append j (waiting p) (i ∷ []), v.once j));
  all_of_them =
      rw whole (omega (arith, ap length last, length-append (waiting p) (i ∷ []), v.all_of_them));
  self = λ j. rw (whole, slot-set p.slots i j s inside) (ground (arith, v.self j, v.self i));
  counted =
      All-times_in (λ j. refcount_of p j ≡ 1) (λ j. refcount_of (given (i ∷ held) p v i q) j ≡ 1) i
        held (omega (arith, v.once i, times_in-head i held, in_test))
        (λ j other one. ap (λ t. t.refcount) (slot-set p.slots i j s inside) ∙ ground arith)
        v.counted.1;
}
  where
    s : Slot
    s = record (slot_at p i) { refcount = refcount_of p i - 1 }

    whole : length (set p.slots i s) ≡ length p.slots
    whole = length-set p.slots i s

    inside : i < length p.slots
    inside = held-in_pool (i ∷ held) p v i (omega (arith, times_in-head i held))

    in_test : (if ltb i (length p.slots) then 1 else 0) ≤ 1
    in_test = ground arith

-- Owned says nothing of the counters.
pub Owned-counters :
    (held : List ℕ) (p : Pool) (out errno : ℕ)
    → Owned held p
    → Owned held (record p { buffer_out = out; dbg_errno = errno })
Owned-counters held p out errno v = record {
  queue = v.queue;
  size = v.size;
  once = v.once;
  all_of_them = v.all_of_them;
  self = v.self;
  counted = v.counted;
}
