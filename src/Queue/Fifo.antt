-- ===== src/Queue/Fifo.antt =====
-- The queue against a bounded list: what enqueue and dequeue of pthread_queue.c promise.
use native.Mathlib.Nat.{mod-lt, mod-add-mod, mod-eq_of_lt}
use damat_tutorial.Prelude.{
  ℕ, zero, suc, ◌+◌, ◌-◌, ◌%◌, ◌≤◌, ◌<◌, ◌≡◌, ◌∙◌, ◌⊎◌, inl, inr, refl, sym, ap, none, some, List,
  [], ◌∷◌, ◌++◌, arith, length, get_or, set, ◌==◌, Bool-cases, length-set, length-replicate,
}
use mathlib.Core.Path.{ap₂}
use damat_tutorial.Queue.{Queue, ok, error, create, items, free, enqueue, dequeue}
use damat_tutorial.Queue.Ring.{items_from, items_from-set}

module _ {A : Type 0} where
  -- The positions and the count agree with the buffer.
  pub record IsValid (q : Queue A) : Type 0 where
    pub room : 0 < q.size
    pub fits : length q.buffer ≡ q.size
    pub bounded : q.items ≤ q.size
    pub out_in : q.out_pos < q.size
    pub behind : q.in_pos ≡ (q.out_pos + q.items) % q.size

  -- what is queued, oldest first
  unfoldable pub contents : A → Queue A → List A
  contents blank q = items_from blank q.size q.buffer q.out_pos 0 q.items

  length-items_from :
      (blank : A) (size : ℕ) (buffer : List A) (start k n : ℕ)
      → length (items_from blank size buffer start k n) ≡ n
  length-items_from blank size buffer start k zero = refl
  length-items_from blank size buffer start k (suc n) =
      ap suc (length-items_from blank size buffer start (suc k) n)

  -- Moving the start by one slot.
  items_from-shift :
      (blank : A) (size : ℕ) (buffer : List A) (start k n : ℕ)
      → items_from blank size buffer ((start + 1) % size) k n
        ≡ items_from blank size buffer start (suc k) n
  items_from-shift blank size buffer start k zero = refl
  items_from-shift blank size buffer start k (suc n) =
      ap₂ (λ x xs. x ∷ xs)
        (ap (λ j. get_or buffer j blank)
          (mod-add-mod (start + 1) size k
            ∙ ap (λ m. m % size) {x = start + 1 + k} {y = start + suc k} (omega arith)))
        (items_from-shift blank size buffer start (suc k) n)

  -- On a valid queue, pthread_queue_items counts the values that wait, and pthread_queue_free those
  -- that can still be added.
  pub items-contents :
      (blank : A) (q : Queue A)
      → IsValid q
      → (items q ≡ length (contents blank q)) × (length (contents blank q) + free q ≡ q.size)
  unfolding items free contents
  items-contents blank q v = (
    omega (arith, length-items_from blank q.size q.buffer q.out_pos 0 q.items),
    omega (arith, v.bounded, length-items_from blank q.size q.buffer q.out_pos 0 q.items),
  )

  -- A fresh queue of at least one slot is valid and empty.
  pub create-IsValid :
      (blank : A) (size : ℕ)
      → 0 < size
      → IsValid (create blank size) × (contents blank (create blank size) ≡ [])
  unfolding create contents
  create-IsValid blank size h = (
    record {
      room = h;
      fits = length-replicate size blank;
      bounded = omega arith;
      out_in = h;
      behind = sym (mod-eq_of_lt h);
    },
    refl,
  )

  -- An enqueue on a valid queue: it answers an error, and changes nothing, when as many values wait as
  -- the queue has slots; else it answers ok, and the value waits behind all others.
  pub enqueue_lem :
      (blank value : A) (q : Queue A)
      → IsValid q
      → ((length (contents blank q) ≡ q.size) × (enqueue value q ≡ (error, q)))
        ⊎ ((q' : Queue A) × (length (contents blank q) < q.size)
            × (enqueue value q ≡ (ok, q'))
            × IsValid q'
            × (q'.size ≡ q.size)
            × (contents blank q' ≡ contents blank q ++ value ∷ []))
  unfolding enqueue contents
  enqueue_lem blank value q v = elim (Bool-cases (q.items == q.size)) [
    | inl whole ↦
        let same : q.items ≡ q.size = ground arith in
        inl (
          omega (arith, length-items_from blank q.size q.buffer q.out_pos 0 q.items),
          rw whole refl,
        )
    | inr some_room ↦
        let less : q.items < q.size = ground (arith, v.bounded) in
        inr (
          record q {
            buffer = set q.buffer q.in_pos value;
            items = q.items + 1;
            in_pos = (q.in_pos + 1) % q.size;
          },
          omega (arith, length-items_from blank q.size q.buffer q.out_pos 0 q.items),
          rw some_room refl,
          record {
            room = v.room;
            fits = length-set q.buffer q.in_pos value ∙ v.fits;
            bounded = omega arith;
            out_in = v.out_in;
            behind = next_in q v;
          },
          refl,
          grown q v less,
        )
  ]
    where
      next_in :
          (q : Queue A) → IsValid q → (q.in_pos + 1) % q.size ≡ (q.out_pos + (q.items + 1)) % q.size
      next_in q v =
          ap (λ i. (i + 1) % q.size) v.behind
          ∙ mod-add-mod (q.out_pos + q.items) q.size 1
          ∙ ap (λ n. n % q.size) {x = q.out_pos + q.items + 1} {y = q.out_pos + (q.items + 1)}
              (omega arith)

      grown :
          (q : Queue A)
          → IsValid q
          → q.items < q.size
          → items_from blank q.size (set q.buffer q.in_pos value) q.out_pos 0 (q.items + 1)
            ≡ items_from blank q.size q.buffer q.out_pos 0 q.items ++ value ∷ []
      grown q v less =
          ap (λ n. items_from blank q.size (set q.buffer q.in_pos value) q.out_pos 0 n)
            {x = q.items + 1} {y = suc q.items} (omega arith)
          ∙ ap (λ i. items_from blank q.size (set q.buffer i value) q.out_pos 0 (suc q.items))
              (v.behind
                ∙ ap (λ n. n % q.size) {x = q.out_pos + q.items} {y = q.out_pos + (0 + q.items)}
                    (omega arith))
          ∙ items_from-set blank q.size q.buffer q.out_pos 0 q.items value v.fits (omega arith)

  -- A dequeue on a valid queue: it answers an error, and changes nothing, when nothing waits; else it
  -- answers ok with the value that waited longest, and the others wait on in their order.
  pub dequeue_lem :
      (blank : A) (q : Queue A)
      → IsValid q
      → ((contents blank q ≡ []) × (dequeue blank q ≡ (error, none, q)))
        ⊎ ((value : A) × (q' : Queue A) × (dequeue blank q ≡ (ok, some value, q'))
            × IsValid q'
            × (q'.size ≡ q.size)
            × (contents blank q ≡ value ∷ contents blank q'))
  unfolding dequeue contents
  dequeue_lem blank q v = elim (Bool-cases (q.items == 0)) [
    | inl none_waits ↦
        let zero_items : q.items ≡ 0 = ground arith in
        inl
          (ap (λ n. items_from blank q.size q.buffer q.out_pos 0 n) zero_items, rw none_waits refl)
    | inr waits ↦
        let more : 0 < q.items = ground arith in
        inr (
          get_or q.buffer q.out_pos blank,
          record q { items = q.items - 1; out_pos = (q.out_pos + 1) % q.size },
          rw waits refl,
          record {
            room = v.room;
            fits = v.fits;
            bounded = omega (arith, v.bounded);
            out_in = mod-lt (q.out_pos + 1) {m = q.size} v.room;
            behind = same_in q v more;
          },
          refl,
          shrunk q v more,
        )
  ]
    where
      same_in :
          (q : Queue A)
          → IsValid q
          → 0 < q.items
          → q.in_pos ≡ ((q.out_pos + 1) % q.size + (q.items - 1)) % q.size
      same_in q v more =
          v.behind
          ∙ ap (λ n. n % q.size) {x = q.out_pos + q.items} {y = q.out_pos + 1 + (q.items - 1)}
              (omega arith)
          ∙ sym (mod-add-mod (q.out_pos + 1) q.size (q.items - 1))

      shrunk :
          (q : Queue A)
          → IsValid q
          → 0 < q.items
          → items_from blank q.size q.buffer q.out_pos 0 q.items
            ≡ get_or q.buffer q.out_pos blank
              ∷ items_from blank q.size q.buffer ((q.out_pos + 1) % q.size) 0 (q.items - 1)
      shrunk q v more =
          ap (λ n. items_from blank q.size q.buffer q.out_pos 0 n) {x = q.items}
            {y = suc (q.items - 1)} (omega arith)
          ∙ ap₂ (λ x xs. x ∷ xs)
              (ap (λ i. get_or q.buffer i blank) {x = (q.out_pos + 0) % q.size} {y = q.out_pos}
                (ap (λ n. n % q.size) {x = q.out_pos + 0} {y = q.out_pos} (omega arith)
                  ∙ mod-eq_of_lt v.out_in))
              (sym (items_from-shift blank q.size q.buffer q.out_pos 0 (q.items - 1)))
