-- ===== src/RdpQueue/Take.antt =====
-- csp_rdp_queue_tx_get and csp_rdp_queue_rx_get: which packet they give, and what becomes of the others.
use damat_tutorial.Prelude.{
  ℕ, zero, suc, ◌<◌, ◌≡◌, ◌≢◌, ◌∙◌, refl, ap, sym, true, false, arith, All, some, List, [], ◌∷◌,
  ◌++◌, ◌==◌, inl, inr, length, length-append, get_or, set, get_or-set_self, get_or-set_other,
  length-set,
}
use mathlib.Core.List.{append_assoc, append-nil}
use damat_tutorial.Queue.{Queue, ok, dequeue, items}
use damat_tutorial.Queue.Fifo.{IsValid, contents, enqueue_lem, dequeue_lem, items-contents}
use damat_tutorial.RdpQueue.{Store, owner_of, added, add, taken, get_loop, get, size}

-- The store with another queue and other owners
abbrev with_queue : Queue ℕ → List ℕ → Store → Store
with_queue q owner s = record s { queue = q; owner = owner }

abbrev pub waiting : Store → List ℕ
waiting s = contents 0 s.queue

-- No buffer stands twice in the list.
abbrev pub Distinct : List ℕ → Type 0
Distinct [] = Unit
Distinct (i ∷ is) = All (λ j. j ≢ i) is × Distinct is

-- Where there is room, an added packet waits behind the others.
add_lem :
    (conn i : ℕ) (s : Store)
    → IsValid s.queue
    → length (waiting s) < s.queue.size
    → (q : Queue ℕ) × (add conn i s ≡ with_queue q (set s.owner i conn) s)
      × IsValid q
      × (q.size ≡ s.queue.size)
      × (contents 0 q ≡ waiting s ++ i ∷ [])
unfolding add
add_lem conn i s v room = elim (enqueue_lem 0 i s.queue v) [
  | inl (whole, fails) ↦ absurd (omega (arith, room, whole))
  | inr (q, less, stored, valid, same_size, rest) ↦ (
    q,
    ap (λ o. added i o (record s { owner = set s.owner i conn })) stored,
    valid,
    same_size,
    rest,
  )
]

-- A dequeue where packets wait
pub dequeue_head :
    (q : Queue ℕ) (j : ℕ) (rest : List ℕ)
    → IsValid q
    → contents 0 q ≡ j ∷ rest
    → (q' : Queue ℕ) × (dequeue 0 q ≡ (ok, some j, q'))
      × IsValid q'
      × (contents 0 q' ≡ rest)
      × (length rest < q'.size)
dequeue_head q j rest v e = elim (dequeue_lem 0 q v) [
  | inl (nothing, fails) ↦ let bad : [] ≡ j ∷ rest = sym nothing ∙ e in cc
  | inr (j', q', takes, valid, same_size, left) ↦
      let cells : j' ∷ contents 0 q' ≡ j ∷ rest = sym left ∙ e in
      let head : j' ≡ j = cc in
      let tail : contents 0 q' ≡ rest = cc in
      (
        q',
        takes ∙ ap (λ k. (ok, some k, q')) head,
        valid,
        tail,
        omega (arith, (items-contents 0 q v).1, ap length e, v.bounded, same_size),
      )
]

still_foreign :
    (owner : List ℕ) (conn j : ℕ) (pre : List ℕ)
    → All (λ k. k ≢ j) pre
    → All (λ k. get_or owner k 0 ≢ conn) pre
    → All (λ k. get_or (set owner j conn) k 0 ≢ conn) pre
still_foreign owner conn j [] apart foreign = tt
still_foreign owner conn j (k ∷ pre) (differs, apart) (other, foreign) = (
  λ e. other (sym (get_or-set_other owner j k conn 0 differs) ∙ e),
  still_foreign owner conn j pre apart foreign,
)

still_inside :
    (owner : List ℕ) (conn j : ℕ) (pre : List ℕ)
    → All (λ k. k < length owner) pre
    → All (λ k. k < length (set owner j conn)) pre
still_inside owner conn j [] inside = tt
still_inside owner conn j (k ∷ pre) (h, inside) =
    (omega (arith, length-set owner j conn), still_inside owner conn j pre inside)

test-same : (a b : ℕ) → a ≡ b → (a == b) ≡ true
test-same a b e = ground arith

test-other : (a b : ℕ) → a ≢ b → (a == b) ≡ false
test-other a b e = ground arith

-- The store after a packet was taken: the packets in front of it wait behind the others, and belong to
-- `conn` now; the owners of all other packets are as before.
pub record Rotated (conn : ℕ) (pre post : List ℕ) (s s' : Store) : Type 0 where
  pub valid : IsValid s'.queue
  pub order : waiting s' ≡ post ++ pre
  pub seized : All (λ j. owner_of s' j ≡ conn) pre
  pub others : (k : ℕ) → All (λ j. j ≢ k) pre → owner_of s' k ≡ owner_of s k
  pub same_pool : s'.pool ≡ s.pool
  pub as_long : length s'.owner ≡ length s.owner

get_loop-Rotated :
    (conn n : ℕ) (s : Store) (pre : List ℕ) (i : ℕ) (post : List ℕ)
    → IsValid s.queue
    → waiting s ≡ pre ++ i ∷ post
    → Distinct pre
    → All (λ j. j ≢ i) pre
    → All (λ j. owner_of s j ≢ conn) pre
    → All (λ j. j < length s.owner) pre
    → owner_of s i ≡ conn
    → length pre < n
    → (s' : Store) × (get_loop conn n s ≡ (some i, s')) × Rotated conn pre post s s'
unfolding get_loop
get_loop-Rotated conn zero s pre i post v e distinct apart foreign inside own h =
    absurd (omega arith)
get_loop-Rotated conn (suc n) s [] i post v e distinct apart foreign inside own h =
    let (q, takes, valid, rest, room) = dequeue_head s.queue i post v e in
    let mine : (owner_of s i == conn) ≡ true = test-same (owner_of s i) conn own in
    (
      record s { queue = q },
      ap (λ o. taken conn (λ s'. get_loop conn n s') o s) takes ∙ rw mine refl,
      record {
        valid = valid;
        order = rest ∙ sym (append-nil post);
        seized = tt;
        others = λ k apart. refl;
        same_pool = refl;
        as_long = refl;
      },
    )
get_loop-Rotated conn (suc n) s (j ∷ pre) i post v e (differ, distinct) (j_not_i, apart)
      (other, foreign) (j_inside, inside) own h =
    let (q, takes, valid, rest, room) = dequeue_head s.queue j (pre ++ i ∷ post) v e in
    let not_mine : (owner_of s j == conn) ≡ false = test-other (owner_of s j) conn other in
    let s1 : Store = record s { queue = q } in
    let (q2, adds, valid2, same_size, rest2) =
      add_lem conn j s1 valid (omega (arith, ap length rest, room)) in
    let owner : List ℕ = set s.owner j conn in
    let s2 : Store = with_queue q2 owner s1 in
    let (s', runs, rotated) =
      get_loop-Rotated conn n s2 pre i (post ++ j ∷ []) valid2
        (rest2 ∙ ap (λ l. l ++ j ∷ []) rest ∙ append_assoc pre (i ∷ post) (j ∷ [])) distinct apart
        (still_foreign s.owner conn j pre differ foreign) (still_inside s.owner conn j pre inside)
        (get_or-set_other s.owner j i conn 0 (λ e. j_not_i (sym e)) ∙ own) (omega arith) in
    (
      s',
      ap (λ o. taken conn (λ s'. get_loop conn n s') o s) takes
          ∙ rw not_mine (ap (get_loop conn n) adds ∙ runs),
      record {
        valid = rotated.valid;
        order = rotated.order ∙ append_assoc post (j ∷ []) pre;
        seized =
            (rotated.others j differ ∙ get_or-set_self s.owner j conn 0 j_inside, rotated.seized);
        others = λ k apart_k.
            rotated.others k apart_k.1
            ∙ get_or-set_other s.owner j k conn 0 (λ e. apart_k.0 (sym e));
        same_pool = rotated.same_pool;
        as_long = rotated.as_long ∙ length-set s.owner j conn;
      },
    )

-- csp_rdp_queue_tx_get and csp_rdp_queue_rx_get for a connection with a packet in the queue, where no
-- packet waits twice: they give its first packet. But all packets in front of it, which belong to other
-- connections, belong to this one afterwards, and wait behind the others; no owner else and no buffer
-- changes.
pub get-Rotated :
    (conn : ℕ) (s : Store) (pre : List ℕ) (i : ℕ) (post : List ℕ)
    → IsValid s.queue
    → waiting s ≡ pre ++ i ∷ post
    → Distinct pre
    → All (λ j. j ≢ i) pre
    → All (λ j. owner_of s j ≢ conn) pre
    → All (λ j. j < length s.owner) pre
    → owner_of s i ≡ conn
    → (s' : Store) × (get conn s ≡ (some i, s')) × Rotated conn pre post s s'
unfolding get size items
get-Rotated conn s pre i post v e distinct apart foreign inside own =
    get_loop-Rotated conn s.queue.items s pre i post v e distinct apart foreign inside own
      (omega (arith, (items-contents 0 s.queue v).0, ap length e, length-append pre (i ∷ post)))
