-- ===== src/Buffer/Clients.antt =====
-- Sequences of calls of csp_buffer.c by clients that free and clone only buffers that they hold.
use mathlib.Core.Path.{subst}
use damat_tutorial.Prelude.{
  ℕ, zero, suc, ◌≡◌, refl, ap, arith, Option, none, some, List, [], ◌∷◌, All, length, get_elem?,
}
use damat_tutorial.Buffer.{Pool, get, to_slot, free, clone}
use damat_tutorial.Buffer.Owners.{Owned, times_in, refcount_of}

-- A client's calls: a buffer for `size` bytes, the release or the copy of the k-th buffer that it
-- holds.
pub data Call : Type 0 where
  get_for free_held clone_held : ℕ → Call

-- The list without its k-th member
abbrev pub without : ℕ → List ℕ → List ℕ
without k [] = []
without zero (x ∷ xs) = xs
without (suc k) (x ∷ xs) = x ∷ without k xs

-- The caller holds what a call gives.
abbrev pub keep : List ℕ → Option ℕ × Pool → List ℕ × Pool
keep held (none, p) = (held, p)
keep held (some i, p) = (i ∷ held, p)

abbrev pub release_kth : ℕ → List ℕ → Pool → Option ℕ → List ℕ × Pool
release_kth k held p none = (held, p)
release_kth k held p (some i) = (without k held, free (to_slot i) p)

abbrev pub clone_kth : ℕ → List ℕ → Pool → Option ℕ → List ℕ × Pool
clone_kth data_size held p none = (held, p)
clone_kth data_size held p (some i) = keep held (clone data_size (some i) p)

abbrev pub step : ℕ → Call → List ℕ → Pool → List ℕ × Pool
step data_size (get_for size) held p = keep held (get data_size size p)
step data_size (free_held k) held p = release_kth k held p (get_elem? held k)
step data_size (clone_held k) held p = clone_kth data_size held p (get_elem? held k)

unfoldable pub run : ℕ → List Call → List ℕ → Pool → List ℕ × Pool
run data_size [] held p = (held, p)
run data_size (c ∷ calls) held p =
    let (held', p') = step data_size c held p in run data_size calls held' p'

-- Owned does not depend on the order of the list.
Owned-reorder :
    (held held' : List ℕ) (p : Pool)
    → ((j : ℕ) → times_in j held' ≡ times_in j held)
    → length held' ≡ length held
    → (All (λ j. refcount_of p j ≡ 1) held → All (λ j. refcount_of p j ≡ 1) held')
    → Owned held p
    → Owned held' p
Owned-reorder held held' p same len all v = record {
  queue = v.queue;
  size = v.size;
  once = λ j. omega (arith, same j, v.once j);
  all_of_them = omega (arith, len, v.all_of_them);
  self = v.self;
  counted = all v.counted;
}

times_in-without :
    (k i j : ℕ) (held : List ℕ)
    → get_elem? held k ≡ some i
    → times_in j (i ∷ without k held) ≡ times_in j held
times_in-without k i j [] e = cc
times_in-without zero i j (x ∷ held) e = let same : x ≡ i = cc in rw same refl
times_in-without (suc k) i j (x ∷ held) e = omega (arith, times_in-without k i j held e)

length-without :
    (k i : ℕ) (held : List ℕ)
    → get_elem? held k ≡ some i
    → length (i ∷ without k held) ≡ length held
length-without k i [] e = cc
length-without zero i (x ∷ held) e = refl
length-without (suc k) i (x ∷ held) e = ap suc (length-without k i held e)

All-without :
    (P : ℕ → Type 0) (k i : ℕ) (held : List ℕ)
    → get_elem? held k ≡ some i
    → All P held
    → All P (i ∷ without k held)
All-without P k i [] e a = cc
All-without P zero i (x ∷ held) e a = let same : x ≡ i = cc in (subst P same a.0, a.1)
All-without P (suc k) i (x ∷ held) e a = let r = All-without P k i held e a.1 in (r.0, (a.0, r.1))

pub Owned-front :
    (k i : ℕ) (held : List ℕ) (p : Pool)
    → get_elem? held k ≡ some i
    → Owned held p
    → Owned (i ∷ without k held) p
Owned-front k i held p e v =
    Owned-reorder held (i ∷ without k held) p (λ j. times_in-without k i j held e)
      (length-without k i held e) (All-without (λ j. refcount_of p j ≡ 1) k i held e) v
