-- ===== src/Conn/Allocate.antt =====
-- The loop of csp_conn_allocate: the first closed connection behind the last that was given.
use native.Mathlib.Nat.{mod-add-mod}
use damat_tutorial.Prelude.{
  ℕ, zero, suc, ◌+◌, ◌%◌, ◌<◌, ◌≡◌, ◌∙◌, ◌⊎◌, refl, ap, sym, arith, Option, none, some, List, inl,
  inr, length,
}
use damat_tutorial.Conn.{ConnState, conn_closed, conn_open, Conn, conn_at, alloc_loop}

-- The number of the connection that the loop looks at in round m when it starts behind i
abbrev pub ring : List Conn → ℕ → ℕ → ℕ
ring arr i m = (i + 1 + m) % length arr

abbrev pub AllOpen : List Conn → ℕ → ℕ → Type 0
AllOpen arr i n = (m : ℕ) → m < n → (conn_at arr (ring arr i m)).state ≡ conn_open

-- The loop gives the first closed connection behind i, if there is one within n rounds.
abbrev pub Allocated : List Conn → ℕ → ℕ → Option ℕ → Type 0
Allocated arr n i o =
    ((o ≡ none) × AllOpen arr i n)
    ⊎ ((m : ℕ) × (m < n)
        × (o ≡ some (ring arr i m))
        × ((conn_at arr (ring arr i m)).state ≡ conn_closed)
        × AllOpen arr i m)

state_cases : (s : ConnState) → (s ≡ conn_open) ⊎ (s ≡ conn_closed)
state_cases conn_open = inl refl
state_cases conn_closed = inr refl

ring-suc : (arr : List Conn) (i m : ℕ) → ring arr ((i + 1) % length arr) m ≡ ring arr i (suc m)
ring-suc arr i m =
    ap (λ n. n % length arr) {x = (i + 1) % length arr + 1 + m} {y = (i + 1) % length arr + (1 + m)}
      (omega arith)
    ∙ mod-add-mod (i + 1) (length arr) (1 + m)
    ∙ ap (λ n. n % length arr) {x = i + 1 + (1 + m)} {y = i + 1 + suc m} (omega arith)

ring_zero : (arr : List Conn) (i : ℕ) → (i + 1) % length arr ≡ ring arr i 0
ring_zero arr i = ap (λ n. n % length arr) {x = i + 1} {y = i + 1 + 0} (omega arith)

AllOpen-suc :
    (arr : List Conn) (i n : ℕ)
    → (conn_at arr (ring arr i 0)).state ≡ conn_open
    → AllOpen arr ((i + 1) % length arr) n
    → AllOpen arr i (suc n)
AllOpen-suc arr i n first later zero h = first
AllOpen-suc arr i n first later (suc m) h =
    ap (λ k. (conn_at arr k).state) (sym (ring-suc arr i m)) ∙ later m (omega arith)

pub alloc_loop_lem : (arr : List Conn) (n i : ℕ) → Allocated arr n i (alloc_loop arr n i)
unfolding alloc_loop
alloc_loop_lem arr zero i = inl (refl, λ m h. absurd (omega arith))
alloc_loop_lem arr (suc n) i = elim (state_cases (conn_at arr ((i + 1) % length arr)).state) [
  | inr closed ↦ inr (
    0,
    omega arith,
    rw closed (ap some (ring_zero arr i)),
    ap (λ k. (conn_at arr k).state) (sym (ring_zero arr i)) ∙ closed,
    λ m h. absurd (omega arith),
  )
  | inl open_first ↦
      let first : (conn_at arr (ring arr i 0)).state ≡ conn_open =
        ap (λ k. (conn_at arr k).state) (sym (ring_zero arr i)) ∙ open_first in
      rw open_first (elim (alloc_loop_lem arr n ((i + 1) % length arr)) [
        | inl (nothing, all) ↦ inl (nothing, AllOpen-suc arr i n first all)
        | inr (m, less, gives, closed, before) ↦ inr (
          suc m,
          omega arith,
          gives ∙ ap some (ring-suc arr i m),
          ap (λ k. (conn_at arr k).state) (sym (ring-suc arr i m)) ∙ closed,
          AllOpen-suc arr i m first before,
        )
      ])
]
