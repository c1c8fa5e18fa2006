-- ===== src/Rtable/Find.antt =====
-- The two searches of the routing table: csp_rtable_find_route returns the matching entry with the
-- longest netmask, and csp_rtable_find_exact the first entry with an address and a netmask.
use damat_tutorial.Prelude.{
  ℕ, zero, suc, ◌+◌, ◌≤◌, ◌<◌, ◌≡◌, ◌⊎◌, inl, inr, refl, ap, ◌∙◌, true, false, ◌&&◌, Option, none,
  some, List, [], ◌∷◌, arith, Bool-cases, leb, get_elem?,
}
use damat_tutorial.Rtable.{Route, Table, active, same_network, route_loop, find_route}

-- Entry j of `rows` matches and wins: no matching entry has a longer netmask, and none behind it
-- has one as long.
pub record Wins (version addr : ℕ) (rows : List Route) (j : ℕ) (r : Route) : Type 0 where
  pub present : get_elem? rows j ≡ some r
  pub matches : same_network version addr r ≡ true
  pub longest :
      (k : ℕ) (r' : Route)
      → get_elem? rows k ≡ some r'
      → same_network version addr r' ≡ true
      → (r'.netmask ≤ r.netmask) × ((k ≤ j) ⊎ (r'.netmask < r.netmask))

-- No entry matches with a netmask of `mask` or more.
abbrev pub Short : ℕ → ℕ → List Route → ℕ → Type 0
Short version addr rows mask =
    (k : ℕ) (r : Route)
    → get_elem? rows k ≡ some r
    → same_network version addr r ≡ true
    → r.netmask < mask

-- What the loop ends with, from a best result found before `rows`.
data LoopEnd (version addr : ℕ) (rows : List Route) (i : ℕ) (best : Option ℕ) (mask : ℕ)
    (res : Option ℕ) : Type 0 where
  kept : res ≡ best → Short version addr rows mask → LoopEnd version addr rows i best mask res
  found :
      (j : ℕ) (r : Route)
      → Wins version addr rows j r
      → mask ≤ r.netmask
      → res ≡ some (i + j)
      → LoopEnd version addr rows i best mask res

Wins-cons :
    (version addr : ℕ) (r : Route) (rows : List Route) (j : ℕ) (w : Route)
    → (same_network version addr r ≡ true → r.netmask ≤ w.netmask)
    → Wins version addr rows j w
    → Wins version addr (r ∷ rows) (suc j) w
Wins-cons version addr r rows j w head wins = record {
  present = wins.present;
  matches = wins.matches;
  longest = longest;
}
  where
    longest :
        (k : ℕ) (r' : Route)
        → get_elem? (r ∷ rows) k ≡ some r'
        → same_network version addr r' ≡ true
        → (r'.netmask ≤ w.netmask) × ((k ≤ suc j) ⊎ (r'.netmask < w.netmask))
    longest zero r' e m =
        let same : r ≡ r' = cc in (rw (← same) (head (rw (← same) at m)), inl (omega arith))
    longest (suc k) r' e m = let (le, later) = wins.longest k r' e m in (le, omega arith)

after_better :
    (version addr : ℕ) (r : Route) (rows : List Route) (i : ℕ) (best : Option ℕ) (mask : ℕ)
    (res : Option ℕ)
    → (same_network version addr r && leb mask r.netmask) ≡ true
    → LoopEnd version addr rows (i + 1) (some i) r.netmask res
    → LoopEnd version addr (r ∷ rows) i best mask res
after_better version addr r rows i best mask res better (kept e short) =
    found 0 r (record { present = refl; matches = ground arith; longest = longest }) (ground arith)
      (e ∙ ap some (omega arith))
  where
    longest :
        (k : ℕ) (r' : Route)
        → get_elem? (r ∷ rows) k ≡ some r'
        → same_network version addr r' ≡ true
        → (r'.netmask ≤ r.netmask) × ((k ≤ 0) ⊎ (r'.netmask < r.netmask))
    longest zero r' e' m = let same : r ≡ r' = cc in (rw same (omega arith), inl (omega arith))
    longest (suc k) r' e' m =
        let lt : r'.netmask < r.netmask = short k r' e' m in (omega arith, inr lt)
after_better version addr r rows i best mask res better (found j w wins le e) =
    found (suc j) w (Wins-cons version addr r rows j w (λ m. le) wins) (ground arith)
      (e ∙ ap some (omega arith))

after_worse :
    (version addr : ℕ) (r : Route) (rows : List Route) (i : ℕ) (best : Option ℕ) (mask : ℕ)
    (res : Option ℕ)
    → (same_network version addr r && leb mask r.netmask) ≡ false
    → LoopEnd version addr rows (i + 1) best mask res
    → LoopEnd version addr (r ∷ rows) i best mask res
after_worse version addr r rows i best mask res worse (kept e short) = kept e shorter
  where
    shorter : Short version addr (r ∷ rows) mask
    shorter zero r' e' m =
        let same : r ≡ r' = cc in
        let m' : same_network version addr r ≡ true = rw same m in rw (← same) (ground arith)
    shorter (suc k) r' e' m = short k r' e' m
after_worse version addr r rows i best mask res worse (found j w wins le e) =
    found (suc j) w (Wins-cons version addr r rows j w (λ m. ground arith) wins) le
      (e ∙ ap some (omega arith))

route_loop-LoopEnd :
    (version addr : ℕ) (rows : List Route) (i : ℕ) (best : Option ℕ) (mask : ℕ)
    → LoopEnd version addr rows i best mask (route_loop version addr rows i best mask)
unfolding route_loop
route_loop-LoopEnd version addr [] i best mask = kept refl (λ k r e m. cc)
route_loop-LoopEnd version addr (r ∷ rows) i best mask =
    elim (Bool-cases (same_network version addr r && leb mask r.netmask)) [
      | inl better ↦ rw better (
          after_better version addr r rows i best mask _ better
            (route_loop-LoopEnd version addr rows (i + 1) (some i) r.netmask))
      | inr worse ↦ rw worse (
          after_worse version addr r rows i best mask _ worse
            (route_loop-LoopEnd version addr rows (i + 1) best mask))
    ]

-- csp_rtable_find_route finds a route exactly if an entry in use matches the address, and then it
-- is the entry with the longest netmask among those that match, the last of them if several have
-- that netmask.
pub find_route_longest :
    (version : ℕ) (t : Table) (addr : ℕ)
    → ((find_route version t addr ≡ none)
        × ((k : ℕ) (r : Route)
            → get_elem? (active t) k ≡ some r
            → same_network version addr r ≡ false))
      ⊎ ((j : ℕ) × (r : Route) × (find_route version t addr ≡ some j)
          × Wins version addr (active t) j r)
unfolding find_route
find_route_longest version t addr = elim (route_loop-LoopEnd version addr (active t) 0 none 0) [
  | kept e short ↦ inl (
    e,
    λ k r present. elim (Bool-cases (same_network version addr r)) [
      | inl m ↦ let absurd_lt : r.netmask < 0 = short k r present m in absurd (omega arith)
      | inr m ↦ m
    ],
  )
  | found j r wins le e ↦ inr (j, r, e ∙ ap some (omega arith), wins)
]
