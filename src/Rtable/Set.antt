-- ===== src/Rtable/Set.antt =====
-- csp_rtable_set against csp_rtable_find_exact, and what csp_rtable_clear leaves.
use native.Mathlib.Nat.{sub-zero}
use damat_tutorial.Prelude.{
  ℕ, zero, suc, ◌+◌, ◌-◌, ◌/◌, ◌^◌, ◌≤◌, ◌<◌, ◌≡◌, ◌≢◌, ◌⊎◌, inl, inr, refl, sym, ap, ◌∙◌, true,
  false, ◌&&◌, none, some, List, [], ◌∷◌, ◌++◌, arith, Bool-cases, Option-cases, ltb, ◌==◌,
  get_elem?, length, set, take, replicate, length-take, length-set, take-set, take-set_end,
  get_elem?-set_self, get_elem?-set_ne, get_elem?-append_left, get_elem?-append_length,
  get_elem?-replicate,
}
use damat_tutorial.Prelude.Int.{ℤ, pos}
use damat_tutorial.Id.{get_host_bits}
use damat_tutorial.Rtable.{
  Route, Table, active, zero_route, exact_loop, find_exact, find_route, same_network, set_internal,
  clip_netmask, rtable_set, clear,
}
use damat_tutorial.Rtable.Prefix.{same_network_iff}
use damat_tutorial.Rtable.Find.{find_route_longest}

-- The entry in use lie in the array.
abbrev pub InBounds : Table → Type 0
InBounds t = t.inptr ≤ length t.entries

length-active : (t : Table) → InBounds t → length (active t) ≡ t.inptr
length-active t h = omega (arith, length-take t.inptr t.entries)

-- Overwriting the entry that the search finds leaves it the one that is found.
exact_loop-set :
    (addr netmask : ℕ) (rows : List Route) (i k : ℕ) (route : Route)
    → (route.address == addr && route.netmask == netmask) ≡ true
    → exact_loop addr netmask rows i ≡ some k
    → (j : ℕ) × (k ≡ i + j)
      × (j < length rows)
      × (exact_loop addr netmask (set rows j route) i ≡ some k)
unfolding exact_loop
exact_loop-set addr netmask [] i k route key e = cc
exact_loop-set addr netmask (r ∷ rows) i k route key e =
    elim (Bool-cases (r.address == addr && r.netmask == netmask)) [
      | inl here ↦
          let e' : some i ≡ some k = rw here at e in (0, ground arith, omega arith, rw key e')
      | inr later ↦
          let (j, at, below, again) =
            exact_loop-set addr netmask rows (i + 1) k route key (rw later at e) in
          (suc j, omega arith, omega arith, rw later again)
    ]

-- A new entry behind rows without its key is the one that is found.
exact_loop-append :
    (addr netmask : ℕ) (rows : List Route) (i : ℕ) (route : Route)
    → (route.address == addr && route.netmask == netmask) ≡ true
    → exact_loop addr netmask rows i ≡ none
    → exact_loop addr netmask (rows ++ route ∷ []) i ≡ some (i + length rows)
unfolding exact_loop
exact_loop-append addr netmask [] i route key e = rw key (ap some (omega arith))
exact_loop-append addr netmask (r ∷ rows) i route key e =
    elim (Bool-cases (r.address == addr && r.netmask == netmask)) [
      | inl here ↦ let bad : some i ≡ none = rw here at e in cc
      | inr later ↦ rw later (
          exact_loop-append addr netmask rows (i + 1) route key (rw later at e)
          ∙ ap some (omega arith))
    ]

-- The route is in the table, is the one that csp_rtable_find_exact finds, and every other entry
-- that was in use is as before; a new entry is the last one.
pub record Stored (t t' : Table) (route : Route) : Type 0 where
  pub index : ℕ
  pub found : find_exact t' route.address route.netmask ≡ some index
  pub entry : get_elem? (active t') index ≡ some route
  pub others : (k : ℕ) → k < t.inptr → k ≢ index → get_elem? (active t') k ≡ get_elem? (active t) k
  pub in_bounds : InBounds t'
  pub size : length t'.entries ≡ length t.entries
  pub grown :
      ((t'.inptr ≡ t.inptr) × (index < t.inptr)) ⊎ ((t'.inptr ≡ t.inptr + 1) × (index ≡ t.inptr))

key_refl :
    (route : Route) → (route.address == route.address && route.netmask == route.netmask) ≡ true
key_refl route = ground arith

replaced :
    (t : Table) (i : ℕ) (route : Route)
    → InBounds t
    → find_exact t route.address route.netmask ≡ some i
    → Stored t (record t { entries = set t.entries i route }) route
unfolding find_exact
replaced t i route fits e =
    let (j, at, below, again) =
      exact_loop-set route.address route.netmask (active t) 0 i route (key_refl route) e in
    let at' : j ≡ i = omega arith in
    let rows : active (record t { entries = set t.entries i route }) ≡ set (active t) i route =
      take-set t.inptr t.entries i route in
    let below' : i < length (active t) = omega arith in
    record {
      index = i;
      found = ap (λ l. exact_loop route.address route.netmask l 0) rows ∙ (rw at' at again);
      entry = ap (λ l. get_elem? l i) rows ∙ get_elem?-set_self (active t) i route below';
      others = λ k h ne.
          ap (λ l. get_elem? l k) rows ∙ get_elem?-set_ne (active t) route (λ e'. ne (sym e'));
      in_bounds = omega (arith, length-set t.entries i route);
      size = length-set t.entries i route;
      grown = inl (refl, omega (arith, length-active t fits));
    }

appended :
    (t : Table) (route : Route)
    → t.inptr < length t.entries
    → find_exact t route.address route.netmask ≡ none
    → Stored t (record t { entries = set t.entries t.inptr route; inptr = t.inptr + 1 }) route
unfolding find_exact
appended t route room e =
    let count : length (active t) ≡ t.inptr = length-active t (omega arith) in
    let rows : take (t.inptr + 1) (set t.entries t.inptr route) ≡ active t ++ route ∷ [] =
      ap (λ n. take n (set t.entries t.inptr route)) {x = t.inptr + 1} {y = suc t.inptr}
        (omega arith)
      ∙ take-set_end t.inptr t.entries route room in
    record {
      index = t.inptr;
      found =
          ap (λ l. exact_loop route.address route.netmask l 0) rows
          ∙ exact_loop-append route.address route.netmask (active t) 0 route (key_refl route) e
          ∙ ap some (omega arith);
      entry =
          ap (λ l. get_elem? l t.inptr) rows
          ∙ ap (λ k. get_elem? (active t ++ route ∷ []) k) (sym count)
          ∙ get_elem?-append_length (active t) route;
      others = λ k h ne.
          ap (λ l. get_elem? l k) rows
          ∙ get_elem?-append_left (active t) (route ∷ []) k (omega arith);
      in_bounds = omega (arith, length-set t.entries t.inptr route);
      size = length-set t.entries t.inptr route;
      grown = inr (refl, refl);
    }

-- For an interface and a table with rtable_inptr inside the array, csp_rtable_set either stores the
-- route, with the clipped netmask, and answers 0; or no entry in use has the address and the
-- netmask, the array is full, and the function writes behind its end.
pub rtable_set_cases :
    (version : ℕ) (t : Table) (addr : ℕ) (netmask : ℤ) (ifc via : ℕ)
    → InBounds t
    → let route : Route = record {
      address = addr;
      netmask = clip_netmask version netmask;
      via = via;
      iface = some ifc;
    } in
      ((t' : Table) × (rtable_set version t addr netmask (some ifc) via ≡ some (pos 0, t'))
        × Stored t t' route)
      ⊎ ((find_exact t addr (clip_netmask version netmask) ≡ none)
          × (t.inptr ≡ length t.entries)
          × (rtable_set version t addr netmask (some ifc) via ≡ none))
unfolding rtable_set set_internal
rtable_set_cases version t addr netmask ifc via fits =
    elim (Option-cases (find_exact t addr (clip_netmask version netmask))) [
      | inr (i, e) ↦ inl (_, rw (e, set_internal) refl, replaced t i _ fits e)
      | inl e ↦ elim (Bool-cases (ltb t.inptr (length t.entries))) [
        | inl room ↦ inl (_, rw (e, set_internal) (rw room refl), appended t _ (ground arith) e)
        | inr full ↦ inr (e, ground arith, rw (e, set_internal) (rw full refl))
      ]
    ]

clear_route :
    (t : Table) (k : ℕ) (r : Route) → get_elem? (active (clear t)) k ≡ some r → r ≡ zero_route
unfolding clear
clear_route t k r e = get_elem?-replicate t.inptr (length t.entries) k zero_route r e

matches_all :
    (version addr : ℕ)
    → addr < 2 ^ get_host_bits version
    → addr < 2 ^ 16
    → same_network version addr zero_route ≡ true
matches_all version addr h small =
    (same_network_iff version addr zero_route small (omega arith) (omega arith)).1 (
      sym
        (div_zero addr (2 ^ (get_host_bits version - 0)) (rw (sub-zero (get_host_bits version)) h)))
  where
    div_zero : (x p : ℕ) → x < p → x / p ≡ 0 / p
    div_zero x p h = grind arith

-- csp_rtable_clear keeps the entries in use: after it, with an entry in use before, a search for
-- any address of the network finds a route, and that route has no interface.
pub find_route-clear :
    (version : ℕ) (t : Table) (addr : ℕ)
    → InBounds t
    → 0 < t.inptr
    → addr < 2 ^ get_host_bits version
    → addr < 2 ^ 16
    → (j : ℕ) × (find_route version (clear t) addr ≡ some j)
      × (get_elem? (active (clear t)) j ≡ some zero_route)
unfolding clear
find_route-clear version t addr fits used h small =
    elim (find_route_longest version (clear t) addr) [
      | inl (nothing, no_match) ↦
          let m : same_network version addr zero_route ≡ false =
            no_match 0 zero_route (first t.inptr (length t.entries) used (omega arith)) in
          cc (matches_all version addr h small)
      | inr (j, r, e, wins) ↦ (j, e, wins.present ∙ ap some (clear_route t j r wins.present))
    ]
  where
    first :
        (n m : ℕ) → 0 < n → 0 < m → get_elem? (take n (replicate m zero_route)) 0 ≡ some zero_route
    first zero m h k = absurd (omega arith)
    first (suc n) zero h k = absurd (omega arith)
    first (suc n) (suc m) h k = refl
