-- ===== src/Rtable/Tests.antt =====
-- Runs of csp_rtable_cidr.c, and its theorems at concrete tables.
use damat_tutorial.Prelude.{
  ℕ, ◌≡◌, ◌⊎◌, refl, false, none, some, [], ◌∷◌, arith, length, get_elem?, set,
}
use damat_tutorial.Prelude.Int.{pos, negsuc}
use damat_tutorial.Id.{get_host_bits}
use damat_tutorial.Rtable.{
  Route, Table, active, zero_route, init, find_exact, exact_loop, find_route, route_loop,
  same_network, set_internal, clip_netmask, rtable_set, clear,
}
use damat_tutorial.Rtable.Find.{Wins, find_route_longest}
use damat_tutorial.Rtable.Set.{Stored, rtable_set_cases, find_route-clear}

-- a default route, a network of 8 bits, and a host, on three interfaces
abbrev default_route : Route
default_route = record { address = 0; netmask = 0; via = 1; iface = some 0 }

abbrev net_route : Route
net_route = record { address = 0x0140; netmask = 8; via = 0xffff; iface = some 1 }

abbrev host_route : Route
host_route = record { address = 0x0142; netmask = 14; via = 7; iface = some 2 }

abbrev table : Table
table = record {
  entries = default_route ∷ net_route ∷ host_route ∷ zero_route ∷ [];
  inptr = 3;
  dbg_errno = 0;
}

routes :
    (find_route 2 table 0x0142 ≡ some 2)
    × (find_route 2 table 0x0143 ≡ some 1)
    × (find_route 2 table 0x2000 ≡ some 0)
    × (find_route 2 (init 4) 0x2000 ≡ none)
unfolding find_route route_loop same_network get_host_bits init
routes = (refl, refl, refl, refl)

-- Two new entries fill the array and run over its end.
overrun :
    (rtable_set 2 table 5 (negsuc 0) (some 9) 3
      ≡ some (
        pos 0,
        record {
          entries =
              set table.entries 3 (record { address = 5; netmask = 14; via = 3; iface = some 9 });
          inptr = 4;
          dbg_errno = 0;
        },
      ))
    × (rtable_set 2 (record table { inptr = 4 }) 5 (pos 14) (some 9) 3 ≡ none)
    × (rtable_set 2 table 5 (pos 14) none 3 ≡ some (negsuc 1, record table { dbg_errno = 6 }))
unfolding rtable_set set_internal find_exact exact_loop get_host_bits
overrun = (refl, refl, refl)

find_route_longest_example :
    ((find_route 2 table 0x0143 ≡ none)
      × ((k : ℕ) (r : Route)
          → get_elem? (active table) k ≡ some r
          → same_network 2 0x0143 r ≡ false))
    ⊎ ((j : ℕ) × (r : Route) × (find_route 2 table 0x0143 ≡ some j)
        × Wins 2 0x0143 (active table) j r)
find_route_longest_example = find_route_longest 2 table 0x0143

rtable_set_cases_example :
    ((t' : Table) × (rtable_set 2 table 0x0142 (pos 14) (some 5) 3 ≡ some (pos 0, t'))
      × Stored table t'
          (record { address = 0x0142; netmask = clip_netmask 2 (pos 14); via = 3; iface = some 5 }))
    ⊎ ((find_exact table 0x0142 (clip_netmask 2 (pos 14)) ≡ none)
        × (3 ≡ length table.entries)
        × (rtable_set 2 table 0x0142 (pos 14) (some 5) 3 ≡ none))
rtable_set_cases_example = rtable_set_cases 2 table 0x0142 (pos 14) 5 3 (omega arith)

find_route-clear_example :
    (j : ℕ) × (find_route 2 (clear table) 0x0142 ≡ some j)
    × (get_elem? (active (clear table)) j ≡ some zero_route)
find_route-clear_example =
    find_route-clear 2 table 0x0142 (omega arith) (omega arith)
      (unfold get_host_bits in omega arith) (omega arith)
