-- ===== src/Rtable.antt =====
-- libcsp/src/csp_rtable_cidr.c: the routing table, an array of CSP_RTABLE_SIZE entries of which the
-- first rtable_inptr are in use. An interface is known by a number, and `none` is a null pointer.
-- `size` is CSP_RTABLE_SIZE, which the build chooses. A read or write past the array is a fault,
-- the `none` of an operation.
pub mod Prefix
pub mod Find
pub mod Set
mod Tests
use damat_tutorial.Prelude.{
  ℕ, zero, suc, ◌+◌, ◌-◌, ◌^◌, ◌%◌, Bool, true, false, ◌&&◌, ◌||◌, Option, none, some, List, [],
  ◌∷◌, if◌then◌else◌, ltb, leb, ◌==◌, length, get_elem?, set, take, replicate, bit_and,
}
use damat_tutorial.Prelude.Int.{ℤ, pos, negsuc, ltb_ℤ}
use damat_tutorial.Id.{get_host_bits}

-- csp_route_t
pub record Route : Type 0 where
  pub address : ℕ
  pub netmask : ℕ
  pub via : ℕ
  pub iface : Option ℕ

-- `rtable`, `rtable_inptr`, and csp_dbg_errno
pub record Table : Type 0 where
  pub entries : List Route
  pub inptr : ℕ
  pub dbg_errno : ℕ

-- the entries that the loops walk over
abbrev pub active : Table → List Route
active t = take t.inptr t.entries

-- The static table: every byte is zero.
abbrev pub zero_route : Route
zero_route = record { address = 0; netmask = 0; via = 0; iface = none }

unfoldable pub init : ℕ → Table
init size = record { entries = replicate size zero_route; inptr = 0; dbg_errno = 0 }

-- csp_rtable_find_exact; `i` is the index of the first of `rows`.
unfoldable pub exact_loop : ℕ → ℕ → List Route → ℕ → Option ℕ
exact_loop addr netmask [] i = none
exact_loop addr netmask (r ∷ rows) i =
    let rest = exact_loop addr netmask rows (i + 1) in
    if r.address == addr && r.netmask == netmask then some i else rest

unfoldable pub find_exact : Table → ℕ → ℕ → Option ℕ
find_exact t addr netmask = exact_loop addr netmask (active t) 0

-- The uint16_t masks of an entry, and the test that its network is that of the address. C leaves a
-- negative shift undefined, for a netmask above the bits of a host, which csp_rtable_set stores only for
-- another version; the count is then taken modulo 32, as on x86.
abbrev pub shift_count : ℕ → ℕ → ℕ
shift_count version netmask = (get_host_bits version + 32 - netmask % 32) % 32

abbrev pub host_mask : ℕ → ℕ → ℕ
host_mask version netmask = (2 ^ shift_count version netmask - 1) % 2 ^ 16

abbrev pub net_mask : ℕ → ℕ → ℕ
net_mask version netmask = 2 ^ 16 - 1 - host_mask version netmask

unfoldable pub same_network : ℕ → ℕ → Route → Bool
same_network version addr r =
    bit_and r.address (net_mask version r.netmask) == bit_and addr (net_mask version r.netmask)

-- The loop of csp_rtable_find_route with `best_result` and `best_result_mask`.
unfoldable pub route_loop : ℕ → ℕ → List Route → ℕ → Option ℕ → ℕ → Option ℕ
route_loop version addr [] i best mask = best
route_loop version addr (r ∷ rows) i best mask =
    let better = same_network version addr r && leb mask r.netmask in
    route_loop version addr rows (i + 1) (if better then some i else best)
      (if better then r.netmask else mask)

-- The index of the entry that csp_rtable_find_route returns a pointer to.
unfoldable pub find_route : ℕ → Table → ℕ → Option ℕ
find_route version t addr = route_loop version addr (active t) 0 none 0

-- csp_rtable_set_internal. A new entry is taken at rtable_inptr with no test of the size: the `if`
-- behind the increment assigns the value that it has just compared with.
unfoldable pub set_internal : Table → ℕ → ℕ → ℕ → ℕ → Option (ℤ × Table)
set_internal t addr netmask ifc via =
    let route : Route = record { address = addr; netmask = netmask; via = via; iface = some ifc } in
    elim (find_exact t addr netmask) [
      | some i ↦ some (pos 0, record t { entries = set t.entries i route })
      | none ↦
          if ltb t.inptr (length t.entries)
          then some (pos 0, record t { entries = set t.entries t.inptr route; inptr = t.inptr + 1 })
          else none
    ]

-- CSP_DBG_ERR_INVALID_RTABLE_ENTRY
abbrev pub err_invalid_entry : ℕ
err_invalid_entry = 6

-- CSP_ERR_INVAL
abbrev pub err_inval : ℤ
err_inval = negsuc 1

-- A netmask below 0 or above the bits of a host stands for a single host.
abbrev pub clip_netmask : ℕ → ℤ → ℕ
clip_netmask version (negsuc n) = get_host_bits version
clip_netmask version (pos n) = if ltb (get_host_bits version) n then get_host_bits version else n

-- csp_rtable_set; the second test of the netmask never holds, after the first.
unfoldable pub rtable_set : ℕ → Table → ℕ → ℤ → Option ℕ → ℕ → Option (ℤ × Table)
rtable_set version t addr netmask none via =
    some (err_inval, record t { dbg_errno = err_invalid_entry })
rtable_set version t addr netmask (some ifc) via =
    set_internal t addr (clip_netmask version netmask) ifc via

-- csp_rtable_free, and csp_rtable_clear, which only calls it: the entries are zeroed and
-- rtable_inptr stays.
unfoldable pub clear : Table → Table
clear t = record t { entries = replicate (length t.entries) zero_route }
