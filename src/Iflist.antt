-- ===== src/Iflist.antt =====
-- libcsp/src/csp_iflist.c: the linked list of interfaces. An interface is known by the number of its
-- csp_iface_t in `ifaces`; `next` and `head` are pointers, and `none` is NULL. A name is the bytes
-- before its NUL. `version` is csp_conf.version.
pub mod Chain
pub mod Search
pub mod Add
mod Tests
use damat_tutorial.Prelude.{
  ℕ, zero, suc, ◌-◌, ◌*◌, ◌/◌, ◌%◌, ◌^◌, Bool, true, false, Option, none, some, List, [], ◌∷◌,
  if◌then◌else◌, leb, ◌==◌, ◌&&◌, ◌||◌, not, length, get_or, set, take, bit_and,
}
use damat_tutorial.Prelude.Int.{ℤ, pos, negsuc}
use damat_tutorial.Id.{get_host_bits}

-- The members of csp_iface_t that the list reads; the counters are kept apart from them.
pub record Iface : Type 0 where
  pub addr : ℕ
  pub netmask : ℕ
  pub name : List ℕ
  pub mtu : ℕ
  pub next : Option ℕ

-- `interfaces`, and the memory that the pointers lead to
pub record Ifaces : Type 0 where
  pub at : List Iface
  pub head : Option ℕ

abbrev pub blank_iface : Iface
blank_iface = record { addr = 0; netmask = 0; name = []; mtu = 0; next = none }

abbrev pub iface_at : Ifaces → ℕ → Iface
iface_at l i = get_or l.at i blank_iface

-- The uint16_t mask of an interface, whose netmask is at most the bits of a host; C leaves the shift by
-- a negative count undefined, which a longer netmask gives; the count is 0 here.
abbrev pub subnet_mask : ℕ → ℕ → ℕ
subnet_mask version netmask = (2 ^ netmask - 1) * 2 ^ (get_host_bits version - netmask) % 2 ^ 16

abbrev pub in_subnet : ℕ → ℕ → Iface → Bool
in_subnet version addr ifc =
    bit_and ifc.addr (subnet_mask version ifc.netmask)
    == bit_and addr (subnet_mask version ifc.netmask)

-- csp_iflist_is_within_subnet
unfoldable pub is_within_subnet : ℕ → Ifaces → ℕ → Option ℕ → Bool
is_within_subnet version l addr none = false
is_within_subnet version l addr (some i) = in_subnet version addr (iface_at l i)

-- A loop along the list that returns the first interface with a test; `fuel` bounds the steps.
unfoldable pub first_from : (ℕ → Bool) → Ifaces → ℕ → Option ℕ → Option ℕ
first_from test l zero ifc = none
first_from test l (suc fuel) none = none
first_from test l (suc fuel) (some i) =
    let rest = first_from test l fuel (iface_at l i).next in if test i then some i else rest

-- csp_iflist_get_by_subnet, which goes on behind `ifc`, or starts at the head for NULL
abbrev pub serves : ℕ → Ifaces → ℕ → ℕ → Bool
serves version l addr i = not ((iface_at l i).netmask == 0) && in_subnet version addr (iface_at l i)

abbrev pub behind : Ifaces → Option ℕ → Option ℕ
behind l none = l.head
behind l (some i) = (iface_at l i).next

unfoldable pub get_by_subnet : ℕ → Ifaces → ℕ → Option ℕ → Option ℕ
unfolding first_from
get_by_subnet version l addr ifc =
    first_from (serves version l addr) l (suc (length l.at)) (behind l ifc)

-- csp_iflist_get_by_addr
unfoldable pub get_by_addr : Ifaces → ℕ → Option ℕ
unfolding first_from
get_by_addr l addr = first_from (λ i. (iface_at l i).addr == addr) l (suc (length l.at)) l.head

-- strncmp(a, b, CSP_IFLIST_NAME_MAX) == 0
abbrev pub same_string : List ℕ → List ℕ → Bool
same_string [] [] = true
same_string (x ∷ xs) (y ∷ ys) = x == y && same_string xs ys
same_string _ _ = false

abbrev pub same_name : List ℕ → List ℕ → Bool
same_name a b = same_string (take 10 a) (take 10 b)

-- csp_iflist_get_by_name
unfoldable pub get_by_name : Ifaces → List ℕ → Option ℕ
unfolding first_from
get_by_name l name =
    first_from (λ i. same_name (iface_at l i).name name) l (suc (length l.at)) l.head

abbrev pub is_there : ℕ → Ifaces → ℕ → Bool
is_there ifc l i = i == ifc || same_name (iface_at l ifc).name (iface_at l i).name

-- The loop of csp_iflist_add over the list, from `i` on; `last` is the interface before. It ends with
-- `none` for an interface that is there already, else with the last one.
unfoldable pub last_from : ℕ → Ifaces → ℕ → ℕ → Option ℕ → Option ℕ
last_from ifc l zero last i = some last
last_from ifc l (suc fuel) last none = some last
last_from ifc l (suc fuel) last (some i) =
    let rest = last_from ifc l fuel i (iface_at l i).next in if is_there ifc l i then none else rest

abbrev pub set_next : ℕ → Option ℕ → Ifaces → Ifaces
set_next i next l = record l { at = set l.at i (record (iface_at l i) { next = next }) }

-- csp_iflist_add answers CSP_ERR_NONE or CSP_ERR_ALREADY.
abbrev pub link_behind : ℕ → Option ℕ → Ifaces → ℤ × Ifaces
link_behind ifc none l = (negsuc 6, l)
link_behind ifc (some last) l = (pos 0, set_next last (some ifc) l)

abbrev pub add_to : ℕ → Option ℕ → Ifaces → ℤ × Ifaces
add_to ifc none l = (pos 0, record l { head = some ifc })
add_to ifc (some first) l =
    link_behind ifc (last_from ifc l (suc (length l.at)) first (some first)) l

unfoldable pub add : ℕ → Ifaces → ℤ × Ifaces
unfolding last_from
add ifc l = let l' = set_next ifc none l in add_to ifc l'.head l'

-- csp_bytesize: the number and the letter of its unit
unfoldable pub bytesize : ℕ → ℕ × ℕ
bytesize bytes =
    if leb (1024 * 1024) bytes
    then (bytes / (1024 * 1024), b'M')
    else (if leb 1024 bytes then (bytes / 1024, b'K') else (bytes, b'B'))
