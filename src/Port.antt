-- ===== src/Port.antt =====
-- libcsp/src/csp_port.c: what listens on each port, a socket or a callback. Sockets and callbacks
-- are known by numbers, and `none` is a null pointer. `bound` is CSP_PORT_MAX_BIND, which the
-- build chooses; the entry behind it is that of CSP_ANY.
pub mod Bind
mod Tests
use damat_tutorial.Prelude.{
  ℕ, ◌+◌, ◌%◌, ◌^◌, Option, none, some, List, if◌then◌else◌, ltb, ◌==◌, get_or, set, replicate,
}
use damat_tutorial.Prelude.Int.{ℤ, pos, negsuc}

-- csp_port_t: the state, with the member of the union that it selects
pub data Port : Type 0 where
  closed : Port
  opened : ℕ → Port
  opened_cb : ℕ → Port

-- `ports`, and csp_dbg_errno
pub record Ports : Type 0 where
  pub entries : List Port
  pub dbg_errno : ℕ

-- The table of the .bss section.
unfoldable pub no_ports : ℕ → Ports
no_ports bound = record { entries = replicate (bound + 2) closed; dbg_errno = 0 }

-- CSP_ANY, and the entry that it stands for
abbrev pub any_port : ℕ
any_port = 255

abbrev pub any_entry : ℕ → Ports → Port
any_entry bound t = get_or t.entries (bound + 1) closed

-- The socket, or the callback, of an entry; a closed entry leaves it to the next one.
unfoldable pub socket_or : Port → Option ℕ → Option ℕ
socket_or closed next = next
socket_or (opened socket) next = some socket
socket_or (opened_cb _) next = none

unfoldable pub callback_or : Port → Option ℕ → Option ℕ
callback_or closed next = next
callback_or (opened _) next = none
callback_or (opened_cb callback) next = some callback

-- csp_port_get_callback
unfoldable pub get_callback : ℕ → Ports → ℕ → Option ℕ
unfolding callback_or
get_callback bound t port =
    if ltb bound port
    then none
    else callback_or (get_or t.entries port closed) (callback_or (any_entry bound t) none)

-- csp_port_get_socket
unfoldable pub get_socket : ℕ → Ports → ℕ → Option ℕ
unfolding socket_or
get_socket bound t port =
    if ltb bound port
    then none
    else socket_or (get_or t.entries port closed) (socket_or (any_entry bound t) none)

-- The `port` of csp_bind and csp_bind_callback behind the test of CSP_ANY, a uint8_t; `none` is a
-- port that is too large.
unfoldable pub entry_of : ℕ → ℕ → Option ℕ
entry_of bound port =
    if port == any_port
    then some ((bound + 1) % 2 ^ 8)
    else (if ltb bound port then none else some port)

-- The rest of the two functions, which differ in the entry that they write and in what they answer
-- to a port that is too large, or in use.
unfoldable pub listen_on : ℕ → Port → ℤ → ℤ → ℕ → Ports → ℤ × Ports
listen_on bound listener too_large in_use port t = elim (entry_of bound port) [
  | none ↦ (too_large, record t { dbg_errno = 8 })
  | some i ↦ elim (get_or t.entries i closed) [
    | closed ↦ (pos 0, record t { entries = set t.entries i listener })
    | opened _ ↦ (in_use, record t { dbg_errno = 9 })
    | opened_cb _ ↦ (in_use, record t { dbg_errno = 9 })
  ]
]

-- csp_bind answers CSP_ERR_INVAL or CSP_ERR_USED.
unfoldable pub bind : ℕ → Option ℕ → ℕ → Ports → ℤ × Ports
bind bound none port t = (negsuc 1, t)
bind bound (some socket) port t = listen_on bound (opened socket) (negsuc 1) (negsuc 3) port t

-- csp_bind_callback answers CSP_DBG_ERR_INVALID_BIND_PORT or CSP_DBG_ERR_PORT_ALREADY_IN_USE, and
-- for a null callback CSP_DBG_ERR_INVALID_POINTER.
unfoldable pub bind_callback : ℕ → Option ℕ → ℕ → Ports → ℤ × Ports
bind_callback bound none port t = (pos 11, record t { dbg_errno = 11 })
bind_callback bound (some callback) port t =
    listen_on bound (opened_cb callback) (pos 8) (pos 9) port t
