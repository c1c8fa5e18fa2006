-- ===== src/Port/Bind.antt =====
-- csp_bind and csp_bind_callback on the table of ports, seen by csp_port_get_socket and
-- csp_port_get_callback.
use mathlib.Core.Path.{subst, sym}
use damat_tutorial.Prelude.{
  leb, ℕ, ◌+◌, ◌%◌, ◌^◌, ◌≤◌, ◌<◌, ◌≡◌, ◌≢◌, ◌⊎◌, inl, inr, refl, ap, ◌∙◌, Bool, true, false, ◌&&◌,
  ◌||◌, arith, none, some, Bool-cases, ltb, ◌==◌, if◌then◌else◌, length, get_or, set, length-set,
  get_or-set_lem,
}
use damat_tutorial.Prelude.Int.{ℤ, pos, negsuc}
use damat_tutorial.Port.{
  Port, closed, opened, opened_cb, Ports, any_port, entry_of, listen_on, bind, bind_callback,
  get_socket, get_callback, socket_or, callback_or,
}

-- The table has an entry for each port and one for CSP_ANY, whose number is a uint8_t.
pub record IsTable (bound : ℕ) (t : Ports) : Type 0 where
  pub size : length t.entries ≡ bound + 2
  pub narrow : bound < 255

abbrev pub is_closed : Port → Bool
is_closed closed = true
is_closed (opened _) = false
is_closed (opened_cb _) = false

-- A listener bound to `port` answers to port q: its own, or as CSP_ANY each that is closed.
abbrev pub answers_to : ℕ → Ports → ℕ → ℕ → Bool
answers_to bound t port q =
    leb q bound && (q == port || (port == any_port && is_closed (get_or t.entries q closed)))

-- The entry that a port selects, by cases.
entry_of_own : (bound port : ℕ) → port ≤ bound → bound < 255 → entry_of bound port ≡ some port
unfolding entry_of
entry_of_own bound port h narrow = ground arith

entry_of_any : (bound : ℕ) → bound < 255 → entry_of bound any_port ≡ some (bound + 1)
unfolding entry_of
entry_of_any bound narrow =
    let small : (bound + 1) % 2 ^ 8 ≡ bound + 1 = omega arith in ground arith

entry_of_large : (bound port : ℕ) → bound < port → port ≢ any_port → entry_of bound port ≡ none
unfolding entry_of
entry_of_large bound port h other = ground arith

-- What a successful call does: the table is one still, and each port it answers to has the listener.
pub record Taken (bound : ℕ) (listener : Port) (port : ℕ) (t t' : Ports) : Type 0 where
  pub table : IsTable bound t'
  pub sockets :
      (q : ℕ)
      → get_socket bound t' q
        ≡ (if answers_to bound t port q then socket_or listener none else get_socket bound t q)
  pub callbacks :
      (q : ℕ)
      → get_callback bound t' q
        ≡ (if answers_to bound t port q then callback_or listener none else get_callback bound t q)
  pub errno : t'.dbg_errno ≡ t.dbg_errno

stored : ℕ → Port → Ports → Ports
stored i listener t = record t { entries = set t.entries i listener }

stored_own :
    (bound : ℕ) (listener : Port) (port : ℕ) (t : Ports)
    → IsTable bound t
    → port ≤ bound
    → get_or t.entries port closed ≡ closed
    → is_closed listener ≡ false
    → Taken bound listener port t (stored port listener t)
unfolding stored get_socket get_callback
stored_own bound listener port t v h free listens = record {
  table = record { size = length-set t.entries port listener ∙ v.size; narrow = v.narrow };
  sockets = λ q.
      rw
        (
          get_or-set_lem t.entries port q listener closed (omega arith),
          get_or-set_lem t.entries port (bound + 1) listener closed (omega arith),
        )
        (ground arith);
  callbacks = λ q.
      rw
        (
          get_or-set_lem t.entries port q listener closed (omega arith),
          get_or-set_lem t.entries port (bound + 1) listener closed (omega arith),
        )
        (ground arith);
  errno = refl;
}

stored_any :
    (bound : ℕ) (listener : Port) (t : Ports)
    → IsTable bound t
    → get_or t.entries (bound + 1) closed ≡ closed
    → Taken bound listener any_port t (stored (bound + 1) listener t)
unfolding stored get_socket get_callback
stored_any bound listener t v free = record {
  table = record { size = length-set t.entries (bound + 1) listener ∙ v.size; narrow = v.narrow };
  sockets = λ q.
      rw
        (
          get_or-set_lem t.entries (bound + 1) q listener closed (omega arith),
          get_or-set_lem t.entries (bound + 1) (bound + 1) listener closed (omega arith),
          free,
        )
        (ground arith);
  callbacks = λ q.
      rw
        (
          get_or-set_lem t.entries (bound + 1) q listener closed (omega arith),
          get_or-set_lem t.entries (bound + 1) (bound + 1) listener closed (omega arith),
          free,
        )
        (ground arith);
  errno = refl;
}

-- The outcomes of a call: the port is too large, its entry is in use, or the listener is taken.
abbrev pub Outcome : ℕ → Port → ℤ → ℤ → ℕ → Ports → ℤ × Ports → Type 0
Outcome bound listener too_large in_use port t r =
    ((bound < port) × (port ≢ any_port) × (r.0 ≡ too_large) × (r.1 ≡ record t { dbg_errno = 8 }))
    ⊎ ((is_closed (get_or t.entries (if port == any_port then bound + 1 else port) closed) ≡ false)
        × (r.0 ≡ in_use)
        × (r.1 ≡ record t { dbg_errno = 9 }))
    ⊎ ((is_closed (get_or t.entries (if port == any_port then bound + 1 else port) closed) ≡ true)
        × (r.0 ≡ pos 0)
        × Taken bound listener port t r.1)

is_closed-eq : (p : Port) → is_closed p ≡ true → p ≡ closed
is_closed-eq p h = ground arith

-- A call whose entry is known.
listen_at :
    (bound : ℕ) (listener : Port) (too_large in_use : ℤ) (port i : ℕ) (t : Ports)
    → entry_of bound port ≡ some i
    → let r = listen_on bound listener too_large in_use port t in
      ((is_closed (get_or t.entries i closed) ≡ false) × (r ≡ (in_use, record t { dbg_errno = 9 })))
      ⊎ ((get_or t.entries i closed ≡ closed) × (r ≡ (pos 0, stored i listener t)))
unfolding listen_on stored
listen_at bound listener too_large in_use port i t e = rw (e, listen_on) (ground arith)

listen_at-Outcome :
    (bound : ℕ) (listener : Port) (too_large in_use : ℤ) (port i : ℕ) (t : Ports)
    → entry_of bound port ≡ some i
    → (if port == any_port then bound + 1 else port) ≡ i
    → (get_or t.entries i closed ≡ closed → Taken bound listener port t (stored i listener t))
    → Outcome bound listener too_large in_use port t
        (listen_on bound listener too_large in_use port t)
listen_at-Outcome bound listener too_large in_use port i t e same taken =
    elim (listen_at bound listener too_large in_use port i t e) [
      | inl (used, r) ↦ rw (same, r) (inr (inl (used, refl, refl)))
      | inr (free, r) ↦ rw (same, r) (inr (inr (ap is_closed free, refl, taken free)))
    ]

listen_on_large :
    (bound : ℕ) (listener : Port) (too_large in_use : ℤ) (port : ℕ) (t : Ports)
    → entry_of bound port ≡ none
    → listen_on bound listener too_large in_use port t ≡ (too_large, record t { dbg_errno = 8 })
unfolding listen_on
listen_on_large bound listener too_large in_use port t e = rw (e, listen_on) refl

listen_on-Outcome :
    (bound : ℕ) (listener : Port) (too_large in_use : ℤ) (port : ℕ) (t : Ports)
    → IsTable bound t
    → is_closed listener ≡ false
    → Outcome bound listener too_large in_use port t
        (listen_on bound listener too_large in_use port t)
listen_on-Outcome bound listener too_large in_use port t v listens =
    elim (Bool-cases (port == any_port)) [
      | inl any ↦
          let is_any : any_port ≡ port = ground arith in
          listen_at-Outcome bound listener too_large in_use port (bound + 1) t
            (ap (entry_of bound) (sym is_any) ∙ entry_of_any bound v.narrow) (rw any refl)
            (λ free.
              subst (λ p. Taken bound listener p t (stored (bound + 1) listener t)) is_any
                (stored_any bound listener t v free))
      | inr own ↦ elim (Bool-cases (ltb bound port)) [
        | inl large ↦
            let r =
              listen_on_large bound listener too_large in_use port t
                (entry_of_large bound port (ground arith) (ground arith)) in
            inl (ground arith, ground arith, ap (λ o. o.0) r, ap (λ o. o.1) r)
        | inr fits ↦
            listen_at-Outcome bound listener too_large in_use port port t
              (entry_of_own bound port (ground arith) v.narrow) (rw own refl)
              (λ free. stored_own bound listener port t v (ground arith) free listens)
      ]
    ]

-- csp_bind on the table of a build with fewer than 255 ports ends in one of three ways: with
-- CSP_ERR_INVAL and no change but of csp_dbg_errno, for a port that is too large and not
-- CSP_ANY; with CSP_ERR_USED and no change but of csp_dbg_errno, where the entry of the port is in
-- use; or with CSP_ERR_NONE, where it is free. Then csp_port_get_socket gives the socket for that
-- port, or for CSP_ANY for each port that is closed, csp_port_get_callback gives nothing there, and
-- both answer as before to all other ports.
pub bind-Outcome :
    (bound socket port : ℕ) (t : Ports)
    → IsTable bound t
    → Outcome bound (opened socket) (negsuc 1) (negsuc 3) port t (bind bound (some socket) port t)
unfolding bind
bind-Outcome bound socket port t v = listen_on-Outcome bound (opened socket) _ _ port t v refl

-- The same of csp_bind_callback, which for an error answers the number that it stores in
-- csp_dbg_errno: then csp_port_get_callback gives the callback, and csp_port_get_socket nothing.
bind_callback-Outcome :
    (bound callback port : ℕ) (t : Ports)
    → IsTable bound t
    → Outcome bound
        (opened_cb callback)
        (pos 8)
        (pos 9)
        port
        t
        (bind_callback bound (some callback) port t)
unfolding bind_callback
bind_callback-Outcome bound callback port t v =
    listen_on-Outcome bound (opened_cb callback) _ _ port t v refl
