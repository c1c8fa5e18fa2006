-- ===== src/Port/Tests.antt =====
-- Runs of csp_port.c on a table of three ports and the entry of CSP_ANY.
use damat_tutorial.Prelude.{◌≡◌, refl, arith, some, none}
use damat_tutorial.Prelude.Int.{negsuc}
use damat_tutorial.Port.{
  opened, no_ports, bind, bind_callback, get_socket, get_callback, any_port, Ports, listen_on,
  entry_of,
}
use damat_tutorial.Port.Bind.{IsTable, Outcome, bind-Outcome}

abbrev two_listeners : Ports
unfolding no_ports bind bind_callback listen_on entry_of
two_listeners = (bind 3 (some 70) any_port (bind_callback 3 (some 50) 1 (no_ports 3)).1).1

own_callback : get_callback 3 two_listeners 1 ≡ some 50
unfolding get_callback two_listeners listen_on entry_of
own_callback = refl

own_callback_no_socket : get_socket 3 two_listeners 1 ≡ none
unfolding get_socket two_listeners listen_on entry_of
own_callback_no_socket = refl

any_socket : get_socket 3 two_listeners 2 ≡ some 70
unfolding get_socket two_listeners listen_on entry_of
any_socket = refl

too_large : (bind 3 (some 70) 4 two_listeners).0 ≡ negsuc 1
unfolding bind two_listeners listen_on entry_of
too_large = refl

no_ports-IsTable : IsTable 3 (no_ports 3)
unfolding no_ports
no_ports-IsTable = record { size = refl; narrow = omega arith }

bind-Outcome_example :
    Outcome 3
      (opened 70)
      (negsuc 1)
      (negsuc 3)
      any_port
      (no_ports 3)
      (bind 3 (some 70) any_port (no_ports 3))
bind-Outcome_example = bind-Outcome 3 70 any_port (no_ports 3) no_ports-IsTable
