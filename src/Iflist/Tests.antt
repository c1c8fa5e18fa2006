-- ===== src/Iflist/Tests.antt =====
-- Runs of csp_iflist.c on three interfaces.
use damat_tutorial.Prelude.{ℕ, ◌≡◌, refl, arith, none, some, List, [], ◌∷◌, ◌==◌, filter}
use damat_tutorial.Prelude.Int.{pos, negsuc}
use damat_tutorial.Id.{get_host_bits}
use damat_tutorial.Iflist.{
  Ifaces, blank_iface, iface_at, first_from, serves, get_by_subnet, get_by_addr, get_by_name,
  last_from, add, bytesize, same_name,
}
use damat_tutorial.Iflist.Chain.{first_in}
use damat_tutorial.Iflist.Search.{IsList, by_subnet, searches_lem}
use damat_tutorial.Iflist.Add.{add_new, add_again}

abbrev can_name : List ℕ
can_name = b'C' ∷ b'A' ∷ b'N' ∷ []

abbrev kiss_name : List ℕ
kiss_name = b'K' ∷ b'I' ∷ b'S' ∷ b'S' ∷ []

-- Two interfaces in the list, the third not yet
abbrev sample : Ifaces
sample = record {
  at =
      record blank_iface { addr = 1; netmask = 8; name = can_name; next = some 1 }
      ∷ record blank_iface { addr = 300; netmask = 8; name = kiss_name }
      ∷ record blank_iface { addr = 301; netmask = 8; name = b'L' ∷ [] }
      ∷ [];
  head = some 0;
}

sample-IsList : IsList sample (0 ∷ 1 ∷ [])
sample-IsList = (refl, omega arith, (refl, omega arith, refl))

by_subnet_run : by_subnet 2 (add 2 sample).1 310 4 none ≡ 1 ∷ 2 ∷ []
unfolding by_subnet get_by_subnet first_from add last_from get_host_bits
by_subnet_run = refl

searches_lem_example :
    (get_by_addr sample 300 ≡ first_in (λ i. (iface_at sample i).addr == 300) (0 ∷ 1 ∷ []))
    × (get_by_name sample kiss_name
        ≡ first_in (λ i. same_name (iface_at sample i).name kiss_name) (0 ∷ 1 ∷ []))
    × (by_subnet 2 sample 300 4 none ≡ filter (serves 2 sample 300) (0 ∷ 1 ∷ []))
searches_lem_example = searches_lem 2 sample (0 ∷ 1 ∷ []) 300 kiss_name sample-IsList

add_new_example : ((add 2 sample).0 ≡ pos 0) × IsList (add 2 sample).1 (0 ∷ 1 ∷ 2 ∷ [])
add_new_example = add_new sample (0 ∷ 1 ∷ []) 2 sample-IsList (omega arith) (refl, (refl, tt))

add_again_example : ((add 0 sample).0 ≡ negsuc 6) × IsList (add 0 sample).1 (0 ∷ [])
add_again_example = add_again sample [] (1 ∷ []) 0 sample-IsList

units : bytesize 3000 ≡ (2, b'K')
unfolding bytesize
units = refl
