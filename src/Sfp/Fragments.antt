-- ===== src/Sfp/Fragments.antt =====
-- The fragments of a piece of data, from a position on: what a sender gives and a receiver expects.
use damat_tutorial.Prelude.{ℕ, ◌+◌, ◌<◌, ◌≤◌, List, [], ◌∷◌}
use damat_tutorial.Packet.{Packet}
use damat_tutorial.Sfp.Header.{IsFragment}

-- The packets carry the bytes from `count` on, at most `mtu` and at least one each.
pub data Fragments (bytes : List ℕ) (totalsize mtu : ℕ) : ℕ → List Packet → Type 0 where
  all_sent : {count : ℕ} → totalsize ≤ count → Fragments bytes totalsize mtu count []
  one_more :
      {count : ℕ} {later : List Packet} (size : ℕ) (f : Packet)
      → 0 < size
      → size ≤ mtu
      → count + size ≤ totalsize
      → IsFragment bytes totalsize count size f
      → Fragments bytes totalsize mtu (count + size) later
      → Fragments bytes totalsize mtu count (f ∷ later)
