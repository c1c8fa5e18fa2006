-- ===== src/Io.antt =====
-- The mutation probes of csp_read and csp_send in libcsp/src/csp_io.c: the identifier of the
-- connection is copied into the buffer of seven ints that the mutator takes, and copied back from
-- it, each field cut to its width. `id` is conn->idin or conn->idout, of a connection that exists.
pub mod Probe
mod Tests
use damat_tutorial.Prelude.{ℕ, ◌%◌, ◌^◌, Option, none, some, List, [], ◌∷◌, get_or}
use damat_tutorial.Packet.{PacketId}
use damat_tutorial.Mutator.{MutationOperator, DataItem, Globals}
use damat_tutorial.Mutator.Mutate.{Outcome, mutate_fm_read, mutate_fm_send}

-- damat_buffer_read and damat_buffer_send
unfoldable pub to_buffer : PacketId → List ℕ
to_buffer id = 0 ∷ id.pri ∷ id.src ∷ id.dst ∷ id.dport ∷ id.sport ∷ id.flags ∷ []

-- The assignments behind the call, from an int to a uint8_t or a uint16_t.
unfoldable pub from_buffer : List ℕ → PacketId
from_buffer ints = record {
  pri = get_or ints 1 0 % 2 ^ 8;
  flags = get_or ints 6 0 % 2 ^ 8;
  src = get_or ints 2 0 % 2 ^ 16;
  dst = get_or ints 3 0 % 2 ^ 16;
  dport = get_or ints 4 0 % 2 ^ 8;
  sport = get_or ints 5 0 % 2 ^ 8;
}

-- The identifier and the globals that a call of the mutator leaves.
unfoldable pub after_call : Option Outcome → Option (PacketId × Globals)
after_call none = none
after_call (some (ints, g, answer)) = some (from_buffer ints, g)

unfoldable pub read_probe :
    MutationOperator → DataItem → (ℕ → ℕ) → PacketId → Globals → Option (PacketId × Globals)
read_probe junk junk_item rand id g =
    after_call (mutate_fm_read junk junk_item rand (to_buffer id) g)

unfoldable pub send_probe :
    MutationOperator → DataItem → (ℕ → ℕ) → PacketId → Globals → Option (PacketId × Globals)
send_probe junk junk_item rand id g =
    after_call (mutate_fm_send junk junk_item rand (to_buffer id) g)
