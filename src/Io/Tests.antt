-- ===== src/Io/Tests.antt =====
-- Runs of the probes of csp_io.c, and their theorems at concrete identifiers.
use damat_tutorial.Prelude.{◌≡◌, refl, some, [], ◌∷◌, arith, inl}
use damat_tutorial.Prelude.Int.{ℤ, pos, negsuc}
use damat_tutorial.Packet.{PacketId}
use damat_tutorial.Mutator.{MutationType, DataType, MutationOperator, DataItem, Globals}
use damat_tutorial.Mutator.Inactive.{Idle}
use damat_tutorial.Io.{read_probe, send_probe, from_buffer}
use damat_tutorial.Io.Probe.{
  InWidth, OneField, read_probe-OneField, send_probe-OneField, read_probe_inactive,
}

abbrev unset : MutationOperator
unset = record {
  kind = MutationType.hv;
  min = pos 0;
  max = pos 0;
  threshold = pos 0;
  delta = pos 0;
  state = pos 0;
  value = pos 0;
}

abbrev unset_item : DataItem
unset_item = record { kind = DataType.int; span = 0; operators_n = 0; operators = [] }

abbrev with_mutation : ℤ → Globals
with_mutation m = record {
  mutation = m;
  mutated = 0;
  counter = 0;
  fm_cov = 0;
  coverage = [];
  stored_int = pos 0;
  stored_bin = 0;
  repeat_counter = pos 0;
  sample = 1;
}

abbrev ping : PacketId
ping = record { pri = 2; flags = 0; src = 1; dst = 2; dport = 1; sport = 40 }

ping-InWidth : InWidth ping
ping-InWidth = record {
  pri = omega arith;
  flags = omega arith;
  src = omega arith;
  dst = omega arith;
  dport = omega arith;
  sport = omega arith;
}

-- A port of 511 comes back as 255.
cut : from_buffer (0 ∷ 3 ∷ 1 ∷ 2 ∷ 511 ∷ 40 ∷ 0 ∷ []) ≡ record ping { pri = 3; dport = 255 }
unfolding from_buffer
cut = refl

read_probe-OneField_example :
    (id' : PacketId) × (g' : Globals) × (read_probe unset unset_item
        (λ k. k)
        ping
        (with_mutation (pos 3))
      ≡ some (id', g'))
    × OneField ping id' (with_mutation (pos 3)) g'
read_probe-OneField_example =
    read_probe-OneField unset unset_item (λ k. k) ping (with_mutation (pos 3)) 3 ping-InWidth refl
      (omega arith)

send_probe-OneField_example :
    (id' : PacketId) × (g' : Globals) × (send_probe unset unset_item
        (λ k. k)
        ping
        (with_mutation (pos 22))
      ≡ some (id', g'))
    × OneField ping id' (with_mutation (pos 22)) g'
send_probe-OneField_example =
    send_probe-OneField unset unset_item (λ k. k) ping (with_mutation (pos 22)) 2 ping-InWidth refl
      (omega arith)

read_probe_inactive_example :
    (g' : Globals) × (read_probe unset unset_item (λ k. k) ping (with_mutation (negsuc 0))
      ≡ some (ping, g'))
    × Idle (with_mutation (negsuc 0)) g'
read_probe_inactive_example =
    read_probe_inactive unset unset_item (λ k. k) ping (with_mutation (negsuc 0)) ping-InWidth
      (inl (omega arith))
