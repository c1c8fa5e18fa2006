-- ===== src/Id/Limits.antt =====
-- What csp_id_strip makes of any frame, and the limits on addresses and ports.
use Prim.Native.Nat.{ℕ, ◌+◌, ◌-◌, ◌*◌, ◌/◌, ◌%◌, ◌^◌, ◌≤◌, ◌<◌}
use native.Mathlib.Nat.{mod-eq_of_lt, pow-le-pow_right}
use damat_tutorial.Prelude.{◌≡◌, ◌⊎◌, ◌↔◌, true, arith, ==_iff}
use damat_tutorial.Prelude.Int.{pos, negsuc}
use damat_tutorial.Prelude.Bits.{bit_and-mask, pow_pos}
use damat_tutorial.Packet.{Packet}
use damat_tutorial.Packet.Bytes.{be_value, read_bytes}
use damat_tutorial.Id.{
  id1_header_size, id1_strip, id2_header_size, id2_strip, id_strip, id_setup_rx, id1_setup_rx,
  id2_setup_rx, get_host_bits, get_max_nodeid, get_max_port, is_broadcast,
}
use damat_tutorial.Id.Header.{id1_parse_lem, id2_parse_lem}

-- A frame is refused and left alone, or parsed: what the header gives is within the limits of the
-- version, and the length is that of the frame less the header.
record Stripped (version : ℕ) (p q : Packet) : Type 0 where
  pub pri : q.id.pri < 4
  pub dst : q.id.dst ≤ get_max_nodeid version
  pub src : q.id.src ≤ get_max_nodeid version
  pub dport : q.id.dport ≤ get_max_port
  pub sport : q.id.sport ≤ get_max_port
  pub len : q.len + (id_setup_rx version p).0 ≡ p.frame_length
  pub buf : q.buf ≡ p.buf

-- csp_id_strip answers -1 and leaves the packet as it is exactly if the frame is shorter than the
-- header of the version; otherwise it answers 0, the priority, addresses and ports that it stores
-- are within csp_id_get_max_nodeid and csp_id_get_max_port, and the length is that of the frame
-- less the header.
id_strip_cases :
    (version : ℕ) (p : Packet)
    → ((p.frame_length < (id_setup_rx version p).0) × (id_strip version p ≡ (negsuc 0, p)))
      ⊎ (((id_setup_rx version p).0 ≤ p.frame_length)
          × ((id_strip version p).0 ≡ pos 0)
          × Stripped version p (id_strip version p).1)
unfolding id_strip id1_strip id2_strip id_setup_rx id1_setup_rx id2_setup_rx get_max_nodeid
    get_max_port read_bytes
id_strip_cases version p = ground (
  arith,
  id1_parse_lem (be_value (read_bytes p.buf p.frame_begin id1_header_size)),
  id2_parse_lem (be_value (read_bytes p.buf p.frame_begin id2_header_size) * 2 ^ 16 / 2 ^ 16),
)

-- For a netmask that is no longer than an address, csp_id_is_broadcast holds exactly of the
-- addresses whose host part, the bits below the netmask, is all ones.
is_broadcast_iff :
    (version addr netmask : ℕ)
    → netmask ≤ get_host_bits version
    → (is_broadcast version addr netmask ≡ true)
      ↔ (addr % 2 ^ (get_host_bits version - netmask) ≡ 2 ^ (get_host_bits version - netmask) - 1)
unfolding is_broadcast
is_broadcast_iff version addr netmask h =
    rw (mod-eq_of_lt small, bit_and-mask (get_host_bits version - netmask) addr) (==_iff _ _)
  where
    host_bits_le : get_host_bits version ≤ 14
    host_bits_le = unfold get_host_bits in ground arith

    small : 2 ^ (get_host_bits version - netmask) - 1 < 2 ^ 16
    small = omega (
      arith,
      pow-le-pow_right {n = 2} (omega arith) {i = get_host_bits version - netmask} {j = 14}
          (omega (arith, host_bits_le)),
      pow_pos (get_host_bits version - netmask),
    )
