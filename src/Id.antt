-- ===== src/Id.antt =====
-- libcsp/src/csp_id.c: the header of a packet, packed into the bytes before its data and parsed
-- from a frame, in the layouts of CSP 1.x (32 bits) and CSP 2.x (48 bits), and the limits that
-- go with each. `version` is csp_conf.version.
pub mod Header
pub mod RoundTrip
pub mod Limits
mod Tests
use damat_tutorial.Prelude.{
  ℕ, ◌+◌, ◌-◌, ◌*◌, ◌/◌, ◌%◌, ◌^◌, Bool, ◌==◌, if◌then◌else◌, bit_and, bit_or, ltb,
}
use damat_tutorial.Prelude.Int.{ℤ, pos, negsuc}
use damat_tutorial.Packet.{PacketId, Packet, padding_bytes}
use damat_tutorial.Packet.Bytes.{write_bytes, read_bytes, be_bytes, be_value}

abbrev pub id1_header_size : ℕ
id1_header_size = 4

abbrev pub id2_header_size : ℕ
id2_header_size = 6

-- `x << k` in 32 and in 64 bits, and `(x >> k) & mask`
abbrev pub shl32 : ℕ → ℕ → ℕ
shl32 x k = x * 2 ^ k % 2 ^ 32

abbrev pub shl64 : ℕ → ℕ → ℕ
shl64 x k = x * 2 ^ k % 2 ^ 64

abbrev pub field : ℕ → ℕ → ℕ → ℕ
field x k mask = bit_and (x / 2 ^ k) mask

-- the 32-bit word that csp_id1_prepend builds
unfoldable pub id1_pack : PacketId → ℕ
id1_pack id =
    bit_or
      (bit_or
        (bit_or (bit_or (bit_or (shl32 id.pri 30) (shl32 id.dst 20)) (shl32 id.src 25))
          (shl32 id.dport 14))
        (shl32 id.sport 8))
      (shl32 id.flags 0)

-- `data - HEADER_SIZE`, the length of the frame as a uint16_t, and the memcpy of the header
abbrev pub prepend_bytes : ℕ → ℕ → Packet → Packet
prepend_bytes size word p = record p {
  frame_begin = padding_bytes - size;
  frame_length = (p.len + size) % 2 ^ 16;
  buf = write_bytes p.buf (padding_bytes - size) (be_bytes size word);
}

unfoldable pub id1_prepend : Packet → Packet
unfolding write_bytes
id1_prepend p = prepend_bytes id1_header_size (id1_pack p.id) p

unfoldable pub id1_parse : ℕ → PacketId
id1_parse id1 = record {
  pri = field id1 30 0x3;
  dst = field id1 20 0x1f;
  src = field id1 25 0x1f;
  dport = field id1 14 0x3f;
  sport = field id1 8 0x3f;
  flags = field id1 0 0xff;
}

-- The status is the int that the function returns.
unfoldable pub id1_strip : Packet → ℤ × Packet
unfolding read_bytes
id1_strip p = if ltb p.frame_length id1_header_size then (negsuc 0, p) else (
  pos 0,
  record p {
    len = p.frame_length - id1_header_size;
    id = id1_parse (be_value (read_bytes p.buf p.frame_begin id1_header_size));
  },
)

unfoldable pub id1_setup_rx : Packet → Packet
id1_setup_rx p = record p { frame_begin = padding_bytes - id1_header_size; frame_length = 0 }

-- the 48 bits that csp_id2_prepend builds
unfoldable pub id2_pack : PacketId → ℕ
id2_pack id =
    bit_or
      (bit_or
        (bit_or (bit_or (bit_or (shl64 id.pri 46) (shl64 id.dst 32)) (shl64 id.src 18))
          (shl32 id.dport 12))
        (shl32 id.sport 6))
      (shl32 id.flags 0)

-- `htobe64(id2 << 16)` leaves the 48 bits in the first six bytes, those that the memcpy takes.
unfoldable pub id2_prepend : Packet → Packet
unfolding write_bytes
id2_prepend p = record p {
  frame_begin = padding_bytes - id2_header_size;
  frame_length = (p.len + id2_header_size) % 2 ^ 16;
  buf =
      write_bytes p.buf (padding_bytes - id2_header_size)
        (read_bytes (be_bytes 8 (shl64 (id2_pack p.id) 16)) 0 id2_header_size);
}

unfoldable pub id2_parse : ℕ → PacketId
id2_parse id2 = record {
  pri = field id2 46 0x3;
  dst = field id2 32 0x3fff;
  src = field id2 18 0x3fff;
  dport = field id2 12 0x3f;
  sport = field id2 6 0x3f;
  flags = field id2 0 0x3f;
}

-- The six bytes are copied into a zeroed uint64_t; `be64toh` puts the first byte on top, and
-- `>> 16` shifts the two that were not copied out.
unfoldable pub id2_strip : Packet → ℤ × Packet
unfolding read_bytes
id2_strip p = if ltb p.frame_length id2_header_size then (negsuc 0, p) else (
  pos 0,
  record p {
    len = p.frame_length - id2_header_size;
    id = id2_parse (be_value (read_bytes p.buf p.frame_begin id2_header_size) * 2 ^ 16 / 2 ^ 16);
  },
)

unfoldable pub id2_setup_rx : Packet → Packet
id2_setup_rx p = record p { frame_begin = padding_bytes - id2_header_size; frame_length = 0 }

-- The dispatch on the version, made at run time.
unfoldable pub id_prepend : ℕ → Packet → Packet
id_prepend version p = if version == 2 then id2_prepend p else id1_prepend p

unfoldable pub id_strip : ℕ → Packet → ℤ × Packet
id_strip version p = if version == 2 then id2_strip p else id1_strip p

unfoldable pub id_setup_rx : ℕ → Packet → ℕ × Packet
id_setup_rx version p =
    if version == 2 then (id2_header_size, id2_setup_rx p) else (id1_header_size, id1_setup_rx p)

unfoldable pub get_host_bits : ℕ → ℕ
get_host_bits version = if version == 2 then 14 else 5

unfoldable pub get_max_nodeid : ℕ → ℕ
get_max_nodeid version = if version == 2 then 2 ^ 14 - 1 else 2 ^ 5 - 1

unfoldable pub get_max_port : ℕ
get_max_port = 2 ^ 6 - 1

-- The shift is by the host bits of the address; `netmask` is at most the bits of a host.
unfoldable pub is_broadcast : ℕ → ℕ → ℕ → Bool
unfolding get_host_bits
is_broadcast version addr netmask =
    let hostmask = (2 ^ (get_host_bits version - netmask) - 1) % 2 ^ 16 in
    bit_and addr hostmask == hostmask
