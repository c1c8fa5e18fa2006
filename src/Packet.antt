-- ===== src/Packet.antt =====
-- csp_packet_t and csp_id_t (libcsp/include/csp/csp_types.h): the identifier of a packet, and its
-- buffer. `header` and `data` lie next to each other in the C structure, so they are one list of
-- bytes here: index 0 is header[0], and data[0] stands at CSP_PACKET_PADDING_BYTES.
pub mod Bytes
use damat_tutorial.Prelude.{ℕ, List}

-- csp_id_t
pub record PacketId : Type 0 where
  pub pri : ℕ
  pub flags : ℕ
  pub src : ℕ
  pub dst : ℕ
  pub dport : ℕ
  pub sport : ℕ

-- CSP_PACKET_PADDING_BYTES, the default
abbrev pub padding_bytes : ℕ
padding_bytes = 8

-- csp_packet_t, less the fields of RDP and the list links. `frame_begin` is an index into `buf`.
pub record Packet : Type 0 where
  pub id : PacketId
  pub len : ℕ
  pub frame_begin : ℕ
  pub frame_length : ℕ
  pub buf : List ℕ
