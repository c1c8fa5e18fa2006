-- ===== src/Id/RoundTrip.antt =====
-- csp_id_prepend and csp_id_strip against each other.
use damat_tutorial.Prelude.{
  ℕ, ◌+◌, ◌*◌, ◌/◌, ◌≤◌, ◌<◌, ◌^◌, ◌==◌, ◌≡◌, inl, inr, arith, List, ◌-◌, Bool-cases, length, drop,
  if◌then◌else◌,
}
use damat_tutorial.Prelude.Int.{pos}
use damat_tutorial.Packet.{PacketId, Packet, padding_bytes}
use damat_tutorial.Packet.Bytes.{
  be_bytes, be_value, read_bytes, read_bytes-write_bytes, drop-write_bytes, length-write_bytes,
}
use damat_tutorial.Id.{
  id1_header_size, id1_pack, id1_prepend, id1_strip, id2_header_size, id2_pack, id2_prepend,
  id2_strip, id_prepend, id_strip, id_setup_rx, shl64,
}
use damat_tutorial.Id.Header.{
  FitsId1, FitsId2, id1_parse-pack, id2_parse-pack, id1_pack-lt, id2_pack-lt,
}

-- The fields of the identifier fit the header of the version in use.
abbrev pub Fits : ℕ → PacketId → Type 0
Fits version id = if version == 2 then FitsId2 id else FitsId1 id

be_value-be_bytes_32 : (w : ℕ) → w < 2 ^ 32 → be_value (be_bytes 4 w) ≡ w
be_value-be_bytes_32 w h = omega arith

be_value-be_bytes_48 :
    (w : ℕ) → w < 2 ^ 48 → be_value (read_bytes (be_bytes 8 (shl64 w 16)) 0 6) * 2 ^ 16 / 2 ^ 16 ≡ w
unfolding read_bytes
be_value-be_bytes_48 w h = omega arith

id1_strip-prepend :
    (p : Packet)
    → FitsId1 p.id
    → padding_bytes ≤ length p.buf
    → p.len + id1_header_size < 2 ^ 16
    → id1_strip (id1_prepend p) ≡ (pos 0, id1_prepend p)
unfolding id1_strip id1_prepend
id1_strip-prepend p f room short =
    rw
      (
        read_bytes-write_bytes p.buf 4 (be_bytes 4 (id1_pack p.id)) (omega arith),
        be_value-be_bytes_32 (id1_pack p.id) (id1_pack-lt p.id f),
        id1_parse-pack p.id f,
      )
      (ground arith)

id2_strip-prepend :
    (p : Packet)
    → FitsId2 p.id
    → padding_bytes ≤ length p.buf
    → p.len + id2_header_size < 2 ^ 16
    → id2_strip (id2_prepend p) ≡ (pos 0, id2_prepend p)
unfolding id2_strip id2_prepend
id2_strip-prepend p f room short =
    rw
      (
        read_bytes-write_bytes p.buf 2 (read_bytes (be_bytes 8 (shl64 (id2_pack p.id) 16)) 0 6)
            (unfold read_bytes in omega arith),
        be_value-be_bytes_48 (id2_pack p.id) (id2_pack-lt p.id f),
        id2_parse-pack p.id f,
      )
      (ground arith)

abbrev header2 : Packet → List ℕ
header2 p = read_bytes (be_bytes 8 (shl64 (id2_pack p.id) 16)) 0 6

-- On either version, stripping the frame that csp_id_prepend made succeeds and gives back the
-- identifier and the length of the packet, for an identifier that fits the header, a buffer with
-- its padding, and a length that leaves room for the header in a uint16_t.
pub id_strip-id_prepend :
    (version : ℕ) (p : Packet)
    → Fits version p.id
    → padding_bytes ≤ length p.buf
    → p.len + id2_header_size < 2 ^ 16
    → id_strip version (id_prepend version p) ≡ (pos 0, id_prepend version p)
unfolding id_strip id_prepend
id_strip-id_prepend version p f room short = elim (Bool-cases (version == 2)) [
  | inl e ↦ rw e (id2_strip-prepend p (rw e at f) room short)
  | inr e ↦ rw e (id1_strip-prepend p (rw e at f) room (omega arith))
]

-- Prepending the header leaves the identifier, the length and the bytes of the data alone, and
-- makes a frame of the data and the header, which begins inside the padding.
pub id_prepend_frame :
    (version : ℕ) (p : Packet)
    → p.len + id2_header_size < 2 ^ 16
    → let q = id_prepend version p in
      (q.id ≡ p.id)
      × (q.len ≡ p.len)
      × (drop padding_bytes q.buf ≡ drop padding_bytes p.buf)
      × (length q.buf ≡ length p.buf)
      × (q.frame_begin + (q.frame_length - q.len) ≡ padding_bytes)
      × (q.frame_length ≡ p.len + (id_setup_rx version p).0)
unfolding id_prepend id1_prepend id2_prepend id_setup_rx
id_prepend_frame version p short = ground (
  arith,
  drop-write_bytes p.buf 4 8 (be_bytes 4 (id1_pack p.id)) (omega arith),
  drop-write_bytes p.buf 2 8 (header2 p) (unfold read_bytes in omega arith),
  length-write_bytes p.buf 4 (be_bytes 4 (id1_pack p.id)),
  length-write_bytes p.buf 2 (header2 p),
)
