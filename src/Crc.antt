-- ===== src/Crc.antt =====
-- libcsp/src/csp_crc32.c: the checksum of a packet, by a table, and the two functions that append it
-- to the data and take it off. `version` is csp_conf.version, `data_size` is CSP_BUFFER_SIZE, and
-- `with_header` is the macro CSP_21 of the build.
mod Table
pub mod Bitwise
pub mod Register
pub mod Burst
pub mod Verify
pub mod RoundTrip
mod Tests
use damat_tutorial.Prelude.{
  ℕ, ◌+◌, ◌-◌, ◌/◌, ◌%◌, ◌^◌, Bool, true, false, List, [], ◌∷◌, if◌then◌else◌, ltb, ◌==◌, ◌&&◌,
  get_or, bit_and, bit_xor,
}
use damat_tutorial.Prelude.Int.{ℤ, pos, negsuc}
use damat_tutorial.Packet.{Packet, padding_bytes}
use damat_tutorial.Packet.Bytes.{write_bytes, read_bytes, be_bytes}
use damat_tutorial.Id.{id_prepend}
unfoldable pub use Table.{crc_tab}

-- One round of the loop: `crc_tab[(crc ^ *data++) & 0xFF] ^ (crc >> 8)`
unfoldable pub crc_step : ℕ → ℕ → ℕ
crc_step crc byte = bit_xor (get_or crc_tab (bit_and (bit_xor crc byte) 0xff) 0) (crc / 2 ^ 8)

unfoldable pub crc_loop : ℕ → List ℕ → ℕ
crc_loop crc [] = crc
crc_loop crc (byte ∷ bytes) = crc_loop (crc_step crc byte) bytes

-- csp_crc32_memory
unfoldable pub crc32_memory : List ℕ → ℕ
crc32_memory bytes = bit_xor (crc_loop 0xffffffff bytes) 0xffffffff

-- memcmp(a, b, n) == 0, for two strings of n bytes
abbrev pub same_bytes : List ℕ → List ℕ → Bool
same_bytes [] [] = true
same_bytes (a ∷ as') (b ∷ bs) = a == b && same_bytes as' bs
same_bytes _ _ = false

-- The bytes of the frame, and the first n bytes of the data
abbrev pub frame_bytes : Packet → List ℕ
frame_bytes p = read_bytes p.buf p.frame_begin p.frame_length

abbrev pub data_bytes : Packet → ℕ → List ℕ
data_bytes p n = read_bytes p.buf padding_bytes n

-- The memcpy of the checksum behind the data, and the new length, a uint16_t.
unfoldable pub put_crc : ℕ → Packet → Packet
put_crc crc p = record p {
  buf = write_bytes p.buf (padding_bytes + p.len) (be_bytes 4 crc);
  len = (p.len + 4) % 2 ^ 16;
}

-- csp_crc32_append answers CSP_ERR_NOMEM or CSP_ERR_NONE.
unfoldable pub crc32_append : Bool → ℕ → ℕ → Packet → ℤ × Packet
unfolding put_crc
crc32_append with_header version data_size p =
    let q = id_prepend version p in
    if ltb data_size (p.len + 4)
    then (negsuc 0, p)
    else (if with_header
        then (pos 0, put_crc (crc32_memory (frame_bytes q)) q)
        else (pos 0, put_crc (crc32_memory (data_bytes p p.len)) p))

-- The test of the last four bytes of the data against a checksum
unfoldable pub ends_with : ℕ → Packet → Bool
ends_with crc p = same_bytes (read_bytes p.buf (padding_bytes + p.len - 4) 4) (be_bytes 4 crc)

-- csp_crc32_verify answers CSP_ERR_CRC32 or CSP_ERR_NONE.
unfoldable pub crc32_verify : ℕ → Packet → ℤ × Packet
unfolding ends_with
crc32_verify version p =
    let q = id_prepend version p in
    if ltb p.len 4
    then (negsuc 101, p)
    else (if ends_with (crc32_memory (frame_bytes q)) q
        then (pos 0, record q { len = q.len - 4 })
        else (if ends_with (crc32_memory (data_bytes q (q.len - 4))) q
            then (pos 0, record q { len = q.len - 4 })
            else (negsuc 101, q)))
