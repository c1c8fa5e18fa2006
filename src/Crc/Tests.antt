-- ===== src/Crc/Tests.antt =====
-- Runs of csp_crc32.c, and its theorems at concrete strings and packets.
use damat_tutorial.Prelude.{◌≡◌, ◌≢◌, refl, arith, List, [], ◌∷◌, ◌++◌, ℕ, false, true, replicate}
use damat_tutorial.Prelude.Int.{pos, negsuc}
use damat_tutorial.Packet.{Packet}
use damat_tutorial.Packet.Bytes.{write_bytes, read_bytes}
use damat_tutorial.Id.{id_prepend, id1_prepend, id1_pack}
use damat_tutorial.Crc.{crc_tab, crc_step, crc_loop, crc32_memory, crc32_append, crc32_verify}
use damat_tutorial.Crc.Bitwise.{crc32c, crc32_memory_lem}
use damat_tutorial.Crc.Burst.{crc32_memory_burst}
use damat_tutorial.Crc.RoundTrip.{SameData, crc32_verify-crc32_append}

abbrev digits_text : List ℕ
digits_text = b'1' ∷ b'2' ∷ b'3' ∷ b'4' ∷ b'5' ∷ b'6' ∷ b'7' ∷ b'8' ∷ b'9' ∷ []

-- The check value of CRC-32C.
check_value : crc32_memory digits_text ≡ 0xe3069283
unfolding crc32_memory crc_loop crc_step crc_tab
check_value = refl

abbrev letter : Packet
letter = record {
  id = record { pri = 2; flags = 1; src = 3; dst = 5; dport = 10; sport = 17 };
  len = 3;
  frame_begin = 0;
  frame_length = 0;
  buf = replicate 8 0 ++ (104 ∷ 105 ∷ 33 ∷ replicate 9 0);
}

-- A checksum that covers the header is not recognised: the test takes in the checksum itself.
with_header_refused : (crc32_verify 1 (crc32_append true 1 12 letter).1).0 ≡ negsuc 101
unfolding crc32_verify crc32_append id_prepend id1_prepend id1_pack crc32_memory crc_loop crc_step
    crc_tab write_bytes read_bytes
with_header_refused = refl

without_header_accepted : (crc32_verify 1 (crc32_append false 1 12 letter).1).0 ≡ pos 0
unfolding crc32_verify crc32_append id_prepend id1_prepend id1_pack crc32_memory crc_loop crc_step
    crc_tab write_bytes read_bytes
without_header_accepted = refl

crc32_memory_lem_example : crc32_memory digits_text ≡ crc32c digits_text
crc32_memory_lem_example = crc32_memory_lem digits_text (omega arith)

abbrev swapped : List ℕ
swapped = 3 ∷ 2 ∷ []

two-ne-three : 2 ∷ 3 ∷ [] ≢ swapped
two-ne-three e = absurd (ground arith)

crc32_memory_burst_example :
    crc32_memory ((1 ∷ []) ++ ((2 ∷ 3 ∷ []) ++ (4 ∷ 5 ∷ [])))
    ≢ crc32_memory ((1 ∷ []) ++ (swapped ++ (4 ∷ 5 ∷ [])))
crc32_memory_burst_example =
    crc32_memory_burst (1 ∷ []) (2 ∷ 3 ∷ []) swapped (4 ∷ 5 ∷ []) (omega arith) (omega arith)
      (omega arith) (omega arith) (omega arith) refl two-ne-three

crc32_verify-crc32_append_example :
    ((crc32_append false 2 12 letter).0 ≡ pos 0)
    × (r : Packet) × (crc32_verify 2 (crc32_append false 2 12 letter).1 ≡ (pos 0, r))
    × SameData letter r
crc32_verify-crc32_append_example =
    crc32_verify-crc32_append 2 12 letter (omega arith) refl (omega arith)
