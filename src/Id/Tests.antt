-- ===== src/Id/Tests.antt =====
-- Runs of csp_id.c, and its theorems at concrete packets.
use damat_tutorial.Prelude.{◌≡◌, refl, [], ◌∷◌, arith}
use damat_tutorial.Prelude.Int.{pos}
use damat_tutorial.Packet.{Packet}
use damat_tutorial.Packet.Bytes.{read_bytes}
use damat_tutorial.Id.{id1_prepend, id1_pack, id2_prepend, id2_pack, id_prepend, id_strip}
use damat_tutorial.Id.Header.{FitsId1}
use damat_tutorial.Id.RoundTrip.{id_strip-id_prepend}

abbrev hello : Packet
hello = record {
  id = record { pri = 2; flags = 1; src = 3; dst = 5; dport = 10; sport = 17 };
  len = 3;
  frame_begin = 0;
  frame_length = 0;
  buf = 0 ∷ 0 ∷ 0 ∷ 0 ∷ 0 ∷ 0 ∷ 0 ∷ 0 ∷ 104 ∷ 105 ∷ 33 ∷ [];
}

hello_word : id1_pack hello.id ≡ 0x86529101
unfolding id1_pack
hello_word = refl

hello_frame :
    read_bytes (id_prepend 1 hello).buf 4 7 ≡ 0x86 ∷ 0x52 ∷ 0x91 ∷ 0x01 ∷ 104 ∷ 105 ∷ 33 ∷ []
unfolding id_prepend id1_prepend id1_pack read_bytes
hello_frame = refl

hello_frame2 :
    read_bytes (id_prepend 2 hello).buf 2 6 ≡ 0x80 ∷ 0x05 ∷ 0x00 ∷ 0x0c ∷ 0xa4 ∷ 0x41 ∷ []
unfolding id_prepend id2_prepend id2_pack read_bytes
hello_frame2 = refl

hello_fits1 : FitsId1 hello.id
hello_fits1 = omega arith

id_strip-id_prepend_example : id_strip 1 (id_prepend 1 hello) ≡ (pos 0, id_prepend 1 hello)
id_strip-id_prepend_example = id_strip-id_prepend 1 hello hello_fits1 (omega arith) (omega arith)
