-- ===== src/Crc/Verify.antt =====
-- What csp_crc32_verify accepts: data that ends with the checksum of the rest.
use damat_tutorial.Prelude.{
  ℕ, ◌+◌, ◌-◌, ◌^◌, ◌<◌, ◌≡◌, ◌∙◌, refl, ap, sym, true, arith, List, [], ◌∷◌, ◌++◌, length, take,
  drop,
}
use damat_tutorial.Prelude.Segments.{take-take, take-append_length, drop-append_length, take-drop}
use damat_tutorial.Prelude.Int.{pos}
use damat_tutorial.Packet.{Packet, padding_bytes}
use damat_tutorial.Packet.Bytes.{read_bytes, be_bytes, drop-drop}
use damat_tutorial.Id.{id_prepend}
use damat_tutorial.Id.RoundTrip.{id_prepend_frame}
use damat_tutorial.Crc.{crc32_memory, same_bytes, data_bytes, ends_with, crc32_verify}

same_bytes_refl : (bs : List ℕ) → same_bytes bs bs ≡ true
same_bytes_refl [] = refl
same_bytes_refl (b ∷ bs) = ground (arith, same_bytes_refl bs)

-- The data of a packet, and what lies behind it in the buffer
abbrev pub data_of : Packet → List ℕ
data_of p = drop padding_bytes p.buf

-- The data of the packet is `bytes`, and the checksum of these.
abbrev pub HasCrc : Packet → List ℕ → Type 0
HasCrc p bytes =
    (p.len ≡ length bytes + 4) × (take p.len (data_of p) ≡ bytes ++ be_bytes 4 (crc32_memory bytes))

-- The second test of csp_crc32_verify, which leaves the header out.
accepts :
    (p : Packet) (bytes : List ℕ)
    → HasCrc p bytes
    → ends_with (crc32_memory (data_bytes p (p.len - 4))) p ≡ true
unfolding ends_with read_bytes
accepts p bytes (len, whole) =
    ap
      (λ bs.
        same_bytes (read_bytes p.buf (padding_bytes + p.len - 4) 4) (be_bytes 4 (crc32_memory bs)))
      front
    ∙ ap (λ bs. same_bytes bs (be_bytes 4 (crc32_memory bytes))) back
    ∙ same_bytes_refl (be_bytes 4 (crc32_memory bytes))
  where
    less : p.len - 4 ≡ length bytes
    less = omega (arith, len)

    front : take (p.len - 4) (data_of p) ≡ bytes
    front =
        sym (take-take (p.len - 4) p.len (data_of p) (omega arith))
        ∙ ap (take (p.len - 4)) whole
        ∙ take-append_length (p.len - 4) bytes (be_bytes 4 (crc32_memory bytes)) less

    back : read_bytes p.buf (padding_bytes + p.len - 4) 4 ≡ be_bytes 4 (crc32_memory bytes)
    back =
        ap (take 4) (
          drop-drop p.buf (padding_bytes + p.len - 4) padding_bytes (p.len - 4)
            (omega (arith, len)))
        ∙ take-drop p.len (p.len - 4) 4 (data_of p) (omega (arith, len))
        ∙ ap (drop (p.len - 4)) whole
        ∙ drop-append_length (p.len - 4) bytes (be_bytes 4 (crc32_memory bytes)) less

-- A packet whose data ends with its checksum is accepted, and loses the checksum.
pub verify-HasCrc :
    (version : ℕ) (p : Packet) (bytes : List ℕ)
    → HasCrc p bytes
    → p.len + 6 < 2 ^ 16
    → (r : Packet) × (crc32_verify version p ≡ (pos 0, r))
      × (r.id ≡ p.id)
      × (r.len ≡ length bytes)
      × (data_of r ≡ data_of p)
unfolding crc32_verify
verify-HasCrc version p bytes (len, whole) short =
    let q = id_prepend version p in
    let frame = id_prepend_frame version p short in
    let same_len : q.len ≡ p.len = frame.1 in
    let same_data : data_of q ≡ data_of p = frame.2 in
    let accepted =
      accepts q bytes (
        same_len ∙ len,
        ap (λ n. take n (data_of q)) same_len ∙ ap (take p.len) same_data ∙ whole,
      ) in
    (
      record q { len = q.len - 4 },
      ground (arith, len, accepted),
      frame.0,
      omega (arith, len, same_len),
      same_data,
    )
