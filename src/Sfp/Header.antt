-- ===== src/Sfp/Header.antt =====
-- The header of a fragment: csp_sfp_header_add against csp_sfp_header_remove.
use Prim.Native.Nat.{max}
use damat_tutorial.Prelude.{
  ℕ, ◌+◌, ◌-◌, ◌*◌, ◌/◌, ◌%◌, ◌^◌, ◌<◌, ◌≤◌, ◌≡◌, ◌∙◌, refl, ap, sym, false, arith, some, List, ltb,
  ◌==◌, length, bit_and, bit_or, take, drop, min, length-take, length-drop,
}
use damat_tutorial.Prelude.Bits.{bit_or_step, bit_and_step, bit_and-mask}
use damat_tutorial.Prelude.Segments.{take-drop}
use damat_tutorial.Packet.{PacketId, Packet, padding_bytes}
use damat_tutorial.Packet.Bytes.{
  write_bytes, read_bytes, be_bytes, be_value, length-write_bytes, read_bytes-write_bytes,
  drop-write_bytes, take-write_bytes,
}
use damat_tutorial.Sfp.{SfpHeader, header_remove, fragment, header_at, in_bounds}

-- The flag CSP_FFRAG is set.
half_or : (a b : ℕ) → bit_or a (b * 2) / 2 ≡ bit_or (a / 2) b
half_or a b =
    let halved : (b * 2) / 2 ≡ b = omega arith in
    let even : (b * 2) % 2 ≡ 0 = omega arith in
    let step = bit_or_step a (b * 2) in
    omega (arith, step, ap (λ t. bit_or (a / 2) t) halved, ap (λ t. max (a % 2) t) even)

bit_and-bit_or_step :
    (a b : ℕ) → bit_and (bit_or a (b * 2)) (b * 2) ≡ bit_and (bit_or (a / 2) b) b * 2
bit_and-bit_or_step a b =
    let halved : (b * 2) / 2 ≡ b = omega arith in
    let even : (b * 2) % 2 ≡ 0 = omega arith in
    let step = bit_and_step (bit_or a (b * 2)) (b * 2) in
    omega (
      arith,
      step,
      ap (λ t. bit_and (bit_or a (b * 2) / 2) t) halved,
      ap (λ t. bit_and t b) (half_or a b),
      ap (λ t. min (bit_or a (b * 2) % 2) t) even,
    )

bit_and-bit_or_one : (a : ℕ) → bit_and (bit_or a 1) 1 ≡ 1
bit_and-bit_or_one a = omega (arith, bit_and-mask 1 (bit_or a 1), bit_or_step a 1)

fragment_flag : (a : ℕ) → (bit_and (bit_or a 0x10) 0x10 == 0) ≡ false
fragment_flag a =
    let set : bit_and (bit_or a 0x10) 0x10 ≡ 16 = omega (
      arith,
      bit_and-bit_or_step a 8,
      bit_and-bit_or_step (a / 2) 4,
      bit_and-bit_or_step (a / 2 / 2) 2,
      bit_and-bit_or_step (a / 2 / 2 / 2) 1,
      bit_and-bit_or_one (a / 2 / 2 / 2 / 2),
    ) in
    ap (λ t. t == 0) set

-- A read in front of a write, and one behind it
read_bytes-front :
    (buf : List ℕ) (i j n : ℕ) (bytes : List ℕ)
    → j + n ≤ i
    → read_bytes (write_bytes buf i bytes) j n ≡ read_bytes buf j n
unfolding read_bytes
read_bytes-front buf i j n bytes h =
    take-drop (j + n) j n (write_bytes buf i bytes) refl
    ∙ ap (λ t. drop j t) (take-write_bytes buf i (j + n) bytes h)
    ∙ sym (take-drop (j + n) j n buf refl)

read_bytes-behind :
    (buf : List ℕ) (i j n : ℕ) (bytes : List ℕ)
    → i + length bytes ≤ j
    → read_bytes (write_bytes buf i bytes) j n ≡ read_bytes buf j n
unfolding read_bytes
read_bytes-behind buf i j n bytes h = ap (λ t. take n t) (drop-write_bytes buf i j bytes h)

be_value-be_bytes : (w : ℕ) → w < 2 ^ 32 → be_value (be_bytes 4 w) ≡ w
be_value-be_bytes w h = omega arith

-- A buffer with a chunk of data at 8 and a header at `at`
abbrev filled : List ℕ → ℕ → List ℕ → SfpHeader → List ℕ
filled buf at chunk h =
    write_bytes
      (write_bytes (write_bytes buf padding_bytes chunk) (at + 4) (be_bytes 4 h.totalsize)) at
      (be_bytes 4 h.offset)

length-filled :
    (buf : List ℕ) (at : ℕ) (chunk : List ℕ) (h : SfpHeader)
    → length (filled buf at chunk h) ≡ length buf
length-filled buf at chunk h =
    let totalsize_in : List ℕ =
      write_bytes (write_bytes buf padding_bytes chunk) (at + 4) (be_bytes 4 h.totalsize) in
    length-write_bytes totalsize_in at (be_bytes 4 h.offset)
    ∙ length-write_bytes (write_bytes buf padding_bytes chunk) (at + 4) (be_bytes 4 h.totalsize)
    ∙ length-write_bytes buf padding_bytes chunk

chunk_back :
    (buf : List ℕ) (at : ℕ) (chunk : List ℕ) (h : SfpHeader)
    → at ≡ padding_bytes + length chunk
    → at ≤ length buf
    → read_bytes (filled buf at chunk h) padding_bytes (length chunk) ≡ chunk
chunk_back buf at chunk h e room =
    read_bytes-front
      (write_bytes (write_bytes buf padding_bytes chunk) (at + 4) (be_bytes 4 h.totalsize)) at
      padding_bytes (length chunk) (be_bytes 4 h.offset) (omega arith)
    ∙ read_bytes-front (write_bytes buf padding_bytes chunk) (at + 4) padding_bytes (length chunk)
        (be_bytes 4 h.totalsize) (omega arith)
    ∙ read_bytes-write_bytes buf padding_bytes chunk (omega arith)

header_back :
    (buf : List ℕ) (at : ℕ) (chunk : List ℕ) (h : SfpHeader)
    → at + 8 ≤ length buf
    → h.offset < 2 ^ 32
    → h.totalsize < 2 ^ 32
    → header_at (filled buf at chunk h) at ≡ h
header_back buf at chunk h room small_offset small =
    let data_in : List ℕ = write_bytes buf padding_bytes chunk in
    let totalsize_in : List ℕ = write_bytes data_in (at + 4) (be_bytes 4 h.totalsize) in
    let data_length : length data_in ≡ length buf = length-write_bytes buf padding_bytes chunk in
    let totalsize_length : length totalsize_in ≡ length data_in =
      length-write_bytes data_in (at + 4) (be_bytes 4 h.totalsize) in
    let offset_read = read_bytes-write_bytes totalsize_in at (be_bytes 4 h.offset) (omega arith) in
    let totalsize_read =
      read_bytes-behind totalsize_in at (at + 4) 4 (be_bytes 4 h.offset) (omega arith)
      ∙ read_bytes-write_bytes data_in (at + 4) (be_bytes 4 h.totalsize) (omega arith) in
    rw (offset_read, totalsize_read)
      (ap (λ t. record { offset = t; totalsize = be_value (be_bytes 4 h.totalsize) })
          (be_value-be_bytes h.offset small_offset)
        ∙ ap (λ t. record { offset = h.offset; totalsize = t })
            (be_value-be_bytes h.totalsize small))

header_remove_lem :
    (p : Packet) (h : SfpHeader)
    → (bit_and p.id.flags 0x10 == 0) ≡ false
    → 8 ≤ p.len
    → header_at p.buf (padding_bytes + (p.len - 8)) ≡ h
    → h.offset ≤ h.totalsize
    → header_remove p ≡ some (h, record p { len = p.len - 8 })
unfolding header_remove
header_remove_lem p h flag long at_end ordered =
    let enough : ltb p.len 8 ≡ false = ground arith in
    let fine : ltb h.totalsize h.offset ≡ false = ground arith in
    rw (flag, enough) (ap (λ t. in_bounds t (record p { len = p.len - 8 })) at_end ∙ rw fine refl)

-- A fragment of at most as many bytes as the buffer has room for, with the header behind them, and
-- with the offset inside the data
pub record IsFragment (bytes : List ℕ) (totalsize count size : ℕ) (f : Packet) : Type 0 where
  pub body : Packet
  pub removed : header_remove f ≡ some (record { offset = count; totalsize = totalsize }, body)
  pub long : body.len ≡ size
  pub chunk : read_bytes body.buf padding_bytes size ≡ take size (drop count bytes)
  pub room : padding_bytes + size ≤ length body.buf

pub fragment-IsFragment :
    (idout : PacketId) (flags : ℕ) (bytes : List ℕ) (totalsize count size : ℕ) (p : Packet)
    → idout.flags ≡ bit_or flags 0x10
    → size + 8 < 2 ^ 16
    → totalsize < 2 ^ 32
    → count + size ≤ totalsize
    → totalsize ≤ length bytes
    → padding_bytes + size + 8 ≤ length p.buf
    → IsFragment bytes totalsize count size (fragment idout bytes totalsize count size p)
unfolding fragment
fragment-IsFragment idout flags bytes totalsize count size p flag short small inside whole room =
    record {
      body = record f { len = f.len - 8 };
      removed =
          header_remove_lem f (record { offset = count; totalsize = totalsize })
            (ap (λ t. bit_and t 0x10 == 0) flag ∙ fragment_flag flags) (omega (arith, f_len)) at_end
            (omega arith);
      long = omega (arith, f_len);
      chunk =
          ap (λ n. read_bytes f.buf padding_bytes n) (sym chunk_length)
          ∙ ap (λ b. read_bytes b padding_bytes (length chunk)) f_buf
          ∙ chunk_back p.buf (padding_bytes + size) chunk h (omega (arith, chunk_length))
              (omega arith);
      room = omega (arith, ap length f_buf, length-filled p.buf (padding_bytes + size) chunk h);
    }
  where
    h : SfpHeader
    h = record { offset = count; totalsize = totalsize }

    f : Packet
    f = fragment idout bytes totalsize count size p

    f_len : f.len ≡ size + 8
    f_len = unfold fragment in omega arith

    chunk : List ℕ
    chunk = take size (drop count bytes)

    chunk_length : length chunk ≡ size
    chunk_length = omega (arith, length-take size (drop count bytes), length-drop count bytes)

    f_buf : f.buf ≡ filled p.buf (padding_bytes + size) chunk h
    f_buf =
        let exact : size % 2 ^ 16 ≡ size = omega arith in
        unfold fragment in ap (λ n. filled p.buf (padding_bytes + n) chunk h) exact

    at_end : header_at f.buf (padding_bytes + (f.len - 8)) ≡ h
    at_end =
        let header_index : padding_bytes + (f.len - 8) ≡ padding_bytes + size =
          omega (arith, f_len) in
        ap (λ n. header_at f.buf n) header_index
        ∙ ap (λ b. header_at b (padding_bytes + size)) f_buf
        ∙ header_back p.buf (padding_bytes + size) chunk h (omega arith) (omega arith) small
