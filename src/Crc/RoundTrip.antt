-- ===== src/Crc/RoundTrip.antt =====
-- csp_crc32_append and csp_crc32_verify against each other.
use damat_tutorial.Prelude.{
  ℕ, ◌+◌, ◌%◌, ◌^◌, ◌<◌, ◌≤◌, ◌≡◌, ◌∙◌, refl, ap, false, arith, length, take, length-take,
  length-drop,
}
use damat_tutorial.Prelude.Int.{pos}
use damat_tutorial.Packet.{Packet, padding_bytes}
use damat_tutorial.Packet.Bytes.{
  write_bytes, read_bytes, be_bytes, take-write_bytes, take-write_bytes_end,
  drop-write_bytes_before,
}
use damat_tutorial.Crc.{crc32_memory, data_bytes, put_crc, crc32_append, crc32_verify}
use damat_tutorial.Crc.Verify.{data_of, HasCrc, verify-HasCrc}

-- Two packets with the same identifier, length and data.
pub record SameData (p q : Packet) : Type 0 where
  pub id : q.id ≡ p.id
  pub len : q.len ≡ p.len
  pub bytes : take p.len (data_of q) ≡ take p.len (data_of p)

-- The packet that csp_crc32_append makes
abbrev pub with_crc : Packet → Packet
with_crc p = put_crc (crc32_memory (data_bytes p p.len)) p

pub crc32_append_ok :
    (version data_size : ℕ) (p : Packet)
    → p.len + 4 ≤ data_size
    → crc32_append false version data_size p ≡ (pos 0, with_crc p)
unfolding crc32_append
crc32_append_ok version data_size p fits = ground arith

pub with_crc-HasCrc :
    (p : Packet)
    → padding_bytes + p.len + 4 ≤ length p.buf
    → p.len + 4 < 2 ^ 16
    → HasCrc (with_crc p) (take p.len (data_of p))
unfolding put_crc read_bytes
with_crc-HasCrc p room short = (
  omega (arith, length-take p.len (data_of p), length-drop padding_bytes p.buf),
  ap (λ n. take n (data_of (with_crc p))) {x = (p.len + 4) % 2 ^ 16} {y = p.len + 4} (omega arith)
      ∙ ap (take (p.len + 4)) tail_of
      ∙ take-write_bytes_end (data_of p) (p.len + 4) p.len (be_bytes 4 crc) refl
          (omega (arith, length-drop padding_bytes p.buf)),
)
  where
    crc : ℕ
    crc = crc32_memory (data_bytes p p.len)

    tail_of : data_of (with_crc p) ≡ write_bytes (data_of p) p.len (be_bytes 4 crc)
    tail_of =
        drop-write_bytes_before p.buf (padding_bytes + p.len) padding_bytes p.len (be_bytes 4 crc)
          refl

verify-with_crc :
    (version : ℕ) (p : Packet)
    → padding_bytes + p.len + 4 ≤ length p.buf
    → p.len + 10 < 2 ^ 16
    → (r : Packet) × (crc32_verify version (with_crc p) ≡ (pos 0, r)) × SameData p r
unfolding put_crc
verify-with_crc version p room short =
    let (r, verified, id, len, tail_of) =
      verify-HasCrc version (with_crc p) (take p.len (data_of p))
        (with_crc-HasCrc p room (omega arith)) (omega arith) in
    let shown : r.len ≡ p.len =
      omega (arith, len, length-take p.len (data_of p), length-drop padding_bytes p.buf) in
    (
      r,
      verified,
      record {
        id = id;
        len = shown;
        bytes =
            ap (take p.len) (
              tail_of
              ∙ drop-write_bytes_before p.buf (padding_bytes + p.len) padding_bytes p.len
                  (be_bytes 4 (crc32_memory (data_bytes p p.len))) refl)
            ∙ take-write_bytes (data_of p) p.len p.len
                (be_bytes 4 (crc32_memory (data_bytes p p.len))) (omega arith);
      },
    )

-- On either version of the header, csp_crc32_append without the header in the checksum answers
-- CSP_ERR_NONE on a packet whose buffer holds CSP_BUFFER_SIZE bytes of data, at least four more than the
-- packet has; and csp_crc32_verify then answers CSP_ERR_NONE and gives back its identifier, its
-- length and the bytes of its data.
pub crc32_verify-crc32_append :
    (version data_size : ℕ) (p : Packet)
    → p.len + 4 ≤ data_size
    → length p.buf ≡ padding_bytes + data_size
    → data_size + 6 < 2 ^ 16
    → ((crc32_append false version data_size p).0 ≡ pos 0)
      × (r : Packet) × (crc32_verify version (crc32_append false version data_size p).1
          ≡ (pos 0, r))
      × SameData p r
crc32_verify-crc32_append version data_size p fits whole small =
    rw (crc32_append_ok version data_size p fits) (
      let (r, verified, same) = verify-with_crc version p (omega arith) (omega arith) in
      (refl, r, verified, same))
