-- ===== src/Kiss/Sent.antt =====
-- The frame that csp_kiss_tx sends, and a packet that csp_kiss_rx has put together from it.
use damat_tutorial.Prelude.{
  ℕ, ◌+◌, ◌%◌, ◌^◌, ◌<◌, ◌≤◌, ◌≡◌, ◌∙◌, refl, ap, sym, false, arith, length, take, drop,
  length-take, length-drop,
}
use damat_tutorial.Prelude.Segments.{take-take, take-append_length}
use damat_tutorial.Prelude.Int.{pos}
use damat_tutorial.Packet.{Packet, padding_bytes}
use damat_tutorial.Packet.Bytes.{
  write_bytes, read_bytes, read_bytes-write_bytes, length-write_bytes,
}
use damat_tutorial.Id.{id_prepend, id_strip, id_setup_rx, id1_setup_rx, id2_setup_rx}
use damat_tutorial.Id.RoundTrip.{Fits, id_prepend_frame, id_strip-id_prepend}
use damat_tutorial.Crc.{frame_bytes, crc32_verify, put_crc}
use damat_tutorial.Crc.Verify.{data_of, HasCrc, verify-HasCrc}
use damat_tutorial.Crc.RoundTrip.{SameData, with_crc, with_crc-HasCrc, crc32_append_ok}
use damat_tutorial.Kiss.{outgoing}
use damat_tutorial.Kiss.Frame.{SameFrame, with_header_of, id_strip-SameFrame, data-SameFrame}

-- The length of the header
abbrev pub header_of : ℕ → Packet → ℕ
header_of version p = (id_setup_rx version p).0

pub setup_rx_lem :
    (version : ℕ) (b c : Packet)
    → ((id_setup_rx version b).1.frame_begin + header_of version c ≡ padding_bytes)
      × ((id_setup_rx version b).1.buf ≡ b.buf)
      × (header_of version c ≤ 6)
      × (0 < header_of version c)
unfolding id_setup_rx id1_setup_rx id2_setup_rx
setup_rx_lem version b c = ground arith

header_same : (version : ℕ) (b c : Packet) → header_of version b ≡ header_of version c
unfolding id_setup_rx
header_same version b c = ground arith

module _ (version data_size : ℕ) (p : Packet) (fits : Fits version p.id)
    (mtu : p.len + 4 ≤ data_size) (whole : length p.buf ≡ padding_bytes + data_size)
    (small : data_size + 6 < 2 ^ 16) where
  abbrev pub sent : Packet
  sent = id_prepend version (with_crc p)

  pub outgoing-sent : outgoing false version data_size p ≡ sent
  unfolding outgoing
  outgoing-sent = ap (λ o. id_prepend version o.1) (crc32_append_ok version data_size p mtu)

  crc_len : (with_crc p).len ≡ p.len + 4
  unfolding put_crc
  crc_len = omega arith

  crc_buf : length (with_crc p).buf ≡ padding_bytes + data_size
  unfolding put_crc
  crc_buf = length-write_bytes p.buf (padding_bytes + p.len) _ ∙ whole

  crc_id : (with_crc p).id ≡ p.id
  unfolding put_crc
  crc_id = refl

  short : (with_crc p).len + 6 < 2 ^ 16
  short = omega (arith, crc_len)

  pub sent_len : sent.len ≡ p.len + 4
  sent_len = (id_prepend_frame version (with_crc p) short).1 ∙ crc_len

  sent_id : sent.id ≡ p.id
  sent_id = (id_prepend_frame version (with_crc p) short).0 ∙ crc_id

  sent_data : data_of sent ≡ data_of (with_crc p)
  sent_data = (id_prepend_frame version (with_crc p) short).2

  sent_buf : length sent.buf ≡ padding_bytes + data_size
  sent_buf = (id_prepend_frame version (with_crc p) short).3 ∙ crc_buf

  pub sent_frame_length : sent.frame_length ≡ p.len + 4 + header_of version p
  sent_frame_length = omega (
    arith,
    (id_prepend_frame version (with_crc p) short).5,
    crc_len,
    header_same version (with_crc p) p,
  )

  sent_begin : sent.frame_begin + header_of version p ≡ padding_bytes
  sent_begin =
      omega (arith, (id_prepend_frame version (with_crc p) short).4, sent_frame_length, sent_len)

  sent_strips : id_strip version sent ≡ (pos 0, sent)
  unfolding put_crc
  sent_strips = id_strip-id_prepend version (with_crc p) fits (omega (arith, crc_buf)) short

  pub length-frame_bytes : length (frame_bytes sent) ≡ sent.frame_length
  unfolding read_bytes
  length-frame_bytes = omega (
    arith,
    length-take sent.frame_length (drop sent.frame_begin sent.buf),
    length-drop sent.frame_begin sent.buf,
    sent_buf,
    sent_frame_length,
    sent_begin,
  )

  -- The packet of a receiver, when the frame has come in.
  abbrev pub received : Packet → Packet
  received b =
      let empty = (id_setup_rx version b).1 in
      record empty {
        frame_length = sent.frame_length % 2 ^ 16;
        buf = write_bytes empty.buf (empty.frame_begin + 0) (frame_bytes sent);
      }

  received-SameFrame :
      (b : Packet) → length b.buf ≡ padding_bytes + data_size → SameFrame sent (received b)
  received-SameFrame b room =
      let setup = setup_rx_lem version b p in
      let fits_in : sent.frame_length % 2 ^ 16 ≡ sent.frame_length =
        omega (arith, sent_frame_length, setup.2) in
      record {
        begin = omega (arith, setup.0, sent_begin);
        len = fits_in;
        bytes =
            ap (λ n. read_bytes (received b).buf (received b).frame_begin n)
              (fits_in ∙ sym length-frame_bytes)
            ∙ ap (λ i. read_bytes (received b).buf i (length (frame_bytes sent)))
                {x = (id_setup_rx version b).1.frame_begin}
                {y = (id_setup_rx version b).1.frame_begin + 0} (omega arith)
            ∙ read_bytes-write_bytes (id_setup_rx version b).1.buf
                ((id_setup_rx version b).1.frame_begin + 0) (frame_bytes sent)
                (omega
                  (arith, length-frame_bytes, sent_frame_length, setup.0, ap length setup.1, room));
      }

  pub received_strips :
      (b : Packet)
      → length b.buf ≡ padding_bytes + data_size
      → id_strip version (received b) ≡ (pos 0, with_header_of sent (received b))
  received_strips b room =
      (id_strip-SameFrame version sent (received b) (received-SameFrame b room) sent_strips).0

  received_data :
      (b : Packet)
      → length b.buf ≡ padding_bytes + data_size
      → take sent.len (data_of (received b)) ≡ take sent.len (data_of (with_crc p))
  received_data b room =
      data-SameFrame sent (received b) (header_of version p) (received-SameFrame b room) sent_begin
        (omega (arith, sent_frame_length, sent_len))
      ∙ ap (take sent.len) sent_data

  received-HasCrc :
      (b : Packet)
      → length b.buf ≡ padding_bytes + data_size
      → HasCrc (with_header_of sent (received b)) (take p.len (data_of p))
  received-HasCrc b room =
      let crc = with_crc-HasCrc p (omega (arith, whole)) (omega arith) in
      (
        sent_len ∙ sym crc_len ∙ crc.0,
        received_data b room
            ∙ ap (λ n. take n (data_of (with_crc p))) (sent_len ∙ sym crc_len)
            ∙ crc.1,
      )

  -- csp_crc32_verify gives back the packet that was sent.
  pub received_verified :
      (b : Packet)
      → length b.buf ≡ padding_bytes + data_size
      → (out : Packet) × (crc32_verify version (with_header_of sent (received b)) ≡ (pos 0, out))
        × SameData p out
  received_verified b room =
      let crc = received-HasCrc b room in
      let bytes = take p.len (data_of p) in
      let (out, verified, id, len, data') =
        verify-HasCrc version (with_header_of sent (received b)) bytes crc
          (omega (arith, sent_len)) in
      let n : length bytes ≡ p.len =
        omega (arith, length-take p.len (data_of p), length-drop padding_bytes p.buf, whole) in
      (
        out,
        verified,
        record {
          id = id ∙ sent_id;
          len = len ∙ n;
          bytes =
              ap (take p.len) data'
              ∙ sym (take-take p.len sent.len (data_of (received b)) (omega (arith, sent_len)))
              ∙ ap (take p.len) crc.1
              ∙ take-append_length p.len bytes _ (sym n);
        },
      )
