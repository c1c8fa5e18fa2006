-- ===== src/Kiss/Sound.antt =====
-- A sound receiver of libcsp/src/interfaces/csp_if_kiss.c, and the operations on a packet that keep it
-- sound.
use mathlib.Core.Path.{subst}
use damat_tutorial.Prelude.{
  ℕ, ◌+◌, ◌%◌, ◌^◌, ◌<◌, ◌≤◌, ◌≡◌, ap, sym, true, arith, Option, none, some, [], ◌∷◌, length, All,
  Bool-cases, inl, inr, ltb, ◌==◌,
}
use damat_tutorial.Prelude.Int.{ℤ, pos, negsuc}
use damat_tutorial.Packet.{Packet, padding_bytes}
use damat_tutorial.Packet.Bytes.{write_bytes, read_bytes, be_bytes, length-write_bytes}
use damat_tutorial.Id.{
  id_prepend, id1_prepend, id1_pack, id2_prepend, id2_pack, id_strip, id1_strip, id2_strip, shl64,
}
use damat_tutorial.Crc.{crc32_verify}
use damat_tutorial.Kiss.{
  Mode, not_started, started, escaped, skip_frame, Receiver, count_error, start_with, put_byte,
  checked, stripped, accept_packet,
}
use damat_tutorial.Kiss.Sent.{setup_rx_lem}

id_prepend-buf : (version : ℕ) (p : Packet) → length (id_prepend version p).buf ≡ length p.buf
unfolding id_prepend id1_prepend id2_prepend
id_prepend-buf version p = ground (
  arith,
  length-write_bytes p.buf 4 (be_bytes 4 (id1_pack p.id)),
  length-write_bytes p.buf 2 (read_bytes (be_bytes 8 (shl64 (id2_pack p.id) 16)) 0 6),
)

id_strip-buf : (version : ℕ) (p : Packet) → length (id_strip version p).1.buf ≡ length p.buf
unfolding id_strip id1_strip id2_strip
id_strip-buf version p = ground arith

crc32_verify-buf : (version : ℕ) (p : Packet) → length (crc32_verify version p).1.buf ≡ length p.buf
unfolding crc32_verify
crc32_verify-buf version p = ground (arith, id_prepend-buf version p)

-- The packet has room for the data, and stands at its padding while a frame comes in.
abbrev pub HasRoom : ℕ → Option Packet → Type 0
HasRoom data_size none = Unit
HasRoom data_size (some p) = padding_bytes + data_size ≤ length p.buf

abbrev pub HasPacket : Option Packet → Type 0
HasPacket none = ⊥
HasPacket (some p) = p.frame_begin ≤ padding_bytes

abbrev pub InFrame : Mode → Option Packet → Type 0
InFrame not_started o = Unit
InFrame started o = HasPacket o
InFrame escaped o = HasPacket o
InFrame skip_frame o = Unit

pub record IsSound (data_size : ℕ) (r : Receiver) : Type 0 where
  pub max : r.max_rx_length ≡ data_size
  pub room : HasRoom data_size r.rx_packet
  pub in_frame : InFrame r.rx_mode r.rx_packet
  pub supply : All (HasRoom data_size) r.supply

-- No fault
abbrev pub Returns : ℕ → Option Receiver → Type 0
Returns data_size none = ⊥
Returns data_size (some r) = IsSound data_size r

module _ (version data_size : ℕ) where
  pub start_with-IsSound :
      (o : Option Packet) (r : Receiver)
      → r.max_rx_length ≡ data_size
      → HasRoom data_size o
      → All (HasRoom data_size) r.supply
      → r.rx_packet ≡ o
      → IsSound data_size (start_with version o r)
  start_with-IsSound none r max room supply e = record {
    max = max;
    room = subst (HasRoom data_size) (sym e) room;
    in_frame = tt;
    supply = supply;
  }
  start_with-IsSound (some p) r max room supply e = record {
    max = max;
    room = omega (arith, room, ap length (setup_rx_lem version p p).1);
    in_frame = omega (arith, (setup_rx_lem version p p).0);
    supply = supply;
  }

  pub in_frame_of : (m : Mode) (p : Packet) → p.frame_begin ≤ padding_bytes → InFrame m (some p)
  in_frame_of not_started p h = tt
  in_frame_of started p h = h
  in_frame_of escaped p h = h
  in_frame_of skip_frame p h = tt

  pub put_byte-Returns :
      (byte : ℕ) (o : Option Packet) (r : Receiver)
      → r.max_rx_length ≡ data_size
      → r.rx_length < data_size
      → HasRoom data_size o
      → HasPacket o
      → All (HasRoom data_size) r.supply
      → Returns data_size (put_byte byte o r)
  put_byte-Returns byte none r max fits room packet supply = absurd packet
  put_byte-Returns byte (some p) r max fits room packet supply =
      let inside : ltb (p.frame_begin + r.rx_length) (length p.buf) ≡ true = ground arith in
      rw inside (record {
        max = max;
        room =
            omega (arith, room, length-write_bytes p.buf (p.frame_begin + r.rx_length) (byte ∷ []));
        in_frame =
            in_frame_of r.rx_mode
              (record p { buf = write_bytes p.buf (p.frame_begin + r.rx_length) (byte ∷ []) })
              packet;
        supply = supply;
      })

  pub checked-IsSound :
      (o : ℤ × Packet) (r : Receiver)
      → r.max_rx_length ≡ data_size
      → padding_bytes + data_size ≤ length o.1.buf
      → All (HasRoom data_size) r.supply
      → IsSound data_size (checked o r)
  unfolding count_error
  checked-IsSound (pos n, p) r max room supply = elim (Bool-cases (n == 0)) [
    | inl good ↦ rw good (record { max = max; room = tt; in_frame = tt; supply = supply })
    | inr bad ↦ rw bad (record { max = max; room = room; in_frame = tt; supply = supply })
  ]
  checked-IsSound (negsuc n, p) r max room supply = record {
    max = max;
    room = room;
    in_frame = tt;
    supply = supply;
  }

  pub stripped-IsSound :
      (o : ℤ × Packet) (r : Receiver)
      → r.max_rx_length ≡ data_size
      → padding_bytes + data_size ≤ length o.1.buf
      → All (HasRoom data_size) r.supply
      → IsSound data_size (stripped version o r)
  unfolding count_error
  stripped-IsSound (negsuc n, p) r max room supply = record {
    max = max;
    room = room;
    in_frame = tt;
    supply = supply;
  }
  stripped-IsSound (pos n, p) r max room supply =
      checked-IsSound (crc32_verify version p) (record r { frame = (r.frame + 1) % 2 ^ 32 }) max
        (omega (arith, crc32_verify-buf version p)) supply

  pub accept-Returns :
      (o : Option Packet) (r : Receiver)
      → r.max_rx_length ≡ data_size
      → HasRoom data_size o
      → HasPacket o
      → All (HasRoom data_size) r.supply
      → Returns data_size (accept_packet version o r)
  accept-Returns none r max room packet supply = absurd packet
  accept-Returns (some p) r max room packet supply =
      stripped-IsSound (id_strip version (record p { frame_length = r.rx_length % 2 ^ 16 })) r max
        (omega (arith, id_strip-buf version (record p { frame_length = r.rx_length % 2 ^ 16 })))
        supply
