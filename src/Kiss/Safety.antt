-- ===== src/Kiss/Safety.antt =====
-- csp_kiss_rx on any bytes: it never writes outside its packet, and never without one.
use mathlib.Core.Path.{subst}
use damat_tutorial.Prelude.{
  ℕ, Bool, ◌+◌, ◌<◌, ◌≡◌, refl, sym, true, false, arith, Option, none, some, List, [], ◌∷◌, length,
  All, Bool-cases, ◌⊎◌, inl, inr, if◌then◌else◌, ltb, leb, ◌==◌,
}
use damat_tutorial.Packet.{Packet}
use damat_tutorial.Kiss.{
  fend, fesc, tfend, tfesc, Mode, not_started, started, escaped, skip_frame, Receiver, count_error,
  drop_long, allocated, supplied, start_with, on_not_started, put_byte, store, on_started, resume,
  on_escaped, on_skip_frame, on_byte, rx_byte, continue_rx, kiss_rx,
}
use damat_tutorial.Kiss.Sound.{
  HasRoom, HasPacket, InFrame, IsSound, Returns, start_with-IsSound, put_byte-Returns,
  accept-Returns,
}

-- The packet is still there.
abbrev Holds : Option Receiver → Type 0
Holds none = Unit
Holds (some r) = HasPacket r.rx_packet

module _ (version data_size : ℕ) where
  on_started-Returns :
      (byte : ℕ) (r : Receiver)
      → IsSound data_size r
      → HasPacket r.rx_packet
      → r.rx_length < data_size
      → Returns data_size (on_started version byte r)
  unfolding on_started store
  on_started-Returns byte r v packet fits = elim (Bool-cases (byte == fesc)) [
    | inl esc ↦ rw esc (record { max = v.max; room = v.room; in_frame = packet; supply = v.supply })
    | inr not_esc ↦ elim (Bool-cases (byte == fend)) [
      | inl end_byte ↦ elim (Bool-cases (ltb 0 r.rx_length)) [
        | inl more ↦
            rw (not_esc, end_byte, more)
              (accept-Returns version data_size r.rx_packet r v.max v.room packet v.supply)
        | inr nothing ↦ rw (not_esc, end_byte, nothing) v
      ]
      | inr not_end ↦ rw (not_esc, not_end) (plain-sound r.rx_first (Bool-cases r.rx_first))
    ]
  ]
    where
      plain-sound :
          (b : Bool)
          → (b ≡ true) ⊎ (b ≡ false)
          → Returns data_size (if b then some (record r { rx_first = false }) else store byte r)
      plain-sound b (inl first) =
          rw first (record { max = v.max; room = v.room; in_frame = v.in_frame; supply = v.supply })
      plain-sound b (inr later) =
          rw later (
            put_byte-Returns version data_size byte r.rx_packet r v.max fits v.room packet v.supply)

  put_byte-packet :
      (byte : ℕ) (o : Option Packet) (r : Receiver) → HasPacket o → Holds (put_byte byte o r)
  put_byte-packet byte none r packet = absurd packet
  put_byte-packet byte (some p) r packet =
      elim (Bool-cases (ltb (p.frame_begin + r.rx_length) (length p.buf))) [
        | inl inside ↦ rw inside packet
        | inr outside ↦ rw outside tt
      ]

  resume-Returns :
      (o : Option Receiver) → Returns data_size o → Holds o → Returns data_size (resume o)
  resume-Returns none v packet = v
  resume-Returns (some r) v packet = record {
    max = v.max;
    room = v.room;
    in_frame = packet;
    supply = v.supply;
  }

  on_escaped-Returns :
      (byte : ℕ) (r : Receiver)
      → IsSound data_size r
      → HasPacket r.rx_packet
      → r.rx_length < data_size
      → Returns data_size (on_escaped byte r)
  unfolding on_escaped store
  on_escaped-Returns byte r v packet fits = elim (Bool-cases (byte == tfesc)) [
    | inl esc ↦ rw esc (put-sound fesc)
    | inr not_esc ↦ elim (Bool-cases (byte == tfend)) [
      | inl end_byte ↦ rw (not_esc, end_byte) (put-sound fend)
      | inr other ↦
          rw (not_esc, other)
            (record { max = v.max; room = v.room; in_frame = packet; supply = v.supply })
    ]
  ]
    where
      put-sound : (b : ℕ) → Returns data_size (resume (put_byte b r.rx_packet r))
      put-sound b =
          resume-Returns (put_byte b r.rx_packet r)
            (put_byte-Returns version data_size b r.rx_packet r v.max fits v.room packet v.supply)
            (put_byte-packet b r.rx_packet r packet)

  allocated-IsSound :
      (o : Option Packet) (r : Receiver)
      → r.max_rx_length ≡ data_size
      → r.rx_packet ≡ o
      → HasRoom data_size o
      → All (HasRoom data_size) r.supply
      → IsSound data_size (start_with version (allocated o r).rx_packet (allocated o r))
  allocated-IsSound (some p) r max same room supply =
      start_with-IsSound version data_size r.rx_packet r max
        (subst (HasRoom data_size) (sym same) room) supply refl
  allocated-IsSound none r max same room supply = supplied-sound r.supply supply
    where
      supplied-sound :
          (l : List (Option Packet))
          → All (HasRoom data_size) l
          → IsSound data_size (start_with version (supplied l r).rx_packet (supplied l r))
      supplied-sound [] h =
          start_with-IsSound version data_size r.rx_packet r max
            (subst (HasRoom data_size) (sym same) tt) supply refl
      supplied-sound (o ∷ l) h =
          start_with-IsSound version data_size o (record r { rx_packet = o; supply = l }) max h.0
            h.1 refl

  on_not_started-IsSound :
      (byte : ℕ) (r : Receiver)
      → IsSound data_size r
      → IsSound data_size (on_not_started version byte r)
  unfolding on_not_started
  on_not_started-IsSound byte r v = elim (Bool-cases (byte == fend)) [
    | inl begins ↦ rw begins (allocated-IsSound r.rx_packet r v.max refl v.room v.supply)
    | inr other ↦ rw other v
  ]

  on_skip_frame-IsSound :
      (byte : ℕ) (r : Receiver)
      → IsSound data_size r
      → r.rx_mode ≡ skip_frame
      → IsSound data_size (on_skip_frame byte r)
  unfolding on_skip_frame
  on_skip_frame-IsSound byte r v mode = elim (Bool-cases (byte == fend)) [
    | inl ends ↦ rw ends (record { max = v.max; room = v.room; in_frame = tt; supply = v.supply })
    | inr other ↦ rw other v
  ]

  on_byte-Returns :
      (m : Mode) (byte : ℕ) (r : Receiver)
      → IsSound data_size r
      → r.rx_mode ≡ m
      → r.rx_length < data_size
      → Returns data_size (on_byte version m byte r)
  on_byte-Returns not_started byte r v mode fits = on_not_started-IsSound byte r v
  on_byte-Returns started byte r v mode fits =
      on_started-Returns byte r v (subst (λ m. InFrame m r.rx_packet) mode v.in_frame) fits
  on_byte-Returns escaped byte r v mode fits =
      on_escaped-Returns byte r v (subst (λ m. InFrame m r.rx_packet) mode v.in_frame) fits
  on_byte-Returns skip_frame byte r v mode fits = on_skip_frame-IsSound byte r v mode

  drop_long-IsSound :
      (r : Receiver)
      → 0 < data_size
      → IsSound data_size r
      → IsSound data_size (drop_long r) × ((drop_long r).rx_length < data_size)
  unfolding drop_long count_error
  drop_long-IsSound r pos_size v = elim (Bool-cases (leb r.max_rx_length r.rx_length)) [
    | inl long ↦
        rw long (record { max = v.max; room = v.room; in_frame = tt; supply = v.supply }, pos_size)
    | inr short ↦ rw short (v, ground (arith, v.max))
  ]

-- A receiver stays sound on any bytes, whatever csp_buffer_get gives: csp_kiss_rx writes inside the
-- packet it holds, and has one whenever it writes. A sound receiver has max_rx_length set to the
-- size of a buffer's data, a size above 0, and a packet while it is in a frame, and the buffers it
-- holds or will be given have room for that data.
pub kiss_rx-Returns :
    (version data_size : ℕ) (bytes : List ℕ) (r : Receiver)
    → 0 < data_size
    → IsSound data_size r
    → Returns data_size (kiss_rx version bytes r)
unfolding kiss_rx
kiss_rx-Returns version data_size [] r pos_size v = v
kiss_rx-Returns version data_size (byte ∷ bytes) r pos_size v =
    continues (rx_byte version byte r)
      (unfold rx_byte in
        (on_byte-Returns version data_size (drop_long r).rx_mode byte (drop_long r)
          (drop_long-IsSound version data_size r pos_size v).0 refl
          (drop_long-IsSound version data_size r pos_size v).1))
      (λ next h. kiss_rx-Returns version data_size bytes next pos_size h)
  where
    continues :
        (o : Option Receiver)
        → Returns data_size o
        → ((next : Receiver)
            → IsSound data_size next
            → Returns data_size (kiss_rx version bytes next))
        → Returns data_size (continue_rx (λ next. kiss_rx version bytes next) o)
    continues none h rest = h
    continues (some next) h rest = rest next h
