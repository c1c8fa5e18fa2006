-- ===== src/Kiss/Escape.antt =====
-- What csp_kiss_rx makes of the escaped bytes of a frame.
use mathlib.Core.Path.{ap₂}
use damat_tutorial.Prelude.{
  ℕ, suc, ◌+◌, ◌<◌, ◌≤◌, ◌≡◌, ◌≢◌, ◌∙◌, refl, ap, sym, false, arith, some, List, [], ◌∷◌, ◌++◌,
  ◌==◌, length, Bool-cases, inl, inr,
}
use damat_tutorial.Packet.{Packet}
use damat_tutorial.Packet.Bytes.{write_bytes, write_bytes-nil, write_bytes-cons, length-write_bytes}
use damat_tutorial.Kiss.{
  fend, fesc, tfend, tfesc, escape, Receiver, started, escaped, drop_long, rx_byte, kiss_rx,
  continue_rx,
}

-- A receiver in a frame of which n bytes are in `buf`.
abbrev pub in_frame : Receiver → Packet → ℕ → List ℕ → Receiver
in_frame r p n buf = record r {
  rx_mode = started;
  rx_first = false;
  rx_packet = some (record p { buf = buf });
  rx_length = n;
}

pub kiss_rx-cons :
    (version byte : ℕ) (bytes : List ℕ) (r next : Receiver)
    → rx_byte version byte r ≡ some next
    → kiss_rx version (byte ∷ bytes) r ≡ kiss_rx version bytes next
unfolding kiss_rx
kiss_rx-cons version byte bytes r next e = rw (e, continue_rx) refl

pub drop_long_none : (r : Receiver) → r.rx_length < r.max_rx_length → drop_long r ≡ r
unfolding drop_long
drop_long_none r h = ground arith

module _ (version : ℕ) (r : Receiver) (p : Packet) (n : ℕ) (buf : List ℕ)
    (fits : n < r.max_rx_length) (inside : p.frame_begin + n < length buf) where
  written : ℕ → Receiver
  written b = in_frame r p (n + 1) (write_bytes buf (p.frame_begin + n) (b ∷ []))

  data_byte :
      (b : ℕ) → b ≢ fend → b ≢ fesc → rx_byte version b (in_frame r p n buf) ≡ some (written b)
  unfolding rx_byte written
  data_byte b not_end not_esc = ground arith

  esc_byte :
      rx_byte version fesc (in_frame r p n buf)
      ≡ some (record (in_frame r p n buf) { rx_mode = escaped })
  unfolding rx_byte
  esc_byte = ground arith

  escaped_end :
      rx_byte version tfend (record (in_frame r p n buf) { rx_mode = escaped })
      ≡ some (written fend)
  unfolding rx_byte written
  escaped_end = ground arith

  escaped_esc :
      rx_byte version tfesc (record (in_frame r p n buf) { rx_mode = escaped })
      ≡ some (written fesc)
  unfolding rx_byte written
  escaped_esc = ground arith

  -- One byte of the frame, escaped or not
  one_byte :
      (b : ℕ) (bytes rest : List ℕ)
      → kiss_rx version (escape (b ∷ bytes) ++ rest) (in_frame r p n buf)
        ≡ kiss_rx version (escape bytes ++ rest) (written b)
  unfolding escape
  one_byte b bytes rest = elim (Bool-cases (b == fend)) [
    | inl is_end ↦
        let e : fend ≡ b = ground arith in
        rw is_end (
          kiss_rx-cons version fesc (tfend ∷ (escape bytes ++ rest)) (in_frame r p n buf)
            (record (in_frame r p n buf) { rx_mode = escaped }) esc_byte
          ∙ kiss_rx-cons version tfend (escape bytes ++ rest)
              (record (in_frame r p n buf) { rx_mode = escaped }) (written fend) escaped_end
          ∙ ap (λ x. kiss_rx version (escape bytes ++ rest) (written x)) e)
    | inr not_end ↦ elim (Bool-cases (b == fesc)) [
      | inl is_esc ↦
          let e : fesc ≡ b = ground arith in
          rw (not_end, is_esc)
            (kiss_rx-cons version fesc (tfesc ∷ (escape bytes ++ rest)) (in_frame r p n buf)
                (record (in_frame r p n buf) { rx_mode = escaped }) esc_byte
              ∙ kiss_rx-cons version tfesc (escape bytes ++ rest)
                  (record (in_frame r p n buf) { rx_mode = escaped }) (written fesc) escaped_esc
              ∙ ap (λ x. kiss_rx version (escape bytes ++ rest) (written x)) e)
      | inr plain ↦
          rw (not_end, plain)
            (kiss_rx-cons version b (escape bytes ++ rest) (in_frame r p n buf) (written b)
              (data_byte b (ground arith) (ground arith)))
    ]
  ]

-- The bytes of a frame, escaped, are written one behind the other.
pub kiss_rx-escape :
    (version : ℕ) (r : Receiver) (p : Packet) (bytes rest : List ℕ) (n : ℕ) (buf : List ℕ)
    → n + length bytes ≤ r.max_rx_length
    → p.frame_begin + n + length bytes ≤ length buf
    → kiss_rx version (escape bytes ++ rest) (in_frame r p n buf)
      ≡ kiss_rx version rest
          (in_frame r p (n + length bytes) (write_bytes buf (p.frame_begin + n) bytes))
unfolding escape written
kiss_rx-escape version r p [] rest n buf fits inside =
    ap₂ (λ m t. kiss_rx version rest (in_frame r p m t)) {x = n} {y = n + 0} (omega arith)
      (sym (write_bytes-nil buf (p.frame_begin + n)))
kiss_rx-escape version r p (b ∷ bytes) rest n buf fits inside =
    one_byte version r p n buf (omega arith) (omega arith) b bytes rest
    ∙ kiss_rx-escape version r p bytes rest (n + 1) (write_bytes buf (p.frame_begin + n) (b ∷ []))
        (omega arith) (omega (arith, length-write_bytes buf (p.frame_begin + n) (b ∷ [])))
    ∙ ap₂ (λ m t. kiss_rx version rest (in_frame r p m t)) {x = n + 1 + length bytes}
        {y = n + suc (length bytes)} (omega arith)
        (ap (λ i. write_bytes (write_bytes buf (p.frame_begin + n) (b ∷ [])) i bytes)
            {x = p.frame_begin + (n + 1)} {y = p.frame_begin + n + 1} (omega arith)
          ∙ write_bytes-cons buf (p.frame_begin + n) b bytes)
