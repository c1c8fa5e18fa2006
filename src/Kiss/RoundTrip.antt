-- ===== src/Kiss/RoundTrip.antt =====
-- csp_kiss_tx and csp_kiss_rx against each other.
use damat_tutorial.Prelude.{
  if◌then◌else◌, lt→ltb, ℕ, ◌+◌, ◌%◌, ◌^◌, ◌<◌, ◌≤◌, ◌≡◌, ◌∙◌, refl, ap, false, arith, Option, none,
  some, List, [], ◌∷◌, ◌++◌, length,
}
use mathlib.Core.List.{append_assoc}
use damat_tutorial.Prelude.Int.{pos}
use damat_tutorial.Packet.{Packet, padding_bytes}
use damat_tutorial.Packet.Bytes.{write_bytes}
use damat_tutorial.Id.{id_strip, id_setup_rx}
use damat_tutorial.Id.RoundTrip.{Fits}
use damat_tutorial.Crc.{frame_bytes, crc32_verify}
use damat_tutorial.Crc.RoundTrip.{SameData}
use damat_tutorial.Kiss.{
  fend, tnc_data, escape, outgoing, kiss_tx, not_started, Receiver, supplied, on_byte,
  on_not_started, allocated, start_with, on_started, accept, stripped, checked, rx_byte, kiss_rx,
}
use damat_tutorial.Kiss.Escape.{in_frame, kiss_rx-cons, kiss_rx-escape, drop_long_none}
use damat_tutorial.Kiss.Frame.{with_header_of}
use damat_tutorial.Kiss.Sent.{
  header_of, setup_rx_lem, sent, outgoing-sent, sent_frame_length, length-frame_bytes, received,
  received_strips, received_verified,
}

-- A receiver between two frames, which has or gets the packet b.
pub record IsIdle (data_size : ℕ) (b : Packet) (r : Receiver) : Type 0 where
  pub mode : r.rx_mode ≡ not_started
  pub max : r.max_rx_length ≡ data_size
  pub length : r.rx_length < data_size
  pub packet : (allocated r.rx_packet r).rx_packet ≡ some b

-- What csp_kiss_rx leaves after a frame: the packet is delivered.
pub record Delivered (p : Packet) (r r' : Receiver) : Type 0 where
  pub out : Packet
  pub same : SameData p out
  pub delivered : r'.delivered ≡ r.delivered ++ out ∷ []
  pub mode : r'.rx_mode ≡ not_started
  pub packet : r'.rx_packet ≡ none
  pub supply : r'.supply ≡ (allocated r.rx_packet r).supply
  pub max : r'.max_rx_length ≡ r.max_rx_length
  pub length : r'.rx_length < r'.max_rx_length
  pub errors : r'.rx_error ≡ r.rx_error

-- csp_buffer_get changes only the packet and the supply.
abbrev SameRest : Receiver → Receiver → Type 0
SameRest r r' =
    (r'.max_rx_length ≡ r.max_rx_length) × (r'.rx_error ≡ r.rx_error) × (r'.delivered ≡ r.delivered)

supplied_rest : (l : List (Option Packet)) (r : Receiver) → SameRest r (supplied l r)
supplied_rest [] r = (refl, refl, refl)
supplied_rest (o ∷ l) r = (refl, refl, refl)

allocated_rest : (o : Option Packet) (r : Receiver) → SameRest r (allocated o r)
allocated_rest none r = supplied_rest r.supply r
allocated_rest (some q) r = (refl, refl, refl)

rx_byte_short :
    (version byte : ℕ) (r : Receiver)
    → r.rx_length < r.max_rx_length
    → rx_byte version byte r ≡ on_byte version r.rx_mode byte r
unfolding rx_byte
rx_byte_short version byte r h = ap (λ q. on_byte version q.rx_mode byte q) (drop_long_none r h)

module _ (version data_size : ℕ) (p b : Packet) (r : Receiver) (fits : Fits version p.id)
    (whole : length p.buf ≡ padding_bytes + data_size)
    (room : length b.buf ≡ padding_bytes + data_size) (small : data_size + 6 < 2 ^ 16)
    (frame_fits : p.len + 4 + header_of version p < data_size) (idle : IsIdle data_size b r) where
  empty : Packet
  empty = (id_setup_rx version b).1

  got : Receiver
  got = allocated r.rx_packet r

  begun : Receiver
  begun = start_with version (some b) got

  got_rest : SameRest r got
  unfolding got
  got_rest = allocated_rest r.rx_packet r

  first_byte : rx_byte version fend r ≡ some begun
  unfolding on_not_started begun got
  first_byte =
      rx_byte_short version fend r (omega (arith, idle.length, idle.max))
      ∙ ap (λ m. on_byte version m fend r) idle.mode
      ∙ ap (λ o. some (start_with version o got)) idle.packet

  second_byte : rx_byte version tnc_data begun ≡ some (in_frame got empty 0 empty.buf)
  unfolding on_started begun empty
  second_byte = rx_byte_short version tnc_data begun (omega (arith, got_rest.0, idle.max))

  frame : List ℕ
  frame = frame_bytes (sent version data_size p fits (omega arith) whole small)

  -- The receiver when all bytes of the frame are in
  complete : Receiver
  complete = in_frame got empty (length frame) (write_bytes empty.buf (empty.frame_begin + 0) frame)

  frame_length : length frame ≡ p.len + 4 + header_of version p
  unfolding frame
  frame_length =
      length-frame_bytes version data_size p fits (omega arith) whole small
      ∙ sent_frame_length version data_size p fits (omega arith) whole small

  frame_inside : (id_setup_rx version b).1.frame_begin + 0 + length frame ≤ length empty.buf
  unfolding empty
  frame_inside =
      omega
        (arith, frame_length, (setup_rx_lem version b p).0, ap length (setup_rx_lem version b p).1)

  all_but_last :
      (rest : List ℕ)
      → kiss_rx version (kiss_tx false version data_size p ++ rest) r
        ≡ kiss_rx version (fend ∷ rest) complete
  unfolding kiss_tx complete frame
  all_but_last rest =
      kiss_rx-cons version fend (tnc_data ∷ ((escape sent_bytes ++ fend ∷ []) ++ rest)) r begun
        first_byte
      ∙ kiss_rx-cons version tnc_data ((escape sent_bytes ++ fend ∷ []) ++ rest) begun
          (in_frame got empty 0 empty.buf) second_byte
      ∙ ap (λ l. kiss_rx version l (in_frame got empty 0 empty.buf))
          (append_assoc (escape sent_bytes) (fend ∷ []) rest
            ∙ ap (λ q. escape (frame_bytes q) ++ fend ∷ rest)
                (outgoing-sent version data_size p fits (omega arith) whole small))
      ∙ kiss_rx-escape version got empty frame (fend ∷ rest) 0 empty.buf
          (omega (arith, frame_length, got_rest.0, idle.max)) (unfold empty in frame_inside)
      ∙ ap
          (λ n.
            kiss_rx version (fend ∷ rest)
              (in_frame got empty n (write_bytes empty.buf (empty.frame_begin + 0) frame)))
          {x = 0 + length frame} {y = length frame} (omega arith)
    where
      sent_bytes : List ℕ
      sent_bytes = frame_bytes (outgoing false version data_size p)

  header_found : Packet
  header_found =
      with_header_of (sent version data_size p fits (omega arith) whole small)
        (received version data_size p fits (omega arith) whole small b)

  last_byte :
      (out : Packet)
      → crc32_verify version header_found ≡ (pos 0, out)
      → rx_byte version fend complete
        ≡ some (record complete {
          frame = (complete.frame + 1) % 2 ^ 32;
          rx_packet = none;
          rx_mode = not_started;
          delivered = complete.delivered ++ out ∷ [];
        })
  unfolding on_started accept complete empty frame header_found
  last_byte out verified =
      rx_byte_short version fend complete (omega (arith, frame_length, got_rest.0, idle.max))
      ∙ ap (λ t. if t then accept version complete else some complete)
          (lt→ltb 0 (length frame) (omega (arith, frame_length)))
      ∙ ap
          (λ n. some (
            stripped version
              (id_strip version (record empty {
                frame_length = n % 2 ^ 16;
                buf = write_bytes empty.buf (empty.frame_begin + 0) frame;
              }))
              complete))
          (length-frame_bytes version data_size p fits (omega arith) whole small)
      ∙ ap (λ o. some (stripped version o complete))
          (received_strips version data_size p fits (omega arith) whole small b room)
      ∙ ap (λ o. some (checked o (record complete { frame = (complete.frame + 1) % 2 ^ 32 })))
          verified

  done : Packet → Receiver
  done out = record complete {
    frame = (complete.frame + 1) % 2 ^ 32;
    rx_packet = none;
    rx_mode = not_started;
    delivered = complete.delivered ++ out ∷ [];
  }

  done-Delivered : (out : Packet) → SameData p out → Delivered p r (done out)
  unfolding done complete got
  done-Delivered out same = record {
    out = out;
    same = same;
    delivered = ap (λ l. l ++ out ∷ []) got_rest.2;
    mode = refl;
    packet = refl;
    supply = refl;
    max = got_rest.0;
    length = omega (arith, frame_length, got_rest.0, idle.max);
    errors = got_rest.1;
  }

  whole_frame :
      (rest : List ℕ)
      → (r' : Receiver) × (kiss_rx version (kiss_tx false version data_size p ++ rest) r
          ≡ kiss_rx version rest r')
        × Delivered p r r'
  unfolding header_found
  whole_frame rest =
      let (out, verified, same) =
        received_verified version data_size p fits (omega arith) whole small b room in
      (
        done out,
        all_but_last rest
            ∙ kiss_rx-cons version fend rest complete (done out)
                (unfold done in last_byte out verified),
        done-Delivered out same,
      )

-- On either version of the header, a packet that csp_kiss_tx sends, whatever follows it on the line,
-- takes an idle csp_kiss_rx to a state in which a packet with its identifier, its length and its
-- data has been delivered, no error is counted, and the receiver is idle again. The identifier fits
-- the header, both packets have buffers of CSP_BUFFER_SIZE bytes, the checksum leaves the header out,
-- and the frame with header and checksum is shorter than max_rx_length.
pub kiss_rx-kiss_tx :
    (version data_size : ℕ) (p b : Packet) (r : Receiver) (rest : List ℕ)
    → Fits version p.id
    → length p.buf ≡ padding_bytes + data_size
    → length b.buf ≡ padding_bytes + data_size
    → data_size + 6 < 2 ^ 16
    → p.len + 4 + header_of version p < data_size
    → IsIdle data_size b r
    → (r' : Receiver) × (kiss_rx version (kiss_tx false version data_size p ++ rest) r
        ≡ kiss_rx version rest r')
      × Delivered p r r'
kiss_rx-kiss_tx version data_size p b r rest fits whole room small frame_fits idle =
    whole_frame version data_size p b r fits whole room small frame_fits idle rest
