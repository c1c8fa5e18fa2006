-- ===== src/Kiss/Stream.antt =====
-- A stream of packets over a KISS line.
use damat_tutorial.Prelude.{
  ℕ, ◌+◌, ◌^◌, ◌<◌, ◌≡◌, ◌∙◌, refl, ap, sym, false, arith, none, some, List, [], ◌∷◌, ◌++◌, length,
  map, All,
}
use mathlib.Core.List.{append_assoc, append-nil}
use damat_tutorial.Packet.{Packet, padding_bytes}
use damat_tutorial.Id.RoundTrip.{Fits}
use damat_tutorial.Crc.RoundTrip.{SameData}
use damat_tutorial.Kiss.{kiss_tx, not_started, Receiver, allocated, supplied, kiss_rx}
use damat_tutorial.Kiss.Sent.{header_of}
use damat_tutorial.Kiss.RoundTrip.{kiss_rx-kiss_tx}

-- What csp_kiss_tx gives to the driver for one packet after the other
unfoldable pub line : ℕ → ℕ → List Packet → List ℕ
line version data_size [] = []
line version data_size (p ∷ packets) =
    kiss_tx false version data_size p ++ line version data_size packets

-- A packet that the receiver has room for
abbrev pub Sendable : ℕ → ℕ → Packet → Type 0
Sendable version data_size p =
    Fits version p.id
    × (length p.buf ≡ padding_bytes + data_size)
    × (p.len + 4 + header_of version p < data_size)

-- The two lists agree packet by packet.
abbrev pub AllSame : List Packet → List Packet → Type 0
AllSame [] [] = Unit
AllSame [] (q ∷ qs) = ⊥
AllSame (p ∷ ps) [] = ⊥
AllSame (p ∷ ps) (q ∷ qs) = SameData p q × AllSame ps qs

-- A receiver between two frames, with no packet, and buffers to come
pub record IsReady (data_size : ℕ) (buffers : List Packet) (r : Receiver) : Type 0 where
  pub mode : r.rx_mode ≡ not_started
  pub max : r.max_rx_length ≡ data_size
  pub length : r.rx_length < data_size
  pub packet : r.rx_packet ≡ none
  pub supply : r.supply ≡ map some buffers

allocated_first :
    (r : Receiver) (b : Packet) (buffers : List Packet)
    → r.rx_packet ≡ none
    → r.supply ≡ some b ∷ map some buffers
    → ((allocated r.rx_packet r).rx_packet ≡ some b)
      × ((allocated r.rx_packet r).supply ≡ map some buffers)
allocated_first r b buffers packet supply = (
  ap (λ o. (allocated o r).rx_packet) packet ∙ ap (λ l. (supplied l r).rx_packet) supply,
  ap (λ o. (allocated o r).supply) packet ∙ ap (λ l. (supplied l r).supply) supply,
)

-- On either version of the header, packets that csp_kiss_tx sends one behind the other on a line are
-- delivered by csp_kiss_rx in their order, each with its identifier, its length and its data, with
-- no error and no fault. Each fits its header and has a buffer of CSP_BUFFER_SIZE bytes, and with
-- header and checksum it is shorter than max_rx_length; the checksum leaves the header out, and
-- csp_buffer_get has a buffer for each packet.
pub kiss_rx-line :
    (version data_size : ℕ) (packets buffers : List Packet) (r : Receiver)
    → data_size + 6 < 2 ^ 16
    → All (Sendable version data_size) packets
    → All (λ b. length b.buf ≡ padding_bytes + data_size) buffers
    → length packets ≡ length buffers
    → IsReady data_size buffers r
    → (r' : Receiver) × (outs : List Packet) × (kiss_rx version (line version data_size packets) r
        ≡ some r')
      × (r'.delivered ≡ r.delivered ++ outs)
      × AllSame packets outs
      × (r'.rx_error ≡ r.rx_error)
unfolding line
kiss_rx-line version data_size [] buffers r small ok room same ready =
    (r, [], unfold kiss_rx in refl, sym (append-nil r.delivered), tt, refl)
kiss_rx-line version data_size (p ∷ packets) [] r small ok room same ready = absurd (omega arith)
kiss_rx-line version data_size (p ∷ packets) (b ∷ buffers) r small ok room same ready =
    let first = allocated_first r b buffers ready.packet ready.supply in
    let (r1, run, d) =
      kiss_rx-kiss_tx version data_size p b r (line version data_size packets) ok.0.0 ok.0.1 room.0
        small ok.0.2
        (record { mode = ready.mode; max = ready.max; length = ready.length; packet = first.0 }) in
    let (r2, outs, rest, delivered, all, errors) =
      kiss_rx-line version data_size packets buffers r1 small ok.1 room.1 (omega arith) (record {
        mode = d.mode;
        max = d.max ∙ ready.max;
        length = omega (arith, d.length, d.max, ready.max);
        packet = d.packet;
        supply = d.supply ∙ first.1;
      }) in
    (
      r2,
      d.out ∷ outs,
      run ∙ rest,
      delivered ∙ ap (λ l. l ++ outs) d.delivered ∙ append_assoc r.delivered (d.out ∷ []) outs,
      (d.same, all),
      errors ∙ d.errors,
    )
