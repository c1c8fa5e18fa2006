-- ===== src/Sfp/Sending.antt =====
-- csp_sfp_send: the fragments that it makes of the data.
use damat_tutorial.Prelude.{
  ℕ, zero, suc, ◌+◌, ◌-◌, ◌*◌, ◌%◌, ◌^◌, ◌<◌, ◌≤◌, ◌≡◌, ◌∙◌, refl, ap, sym, false, arith, All, some,
  List, [], ◌∷◌, ◌++◌, map, ltb, ◌==◌, Bool-cases, inl, inr, length, bit_or,
}
use mathlib.Core.List.{append_assoc, append-nil}
use damat_tutorial.Prelude.Int.{ℤ, pos}
use damat_tutorial.Packet.{PacketId, Packet, padding_bytes}
use damat_tutorial.Sfp.{
  Sender, next_size, fragment, send_loop, sfp_send, send_one, buffer_get, first_of,
}
use damat_tutorial.Sfp.Header.{fragment-IsFragment}
use damat_tutorial.Sfp.Fragments.{Fragments, all_sent, one_more}

-- The buffer holds `data_size` bytes behind its padding.
abbrev pub Whole : ℕ → Packet → Type 0
Whole data_size p = padding_bytes + data_size ≤ length p.buf

module _ (data_size : ℕ) (bytes : List ℕ) (totalsize mtu : ℕ) (some_mtu : 0 < mtu)
    (fits : mtu + 8 ≤ data_size) (small_buffer : data_size < 2 ^ 16) (small : totalsize < 2 ^ 32)
    (whole_data : totalsize ≤ length bytes) where
  -- The loop ends well, and what it has sent are the fragments from `count` on.
  send_loop-Fragments :
      (fuel count : ℕ) (s : Sender) (supply : List Packet)
      → s.supply ≡ map some supply
      → All (Whole data_size) supply
      → totalsize - count ≤ length supply * mtu
      → totalsize < count + fuel
      → (s' : Sender) × (fragments : List Packet) × (send_loop data_size bytes totalsize mtu fuel
            count s
          ≡ (pos 0, s'))
        × (s'.sent ≡ s.sent ++ fragments)
        × Fragments bytes totalsize mtu count fragments
  unfolding send_loop
  send_loop-Fragments zero count s supply e v enough fuel_left =
      (s, [], refl, sym (append-nil s.sent), all_sent (omega arith))
  send_loop-Fragments (suc fuel) count s [] e v enough fuel_left =
      let finished : ltb count totalsize ≡ false = ground arith in
      (s, [], rw finished refl, sym (append-nil s.sent), all_sent (omega arith))
  send_loop-Fragments (suc fuel) count s (p ∷ supply) e (room, v) enough fuel_left =
      elim (Bool-cases (ltb count totalsize)) [
        | inr finished ↦ (s, [], rw finished refl, sym (append-nil s.sent), all_sent (ground arith))
        | inl going ↦
            let size : ℕ = next_size totalsize mtu count in
            let some_size : 0 < size = ground arith in
            let below_mtu : size ≤ mtu = ground arith in
            let inside : count + size ≤ totalsize = ground arith in
            let moved : (count + size) % 2 ^ 32 ≡ count + size = omega arith in
            let idout : PacketId = record (s.idout) { flags = bit_or s.idout.flags 0x10 } in
            let f : Packet = fragment idout bytes totalsize count size p in
            let s1 : Sender = record {
              idout = idout;
              supply = map some supply;
              sent = s.sent ++ f ∷ [];
            } in
            let enough_later : totalsize - (count + size) ≤ length supply * mtu = ground arith in
            let granted : ltb data_size (mtu + 8) ≡ false = ground arith in
            let given : buffer_get data_size (mtu + 8) s.supply ≡ (some p, map some supply) =
              rw granted (ap first_of e) in
            let rest : Sender → ℤ × Sender =
              λ s'. send_loop data_size bytes totalsize mtu fuel ((count + size) % 2 ^ 32) s' in
            let cut : PacketId → Packet → Packet =
              λ idout p. fragment idout bytes totalsize count size p in
            let is_fragment =
              fragment-IsFragment idout s.idout.flags bytes totalsize count size p refl
                (omega arith) small inside whole_data (omega arith) in
            let (s', fragments, runs, sent, later) =
              send_loop-Fragments fuel (count + size) s1 supply refl v enough_later (omega arith) in
            (
              s',
              f ∷ fragments,
              rw going (
                  ap (λ o. send_one rest cut o s) given
                  ∙ ap (λ n. send_loop data_size bytes totalsize mtu fuel n s1) moved
                  ∙ runs),
              sent ∙ append_assoc s.sent (f ∷ []) fragments,
              one_more size f some_size below_mtu inside is_fragment later,
            )
      ]

-- csp_sfp_send of data below 4 GB in chunks of an mtu above 0, that fit a buffer with their headers, and
-- with a buffer for each: it answers CSP_ERR_NONE, and the packets that it sent are the fragments of
-- the data.
pub sfp_send-Fragments :
    (data_size : ℕ) (bytes : List ℕ) (mtu : ℕ) (s : Sender) (supply : List Packet)
    → 0 < mtu
    → mtu + 8 ≤ data_size
    → data_size < 2 ^ 16
    → length bytes < 2 ^ 32
    → s.supply ≡ map some supply
    → All (Whole data_size) supply
    → length bytes ≤ length supply * mtu
    → (s' : Sender) × (fragments : List Packet) × (sfp_send data_size bytes (length bytes) mtu s
        ≡ (pos 0, s'))
      × (s'.sent ≡ s.sent ++ fragments)
      × Fragments bytes (length bytes) mtu 0 fragments
unfolding sfp_send
sfp_send-Fragments data_size bytes mtu s supply some_mtu fits small_buffer small e v enough =
    let not_zero : (mtu == 0) ≡ false = ground arith in
    let (s', fragments, runs, sent, rest) =
      send_loop-Fragments data_size bytes (length bytes) mtu some_mtu fits small_buffer small
        (omega arith) (suc (length bytes)) 0 s supply e v (omega arith) (omega arith) in
    (s', fragments, rw not_zero runs, sent, rest)
