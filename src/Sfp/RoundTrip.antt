-- ===== src/Sfp/RoundTrip.antt =====
-- csp_sfp_recv_fp of what csp_sfp_send has sent.
use mathlib.Core.Path.{subst}
use damat_tutorial.Prelude.{
  ℕ, ◌+◌, ◌*◌, ◌^◌, ◌<◌, ◌≤◌, ◌≡◌, ◌∙◌, refl, ap, sym, arith, All, Option, none, some, List, [],
  ◌∷◌, ◌++◌, map, length,
}
use damat_tutorial.Prelude.Int.{pos}
use damat_tutorial.Prelude.Segments.{take-all}
use damat_tutorial.Packet.{Packet}
use damat_tutorial.Sfp.{Sender, Received, sfp_send, recv_fp, at_start, got_memory}
use damat_tutorial.Sfp.Fragments.{Fragments}
use damat_tutorial.Sfp.Sending.{Whole, sfp_send-Fragments}
use damat_tutorial.Sfp.Receiving.{with_all, recv_loop-Fragments}

-- Packets as csp_read gives them, packet number k of them in the buffer `place k`
abbrev pub arrived : (ℕ → ℕ) → ℕ → List Packet → List Received
arrived place k [] = []
arrived place k (p ∷ ps) = record { buffer = place k; packet = p } ∷ arrived place (k + 1) ps

arrived-packets :
    (place : ℕ → ℕ) (k : ℕ) (ps : List Packet) → map (λ x. x.packet) (arrived place k ps) ≡ ps
arrived-packets place k [] = refl
arrived-packets place k (p ∷ ps) = ap (λ t. p ∷ t) (arrived-packets place (k + 1) ps)

-- Some bytes, less than 4 GB, sent by csp_sfp_send in chunks of an mtu above 0, where a chunk with its
-- header fits a buffer and csp_buffer_get has a buffer for each: it answers CSP_ERR_NONE. When its
-- packets arrive in their order and malloc gives memory, csp_sfp_recv_fp answers CSP_ERR_NONE with
-- these bytes and their number, has freed the buffer of each packet, and leaves the packets behind them.
pub recv_fp-sfp_send :
    (data_size : ℕ) (bytes m : List ℕ) (mtu : ℕ) (s : Sender) (supply : List Packet)
    (malloc : ℕ → Option (List ℕ)) (place : ℕ → ℕ) (later : List Received)
    → 0 < length bytes
    → length bytes < 2 ^ 32
    → 0 < mtu
    → mtu + 8 ≤ data_size
    → data_size < 2 ^ 16
    → s.supply ≡ map some supply
    → All (Whole data_size) supply
    → length bytes ≤ length supply * mtu
    → malloc (length bytes) ≡ some m
    → length m ≡ length bytes
    → (s' : Sender) × (sent : List Packet) × (sfp_send data_size bytes (length bytes) mtu s
        ≡ (pos 0, s'))
      × (s'.sent ≡ s.sent ++ sent)
      × (recv_fp malloc none (arrived place 0 sent ++ later)
          ≡ with_all bytes (length bytes) (map (λ x. x.buffer) (arrived place 0 sent)) later)
unfolding recv_fp
recv_fp-sfp_send data_size bytes m mtu s supply malloc place later some_bytes small some_mtu fits
      small_buffer e v enough memory size =
    let (s', sent, runs, given, fragments) =
      sfp_send-Fragments data_size bytes mtu s supply some_mtu fits small_buffer small e v enough in
    (
      s',
      sent,
      runs,
      given,
      recv_loop-Fragments malloc bytes m (length bytes) mtu 0 (arrived place 0 sent) later at_start
            small (omega arith) some_bytes
            (subst (Fragments bytes (length bytes) mtu 0) (sym (arrived-packets place 0 sent))
              fragments)
            (record {
              offset = refl;
              ready = ap (λ o. got_memory (length bytes) o at_start) memory;
              whole = size;
              same = refl;
            })
          ∙ ap (λ d. with_all d (length bytes) (map (λ x. x.buffer) (arrived place 0 sent)) later)
              (take-all (length bytes) bytes (omega arith)),
    )
