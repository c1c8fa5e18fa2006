-- ===== src/Kiss/Tests.antt =====
-- Runs of csp_if_kiss.c, and its theorems at concrete packets and bytes.
use damat_tutorial.Prelude.{
  ℕ, ◌≡◌, refl, false, ◌-◌, arith, Option, none, some, List, [], ◌∷◌, ◌++◌, length, replicate,
}
use damat_tutorial.Packet.{Packet}
use damat_tutorial.Packet.Bytes.{write_bytes, read_bytes}
use damat_tutorial.Id.{id_prepend, id1_prepend, id1_pack, id_setup_rx, id1_setup_rx}
use damat_tutorial.Crc.{crc_tab, crc_step, crc_loop, crc32_memory, crc32_append}
use damat_tutorial.Kiss.{
  fend, fesc, tfend, tfesc, escape, outgoing, kiss_tx, Mode, not_started, started, Receiver,
  count_error, drop_long, on_not_started, store, accept, on_started, on_escaped, on_skip_frame,
  rx_byte, kiss_rx,
}
use damat_tutorial.Kiss.Stream.{line, Sendable, AllSame, kiss_rx-line}
use damat_tutorial.Kiss.Sound.{Returns}
use damat_tutorial.Kiss.Safety.{kiss_rx-Returns}

abbrev data_bytes : ℕ
data_bytes = 24

abbrev blank : Packet
blank = record {
  id = record { pri = 0; flags = 0; src = 0; dst = 0; dport = 0; sport = 0 };
  len = 0;
  frame_begin = 0;
  frame_length = 0;
  buf = replicate 32 0;
}

-- A packet with both bytes that have to be escaped
abbrev sample : Packet
sample = record blank {
  id = record { pri = 2; flags = 0; src = 3; dst = 5; dport = 10; sport = 17 };
  len = 3;
  buf = replicate 8 0 ++ (fend ∷ 7 ∷ fesc ∷ replicate 21 0);
}

abbrev idle_receiver : List (Option Packet) → Receiver
idle_receiver buffers = record {
  max_rx_length = data_bytes;
  rx_mode = not_started;
  rx_length = 0;
  rx_first = false;
  rx_packet = none;
  rx_error = 0;
  frame = 0;
  supply = buffers;
  delivered = [];
}

escaped_bytes : escape (fend ∷ 7 ∷ fesc ∷ []) ≡ fesc ∷ tfend ∷ 7 ∷ fesc ∷ tfesc ∷ []
unfolding escape
escaped_bytes = refl

abbrev outcome : Option Receiver → Option (Mode × ℕ × ℕ)
outcome none = none
outcome (some r) = some (r.rx_mode, r.rx_error, length r.delivered)

-- Without a packet the bytes up to the next FEND are skipped, and nothing is written.
no_buffer :
    outcome (kiss_rx 1 (fend ∷ 0 ∷ 1 ∷ 2 ∷ fend ∷ []) (idle_receiver [])) ≡ some (not_started, 0, 0)
unfolding kiss_rx rx_byte drop_long on_not_started on_skip_frame
no_buffer = refl

-- A packet as long as csp_kiss_add_interface lets the MTU be
abbrev longest : Packet
longest = record sample { len = data_bytes - 4; buf = replicate 32 0 }

-- The receiver drops it: with header and checksum it is longer than max_rx_length. The FEND at its
-- end then begins a frame.
longest_dropped :
    outcome (kiss_rx 1 (kiss_tx false 1 data_bytes longest) (idle_receiver (some blank ∷ [])))
    ≡ some (started, 1, 0)
unfolding kiss_rx rx_byte drop_long on_not_started on_started on_escaped on_skip_frame store accept
    count_error id1_setup_rx kiss_tx outgoing escape crc32_append id_prepend id1_prepend id1_pack
    id_setup_rx crc32_memory crc_loop crc_step crc_tab write_bytes read_bytes
longest_dropped = refl

sample_ok : Sendable 1 data_bytes sample
unfolding id_setup_rx id1_setup_rx
sample_ok = (
  record {
    pri = omega arith;
    dst = omega arith;
    src = omega arith;
    dport = omega arith;
    sport = omega arith;
    flags = omega arith;
  },
  refl,
  omega arith,
)

kiss_rx-line_example :
    (r' : Receiver) × (outs : List Packet) × (kiss_rx 1
        (line 1 data_bytes (sample ∷ sample ∷ []))
        (idle_receiver (some blank ∷ some blank ∷ []))
      ≡ some r')
    × (r'.delivered ≡ outs)
    × AllSame (sample ∷ sample ∷ []) outs
    × (r'.rx_error ≡ 0)
kiss_rx-line_example =
    kiss_rx-line 1 data_bytes (sample ∷ sample ∷ []) (blank ∷ blank ∷ [])
      (idle_receiver (some blank ∷ some blank ∷ [])) (omega arith) (sample_ok, (sample_ok, tt))
      (refl, (refl, tt)) refl
      (record { mode = refl; max = refl; length = omega arith; packet = refl; supply = refl })

kiss_rx-Returns_example : Returns data_bytes (
    kiss_rx 1
      (fend ∷ 0 ∷ 1 ∷ fesc ∷ tfend ∷ fesc ∷ 9 ∷ replicate 40 5)
      (idle_receiver (some blank ∷ none ∷ [])))
kiss_rx-Returns_example =
    kiss_rx-Returns 1 data_bytes (fend ∷ 0 ∷ 1 ∷ fesc ∷ tfend ∷ fesc ∷ 9 ∷ replicate 40 5)
      (idle_receiver (some blank ∷ none ∷ [])) (omega arith)
      (record { max = refl; room = tt; in_frame = tt; supply = (omega arith, (tt, tt)) })
