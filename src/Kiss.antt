-- ===== src/Kiss.antt =====
-- libcsp/src/interfaces/csp_if_kiss.c: frames on a serial line. A frame lies between two FEND bytes,
-- behind a TNC_DATA byte, and FEND and FESC inside it are escaped. The packet that is received
-- belongs to the receiver from csp_buffer_get until csp_qfifo_write, so it is a value here: `supply`
-- holds what the calls of csp_buffer_get will give, and `delivered` what csp_qfifo_write was given.
-- A write outside the packet, or without one, is a fault, the `none` of an operation.
pub mod Escape
pub mod Frame
pub mod Sent
pub mod RoundTrip
pub mod Stream
pub mod Sound
pub mod Safety
mod Tests
use damat_tutorial.Prelude.{
  ℕ, ◌+◌, ◌%◌, ◌^◌, Bool, true, false, Option, none, some, List, [], ◌∷◌, ◌++◌, if◌then◌else◌, ltb,
  leb, ◌==◌, length,
}
use damat_tutorial.Prelude.Int.{ℤ, pos, negsuc}
use damat_tutorial.Packet.{Packet}
use damat_tutorial.Packet.Bytes.{write_bytes}
use damat_tutorial.Id.{id_prepend, id_strip, id_setup_rx}
use damat_tutorial.Crc.{crc32_append, crc32_verify, frame_bytes}

abbrev pub fend : ℕ
fend = 0xc0

abbrev pub fesc : ℕ
fesc = 0xdb

abbrev pub tfend : ℕ
tfend = 0xdc

abbrev pub tfesc : ℕ
tfesc = 0xdd

abbrev pub tnc_data : ℕ
tnc_data = 0x00

-- The loop of csp_kiss_tx over the bytes of the frame: what it gives to tx_func.
unfoldable pub escape : List ℕ → List ℕ
escape [] = []
escape (b ∷ bytes) =
    (if b == fend then fesc ∷ tfend ∷ [] else (if b == fesc then fesc ∷ tfesc ∷ [] else b ∷ []))
    ++ escape bytes

-- The packet as csp_kiss_tx sends it: with the checksum, if there is room for it, and the header.
unfoldable pub outgoing : Bool → ℕ → ℕ → Packet → Packet
outgoing with_header version data_size p =
    id_prepend version (crc32_append with_header version data_size p).1

-- csp_kiss_tx, less the lock and the release of the packet: the bytes that the driver is given.
unfoldable pub kiss_tx : Bool → ℕ → ℕ → Packet → List ℕ
unfolding outgoing escape
kiss_tx with_header version data_size p =
    fend ∷ tnc_data ∷ (escape (frame_bytes (outgoing with_header version data_size p)) ++ fend ∷ [])

-- csp_kiss_mode_t
pub data Mode : Type 0 where
  not_started started escaped skip_frame : Mode

-- csp_kiss_interface_data_t, and two counters of the interface
pub record Receiver : Type 0 where
  pub max_rx_length : ℕ
  pub rx_mode : Mode
  pub rx_length : ℕ
  pub rx_first : Bool
  pub rx_packet : Option Packet
  pub rx_error : ℕ
  pub frame : ℕ
  pub supply : List (Option Packet)
  pub delivered : List Packet

unfoldable pub count_error : Receiver → Receiver
count_error r = record r { rx_error = (r.rx_error + 1) % 2 ^ 32 }

-- The test before the switch
unfoldable pub drop_long : Receiver → Receiver
unfolding count_error
drop_long r =
    if leb r.max_rx_length r.rx_length
    then record (count_error r) { rx_mode = not_started; rx_length = 0 }
    else r

-- csp_buffer_get(0), if the receiver has no packet left
abbrev pub supplied : List (Option Packet) → Receiver → Receiver
supplied [] r = r
supplied (p ∷ later) r = record r { rx_packet = p; supply = later }

abbrev pub allocated : Option Packet → Receiver → Receiver
allocated none r = supplied r.supply r
allocated (some p) r = r

-- The start of a frame, with a packet or without one
abbrev pub start_with : ℕ → Option Packet → Receiver → Receiver
start_with version none r = record r { rx_mode = skip_frame }
start_with version (some p) r = record r {
  rx_packet = some (id_setup_rx version p).1;
  rx_length = 0;
  rx_mode = started;
  rx_first = true;
}

unfoldable pub on_not_started : ℕ → ℕ → Receiver → Receiver
on_not_started version byte r =
    let got = allocated r.rx_packet r in
    if byte == fend then start_with version got.rx_packet got else r

-- rx_packet->frame_begin[rx_length++] = byte
abbrev pub put_byte : ℕ → Option Packet → Receiver → Option Receiver
put_byte byte none r = none
put_byte byte (some p) r =
    if ltb (p.frame_begin + r.rx_length) (length p.buf)
    then some (record r {
      rx_packet =
          some (record p { buf = write_bytes p.buf (p.frame_begin + r.rx_length) (byte ∷ []) });
      rx_length = r.rx_length + 1;
    })
    else none

unfoldable pub store : ℕ → Receiver → Option Receiver
store byte r = put_byte byte r.rx_packet r

-- The end of a frame: what csp_crc32_verify answers, and what csp_id_strip answers
abbrev pub checked : ℤ × Packet → Receiver → Receiver
checked (pos n, p) r =
    if n == 0
    then record r { rx_packet = none; rx_mode = not_started; delivered = r.delivered ++ p ∷ [] }
    else record (count_error r) { rx_packet = some p; rx_mode = not_started }
checked (negsuc n, p) r = record (count_error r) { rx_packet = some p; rx_mode = not_started }

abbrev pub stripped : ℕ → ℤ × Packet → Receiver → Receiver
stripped version (negsuc n, p) r = record (count_error r) {
  rx_packet = some p;
  rx_mode = not_started;
}
stripped version (pos n, p) r =
    checked (crc32_verify version p) (record r { frame = (r.frame + 1) % 2 ^ 32 })

abbrev pub accept_packet : ℕ → Option Packet → Receiver → Option Receiver
accept_packet version none r = none
accept_packet version (some p) r =
    some (stripped version (id_strip version (record p { frame_length = r.rx_length % 2 ^ 16 })) r)

unfoldable pub accept : ℕ → Receiver → Option Receiver
unfolding count_error
accept version r = accept_packet version r.rx_packet r

unfoldable pub on_started : ℕ → ℕ → Receiver → Option Receiver
unfolding store accept
on_started version byte r =
    if byte == fesc
    then some (record r { rx_mode = escaped })
    else (if byte == fend
        then (if ltb 0 r.rx_length then accept version r else some r)
        else (if r.rx_first then some (record r { rx_first = false }) else store byte r))

-- An escaped byte; any byte but TFESC and TFEND is dropped.
abbrev pub unescape : ℕ → Receiver → Option Receiver
unescape byte r =
    if byte == tfesc then store fesc r else (if byte == tfend then store fend r else some r)

abbrev pub resume : Option Receiver → Option Receiver
resume none = none
resume (some r) = some (record r { rx_mode = started })

unfoldable pub on_escaped : ℕ → Receiver → Option Receiver
unfolding store
on_escaped byte r = resume (unescape byte r)

unfoldable pub on_skip_frame : ℕ → Receiver → Receiver
on_skip_frame byte r = if byte == fend then record r { rx_mode = not_started } else r

-- The switch on the mode
abbrev pub on_byte : ℕ → Mode → ℕ → Receiver → Option Receiver
on_byte version not_started byte r = some (on_not_started version byte r)
on_byte version started byte r = on_started version byte r
on_byte version escaped byte r = on_escaped byte r
on_byte version skip_frame byte r = some (on_skip_frame byte r)

unfoldable pub rx_byte : ℕ → ℕ → Receiver → Option Receiver
unfolding drop_long on_not_started on_started on_escaped on_skip_frame
rx_byte version byte r = let r' = drop_long r in on_byte version r'.rx_mode byte r'

-- csp_kiss_rx
abbrev pub continue_rx : (Receiver → Option Receiver) → Option Receiver → Option Receiver
continue_rx rest none = none
continue_rx rest (some r) = rest r

unfoldable pub kiss_rx : ℕ → List ℕ → Receiver → Option Receiver
unfolding rx_byte
kiss_rx version [] r = some r
kiss_rx version (byte ∷ bytes) r =
    continue_rx (λ next. kiss_rx version bytes next) (rx_byte version byte r)
